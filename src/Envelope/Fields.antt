-- ===== src/Envelope/Fields.antt =====
-- What a signer's boxes take: apps/api/src/modules/signing/field-values.ts, and the rules of
-- packages/contracts/src/index.ts.
use president_tech_award_e_s.Prelude.{
  ℕ, Bool, true, false, not, ◌||◌, Option, none, some, List, [], ◌∷◌, ltb, if◌then◌else◌, length,
  any,
}
use president_tech_award_e_s.Calendar.{Instant}
use president_tech_award_e_s.Billing.Store.{Key}
use president_tech_award_e_s.Billing.Payme.Protocol.{Text, text_eq, is_empty}

pub data FieldType : Type 0 where
  signature initial stamp date name first_name last_name email company title : FieldType
  text number phone address checkbox dropdown radio date_input : FieldType

-- `TemplateField`, as far as the values go.
pub record Field : Type 0 where
  pub id : Key
  pub type : FieldType
  pub required : Bool
  pub options : List Text
  pub recipient_key : Option Key

-- `IMAGE_KINDS`
unfoldable pub is_image : FieldType → Bool
is_image FieldType.signature = true
is_image FieldType.initial = true
is_image FieldType.stamp = true
is_image _ = false

-- `AUTO_KINDS`
unfoldable pub is_auto : FieldType → Bool
is_auto FieldType.date = true
is_auto _ = false

-- `CHOICE_KINDS`
unfoldable pub is_choice : FieldType → Bool
is_choice FieldType.dropdown = true
is_choice FieldType.radio = true
is_choice _ = false

-- `FIELD_VALUE_RULES[type]?.max`: the length of a box, `none` for a type without a rule.
unfoldable pub max_length : FieldType → Option ℕ
max_length FieldType.signature = none
max_length FieldType.initial = none
max_length FieldType.stamp = none
max_length FieldType.date = none
max_length FieldType.name = some 100
max_length FieldType.first_name = some 60
max_length FieldType.last_name = some 60
max_length FieldType.email = some 254
max_length FieldType.company = some 200
max_length FieldType.title = some 120
max_length FieldType.text = some 500
max_length FieldType.number = some 30
max_length FieldType.phone = some 30
max_length FieldType.address = some 300
max_length FieldType.checkbox = some 4
max_length FieldType.dropdown = some 120
max_length FieldType.radio = some 120
max_length FieldType.date_input = some 10

-- `ResolvedFieldValues`
pub record ResolvedFieldValues : Type 0 where
  pub values : List (Key × Text)
  pub missing_required : List Key
  pub invalid : List Key

abbrev pub no_values : ResolvedFieldValues
no_values = record { values = []; missing_required = []; invalid = [] }

abbrev pub put_value : Key → Text → ResolvedFieldValues → ResolvedFieldValues
put_value id value r = record r { values = (id, value) ∷ r.values }

abbrev pub add_missing : Bool → Key → ResolvedFieldValues → ResolvedFieldValues
add_missing required id r =
    if required then record r { missing_required = id ∷ r.missing_required } else r

abbrev pub add_invalid : Key → ResolvedFieldValues → ResolvedFieldValues
add_invalid id r = record r { invalid = id ∷ r.invalid }

abbrev pub or_empty : Option Text → Text
or_empty none = []
or_empty (some s) = s

-- The schema of a rule, `trim`, and the day of an instant as `toISOString` writes it.
module _ (valid : FieldType → Text → Bool) (trim : Text → Text) (iso_day : Instant → Text) where
  -- `fieldValueProblem`, as whether there is one.
  unfoldable pub has_problem : FieldType → Text → Bool
  unfolding max_length
  has_problem type value = elim (max_length type) [
    | none ↦ false
    | some longest ↦
        if is_empty (trim value)
        then false
        else (ltb longest (length (trim value)) || not (valid type (trim value)))
  ]

  abbrev pub is_offered : Field → Text → Bool
  is_offered field value = not (is_choice field.type) || any (λ o. text_eq o value) field.options

  -- A box that the signer types into.
  unfoldable pub resolve_typed : Field → Text → ResolvedFieldValues → ResolvedFieldValues
  unfolding has_problem
  resolve_typed field value rest =
      if is_empty value
      then add_missing field.required field.id rest
      else if not (is_offered field value) || has_problem field.type value
      then add_invalid field.id rest
      else put_value field.id value rest

  abbrev pub with_rule : Option ℕ → Field → Option Text → ResolvedFieldValues → ResolvedFieldValues
  with_rule none field supplied rest = rest
  with_rule (some longest) field supplied rest = resolve_typed field (trim (or_empty supplied)) rest

  -- `resolveFieldValues`; the values stand in the order of the fields.
  unfoldable pub resolve_field_values :
      List Field → (Key → Option Text) → Instant → ResolvedFieldValues
  unfolding resolve_typed is_image is_auto
  resolve_field_values [] supplied signed_at = no_values
  resolve_field_values (field ∷ fields) supplied signed_at =
      let rest = resolve_field_values fields supplied signed_at in
      if is_image field.type
      then rest
      else if is_auto field.type
      then put_value field.id (iso_day signed_at) rest
      else with_rule (max_length field.type) field (supplied field.id) rest
