-- ===== src/Envelope/SignFields.antt =====
-- What the signing page asks of the signer before it lets them finish, and what it submits then:
-- apps/sign/lib/sign-fields.ts and apps/sign/app/sign/[token]/ceremony.tsx. A box is known by its id,
-- which every field has.
use president_tech_award_e_s.Prelude.{
  ℕ, Bool, true, false, not, ◌&&◌, ◌||◌, Option, none, some, List, [], ◌∷◌, ◌==◌, if◌then◌else◌,
  length, select,
}
use president_tech_award_e_s.Calendar.{Instant}
use president_tech_award_e_s.Billing.Store.{Key}
use president_tech_award_e_s.Billing.Payme.Protocol.{Text, is_empty}
use president_tech_award_e_s.Envelope.Fields.{
  FieldType, Field, is_image, is_auto, is_offered, or_empty, has_problem,
}

pub data FieldKind : Type 0 where
  signature auto input : FieldKind

unfoldable pub field_kind : Field → FieldKind
unfolding is_image is_auto
field_kind f =
    if is_image f.type
    then FieldKind.signature
    else if is_auto f.type
    then FieldKind.auto
    else FieldKind.input

abbrev pub is_input : FieldKind → Bool
is_input FieldKind.input = true
is_input _ = false

abbrev pub is_automatic : FieldKind → Bool
is_automatic FieldKind.auto = true
is_automatic _ = false

abbrev pub is_signature : FieldKind → Bool
is_signature FieldKind.signature = true
is_signature _ = false

-- The rules of `Fields`, with its parameters.
module _ (valid : FieldType → Text → Bool) (trim : Text → Text) (iso_day : Instant → Text) where
  -- `fieldProblem`, as whether there is one.
  unfoldable pub field_problem : Field → Text → Bool
  unfolding field_kind has_problem
  field_problem f value =
      if not (is_input (field_kind f))
      then false
      else if is_empty (trim value)
      then false
      else if not (is_offered valid trim iso_day f (trim value))
      then true
      else has_problem valid trim iso_day f.type (trim value)

  module _ (filled : Key → Option Text) where
    unfoldable pub is_unsigned : Field → Bool
    unfolding field_kind
    is_unsigned f =
        if not f.required
        then false
        else if is_automatic (field_kind f)
        then false
        else is_empty (trim (or_empty (filled f.id)))

    abbrev pub unsigned_fields : List Field → List Field
    unsigned_fields fields = select is_unsigned fields

    abbrev pub is_refused : Field → Bool
    is_refused f = field_problem f (or_empty (filled f.id))

    abbrev pub invalid_fields : List Field → List Field
    invalid_fields fields = select is_refused fields

    unfoldable pub blocking_fields : List Field → List Field
    unfolding is_unsigned field_problem
    blocking_fields fields = select (λ f. is_unsigned f || is_refused f) fields

    unfoldable pub can_finish : List Field → Bool
    unfolding blocking_fields
    can_finish fields = length (blocking_fields fields) == 0

    -- `Boolean(adopted)`
    abbrev pub is_adopted : Option Key → Bool
    is_adopted none = false
    is_adopted (some _) = true

    -- `ready`: the Finish button. `adopted` is the image of the mark that the signer made.
    unfoldable pub is_ready : List Field → Option Key → Bool
    unfolding can_finish
    is_ready fields adopted = can_finish fields && is_adopted adopted

    -- `signatureProgress`
    abbrev pub signature_progress : List Field → ℕ × ℕ
    signature_progress fields =
        let marks = select (λ f. is_signature (field_kind f)) fields in
        (length (select (λ f. not (is_empty (or_empty (filled f.id)))) marks), length marks)

    -- What `onFinish` submits: every box but the marks, where it is not empty.
    unfoldable pub finish_values : List Field → List (Key × Text)
    unfolding field_kind
    finish_values [] = []
    finish_values (f ∷ fs) =
        let rest = finish_values fs in
        if is_signature (field_kind f)
        then rest
        else if is_empty (or_empty (filled f.id))
        then rest
        else (f.id, or_empty (filled f.id)) ∷ rest

-- The submitted text of a box.
unfoldable pub submitted : List (Key × Text) → Key → Option Text
submitted [] id = none
submitted ((k, v) ∷ values) id = let rest = submitted values id in if k == id then some v else rest
