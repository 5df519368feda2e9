-- ===== src/Envelope/Filled.antt =====
-- The values that a submission stores: apps/api/src/modules/signing/field-values.ts.
use mathlib.Core.Path.{subst}
use president_tech_award_e_s.Prelude.{
  ℕ, ◌≡◌, refl, inl, inr, Bool, true, false, not, ◌&&◌, ◌||◌, Option, none, some, List, [], ◌∷◌,
  ◌==◌, any, All, All-map, arith, Bool-cases,
}
use president_tech_award_e_s.Calendar.{Instant}
use president_tech_award_e_s.Billing.Store.{Key}
use president_tech_award_e_s.Billing.Payme.Protocol.{Text, is_empty}
use president_tech_award_e_s.Envelope.Fields.{
  FieldType, Field, is_image, is_auto, is_offered, max_length, ResolvedFieldValues, put_value,
  or_empty, has_problem, resolve_typed, with_rule, resolve_field_values,
}

-- A box that must not stay empty: required, typed by the signer, and under a rule.
abbrev is_ruled : Option ℕ → Bool
is_ruled none = false
is_ruled (some n) = true

abbrev pub needs_value : Field → Bool
needs_value f = f.required && not (is_image f.type) && is_ruled (max_length f.type)

abbrev pub has_value : Key → List (Key × Text) → Bool
has_value id values = any (λ v. v.0 == id) values

abbrev pub IsFilled : List (Key × Text) → Field → Type 0
IsFilled values f = (not (needs_value f) || has_value f.id values) ≡ true

more_values :
    (id : Key) (value : Text) (values : List (Key × Text)) (f : Field)
    → IsFilled values f
    → IsFilled ((id, value) ∷ values) f
more_values id value values f h = ground arith

own_value :
    (value : Text) (values : List (Key × Text)) (f : Field) → IsFilled ((f.id, value) ∷ values) f
own_value value values f = ground arith

cons-empty : (k : Key) (ks : List Key) → (k ∷ ks) ≡ [] → ⊥
cons-empty k ks h = cc

module _ (valid : FieldType → Text → Bool) (trim : Text → Text) (iso_day : Instant → Text) where
  -- A box that is neither missing nor invalid has kept what was found, and is filled itself.
  abbrev Kept : Field → ResolvedFieldValues → ResolvedFieldValues → Type 0
  Kept f rest r =
      (rest.missing_required ≡ [])
      × (rest.invalid ≡ [])
      × IsFilled r.values f
      × ((g : Field) → IsFilled rest.values g → IsFilled r.values g)

  typed-Kept :
      (f : Field) (value : Text) (rest : ResolvedFieldValues)
      → (resolve_typed valid trim iso_day f value rest).missing_required ≡ []
      → (resolve_typed valid trim iso_day f value rest).invalid ≡ []
      → Kept f rest (resolve_typed valid trim iso_day f value rest)
  unfolding resolve_typed
  typed-Kept f value rest m i = elim (Bool-cases (is_empty value)) [
    | inl blank ↦ elim (Bool-cases f.required) [
      | inl needed ↦
          absurd (cons-empty f.id rest.missing_required (rw (resolve_typed, blank, needed) at m))
      | inr free ↦
          rw (resolve_typed, blank, free)
            (
              (rw (resolve_typed, blank, free) at m),
              (rw (resolve_typed, blank, free) at i),
              ground arith,
              (λ g h. h),
            )
    ]
    | inr given ↦
        elim (Bool-cases (
          not (is_offered valid trim iso_day f value)
          || has_problem valid trim iso_day f.type value)) [
            | inl wrong ↦
                absurd (cons-empty f.id rest.invalid (rw (resolve_typed, given, wrong) at i))
            | inr right ↦
                rw (resolve_typed, given, right)
                  (
                    (rw (resolve_typed, given, right) at m),
                    (rw (resolve_typed, given, right) at i),
                    own_value value rest.values f,
                    (λ g h. more_values f.id value rest.values g h),
                  )
          ]
  ]

  rule-Kept :
      (o : Option ℕ) (f : Field) (supplied : Option Text) (rest : ResolvedFieldValues)
      → max_length f.type ≡ o
      → (with_rule valid trim iso_day o f supplied rest).missing_required ≡ []
      → (with_rule valid trim iso_day o f supplied rest).invalid ≡ []
      → Kept f rest (with_rule valid trim iso_day o f supplied rest)
  rule-Kept none f supplied rest e m i = (m, i, ground arith, (λ g h. h))
  rule-Kept (some n) f supplied rest e m i = typed-Kept f (trim (or_empty supplied)) rest m i

  abbrev Keeps : Field → ResolvedFieldValues → ResolvedFieldValues → Type 0
  Keeps f rest r = r.missing_required ≡ [] → r.invalid ≡ [] → Kept f rest r

  step-Keeps :
      (f : Field) (fields : List Field) (supplied : Key → Option Text) (signed_at : Instant)
      → Keeps f
          (resolve_field_values valid trim iso_day fields supplied signed_at)
          (resolve_field_values valid trim iso_day (f ∷ fields) supplied signed_at)
  unfolding resolve_field_values
  step-Keeps f fields supplied signed_at =
      let rest = resolve_field_values valid trim iso_day fields supplied signed_at in
      let all = resolve_field_values valid trim iso_day (f ∷ fields) supplied signed_at in
      elim (Bool-cases (is_image f.type)) [
        | inl image ↦
            let e : rest ≡ all = rw image refl in
            subst (Keeps f rest) e (λ m i. (m, i, ground arith, (λ g h. h)))
        | inr typed ↦ elim (Bool-cases (is_auto f.type)) [
          | inl auto ↦
              let e : put_value f.id (iso_day signed_at) rest ≡ all = rw (typed, auto) refl in
              subst (Keeps f rest) e (λ m i. (
                m,
                i,
                own_value (iso_day signed_at) rest.values f,
                more_values f.id (iso_day signed_at) rest.values,
              ))
          | inr free ↦
              let e : with_rule valid trim iso_day (max_length f.type) f (supplied f.id) rest
                  ≡ all =
                rw (typed, free) refl in
              subst (Keeps f rest) e (rule-Kept (max_length f.type) f (supplied f.id) rest refl)
        ]
      ]

  -- Where no box is missing and none is invalid, every required box that the signer types has a value,
  -- whatever stands in the other boxes.
  pub resolve_field_values-IsFilled :
      (fields : List Field) (supplied : Key → Option Text) (signed_at : Instant)
      → (resolve_field_values valid trim iso_day fields supplied signed_at).missing_required ≡ []
      → (resolve_field_values valid trim iso_day fields supplied signed_at).invalid ≡ []
      → All
          (IsFilled (resolve_field_values valid trim iso_day fields supplied signed_at).values)
          fields
  resolve_field_values-IsFilled [] supplied signed_at m i = tt
  resolve_field_values-IsFilled (f ∷ fields) supplied signed_at m i =
      let rest = resolve_field_values valid trim iso_day fields supplied signed_at in
      let (m', i', here, keep) = step-Keeps f fields supplied signed_at m i in
      (
        here,
        All-map (IsFilled rest.values) _ fields keep
            (resolve_field_values-IsFilled fields supplied signed_at m' i'),
      )
