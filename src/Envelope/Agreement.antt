-- ===== src/Envelope/Agreement.antt =====
-- The signing page and the server agree on what a complete form is: apps/sign/lib/sign-fields.ts and
-- apps/api/src/modules/signing/field-values.ts.
use president_tech_award_e_s.Prelude.{
  ℕ, ◌≡◌, refl, sym, ap, ◌∙◌, inl, inr, Bool, true, false, not, ◌&&◌, ◌||◌, Option, none, some,
  List, [], ◌∷◌, ◌==◌, if◌then◌else◌, length, select, every, any, All, All-map, arith, Bool-cases,
  ==_iff,
}
use president_tech_award_e_s.Calendar.{Instant}
use president_tech_award_e_s.Billing.Store.{Key}
use president_tech_award_e_s.Billing.Payme.Protocol.{Text, is_empty}
use president_tech_award_e_s.Envelope.Fields.{
  FieldType, Field, is_image, is_auto, is_offered, max_length, or_empty, has_problem,
  ResolvedFieldValues, resolve_typed, resolve_field_values,
}
use president_tech_award_e_s.Sealing.Completion.{image_of}
use president_tech_award_e_s.Envelope.SignFields.{
  field_kind, is_signature, field_problem, is_unsigned, is_refused, blocking_fields, can_finish,
  is_ready, finish_values, submitted,
}
use president_tech_award_e_s.Envelope.Submit.{Submitted, any_of, claim, submit_loaded}
use president_tech_award_e_s.Envelope.Link.{LoadedRequest, no_consent}
use president_tech_award_e_s.Envelope.Store.{Tables}

-- `submit` goes on.
abbrev pub is_accepted : ResolvedFieldValues → Bool
is_accepted r = not (any_of r.missing_required || any_of r.invalid)

-- Every type is a mark, the date of signing, or under a rule.
max_length_ruled :
    (t : FieldType) → is_image t ≡ false → is_auto t ≡ false → (n : ℕ) × (max_length t ≡ some n)
unfolding is_image is_auto max_length
max_length_ruled FieldType.signature a b = cc
max_length_ruled FieldType.initial a b = cc
max_length_ruled FieldType.stamp a b = cc
max_length_ruled FieldType.date a b = cc
max_length_ruled FieldType.name a b = (100, refl)
max_length_ruled FieldType.first_name a b = (60, refl)
max_length_ruled FieldType.last_name a b = (60, refl)
max_length_ruled FieldType.email a b = (254, refl)
max_length_ruled FieldType.company a b = (200, refl)
max_length_ruled FieldType.title a b = (120, refl)
max_length_ruled FieldType.text a b = (500, refl)
max_length_ruled FieldType.number a b = (30, refl)
max_length_ruled FieldType.phone a b = (30, refl)
max_length_ruled FieldType.address a b = (300, refl)
max_length_ruled FieldType.checkbox a b = (4, refl)
max_length_ruled FieldType.dropdown a b = (120, refl)
max_length_ruled FieldType.radio a b = (120, refl)
max_length_ruled FieldType.date_input a b = (10, refl)

empty_nil : (s : Text) → is_empty s ≡ true → s ≡ []
unfolding is_empty
empty_nil [] h = refl
empty_nil (c ∷ s) h = cc

combine : (a m b a' m' : Bool) → (a && m) ≡ (not b && a') → (a && (m && m')) ≡ (not b && (a' && m'))
combine a m b a' m' h = ground arith

none_selected :
    (p : Field → Bool) (f : Field) (fs : List Field)
    → (length (select p (f ∷ fs)) == 0) ≡ (not (p f) && (length (select p fs) == 0))
none_selected p f fs = ground arith

either : (b : Bool) (s : Text) → (if b then s else s) ≡ s
either true s = refl
either false s = refl

kind_signature : (f : Field) → is_signature (field_kind f) ≡ is_image f.type
unfolding field_kind
kind_signature f = ground arith

module _ (valid : FieldType → Text → Bool) (trim : Text → Text) (iso_day : Instant → Text)
    (filled : Key → Option Text) where
  -- A mark that is asked for was placed.
  abbrev pub is_marked : Field → Bool
  is_marked f =
      not (is_image f.type) || (not f.required || not (is_empty (trim (or_empty (filled f.id)))))

  abbrev blocks : Field → Bool
  blocks f = is_unsigned valid trim iso_day filled f || is_refused valid trim iso_day filled f

  -- What the server makes of one box more.
  typed-is_accepted :
      (f : Field) (value : Text) (rest : ResolvedFieldValues)
      → is_accepted (resolve_typed valid trim iso_day f value rest) ≡ (
          not (
            if is_empty value
            then f.required
            else (not (is_offered valid trim iso_day f value)
                || has_problem valid trim iso_day f.type value))
          && is_accepted rest)
  unfolding resolve_typed
  typed-is_accepted f value rest = ground arith

  image-blocks :
      (f : Field)
      → is_image f.type ≡ true
      → blocks f ≡ (f.required && is_empty (trim (or_empty (filled f.id))))
  unfolding is_unsigned field_problem field_kind
  image-blocks f image = ground arith

  auto-blocks : (f : Field) → is_image f.type ≡ false → is_auto f.type ≡ true → blocks f ≡ false
  unfolding is_unsigned field_problem field_kind
  auto-blocks f image auto = ground arith

  input-blocks :
      (f : Field)
      → is_image f.type ≡ false
      → is_auto f.type ≡ false
      → blocks f ≡ (
          if is_empty (trim (or_empty (filled f.id)))
          then f.required
          else (not (is_offered valid trim iso_day f (trim (or_empty (filled f.id))))
              || has_problem valid trim iso_day f.type (trim (or_empty (filled f.id)))))
  unfolding is_unsigned field_problem field_kind
  input-blocks f image auto = ground arith

  typed_box :
      (f : Field) (n : ℕ) (fs : List Field) (supplied : Key → Option Text) (at : Instant)
      → is_image f.type ≡ false
      → is_auto f.type ≡ false
      → max_length f.type ≡ some n
      → or_empty (supplied f.id) ≡ or_empty (filled f.id)
      → (is_accepted (resolve_field_values valid trim iso_day (f ∷ fs) supplied at) && is_marked f)
        ≡ (not (blocks f) && is_accepted (resolve_field_values valid trim iso_day fs supplied at))
  unfolding resolve_field_values
  typed_box f n fs supplied at image auto ruled same =
      let rest = resolve_field_values valid trim iso_day fs supplied at in
      let server : is_accepted (resolve_field_values valid trim iso_day (f ∷ fs) supplied at)
          ≡ is_accepted (resolve_typed valid trim iso_day f (trim (or_empty (filled f.id))) rest) =
        rw (resolve_field_values, image, auto, ruled, same) refl in
      rw
        (
          server,
          typed-is_accepted f (trim (or_empty (filled f.id))) rest,
          input-blocks f image auto,
          image,
        )
        (ground arith)

  one_box :
      (f : Field) (fs : List Field) (supplied : Key → Option Text) (at : Instant)
      → (is_image f.type ≡ false → or_empty (supplied f.id) ≡ or_empty (filled f.id))
      → (is_accepted (resolve_field_values valid trim iso_day (f ∷ fs) supplied at) && is_marked f)
        ≡ (not (blocks f) && is_accepted (resolve_field_values valid trim iso_day fs supplied at))
  unfolding resolve_field_values
  one_box f fs supplied at same = elim (Bool-cases (is_image f.type)) [
    | inl image ↦ rw (image-blocks f image, resolve_field_values, image) (ground arith)
    | inr typed ↦ elim (Bool-cases (is_auto f.type)) [
      | inl auto ↦ rw (auto-blocks f typed auto, resolve_field_values, typed, auto) (ground arith)
      | inr input ↦
          let (n, ruled) = max_length_ruled f.type typed input in
          typed_box f n fs supplied at typed input ruled (same typed)
    ]
  ]

  all_boxes :
      (fs : List Field) (supplied : Key → Option Text) (at : Instant)
      → All (λ f. is_image f.type ≡ false → or_empty (supplied f.id) ≡ or_empty (filled f.id)) fs
      → (is_accepted (resolve_field_values valid trim iso_day fs supplied at) && every is_marked fs)
        ≡ (length (select blocks fs) == 0)
  unfolding resolve_field_values
  all_boxes [] supplied at same = refl
  all_boxes (f ∷ fs) supplied at same =
      combine (is_accepted (resolve_field_values valid trim iso_day (f ∷ fs) supplied at))
        (is_marked f) (blocks f)
        (is_accepted (resolve_field_values valid trim iso_day fs supplied at)) (every is_marked fs)
        (one_box f fs supplied at same.0)
      ∙ ap (λ b. not (blocks f) && b) (all_boxes fs supplied at same.1)
      ∙ sym (none_selected blocks f fs)

  -- The submitted text of a box that is no mark is what stands in the box.
  abbrev submits : Key → Field → Bool
  submits id f = not (is_image f.type) && (f.id == id)

  submitted-finish_values :
      (fs : List Field) (id : Key)
      → or_empty (submitted (finish_values valid trim iso_day filled fs) id)
        ≡ (if any (submits id) fs then or_empty (filled id) else [])
  unfolding submitted finish_values field_kind
  submitted-finish_values [] id = refl
  submitted-finish_values (f ∷ fs) id =
      let rest = submitted-finish_values fs id in
      elim (Bool-cases (is_image f.type)) [
        | inl image ↦ rw image rest
        | inr typed ↦ elim (Bool-cases (is_empty (or_empty (filled f.id)))) [
          | inl empty ↦ elim (Bool-cases (f.id == id)) [
            | inl hit ↦
                let nothing : or_empty (filled id) ≡ [] =
                  ap (λ k. or_empty (filled k)) (sym ((==_iff f.id id).0 hit))
                  ∙ empty_nil (or_empty (filled f.id)) empty in
                rw (kind_signature f, typed, empty, hit, rest, nothing)
                  (either (any (submits id) fs) [])
            | inr miss ↦ rw (kind_signature f, typed, empty, miss) rest
          ]
          | inr full ↦ elim (Bool-cases (f.id == id)) [
            | inl hit ↦
                rw (kind_signature f, typed, full, hit)
                  (ap (λ k. or_empty (filled k)) ((==_iff f.id id).0 hit))
            | inr miss ↦ rw (kind_signature f, typed, full, miss) rest
          ]
        ]
      ]

  more_fields :
      (g : Field) (gs fs : List Field)
      → All (λ f. is_image f.type ≡ false → any (submits f.id) gs ≡ true) fs
      → All (λ f. is_image f.type ≡ false → any (submits f.id) (g ∷ gs) ≡ true) fs
  more_fields g gs fs h = All-map _ _ fs (λ f k typed. ground (arith, k typed)) h

  own_fields :
      (fs : List Field) → All (λ f. is_image f.type ≡ false → any (submits f.id) fs ≡ true) fs
  own_fields [] = tt
  own_fields (f ∷ fs) =
      ((λ typed. ground (arith, (==_iff f.id f.id).1 refl)), more_fields f fs fs (own_fields fs))

  can_finish-eq :
      (fs : List Field) (at : Instant)
      → can_finish valid trim iso_day filled fs ≡ (
          is_accepted (
            resolve_field_values valid trim iso_day fs
              (submitted (finish_values valid trim iso_day filled fs))
              at)
          && every is_marked fs)
  unfolding can_finish blocking_fields
  can_finish-eq fs at = sym (
      all_boxes fs (submitted (finish_values valid trim iso_day filled fs)) at (
        All-map _ _ fs (λ f own typed. submitted-finish_values fs f.id ∙ rw (own typed) refl)
          (own_fields fs)))

  -- A submission of these boxes, with or without an image, passes the checks of the server that come
  -- after the link and the consent.
  abbrev pub passes : List Field → (Key → Option Text) → Option Key → Instant → Bool
  passes fs supplied none at = false
  passes fs supplied (some image) at =
      is_accepted (resolve_field_values valid trim iso_day fs supplied at)

  -- The signing page lets the signer finish exactly when the checks of the server pass what the
  -- page then submits, its values and its image, which is taken to be a PNG, and every mark that is
  -- asked for was placed. These checks are what decides: where the consent is on record, the server
  -- goes on to the claim of a submission that passes them, and refuses any other with the tables
  -- unchanged.
  pub is_ready-agrees :
      (mint hash : Key → Key) (req : LoadedRequest) (adopted : Option Key) (now : Instant)
      (db : Tables)
      → no_consent req.consent_at ≡ false
      → let supplied = submitted (finish_values valid trim iso_day filled req.fields) in
        (is_ready valid trim iso_day filled req.fields adopted
          ≡ (passes req.fields supplied adopted now && every is_marked req.fields))
        × (submit_loaded valid trim iso_day mint hash (some req) supplied adopted now db ≡ (
            if passes req.fields supplied adopted now
            then claim valid trim iso_day mint hash now
                (image_of adopted)
                (resolve_field_values valid trim iso_day req.fields supplied now).values
                req
                req.recipient_id
                db
            else (Submitted.refused, db)))
  unfolding is_ready submit_loaded
  is_ready-agrees mint hash req none now db consented = (ground arith, refl)
  is_ready-agrees mint hash req (some image) now db consented =
      (ground (arith, can_finish-eq req.fields now), ground arith)
