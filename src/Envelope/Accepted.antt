-- ===== src/Envelope/Accepted.antt =====
-- Which submissions are taken: `submit` of apps/api/src/modules/signing/signing.service.ts.

use president_tech_award_e_s.Prelude.{
  ◌≡◌, ◌≢◌, refl, sym, ap, inl, inr, Bool, false, ◌||◌, Option, none, some, List, [], ◌∷◌, arith,
  Bool-cases,
}
use president_tech_award_e_s.Calendar.{Instant}
use president_tech_award_e_s.Billing.Store.{Key}
use president_tech_award_e_s.Billing.Payme.Protocol.{Text}
use president_tech_award_e_s.Envelope.Fields.{FieldType, resolve_field_values}
use president_tech_award_e_s.Envelope.Store.{Tables}
use president_tech_award_e_s.Envelope.Link.{LoadedRequest, load_for_token, no_consent}
use president_tech_award_e_s.Envelope.Submit.{Submitted, any_of, submit_loaded, submit}

no_keys : (ks : List Key) → any_of ks ≡ false → ks ≡ []
no_keys [] h = refl
no_keys (k ∷ ks) h = cc

consented : (o : Option Instant) → no_consent o ≡ false → (at : Instant) × (o ≡ some at)
consented none h = cc
consented (some at) h = (at, refl)

module _ (valid : FieldType → Text → Bool) (trim : Text → Text) (iso_day : Instant → Text)
    (mint hash : Key → Key) where
  -- What a submission that was taken has passed.
  abbrev pub Accepted : Key → (Key → Option Text) → Option Key → Instant → Tables → Type 0
  Accepted token_hash supplied image now db =
      (req : LoadedRequest) × (at : Instant) × (key : Key) × (load_for_token token_hash now db
        ≡ some req)
      × (req.consent_at ≡ some at)
      × (image ≡ some key)
      × ((resolve_field_values valid trim iso_day req.fields supplied now).missing_required ≡ [])
      × ((resolve_field_values valid trim iso_day req.fields supplied now).invalid ≡ [])

  submit_loaded-checks :
      (o : Option LoadedRequest) (supplied : Key → Option Text) (image : Option Key) (now : Instant)
      (db : Tables) {s : Submitted} {db' : Tables}
      → submit_loaded valid trim iso_day mint hash o supplied image now db ≡ (s, db')
      → s ≢ Submitted.refused
      → (req : LoadedRequest) × (at : Instant) × (key : Key) × (o ≡ some req)
        × (req.consent_at ≡ some at)
        × (image ≡ some key)
        × ((resolve_field_values valid trim iso_day req.fields supplied now).missing_required ≡ [])
        × ((resolve_field_values valid trim iso_day req.fields supplied now).invalid ≡ [])
  unfolding submit_loaded
  submit_loaded-checks none supplied image now db h good = absurd (good (sym (ap (λ x. x.0) h)))
  submit_loaded-checks (some req) supplied none now db h good =
      absurd (good (sym (ap (λ x. x.0) h)))
  submit_loaded-checks (some req) supplied (some key) now db h good =
      let resolved = resolve_field_values valid trim iso_day req.fields supplied now in
      elim (Bool-cases (no_consent req.consent_at)) [
        | inl silent ↦ absurd (good (sym (ap (λ x. x.0) (rw (submit_loaded, silent) at h))))
        | inr agreed ↦
            elim (Bool-cases (any_of resolved.missing_required || any_of resolved.invalid)) [
              | inl wrong ↦
                  absurd (good (sym (ap (λ x. x.0) (rw (submit_loaded, agreed, wrong) at h))))
              | inr right ↦
                  let (at, consent) = consented req.consent_at agreed in
                  (
                    req,
                    at,
                    key,
                    refl,
                    consent,
                    refl,
                    no_keys resolved.missing_required (ground arith),
                    no_keys resolved.invalid (ground arith),
                  )
            ]
      ]

  -- A submission is taken only through a link that is open, after the signer has consented, with a
  -- signature image, and with no required box found missing and no value found invalid.
  pub submit-Accepted :
      (token_hash : Key) (supplied : Key → Option Text) (image : Option Key) (now : Instant)
      (db : Tables) {s : Submitted} {db' : Tables}
      → submit valid trim iso_day mint hash token_hash supplied image now db ≡ (s, db')
      → s ≢ Submitted.refused
      → Accepted token_hash supplied image now db
  unfolding submit
  submit-Accepted token_hash supplied image now db h good =
      submit_loaded-checks (load_for_token token_hash now db) supplied image now db h good
