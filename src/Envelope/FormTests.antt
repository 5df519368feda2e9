-- ===== src/Envelope/FormTests.antt =====
-- The boxes of one signer, on the page and on the server.
use president_tech_award_e_s.Prelude.{
  All, ◌≡◌, refl, true, false, Option, some, [], ◌∷◌, ◌&&◌, every, if◌then◌else◌,
}
use president_tech_award_e_s.Billing.Store.{Key}
use president_tech_award_e_s.Billing.Payme.Protocol.{Text, is_empty}
use president_tech_award_e_s.Envelope.Fields.{Field, FieldType, is_choice, resolve_field_values}
use president_tech_award_e_s.Envelope.Link.{LoadedRequest}
use president_tech_award_e_s.Envelope.Submit.{Submitted, claim, submit_loaded}
use president_tech_award_e_s.Envelope.Filled.{IsFilled, resolve_field_values-IsFilled}
use president_tech_award_e_s.Envelope.SignFields.{is_ready, finish_values, submitted}
use president_tech_award_e_s.Envelope.Agreement.{passes, is_marked, is_ready-agrees}
use president_tech_award_e_s.Envelope.Tests.{box, same, db}

abbrev name_box : Field
name_box = record {
  id = 41;
  type = FieldType.name;
  required = true;
  options = [];
  recipient_key = some 1;
}

abbrev typed : Key → Option Text
typed _ = some (65 ∷ [])

missing_runs :
    (resolve_field_values
      (λ _ _. true)
      (λ s. s)
      (λ _. [])
      (box ∷ name_box ∷ [])
      typed
      100).missing_required
    ≡ []
unfolding resolve_field_values is_empty is_choice
missing_runs = refl

invalid_runs :
    (resolve_field_values (λ _ _. true) (λ s. s) (λ _. []) (box ∷ name_box ∷ []) typed 100).invalid
    ≡ []
unfolding resolve_field_values is_empty is_choice
invalid_runs = refl

resolve_field_values-IsFilled_example :
    All
      (IsFilled
        (resolve_field_values
          (λ _ _. true)
          (λ s. s)
          (λ _. [])
          (box ∷ name_box ∷ [])
          typed
          100).values)
      (box ∷ name_box ∷ [])
resolve_field_values-IsFilled_example =
    resolve_field_values-IsFilled (λ _ _. true) (λ s. s) (λ _. []) (box ∷ name_box ∷ []) typed 100
      missing_runs invalid_runs

abbrev form : LoadedRequest
form = record {
  id = 5;
  document_id = 6;
  fields = box ∷ name_box ∷ [];
  recipient_id = some 1;
  is_new = false;
  consent_at = some 90;
  token_hash = 70;
}

abbrev page_values : Key → Option Text
page_values = submitted (finish_values (λ _ _. true) (λ s. s) (λ _. []) typed form.fields)

is_ready-agrees_example :
    (is_ready (λ _ _. true) (λ s. s) (λ _. []) typed form.fields (some 33) ≡ (
      passes (λ _ _. true) (λ s. s) (λ _. []) typed form.fields page_values (some 33) 100
      && every (is_marked (λ _ _. true) (λ s. s) (λ _. []) typed) form.fields))
    × (submit_loaded
          (λ _ _. true)
          (λ s. s)
          (λ _. [])
          same
          same
          (some form)
          page_values
          (some 33)
          100
          db
        ≡ (if passes (λ _ _. true) (λ s. s) (λ _. []) typed form.fields page_values (some 33) 100
            then claim
                (λ _ _. true)
                (λ s. s)
                (λ _. [])
                same
                same
                100
                33
                (resolve_field_values
                  (λ _ _. true)
                  (λ s. s)
                  (λ _. [])
                  form.fields
                  page_values
                  100).values
                form
                form.recipient_id
                db
            else (Submitted.refused, db)))
is_ready-agrees_example =
    is_ready-agrees (λ _ _. true) (λ s. s) (λ _. []) typed same same form (some 33) 100 db refl
