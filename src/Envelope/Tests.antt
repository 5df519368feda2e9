-- ===== src/Envelope/Tests.antt =====
-- An envelope in sequence: a signer, then a copy, then a second signer.
use president_tech_award_e_s.Prelude.{
  All, ◌≡◌, ◌≢◌, refl, true, false, Option, none, some, List, [], ◌∷◌, map, ◌==◌, select,
}
use president_tech_award_e_s.Billing.Store.{Key}
use president_tech_award_e_s.Envelope.Fields.{Field, FieldType, resolve_field_values}
use president_tech_award_e_s.Envelope.Store.{
  SignatureStatus, RecipientStatus, RecipientRole, RoutingMode, Recipient, SignatureRequest, Tables,
  ResolvedToken, resolve_token, is_signer, find_recipient,
}
use president_tech_award_e_s.Envelope.Link.{LoadedRequest, load_for_token}
use president_tech_award_e_s.Envelope.Routing.{
  PendingInvite, idle, invite_group, advance_row, advance_envelope,
}
use president_tech_award_e_s.Envelope.Submit.{Submitted, submit}
use president_tech_award_e_s.Envelope.Sender.{done, void}
use president_tech_award_e_s.Envelope.Wire.{to_wire}
use president_tech_award_e_s.Envelope.Links.{IsOpen, load_for_token-IsOpen, void_closes}
use president_tech_award_e_s.Envelope.Accepted.{Accepted, submit-Accepted}
use president_tech_award_e_s.Envelope.Turns.{as_invite, advance_row_complete, copies_stall}
use president_tech_award_e_s.Envelope.Invited.{notified, invite_group-invites}

abbrev pub box : Field
box = record {
  id = 40;
  type = FieldType.signature;
  required = true;
  options = [];
  recipient_key = some 1;
}

abbrev person : Key → RecipientRole → RecipientStatus → Option Key → Recipient
person id role status link = record {
  id = id;
  request_id = 5;
  email = id;
  role = role;
  routing_order = id;
  recipient_key = id;
  status = status;
  signing_token_hash = link;
  sent_at = none;
  viewed_at = none;
  completed_at = none;
  consent_at = some 90;
  last_reminded_at = none;
  reminder_count = 0;
  signature_image_key = none;
  field_values = [];
}

abbrev first_signer : Recipient
first_signer = person 1 RecipientRole.signer RecipientStatus.viewed (some 70)

abbrev signed : Recipient
signed = person 1 RecipientRole.signer RecipientStatus.completed (some 70)

abbrev copy : Recipient
copy = person 2 RecipientRole.cc RecipientStatus.pending none

abbrev second_signer : Recipient
second_signer = person 3 RecipientRole.signer RecipientStatus.pending none

abbrev envelope : SignatureRequest
envelope = record {
  id = 5;
  document_id = 6;
  document_name = 8;
  fields = box ∷ [];
  routing_mode = RoutingMode.sequential;
  recipient_email = 1;
  status = SignatureStatus.viewed;
  signing_token_hash = none;
  sender_email = some 9;
  sent_at = 50;
  viewed_at = some 80;
  completed_at = none;
  voided_at = none;
  expires_at = 1000;
  consent_at = none;
  deleted_at = none;
  expired_notified_at = none;
  folder_id = none;
  signature_image_key = none;
  field_values = [];
  signed_pdf_key = none;
  certificate_key = none;
  document_hash = none;
  seal_signature = none;
  seal_kid = none;
  completion_emailed_at = none;
}

abbrev pub db : Tables
db = record {
  requests = envelope ∷ [];
  recipients = first_signer ∷ copy ∷ second_signer ∷ [];
  folders = [];
}

abbrev half_signed : Tables
half_signed = record db { recipients = signed ∷ copy ∷ second_signer ∷ [] }

abbrev pub same : Key → Key
same k = k

load_runs : (req : LoadedRequest) × (load_for_token 70 100 db ≡ some req)
unfolding load_for_token resolve_token
load_runs = (_, refl)

load_for_token-IsOpen_example : IsOpen 70 100 db load_runs.0
load_for_token-IsOpen_example = load_for_token-IsOpen 70 100 db load_runs.1

void_runs :
    (people : List Recipient) × (db' : Tables) × (t : ResolvedToken) × (void 5 100 half_signed
      ≡ (done people, db'))
    × (resolve_token 70 db' ≡ some t)
    × (t.request_id ≡ 5)
unfolding void resolve_token
void_runs = (_, _, _, refl, refl, refl)

void_closes_example : load_for_token 70 200 void_runs.1 ≡ none
void_closes_example = void_closes 5 70 100 200 half_signed void_runs.3 void_runs.4 void_runs.5

waiting-refused : (l : List PendingInvite) → Submitted.waiting l ≢ Submitted.refused
waiting-refused l h = cc

submit_runs :
    (db' : Tables) × (submit
        (λ _ _. true)
        (λ s. s)
        (λ _. [])
        same
        same
        70
        (λ _. none)
        (some 33)
        100
        db
      ≡ (Submitted.waiting [], db'))
unfolding submit load_for_token resolve_token resolve_field_values advance_envelope
submit_runs = (_, refl)

submit-Accepted_example :
    Accepted (λ _ _. true) (λ s. s) (λ _. []) same same 70 (λ _. none) (some 33) 100 db
submit-Accepted_example =
    submit-Accepted (λ _ _. true) (λ s. s) (λ _. []) same same 70 (λ _. none) (some 33) 100 db
      submit_runs.1 (waiting-refused [])

copies_stall_example :
    (advance_row same same 100 envelope (signed ∷ copy ∷ second_signer ∷ []) db).0 ≡ idle
copies_stall_example =
    copies_stall same same 100 envelope (signed ∷ copy ∷ second_signer ∷ []) copy
      (second_signer ∷ []) db refl refl refl refl

advance_row_complete_example :
    (advance_row same same 100 envelope (signed ∷ copy ∷ []) db).0.envelope_complete ≡ (
      (to_wire envelope (signed ∷ copy ∷ [])).signed_count
      == (to_wire envelope (signed ∷ copy ∷ [])).signer_count)
advance_row_complete_example = advance_row_complete same same 100 envelope (signed ∷ copy ∷ []) db

invite_group-invites_example :
    ((invite_group same same 100 (copy ∷ second_signer ∷ []) db).0 ≡ record {
      envelope_complete = false;
      invites = map (as_invite same) (select is_signer (copy ∷ second_signer ∷ []));
    })
    × All
        (λ r.
          find_recipient r.id (invite_group same same 100 (copy ∷ second_signer ∷ []) db).1
          ≡ some (notified same same 100 r))
        (copy ∷ second_signer ∷ [])
invite_group-invites_example =
    invite_group-invites same same 100 (copy ∷ second_signer ∷ []) db (refl, (refl, tt))
      ((refl, refl), ((refl, refl), tt))
