-- ===== src/Envelope/Send.antt =====
-- `send` of apps/api/src/modules/signature-requests/signature-requests.service.ts: the rows that it
-- writes, and the people it invites. The last use that it notes on the template is left aside.
use president_tech_award_e_s.Prelude.{
  ℕ, ◌+◌, ◌*◌, Bool, true, false, not, ◌&&◌, ◌||◌, Option, none, some, List, [], ◌∷◌, ◌++◌, map,
  ◌==◌, if◌then◌else◌, select, find_first,
}
use president_tech_award_e_s.Calendar.{day_ms}
use president_tech_award_e_s.Billing.Store.{Key}
use president_tech_award_e_s.Envelope.Fields.{Field}
use president_tech_award_e_s.Envelope.Store.{
  SignatureStatus, RecipientStatus, RoutingMode, Recipient, SignatureRequest, Tables, is_signer,
}
use president_tech_award_e_s.Envelope.Routing.{PendingInvite, least_order}
use president_tech_award_e_s.Envelope.Sender.{
  Outcome, done, not_found, bad_request, unavailable, signers_are_tagged,
}

-- A template, as `send` reads it.
pub record Template : Type 0 where
  pub document_id : Key
  pub name : Key
  pub fields : List Field

-- `SendRequest`: the people as rows whose status and link are not set yet.
pub record SendRequest : Type 0 where
  pub routing_mode : RoutingMode
  pub recipients : List Recipient

abbrev pub is_parallel : RoutingMode → Bool
is_parallel RoutingMode.parallel = true
is_parallel RoutingMode.sequential = false

abbrev pub first_order : List Recipient → ℕ
first_order [] = 0
first_order (r ∷ rs) = least_order r.routing_order rs

-- `invitedNow(r) && r.role === 'signer'`
unfoldable pub is_invited_now : RoutingMode → ℕ → Recipient → Bool
is_invited_now mode first r = (is_parallel mode || (r.routing_order == first)) && is_signer r

-- `firstSigner.email`: of the first signer, or of the first recipient; the schema wants one.
abbrev pub first_email : List Recipient → Key
first_email [] = 0
first_email (r ∷ _) = r.email

abbrev pub first_signer_email : List Recipient → Key
first_signer_email rs = elim (find_first is_signer rs) [ none ↦ first_email rs | some r ↦ r.email ]

-- The tokens, by recipient and not by address: the schema refuses an address that appears twice.
module _ (mint hash : Key → Key) (now ttl_days : ℕ) where
  unfoldable pub draft : Key → RoutingMode → ℕ → Recipient → Recipient
  unfolding is_invited_now
  draft request mode first r =
      if is_invited_now mode first r
      then record r {
        request_id = request;
        status = RecipientStatus.sent;
        signing_token_hash = some (hash (mint r.id));
        sent_at = some now;
      }
      else record r {
        request_id = request;
        status = RecipientStatus.pending;
        signing_token_hash = none;
        sent_at = none;
      }

  abbrev pub new_request : Key → Option Key → Template → SendRequest → SignatureRequest
  new_request id sender template input = record {
    id = id;
    document_id = template.document_id;
    document_name = template.name;
    fields = template.fields;
    routing_mode = input.routing_mode;
    recipient_email = first_signer_email input.recipients;
    status = SignatureStatus.sent;
    signing_token_hash = none;
    sender_email = sender;
    sent_at = now;
    viewed_at = none;
    completed_at = none;
    voided_at = none;
    expires_at = now + ttl_days * day_ms;
    consent_at = none;
    deleted_at = none;
    expired_notified_at = none;
    folder_id = none;
    signature_image_key = none;
    field_values = [];
    signed_pdf_key = none;
    certificate_key = none;
    document_hash = none;
    seal_signature = none;
    seal_kid = none;
    completion_emailed_at = none;
  }

  abbrev pub as_invite : Recipient → PendingInvite
  as_invite r = record { id = r.id; email = r.email; token = mint r.id }

  -- The rows of the envelope; `queued` says whether every invitation was queued. If not, the envelope
  -- is deleted again, with its recipients.
  abbrev pub send_rows :
      Bool
      → Key
      → Option Key
      → Template
      → SendRequest
      → Tables
      → Outcome (List PendingInvite) × Tables
  send_rows queued id sender template input db =
      let first = first_order input.recipients in
      if queued
      then (
        done (map as_invite (select (is_invited_now input.routing_mode first) input.recipients)),
        record db {
          requests = new_request id sender template input ∷ db.requests;
          recipients = map (draft id input.routing_mode first) input.recipients ++ db.recipients;
        },
      )
      else (unavailable, db)

  abbrev pub has_fields : List Field → Bool
  has_fields [] = false
  has_fields (_ ∷ _) = true

  unfoldable pub send :
      Bool
      → Key
      → Option Key
      → Option Template
      → SendRequest
      → Tables
      → Outcome (List PendingInvite) × Tables
  unfolding draft is_invited_now
  send queued id sender none input db = (not_found, db)
  send queued id sender (some template) input db =
      if not (has_fields template.fields)
      then (bad_request, db)
      else if not (signers_are_tagged input.recipients template.fields)
      then (bad_request, db)
      else send_rows queued id sender template input db
