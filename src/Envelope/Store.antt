-- ===== src/Envelope/Store.antt =====
-- The tables that envelopes live in, as the workspace sees them whose context is open:
-- packages/db/prisma/schema.prisma.
use president_tech_award_e_s.Prelude.{
  ℕ, Bool, true, false, Option, none, some, List, ◌==◌, find_first, select,
}
use president_tech_award_e_s.Calendar.{Instant}
use president_tech_award_e_s.Billing.Store.{Key, opt_eq}
use president_tech_award_e_s.Billing.Payme.Protocol.{Text}
use president_tech_award_e_s.Envelope.Fields.{Field}

pub data SignatureStatus : Type 0 where
  sent viewed completed voided expired : SignatureStatus

pub data RecipientStatus : Type 0 where
  pending sent viewed completed : RecipientStatus

pub data RecipientRole : Type 0 where
  signer cc : RecipientRole

pub data RoutingMode : Type 0 where
  parallel sequential : RoutingMode

pub record Recipient : Type 0 where
  pub id : Key
  pub request_id : Key
  pub email : Key
  pub role : RecipientRole
  pub routing_order : ℕ
  pub recipient_key : Key
  pub status : RecipientStatus
  pub signing_token_hash : Option Key
  pub sent_at : Option Instant
  pub viewed_at : Option Instant
  pub completed_at : Option Instant
  pub consent_at : Option Instant
  pub last_reminded_at : Option Instant
  pub reminder_count : ℕ
  pub signature_image_key : Option Key
  pub field_values : List (Key × Text)

pub record SignatureRequest : Type 0 where
  pub id : Key
  pub document_id : Key
  pub document_name : Key
  pub fields : List Field
  pub routing_mode : RoutingMode
  pub recipient_email : Key
  pub status : SignatureStatus
  pub signing_token_hash : Option Key
  pub sender_email : Option Key
  pub sent_at : Instant
  pub viewed_at : Option Instant
  pub completed_at : Option Instant
  pub voided_at : Option Instant
  pub expires_at : Instant
  pub consent_at : Option Instant
  pub deleted_at : Option Instant
  pub expired_notified_at : Option Instant
  pub folder_id : Option Key
  pub signature_image_key : Option Key
  pub field_values : List (Key × Text)
  pub signed_pdf_key : Option Key
  pub certificate_key : Option Key
  pub document_hash : Option Key
  pub seal_signature : Option Key
  pub seal_kid : Option Key
  pub completion_emailed_at : Option Instant

pub record Tables : Type 0 where
  pub requests : List SignatureRequest
  pub recipients : List Recipient
  pub folders : List Key

-- `{ in: ['sent', 'viewed'] }`
abbrev pub is_live : SignatureStatus → Bool
is_live SignatureStatus.sent = true
is_live SignatureStatus.viewed = true
is_live _ = false

abbrev pub is_invited : RecipientStatus → Bool
is_invited RecipientStatus.sent = true
is_invited RecipientStatus.viewed = true
is_invited _ = false

abbrev pub is_pending : RecipientStatus → Bool
is_pending RecipientStatus.pending = true
is_pending _ = false

abbrev pub is_done : RecipientStatus → Bool
is_done RecipientStatus.completed = true
is_done _ = false

abbrev pub is_signer : Recipient → Bool
is_signer r = elim r.role [ signer ↦ true | cc ↦ false ]

abbrev pub has_id : Key → SignatureRequest → Bool
has_id id r = r.id == id

abbrev pub is_recipient : Key → Recipient → Bool
is_recipient id r = r.id == id

abbrev pub find_request : Key → Tables → Option SignatureRequest
find_request id db = find_first (has_id id) db.requests

abbrev pub find_recipient : Key → Tables → Option Recipient
find_recipient id db = find_first (is_recipient id) db.recipients

-- `recipients` of one envelope
abbrev pub recipients_of : Key → Tables → List Recipient
recipients_of id db = select (λ r. r.request_id == id) db.recipients

-- `ResolvedToken`
pub record ResolvedToken : Type 0 where
  pub request_id : Key
  pub recipient_id : Option Key
  pub token_hash : Key

abbrev pub resolve_request : Key → Option SignatureRequest → Option ResolvedToken
resolve_request hash none = none
resolve_request hash (some r) =
    some (record { request_id = r.id; recipient_id = none; token_hash = hash })

-- `SigningTokenResolver.resolve`, of a token's hash: a recipient's link first, then a legacy one.
unfoldable pub resolve_token : Key → Tables → Option ResolvedToken
resolve_token hash db = elim (find_first (λ r. opt_eq r.signing_token_hash hash) db.recipients) [
  | some r ↦
      some (record { request_id = r.request_id; recipient_id = some r.id; token_hash = hash })
  | none ↦ resolve_request hash (find_first (λ r. opt_eq r.signing_token_hash hash) db.requests)
]
