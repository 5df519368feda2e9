-- ===== src/Envelope/Link.antt =====
-- What a signing link opens: `loadForToken`, `consent`, `view` and `loadCompleted` of
-- apps/api/src/modules/signing/signing.service.ts. `none` is the one refusal, `notValid`.
use president_tech_award_e_s.Prelude.{
  Bool, true, false, ◌&&◌, Option, none, some, List, ◌==◌, ltb, leb, if◌then◌else◌, select,
  update_where,
}
use president_tech_award_e_s.Calendar.{Instant}
use president_tech_award_e_s.Billing.Store.{Key, opt_eq}
use president_tech_award_e_s.Envelope.Fields.{Field}
use president_tech_award_e_s.Envelope.Store.{
  SignatureStatus, RecipientStatus, Recipient, SignatureRequest, Tables, is_live, is_invited,
  is_done, find_request, find_recipient, has_id, is_recipient, ResolvedToken, resolve_token,
}

-- `LoadedRequest`: what the link may act on.
pub record LoadedRequest : Type 0 where
  pub id : Key
  pub document_id : Key
  pub fields : List Field
  pub recipient_id : Option Key
  pub is_new : Bool
  pub consent_at : Option Instant
  pub token_hash : Key

abbrev pub is_voided : SignatureStatus → Bool
is_voided SignatureStatus.voided = true
is_voided _ = false

abbrev pub is_completed : SignatureStatus → Bool
is_completed SignatureStatus.completed = true
is_completed _ = false

abbrev pub is_sent : RecipientStatus → Bool
is_sent RecipientStatus.sent = true
is_sent _ = false

abbrev pub is_sent_request : SignatureStatus → Bool
is_sent_request SignatureStatus.sent = true
is_sent_request _ = false

abbrev pub load_recipient : SignatureRequest → Key → Option Recipient → Option LoadedRequest
load_recipient row hash none = none
load_recipient row hash (some rc) =
    if (rc.request_id == row.id) && opt_eq rc.signing_token_hash hash && is_invited rc.status
    then some (record {
      id = row.id;
      document_id = row.document_id;
      fields = select (λ f. opt_eq f.recipient_key rc.recipient_key) row.fields;
      recipient_id = some rc.id;
      is_new = is_sent rc.status;
      consent_at = rc.consent_at;
      token_hash = hash;
    })
    else none

abbrev pub load_legacy : SignatureRequest → Key → Option LoadedRequest
load_legacy row hash =
    if opt_eq row.signing_token_hash hash && is_live row.status
    then some (record {
      id = row.id;
      document_id = row.document_id;
      fields = row.fields;
      recipient_id = none;
      is_new = is_sent_request row.status;
      consent_at = row.consent_at;
      token_hash = hash;
    })
    else none

abbrev pub load_holder : SignatureRequest → Key → Option Key → Tables → Option LoadedRequest
load_holder row hash none db = load_legacy row hash
load_holder row hash (some id) db = load_recipient row hash (find_recipient id db)

-- The envelope is still open.
unfoldable pub load_row :
    ResolvedToken → Instant → Option SignatureRequest → Tables → Option LoadedRequest
load_row t now none db = none
load_row t now (some row) db =
    if leb row.expires_at now
    then none
    else if is_voided row.status
    then none
    else load_holder row t.token_hash t.recipient_id db

abbrev pub load_resolved : Option ResolvedToken → Instant → Tables → Option LoadedRequest
load_resolved none now db = none
load_resolved (some t) now db = load_row t now (find_request t.request_id db) db

-- `loadForToken`, of the token's hash.
unfoldable pub load_for_token : Key → Instant → Tables → Option LoadedRequest
unfolding load_row
load_for_token hash now db = load_resolved (resolve_token hash db) now db

abbrev pub no_consent : Option Instant → Bool
no_consent none = true
no_consent (some _) = false

abbrev pub write_consent : Instant → LoadedRequest → Option Key → Tables → Tables
write_consent now req (some id) db = record db {
  recipients =
      update_where (λ r. is_recipient id r && is_invited r.status && no_consent r.consent_at)
        (λ r. record r { consent_at = some now }) db.recipients;
}
write_consent now req none db = record db {
  requests =
      update_where (λ r. has_id req.id r && is_live r.status && no_consent r.consent_at)
        (λ r. record r { consent_at = some now }) db.requests;
}

abbrev pub consent_to : Option LoadedRequest → Instant → Tables → Bool × Tables
consent_to none now db = (false, db)
consent_to (some req) now db =
    if no_consent req.consent_at
    then (true, write_consent now req req.recipient_id db)
    else (true, db)

-- `consent`: whether the link was valid, and the tables.
unfoldable pub consent : Key → Instant → Tables → Bool × Tables
unfolding load_for_token
consent hash now db = consent_to (load_for_token hash now db) now db

abbrev pub view_request : Key → Instant → Tables → Tables
view_request id now db = record db {
  requests =
      update_where (λ r. has_id id r && is_sent_request r.status)
        (λ r. record r { status = SignatureStatus.viewed; viewed_at = some now }) db.requests;
}

abbrev pub view_recipient : Option Key → Instant → Tables → Tables
view_recipient none now db = db
view_recipient (some id) now db = record db {
  recipients =
      update_where (λ r. is_recipient id r && is_sent r.status)
        (λ r. record r { status = RecipientStatus.viewed; viewed_at = some now }) db.recipients;
}

abbrev pub view_loaded : Option LoadedRequest → Instant → Tables → Option LoadedRequest × Tables
view_loaded none now db = (none, db)
view_loaded (some req) now db =
    if req.is_new
    then (some req, view_request req.id now (view_recipient req.recipient_id now db))
    else (some req, db)

-- `view`: the first one is recorded.
unfoldable pub view : Key → Instant → Tables → Option LoadedRequest × Tables
unfolding load_for_token
view hash now db = view_loaded (load_for_token hash now db) now db

abbrev pub completed_holder : SignatureRequest → Key → Option Recipient → Bool
completed_holder row hash none = false
completed_holder row hash (some rc) =
    (rc.request_id == row.id) && opt_eq rc.signing_token_hash hash && is_done rc.status

abbrev pub may_download : SignatureRequest → Key → Option Key → Tables → Bool
may_download row hash (some id) db = completed_holder row hash (find_recipient id db)
may_download row hash none db = opt_eq row.signing_token_hash hash

abbrev pub completed_row :
    ResolvedToken → Instant → Option SignatureRequest → Tables → Option SignatureRequest
completed_row t now none db = none
completed_row t now (some row) db =
    if is_completed row.status
      && ltb now row.expires_at
      && may_download row t.token_hash t.recipient_id db
    then some row
    else none

-- `loadCompleted`: the envelope whose artifacts the link may download.
unfoldable pub load_completed : Key → Instant → Tables → Option SignatureRequest
load_completed hash now db = elim (resolve_token hash db) [
  | none ↦ none
  | some t ↦ completed_row t now (find_request t.request_id db) db
]
