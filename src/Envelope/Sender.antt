-- ===== src/Envelope/Sender.antt =====
-- What the sender does with an envelope:
-- apps/api/src/modules/signature-requests/signature-requests.service.ts.
use president_tech_award_e_s.Prelude.{
  ℕ, ◌+◌, Bool, true, false, not, ◌&&◌, ◌||◌, Option, none, some, List, [], ◌==◌, ltb,
  if◌then◌else◌, select, any, every, update_where, count_where,
}
use president_tech_award_e_s.Calendar.{Instant}
use president_tech_award_e_s.Billing.Store.{Key}
use president_tech_award_e_s.Envelope.Fields.{Field}
use president_tech_award_e_s.Envelope.Store.{
  SignatureStatus, RecipientStatus, Recipient, SignatureRequest, Tables, is_live, is_pending,
  is_done, is_signer, find_request, find_recipient, recipients_of, has_id, is_recipient,
}
use president_tech_award_e_s.Envelope.Link.{is_voided, is_completed}
use president_tech_award_e_s.Envelope.Routing.{PendingInvite}

-- The exceptions of the service, and a result.
pub data Outcome (A : Type 0) : Type 0 where
  done : A → Outcome A
  not_found bad_request conflict unavailable : Outcome A

-- The name `signer`, which stands for a field without a recipient.
abbrev pub signer_key : Key
signer_key = 1

abbrev pub key_or_signer : Option Key → Key
key_or_signer none = signer_key
key_or_signer (some k) = k

-- `assertSignersAreTagged`, as whether it returns.
unfoldable pub signers_are_tagged : List Recipient → List Field → Bool
signers_are_tagged recipients fields =
    every
      (λ r. not (is_signer r) || any (λ f. key_or_signer f.recipient_key == r.recipient_key) fields)
      recipients

-- `void`: the links of everyone who has not signed stop working.
abbrev pub is_voidable : SignatureStatus → Bool
is_voidable SignatureStatus.expired = true
is_voidable s = is_live s

abbrev pub close_links : Key → Tables → Tables
close_links id db = record db {
  recipients =
      update_where (λ r. (r.request_id == id) && not (is_done r.status))
        (λ r. record r { signing_token_hash = none }) db.recipients;
}

abbrev pub void_request : Key → Instant → Tables → Tables
void_request id now db = record db {
  requests =
      update_where (λ r. has_id id r && is_voidable r.status)
        (λ r. record r { status = SignatureStatus.voided; voided_at = some now }) db.requests;
}

-- `void`, with the people who are told.
unfoldable pub void : Key → Instant → Tables → Outcome (List Recipient) × Tables
void id now db = elim (find_request id db) [
  | none ↦ (not_found, db)
  | some row ↦
      if is_completed row.status
      then (conflict, db)
      else if is_voided row.status
      then (done [], db)
      else (
        done (select (λ r. not (is_done r.status)) (recipients_of id db)),
        close_links id (void_request id now db),
      )
]

abbrev pub resend_cooldown_ms : ℕ
resend_cooldown_ms = 60000

-- `rc.sentAt ?? rc.lastRemindedAt`
abbrev pub last_link : Recipient → Option Instant
last_link r = elim r.sent_at [ some t ↦ some t | none ↦ r.last_reminded_at ]

abbrev pub is_cooling : Instant → Option Instant → Bool
is_cooling now none = false
is_cooling now (some since) = ltb now (since + resend_cooldown_ms)

module _ (mint hash : Key → Key) (now : Instant) where
  abbrev pub relink : Key → Tables → Tables
  relink id db = record db {
    recipients =
        update_where (is_recipient id)
          (λ r. record r {
            signing_token_hash = some (hash (mint id));
            sent_at = some now;
            status = RecipientStatus.sent;
          })
          db.recipients;
  }

  abbrev pub resend_to : Key → Option Recipient → Tables → Outcome PendingInvite × Tables
  resend_to id none db = (not_found, db)
  resend_to id (some rc) db =
      if not (rc.request_id == id)
      then (not_found, db)
      else if not (is_signer rc)
      then (conflict, db)
      else if is_done rc.status
      then (conflict, db)
      else if is_pending rc.status
      then (conflict, db)
      else if is_cooling now (last_link rc)
      then (conflict, db)
      else (done (record { id = rc.id; email = rc.email; token = mint rc.id }), relink rc.id db)

  -- `resend`: a new link, in place of the old one.
  unfoldable pub resend : Key → Key → Tables → Outcome PendingInvite × Tables
  resend id recipient_id db = elim (find_request id db) [
    | none ↦ (not_found, db)
    | some row ↦
        if not (is_live row.status)
        then (conflict, db)
        else resend_to id (find_recipient recipient_id db) db
  ]

  abbrev pub has_link : Option Key → Bool
  has_link none = false
  has_link (some k) = not (k == 0)

  abbrev pub remind_to : Key → Key → Option Recipient → Tables → Outcome PendingInvite × Tables
  remind_to id recipient_id none db = (not_found, db)
  remind_to id recipient_id (some rc) db =
      if not (rc.request_id == id)
      then (not_found, db)
      else if is_done rc.status
      then (conflict, db)
      else if not (has_link rc.signing_token_hash)
      then (conflict, db)
      else resend id recipient_id db

  -- `remind`
  unfoldable pub remind : Key → Key → Tables → Outcome PendingInvite × Tables
  unfolding resend
  remind id recipient_id db = elim (find_request id db) [
    | none ↦ (not_found, db)
    | some row ↦
        if not (is_live row.status)
        then (conflict, db)
        else remind_to id recipient_id (find_recipient recipient_id db) db
  ]

abbrev pub is_listed : List Key → SignatureRequest → Bool
is_listed ids r = any (λ k. k == r.id) ids

abbrev pub is_deleted : SignatureRequest → Bool
is_deleted r = elim r.deleted_at [ none ↦ false | some _ ↦ true ]

abbrev pub is_known : Option Key → List Key → Bool
is_known none folders = true
is_known (some k) folders = any (λ f. f == k) folders

-- `moveToFolder`, with how many moved.
unfoldable pub move_to_folder : List Key → Option Key → Tables → Outcome ℕ × Tables
move_to_folder ids folder db = if not (is_known folder db.folders) then (not_found, db) else (
  done (count_where (is_listed ids) db.requests),
  record db {
    requests = update_where (is_listed ids) (λ r. record r { folder_id = folder }) db.requests;
  },
)

-- `softDelete`
unfoldable pub soft_delete : List Key → Instant → Tables → ℕ × Tables
soft_delete ids now db = (
  count_where (λ r. is_listed ids r && not (is_deleted r)) db.requests,
  record db {
    requests =
        update_where (λ r. is_listed ids r && not (is_deleted r))
          (λ r. record r { deleted_at = some now }) db.requests;
  },
)

-- `restore`
unfoldable pub restore : List Key → Tables → ℕ × Tables
restore ids db = (
  count_where (λ r. is_listed ids r && is_deleted r) db.requests,
  record db {
    requests =
        update_where (λ r. is_listed ids r && is_deleted r) (λ r. record r { deleted_at = none })
          db.requests;
  },
)
