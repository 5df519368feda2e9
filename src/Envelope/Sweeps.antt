-- ===== src/Envelope/Sweeps.antt =====
-- What the worker does to envelopes in the background:
-- apps/api/src/modules/signature-requests/lifecycle.ts. Which rows are due is the database's answer.
use president_tech_award_e_s.Prelude.{
  ℕ, suc, Bool, true, false, not, ◌&&◌, Option, none, some, List, [], ◌∷◌, ◌==◌, if◌then◌else◌, map,
  select, update_where, count_where,
}
use president_tech_award_e_s.Calendar.{Instant}
use president_tech_award_e_s.Billing.Store.{Key}
use president_tech_award_e_s.Envelope.Store.{
  SignatureStatus, Recipient, SignatureRequest, Tables, is_live, is_done, is_signer, find_request,
  find_recipient, recipients_of, has_id, is_recipient,
}
use president_tech_award_e_s.Envelope.Sender.{close_links}
use president_tech_award_e_s.Envelope.Routing.{PendingInvite}

-- What the sender is told about an envelope that ran out, `none` if they were told before.
pub record ExpiredNotice : Type 0 where
  pub to : Key
  pub document_name : Key
  pub unsigned : List Key

abbrev pub was_told : SignatureRequest → Bool
was_told r = elim r.expired_notified_at [ none ↦ false | some _ ↦ true ]

abbrev pub expire_request : Key → Tables → Tables
expire_request id db = record db {
  requests =
      update_where (λ r. has_id id r && is_live r.status)
        (λ r. record r { status = SignatureStatus.expired }) db.requests;
}

abbrev pub mark_told : Key → Instant → Tables → Tables
mark_told id now db = record db {
  requests =
      update_where (λ r. has_id id r && not (was_told r))
        (λ r. record r { expired_notified_at = some now }) db.requests;
}

abbrev pub notice : SignatureRequest → List Recipient → Option ExpiredNotice
notice row all = elim row.sender_email [
  | none ↦ none
  | some sender ↦ some (record {
    to = sender;
    document_name = row.document_name;
    unsigned =
        map (λ r. Recipient.email r) (select (λ r. is_signer r && not (is_done r.status)) all);
  })
]

-- One envelope of `sweepExpiredEnvelopes`.
unfoldable pub expire_envelope : Key → Instant → Tables → Option ExpiredNotice × Tables
expire_envelope id now db = elim (find_request id db) [
  | none ↦ (none, db)
  | some row ↦
      let closed = close_links id (expire_request id db) in
      if was_told row
      then (none, closed)
      else (notice row (recipients_of id db), mark_told id now closed)
]

abbrev pub keep_notice : Option ExpiredNotice → List ExpiredNotice → List ExpiredNotice
keep_notice none rest = rest
keep_notice (some n) rest = n ∷ rest

-- `sweepExpiredEnvelopes`
unfoldable pub sweep_expired_envelopes : List Key → Instant → Tables → List ExpiredNotice × Tables
unfolding expire_envelope
sweep_expired_envelopes [] now db = ([], db)
sweep_expired_envelopes (id ∷ ids) now db =
    let step = expire_envelope id now db in
    let rest = sweep_expired_envelopes ids now step.1 in (keep_notice step.0 rest.0, rest.1)

module _ (mint hash : Key → Key) (now : Instant) where
  abbrev pub is_reminded_once : Key → ℕ → Recipient → Bool
  is_reminded_once id count r = is_recipient id r && (r.reminder_count == count)

  abbrev pub renew : Recipient → Recipient → Recipient
  renew rc r = record r {
    signing_token_hash = some (hash (mint rc.id));
    last_reminded_at = some now;
    reminder_count = suc rc.reminder_count;
  }

  abbrev pub remind_row :
      Option Recipient → Option SignatureRequest → Tables → Option PendingInvite × Tables
  remind_row none row db = (none, db)
  remind_row (some rc) none db = (none, db)
  remind_row (some rc) (some row) db =
      if is_done rc.status
      then (none, db)
      else let reminded = record db {
        recipients =
            update_where (is_reminded_once rc.id rc.reminder_count) (renew rc) db.recipients;
      } in
        if count_where (is_reminded_once rc.id rc.reminder_count) db.recipients == 1
        then (some (record { id = rc.id; email = rc.email; token = mint rc.id }), reminded)
        else (none, reminded)

  -- One recipient of `sweepReminders`: the link is rotated, since a token is never stored.
  unfoldable pub remind_recipient : Key → Key → Tables → Option PendingInvite × Tables
  remind_recipient recipient_id request_id db =
      remind_row (find_recipient recipient_id db) (find_request request_id db) db
