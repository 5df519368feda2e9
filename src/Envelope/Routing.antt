-- ===== src/Envelope/Routing.antt =====
-- Who is asked next: `advanceEnvelope` of apps/api/src/modules/signing/signing.service.ts.
use president_tech_award_e_s.Prelude.{
  ℕ, min, Bool, true, false, not, ◌&&◌, none, some, List, [], ◌∷◌, ◌==◌, ltb, if◌then◌else◌, select,
  any, every, update_where,
}
use president_tech_award_e_s.Calendar.{Instant}
use president_tech_award_e_s.Billing.Store.{Key}
use president_tech_award_e_s.Envelope.Store.{
  SignatureStatus, RecipientStatus, RoutingMode, Recipient, SignatureRequest, Tables, is_live,
  is_pending, is_done, is_signer, find_request, recipients_of, has_id, is_recipient,
}

-- `PendingInvite`: whom to write to, with which token.
pub record PendingInvite : Type 0 where
  pub id : Key
  pub email : Key
  pub token : Key

pub record Advanced : Type 0 where
  pub envelope_complete : Bool
  pub invites : List PendingInvite

abbrev pub idle : Advanced
idle = record { envelope_complete = false; invites = [] }

-- `Math.min(...waiting.map((r) => r.routingOrder))`
abbrev pub least_order : ℕ → List Recipient → ℕ
least_order n [] = n
least_order n (r ∷ rs) = least_order (min n r.routing_order) rs

-- A signer of an earlier group who has not signed.
abbrev pub is_unfinished : ℕ → Recipient → Bool
is_unfinished order r = is_signer r && ltb r.routing_order order && not (is_done r.status)

-- `mintSigningToken`, by the recipient it is for, and the hash that is kept of a token.
module _ (mint hash : Key → Key) (now : Instant) where
  -- A cc is only marked; a signer gets a link.
  abbrev pub mark_sent : Recipient → Tables → Tables
  mark_sent r db = record db {
    recipients =
        update_where (is_recipient r.id)
          (λ q. record q { status = RecipientStatus.sent; sent_at = some now }) db.recipients;
  }

  abbrev pub issue_link : Recipient → Tables → Tables
  issue_link r db = record db {
    recipients =
        update_where (λ q. is_recipient r.id q && is_pending q.status)
          (λ q. record q {
            status = RecipientStatus.sent;
            sent_at = some now;
            signing_token_hash = some (hash (mint r.id));
          })
          db.recipients;
  }

  abbrev pub add_invite : Recipient → Advanced → Advanced
  add_invite r a = record a {
    invites = record { id = r.id; email = r.email; token = mint r.id } ∷ a.invites;
  }

  -- The group whose turn it is, one recipient after the other.
  unfoldable pub invite_group : List Recipient → Tables → Advanced × Tables
  invite_group [] db = (idle, db)
  invite_group (r ∷ rs) db =
      let after_cc = invite_group rs (mark_sent r db) in
      let after_signer = invite_group rs (issue_link r db) in
      if is_signer r then (add_invite r after_signer.0, after_signer.1) else after_cc

  abbrev pub next_group : List Recipient → List Recipient → Tables → Advanced × Tables
  next_group all [] db = (idle, db)
  next_group all (r ∷ rs) db =
      let next_order = least_order r.routing_order rs in
      if any (is_unfinished next_order) all
      then (idle, db)
      else invite_group (select (λ q. q.routing_order == next_order) (r ∷ rs)) db

  abbrev pub is_sequential : RoutingMode → Bool
  is_sequential RoutingMode.sequential = true
  is_sequential RoutingMode.parallel = false

  unfoldable pub complete_request : Key → Tables → Tables
  complete_request id db = record db {
    requests =
        update_where (λ r. has_id id r && is_live r.status)
          (λ r. record r { status = SignatureStatus.completed; completed_at = some now })
          db.requests;
  }

  unfoldable pub advance_row : SignatureRequest → List Recipient → Tables → Advanced × Tables
  unfolding invite_group complete_request
  advance_row request all db =
      if every (λ r. is_done r.status) (select is_signer all)
      then (record { envelope_complete = true; invites = [] }, complete_request request.id db)
      else if not (is_sequential request.routing_mode)
      then (idle, db)
      else next_group all (select (λ r. is_pending r.status) all) db

  -- `advanceEnvelope`; the rows are read in the order of the table.
  unfoldable pub advance_envelope : Key → Tables → Advanced × Tables
  unfolding advance_row
  advance_envelope request_id db = elim (find_request request_id db) [
    | none ↦ (idle, db)
    | some request ↦ advance_row request (recipients_of request_id db) db
  ]
