-- ===== src/Envelope/Turns.antt =====
-- Who is invited, and when an envelope is complete: `advanceEnvelope` of
-- apps/api/src/modules/signing/signing.service.ts, against the counts that the dashboard shows.

use president_tech_award_e_s.Prelude.{
  ◌≤◌, ◌≡◌, refl, sym, ◌∙◌, ap, inl, inr, Bool, false, not, List, [], ◌∷◌, map, ◌==◌, if◌then◌else◌,
  length, select, any, every, arith, Bool-cases,
}
use president_tech_award_e_s.Calendar.{Instant}
use president_tech_award_e_s.Billing.Store.{Key}
use president_tech_award_e_s.Envelope.Store.{
  RoutingMode, Recipient, SignatureRequest, Tables, is_pending, is_done, is_signer,
}
use president_tech_award_e_s.Envelope.Routing.{
  PendingInvite, add_invite, issue_link, mark_sent, idle, least_order, is_unfinished, is_sequential,
  invite_group, next_group, advance_row,
}
use president_tech_award_e_s.Envelope.Wire.{to_wire}

abbrev pub as_invite : (Key → Key) → Recipient → PendingInvite
as_invite mint r = record { id = r.id; email = r.email; token = mint r.id }

module _ (mint hash : Key → Key) (now : Instant) where
  -- The answer for a group: its signers, and no one else, in order.
  pub invite_group-answer :
      (rs : List Recipient) (db : Tables)
      → (invite_group mint hash now rs db).0
        ≡ record { envelope_complete = false; invites = map (as_invite mint) (select is_signer rs) }
  unfolding invite_group
  invite_group-answer [] db = refl
  invite_group-answer (r ∷ rs) db = elim (Bool-cases (is_signer r)) [
    | inl signs ↦
        rw signs
          (ap (add_invite mint hash now r) (invite_group-answer rs (issue_link mint hash now r db)))
    | inr copy ↦ rw copy (invite_group-answer rs (mark_sent mint hash now r db))
  ]

  no_signers : (rs : List Recipient) → any is_signer rs ≡ false → select is_signer rs ≡ []
  no_signers [] h = refl
  no_signers (r ∷ rs) h = ground (arith, no_signers rs)

select-le : (p : Recipient → Bool) (rs : List Recipient) → length (select p rs) ≤ length rs
select-le p [] = omega arith
select-le p (r ∷ rs) = ground (arith, select-le p rs)

every_count :
    (p : Recipient → Bool) (rs : List Recipient) → every p rs ≡ (length (select p rs) == length rs)
every_count p [] = refl
every_count p (r ∷ rs) = ground (arith, every_count p rs, select-le p rs)

module _ (mint hash : Key → Key) (now : Instant) where
  idle_group :
      (all waiting : List Recipient) (db : Tables)
      → (next_group mint hash now all waiting db).0.envelope_complete ≡ false
  idle_group all [] db = refl
  idle_group all (r ∷ rs) db =
      elim (Bool-cases (any (is_unfinished (least_order r.routing_order rs)) all)) [
        | inl early ↦ rw early refl
        | inr ready ↦ rw ready (
            ap (λ a. a.envelope_complete)
              (invite_group-answer mint hash now
                (select (λ q. q.routing_order == least_order r.routing_order rs) (r ∷ rs)) db))
      ]

  pub waits :
      (mode : RoutingMode) (all : List Recipient) (db : Tables)
      → (if not (is_sequential mint hash now mode)
          then (idle, db)
          else next_group mint hash now all
              (select (λ r. is_pending r.status) all)
              db).0.envelope_complete
        ≡ false
  waits RoutingMode.parallel all db = refl
  waits RoutingMode.sequential all db = idle_group all (select (λ r. is_pending r.status) all) db

  -- An envelope is declared complete exactly when the dashboard counts as many signed as there are
  -- signers, whatever its routing mode.
  pub advance_row_complete :
      (row : SignatureRequest) (all : List Recipient) (db : Tables)
      → (advance_row mint hash now row all db).0.envelope_complete
        ≡ ((to_wire row all).signed_count == (to_wire row all).signer_count)
  unfolding advance_row to_wire
  advance_row_complete row all db =
      elim (Bool-cases (every (λ r. is_done r.status) (select is_signer all))) [
        | inl finished ↦
            rw finished (sym finished ∙ every_count (λ r. is_done r.status) (select is_signer all))
        | inr unfinished ↦ rw unfinished (
            waits row.routing_mode all db
            ∙ (sym unfinished ∙ every_count (λ r. is_done r.status) (select is_signer all)))
      ]

  -- In sequential mode, a turn that falls to copy recipients only ends the routing: no one is invited,
  -- and the envelope is not complete, whoever is still waiting in a later group.
  pub copies_stall :
      (row : SignatureRequest) (all : List Recipient) (r : Recipient) (rs : List Recipient)
      (db : Tables)
      → row.routing_mode ≡ RoutingMode.sequential
      → every (λ q. is_done q.status) (select is_signer all) ≡ false
      → select (λ q. is_pending q.status) all ≡ r ∷ rs
      → any is_signer (select (λ q. q.routing_order == least_order r.routing_order rs) (r ∷ rs))
        ≡ false
      → (advance_row mint hash now row all db).0 ≡ idle
  unfolding advance_row
  copies_stall row all r rs db in_turn unfinished waiting copies =
      elim (Bool-cases (any (is_unfinished (least_order r.routing_order rs)) all)) [
        | inl early ↦ rw (unfinished, in_turn, waiting, early) refl
        | inr ready ↦
            rw (unfinished, in_turn, waiting, ready)
              (invite_group-answer mint hash now
                  (select (λ q. q.routing_order == least_order r.routing_order rs) (r ∷ rs)) db
                ∙ ap (λ l. record { envelope_complete = false; invites = map (as_invite mint) l })
                    (no_signers mint hash now
                      (select (λ q. q.routing_order == least_order r.routing_order rs) (r ∷ rs))
                      copies))
      ]
