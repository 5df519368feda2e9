-- ===== src/Envelope/Invited.antt =====
-- What an invitation leaves in the tables: `advanceEnvelope` of
-- apps/api/src/modules/signing/signing.service.ts.
use mathlib.Core.Path.{subst}
use president_tech_award_e_s.Prelude.{
  ◌≡◌, refl, sym, ◌∙◌, ap, inl, inr, true, false, some, List, [], ◌∷◌, map, ◌==◌, ◌&&◌,
  if◌then◌else◌, select, any, All, HasUniqueKeys, arith, Bool-cases, find_first_holds,
  find_first-update_where, find_first-update_where_other,
}
use president_tech_award_e_s.Calendar.{Instant}
use president_tech_award_e_s.Billing.Store.{Key}
use president_tech_award_e_s.Envelope.Store.{
  RecipientStatus, Recipient, Tables, is_pending, is_signer, is_recipient, find_recipient,
}
use president_tech_award_e_s.Envelope.Routing.{issue_link, mark_sent, invite_group}
use president_tech_award_e_s.Envelope.Turns.{as_invite, invite_group-answer}

module _ (mint hash : Key → Key) (now : Instant) where
  -- A recipient whose turn has come: sent, and a signer with the hash of the token that is mailed.
  abbrev pub notified : Recipient → Recipient
  notified r =
      if is_signer r
      then record r {
        status = RecipientStatus.sent;
        sent_at = some now;
        signing_token_hash = some (hash (as_invite mint r).token);
      }
      else record r { status = RecipientStatus.sent; sent_at = some now }

  abbrev Waits : Tables → Recipient → Type 0
  Waits db r = (is_pending r.status ≡ true) × (find_recipient r.id db ≡ some r)

  -- The tables after one recipient of a group.
  abbrev after_one : Recipient → Tables → Tables
  after_one r db =
      if is_signer r then issue_link mint hash now r db else mark_sent mint hash now r db

  invite_group-cons :
      (r : Recipient) (rs : List Recipient) (db : Tables)
      → (invite_group mint hash now (r ∷ rs) db).1
        ≡ (invite_group mint hash now rs (after_one r db)).1
  unfolding invite_group
  invite_group-cons r rs db = elim (Bool-cases (is_signer r)) [
    | inl signs ↦ rw signs refl
    | inr copy ↦ rw copy refl
  ]

  after_one_self :
      (r : Recipient) (db : Tables)
      → Waits db r
      → find_recipient r.id (after_one r db) ≡ some (notified r)
  after_one_self r db (waits, found) =
      let own : is_recipient r.id r ≡ true =
        find_first_holds (is_recipient r.id) db.recipients found in
      elim (Bool-cases (is_signer r)) [
        | inl signs ↦ rw signs (
            find_first-update_where (is_recipient r.id)
              (λ q. is_recipient r.id q && is_pending q.status)
              (λ q. record q {
                status = RecipientStatus.sent;
                sent_at = some now;
                signing_token_hash = some (hash (mint r.id));
              })
              db.recipients (λ _. refl)
            ∙ rw (found, own, waits) refl)
        | inr copy ↦ rw copy (
            find_first-update_where (is_recipient r.id) (is_recipient r.id)
              (λ q. record q { status = RecipientStatus.sent; sent_at = some now }) db.recipients
              (λ _. refl)
            ∙ rw (found, own) refl)
      ]

  after_one_other :
      (k : Key) (r : Recipient) (db : Tables)
      → (r.id == k) ≡ false
      → find_recipient k (after_one r db) ≡ find_recipient k db
  after_one_other k r db apart = elim (Bool-cases (is_signer r)) [
    | inl signs ↦ rw signs (
        find_first-update_where_other (is_recipient k)
          (λ q. is_recipient r.id q && is_pending q.status)
          (λ q. record q {
            status = RecipientStatus.sent;
            sent_at = some now;
            signing_token_hash = some (hash (mint r.id));
          })
          db.recipients (λ q hit. ground arith) (λ q hit. ground arith))
    | inr copy ↦ rw copy (
        find_first-update_where_other (is_recipient k) (is_recipient r.id)
          (λ q. record q { status = RecipientStatus.sent; sent_at = some now }) db.recipients
          (λ q hit. ground arith) (λ q hit. ground arith))
  ]

  -- Who is not in the group is left alone.
  pub invite_group-others :
      (k : Key) (rs : List Recipient) (db : Tables)
      → any (is_recipient k) rs ≡ false
      → find_recipient k (invite_group mint hash now rs db).1 ≡ find_recipient k db
  unfolding invite_group
  invite_group-others k [] db outside = refl
  invite_group-others k (r ∷ rs) db outside =
      ap (find_recipient k) (invite_group-cons r rs db)
      ∙ invite_group-others k rs (after_one r db) (ground arith)
      ∙ after_one_other k r db (ground arith)

  still-Waits :
      (r : Recipient) (rs : List Recipient) (db : Tables)
      → any (is_recipient r.id) rs ≡ false
      → All (Waits db) rs
      → All (Waits (after_one r db)) rs
  still-Waits r [] db unique waits = tt
  still-Waits r (q ∷ qs) db unique waits = (
    (waits.0.0, after_one_other q.id r db (ground arith) ∙ waits.0.1),
    still-Waits r qs db (ground arith) waits.1,
  )

  group-notified :
      (rs : List Recipient) (db : Tables)
      → HasUniqueKeys (λ r. r.id) rs
      → All (Waits db) rs
      → All (λ r. find_recipient r.id (invite_group mint hash now rs db).1 ≡ some (notified r)) rs
  unfolding invite_group
  group-notified [] db unique waits = tt
  group-notified (r ∷ rs) db unique waits =
      subst (λ s. All (λ q. find_recipient q.id s ≡ some (notified q)) (r ∷ rs))
        (sym (invite_group-cons r rs db))
        (
          invite_group-others r.id rs (after_one r db) unique.0 ∙ after_one_self r db waits.0,
          group-notified rs (after_one r db) unique.1 (still-Waits r rs db unique.0 waits.1),
        )

  -- A group whose members wait in the tables is invited whole: its signers, and no one else, are to be
  -- mailed their tokens, in order; every signer of it is stored as sent, with the hash of the token
  -- that is mailed, and every other member as sent, without a change of their link.
  pub invite_group-invites :
      (rs : List Recipient) (db : Tables)
      → HasUniqueKeys (λ r. r.id) rs
      → All (λ r. (is_pending r.status ≡ true) × (find_recipient r.id db ≡ some r)) rs
      → ((invite_group mint hash now rs db).0 ≡ record {
        envelope_complete = false;
        invites = map (as_invite mint) (select is_signer rs);
      })
        × All (λ r. find_recipient r.id (invite_group mint hash now rs db).1 ≡ some (notified r)) rs
  invite_group-invites rs db unique waits =
      (invite_group-answer mint hash now rs db, group-notified rs db unique waits)
