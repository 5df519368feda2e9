-- ===== src/Billing/Payme/Cancel.antt =====
-- `cancelTransaction` of apps/api/src/modules/billing/payme.service.ts: cancelled once, and answered
-- the same way every time after.
use mathlib.Core.Path.{subst}
use mathlib.Core.Option.{some-injective}
use president_tech_award_e_s.Prelude.{
  ◌≡◌, refl, sym, ◌∙◌, ap, ◌⊎◌, inl, inr, true, Option, none, some, arith, update_where,
  if◌then◌else◌, Option-cases, find_first_holds, All-find_first,
}
use president_tech_award_e_s.Prelude.Int.{ℤ}
use president_tech_award_e_s.Calendar.{Instant}
use president_tech_award_e_s.Billing.Store.{
  Key, PaymentStatus, Payment, Db, is_row, is_paid, find_payment,
}
use president_tech_award_e_s.Billing.Service.{cancel, mark_cancelled, is_reversible}
use president_tech_award_e_s.Billing.Validity.{IsValid, IsRow, MatchesStatus}
use president_tech_award_e_s.Billing.Closing.{is_open}
use president_tech_award_e_s.Billing.Reversal.{cancel_rows}
use president_tech_award_e_s.Billing.Payme.Protocol.{PaymeState}
use president_tech_award_e_s.Billing.Payme.Request.{Number, Value, PaymeParams, ok, by_txn}
use president_tech_award_e_s.Billing.Payme.Methods.{
  CancelResult, cancelled_when, cancelled_state, reason_of, cancel_write, cancel_for,
  cancel_transaction,
}
use president_tech_award_e_s.Billing.Payme.Lookup.{
  KeepsIdentity, by_txn_then, by_txn_start, by_txn_again,
}

-- The state that a cancellation answers.
abbrev pub reversed_state : Payment → PaymeState
reversed_state p =
    if is_paid p.status
    then PaymeState.cancelled_after_perform
    else PaymeState.cancelled_before_perform

-- A result is for a payment that was cancelled before, or for one that is cancelled now.
abbrev Cancelled : Instant → Key → Payment → Db → CancelResult → Db → Type 0
Cancelled now tenant p db r db' =
    (r.transaction ≡ p.id)
    × (((cancelled_when p.status p.cancelled_at ≡ some r.cancel_time)
          × (r.state ≡ cancelled_state p)
          × (db' ≡ db))
        ⊎ ((reason : Option ℤ) × (is_open p.status ≡ true)
            × (r.cancel_time ≡ now)
            × (r.state ≡ cancelled_state p)
            × (cancel tenant p.id reason now db ≡ some db')))

-- A valid payment is open, or was cancelled at a known time.
cancelled_cases :
    (s : PaymentStatus) (q : Payment)
    → MatchesStatus s q
    → ((is_open s ≡ true)
        × (cancelled_when s q.cancelled_at ≡ none)
        × ((if is_paid s
              then PaymeState.cancelled_after_perform
              else PaymeState.cancelled_before_perform)
            ≡ cancelled_state q))
      ⊎ ((at : Instant) × (cancelled_when s q.cancelled_at ≡ some at))
unfolding cancelled_state
cancelled_cases PaymentStatus.pending q m =
    inl (refl, refl, rw (cancelled_state, m.0.no_paid_at) refl)
cancelled_cases PaymentStatus.paid q m = inl (refl, refl, rw (cancelled_state, m.0.3) refl)
cancelled_cases PaymentStatus.cancelled q m = inr m.0

write_then :
    (int_column : Number → Option ℤ) (tenant : Key) (p : Payment) (o : Option (Option ℤ))
    (now : Instant) (db : Db) {r : CancelResult} {db' : Db}
    → cancel_write int_column tenant p o now db ≡ (ok r, db')
    → (reason : Option ℤ) × (cancel tenant p.id reason now db ≡ some db')
      × (r.transaction ≡ p.id)
      × (r.cancel_time ≡ now)
      × (r.state ≡ reversed_state p)
unfolding cancel_write
write_then int_column tenant p none now db h = cc
write_then int_column tenant p (some reason) now db h =
    elim (Option-cases (cancel tenant p.id reason now db)) [
      | inl thrown ↦ absurd (ground arith)
      | inr (s, e) ↦ (reason, ground arith, ground arith, ground arith, ground arith)
    ]

cancel_for-Cancelled :
    (int_column : Number → Option ℤ) (reason : Value) (now : Instant) (tenant : Key) (p : Payment)
    (db : Db) {r : CancelResult} {db' : Db}
    → IsValid db
    → find_payment tenant p.id db ≡ some p
    → cancel_for int_column reason now (tenant, p) db ≡ (ok r, db')
    → Cancelled now tenant p db r db'
unfolding cancel_for
cancel_for-Cancelled int_column reason now tenant p db {r} {db'} valid found h =
    let row = All-find_first (IsRow db.tenants) (is_row tenant p.id) db.payments valid.rows found in
    elim (cancelled_cases p.status p row.matches) [
      | inl (waiting, fresh, state) ↦
          let (why, done, is_p, at_now, answered) =
            write_then int_column tenant p (reason_of int_column reason) now db
              (rw (cancel_for, fresh) at h) in
          (is_p, inr (why, waiting, at_now, answered ∙ state, done))
      | inr (at, old) ↦ (ground arith, inl (ground arith, ground arith, ground arith))
    ]

cancelling_keeps : (reason : Option ℤ) (now : Instant) → KeepsIdentity (mark_cancelled reason now)
cancelling_keeps reason now = record {
  same_id = λ _. refl;
  same_tenant = λ _. refl;
  same_provider = λ _. refl;
}

cancel_for_again :
    (int_column : Number → Option ℤ) (reason : Value) (later at : Instant) (tenant : Key)
    (p : Payment) (db : Db)
    → cancelled_when p.status p.cancelled_at ≡ some at
    → cancel_for int_column reason later (tenant, p) db
      ≡ (ok (record { transaction = p.id; cancel_time = at; state = cancelled_state p }), db)
unfolding cancel_for
cancel_for_again int_column reason later at tenant p db old = rw (cancel_for, old)

answer_eq :
    (r : CancelResult) (id : Key) (at : Instant) (state : PaymeState)
    → r.transaction ≡ id
    → r.cancel_time ≡ at
    → r.state ≡ state
    → record { transaction = id; cancel_time = at; state = state } ≡ r
answer_eq r id at state e f g =
    λ i. record { transaction = sym e i; cancel_time = sym f i; state = sym g i }

-- After the cancellation the transaction is found with its payment cancelled.
found_cancelled :
    (params : PaymeParams) (why : Option ℤ) (now : Instant) (db : Db) (tenant : Key) (p : Payment)
    (db' : Db)
    → (by_txn params db).0 ≡ ok (tenant, p)
    → find_payment tenant p.id db ≡ some p
    → is_open p.status ≡ true
    → db'.payments ≡ update_where (is_reversible tenant p.id) (mark_cancelled why now) db.payments
    → (by_txn params db').0 ≡ ok (tenant, mark_cancelled why now p)
found_cancelled params why now db tenant p db' found held waiting rows =
    let is_held = find_first_holds (is_row tenant p.id) db.payments held in
    let claim : is_reversible tenant p.id p ≡ true = ground arith in
    let same : db' ≡ record {
      payments = update_where (is_reversible tenant p.id) (mark_cancelled why now) db.payments;
      tenants = db'.tenants;
    } =
      λ i. record { payments = rows i; tenants = db'.tenants } in
    ap (λ s. (by_txn params s).0) same
    ∙ by_txn_again (is_reversible tenant p.id) (mark_cancelled why now) (cancelling_keeps why now)
        db db'.tenants (λ _. refl) params
    ∙ rw (found, claim)

-- Payme repeats CancelTransaction until it gets an answer: on valid tables, once a call has answered
-- with a result, the same call at any later time gives the same result with the original time and the
-- original state, and changes nothing.
pub cancel_transaction_again :
    (int_column : Number → Option ℤ) (params : PaymeParams) (now later : Instant) (db : Db)
    {r : CancelResult} {db' : Db}
    → IsValid db
    → cancel_transaction int_column params now db ≡ (ok r, db')
    → cancel_transaction int_column params later db' ≡ (ok r, db')
unfolding cancel_transaction cancelled_state
cancel_transaction_again int_column params now later db {r} {db'} valid h =
    let (tenant, p, found, held, run) =
      by_txn_then params (cancel_for int_column params.reason now) db h in
    let (is_p, how) =
      cancel_for-Cancelled int_column params.reason now tenant p db valid held run in
    elim how [
      | inl (old, state, same_db) ↦
          subst (λ s. cancel_transaction int_column params later s ≡ (ok r, s)) (sym same_db)
            (by_txn_start params (cancel_for int_column params.reason later) db found
              ∙ cancel_for_again int_column params.reason later r.cancel_time tenant p db old
              ∙ ap (λ a. (ok a, db))
                  (answer_eq r p.id r.cancel_time (cancelled_state p) is_p refl state))
      | inr (why, waiting, at_now, state, done) ↦
          let (after, returned, rows) = cancel_rows tenant p.id why now db valid held waiting in
          let same : after ≡ db' = some-injective _ _ (sym returned ∙ done) in
          let rows' : db'.payments
              ≡ update_where (is_reversible tenant p.id) (mark_cancelled why now) db.payments =
            ap (λ s. s.payments) (sym same) ∙ rows in
          by_txn_start params (cancel_for int_column params.reason later) db'
            (found_cancelled params why now db tenant p db' found held waiting rows')
          ∙ cancel_for_again int_column params.reason later now tenant (mark_cancelled why now p)
              db' refl
          ∙ ap (λ a. (ok a, db')) (answer_eq r p.id now (cancelled_state p) is_p at_now state)
    ]
