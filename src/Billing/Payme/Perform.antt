-- ===== src/Billing/Payme/Perform.antt =====
-- `performTransaction` of apps/api/src/modules/billing/payme.service.ts: paid once, and answered the
-- same way every time after.
use mathlib.Core.Path.{subst}
use president_tech_award_e_s.Prelude.{
  ◌≡◌, refl, sym, ◌∙◌, ap, ◌⊎◌, inl, inr, true, some, arith, find_first_holds, All-find_first,
}
use president_tech_award_e_s.Calendar.{Instant}
use president_tech_award_e_s.Billing.Period.{granted_period}
use president_tech_award_e_s.Billing.Store.{
  Key, PaymentStatus, Payment, Tenant, Db, is_row, is_pending, find_payment, find_tenant,
}
use president_tech_award_e_s.Billing.Service.{mark_paid, set_period, is_claimable}
use president_tech_award_e_s.Billing.Validity.{IsValid, IsRow, MatchesStatus}
use president_tech_award_e_s.Billing.Activation.{settled, activate_pending}
use president_tech_award_e_s.Billing.Settled.{tenant_of}
use president_tech_award_e_s.Billing.Payme.Protocol.{PaymeState}
use president_tech_award_e_s.Billing.Payme.Request.{PaymeParams, ok, by_txn}
use president_tech_award_e_s.Billing.Payme.Methods.{
  PerformResult, performed_at, perform_for, perform_transaction,
}
use president_tech_award_e_s.Billing.Payme.Lookup.{
  KeepsIdentity, by_txn_then, by_txn_start, by_txn_again,
}

-- A result is for a payment that was paid before, or for one that is settled now.
abbrev Performed : Instant → Key → Payment → Db → PerformResult → Db → Type 0
Performed now tenant p db r db' =
    (r.transaction ≡ p.id)
    × (r.state ≡ PaymeState.performed)
    × (((performed_at p.status p.paid_at ≡ some r.perform_time) × (db' ≡ db))
        ⊎ ((t : Tenant) × (find_tenant tenant db ≡ some t)
            × (is_pending p.status ≡ true)
            × (r.perform_time ≡ now)
            × (db' ≡ settled tenant p.id now p t db)))

-- A valid payment is waiting, cancelled, or paid at a known time.
performed_cases :
    (s : PaymentStatus) (q : Payment)
    → MatchesStatus s q
    → (s ≡ PaymentStatus.pending)
      ⊎ ((s ≡ PaymentStatus.cancelled)
          ⊎ ((at : Instant) × (s ≡ PaymentStatus.paid) × (performed_at s q.paid_at ≡ some at)))
performed_cases PaymentStatus.pending q m = inl refl
performed_cases PaymentStatus.paid q m = inr (inr (m.0.0, refl, m.0.3))
performed_cases PaymentStatus.cancelled q m = inr (inl refl)

perform_for_cases :
    (now : Instant) (tenant : Key) (p : Payment) (db : Db) {r : PerformResult} {db' : Db}
    → IsValid db
    → find_payment tenant p.id db ≡ some p
    → perform_for now (tenant, p) db ≡ (ok r, db')
    → Performed now tenant p db r db'
unfolding perform_for
perform_for_cases now tenant p db {r} {db'} valid found h =
    let row = All-find_first (IsRow db.tenants) (is_row tenant p.id) db.payments valid.rows found in
    elim (performed_cases p.status p row.matches) [
      | inl waiting ↦
          let (t, tenant_found) = tenant_of tenant p.id db valid found in
          let pending : is_pending p.status ≡ true = rw waiting in
          let done = activate_pending tenant p.id now db valid found tenant_found pending in
          (ground arith, ground arith, inr (t, tenant_found, pending, ground arith, ground arith))
      | inr (inl closed) ↦ absurd (ground arith)
      | inr (inr (at, paid, e)) ↦ (ground arith, ground arith, inl (ground arith, ground arith))
    ]

-- Settling keeps what identifies a payment.
pub settling_keeps :
    (period : Instant × Instant) (now : Instant)
    → KeepsIdentity (λ q. set_period period (mark_paid now q))
settling_keeps period now = record {
  same_id = λ _. refl;
  same_tenant = λ _. refl;
  same_provider = λ _. refl;
}

perform_for_paid :
    (later at : Instant) (tenant : Key) (p : Payment) (db : Db)
    → performed_at p.status p.paid_at ≡ some at
    → perform_for later (tenant, p) db
      ≡ (ok (record { transaction = p.id; perform_time = at; state = PaymeState.performed }), db)
unfolding perform_for
perform_for_paid later at tenant p db paid = rw (perform_for, paid)

answer_eq :
    (r : PerformResult) (id : Key) (at : Instant)
    → r.transaction ≡ id
    → r.perform_time ≡ at
    → r.state ≡ PaymeState.performed
    → record { transaction = id; perform_time = at; state = PaymeState.performed } ≡ r
answer_eq r id at e f g =
    λ i. record { transaction = sym e i; perform_time = sym f i; state = sym g i }

-- After the settlement the transaction is found with its payment paid.
settled_found :
    (params : PaymeParams) (now : Instant) (db : Db) (tenant : Key) (p : Payment) (t : Tenant)
    → (by_txn params db).0 ≡ ok (tenant, p)
    → find_payment tenant p.id db ≡ some p
    → is_pending p.status ≡ true
    → (by_txn params (settled tenant p.id now p t db)).0
      ≡ ok (tenant, set_period (granted_period t.paid_until p.months now) (mark_paid now p))
settled_found params now db tenant p t found held pending =
    let period = granted_period t.paid_until p.months now in
    let is_held = find_first_holds (is_row tenant p.id) db.payments held in
    let claim : is_claimable tenant p.id p ≡ true = ground arith in
    by_txn_again (is_claimable tenant p.id) (λ q. set_period period (mark_paid now q))
      (settling_keeps period now) db (settled tenant p.id now p t db).tenants (λ _. refl) params
    ∙ rw (found, claim)

-- Payme repeats PerformTransaction until it gets an answer: on valid tables, once a call has
-- answered with a result, the same call at any later time gives the same result with the original
-- time, and changes nothing.
pub perform_again :
    (params : PaymeParams) (now later : Instant) (db : Db) {r : PerformResult} {db' : Db}
    → IsValid db
    → perform_transaction params now db ≡ (ok r, db')
    → perform_transaction params later db' ≡ (ok r, db')
unfolding perform_transaction
perform_again params now later db {r} {db'} valid h =
    let (tenant, p, found, held, done) = by_txn_then params (perform_for now) db h in
    let (same_id, same_state, how) = perform_for_cases now tenant p db valid held done in
    elim how [
      | inl (paid, same_db) ↦
          subst (λ s. perform_transaction params later s ≡ (ok r, s)) (sym same_db)
            (by_txn_start params (perform_for later) db found
              ∙ perform_for_paid later r.perform_time tenant p db paid
              ∙ ap (λ a. (ok a, db)) (answer_eq r p.id r.perform_time same_id refl same_state))
      | inr (t, _, pending, at_now, same_db) ↦
          let period = granted_period t.paid_until p.months now in
          let paid = set_period period (mark_paid now p) in
          let after = settled tenant p.id now p t db in
          subst (λ s. perform_transaction params later s ≡ (ok r, s)) (sym same_db)
            (by_txn_start params (perform_for later) after
                (settled_found params now db tenant p t found held pending)
              ∙ perform_for_paid later now tenant paid after refl
              ∙ ap (λ a. (ok a, after)) (answer_eq r p.id now same_id at_now same_state))
    ]
