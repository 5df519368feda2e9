-- ===== src/Billing/Reversal.antt =====
-- What `cancel` of apps/api/src/modules/billing/billing.service.ts does: it closes a payment once,
-- and takes back the period that it granted if nothing has extended the workspace since.

use mathlib.Core.Option.{some-injective}
use president_tech_award_e_s.Prelude.{
  ℕ, ◌≡◌, refl, sym, ◌∙◌, ap, inl, inr, true, Option, none, some, arith, find_first, update_where,
  All-map, HasUniqueKeys-update_where, find_first-none, Bool-cases, Option-cases,
}
use president_tech_award_e_s.Prelude.Int.{ℤ}
use president_tech_award_e_s.Calendar.{Instant}
use president_tech_award_e_s.Billing.Period.{granted_period}
use president_tech_award_e_s.Billing.Store.{
  Key, PaymentStatus, Payment, Tenant, TenantPlan, Db, is_row, find_payment, find_tenant, opt_eq,
}
use president_tech_award_e_s.Billing.Service.{activate, cancel, is_reversible, mark_cancelled}
use president_tech_award_e_s.Billing.Validity.{IsValid, IsRow}
use president_tech_award_e_s.Billing.Settlement.{activate_grants}
use president_tech_award_e_s.Billing.Settled.{tenant_of}
use president_tech_award_e_s.Billing.Revocation.{shortened, revoked}
use president_tech_award_e_s.Billing.Closing.{
  is_open, cancel_closed, closed, closed_row, cancel_open, closed_rows_ok,
}

-- No such payment of this tenant: nothing happens.
pub cancel_missing :
    (tenant id : Key) (reason : Option ℤ) (now : Instant) (db : Db)
    → find_payment tenant id db ≡ none
    → cancel tenant id reason now db ≡ some db
unfolding cancel
cancel_missing tenant id reason now db missing =
    rw (find_first-none (is_row tenant id) (λ q. is_open q.status) db.payments missing)

-- On valid tables a payment that is pending or paid becomes cancelled at that moment, with the
-- reason; its workspace goes back to the start of the period that the payment granted if that
-- period is the last one, and is otherwise left alone; the tables stay valid.
pub cancel_reverses :
    (tenant id : Key) (reason : Option ℤ) (now : Instant) (db : Db) {p : Payment}
    → IsValid db
    → find_payment tenant id db ≡ some p
    → is_open p.status ≡ true
    → (t : Tenant) × (db' : Db) × (find_tenant tenant db ≡ some t)
      × (cancel tenant id reason now db ≡ some db')
      × (find_payment tenant id db'
          ≡ some (record p {
            status = PaymentStatus.cancelled;
            cancelled_at = some now;
            cancel_reason = reason;
          }))
      × (find_tenant tenant db' ≡ some (shortened p.period_start p.period_end t))
      × IsValid db'
cancel_reverses tenant id reason now db {p} valid found waiting =
    let (t, tenant_found) = tenant_of tenant id db valid found in
    let rest = closed tenant id reason now db valid found in
    let (db', done) =
      revoked tenant t p.period_start p.period_end rest valid.unique_tenants tenant_found in
    (
      t,
      db',
      tenant_found,
      cancel_open tenant id reason now db valid found waiting done.returned,
      ap (find_first (is_row tenant id)) done.payments_kept
          ∙ closed_row tenant id reason now db valid found waiting,
      done.tenant_shortened,
      record {
        unique_payments = rw done.payments_kept (
            HasUniqueKeys-update_where Payment.id (is_reversible tenant id)
              (mark_cancelled reason now) db.payments (λ _. refl) valid.unique_payments);
        unique_tenants = done.unique;
        rows = rw done.payments_kept (
            All-map (IsRow db.tenants) (IsRow db'.tenants) rest.payments done.rows
              (closed_rows_ok tenant id reason now db valid found));
      },
    )

-- The rows that an open payment leaves when it is cancelled.
pub cancel_rows :
    (tenant id : Key) (reason : Option ℤ) (now : Instant) (db : Db) {p : Payment}
    → IsValid db
    → find_payment tenant id db ≡ some p
    → is_open p.status ≡ true
    → (db' : Db) × (cancel tenant id reason now db ≡ some db')
      × (db'.payments
          ≡ update_where (is_reversible tenant id) (mark_cancelled reason now) db.payments)
cancel_rows tenant id reason now db {p} valid found waiting =
    let (t, tenant_found) = tenant_of tenant id db valid found in
    let rest = closed tenant id reason now db valid found in
    let (db', left) =
      revoked tenant t p.period_start p.period_end rest valid.unique_tenants tenant_found in
    (db', cancel_open tenant id reason now db valid found waiting left.returned, left.payments_kept)

cancel_outcome :
    (tenant id : Key) (reason : Option ℤ) (now : Instant) (db : Db)
    → IsValid db
    → (db' : Db) × (cancel tenant id reason now db ≡ some db')
      × IsValid db'
      × ((again : Option ℤ) (later : Instant) → cancel tenant id again later db' ≡ some db')
cancel_outcome tenant id reason now db valid = elim (Option-cases (find_payment tenant id db)) [
  | inl missing ↦ (
    db,
    cancel_missing tenant id reason now db missing,
    valid,
    (λ again later. cancel_missing tenant id again later db missing),
  )
  | inr (p, found) ↦ elim (Bool-cases (is_open p.status)) [
    | inl waiting ↦
        let (t, db', _, done, found', _, valid') =
          cancel_reverses tenant id reason now db valid found waiting in
        (
          db',
          done,
          valid',
          (λ again later. cancel_closed tenant id again later db' valid' found' refl),
        )
    | inr over ↦ (
      db,
      cancel_closed tenant id reason now db valid found over,
      valid,
      (λ again later. cancel_closed tenant id again later db valid found over),
    )
  ]
]

-- On valid tables `cancel` never throws and keeps them valid, and the same payment cancelled again,
-- for any reason at any time, changes nothing more.
pub cancel_once :
    (tenant id : Key) (reason again : Option ℤ) (now later : Instant) (db : Db)
    → IsValid db
    → (db' : Db) × (cancel tenant id reason now db ≡ some db')
      × IsValid db'
      × (cancel tenant id again later db' ≡ some db')
cancel_once tenant id reason again now later db valid =
    let (db', done, valid', stable) = cancel_outcome tenant id reason now db valid in
    (db', done, valid', stable again later)

opt_eq_refl : (k : ℕ) → opt_eq (some k) k ≡ true
opt_eq_refl k = ground arith

shortened_last :
    (t u : Tenant) (start end : Instant)
    → u ≡ record t { plan = TenantPlan.pro; paid_until = some end }
    → shortened (some start) (some end) u
      ≡ record t { plan = TenantPlan.pro; paid_until = some start }
shortened_last t u start end e = rw (e, opt_eq_refl end)

-- Paying and reversing at once gives nothing away: after a pending payment is activated and then
-- cancelled, with nothing in between, the workspace's paid time ends where the granted period had
-- started, so at the end of the time paid for before, or at the moment of payment if there was none
-- left.
pub refund_takes_back :
    (tenant id : Key) (reason : Option ℤ) (now later : Instant) (db : Db) {p : Payment}
    → IsValid db
    → find_payment tenant id db ≡ some p
    → p.status ≡ PaymentStatus.pending
    → (t : Tenant) × (paid : Db) × (refunded : Db) × (find_tenant tenant db ≡ some t)
      × (activate tenant id now db ≡ some (true, paid))
      × (cancel tenant id reason later paid ≡ some refunded)
      × (find_tenant tenant refunded
          ≡ some (record t {
            plan = TenantPlan.pro;
            paid_until = some (granted_period t.paid_until p.months now).0;
          }))
refund_takes_back tenant id reason now later db {p} valid found status =
    let (t, paid, tenant_found, activated, found', tenant_found', valid') =
      activate_grants tenant id now db valid found status in
    let (t', refunded, again_found, cancelled, _, tenant_after, _) =
      cancel_reverses tenant id reason later paid valid' found' refl in
    (
      t,
      paid,
      refunded,
      tenant_found,
      activated,
      cancelled,
      tenant_after
          ∙ ap some
              (shortened_last t t' _ _ (some-injective _ _ (sym again_found ∙ tenant_found'))),
    )
