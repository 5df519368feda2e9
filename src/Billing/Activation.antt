-- ===== src/Billing/Activation.antt =====
-- What `activate` of apps/api/src/modules/billing/billing.service.ts does to the tables.
use president_tech_award_e_s.Prelude.{
  ◌≡◌, refl, ap, true, false, some, arith, find_first, update_where, count_where, if◌then◌else◌,
  apply_if, count_where_unique, find_first-update_where, update_where_claimed,
}
use president_tech_award_e_s.Calendar.{Instant}
use president_tech_award_e_s.Billing.Period.{granted_period}
use president_tech_award_e_s.Billing.Store.{
  Key, Payment, Tenant, Db, is_tenant, is_row, find_payment, find_tenant, is_pending,
}
use president_tech_award_e_s.Billing.Service.{
  activate, grant, is_claimable, mark_paid, set_period, extend,
}
use president_tech_award_e_s.Billing.Validity.{IsValid}

-- The tables after the payment has been settled.
abbrev pub settled : Key → Key → Instant → Payment → Tenant → Db → Db
settled tenant id now p t db =
    let period = granted_period t.paid_until p.months now in
    record {
      payments =
          update_where (is_claimable tenant id) (λ q. set_period period (mark_paid now q))
            db.payments;
      tenants = update_where (is_tenant tenant) (extend period.1) db.tenants;
    }

pub is_row-keyed : (tenant id : Key) (p : Payment) → is_row tenant id p ≡ true → p.id ≡ id
is_row-keyed tenant id p h = ground arith

module _ (tenant id : Key) (now : Instant) (db : Db) (valid : IsValid db) {p : Payment}
    (found : find_payment tenant id db ≡ some p) where
  claims : count_where (is_claimable tenant id) db.payments ≡ (if is_pending p.status then 1 else 0)
  claims =
      count_where_unique Payment.id id (is_row tenant id) (λ q. is_pending q.status) db.payments
        valid.unique_payments (is_row-keyed tenant id) found

  claimed_row :
      find_first
        (is_row tenant id)
        (update_where (is_claimable tenant id) (mark_paid now) db.payments)
      ≡ some (apply_if (is_claimable tenant id) (mark_paid now) p)
  claimed_row = rw (
    find_first-update_where (is_row tenant id) (is_claimable tenant id) (mark_paid now) db.payments
        (λ _. refl),
    found,
  )

  -- A payment that is not pending is left alone.
  pub activate_settled : is_pending p.status ≡ false → activate tenant id now db ≡ some (false, db)
  unfolding activate
  activate_settled over = ground (arith, claims)

  grant-settled :
      (t : Tenant) (q : Payment)
      → q.months ≡ p.months
      → is_pending p.status ≡ true
      → grant tenant id now q t (record db {
        payments = update_where (is_claimable tenant id) (mark_paid now) db.payments;
      })
        ≡ settled tenant id now p t db
  unfolding grant
  grant-settled t q same waiting =
      let period = granted_period t.paid_until p.months now in
      let one_write =
        update_where_claimed Payment.id id (is_row tenant id) (λ r. is_pending r.status)
          (mark_paid now) (set_period period) db.payments valid.unique_payments
          (is_row-keyed tenant id) (λ _. refl) found waiting in
      rw same (λ i. record {
        payments = one_write i;
        tenants = update_where (is_tenant tenant) (extend period.1) db.tenants;
      })

  months_kept : (apply_if (is_claimable tenant id) (mark_paid now) p).months ≡ p.months
  months_kept = ground arith

  -- A pending payment is marked paid with the period that it buys, and the workspace is extended.
  pub activate_pending :
      {t : Tenant}
      → find_tenant tenant db ≡ some t
      → is_pending p.status ≡ true
      → activate tenant id now db ≡ some (true, settled tenant id now p t db)
  unfolding activate
  activate_pending {t} tenant_found waiting =
      let some_claim : count_where (is_claimable tenant id) db.payments ≡ 1 =
        ground (arith, claims) in
      rw (some_claim, claimed_row, tenant_found)
        (ap (λ s. some (true, s))
          (grant-settled t (apply_if (is_claimable tenant id) (mark_paid now) p) months_kept
            waiting))
