-- ===== src/Billing/Settled.antt =====
-- The tables after `activate` of apps/api/src/modules/billing/billing.service.ts has settled a
-- payment: they are valid, with the payment paid and the workspace extended.
use president_tech_award_e_s.Prelude.{
  ◌≡◌, refl, Bool, true, some, List, arith, update_where, find_first-update_where, All-update_where,
  All-find_first, find_first-any, find_first_holds, any-update_where, All-map,
  HasUniqueKeys-update_where,
}
use president_tech_award_e_s.Calendar.{Instant}
use president_tech_award_e_s.Billing.Period.{granted_period}
use president_tech_award_e_s.Billing.Period.Laws.{granted_period_lem}
use president_tech_award_e_s.Billing.Store.{
  Key, PaymentStatus, Payment, Tenant, Db, is_tenant, is_row, find_payment, find_tenant, is_pending,
}
use president_tech_award_e_s.Billing.Service.{is_claimable, mark_paid, set_period, extend}
use president_tech_award_e_s.Billing.Validity.{IsValid, IsRow, MatchesStatus}
use president_tech_award_e_s.Billing.Activation.{settled}

-- A payment that is found has a tenant that is found.
pub tenant_of :
    (tenant id : Key) (db : Db) {p : Payment}
    → IsValid db
    → find_payment tenant id db ≡ some p
    → (t : Tenant) × (find_tenant tenant db ≡ some t)
tenant_of tenant id db {p} valid found =
    let row = All-find_first (IsRow db.tenants) (is_row tenant id) db.payments valid.rows found in
    let holds = find_first_holds (is_row tenant id) db.payments found in
    let same : p.tenant_id ≡ tenant = ground arith in
    find_first-any (is_tenant tenant) db.tenants (rw same at row.has_tenant)

pub matches_pending :
    (s : PaymentStatus) (q : Payment)
    → MatchesStatus s q
    → is_pending s ≡ true
    → MatchesStatus PaymentStatus.pending q
matches_pending PaymentStatus.pending q m h = m
matches_pending PaymentStatus.paid q m h = cc
matches_pending PaymentStatus.cancelled q m h = cc

-- Extending a workspace leaves every row its tenant.
pub keeps_tenants :
    (p : Tenant → Bool) (f : Tenant → Tenant) (tenants : List Tenant)
    → ((t : Tenant) → (f t).id ≡ t.id)
    → (q : Payment) → IsRow tenants q
    → IsRow (update_where p f tenants) q
keeps_tenants p f tenants same q row = record {
  positive = row.positive;
  some_month = row.some_month;
  has_tenant =
      rw (any-update_where (is_tenant q.tenant_id) p f tenants (λ t. rw (same t))) row.has_tenant;
  matches = row.matches;
}

module _ (tenant id : Key) (now : Instant) (db : Db) (valid : IsValid db) {p : Payment}
    (found : find_payment tenant id db ≡ some p) (t : Tenant) where
  abbrev period : Instant × Instant
  period = granted_period t.paid_until p.months now

  settled-IsRow :
      (tenants : List Tenant) (q : Payment)
      → IsRow tenants q
      → is_claimable tenant id q ≡ true
      → IsRow tenants (set_period period (mark_paid now q))
  settled-IsRow tenants q row claimed =
      let some_month =
        (All-find_first (IsRow db.tenants) (is_row tenant id) db.payments valid.rows
          found).some_month in
      let grants = granted_period_lem t.paid_until p.months now some_month in
      let pending_q = matches_pending q.status q row.matches (ground arith) in
      record {
        positive = row.positive;
        some_month = row.some_month;
        has_tenant = row.has_tenant;
        matches = ((now, period.0, period.1, refl, refl, refl, grants.0, grants.1), pending_q.1);
      }

  pub settled-IsValid : IsValid (settled tenant id now p t db)
  settled-IsValid = record {
    unique_payments =
        HasUniqueKeys-update_where Payment.id (is_claimable tenant id)
          (λ q. set_period period (mark_paid now q)) db.payments (λ _. refl) valid.unique_payments;
    unique_tenants =
        HasUniqueKeys-update_where Tenant.id (is_tenant tenant) (extend period.1) db.tenants
          (λ _. refl) valid.unique_tenants;
    rows =
        let tenants = update_where (is_tenant tenant) (extend period.1) db.tenants in
        All-update_where (IsRow tenants) (is_claimable tenant id)
          (λ q. set_period period (mark_paid now q)) db.payments (settled-IsRow tenants)
          (All-map (IsRow db.tenants) (IsRow tenants) db.payments
            (keeps_tenants (is_tenant tenant) (extend period.1) db.tenants (λ _. refl)) valid.rows);
  }

  -- The settled row, and the workspace that it extends.
  pub settled_payment :
      is_pending p.status ≡ true
      → find_payment tenant id (settled tenant id now p t db)
        ≡ some (set_period period (mark_paid now p))
  settled_payment waiting =
      let holds = find_first_holds (is_row tenant id) db.payments found in
      let claim : is_claimable tenant id p ≡ true = ground arith in
      rw (
        find_first-update_where (is_row tenant id) (is_claimable tenant id)
            (λ q. set_period period (mark_paid now q)) db.payments (λ _. refl),
        found,
        claim,
      )

  pub settled_tenant :
      find_tenant tenant db ≡ some t
      → find_tenant tenant (settled tenant id now p t db) ≡ some (extend period.1 t)
  settled_tenant tenant_found =
      let hit = find_first_holds (is_tenant tenant) db.tenants tenant_found in
      rw (
        find_first-update_where (is_tenant tenant) (is_tenant tenant) (extend period.1) db.tenants
            (λ _. refl),
        tenant_found,
        hit,
      )
