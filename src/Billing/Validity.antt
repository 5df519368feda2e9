-- ===== src/Billing/Validity.antt =====
-- What the billing tables keep between two transactions: the constraints of the migration
-- packages/db/prisma/migrations/20260924100000_billing, and the life of a payment as
-- apps/api/src/modules/billing/billing.service.ts writes it.
use president_tech_award_e_s.Prelude.{
  ◌≤◌, ◌<◌, ◌≡◌, ◌⊎◌, true, none, some, List, any, All, HasUniqueKeys,
}
use president_tech_award_e_s.Calendar.{Instant}
use president_tech_award_e_s.Billing.Store.{PaymentStatus, Payment, Tenant, Db, is_tenant}

-- The money never arrived, so no period was granted.
pub record NeverPaid (p : Payment) : Type 0 where
  pub no_paid_at : p.paid_at ≡ none
  pub no_start : p.period_start ≡ none
  pub no_end : p.period_end ≡ none

-- The money arrived, and bought a period that starts then or later.
abbrev pub WasPaid : Payment → Type 0
WasPaid p =
    (at : Instant) × (start : Instant) × (end : Instant) × (p.paid_at ≡ some at)
    × (p.period_start ≡ some start)
    × (p.period_end ≡ some end)
    × (at ≤ start)
    × (start < end)

abbrev pub WasCancelled : Payment → Type 0
WasCancelled p = (at : Instant) × (p.cancelled_at ≡ some at)

abbrev pub MatchesStatus : PaymentStatus → Payment → Type 0
MatchesStatus PaymentStatus.pending p = NeverPaid p × (p.cancelled_at ≡ none)
MatchesStatus PaymentStatus.paid p = WasPaid p × (p.cancelled_at ≡ none)
MatchesStatus PaymentStatus.cancelled p = WasCancelled p × (NeverPaid p ⊎ WasPaid p)

pub record IsRow (tenants : List Tenant) (p : Payment) : Type 0 where
  pub positive : 1 ≤ p.amount_tiyin
  pub some_month : 1 ≤ p.months
  pub has_tenant : any (is_tenant p.tenant_id) tenants ≡ true
  pub matches : MatchesStatus p.status p

pub record IsValid (db : Db) : Type 0 where
  pub unique_payments : HasUniqueKeys Payment.id db.payments
  pub unique_tenants : HasUniqueKeys Tenant.id db.tenants
  pub rows : All (IsRow db.tenants) db.payments
