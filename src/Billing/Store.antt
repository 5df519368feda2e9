-- ===== src/Billing/Store.antt =====
-- The rows that billing reads and writes: the `payments` and `tenants` tables, as the queries of
-- apps/api/src/modules/billing/billing.service.ts see them under row-level security.
use president_tech_award_e_s.Prelude.{
  ℕ, Bool, true, false, not, ◌&&◌, Option, none, some, List, ◌==◌, any, find_first,
}
use president_tech_award_e_s.Prelude.Int.{ℤ}
use president_tech_award_e_s.Calendar.{Instant}
use president_tech_award_e_s.Billing.Period.{BillingPlan}

-- Ids and provider transaction ids are strings that the code only compares and tests for being
-- empty: interned as numbers, 0 for the empty string.
abbrev pub Key : Type 0
Key = ℕ

pub data PaymentProvider : Type 0 where
  payme click : PaymentProvider

unfoldable pub provider_eq : PaymentProvider → PaymentProvider → Bool
provider_eq PaymentProvider.payme PaymentProvider.payme = true
provider_eq PaymentProvider.click PaymentProvider.click = true
provider_eq _ _ = false

pub data PaymentStatus : Type 0 where
  pending paid cancelled : PaymentStatus

abbrev pub is_pending : PaymentStatus → Bool
is_pending PaymentStatus.pending = true
is_pending _ = false

abbrev pub is_paid : PaymentStatus → Bool
is_paid PaymentStatus.paid = true
is_paid _ = false

abbrev pub is_cancelled : PaymentStatus → Bool
is_cancelled PaymentStatus.cancelled = true
is_cancelled _ = false

pub data TenantPlan : Type 0 where
  trial pro : TenantPlan

pub record Payment : Type 0 where
  pub id : Key
  pub tenant_id : Key
  pub plan : BillingPlan
  pub provider : PaymentProvider
  pub amount_tiyin : ℕ
  pub months : ℕ
  pub status : PaymentStatus
  pub provider_txn_id : Option Key
  pub provider_created_at : Option Instant
  pub click_prepare_id : Option ℕ
  pub paid_at : Option Instant
  pub cancelled_at : Option Instant
  pub cancel_reason : Option ℤ
  pub period_start : Option Instant
  pub period_end : Option Instant
  pub created_at : Instant

pub record Tenant : Type 0 where
  pub id : Key
  pub plan : TenantPlan
  pub trial_ends_at : Instant
  pub paid_until : Option Instant

pub record Db : Type 0 where
  pub payments : List Payment
  pub tenants : List Tenant

-- The policy `tenant_isolation`, with `WHERE id = …`.
abbrev pub is_row : Key → Key → Payment → Bool
is_row tenant id p = (p.id == id) && (p.tenant_id == tenant)

abbrev pub is_tenant : Key → Tenant → Bool
is_tenant tenant t = t.id == tenant

abbrev pub find_payment : Key → Key → Db → Option Payment
find_payment tenant id db = find_first (is_row tenant id) db.payments

abbrev pub find_tenant : Key → Db → Option Tenant
find_tenant tenant db = find_first (is_tenant tenant) db.tenants

abbrev pub opt_eq : Option Key → Key → Bool
opt_eq none k = false
opt_eq (some j) k = j == k

-- The unique index on (provider, provider_txn_id): another row has this transaction already.
abbrev pub has_txn : PaymentProvider → Key → Payment → Bool
has_txn provider txn p = provider_eq p.provider provider && opt_eq p.provider_txn_id txn

abbrev pub is_taken : Key → PaymentProvider → Key → List Payment → Bool
is_taken id provider txn = any (λ p. not (p.id == id) && has_txn provider txn p)
