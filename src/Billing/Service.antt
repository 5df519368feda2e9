-- ===== src/Billing/Service.antt =====
-- `BillingService`: apps/api/src/modules/billing/billing.service.ts. A method takes the tenant whose
-- context is open; `none` is a call that throws, whose transaction is rolled back.
use president_tech_award_e_s.Prelude.{
  ℕ, Bool, true, false, not, ◌&&◌, ◌||◌, Option, none, some, ◌∷◌, ◌==◌, if◌then◌else◌, update_where,
  count_where,
}
use president_tech_award_e_s.Prelude.Int.{ℤ}
use president_tech_award_e_s.Calendar.{Instant}
use president_tech_award_e_s.Billing.Period.{
  BillingPlan, price_tiyin, granted_period, sum_from_tiyin,
}
use president_tech_award_e_s.Billing.Store.{
  Key, PaymentProvider, provider_eq, PaymentStatus, is_pending, TenantPlan, Payment, Tenant, Db,
  is_row, is_tenant, find_payment, find_tenant, is_taken, is_paid, opt_eq,
}

abbrev pub of_provider : PaymentProvider → Option Payment → Option Payment
of_provider provider none = none
of_provider provider (some p) = if provider_eq p.provider provider then some p else none

-- `find`: the payment, if it is the tenant's and this provider's.
unfoldable pub find : Key → Key → PaymentProvider → Db → Option Payment
find tenant id provider db = of_provider provider (find_payment tenant id db)

-- `attachProviderTxn`: throws if the row is not there or the transaction is another payment's.
unfoldable pub attach_provider_txn : Key → Key → Key → Instant → Db → Option Db
attach_provider_txn tenant id txn created_at db = elim (find_payment tenant id db) [
  | none ↦ none
  | some p ↦
      if is_taken id p.provider txn db.payments
      then none
      else some (record db {
        payments =
            update_where (is_row tenant id)
              (λ q. record q { provider_txn_id = some txn; provider_created_at = some created_at })
              db.payments;
      })
]

-- `attachClickPrepareId`
unfoldable pub attach_click_prepare_id : Key → Key → ℕ → Db → Option Db
attach_click_prepare_id tenant id prepare_id db = elim (find_payment tenant id db) [
  | none ↦ none
  | some _ ↦ some (record db {
    payments =
        update_where (is_row tenant id) (λ q. record q { click_prepare_id = some prepare_id })
          db.payments;
  })
]

abbrev pub is_claimable : Key → Key → Payment → Bool
is_claimable tenant id p = is_row tenant id p && is_pending p.status

abbrev pub mark_paid : Instant → Payment → Payment
mark_paid now p = record p { status = PaymentStatus.paid; paid_at = some now }

abbrev pub set_period : Instant × Instant → Payment → Payment
set_period period p = record p { period_start = some period.0; period_end = some period.1 }

abbrev pub extend : Instant → Tenant → Tenant
extend end t = record t { plan = TenantPlan.pro; paid_until = some end }

-- What `activate` writes after its compare-and-set has claimed the row.
unfoldable pub grant : Key → Key → Instant → Payment → Tenant → Db → Db
grant tenant id now payment t db =
    let period = granted_period t.paid_until payment.months now in
    record {
      payments = update_where (is_row tenant id) (set_period period) db.payments;
      tenants = update_where (is_tenant tenant) (extend period.1) db.tenants;
    }

-- `activate`: whether this call settled the payment, and the tables after it.
unfoldable pub activate : Key → Key → Instant → Db → Option (Bool × Db)
unfolding grant
activate tenant id now db =
    let claimed = record db {
      payments = update_where (is_claimable tenant id) (mark_paid now) db.payments;
    } in
    if count_where (is_claimable tenant id) db.payments == 0
    then some (false, db)
    else elim (find_payment tenant id claimed) [
      | none ↦ none
      | some payment ↦ elim (find_tenant tenant db) [
        | none ↦ none
        | some t ↦ some (true, grant tenant id now payment t claimed)
      ]
    ]

-- `status: { in: ['pending', 'paid'] }`
abbrev pub is_reversible : Key → Key → Payment → Bool
is_reversible tenant id p = is_row tenant id p && (is_pending p.status || is_paid p.status)

abbrev pub mark_cancelled : Option ℤ → Instant → Payment → Payment
mark_cancelled reason now p = record p {
  status = PaymentStatus.cancelled;
  cancelled_at = some now;
  cancel_reason = reason;
}

-- What `cancel` does to the tenant after its compare-and-set has claimed the row: the granted
-- period is removed only if nothing has extended the workspace since.
unfoldable pub revoke : Key → Option Instant → Option Instant → Db → Option Db
revoke tenant none _ db = some db
revoke tenant (some _) none db = some db
revoke tenant (some start) (some end) db = elim (find_tenant tenant db) [
  | none ↦ none
  | some t ↦
      if opt_eq t.paid_until end
      then some (record db {
        tenants =
            update_where (is_tenant tenant) (λ u. record u { paid_until = some start }) db.tenants;
      })
      else some db
]

unfoldable pub cancel : Key → Key → Option ℤ → Instant → Db → Option Db
unfolding revoke
cancel tenant id reason now db =
    let claimed = record db {
      payments = update_where (is_reversible tenant id) (mark_cancelled reason now) db.payments;
    } in
    if count_where (is_reversible tenant id) db.payments == 0
    then some db
    else elim (find_payment tenant id claimed) [
      | none ↦ none
      | some payment ↦ revoke tenant payment.period_start payment.period_end claimed
    ]

-- The row that `checkout` opens; its id and its creation time come from the database.
abbrev pub new_payment : Key → Key → BillingPlan → PaymentProvider → ℕ → ℕ → Instant → Payment
new_payment tenant id plan provider amount_tiyin months now = record {
  id = id;
  tenant_id = tenant;
  plan = plan;
  provider = provider;
  amount_tiyin = amount_tiyin;
  months = months;
  status = PaymentStatus.pending;
  provider_txn_id = none;
  provider_created_at = none;
  click_prepare_id = none;
  paid_at = none;
  cancelled_at = none;
  cancel_reason = none;
  period_start = none;
  period_end = none;
  created_at = now;
}

abbrev pub is_set : Option Key → Bool
is_set none = false
is_set (some k) = not (k == 0)

-- Which providers the deployment can address: `PAYME_MERCHANT_ID`, and Click's two settings.
pub record Config : Type 0 where
  pub payme_merchant_id : Option Key
  pub click_merchant_id : Option Key
  pub click_service_id : Option Key

-- `urlBuilderFor`, as the test that it makes before anything is written.
unfoldable pub is_configured : Config → PaymentProvider → Bool
is_configured c PaymentProvider.payme = is_set c.payme_merchant_id
is_configured c PaymentProvider.click = is_set c.click_merchant_id && is_set c.click_service_id

pub data Checkout : Type 0 where
  opened : Key → ℕ → Db → Checkout
  -- `ServiceUnavailableException`
  not_configured : Checkout
  -- An amount that has no price, or that Click cannot quote; the row written before it stays.
  refused : Db → Checkout

-- The conversion that the URL builder makes: Click quotes so'm.
unfoldable pub quote : PaymentProvider → Key → ℕ → Db → Checkout
quote PaymentProvider.payme id amount db = opened id amount db
quote PaymentProvider.click id amount db = elim (sum_from_tiyin amount) [
  | none ↦ refused db
  | some _ ↦ opened id amount db
]

unfoldable pub checkout :
    Config → Key → Key → BillingPlan → PaymentProvider → ℕ → Instant → Db → Checkout
unfolding is_configured quote
checkout c tenant id plan provider months now db = elim (price_tiyin plan months) [
  | none ↦ refused db
  | some amount ↦
      let opened_db = record db {
        payments = new_payment tenant id plan provider amount months now ∷ db.payments;
      } in
      if is_configured c provider then quote provider id amount opened_db else not_configured
]
