-- ===== src/Billing/Tests.antt =====
-- A workspace and its payments, on which the operations of apps/api/src/modules/billing run.
use president_tech_award_e_s.Prelude.{
  ◌+◌, ◌<◌, ◌≤◌, ◌≡◌, refl, Bool, true, false, Option, none, some, [], ◌∷◌, arith, ◌%◌, ◌⊎◌,
}
use president_tech_award_e_s.Prelude.Int.{neg}
use president_tech_award_e_s.Calendar.{Instant, day_ms, utc_full_year, utc_month, utc_date}
use president_tech_award_e_s.Billing.Period.{BillingPlan, add_months, granted_period}
use president_tech_award_e_s.Billing.Store.{
  Key, PaymentProvider, PaymentStatus, TenantPlan, Payment, Tenant, Db, find_payment, find_tenant,
}
use president_tech_award_e_s.Billing.Service.{activate, cancel}
use president_tech_award_e_s.Billing.Validity.{IsValid}
use president_tech_award_e_s.Billing.Period.Laws.{
  granted_period_lem, lt-add_months, add_months_parts, target_year, target_month, target_date,
}
use president_tech_award_e_s.Billing.Settlement.{
  activate_grants, activate_total, activate_once, activate_isolated,
}
use president_tech_award_e_s.Billing.Reversal.{cancel_reverses, cancel_once, refund_takes_back}

-- 31 January 2026.
abbrev pub start : Instant
start = 1769817600000

abbrev pub order : Payment
order = record {
  id = 7;
  tenant_id = 1;
  plan = BillingPlan.personal;
  provider = PaymentProvider.payme;
  amount_tiyin = 9900000;
  months = 1;
  status = PaymentStatus.pending;
  provider_txn_id = none;
  provider_created_at = none;
  click_prepare_id = none;
  paid_at = none;
  cancelled_at = none;
  cancel_reason = none;
  period_start = none;
  period_end = none;
  created_at = 1769817500000;
}

abbrev pub with_txn : Payment
with_txn = record order { provider_txn_id = some 9; provider_created_at = some start }

abbrev workspace : Tenant
workspace = record {
  id = 1;
  plan = TenantPlan.trial;
  trial_ends_at = 1769900000000;
  paid_until = none;
}

abbrev neighbour : Tenant
neighbour = record {
  id = 2;
  plan = TenantPlan.pro;
  trial_ends_at = 1769900000000;
  paid_until = some 1869900000000;
}

abbrev pub waiting : Payment → Db
waiting p = record { payments = p ∷ []; tenants = workspace ∷ neighbour ∷ [] }

pub waiting-IsValid :
    (txn : Option Key) (at : Option Instant)
    → IsValid (waiting (record order { provider_txn_id = txn; provider_created_at = at }))
waiting-IsValid txn at = record {
  unique_payments = (refl, tt);
  unique_tenants = (refl, (refl, tt));
  rows = (
    record {
      positive = omega arith;
      some_month = omega arith;
      has_tenant = refl;
      matches = (record { no_paid_at = refl; no_start = refl; no_end = refl }, refl);
    },
    tt,
  );
}

activate_runs : (done : Bool) × (db' : Db) × (activate 1 7 start (waiting order) ≡ some (done, db'))
unfolding activate
activate_runs = (_, _, refl)

activate_once_example : activate 1 7 (start + 1) activate_runs.1 ≡ some (false, activate_runs.1)
activate_once_example =
    activate_once 1 7 start (start + 1) (waiting order) (waiting-IsValid none none) activate_runs.2

activate_isolated_example :
    (find_payment 2 7 activate_runs.1 ≡ none) × (find_tenant 2 activate_runs.1 ≡ some neighbour)
activate_isolated_example =
    activate_isolated 1 7 2 7 start (waiting order) (waiting-IsValid none none) activate_runs.2
      (ground arith)

activate_total_example :
    (done : Bool) × (db' : Db) × (activate 1 7 start (waiting order) ≡ some (done, db'))
    × IsValid db'
activate_total_example = activate_total 1 7 start (waiting order) (waiting-IsValid none none)

activate_grants_example :
    (t : Tenant) × (db' : Db) × (some workspace ≡ some t)
    × (activate 1 7 start (waiting order) ≡ some (true, db'))
    × (find_payment 1 7 db'
        ≡ some (record order {
          status = PaymentStatus.paid;
          paid_at = some start;
          period_start = some (granted_period t.paid_until 1 start).0;
          period_end = some (granted_period t.paid_until 1 start).1;
        }))
    × (find_tenant 1 db'
        ≡ some (record t {
          plan = TenantPlan.pro;
          paid_until = some (granted_period t.paid_until 1 start).1;
        }))
    × IsValid db'
activate_grants_example =
    activate_grants 1 7 start (waiting order) (waiting-IsValid none none) refl refl

cancel_reverses_example :
    (t : Tenant) × (db' : Db) × (some workspace ≡ some t)
    × (cancel 1 7 (some (neg 5)) start (waiting order) ≡ some db')
    × (find_payment 1 7 db'
        ≡ some (record order {
          status = PaymentStatus.cancelled;
          cancelled_at = some start;
          cancel_reason = some (neg 5);
        }))
    × (find_tenant 1 db' ≡ some t)
    × IsValid db'
cancel_reverses_example =
    cancel_reverses 1 7 (some (neg 5)) start (waiting order) (waiting-IsValid none none) refl refl

cancel_once_example :
    (db' : Db) × (cancel 1 7 (some (neg 5)) start (waiting order) ≡ some db')
    × IsValid db'
    × (cancel 1 7 none (start + 1) db' ≡ some db')
cancel_once_example =
    cancel_once 1 7 (some (neg 5)) none start (start + 1) (waiting order)
      (waiting-IsValid none none)

refund_takes_back_example :
    (t : Tenant) × (paid : Db) × (refunded : Db) × (some workspace ≡ some t)
    × (activate 1 7 start (waiting order) ≡ some (true, paid))
    × (cancel 1 7 none (start + 1) paid ≡ some refunded)
    × (find_tenant 1 refunded
        ≡ some (record t {
          plan = TenantPlan.pro;
          paid_until = some (granted_period t.paid_until 1 start).0;
        }))
refund_takes_back_example =
    refund_takes_back 1 7 none start (start + 1) (waiting order) (waiting-IsValid none none) refl
      refl

granted_period_lem_example :
    (start ≤ (granted_period (some start) 1 start).0)
    × ((granted_period (some start) 1 start).0 < (granted_period (some start) 1 start).1)
    × ((granted_period (some start) 1 start).1
        ≡ add_months (granted_period (some start) 1 start).0 1)
    × (start ≤ (granted_period (some start) 1 start).0)
    × (((granted_period (some start) 1 start).0 ≡ start)
        ⊎ (some start ≡ some (granted_period (some start) 1 start).0))
granted_period_lem_example = granted_period_lem (some start) 1 start (omega arith)

lt-add_months_example : start < add_months start 1
lt-add_months_example = lt-add_months start 1 (omega arith)

add_months_parts_example :
    (utc_full_year (add_months start 1) ≡ target_year start 1)
    × (utc_month (add_months start 1) ≡ target_month start 1)
    × (utc_date (add_months start 1) ≡ target_date start 1)
    × (add_months start 1 % day_ms ≡ start % day_ms)
add_months_parts_example = add_months_parts start 1
