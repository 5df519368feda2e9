-- ===== src/Access/Tests.antt =====
-- A workspace that pays, a member who calls, and a window of two calls.
use president_tech_award_e_s.Prelude.{
  ◌<◌, ◌≡◌, refl, ◌⊎◌, true, false, none, some, [], ◌∷◌, arith, length, select,
}
use president_tech_award_e_s.Billing.Period.{BillingPlan, granted_period, period_start_at}
use president_tech_award_e_s.Billing.Period.Laws.{lt-add_months}
use president_tech_award_e_s.Billing.Store.{
  PaymentProvider, PaymentStatus, TenantPlan, Payment, Tenant, Db, find_tenant,
}
use president_tech_award_e_s.Billing.Service.{activate}
use president_tech_award_e_s.Billing.Validity.{IsValid}
use president_tech_award_e_s.Billing.Payme.Protocol.{is_empty}
use president_tech_award_e_s.Access.Trial.{tenant_access, is_locked}
use president_tech_award_e_s.Access.Claims.{MembershipRole, VerifiedIdentity, role_satisfies}
use president_tech_award_e_s.Access.RateLimit.{Limiter, allow, hits_of, is_recent}
use president_tech_award_e_s.Access.Policy.{
  PolicyName, Request, Entitlement, Decision, Windows, Secrets, Services, can_activate,
}
use president_tech_award_e_s.Access.Laws.{IsWithin, activate_unlocks, allow-IsWithin}
use president_tech_award_e_s.Access.Entry.{Admits, can_activate-Admits}

abbrev order : Payment
order = record {
  id = 7;
  tenant_id = 1;
  plan = BillingPlan.personal;
  provider = PaymentProvider.click;
  amount_tiyin = 9900000;
  months = 1;
  status = PaymentStatus.pending;
  provider_txn_id = none;
  provider_created_at = none;
  click_prepare_id = none;
  paid_at = none;
  cancelled_at = none;
  cancel_reason = none;
  period_start = none;
  period_end = none;
  created_at = 1769817500000;
}

abbrev workspace : Tenant
workspace = record {
  id = 1;
  plan = TenantPlan.trial;
  trial_ends_at = 1769800000000;
  paid_until = none;
}

abbrev db : Db
db = record { payments = order ∷ []; tenants = workspace ∷ [] }

db-IsValid : IsValid db
db-IsValid = record {
  unique_payments = (refl, tt);
  unique_tenants = (refl, tt);
  rows = (
    record {
      positive = omega arith;
      some_month = omega arith;
      has_tenant = refl;
      matches = (record { no_paid_at = refl; no_start = refl; no_end = refl }, refl);
    },
    tt,
  );
}

before_end : 1769817600000 < (granted_period none 1 1769817600000).1
unfolding granted_period period_start_at
before_end = lt-add_months 1769817600000 1 (omega arith)

activate_unlocks_example :
    (db' : Db) × (u : Tenant) × (activate 1 7 1769817600000 db ≡ some (true, db'))
    × (find_tenant 1 db' ≡ some u)
    × (is_locked (tenant_access u.plan u.trial_ends_at u.paid_until 1769817600000) ≡ false)
activate_unlocks_example =
    activate_unlocks 1 7 1769817600000 1769817600000 db db-IsValid refl refl refl before_end

abbrev window : Limiter
window = record { max_calls = 2; window_ms = 1000; hits = (3, 500 ∷ []) ∷ [] }

window-IsWithin : IsWithin window
window-IsWithin = (omega arith, tt)

allow_runs : (l : Limiter) × (allow 3 600 window ≡ (true, l))
unfolding allow
allow_runs = (_, refl)

allow-IsWithin_example :
    IsWithin allow_runs.0
    × ((true ≡ false) ⊎ (length (select (is_recent 1000 600) (hits_of 3 window.hits)) < 2))
allow-IsWithin_example = allow-IsWithin 3 600 window window-IsWithin allow_runs.1

abbrev someone : VerifiedIdentity
someone = record {
  clerk_user_id = 4 ∷ [];
  email = none;
  clerk_org_id = none;
  org_name = none;
  role = none;
}

abbrev trial_days : Entitlement
trial_days = record { plan = TenantPlan.trial; trial_ends_at = 700; paid_until = none }

abbrev services : Services
services = record {
  verify_bearer = λ _. some someone;
  establish = λ _. some (record { role = MembershipRole.admin; entitlement = some trial_days });
  verdict = λ _. none;
}

abbrev req : Request
req = record { socket_address = 3; internal_auth = none; client_ip = none; bearer = some (8 ∷ []) }

abbrev windows : Windows
windows = record { sign = window; sign_source = window; verify = window; verify_source = window }

abbrev no_secrets : Secrets
no_secrets = record { sign_relay = none; verify_relay = none }

guard_runs :
    (can_activate services no_secrets
      (some (PolicyName.min_role MembershipRole.member))
      false
      req
      600
      windows).0
    ≡ Decision.allowed
unfolding can_activate is_empty role_satisfies is_locked tenant_access
guard_runs = refl

can_activate-Admits_example : Admits services MembershipRole.member false req 600
can_activate-Admits_example =
    can_activate-Admits services no_secrets MembershipRole.member false req 600 windows guard_runs
