-- ===== src/Access/Trial.antt =====
-- Where a workspace stands: apps/api/src/common/trial.ts, and `accessLocked` of
-- packages/contracts/src/index.ts.
use president_tech_award_e_s.Prelude.{
  ℕ, ◌+◌, ◌-◌, ◌/◌, Bool, true, false, Option, none, some, ltb, if◌then◌else◌,
}
use president_tech_award_e_s.Calendar.{Instant}
use president_tech_award_e_s.Billing.Store.{TenantPlan}

pub data AccessState : Type 0 where
  trial pro ended lapsed : AccessState

pub record TenantAccess : Type 0 where
  pub state : AccessState
  pub days_left : ℕ
  pub trial_ends_at : Instant
  pub paid_until : Option Instant

-- `Math.ceil(msLeft / 86_400_000)`
unfoldable pub days_from : ℕ → ℕ
days_from ms_left = (ms_left + 86399999) / 86400000

unfoldable pub pro_access : Instant → Option Instant → Instant → TenantAccess
pro_access trial_ends_at none now = record {
  state = AccessState.pro;
  days_left = 0;
  trial_ends_at = trial_ends_at;
  paid_until = none;
}
pro_access trial_ends_at (some paid_until) now =
    if ltb now paid_until
    then record {
      state = AccessState.pro;
      days_left = days_from (paid_until - now);
      trial_ends_at = trial_ends_at;
      paid_until = some paid_until;
    }
    else record {
      state = AccessState.lapsed;
      days_left = 0;
      trial_ends_at = trial_ends_at;
      paid_until = some paid_until;
    }

unfoldable pub trial_access : Instant → Option Instant → Instant → TenantAccess
trial_access trial_ends_at paid_until now =
    if ltb now trial_ends_at
    then record {
      state = AccessState.trial;
      days_left = days_from (trial_ends_at - now);
      trial_ends_at = trial_ends_at;
      paid_until = paid_until;
    }
    else record {
      state = AccessState.ended;
      days_left = 0;
      trial_ends_at = trial_ends_at;
      paid_until = paid_until;
    }

-- `tenantAccess`
unfoldable pub tenant_access : TenantPlan → Instant → Option Instant → Instant → TenantAccess
unfolding pro_access trial_access
tenant_access TenantPlan.pro trial_ends_at paid_until now = pro_access trial_ends_at paid_until now
tenant_access TenantPlan.trial trial_ends_at paid_until now =
    trial_access trial_ends_at paid_until now

unfoldable pub state_locked : AccessState → Bool
state_locked AccessState.ended = true
state_locked AccessState.lapsed = true
state_locked _ = false

-- `accessLocked`
unfoldable pub is_locked : TenantAccess → Bool
unfolding state_locked
is_locked access = state_locked access.state
