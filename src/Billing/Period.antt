-- ===== src/Billing/Period.antt =====
-- The arithmetic of a subscription: apps/api/src/modules/billing/billing.math.ts, with the price
-- list of packages/contracts/src/index.ts.
pub mod Laws
use president_tech_award_e_s.Prelude.{
  ℕ, ◌+◌, ◌-◌, ◌*◌, ◌/◌, ◌%◌, min, Bool, ◌&&◌, ◌||◌, Option, none, some, ltb, ◌==◌, if◌then◌else◌,
}
use president_tech_award_e_s.Calendar.{
  Instant, utc_full_year, utc_month, utc_date, date_utc, set_utc_date, set_utc_month,
}

pub data BillingPlan : Type 0 where
  personal company : BillingPlan

-- `PLAN_PRICE_TIYIN`
unfoldable pub plan_price_tiyin : BillingPlan → ℕ
plan_price_tiyin BillingPlan.personal = 9_900_000
plan_price_tiyin BillingPlan.company = 29_900_000

abbrev pub max_billing_months : ℕ
max_billing_months = 12

abbrev pub tiyin_per_sum : ℕ
tiyin_per_sum = 100

-- `none` where the source throws. The amounts of the program are whole numbers.
unfoldable pub sum_from_tiyin : ℕ → Option ℕ
sum_from_tiyin tiyin = if tiyin % tiyin_per_sum == 0 then some (tiyin / tiyin_per_sum) else none

-- `none` where the source throws.
unfoldable pub price_tiyin : BillingPlan → ℕ → Option ℕ
unfolding plan_price_tiyin
price_tiyin plan months =
    if ltb months 1 || ltb max_billing_months months
    then none
    else some (plan_price_tiyin plan * months)

unfoldable pub add_months : Instant → ℕ → Instant
add_months from months =
    let day = utc_date from in
    let first_day = set_utc_date from 1 in
    let shifted = set_utc_month first_day (utc_month first_day + months) in
    let last_day = utc_date (date_utc (utc_full_year shifted) (utc_month shifted + 1) 0) in
    set_utc_date shifted (min day last_day)

-- `paidUntil && paidUntil.getTime() > now.getTime() ? paidUntil : now`
unfoldable pub period_start_at : Option Instant → Instant → Instant
period_start_at none now = now
period_start_at (some paid_until) now = if ltb now paid_until then paid_until else now

-- The start and the end of the period that a completed payment grants.
unfoldable pub granted_period : Option Instant → ℕ → Instant → Instant × Instant
unfolding period_start_at
granted_period paid_until months now =
    let start = period_start_at paid_until now in (start, add_months start months)
