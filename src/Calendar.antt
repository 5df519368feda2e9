-- ===== src/Calendar.antt =====
-- The parts of JavaScript's `Date` that the source computes with: an instant is the number of
-- milliseconds since 1970-01-01 UTC, and the UTC getters and setters go through the proleptic
-- Gregorian calendar. Used by `addMonths` of
-- apps/api/src/modules/billing/billing.math.ts.
pub mod Years
pub mod Laws
use president_tech_award_e_s.Prelude.{
  ℕ, zero, suc, ◌+◌, ◌-◌, ◌*◌, ◌/◌, ◌%◌, Bool, ◌&&◌, ◌||◌, not, ltb, leb, ◌==◌, if◌then◌else◌,
}
use Years.{locate}

-- An instant, in milliseconds since the epoch.
abbrev pub Instant : Type 0
Instant = ℕ

abbrev pub day_ms : ℕ
day_ms = 86_400_000

abbrev pub epoch_year : ℕ
epoch_year = 1970

unfoldable pub is_leap : ℕ → Bool
is_leap y = (y % 4 == 0) && (not (y % 100 == 0) || (y % 400 == 0))

unfoldable pub year_length : ℕ → ℕ
year_length y = if is_leap y then 366 else 365

-- The days of a month, 0 for January, as `getUTCMonth` counts.
unfoldable pub month_length : ℕ → ℕ → ℕ
month_length y m =
    if m == 1
    then (if is_leap y then 29 else 28)
    else if (m == 3) || (m == 5) || (m == 8) || (m == 10)
    then 30
    else 31

-- The day on which the n-th year after 1970 begins.
unfoldable pub year_start : ℕ → ℕ
year_start zero = 0
year_start (suc n) = year_start n + year_length (epoch_year + n)

-- The day of the year on which a month begins.
unfoldable pub month_start : ℕ → ℕ → ℕ
month_start y zero = 0
month_start y (suc m) = month_start y m + month_length y m

-- `MakeDay`: a month past December moves the year, and a date past the month's end the month.
unfoldable pub make_day : ℕ → ℕ → ℕ → ℕ
make_day y m d =
    let year = y + m / 12 in year_start (year - epoch_year) + month_start year (m % 12) + d - 1

-- The years since 1970 of a day: every year has at least 365 days.
unfoldable pub year_index : ℕ → ℕ
year_index day = locate year_start (day / 365) day

unfoldable pub year_of_day : ℕ → ℕ
year_of_day day = epoch_year + year_index day

unfoldable pub month_of_day : ℕ → ℕ
month_of_day day = locate (month_start (year_of_day day)) 11 (day - year_start (year_index day))

unfoldable pub date_of_day : ℕ → ℕ
date_of_day day =
    day - year_start (year_index day) - month_start (year_of_day day) (month_of_day day) + 1

-- `getUTCFullYear`, `getUTCMonth`, `getUTCDate`
unfoldable pub utc_full_year : Instant → ℕ
utc_full_year t = year_of_day (t / day_ms)

unfoldable pub utc_month : Instant → ℕ
utc_month t = month_of_day (t / day_ms)

unfoldable pub utc_date : Instant → ℕ
utc_date t = date_of_day (t / day_ms)

-- `Date.UTC(y, m, d)`
unfoldable pub date_utc : ℕ → ℕ → ℕ → Instant
date_utc y m d = make_day y m d * day_ms

-- `setUTCDate` and `setUTCMonth` keep the time of day.
unfoldable pub set_utc_date : Instant → ℕ → Instant
set_utc_date t d = make_day (utc_full_year t) (utc_month t) d * day_ms + t % day_ms

unfoldable pub set_utc_month : Instant → ℕ → Instant
set_utc_month t m = make_day (utc_full_year t) m (utc_date t) * day_ms + t % day_ms
