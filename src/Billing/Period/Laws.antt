-- ===== src/Billing/Period/Laws.antt =====
-- What a purchase costs and which period it grants.
use native.Mathlib.Decide.{dec_lt}
use president_tech_award_e_s.Prelude.{
  ◌⊎◌, ℕ, suc, ◌+◌, ◌-◌, ◌*◌, ◌/◌, ◌%◌, ◌≤◌, ◌<◌, min, ◌≡◌, refl, sym, ◌∙◌, ap, arith, Option, none,
  some,
}
use president_tech_award_e_s.Calendar.{
  Instant, day_ms, epoch_year, year_length, month_length, year_start, month_start, make_day,
  year_of_day, month_of_day, date_of_day, utc_full_year, utc_month, utc_date, date_utc,
  set_utc_date, set_utc_month,
}
use president_tech_award_e_s.Calendar.Laws.{
  date_parts, make_day_month_end, year_of_day-le, year_start_mono, month_start_mono,
  month_start_year, month_length_bounds, month_of_day-lt, date_of_day_bounds, make_day-parts,
  make_day_carry,
}
use president_tech_award_e_s.Billing.Period.{add_months, granted_period}

-- The first of a month, and the time of day that the setters keep.
pub on_day : ℕ → Instant → Instant
on_day day t = day * day_ms + t % day_ms

on_day-div : (day : ℕ) (t : Instant) → on_day day t / day_ms ≡ day
unfolding on_day
on_day-div day t = omega arith

on_day-on_day : (day day' : ℕ) (t : Instant) → on_day day (on_day day' t) ≡ on_day day t
unfolding on_day
on_day-on_day day day' t = omega arith

on_day_self : (t : Instant) → on_day (t / day_ms) t ≡ t
unfolding on_day
on_day_self t = omega arith

set_utc_date-on_day :
    (t : Instant) (d : ℕ) → set_utc_date t d ≡ on_day (make_day (utc_full_year t) (utc_month t) d) t
unfolding set_utc_date on_day
set_utc_date-on_day t d = refl

set_utc_month-on_day :
    (t : Instant) (m : ℕ) → set_utc_month t m ≡ on_day (make_day (utc_full_year t) m (utc_date t)) t
unfolding set_utc_month on_day
set_utc_month-on_day t m = refl

-- The getters at a date that the calendar has, at any time of the day.
module _ (y m d : ℕ) (t : Instant) (since_epoch : epoch_year ≤ y) (month : m < 12) (first : 1 ≤ d)
    (last : d ≤ month_length y m) where
  getters :
      (utc_full_year (on_day (make_day y m d) t) ≡ y)
      × (utc_month (on_day (make_day y m d) t) ≡ m)
      × (utc_date (on_day (make_day y m d) t) ≡ d)
  unfolding utc_full_year utc_month utc_date
  getters = rw (on_day-div (make_day y m d) t) (date_parts y m d since_epoch month first last)

  set_utc_date_lem :
      (d' : ℕ) → set_utc_date (on_day (make_day y m d) t) d' ≡ on_day (make_day y m d') t
  set_utc_date_lem d' = rw (set_utc_date-on_day, getters.0, getters.1, on_day-on_day)

  set_utc_month_lem :
      (m' : ℕ) → set_utc_month (on_day (make_day y m d) t) m' ≡ on_day (make_day y m' d) t
  set_utc_month_lem m' = rw (set_utc_month-on_day, getters.0, getters.2, on_day-on_day)

pub month_end_date :
    (y m : ℕ) → epoch_year ≤ y → m < 12 → utc_date (date_utc y (m + 1) 0) ≡ month_length y m
unfolding utc_date date_utc
month_end_date y m since_epoch month =
    let next : m + 1 ≡ suc m = omega arith in
    let whole : make_day y (suc m) 0 * day_ms / day_ms ≡ make_day y (suc m) 0 = omega arith in
    let has_first : 1 ≤ month_length y m = omega (arith, month_length_bounds y m) in
    rw (next, whole, make_day_month_end y m since_epoch month)
      (date_parts y m (month_length y m) since_epoch month has_first (omega arith)).2

-- At a date that the calendar has, adding months moves the month, carries into the year, and
-- clamps the date to the length of the target month.
add_months-make_day :
    (y m d : ℕ) (t : Instant) (months : ℕ)
    → epoch_year ≤ y
    → m < 12
    → 1 ≤ d
    → d ≤ month_length y m
    → let year = y + (m + months) / 12 in
      let month = (m + months) % 12 in
      add_months (on_day (make_day y m d) t) months
      ≡ on_day (make_day year month (min d (month_length year month))) t
unfolding add_months
add_months-make_day y m d t months since_epoch month first last =
    let carried = m + months in
    let year = y + carried / 12 in
    let target = carried % 12 in
    let modern : epoch_year ≤ year = omega arith in
    let in_year : target < 12 = omega arith in
    let has_first : 1 ≤ month_length y m = omega (arith, month_length_bounds y m) in
    let has_first' : 1 ≤ month_length year target =
      omega (arith, month_length_bounds year target) in
    let one : 1 ≤ 1 = omega arith in
    let first_of_target = getters year target 1 t modern in_year one has_first' in
    rw (
      (getters y m d t since_epoch month first last).2,
      set_utc_date_lem y m d t since_epoch month first last 1,
      (getters y m 1 t since_epoch month one has_first).1,
      set_utc_month_lem y m 1 t since_epoch month one has_first carried,
      make_day_carry y carried 1,
      first_of_target.0,
      first_of_target.1,
      month_end_date year target modern in_year,
      set_utc_date_lem year target 1 t modern in_year one has_first'
          (min d (month_length year target)),
    )

-- Adding months to any instant since 1970: the getters of the result.
module _ (from : Instant) (months : ℕ) where
  abbrev pub target_year : ℕ
  target_year = utc_full_year from + (utc_month from + months) / 12

  abbrev pub target_month : ℕ
  target_month = (utc_month from + months) % 12

  abbrev pub target_date : ℕ
  target_date = min (utc_date from) (month_length target_year target_month)

  parts_of : from ≡ on_day (make_day (utc_full_year from) (utc_month from) (utc_date from)) from
  unfolding utc_full_year utc_month utc_date
  parts_of = rw make_day-parts (sym (on_day_self from))

  add_months-on_day :
      add_months from months ≡ on_day (make_day target_year target_month target_date) from
  unfolding utc_full_year utc_month utc_date
  add_months-on_day =
      ap (λ t. add_months t months) parts_of
      ∙ add_months-make_day (utc_full_year from) (utc_month from) (utc_date from) from months
          (year_of_day-le (from / day_ms)) (month_of_day-lt (from / day_ms))
          (date_of_day_bounds (from / day_ms)).0 (date_of_day_bounds (from / day_ms)).1

  target_since_epoch : epoch_year ≤ target_year
  unfolding utc_full_year
  target_since_epoch = omega (arith, year_of_day-le (from / day_ms))

  target_date_bounds : (1 ≤ target_date) × (target_date ≤ month_length target_year target_month)
  unfolding utc_date
  target_date_bounds =
      omega
        (arith, date_of_day_bounds (from / day_ms), month_length_bounds target_year target_month)

  -- Adding months to any instant lands in the month that many months on, with the year carried, on
  -- the original date or the last one that month has, at the same time of the day.
  pub add_months_parts :
      (utc_full_year (add_months from months) ≡ target_year)
      × (utc_month (add_months from months) ≡ target_month)
      × (utc_date (add_months from months) ≡ target_date)
      × (add_months from months % day_ms ≡ from % day_ms)
  add_months_parts =
      let g =
        getters target_year target_month target_date from target_since_epoch (omega arith)
          target_date_bounds.0 target_date_bounds.1 in
      rw add_months-on_day (g.0, g.1, g.2, unfold on_day in omega arith)

-- The day of a date, in terms of the starts of its year and its month.
make_day_since_epoch :
    (y m d : ℕ)
    → epoch_year ≤ y
    → m < 12
    → make_day y m d ≡ year_start (y - epoch_year) + month_start y m + d - 1
unfolding make_day
make_day_since_epoch y m d since_epoch month =
    let no_carry : y + m / 12 ≡ y = omega arith in
    let same : m % 12 ≡ m = omega arith in rw (no_carry, same)

module _ (y m d months d' : ℕ) (since_epoch : epoch_year ≤ y) (month : m < 12) (first : 1 ≤ d)
    (last : d ≤ month_length y m) (some_month : 1 ≤ months) (first' : 1 ≤ d') where
  later_in_year :
      m + months < 12
      → year_start (y - epoch_year) + month_start y m + d - 1
        < year_start (y - epoch_year) + month_start y (m + months) + d' - 1
  unfolding month_start
  later_in_year within = omega (arith, month_start_mono y (suc m) (m + months))

  later_year :
      (years : ℕ) (m' : ℕ)
      → 1 ≤ years
      → year_start (y - epoch_year) + month_start y m + d - 1
        < year_start (y + years - epoch_year) + month_start (y + years) m' + d' - 1
  unfolding year_start month_start
  later_year years m' some_year =
      let renumbered : epoch_year + (y - epoch_year) ≡ y = omega arith in
      let whole : year_start (suc (y - epoch_year)) ≡ year_start (y - epoch_year) + year_length y =
        rw renumbered in
      omega (
        arith,
        whole,
        year_start_mono (suc (y - epoch_year)) (y + years - epoch_year),
        month_start_mono y (suc m) 12,
        month_start_year y,
      )

  later_day : make_day y m d < make_day (y + (m + months) / 12) ((m + months) % 12) d'
  later_day =
      let year = y + (m + months) / 12 in
      let target = (m + months) % 12 in
      rw
        (
          make_day_since_epoch y m d since_epoch month,
          make_day_since_epoch year target d' (omega arith) (omega arith),
        )
        (elim (dec_lt (m + months) 12) [
          | yes within ↦
              let same_year : year ≡ y = omega arith in
              let no_carry : target ≡ m + months = omega arith in
              rw (same_year, no_carry) (later_in_year within)
          | no past ↦ later_year ((m + months) / 12) target (omega arith)
        ])

-- A period of at least one month ends later than it starts.
pub lt-add_months : (from : Instant) (months : ℕ) → 1 ≤ months → from < add_months from months
unfolding utc_full_year utc_month utc_date on_day
lt-add_months from months some_month =
    let day = from / day_ms in
    let bounds = date_of_day_bounds day in
    let later =
      later_day (year_of_day day) (month_of_day day) (date_of_day day) months
        (target_date from months) (year_of_day-le day) (month_of_day-lt day) bounds.0 bounds.1
        some_month (target_date_bounds from months).0 in
    omega (arith, later, make_day-parts day, add_months-on_day from months)

abbrev pub or_epoch : Option Instant → Instant
or_epoch none = 0
or_epoch (some t) = t

-- What a payment of at least one month grants starts at the later of now and the end of the time
-- already paid for, so that no paid time is lost, and ends after that, as many months later as were
-- bought.
pub granted_period_lem :
    (paid_until : Option Instant) (months : ℕ) (now : Instant)
    → 1 ≤ months
    → let (start, end) = granted_period paid_until months now in
      (now ≤ start)
      × (start < end)
      × (end ≡ add_months start months)
      × (or_epoch paid_until ≤ start)
      × ((start ≡ now) ⊎ (paid_until ≡ some start))
unfolding granted_period
granted_period_lem none months now h = ground (arith, lt-add_months now months h)
granted_period_lem (some t) months now h =
    ground (arith, lt-add_months now months h, lt-add_months t months h)
