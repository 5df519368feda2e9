-- ===== src/Calendar/Laws.antt =====
-- The calendar of `Date`: days and dates determine one another.
use native.Mathlib.Decide.{dec_lt}
use president_tech_award_e_s.Prelude.{
  ℕ, zero, suc, ◌+◌, ◌-◌, ◌*◌, ◌/◌, ◌%◌, ◌≤◌, ◌<◌, ◌≡◌, ◌∙◌, arith,
}
use president_tech_award_e_s.Calendar.{
  epoch_year, year_length, month_length, year_start, month_start, make_day, year_index, year_of_day,
  month_of_day, date_of_day,
}
use president_tech_award_e_s.Calendar.Years.{
  locate_unique, locate-le, lt-locate, locate_bounded, mono_of_steps,
}

pub year_length_bounds : (y : ℕ) → (365 ≤ year_length y) × (year_length y ≤ 366)
unfolding year_length
year_length_bounds y = ground arith

pub month_length_bounds : (y m : ℕ) → (28 ≤ month_length y m) × (month_length y m ≤ 31)
unfolding month_length
month_length_bounds y m = ground arith

pub year_start-le : (n : ℕ) → n * 365 ≤ year_start n
unfolding year_start
year_start-le zero = omega arith
year_start-le (suc n) = omega (arith, year_start-le n, year_length_bounds (epoch_year + n))

year_start_step : (n : ℕ) → year_start n ≤ year_start (suc n)
unfolding year_start
year_start_step n = omega arith

pub year_start_mono : (a b : ℕ) → a ≤ b → year_start a ≤ year_start b
year_start_mono = mono_of_steps year_start year_start_step

month_start_step : (y m : ℕ) → month_start y m ≤ month_start y (suc m)
unfolding month_start
month_start_step y m = omega arith

pub month_start_mono : (y a b : ℕ) → a ≤ b → month_start y a ≤ month_start y b
month_start_mono y = mono_of_steps (month_start y) (month_start_step y)

-- Twelve months make a year.
pub month_start_year : (y : ℕ) → month_start y 12 ≡ year_length y
unfolding month_start month_length year_length
month_start_year y = ground arith

-- Within the year nothing carries.
make_day_eq :
    (n m d : ℕ)
    → m < 12
    → make_day (epoch_year + n) m d ≡ year_start n + month_start (epoch_year + n) m + d - 1
unfolding make_day
make_day_eq n m d h =
    let no_carry : epoch_year + n + m / 12 ≡ epoch_year + n = omega arith in
    let same_month : m % 12 ≡ m = omega arith in
    let since_epoch : epoch_year + n - epoch_year ≡ n = omega arith in
    rw (no_carry, same_month, since_epoch)

-- The n-th year after 1970, its month `m` and the date `d` in that month.
module _ (n m d : ℕ) (month : m < 12) (first : 1 ≤ d)
    (last : d ≤ month_length (epoch_year + n) m) where
  in_year : month_start (epoch_year + n) m + d - 1 < year_length (epoch_year + n)
  unfolding month_start
  in_year =
      omega (arith, month_start_mono (epoch_year + n) (suc m) 12, month_start_year (epoch_year + n))

  -- The getters return the parts that a day was made of.
  pub year_index-make_day : year_index (make_day (epoch_year + n) m d) ≡ n
  unfolding year_index year_start
  year_index-make_day = rw (make_day_eq n m d month) (
      locate_unique year_start year_start_mono _ n _ (omega (arith, year_start-le n)) (omega arith)
        (omega (arith, in_year)))

  pub year_of_day-make_day : year_of_day (make_day (epoch_year + n) m d) ≡ epoch_year + n
  unfolding year_of_day
  year_of_day-make_day = rw year_index-make_day

  pub month_of_day-make_day : month_of_day (make_day (epoch_year + n) m d) ≡ m
  unfolding month_of_day month_start
  month_of_day-make_day =
      rw (year_of_day-make_day, year_index-make_day, make_day_eq n m d month)
        (locate_unique (month_start (epoch_year + n)) (month_start_mono (epoch_year + n)) 11 m _
          (omega arith) (omega arith) (omega arith))

  pub date_of_day-make_day : date_of_day (make_day (epoch_year + n) m d) ≡ d
  unfolding date_of_day
  date_of_day-make_day =
      rw (month_of_day-make_day, year_of_day-make_day, year_index-make_day, make_day_eq n m d month)
        (omega arith)

-- The parts of a day lie in the calendar's ranges, and the day is made of them.
module _ (day : ℕ) where
  year_of : year_start (year_index day) ≤ day
  unfolding year_index year_start
  year_of = locate-le year_start (day / 365) day (omega arith)

  year_end : day < year_start (suc (year_index day))
  unfolding year_index
  year_end = lt-locate year_start (day / 365) day (omega (arith, year_start-le (suc (day / 365))))

  month_of : month_start (year_of_day day) (month_of_day day) ≤ day - year_start (year_index day)
  unfolding month_of_day month_start
  month_of = locate-le (month_start (year_of_day day)) 11 _ (omega arith)

  month_end :
      day - year_start (year_index day) < month_start (year_of_day day) (suc (month_of_day day))
  unfolding month_of_day
  month_end =
      lt-locate (month_start (year_of_day day)) 11 _
        (rw month_start_year (unfold year_start year_of_day in (omega (arith, year_of, year_end))))

  pub month_of_day-lt : month_of_day day < 12
  unfolding month_of_day
  month_of_day-lt =
      omega (
        arith,
        locate_bounded (month_start (year_of_day day)) 11 (day - year_start (year_index day)),
      )

  pub date_of_day_bounds :
      (1 ≤ date_of_day day) × (date_of_day day ≤ month_length (year_of_day day) (month_of_day day))
  unfolding date_of_day
  date_of_day_bounds = (omega arith, unfold month_start in omega (arith, month_of, month_end))

  pub make_day-parts : make_day (year_of_day day) (month_of_day day) (date_of_day day) ≡ day
  unfolding year_of_day date_of_day
  make_day-parts =
      make_day_eq (year_index day) (month_of_day day) (date_of_day day) month_of_day-lt
      ∙ omega (arith, year_of, month_of)

-- A month past December carries into the year.
pub make_day_carry : (y m d : ℕ) → make_day y m d ≡ make_day (y + m / 12) (m % 12) d
unfolding make_day
make_day_carry y m d =
    let no_carry : y + m / 12 + m % 12 / 12 ≡ y + m / 12 = omega arith in
    let same_month : m % 12 % 12 ≡ m % 12 = omega arith in rw (no_carry, same_month)

make_day_new_year :
    (n : ℕ)
    → make_day (epoch_year + n) 12 0
      ≡ make_day (epoch_year + n) 11 (month_length (epoch_year + n) 11)
unfolding make_day year_start month_start
make_day_new_year n =
    let next : epoch_year + n + 1 - epoch_year ≡ suc n = omega arith in
    let this : epoch_year + n + 0 - epoch_year ≡ n = omega arith in
    let same : epoch_year + n + 0 ≡ epoch_year + n = omega arith in
    rw (next, this, same)
      (omega (arith, month_start_year (epoch_year + n), month_length_bounds (epoch_year + n) 11))

-- Day 0 of the following month is the last day of this one.
pub make_day_zero :
    (n m : ℕ)
    → m < 12
    → make_day (epoch_year + n) (suc m) 0
      ≡ make_day (epoch_year + n) m (month_length (epoch_year + n) m)
unfolding month_start year_start
make_day_zero n m h = elim (dec_lt (suc m) 12) [
  | yes within ↦
      rw (make_day_eq n (suc m) 0 within, make_day_eq n m (month_length (epoch_year + n) m) h)
        (omega (arith, month_length_bounds (epoch_year + n) m))
  | no past ↦ let december : m ≡ 11 = omega arith in rw december (make_day_new_year n)
]

-- The same for a year that is named by its number.
module _ (y m d : ℕ) (since_epoch : epoch_year ≤ y) (month : m < 12) (first : 1 ≤ d)
    (last : d ≤ month_length y m) where
  renumbered : epoch_year + (y - epoch_year) ≡ y
  renumbered = omega arith

  last_renumbered : d ≤ month_length (epoch_year + (y - epoch_year)) m
  last_renumbered = rw renumbered last

  -- What the getters say of a date that the calendar has.
  pub date_parts :
      (year_of_day (make_day y m d) ≡ y)
      × (month_of_day (make_day y m d) ≡ m)
      × (date_of_day (make_day y m d) ≡ d)
  date_parts = (
    rw renumbered at (year_of_day-make_day (y - epoch_year) m d month first last_renumbered),
    rw renumbered at (month_of_day-make_day (y - epoch_year) m d month first last_renumbered),
    rw renumbered at (date_of_day-make_day (y - epoch_year) m d month first last_renumbered),
  )

pub make_day_month_end :
    (y m : ℕ) → epoch_year ≤ y → m < 12 → make_day y (suc m) 0 ≡ make_day y m (month_length y m)
make_day_month_end y m since_epoch month =
    let renumbered : epoch_year + (y - epoch_year) ≡ y = omega arith in
    rw renumbered at (make_day_zero (y - epoch_year) m month)

pub year_of_day-le : (day : ℕ) → epoch_year ≤ year_of_day day
unfolding year_of_day
year_of_day-le day = omega arith
