-- ===== src/Clock/Calendar.antt =====
-- The calendar by closed formulas, and that gmtime agrees with it.
use choreography_saga_demo.Base.{
  ℕ, zero, suc, ◌+◌, ◌-◌, ◌*◌, ◌/◌, ◌%◌, ◌≡◌, ◌≤◌, ◌<◌, refl, sym, Bool, true, false, ◌&&◌, ◌||◌,
  ltb, leb, ◌==◌, if◌then◌else◌, arith, Bool-cases, inl, inr,
}
use mathlib.Core.Path.{subst}
use choreography_saga_demo.Base.Range.{range_holds, range_holds-at}
use choreography_saga_demo.Clock.{
  Tm, is_leap, year_days, split_year, month_lengths, split_month, tm_in_month, tm_in_year, gmtime,
}

-- Days from the first of January of the year 1 of the Gregorian calendar to that of the year k + 1.
abbrev pub days_of_years : ℕ → ℕ
days_of_years k = 365 * k + k / 4 + k / 400 - k / 100

-- Days of a year before its month m.
abbrev pub days_of_months : Bool → ℕ → ℕ
days_of_months leap m = (367 * m - 362) / 12 - (if leb m 2 then 0 else if leap then 1 else 2)

-- timegm.
abbrev pub seconds_of : Tm → ℕ
seconds_of tm =
    (((days_of_years (tm.year - 1)
                - days_of_years 1969
                + days_of_months (is_leap tm.year) tm.month
                + (tm.day - 1))
              * 24
            + tm.hour)
          * 60
        + tm.minute)
      * 60
    + tm.second

leap-year : (k : ℕ) → days_of_years (k + 1) ≡ days_of_years k + year_days (k + 1)
leap-year k = ground arith

abbrev pub month_days : Bool → ℕ → ℕ
month_days leap m =
    if m == 2
    then (if leap then 29 else 28)
    else if m == 4 || m == 6 || m == 9 || m == 11
    then 30
    else 31

pub month_days-most : (leap : Bool) (m : ℕ) → month_days leap m ≤ 31
month_days-most leap m = ground arith

-- The month and the day in it are right for a day of a year.
abbrev pub month_fits : Bool → ℕ → ℕ × ℕ → Bool
month_fits leap d (m, r) =
    leb 1 m && leb m 12 && days_of_months leap m + r == d && ltb r (month_days leap m)

split_month_leap :
    range_holds (λ d. month_fits true d (split_month 1 (month_lengths true) d)) 0 366 ≡ true
unfolding split_month range_holds
split_month_leap = refl

split_month_common :
    range_holds (λ d. month_fits false d (split_month 1 (month_lengths false) d)) 0 365 ≡ true
unfolding split_month range_holds
split_month_common = refl

split_month-fits :
    (leap : Bool) (d : ℕ)
    → d < (if leap then 366 else 365)
    → month_fits leap d (split_month 1 (month_lengths leap) d) ≡ true
split_month-fits true d h =
    range_holds-at (λ d. month_fits true d (split_month 1 (month_lengths true) d)) 0 366 d
      split_month_leap (omega arith) h
split_month-fits false d h =
    range_holds-at (λ d. month_fits false d (split_month 1 (month_lengths false) d)) 0 365 d
      split_month_common (omega arith) h

-- The year and the day in it are right for the day d after the beginning of the year k + 1.
abbrev pub YearFits : ℕ → ℕ → ℕ × ℕ → Type 0
YearFits k d (y, r) =
    (k + 1 ≤ y) × (days_of_years (y - 1) + r ≡ days_of_years k + d) × (r < year_days y)

split_year-ends : (fuel y d : ℕ) → ltb d (year_days y) ≡ true → split_year (suc fuel) y d ≡ (y, d)
unfolding split_year
split_year-ends fuel y d e = rw e refl

split_year-goes :
    (fuel y d : ℕ)
    → ltb d (year_days y) ≡ false
    → split_year (suc fuel) y d ≡ split_year fuel (y + 1) (d - year_days y)
unfolding split_year
split_year-goes fuel y d e = rw e refl

year_days-least : (y : ℕ) → 365 ≤ year_days y
year_days-least y = ground arith

YearFits-next :
    (k d : ℕ) (p : ℕ × ℕ)
    → ltb d (year_days (k + 1)) ≡ false
    → YearFits (k + 1) (d - year_days (k + 1)) p
    → YearFits k d p
YearFits-next k d (y, r) e h =
    (omega (arith, h.0), later (year_days (k + 1)) (leap-year k) e h.1, h.2)
  where
    later :
        (n : ℕ)
        → days_of_years (k + 1) ≡ days_of_years k + n
        → ltb d n ≡ false
        → days_of_years (y - 1) + r ≡ days_of_years (k + 1) + (d - n)
        → days_of_years (y - 1) + r ≡ days_of_years k + d
    later n e f g = ground (arith, e, f, g)

split_year-YearFits : (fuel k d : ℕ) → d < 365 * fuel → YearFits k d (split_year fuel (k + 1) d)
split_year-YearFits zero k d h = absurd (omega arith)
split_year-YearFits (suc fuel) k d h = elim (Bool-cases (ltb d (year_days (k + 1)))) [
  | inl e ↦
      subst (YearFits k d) (sym (split_year-ends fuel (k + 1) d e))
        (omega arith, omega arith, ground (arith, e))
  | inr e ↦ subst (YearFits k d) (sym (split_year-goes fuel (k + 1) d e)) (
      YearFits-next k d (split_year fuel (k + 1 + 1) (d - year_days (k + 1))) e (
        split_year-YearFits fuel (k + 1) (d - year_days (k + 1))
          (fewer (year_days (k + 1)) (year_days-least (k + 1)) e)))
]
  where
    fewer : (n : ℕ) → 365 ≤ n → ltb d n ≡ false → d - n < 365 * fuel
    fewer n a b = ground (arith, h, a, b)

pub day_of_year :
    (t : ℕ) → YearFits 1969 (t / 86400) (split_year (t / 86400 / 365 + 1) 1970 (t / 86400))
day_of_year t = split_year-YearFits (t / 86400 / 365 + 1) 1969 (t / 86400) (omega arith)

-- A record of the ranges of the fields.
pub record IsTm (tm : Tm) : Type 0 where
  pub year_range : (1970 ≤ tm.year) × (tm.year < 10000)
  pub month_range : (1 ≤ tm.month) × (tm.month ≤ 12)
  pub day_range : (1 ≤ tm.day) × (tm.day ≤ month_days (is_leap tm.year) tm.month)
  pub hour_range : tm.hour < 24
  pub minute_range : tm.minute < 60
  pub second_range : tm.second < 60

years-least : (y : ℕ) → 1970 ≤ y → 719162 ≤ days_of_years (y - 1)
years-least y h = omega arith

in_month_seconds :
    (t y d : ℕ) (p : ℕ × ℕ)
    → 1970 ≤ y
    → month_fits (is_leap y) d p ≡ true
    → days_of_years (y - 1) + d ≡ days_of_years 1969 + t / 86400
    → seconds_of (tm_in_month t y p) ≡ t
in_month_seconds t y d (m, r) late f e =
    sum (days_of_years (y - 1)) (days_of_months (is_leap y) m) (years-least y late)
      (ground (arith, f)) e
  where
    sum :
        (a b : ℕ)
        → 719162 ≤ a
        → b + r ≡ d
        → a + d ≡ 719162 + t / 86400
        → (((a - 719162 + b + (r + 1 - 1)) * 24 + t % 86400 / 3600) * 60 + t % 3600 / 60) * 60
            + t % 60
          ≡ t
    sum a b l f e = omega arith

in_year_seconds :
    (t : ℕ) (p : ℕ × ℕ) → YearFits 1969 (t / 86400) p → seconds_of (tm_in_year t p) ≡ t
in_year_seconds t (y, d) h =
    in_month_seconds t y d (split_month 1 (month_lengths (is_leap y)) d) h.0
      (split_month-fits (is_leap y) d h.2) h.1

pub seconds_of-gmtime : (t : ℕ) → seconds_of (gmtime t) ≡ t
unfolding gmtime
seconds_of-gmtime t =
    in_year_seconds t (split_year (t / 86400 / 365 + 1) 1970 (t / 86400)) (day_of_year t)

-- 253402300800 is the first second of the year 10000.
year-bound : (y d n : ℕ) → n < 2932897 → days_of_years (y - 1) + d ≡ 719162 + n → y < 10000
year-bound y d n h e = omega arith

in_year-IsTm :
    (t : ℕ) (p : ℕ × ℕ) → t < 253402300800 → YearFits 1969 (t / 86400) p → IsTm (tm_in_year t p)
in_year-IsTm t (y, d) early h =
    in_month (split_month 1 (month_lengths (is_leap y)) d) (split_month-fits (is_leap y) d h.2)
  where
    in_month : (p : ℕ × ℕ) → month_fits (is_leap y) d p ≡ true → IsTm (tm_in_month t y p)
    in_month (m, r) f = record {
      year_range = (h.0, year-bound y d (t / 86400) (omega arith) h.1);
      month_range = ground (arith, f);
      day_range = ground (arith, f);
      hour_range = omega arith;
      minute_range = omega arith;
      second_range = omega arith;
    }

pub gmtime-IsTm : (t : ℕ) → t < 253402300800 → IsTm (gmtime t)
unfolding gmtime
gmtime-IsTm t early =
    in_year-IsTm t (split_year (t / 86400 / 365 + 1) 1970 (t / 86400)) early (day_of_year t)
