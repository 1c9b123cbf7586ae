-- ===== src/Clock.antt =====
-- The texts of a time: rfc3339_now of services/inventory/src/envelope.cpp and timestamp of
-- services/inventory/src/obs.cpp, as functions of the system clock, which is not before the epoch.
pub mod Calendar
pub mod RoundTrip
use Prim.Native.Char.{Char}
use choreography_saga_demo.Base.{
  ℕ, zero, suc, ◌+◌, ◌-◌, ◌*◌, ◌/◌, ◌%◌, String, Bool, not, ◌&&◌, ◌||◌, List, [], ◌∷◌, ◌++◌, ltb,
  ◌==◌, if◌then◌else◌,
}
use choreography_saga_demo.Uuid.{char_at, of_chars}

-- std::tm with the full year, and the month from 1.
pub record Tm : Type 0 where
  pub year : ℕ
  pub month : ℕ
  pub day : ℕ
  pub hour : ℕ
  pub minute : ℕ
  pub second : ℕ

abbrev pub is_leap : ℕ → Bool
is_leap y = y % 4 == 0 && (not (y % 100 == 0) || y % 400 == 0)

abbrev pub year_days : ℕ → ℕ
year_days y = if is_leap y then 366 else 365

-- The year, from `y` on, in which the day `d` after its beginning lies, and the day of that year.
unfoldable pub split_year : ℕ → ℕ → ℕ → ℕ × ℕ
split_year zero y d = (y, d)
split_year (suc fuel) y d =
    let rest : ℕ × ℕ = split_year fuel (y + 1) (d - year_days y) in
    if ltb d (year_days y) then (y, d) else rest

abbrev pub month_lengths : Bool → List ℕ
month_lengths leap =
    31 ∷ (if leap then 29 else 28) ∷ 31 ∷ 30 ∷ 31 ∷ 30 ∷ 31 ∷ 31 ∷ 30 ∷ 31 ∷ 30 ∷ 31 ∷ []

unfoldable pub split_month : ℕ → List ℕ → ℕ → ℕ × ℕ
split_month m [] d = (m, d)
split_month m (l ∷ ls) d =
    let rest : ℕ × ℕ = split_month (m + 1) ls (d - l) in if ltb d l then (m, d) else rest

abbrev pub tm_in_month : ℕ → ℕ → ℕ × ℕ → Tm
tm_in_month t y (m, d) = record {
  year = y;
  month = m;
  day = d + 1;
  hour = t % 86400 / 3600;
  minute = t % 3600 / 60;
  second = t % 60;
}

abbrev pub tm_in_year : ℕ → ℕ × ℕ → Tm
tm_in_year t (y, d) = tm_in_month t y (split_month 1 (month_lengths (is_leap y)) d)

-- gmtime_r; a year has at least 365 days, so that the fuel suffices.
unfoldable pub gmtime : ℕ → Tm
unfolding split_year split_month
gmtime t = tm_in_year t (split_year (t / 86400 / 365 + 1) 1970 (t / 86400))

abbrev pub decimal_digits : List Char
decimal_digits = "0" ∷ "1" ∷ "2" ∷ "3" ∷ "4" ∷ "5" ∷ "6" ∷ "7" ∷ "8" ∷ "9" ∷ []

unfoldable pub digit : ℕ → Char
digit n = char_at decimal_digits n

-- A number of at most `fuel` digits before the text `acc`; twenty are enough for 64 bits.
unfoldable pub decimal : ℕ → ℕ → List Char → List Char
decimal zero n acc = acc
decimal (suc fuel) n acc =
    let rest : List Char = decimal fuel (n / 10) (digit (n % 10) ∷ acc) in
    if ltb n 10 then digit n ∷ acc else rest

abbrev pub two : ℕ → List Char
two n = digit (n / 10) ∷ digit (n % 10) ∷ []

-- %Y-%m-%dT%H:%M:%S.
unfoldable pub strftime : Tm → List Char
unfolding decimal
strftime tm =
    decimal 20 tm.year []
    ++ "-" ∷ two tm.month
    ++ "-" ∷ two tm.day
    ++ "T" ∷ two tm.hour
    ++ ":" ∷ two tm.minute
    ++ ":" ∷ two tm.second

-- `oss.width(3); oss.fill('0'); oss << ms`.
abbrev pub filled : List Char → List Char
filled [] = "0" ∷ "0" ∷ "0" ∷ []
filled (a ∷ []) = "0" ∷ "0" ∷ a ∷ []
filled (a ∷ b ∷ []) = "0" ∷ a ∷ b ∷ []
filled (a ∷ b ∷ c ∷ rest) = a ∷ b ∷ c ∷ rest

-- The clock in nanoseconds.
unfoldable pub rfc3339_chars : ℕ → List Char
unfolding gmtime strftime decimal
rfc3339_chars now =
    let secs : ℕ = now / 1000000000 in
    let ms : ℕ = (now - secs * 1000000000) / 1000000 in
    strftime (gmtime secs) ++ "." ∷ filled (decimal 20 ms []) ++ "Z" ∷ []

unfoldable pub rfc3339_now : ℕ → String
unfolding rfc3339_chars
rfc3339_now now = of_chars (rfc3339_chars now)

unfoldable pub timestamp_chars : ℕ → List Char
unfolding gmtime strftime
timestamp_chars now = strftime (gmtime (now / 1000000000)) ++ "Z" ∷ []

unfoldable pub timestamp : ℕ → String
unfolding timestamp_chars
timestamp now = of_chars (timestamp_chars now)
