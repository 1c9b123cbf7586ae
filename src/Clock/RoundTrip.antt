-- ===== src/Clock/RoundTrip.antt =====
-- What the texts of a time say.
use Prim.Native.Char.{Char, code}
use choreography_saga_demo.Base.{
  ℕ, suc, ◌+◌, ◌-◌, ◌*◌, ◌/◌, ◌%◌, ◌≡◌, ◌≤◌, ◌<◌, refl, ap, ◌∙◌, Bool, true, false, ◌&&◌, leb, ltb,
  if◌then◌else◌, List, [], ◌∷◌, ◌++◌, Option, none, some, dec_lt, ◌==◌, arith,
}
use choreography_saga_demo.Base.Range.{range_holds, range_holds-at}
use choreography_saga_demo.Uuid.{char_at}
use choreography_saga_demo.Uuid.Format.{chars, chars-of_chars}
use choreography_saga_demo.Clock.{
  Tm, is_leap, gmtime, digit, decimal, decimal_digits, two, strftime, filled, rfc3339_chars,
  rfc3339_now,
}
use choreography_saga_demo.Clock.Calendar.{
  seconds_of, month_days, month_days-most, IsTm, gmtime-IsTm, seconds_of-gmtime,
}

-- A decimal digit, and the numbers of two, three and four of them.
abbrev pub is_digit : Char → Bool
is_digit c = leb 48 (code c) && leb (code c) 57

abbrev pub digit_of : Char → ℕ
digit_of c = code c - 48

abbrev pub pair_of : Char → Char → ℕ
pair_of a b = digit_of a * 10 + digit_of b

abbrev pub triple_of : Char → Char → Char → ℕ
triple_of a b c = pair_of a b * 10 + digit_of c

abbrev pub quad_of : Char → Char → Char → Char → ℕ
quad_of a b c d = triple_of a b c * 10 + digit_of d

-- What stands at a place of a text: a digit, or that one character.
pub data Place : Type 0 where
  some_digit : Place
  only : Char → Place

abbrev pub stands_at : Place → Char → Bool
stands_at some_digit c = is_digit c
stands_at (only a) c = code c == code a

abbrev pub has_form : List Place → List Char → Bool
has_form [] [] = true
has_form (p ∷ ps) (c ∷ cs) = stands_at p c && has_form ps cs
has_form _ _ = false

abbrev two_digits : List Place
two_digits = some_digit ∷ some_digit ∷ []

-- YYYY-MM-DDThh:mm:ss.mmmZ.
abbrev pub time_form : List Place
time_form =
    some_digit ∷ some_digit ∷ two_digits
    ++ only "-" ∷ two_digits
    ++ only "-" ∷ two_digits
    ++ only "T" ∷ two_digits
    ++ only ":" ∷ two_digits
    ++ only ":" ∷ two_digits
    ++ only "." ∷ some_digit ∷ two_digits
    ++ only "Z" ∷ []

-- There is such a day in the calendar, and such a time in a day.
abbrev pub is_time : Tm → Bool
is_time tm =
    leb 1 tm.year
    && leb 1 tm.month
    && leb tm.month 12
    && leb 1 tm.day
    && leb tm.day (month_days (is_leap tm.year) tm.month)
    && ltb tm.hour 24
    && ltb tm.minute 60
    && ltb tm.second 60

-- The milliseconds since the epoch that a time and its fraction stand for.
abbrev pub millis_of : Tm → ℕ → Option ℕ
millis_of tm ms = if is_time tm then some (seconds_of tm * 1000 + ms) else none

abbrev pub read_fields : List Char → Option ℕ
read_fields
      (y0 ∷ y1 ∷ y2 ∷ y3 ∷ _ ∷ m0 ∷ m1 ∷ _ ∷ d0 ∷ d1 ∷ _ ∷ h0 ∷ h1 ∷ _ ∷ n0 ∷ n1 ∷ _ ∷ s0 ∷ s1 ∷ _
        ∷ f0 ∷ f1 ∷ f2 ∷ _ ∷ []) =
    millis_of
      (record {
        year = quad_of y0 y1 y2 y3;
        month = pair_of m0 m1;
        day = pair_of d0 d1;
        hour = pair_of h0 h1;
        minute = pair_of n0 n1;
        second = pair_of s0 s1;
      })
      (triple_of f0 f1 f2)
read_fields _ = none

-- A text of that form is read; any other text is none of a time.
abbrev pub read_millis : List Char → Option ℕ
read_millis cs = if has_form time_form cs then read_fields cs else none

digit_table : range_holds (λ n. digit_of (digit n) == n) 0 10 ≡ true
unfolding range_holds digit
digit_table = refl

is_digit_table : range_holds (λ n. is_digit (digit n)) 0 10 ≡ true
unfolding range_holds digit
is_digit_table = refl

is_digit-digit : (n : ℕ) → n < 10 → is_digit (digit n) ≡ true
is_digit-digit n h = range_holds-at (λ n. is_digit (digit n)) 0 10 n is_digit_table (omega arith) h

digit_of-digit : (n : ℕ) → n < 10 → digit_of (digit n) ≡ n
digit_of-digit n h =
    ground (arith, range_holds-at (λ n. digit_of (digit n) == n) 0 10 n digit_table (omega arith) h)

pair_of-two : (n : ℕ) → n < 100 → pair_of (digit (n / 10)) (digit (n % 10)) ≡ n
pair_of-two n h =
    omega (arith, digit_of-digit (n / 10) (omega arith), digit_of-digit (n % 10) (omega arith))

decimal_last : (fuel n : ℕ) (acc : List Char) → n < 10 → decimal (suc fuel) n acc ≡ digit n ∷ acc
unfolding decimal
decimal_last fuel n acc h = ground arith

decimal_next :
    (fuel n : ℕ) (acc : List Char)
    → 10 ≤ n
    → decimal (suc fuel) n acc ≡ decimal fuel (n / 10) (digit (n % 10) ∷ acc)
unfolding decimal
decimal_next fuel n acc h = ground arith

decimal_two :
    (fuel n : ℕ) (acc : List Char)
    → 10 ≤ n
    → n < 100
    → decimal (suc (suc fuel)) n acc ≡ digit (n / 10) ∷ digit (n % 10) ∷ acc
decimal_two fuel n acc l h =
    decimal_next (suc fuel) n acc l
    ∙ decimal_last fuel (n / 10) (digit (n % 10) ∷ acc) (omega arith)

decimal_three :
    (fuel n : ℕ) (acc : List Char)
    → 100 ≤ n
    → n < 1000
    → decimal (suc (suc (suc fuel))) n acc
      ≡ digit (n / 10 / 10) ∷ digit (n / 10 % 10) ∷ digit (n % 10) ∷ acc
decimal_three fuel n acc l h =
    decimal_next (suc (suc fuel)) n acc (omega arith)
    ∙ decimal_two fuel (n / 10) (digit (n % 10) ∷ acc) (omega arith) (omega arith)

decimal_four :
    (n : ℕ)
    → 1000 ≤ n
    → n < 10000
    → decimal 20 n []
      ≡ digit (n / 10 / 10 / 10)
        ∷ digit (n / 10 / 10 % 10)
        ∷ digit (n / 10 % 10)
        ∷ digit (n % 10)
        ∷ []
decimal_four n l h =
    decimal_next 19 n [] (omega arith)
    ∙ decimal_three 16 (n / 10) (digit (n % 10) ∷ []) (omega arith) (omega arith)

digit-zero : (n : ℕ) → n ≡ 0 → digit n ≡ "0"
unfolding digit
digit-zero n e = ap (char_at decimal_digits) e

filled_three :
    (n : ℕ)
    → n < 1000
    → filled (decimal 20 n []) ≡ digit (n / 10 / 10) ∷ digit (n / 10 % 10) ∷ digit (n % 10) ∷ []
filled_three n h = elim (dec_lt n 10) [
  | yes one ↦
      let same : n % 10 ≡ n = omega arith in
      ap filled (decimal_last 19 n [] one)
      ∙ cc (digit-zero (n / 10 / 10) (omega arith), digit-zero (n / 10 % 10) (omega arith), same)
  | no more ↦ elim (dec_lt n 100) [
    | yes two ↦
        let same : n / 10 % 10 ≡ n / 10 = omega arith in
        ap filled (decimal_two 18 n [] (omega arith) two)
        ∙ cc (digit-zero (n / 10 / 10) (omega arith), same)
    | no three ↦ ap filled (decimal_three 17 n [] (omega arith) h)
  ]
]

strftime_lem :
    (tm : Tm)
    → IsTm tm
    → strftime tm
      ≡ digit (tm.year / 10 / 10 / 10)
          ∷ digit (tm.year / 10 / 10 % 10)
          ∷ digit (tm.year / 10 % 10)
          ∷ digit (tm.year % 10)
          ∷ "-"
          ∷ two tm.month
        ++ "-" ∷ two tm.day
        ++ "T" ∷ two tm.hour
        ++ ":" ∷ two tm.minute
        ++ ":" ∷ two tm.second
unfolding strftime
strftime_lem tm h = rw (decimal_four tm.year (omega (arith, h.year_range.0)) h.year_range.1) refl

quad_of-year :
    (n : ℕ)
    → n < 10000
    → quad_of
        (digit (n / 10 / 10 / 10))
        (digit (n / 10 / 10 % 10))
        (digit (n / 10 % 10))
        (digit (n % 10))
      ≡ n
quad_of-year n h = omega (
  arith,
  digit_of-digit (n / 10 / 10 / 10) (omega arith),
  digit_of-digit (n / 10 / 10 % 10) (omega arith),
  digit_of-digit (n / 10 % 10) (omega arith),
  digit_of-digit (n % 10) (omega arith),
)

triple_of-millis :
    (n : ℕ) → n < 1000 → triple_of (digit (n / 10 / 10)) (digit (n / 10 % 10)) (digit (n % 10)) ≡ n
triple_of-millis n h = omega (
  arith,
  digit_of-digit (n / 10 / 10) (omega arith),
  digit_of-digit (n / 10 % 10) (omega arith),
  digit_of-digit (n % 10) (omega arith),
)

IsTm-day : {tm : Tm} → IsTm tm → tm.day ≤ 31
IsTm-day {tm} h = omega (arith, h.day_range, month_days-most (is_leap tm.year) tm.month)

read_fields-strftime :
    (tm : Tm) (ms : ℕ)
    → IsTm tm
    → ms < 1000
    → read_fields (strftime tm ++ "." ∷ filled (decimal 20 ms []) ++ "Z" ∷ []) ≡ millis_of tm ms
read_fields-strftime tm ms h less =
    rw (strftime_lem tm h, filled_three ms less)
      (rw
        (
          quad_of-year tm.year h.year_range.1,
          pair_of-two tm.month (omega (arith, h.month_range)),
          pair_of-two tm.day (omega (arith, IsTm-day h)),
          pair_of-two tm.hour (omega (arith, h.hour_range)),
          pair_of-two tm.minute (omega (arith, h.minute_range)),
          pair_of-two tm.second (omega (arith, h.second_range)),
          triple_of-millis ms less,
        )
        refl)

has_form-strftime :
    (tm : Tm) (ms : ℕ)
    → IsTm tm
    → ms < 1000
    → has_form time_form (strftime tm ++ "." ∷ filled (decimal 20 ms []) ++ "Z" ∷ []) ≡ true
has_form-strftime tm ms h less =
    rw (strftime_lem tm h, filled_three ms less)
      (rw
        (
          is_digit-digit (tm.year / 10 / 10 / 10) (omega (arith, h.year_range)),
          is_digit-digit (tm.year / 10 / 10 % 10) (omega arith),
          is_digit-digit (tm.year / 10 % 10) (omega arith),
          is_digit-digit (tm.year % 10) (omega arith),
          is_digit-digit (tm.month / 10) (omega (arith, h.month_range)),
          is_digit-digit (tm.month % 10) (omega arith),
          is_digit-digit (tm.day / 10) (omega (arith, IsTm-day h)),
          is_digit-digit (tm.day % 10) (omega arith),
          is_digit-digit (tm.hour / 10) (omega (arith, h.hour_range)),
          is_digit-digit (tm.hour % 10) (omega arith),
          is_digit-digit (tm.minute / 10) (omega (arith, h.minute_range)),
          is_digit-digit (tm.minute % 10) (omega arith),
          is_digit-digit (tm.second / 10) (omega (arith, h.second_range)),
          is_digit-digit (tm.second % 10) (omega arith),
          is_digit-digit (ms / 10 / 10) (omega arith),
          is_digit-digit (ms / 10 % 10) (omega arith),
          is_digit-digit (ms % 10) (omega arith),
        )
        refl)

is_time-IsTm : (tm : Tm) → IsTm tm → is_time tm ≡ true
is_time-IsTm tm h =
    ground (
      arith, h.year_range, h.month_range, h.day_range, h.hour_range, h.minute_range, h.second_range,
    )

read_millis-strftime :
    (tm : Tm) (ms : ℕ)
    → IsTm tm
    → ms < 1000
    → read_millis (strftime tm ++ "." ∷ filled (decimal 20 ms []) ++ "Z" ∷ [])
      ≡ some (seconds_of tm * 1000 + ms)
read_millis-strftime tm ms h less =
    ground
      (arith, has_form-strftime tm ms h less, read_fields-strftime tm ms h less, is_time-IsTm tm h)

millis : (now : ℕ) → (now - now / 1000000000 * 1000000000) / 1000000 < 1000
millis now = omega arith

rfc3339_now_chars :
    (now : ℕ)
    → chars (rfc3339_now now)
      ≡ strftime (gmtime (now / 1000000000))
        ++ "." ∷ filled (decimal 20 ((now - now / 1000000000 * 1000000000) / 1000000) [])
        ++ "Z" ∷ []
unfolding rfc3339_now rfc3339_chars
rfc3339_now_chars now = chars-of_chars _

-- For a clock between the epoch and the year 10000, the text of rfc3339_now has the form YYYY-MM-
-- DDThh:mm:ss.mmmZ, with those dashes, colons, the point, T and Z, and decimal digits at all other
-- places; it names a day that the Gregorian calendar has, and a time of a day of 24 hours; and that
-- time, in UTC, is the number of whole milliseconds since the epoch.
pub read_millis-rfc3339_now :
    (now : ℕ)
    → now < 253402300800000000000
    → read_millis (chars (rfc3339_now now)) ≡ some (now / 1000000)
read_millis-rfc3339_now now early =
    let seconds : ℕ = now / 1000000000 in
    let ms : ℕ = (now - now / 1000000000 * 1000000000) / 1000000 in
    let whole : seconds * 1000 + ms ≡ now / 1000000 = omega arith in
    ap read_millis (rfc3339_now_chars now)
    ∙ read_millis-strftime (gmtime seconds) ms (gmtime-IsTm seconds (omega arith)) (millis now)
    ∙ ap some (ap (λ x. x * 1000 + ms) (seconds_of-gmtime seconds) ∙ whole)
