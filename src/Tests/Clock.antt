-- ===== src/Tests/Clock.antt =====
-- Texts of a time.
use choreography_saga_demo.Base.{◌≡◌, refl, none, some, arith}
use choreography_saga_demo.Uuid.Format.{chars}
use choreography_saga_demo.Clock.{
  rfc3339_now, rfc3339_chars, timestamp, timestamp_chars, strftime, decimal, digit, gmtime,
  split_year, split_month,
}
use choreography_saga_demo.Clock.RoundTrip.{read_millis, read_millis-rfc3339_now}

in_2023 : rfc3339_now 1700000000123456789 ≡ "2023-11-14T22:13:20.123Z"
unfolding rfc3339_now rfc3339_chars strftime decimal digit gmtime split_year split_month
in_2023 = refl

leap_day : timestamp 1709164800000000000 ≡ "2024-02-29T00:00:00Z"
unfolding timestamp timestamp_chars strftime decimal digit gmtime split_year split_month
leap_day = refl

read_millis-rfc3339_now_example :
    read_millis (chars (rfc3339_now 1700000000007456789)) ≡ some 1700000000007
read_millis-rfc3339_now_example = read_millis-rfc3339_now 1700000000007456789 (omega arith)

-- Texts that are not read: spaces for zeros, a slash, and a day that there is not.
spaces_refused : read_millis (chars "2023-11-14T22:13:20.  7Z") ≡ none
spaces_refused = refl

slash_refused : read_millis (chars "2023/11-14T22:13:20.007Z") ≡ none
slash_refused = refl

no_such_day : read_millis (chars "2023-02-29T00:00:00.000Z") ≡ none
no_such_day = refl
