-- ===== src/Timestamp.antt =====
-- Timestamps in canonical UTC milliseconds: `parseCanonicalUtcMilliseconds` of
-- packages/core/src/paid-task-lifecycle.ts and packages/core/src/requirements-offering-quote.ts, and
-- `parseMaturityAt` of packages/core/src/offering-definition.ts.
--
-- Times count milliseconds from the start of the year 0000 of the proleptic Gregorian calendar, the
-- first that the format can write, so that they are natural numbers; `Date` counts from 1970, and
-- the program only compares times.
use tool.Common.{
  ℕ, zero, suc, ◌+◌, ◌-◌, ◌*◌, ◌/◌, ◌%◌, Bool, true, false, not, ◌&&◌, ◌||◌, Option, none, some, [],
  ◌∷◌, ◌++◌, take, drop, ltb, leb, ◌==◌, if◌then◌else◌, Result, ok, err, type_error, range_error,
}
use tool.Common.Text.{Text, codes, ◌===◌}
use tool.Js.{Value, string}
use tool.Value.{is_digit, big_int}

-- A text against a template, in which `d` stands for a digit.
unfoldable pub fits : Text → Text → Bool
unfolding is_digit
fits [] [] = true
fits [] (c ∷ s) = false
fits (p ∷ ps) [] = false
fits (p ∷ ps) (c ∷ s) = (if p == b'd' then is_digit c else c == p) && fits ps s

unfoldable pub canonical_utc_milliseconds : Text → Bool
unfolding fits
canonical_utc_milliseconds s = fits (codes "dddd-dd-ddTdd:dd:dd.dddZ") s

unfoldable pub is_leap : ℕ → Bool
is_leap y = y % 4 == 0 && (not (y % 100 == 0) || y % 400 == 0)

unfoldable pub days_before_year : ℕ → ℕ
days_before_year y = 365 * y + (y + 3) / 4 - (y + 99) / 100 + (y + 399) / 400

-- The days of a year before its months, counted from 1; the thirteenth is the end of the year.
unfoldable pub days_before_month : Bool → ℕ → ℕ
days_before_month leap m =
    let extra = if leap then 1 else 0 in
    if leb m 1
    then 0
    else if m == 2
    then 31
    else if m == 3
    then 59 + extra
    else if m == 4
    then 90 + extra
    else if m == 5
    then 120 + extra
    else if m == 6
    then 151 + extra
    else if m == 7
    then 181 + extra
    else if m == 8
    then 212 + extra
    else if m == 9
    then 243 + extra
    else if m == 10
    then 273 + extra
    else if m == 11
    then 304 + extra
    else if m == 12
    then 334 + extra
    else 365 + extra

unfoldable pub field : Text → ℕ → ℕ → ℕ
unfolding big_int
field s from len = big_int 0 (take len (drop from s))

-- `Date.parse` at a text of the canonical form. A day that its month does not have runs into the
-- next month, and the hour 24 is the end of the day.
unfoldable pub date_parse : Text → Option ℕ
unfolding field days_before_year days_before_month is_leap
date_parse s =
    let year = field s 0 4 in
    let month = field s 5 2 in
    let day = field s 8 2 in
    let hour = field s 11 2 in
    let minute = field s 14 2 in
    let second = field s 17 2 in
    let milli = field s 20 3 in
    let days = days_before_year year + days_before_month (is_leap year) month + (day - 1) in
    if leb 1 month
      && leb month 12
      && leb 1 day
      && leb day 31
      && leb minute 59
      && leb second 59
      && (leb hour 23 || (hour == 24 && minute == 0 && second == 0 && milli == 0))
    then some ((((days * 24 + hour) * 60 + minute) * 60 + second) * 1000 + milli)
    else none

-- The year that holds a day, from a first guess upwards.
unfoldable pub year_from : ℕ → ℕ → ℕ → ℕ
unfolding days_before_year
year_from zero y days = y
year_from (suc k) y days =
    let later = year_from k (suc y) days in if ltb days (days_before_year (suc y)) then y else later

unfoldable pub month_from : ℕ → Bool → ℕ → ℕ → ℕ
unfolding days_before_month
month_from zero leap m day = m
month_from (suc k) leap m day =
    let later = month_from k leap (suc m) day in
    if ltb day (days_before_month leap (suc m)) then m else later

unfoldable pub two_digits : ℕ → Text
two_digits n = (n / 10 % 10 + b'0') ∷ (n % 10 + b'0') ∷ []

unfoldable pub three_digits : ℕ → Text
unfolding two_digits
three_digits n = (n / 100 % 10 + b'0') ∷ two_digits n

unfoldable pub four_digits : ℕ → Text
unfolding three_digits
four_digits n = (n / 1000 % 10 + b'0') ∷ three_digits n

-- `new Date(time).toISOString()`, for times before the year 10000.
unfoldable pub to_iso_string : ℕ → Text
unfolding year_from month_from is_leap four_digits
to_iso_string time =
    let days = time / 86400000 in
    let ms = time % 86400000 in
    let year = year_from 400 (days / 146097 * 400) days in
    let day = days - days_before_year year in
    let month = month_from 12 (is_leap year) 1 day in
    four_digits year
    ++ (b'-' ∷ two_digits month)
    ++ (b'-' ∷ two_digits (day - days_before_month (is_leap year) month + 1))
    ++ (b'T' ∷ two_digits (ms / 3600000))
    ++ (b':' ∷ two_digits (ms / 60000 % 60))
    ++ (b':' ∷ two_digits (ms / 1000 % 60))
    ++ (b'.' ∷ three_digits (ms % 1000))
    ++ (b'Z' ∷ [])

unfoldable pub round_trip : Text → Result ℕ
unfolding date_parse to_iso_string ◌===◌
round_trip s = elim (date_parse s) [
  | none ↦ err (range_error "timestamp must round-trip as canonical UTC milliseconds")
  | some time ↦
      if to_iso_string time === s
      then ok time
      else err (range_error "timestamp must round-trip as canonical UTC milliseconds")
]

unfoldable pub parse_text : Text → Result ℕ
unfolding canonical_utc_milliseconds round_trip
parse_text s =
    if canonical_utc_milliseconds s
    then round_trip s
    else err (type_error "timestamp must use canonical UTC milliseconds")

unfoldable pub parse_canonical_utc_milliseconds : Value → Result ℕ
unfolding parse_text
parse_canonical_utc_milliseconds (string s) = parse_text s
parse_canonical_utc_milliseconds _ =
    err (type_error "timestamp must use canonical UTC milliseconds")
