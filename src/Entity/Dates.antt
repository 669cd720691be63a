-- ===== src/Entity/Dates.antt =====
-- The dates of packages/core/src/entity-check.ts. `Date.parse` on these texts, with their fractions and
-- offsets, and `toUTCString` are the host's: the record `Clock`.
use tool.Common.{
  ℕ, suc, Bool, false, ◌&&◌, ◌||◌, List, [], ◌∷◌, take, drop, leb, ◌==◌, if◌then◌else◌, Result, ok,
  err, Error, type_error,
}
use tool.Common.Text.{Text, codes, ◌===◌}
use tool.Js.{Value, string}
use tool.Value.{is_digit}
use tool.Timestamp.{fits, is_leap, field}

abbrev pub rejected : Error
rejected = type_error "invalid EntityCheck input"

pub record Clock : Type 0 where
  pub parses : Text → Bool
  pub round_trips_utc : Text → Bool

unfoldable pub days_in_month : ℕ → ℕ → ℕ
unfolding is_leap
days_in_month year month =
    if month == 2
    then (if is_leap year then 29 else 28)
    else if month == 4 || month == 6 || month == 9 || month == 11
    then 30
    else 31

unfoldable pub has_valid_calendar_date : ℕ → ℕ → ℕ → Bool
unfolding days_in_month
has_valid_calendar_date year month day =
    leb 1 month && leb month 12 && leb 1 day && leb day (days_in_month year month)

-- The year, the month and the day that a text begins with.
unfoldable pub starts_with_date : Text → Bool
unfolding has_valid_calendar_date field
starts_with_date s = has_valid_calendar_date (field s 0 4) (field s 5 2) (field s 8 2)

unfoldable pub parse_calendar_date : Value → Result Text
unfolding fits starts_with_date
parse_calendar_date (string s) =
    if fits (codes "dddd-dd-dd") s && starts_with_date s then ok s else err rejected
parse_calendar_date _ = err rejected

-- `(?:Z|[+-](?:[01]\d|2[0-3]):[0-5]\d)`
unfoldable pub offset_pattern : Text → Bool
unfolding fits field
offset_pattern s =
    (s === codes "Z")
    || ((fits (codes "+dd:dd") s || fits (codes "-dd:dd") s)
        && leb (field s 1 2) 23
        && leb (field s 4 2) 59)

-- The digits that a text begins with, and the rest.
unfoldable pub leading_digits : Text → ℕ × Text
unfolding is_digit
leading_digits [] = (0, [])
leading_digits (c ∷ s) =
    let (n, rest) = leading_digits s in if is_digit c then (suc n, rest) else (0, c ∷ s)

-- `(?:\.\d{1,9})?` and the offset
unfoldable pub fraction_pattern : Text → Bool
unfolding leading_digits offset_pattern
fraction_pattern [] = false
fraction_pattern (c ∷ s) =
    if c == b'.'
    then (let (n, rest) = leading_digits s in leb 1 n && leb n 9 && offset_pattern rest)
    else offset_pattern (c ∷ s)

unfoldable pub iso_timestamp_pattern : Text → Bool
unfolding fits fraction_pattern
iso_timestamp_pattern s =
    fits (codes "dddd-dd-ddTdd:dd:dd") (take 19 s) && fraction_pattern (drop 19 s)

abbrev one_of : List Text → Text → Bool
one_of [] s = false
one_of (t ∷ ts) s = (s === t) || one_of ts s

abbrev weekdays : List Text
weekdays =
    codes "Sun"
    ∷ codes "Mon"
    ∷ codes "Tue"
    ∷ codes "Wed"
    ∷ codes "Thu"
    ∷ codes "Fri"
    ∷ codes "Sat"
    ∷ []

abbrev months : List Text
months =
    codes "Jan"
    ∷ codes "Feb"
    ∷ codes "Mar"
    ∷ codes "Apr"
    ∷ codes "May"
    ∷ codes "Jun"
    ∷ codes "Jul"
    ∷ codes "Aug"
    ∷ codes "Sep"
    ∷ codes "Oct"
    ∷ codes "Nov"
    ∷ codes "Dec"
    ∷ []

-- `imfFixdatePattern`
unfoldable pub imf_fixdate_pattern : Text → Bool
unfolding fits ◌===◌
imf_fixdate_pattern s =
    one_of weekdays (take 3 s)
    && fits (codes ", dd ") (take 5 (drop 3 s))
    && one_of months (take 3 (drop 8 s))
    && fits (codes " dddd dd:dd:dd GMT") (drop 11 s)

module _ (clock : Clock) where
  unfoldable pub parse_iso_timestamp : Value → Result Text
  unfolding iso_timestamp_pattern starts_with_date field
  parse_iso_timestamp (string s) =
      if iso_timestamp_pattern s
        && starts_with_date s
        && leb (field s 11 2) 23
        && leb (field s 14 2) 59
        && leb (field s 17 2) 59
        && clock.parses s
      then ok s
      else err rejected
  parse_iso_timestamp _ = err rejected

  unfoldable pub parse_last_modified : Value → Result Text
  unfolding parse_iso_timestamp imf_fixdate_pattern
  parse_last_modified (string s) =
      if iso_timestamp_pattern s
      then parse_iso_timestamp (string s)
      else if imf_fixdate_pattern s && clock.parses s && clock.round_trips_utc s
      then ok s
      else err rejected
  parse_last_modified _ = err rejected
