-- ===== src/Core/Link/Time.antt =====
-- Times: src/core/utils.cpp: timegm_utc, gmtime_utc, formatTimestamp, currentTimestamp,
-- parseRfc3339Zulu, isExpired. A time point is a signed number of whole seconds from the epoch:
-- every comparison is with a parsed time, which has whole seconds, so the fraction of the clock's
-- reading does not matter. `std::get_time` is modelled as the GNU C++ library has it (`time_get::get`
-- of its version 12): white space before the time is skipped, a field may have fewer digits, a
-- literal either case, the text may end behind any field, and what follows the `Z` is left unread.
use url_shortener.Prelude.{
  ℕ, zero, suc, ◌+◌, ◌-◌, ◌*◌, ◌/◌, ◌%◌, ◌≡◌, refl, Bool, true, false, ◌&&◌, Option, none, some,
  List, [], ◌∷◌, ◌++◌, ltb, leb, ◌==◌, if◌then◌else◌, is_empty, Bytes, bytes, is_digit, is_space,
  to_lower, ℤ, pos, negsuc, leb_ℤ, ◌+ℤ◌, sub_ℕ, pos_part,
}
use url_shortener.Core.Text.{drop_while}

-- `std::tm`, with the full year and the month from 1.
pub record Tm : Type 0 where
  pub year : ℕ
  pub month : ℕ
  pub day : ℕ
  pub hour : ℕ
  pub minute : ℕ
  pub second : ℕ

infixl 5 ◌>>=◌
abbrev pub ◌>>=◌ {ℓ κ} : {A : Type ℓ} {B : Type κ} → Option A → (A → Option B) → Option B
none >>= f = none
some a >>= f = f a

-- The directives %Y, %m, %d, %H, %M and %S, and a literal character.
pub data Item : Type 0 where
  year_item month_item day_item hour_item minute_item second_item : Item
  literal : ℕ → Item

-- At most `n` digits, appended to a number, and the text behind them.
unfoldable pub read_digits : ℕ → ℕ → Bytes → ℕ × Bytes
read_digits zero acc s = (acc, s)
read_digits (suc n) acc [] = (acc, [])
read_digits (suc n) acc (c ∷ s) =
    let rest = read_digits n (acc * 10 + (c - 48)) s in if is_digit c then rest else (acc, c ∷ s)

-- A number from `lo` to `hi` of at least one digit and at most `n` of them.
unfoldable pub read_field : ℕ → ℕ → ℕ → Bytes → Option (ℕ × Bytes)
unfolding read_digits
read_field n lo hi [] = none
read_field n lo hi (c ∷ s) =
    let (v, rest) = read_digits n 0 (c ∷ s) in
    if is_digit c && leb lo v && leb v hi then some (v, rest) else none

-- One white space before the day is passed over.
unfoldable pub read_day : Bytes → Option (ℕ × Bytes)
unfolding read_field
read_day [] = none
read_day (c ∷ s) = read_field 2 1 31 (if is_space c then s else c ∷ s)

-- The text behind one item, and the broken-down time with its field set. A literal is compared
-- without its case.
unfoldable pub read_item : Item → Bytes → Tm → Option (Tm × Bytes)
unfolding read_field read_day
read_item year_item s tm = do (v, rest) ← read_field 4 0 9999 s; some (record tm { year = v }, rest)
read_item month_item s tm = do (v, rest) ← read_field 2 1 12 s; some (record tm { month = v }, rest)
read_item day_item s tm = do (v, rest) ← read_day s; some (record tm { day = v }, rest)
read_item hour_item s tm = do (v, rest) ← read_field 2 0 23 s; some (record tm { hour = v }, rest)
read_item minute_item s tm = do
  (v, rest) ← read_field 2 0 59 s
  some (record tm { minute = v }, rest)
read_item second_item s tm = do
  (v, rest) ← read_field 2 0 60 s
  some (record tm { second = v }, rest)
read_item (literal c) [] tm = none
read_item (literal c) (d ∷ s) tm = if to_lower d == to_lower c then some (tm, s) else none

abbrev pub is_directive : Item → Bool
is_directive (literal c) = false
is_directive item = true

-- `time_get::get`: the items one after another. A text that ends behind a directive ends the
-- reading without a failure, whatever is left of the format; one that ends elsewhere is refused.
unfoldable pub read_items : List Item → Bytes → Tm → Option Tm
unfolding read_item
read_items [] s tm = some tm
read_items (item ∷ items) s tm = do
  (read, rest) ← read_item item s tm
  if is_directive item && is_empty rest then some read else read_items items rest read

-- "%Y-%m-%dT%H:%M:%SZ"
unfoldable pub rfc3339_format : List Item
rfc3339_format =
    year_item
    ∷ literal b'-'
    ∷ month_item
    ∷ literal b'-'
    ∷ day_item
    ∷ literal b'T'
    ∷ hour_item
    ∷ literal b':'
    ∷ minute_item
    ∷ literal b':'
    ∷ second_item
    ∷ literal b'Z'
    ∷ []

-- `std::tm tm{}`: the year 1900, January, and the day 0.
abbrev pub zero_tm : Tm
zero_tm = record { year = 1900; month = 1; day = 0; hour = 0; minute = 0; second = 0 }

-- `in >> std::get_time(&tm, "%Y-%m-%dT%H:%M:%SZ")`; the stream skips white space first.
unfoldable pub get_time : Bytes → Option Tm
unfolding drop_while read_items rfc3339_format
get_time value = read_items rfc3339_format (drop_while is_space value) zero_tm

-- The days from 0000-03-01 to a date, counting years from March.
unfoldable pub days_before : ℕ → ℕ
days_before y = 365 * y + y / 4 - y / 100 + y / 400

-- The days from the first of March to the first of a month, the months counted from March.
unfoldable pub month_start : ℕ → ℕ
month_start m = (153 * m + 2) / 5

-- `timegm`: the seconds from the epoch. Years are moved on by 400, which are 146097 days, so that
-- January of the year 0 needs no sign; from 0000-03-01 to the epoch there are 719468 days.
unfoldable pub timegm_utc : Tm → ℤ
unfolding days_before month_start
timegm_utc tm =
    let y = if leb tm.month 2 then tm.year + 399 else tm.year + 400 in
    let m = if leb tm.month 2 then tm.month + 9 else tm.month - 3 in
    let days = days_before y + month_start m + tm.day - 1 in
    sub_ℕ (days * 86400 + tm.hour * 3600 + tm.minute * 60 + tm.second) ((719468 + 146097) * 86400)

unfoldable pub parse_rfc3339_zulu : Bytes → Option ℤ
unfolding get_time timegm_utc
parse_rfc3339_zulu value = do tm ← get_time value; some (timegm_utc tm)

unfoldable pub is_expired : ℤ → Option Bytes → Bool
is_expired now none = false
is_expired now (some value) = elim (parse_rfc3339_zulu value) [
  | none ↦ false
  | some ts ↦ leb_ℤ ts now
]

-- `gmtime`, from a second count that starts 400 years before 0000-03-01: the 400-year cycle, the
-- year in it, and the day of the year, counted from March.
unfoldable pub gmtime_utc : ℤ → Tm
unfolding days_before month_start ◌+ℤ◌
gmtime_utc time =
    let total = pos_part (time +ℤ pos ((719468 + 146097) * 86400)) in
    let days = total / 86400 in
    let seconds = total % 86400 in
    let cycle = days / 146097 in
    let day_of_cycle = days % 146097 in
    let year_of_cycle =
      (day_of_cycle + day_of_cycle / 36524 - day_of_cycle / 1460 - day_of_cycle / 146096) / 365 in
    let day_of_year = day_of_cycle - days_before year_of_cycle in
    let month_from_march = (5 * day_of_year + 2) / 153 in
    let year = year_of_cycle + cycle * 400 - 400 in
    record {
      year = if ltb month_from_march 10 then year else year + 1;
      month = if ltb month_from_march 10 then month_from_march + 3 else month_from_march - 9;
      day = day_of_year - month_start month_from_march + 1;
      hour = seconds / 3600;
      minute = seconds % 3600 / 60;
      second = seconds % 60;
    }

-- A number in two digits, and in four.
unfoldable pub two_digits : ℕ → Bytes
two_digits n = (n / 10 % 10 + 48) ∷ (n % 10 + 48) ∷ []

unfoldable pub four_digits : ℕ → Bytes
unfolding two_digits
four_digits n = two_digits (n / 100) ++ two_digits n

-- `std::put_time(&tm, "%Y-%m-%dT%H:%M:%SZ")`, for a year of at most four digits.
unfoldable pub put_time : Tm → Bytes
unfolding two_digits four_digits
put_time tm =
    four_digits tm.year
    ++ b'-'
      ∷ (two_digits tm.month
          ++ b'-'
            ∷ (two_digits tm.day
                ++ b'T'
                  ∷ (two_digits tm.hour
                      ++ b':'
                        ∷ (two_digits tm.minute ++ b':' ∷ (two_digits tm.second ++ b'Z' ∷ [])))))

-- `formatTimestamp`; `currentTimestamp` is this at the reading of the clock.
unfoldable pub format_timestamp : ℤ → Bytes
unfolding gmtime_utc put_time
format_timestamp time_point = put_time (gmtime_utc time_point)

format_example : format_timestamp (pos 1709210096) ≡ bytes "2024-02-29T12:34:56Z"
unfolding format_timestamp
format_example = refl

epoch_example : parse_rfc3339_zulu (bytes "1970-01-01T00:00:00Z") ≡ some (pos 0)
unfolding parse_rfc3339_zulu
epoch_example = refl

parse_example : parse_rfc3339_zulu (bytes "2024-02-29T12:34:56Z") ≡ some (pos 1709210096)
unfolding parse_rfc3339_zulu
parse_example = refl

parse_old_example : parse_rfc3339_zulu (bytes "1969-12-31T23:59:59Z junk") ≡ some (negsuc 0)
unfolding parse_rfc3339_zulu
parse_old_example = refl

parse_short_example : parse_rfc3339_zulu (bytes " 2030-1-1t00:00:00z") ≡ some (pos 1893456000)
unfolding parse_rfc3339_zulu
parse_short_example = refl

parse_no_zone_example : parse_rfc3339_zulu (bytes "2030-01-01T00:00:00") ≡ some (pos 1893456000)
unfolding parse_rfc3339_zulu
parse_no_zone_example = refl

parse_year_example : parse_rfc3339_zulu (bytes "2030") ≡ some (pos 1893369600)
unfolding parse_rfc3339_zulu
parse_year_example = refl

parse_bad_example : parse_rfc3339_zulu (bytes "2030-") ≡ none
unfolding parse_rfc3339_zulu
parse_bad_example = refl
