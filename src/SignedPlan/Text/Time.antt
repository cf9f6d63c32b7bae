-- ===== src/SignedPlan/Text/Time.antt =====
-- The timestamps of src/signed_plan/text.rs: `YYYY-MM-DDTHH:MM:SSZ` and Unix seconds.
-- The source computes in `i64`. What is never negative is a number here; the seconds and the days
-- are integers. The values stay far below 2 ^ 63 for every year of four digits.
pub mod Calendar
pub mod Stamps
use permanu_agent.Base.{
  ℕ, zero, suc, ◌+◌, ◌-◌, ◌*◌, ◌/◌, ◌%◌, Bool, true, false, not, ◌&&◌, ◌||◌, List, [], ◌∷◌, ◌++◌,
  Option, none, some, leb, ltb, ◌==◌, if◌then◌else◌, length, take, drop, ℤ, pos, negsuc, pos_part,
  neg_part, sub_ℕ, ◌+ℤ◌, Bytes, within, is_digit, digits_value,
}
use permanu_agent.SignedPlan.Text.{all_indexed}

-- The arms of the match on the index.
unfoldable pub timestamp_byte : ℕ → ℕ → Bool
unfolding is_digit
timestamp_byte index byte =
    if index == 4 || index == 7
    then byte == b'-'
    else if index == 10
    then byte == b'T'
    else if index == 13 || index == 16
    then byte == b':'
    else if index == 19
    then byte == b'Z'
    else is_digit byte

-- The closure `number` on the range from `low` of `n` bytes.
abbrev pub number : ℕ → ℕ → Bytes → ℕ
number low n value = digits_value 0 (take n (drop low value))

unfoldable pub is_leap : ℕ → Bool
is_leap year = (year % 4 == 0 && not (year % 100 == 0)) || year % 400 == 0

unfoldable pub days_in_month : ℕ → ℕ → Option ℕ
unfolding is_leap
days_in_month year month =
    if month == 1
      || month == 3
      || month == 5
      || month == 7
      || month == 8
      || month == 10
      || month == 12
    then some 31
    else if month == 4 || month == 6 || month == 9 || month == 11
    then some 30
    else if month == 2 && is_leap year
    then some 29
    else if month == 2
    then some 28
    else none

-- The day within its era of 400 years from March 1st, for a year that is at least 1.
unfoldable pub day_of_era : ℕ → ℕ → ℕ
day_of_era year_of_era day_of_year =
    year_of_era * 365 + year_of_era / 4 - year_of_era / 100 + day_of_year

unfoldable pub day_of_year : ℕ → ℕ → ℕ
day_of_year month day =
    let month_prime = if ltb 2 month then month - 3 else month + 9 in
    (153 * month_prime + 2) / 5 + day - 1

unfoldable pub days_from_civil : ℕ → ℕ → ℕ → ℤ
unfolding day_of_era day_of_year
days_from_civil year month day =
    let year' = if leb month 2 then year - 1 else year in
    let era = year' / 400 in
    let year_of_era = year' - era * 400 in
    sub_ℕ (era * 146_097 + day_of_era year_of_era (day_of_year month day)) 719_468

-- `days * 86_400 + hour * 3_600 + minute * 60 + second`.
abbrev pub scale : ℤ → ℕ → ℤ
scale z k = sub_ℕ (pos_part z * k) (neg_part z * k)

unfoldable pub seconds_of : ℤ → ℕ → ℕ → ℕ → ℤ
unfolding ◌+ℤ◌
seconds_of days hour minute second = scale days 86_400 +ℤ pos (hour * 3_600 + minute * 60 + second)

-- The calendar's and the clock's ranges, and the value.
unfoldable pub checked : ℕ → ℕ → ℕ → ℕ → ℕ → ℕ → Option ℤ
unfolding days_in_month days_from_civil seconds_of
checked year month day hour minute second = elim (days_in_month year month) [
  | none ↦ none
  | some days ↦
      if ltb year 1 || not (within 1 days day) || ltb 23 hour || ltb 59 minute || ltb 59 second
      then none
      else some (seconds_of (days_from_civil year month day) hour minute second)
]

unfoldable pub timestamp : Bytes → Option ℤ
timestamp value =
    if not (length value == 20)
    then none
    else if not (all_indexed timestamp_byte 0 value)
    then none
    else checked (number 0 4 value) (number 5 2 value) (number 8 2 value) (number 11 2 value)
        (number 14 2 value) (number 17 2 value)

-- `div_euclid` and `rem_euclid` by a positive number.
abbrev pub div_euclid : ℤ → ℕ → ℤ
div_euclid (pos n) d = pos (n / d)
div_euclid (negsuc n) d = negsuc (n / d)

abbrev pub rem_euclid : ℤ → ℕ → ℕ
rem_euclid (pos n) d = n % d
rem_euclid (negsuc n) d = d - 1 - n % d

unfoldable pub year_of : ℕ → ℕ
year_of day = (day - day / 1_460 + day / 36_524 - day / 146_096) / 365

unfoldable pub day_in_year : ℕ → ℕ
unfolding year_of
day_in_year day = day - (365 * year_of day + year_of day / 4 - year_of day / 100)

pub record Civil : Type 0 where
  pub year : ℤ
  pub month : ℕ
  pub day : ℕ

-- From `shifted` on: the day since 0000-03-01 as a date.
unfoldable pub civil_of : ℤ → Civil
unfolding ◌+ℤ◌
civil_of shifted =
    let era = div_euclid shifted 146_097 in
    let day_of_era = rem_euclid shifted 146_097 in
    let day_of_year = day_in_year day_of_era in
    let month_prime = (5 * day_of_year + 2) / 153 in
    let day = day_of_year - (153 * month_prime + 2) / 5 + 1 in
    let month = if ltb month_prime 10 then month_prime + 3 else month_prime - 9 in
    record {
      year = scale era 400 +ℤ pos (year_of day_of_era) +ℤ pos (if leb month 2 then 1 else 0);
      month = month;
      day = day;
    }

-- The decimal digits of a number, on fuel: a number has at most as many digits as one more than
-- itself.
unfoldable pub decimal_onto : ℕ → ℕ → Bytes → Bytes
decimal_onto zero n out = out
decimal_onto (suc fuel) n out =
    let rest = decimal_onto fuel (n / 10) ((b'0' + n % 10) ∷ out) in
    if ltb n 10 then (b'0' + n) ∷ out else rest

abbrev pub decimal : ℕ → Bytes
decimal n = decimal_onto (suc n) n []

unfoldable pub zeros : ℕ → Bytes
zeros zero = []
zeros (suc n) = b'0' ∷ zeros n

-- `{n:0width}`.
unfoldable pub padded : ℕ → ℕ → Bytes
unfolding zeros decimal_onto
padded width n = zeros (width - length (decimal n)) ++ decimal n

unfoldable pub padded_ℤ : ℕ → ℤ → Bytes
unfolding padded
padded_ℤ width (pos n) = padded width n
padded_ℤ width (negsuc n) = b'-' ∷ padded (width - 1) (suc n)

-- A field, the byte behind it, and what follows.
infixr 60 ◌▸◌
abbrev pub ◌▸◌ : Bytes × ℕ → Bytes → Bytes
(field, sep) ▸ rest = field ++ (sep ∷ rest)

unfoldable pub format_timestamp : ℤ → Bytes
unfolding civil_of day_in_year padded_ℤ ◌+ℤ◌
format_timestamp seconds =
    let date = civil_of (div_euclid seconds 86_400 +ℤ pos 719_468) in
    let second_of_day = rem_euclid seconds 86_400 in
    (padded_ℤ 4 date.year, b'-')
    ▸ (padded 2 date.month, b'-')
    ▸ (padded 2 date.day, b'T')
    ▸ (padded 2 (second_of_day / 3_600), b':')
    ▸ (padded 2 (second_of_day % 3_600 / 60), b':')
    ▸ (padded 2 (second_of_day % 60), b'Z')
    ▸ []
