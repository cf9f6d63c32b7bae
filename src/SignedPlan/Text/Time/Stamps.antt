-- ===== src/SignedPlan/Text/Time/Stamps.antt =====
-- Printing a timestamp that was read (src/signed_plan/text.rs).
use permanu_agent.Base.{
  ℕ, zero, suc, ◌+◌, ◌*◌, ◌/◌, ◌%◌, ◌≤◌, ◌<◌, ◌≡◌, refl, ap, ◌∙◌, true, [], ◌∷◌, some, arith,
  length, ℤ, pos, negsuc, ◌+ℤ◌, Bytes, is_digit, digits_value, Option-cases, inl, inr,
}
use permanu_agent.SignedPlan.Text.{all_indexed}
use permanu_agent.SignedPlan.Text.Time.{
  timestamp_byte, number, days_in_month, days_from_civil, seconds_of, checked, timestamp,
  div_euclid, rem_euclid, civil_of, decimal_onto, zeros, padded, padded_ℤ, format_timestamp, ◌▸◌,
  Civil,
}
use permanu_agent.SignedPlan.Text.Time.Calendar.{civil_of-days_from_civil}

padded_two : (n : ℕ) → n < 100 → padded 2 n ≡ (b'0' + n / 10) ∷ (b'0' + n % 10) ∷ []
unfolding padded decimal_onto zeros
padded_two zero h = refl
padded_two (suc zero) h = refl
padded_two (suc (suc n)) h = ground arith

padded_four :
    (n : ℕ)
    → n < 10000
    → padded 4 n
      ≡ (b'0' + n / 1000) ∷ (b'0' + n / 100 % 10) ∷ (b'0' + n / 10 % 10) ∷ (b'0' + n % 10) ∷ []
unfolding padded decimal_onto zeros
padded_four zero h = refl
padded_four (suc zero) h = refl
padded_four (suc (suc zero)) h = refl
padded_four (suc (suc (suc zero))) h = refl
padded_four (suc (suc (suc (suc n)))) h = ground arith

-- The days and the second of the day are read back.
split_seconds :
    (days : ℤ) (hour minute second : ℕ)
    → hour ≤ 23
    → minute ≤ 59
    → second ≤ 59
    → (div_euclid (seconds_of days hour minute second) 86_400 ≡ days)
      × (rem_euclid (seconds_of days hour minute second) 86_400
          ≡ hour * 3_600 + minute * 60 + second)
unfolding seconds_of ◌+ℤ◌
split_seconds (pos n) hour minute second h m s = ground arith
split_seconds (negsuc n) hour minute second h m s = ground arith

record Accepted (year month day hour minute second : ℕ) (seconds : ℤ) : Type 0 where
  days : ℕ
  month_days : days_in_month year month ≡ some days
  year_ok : 1 ≤ year
  day_low : 1 ≤ day
  day_high : day ≤ days
  hour_ok : hour ≤ 23
  minute_ok : minute ≤ 59
  second_ok : second ≤ 59
  value : seconds ≡ seconds_of (days_from_civil year month day) hour minute second

checked-Accepted :
    (year month day hour minute second : ℕ) {seconds : ℤ}
    → checked year month day hour minute second ≡ some seconds
    → Accepted year month day hour minute second seconds
unfolding checked
checked-Accepted year month day hour minute second {seconds} e =
    elim (Option-cases (days_in_month year month)) [
      | inl f ↦ absurd (ground arith)
      | inr (days, f) ↦ record {
        days = days;
        month_days = f;
        year_ok = ground arith;
        day_low = ground arith;
        day_high = ground arith;
        hour_ok = ground arith;
        minute_ok = ground arith;
        second_ok = ground arith;
        value = ground arith;
      }
    ]

-- The six numbers as a timestamp.
abbrev stamp : ℕ → ℕ → ℕ → ℕ → ℕ → ℕ → Bytes
stamp year month day hour minute second =
    (padded 4 year, b'-')
    ▸ (padded 2 month, b'-')
    ▸ (padded 2 day, b'T')
    ▸ (padded 2 hour, b':')
    ▸ (padded 2 minute, b':')
    ▸ (padded 2 second, b'Z')
    ▸ []

clock_back :
    (hour minute second : ℕ)
    → minute ≤ 59
    → second ≤ 59
    → ((hour * 3_600 + minute * 60 + second) / 3_600 ≡ hour)
      × ((hour * 3_600 + minute * 60 + second) % 3_600 / 60 ≡ minute)
      × ((hour * 3_600 + minute * 60 + second) % 60 ≡ second)
clock_back hour minute second m s = (omega arith, omega arith, omega arith)

-- What `format_timestamp` prints of a date and a second of the day.
abbrev print : Civil → ℕ → Bytes
print date second_of_day =
    (padded_ℤ 4 date.year, b'-')
    ▸ (padded 2 date.month, b'-')
    ▸ (padded 2 date.day, b'T')
    ▸ (padded 2 (second_of_day / 3_600), b':')
    ▸ (padded 2 (second_of_day % 3_600 / 60), b':')
    ▸ (padded 2 (second_of_day % 60), b'Z')
    ▸ []

print-stamp :
    (year month day hour minute second : ℕ)
    → minute ≤ 59
    → second ≤ 59
    → print
        (record { year = pos year; month = month; day = day })
        (hour * 3_600 + minute * 60 + second)
      ≡ stamp year month day hour minute second
unfolding padded_ℤ
print-stamp year month day hour minute second m s =
    let (h, i, j) = clock_back hour minute second m s in rw (h, i, j)

format_stamp :
    {year month day hour minute second : ℕ} {seconds : ℤ}
    → Accepted year month day hour minute second seconds
    → format_timestamp seconds ≡ stamp year month day hour minute second
unfolding format_timestamp
format_stamp {year} {month} {day} {hour} {minute} {second} {seconds} a =
    let (days, rest) =
      split_seconds (days_from_civil year month day) hour minute second a.hour_ok a.minute_ok
        a.second_ok in
    let civil =
      civil_of-days_from_civil year month day a.days a.year_ok a.month_days a.day_low a.day_high in
    ap (λ t. print (civil_of (div_euclid t 86_400 +ℤ pos 719_468)) (rem_euclid t 86_400)) a.value
    ∙ ap
        (λ t.
          print (civil_of (t +ℤ pos 719_468))
            (rem_euclid (seconds_of (days_from_civil year month day) hour minute second) 86_400))
        days
    ∙ ap (λ t. print (civil_of (days_from_civil year month day +ℤ pos 719_468)) t) rest
    ∙ ap (λ t. print t (hour * 3_600 + minute * 60 + second)) civil
    ∙ print-stamp year month day hour minute second a.minute_ok a.second_ok

two_back :
    (a b : ℕ)
    → is_digit a ≡ true
    → is_digit b ≡ true
    → padded 2 (digits_value 0 (a ∷ b ∷ [])) ≡ a ∷ b ∷ []
unfolding is_digit
two_back a b h k = ground (arith, padded_two (digits_value 0 (a ∷ b ∷ [])))

four_back :
    (a b c d : ℕ)
    → is_digit a ≡ true
    → is_digit b ≡ true
    → is_digit c ≡ true
    → is_digit d ≡ true
    → padded 4 (digits_value 0 (a ∷ b ∷ c ∷ d ∷ [])) ≡ a ∷ b ∷ c ∷ d ∷ []
unfolding is_digit
four_back a b c d h i j k = ground (arith, padded_four (digits_value 0 (a ∷ b ∷ c ∷ d ∷ [])))

timestamp-eq_some :
    (v : Bytes) {s : ℤ}
    → timestamp v ≡ some s
    → (length v ≡ 20)
      × (all_indexed timestamp_byte 0 v ≡ true)
      × (checked
            (number 0 4 v)
            (number 5 2 v)
            (number 8 2 v)
            (number 11 2 v)
            (number 14 2 v)
            (number 17 2 v)
          ≡ some s)
unfolding timestamp
timestamp-eq_some v e = ground arith

module _ (y1 y2 y3 y4 d1 m1 m2 d2 a1 a2 t h1 h2 e1 i1 i2 e2 s1 s2 z : ℕ) where
  abbrev bytes : Bytes
  bytes =
      y1 ∷ y2 ∷ y3 ∷ y4 ∷ d1 ∷ m1 ∷ m2 ∷ d2 ∷ a1 ∷ a2 ∷ t ∷ h1 ∷ h2 ∷ e1 ∷ i1 ∷ i2 ∷ e2 ∷ s1 ∷ s2
      ∷ z ∷ []

  stamp_back :
      all_indexed timestamp_byte 0 bytes ≡ true
      → stamp
          (number 0 4 bytes)
          (number 5 2 bytes)
          (number 8 2 bytes)
          (number 11 2 bytes)
          (number 14 2 bytes)
          (number 17 2 bytes)
        ≡ bytes
  unfolding all_indexed timestamp_byte
  stamp_back h = ground (
    arith,
    four_back y1 y2 y3 y4,
    two_back m1 m2,
    two_back a1 a2,
    two_back h1 h2,
    two_back i1 i2,
    two_back s1 s2,
  )

-- A timestamp that `timestamp` accepts is printed back by `format_timestamp`, byte for byte.
pub format_timestamp-timestamp : (v : Bytes) (s : ℤ) → timestamp v ≡ some s → format_timestamp s ≡ v
format_timestamp-timestamp
      (y1 ∷ y2 ∷ y3 ∷ y4 ∷ d1 ∷ m1 ∷ m2 ∷ d2 ∷ a1 ∷ a2 ∷ t ∷ h1 ∷ h2 ∷ e1 ∷ i1 ∷ i2 ∷ e2 ∷ s1 ∷ s2
        ∷ z ∷ [])
      s e =
    let v = bytes y1 y2 y3 y4 d1 m1 m2 d2 a1 a2 t h1 h2 e1 i1 i2 e2 s1 s2 z in
    let (count, shape, value) = timestamp-eq_some v e in
    format_stamp (
      checked-Accepted (number 0 4 v) (number 5 2 v) (number 8 2 v) (number 11 2 v) (number 14 2 v)
        (number 17 2 v) value)
    ∙ stamp_back y1 y2 y3 y4 d1 m1 m2 d2 a1 a2 t h1 h2 e1 i1 i2 e2 s1 s2 z shape
format_timestamp-timestamp v s e = absurd (omega (arith, (timestamp-eq_some v e).0))
