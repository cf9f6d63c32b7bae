-- ===== src/SignedPlan/Text/Time/Calendar.antt =====
-- Dates and day numbers (src/signed_plan/text.rs).
use native.Mathlib.Decide.{dec_lt}
use permanu_agent.Base.{
  ◌%◌, ◌∙◌, ap, ◌+ℤ◌, ◌+◌, ◌-◌, ◌*◌, ◌/◌, if◌then◌else◌, ◌<◌, ◌≤◌, ltb, leb, true, ℕ, ◌≤◌, arith,
  ◌<◌, ℕ, ◌≡◌, some, pos,
}
use permanu_agent.SignedPlan.Text.Time.{
  Civil, days_from_civil, civil_of, day_of_year, is_leap, day_in_year, days_in_month, day_of_era,
  year_of,
}

-- The year and the day of the year, from March 1st, are read back from the day of the era.
module _ (y d : ℕ) (in_era : y < 400) where
  year_of-day_of_era : d < 365 → year_of (day_of_era y d) ≡ y
  unfolding year_of day_of_era
  year_of-day_of_era h = omega arith

  -- The last day of a year that ends with February 29th.
  year_of_leap_day : d ≡ 365 → is_leap (y + 1) ≡ true → year_of (day_of_era y d) ≡ y
  unfolding year_of day_of_era is_leap
  year_of_leap_day h l = ground arith

  day_in_year-day_of_era : year_of (day_of_era y d) ≡ y → day_in_year (day_of_era y d) ≡ d
  unfolding day_in_year day_of_era
  day_in_year-day_of_era e = rw e (omega arith)

  day_of_era-lt : d ≤ 365 → (d ≡ 365 → is_leap (y + 1) ≡ true) → day_of_era y d < 146_097
  unfolding day_of_era is_leap
  day_of_era-lt h l = omega arith

-- The month, counted from March, and the day of the month.
abbrev month_prime : ℕ → ℕ
month_prime month = if ltb 2 month then month - 3 else month + 9

month_back :
    (year month day days : ℕ)
    → days_in_month year month ≡ some days
    → 1 ≤ day
    → day ≤ days
    → ((5 * day_of_year month day + 2) / 153 ≡ month_prime month)
      × (day_of_year month day - (153 * month_prime month + 2) / 5 + 1 ≡ day)
      × (day_of_year month day ≤ 365)
      × (day_of_year month day ≡ 365 → (is_leap year ≡ true) × (month ≡ 2))
unfolding days_in_month day_of_year
month_back year month day days e h k = ground arith

era_back :
    (e doe : ℕ)
    → doe < 146_097
    → ((e * 146_097 + doe) / 146_097 ≡ e) × ((e * 146_097 + doe) % 146_097 ≡ doe)
era_back e doe h = (omega arith, omega arith)

-- The year counted from March 1st.
abbrev march_year : ℕ → ℕ → ℕ
march_year year month = if leb month 2 then year - 1 else year

days_from_civil_lem :
    (year month day : ℕ)
    → days_from_civil year month day +ℤ pos 719_468
      ≡ pos (
          march_year year month / 400 * 146_097
          + day_of_era
              (march_year year month - march_year year month / 400 * 400)
              (day_of_year month day))
unfolding days_from_civil ◌+ℤ◌
days_from_civil_lem year month day = ground arith

leap_in_era : (y : ℕ) → is_leap (y + 1) ≡ true → is_leap (y - y / 400 * 400 + 1) ≡ true
unfolding is_leap
leap_in_era y h = ground arith

-- The month of a count from March.
abbrev month_of : ℕ → ℕ
month_of mp = if ltb mp 10 then mp + 3 else mp - 9

civil_of_pos :
    (e doe y d : ℕ)
    → doe < 146_097
    → year_of doe ≡ y
    → day_in_year doe ≡ d
    → civil_of (pos (e * 146_097 + doe)) ≡ record {
      year = pos (e * 400 + y + (if leb (month_of ((5 * d + 2) / 153)) 2 then 1 else 0));
      month = month_of ((5 * d + 2) / 153);
      day = d - (153 * ((5 * d + 2) / 153) + 2) / 5 + 1;
    }
unfolding civil_of ◌+ℤ◌
civil_of_pos e doe y d h ey ed =
    let (era, rest) = era_back e doe h in rw (era, rest, ey, ed) (ground arith)

months_back :
    (year month days : ℕ)
    → days_in_month year month ≡ some days
    → (month_of (month_prime month) ≡ month) × (1 ≤ month)
unfolding days_in_month
months_back year month days h = ground arith

years_back :
    (year month : ℕ)
    → 1 ≤ year
    → march_year year month / 400 * 400
        + (march_year year month - march_year year month / 400 * 400)
        + (if leb month 2 then 1 else 0)
      ≡ year
years_back year month h = ground arith

-- The day of an era is read back, at each date.
era_day :
    (year month day days : ℕ)
    → 1 ≤ year
    → days_in_month year month ≡ some days
    → 1 ≤ day
    → day ≤ days
    → let y = march_year year month - march_year year month / 400 * 400 in
      let d = day_of_year month day in
      (day_of_era y d < 146_097)
      × (year_of (day_of_era y d) ≡ y)
      × (day_in_year (day_of_era y d) ≡ d)
era_day year month day days h m l k =
    let y = march_year year month - march_year year month / 400 * 400 in
    let d = day_of_year month day in
    let (mp, dd, small, last) = month_back year month day days m l k in
    let in_era : y < 400 = omega arith in
    let leap : d ≡ 365 → is_leap (y + 1) ≡ true =
      λ e. leap_in_era (march_year year month) (ground (arith, last e)) in
    let same_year : year_of (day_of_era y d) ≡ y = elim (dec_lt d 365) [
      | yes p ↦ year_of-day_of_era y d in_era p
      | no p ↦ year_of_leap_day y d in_era (omega arith) (leap (omega arith))
    ] in
    (day_of_era-lt y d in_era small leap, same_year, day_in_year-day_of_era y d in_era same_year)

-- Dates are read back from their day numbers.
pub civil_of-days_from_civil :
    (year month day days : ℕ)
    → 1 ≤ year
    → days_in_month year month ≡ some days
    → 1 ≤ day
    → day ≤ days
    → civil_of (days_from_civil year month day +ℤ pos 719_468)
      ≡ record { year = pos year; month = month; day = day }
civil_of-days_from_civil year month day days h m l k =
    let y = march_year year month - march_year year month / 400 * 400 in
    let d = day_of_year month day in
    let (mp, dd, small, last) = month_back year month day days m l k in
    let (in_era, same_year, same_day) = era_day year month day days h m l k in
    let (same_month, positive) = months_back year month days m in
    let day_back : d - (153 * ((5 * d + 2) / 153) + 2) / 5 + 1 ≡ day =
      ap (λ t. d - (153 * t + 2) / 5 + 1) mp ∙ dd in
    let month_eq : month_of ((5 * d + 2) / 153) ≡ month = ap month_of mp ∙ same_month in
    ap civil_of (days_from_civil_lem year month day)
    ∙ civil_of_pos (march_year year month / 400) (day_of_era y d) y d in_era same_year same_day
    ∙ same_date
        (ap (λ t. march_year year month / 400 * 400 + y + (if leb t 2 then 1 else 0)) month_eq
          ∙ years_back year month h)
        month_eq day_back
  where
    same_date :
        {a b c d e f : ℕ}
        → a ≡ b
        → c ≡ d
        → e ≡ f
        → ◌≡◌ {A = Civil}
            (record { year = pos a; month = c; day = e })
            (record { year = pos b; month = d; day = f })
    same_date p q r = λ i. record { year = pos (p i); month = q i; day = r i }
