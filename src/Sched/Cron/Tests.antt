-- ===== src/Sched/Cron/Tests.antt =====
-- Runs of the parser and of the search, and the theorems at concrete expressions.
use permanu_agent.Base.{
  ℕ, ◌+◌, ◌*◌, ◌<◌, ◌≡◌, refl, false, List, [], ◌∷◌, some, none, ltb, ℤ, pos, ◌&&◌, Bytes, codes,
  split, split_once, starts_with, same, is_digit, take, length,
}
use permanu_agent.Sched.Cron.{
  CronExpr, parse, parts_of, parse_parts, field, fold_items, item, item_range, bounds, number, fill,
  fold_sunday,
}
use permanu_agent.Sched.Cron.Fields.{IsParsed, WithinField, parse-IsParsed}
use permanu_agent.Sched.Cron.Fire.{
  Zone, Date, unambiguous, next_after, search_days, search_from, on_date, first_on, hours_from,
  minutes_from, at_minute, or_else, outcome_value, occurrence, day_matches, fire_times,
}
use permanu_agent.Sched.Cron.Fire.Search.{IsFire, Later, next_after-IsFire}
use permanu_agent.Sched.Cron.Fire.Times.{Fires, fire_times-Fires}

quarters : item (codes "*/15") 0 59 ≡ some 35_185_445_863_425
unfolding item item_range bounds number fill same split_once is_digit
quarters = refl

-- The first of the month and on Sundays, at 04:30.
abbrev nightly : CronExpr
nightly = record {
  minutes = 1_073_741_824;
  hours = 16;
  days = 2;
  months = 8_190;
  weekdays = 1;
  dom_star = false;
  dow_star = false;
}

nightly_parsed : parse (codes "30 4 1 * 7") ≡ some nightly
unfolding parse parts_of parse_parts field fold_items item item_range bounds number fill fold_sunday
    same split split_once starts_with is_digit
nightly_parsed = refl

parse-IsParsed_example :
    (minute : Bytes) × (hour : Bytes) × (dom : Bytes) × (month : Bytes) × (dow : Bytes) × (split
        b' '
        (codes "30 4 1 * 7")
      ≡ minute ∷ hour ∷ dom ∷ month ∷ dow ∷ [])
    × IsParsed minute hour dom month dow nightly
    × WithinField 0 59 1_073_741_824
    × WithinField 0 23 16
    × WithinField 1 31 2
    × WithinField 1 12 8_190
parse-IsParsed_example = parse-IsParsed (codes "30 4 1 * 7") nightly nightly_parsed

-- A zone at UTC that knows the first day of 1970 alone.
abbrev one_day : Zone
one_day = record {
  local_date = λ at. some (record { year = pos 1970; month = 1; day = 1 });
  tomorrow = λ date. none;
  weekday = λ date. 4;
  valid_time = λ date hour minute. ltb hour 24 && ltb minute 60;
  ambiguous = λ date hour minute. unambiguous (some (pos (hour * 3_600 + minute * 60)));
}

nightly_next : next_after nightly one_day (pos 0) ≡ some (pos 16_200)
unfolding next_after search_from on_date first_on hours_from minutes_from at_minute or_else
    outcome_value occurrence day_matches
nightly_next = refl

next_after-IsFire_example :
    (start : Date) × (n : ℕ) × (date : Date) × (one_day.local_date (pos 0) ≡ some start)
    × (n < search_days)
    × Later one_day n start date
    × IsFire nightly one_day (pos 0) date (pos 16_200)
next_after-IsFire_example = next_after-IsFire nightly one_day (pos 0) (pos 16_200) nightly_next

fire_times-Fires_example :
    (times : List ℤ) × Fires nightly one_day (pos 86_400) 10 (pos 0) times
    × ((fire_times nightly one_day (pos 0) (pos 86_400) 4 10).0 ≡ take 4 times)
    × ((fire_times nightly one_day (pos 0) (pos 86_400) 4 10).1 ≡ length times)
fire_times-Fires_example = fire_times-Fires nightly one_day (pos 0) (pos 86_400) 4 10
