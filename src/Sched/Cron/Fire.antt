-- ===== src/Sched/Cron/Fire.antt =====
-- The search for fire times (src/local/sched/cron_expr.rs). The calendar and the timezone are
-- jiff's: `Zone` has the calls that the search makes, for one timezone.
pub mod Search
pub mod Times
use permanu_agent.Base.{
  ℕ, zero, suc, ◌+◌, ◌*◌, ◌<◌, ◌≡◌, Bool, true, false, not, ◌&&◌, ◌||◌, Option, none, some, ltb, ℤ,
  ltb_ℤ, leb_ℤ, pos, ◌-ℤ◌, if◌then◌else◌, List, [], ◌∷◌, ◌++◌, length,
}
use permanu_agent.Base.Bits.{test_bit}
use permanu_agent.Sched.Cron.{CronExpr}

abbrev pub search_days : ℕ
search_days = 366 * 8 + 2

-- `jiff::civil::Date`.
pub record Date : Type 0 where
  pub year : ℤ
  pub month : ℕ
  pub day : ℕ

-- `AmbiguousTimestamp`, with the result of `compatible().ok()` where the source asks for it.
pub data Ambiguous : Type 0 where
  unambiguous fold : Option ℤ → Ambiguous
  gap : Ambiguous

pub record Zone : Type 0 where
  -- `Timestamp::from_second(after).ok()?.to_zoned(tz).date()`.
  pub local_date : ℤ → Option Date
  -- `date.tomorrow().ok()`.
  pub tomorrow : Date → Option Date
  -- `date.weekday().to_sunday_zero_offset()`.
  pub weekday : Date → ℕ
  -- Whether `DateTime::new(year, month, day, hour, minute, 0, 0)` is `Ok`.
  pub valid_time : Date → ℕ → ℕ → Bool
  -- `tz.to_ambiguous_timestamp(local)`.
  pub ambiguous : Date → ℕ → ℕ → Ambiguous

-- The match on the ambiguity: no instant in a gap.
unfoldable pub occurrence : Ambiguous → Option ℤ
occurrence (unambiguous at) = at
occurrence (fold at) = at
occurrence gap = none

abbrev pub first_occurrence : Zone → Date → ℕ → ℕ → Option ℤ
first_occurrence tz date hour minute = occurrence (tz.ambiguous date hour minute)

unfoldable pub day_matches : CronExpr → Zone → Date → Bool
day_matches e tz date =
    let dom = test_bit e.days date.day in
    let dow = test_bit e.weekdays (tz.weekday date) in
    if e.dom_star || e.dow_star then dom && dow else dom || dow

-- How a loop of `first_on` ends: by `return Some(at)`, by `?` on an error, or by its range.
pub data Outcome : Type 0 where
  found : ℤ → Outcome
  failed missed : Outcome

-- What a loop makes of the end of the loop inside it.
unfoldable pub or_else : Outcome → Outcome → Outcome
or_else (found at) rest = found at
or_else failed rest = failed
or_else missed rest = rest

unfoldable pub outcome_value : Outcome → Option ℤ
outcome_value (found at) = some at
outcome_value failed = none
outcome_value missed = none

module _ (e : CronExpr) (tz : Zone) (after : ℤ) where
  -- The body of the minute loop once the minute is in the set.
  unfoldable pub at_minute : Date → ℕ → ℕ → Outcome → Outcome
  at_minute date hour minute rest =
      if not (tz.valid_time date hour minute)
      then failed
      else elim (first_occurrence tz date hour minute) [
        | none ↦ rest
        | some at ↦ if ltb_ℤ after at then found at else rest
      ]

  unfoldable pub minutes_from : Date → ℕ → ℕ → ℕ → Outcome
  unfolding at_minute
  minutes_from date hour zero minute = missed
  minutes_from date hour (suc left) minute =
      let rest = minutes_from date hour left (minute + 1) in
      if not (test_bit e.minutes minute) then rest else at_minute date hour minute rest

  unfoldable pub hours_from : Date → ℕ → ℕ → Outcome
  unfolding minutes_from or_else
  hours_from date zero hour = missed
  hours_from date (suc left) hour =
      let rest = hours_from date left (hour + 1) in
      if not (test_bit e.hours hour) then rest else or_else (minutes_from date hour 60 0) rest

  unfoldable pub first_on : Date → Option ℤ
  first_on date = outcome_value (hours_from date 24 0)

  -- The test of the month and of the day, and the search of the day.
  unfoldable pub on_date : Date → Option ℤ
  on_date date =
      if test_bit e.months date.month && day_matches e tz date then first_on date else none

  -- `for _ in 0..SEARCH_DAYS`.
  unfoldable pub search_from : ℕ → Date → Option ℤ
  search_from zero date = none
  search_from (suc left) date = elim (on_date date) [
    | some at ↦ some at
    | none ↦ elim (tz.tomorrow date) [ none ↦ none | some next ↦ search_from left next ]
  ]

unfoldable pub next_after : CronExpr → Zone → ℤ → Option ℤ
next_after e tz after = elim (tz.local_date after) [
  | none ↦ none
  | some date ↦ search_from e tz after search_days date
]

-- `while count < count_limit`, with `left` rounds of it to go.
unfoldable pub fire_loop : CronExpr → Zone → ℤ → ℕ → ℕ → ℤ → List ℤ → ℕ → List ℤ × ℕ
fire_loop e tz to limit zero cursor out count = (out, count)
fire_loop e tz to limit (suc left) cursor out count = elim (next_after e tz cursor) [
  | none ↦ (out, count)
  | some next ↦ elim (ltb_ℤ to next) [
    | true ↦ (out, count)
    | false ↦
        fire_loop e tz to limit left next
          (if ltb (length out) limit then out ++ (next ∷ []) else out) (count + 1)
  ]
]

abbrev pub fire_times : CronExpr → Zone → ℤ → ℤ → ℕ → ℕ → List ℤ × ℕ
fire_times e tz from to limit count_limit = fire_loop e tz to limit count_limit from [] 0
