-- ===== src/Sched/Cron/Fire/Search.antt =====
-- What the search finds (src/local/sched/cron_expr.rs).
use mathlib.Core.Option.{some-injective}
use mathlib.Core.Path.{subst}
use permanu_agent.Base.{
  and_elim, ◌∙◌, ap, ℕ, zero, suc, ◌+◌, ◌≤◌, ◌<◌, ◌≡◌, true, ◌&&◌, some, ℤ, ltb_ℤ, ◌<ℤ◌, arith, inl,
  inr, Bool-cases, Option-cases,
}
use permanu_agent.Base.Bits.{test_bit}
use permanu_agent.Sched.Cron.{CronExpr}
use permanu_agent.Sched.Cron.Fire.{
  Date, Zone, first_occurrence, day_matches, Outcome, found, failed, missed, at_minute,
  minutes_from, or_else, hours_from, outcome_value, first_on, on_date, search_from, next_after,
  search_days,
}

-- A local minute of the expression.
pub record IsMatch (e : CronExpr) (tz : Zone) (date : Date) (hour minute : ℕ) : Type 0 where
  pub hour_range : hour < 24
  pub minute_range : minute < 60
  pub in_months : test_bit e.months date.month ≡ true
  pub in_days : day_matches e tz date ≡ true
  pub in_hours : test_bit e.hours hour ≡ true
  pub in_minutes : test_bit e.minutes minute ≡ true

-- The date `count` days later.
pub data Later (tz : Zone) : ℕ → Date → Date → Type 0 where
  today : {date : Date} → Later tz zero date date
  next_day :
      {n : ℕ} {date next last : Date}
      → tz.tomorrow date ≡ some next
      → Later tz n next last
      → Later tz (suc n) date last

-- A loop's outcome satisfies `P` if it found an instant.
abbrev pub Finds : (ℤ → Type 0) → Outcome → Type 0
Finds P (found at) = P at
Finds P failed = Unit
Finds P missed = Unit

module _ (e : CronExpr) (tz : Zone) (after : ℤ) where
  record FoundMinute (date : Date) (hour low : ℕ) (at : ℤ) : Type 0 where
    minute : ℕ
    range : (low ≤ minute) × (minute < 60)
    in_minutes : test_bit e.minutes minute ≡ true
    occurs : first_occurrence tz date hour minute ≡ some at
    is_after : after <ℤ at

  record FoundHour (date : Date) (low : ℕ) (at : ℤ) : Type 0 where
    hour : ℕ
    range : (low ≤ hour) × (hour < 24)
    in_hours : test_bit e.hours hour ≡ true
    at_hour : FoundMinute date hour 0 at

  minute_later :
      (date : Date) (hour low : ℕ) (o : Outcome)
      → Finds (FoundMinute date hour (low + 1)) o
      → Finds (FoundMinute date hour low) o
  minute_later date hour low (found at) f = record {
    minute = f.minute;
    range = (omega (arith, f.range), f.range.1);
    in_minutes = f.in_minutes;
    occurs = f.occurs;
    is_after = f.is_after;
  }
  minute_later date hour low failed f = tt
  minute_later date hour low missed f = tt

  at_minute-Finds :
      (date : Date) (hour minute : ℕ) (rest : Outcome)
      → minute < 60
      → test_bit e.minutes minute ≡ true
      → Finds (FoundMinute date hour minute) rest
      → Finds (FoundMinute date hour minute) (at_minute e tz after date hour minute rest)
  unfolding at_minute
  at_minute-Finds date hour minute rest h b f = elim (Bool-cases (tz.valid_time date hour minute)) [
    | inr v ↦ rw v tt
    | inl v ↦ rw v (elim (Option-cases (first_occurrence tz date hour minute)) [
      | inl o ↦ rw o f
      | inr (at, o) ↦ rw o (elim (Bool-cases (ltb_ℤ after at)) [
        | inr l ↦ rw l f
        | inl l ↦ rw l (record {
          minute = minute;
          range = (omega arith, h);
          in_minutes = b;
          occurs = o;
          is_after = ground arith;
        })
      ])
    ])
  ]

  minutes_from-Finds :
      (date : Date) (hour left minute : ℕ)
      → minute + left ≤ 60
      → Finds (FoundMinute date hour minute) (minutes_from e tz after date hour left minute)
  unfolding minutes_from
  minutes_from-Finds date hour zero minute h = tt
  minutes_from-Finds date hour (suc left) minute h =
      let rest = minutes_from e tz after date hour left (minute + 1) in
      let later =
        minute_later date hour minute rest
          (minutes_from-Finds date hour left (minute + 1) (omega arith)) in
      elim (Bool-cases (test_bit e.minutes minute)) [
        | inr b ↦ rw b later
        | inl b ↦ rw b (at_minute-Finds date hour minute rest (omega arith) b later)
      ]

  hour_later :
      (date : Date) (low : ℕ) (o : Outcome)
      → Finds (FoundHour date (low + 1)) o
      → Finds (FoundHour date low) o
  hour_later date low (found at) f = record {
    hour = f.hour;
    range = (omega (arith, f.range), f.range.1);
    in_hours = f.in_hours;
    at_hour = f.at_hour;
  }
  hour_later date low failed f = tt
  hour_later date low missed f = tt

  or_else-Finds :
      (date : Date) (hour : ℕ) (o rest : Outcome)
      → hour < 24
      → test_bit e.hours hour ≡ true
      → Finds (FoundMinute date hour 0) o
      → Finds (FoundHour date hour) rest
      → Finds (FoundHour date hour) (or_else o rest)
  unfolding or_else
  or_else-Finds date hour (found at) rest h b f r = record {
    hour = hour;
    range = (omega arith, h);
    in_hours = b;
    at_hour = f;
  }
  or_else-Finds date hour failed rest h b f r = tt
  or_else-Finds date hour missed rest h b f r = r

  hours_from-Finds :
      (date : Date) (left hour : ℕ)
      → hour + left ≤ 24
      → Finds (FoundHour date hour) (hours_from e tz after date left hour)
  unfolding hours_from
  hours_from-Finds date zero hour h = tt
  hours_from-Finds date (suc left) hour h =
      let rest = hours_from e tz after date left (hour + 1) in
      let later = hour_later date hour rest (hours_from-Finds date left (hour + 1) (omega arith)) in
      elim (Bool-cases (test_bit e.hours hour)) [
        | inr b ↦ rw b later
        | inl b ↦ rw b (
            or_else-Finds date hour (minutes_from e tz after date hour 60 0) rest (omega arith) b
              (minutes_from-Finds date hour 60 0 (omega arith)) later)
      ]

  -- An instant of the expression on a date.
  pub record IsFire (date : Date) (at : ℤ) : Type 0 where
    pub hour : ℕ
    pub minute : ℕ
    pub is_match : IsMatch e tz date hour minute
    pub occurs : first_occurrence tz date hour minute ≡ some at
    pub is_after : after <ℤ at

  outcome_Finds :
      (P : ℤ → Type 0) (o : Outcome) (at : ℤ) → outcome_value o ≡ some at → Finds P o → P at
  unfolding outcome_value
  outcome_Finds P (found a) at h f = subst P (some-injective a at h) f
  outcome_Finds P failed at h f = absurd (ground arith)
  outcome_Finds P missed at h f = absurd (ground arith)

  first_on-FoundHour :
      (date : Date) (at : ℤ) → first_on e tz after date ≡ some at → FoundHour date 0 at
  unfolding first_on
  first_on-FoundHour date at h =
      outcome_Finds (FoundHour date 0) (hours_from e tz after date 24 0) at h
        (hours_from-Finds date 24 0 (omega arith))

  on_date-IsFire : (date : Date) (at : ℤ) → on_date e tz after date ≡ some at → IsFire date at
  unfolding on_date
  on_date-IsFire date at h =
      let tests : (test_bit e.months date.month && day_matches e tz date) ≡ true = ground arith in
      let value : first_on e tz after date ≡ some at = ground arith in
      let f = first_on-FoundHour date at value in
      record {
        hour = f.hour;
        minute = f.at_hour.minute;
        is_match = record {
          hour_range = f.range.1;
          minute_range = f.at_hour.range.1;
          in_months = (and_elim (test_bit e.months date.month) (day_matches e tz date) tests).0;
          in_days = (and_elim (test_bit e.months date.month) (day_matches e tz date) tests).1;
          in_hours = f.in_hours;
          in_minutes = f.at_hour.in_minutes;
        };
        occurs = f.at_hour.occurs;
        is_after = f.at_hour.is_after;
      }

  search_from-IsFire :
      (left : ℕ) (start : Date) (at : ℤ)
      → search_from e tz after left start ≡ some at
      → (n : ℕ) × (date : Date) × (n < left) × Later tz n start date × IsFire date at
  unfolding search_from
  search_from-IsFire zero start at h = absurd (ground arith)
  search_from-IsFire (suc left) start at h = elim (Option-cases (on_date e tz after start)) [
    | inr (a, f) ↦
        let same_at : a ≡ at = some-injective a at (rw (f, search_from) at h) in
        (0, start, omega arith, today, on_date-IsFire start at (f ∙ ap some same_at))
    | inl f ↦ elim (Option-cases (tz.tomorrow start)) [
      | inl g ↦ absurd (ground arith)
      | inr (next, g) ↦
          let (n, date, less, later, fire) = search_from-IsFire left next at (ground arith) in
          (suc n, date, omega arith, next_day g later, fire)
    ]
  ]

-- What `next_after` returns is an instant after the given one, and the first occurrence of a local
-- minute of the expression, on a date less than `search_days` days after the local date.
pub next_after-IsFire :
    (e : CronExpr) (tz : Zone) (after at : ℤ)
    → next_after e tz after ≡ some at
    → (start : Date) × (n : ℕ) × (date : Date) × (tz.local_date after ≡ some start)
      × (n < search_days)
      × Later tz n start date
      × IsFire e tz after date at
unfolding next_after
next_after-IsFire e tz after at h = elim (Option-cases (tz.local_date after)) [
  | inl f ↦ absurd (ground arith)
  | inr (start, f) ↦
      let (n, date, less, later, fire) =
        search_from-IsFire e tz after search_days start at (rw (f, next_after) at h) in
      (start, n, date, f, less, later, fire)
]
