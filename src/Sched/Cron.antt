-- ===== src/Sched/Cron.antt =====
-- Cron expressions (src/local/sched/cron_expr.rs): parsing into sets of bits. The words of the
-- source are kept: each set is a number, `|` and `&` are the bitwise operations, and the casts to
-- narrower words are remainders. The search for fire times is in Fire.
pub mod Items
pub mod Fields
pub mod Fire
pub mod Tests
use permanu_agent.Base.{
  ℕ, zero, suc, ◌+◌, ◌-◌, ◌%◌, ◌^◌, bit_and, bit_or, Bool, true, false, not, ◌&&◌, List, [], ◌∷◌,
  Option, none, some, leb, ltb, ◌==◌, if◌then◌else◌, length, all, filter_option, then_some,
  unwrap_or, is_some, Bytes, codes, same, within, is_digit, digits_value, split, split_once,
  starts_with,
}
use permanu_agent.Base.Bits.{test_bit}

pub record CronExpr : Type 0 where
  pub minutes : ℕ
  pub hours : ℕ
  pub days : ℕ
  pub months : ℕ
  pub weekdays : ℕ
  pub dom_star : Bool
  pub dow_star : Bool

-- `text.parse()` of one or two digits cannot overflow.
unfoldable pub number : Bytes → Option ℕ
unfolding is_digit
number text = then_some (within 1 2 (length text) && all is_digit text) (digits_value 0 text)

-- The bounds and the step of an item, before the loop.
pub record Range : Type 0 where
  pub start : ℕ
  pub end : ℕ
  pub step : Option ℕ

-- The part before the `/`, given the step.
unfoldable pub bounds : Bytes → Option ℕ → ℕ → ℕ → Option Range
unfolding number same split_once
bounds range step low high =
    if same range (codes "*")
    then some (record { start = low; end = high; step = step })
    else elim (split_once b'-' range) [
      | some (a, b) ↦ elim (number a) [
        | none ↦ none
        | some start ↦ elim (number b) [
          | none ↦ none
          | some end ↦ some (record { start = start; end = end; step = step })
        ]
      ]
      | none ↦ elim (number range) [
        | none ↦ none
        | some start ↦
            some (record { start = start; end = if is_some step then high else start; step = step })
      ]
    ]

-- `range` and `step` of the item; `None` for a step of 0.
unfoldable pub item_range : Bytes → ℕ → ℕ → Option Range
unfolding bounds number split_once
item_range item low high = elim (split_once b'/' item) [
  | some (range, step) ↦ elim (filter_option (λ s. leb 1 s) (number step)) [
    | none ↦ none
    | some s ↦ bounds range (some s) low high
  ]
  | none ↦ bounds item none low high
]

-- `while value <= end { bits |= 1 << value; value += step }`, on fuel. The step is at least 1, so
-- `end + 1 - value` rounds are enough.
unfoldable pub fill : ℕ → ℕ → ℕ → ℕ → ℕ → ℕ
fill zero bits value end step = bits
fill (suc fuel) bits value end step =
    let rest = fill fuel (bit_or bits (2 ^ value)) (value + step) end step in
    if leb value end then rest else bits

unfoldable pub item : Bytes → ℕ → ℕ → Option ℕ
unfolding item_range fill
item text low high = elim (item_range text low high) [
  | none ↦ none
  | some r ↦
      if not (leb low r.start && leb r.start r.end && leb r.end high)
      then none
      else some (fill (suc r.end) 0 r.start r.end (unwrap_or 1 r.step))
]

-- `try_fold` over the parts.
unfoldable pub fold_items : ℕ → List Bytes → ℕ → ℕ → Option ℕ
unfolding item
fold_items bits [] low high = some bits
fold_items bits (part ∷ parts) low high = elim (item part low high) [
  | none ↦ none
  | some more ↦ fold_items (bit_or bits more) parts low high
]

unfoldable pub field : Bytes → ℕ → ℕ → Option ℕ
unfolding fold_items split
field text low high = fold_items 0 (split b',' text) low high

-- `!(1 << 7)` in a `u64`.
abbrev pub not_bit_seven : ℕ
not_bit_seven = 2 ^ 64 - 1 - 2 ^ 7

-- 7 is Sunday, as 0 is.
unfoldable pub fold_sunday : ℕ → ℕ
fold_sunday weekdays =
    if test_bit weekdays 7 then bit_and (bit_or weekdays 1) not_bit_seven else weekdays

-- The five fields, in the order of their evaluation.
unfoldable pub parse_parts : Bytes → Bytes → Bytes → Bytes → Bytes → Option CronExpr
unfolding field fold_sunday starts_with
parse_parts minute hour dom month dow = elim (field minute 0 59) [
  | none ↦ none
  | some minutes ↦ elim (field hour 0 23) [
    | none ↦ none
    | some hours ↦ elim (field dom 1 31) [
      | none ↦ none
      | some days ↦ elim (field month 1 12) [
        | none ↦ none
        | some months ↦ elim (field dow 0 7) [
          | none ↦ none
          | some weekdays ↦ some (record {
            minutes = minutes;
            hours = hours % 2 ^ 32;
            days = days % 2 ^ 32;
            months = months % 2 ^ 16;
            weekdays = fold_sunday weekdays % 2 ^ 8;
            dom_star = starts_with (codes "*") dom;
            dow_star = starts_with (codes "*") dow;
          })
        ]
      ]
    ]
  ]
]

unfoldable pub parts_of : List Bytes → Option CronExpr
parts_of (minute ∷ hour ∷ dom ∷ month ∷ dow ∷ []) = parse_parts minute hour dom month dow
parts_of _ = none

unfoldable pub parse : Bytes → Option CronExpr
unfolding split
parse expression = parts_of (split b' ' expression)
