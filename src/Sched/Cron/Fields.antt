-- ===== src/Sched/Cron/Fields.antt =====
-- The sets of a parsed expression (src/local/sched/cron_expr.rs).
use permanu_agent.Base.{
  ℕ, zero, suc, ◌+◌, ◌^◌, ◌≤◌, ◌<◌, max, bit_or, ◌≡◌, refl, inl, inr, List, [], ◌∷◌, some, leb,
  ◌==◌, if◌then◌else◌, arith, unwrap_or, Bytes, codes, split, starts_with, Bool-cases, Option-cases,
}
use permanu_agent.Base.Bits.{
  bit, bit-bit_or, bit-bit_and, bit-pow, bit_zero, bit-le-one, bit-cases, bit_or-lt, bit_and-lt,
  pow-lt, test_bit, test_bit-bit,
}
use permanu_agent.Sched.Cron.{
  CronExpr, fill, item, fold_items, field, fold_sunday, not_bit_seven, parse_parts, parts_of, parse,
}
use permanu_agent.Sched.Cron.Items.{item-IsItem}

-- Every bit of the set stands for a value of the field.
abbrev pub WithinField : ℕ → ℕ → ℕ → Type 0
WithinField low high set = (k : ℕ) → bit set k ≡ 1 → (low ≤ k) × (k ≤ high)

fill-lt :
    (fuel bits value end step w : ℕ)
    → end < w
    → bits < 2 ^ w
    → fill fuel bits value end step < 2 ^ w
unfolding fill
fill-lt zero bits value end step w h b = b
fill-lt (suc fuel) bits value end step w h b = elim (Bool-cases (leb value end)) [
  | inr e ↦ rw (e, if◌then◌else◌) b
  | inl e ↦
      rw (e, if◌then◌else◌)
        (fill-lt fuel (bit_or bits (2 ^ value)) (value + step) end step w h
          (bit_or-lt w bits (2 ^ value) b (pow-lt value w (ground arith))))
]

item_within :
    (text : Bytes) (low high set : ℕ) → item text low high ≡ some set → WithinField low high set
item_within text low high set h k b =
    let v = item-IsItem text low high set h in
    let s = v.forth k b in omega (arith, v.in_bounds, s.reached, s.within_end)

item-lt :
    (text : Bytes) (low high set w : ℕ) → high < w → item text low high ≡ some set → set < 2 ^ w
unfolding item
item-lt text low high set w k h =
    let v = item-IsItem text low high set h in
    let r = v.range in
    let filled : fill (suc r.end) 0 r.start r.end (unwrap_or 1 r.step) ≡ set =
      ground (arith, v.read) in
    rw (← filled) (
      fill-lt (suc r.end) 0 r.start r.end (unwrap_or 1 r.step) w (omega (arith, v.in_bounds))
        (omega (arith, pow-lt 0 w (omega arith))))

fold_items_within :
    (bits : ℕ) (parts : List Bytes) (low high : ℕ) {set : ℕ}
    → fold_items bits parts low high ≡ some set
    → WithinField low high bits
    → WithinField low high set
unfolding fold_items
fold_items_within bits [] low high h b = λ k. ground (arith, b k)
fold_items_within bits (part ∷ parts) low high h b = elim (Option-cases (item part low high)) [
  | inl e ↦ absurd (ground arith)
  | inr (more, e) ↦
      fold_items_within (bit_or bits more) parts low high (rw (e, fold_items) at h) λ k s.
        elim (bit-cases bits k) [
          | inr o ↦ b k o
          | inl z ↦
              item_within part low high more e k
                (omega (arith, bit-bit_or bits more k, bit-le-one more k))
        ]
]

fold_items-lt :
    (bits : ℕ) (parts : List Bytes) (low high w : ℕ) {set : ℕ}
    → high < w
    → fold_items bits parts low high ≡ some set
    → bits < 2 ^ w
    → set < 2 ^ w
unfolding fold_items
fold_items-lt bits [] low high w k h b = ground arith
fold_items-lt bits (part ∷ parts) low high w k h b = elim (Option-cases (item part low high)) [
  | inl e ↦ absurd (ground arith)
  | inr (more, e) ↦
      fold_items-lt (bit_or bits more) parts low high w k (rw (e, fold_items) at h)
        (bit_or-lt w bits more b (item-lt part low high more w k e))
]

field_within :
    (text : Bytes) (low high : ℕ) {set : ℕ}
    → field text low high ≡ some set
    → WithinField low high set
unfolding field
field_within text low high h =
    fold_items_within 0 (split b',' text) low high h (λ k b. absurd (omega (arith, bit_zero k)))

field-lt :
    (text : Bytes) (low high w : ℕ) {set : ℕ}
    → high < w
    → field text low high ≡ some set
    → set < 2 ^ w
unfolding field
field-lt text low high w k h =
    fold_items-lt 0 (split b',' text) low high w k h (omega (arith, pow-lt 0 w (omega arith)))

mask_bits : (k : ℕ) → k ≤ 6 → bit not_bit_seven k ≡ 1
unfolding bit
mask_bits zero h = refl
mask_bits (suc zero) h = refl
mask_bits (suc (suc zero)) h = refl
mask_bits (suc (suc (suc zero))) h = refl
mask_bits (suc (suc (suc (suc zero)))) h = refl
mask_bits (suc (suc (suc (suc (suc zero))))) h = refl
mask_bits (suc (suc (suc (suc (suc (suc zero)))))) h = refl
mask_bits (suc (suc (suc (suc (suc (suc (suc k))))))) h = absurd (omega arith)

mask_seven : bit not_bit_seven 7 ≡ 0
unfolding bit
mask_seven = refl

-- Sunday is the bit 0 after the fold, and was the bit 0 or the bit 7 before it.
abbrev pub IsFolded : ℕ → ℕ → Type 0
IsFolded set folded =
    (k : ℕ) → k ≤ 6 → bit folded k ≡ (if k == 0 then max (bit set 0) (bit set 7) else bit set k)

fold_sunday-IsFolded : (set : ℕ) → IsFolded set (fold_sunday set)
unfolding fold_sunday
fold_sunday-IsFolded set k h = elim (Bool-cases (test_bit set 7)) [
  | inl e ↦ rw e (
      ground (
        arith,
        bit-bit_and (bit_or set 1) not_bit_seven k,
        bit-bit_or set 1 k,
        bit-pow 0 k,
        mask_bits k h,
        test_bit-bit set 7,
        bit-le-one set k,
        bit-le-one set 0,
      ))
  | inr e ↦ rw e (ground (arith, test_bit-bit set 7, bit-le-one set 7))
]

fold_sunday_within : (set : ℕ) → WithinField 0 7 set → WithinField 0 6 (fold_sunday set)
unfolding fold_sunday
fold_sunday_within set v k = elim (Bool-cases (test_bit set 7)) [
  | inl e ↦ rw e λ b. ground (
    arith,
    bit-bit_and (bit_or set 1) not_bit_seven k,
    bit-bit_or set 1 k,
    bit-pow 0 k,
    mask_seven,
    v k,
    bit-le-one set k,
  )
  | inr e ↦ rw e λ b. ground (arith, test_bit-bit set 7, v k)
]

-- The sets of an expression whose fields are the texts given.
pub record IsParsed (minute hour dom month dow : Bytes) (c : CronExpr) : Type 0 where
  pub minutes : field minute 0 59 ≡ some c.minutes
  pub hours : field hour 0 23 ≡ some c.hours
  pub days : field dom 1 31 ≡ some c.days
  pub months : field month 1 12 ≡ some c.months
  pub weekday_set : ℕ
  pub weekday_field : field dow 0 7 ≡ some weekday_set
  pub weekdays : IsFolded weekday_set c.weekdays
  pub weekdays_within : WithinField 0 6 c.weekdays
  pub dom_star : c.dom_star ≡ starts_with (codes "*") dom
  pub dow_star : c.dow_star ≡ starts_with (codes "*") dow

fold_sunday-lt : (set : ℕ) → set < 2 ^ 8 → fold_sunday set < 2 ^ 8
unfolding fold_sunday
fold_sunday-lt set h = elim (Bool-cases (test_bit set 7)) [
  | inl e ↦ rw e (bit_and-lt 8 (bit_or set 1) not_bit_seven (bit_or-lt 8 set 1 h (omega arith)))
  | inr e ↦ rw e h
]

module _ (minute hour dom month dow : Bytes) (c : CronExpr) where
  parse_parts-IsParsed :
      parse_parts minute hour dom month dow ≡ some c → IsParsed minute hour dom month dow c
  unfolding parse_parts
  parse_parts-IsParsed h = elim (Option-cases (field minute 0 59)) [
    | inl e ↦ absurd (ground arith)
    | inr (minutes, e1) ↦ elim (Option-cases (field hour 0 23)) [
      | inl e ↦ absurd (ground arith)
      | inr (hours, e2) ↦ elim (Option-cases (field dom 1 31)) [
        | inl e ↦ absurd (ground arith)
        | inr (days, e3) ↦ elim (Option-cases (field month 1 12)) [
          | inl e ↦ absurd (ground arith)
          | inr (months, e4) ↦ elim (Option-cases (field dow 0 7)) [
            | inl e ↦ absurd (ground arith)
            | inr (weekdays, e5) ↦
                let hours_fit = field-lt hour 0 23 32 (omega arith) e2 in
                let days_fit = field-lt dom 1 31 32 (omega arith) e3 in
                let months_fit = field-lt month 1 12 16 (omega arith) e4 in
                let weekdays_fit = fold_sunday-lt weekdays (field-lt dow 0 7 8 (omega arith) e5) in
                let folded : c.weekdays ≡ fold_sunday weekdays = ground arith in
                record {
                  minutes = ground arith;
                  hours = ground arith;
                  days = ground arith;
                  months = ground arith;
                  weekday_set = weekdays;
                  weekday_field = e5;
                  weekdays = rw folded (fold_sunday-IsFolded weekdays);
                  weekdays_within =
                      rw folded (fold_sunday_within weekdays (field_within dow 0 7 e5));
                  dom_star = ground arith;
                  dow_star = ground arith;
                }
          ]
        ]
      ]
    ]
  ]

-- An accepted expression has five fields between single spaces. Its sets are the sets of its
-- fields, uncut by the casts, with 7 and 0 both Sunday, and they hold only values in range.
pub parse-IsParsed :
    (e : Bytes) (c : CronExpr)
    → parse e ≡ some c
    → (minute : Bytes) × (hour : Bytes) × (dom : Bytes) × (month : Bytes) × (dow : Bytes) × (split
          b' ' e
        ≡ minute ∷ hour ∷ dom ∷ month ∷ dow ∷ [])
      × IsParsed minute hour dom month dow c
      × WithinField 0 59 c.minutes
      × WithinField 0 23 c.hours
      × WithinField 1 31 c.days
      × WithinField 1 12 c.months
unfolding parse parts_of
parse-IsParsed e c h = go (split b' ' e) refl h
  where
    go :
        (parts : List Bytes)
        → split b' ' e ≡ parts
        → parts_of parts ≡ some c
        → (minute : Bytes) × (hour : Bytes) × (dom : Bytes) × (month : Bytes) × (dow : Bytes)
          × (split b' ' e ≡ minute ∷ hour ∷ dom ∷ month ∷ dow ∷ [])
          × IsParsed minute hour dom month dow c
          × WithinField 0 59 c.minutes
          × WithinField 0 23 c.hours
          × WithinField 1 31 c.days
          × WithinField 1 12 c.months
    go (minute ∷ hour ∷ dom ∷ month ∷ dow ∷ []) f p =
        let v = parse_parts-IsParsed minute hour dom month dow c p in
        (
          minute,
          hour,
          dom,
          month,
          dow,
          f,
          v,
          field_within minute 0 59 v.minutes,
          field_within hour 0 23 v.hours,
          field_within dom 1 31 v.days,
          field_within month 1 12 v.months,
        )
    go _ f p = absurd (ground arith)
