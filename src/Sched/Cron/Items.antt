-- ===== src/Sched/Cron/Items.antt =====
-- The set of an item (src/local/sched/cron_expr.rs).
use permanu_agent.Base.{
  filter_option, split_once, le→leb, le→leb, ℕ, zero, suc, ◌+◌, ◌*◌, ◌^◌, ◌≤◌, bit_or, ◌≡◌, ◌∙◌,
  ◌⊎◌, inl, inr, true, Option, none, some, leb, ◌==◌, if◌then◌else◌, arith, unwrap_or, Bytes,
  Bool-cases, Option-cases,
}
use permanu_agent.Base.Bits.{bit, bit-bit_or, bit-pow, bit_zero, bit-le-one}
use permanu_agent.Sched.Cron.{number, Range, bounds, item_range, fill, item}

-- `k` is `value`, `value + step`, `value + 2 * step`, and so on, up to `end`.
pub record IsStepped (value end step k : ℕ) : Type 0 where
  pub count : ℕ
  pub reached : k ≡ value + count * step
  pub within_end : k ≤ end

set_bit :
    (bits value k : ℕ) → bit (bit_or bits (2 ^ value)) k ≡ (if value == k then 1 else bit bits k)
set_bit bits value k =
    bit-bit_or bits (2 ^ value) k ∙ ground (arith, bit-pow value k, bit-le-one bits k)

fill_forth :
    (fuel bits value end step k : ℕ)
    → bit (fill fuel bits value end step) k ≡ 1
    → (bit bits k ≡ 1) ⊎ IsStepped value end step k
unfolding fill
fill_forth zero bits value end step k h = inl h
fill_forth (suc fuel) bits value end step k h = elim (Bool-cases (leb value end)) [
  | inr e ↦ inl (rw (e, if◌then◌else◌) at h)
  | inl e ↦
      elim (fill_forth fuel (bit_or bits (2 ^ value)) (value + step) end step k
        (rw (e, if◌then◌else◌) at h)) [
          | inr s ↦ inr (record {
            count = suc s.count;
            reached = omega (arith, s.reached);
            within_end = s.within_end;
          })
          | inl b ↦ elim (Bool-cases (value == k)) [
            | inl f ↦ inr (record { count = 0; reached = ground arith; within_end = ground arith })
            | inr f ↦ inl (ground (arith, set_bit bits value k))
          ]
        ]
]

fill_keeps :
    (fuel bits value end step k : ℕ) → bit bits k ≡ 1 → bit (fill fuel bits value end step) k ≡ 1
unfolding fill
fill_keeps zero bits value end step k h = h
fill_keeps (suc fuel) bits value end step k h = ground (
  arith,
  set_bit bits value k,
  fill_keeps fuel (bit_or bits (2 ^ value)) (value + step) end step k,
)

fill_back :
    (fuel bits value end step k count : ℕ)
    → 1 ≤ step
    → suc end ≤ value + fuel
    → k ≡ value + count * step
    → k ≤ end
    → bit (fill fuel bits value end step) k ≡ 1
unfolding fill
fill_back zero bits value end step k count h f r w = absurd (omega arith)
fill_back (suc fuel) bits value end step k zero h f r w = ground (
  arith,
  set_bit bits value k,
  fill_keeps fuel (bit_or bits (2 ^ value)) (value + step) end step k,
)
fill_back (suc fuel) bits value end step k (suc count) h f r w =
    let in_range : leb value end ≡ true = le→leb value end (omega arith) in
    rw in_range (
      fill_back fuel (bit_or bits (2 ^ value)) (value + step) end step k count h (omega arith)
        (omega arith) w)

-- A range in bounds, and the set of its values.
pub record IsItem (text : Bytes) (low high set : ℕ) : Type 0 where
  pub range : Range
  pub read : item_range text low high ≡ some range
  pub in_bounds : (low ≤ range.start) × (range.start ≤ range.end) × (range.end ≤ high)
  pub step_pos : 1 ≤ unwrap_or 1 range.step
  pub forth : (k : ℕ) → bit set k ≡ 1 → IsStepped range.start range.end (unwrap_or 1 range.step) k
  pub back : (k : ℕ) → IsStepped range.start range.end (unwrap_or 1 range.step) k → bit set k ≡ 1

bounds_step :
    (range : Bytes) (step : Option ℕ) (low high : ℕ) {r : Range}
    → bounds range step low high ≡ some r
    → r.step ≡ step
unfolding bounds
bounds_step range step low high h = ground arith

item_range_step :
    (text : Bytes) (low high : ℕ) {r : Range}
    → item_range text low high ≡ some r
    → 1 ≤ unwrap_or 1 r.step
unfolding item_range
item_range_step text low high {r} h = elim (Option-cases (split_once b'/' text)) [
  | inl e ↦
      let whole : bounds text none low high ≡ some r = ground arith in
      rw (bounds_step text none low high whole) (omega arith)
  | inr ((range, step), e) ↦ elim (Option-cases (filter_option (λ s. leb 1 s) (number step))) [
    | inl f ↦ absurd (ground arith)
    | inr (s, f) ↦
        let whole : bounds range (some s) low high ≡ some r = ground arith in
        rw (bounds_step range (some s) low high whole) (ground (arith, number step))
  ]
]

-- An item that is accepted stands for the values of its range, from the start by its step, and
-- the range lies within the bounds of the field.
pub item-IsItem :
    (text : Bytes) (low high set : ℕ) → item text low high ≡ some set → IsItem text low high set
unfolding item
item-IsItem text low high set h = elim (Option-cases (item_range text low high)) [
  | inl e ↦ absurd (ground arith)
  | inr (r, e) ↦
      let filled : fill (suc r.end) 0 r.start r.end (unwrap_or 1 r.step) ≡ set = ground arith in
      let positive = item_range_step text low high e in
      record {
        range = r;
        read = e;
        in_bounds = ground arith;
        step_pos = positive;
        forth = λ k b.
            elim (fill_forth (suc r.end) 0 r.start r.end (unwrap_or 1 r.step) k (rw filled b)) [
              | inl z ↦ absurd (omega (arith, bit_zero k))
              | inr s ↦ s
            ];
        back = λ k s. rw (← filled) (
            fill_back (suc r.end) 0 r.start r.end (unwrap_or 1 r.step) k s.count positive
              (omega arith) s.reached s.within_end);
      }
]
