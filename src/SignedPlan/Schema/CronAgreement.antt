-- ===== src/SignedPlan/Schema/CronAgreement.antt =====
-- The grammar of cron expressions that plans are checked by (src/signed_plan/schema/actions_m2.rs)
-- beside the parser of the scheduler (src/local/sched/cron_expr.rs).
use permanu_agent.Base.{
  ℕ, bit_or, ◌≡◌, refl, Bool, ◌&&◌, List, [], ◌∷◌, Option, none, some, is_some, is_some_and, leb,
  ◌==◌, length, all, arith, Bytes, split, split_once, codes, same, and_then, Option-cases,
  Bool-cases, inl, inr,
}
use permanu_agent.SignedPlan.Schema.Grammars.{
  cron_number, cron_bounds, in_field, cron_item, cron_field, cron_fields, all_zip, cron_parses,
}
use permanu_agent.Sched.Cron.{
  number, Range, bounds, item_range, item, fold_items, field, parse_parts, parts_of, parse,
}

number-same : (t : Bytes) → cron_number t ≡ number t
unfolding cron_number number
number-same t = refl

-- The bounds of a range, read alike.
abbrev pair_of : Range → ℕ × ℕ
pair_of r = (r.start, r.end)

bounds-same :
    (range : Bytes) (step : Option ℕ) (low high : ℕ)
    → cron_bounds range (is_some step) low high
      ≡ and_then (bounds range step low high) (λ r. some (pair_of r))
unfolding cron_bounds bounds cron_number number
bounds-same range step low high = elim (Bool-cases (same range (codes "*"))) [
  | inl s ↦ rw s refl
  | inr s ↦ rw s (elim (Option-cases (split_once b'-' range)) [
    | inr ((a, b), e) ↦ rw e (elim (Option-cases (number a)) [
      | inl f ↦ ground arith
      | inr (start, f) ↦ elim (Option-cases (number b)) [
        | inl g ↦ ground arith
        | inr g ↦ ground arith
      ]
    ])
    | inl e ↦ rw e (ground arith)
  ])
]

abbrev pub is_item : Option Range → ℕ → ℕ → Bool
is_item r low high = is_some_and (λ r. leb low r.start && leb r.start r.end && leb r.end high) r

item-is_some :
    (text : Bytes) (low high : ℕ)
    → is_some (item text low high) ≡ is_item (item_range text low high) low high
unfolding item
item-is_some text low high = elim (Option-cases (item_range text low high)) [
  | inl e ↦ rw (e, item) refl
  | inr (r, e) ↦ rw (e, item) (ground arith)
]

bounds-in_field :
    (range : Bytes) (step : Option ℕ) (low high : ℕ)
    → is_some_and (in_field low high) (cron_bounds range (is_some step) low high)
      ≡ is_item (bounds range step low high) low high
bounds-in_field range step low high = elim (Option-cases (bounds range step low high)) [
  | inl e ↦ rw (bounds-same range step low high, e) refl
  | inr (r, e) ↦ rw (bounds-same range step low high, e) refl
]

cron_item-item :
    (text : Bytes) (low high : ℕ) → cron_item text low high ≡ is_some (item text low high)
unfolding cron_item item_range
cron_item-item text low high = rw (item-is_some text low high) (go (split_once b'/' text) refl)
  where
    go :
        (halves : Option (Bytes × Bytes))
        → split_once b'/' text ≡ halves
        → cron_item text low high ≡ is_item (item_range text low high) low high
    go none e = rw (e, cron_item, item_range) (bounds-in_field text none low high)
    go (some (range, step)) e =
        rw (e, cron_item, item_range)
          (rw (number-same step) (elim (Option-cases (number step)) [
            | inl f ↦ rw f refl
            | inr (s, f) ↦ rw f (elim (Bool-cases (leb 1 s)) [
              | inl g ↦ ground (arith, bounds-in_field range (some s) low high)
              | inr g ↦ ground arith
            ])
          ]))

fold_items-all :
    (bits : ℕ) (parts : List Bytes) (low high : ℕ)
    → all (λ part. cron_item part low high) parts ≡ is_some (fold_items bits parts low high)
unfolding fold_items
fold_items-all bits [] low high = refl
fold_items-all bits (p ∷ parts) low high =
    rw (cron_item-item p low high) (elim (Option-cases (item p low high)) [
      | inl e ↦ rw (e, fold_items) refl
      | inr (more, e) ↦ rw (e, fold_items) (fold_items-all (bit_or bits more) parts low high)
    ])

field-same :
    (text : Bytes) (low high : ℕ) → cron_field text (low, high) ≡ is_some (field text low high)
unfolding field
field-same text low high = fold_items-all 0 (split b',' text) low high

parse_parts-is_some :
    (minute hour dom month dow : Bytes)
    → is_some (parse_parts minute hour dom month dow) ≡ (
        is_some (field minute 0 59)
        && is_some (field hour 0 23)
        && is_some (field dom 1 31)
        && is_some (field month 1 12)
        && is_some (field dow 0 7))
unfolding parse_parts
parse_parts-is_some minute hour dom month dow = ground arith

fields-same :
    (parts : List Bytes)
    → (length parts == 5 && all_zip parts cron_fields) ≡ is_some (parts_of parts)
unfolding parts_of
fields-same [] = refl
fields-same (a ∷ []) = ground arith
fields-same (a ∷ b ∷ []) = ground arith
fields-same (a ∷ b ∷ c ∷ []) = ground arith
fields-same (a ∷ b ∷ c ∷ d ∷ []) = ground arith
fields-same (a ∷ b ∷ c ∷ d ∷ e ∷ []) = ground (
  arith,
  parse_parts-is_some a b c d e,
  field-same a 0 59,
  field-same b 0 23,
  field-same c 1 31,
  field-same d 1 12,
  field-same e 0 7,
)
fields-same (a ∷ b ∷ c ∷ d ∷ e ∷ f ∷ fs) = ground arith

-- The grammar that plans are checked by accepts exactly the expressions that the scheduler parses.
pub cron_parses-parse : (e : Bytes) → cron_parses e ≡ is_some (parse e)
unfolding cron_parses parse
cron_parses-parse e = fields-same (split b' ' e)
