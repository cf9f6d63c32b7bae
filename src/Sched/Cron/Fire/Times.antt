-- ===== src/Sched/Cron/Fire/Times.antt =====
-- The fire times of an interval (src/local/sched/cron_expr.rs).
use mathlib.Core.List.{append_assoc}
use permanu_agent.Base.{
  ℕ, zero, suc, ◌+◌, ◌-◌, ◌≡◌, refl, sym, ap, ◌∙◌, List, [], ◌∷◌, ◌++◌, none, some, ℤ, ◌<ℤ◌, ◌≤ℤ◌,
  ltb_ℤ, ltb, arith, length, take, length-append, Bool-cases, Option-cases, inl, inr, if◌then◌else◌,
}
use permanu_agent.Sched.Cron.{CronExpr}
use permanu_agent.Sched.Cron.Fire.{Zone, next_after, fire_loop, fire_times}
use permanu_agent.Sched.Cron.Fire.Search.{next_after-IsFire}

module _ (e : CronExpr) (tz : Zone) (to : ℤ) where
  -- At most `left` fire times after `cursor`, each the next one after the last: all of them up to
  -- `to`, unless there are more than `left`.
  pub data Fires : ℕ → ℤ → List ℤ → Type 0 where
    full : {cursor : ℤ} → Fires zero cursor []
    exhausted : {left : ℕ} {cursor : ℤ} → next_after e tz cursor ≡ none → Fires left cursor []
    past :
        {left : ℕ} {cursor next : ℤ}
        → next_after e tz cursor ≡ some next
        → to <ℤ next
        → Fires left cursor []
    fire :
        {left : ℕ} {cursor next : ℤ} {times : List ℤ}
        → next_after e tz cursor ≡ some next
        → cursor <ℤ next
        → next ≤ℤ to
        → Fires left next times
        → Fires (suc left) cursor (next ∷ times)

  record LoopResult (limit left : ℕ) (cursor : ℤ) (out : List ℤ) (count : ℕ) (result : List ℤ × ℕ)
      : Type 0 where
    times : List ℤ
    fires : Fires left cursor times
    out_eq : result.0 ≡ out ++ take (limit - length out) times
    count_eq : result.1 ≡ count + length times

  append_nil : (out : List ℤ) → out ≡ out ++ []
  append_nil [] = refl
  append_nil (x ∷ out) = ap (λ r. x ∷ r) (append_nil out)

  stop :
      (limit left : ℕ) (cursor : ℤ) (out : List ℤ) (count : ℕ)
      → Fires left cursor []
      → LoopResult limit left cursor out count (out, count)
  stop limit left cursor out count f = record {
    times = [];
    fires = f;
    out_eq = append_nil out ∙ ap (λ r. out ++ r) (sym (take_nil (limit - length out)));
    count_eq = omega arith;
  }
    where
      take_nil : (n : ℕ) → take {A = ℤ} n [] ≡ []
      take_nil zero = refl
      take_nil (suc n) = refl

  push_out :
      (limit : ℕ) (out : List ℤ) (next : ℤ) (times : List ℤ)
      → (if ltb (length out) limit then out ++ (next ∷ []) else out)
          ++ take
              (limit - length (if ltb (length out) limit then out ++ (next ∷ []) else out))
              times
        ≡ out ++ take (limit - length out) (next ∷ times)
  push_out limit out next times = elim (Bool-cases (ltb (length out) limit)) [
    | inl l ↦
        let size : limit - length out ≡ suc (limit - length (out ++ (next ∷ []))) =
          ground (arith, length-append out (next ∷ [])) in
        rw (l, size) (append_assoc out (next ∷ []) _)
    | inr l ↦ let none_left : limit - length out ≡ 0 = ground arith in rw (l, none_left) refl
  ]

  fire_loop-LoopResult :
      (limit left : ℕ) (cursor : ℤ) (out : List ℤ) (count : ℕ)
      → LoopResult limit left cursor out count (fire_loop e tz to limit left cursor out count)
  unfolding fire_loop
  fire_loop-LoopResult limit zero cursor out count = stop limit zero cursor out count full
  fire_loop-LoopResult limit (suc left) cursor out count =
      elim (Option-cases (next_after e tz cursor)) [
        | inl n ↦ rw (n, fire_loop) (stop limit (suc left) cursor out count (exhausted n))
        | inr (next, n) ↦
            rw (n, fire_loop)
              (elim (Bool-cases (ltb_ℤ to next)) [
                | inl l ↦ rw l (stop limit (suc left) cursor out count (past n (ground arith)))
                | inr l ↦
                    let out' = if ltb (length out) limit then out ++ (next ∷ []) else out in
                    let r = fire_loop-LoopResult limit left next out' (count + 1) in
                    let (start, k, date, _, _, _, is_fire) = next_after-IsFire e tz cursor next n in
                    rw l (record {
                      times = next ∷ r.times;
                      fires = fire n is_fire.is_after (ground arith) r.fires;
                      out_eq = r.out_eq ∙ push_out limit out next r.times;
                      count_eq = omega (arith, r.count_eq);
                    })
              ])
      ]

-- `fire_times` walks the chain of the next fire times from `from`: strictly increasing times, none
-- past `to`, and at most `count_limit` of them. It returns the first `limit` of the times and the
-- number of all of them.
pub fire_times-Fires :
    (e : CronExpr) (tz : Zone) (from to : ℤ) (limit count_limit : ℕ)
    → (times : List ℤ) × Fires e tz to count_limit from times
      × ((fire_times e tz from to limit count_limit).0 ≡ take limit times)
      × ((fire_times e tz from to limit count_limit).1 ≡ length times)
fire_times-Fires e tz from to limit count_limit =
    let r = fire_loop-LoopResult e tz to limit count_limit from [] 0 in
    let whole : limit - 0 ≡ limit = omega arith in
    (
      r.times,
      r.fires,
      r.out_eq ∙ ap (λ n. take n r.times) whole,
      r.count_eq
          ∙ (let same_count : 0 + length r.times ≡ length r.times = omega arith in same_count),
    )
