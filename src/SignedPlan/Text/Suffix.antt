-- ===== src/SignedPlan/Text/Suffix.antt =====
-- `strip_prefix` and `strip_suffix` take off what they are given, and nothing else.
use permanu_agent.Base.{
  ℕ, ◌≡◌, refl, ap, false, [], ◌∷◌, ◌++◌, some, arith, length, length-append, Bytes, same, same_iff,
  same_self, Bool-cases, Option-cases, inl, inr, strip_prefix, strip_suffix,
}

pub strip_prefix-append : (p s : Bytes) → strip_prefix p (p ++ s) ≡ some s
unfolding strip_prefix
strip_prefix-append [] s = refl
strip_prefix-append (c ∷ p) s = ground (arith, strip_prefix-append p s)

pub strip_prefix-eq_some : (p s r : Bytes) → strip_prefix p s ≡ some r → s ≡ p ++ r
unfolding strip_prefix
strip_prefix-eq_some [] s r h = ground arith
strip_prefix-eq_some (c ∷ p) [] r h = ground arith
strip_prefix-eq_some (c ∷ p) (d ∷ s) r h = ground (arith, strip_prefix-eq_some p s r)

longer : (x : Bytes) (c : ℕ) (r : Bytes) → same x (c ∷ (r ++ x)) ≡ false
longer x c r = elim (Bool-cases (same x (c ∷ (r ++ x)))) [
  | inl e ↦ absurd (omega (arith, ap length ((same_iff x (c ∷ (r ++ x))).0 e), length-append r x))
  | inr e ↦ e
]

pub strip_suffix-append : (x r : Bytes) → strip_suffix x (r ++ x) ≡ some r
unfolding strip_suffix
strip_suffix-append [] [] = refl
strip_suffix-append (c ∷ x) [] = rw (same_self (c ∷ x)) refl
strip_suffix-append x (c ∷ r) = rw (longer x c r) (rw (strip_suffix-append x r) refl)

pub strip_suffix-eq_some : (x s r : Bytes) → strip_suffix x s ≡ some r → s ≡ r ++ x
unfolding strip_suffix
strip_suffix-eq_some x [] r h = ground (arith, same_iff x [])
strip_suffix-eq_some x (c ∷ s) r h = elim (Bool-cases (same x (c ∷ s))) [
  | inl e ↦ ground (arith, same_iff x (c ∷ s))
  | inr e ↦ elim (Option-cases (strip_suffix x s)) [
    | inl f ↦ absurd (ground arith)
    | inr (q, f) ↦ ground (arith, strip_suffix-eq_some x s q f)
  ]
]
