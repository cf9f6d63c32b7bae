-- ===== src/Spool/Names.antt =====
-- The names of segment files (src/spool.rs).
use mathlib.Core.Option.{some-injective}
use permanu_agent.Base.{
  ℕ, zero, suc, ◌+◌, ◌-◌, ◌*◌, ◌/◌, ◌%◌, ◌<◌, ◌≡◌, refl, sym, ap, ◌∙◌, List, [], ◌∷◌, ◌++◌, ltb,
  length, All, Bytes, codes, same, same_iff, digits_value, strip_prefix, strip_suffix, arith,
  Bool-cases, inl, inr,
}
use permanu_agent.SignedPlan.Text.Time.{decimal_onto, decimal, zeros, padded}
use permanu_agent.SignedPlan.Text.Suffix.{strip_prefix-append, strip_suffix-append}
use permanu_agent.Spool.{Segment, segment_path}
use permanu_agent.Spool.Queue.{IsUnused}

digits_value-decimal_onto :
    (fuel n : ℕ) (out : Bytes)
    → n < fuel
    → digits_value 0 (decimal_onto fuel n out) ≡ digits_value n out
unfolding decimal_onto
digits_value-decimal_onto zero n out h = absurd (omega arith)
digits_value-decimal_onto (suc fuel) n out h = elim (Bool-cases (ltb n 10)) [
  | inl l ↦ rw l (
      ap (λ k. digits_value k out)
        (let digit : 0 * 10 + (b'0' + n - b'0') ≡ n = omega arith in digit))
  | inr l ↦ rw l (
      digits_value-decimal_onto fuel (n / 10) ((b'0' + n % 10) ∷ out) (ground arith)
      ∙ ap (λ k. digits_value k out)
          (let digit : n / 10 * 10 + (b'0' + n % 10 - b'0') ≡ n = omega arith in digit))
]

digits_value-zeros : (k : ℕ) (s : Bytes) → digits_value 0 (zeros k ++ s) ≡ digits_value 0 s
unfolding zeros
digits_value-zeros zero s = refl
digits_value-zeros (suc k) s = digits_value-zeros k s

digits_value-padded : (width n : ℕ) → digits_value 0 (padded width n) ≡ n
unfolding padded
digits_value-padded width n =
    digits_value-zeros (width - length (decimal n)) (decimal n)
    ∙ digits_value-decimal_onto (suc n) n [] (omega arith)

abbrev named_part : ℕ → Bytes
named_part n = padded 20 n ++ codes ".spool"

abbrev tail_part : ℕ → Bytes
tail_part n = codes "/segment-" ++ named_part n

segment_path-injective : (dir : Bytes) (a b : ℕ) → segment_path dir a ≡ segment_path dir b → a ≡ b
segment_path-injective dir a b e =
    let after_dir : tail_part a ≡ tail_part b = some-injective (tail_part a) (tail_part b) (
      sym (strip_prefix-append dir (tail_part a))
      ∙ ap (strip_prefix dir) e
      ∙ strip_prefix-append dir (tail_part b)) in
    let after_prefix : named_part a ≡ named_part b = some-injective (named_part a) (named_part b) (
      sym (strip_prefix-append (codes "/segment-") (named_part a))
      ∙ ap (strip_prefix (codes "/segment-")) after_dir
      ∙ strip_prefix-append (codes "/segment-") (named_part b)) in
    let digits : padded 20 a ≡ padded 20 b = some-injective (padded 20 a) (padded 20 b) (
      sym (strip_suffix-append (codes ".spool") (padded 20 a))
      ∙ ap (strip_suffix (codes ".spool")) after_prefix
      ∙ strip_suffix-append (codes ".spool") (padded 20 b)) in
    sym (digits_value-padded 20 a) ∙ ap (digits_value 0) digits ∙ digits_value-padded 20 b

-- The segments have the names of their numbers, which are below the next one.
abbrev pub AreNamed : Bytes → ℕ → List Segment → Type 0
AreNamed dir next ss = All (λ s. (s.path ≡ segment_path dir s.sequence) × (s.sequence < next)) ss

pub AreNamed-IsUnused :
    (dir : Bytes) (next : ℕ) (ss : List Segment)
    → AreNamed dir next ss
    → IsUnused (segment_path dir next) ss
AreNamed-IsUnused dir next [] h = tt
AreNamed-IsUnused dir next (s ∷ ss) ((path, less), hs) =
    let rest = AreNamed-IsUnused dir next ss hs in
    elim (Bool-cases (same (segment_path dir next) s.path)) [
      | inr f ↦ (f, rest)
      | inl t ↦
          let same_path : segment_path dir next ≡ s.path =
            (same_iff (segment_path dir next) s.path).0 t in
          let same_number : next ≡ s.sequence =
            segment_path-injective dir next s.sequence (same_path ∙ path) in
          absurd (omega arith)
    ]
