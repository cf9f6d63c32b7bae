-- ===== src/SignedPlan/Schema/GrammarPatterns.antt =====
-- The grammars of src/signed_plan/schema/actions_m2.rs and spec_build.rs that their comments state
-- as patterns.
use permanu_agent.Base.{
  ℕ, ◌≡◌, refl, ap, ◌∙◌, Bool, true, false, ◌&&◌, [], ◌∷◌, ◌++◌, Option, none, some, ◌==◌, within,
  length, all, is_some_and, is_alphanumeric, arith, Bytes, codes, strip_prefix,
}
use permanu_agent.SignedPlan.Text.Regex.{
  Regex, cls, text, seq, rep, Matches, Decides, decide_rep, decide_of_eq, class_pattern, class_test,
  decide_class,
}
use permanu_agent.SignedPlan.Text.Suffix.{strip_prefix-append, strip_prefix-eq_some}
use permanu_agent.SignedPlan.Schema.Grammars.{
  is_age, age_recipient, is_region, region, is_base64, fingerprint, is_segment,
}
use permanu_agent.SignedPlan.Schema.Build.{build_target}

-- A fixed text in front.
decide_prefixed :
    (p : Bytes) (test : Bytes → Bool) (r : Regex)
    → Decides test r
    → Decides (λ s. is_some_and test (strip_prefix p s)) (seq (text p) r)
decide_prefixed p test r d s = (forth (strip_prefix p s) refl, back)
  where
    forth :
        (o : Option Bytes)
        → strip_prefix p s ≡ o
        → is_some_and test (strip_prefix p s) ≡ true
        → Matches (seq (text p) r) s
    forth none e h = absurd (let bad : false ≡ true = rw (e, is_some_and) at h in cc)
    forth (some rest) e h =
        (p, rest, strip_prefix-eq_some p s rest e, refl, (d rest).0 (rw (e, is_some_and) at h))

    back : Matches (seq (text p) r) s → is_some_and test (strip_prefix p s) ≡ true
    back (u, v, e, f, m) =
        let whole : s ≡ p ++ v = e ∙ ap (λ w. w ++ v) f in
        let stripped : strip_prefix p s ≡ some v =
          ap (strip_prefix p) whole ∙ strip_prefix-append p v in
        ap (is_some_and test) stripped ∙ (d v).1 m

-- `age1[02-9ac-hj-np-z]{58}`.
abbrev pub age_pattern : Regex
age_pattern = seq (text (codes "age1")) (rep 58 58 (cls is_age))

exact_length :
    (n : ℕ) (p : ℕ → Bool) (s : Bytes)
    → (length s == n && all p s) ≡ (within n n (length s) && all p s)
exact_length n p s = ground arith

decide_exact : (n : ℕ) (p : ℕ → Bool) → Decides (λ s. length s == n && all p s) (rep n n (cls p))
decide_exact n p =
    decide_of_eq (λ s. length s == n && all p s) _ (rep n n (cls p)) (exact_length n p)
      (decide_rep p n n)

age_recipient-Decides : Decides age_recipient age_pattern
unfolding age_recipient
age_recipient-Decides =
    decide_prefixed (codes "age1") (λ s. length s == 58 && all is_age s) (rep 58 58 (cls is_age))
      (decide_exact 58 is_age)

-- `[a-z0-9-]{1,64}`.
abbrev pub region_pattern : Regex
region_pattern = rep 1 64 (cls is_region)

region-Decides : Decides region region_pattern
unfolding region
region-Decides = decide_rep is_region 1 64

-- `SHA256:[A-Za-z0-9+/]{43}`.
abbrev pub fingerprint_pattern : Regex
fingerprint_pattern = seq (text (codes "SHA256:")) (rep 43 43 (cls is_base64))

fingerprint-Decides : Decides fingerprint fingerprint_pattern
unfolding fingerprint
fingerprint-Decides =
    decide_prefixed (codes "SHA256:") (λ s. length s == 43 && all is_base64 s)
      (rep 43 43 (cls is_base64)) (decide_exact 43 is_base64)

-- `[A-Za-z0-9][A-Za-z0-9._-]{0,63}`.
abbrev pub target_pattern : Regex
target_pattern = class_pattern is_alphanumeric 0 63 is_segment

build_target-class_test :
    (s : Bytes) → build_target s ≡ class_test is_alphanumeric 0 63 is_segment s
unfolding build_target
build_target-class_test [] = refl
build_target-class_test (c ∷ s) = ground arith

build_target-Decides : Decides build_target target_pattern
build_target-Decides =
    decide_of_eq build_target _ target_pattern build_target-class_test
      (decide_class is_alphanumeric 0 63 is_segment)

-- `age_recipient`, `region`, `fingerprint` and `build_target` accept exactly the texts that match
-- the patterns their comments state.
pub grammar_patterns :
    Decides age_recipient age_pattern
    × Decides region region_pattern
    × Decides fingerprint fingerprint_pattern
    × Decides build_target target_pattern
grammar_patterns =
    (age_recipient-Decides, region-Decides, fingerprint-Decides, build_target-Decides)
