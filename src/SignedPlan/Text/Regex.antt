-- ===== src/SignedPlan/Text/Regex.antt =====
-- The regular expressions that the comments of src/signed_plan/text.rs state, as an independent
-- description of the matchers: a text matches as a whole.
use permanu_agent.Base.{
  ℕ, zero, suc, ◌≤◌, ◌≡◌, refl, sym, ◌∙◌, ◌↔◌, ◌⊎◌, Bool, true, false, not, ◌&&◌, [], ◌∷◌, ◌++◌,
  arith, length, all, is_nil, within, Bytes, length-append, all-append, and_intro, and_elim,
}

pub data Regex : Type 0 where
  cls : (ℕ → Bool) → Regex
  lit : ℕ → Regex
  text : Bytes → Regex
  seq : Regex → Regex → Regex
  opt : Regex → Regex
  alt : Regex → Regex → Regex
  -- `r{low,high}`.
  rep : ℕ → ℕ → Regex → Regex
  -- `r+` and `r*`.
  plus star : Regex → Regex

-- `n` texts of a language, one after another.
pub data Pow (L : Bytes → Type 0) : ℕ → Bytes → Type 0 where
  none_left : {s : Bytes} → s ≡ [] → Pow L zero s
  one_more : {n : ℕ} {s u v : Bytes} → s ≡ u ++ v → L u → Pow L n v → Pow L (suc n) s

abbrev pub Matches : Regex → Bytes → Type 0
Matches (cls p) s = (c : ℕ) × (s ≡ c ∷ []) × (p c ≡ true)
Matches (lit c) s = s ≡ c ∷ []
Matches (text t) s = s ≡ t
Matches (alt a b) s = Matches a s ⊎ Matches b s
Matches (seq a b) s = (u : Bytes) × (v : Bytes) × (s ≡ u ++ v) × Matches a u × Matches b v
Matches (opt a) s = (s ≡ []) ⊎ Matches a s
Matches (rep low high a) s = (n : ℕ) × (low ≤ n) × (n ≤ high) × Pow (Matches a) n s
Matches (plus a) s = (n : ℕ) × (1 ≤ n) × Pow (Matches a) n s
Matches (star a) s = (n : ℕ) × Pow (Matches a) n s

-- The test accepts exactly the texts that match.
abbrev pub Decides : (Bytes → Bool) → Regex → Type 0
Decides test r = (s : Bytes) → (test s ≡ true) ↔ Matches r s

-- A power of a class is a text of that length over the class.
pub Pow-of_all : (p : ℕ → Bool) (s : Bytes) → all p s ≡ true → Pow (Matches (cls p)) (length s) s
Pow-of_all p [] h = none_left refl
Pow-of_all p (c ∷ s) h =
    one_more {u = c ∷ []} refl (c, refl, (and_elim (p c) (all p s) h).0)
      (Pow-of_all p s (and_elim (p c) (all p s) h).1)

cons_of_cls : (p : ℕ → Bool) (u : Bytes) → Matches (cls p) u → (length u ≡ 1) × (all p u ≡ true)
cons_of_cls p u (c, e, h) = rw e (ground arith)

pub all_of_Pow :
    (p : ℕ → Bool) {n : ℕ} {s : Bytes}
    → Pow (Matches (cls p)) n s
    → (length s ≡ n) × (all p s ≡ true)
all_of_Pow p (none_left e) = rw e (ground arith)
all_of_Pow p (one_more {n} {s} {u} {v} e m rest) =
    rw e (ground (arith, all_of_Pow p rest, cons_of_cls p u m, length-append u v, all-append p u v))

pub decide_rep :
    (p : ℕ → Bool) (low high : ℕ)
    → Decides (λ s. within low high (length s) && all p s) (rep low high (cls p))
decide_rep p low high s = (
  λ h. (length s, ground arith, ground arith, Pow-of_all p s (ground arith)),
  λ (n, l, h, w). ground (arith, all_of_Pow p w),
)

pub decide_plus : (p : ℕ → Bool) → Decides (λ s. not (is_nil s) && all p s) (plus (cls p))
decide_plus p [] =
    (λ h. absurd (ground arith), λ (n, l, w). absurd (ground (arith, all_of_Pow p w)))
decide_plus p (c ∷ s) = (
  λ h. (suc (length s), ground arith, Pow-of_all p (c ∷ s) (ground arith)),
  λ (n, l, w). ground (arith, all_of_Pow p w),
)

-- A class in front.
abbrev pub headed : (ℕ → Bool) → (Bytes → Bool) → Bytes → Bool
headed p test [] = false
headed p test (c ∷ s) = p c && test s

cons_split : (c d : ℕ) (s u v : Bytes) → c ∷ s ≡ u ++ v → u ≡ d ∷ [] → (c ≡ d) × (s ≡ v)
cons_split c d s [] v e f = ground arith
cons_split c d s (x ∷ u) v e f = ground arith

nil_split : (d : ℕ) (u v : Bytes) → [] ≡ u ++ v → u ≡ d ∷ [] → ⊥
nil_split d [] v e f = ground arith
nil_split d (x ∷ u) v e f = ground arith

pub decide_headed :
    (p : ℕ → Bool) (test : Bytes → Bool) (r : Regex)
    → Decides test r
    → Decides (headed p test) (seq (cls p) r)
decide_headed p test r d [] =
    (λ h. absurd (ground arith), λ (u, v, e, (c, f, h), m). absurd (nil_split c u v e f))
decide_headed p test r d (c ∷ s) = (
  λ h. (
    c ∷ [],
    s,
    refl,
    (c, refl, (and_elim (p c) (test s) h).0),
    (d s).0 (and_elim (p c) (test s) h).1,
  ),
  λ (u, v, e, (x, f, h), m).
      let (same_head, same_tail) = cons_split c x s u v e f in
      and_intro {a = p c} {b = test s} (rw same_head h) (rw same_tail ((d v).1 m)),
)

pub decide_of_eq :
    (test other : Bytes → Bool) (r : Regex)
    → ((s : Bytes) → test s ≡ other s)
    → Decides other r
    → Decides test r
decide_of_eq test other r e d s = (λ h. (d s).0 (sym (e s) ∙ h), λ m. e s ∙ (d s).1 m)

-- A class, then `low` to `high` bytes of another.
abbrev pub class_pattern : (ℕ → Bool) → ℕ → ℕ → (ℕ → Bool) → Regex
class_pattern p low high q = seq (cls p) (rep low high (cls q))

abbrev pub class_test : (ℕ → Bool) → ℕ → ℕ → (ℕ → Bool) → Bytes → Bool
class_test p low high q = headed p (λ s. within low high (length s) && all q s)

pub decide_class :
    (p : ℕ → Bool) (low high : ℕ) (q : ℕ → Bool)
    → Decides (class_test p low high q) (class_pattern p low high q)
decide_class p low high q = decide_headed p _ (rep low high (cls q)) (decide_rep q low high)
