-- ===== src/SignedPlan/Text/SplitOnce.antt =====
-- `split_once`, and the patterns with an optional second half.
use mathlib.Core.List.{append-nil}
use permanu_agent.Base.{
  ℕ, ◌≡◌, refl, sym, ap, ◌∙◌, inl, inr, Bool, true, false, ◌&&◌, [], ◌∷◌, ◌++◌, Option, none, some,
  arith, ◌==◌, ==_self, Bytes, Bool-cases, and_intro, and_elim, split_once, cons_fst,
}
use permanu_agent.SignedPlan.Text.Regex.{Regex, lit, seq, opt, Matches, Decides}
use permanu_agent.SignedPlan.Text.Split.{lacks, Lacks}

-- The first separator, if there is one, parts the text.
abbrev pub Parted : ℕ → Bytes → Option (Bytes × Bytes) → Type 0
Parted sep s none = lacks sep s ≡ true
Parted sep s (some (a, b)) = (s ≡ a ++ (sep ∷ b)) × (lacks sep a ≡ true)

cons-Parted :
    (sep c : ℕ) (s : Bytes) (o : Option (Bytes × Bytes))
    → (c == sep) ≡ false
    → Parted sep s o
    → Parted sep (c ∷ s) (cons_fst c o)
cons-Parted sep c s none h p = ground arith
cons-Parted sep c s (some (a, b)) h p = (ap (◌∷◌ c) p.0, ground arith)

pub split_once-Parted : (sep : ℕ) (s : Bytes) → Parted sep s (split_once sep s)
unfolding split_once
split_once-Parted sep [] = refl
split_once-Parted sep (c ∷ s) = elim (Bool-cases (c == sep)) [
  | inl h ↦ rw h (ground arith)
  | inr h ↦ rw h (cons-Parted sep c s (split_once sep s) h (split_once-Parted sep s))
]

pub split_once-lacks : (sep : ℕ) (s : Bytes) → lacks sep s ≡ true → split_once sep s ≡ none
unfolding split_once
split_once-lacks sep [] h = refl
split_once-lacks sep (c ∷ s) h = ground (arith, split_once-lacks sep s)

pub split_once-append :
    (sep : ℕ) (a b : Bytes) → lacks sep a ≡ true → split_once sep (a ++ (sep ∷ b)) ≡ some (a, b)
unfolding split_once
split_once-append sep [] b h = rw (==_self sep)
split_once-append sep (c ∷ a) b h = ground (arith, split_once-append sep a b)

-- The match on `split_once`: one test of the whole, or one of the halves.
abbrev pub once : ℕ → (Bytes → Bool) → (Bytes → Bytes → Bool) → Bytes → Bool
once sep whole halves s = elim (split_once sep s) [ none ↦ whole s | some (a, b) ↦ halves a b ]

pub decide_once :
    (sep : ℕ) (left right : Bytes → Bool) (l r : Regex)
    → Decides left l
    → Decides right r
    → Lacks sep left
    → Decides (once sep left (λ a b. left a && right b)) (seq l (opt (seq (lit sep) r)))
decide_once sep left right l r dl dr ll s = (forth (split_once sep s) refl, back)
  where
    forth :
        (o : Option (Bytes × Bytes))
        → split_once sep s ≡ o
        → once sep left (λ a b. left a && right b) s ≡ true
        → Matches (seq l (opt (seq (lit sep) r))) s
    forth none e h = (s, [], sym (append-nil s), (dl s).0 (rw (e, once) at h), inl refl)
    forth (some (a, b)) e h =
        let both : (left a && right b) ≡ true = rw (e, once) at h in
        let parted : Parted sep s (some (a, b)) = rw e at (split_once-Parted sep s) in
        (
          a,
          sep ∷ b,
          parted.0,
          (dl a).0 (and_elim _ _ both).0,
          inr (sep ∷ [], b, refl, refl, (dr b).0 (and_elim _ _ both).1),
        )

    back :
        Matches (seq l (opt (seq (lit sep) r))) s
        → once sep left (λ a b. left a && right b) s ≡ true
    back (u, v, e, m, inl f) =
        let ok_left : left u ≡ true = (dl u).1 m in
        let whole : s ≡ u = e ∙ ap (λ t. u ++ t) f ∙ append-nil u in
        rw whole (rw (split_once-lacks sep u (ll u ok_left), once) ok_left)
    back (u, v, e, m, inr (a, b, f, g, n)) =
        let ok_left : left u ≡ true = (dl u).1 m in
        let whole : s ≡ u ++ (sep ∷ b) = e ∙ ap (λ t. u ++ t) (f ∙ ap (λ t. t ++ b) g) in
        rw whole
          (rw (split_once-append sep u b (ll u ok_left), once) (and_intro ok_left ((dr b).1 n)))
