-- ===== src/SignedPlan/Text/Split.antt =====
-- `split` and `split_once`, and the patterns that they decide.
use mathlib.Core.List.{append-nil}
use permanu_agent.Base.{
  all-append, ℕ, suc, ◌≡◌, refl, sym, ap, ◌∙◌, inl, inr, Bool, true, false, not, List, [], ◌∷◌,
  ◌++◌, arith, length, all, ◌==◌, ==_self, Bytes, Bool-cases, and_intro, and_elim, split,
}
use permanu_agent.SignedPlan.Text.{head_and_parts}
use permanu_agent.SignedPlan.Text.Regex.{
  Regex, lit, seq, rep, Pow, none_left, one_more, Matches, Decides,
}

abbrev pub lacks : ℕ → Bytes → Bool
lacks sep s = all (λ c. not (c == sep)) s

-- The parts of a text, each behind a separator.
unfoldable pub joined : ℕ → List Bytes → Bytes
joined sep [] = []
joined sep (p ∷ ps) = sep ∷ (p ++ joined sep ps)

unfoldable pub glue : ℕ → List Bytes → Bytes
unfolding joined
glue sep [] = []
glue sep (p ∷ ps) = p ++ joined sep ps

pub split_cons : (sep : ℕ) (s : Bytes) → (p : Bytes) × (ps : List Bytes) × (split sep s ≡ p ∷ ps)
unfolding split
split_cons sep [] = ([], [], refl)
split_cons sep (c ∷ cs) =
    let (q, qs, e) = split_cons sep cs in
    elim (Bool-cases (c == sep)) [
      | inl h ↦ ([], q ∷ qs, rw (h, e) refl)
      | inr h ↦ (c ∷ q, qs, rw (h, e) refl)
    ]

-- Gluing the parts gives the text back.
pub glue-split : (sep : ℕ) (s : Bytes) → glue sep (split sep s) ≡ s
unfolding glue split
glue-split sep [] = refl
glue-split sep (c ∷ cs) = let (q, qs, e) = split_cons sep cs in ground (arith, e, glue-split sep cs)

split-lacks : (sep : ℕ) (u : Bytes) → lacks sep u ≡ true → split sep u ≡ u ∷ []
unfolding split
split-lacks sep [] h = refl
split-lacks sep (c ∷ u) h = ground (arith, split-lacks sep u)

split-append :
    (sep : ℕ) (u v : Bytes) → lacks sep u ≡ true → split sep (u ++ (sep ∷ v)) ≡ u ∷ split sep v
unfolding split
split-append sep [] v h = rw (==_self sep)
split-append sep (c ∷ u) v h = ground (arith, split-append sep u v)

-- Splitting glued parts gives the parts back.
pub split-glue :
    (sep : ℕ) (p : Bytes) (ps : List Bytes)
    → lacks sep p ≡ true
    → all (lacks sep) ps ≡ true
    → split sep (p ++ joined sep ps) ≡ p ∷ ps
unfolding joined
split-glue sep p [] h hs = rw append-nil (split-lacks sep p h)
split-glue sep p (q ∷ qs) h hs =
    split-append sep p (q ++ joined sep qs) h
    ∙ ap (◌∷◌ p) (split-glue sep q qs (and_elim _ _ hs).0 (and_elim _ _ hs).1)

-- A test whose texts have no separator.
abbrev pub Lacks : ℕ → (Bytes → Bool) → Type 0
Lacks sep test = (s : Bytes) → test s ≡ true → lacks sep s ≡ true

lacks-all :
    (sep : ℕ) (test : Bytes → Bool) (ps : List Bytes)
    → Lacks sep test
    → all test ps ≡ true
    → all (lacks sep) ps ≡ true
lacks-all sep test [] l h = refl
lacks-all sep test (p ∷ ps) l h =
    and_intro (l p (and_elim _ _ h).0) (lacks-all sep test ps l (and_elim _ _ h).1)

joined-lacks :
    (sep c : ℕ) (parts : List Bytes)
    → (sep == c) ≡ false
    → all (lacks c) parts ≡ true
    → lacks c (joined sep parts) ≡ true
unfolding joined
joined-lacks sep c [] e h = refl
joined-lacks sep c (p ∷ parts) e h =
    let (h1, h2) = and_elim (lacks c p) _ h in
    ground
      (arith, all-append (λ x. not (x == c)) p (joined sep parts), joined-lacks sep c parts e h2)

-- A byte that is in no part and is not the separator is not in the text.
pub lacks_of_parts :
    (sep c : ℕ) (test : Bytes → Bool) (s : Bytes)
    → (sep == c) ≡ false
    → Lacks c test
    → all test (split sep s) ≡ true
    → lacks c s ≡ true
lacks_of_parts sep c test s e l h =
    let (p, ps, f) = split_cons sep s in
    let parts : all (lacks c) (p ∷ ps) ≡ true = lacks-all c test (p ∷ ps) l (rw f at h) in
    let whole : s ≡ p ++ joined sep ps = sym (glue-split sep s) ∙ unfold glue in rw f in
    rw whole (
      ground (
        arith,
        all-append (λ x. not (x == c)) p (joined sep ps),
        joined-lacks sep c ps e (and_elim (lacks c p) _ parts).1,
      ))

module _ (sep : ℕ) (part : Bytes → Bool) (r : Regex) (d : Decides part r) where
  joined-Pow :
      (ps : List Bytes)
      → all part ps ≡ true
      → Pow (Matches (seq (lit sep) r)) (length ps) (joined sep ps)
  unfolding joined
  joined-Pow [] h = none_left refl
  joined-Pow (p ∷ ps) h =
      one_more {u = sep ∷ p} refl (sep ∷ [], p, refl, refl, (d p).0 (and_elim _ _ h).0)
        (joined-Pow ps (and_elim _ _ h).1)

  parts_of_Pow :
      {n : ℕ} {s : Bytes}
      → Pow (Matches (seq (lit sep) r)) n s
      → (ps : List Bytes) × (s ≡ joined sep ps) × (length ps ≡ n) × (all part ps ≡ true)
  unfolding joined
  parts_of_Pow (none_left e) = ([], e, refl, refl)
  parts_of_Pow (one_more {v = v} e (a, p, e', f, m) rest) =
      let (ps, e'', l, h) = parts_of_Pow rest in
      (p ∷ ps, e ∙ ground (arith, e', f, e''), ap suc l, and_intro ((d p).1 m) h)

-- One text, then `low` to `high` others, each behind a separator.
abbrev pub parts_pattern : ℕ → Regex → ℕ → ℕ → Regex → Regex
parts_pattern sep head low high r = seq head (rep low high (seq (lit sep) r))

pub decide_parts :
    (sep : ℕ) (head : Bytes → Bool) (h : Regex) (low high : ℕ) (part : Bytes → Bool) (r : Regex)
    → Decides head h
    → Decides part r
    → Lacks sep head
    → Lacks sep part
    → Decides
        (λ s. head_and_parts head low high part (split sep s))
        (parts_pattern sep h low high r)
unfolding head_and_parts
decide_parts sep head h low high part r dh dp lh lp s = (forth, back)
  where
    forth :
        head_and_parts head low high part (split sep s) ≡ true
        → Matches (parts_pattern sep h low high r) s
    forth e =
        let (p, ps, f) = split_cons sep s in
        let accepted : head_and_parts head low high part (p ∷ ps) ≡ true = rw f at e in
        (
          p,
          joined sep ps,
          sym (glue-split sep s) ∙ unfold glue in rw f,
          (dh p).0 (ground arith),
          (length ps, ground arith, ground arith, joined-Pow sep part r dp ps (ground arith)),
        )

    back :
        Matches (parts_pattern sep h low high r) s
        → head_and_parts head low high part (split sep s) ≡ true
    back (u, v, e, m, (n, l, g, w)) =
        let (ps, f, k, a) = parts_of_Pow sep part r dp w in
        let ok_head : head u ≡ true = (dh u).1 m in
        let parts : split sep s ≡ u ∷ ps =
          ap (split sep) (e ∙ ap (λ t. u ++ t) f)
          ∙ split-glue sep u ps (lh u ok_head) (lacks-all sep part ps lp a) in
        rw parts (ground arith)
