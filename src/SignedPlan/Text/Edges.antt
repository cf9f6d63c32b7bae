-- ===== src/SignedPlan/Text/Edges.antt =====
-- Texts whose first and last bytes are of a narrower class: buckets, image components, labels.
use permanu_agent.Base.{
  is_lower, ℕ, suc, ◌≡◌, refl, ap, ◌∙◌, inl, inr, Bool, true, false, ◌&&◌, [], ◌∷◌, ◌++◌, Option,
  none, some, arith, length, all, is_nil, within, Bytes, and_intro, and_elim, if◌then◌else◌,
}
use permanu_agent.SignedPlan.Text.{
  last_is, bucket, is_edge, is_repo_host, image_component, is_image, host_label, is_host,
}
use permanu_agent.SignedPlan.Text.Regex.{
  Regex, cls, seq, opt, rep, star, Pow-of_all, all_of_Pow, Matches, Decides, decide_rep, headed,
  decide_headed, decide_of_eq, class_pattern, class_test, decide_class,
}

-- All but the last byte, and the last byte.
unfoldable pub unsnoc : Bytes → Option (Bytes × ℕ)
unsnoc [] = none
unsnoc (c ∷ s) = elim (unsnoc s) [ none ↦ some ([], c) | some (i, d) ↦ some (c ∷ i, d) ]

unsnoc-append : (i : Bytes) (d : ℕ) → unsnoc (i ++ d ∷ []) ≡ some (i, d)
unfolding unsnoc
unsnoc-append [] d = refl
unsnoc-append (c ∷ i) d = rw (unsnoc-append i d)

abbrev Unsnoced : Bytes → Option (Bytes × ℕ) → Type 0
Unsnoced s none = s ≡ []
Unsnoced s (some (i, d)) = s ≡ i ++ d ∷ []

unsnoc-Unsnoced : (s : Bytes) → Unsnoced s (unsnoc s)
unfolding unsnoc
unsnoc-Unsnoced [] = refl
unsnoc-Unsnoced (c ∷ s) = go (unsnoc s) (unsnoc-Unsnoced s)
  where
    go :
        (o : Option (Bytes × ℕ))
        → Unsnoced s o
        → Unsnoced (c ∷ s) (elim o [ none ↦ some ([], c) | some (i, d) ↦ some (c ∷ i, d) ])
    go none e = ap (◌∷◌ c) e
    go (some (i, d)) e = ap (◌∷◌ c) e

-- The middle by a test, and a last byte of a class.
abbrev pub ended : (Bytes → Bool) → (ℕ → Bool) → Bytes → Bool
ended mid e s = elim (unsnoc s) [ none ↦ false | some (i, d) ↦ mid i && e d ]

decide_ended :
    (mid : Bytes → Bool) (m : Regex) (e : ℕ → Bool)
    → Decides mid m
    → Decides (ended mid e) (seq m (cls e))
decide_ended mid m e dm s = (forth (unsnoc s) refl, back)
  where
    forth :
        (o : Option (Bytes × ℕ)) → unsnoc s ≡ o → ended mid e s ≡ true → Matches (seq m (cls e)) s
    forth none f h = absurd (let bad : false ≡ true = rw (f, ended) at h in cc)
    forth (some (i, d)) f h =
        let both : (mid i && e d) ≡ true = rw (f, ended) at h in
        let whole : Unsnoced s (some (i, d)) = rw f at (unsnoc-Unsnoced s) in
        (i, d ∷ [], whole, (dm i).0 (and_elim _ _ both).0, (d, refl, (and_elim _ _ both).1))

    back : Matches (seq m (cls e)) s → ended mid e s ≡ true
    back (u, v, f, n, (d, g, h)) =
        let whole : s ≡ u ++ d ∷ [] = f ∙ ap (λ t. u ++ t) g in
        rw whole (rw (unsnoc-append u d, ended) (and_intro ((dm u).1 n) h))

-- `e(m e)?`.
abbrev pub edged_pattern : (ℕ → Bool) → Regex → Regex
edged_pattern e m = seq (cls e) (opt (seq m (cls e)))

decide_opt :
    (test : Bytes → Bool) (r : Regex)
    → Decides test r
    → Decides (λ s. if is_nil s then true else test s) (opt r)
decide_opt test r d [] = (λ h. inl refl, λ m. refl)
decide_opt test r d (c ∷ s) =
    (λ h. inr ((d (c ∷ s)).0 h), elim [ inl e ↦ absurd (ground arith) | inr m ↦ (d (c ∷ s)).1 m ])

abbrev edged_test : (ℕ → Bool) → (Bytes → Bool) → Bytes → Bool
edged_test e mid = headed e (λ s. if is_nil s then true else ended mid e s)

decide_edged :
    (e : ℕ → Bool) (mid : Bytes → Bool) (m : Regex)
    → Decides mid m
    → Decides (edged_test e mid) (edged_pattern e m)
decide_edged e mid m d =
    decide_headed e _ (opt (seq m (cls e)))
      (decide_opt (ended mid e) (seq m (cls e)) (decide_ended mid m e d))

-- What the code asks of the whole text, in terms of all but the last byte and of the last.
abbrev Parts : (ℕ → Bool) → (ℕ → Bool) → Bytes → Option (Bytes × ℕ) → Type 0
Parts q e s none = s ≡ []
Parts q e s (some (i, d)) =
    (all q s ≡ (all q i && q d)) × (last_is e s ≡ e d) × (length s ≡ suc (length i))

unsnoc-Parts : (q e : ℕ → Bool) (s : Bytes) → Parts q e s (unsnoc s)
unfolding unsnoc
unsnoc-Parts q e [] = refl
unsnoc-Parts q e (c ∷ []) = (ground arith, refl, refl)
unsnoc-Parts q e (c ∷ x ∷ s) = go (unsnoc (x ∷ s)) (unsnoc-Parts q e (x ∷ s))
  where
    go :
        (o : Option (Bytes × ℕ))
        → Parts q e (x ∷ s) o
        → Parts q e (c ∷ x ∷ s) (elim o [ none ↦ some ([], c) | some (i, d) ↦ some (c ∷ i, d) ])
    go none p = absurd (ground arith)
    go (some (i, d)) p = (ground arith, p.1, ground arith)

module _ (e q : ℕ → Bool) (weaker : (c : ℕ) → e c ≡ true → q c ≡ true) where
  -- The code's tests of a text of two bytes or more, by its ends and its middle.
  edged_eq :
      (c x : ℕ) (s : Bytes)
      → (e c && last_is e (c ∷ x ∷ s) && all q (c ∷ x ∷ s)) ≡ (e c && ended (all q) e (x ∷ s))
  edged_eq c x s = go (unsnoc (x ∷ s)) refl (unsnoc-Parts q e (x ∷ s))
    where
      go :
          (o : Option (Bytes × ℕ))
          → unsnoc (x ∷ s) ≡ o
          → Parts q e (x ∷ s) o
          → (e c && last_is e (c ∷ x ∷ s) && all q (c ∷ x ∷ s)) ≡ (e c && ended (all q) e (x ∷ s))
      go none f p = absurd (ground arith)
      go (some (i, d)) f p = rw (f, ended) (ground (arith, weaker c, weaker d))

  -- The same with bounds on the length of the middle.
  bounded_eq :
      (low high c x : ℕ) (s : Bytes)
      → (within (suc (suc low)) (suc (suc high)) (length (c ∷ x ∷ s))
          && e c
          && last_is e (c ∷ x ∷ s)
          && all q (c ∷ x ∷ s))
        ≡ (e c && ended (λ t. within low high (length t) && all q t) e (x ∷ s))
  bounded_eq low high c x s = go (unsnoc (x ∷ s)) refl (unsnoc-Parts q e (x ∷ s))
    where
      go :
          (o : Option (Bytes × ℕ))
          → unsnoc (x ∷ s) ≡ o
          → Parts q e (x ∷ s) o
          → (within (suc (suc low)) (suc (suc high)) (length (c ∷ x ∷ s))
              && e c
              && last_is e (c ∷ x ∷ s)
              && all q (c ∷ x ∷ s))
            ≡ (e c && ended (λ t. within low high (length t) && all q t) e (x ∷ s))
      go none f p = absurd (ground arith)
      go (some (i, d)) f p = rw (f, ended) (ground (arith, weaker c, weaker d))

edge_is_image : (c : ℕ) → is_edge c ≡ true → is_image c ≡ true
unfolding is_image
edge_is_image c h = ground arith

edge_is_repo_host : (c : ℕ) → is_edge c ≡ true → is_repo_host c ≡ true
unfolding is_repo_host
edge_is_repo_host c h = ground arith

edge_is_host : (c : ℕ) → is_edge c ≡ true → is_host c ≡ true
unfolding is_host
edge_is_host c h = ground arith

decide_star : (p : ℕ → Bool) → Decides (all p) (star (cls p))
decide_star p s = (λ h. (length s, Pow-of_all p s h), λ (n, w). (all_of_Pow p w).1)

-- `[a-z0-9]([a-z0-9._-]*[a-z0-9])?`.
abbrev pub component_pattern : Regex
component_pattern = edged_pattern is_edge (star (cls is_image))

image_component-edged : (s : Bytes) → image_component s ≡ edged_test is_edge (all is_image) s
unfolding image_component
image_component-edged [] = refl
image_component-edged (c ∷ []) = ground (arith, edge_is_image c)
image_component-edged (c ∷ x ∷ s) = ground (arith, edged_eq is_edge is_image edge_is_image c x s)

pub image_component-Decides : Decides image_component component_pattern
image_component-Decides =
    decide_of_eq image_component _ component_pattern image_component-edged
      (decide_edged is_edge (all is_image) (star (cls is_image)) (decide_star is_image))

-- `[a-z0-9][a-z0-9.-]{1,61}[a-z0-9]`.
abbrev pub bucket_pattern : Regex
bucket_pattern = seq (cls is_edge) (seq (rep 1 61 (cls is_repo_host)) (cls is_edge))

abbrev bucket_mid : Bytes → Bool
bucket_mid s = within 1 61 (length s) && all is_repo_host s

bucket-edged : (s : Bytes) → bucket s ≡ headed is_edge (ended bucket_mid is_edge) s
unfolding bucket unsnoc
bucket-edged [] = refl
bucket-edged (c ∷ []) = ground arith
bucket-edged (c ∷ x ∷ s) =
    ground (arith, bounded_eq is_edge is_repo_host edge_is_repo_host 1 61 c x s)

pub bucket-Decides : Decides bucket bucket_pattern
bucket-Decides = decide_of_eq bucket _ bucket_pattern bucket-edged (
    decide_headed is_edge _ (seq (rep 1 61 (cls is_repo_host)) (cls is_edge)) (
      decide_ended bucket_mid (rep 1 61 (cls is_repo_host)) is_edge (decide_rep is_repo_host 1 61)))

-- `[a-z0-9]([a-z0-9-]{0,61}[a-z0-9])?`.
abbrev pub label_pattern : Regex
label_pattern = edged_pattern is_edge (rep 0 61 (cls is_host))

abbrev label_mid : Bytes → Bool
label_mid s = within 0 61 (length s) && all is_host s

host_label-edged : (s : Bytes) → host_label s false ≡ edged_test is_edge label_mid s
unfolding host_label
host_label-edged [] = refl
host_label-edged (c ∷ []) = ground (arith, edge_is_host c)
host_label-edged (c ∷ x ∷ s) = ground (arith, bounded_eq is_edge is_host edge_is_host 0 61 c x s)

pub label-Decides : Decides (λ s. host_label s false) label_pattern
label-Decides =
    decide_of_eq (λ s. host_label s false) _ label_pattern host_label-edged
      (decide_edged is_edge label_mid (rep 0 61 (cls is_host)) (decide_rep is_host 0 61))

-- `[a-z][a-z0-9-]{0,62}`.
abbrev pub final_label_pattern : Regex
final_label_pattern = class_pattern is_lower 0 62 is_host

final-class_test : (s : Bytes) → host_label s true ≡ class_test is_lower 0 62 is_host s
unfolding host_label is_host is_edge
final-class_test [] = refl
final-class_test (c ∷ s) = ground arith

pub final_label-Decides : Decides (λ s. host_label s true) final_label_pattern
final_label-Decides =
    decide_of_eq (λ s. host_label s true) _ final_label_pattern final-class_test
      (decide_class is_lower 0 62 is_host)
