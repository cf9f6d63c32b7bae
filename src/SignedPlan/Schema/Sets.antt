-- ===== src/SignedPlan/Schema/Sets.antt =====
-- What the sets of src/signed_plan/schema.rs accept.
use permanu_agent.Base.{
  ℕ, ◌≤◌, ◌≡◌, refl, true, false, not, ◌||◌, List, [], ◌∷◌, none, some, if◌then◌else◌, length, all,
  All, within, arith, Bytes, and_elim, Option-cases, inl, inr,
}
use permanu_agent.SignedPlan.Crypto.{Codec}
use permanu_agent.SignedPlan.Value.{Value, array, items, as_array}
use permanu_agent.SignedPlan.Schema.{
  Shape, set_of, check, check_set, collect_str, increasing, ltb_bytes,
}

ltb_bytes_trans :
    (a b c : Bytes) → ltb_bytes a b ≡ true → ltb_bytes b c ≡ true → ltb_bytes a c ≡ true
unfolding ltb_bytes
ltb_bytes_trans [] b [] p q = ground arith
ltb_bytes_trans [] b (z ∷ c) p q = refl
ltb_bytes_trans (x ∷ a) [] c p q = ground arith
ltb_bytes_trans (x ∷ a) (y ∷ b) [] p q = ground arith
ltb_bytes_trans (x ∷ a) (y ∷ b) (z ∷ c) p q = ground (arith, ltb_bytes_trans a b c)

pub ltb_bytes_irrefl : (a : Bytes) → ltb_bytes a a ≡ false
unfolding ltb_bytes
ltb_bytes_irrefl [] = refl
ltb_bytes_irrefl (x ∷ a) = ground (arith, ltb_bytes_irrefl a)

-- Every text is before all that stand after it: the texts are sorted, and no text stands twice.
abbrev pub AreSorted : List Bytes → Type 0
AreSorted [] = Unit
AreSorted (s ∷ ss) = All (λ t. ltb_bytes s t ≡ true) ss × AreSorted ss

before-All :
    (a b : Bytes) (ss : List Bytes)
    → ltb_bytes a b ≡ true
    → All (λ t. ltb_bytes b t ≡ true) ss
    → All (λ t. ltb_bytes a t ≡ true) ss
before-All a b [] h f = tt
before-All a b (s ∷ ss) h (f, fs) = (ltb_bytes_trans a b s h f, before-All a b ss h fs)

increasing-AreSorted : (ss : List Bytes) → increasing ltb_bytes ss ≡ true → AreSorted ss
unfolding increasing
increasing-AreSorted [] h = tt
increasing-AreSorted (s ∷ []) h = (tt, tt)
increasing-AreSorted (s ∷ t ∷ ss) h =
    let (first, rest) = and_elim (ltb_bytes s t) (increasing ltb_bytes (t ∷ ss)) h in
    let sorted = increasing-AreSorted (t ∷ ss) rest in
    ((first, before-All s t ss first sorted.0), sorted)

AreSorted-increasing : (ss : List Bytes) → AreSorted ss → increasing ltb_bytes ss ≡ true
unfolding increasing
AreSorted-increasing [] h = refl
AreSorted-increasing (s ∷ []) h = refl
AreSorted-increasing (s ∷ t ∷ ss) ((f, fs), h) = ground (arith, f, AreSorted-increasing (t ∷ ss) h)

-- The items are the texts, one for one.
abbrev pub AreTexts : List Value → List Bytes → Type 0
AreTexts xs ss = collect_str xs ≡ some ss

-- A set of 1 to n sorted texts that the shape of the items accepts.
pub record IsSortedSet (codec : Codec) (inner : Shape) (low high : ℕ) (v : Value) : Type 0 where
  pub values : List Value
  pub is_array : as_array v ≡ some values
  pub size : (low ≤ length values) × (length values ≤ high)
  pub accepted : all (check codec inner) values ≡ true
  pub strings : List Bytes
  pub are_texts : AreTexts values strings
  pub sorted : AreSorted strings

set_forth :
    (codec : Codec) (inner : Shape) (low high : ℕ) (v : Value) (xs : List Value)
    → as_array v ≡ some xs
    → (if not (within low high (length xs)) || not (all (check codec inner) xs)
        then false
        else elim (collect_str xs) [ none ↦ false | some strings ↦ increasing ltb_bytes strings ])
      ≡ true
    → IsSortedSet codec inner low high v
set_forth codec inner low high v xs e h = elim (Option-cases (collect_str xs)) [
  | inl f ↦ absurd (ground arith)
  | inr (ss, f) ↦ record {
    values = xs;
    is_array = e;
    size = ground arith;
    accepted = ground arith;
    strings = ss;
    are_texts = f;
    sorted = increasing-AreSorted ss (ground arith);
  }
]

-- A set is accepted exactly when it is an array whose size is within the bounds, whose items the
-- shape of the items accepts, and whose items are texts, each before all that follow it.
pub check-set :
    (codec : Codec) (inner : Shape) (low high : ℕ) (v : Value)
    → (check codec (set_of inner low high) v ≡ true → IsSortedSet codec inner low high v)
      × (IsSortedSet codec inner low high v → check codec (set_of inner low high) v ≡ true)
unfolding check check_set
check-set codec inner low high v = (forth v, back v)
  where
    forth :
        (v : Value)
        → check codec (set_of inner low high) v ≡ true
        → IsSortedSet codec inner low high v
    forth (array xs) h = set_forth codec inner low high (array xs) (items xs) refl h
    forth _ h = absurd (ground arith)

    back :
        (v : Value)
        → IsSortedSet codec inner low high v
        → check codec (set_of inner low high) v ≡ true
    back (array xs) s =
        let e : items xs ≡ s.values = ground (arith, s.is_array) in
        rw (e, s.are_texts)
          (ground (arith, s.size, s.accepted, AreSorted-increasing s.strings s.sorted))
    back _ s = absurd (ground (arith, s.is_array))
