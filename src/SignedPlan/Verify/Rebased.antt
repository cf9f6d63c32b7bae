-- ===== src/SignedPlan/Verify/Rebased.antt =====
-- Specifications that differ in one member (src/signed_plan/verify.rs): what the comparison of step
-- 12 gives.
use permanu_agent.SignedPlan.Schema.Shapes.{only_names, AreFound, AreDistinct}
use permanu_agent.Base.Map.{insert-IsMap, lookup-insert, insert, IsMap, Map, lookup}
use permanu_agent.SignedPlan.Strict.Unique.{HasUniqueKeys}
use permanu_agent.SignedPlan.Verify.RulePlans.{rebased}
use permanu_agent.SignedPlan.Value.{
  null, array, members_Members_of, string, float, index, integer, get, bool, object, members,
  Members_of, Members, as_object, Value, same_value, same_members,
}
use mathlib.Core.Option.{some-injective}
use permanu_agent.Base.{
  [], if◌then◌else◌, refl, same_iff, ==_iff, inl, inr, Bool-cases, is_some_and-eq_true, and_then,
  ◌==◌, ap, Option-cases, sym, is_some_and, and_elim, arith, subst, ◌∙◌, some, ◌∷◌, length, none,
  true, is_some, false, ◌≡◌, List, same, contains, map, Option, Bytes,
}

-- Two members are equal values, or neither is there.
abbrev pub AreAlike : Option Value → Option Value → Type 0
AreAlike none none = Unit
AreAlike (some v) (some w) = same_value v w ≡ true
AreAlike _ _ = ⊥

-- The members of two values are alike, but for one.
abbrev pub DifferOnly : Bytes → Value → Value → Type 0
DifferOnly field new base =
    (key : Bytes) → same field key ≡ false → AreAlike (get key new) (get key base)

abbrev keys_in : Map Value → List Bytes
keys_in m = map (λ entry. entry.0) m

contains-keys_in : (k : Bytes) (m : Map Value) → contains k (keys_in m) ≡ is_some (lookup k m)
unfolding contains lookup
contains-keys_in k [] = refl
contains-keys_in k ((j, v) ∷ m) = ground (arith, contains-keys_in k m)

keys_in-AreDistinct : (m : Map Value) → IsMap m → AreDistinct (keys_in m)
keys_in-AreDistinct [] h = tt
keys_in-AreDistinct ((k, v) ∷ m) h =
    (contains-keys_in k m ∙ ap is_some h.0, keys_in-AreDistinct m h.1)

same_members-found :
    (m b : Map Value) → same_members (Members_of m) b ≡ true → AreFound (keys_in m) b
unfolding same_members
same_members-found [] b h = tt
same_members-found ((k, v) ∷ m) b h =
    let (here, later) =
      and_elim (is_some_and (same_value v) (lookup k b)) (same_members (Members_of m) b) h in
    let (w, e, s) = is_some_and-eq_true (same_value v) (lookup k b) here in
    (ap is_some e, same_members-found m b later)

same_members-at :
    (m b : Map Value) (k : Bytes) {v : Value}
    → same_members (Members_of m) b ≡ true
    → lookup k m ≡ some v
    → AreAlike (some v) (lookup k b)
unfolding same_members lookup
same_members-at [] b k h e = absurd (ground arith)
same_members-at ((j, u) ∷ m) b k {v = v} h e =
    let (here, later) =
      and_elim (is_some_and (same_value u) (lookup j b)) (same_members (Members_of m) b) h in
    elim (Bool-cases (same j k)) [
      | inl s ↦
          let same_key : j ≡ k = (same_iff j k).0 s in
          let same_entry : some u ≡ some v =
            sym (ap (λ b. if b then some u else lookup k m) s) ∙ e in
          let (w, f, t) = is_some_and-eq_true (same_value u) (lookup j b) here in
          subst (AreAlike (some v)) (sym f ∙ ap (λ i. lookup i b) same_key)
            (ap (λ x. same_value x w) (some-injective v u (sym same_entry)) ∙ t)
      | inr s ↦ same_members-at m b k later (sym (ap (λ b. if b then some u else lookup k m) s) ∙ e)
    ]

-- As many members, each of the first found in the second: no other stands in the second.
objects_alike :
    (m b : Map Value) (k : Bytes)
    → IsMap m
    → length m ≡ length b
    → same_members (Members_of m) b ≡ true
    → AreAlike (lookup k m) (lookup k b)
objects_alike m b k u size h = elim (Option-cases (lookup k m)) [
  | inr (v, e) ↦ subst (λ o. AreAlike o (lookup k b)) (sym e) (same_members-at m b k h e)
  | inl e ↦ elim (Option-cases (lookup k b)) [
    | inl f ↦ subst (λ o. AreAlike o (lookup k b)) (sym e) (subst (AreAlike none) (sym f) tt)
    | inr (w, f) ↦
        let listed =
          only_names (keys_in m) b k (keys_in-AreDistinct m u) (same_members-found m b h)
            (sym size ∙ length-keys_in m) (ap is_some f) in
        let missing : contains k (keys_in m) ≡ false = contains-keys_in k m ∙ ap is_some e in
        absurd (ground arith)
  ]
]
  where
    length-keys_in : (m : Map Value) → length m ≡ length (keys_in m)
    length-keys_in [] = refl
    length-keys_in (x ∷ m) = omega (arith, length-keys_in m)

not_object : (v w : Value) → as_object v ≡ none → same_value v w ≡ true → as_object w ≡ none
unfolding same_value
not_object v null e h = refl
not_object v (bool b) e h = refl
not_object v (integer z) e h = refl
not_object v (float t) e h = refl
not_object v (string t) e h = refl
not_object v (array xs) e h = refl
not_object null (object ms) e h = cc
not_object (bool b) (object ms) e h = cc
not_object (integer z) (object ms) e h = cc
not_object (float t) (object ms) e h = cc
not_object (string t) (object ms) e h = cc
not_object (array xs) (object ms) e h = cc
not_object (object ns) (object ms) e h = cc

flat_alike :
    (v w : Value) (k : Bytes)
    → as_object v ≡ none
    → same_value v w ≡ true
    → AreAlike (get k v) (get k w)
flat_alike v w k e h =
    subst (λ o. AreAlike o (get k w)) (sym (ap (λ o. and_then o (λ m. lookup k m)) e))
      (subst (AreAlike none) (sym (ap (λ o. and_then o (λ m. lookup k m)) (not_object v w e h))) tt)

object_alike :
    (field : Bytes) (new : Value) (ms : Members) (base : Value)
    → IsMap (members ms)
    → same_value (object (Members_of (insert field new (members ms)))) base ≡ true
    → DifferOnly field (object ms) base
unfolding same_value
object_alike field new ms (object bs) u h k other =
    let m = insert field new (members ms) in
    let (size, each) =
      and_elim (length (members (Members_of m)) == length (members bs))
        (same_members (Members_of m) (members bs)) h in
    let size_same : length m ≡ length (members bs) =
      ap length (sym (members_Members_of m))
      ∙ (==_iff (length (members (Members_of m))) (length (members bs))).0 size in
    subst (λ o. AreAlike o (lookup k (members bs)))
      (lookup-insert field k new (members ms)
        ∙ ap (λ b. if b then some new else lookup k (members ms)) other)
      (objects_alike m (members bs) k (insert-IsMap field new (members ms) u) size_same each)
object_alike field new ms null u h k other = cc
object_alike field new ms (bool b) u h k other = cc
object_alike field new ms (integer z) u h k other = cc
object_alike field new ms (float t) u h k other = cc
object_alike field new ms (string t) u h k other = cc
object_alike field new ms (array xs) u h k other = cc

pub rebased-DifferOnly :
    (field : Bytes) (new base : Value)
    → HasUniqueKeys new
    → same_value (rebased field new base) base ≡ true
    → DifferOnly field new base
unfolding rebased HasUniqueKeys
rebased-DifferOnly field (object ms) base u h k other =
    object_alike field (index base field) ms base u.0 h k other
rebased-DifferOnly field null base u h k other = flat_alike null base k refl h
rebased-DifferOnly field (bool b) base u h k other = flat_alike (bool b) base k refl h
rebased-DifferOnly field (integer z) base u h k other = flat_alike (integer z) base k refl h
rebased-DifferOnly field (float t) base u h k other = flat_alike (float t) base k refl h
rebased-DifferOnly field (string t) base u h k other = flat_alike (string t) base k refl h
rebased-DifferOnly field (array xs) base u h k other = flat_alike (array xs) base k refl h
