-- ===== src/SignedPlan/Trust/Spread.antt =====
-- The order in which the keys of a trust store were added, and what it does to a compromise
-- (src/signed_plan/trust.rs).
use permanu_agent.SignedPlan.Trust.Loading.{load_key-Loads, validate_trust-IsValidated, Loads}
use permanu_agent.SignedPlan.Value.{
  Value, index, is_null, null, object, array, string, float, integer, bool,
}
use permanu_agent.Base.Map.{empty_map, Map, lookup, contains_key, insert, lookup-insert}
use permanu_agent.SignedPlan.Trust.Ancestry.{
  load_key-IsTraced, link, signed_by_owner-IsSigned, AddedBy, root, Ancestry, IsTraced,
}
use permanu_agent.SignedPlan.Trust.Cascade.{extend_adds, cascade-closed, IsOrdered}
use permanu_agent.SignedPlan.Trust.{
  load_key, no_keys, validate_trust, TrustStore, cascade, load_keys, as_str, is_owner, adder,
  is_root, is_added, TrustedKey, parent_of, Loaded, TrustMode,
}
use permanu_agent.SignedPlan.Crypto.{Crypto}
use permanu_agent.Base.{
  bind-eq_ok, ok_inj, and_then-eq_some, ok, subst, and_elim, and_then, unwrap_or, same_iff,
  Bool-cases, ap, Option-cases, refl, ◌∙◌, is_some, sym, same_self, arith, same, ◌||◌, contains, ℕ,
  suc, true, false, List, [], ◌∷◌, ◌++◌, Option, none, some, ◌≡◌, Bytes, codes, inl, inr, ◌⊎◌,
}

contains-snoc :
    (p id : Bytes) (order : List Bytes)
    → contains p order ≡ false
    → same id p ≡ false
    → contains p (order ++ (id ∷ [])) ≡ false
unfolding contains
contains-snoc p id [] h n = ground arith
contains-snoc p id (x ∷ order) h n = ground (arith, contains-snoc p id order)

snoc-contains :
    (p id : Bytes) (order : List Bytes)
    → contains p (order ++ (id ∷ [])) ≡ (contains p order || same id p)
unfolding contains
snoc-contains p id [] = ground arith
snoc-contains p id (x ∷ order) = ground (arith, snoc-contains p id order)

snoc-IsOrdered :
    (f g : Bytes → Option Bytes) (order : List Bytes) (id : Bytes)
    → IsOrdered f order
    → ((y : Bytes) → contains y order ≡ true → g y ≡ f y)
    → ((y p : Bytes) → contains y order ≡ true → f y ≡ some p → same id p ≡ false)
    → ((p : Bytes) → g id ≡ some p → same id p ≡ false)
    → IsOrdered g (order ++ (id ∷ []))
unfolding contains
snoc-IsOrdered f g [] id o agree earlier own = (λ p e. contains-snoc p id [] refl (own p e), tt)
snoc-IsOrdered f g (x ∷ order) id o agree earlier own =
    let here : contains x (x ∷ order) ≡ true = ground (arith, same_self x) in
    (
      λ p e.
          let e' : f x ≡ some p = sym (agree x here) ∙ e in
          contains-snoc p id (x ∷ order) (o.0 p e') (earlier x p here e'),
      snoc-IsOrdered f g order id o.1 (λ y m. agree y (ground arith))
          (λ y p m e. earlier y p (ground arith) e) own,
    )

is_null-eq : (v : Value) → is_null v ≡ true → v ≡ null
is_null-eq null h = refl
is_null-eq (bool b) h = cc
is_null-eq (integer z) h = cc
is_null-eq (float s) h = cc
is_null-eq (string s) h = cc
is_null-eq (array xs) h = cc
is_null-eq (object ms) h = cc

some_inj : {A : Type 0} {a b : A} → ◌≡◌ {A = Option A} (some a) (some b) → a ≡ b
some_inj {a = a} h = ap (unwrap_or a) h

root_alone :
    {P : Type 0} (entry : Value) (p : Bytes) → is_root entry ≡ true → adder entry ≡ some p → P
unfolding is_root adder
root_alone entry p r h =
    let nobody = is_null-eq (index entry (codes "added_by")) (and_elim _ (is_owner entry) r).0 in
    let none_added : adder entry ≡ none = ap (λ v. as_str (index v (codes "key_id"))) nobody in cc

-- Two keys of a map are apart when the map has one and lacks the other.
apart :
    (keys : Map TrustedKey) (id p : Bytes)
    → lookup id keys ≡ none
    → is_some (lookup p keys) ≡ true
    → same id p ≡ false
apart keys id p fresh held = elim (Bool-cases (same id p)) [
  | inl e ↦
      let is_p : id ≡ p = (same_iff id p).0 e in
      let lost : lookup p keys ≡ none = ap (λ k. lookup k keys) (sym is_p) ∙ fresh in
      let empty : is_some (lookup p keys) ≡ false = ap is_some lost in cc
  | inr e ↦ e
]

held_key :
    (keys : Map TrustedKey) (id : Bytes)
    → is_some (lookup id keys) ≡ true
    → (key : TrustedKey) × (lookup id keys ≡ some key)
held_key keys id h = elim (Option-cases (lookup id keys)) [
  | inl e ↦ (let empty : is_some (lookup id keys) ≡ false = ap is_some e in cc)
  | inr held ↦ held
]

-- `id` was added by `ancestor`, directly or through other keys.
pub data Descends (keys : Map TrustedKey) (ancestor : Bytes) : Bytes → Type 0 where
  itself : Descends keys ancestor ancestor
  below :
      {id p : Bytes}
      → Descends keys ancestor p
      → parent_of keys id ≡ some p
      → Descends keys ancestor id

module _ (crypto : Crypto) (mode : TrustMode) where
  signer_held :
      (keys : Map TrustedKey) (entry : Value) (p parent : Bytes)
      → AddedBy crypto keys entry parent
      → adder entry ≡ some p
      → is_some (lookup p keys) ≡ true
  unfolding adder
  signer_held keys entry p parent s h =
      let is_p : parent ≡ p = some_inj (sym s.signer_id ∙ h) in
      ap (λ k. is_some (lookup k keys)) (sym is_p) ∙ ap is_some s.held

  vouched_held :
      (keys : Map TrustedKey) (entry : Value) (p : Bytes)
      → (is_root entry ≡ true) ⊎ (is_added crypto keys entry ≡ true)
      → adder entry ≡ some p
      → is_some (lookup p keys) ≡ true
  unfolding is_added
  vouched_held keys entry p v h = elim v [
    | inl r ↦ root_alone entry p r h
    | inr s ↦
        let (parent, signature) = signed_by_owner-IsSigned crypto keys _ _ s in
        signer_held keys entry p parent signature h
  ]

  parent-adder :
      (keys : Map TrustedKey) (id : Bytes) (key : TrustedKey)
      → lookup id keys ≡ some key
      → parent_of keys id ≡ adder key.entry
  unfolding parent_of
  parent-adder keys id key e = ap (λ o. and_then o (λ (k : TrustedKey). adder k.entry)) e

  -- Whoever added a key of the store is a key of the store.
  ancestor_held :
      (keys : Map TrustedKey) (id p : Bytes)
      → Ancestry crypto keys id
      → parent_of keys id ≡ some p
      → is_some (lookup p keys) ≡ true
  ancestor_held keys id p (root key e r) h =
      root_alone key.entry p r (sym (parent-adder keys id key e) ∙ h)
  ancestor_held keys id p (link {parent = parent} key e s a) h =
      signer_held keys key.entry p parent s (sym (parent-adder keys id key e) ∙ h)

  record IsSound (keys : Map TrustedKey) (order : List Bytes) : Type 0 where
    traced : IsTraced crypto mode keys
    tracked : (id : Bytes) → contains id order ≡ contains_key id keys
    ordered : IsOrdered (parent_of keys) order

  -- A new key changes nothing for the ids that were there.
  same_parent :
      (keys : Map TrustedKey) (id y : Bytes) (new : TrustedKey)
      → lookup id keys ≡ none
      → is_some (lookup y keys) ≡ true
      → parent_of (insert id new keys) y ≡ parent_of keys y
  unfolding parent_of
  same_parent keys id y new fresh held =
      let e : lookup y (insert id new keys) ≡ lookup y keys =
        ground (arith, lookup-insert id y new keys, apart keys id y fresh held) in
      ap (λ o. and_then o (λ (k : TrustedKey). adder k.entry)) e

  insert-IsSound :
      (loaded : Loaded) (id : Bytes) (new : TrustedKey)
      → IsSound loaded.keys loaded.order
      → lookup id loaded.keys ≡ none
      → (is_root new.entry ≡ true) ⊎ (is_added crypto loaded.keys new.entry ≡ true)
      → IsTraced crypto mode (insert id new loaded.keys)
      → IsSound (insert id new loaded.keys) (loaded.order ++ (id ∷ []))
  insert-IsSound loaded id new s fresh vouched traced =
      let keys = loaded.keys in
      let held : (y : Bytes) → contains y loaded.order ≡ true → is_some (lookup y keys) ≡ true =
        λ y m. sym (s.tracked y) ∙ m in
      let own : lookup id (insert id new keys) ≡ some new =
        ground (arith, lookup-insert id id new keys, same_self id) in
      record {
        traced = traced;
        tracked = λ j.
            ground
              (arith, snoc-contains j id loaded.order, s.tracked j, lookup-insert id j new keys);
        ordered =
            snoc-IsOrdered (parent_of keys) (parent_of (insert id new keys)) loaded.order id
              s.ordered (λ y m. same_parent keys id y new fresh (held y m))
              (λ y p m e.
                let (key, found) = held_key keys y (held y m) in
                apart keys id p fresh (ancestor_held keys y p (s.traced y key found).0 e))
              (λ p e. apart keys id p fresh (
                vouched_held keys new.entry p vouched
                  (sym (parent-adder (insert id new keys) id new own) ∙ e)));
      }

  load_key-IsSound :
      (entry : Value) (loaded next : Loaded)
      → Loads crypto mode entry loaded next
      → IsSound loaded.keys loaded.order
      → IsSound next.keys next.order
  load_key-IsSound entry loaded next l s =
      let new : TrustedKey = record { public_key = l.public; entry = entry } in
      let traced =
        subst (IsTraced crypto mode) l.keys_after
          (load_key-IsTraced crypto mode entry loaded next l s.traced) in
      subst (λ k. IsSound k next.order) (sym l.keys_after)
        (subst (λ o. IsSound (insert l.id new loaded.keys) o) (sym l.order_after)
          (insert-IsSound loaded l.id new s l.fresh l.vouched traced))

  load_keys-IsSound :
      (number : ℕ) (entries : List Value) (loaded : Loaded) {next : Loaded}
      → load_keys crypto mode number entries loaded ≡ ok next
      → IsSound loaded.keys loaded.order
      → IsSound next.keys next.order
  unfolding load_keys
  load_keys-IsSound number [] loaded h s = subst (λ l. IsSound l.keys l.order) (ok_inj h) s
  load_keys-IsSound number (entry ∷ entries) loaded h s =
      let (next, e, h') = bind-eq_ok (load_key crypto mode number entry loaded) _ h in
      load_keys-IsSound (suc number) entries next h'
        (load_key-IsSound entry loaded next (load_key-Loads crypto mode number entry loaded e) s)

  no_keys-IsSound : IsSound [] []
  unfolding contains lookup
  no_keys-IsSound = record { traced = λ j k f. empty_map j f; tracked = λ j. refl; ordered = tt }

  cascade_below :
      (keys : Map TrustedKey) (order start : List Bytes) (ancestor id : Bytes)
      → IsSound keys order
      → Descends keys ancestor id
      → contains ancestor (cascade (parent_of keys) order start) ≡ true
      → contains id (cascade (parent_of keys) order start) ≡ true
  unfolding parent_of
  cascade_below keys order start ancestor id s (itself) h = h
  cascade_below keys order start ancestor id s (below {p = p} d e) h =
      let (key, found, rest) = and_then-eq_some (lookup id keys) _ e in
      let listed : contains id order ≡ true = s.tracked id ∙ ap is_some found in
      cascade-closed (parent_of keys) order start id p s.ordered listed e
        (cascade_below keys order start ancestor p s d h)

  -- In a validated trust store a compromised key takes with it every key that it added, directly or
  -- through other keys: all of them are compromised, and all of them are revoked.
  pub validate_trust-Descends :
      (value : Value) (ancestor id : Bytes) {store : TrustStore}
      → validate_trust crypto value mode ≡ ok store
      → Descends store.keys ancestor id
      → contains ancestor store.compromised ≡ true
      → (contains id store.compromised ≡ true) × (contains id store.revoked ≡ true)
  validate_trust-Descends value ancestor id {store = store} h d c =
      let p = validate_trust-IsValidated crypto value mode h in
      let sound = load_keys-IsSound 0 p.entries no_keys p.loads no_keys-IsSound in
      let spread =
        cascade_below p.loaded.keys p.loaded.order p.state.compromised ancestor id sound
          (subst (λ k. Descends k ancestor id) p.keys_are d)
          (subst (λ ids. contains ancestor ids ≡ true) p.compromised_are c) in
      let compromised = subst (λ ids. contains id ids ≡ true) (sym p.compromised_are) spread in
      (
        compromised,
        subst (λ ids. contains id ids ≡ true) (sym p.revoked_are)
            (extend_adds id store.compromised p.state.revoked compromised),
      )
