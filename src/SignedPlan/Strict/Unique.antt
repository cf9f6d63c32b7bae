-- ===== src/SignedPlan/Strict/Unique.antt =====
-- What strict parsing accepts (`parse_strict` of src/signed_plan/jcs.rs).
use permanu_agent.SignedPlan.Jcs.Canonical.{canonicalize-is_some}
use permanu_agent.SignedPlan.Jcs.{integers_only, contains_non_integer_literal, canonicalize}
use permanu_agent.Base.Map.{IsMap, lookup}
use permanu_agent.SignedPlan.Strict.{
  visit_map, visit_seq, is_utf8, Parser, reject_duplicate_fields, parse_strict, unique_value,
}
use permanu_agent.SignedPlan.Value.{
  null, string, no_items, float, an_item, Items, integer, bool, members, member, object, Members,
  no_members, array, Value,
}
use permanu_agent.Base.{
  ◌∙◌, ap, sym, is_some_and, then_some-eq_some, then_some, and_then-eq_some, ◌||◌, ltb,
  none_else-eq_some, and_elim, refl, is_some, [], ◌≤◌, length, none, same_iff, some, arith, false,
  true, ◌&&◌, All, ◌∷◌, not, ◌≡◌, contains, Bool, List, ℕ, Bytes,
}

-- No object of the value, at any depth, has a key twice.
unfoldable mutual
  pub HasUniqueKeys : Value → Type 0
  HasUniqueKeys (array xs) = HaveUniqueKeys xs
  HasUniqueKeys (object ms) = IsMap (members ms) × MembersUnique ms
  HasUniqueKeys _ = Unit

  pub HaveUniqueKeys : Items → Type 0
  HaveUniqueKeys no_items = Unit
  HaveUniqueKeys (an_item v xs) = HasUniqueKeys v × HaveUniqueKeys xs

  pub MembersUnique : Members → Type 0
  MembersUnique no_members = Unit
  MembersUnique (member k v ms) = HasUniqueKeys v × MembersUnique ms

-- None of the keys seen so far is a key of the members.
abbrev AreFree : List Bytes → Members → Type 0
AreFree fields ms = All (λ j. lookup j (members ms) ≡ none) fields

not_there :
    (fields : List Bytes) (k : Bytes) (v : Value) (ms : Members)
    → contains k fields ≡ false
    → AreFree fields ms
    → AreFree fields (member k v ms)
unfolding contains lookup
not_there [] k v ms c f = tt
not_there (j ∷ fields) k v ms c f =
    (ground (arith, same_iff j k, same_iff k j, f.0), not_there fields k v ms (ground arith) f.1)

free_all : (fields : List Bytes) → AreFree fields no_members
unfolding lookup
free_all [] = tt
free_all (j ∷ fields) = (refl, free_all fields)

visited_parts : (a b c : Bool) → (not a && b && c) ≡ true → (a ≡ false) × (b ≡ true) × (c ≡ true)
visited_parts a b c h = ground arith

mutual
  unfolding unique_value HasUniqueKeys

  unique_value-HasUniqueKeys : (v : Value) → unique_value v ≡ true → HasUniqueKeys v
  unique_value-HasUniqueKeys null h = tt
  unique_value-HasUniqueKeys (bool b) h = tt
  unique_value-HasUniqueKeys (integer z) h = tt
  unique_value-HasUniqueKeys (float t) h = tt
  unique_value-HasUniqueKeys (string t) h = tt
  unique_value-HasUniqueKeys (array xs) h = visit_seq-HaveUniqueKeys xs h
  unique_value-HasUniqueKeys (object ms) h = (let (m, u, f) = visit_map-IsMap [] ms h in (m, u))

  visit_seq-HaveUniqueKeys : (xs : Items) → visit_seq xs ≡ true → HaveUniqueKeys xs
  visit_seq-HaveUniqueKeys no_items h = tt
  visit_seq-HaveUniqueKeys (an_item v xs) h =
      let (a, b) = and_elim (unique_value v) (visit_seq xs) h in
      (unique_value-HasUniqueKeys v a, visit_seq-HaveUniqueKeys xs b)

  visit_map-IsMap :
      (fields : List Bytes) (ms : Members)
      → visit_map fields ms ≡ true
      → IsMap (members ms) × MembersUnique ms × AreFree fields ms
  visit_map-IsMap fields no_members h = (tt, tt, free_all fields)
  visit_map-IsMap fields (member k v ms) h =
      let (c, u, later) =
        visited_parts (contains k fields) (unique_value v) (visit_map (k ∷ fields) ms) h in
      let (m, us, free) = visit_map-IsMap (k ∷ fields) ms later in
      ((free.0, m), (unique_value-HasUniqueKeys v u, us), not_there fields k v ms c free.1)

-- What strict parsing accepts is short enough and is UTF-8; it is what the parser reads, which has no
-- object with a key twice, at any depth, and has a canonical text.
pub parse_strict-HasUniqueKeys :
    (parser : Parser) (bytes : Bytes) (max_bytes : ℕ) (value : Value)
    → parse_strict parser bytes max_bytes ≡ some value
    → (length bytes ≤ max_bytes)
      × (is_utf8 bytes ≡ true)
      × (parser.events bytes ≡ some value)
      × HasUniqueKeys value
      × (is_some (canonicalize value) ≡ true)
unfolding parse_strict reject_duplicate_fields
parse_strict-HasUniqueKeys parser bytes max_bytes value h =
    let (sized, h') = none_else-eq_some (ltb max_bytes (length bytes) || not (is_utf8 bytes)) _ h in
    let (plain, h'') =
      none_else-eq_some
        (not (reject_duplicate_fields parser bytes) || contains_non_integer_literal bytes) _ h' in
    let (tree, e, kept) =
      and_then-eq_some (parser.events bytes) (λ v. then_some (integers_only v) v) h'' in
    let (safe, found) = then_some-eq_some (integers_only tree) tree kept in
    let unique : is_some_and unique_value (parser.events bytes) ≡ true = ground arith in
    let unique_tree : unique_value tree ≡ true = sym (ap (is_some_and unique_value) e) ∙ unique in
    (
      ground arith,
      ground arith,
      e ∙ ap some found,
      unique_value-HasUniqueKeys value (ap unique_value (sym found) ∙ unique_tree),
      ap (λ v. is_some (canonicalize v)) (sym found) ∙ canonicalize-is_some tree ∙ safe,
    )
