-- ===== src/SignedPlan/Strict.antt =====
-- Strict JSON: `parse_strict` of src/signed_plan/jcs.rs and src/signed_plan/strict_json.rs. The
-- parser of the crate serde_json is a parameter: the tree of the events that it reports, with the
-- members of an object in the order of the text and a repeated key as often as it stands there.
pub mod Unique
use permanu_agent.SignedPlan.Jcs.Canonical.{canonicalize-is_some}
use permanu_agent.SignedPlan.Jcs.{contains_non_integer_literal, canonicalize, integers_only}
use permanu_agent.Base.{
  ◌∙◌, sym, then_some-eq_some, and_then-eq_some, then_some, and_then, none_else-eq_some, ap, arith,
  within, is_some, ltb, ◌≤◌, if◌then◌else◌, length, ◌==◌, is_some_and, ◌≡◌, contains, Bytes, ℕ,
  zero, suc, Bool, true, false, not, ◌&&◌, ◌||◌, List, [], ◌∷◌, Option, none, some,
}
use permanu_agent.SignedPlan.Value.{
  no_members, no_items, member, Members, an_item, Items, object, array, Value,
}

-- `std::str::from_utf8(bytes).is_ok()`: the number of continuation bytes still to come, and the
-- range of the next one.
unfoldable pub valid_from : ℕ → ℕ → ℕ → Bytes → Bool
valid_from need low high [] = need == 0
valid_from zero low high (c ∷ cs) =
    let ascii = valid_from 0 0x80 0xbf cs in
    let one = valid_from 1 0x80 0xbf cs in
    let two_high = valid_from 2 0xa0 0xbf cs in
    let two_low = valid_from 2 0x80 0x9f cs in
    let two = valid_from 2 0x80 0xbf cs in
    let three_high = valid_from 3 0x90 0xbf cs in
    let three_low = valid_from 3 0x80 0x8f cs in
    let three = valid_from 3 0x80 0xbf cs in
    if ltb c 0x80
    then ascii
    else if within 0xc2 0xdf c
    then one
    else if c == 0xe0
    then two_high
    else if c == 0xed
    then two_low
    else if within 0xe1 0xef c
    then two
    else if c == 0xf0
    then three_high
    else if within 0xf1 0xf3 c
    then three
    else if c == 0xf4
    then three_low
    else false
valid_from (suc need) low high (c ∷ cs) =
    let rest = valid_from need 0x80 0xbf cs in within low high c && rest

abbrev pub is_utf8 : Bytes → Bool
is_utf8 bytes = valid_from 0 0x80 0xbf bytes

-- `UniqueValueVisitor`: `visit_seq` and `visit_map`, with the set of the fields seen.
unfoldable mutual
  unfolding contains

  pub unique_value : Value → Bool
  unique_value (array xs) = visit_seq xs
  unique_value (object ms) = visit_map [] ms
  unique_value _ = true

  pub visit_seq : Items → Bool
  visit_seq no_items = true
  visit_seq (an_item v xs) = unique_value v && visit_seq xs

  pub visit_map : List Bytes → Members → Bool
  visit_map fields no_members = true
  visit_map fields (member k v ms) =
      not (contains k fields) && unique_value v && visit_map (k ∷ fields) ms

pub record Parser : Type 0 where
  -- `none` for a text that is not JSON.
  pub events : Bytes → Option Value

unfoldable pub reject_duplicate_fields : Parser → Bytes → Bool
unfolding unique_value
reject_duplicate_fields parser line = is_some_and unique_value (parser.events line)

-- `from_slice` collects the events in maps; it runs on a text without repeated keys, where that
-- changes nothing.
unfoldable pub parse_strict : Parser → Bytes → ℕ → Option Value
unfolding reject_duplicate_fields valid_from integers_only
parse_strict parser bytes max_bytes =
    if ltb max_bytes (length bytes) || not (is_utf8 bytes)
    then none
    else if not (reject_duplicate_fields parser bytes) || contains_non_integer_literal bytes
    then none
    else and_then (parser.events bytes) (λ value. then_some (integers_only value) value)
