-- ===== src/SignedPlan/Jcs/Canonical.antt =====
-- Which values have a canonical text.
use permanu_agent.Base.{◌≡◌, refl, true, false, is_some, arith}
use permanu_agent.SignedPlan.Value.{
  Value, null, bool, integer, float, string, array, object, Items, no_items, an_item, Members,
  no_members, member,
}
use permanu_agent.SignedPlan.Jcs.{
  integers_only, items_integers_only, members_integers_only, encode, encode_items, encode_members,
  canonicalize,
}

mutual
  unfolding integers_only items_integers_only members_integers_only encode encode_items
      encode_members

  encode-is_some : (v : Value) → is_some (encode v) ≡ integers_only v
  encode-is_some null = refl
  encode-is_some (bool true) = refl
  encode-is_some (bool false) = refl
  encode-is_some (integer z) = ground arith
  encode-is_some (float t) = ground arith
  encode-is_some (string s) = refl
  encode-is_some (array xs) = ground (arith, encode_items-is_some xs)
  encode-is_some (object ms) = ground (arith, encode_members-is_some ms)

  encode_items-is_some : (xs : Items) → is_some (encode_items xs) ≡ items_integers_only xs
  encode_items-is_some no_items = refl
  encode_items-is_some (an_item v xs) = ground (arith, encode-is_some v, encode_items-is_some xs)

  encode_members-is_some : (ms : Members) → is_some (encode_members ms) ≡ members_integers_only ms
  encode_members-is_some no_members = refl
  encode_members-is_some (member k v ms) =
      ground (arith, encode-is_some v, encode_members-is_some ms)

-- A value has a canonical text exactly when every number in it, at any depth, is an integer of a
-- magnitude below 2 ^ 53: `integers_only`, the test that strict parsing makes.
pub canonicalize-is_some : (v : Value) → is_some (canonicalize v) ≡ integers_only v
canonicalize-is_some v = encode-is_some v
