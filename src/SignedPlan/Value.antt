-- ===== src/SignedPlan/Value.antt =====
-- `serde_json::Value`, with the methods that src/signed_plan uses. A map is the list of its members
-- with each key once: no operation depends on their order.
use permanu_agent.Base.{
  refl, ap, ◌≡◌, ℕ, ◌^◌, Bool, true, false, not, ◌&&◌, List, [], ◌∷◌, Option, none, some, ltb, ◌==◌,
  length, is_some_and, unwrap_or, and_then, ℤ, pos, negsuc, pos_part, neg_part, Bytes, same,
  if◌then◌else◌,
}
use permanu_agent.Base.Map.{Map, lookup}

mutual
  pub data Value : Type 0 where
    null : Value
    bool : Bool → Value
    integer : ℤ → Value
    -- A number with a fraction or an exponent, by its text.
    float : Bytes → Value
    string : Bytes → Value
    array : Items → Value
    object : Members → Value

  pub data Items : Type 0 where
    no_items : Items
    an_item : Value → Items → Items

  pub data Members : Type 0 where
    no_members : Members
    member : Bytes → Value → Members → Members

abbrev pub items : Items → List Value
items no_items = []
items (an_item v xs) = v ∷ items xs

abbrev pub members : Members → Map Value
members no_members = []
members (member k v ms) = (k, v) ∷ members ms

abbrev pub Items_of : List Value → Items
Items_of [] = no_items
Items_of (v ∷ vs) = an_item v (Items_of vs)

abbrev pub Members_of : Map Value → Members
Members_of [] = no_members
Members_of ((k, v) ∷ m) = member k v (Members_of m)

abbrev pub as_str : Value → Option Bytes
as_str (string s) = some s
as_str _ = none

abbrev pub as_array : Value → Option (List Value)
as_array (array xs) = some (items xs)
as_array _ = none

abbrev pub as_object : Value → Option (Map Value)
as_object (object ms) = some (members ms)
as_object _ = none

abbrev pub is_null : Value → Bool
is_null null = true
is_null _ = false

abbrev pub is_boolean : Value → Bool
is_boolean (bool b) = true
is_boolean _ = false

-- The integers are those of `i64` and `u64` together.
abbrev pub as_i64 : Value → Option ℤ
as_i64 (integer (pos n)) = if ltb n (2 ^ 63) then some (pos n) else none
as_i64 (integer (negsuc n)) = if ltb n (2 ^ 63) then some (negsuc n) else none
as_i64 _ = none

abbrev pub as_u64 : Value → Option ℕ
as_u64 (integer (pos n)) = if ltb n (2 ^ 64) then some n else none
as_u64 _ = none

-- `value.get(key)` and `value[key]`.
abbrev pub get : Bytes → Value → Option Value
get k v = and_then (as_object v) (λ m. lookup k m)

abbrev pub index : Value → Bytes → Value
index v k = unwrap_or null (get k v)

-- `value == "text"`.
abbrev pub is_text : Bytes → Value → Bool
is_text s v = is_some_and (same s) (as_str v)

abbrev pub is_true : Value → Bool
is_true (bool true) = true
is_true _ = false

abbrev pub same_bool : Bool → Bool → Bool
same_bool true b = b
same_bool false b = not b

-- `==` of two values.
unfoldable mutual
  unfolding same lookup

  pub same_value : Value → Value → Bool
  same_value null v = is_null v
  same_value (bool a) (bool b) = same_bool a b
  same_value (integer a) (integer b) = pos_part a == pos_part b && neg_part a == neg_part b
  same_value (float a) (float b) = same a b
  same_value (string a) (string b) = same a b
  same_value (array xs) (array ys) = same_items xs ys
  same_value (object xs) (object ys) =
      length (members xs) == length (members ys) && same_members xs (members ys)
  same_value _ _ = false

  pub same_items : Items → Items → Bool
  same_items no_items no_items = true
  same_items (an_item v xs) (an_item w ys) = same_value v w && same_items xs ys
  same_items _ _ = false

  pub same_members : Members → Map Value → Bool
  same_members no_members m = true
  same_members (member k v ms) m = is_some_and (same_value v) (lookup k m) && same_members ms m

pub members_Members_of : (m : Map Value) → members (Members_of m) ≡ m
members_Members_of [] = refl
members_Members_of ((k, v) ∷ m) = ap (λ n. (k, v) ∷ n) (members_Members_of m)
