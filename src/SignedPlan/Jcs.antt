-- ===== src/SignedPlan/Jcs.antt =====
-- The canonical text of a value (src/signed_plan/jcs.rs). `encode` appends to the output; here a
-- call returns what it appends, and the members of an object are encoded before they are sorted.
pub mod Canonical
use permanu_agent.Base.{
  ℕ, zero, suc, ◌+◌, ◌-◌, ◌/◌, ◌%◌, ◌^◌, Bool, true, false, not, ◌&&◌, ◌||◌, List, [], ◌∷◌, ◌++◌,
  map, Option, none, some, leb, ltb, ◌==◌, if◌then◌else◌, is_some_and, and_then, ℤ, pos, negsuc,
  pos_part, neg_part, Bytes, codes, is_digit,
}
use permanu_agent.Base.Map.{Map}
use permanu_agent.Base.Utf8.{chars}
use permanu_agent.SignedPlan.Text.Time.{decimal}
use permanu_agent.SignedPlan.Value.{
  Value, null, bool, integer, float, string, array, object, Items, no_items, an_item, Members,
  no_members, member, as_i64, as_u64,
}

abbrev pub max_safe_integer : ℕ
max_safe_integer = 2 ^ 53 - 1

-- `u8::is_ascii_whitespace`.
abbrev pub is_ascii_whitespace : ℕ → Bool
is_ascii_whitespace c = c == 0x20 || c == 9 || c == 10 || c == 12 || c == 13

abbrev pub is_marker : ℕ → Bool
is_marker c = c == b'.' || c == b'e' || c == b'E'

unfoldable pub scan_literals : Bool → Bool → ℕ → Bytes → Bool
unfolding is_digit
scan_literals in_string escaped previous [] = false
scan_literals true escaped previous (c ∷ cs) =
    let rest = scan_literals true false previous cs in
    let after_escape = scan_literals true true previous cs in
    let closed = scan_literals false false previous cs in
    if escaped then rest else if c == 0x5c then after_escape else if c == 0x22 then closed else rest
scan_literals false escaped previous (c ∷ cs) =
    let next = if is_ascii_whitespace c then previous else c in
    let opened = scan_literals true escaped next cs in
    let rest = scan_literals false escaped next cs in
    if c == 0x22 then opened else if is_marker c && is_digit previous then true else rest

abbrev pub contains_non_integer_literal : Bytes → Bool
contains_non_integer_literal bytes = scan_literals false false 0x20 bytes

abbrev pub unsigned_abs : ℤ → ℕ
unsigned_abs z = pos_part z + neg_part z

-- `number.as_i64().map(i64::unsigned_abs).or_else(|| number.as_u64())`.
abbrev pub magnitude : Value → Option ℕ
magnitude v = elim (as_i64 v) [ some z ↦ some (unsigned_abs z) | none ↦ as_u64 v ]

abbrev pub is_safe : Value → Bool
is_safe v = is_some_and (λ m. leb m max_safe_integer) (magnitude v)

unfoldable mutual
  pub integers_only : Value → Bool
  integers_only null = true
  integers_only (bool b) = true
  integers_only (integer z) = is_safe (integer z)
  integers_only (float t) = is_safe (float t)
  integers_only (string s) = true
  integers_only (array xs) = items_integers_only xs
  integers_only (object ms) = members_integers_only ms

  pub items_integers_only : Items → Bool
  items_integers_only no_items = true
  items_integers_only (an_item v xs) = integers_only v && items_integers_only xs

  pub members_integers_only : Members → Bool
  members_integers_only no_members = true
  members_integers_only (member k v ms) = integers_only v && members_integers_only ms

abbrev pub hex_digit : ℕ → ℕ
hex_digit n = if ltb n 10 then b'0' + n else b'a' + (n - 10)

-- The arms of the match on the character; what stays as it is has one byte or more.
unfoldable pub escape : ℕ → Bytes
escape c =
    if c == 0x22
    then 0x5c ∷ 0x22 ∷ []
    else if c == 0x5c
    then 0x5c ∷ 0x5c ∷ []
    else if c == 0x08
    then 0x5c ∷ b'b' ∷ []
    else if c == 0x09
    then 0x5c ∷ b't' ∷ []
    else if c == 0x0a
    then 0x5c ∷ b'n' ∷ []
    else if c == 0x0c
    then 0x5c ∷ b'f' ∷ []
    else if c == 0x0d
    then 0x5c ∷ b'r' ∷ []
    else if ltb c 0x20
    then 0x5c ∷ b'u' ∷ b'0' ∷ b'0' ∷ hex_digit (c / 16) ∷ hex_digit (c % 16) ∷ []
    else c ∷ []

abbrev pub escapes : Bytes → Bytes
escapes [] = []
escapes (c ∷ cs) = escape c ++ escapes cs

abbrev pub encode_string : Bytes → Bytes
encode_string text = 0x22 ∷ (escapes text ++ (0x22 ∷ []))

-- `encode_utf16`.
abbrev pub utf16 : List ℕ → List ℕ
utf16 [] = []
utf16 (c ∷ cs) =
    if ltb c 0x10000
    then c ∷ utf16 cs
    else (0xd800 + (c - 0x10000) / 1_024) ∷ (0xdc00 + (c - 0x10000) % 1_024) ∷ utf16 cs

-- `cmp` of two sequences, as `≤`.
abbrev pub leb_units : List ℕ → List ℕ → Bool
leb_units [] b = true
leb_units (x ∷ a) [] = false
leb_units (x ∷ a) (y ∷ b) = ltb x y || (x == y && leb_units a b)

abbrev pub leb_utf16 : Bytes → Bytes → Bool
leb_utf16 a b = leb_units (utf16 (chars a)) (utf16 (chars b))

unfoldable pub insert_by_key : Bytes → Bytes → Map Bytes → Map Bytes
unfolding chars
insert_by_key k t [] = (k, t) ∷ []
insert_by_key k t ((j, u) ∷ m) =
    let rest = insert_by_key k t m in if leb_utf16 k j then (k, t) ∷ (j, u) ∷ m else (j, u) ∷ rest

unfoldable pub sort_by_key : Map Bytes → Map Bytes
unfolding insert_by_key
sort_by_key [] = []
sort_by_key ((k, t) ∷ m) = insert_by_key k t (sort_by_key m)

-- The texts, with a comma between them.
unfoldable pub with_commas : List Bytes → Bytes
with_commas [] = []
with_commas (t ∷ []) = t
with_commas (t ∷ u ∷ ts) = t ++ (b',' ∷ with_commas (u ∷ ts))

abbrev pub encode_entry : Bytes × Bytes → Bytes
encode_entry (k, t) = encode_string k ++ (b':' ∷ t)

abbrev pub encode_integer : ℤ → Bytes
encode_integer (pos n) = decimal n
encode_integer (negsuc n) = b'-' ∷ decimal (suc n)

unfoldable mutual
  unfolding sort_by_key with_commas escape

  pub encode : Value → Option Bytes
  encode null = some (codes "null")
  encode (bool true) = some (codes "true")
  encode (bool false) = some (codes "false")
  encode (integer z) = if is_safe (integer z) then some (encode_integer z) else none
  encode (float t) = if is_safe (float t) then some t else none
  encode (string s) = some (encode_string s)
  encode (array xs) =
      and_then (encode_items xs) (λ parts. some (b'[' ∷ (with_commas parts ++ (b']' ∷ []))))
  encode (object ms) =
      and_then (encode_members ms)
        (λ m. some (b'{' ∷ (with_commas (map encode_entry (sort_by_key m)) ++ (b'}' ∷ []))))

  pub encode_items : Items → Option (List Bytes)
  encode_items no_items = some []
  encode_items (an_item v xs) =
      and_then (encode v) (λ t. and_then (encode_items xs) (λ ts. some (t ∷ ts)))

  pub encode_members : Members → Option (Map Bytes)
  encode_members no_members = some []
  encode_members (member k v ms) =
      and_then (encode v) (λ t. and_then (encode_members ms) (λ m. some ((k, t) ∷ m)))

abbrev pub canonicalize : Value → Option Bytes
canonicalize v = encode v
