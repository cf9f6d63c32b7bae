-- ===== src/SignedPlan/Text.antt =====
-- The matchers of src/signed_plan/text.rs, over the bytes of a text.

pub mod Regex
pub mod Patterns
pub mod Classes
pub mod Split
pub mod SplitOnce
pub mod SplitPatterns
pub mod Edges
pub mod Hosts
pub mod Suffix
pub mod Address
pub mod Time
pub mod Tests
use permanu_agent.Base.{
  ℕ, suc, ◌-◌, Bool, true, false, not, ◌&&◌, ◌||◌, List, [], ◌∷◌, Option, none, some, leb, ltb,
  ◌==◌, if◌then◌else◌, length, get_elem?, last?, all, any, is_nil, is_some_and, is_some, drop,
  Bytes, codes, same, within, is_digit, is_lower, is_upper, is_alphabetic, is_alphanumeric, split,
  split_once, strip_prefix, strip_suffix, starts_with, ends_with, has_substring,
}
use permanu_agent.Base.Utf8.{chars, trim}

-- `bytes[0]` and `bytes[len - 1]` behind a check that the text is not empty.
abbrev pub first_is : (ℕ → Bool) → Bytes → Bool
first_is p [] = false
first_is p (c ∷ cs) = p c

abbrev pub last_is : (ℕ → Bool) → Bytes → Bool
last_is p s = is_some_and p (last? s)

-- `(low..=high).contains(&value.len())`.
abbrev pub length_within : ℕ → ℕ → Bytes → Bool
length_within low high s = within low high (length s)

unfoldable pub is_lower_hex : ℕ → Bool
unfolding is_digit
is_lower_hex c = is_digit c || within b'a' b'f' c

unfoldable pub hex_n : Bytes → ℕ → Bool
unfolding is_lower_hex
hex_n value n = length value == n && all is_lower_hex value

unfoldable pub hex64 : Bytes → Bool
unfolding hex_n
hex64 value = hex_n value 64

unfoldable pub hex40 : Bytes → Bool
unfolding hex_n
hex40 value = hex_n value 40

-- The arms of the match on the index.
unfoldable pub uuid7_byte : ℕ → ℕ → Bool
unfolding is_lower_hex
uuid7_byte index byte =
    if index == 8 || index == 13 || index == 18 || index == 23
    then byte == b'-'
    else if index == 14
    then byte == b'7'
    else if index == 19
    then byte == b'8' || byte == b'9' || byte == b'a' || byte == b'b'
    else is_lower_hex byte

-- The loop over `bytes.iter().enumerate()`.
unfoldable pub all_indexed : (ℕ → ℕ → Bool) → ℕ → Bytes → Bool
all_indexed valid index [] = true
all_indexed valid index (c ∷ cs) = valid index c && all_indexed valid (suc index) cs

unfoldable pub uuid7 : Bytes → Bool
unfolding uuid7_byte all_indexed
uuid7 value = length value == 36 && all_indexed uuid7_byte 0 value

unfoldable pub is_reference : ℕ → Bool
unfolding is_alphanumeric
is_reference c = is_alphanumeric c || c == b'.' || c == b'_' || c == b'-'

unfoldable pub reference : Bytes → Bool
unfolding is_reference
reference value =
    not (is_nil value)
    && leb (length value) 64
    && first_is is_alphanumeric value
    && all is_reference value

unfoldable pub is_b64url : ℕ → Bool
unfolding is_alphanumeric
is_b64url c = is_alphanumeric c || c == b'_' || c == b'-'

unfoldable pub key_id : Bytes → Bool
unfolding is_b64url
key_id value = length value == 22 && all is_b64url value

unfoldable pub is_env : ℕ → Bool
unfolding is_alphanumeric
is_env c = is_alphanumeric c || c == b'_'

unfoldable pub is_env_start : ℕ → Bool
unfolding is_alphabetic
is_env_start c = is_alphabetic c || c == b'_'

unfoldable pub env_name : Bytes → Bool
unfolding is_env is_env_start
env_name value =
    not (is_nil value) && leb (length value) 128 && first_is is_env_start value && all is_env value

-- The `edge` closures, and a letter or digit of a host label.
unfoldable pub is_edge : ℕ → Bool
unfolding is_lower is_digit
is_edge c = is_lower c || is_digit c

unfoldable pub is_host : ℕ → Bool
unfolding is_edge
is_host c = is_edge c || c == b'-'

unfoldable pub host_label : Bytes → Bool → Bool
unfolding is_host
host_label label final_label =
    if is_nil label || ltb 63 (length label)
    then false
    else let first_ok = if final_label then first_is is_lower label else first_is is_edge label in
      let last_ok = final_label || last_is is_edge label in first_ok && last_ok && all is_host label

-- The labels but the last by `host_label(_, false)`, the last by `host_label(_, true)`.
unfoldable pub host_labels : List Bytes → Bool
unfolding host_label
host_labels [] = false
host_labels (last ∷ []) = host_label last true
host_labels (label ∷ next ∷ rest) = host_label label false && host_labels (next ∷ rest)

unfoldable pub hostname : Bytes → Bool
unfolding host_labels split
hostname value =
    if is_nil value || ltb 253 (length value)
    then false
    else let labels = split b'.' value in
      if ltb (length labels) 2 then false else host_labels labels

unfoldable pub is_cron : ℕ → Bool
unfolding is_digit
is_cron c = is_digit c || c == b'*' || c == b'/' || c == b',' || c == b'-'

-- A part that is not empty and has only the bytes of one class.
unfoldable pub part_of : (ℕ → Bool) → Bytes → Bool
part_of p part = not (is_nil part) && all p part

unfoldable pub cron : Bytes → Bool
unfolding is_cron part_of split
cron value = let fields = split b' ' value in length fields == 5 && all (part_of is_cron) fields

unfoldable pub digits : Bytes → Bool
unfolding part_of is_digit
digits = part_of is_digit

unfoldable pub is_pre : ℕ → Bool
unfolding is_alphanumeric
is_pre c = is_alphanumeric c || c == b'.' || c == b'-'

unfoldable pub version_core : Bytes → Bool
unfolding digits split
version_core core = let parts = split b'.' core in length parts == 3 && all digits parts

unfoldable pub semver : Bytes → Bool
unfolding version_core is_pre split_once
semver value = elim (split_once b'-' value) [
  | none ↦ version_core value
  | some (core, pre) ↦ version_core core && part_of is_pre pre
]

unfoldable pub is_repo_host : ℕ → Bool
unfolding is_edge
is_repo_host c = is_edge c || c == b'.' || c == b'-'

-- `split_first`: the head by one test, `low` to `high` further parts by another.
unfoldable pub head_and_parts : (Bytes → Bool) → ℕ → ℕ → (Bytes → Bool) → List Bytes → Bool
head_and_parts head low high part [] = false
head_and_parts head low high part (h ∷ parts) =
    head h && within low high (length parts) && all part parts

unfoldable pub repo : Bytes → Bool
unfolding head_and_parts part_of is_repo_host is_reference split
repo value = head_and_parts (part_of is_repo_host) 1 4 (part_of is_reference) (split b'/' value)

unfoldable pub is_delivery : ℕ → Bool
unfolding is_alphanumeric
is_delivery c = is_alphanumeric c || c == b'.' || c == b'_' || c == b':' || c == b'-'

unfoldable pub delivery_id : Bytes → Bool
unfolding is_delivery
delivery_id value = length_within 1 128 value && all is_delivery value

unfoldable pub is_path : ℕ → Bool
unfolding is_alphanumeric
is_path c = is_alphanumeric c || c == b'.' || c == b'_' || c == b'/' || c == b'-'

unfoldable pub abs_path : Bytes → Bool
unfolding is_path starts_with
abs_path value =
    leb 2 (length value)
    && leb (length value) 256
    && starts_with (b'/' ∷ []) value
    && all is_path (drop 1 value)

unfoldable pub bucket : Bytes → Bool
unfolding is_repo_host
bucket value =
    length_within 3 63 value
    && first_is is_edge value
    && last_is is_edge value
    && all is_repo_host value

unfoldable pub is_zone : ℕ → Bool
unfolding is_alphanumeric
is_zone c = is_alphanumeric c || c == b'_' || c == b'+' || c == b'-'

unfoldable pub timezone : Bytes → Bool
unfolding head_and_parts part_of is_env_start is_zone split same
timezone value =
    same value (codes "UTC")
    || head_and_parts (part_of is_env_start) 1 2 (part_of is_zone) (split b'/' value)

unfoldable pub is_image : ℕ → Bool
unfolding is_edge
is_image c = is_edge c || c == b'.' || c == b'_' || c == b'-'

unfoldable pub image_component : Bytes → Bool
unfolding is_image
image_component value =
    not (is_nil value) && first_is is_edge value && last_is is_edge value && all is_image value

unfoldable pub image_host : Bytes → Bool
unfolding image_component digits split_once
image_host host = elim (split_once b':' host) [
  | some (name, port) ↦ image_component name && digits port && leb (length port) 5
  | none ↦ image_component host
]

unfoldable pub image_repository : Bytes → Bool
unfolding head_and_parts image_host split
image_repository value = head_and_parts image_host 0 6 image_component (split b'/' value)

unfoldable pub is_capability : ℕ → Bool
unfolding is_upper
is_capability c = is_upper c || c == b'_'

unfoldable pub capability : Bytes → Bool
unfolding is_capability
capability value = length_within 2 32 value && first_is is_upper value && all is_capability value

unfoldable pub user_part : Bytes → Bool
unfolding is_env is_reference
user_part value = length_within 1 32 value && first_is is_env value && all is_reference value

unfoldable pub user : Bytes → Bool
unfolding user_part split_once
user value = elim (split_once b':' value) [
  | some (name, group) ↦ user_part name && user_part group
  | none ↦ user_part value
]

-- The closure `forbidden`, on a code point.
unfoldable pub is_forbidden : ℕ → Bool
is_forbidden code =
    leb code 0x1f
    || within 0x7f 0x9f code
    || code == 0x061c
    || within 0x200b 0x200f code
    || within 0x202a 0x202e code
    || within 0x2060 0x2069 code
    || code == 0xfeff

unfoldable pub label_chars_ok : Bytes → Bool
unfolding is_forbidden chars trim same
label_chars_ok value =
    let characters = chars value in
    not (any is_forbidden characters) && same (trim characters) characters

-- A branch name, without `refs/heads/` and the pattern's `/*`.
unfoldable pub branch_name : Bytes → Bool
unfolding is_path has_substring starts_with ends_with split
branch_name name =
    length_within 1 200 name
    && all is_path name
    && not (has_substring (codes "..") name)
    && not (has_substring (codes "//") name)
    && not (has_substring (codes "@{") name)
    && not (starts_with (codes "/") name)
    && not (starts_with (codes "-") name)
    && not (ends_with (codes "/") name)
    && not (ends_with (codes ".") name)
    && not (ends_with (codes ".lock") name)
    && all
        (λ component.
          not (starts_with (codes ".") component) && not (ends_with (codes ".lock") component))
        (split b'/' name)

unfoldable pub git_ref : Bytes → Bool → Bool
unfolding branch_name strip_prefix strip_suffix
git_ref value pattern =
    if ltb 211 (length value) then false else elim (strip_prefix (codes "refs/heads/") value) [
      | none ↦ false
      | some name ↦ elim (strip_suffix (codes "/*") name) [
        | none ↦ branch_name name
        | some prefix ↦ branch_name (if pattern then prefix else name)
      ]
    ]
