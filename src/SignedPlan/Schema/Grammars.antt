-- ===== src/SignedPlan/Schema/Grammars.antt =====
-- The grammars of src/signed_plan/schema/actions_m2.rs.
use permanu_agent.Base.{
  ℕ, Bool, true, false, not, ◌&&◌, ◌||◌, List, [], ◌∷◌, Option, none, some, leb, ltb, ◌==◌,
  if◌then◌else◌, length, all, is_nil, is_some_and, and_then, then_some, Bytes, codes, same, within,
  is_digit, is_lower, is_alphanumeric, digits_value, split, split_once, strip_prefix, strip_suffix,
}
use permanu_agent.SignedPlan.Text.{first_is, last_is, length_within, uuid7, hostname}
use permanu_agent.SignedPlan.Text.Address.{ipv4_shaped, public_ipv4}

-- `is_none_or` of an option.
abbrev pub is_none_or {ℓ} : {A : Type ℓ} → (A → Bool) → Option A → Bool
is_none_or p none = true
is_none_or p (some a) = p a

-- `or_else` of an option.
abbrev pub or_option {ℓ} : {A : Type ℓ} → Option A → Option A → Option A
or_option none b = b
or_option (some a) b = some a

unfoldable pub is_age : ℕ → Bool
is_age c =
    c == b'0'
    || within b'2' b'9' c
    || c == b'a'
    || within b'c' b'h' c
    || within b'j' b'n' c
    || within b'p' b'z' c

unfoldable pub age_recipient : Bytes → Bool
unfolding strip_prefix is_age
age_recipient v =
    is_some_and (λ rest. length rest == 58 && all is_age rest) (strip_prefix (codes "age1") v)

unfoldable pub is_host_char : ℕ → Bool
unfolding is_lower is_digit
is_host_char c = is_lower c || is_digit c || c == b'.' || c == b'-'

unfoldable pub host_chars : Bytes → Bool
unfolding is_host_char is_alphanumeric
host_chars host =
    length_within 1 253 host
    && all is_host_char host
    && first_is is_alphanumeric host
    && last_is is_alphanumeric host

-- `split_once(':')` with the whole text as the host when there is none.
abbrev pub host_and_port : Bytes → Bytes × Option Bytes
host_and_port s = elim (split_once b':' s) [
  | some (host, port) ↦ (host, some port)
  | none ↦ (s, none)
]

unfoldable pub port_digits : Bytes → Bool
unfolding is_digit
port_digits port = length_within 1 5 port && all is_digit port

unfoldable pub endpoint : Bytes → Bool
unfolding strip_prefix split_once host_chars port_digits
endpoint v =
    elim (or_option (strip_prefix (codes "https://") v) (strip_prefix (codes "sftp://") v)) [
      | none ↦ false
      | some rest ↦
          let (host, port) = host_and_port rest in host_chars host && is_none_or port_digits port
    ]

unfoldable pub is_segment : ℕ → Bool
unfolding is_alphanumeric
is_segment c = is_alphanumeric c || c == b'.' || c == b'_' || c == b'-'

-- A segment of 1 to 64 bytes that is not `.` or `..`.
unfoldable pub path_segment : Bytes → Bool
unfolding same is_segment
path_segment part =
    length_within 1 64 part
    && not (same part (codes "."))
    && not (same part (codes ".."))
    && all is_segment part

unfoldable pub prefix : Bytes → Bool
unfolding split path_segment
prefix v = is_nil v || (let parts = split b'/' v in leb (length parts) 8 && all path_segment parts)

abbrev pub three_parts : List Bytes → Bool
three_parts (a ∷ b ∷ c ∷ []) =
    uuid7 a && uuid7 b && is_some_and uuid7 (strip_suffix (codes ".age") c)
three_parts _ = false

unfoldable pub object_key : Bytes → Bool
unfolding strip_prefix split uuid7 strip_suffix
object_key v =
    is_some_and (λ rest. three_parts (split b'/' rest)) (strip_prefix (codes "permanu/v1/") v)

unfoldable pub is_region : ℕ → Bool
unfolding is_lower is_digit
is_region c = is_lower c || is_digit c || c == b'-'

unfoldable pub region : Bytes → Bool
unfolding is_region
region v = length_within 1 64 v && all is_region v

unfoldable pub is_base64 : ℕ → Bool
unfolding is_alphanumeric
is_base64 c = is_alphanumeric c || c == b'+' || c == b'/'

unfoldable pub fingerprint : Bytes → Bool
unfolding strip_prefix is_base64
fingerprint v =
    is_some_and (λ rest. length rest == 43 && all is_base64 rest) (strip_prefix (codes "SHA256:") v)

unfoldable pub webhook_host : Bytes → Bool
webhook_host v = if ipv4_shaped v then public_ipv4 v else hostname v

-- The closure `number`; a parse of one or two digits cannot overflow.
unfoldable pub cron_number : Bytes → Option ℕ
unfolding is_digit
cron_number text = then_some (length_within 1 2 text && all is_digit text) (digits_value 0 text)

-- `bounds`, given the range and whether the item has a step.
unfoldable pub cron_bounds : Bytes → Bool → ℕ → ℕ → Option (ℕ × ℕ)
unfolding same split_once cron_number
cron_bounds range has_step low high =
    if same range (codes "*") then some (low, high) else elim (split_once b'-' range) [
      | some (a, b) ↦
          and_then (cron_number a) (λ start. and_then (cron_number b) (λ end. some (start, end)))
      | none ↦
          and_then (cron_number range) (λ start. some (start, if has_step then high else start))
    ]

abbrev pub in_field : ℕ → ℕ → ℕ × ℕ → Bool
in_field low high (start, end) = leb low start && leb start end && leb end high

-- `item.contains('/')` is that `split_once('/')` finds a step.
unfoldable pub cron_item : Bytes → ℕ → ℕ → Bool
unfolding split_once cron_number cron_bounds
cron_item text low high = elim (split_once b'/' text) [
  | none ↦ is_some_and (in_field low high) (cron_bounds text false low high)
  | some (range, step) ↦
      if is_none_or (λ s. ltb s 1) (cron_number step)
      then false
      else is_some_and (in_field low high) (cron_bounds range true low high)
]

abbrev pub cron_field : Bytes → ℕ × ℕ → Bool
cron_field text (low, high) = all (λ part. cron_item part low high) (split b',' text)

abbrev pub cron_fields : List (ℕ × ℕ)
cron_fields = (0, 59) ∷ (0, 23) ∷ (1, 31) ∷ (1, 12) ∷ (0, 7) ∷ []

-- `zip(...).all(...)`.
abbrev pub all_zip : List Bytes → List (ℕ × ℕ) → Bool
all_zip [] bs = true
all_zip (f ∷ fs) [] = true
all_zip (f ∷ fs) (b ∷ bs) = cron_field f b && all_zip fs bs

unfoldable pub cron_parses : Bytes → Bool
unfolding split cron_item
cron_parses expression =
    let fields = split b' ' expression in length fields == 5 && all_zip fields cron_fields
