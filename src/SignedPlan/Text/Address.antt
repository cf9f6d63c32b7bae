-- ===== src/SignedPlan/Text/Address.antt =====
-- The IPv4 matchers of src/signed_plan/text.rs: webhook hosts and default routes.
pub mod Octets
pub mod Routes
use permanu_agent.Base.{
  ℕ, ◌+◌, ◌-◌, ◌*◌, ◌/◌, ◌%◌, ◌^◌, bit_or, Bool, true, false, not, ◌&&◌, ◌||◌, List, [], ◌∷◌,
  Option, none, some, leb, ◌==◌, if◌then◌else◌, length, all, is_nil, is_some, is_some_and,
  then_some, filter_option, Bytes, codes, is_digit, is_lower, digits_value, split, split_once,
  starts_with, ends_with, strip_suffix,
}
use permanu_agent.SignedPlan.Text.{is_host}

-- `value.parse::<u32>()` on at most three digits cannot overflow.
unfoldable pub octet : Bytes → Option ℕ
unfolding is_digit starts_with
octet value =
    let ok =
      not (is_nil value)
      && leb (length value) 3
      && all is_digit value
      && (length value == 1 || not (starts_with (codes "0") value)) in
    filter_option (λ n. leb n 255) (then_some ok (digits_value 0 value))

-- `(acc << 8) | octet` in a `u32`.
abbrev pub push_octet : ℕ → ℕ → ℕ
push_octet acc n = bit_or (acc * 2 ^ 8 % 2 ^ 32) n

-- `try_fold`.
unfoldable pub fold_octets : ℕ → List Bytes → Option ℕ
unfolding octet
fold_octets acc [] = some acc
fold_octets acc (part ∷ parts) = elim (octet part) [
  | none ↦ none
  | some n ↦ fold_octets (push_octet acc n) parts
]

unfoldable pub ipv4_parts : Bytes → ℕ → Option ℕ
unfolding fold_octets split
ipv4_parts value separator =
    let parts = split separator value in
    if not (length parts == 4) then none else fold_octets 0 parts

abbrev pub Block : Type 0
Block = ℕ × ℕ

abbrev block : ℕ → ℕ → Block
block net bits = (net, bits)

abbrev pub non_public_ipv4 : List Block
non_public_ipv4 =
    block 0x0000_0000 8
    ∷ block 0x0a00_0000 8
    ∷ block 0x6440_0000 10
    ∷ block 0x7f00_0000 8
    ∷ block 0xa9fe_0000 16
    ∷ block 0xac10_0000 12
    ∷ block 0xc000_0000 24
    ∷ block 0xc000_0200 24
    ∷ block 0xc058_6300 24
    ∷ block 0xc0a8_0000 16
    ∷ block 0xc612_0000 15
    ∷ block 0xc633_6400 24
    ∷ block 0xcb00_7100 24
    ∷ block 0xe000_0000 4
    ∷ block 0xf000_0000 4
    ∷ []

-- `ip >> (32 - bits) != net >> (32 - bits)`.
abbrev pub outside : ℕ → Block → Bool
outside ip (net, bits) = not (ip / 2 ^ (32 - bits) == net / 2 ^ (32 - bits))

unfoldable pub public_ipv4 : Bytes → Bool
unfolding ipv4_parts
public_ipv4 value = is_some_and (λ ip. all (outside ip) non_public_ipv4) (ipv4_parts value b'.')

unfoldable pub ipv4_shaped : Bytes → Bool
unfolding is_digit
ipv4_shaped value = not (is_nil value) && all (λ c. is_digit c || c == b'.') value

unfoldable pub route_label : Bytes → Bool
unfolding is_host starts_with ends_with
route_label label =
    not (is_nil label)
    && leb (length label) 63
    && all is_host label
    && not (starts_with (codes "-") label)
    && not (ends_with (codes "-") label)

unfoldable pub default_route : Bytes → Bool
unfolding route_label ipv4_parts strip_suffix split_once
default_route value = elim (strip_suffix (codes ".sslip.io") value) [
  | none ↦ false
  | some rest ↦ elim (split_once b'.' rest) [
    | none ↦ false
    | some (label, ip) ↦ route_label label && is_some (ipv4_parts ip b'-')
  ]
]
