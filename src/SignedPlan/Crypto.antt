-- ===== src/SignedPlan/Crypto.antt =====
-- What src/signed_plan takes from the crates base64, sha2 and curve25519-dalek, and `hex` of
-- src/signed_plan/crypto.rs.
use permanu_agent.Base.{
  drop, take, ◌||◌, length, ◌==◌, same, ◌++◌, not, false, codes, ℕ, ◌+◌, ◌-◌, ◌/◌, ◌%◌, Bool, [],
  ◌∷◌, Option, none, some, ltb, if◌then◌else◌, Bytes,
}

pub record Codec : Type 0 where
  -- `URL_SAFE_NO_PAD` and `STANDARD`.
  pub b64url_decode : Bytes → Option Bytes
  pub b64url_encode : Bytes → Bytes
  pub standard_decode : Bytes → Option Bytes
  pub standard_encode : Bytes → Bytes
  pub sha256 : Bytes → Bytes
  -- Whether `CompressedEdwardsY(bytes).decompress()` is a point.
  pub decompresses : Bytes → Bool

abbrev pub hex_nibble : ℕ → ℕ
hex_nibble n = if ltb n 10 then b'0' + n else b'a' + (n - 10)

abbrev pub hex : Bytes → Bytes
hex [] = []
hex (b ∷ bs) = hex_nibble (b / 16) ∷ hex_nibble (b % 16) ∷ hex bs

-- The keys of the crate p256, with the encodings: the points of the curve and their signatures.
pub record Crypto : Type 0 where
  pub codec : Codec
  -- Whether `VerifyingKey::from_sec1_bytes` reads the point.
  pub on_curve : Bytes → Bool
  -- Whether `Signature::from_slice` reads the 64 bytes and `verify_prehash` accepts them, by the
  -- point, the digest and the signature.
  pub verifies : Bytes → Bytes → Bytes → Bool

abbrev pub newline : Bytes
newline = 10 ∷ []

abbrev pub plan_prefix : Bytes
plan_prefix = codes "permanu-plan-v1" ++ newline

abbrev pub rule_prefix : Bytes
rule_prefix = codes "permanu-rule-v1" ++ newline

abbrev pub spec_prefix : Bytes
spec_prefix = codes "permanu-spec-v1" ++ newline

abbrev pub key_add_prefix : Bytes
key_add_prefix = codes "permanu-key-add-v1" ++ newline

abbrev pub key_revoke_prefix : Bytes
key_revoke_prefix = codes "permanu-key-revoke-v1" ++ newline

abbrev pub spki_prefix : Bytes
spki_prefix =
    0x30 ∷ 0x59 ∷ 0x30 ∷ 0x13 ∷ 0x06 ∷ 0x07 ∷ 0x2a ∷ 0x86 ∷ 0x48 ∷ 0xce ∷ 0x3d ∷ 0x02 ∷ 0x01 ∷ 0x06
    ∷ 0x08 ∷ 0x2a ∷ 0x86 ∷ 0x48 ∷ 0xce ∷ 0x3d ∷ 0x03 ∷ 0x01 ∷ 0x07 ∷ 0x03 ∷ 0x42 ∷ 0x00 ∷ []

abbrev pub spki_length : ℕ
spki_length = 91

-- The hasher is fed the prefix and then the text.
unfoldable pub prefixed_digest : Codec → Bytes → Bytes → Bytes
prefixed_digest codec prefix canonical = codec.sha256 (prefix ++ canonical)

pub record PublicKey : Type 0 where
  pub key : Bytes
  pub key_id : Bytes

abbrev pub first_byte_is : ℕ → Bytes → Bool
first_byte_is c [] = false
first_byte_is c (b ∷ bs) = b == c

unfoldable pub parse_spki_base64 : Crypto → Bytes → Option PublicKey
unfolding same
parse_spki_base64 crypto value = elim (crypto.codec.standard_decode value) [
  | none ↦ none
  | some der ↦
      if not (length der == spki_length) || not (same (take (length spki_prefix) der) spki_prefix)
      then none
      else let point = drop (length spki_prefix) der in
        if not (first_byte_is 0x04 point) || not (crypto.on_curve point)
        then none
        else some (record {
          key = point;
          key_id = crypto.codec.b64url_encode (take 16 (crypto.codec.sha256 der));
        })
]

unfoldable pub verify_prehash : Crypto → PublicKey → Bytes → Bytes → Bool
verify_prehash crypto public_key digest raw_signature =
    if not (length raw_signature == 64)
    then false
    else crypto.verifies public_key.key digest raw_signature
