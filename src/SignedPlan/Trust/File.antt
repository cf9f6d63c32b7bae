-- ===== src/SignedPlan/Trust/File.antt =====
-- Reading the trust file (src/signed_plan/trust.rs): `read_trust_bytes` and `load`. What the file
-- system answers is a parameter.
use permanu_agent.SignedPlan.Value.{Value}
use permanu_agent.SignedPlan.Crypto.{Crypto}
use permanu_agent.SignedPlan.Strict.{Parser, parse_strict}
use permanu_agent.SignedPlan.Trust.{max_trust_file_bytes, TrustMode, validate_trust, TrustStore}
use permanu_agent.Base.{
  length, take, leb, bit_and, ◌==◌, guard, err, codes, ok, ok_or, Bytes, Result, ℕ, ◌+◌, Bool,
  Option, none, some, ◌>>◌, ◌>>=◌,
}

pub record Metadata : Type 0 where
  pub is_file : Bool
  pub uid : ℕ
  pub mode : ℕ
  pub len : ℕ

-- What opening a path with `O_NOFOLLOW` gives; a failing `metadata` or `read_to_end` is `none`.
pub data Opened : Type 0 where
  not_found : Opened
  not_opened : Opened
  opened : Option Metadata → Option Bytes → Opened

unfoldable pub read_opened : ℕ → Option Metadata → Option Bytes → Result Bytes (Option Bytes)
read_opened owner_uid stat contents = do
  metadata ← ok_or (codes "cannot stat") stat
  guard metadata.is_file (codes "not a regular file")
  guard (metadata.uid == owner_uid) (codes "not owned by root")
  guard (bit_and metadata.mode 18 == 0) (codes "group- or world-writable")
  guard (leb metadata.len max_trust_file_bytes) (codes "larger than 256 KiB")
  all_bytes ← ok_or (codes "cannot read") contents
  let bytes = take (max_trust_file_bytes + 1) all_bytes
  guard (leb (length bytes) max_trust_file_bytes) (codes "larger than 256 KiB")
  ok (some bytes)

unfoldable pub read_trust_bytes : Opened → ℕ → Result Bytes (Option Bytes)
unfolding read_opened
read_trust_bytes not_found owner_uid = ok none
read_trust_bytes not_opened owner_uid = err (codes "cannot open (symlink or permission)")
read_trust_bytes (opened stat contents) owner_uid = read_opened owner_uid stat contents

pub data TrustState : Type 0 where
  absent : TrustState
  valid : TrustStore → TrustState
  invalid : Bytes → Option Value → TrustState

unfoldable pub validated : Bytes → Value → Result Bytes TrustStore → TrustState
validated bytes document (ok store) = valid (record store { raw = bytes })
validated bytes document (err reason) = invalid reason (some document)

-- The rest of `load`, once the bytes are parsed and once they are read.
unfoldable pub load_parsed : Crypto → TrustMode → Bytes → Option Value → TrustState
unfolding validate_trust validated
load_parsed crypto mode bytes none = invalid (codes "not strict JSON") none
load_parsed crypto mode bytes (some document) =
    validated bytes document (validate_trust crypto document mode)

unfoldable pub load_read : Parser → Crypto → TrustMode → Result Bytes (Option Bytes) → TrustState
unfolding parse_strict load_parsed
load_read parser crypto mode (err reason) = invalid reason none
load_read parser crypto mode (ok none) = absent
load_read parser crypto mode (ok (some bytes)) =
    load_parsed crypto mode bytes (parse_strict parser bytes max_trust_file_bytes)

unfoldable pub load : Parser → Crypto → Opened → ℕ → TrustMode → TrustState
unfolding read_trust_bytes load_read
load parser crypto file owner_uid mode =
    load_read parser crypto mode (read_trust_bytes file owner_uid)
