-- ===== src/SignedPlan/Trust.antt =====
-- The trust store (src/signed_plan/trust.rs): what the file says and how it is validated. Sets are
-- lists, compared by what they contain; a reason is its text.
pub mod Change
pub mod File
pub mod Loading
pub mod Ancestry
pub mod Cascade
pub mod Spread
pub mod Superset
pub mod Loads
pub mod Tests
use permanu_agent.SignedPlan.Text.{uuid7}
use permanu_agent.SignedPlan.Schema.Rules.{text_or_empty, items_or_none}
use permanu_agent.SignedPlan.Value.{
  null, as_array, Members_of, object, as_object, index, as_str, is_text, is_null, Value,
}
use permanu_agent.SignedPlan.Schema.{
  custom, pattern_of, int_of, revocation, fields_of, key_entry, key_scope_shape_ok, object_of,
  Shape, check,
}
use permanu_agent.Base.Map.{contains_key, Map, insert, lookup}
use permanu_agent.SignedPlan.Jcs.{canonicalize, encode}
use permanu_agent.SignedPlan.Crypto.{
  key_revoke_prefix, hex, key_add_prefix, parse_spki_base64, verify_prehash, prefixed_digest, Codec,
  PublicKey, Crypto,
}
use permanu_agent.Base.{
  ◌==◌, is_nil, guard, ◌>>◌, ◌>>=◌, pos, ok_or, ◌>>=◌, all, ok, and_then, is_some_and, unwrap_or,
  Result, if◌then◌else◌, same, length, ◌*◌, codes, contains, map, Bytes, ℕ, zero, suc, ◌+◌, Bool,
  true, false, not, ◌&&◌, ◌||◌, List, [], ◌∷◌, ◌++◌, Option, none, some,
}

abbrev pub max_trust_file_bytes : ℕ
max_trust_file_bytes = 256 * 1_024

-- The public keys of the test vectors.
abbrev pub test_key_ids : List Bytes
test_key_ids =
    codes "dYLNItf797wK7n5moGt2cw"
    ∷ codes "Hph9XRkn48eogeehAgeI9A"
    ∷ codes "AqhPUHwy5byXy_JwVWyl7w"
    ∷ codes "cJWnw46mKT4S-FIYD8h8iA"
    ∷ codes "TTnId5ZJWi6UIgsNoJGjLA"
    ∷ []

pub data TrustMode : Type 0 where
  production test : TrustMode

abbrev pub is_production : TrustMode → Bool
is_production production = true
is_production test = false

pub record TrustedKey : Type 0 where
  pub public_key : PublicKey
  pub entry : Value

pub record TrustStore : Type 0 where
  pub server_id : Bytes
  pub keys : Map TrustedKey
  pub revoked : List Bytes
  pub compromised : List Bytes
  -- The time and the reason of each direct revocation.
  pub revocations : Map (Bytes × Bytes)
  pub mode : TrustMode
  pub document : Value
  pub raw : Bytes

unfoldable pub is_test_key : TrustStore → Bytes → Bool
unfolding contains
is_test_key store key_id = is_production store.mode && contains key_id test_key_ids

-- `canonicalize` fails on a number that is not safe; then the text is empty.
unfoldable pub fingerprint : Codec → Value → Bytes
unfolding encode
fingerprint codec document =
    unwrap_or [] (and_then (canonicalize document) (λ jcs. some (hex (codec.sha256 jcs))))

-- In `u64`: the file is at most 256 KiB.
unfoldable pub generation : Value → ℕ
unfolding lookup
generation document =
    length (items_or_none (index document (codes "keys")))
    + length (items_or_none (index document (codes "revocations")))

unfoldable pub is_owner : Value → Bool
unfolding lookup same
is_owner entry = is_text (codes "owner") (index entry (codes "role"))

-- The keys of the map that a set does not contain and that pass a test.
abbrev pub active_ids : (TrustedKey → Bool) → List Bytes → Map TrustedKey → List Bytes
active_ids counts revoked [] = []
active_ids counts revoked ((id, key) ∷ keys) =
    let rest = active_ids counts revoked keys in
    if counts key && not (contains id revoked) then id ∷ rest else rest

unfoldable pub active_key_count : TrustStore → ℕ
unfolding contains
active_key_count store = length (active_ids (λ key. true) store.revoked store.keys)

unfoldable pub active_owner_count : TrustStore → ℕ
unfolding contains is_owner
active_owner_count store = length (active_ids (λ key. is_owner key.entry) store.revoked store.keys)

unfoldable pub key_entries : Codec → Value → Bool
unfolding check
key_entries codec value = is_some_and (all (check codec key_entry)) (as_array value)

unfoldable pub revocations_ok : Codec → Value → Bool
unfolding check
revocations_ok codec value = is_some_and (all (check codec revocation)) (as_array value)

abbrev pub trust_file : Codec → Shape
trust_file codec = object_of (
    fields_of (
      (codes "version", int_of (pos 1) (pos 1))
      ∷ (codes "server_id", pattern_of uuid7)
      ∷ (codes "keys", custom (key_entries codec))
      ∷ (codes "revocations", custom (revocations_ok codec))
      ∷ []))

-- The digest of a statement, with the signature's member set to null.
unfoldable pub statement_digest : Codec → Value → Bytes → Bytes → Option Bytes
unfolding insert encode prefixed_digest
statement_digest codec entry prefix field = and_then (as_object entry) (λ m.
    and_then (canonicalize (object (Members_of (insert field null m))))
      (λ text. some (prefixed_digest codec prefix text)))

unfoldable pub sig_verifies : Crypto → PublicKey → Value → Bytes → Bool
unfolding lookup verify_prehash
sig_verifies crypto public_key signer digest =
    is_some_and (λ sig. verify_prehash crypto public_key digest sig)
      (and_then (as_str (index signer (codes "sig"))) crypto.codec.b64url_decode)

unfoldable pub signed_by_owner : Crypto → Map TrustedKey → Value → Option Bytes → Bool
unfolding lookup is_owner sig_verifies
signed_by_owner crypto keys signer digest =
    is_some_and
      (λ signer_id.
        is_some_and
          (λ statement.
            is_some_and
              (λ owner.
                is_owner owner.entry && sig_verifies crypto owner.public_key signer statement)
              (lookup signer_id keys))
          digest)
      (as_str (index signer (codes "key_id")))

-- The state of the loop over the keys.
pub record Loaded : Type 0 where
  pub keys : Map TrustedKey
  pub order : List Bytes

abbrev pub no_keys : Loaded
no_keys = record { keys = []; order = [] }

unfoldable pub is_root : Value → Bool
unfolding lookup is_owner
is_root entry = is_null (index entry (codes "added_by")) && is_owner entry

unfoldable pub is_added : Crypto → Map TrustedKey → Value → Bool
unfolding lookup signed_by_owner statement_digest
is_added crypto keys entry =
    signed_by_owner crypto keys (index entry (codes "added_by"))
      (statement_digest crypto.codec entry key_add_prefix (codes "added_by"))

-- One turn of the loop over the keys.
unfoldable pub load_key : Crypto → TrustMode → ℕ → Value → Loaded → Result Bytes Loaded
unfolding lookup insert same contains parse_spki_base64 key_scope_shape_ok is_root is_added
load_key crypto mode number entry loaded = do
  key_id ← ok_or (codes "schema: key_id") (as_str (index entry (codes "key_id")))
  public_key ←
      ok_or (codes "spki is not an uncompressed P-256 point")
        (parse_spki_base64 crypto (text_or_empty (index entry (codes "spki"))))
  guard (same public_key.key_id key_id) (codes "key_id does not match the spki")
  guard (not (contains_key key_id loaded.keys)) (codes "duplicate key_id")
  guard (key_scope_shape_ok entry) (codes "scope or presence does not match the role")
  guard (not (is_production mode && contains key_id test_key_ids)) (codes "lists a public TEST key")
  if number == 0
      then guard (is_root entry) (codes "keys[0] must be the TOFU owner")
      else guard (is_added crypto loaded.keys entry)
          (codes "added_by is not a valid earlier owner signature")
  ok (record {
    keys = insert key_id (record { public_key = public_key; entry = entry }) loaded.keys;
    order = loaded.order ++ (key_id ∷ []);
  })

unfoldable pub load_keys : Crypto → TrustMode → ℕ → List Value → Loaded → Result Bytes Loaded
unfolding load_key
load_keys crypto mode number [] loaded = ok loaded
load_keys crypto mode number (entry ∷ entries) loaded =
    load_key crypto mode number entry loaded >>= λ loaded'.
    load_keys crypto mode (suc number) entries loaded'

-- `BTreeSet::insert`.
abbrev pub insert_id : Bytes → List Bytes → List Bytes
insert_id id ids = if contains id ids then ids else id ∷ ids

-- The state of the loop over the revocations.
pub record Revoked : Type 0 where
  pub revoked : List Bytes
  pub compromised : List Bytes
  pub revocation_map : Map (Bytes × Bytes)

abbrev pub none_revoked : Revoked
none_revoked = record { revoked = []; compromised = []; revocation_map = [] }

unfoldable pub add_revocation : Crypto → Map TrustedKey → Value → Revoked → Result Bytes Revoked
unfolding lookup insert same contains signed_by_owner statement_digest
add_revocation crypto keys entry state = do
  key_id ← ok_or (codes "schema: key_id") (as_str (index entry (codes "key_id")))
  guard (contains_key key_id keys) (codes "revocation names an unknown key")
  guard
      (signed_by_owner crypto keys (index entry (codes "revoked_by"))
        (statement_digest crypto.codec entry key_revoke_prefix (codes "revoked_by")))
      (codes "revoked_by is not a valid owner signature")
  guard (not (contains key_id state.revoked)) (codes "key revoked twice")
  ok (record {
    revoked = key_id ∷ state.revoked;
    revocation_map =
        insert key_id
          (
            text_or_empty (index entry (codes "revoked_at")),
            text_or_empty (index entry (codes "reason")),
          )
          state.revocation_map;
    compromised =
        if is_text (codes "compromised") (index entry (codes "reason"))
        then insert_id key_id state.compromised
        else state.compromised;
  })

unfoldable pub add_revocations :
    Crypto → Map TrustedKey → List Value → Revoked → Result Bytes Revoked
unfolding add_revocation
add_revocations crypto keys [] state = ok state
add_revocations crypto keys (entry ∷ entries) state =
    add_revocation crypto keys entry state >>= λ state'. add_revocations crypto keys entries state'

unfoldable pub adder : Value → Option Bytes
unfolding lookup
adder entry = as_str (index (index entry (codes "added_by")) (codes "key_id"))

-- Who added a key. `keys[key_id]` panics on a missing key; the ids are those of the map.
unfoldable pub parent_of : Map TrustedKey → Bytes → Option Bytes
unfolding lookup adder
parent_of keys id = and_then (lookup id keys) (λ key. adder key.entry)

-- One turn of the loop that carries a compromise to the keys that a key added.
unfoldable pub carry : (Bytes → Option Bytes) → Bytes → List Bytes → List Bytes
unfolding contains
carry parent id compromised =
    if is_some_and (λ p. contains p compromised) (parent id)
    then insert_id id compromised
    else compromised

unfoldable pub cascade : (Bytes → Option Bytes) → List Bytes → List Bytes → List Bytes
unfolding carry
cascade parent [] compromised = compromised
cascade parent (id ∷ order) compromised = cascade parent order (carry parent id compromised)

-- `BTreeSet::extend`.
unfoldable pub extend : List Bytes → List Bytes → List Bytes
unfolding contains
extend [] ids = ids
extend (id ∷ more) ids = extend more (insert_id id ids)

unfoldable pub validate_trust : Crypto → Value → TrustMode → Result Bytes TrustStore
unfolding lookup check load_keys add_revocations parent_of cascade extend
validate_trust crypto value mode = do
  guard (check crypto.codec (trust_file crypto.codec) value)
      (codes "schema: unknown, missing or malformed field")
  entries ← ok_or (codes "schema: keys") (as_array (index value (codes "keys")))
  guard (not (is_nil entries)) (codes "keys[0] must be the TOFU owner")
  loaded ← load_keys crypto mode 0 entries no_keys
  withdrawn ← ok_or (codes "schema: revocations") (as_array (index value (codes "revocations")))
  state ← add_revocations crypto loaded.keys withdrawn none_revoked
  let compromised = cascade (parent_of loaded.keys) loaded.order state.compromised
  server_id ← ok_or (codes "schema: server_id") (as_str (index value (codes "server_id")))
  ok (record {
    server_id = server_id;
    keys = loaded.keys;
    revoked = extend compromised state.revoked;
    compromised = compromised;
    revocations = state.revocation_map;
    mode = mode;
    document = value;
    raw = [];
  })
