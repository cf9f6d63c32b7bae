-- ===== src/SignedPlan/Trust/Tests.antt =====
-- A trust file of two keys, and the theorems at it.
use permanu_agent.SignedPlan.Jcs.{scan_literals}
use permanu_agent.SignedPlan.Text.{key_id, label_chars_ok, reference}
use permanu_agent.SignedPlan.Trust.{key_entries, revocations_ok}
use permanu_agent.SignedPlan.Text.{uuid7}
use permanu_agent.SignedPlan.Text.Time.{checked, timestamp_byte, timestamp}
use permanu_agent.SignedPlan.Trust.Spread.{itself, below, Descends, validate_trust-Descends}
use permanu_agent.SignedPlan.Schema.{check}
use permanu_agent.SignedPlan.Trust.File.{
  Opened, invalid, valid, not_found, Metadata, read_opened, opened, load,
}
use permanu_agent.SignedPlan.Trust.Ancestry.{validate_trust-Ancestry, IsGenuine, Ancestry}
use permanu_agent.Base.Map.{Map, lookup}
use permanu_agent.SignedPlan.Value.{
  Members_of, bool, Items_of, null, integer, array, string, object, Value,
}
use permanu_agent.SignedPlan.Trust.Loads.{load-invalid, IsUsable, load-valid, IsLoaded, IsSafeFile}
use permanu_agent.SignedPlan.Trust.Superset.{
  HasActiveOwner, apply_change-owner, apply_change-IsSuperset, IsSuperset,
}
use permanu_agent.SignedPlan.Crypto.{spki_prefix, Crypto, Codec}
use permanu_agent.SignedPlan.Trust.Change.{revoke, add_key, apply_change}
use permanu_agent.SignedPlan.Strict.{Parser}
use permanu_agent.Base.{
  ◌∙◌, ap, same, ok, Option, contains, true, false, [], ◌∷◌, ◌++◌, none, some, Bytes, codes, ◌≡◌,
  refl, pos, drop, List,
}
use permanu_agent.SignedPlan.Trust.{TrustedKey, TrustStore, parent_of, validate_trust, test}

-- Encodings under which the id of a key is the start of its text, and every signature is good.
abbrev pub plain : Codec
plain = record {
  b64url_decode = λ s. some s;
  b64url_encode = λ s. s ++ codes "AAAAAA";
  standard_decode = λ s. some (spki_prefix ++ (4 ∷ s));
  standard_encode = λ s. s;
  sha256 = λ s. drop 27 s;
  decompresses = λ s. true;
}

abbrev pub crypto : Crypto
crypto = record { codec = plain; on_curve = λ p. true; verifies = λ p d s. true }

abbrev object_with : Map Value → Value
object_with m = object (Members_of m)

abbrev list_of : List Value → Value
list_of vs = array (Items_of vs)

abbrev pub owner_spki : Bytes
owner_spki = codes "OWNER-KEY-000000OWNER-KEY-000000OWNER-KEY-000000OWNER-KEY-000000"

abbrev pub owner_id : Bytes
owner_id = codes "OWNER-KEY-000000AAAAAA"

abbrev deployer_spki : Bytes
deployer_spki = codes "DEPLOYER-KEY-000DEPLOYER-KEY-000DEPLOYER-KEY-000DEPLOYER-KEY-000"

abbrev deployer_id : Bytes
deployer_id = codes "DEPLOYER-KEY-000AAAAAA"

abbrev pub added_at : Value
added_at = string (codes "2026-01-01T00:00:00Z")

abbrev pub server : Bytes
server = codes "01890a5d-ac96-774b-bcce-b302099a8057"

abbrev owner_sig : Value
owner_sig = object_with ((codes "key_id", string owner_id) ∷ (codes "sig", string owner_spki) ∷ [])

abbrev pub owner : Value
owner = object_with (
    (codes "key_id", string owner_id)
    ∷ (codes "alg", string (codes "ES256-raw"))
    ∷ (codes "spki", string owner_spki)
    ∷ (codes "label", string (codes "Owner"))
    ∷ (codes "role", string (codes "owner"))
    ∷ (codes "presence", string (codes "biometry"))
    ∷ (codes "scope", null)
    ∷ (codes "added_at", added_at)
    ∷ (codes "added_by", null)
    ∷ [])

abbrev deployer_scope : Value
deployer_scope = object_with (
    (codes "project_ids", list_of (string server ∷ []))
    ∷ (codes "environments", list_of (string (codes "production") ∷ []))
    ∷ (codes "server_level", bool false)
    ∷ [])

abbrev deployer : Value
deployer = object_with (
    (codes "key_id", string deployer_id)
    ∷ (codes "alg", string (codes "ES256-raw"))
    ∷ (codes "spki", string deployer_spki)
    ∷ (codes "label", string (codes "Deployer"))
    ∷ (codes "role", string (codes "deployer"))
    ∷ (codes "presence", string (codes "user_presence"))
    ∷ (codes "scope", deployer_scope)
    ∷ (codes "added_at", added_at)
    ∷ (codes "added_by", owner_sig)
    ∷ [])

abbrev withdrawal : Bytes → Bytes → Value
withdrawal id reason = object_with (
    (codes "key_id", string id)
    ∷ (codes "revoked_at", added_at)
    ∷ (codes "reason", string reason)
    ∷ (codes "revoked_by", owner_sig)
    ∷ [])

abbrev file : List Value → List Value → Value
file keys revocations = object_with (
    (codes "version", integer (pos 1))
    ∷ (codes "server_id", string server)
    ∷ (codes "keys", list_of keys)
    ∷ (codes "revocations", list_of revocations)
    ∷ [])

abbrev pub key_of : Bytes → Bytes → Value → TrustedKey
key_of spki id entry = record { public_key = record { key = 4 ∷ spki; key_id = id }; entry = entry }

abbrev owner_key : TrustedKey
owner_key = key_of owner_spki owner_id owner

abbrev deployer_key : TrustedKey
deployer_key = key_of deployer_spki deployer_id deployer

-- The owner's key is compromised.
abbrev broken : Value
broken = file (owner ∷ deployer ∷ []) (withdrawal owner_id (codes "compromised") ∷ [])

abbrev broken_store : TrustStore
broken_store = record {
  server_id = server;
  keys = (owner_id, owner_key) ∷ (deployer_id, deployer_key) ∷ [];
  revoked = deployer_id ∷ owner_id ∷ [];
  compromised = deployer_id ∷ owner_id ∷ [];
  revocations = (owner_id, (codes "2026-01-01T00:00:00Z", codes "compromised")) ∷ [];
  mode = test;
  document = broken;
  raw = [];
}

broken_validates : validate_trust crypto broken test ≡ ok broken_store
unfolding validate_trust check timestamp timestamp_byte checked uuid7 key_entries key_id
    label_chars_ok reference revocations_ok
broken_validates = refl

deployer_held : lookup deployer_id broken_store.keys ≡ some deployer_key
unfolding lookup same
deployer_held = refl

validate_trust-Ancestry_example :
    Ancestry crypto broken_store.keys deployer_id × IsGenuine crypto test deployer_id deployer_key
validate_trust-Ancestry_example =
    validate_trust-Ancestry crypto broken test deployer_id broken_validates deployer_held

added_by_owner : parent_of broken_store.keys deployer_id ≡ some owner_id
unfolding parent_of same
added_by_owner = refl

deployer-Descends : Descends broken_store.keys owner_id deployer_id
deployer-Descends = below itself added_by_owner

owner_compromised : contains owner_id broken_store.compromised ≡ true
unfolding contains same
owner_compromised = refl

validate_trust-Descends_example :
    (contains deployer_id broken_store.compromised ≡ true)
    × (contains deployer_id broken_store.revoked ≡ true)
validate_trust-Descends_example =
    validate_trust-Descends crypto test broken owner_id deployer_id broken_validates
      deployer-Descends owner_compromised

abbrev store_of : Map TrustedKey → Value → TrustStore
store_of keys document = record {
  server_id = server;
  keys = keys;
  revoked = [];
  compromised = [];
  revocations = [];
  mode = test;
  document = document;
  raw = [];
}

abbrev first_store : TrustStore
first_store = store_of ((owner_id, owner_key) ∷ []) (file (owner ∷ []) [])

deployer_added :
    apply_change crypto (some first_store) (add_key deployer) test
    ≡ ok (file (owner ∷ deployer ∷ []) [])
unfolding apply_change check timestamp timestamp_byte checked uuid7 key_entries key_id
    label_chars_ok reference revocations_ok
deployer_added = refl

apply_change-IsSuperset_example :
    IsSuperset (file (owner ∷ []) []) (file (owner ∷ deployer ∷ []) []) (add_key deployer)
    × ((next : TrustStore) × (validate_trust crypto (file (owner ∷ deployer ∷ []) []) test
          ≡ ok next))
apply_change-IsSuperset_example =
    apply_change-IsSuperset crypto first_store (add_key deployer) test deployer_added

abbrev second_store : TrustStore
second_store =
    store_of ((owner_id, owner_key) ∷ (deployer_id, deployer_key) ∷ [])
      (file (owner ∷ deployer ∷ []) [])

abbrev deployer_lost : Value
deployer_lost = withdrawal deployer_id (codes "lost")

deployer_revoked :
    apply_change crypto (some second_store) (revoke deployer_lost) test
    ≡ ok (file (owner ∷ deployer ∷ []) (deployer_lost ∷ []))
unfolding apply_change check timestamp timestamp_byte checked uuid7 key_entries key_id
    label_chars_ok reference revocations_ok
deployer_revoked = refl

apply_change-owner_example :
    (next : TrustStore) × (validate_trust crypto
        (file (owner ∷ deployer ∷ []) (deployer_lost ∷ []))
        test
      ≡ ok next)
    × HasActiveOwner next
apply_change-owner_example =
    apply_change-owner crypto second_store deployer_lost test deployer_revoked

-- A parser of one document.
abbrev parser : Parser
parser = record { events = λ text. some (file (owner ∷ []) []) }

abbrev root_only : Option Metadata
root_only = some (record { is_file = true; uid = 0; mode = 420; len = 2 })

abbrev loaded_store : TrustStore
loaded_store = record first_store { raw = codes "{}" }

file_loads : load parser crypto (opened root_only (some (codes "{}"))) 0 test ≡ valid loaded_store
unfolding load read_opened validate_trust check timestamp timestamp_byte checked uuid7 key_entries
    key_id label_chars_ok reference revocations_ok scan_literals
file_loads = refl

load-valid_example :
    (bytes : Bytes) × IsSafeFile 0 root_only (some (codes "{}")) bytes
    × IsLoaded parser crypto test bytes loaded_store
load-valid_example = load-valid parser crypto root_only (some (codes "{}")) 0 test file_loads

abbrev stat_in : Option Metadata → Opened → Option Metadata
stat_in other (opened stat contents) = stat
stat_in other _ = other

unreadable_exists : ¬ (opened none none ≡ not_found)
unreadable_exists h = cc

unreadable : ¬ IsUsable parser crypto (opened none none) 0 test
unreadable u =
    let no_stat : none ≡ u.stat = ap (stat_in none) u.opens in
    let stat_found = no_stat ∙ u.safe.stat_is in cc

load-invalid_example :
    (reason : Bytes) × (document : Option Value) × (load parser crypto (opened none none) 0 test
      ≡ invalid reason document)
load-invalid_example =
    load-invalid parser crypto (opened none none) 0 test unreadable_exists unreadable
