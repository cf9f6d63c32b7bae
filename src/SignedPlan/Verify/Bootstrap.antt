-- ===== src/SignedPlan/Verify/Bootstrap.antt =====
-- The bootstrap of a server without a trust file (src/signed_plan/verify.rs): `verify_bootstrap`.
use permanu_agent.SignedPlan.Strict.{Parser}
use permanu_agent.SignedPlan.Jcs.{canonicalize, encode}
use permanu_agent.SignedPlan.Crypto.{
  plan_prefix, hex, verify_prehash, prefixed_digest, parse_spki_base64, Crypto,
}
use permanu_agent.SignedPlan.Verify.RulePlans.{actions_in}
use permanu_agent.SignedPlan.Schema.Rules.{text_or_empty, single_target}
use permanu_agent.SignedPlan.Verify.{check_time, Answer}
use permanu_agent.Base.Map.{lookup}
use permanu_agent.SignedPlan.Verify.Envelope.{parse_envelope}
use permanu_agent.Base.{
  and_then, filter_option, ok_or, guard, is_nil, ◌==◌, get_elem?, length, contains, err, unwrap_or,
  same, ok, Bool, not, ◌&&◌, List, Bytes, codes, ℤ, ◌>>◌, ◌>>=◌,
}
use permanu_agent.SignedPlan.Codes.{PlanCode, parse, version, bootstrap, sig_invalid}
use permanu_agent.SignedPlan.Value.{string, is_text, same_value, null, index, Value, as_str}

pub record BootstrapPlan : Type 0 where
  pub server_id : Bytes
  pub owner_key : Value

abbrev pub version_as_parse : PlanCode → PlanCode
version_as_parse version = parse
version_as_parse code = code

abbrev pub map_err : {A : Type 0} → (PlanCode → PlanCode) → Answer A → Answer A
map_err f (ok a) = ok a
map_err f (err e) = err (f e)

abbrev pub first : List Value → Value
first vs = unwrap_or null (get_elem? vs 0)

abbrev pub add_params : Value → Value
add_params plan = index (first (actions_in plan)) (codes "params")

-- The one signature is of the owner key that the plan carries.
unfoldable pub signed_by_carried : Value → List Value → Bool
unfolding lookup same same_value
signed_by_carried owner signatures =
    length signatures == 1
    && same_value (index (first signatures) (codes "key_id")) (index owner (codes "key_id"))
    && is_text (codes "ES256-raw") (index (first signatures) (codes "alg"))

unfoldable pub carries_owner : Value → Value → Bool
unfolding lookup same
carries_owner owner plan =
    is_text (codes "owner") (index owner (codes "role"))
    && not (is_text (codes "none") (index owner (codes "presence")))
    && is_text (codes "user") (index (index plan (codes "author")) (codes "kind"))

-- The server's own key and recipient are those of the plan.
unfoldable pub names_server : Crypto → Value → List Bytes → Bytes → Bool
unfolding lookup same contains
names_server crypto params host_key_digests age_recipient =
    contains (text_or_empty (index params (codes "ssh_host_key_digest_hex"))) host_key_digests
    && not (is_nil age_recipient)
    && is_text (hex (crypto.codec.sha256 age_recipient))
        (index params (codes "age_recipient_fingerprint"))

unfoldable pub verify_bootstrap :
    Parser → Crypto → Bytes → List Bytes → Bytes → ℤ → Answer BootstrapPlan
unfolding parse_envelope lookup same single_target names_server signed_by_carried carries_owner
    parse_spki_base64 encode prefixed_digest verify_prehash check_time
verify_bootstrap parser crypto text host_key_digests age_recipient now = do
  envelope ← map_err version_as_parse (parse_envelope parser crypto text)
  let (plan, signatures) = envelope
  let actions = actions_in plan
  guard (length actions == 1 && is_text (codes "server.add") (index (first actions) (codes "kind")))
      bootstrap
  let params = add_params plan
  let server_id = text_or_empty (index params (codes "server_id"))
  guard (single_target plan (string server_id)) bootstrap
  guard (names_server crypto params host_key_digests age_recipient) bootstrap
  let owner = index params (codes "owner_key")
  guard (signed_by_carried owner signatures) bootstrap
  guard (carries_owner owner plan) bootstrap
  key ← ok_or bootstrap (
      filter_option (λ k. is_text k.key_id (index owner (codes "key_id")))
        (parse_spki_base64 crypto (text_or_empty (index owner (codes "spki")))))
  canonical ← ok_or parse (canonicalize plan)
  raw ←
      ok_or parse
        (and_then (as_str (index (first signatures) (codes "sig"))) crypto.codec.b64url_decode)
  guard (verify_prehash crypto key (prefixed_digest crypto.codec plan_prefix canonical) raw)
      sig_invalid
  check_time plan now
  ok (record { server_id = server_id; owner_key = owner })
