-- ===== src/SignedPlan/Verify/Envelope.antt =====
-- The envelope of a signed plan and its signatures (src/signed_plan/verify.rs).
use permanu_agent.SignedPlan.Schema.Rules.{text_or_empty}
use permanu_agent.SignedPlan.Schema.{signature, check}
use permanu_agent.SignedPlan.Verify.{max_signed_plan_bytes, RuleRecord, PolicyContext, Answer}
use permanu_agent.SignedPlan.Schema.Plan.{validate_plan}
use permanu_agent.SignedPlan.Trust.{is_test_key, TrustStore}
use permanu_agent.SignedPlan.Strict.{Parser, parse_strict}
use permanu_agent.SignedPlan.Value.{
  as_str, as_array, as_i64, get, index, is_text, as_object, same_value, Value,
}
use permanu_agent.SignedPlan.Jcs.{canonicalize, encode}
use permanu_agent.Base.Map.{remove, lookup}
use permanu_agent.SignedPlan.Crypto.{
  rule_prefix, plan_prefix, verify_prehash, newline, hex, prefixed_digest, Crypto, Codec,
}
use permanu_agent.Base.{
  map, all, leb, is_some_and, ◌==◌, filter_option, and_then, length, guard, ok, ok_or, contains,
  ◌++◌, any, is_some, same, leb_ℤ, Bool, true, false, not, ◌&&◌, ◌||◌, List, [], ◌∷◌, Option, none,
  some, Bytes, codes, ℤ, pos, ◌>>◌, ◌>>=◌,
}
use permanu_agent.SignedPlan.Codes.{
  parse, version, sig_alg, key_unknown, key_revoked, sig_invalid, rule_unknown, rule_revoked,
}

abbrev pub is_object : Value → Bool
is_object v = is_some (as_object v)

abbrev pub is_one : Option ℤ → Bool
is_one none = false
is_one (some z) = leb_ℤ z (pos 1) && leb_ℤ (pos 1) z

-- The texts of the key ids are those of the values, so they are as distinct.
unfoldable pub distinct_values : List Value → Bool
unfolding same_value
distinct_values [] = true
distinct_values (v ∷ vs) = not (any (same_value v) vs) && distinct_values vs

unfoldable pub parse_envelope : Parser → Crypto → Bytes → Answer (Value × List Value)
unfolding parse_strict lookup remove validate_plan check distinct_values
parse_envelope parser crypto text = do
  value ← ok_or parse (parse_strict parser text max_signed_plan_bytes)
  envelope ← ok_or parse (as_object value)
  guard (length envelope == 2 && is_some_and is_object (lookup (codes "plan") envelope)) parse
  signed ← ok_or parse (lookup (codes "signatures") envelope)
  plan ← ok_or parse (lookup (codes "plan") (remove (codes "signatures") envelope))
  guard (is_one (and_then (get (codes "version") plan) as_i64)) version
  signatures ← ok_or parse (as_array signed)
  guard
      (validate_plan crypto.codec plan
        && leb (length signatures) 4
        && all (check crypto.codec signature) signatures
        && distinct_values (map (λ sig. index sig (codes "key_id")) signatures))
      parse
  ok (plan, signatures)

unfoldable pub plan_digest_hex : Codec → Value → Answer Bytes
unfolding encode prefixed_digest
plan_digest_hex codec plan = do
  canonical ← ok_or parse (canonicalize plan)
  ok (hex (prefixed_digest codec plan_prefix canonical))

-- The hasher is fed the parts in turn.
unfoldable pub next_head : Codec → Bytes → Bytes → Bytes
next_head codec head_hex digest_hex =
    hex (codec.sha256 (codes "permanu-state-v1" ++ newline ++ head_hex ++ newline ++ digest_hex))

unfoldable pub verify_signature : Crypto → Value → Bytes → TrustStore → Answer Value
unfolding lookup same contains is_test_key verify_prehash
verify_signature crypto sig digest trust = do
  guard (is_text (codes "ES256-raw") (index sig (codes "alg"))) sig_alg
  let key_id = text_or_empty (index sig (codes "key_id"))
  key ←
      ok_or key_unknown
        (filter_option (λ k. not (is_test_key trust key_id)) (lookup key_id trust.keys))
  guard (not (contains key_id trust.revoked)) key_revoked
  raw ← ok_or parse (and_then (as_str (index sig (codes "sig"))) crypto.codec.b64url_decode)
  guard (verify_prehash crypto key.public_key digest raw) sig_invalid
  ok key.entry

-- The loop over the signatures.
unfoldable pub verify_signatures : Crypto → Bytes → TrustStore → List Value → Answer (List Value)
unfolding verify_signature
verify_signatures crypto digest trust [] = ok []
verify_signatures crypto digest trust (sig ∷ sigs) = do
  signer ← verify_signature crypto sig digest trust
  signers ← verify_signatures crypto digest trust sigs
  ok (signer ∷ signers)

unfoldable pub verify_rule : Crypto → Value → PolicyContext → Answer RuleRecord
unfolding lookup same contains encode prefixed_digest
verify_rule crypto invocation ctx = do
  let rule_id = text_or_empty (index invocation (codes "rule_id"))
  let claimed = text_or_empty (index invocation (codes "rule_digest_hex"))
  found ← ctx.rule rule_id
  record_of ← ok_or rule_unknown found
  let recomputed =
      and_then (canonicalize record_of.rule)
        (λ canonical. some (hex (prefixed_digest crypto.codec rule_prefix canonical)))
  guard
      (is_text rule_id (index record_of.rule (codes "id"))
        && same record_of.rule_digest_hex claimed
        && is_some_and (same claimed) recomputed)
      rule_unknown
  guard (not (record_of.revoked || contains record_of.created_by_key_id ctx.trust.compromised))
      rule_revoked
  ok record_of
