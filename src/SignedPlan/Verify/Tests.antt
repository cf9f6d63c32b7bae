-- ===== src/SignedPlan/Verify/Tests.antt =====
-- Plans that are verified, and the theorems at them.
use mathlib.Core.Option.{some-injective}
use permanu_agent.SignedPlan.Strict.Unique.{parse_strict-HasUniqueKeys, HasUniqueKeys}
use permanu_agent.SignedPlan.Verify.Envelope.{parse_envelope}
use permanu_agent.SignedPlan.Verify.Kinds.{verify_signed_plan-AllowedKind}
use permanu_agent.SignedPlan.Verify.Scope.{scope_covers}
use permanu_agent.SignedPlan.Verify.Presence.{by_kind, verify_signed_plan-NeedsOwner}
use permanu_agent.SignedPlan.Schema.Rules.{text_or_empty}
use permanu_agent.SignedPlan.Schema.Plan.{nonce, heads, actions}
use permanu_agent.SignedPlan.Text.{all_indexed, label_chars_ok, key_id, hex64, uuid7}
use permanu_agent.SignedPlan.Text.Time.{checked, timestamp_byte, timestamp}
use permanu_agent.SignedPlan.Schema.Plan.Accepted.{here, Member}
use permanu_agent.SignedPlan.Verify.Founding.{verify_bootstrap-IsFounding, IsFounding}
use permanu_agent.SignedPlan.Verify.Bootstrap.{verify_bootstrap}
use permanu_agent.SignedPlan.Verify.Capped.{HaveNoRepeats, check_rule-IsWithinRule, IsWithinRule}
use permanu_agent.SignedPlan.Verify.Fresh.{verify_signed_plan-IsTimely, IsBased, IsTimely}
use permanu_agent.SignedPlan.Verify.RulePlans.{actions_in, check_rule, Specs}
use permanu_agent.SignedPlan.Crypto.{hex, plan_prefix, prefixed_digest}
use permanu_agent.SignedPlan.Verify.Signers.{IsSigner, verify_signed_plan-Authority, Authority}
use permanu_agent.SignedPlan.Strict.{is_utf8, parse_strict, Parser}
use permanu_agent.Base.Map.{lookup, Map}
use permanu_agent.SignedPlan.Verify.Admitted.{digest_hex_of}
use permanu_agent.SignedPlan.Jcs.{scan_literals, canonicalize}
use permanu_agent.SignedPlan.Verify.Steps.{
  role_of, id_of, is_present_owner, kinds_in, by_rule, admit, VerifiedPlan, verify_signed_plan,
}
use permanu_agent.SignedPlan.Verify.{
  tid_kinds, role_allows, rule_eligible, DeliveryRecord, client, PolicyContext,
}
use permanu_agent.SignedPlan.Value.{
  index, Members_of, bool, Items_of, object, array, null, string, integer, Value,
}
use permanu_agent.Base.{
  inr, subst, ◌∙◌, if◌then◌else◌, ap, sym, inl, Bool-cases, is_some, same, ◌≤◌, contains, length,
  ok, unwrap_or, ℤ, ℕ, true, false, [], ◌∷◌, none, some, Bytes, codes, ◌≡◌, refl, pos, drop, List,
  ◌⊎◌,
}
use permanu_agent.SignedPlan.Trust.{TrustStore, test}
use permanu_agent.SignedPlan.Trust.Tests.{
  plain, crypto, owner_spki, owner_id, added_at, server, owner, key_of,
}

abbrev object_with : Map Value → Value
object_with m = object (Members_of m)

abbrev list_of : List Value → Value
list_of vs = array (Items_of vs)

abbrev an_id : Value
an_id = string server

abbrev digest_text : Bytes
digest_text = codes "0123456789abcdef0123456789abcdef0123456789abcdef0123456789abcdef"

-- A plan for the server, with one action.
abbrev plan_of : Value → Value
plan_of action = object_with (
    (codes "version", integer (pos 1))
    ∷ (codes "id", an_id)
    ∷ (codes "project_id", null)
    ∷ (codes "environment", null)
    ∷ (codes "environment_id", null)
    ∷ (codes "service_ids", list_of [])
    ∷ (codes "targets", list_of (an_id ∷ []))
    ∷ (codes "actions", list_of (action ∷ []))
    ∷ (
      codes "base",
      object_with (
          (codes "force", bool false)
          ∷ (codes "heads", object_with ((server, string digest_text) ∷ []))
          ∷ []),
    )
    ∷ (codes "created_at", added_at)
    ∷ (codes "expires_at", string (codes "2026-01-01T00:10:00Z"))
    ∷ (codes "nonce", string (codes "0123456789abcdef"))
    ∷ (
      codes "author",
      object_with ((codes "kind", string (codes "user")) ∷ (codes "agent_session_id", null) ∷ []),
    )
    ∷ (codes "invocation", null)
    ∷ [])

abbrev removal_plan : Value
removal_plan = plan_of (
    object_with (
      (codes "kind", string (codes "server.remove"))
      ∷ (codes "params", object_with ((codes "server_id", an_id) ∷ (codes "wipe", bool false) ∷ []))
      ∷ []))

abbrev owner_signature : Value
owner_signature = object_with (
    (codes "key_id", string owner_id)
    ∷ (codes "alg", string (codes "ES256-raw"))
    ∷ (codes "sig", string owner_spki)
    ∷ (codes "signed_at", added_at)
    ∷ [])

abbrev envelope_of : Value → Parser
envelope_of plan = record {
  events = λ text. some (
      object_with
        ((codes "plan", plan) ∷ (codes "signatures", list_of (owner_signature ∷ [])) ∷ []));
}

abbrev trusted : TrustStore
trusted = record {
  server_id = server;
  keys = (owner_id, key_of owner_spki owner_id owner) ∷ [];
  revoked = [];
  compromised = [];
  revocations = [];
  mode = test;
  document = null;
  raw = [];
}

-- One minute into the plan's window.
abbrev noon : ℤ
noon = pos 1_767_225_660

abbrev context : PolicyContext
context = record {
  now = noon;
  trust = trusted;
  admission_digest = λ id. ok none;
  admission_signer_key_ids = λ id digest. ok none;
  seen = λ nonce id. ok false;
  head = λ project environment. ok digest_text;
  rule = λ id. ok none;
  rule_invocations_last_hour = λ id. ok 0;
  delivery = λ id. ok none;
  last_admitted_spec = λ service. ok none;
  build_image = λ service commit. ok none;
  build_window = λ service commit. ok (none, none);
  deployed_commit = λ service ref. ok none;
  admission_scope = λ id digest. ok none;
  service_scope = λ service. ok none;
  cron_scope = λ cron. ok none;
  backup_policies = λ resource. ok [];
  environment_protected = λ project environment. ok false;
}

abbrev canonical_text : Bytes
canonical_text = unwrap_or [] (canonicalize removal_plan)

abbrev removal_verified : VerifiedPlan
removal_verified = record {
  plan = removal_plan;
  digest_hex = digest_hex_of crypto canonical_text;
  signers = owner ∷ [];
  specs = [];
}

removal_admitted :
    verify_signed_plan (envelope_of removal_plan) crypto (codes "{}") [] client context
    ≡ ok (admit removal_verified)
unfolding verify_signed_plan scan_literals uuid7 actions heads hex64 timestamp timestamp_byte
    checked nonce key_id
removal_admitted = refl

verify_signed_plan-Authority_example :
    (canonical : Bytes) × (signatures : List Value) × (parse_envelope
        (envelope_of removal_plan)
        crypto
        (codes "{}")
      ≡ ok (removal_plan, signatures))
    × (canonicalize removal_plan ≡ some canonical)
    × (digest_hex_of crypto canonical ≡ removal_verified.digest_hex)
    × Authority crypto client context removal_plan
        (prefixed_digest plain plan_prefix canonical)
        signatures
        (owner ∷ [])
verify_signed_plan-Authority_example =
    verify_signed_plan-Authority (envelope_of removal_plan) crypto (codes "{}") [] client context
      removal_admitted

removal_listed : contains (codes "server.remove") (kinds_in removal_plan) ≡ true
unfolding kinds_in contains same
removal_listed = refl

removal_always : contains (codes "server.remove") tid_kinds ≡ true
unfolding contains same
removal_always = refl

verify_signed_plan-NeedsOwner_example :
    (canonical : Bytes) × (signer : Value) × (canonicalize removal_plan ≡ some canonical)
    × Member signer (owner ∷ [])
    × (is_present_owner signer ≡ true)
    × IsSigner crypto trusted (prefixed_digest plain plan_prefix canonical) signer
verify_signed_plan-NeedsOwner_example =
    verify_signed_plan-NeedsOwner (envelope_of removal_plan) crypto (codes "{}") [] client context
      removal_admitted (by_kind (codes "server.remove") removal_listed removal_always)

verify_signed_plan-AllowedKind_example :
    ((by_rule removal_plan ≡ true) × (contains (codes "server.remove") rule_eligible ≡ true))
    ⊎ ((by_rule removal_plan ≡ false)
        × ((s : Value) × Member s (owner ∷ [])
            × (role_allows (role_of s) (codes "server.remove") ≡ true)
            × (scope_covers s removal_plan ≡ true)))
verify_signed_plan-AllowedKind_example =
    verify_signed_plan-AllowedKind (envelope_of removal_plan) crypto (codes "{}") [] client context
      (codes "server.remove") removal_admitted removal_listed

verify_signed_plan-IsTimely_example :
    IsTimely removal_plan noon
    × (context.admission_digest (id_of removal_plan) ≡ ok none)
    × (context.seen (text_or_empty (index removal_plan (codes "nonce"))) (id_of removal_plan)
        ≡ ok false)
    × IsBased removal_plan (owner ∷ []) context
verify_signed_plan-IsTimely_example =
    verify_signed_plan-IsTimely (envelope_of removal_plan) crypto (codes "{}") [] client context
      removal_admitted

-- A plan that adds this server, whose recipient is 59 bytes.
abbrev recipient : Bytes
recipient = codes "age-recipient-of-the-serverabcdefghijklmnopqrstuvwxyz012345"

abbrev founding_plan : Value
founding_plan = plan_of (
    object_with (
      (codes "kind", string (codes "server.add"))
      ∷ (
        codes "params",
        object_with (
            (codes "server_id", an_id)
            ∷ (codes "owner_key", owner)
            ∷ (codes "ssh_host_key_digest_hex", string digest_text)
            ∷ (codes "bundle_manifest_digest_hex", string digest_text)
            ∷ (codes "age_recipient_fingerprint", string (hex (drop 27 recipient)))
            ∷ []),
      )
      ∷ []))

founding_accepted :
    verify_bootstrap
      (envelope_of founding_plan)
      crypto
      (codes "{}")
      (digest_text ∷ [])
      recipient
      noon
    ≡ ok (record { server_id = server; owner_key = owner })
unfolding verify_bootstrap scan_literals uuid7 actions heads hex64 timestamp timestamp_byte checked
    nonce key_id label_chars_ok
founding_accepted = refl

verify_bootstrap-IsFounding_example :
    IsFounding
      (envelope_of founding_plan)
      crypto
      (codes "{}")
      (digest_text ∷ [])
      recipient
      noon
      (record { server_id = server; owner_key = owner })
verify_bootstrap-IsFounding_example =
    verify_bootstrap-IsFounding (envelope_of founding_plan) crypto (codes "{}") (digest_text ∷ [])
      recipient noon founding_accepted

-- A rule that scales a service to at most three replicas, and a plan of it.
abbrev scale_spec : ℕ → Value
scale_spec n = object_with (
    (codes "service_id", an_id)
    ∷ (codes "image_digest_hex", string digest_text)
    ∷ (codes "replicas", integer (pos n))
    ∷ [])

abbrev scaling : Value
scaling = object_with (
    (codes "kind", string (codes "scale"))
    ∷ (
      codes "params",
      object_with
          ((codes "service_id", an_id) ∷ (codes "spec_digest_hex", string digest_text) ∷ []),
    )
    ∷ [])

abbrev sha : Value
sha = string (codes "0123456789abcdef0123456789abcdef01234567")

abbrev scaling_plan : Value
scaling_plan = object_with (
    (codes "project_id", an_id)
    ∷ (codes "environment", string (codes "production"))
    ∷ (codes "service_ids", list_of (an_id ∷ []))
    ∷ (codes "targets", list_of (an_id ∷ []))
    ∷ (codes "actions", list_of (scaling ∷ []))
    ∷ (
      codes "invocation",
      object_with (
          (codes "trigger", string (codes "git.push"))
          ∷ (
            codes "evidence",
            object_with (
                (codes "repo", string (codes "team/app"))
                ∷ (codes "ref", string (codes "refs/heads/main"))
                ∷ (codes "delivery_id", string (codes "d1"))
                ∷ (codes "body_digest_hex", string digest_text)
                ∷ (codes "commit_sha", sha)
                ∷ (codes "commit_time", added_at)
                ∷ (codes "received_at", added_at)
                ∷ []),
          )
          ∷ []),
    )
    ∷ [])

abbrev scaling_rule : Value
scaling_rule = object_with (
    (codes "id", an_id)
    ∷ (codes "trigger", string (codes "git.push"))
    ∷ (codes "allowed_kinds", list_of (string (codes "scale") ∷ []))
    ∷ (codes "not_before", added_at)
    ∷ (codes "expires_at", string (codes "2026-02-01T00:00:00Z"))
    ∷ (
      codes "limits",
      object_with (
          (codes "max_replicas", integer (pos 3))
          ∷ (codes "max_invocations_per_hour", integer (pos 10))
          ∷ []),
    )
    ∷ (
      codes "scope",
      object_with (
          (codes "project_id", an_id)
          ∷ (codes "environment", string (codes "production"))
          ∷ (codes "server_ids", list_of (an_id ∷ []))
          ∷ (codes "service_ids", list_of (an_id ∷ []))
          ∷ (codes "repo", string (codes "team/app"))
          ∷ (codes "branch_patterns", list_of (string (codes "refs/heads/*") ∷ []))
          ∷ []),
    )
    ∷ [])

abbrev push_delivered : DeliveryRecord
push_delivered = record {
  body_digest_hex = digest_text;
  repo = codes "team/app";
  ref = codes "refs/heads/main";
  commit_sha = codes "0123456789abcdef0123456789abcdef01234567";
  commit_time = codes "2026-01-01T00:00:00Z";
  received_at = codes "2026-01-01T00:00:00Z";
  verified = true;
  consumed_by_rule_ids = [];
  environments = codes "production" ∷ [];
}

abbrev pushed : PolicyContext
pushed = record context {
  delivery = λ id. ok (some push_delivered);
  last_admitted_spec = λ service. ok (some (scale_spec 1));
}

abbrev scaled_specs : Specs
scaled_specs = (digest_text, (scale_spec 2, [])) ∷ []

scaling_allowed : check_rule scaling_plan scaling_rule pushed noon scaled_specs ≡ ok tt
unfolding check_rule timestamp timestamp_byte checked all_indexed
scaling_allowed = refl

scaling_listed : Member scaling (actions_in scaling_plan)
unfolding lookup same
scaling_listed = here

scaled_specs-HaveNoRepeats : HaveNoRepeats scaled_specs
unfolding lookup same HasUniqueKeys
scaled_specs-HaveNoRepeats digest found e = elim (Bool-cases (same digest_text digest)) [
  | inl s ↦
      let only : some (scale_spec 2, []) ≡ some found =
        sym (ap (λ b. if b then some (scale_spec 2, []) else none) s) ∙ e in
      subst (λ (f : Value × Bytes). HasUniqueKeys f.0)
        (some-injective (scale_spec 2, []) found only)
        ((refl, (refl, (refl, tt))), (tt, (tt, (tt, tt))))
  | inr s ↦ (let missing = sym (ap (λ b. if b then some (scale_spec 2, []) else none) s) ∙ e in cc)
]

check_rule-IsWithinRule_example :
    IsWithinRule scaling_plan scaling_rule pushed noon scaled_specs scaling
check_rule-IsWithinRule_example =
    check_rule-IsWithinRule scaling_plan scaling_rule pushed noon scaled_specs scaling
      scaled_specs-HaveNoRepeats scaling_allowed scaling_listed

founding_strict :
    parse_strict (record { events = λ text. some founding_plan }) (codes "{}") 64
    ≡ some founding_plan
unfolding parse_strict scan_literals same
founding_strict = refl

parse_strict-HasUniqueKeys_example :
    (length (codes "{}") ≤ 64)
    × (is_utf8 (codes "{}") ≡ true)
    × (some founding_plan ≡ some founding_plan)
    × HasUniqueKeys founding_plan
    × (is_some (canonicalize founding_plan) ≡ true)
parse_strict-HasUniqueKeys_example =
    parse_strict-HasUniqueKeys (record { events = λ text. some founding_plan }) (codes "{}") 64
      founding_plan founding_strict
