-- ===== src/SignedPlan/Verify/RulePlans.antt =====
-- Step 12 for the plans of standing rules (src/signed_plan/verify.rs): `check_rule`.
use permanu_agent.SignedPlan.Text.Time.{timestamp}
use permanu_agent.SignedPlan.Verify.{
  skew_seconds, DeliveryRecord, webhook_ttl_seconds, Answer, PolicyContext, time_of,
}
use permanu_agent.SignedPlan.Schema.Grammars.{is_none_or}
use permanu_agent.SignedPlan.Value.{
  as_i64, is_null, Members_of, object, as_array, as_object, is_text, index, Value, same_value,
}
use permanu_agent.Base.Map.{Map, insert, lookup}
use permanu_agent.Base.{
  min, all, ◌-◌, ltb, starts_with, ◌==◌, ◌^◌, if◌then◌else◌, filter_option, ◌-ℤ◌, ok_or, unwrap_or,
  guard, ok, length, any, ends_with, ltb_ℤ, strip_suffix, contains, leb_ℤ, is_some_and, same, ◌+ℤ◌,
  Bool, false, not, ◌&&◌, ◌||◌, List, [], ◌∷◌, Option, none, some, Bytes, codes, ℤ, pos, ◌>>◌,
  ◌>>=◌,
}
use permanu_agent.SignedPlan.Codes.{rule_window, rule_scope, rule_limit, rule_evidence, rule_spec}
use permanu_agent.SignedPlan.Schema.Rules.{items_or_none, text_or_empty}

unfoldable pub ref_matches : Bytes → Bytes → Bool
unfolding same strip_suffix ends_with starts_with
ref_matches ref pattern_text =
    same ref pattern_text
    || is_some_and
        (λ prefix.
          ends_with (codes "/*") pattern_text
          && starts_with prefix ref
          && ltb (length prefix) (length ref))
        (strip_suffix (codes "*") pattern_text)

unfoldable pub string_in : Value → Value → Bool
unfolding same_value
string_in set value = is_some_and (any (λ item. same_value item value)) (as_array set)

abbrev pub Specs : Type 0
Specs = Map (Value × Bytes)

abbrev pub actions_in : Value → List Value
actions_in plan = items_or_none (index plan (codes "actions"))

unfoldable pub rule_scope_ok : Value → Value → Bool
unfolding lookup same_value string_in ref_matches
rule_scope_ok plan rule =
    let invocation = index plan (codes "invocation") in
    let evidence = index invocation (codes "evidence") in
    let scope = index rule (codes "scope") in
    let targets = items_or_none (index plan (codes "targets")) in
    same_value (index invocation (codes "trigger")) (index rule (codes "trigger"))
    && same_value (index plan (codes "project_id")) (index scope (codes "project_id"))
    && same_value (index plan (codes "environment")) (index scope (codes "environment"))
    && length targets == 1
    && all (string_in (index scope (codes "server_ids"))) targets
    && all (string_in (index scope (codes "service_ids")))
        (items_or_none (index plan (codes "service_ids")))
    && same_value (index evidence (codes "repo")) (index scope (codes "repo"))
    && is_some_and
        (any (λ p. ref_matches (text_or_empty (index evidence (codes "ref"))) (text_or_empty p)))
        (as_array (index scope (codes "branch_patterns")))

-- `spec["replicas"].as_i64().unwrap_or(i64::MAX) > max`, where the rule has a limit.
unfoldable pub over_limit : Option ℤ → Value → Bool
unfolding lookup
over_limit none value = false
over_limit (some most) value =
    ltb_ℤ most (unwrap_or (pos (2 ^ 63 - 1)) (as_i64 (index value (codes "replicas"))))

abbrev pub digest_of : Value → Bytes
digest_of action = text_or_empty (index (index action (codes "params")) (codes "spec_digest_hex"))

unfoldable pub check_replicas : Option ℤ → Specs → List Value → Answer (Unit {0})
unfolding lookup over_limit
check_replicas most specs [] = ok tt
check_replicas most specs (action ∷ actions) = do
  found ← ok_or rule_spec (lookup (digest_of action) specs)
  guard (not (over_limit most found.0)) rule_limit
  check_replicas most specs actions

unfoldable pub delivery_matches : Value → Bytes → Bytes → DeliveryRecord → Bool
unfolding lookup same contains
delivery_matches evidence rule_id environment delivery =
    not (contains rule_id delivery.consumed_by_rule_ids)
    && contains environment delivery.environments
    && is_text delivery.body_digest_hex (index evidence (codes "body_digest_hex"))
    && is_text delivery.repo (index evidence (codes "repo"))
    && is_text delivery.ref (index evidence (codes "ref"))
    && is_text delivery.commit_sha (index evidence (codes "commit_sha"))
    && is_text delivery.commit_time (index evidence (codes "commit_time"))
    && is_text delivery.received_at (index evidence (codes "received_at"))

unfoldable pub window_fresh : ℤ → ℤ → Option ℤ × Option ℤ → Bool
unfolding ◌+ℤ◌
window_fresh received now (some started, some built) =
    leb_ℤ started (received +ℤ webhook_ttl_seconds) && leb_ℤ now (built +ℤ webhook_ttl_seconds)
window_fresh received now _ = false

unfoldable pub is_kind : Bytes → Value → Bool
unfolding lookup same
is_kind kind action = is_text kind (index action (codes "kind"))

abbrev pub service_in : Value → Bytes
service_in action = text_or_empty (index (index action (codes "params")) (codes "service_id"))

-- A loop over the actions that skips those of other kinds.
unfoldable pub each_of_kind : Bytes → (Value → Answer (Unit {0})) → List Value → Answer (Unit {0})
unfolding is_kind
each_of_kind kind turn [] = ok tt
each_of_kind kind turn (action ∷ actions) =
    let rest = each_of_kind kind turn actions in
    if is_kind kind action then turn action >> rest else rest

-- The turns of the four loops that follow.
unfoldable pub check_built : PolicyContext → Bytes → ℤ → ℤ → Value → Answer (Unit {0})
unfolding lookup window_fresh
check_built ctx commit_sha received now action = do
  window ← ctx.build_window (service_in action) commit_sha
  guard (window_fresh received now window) rule_evidence

unfoldable pub stale_commit : Bytes → ℤ → Option (Bytes × Bytes) → Bool
unfolding same
stale_commit commit_sha commit_time none = false
stale_commit commit_sha commit_time (some (sha, time)) =
    same sha commit_sha || is_none_or (λ deployed. ltb_ℤ commit_time deployed) (timestamp time)

unfoldable pub check_commit : PolicyContext → Bytes → Bytes → ℤ → Value → Answer (Unit {0})
unfolding lookup same stale_commit
check_commit ctx commit_sha ref commit_time action = do
  guard (is_text commit_sha (index (index action (codes "params")) (codes "commit_sha")))
      rule_evidence
  deployed ← ctx.deployed_commit (service_in action) ref
  guard (not (stale_commit commit_sha commit_time deployed)) rule_evidence

-- `let mut rebased = spec.clone(); rebased[field] = base[field].clone()`: a specification is an
-- object.
unfoldable pub rebased : Bytes → Value → Value → Value
unfolding lookup insert
rebased field value base = elim (as_object value) [
  | none ↦ value
  | some m ↦ object (Members_of (insert field (index base field) m))
]

unfoldable pub check_image : PolicyContext → Bytes → Specs → Value → Answer (Unit {0})
unfolding lookup same same_value rebased
check_image ctx commit_sha specs action = do
  found ← ok_or rule_spec (lookup (digest_of action) specs)
  admitted ← ctx.last_admitted_spec (service_in action)
  base ← ok_or rule_spec admitted
  image ← ctx.build_image (service_in action) commit_sha
  build ← ok_or rule_spec image
  guard (is_text build (index found.0 (codes "image_digest_hex"))) rule_spec
  guard (same_value (rebased (codes "image_digest_hex") found.0 base) base) rule_spec

unfoldable pub check_scaled : PolicyContext → Specs → Value → Answer (Unit {0})
unfolding lookup same_value rebased
check_scaled ctx specs action = do
  found ← ok_or rule_spec (lookup (digest_of action) specs)
  admitted ← ctx.last_admitted_spec (service_in action)
  base ← ok_or rule_spec admitted
  guard (same_value (rebased (codes "replicas") found.0 base) base) rule_spec

abbrev pub limit_of : Value → Bytes → Value
limit_of rule name = index (index rule (codes "limits")) name

-- The tests of the rule's window, scope and limits.
unfoldable pub check_limits : Value → Value → PolicyContext → ℤ → Specs → Answer (Unit {0})
unfolding lookup same time_of rule_scope_ok check_replicas
check_limits plan rule ctx now specs = do
  not_before ← time_of (index rule (codes "not_before"))
  rule_expires ← time_of (index rule (codes "expires_at"))
  guard (leb_ℤ not_before now && leb_ℤ now rule_expires) rule_window
  let project = text_or_empty (index plan (codes "project_id"))
  let environment = text_or_empty (index plan (codes "environment"))
  guard (rule_scope_ok plan rule) rule_scope
  guarded ← ctx.environment_protected project environment
  guard (not guarded) rule_scope
  let lists_scale =
      is_some_and (any (is_text (codes "scale"))) (as_array (index rule (codes "allowed_kinds")))
  guard (not (lists_scale && is_null (limit_of rule (codes "max_replicas")))) rule_limit
  check_replicas (as_i64 (limit_of rule (codes "max_replicas"))) specs (actions_in plan)
  invoked ← ctx.rule_invocations_last_hour (text_or_empty (index rule (codes "id")))
  guard
      (ltb_ℤ (pos (min invoked (2 ^ 63 - 1)))
        (unwrap_or (pos 0) (as_i64 (limit_of rule (codes "max_invocations_per_hour")))))
      rule_limit

-- The tests of the delivery that the plan names as its evidence, and of the builds.
unfoldable pub check_evidence : Value → Value → PolicyContext → ℤ → Specs → Answer (Unit {0})
unfolding lookup time_of delivery_matches each_of_kind check_built check_commit ◌+ℤ◌ ◌-ℤ◌
check_evidence plan rule ctx now specs = do
  let evidence = index (index plan (codes "invocation")) (codes "evidence")
  let rule_id = text_or_empty (index rule (codes "id"))
  let environment = text_or_empty (index plan (codes "environment"))
  found ← ctx.delivery (text_or_empty (index evidence (codes "delivery_id")))
  delivery ← ok_or rule_evidence (filter_option (λ d. d.verified) found)
  guard (delivery_matches evidence rule_id environment delivery) rule_evidence
  received ← time_of (index evidence (codes "received_at"))
  guard (not (ltb_ℤ now (received -ℤ skew_seconds))) rule_evidence
  let commit_sha = text_or_empty (index evidence (codes "commit_sha"))
  let built =
      each_of_kind (codes "deploy") (check_built ctx commit_sha received now) (actions_in plan)
  if ltb_ℤ (received +ℤ webhook_ttl_seconds) now then built else ok tt
  commit_time ← time_of (index evidence (codes "commit_time"))
  each_of_kind (codes "deploy")
      (check_commit ctx commit_sha (text_or_empty (index evidence (codes "ref"))) commit_time)
      (actions_in plan)

unfoldable pub check_rule : Value → Value → PolicyContext → ℤ → Specs → Answer (Unit {0})
unfolding lookup check_limits check_evidence each_of_kind check_image check_scaled
check_rule plan rule ctx now specs = do
  check_limits plan rule ctx now specs
  check_evidence plan rule ctx now specs
  let evidence = index (index plan (codes "invocation")) (codes "evidence")
  let commit_sha = text_or_empty (index evidence (codes "commit_sha"))
  each_of_kind (codes "deploy") (check_image ctx commit_sha specs) (actions_in plan)
  each_of_kind (codes "scale") (check_scaled ctx specs) (actions_in plan)
