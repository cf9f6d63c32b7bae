-- ===== src/SignedPlan/Verify/Steps.antt =====
-- The ordered verification of a signed plan (src/signed_plan/verify.rs): `verify_signed_plan`.
use permanu_agent.SignedPlan.Strict.{Parser}
use permanu_agent.SignedPlan.Jcs.{canonicalize, encode}
use permanu_agent.SignedPlan.Crypto.{hex, plan_prefix, prefixed_digest, Crypto}
use permanu_agent.SignedPlan.Trust.{is_owner, TrustStore}
use permanu_agent.SignedPlan.Verify.Specs.{bind_specs}
use permanu_agent.SignedPlan.Verify.RulePlans.{actions_in, Specs, check_rule}
use permanu_agent.SignedPlan.Schema.Rules.{text_or_empty}
use permanu_agent.SignedPlan.Schema.Plan.{texts_by, kind_of}
use permanu_agent.SignedPlan.Verify.{
  check_time, is_webhook, tid_kinds, rule_eligible, Answer, role_allows, Submitter, RuleRecord,
  PolicyContext,
}
use permanu_agent.SignedPlan.Verify.Scope.{
  is_foreign, signed_scope, scope_covers, policy_narrows, names_in_scope,
}
use permanu_agent.SignedPlan.Verify.Envelope.{verify_signatures, verify_rule, parse_envelope}
use permanu_agent.Base.Map.{lookup}
use permanu_agent.Base.{
  ok_or, is_nil, is_some, get_elem?, if◌then◌else◌, guard, keep_if, ok, any, unwrap_or, is_some_and,
  same, contains, Bool, true, false, not, ◌&&◌, ◌||◌, List, [], ◌∷◌, Option, none, some, Bytes,
  codes, ◌>>◌, ◌>>=◌,
}
use permanu_agent.SignedPlan.Codes.{
  parse, spec_mismatch, target, author, replay, base_mismatch, force_forbidden, touch_id_required,
  kind_forbidden, key_scope, scope_mismatch,
}
use permanu_agent.SignedPlan.Value.{as_array, null, is_text, is_null, index, is_true, Value, as_str}

pub record VerifiedPlan : Type 0 where
  pub plan : Value
  pub digest_hex : Bytes
  pub signers : List Value
  pub specs : Specs

pub data Verdict : Type 0 where
  admit : VerifiedPlan → Verdict
  deduped : Bytes → Bytes → Verdict

unfoldable pub kinds_in : Value → List Bytes
unfolding lookup kind_of
kinds_in plan = texts_by kind_of (actions_in plan)

-- `VerifiedPlan::signer_key_ids` and `VerifiedPlan::scope`.
unfoldable pub signer_key_ids : VerifiedPlan → List Bytes
unfolding lookup
signer_key_ids verified = texts_by (λ s. as_str (index s (codes "key_id"))) verified.signers

unfoldable pub scope_of_plan : VerifiedPlan → Bytes × Bytes
unfolding lookup
scope_of_plan verified = (
  text_or_empty (index verified.plan (codes "project_id")),
  text_or_empty (index verified.plan (codes "environment")),
)

unfoldable pub targets_self : TrustStore → Value → Bool
unfolding lookup same
targets_self trust plan =
    is_some_and (any (is_text trust.server_id)) (as_array (index plan (codes "targets")))

unfoldable pub by_rule : Value → Bool
unfolding lookup same
by_rule plan =
    same (text_or_empty (index (index plan (codes "author")) (codes "kind"))) (codes "rule")

unfoldable pub authority_ok : Submitter → Value → List Value → Bool
unfolding lookup by_rule
authority_ok submitter plan signatures =
    let has_invocation = not (is_null (index plan (codes "invocation"))) in
    if by_rule plan
    then is_nil signatures && has_invocation && is_webhook submitter
    else not (is_nil signatures) && not has_invocation

unfoldable pub invoked_rule : Crypto → Value → PolicyContext → Answer (Option RuleRecord)
unfolding lookup by_rule verify_rule
invoked_rule crypto plan ctx =
    let invoked =
      verify_rule crypto (index plan (codes "invocation")) ctx >>= λ found. ok (some found) in
    if by_rule plan then invoked else ok none

abbrev pub id_of : Value → Bytes
id_of plan = text_or_empty (index plan (codes "id"))

-- Step 8: whether this very plan is admitted already.
unfoldable pub check_replay : Value → Bytes → PolicyContext → Answer Bool
unfolding lookup same
check_replay plan digest_hex ctx = do
  known ← ctx.admission_digest (id_of plan)
  if is_some_and (same digest_hex) known then ok true else do
    reserved ← ctx.seen (text_or_empty (index plan (codes "nonce"))) (id_of plan)
    guard (not reserved) replay
    again ← ctx.admission_digest (id_of plan)
    guard (not (is_some again)) replay
    ok false

unfoldable pub is_forced : Value → Bool
unfolding lookup
is_forced plan = is_true (index (index plan (codes "base")) (codes "force"))

abbrev pub base_head : Value → TrustStore → Value
base_head plan trust = index (index (index plan (codes "base")) (codes "heads")) trust.server_id

-- Step 9.
unfoldable pub check_base : Value → List Value → PolicyContext → Answer (Unit {0})
unfolding lookup same by_rule is_owner is_forced
check_base plan signers ctx =
    if is_forced plan
    then guard (not (by_rule plan) && any is_owner signers) force_forbidden
    else do
      head ←
          ctx.head (text_or_empty (index plan (codes "project_id")))
            (text_or_empty (index plan (codes "environment")))
      guard (is_text head (base_head plan ctx.trust)) base_mismatch

unfoldable pub is_present_owner : Value → Bool
unfolding lookup same is_owner
is_present_owner signer =
    is_owner signer && not (is_text (codes "none") (index signer (codes "presence")))

-- Step 10.
unfoldable pub needs_presence : Value → PolicyContext → Answer Bool
unfolding contains kinds_in policy_narrows
needs_presence plan ctx =
    if any (λ kind. contains kind tid_kinds) (kinds_in plan)
    then ok true
    else policy_narrows plan ctx

unfoldable pub check_presence : Value → List Value → PolicyContext → Answer (Unit {0})
unfolding by_rule needs_presence is_present_owner
check_presence plan signers ctx = do
  needed ← needs_presence plan ctx
  guard (not (needed && (by_rule plan || not (any is_present_owner signers)))) touch_id_required

abbrev pub role_of : Value → Bytes
role_of signer = text_or_empty (index signer (codes "role"))

unfoldable pub is_ci : Value → Bool
unfolding lookup same
is_ci signer = is_text (codes "ci") (index signer (codes "role"))

unfoldable pub signed_it : Option (List Bytes) → Value → Bool
unfolding lookup contains
signed_it ids signer =
    is_some_and
      (λ known. is_some_and (λ id. contains id known) (as_str (index signer (codes "key_id")))) ids

abbrev pub cancelled_params : Value → Value
cancelled_params plan = index (unwrap_or null (get_elem? (actions_in plan) 0)) (codes "params")

-- What a cancel leaves of the signers whose role allows it.
unfoldable pub cancel_signers : Value → List Value → PolicyContext → Answer (List Value)
unfolding lookup same signed_scope is_ci signed_it
cancel_signers plan allowed ctx = do
  let params = cancelled_params plan
  let plan_id = text_or_empty (index params (codes "plan_id"))
  let plan_digest = text_or_empty (index params (codes "plan_digest_hex"))
  cancelled ← ctx.admission_scope plan_id plan_digest
  guard (not (is_foreign (signed_scope plan) cancelled)) scope_mismatch
  let kept = ctx.admission_signer_key_ids plan_id plan_digest >>= λ ids.
      ok (keep_if (λ s. not (is_ci s) || signed_it ids s) allowed)
  if any is_ci allowed then kept else ok allowed

unfoldable pub allowed_signers : Bytes → Value → List Value → PolicyContext → Answer (List Value)
unfolding lookup same role_allows cancel_signers
allowed_signers kind plan signers ctx =
    let allowed = keep_if (λ s. role_allows (role_of s) kind) signers in
    if same kind (codes "operation.cancel") then cancel_signers plan allowed ctx else ok allowed

-- One turn of the loop of step 11.
unfoldable pub check_kind :
    Bytes → Value → List Value → Option RuleRecord → PolicyContext → Answer (Unit {0})
unfolding lookup same contains allowed_signers scope_covers
check_kind kind plan signers (some found) ctx =
    guard
      (is_some_and (any (is_text kind)) (as_array (index found.rule (codes "allowed_kinds")))
        && contains kind rule_eligible)
      kind_forbidden
check_kind kind plan signers none ctx = do
  allowed ← allowed_signers kind plan signers ctx
  guard (not (is_nil allowed)) kind_forbidden
  guard (any (λ s. scope_covers s plan) allowed) key_scope

unfoldable pub check_kinds :
    List Bytes → Value → List Value → Option RuleRecord → PolicyContext → Answer (Unit {0})
unfolding check_kind
check_kinds [] plan signers rule_found ctx = ok tt
check_kinds (kind ∷ kinds) plan signers rule_found ctx = do
  check_kind kind plan signers rule_found ctx
  check_kinds kinds plan signers rule_found ctx

-- Whatever the plan names is of its scope, or it is a rule's plan and step 12 decides.
unfoldable pub check_scope : Value → Option RuleRecord → Specs → PolicyContext → Answer (Unit {0})
unfolding names_in_scope check_rule
check_scope plan none specs ctx = do inside ← names_in_scope plan ctx; guard inside scope_mismatch
check_scope plan (some found) specs ctx = check_rule plan found.rule ctx ctx.now specs

-- Steps 9 to 12, on a plan that is new.
unfoldable pub check_new :
    Value → List Value → Option RuleRecord → Specs → PolicyContext → Answer (Unit {0})
unfolding check_base check_presence check_kinds check_scope kinds_in
check_new plan signers rule_found specs ctx = do
  check_base plan signers ctx
  check_presence plan signers ctx
  check_kinds (kinds_in plan) plan signers rule_found ctx
  check_scope plan rule_found specs ctx

unfoldable pub verify_signed_plan :
    Parser → Crypto → Bytes → List Bytes → Submitter → PolicyContext → Answer Verdict
unfolding parse_envelope bind_specs targets_self authority_ok encode prefixed_digest
    verify_signatures invoked_rule check_time check_replay check_new lookup
verify_signed_plan parser crypto text spec_texts submitter ctx = do
  envelope ← parse_envelope parser crypto text
  let (plan, signatures) = envelope
  specs ← ok_or spec_mismatch (bind_specs parser crypto plan spec_texts)
  guard (targets_self ctx.trust plan) target
  guard (authority_ok submitter plan signatures) author
  canonical ← ok_or parse (canonicalize plan)
  let digest = prefixed_digest crypto.codec plan_prefix canonical
  signers ← verify_signatures crypto digest ctx.trust signatures
  rule_found ← invoked_rule crypto plan ctx
  check_time plan ctx.now
  known ← check_replay plan (hex digest) ctx
  if known then ok (deduped (id_of plan) (hex digest)) else do
    check_new plan signers rule_found specs ctx
    ok (admit (record { plan = plan; digest_hex = hex digest; signers = signers; specs = specs }))
