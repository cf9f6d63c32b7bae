-- ===== src/SignedPlan/Verify/Admitted.antt =====
-- What a verdict has gone through (src/signed_plan/verify.rs): the steps of `verify_signed_plan`.
use permanu_agent.SignedPlan.Jcs.{canonicalize}
use permanu_agent.SignedPlan.Verify.Specs.{bind_specs}
use permanu_agent.SignedPlan.Verify.Envelope.{verify_signatures, parse_envelope}
use permanu_agent.SignedPlan.Verify.RulePlans.{Specs}
use permanu_agent.SignedPlan.Value.{Value}
use permanu_agent.SignedPlan.Verify.{check_time, RuleRecord, PolicyContext, Submitter}
use permanu_agent.SignedPlan.Strict.{Parser}
use permanu_agent.SignedPlan.Verify.Steps.{
  check_scope, kinds_in, check_kinds, check_presence, check_base, VerifiedPlan, invoked_rule, admit,
  check_new, authority_ok, id_of, targets_self, deduped, check_replay, Verdict, verify_signed_plan,
}
use permanu_agent.SignedPlan.Crypto.{plan_prefix, prefixed_digest, hex, Crypto}
use permanu_agent.Base.{
  refl, ap, guard-eq_ok, ok_or-eq_ok, ok_inj, subst, ◌>>◌, guard, ok_or, if◌then◌else◌, bind-eq_ok,
  ok, Bool, true, false, List, Option, some, Bytes, ◌≡◌,
}

-- The steps up to the seventh, which every verdict passes.
pub record IsVerified (parser : Parser) (crypto : Crypto) (text : Bytes) (spec_texts : List Bytes)
    (submitter : Submitter) (ctx : PolicyContext) : Type 0 where
  pub plan : Value
  pub signatures : List Value
  pub specs : Specs
  pub canonical : Bytes
  pub signers : List Value
  pub rule_found : Option RuleRecord
  pub parsed : parse_envelope parser crypto text ≡ ok (plan, signatures)
  pub bound : bind_specs parser crypto plan spec_texts ≡ some specs
  pub targeted : targets_self ctx.trust plan ≡ true
  pub authorised : authority_ok submitter plan signatures ≡ true
  pub canonical_is : canonicalize plan ≡ some canonical
  pub signed :
      verify_signatures crypto
        (prefixed_digest crypto.codec plan_prefix canonical)
        ctx.trust
        signatures
      ≡ ok signers
  pub invoked : invoked_rule crypto plan ctx ≡ ok rule_found
  pub timely : check_time plan ctx.now ≡ ok tt

abbrev pub digest_hex_of : Crypto → Bytes → Bytes
digest_hex_of crypto canonical = hex (prefixed_digest crypto.codec plan_prefix canonical)

-- How the verdict was reached from there.
pub data Outcome (crypto : Crypto) (ctx : PolicyContext) (plan : Value) (signers : List Value)
    (rule_found : Option RuleRecord) (specs : Specs) (digest : Bytes) : Verdict → Type 0 where
  was_known :
      check_replay plan digest ctx ≡ ok true
      → Outcome crypto ctx plan signers rule_found specs digest (deduped (id_of plan) digest)
  was_new :
      check_replay plan digest ctx ≡ ok false
      → check_new plan signers rule_found specs ctx ≡ ok tt
      → Outcome crypto ctx plan signers rule_found specs digest
          (admit (record { plan = plan; digest_hex = digest; signers = signers; specs = specs }))

outcome :
    (crypto : Crypto) (ctx : PolicyContext) (plan : Value) (signers : List Value)
    (rule_found : Option RuleRecord) (specs : Specs) (digest : Bytes) (known : Bool)
    {verdict : Verdict}
    → check_replay plan digest ctx ≡ ok known
    → (if known
        then ok (deduped (id_of plan) digest)
        else (check_new plan signers rule_found specs ctx
            >> ok (
                admit
                  (record { plan = plan; digest_hex = digest; signers = signers; specs = specs }))))
      ≡ ok verdict
    → Outcome crypto ctx plan signers rule_found specs digest verdict
outcome crypto ctx plan signers rule_found specs digest true k h =
    subst (Outcome crypto ctx plan signers rule_found specs digest) (ok_inj h) (was_known k)
outcome crypto ctx plan signers rule_found specs digest false k h =
    let (u, passed, h') = bind-eq_ok (check_new plan signers rule_found specs ctx) _ h in
    subst (Outcome crypto ctx plan signers rule_found specs digest) (ok_inj h') (was_new k passed)

pub verify_signed_plan-IsVerified :
    (parser : Parser) (crypto : Crypto) (text : Bytes) (spec_texts : List Bytes)
    (submitter : Submitter) (ctx : PolicyContext) {verdict : Verdict}
    → verify_signed_plan parser crypto text spec_texts submitter ctx ≡ ok verdict
    → (v : IsVerified parser crypto text spec_texts submitter ctx) × Outcome crypto ctx v.plan
        v.signers v.rule_found v.specs
        (digest_hex_of crypto v.canonical)
        verdict
unfolding verify_signed_plan
verify_signed_plan-IsVerified parser crypto text spec_texts submitter ctx h =
    let (envelope, e0, h0) = bind-eq_ok (parse_envelope parser crypto text) _ h in
    let plan = envelope.0 in
    let signatures = envelope.1 in
    let (specs, e1, h1) = bind-eq_ok (ok_or _ (bind_specs parser crypto plan spec_texts)) _ h0 in
    let (u2, e2, h2) = bind-eq_ok (guard (targets_self ctx.trust plan) _) _ h1 in
    let (u3, e3, h3) = bind-eq_ok (guard (authority_ok submitter plan signatures) _) _ h2 in
    let (canonical, e4, h4) = bind-eq_ok (ok_or _ (canonicalize plan)) _ h3 in
    let digest = prefixed_digest crypto.codec plan_prefix canonical in
    let (signers, e5, h5) =
      bind-eq_ok (verify_signatures crypto digest ctx.trust signatures) _ h4 in
    let (rule_found, e6, h6) = bind-eq_ok (invoked_rule crypto plan ctx) _ h5 in
    let (u7, e7, h7) = bind-eq_ok (check_time plan ctx.now) _ h6 in
    let (known, e8, h8) = bind-eq_ok (check_replay plan (hex digest) ctx) _ h7 in
    (
      record {
        plan = plan;
        signatures = signatures;
        specs = specs;
        canonical = canonical;
        signers = signers;
        rule_found = rule_found;
        parsed = e0;
        bound = ok_or-eq_ok _ _ e1;
        targeted = guard-eq_ok _ _ e2;
        authorised = guard-eq_ok _ _ e3;
        canonical_is = ok_or-eq_ok _ _ e4;
        signed = e5;
        invoked = e6;
        timely = e7;
      },
      outcome crypto ctx plan signers rule_found specs (hex digest) known e8 h8,
    )

-- The steps 9 to 12 that an admitted plan has passed, beside the ones before.
pub record IsAdmitted (parser : Parser) (crypto : Crypto) (text : Bytes) (spec_texts : List Bytes)
    (submitter : Submitter) (ctx : PolicyContext) (verified : VerifiedPlan) : Type 0 where
  pub steps : IsVerified parser crypto text spec_texts submitter ctx
  pub plan_is : steps.plan ≡ verified.plan
  pub signers_are : steps.signers ≡ verified.signers
  pub specs_are : steps.specs ≡ verified.specs
  pub digest_is : digest_hex_of crypto steps.canonical ≡ verified.digest_hex
  pub unknown : check_replay steps.plan (digest_hex_of crypto steps.canonical) ctx ≡ ok false
  pub based : check_base steps.plan steps.signers ctx ≡ ok tt
  pub present : check_presence steps.plan steps.signers ctx ≡ ok tt
  pub allowed :
      check_kinds (kinds_in steps.plan) steps.plan steps.signers steps.rule_found ctx ≡ ok tt
  pub scoped : check_scope steps.plan steps.rule_found steps.specs ctx ≡ ok tt

reached_new :
    {parser : Parser} {crypto : Crypto} {text : Bytes} {spec_texts : List Bytes}
    {submitter : Submitter} {ctx : PolicyContext}
    (v : IsVerified parser crypto text spec_texts submitter ctx) {verdict : Verdict}
    {verified : VerifiedPlan}
    → Outcome crypto ctx v.plan v.signers v.rule_found v.specs
        (digest_hex_of crypto v.canonical)
        verdict
    → verdict ≡ admit verified
    → IsAdmitted parser crypto text spec_texts submitter ctx verified
unfolding check_new
reached_new v (was_known k) h = cc
reached_new {crypto = crypto} {ctx = ctx} v {verified = verified} (was_new k c) h =
    let is_verified = ap (λ d. elim d [ admit w ↦ w | _ ↦ verified ]) h in
    let (u0, e0, h0) = bind-eq_ok (check_base v.plan v.signers ctx) _ c in
    let (u1, e1, h1) = bind-eq_ok (check_presence v.plan v.signers ctx) _ h0 in
    let (u2, e2, h2) =
      bind-eq_ok (check_kinds (kinds_in v.plan) v.plan v.signers v.rule_found ctx) _ h1 in
    record {
      steps = v;
      plan_is = ap (λ w. w.plan) is_verified;
      signers_are = ap (λ w. w.signers) is_verified;
      specs_are = ap (λ w. w.specs) is_verified;
      digest_is = ap (λ w. w.digest_hex) is_verified;
      unknown = k;
      based = e0;
      present = e1;
      allowed = e2;
      scoped = h2;
    }

pub verify_signed_plan-IsAdmitted :
    (parser : Parser) (crypto : Crypto) (text : Bytes) (spec_texts : List Bytes)
    (submitter : Submitter) (ctx : PolicyContext) {verified : VerifiedPlan}
    → verify_signed_plan parser crypto text spec_texts submitter ctx ≡ ok (admit verified)
    → IsAdmitted parser crypto text spec_texts submitter ctx verified
verify_signed_plan-IsAdmitted parser crypto text spec_texts submitter ctx h =
    let (v, reached) =
      verify_signed_plan-IsVerified parser crypto text spec_texts submitter ctx h in
    reached_new v reached refl
