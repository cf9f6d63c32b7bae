-- ===== src/SignedPlan/Verify/Kinds.antt =====
-- Who may sign which kinds of action (src/signed_plan/verify.rs): step 11.
use permanu_agent.SignedPlan.Verify.Signers.{invoked_rule-IsInForce}
use permanu_agent.SignedPlan.Verify.Admitted.{verify_signed_plan-IsAdmitted}
use permanu_agent.SignedPlan.Verify.Presence.{any-Member}
use permanu_agent.SignedPlan.Verify.Scope.{signed_scope, is_foreign, scope_covers}
use permanu_agent.SignedPlan.Schema.Rules.{text_or_empty}
use permanu_agent.SignedPlan.Verify.Envelope.{verify_rule}
use permanu_agent.SignedPlan.Schema.Plan.Accepted.{here, there, Member}
use permanu_agent.SignedPlan.Crypto.{Crypto}
use permanu_agent.SignedPlan.Strict.{Parser}
use permanu_agent.SignedPlan.Verify.{
  role_allows, rule_eligible, Submitter, RuleRecord, PolicyContext, Answer,
}
use permanu_agent.SignedPlan.Value.{index, Value}
use permanu_agent.SignedPlan.Verify.Steps.{
  signed_it, is_ci, kinds_in, admit, role_of, verify_signed_plan, cancelled_params, VerifiedPlan,
  by_rule, check_kinds, cancel_signers, invoked_rule, allowed_signers, check_kind,
}
use permanu_agent.Base.{
  any, ◌∙◌, ap, is_nil, arith, sym, same_iff, ok_inj, guard-eq_ok, guard, and_elim, same, subst,
  Bool-cases, bind-eq_ok, ◌>>=◌, ok, if◌then◌else◌, contains, keep_if, Bool, true, false, not, ◌||◌,
  List, [], ◌∷◌, Option, none, some, Bytes, codes, ◌≡◌, ◌⊎◌, inl, inr,
}
use permanu_agent.SignedPlan.Codes.{kind_forbidden, scope_mismatch}

check_kinds-at :
    (kind : Bytes) (kinds : List Bytes) (plan : Value) (signers : List Value)
    (rule_found : Option RuleRecord) (ctx : PolicyContext)
    → check_kinds kinds plan signers rule_found ctx ≡ ok tt
    → contains kind kinds ≡ true
    → check_kind kind plan signers rule_found ctx ≡ ok tt
unfolding check_kinds contains
check_kinds-at kind [] plan signers rule_found ctx h c = cc
check_kinds-at kind (k ∷ kinds) plan signers rule_found ctx h c =
    let (u, e, h') = bind-eq_ok (check_kind k plan signers rule_found ctx) _ h in
    elim (Bool-cases (same k kind)) [
      | inl s ↦
          subst (λ x. check_kind x plan signers rule_found ctx ≡ ok tt) ((same_iff k kind).0 s) e
      | inr s ↦ check_kinds-at kind kinds plan signers rule_found ctx h' (ground arith)
    ]

-- What a filter keeps was there and passes.
kept_first :
    (p : Value → Bool) (v w : Value) (vs : List Value)
    → p w ≡ true
    → Member v (w ∷ keep_if p vs)
    → (Member v (keep_if p vs) → Member v vs × (p v ≡ true))
    → Member v (w ∷ vs) × (p v ≡ true)
kept_first p v w vs e (here) f = (here, e)
kept_first p v w vs e (there m) f = let (k, q) = f m in (there k, q)

keep_if-Member :
    (p : Value → Bool) (v : Value) (vs : List Value)
    → Member v (keep_if p vs)
    → Member v vs × (p v ≡ true)
keep_if-Member p v [] m = elim m [ ]
keep_if-Member p v (w ∷ vs) m = elim (Bool-cases (p w)) [
  | inl e ↦
      kept_first p v w vs e
        (subst (λ b. Member v (if b then w ∷ keep_if p vs else keep_if p vs)) e m)
        (λ k. keep_if-Member p v vs k)
  | inr e ↦
      let (k, q) =
        keep_if-Member p v vs
          (subst (λ b. Member v (if b then w ∷ keep_if p vs else keep_if p vs)) e m) in
      (there k, q)
]

-- The signers that count for a kind are signers whose role allows it.
IsAllowed : Bytes → List Value → List Value → Type 0
IsAllowed kind signers allowed =
    (s : Value) → Member s allowed → Member s signers × (role_allows (role_of s) kind ≡ true)

kept_IsAllowed :
    (kind : Bytes) (signers allowed : List Value) (p : Value → Bool)
    → IsAllowed kind signers allowed
    → IsAllowed kind signers (keep_if p allowed)
unfolding IsAllowed
kept_IsAllowed kind signers allowed p a s m = a s (keep_if-Member p s allowed m).0

either_IsAllowed :
    (kind : Bytes) (signers allowed : List Value) (some_ci : Bool)
    (answer : Answer (Option (List Bytes))) (test : Option (List Bytes) → Value → Bool)
    {left : List Value}
    → IsAllowed kind signers allowed
    → (if some_ci then (answer >>= λ ids. ok (keep_if (test ids) allowed)) else ok allowed)
      ≡ ok left
    → IsAllowed kind signers left
either_IsAllowed kind signers allowed true answer test a h =
    let (ids, e, h') = bind-eq_ok answer _ h in
    subst (IsAllowed kind signers) (ok_inj h') (kept_IsAllowed kind signers allowed (test ids) a)
either_IsAllowed kind signers allowed false answer test a h =
    subst (IsAllowed kind signers) (ok_inj h) a

cancel_signers-IsAllowed :
    (kind : Bytes) (plan : Value) (signers allowed : List Value) (ctx : PolicyContext)
    {left : List Value}
    → IsAllowed kind signers allowed
    → cancel_signers plan allowed ctx ≡ ok left
    → IsAllowed kind signers left
unfolding cancel_signers
cancel_signers-IsAllowed kind plan signers allowed ctx a h =
    let params = cancelled_params plan in
    let plan_id = text_or_empty (index params (codes "plan_id")) in
    let plan_digest = text_or_empty (index params (codes "plan_digest_hex")) in
    let (cancelled, e0, h0) = bind-eq_ok (ctx.admission_scope plan_id plan_digest) _ h in
    let (u, e1, h1) =
      bind-eq_ok (guard (not (is_foreign (signed_scope plan) cancelled)) scope_mismatch) _ h0 in
    either_IsAllowed kind signers allowed (any is_ci allowed)
      (ctx.admission_signer_key_ids plan_id plan_digest) (λ ids s. not (is_ci s) || signed_it ids s)
      a h1

allowed_signers-IsAllowed :
    (kind : Bytes) (plan : Value) (signers : List Value) (ctx : PolicyContext) {left : List Value}
    → allowed_signers kind plan signers ctx ≡ ok left
    → IsAllowed kind signers left
unfolding allowed_signers IsAllowed
allowed_signers-IsAllowed kind plan signers ctx h =
    let allows = λ (s : Value). role_allows (role_of s) kind in
    let allowed = keep_if allows signers in
    let a : IsAllowed kind signers allowed = λ s m. keep_if-Member allows s signers m in
    elim (Bool-cases (same kind (codes "operation.cancel"))) [
      | inl e ↦
          cancel_signers-IsAllowed kind plan signers allowed ctx a
            (sym (ap (λ b. if b then cancel_signers plan allowed ctx else ok allowed) e) ∙ h)
      | inr e ↦
          let left_is =
            ok_inj
              (sym (ap (λ b. if b then cancel_signers plan allowed ctx else ok allowed) e) ∙ h) in
          subst (IsAllowed kind signers) left_is a
    ]

check_kind-signer :
    (kind : Bytes) (plan : Value) (signers : List Value) (ctx : PolicyContext)
    → check_kind kind plan signers none ctx ≡ ok tt
    → (s : Value) × Member s signers
      × (role_allows (role_of s) kind ≡ true)
      × (scope_covers s plan ≡ true)
unfolding check_kind IsAllowed
check_kind-signer kind plan signers ctx h =
    let (allowed, e0, h0) = bind-eq_ok (allowed_signers kind plan signers ctx) _ h in
    let (u, e1, h1) = bind-eq_ok (guard (not (is_nil allowed)) kind_forbidden) _ h0 in
    let (s, m, covers) = any-Member (λ s. scope_covers s plan) allowed (guard-eq_ok _ _ h1) in
    let (k, allows) = allowed_signers-IsAllowed kind plan signers ctx e0 s m in
    (s, k, allows, covers)

check_kind-eligible :
    (kind : Bytes) (plan : Value) (signers : List Value) (found : RuleRecord) (ctx : PolicyContext)
    → check_kind kind plan signers (some found) ctx ≡ ok tt
    → contains kind rule_eligible ≡ true
unfolding check_kind
check_kind-eligible kind plan signers found ctx h =
    (and_elim _ (contains kind rule_eligible) (guard-eq_ok _ _ h)).1

no_rule :
    (crypto : Crypto) (plan : Value) (ctx : PolicyContext) {rule_found : Option RuleRecord}
    → by_rule plan ≡ false
    → invoked_rule crypto plan ctx ≡ ok rule_found
    → rule_found ≡ none
unfolding invoked_rule
no_rule crypto plan ctx k h =
    let invoked =
      verify_rule crypto (index plan (codes "invocation")) ctx >>= λ found. ok (some found) in
    sym (ok_inj (sym (ap (λ b. if b then invoked else ok none) k) ∙ h))

-- Every action of an admitted plan is of a kind that its authority covers: for a rule's plan, one
-- of the few kinds that rules may carry out; for any other, a kind that the role of one of its
-- signers allows, and the scope of that signer's key covers the plan.
pub verify_signed_plan-AllowedKind :
    (parser : Parser) (crypto : Crypto) (text : Bytes) (spec_texts : List Bytes)
    (submitter : Submitter) (ctx : PolicyContext) (kind : Bytes) {verified : VerifiedPlan}
    → verify_signed_plan parser crypto text spec_texts submitter ctx ≡ ok (admit verified)
    → contains kind (kinds_in verified.plan) ≡ true
    → ((by_rule verified.plan ≡ true) × (contains kind rule_eligible ≡ true))
      ⊎ ((by_rule verified.plan ≡ false)
          × ((s : Value) × Member s verified.signers
              × (role_allows (role_of s) kind ≡ true)
              × (scope_covers s verified.plan ≡ true)))
verify_signed_plan-AllowedKind parser crypto text spec_texts submitter ctx kind
      {verified = verified} h listed =
    let a = verify_signed_plan-IsAdmitted parser crypto text spec_texts submitter ctx h in
    let v = a.steps in
    let listed' = subst (λ p. contains kind (kinds_in p) ≡ true) (sym a.plan_is) listed in
    let checked =
      check_kinds-at kind (kinds_in v.plan) v.plan v.signers v.rule_found ctx a.allowed listed' in
    elim (Bool-cases (by_rule v.plan)) [
      | inl r ↦
          let (found, e, in_force) = invoked_rule-IsInForce crypto v.plan ctx r v.invoked in
          inl (
            ap by_rule (sym a.plan_is) ∙ r,
            check_kind-eligible kind v.plan v.signers found ctx
                (subst (λ o. check_kind kind v.plan v.signers o ctx ≡ ok tt) e checked),
          )
      | inr k ↦
          let without : check_kind kind v.plan v.signers none ctx ≡ ok tt =
            subst (λ o. check_kind kind v.plan v.signers o ctx ≡ ok tt)
              (no_rule crypto v.plan ctx k v.invoked) checked in
          let (s, m, allows, covers) = check_kind-signer kind v.plan v.signers ctx without in
          inr (
            ap by_rule (sym a.plan_is) ∙ k,
            (
              s,
              subst (Member s) a.signers_are m,
              allows,
              subst (λ p. scope_covers s p ≡ true) a.plan_is covers,
            ),
          )
    ]
