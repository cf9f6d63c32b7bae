-- ===== src/SignedPlan/Verify/Presence.antt =====
-- Which keys a plan needs (src/signed_plan/verify.rs): steps 10 and 11.
use permanu_agent.SignedPlan.Codes.{touch_id_required}
use permanu_agent.SignedPlan.Verify.Admitted.{verify_signed_plan-IsAdmitted}
use permanu_agent.SignedPlan.Jcs.{canonicalize}
use permanu_agent.SignedPlan.Verify.Signers.{
  AreSigned-IsSigner, verify_signed_plan-Authority, by_standing_rule, by_keys, IsSigner, Authority,
}
use permanu_agent.SignedPlan.Schema.Plan.Accepted.{here, there, any-contains, Member}
use permanu_agent.SignedPlan.Verify.Scope.{policy_narrows}
use permanu_agent.SignedPlan.Crypto.{plan_prefix, prefixed_digest, Crypto}
use permanu_agent.SignedPlan.Verify.{tid_kinds, PolicyContext, Submitter, Answer}
use permanu_agent.SignedPlan.Verify.Steps.{
  admit, kinds_in, verify_signed_plan, is_present_owner, by_rule, VerifiedPlan, check_presence,
  needs_presence,
}
use permanu_agent.SignedPlan.Strict.{Parser}
use permanu_agent.Base.{
  guard-eq_ok, ◌∙◌, subst, guard, ◌>>=◌, ap, Bool-cases, sym, refl, if◌then◌else◌, contains, All,
  ok, any, arith, Bool, true, false, not, ◌&&◌, ◌||◌, List, [], ◌∷◌, some, Bytes, ◌≡◌, ◌⊎◌, inl,
  inr,
}
use permanu_agent.SignedPlan.Value.{Value}

-- A plan that an owner must sign with a key that asks for presence: it has an action of such a
-- kind, or it narrows a backup policy.
pub data NeedsOwner (plan : Value) (ctx : PolicyContext) : Type 0 where
  by_kind :
      (kind : Bytes)
      → contains kind (kinds_in plan) ≡ true
      → contains kind tid_kinds ≡ true
      → NeedsOwner plan ctx
  by_policy : policy_narrows plan ctx ≡ ok true → NeedsOwner plan ctx

needs_presence_on :
    (listed : Bool) (narrows : Answer Bool)
    → (listed ≡ true) ⊎ (narrows ≡ ok true)
    → (if listed then ok true else narrows) ≡ ok true
needs_presence_on true narrows s = refl
needs_presence_on false narrows s = elim s [ inl e ↦ cc | inr e ↦ e ]

NeedsOwner-needs_presence :
    (plan : Value) (ctx : PolicyContext) → NeedsOwner plan ctx → needs_presence plan ctx ≡ ok true
unfolding needs_presence
NeedsOwner-needs_presence plan ctx (by_kind kind listed always) =
    needs_presence_on _ (policy_narrows plan ctx)
      (inl (any-contains (λ k. contains k tid_kinds) kind (kinds_in plan) listed always))
NeedsOwner-needs_presence plan ctx (by_policy n) =
    needs_presence_on _ (policy_narrows plan ctx) (inr n)

owner_signed :
    (is_rule some_owner : Bool)
    → not (true && (is_rule || not some_owner)) ≡ true
    → (is_rule ≡ false) × (some_owner ≡ true)
owner_signed is_rule some_owner h = ground arith

check_presence-owner :
    (plan : Value) (signers : List Value) (ctx : PolicyContext)
    → check_presence plan signers ctx ≡ ok tt
    → needs_presence plan ctx ≡ ok true
    → (by_rule plan ≡ false) × (any is_present_owner signers ≡ true)
unfolding check_presence
check_presence-owner plan signers ctx h n =
    let h' =
      sym (
        ap
          (λ m. m >>= λ needed.
            guard (not (needed && (by_rule plan || not (any is_present_owner signers))))
              touch_id_required)
          n)
      ∙ h in
    owner_signed (by_rule plan) (any is_present_owner signers) (guard-eq_ok _ _ h')

-- Some value of a list passes the test.
pub any-Member :
    (p : Value → Bool) (vs : List Value)
    → any p vs ≡ true
    → (v : Value) × Member v vs × (p v ≡ true)
any-Member p [] h = cc
any-Member p (v ∷ vs) h = elim (Bool-cases (p v)) [
  | inl e ↦ (v, here, e)
  | inr e ↦
      let later : any p vs ≡ true = ground arith in
      let (w, m, q) = any-Member p vs later in (w, there m, q)
]

pub All-Member : (P : Value → Type 0) (v : Value) (vs : List Value) → All P vs → Member v vs → P v
All-Member P v [] a m = elim m [ ]
All-Member P v (w ∷ vs) a (here) = a.0
All-Member P v (w ∷ vs) a (there m) = All-Member P v vs a.1 m

keys_signed :
    {crypto : Crypto} {submitter : Submitter} {ctx : PolicyContext} {plan : Value} {digest : Bytes}
    {signatures signers : List Value}
    → by_rule plan ≡ false
    → Authority crypto submitter ctx plan digest signatures signers
    → All (IsSigner crypto ctx.trust digest) signers
keys_signed {crypto = crypto} {ctx = ctx} {digest = digest} {signatures = sigs} {signers = signers}
      k (by_keys n s good) =
    AreSigned-IsSigner crypto ctx.trust digest sigs signers good
keys_signed k (by_standing_rule found r w n good f) = cc

-- A plan with an action of a kind that always needs a present owner, or one that narrows a backup
-- policy, is admitted only when one of its good signatures is of an owner key that asks for
-- presence; no rule can stand in for it.
pub verify_signed_plan-NeedsOwner :
    (parser : Parser) (crypto : Crypto) (text : Bytes) (spec_texts : List Bytes)
    (submitter : Submitter) (ctx : PolicyContext) {verified : VerifiedPlan}
    → verify_signed_plan parser crypto text spec_texts submitter ctx ≡ ok (admit verified)
    → NeedsOwner verified.plan ctx
    → (canonical : Bytes) × (signer : Value) × (canonicalize verified.plan ≡ some canonical)
      × Member signer verified.signers
      × (is_present_owner signer ≡ true)
      × IsSigner crypto ctx.trust (prefixed_digest crypto.codec plan_prefix canonical) signer
verify_signed_plan-NeedsOwner parser crypto text spec_texts submitter ctx {verified = verified} h
      n =
    let a = verify_signed_plan-IsAdmitted parser crypto text spec_texts submitter ctx h in
    let (canonical, signatures, parsed, c, d, authority) =
      verify_signed_plan-Authority parser crypto text spec_texts submitter ctx h in
    let present : check_presence verified.plan verified.signers ctx ≡ ok tt =
      subst (λ p. check_presence p verified.signers ctx ≡ ok tt) a.plan_is
        (subst (λ s. check_presence a.steps.plan s ctx ≡ ok tt) a.signers_are a.present) in
    let (by_key, owner) =
      check_presence-owner verified.plan verified.signers ctx present
        (NeedsOwner-needs_presence verified.plan ctx n) in
    let (signer, m, is_owner_key) = any-Member is_present_owner verified.signers owner in
    (
      canonical,
      signer,
      c,
      m,
      is_owner_key,
      All-Member (IsSigner crypto ctx.trust (prefixed_digest crypto.codec plan_prefix canonical))
          signer verified.signers (keys_signed by_key authority) m,
    )
