-- ===== src/SignedPlan/Verify/Fresh.antt =====
-- When a plan is new and in time (src/signed_plan/verify.rs): steps 7 to 9.
use permanu_agent.SignedPlan.Verify.Admitted.{digest_hex_of, verify_signed_plan-IsAdmitted}
use permanu_agent.SignedPlan.Trust.{is_owner}
use permanu_agent.SignedPlan.Crypto.{Crypto}
use permanu_agent.SignedPlan.Schema.Rules.{text_or_empty}
use permanu_agent.SignedPlan.Strict.{Parser}
use permanu_agent.SignedPlan.Value.{is_text, index, Value}
use permanu_agent.SignedPlan.Verify.Steps.{
  admit, base_head, verify_signed_plan, VerifiedPlan, by_rule, is_forced, id_of, check_base,
  check_replay,
}
use permanu_agent.SignedPlan.Verify.{
  skew_seconds, max_lifetime_seconds, Submitter, time_of, PolicyContext, Answer, check_time,
}
use permanu_agent.Base.{
  ◌-ℤ◌, ◌+ℤ◌, ◌≤ℤ◌, ◌<ℤ◌, and_elim, subst, not-eq_true, sym, guard-eq_ok, Bool-cases, ap, ◌∙◌, same,
  any, ◌>>=◌, guard, is_some_and, bind-eq_ok, arith, ok_inj, refl, ◌<ℤ◌, if◌then◌else◌, ok, ◌≤ℤ◌,
  ltb_ℤ, leb_ℤ, is_some, Bool, true, false, not, ◌&&◌, List, Option, none, some, Bytes, codes, ◌≡◌,
  ◌⊎◌, inl, inr, ℤ, pos,
}
use permanu_agent.SignedPlan.Codes.{replay, lifetime, not_yet_valid, force_forbidden, base_mismatch}

leb_ℤ-≤ℤ : (a b : ℤ) → leb_ℤ a b ≡ true → a ≤ℤ b
leb_ℤ-≤ℤ a b h = ground arith

ltb_ℤ-<ℤ : (a b : ℤ) → ltb_ℤ a b ≡ true → a <ℤ b
ltb_ℤ-<ℤ a b h = ground arith

not-ltb_ℤ : (a b : ℤ) → not (ltb_ℤ a b) ≡ true → b ≤ℤ a
not-ltb_ℤ a b h = ground arith

-- The window of a plan, with two minutes of skew at both ends.
pub record IsTimely (plan : Value) (now : ℤ) : Type 0 where
  pub created : ℤ
  pub expires : ℤ
  pub created_is : time_of (index plan (codes "created_at")) ≡ ok created
  pub expires_is : time_of (index plan (codes "expires_at")) ≡ ok expires
  pub lasts : pos 0 <ℤ (expires -ℤ created)
  pub bounded : (expires -ℤ created) ≤ℤ max_lifetime_seconds
  pub begun : created ≤ℤ (now +ℤ skew_seconds)
  pub unexpired : now ≤ℤ (expires +ℤ skew_seconds)

pub check_time-IsTimely : (plan : Value) (now : ℤ) → check_time plan now ≡ ok tt → IsTimely plan now
unfolding check_time
check_time-IsTimely plan now h =
    let (created, e0, h0) = bind-eq_ok (time_of (index plan (codes "created_at"))) _ h in
    let (expires, e1, h1) = bind-eq_ok (time_of (index plan (codes "expires_at"))) _ h0 in
    let (u2, e2, h2) =
      bind-eq_ok
        (guard
          (ltb_ℤ (pos 0) (expires -ℤ created) && leb_ℤ (expires -ℤ created) max_lifetime_seconds)
          lifetime)
        _ h1 in
    let (u3, e3, h3) =
      bind-eq_ok (guard (not (ltb_ℤ (now +ℤ skew_seconds) created)) not_yet_valid) _ h2 in
    let (lasts, bounded) =
      and_elim (ltb_ℤ (pos 0) (expires -ℤ created))
        (leb_ℤ (expires -ℤ created) max_lifetime_seconds) (guard-eq_ok _ _ e2) in
    record {
      created = created;
      expires = expires;
      created_is = e0;
      expires_is = e1;
      lasts = ltb_ℤ-<ℤ (pos 0) (expires -ℤ created) lasts;
      bounded = leb_ℤ-≤ℤ (expires -ℤ created) max_lifetime_seconds bounded;
      begun = not-ltb_ℤ (now +ℤ skew_seconds) created (guard-eq_ok _ _ e3);
      unexpired = not-ltb_ℤ (expires +ℤ skew_seconds) now (guard-eq_ok _ _ h3);
    }

not_known :
    (known : Bool) (rest : Answer Bool)
    → (if known then ok true else rest) ≡ ok false
    → rest ≡ ok false
not_known true rest h = (let impossible : true ≡ false = ok_inj h in cc)
not_known false rest h = h

is_none : {A : Type 0} (o : Option A) → not (is_some o) ≡ true → o ≡ none
is_none none h = refl
is_none (some a) h = cc

check_replay-new :
    (plan : Value) (digest : Bytes) (ctx : PolicyContext)
    → check_replay plan digest ctx ≡ ok false
    → (ctx.admission_digest (id_of plan) ≡ ok none)
      × (ctx.seen (text_or_empty (index plan (codes "nonce"))) (id_of plan) ≡ ok false)
unfolding check_replay
check_replay-new plan digest ctx h =
    let (known, e0, h0) = bind-eq_ok (ctx.admission_digest (id_of plan)) _ h in
    let h1 = not_known (is_some_and (same digest) known) _ h0 in
    let (reserved, e2, h2) =
      bind-eq_ok (ctx.seen (text_or_empty (index plan (codes "nonce"))) (id_of plan)) _ h1 in
    let (u3, e3, h3) = bind-eq_ok (guard (not reserved) replay) _ h2 in
    let (again, e4, h4) = bind-eq_ok (ctx.admission_digest (id_of plan)) _ h3 in
    let (u5, e5, h5) = bind-eq_ok (guard (not (is_some again)) replay) _ h4 in
    (
      e4 ∙ ap ok (is_none again (guard-eq_ok _ _ e5)),
      e2 ∙ ap ok (not-eq_true reserved (guard-eq_ok _ _ e3)),
    )

-- The head that the plan was made on is the scope's, or one of the signers is an owner who forces
-- it.
abbrev pub IsBased : Value → List Value → PolicyContext → Type 0
IsBased plan signers ctx =
    ((is_forced plan ≡ true) × (by_rule plan ≡ false) × (any is_owner signers ≡ true))
    ⊎ ((head : Bytes) × (ctx.head (text_or_empty (index plan (codes "project_id")))
            (text_or_empty (index plan (codes "environment")))
          ≡ ok head)
        × (is_text head (base_head plan ctx.trust) ≡ true))

check_base-IsBased :
    (plan : Value) (signers : List Value) (ctx : PolicyContext)
    → check_base plan signers ctx ≡ ok tt
    → IsBased plan signers ctx
unfolding check_base
check_base-IsBased plan signers ctx h =
    let on_head =
      ctx.head (text_or_empty (index plan (codes "project_id")))
        (text_or_empty (index plan (codes "environment")))
      >>= λ head. guard (is_text head (base_head plan ctx.trust)) base_mismatch in
    let forced = guard (not (by_rule plan) && any is_owner signers) force_forbidden in
    elim (Bool-cases (is_forced plan)) [
      | inl e ↦
          let h' = sym (ap (λ b. if b then forced else on_head) e) ∙ h in
          let (k, owner) =
            and_elim (not (by_rule plan)) (any is_owner signers) (guard-eq_ok _ _ h') in
          inl (e, not-eq_true _ k, owner)
      | inr e ↦
          let h' = sym (ap (λ b. if b then forced else on_head) e) ∙ h in
          let (head, f, h'') =
            bind-eq_ok
              (ctx.head (text_or_empty (index plan (codes "project_id")))
                (text_or_empty (index plan (codes "environment"))))
              _ h' in
          inr (head, f, guard-eq_ok _ _ h'')
    ]

-- A plan is admitted only inside its window, whose length is at most fifteen minutes, with two
-- minutes of skew; only when neither its id nor its nonce was used before; and only on the head of
-- its scope, unless an owner signed to force it.
pub verify_signed_plan-IsTimely :
    (parser : Parser) (crypto : Crypto) (text : Bytes) (spec_texts : List Bytes)
    (submitter : Submitter) (ctx : PolicyContext) {verified : VerifiedPlan}
    → verify_signed_plan parser crypto text spec_texts submitter ctx ≡ ok (admit verified)
    → IsTimely verified.plan ctx.now
      × (ctx.admission_digest (id_of verified.plan) ≡ ok none)
      × (ctx.seen (text_or_empty (index verified.plan (codes "nonce"))) (id_of verified.plan)
          ≡ ok false)
      × IsBased verified.plan verified.signers ctx
verify_signed_plan-IsTimely parser crypto text spec_texts submitter ctx {verified = verified} h =
    let a = verify_signed_plan-IsAdmitted parser crypto text spec_texts submitter ctx h in
    let v = a.steps in
    let (unknown, unseen) =
      check_replay-new v.plan (digest_hex_of crypto v.canonical) ctx a.unknown in
    (
      subst (λ p. IsTimely p ctx.now) a.plan_is (check_time-IsTimely v.plan ctx.now v.timely),
      subst (λ p. ctx.admission_digest (id_of p) ≡ ok none) a.plan_is unknown,
      subst (λ p. ctx.seen (text_or_empty (index p (codes "nonce"))) (id_of p) ≡ ok false) a.plan_is
          unseen,
      subst (λ p. IsBased p verified.signers ctx) a.plan_is
          (subst (λ s. IsBased v.plan s ctx) a.signers_are
            (check_base-IsBased v.plan v.signers ctx a.based)),
    )
