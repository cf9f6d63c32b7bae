-- ===== src/SignedPlan/Verify/Capped.antt =====
-- What a standing rule cannot change (src/signed_plan/verify.rs): step 12.
use permanu_agent.SignedPlan.Verify.Rebased.{DifferOnly, rebased-DifferOnly}
use permanu_agent.SignedPlan.Verify.Scoped.{IsInScope, rule_scope_ok-IsInScope}
use permanu_agent.SignedPlan.Strict.Unique.{HasUniqueKeys}
use permanu_agent.SignedPlan.Schema.Plan.Accepted.{Member}
use permanu_agent.SignedPlan.Schema.Rules.{text_or_empty}
use permanu_agent.Base.Map.{lookup}
use permanu_agent.SignedPlan.Verify.{time_of, Answer, PolicyContext}
use permanu_agent.SignedPlan.Verify.RulePlans.{
  limit_of, check_evidence, over_limit, is_kind, actions_in, service_in, digest_of, rule_scope_ok,
  Specs, check_limits, check_image, check_rule, check_scaled, each_of_kind, check_replicas,
}
use permanu_agent.Base.{
  Option-cases, ◌-◌, ◌^◌, pos, arith, none, unwrap_or, ltb_ℤ, ◌≤ℤ◌, not-eq_true, any, is_some_and,
  ◌>>◌, guard-eq_ok, leb_ℤ, if◌then◌else◌, ap, sym, ◌∙◌, Bool-cases, ok_or-eq_ok, guard, ok_or,
  bind-eq_ok, ok, false, not, ◌&&◌, List, [], ◌∷◌, Option, some, Bytes, codes, ◌≡◌, ◌⊎◌, inl, inr,
  ℤ,
}
use permanu_agent.SignedPlan.Schema.Plan.Accepted.{here, there}
use permanu_agent.SignedPlan.Codes.{rule_spec, rule_limit, rule_window, rule_scope}
use permanu_agent.SignedPlan.Value.{is_null, as_array, is_text, as_i64, index, Value}

each_of_kind-first :
    (kind : Bytes) (turn : Value → Answer (Unit {0})) (w : Value) (vs : List Value)
    → each_of_kind kind turn (w ∷ vs) ≡ ok tt
    → ((is_kind kind w ≡ false) ⊎ (turn w ≡ ok tt)) × (each_of_kind kind turn vs ≡ ok tt)
unfolding each_of_kind
each_of_kind-first kind turn w vs h =
    let later = each_of_kind kind turn vs in
    elim (Bool-cases (is_kind kind w)) [
      | inl e ↦
          let (u, passed, rest) =
            bind-eq_ok (turn w) (λ _. later)
              (sym (ap (λ b. if b then (turn w >> later) else later) e) ∙ h) in
          (inr passed, rest)
      | inr e ↦ (inl e, sym (ap (λ b. if b then (turn w >> later) else later) e) ∙ h)
    ]

each_of_kind-at :
    (kind : Bytes) (turn : Value → Answer (Unit {0})) (v : Value) (vs : List Value)
    → each_of_kind kind turn vs ≡ ok tt
    → Member v vs
    → (is_kind kind v ≡ false) ⊎ (turn v ≡ ok tt)
each_of_kind-at kind turn v [] h m = elim m [ ]
each_of_kind-at kind turn v (w ∷ vs) h (here) = (each_of_kind-first kind turn w vs h).0
each_of_kind-at kind turn v (w ∷ vs) h (there k) =
    each_of_kind-at kind turn v vs (each_of_kind-first kind turn w vs h).1 k

-- A specification of at most so many replicas: it says how many, unless the limit is the greatest
-- number that there is.
abbrev pub AtMost : Option ℤ → Value → Type 0
AtMost none value = Unit
AtMost (some most) value =
    ((n : ℤ) × (as_i64 (index value (codes "replicas")) ≡ some n) × (n ≤ℤ most))
    ⊎ ((as_i64 (index value (codes "replicas")) ≡ none) × (pos (2 ^ 63 - 1) ≤ℤ most))

not_below : (a b : ℤ) → ltb_ℤ a b ≡ false → b ≤ℤ a
not_below a b h = ground arith

over_limit-AtMost :
    (most : Option ℤ) (value : Value) → over_limit most value ≡ false → AtMost most value
unfolding over_limit
over_limit-AtMost none value h = tt
over_limit-AtMost (some most) value h =
    let stated = as_i64 (index value (codes "replicas")) in
    let least : (o : Option ℤ) → stated ≡ o → unwrap_or (pos (2 ^ 63 - 1)) o ≤ℤ most = λ o e.
      not_below most (unwrap_or (pos (2 ^ 63 - 1)) o)
        (sym (ap (λ o. ltb_ℤ most (unwrap_or (pos (2 ^ 63 - 1)) o)) e) ∙ h) in
    elim (Option-cases stated) [
      | inl e ↦ inr (e, least none e)
      | inr (n, e) ↦ inl (n, e, least (some n) e)
    ]

-- The specification of an action, of at most so many replicas.
abbrev pub IsCapped : Option ℤ → Specs → Value → Type 0
IsCapped most specs v =
    (found : Value × Bytes) × (lookup (digest_of v) specs ≡ some found) × AtMost most found.0

check_replicas-first :
    (most : Option ℤ) (specs : Specs) (w : Value) (vs : List Value)
    → check_replicas most specs (w ∷ vs) ≡ ok tt
    → IsCapped most specs w × (check_replicas most specs vs ≡ ok tt)
unfolding check_replicas
check_replicas-first most specs w vs h =
    let (found, e0, h0) = bind-eq_ok (ok_or rule_spec (lookup (digest_of w) specs)) _ h in
    let (u, e1, h1) = bind-eq_ok (guard (not (over_limit most found.0)) rule_limit) _ h0 in
    (
      (
        found,
        ok_or-eq_ok _ _ e0,
        over_limit-AtMost most found.0 (not-eq_true _ (guard-eq_ok _ _ e1)),
      ),
      h1,
    )

check_replicas-at :
    (most : Option ℤ) (specs : Specs) (v : Value) (vs : List Value)
    → check_replicas most specs vs ≡ ok tt
    → Member v vs
    → IsCapped most specs v
check_replicas-at most specs v [] h m = elim m [ ]
check_replicas-at most specs v (w ∷ vs) h (here) = (check_replicas-first most specs w vs h).0
check_replicas-at most specs v (w ∷ vs) h (there k) =
    check_replicas-at most specs v vs (check_replicas-first most specs w vs h).1 k

-- The specification of an action is the one last admitted for its service, up to one member.
pub record ChangesOnly (field : Bytes) (ctx : PolicyContext) (specs : Specs) (action : Value)
    : Type 0 where
  pub new : Value × Bytes
  pub base : Value
  pub new_is : lookup (digest_of action) specs ≡ some new
  pub admitted : ctx.last_admitted_spec (service_in action) ≡ ok (some base)
  pub unchanged : DifferOnly field new.0 base

-- No specification repeats a key: they come of strict parsing.
abbrev pub HaveNoRepeats : Specs → Type 0
HaveNoRepeats specs =
    (digest : Bytes) (found : Value × Bytes)
    → lookup digest specs ≡ some found
    → HasUniqueKeys found.0

check_image-ChangesOnly :
    (ctx : PolicyContext) (commit_sha : Bytes) (specs : Specs) (action : Value)
    → HaveNoRepeats specs
    → check_image ctx commit_sha specs action ≡ ok tt
    → ChangesOnly (codes "image_digest_hex") ctx specs action
unfolding check_image
check_image-ChangesOnly ctx commit_sha specs action unique h =
    let (found, e0, h0) = bind-eq_ok (ok_or rule_spec (lookup (digest_of action) specs)) _ h in
    let (o, e1, h1) = bind-eq_ok (ctx.last_admitted_spec (service_in action)) _ h0 in
    let (base, e2, h2) = bind-eq_ok (ok_or rule_spec o) _ h1 in
    let (i, e3, h3) = bind-eq_ok (ctx.build_image (service_in action) commit_sha) _ h2 in
    let (build, e4, h4) = bind-eq_ok (ok_or rule_spec i) _ h3 in
    let (u, e5, h5) =
      bind-eq_ok (guard (is_text build (index found.0 (codes "image_digest_hex"))) rule_spec) _
        h4 in
    record {
      new = found;
      base = base;
      new_is = ok_or-eq_ok _ _ e0;
      admitted = e1 ∙ ap ok (ok_or-eq_ok _ _ e2);
      unchanged =
          rebased-DifferOnly (codes "image_digest_hex") found.0 base
            (unique (digest_of action) found (ok_or-eq_ok _ _ e0)) (guard-eq_ok _ _ h5);
    }

check_scaled-ChangesOnly :
    (ctx : PolicyContext) (specs : Specs) (action : Value)
    → HaveNoRepeats specs
    → check_scaled ctx specs action ≡ ok tt
    → ChangesOnly (codes "replicas") ctx specs action
unfolding check_scaled
check_scaled-ChangesOnly ctx specs action unique h =
    let (found, e0, h0) = bind-eq_ok (ok_or rule_spec (lookup (digest_of action) specs)) _ h in
    let (o, e1, h1) = bind-eq_ok (ctx.last_admitted_spec (service_in action)) _ h0 in
    let (base, e2, h2) = bind-eq_ok (ok_or rule_spec o) _ h1 in
    record {
      new = found;
      base = base;
      new_is = ok_or-eq_ok _ _ e0;
      admitted = e1 ∙ ap ok (ok_or-eq_ok _ _ e2);
      unchanged =
          rebased-DifferOnly (codes "replicas") found.0 base
            (unique (digest_of action) found (ok_or-eq_ok _ _ e0)) (guard-eq_ok _ _ h2);
    }

pub record IsWithinRule (plan rule : Value) (ctx : PolicyContext) (now : ℤ) (specs : Specs)
    (action : Value) : Type 0 where
  pub scoped : IsInScope plan rule
  pub unprotected :
      ctx.environment_protected
        (text_or_empty (index plan (codes "project_id")))
        (text_or_empty (index plan (codes "environment")))
      ≡ ok false
  pub capped : IsCapped (as_i64 (limit_of rule (codes "max_replicas"))) specs action
  pub deployed :
      (is_kind (codes "deploy") action ≡ false)
      ⊎ ChangesOnly (codes "image_digest_hex") ctx specs action
  pub scaled :
      (is_kind (codes "scale") action ≡ false) ⊎ ChangesOnly (codes "replicas") ctx specs action

-- Whatever a standing rule carries out stays within it, when no specification repeats a key: the plan
-- is for the rule's project and environment, which is not protected, its one target and its services
-- are the rule's, its trigger is the rule's, and its evidence is of the rule's repository and of a ref
-- that matches one of the rule's patterns. The specification of each action says at most as many
-- replicas as the rule's limit, if it has one, or says none where the limit is the greatest
-- `i64`; and but for its image, where the action deploys, and but for its replicas, where it
-- scales, it has the members of the one last admitted for the service and no others.
pub check_rule-IsWithinRule :
    (plan rule : Value) (ctx : PolicyContext) (now : ℤ) (specs : Specs) (action : Value)
    → HaveNoRepeats specs
    → check_rule plan rule ctx now specs ≡ ok tt
    → Member action (actions_in plan)
    → IsWithinRule plan rule ctx now specs action
unfolding check_rule check_limits
check_rule-IsWithinRule plan rule ctx now specs action unique h m =
    let evidence = index (index plan (codes "invocation")) (codes "evidence") in
    let commit_sha = text_or_empty (index evidence (codes "commit_sha")) in
    let project = text_or_empty (index plan (codes "project_id")) in
    let environment = text_or_empty (index plan (codes "environment")) in
    let (u0, e0, h0) = bind-eq_ok (check_limits plan rule ctx now specs) _ h in
    let (u1, e1, h1) = bind-eq_ok (check_evidence plan rule ctx now specs) _ h0 in
    let (u2, e2, h2) =
      bind-eq_ok
        (each_of_kind (codes "deploy") (check_image ctx commit_sha specs) (actions_in plan)) _ h1 in
    let (not_before, f0, k0) = bind-eq_ok (time_of (index rule (codes "not_before"))) _ e0 in
    let (rule_expires, f1, k1) = bind-eq_ok (time_of (index rule (codes "expires_at"))) _ k0 in
    let (u3, f2, k2) =
      bind-eq_ok (guard (leb_ℤ not_before now && leb_ℤ now rule_expires) rule_window) _ k1 in
    let (u4, f3, k3) = bind-eq_ok (guard (rule_scope_ok plan rule) rule_scope) _ k2 in
    let (guarded, f4, k4) = bind-eq_ok (ctx.environment_protected project environment) _ k3 in
    let (u5, f5, k5) = bind-eq_ok (guard (not guarded) rule_scope) _ k4 in
    let lists_scale =
      is_some_and (any (is_text (codes "scale"))) (as_array (index rule (codes "allowed_kinds"))) in
    let (u6, f6, k6) =
      bind-eq_ok
        (guard (not (lists_scale && is_null (limit_of rule (codes "max_replicas")))) rule_limit) _
        k5 in
    let (u7, f7, k7) =
      bind-eq_ok
        (check_replicas (as_i64 (limit_of rule (codes "max_replicas"))) specs (actions_in plan)) _
        k6 in
    record {
      scoped = rule_scope_ok-IsInScope plan rule (guard-eq_ok _ _ f3);
      unprotected = f4 ∙ ap ok (not-eq_true guarded (guard-eq_ok _ _ f5));
      capped = check_replicas-at _ specs action (actions_in plan) f7 m;
      deployed =
          elim (each_of_kind-at (codes "deploy") (check_image ctx commit_sha specs) action
            (actions_in plan) e2 m) [
              | inl e ↦ inl e
              | inr e ↦ inr (check_image-ChangesOnly ctx commit_sha specs action unique e)
            ];
      scaled =
          elim (each_of_kind-at (codes "scale") (check_scaled ctx specs) action (actions_in plan) h2
            m) [ inl e ↦ inl e | inr e ↦ inr (check_scaled-ChangesOnly ctx specs action unique e) ];
    }
