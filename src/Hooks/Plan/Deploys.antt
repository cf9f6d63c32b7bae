-- ===== src/Hooks/Plan/Deploys.antt =====
-- The deployments of a rule plan (src/local/hooks/plan.rs).
use permanu_agent.Hooks.Plan.Envelope.{IsEnvelope, envelope_of-IsEnvelope}
use permanu_agent.SignedPlan.Value.{
  members_Members_of, null, array, float, integer, bool, object, index, string, get, members, Value,
}
use permanu_agent.SignedPlan.Jcs.{canonicalize}
use permanu_agent.SignedPlan.Crypto.{spec_prefix, prefixed_digest, hex, Codec}
use mathlib.Core.List.{Perm}
use permanu_agent.Hooks.Plan.Order.{AreSorted, sort-AreSorted, sort-Perm}
use permanu_agent.Base.Map.{lookup-insert, insert, lookup}
use permanu_agent.Hooks.Plan.{
  envelope_of, sort_services, nonce, unix_ms_of, RulePlan, RulePlanInput, Random, deploys_of,
  build_rule_plan, deploy_action, returned_none, new_uuid7, Deploy, deploy_of, ServiceBuild,
  set_index,
}
use permanu_agent.Base.{
  arith, same_self, ◌∙◌, ok_or-eq_ok, ok_inj, subst, false, sym, same, ok_or, if◌then◌else◌,
  bind-eq_ok, refl, ap, some, ok, ◌≡◌, codes, map, ℕ, suc, Bytes, List, [], ◌∷◌,
}

-- An action deploys the service at the commit, with the digest of the specification.
pub record Names (service : ServiceBuild) (commit_sha digest deployment_id : Bytes) (action : Value)
    : Type 0 where
  pub names_kind : index action (codes "kind") ≡ string (codes "deploy")
  pub names_service :
      index (index action (codes "params")) (codes "service_id") ≡ string service.service_id
  pub names_commit : index (index action (codes "params")) (codes "commit_sha") ≡ string commit_sha
  pub names_digest : index (index action (codes "params")) (codes "spec_digest_hex") ≡ string digest
  pub names_deployment :
      index (index action (codes "params")) (codes "deployment_id") ≡ string deployment_id

deploy_action-Names :
    (service : ServiceBuild) (commit_sha digest deployment_id : Bytes)
    → Names service commit_sha digest deployment_id
        (deploy_action service commit_sha digest deployment_id)
unfolding lookup same
deploy_action-Names service commit_sha digest deployment_id = record {
  names_kind = refl;
  names_service = refl;
  names_commit = refl;
  names_digest = refl;
  names_deployment = refl;
}

-- A deployment of a service: the specification is the last one that was admitted with nothing but
-- the image replaced, and the action names its digest, the commit and the fresh identifier.
pub record IsDeploy (codec : Codec) (commit_sha : Bytes) (deployment_id : Bytes)
    (service : ServiceBuild) (deploy : Deploy) : Type 0 where
  pub spec : Value
  pub written : canonicalize spec ≡ some deploy.spec_text
  pub image : get (codes "image_digest_hex") spec ≡ some (string service.image_digest_hex)
  pub others :
      (key : Bytes)
      → same (codes "image_digest_hex") key ≡ false
      → get key spec ≡ get key service.last_spec.spec
  pub names :
      Names service commit_sha
        (hex (prefixed_digest codec spec_prefix deploy.spec_text))
        deployment_id
        deploy.action
  pub reported : deploy.deployment ≡ (service.service_id, deployment_id)

get-set_index :
    (key : Bytes) (new : Value) (old : Value) {v : Value} (j : Bytes)
    → set_index key new old ≡ ok v
    → get j v ≡ (if same key j then some new else get j old)
unfolding set_index lookup
get-set_index key new null j h = sym (ap (get j) (ok_inj h))
get-set_index key new (object ms) j h =
    sym (ap (get j) (ok_inj h))
    ∙ ap (lookup j) (members_Members_of (insert key new (members ms)))
    ∙ lookup-insert key j new (members ms)
get-set_index key new (bool b) j h = ground arith
get-set_index key new (integer z) j h = ground arith
get-set_index key new (float t) j h = ground arith
get-set_index key new (string t) j h = ground arith
get-set_index key new (array xs) j h = ground arith

deploy_of-IsDeploy :
    (codec : Codec) (commit_sha : Bytes) (unix_ms : ℕ) (random : Bytes) (service : ServiceBuild)
    {d : Deploy}
    → deploy_of codec commit_sha unix_ms random service ≡ ok d
    → IsDeploy codec commit_sha (new_uuid7 unix_ms random) service d
unfolding deploy_of lookup
deploy_of-IsDeploy codec commit_sha unix_ms random service h =
    let image = codes "image_digest_hex" in
    let (spec, e0, h0) =
      bind-eq_ok (set_index image (string service.image_digest_hex) service.last_spec.spec) _ h in
    let (text, e1, h1) = bind-eq_ok (ok_or returned_none (canonicalize spec)) _ h0 in
    let at : (j : Bytes)
        → get j spec ≡ (
            if same image j
            then some (string service.image_digest_hex)
            else get j service.last_spec.spec) =
      λ j. get-set_index image (string service.image_digest_hex) service.last_spec.spec j e0 in
    subst (IsDeploy codec commit_sha (new_uuid7 unix_ms random) service) (ok_inj h1) (record {
      spec = spec;
      written = ok_or-eq_ok returned_none (canonicalize spec) e1;
      image = at image ∙ rw (same_self image) refl;
      others = λ key e. at key ∙ rw e refl;
      names =
          deploy_action-Names service commit_sha (hex (prefixed_digest codec spec_prefix text))
            (new_uuid7 unix_ms random);
      reported = refl;
    })

-- The deployments follow the services, each with the identifier of its own turn.
abbrev pub AreDeploys :
    Codec → Bytes → ℕ → (ℕ → Bytes) → ℕ → List ServiceBuild → List Deploy → Type 0
AreDeploys codec commit_sha unix_ms random turn [] [] = Unit
AreDeploys codec commit_sha unix_ms random turn (s ∷ ss) (d ∷ ds) =
    IsDeploy codec commit_sha (new_uuid7 unix_ms (random turn)) s d
    × AreDeploys codec commit_sha unix_ms random (suc turn) ss ds
AreDeploys codec commit_sha unix_ms random turn _ _ = ⊥

deploys_of-AreDeploys :
    (codec : Codec) (commit_sha : Bytes) (unix_ms : ℕ) (random : ℕ → Bytes) (turn : ℕ)
    (services : List ServiceBuild) {ds : List Deploy}
    → deploys_of codec commit_sha unix_ms random turn services ≡ ok ds
    → AreDeploys codec commit_sha unix_ms random turn services ds
unfolding deploys_of
deploys_of-AreDeploys codec commit_sha unix_ms random turn [] h =
    subst (AreDeploys codec commit_sha unix_ms random turn []) (ok_inj h) tt
deploys_of-AreDeploys codec commit_sha unix_ms random turn (s ∷ ss) h =
    let (d, e0, h0) = bind-eq_ok (deploy_of codec commit_sha unix_ms (random turn) s) _ h in
    let (rest, e1, h1) =
      bind-eq_ok (deploys_of codec commit_sha unix_ms random (suc turn) ss) _ h0 in
    subst (AreDeploys codec commit_sha unix_ms random turn (s ∷ ss)) (ok_inj h1) (
      deploy_of-IsDeploy codec commit_sha unix_ms (random turn) s e0,
      deploys_of-AreDeploys codec commit_sha unix_ms random (suc turn) ss e1,
    )

-- A plan that was built from its input.
pub record IsBuilt (codec : Codec) (random : Random) (input : RulePlanInput) (plan : RulePlan)
    : Type 0 where
  pub services : List ServiceBuild
  pub sorted : AreSorted services
  pub same_services : Perm input.services services
  pub deploys : List Deploy
  pub deployed :
      AreDeploys codec input.delivery.commit_sha
        (unix_ms_of input.now)
        random.for_deployment
        0
        services
        deploys
  pub specs_are : plan.specs ≡ map (λ d. d.spec_text) deploys
  pub deployments_are : plan.deployments ≡ map (λ d. d.deployment) deploys
  pub id_is : plan.plan_id ≡ new_uuid7 (unix_ms_of input.now) random.for_plan
  pub plan_nonce : Bytes
  pub nonce_is : nonce codec random ≡ some plan_nonce
  pub enveloped : IsEnvelope input plan.plan_id services deploys plan_nonce plan.envelope

-- A rule plan that is built deploys the services of its input, each once and in the order of their
-- identifiers: the specification of each is the last admitted one with nothing but the image
-- replaced, in its canonical text, and the action of each names the digest of that text, the pushed
-- commit and the identifier drawn for that deployment, which is also what is reported. The texts that
-- come with the plan are these specifications in the same order. The envelope is the canonical text
-- of an object with the plan and an empty list of signatures: the plan has these actions and no
-- others, names these services, has the server as its only target on the given head, unforced, has
-- the rule's project and environment, is by a rule, and invokes the rule with the delivery.
pub build_rule_plan-IsBuilt :
    (codec : Codec) (random : Random) (input : RulePlanInput) (plan : RulePlan)
    → build_rule_plan codec random input ≡ ok plan
    → IsBuilt codec random input plan
unfolding build_rule_plan
build_rule_plan-IsBuilt codec random input plan h =
    let unix_ms = unix_ms_of input.now in
    let services = sort_services input.services in
    let (deploys, e0, h0) =
      bind-eq_ok
        (deploys_of codec input.delivery.commit_sha unix_ms random.for_deployment 0 services) _ h in
    let (plan_nonce, e1, h1) = bind-eq_ok (ok_or returned_none (nonce codec random)) _ h0 in
    let envelope_value =
      envelope_of input (new_uuid7 unix_ms random.for_plan) services deploys plan_nonce in
    let (envelope, e2, h2) = bind-eq_ok (ok_or returned_none (canonicalize envelope_value)) _ h1 in
    subst (IsBuilt codec random input) (ok_inj h2) (record {
      services = services;
      sorted = sort-AreSorted input.services;
      same_services = sort-Perm input.services;
      deploys = deploys;
      deployed =
          deploys_of-AreDeploys codec input.delivery.commit_sha unix_ms random.for_deployment 0
            services e0;
      specs_are = refl;
      deployments_are = refl;
      id_is = refl;
      plan_nonce = plan_nonce;
      nonce_is = ok_or-eq_ok returned_none (nonce codec random) e1;
      enveloped =
          envelope_of-IsEnvelope input (new_uuid7 unix_ms random.for_plan) services deploys
            plan_nonce (ok_or-eq_ok returned_none (canonicalize envelope_value) e2);
    })
