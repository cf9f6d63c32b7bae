-- ===== src/Hooks/Plan/Envelope.antt =====
-- The envelope of a rule plan (src/local/hooks/plan.rs): the plan that it holds, member by member.
use permanu_agent.SignedPlan.Jcs.{canonicalize}
use permanu_agent.Base.Map.{lookup}
use permanu_agent.SignedPlan.Value.{
  bool, as_array, no_items, array, index, string, as_object, Items_of, items, get, Value,
}
use permanu_agent.Hooks.Plan.{Deploy, ServiceBuild, RulePlanInput, envelope_of, plan_of}
use permanu_agent.Base.{
  false, map, and_then, refl, none, ap, codes, ◌≡◌, same, some, List, [], ◌∷◌, Bytes,
}

items_Items_of : (vs : List Value) → some (items (Items_of vs)) ≡ some vs
items_Items_of [] = refl
items_Items_of (v ∷ vs) =
    ap (λ o. elim o [ none ↦ none | some ws ↦ some (v ∷ ws) ]) (items_Items_of vs)

-- The members of the plan that say what it carries out, where, and for whom.
pub record IsPlan (input : RulePlanInput) (plan_id : Bytes) (services : List ServiceBuild)
    (deploys : List Deploy) (plan_nonce : Bytes) (plan : Value) : Type 0 where
  pub id_is : get (codes "id") plan ≡ some (string plan_id)
  pub project :
      get (codes "project_id") plan
      ≡ some (index (index input.rule (codes "scope")) (codes "project_id"))
  pub environment :
      get (codes "environment") plan
      ≡ some (index (index input.rule (codes "scope")) (codes "environment"))
  pub environment_id : get (codes "environment_id") plan ≡ some (string input.environment_id)
  pub service_ids :
      and_then (get (codes "service_ids") plan) as_array
      ≡ some (map (λ s. string s.service_id) services)
  pub targets : and_then (get (codes "targets") plan) as_array ≡ some (string input.server_id ∷ [])
  pub actions : and_then (get (codes "actions") plan) as_array ≡ some (map (λ d. d.action) deploys)
  pub unforced : get (codes "force") (index plan (codes "base")) ≡ some (bool false)
  pub head_is :
      as_object (index (index plan (codes "base")) (codes "heads"))
      ≡ some ((input.server_id, string input.head) ∷ [])
  pub nonce_is : get (codes "nonce") plan ≡ some (string plan_nonce)
  pub by_rule : get (codes "kind") (index plan (codes "author")) ≡ some (string (codes "rule"))
  pub rule_is :
      get (codes "rule_id") (index plan (codes "invocation")) ≡ some (index input.rule (codes "id"))
  pub rule_digest :
      get (codes "rule_digest_hex") (index plan (codes "invocation"))
      ≡ some (string input.rule_digest_hex)
  pub evidence :
      get (codes "delivery_id") (index (index plan (codes "invocation")) (codes "evidence"))
      ≡ some (string input.delivery.delivery_id)
  pub pushed_commit :
      get (codes "commit_sha") (index (index plan (codes "invocation")) (codes "evidence"))
      ≡ some (string input.delivery.commit_sha)

plan_of-IsPlan :
    (input : RulePlanInput) (plan_id : Bytes) (services : List ServiceBuild) (deploys : List Deploy)
    (plan_nonce : Bytes)
    → IsPlan input plan_id services deploys plan_nonce
        (plan_of input plan_id services deploys plan_nonce)
unfolding plan_of lookup same
plan_of-IsPlan input plan_id services deploys plan_nonce = record {
  id_is = refl;
  project = refl;
  environment = refl;
  environment_id = refl;
  service_ids = items_Items_of _;
  targets = refl;
  actions = items_Items_of _;
  unforced = refl;
  head_is = refl;
  nonce_is = refl;
  by_rule = refl;
  rule_is = refl;
  rule_digest = refl;
  evidence = refl;
  pushed_commit = refl;
}

-- The envelope is the text of a value that has such a plan and no signatures, and nothing else.
pub record IsEnvelope (input : RulePlanInput) (plan_id : Bytes) (services : List ServiceBuild)
    (deploys : List Deploy) (plan_nonce envelope : Bytes) : Type 0 where
  pub value : Value
  pub plan : Value
  pub written : canonicalize value ≡ some envelope
  pub members_are :
      as_object value ≡ some ((codes "plan", plan) ∷ (codes "signatures", array no_items) ∷ [])
  pub is_plan : IsPlan input plan_id services deploys plan_nonce plan

pub envelope_of-IsEnvelope :
    (input : RulePlanInput) (plan_id : Bytes) (services : List ServiceBuild) (deploys : List Deploy)
    (plan_nonce : Bytes) {envelope : Bytes}
    → canonicalize (envelope_of input plan_id services deploys plan_nonce) ≡ some envelope
    → IsEnvelope input plan_id services deploys plan_nonce envelope
unfolding envelope_of
envelope_of-IsEnvelope input plan_id services deploys plan_nonce h = record {
  value = envelope_of input plan_id services deploys plan_nonce;
  plan = plan_of input plan_id services deploys plan_nonce;
  written = h;
  members_are = refl;
  is_plan = plan_of-IsPlan input plan_id services deploys plan_nonce;
}
