-- ===== src/Hooks/Plan.antt =====
-- The plan of a rule (src/local/hooks/plan.rs, and `new_uuid7` of src/admissions/mod.rs). The bytes
-- that `getrandom` gives are parameters.
pub mod Uuids
pub mod Order
pub mod Envelope
pub mod Deploys
pub mod Lifetime
pub mod Tests
use permanu_agent.SignedPlan.Text.Time.{format_timestamp}
use permanu_agent.Spool.{to_be_bytes}
use permanu_agent.SignedPlan.Value.{
  null, bool, members, no_members, Members_of, integer, member, Items_of, object, index, string,
  array, Value,
}
use permanu_agent.Base.Map.{Map, insert, lookup}
use permanu_agent.SignedPlan.Crypto.{spec_prefix, prefixed_digest, Codec, hex}
use permanu_agent.SignedPlan.Jcs.{canonicalize, leb_units, encode}
use permanu_agent.Base.{
  some, and_then, err, false, ◌-◌, pos, ◌^◌, suc, ok_or, ◌*◌, ok, pos_part, ◌>>=◌, ◌++◌, ◌+ℤ◌, ◌+◌,
  Result, min, ℤ, codes, map, ◌%◌, Option, drop, take, if◌then◌else◌, ℕ, Bytes, List, [], ◌∷◌,
}

pub record LastSpec : Type 0 where
  pub spec : Value
  pub spec_digest_hex : Bytes

-- One service of the rule's scope and the image built for it.
pub record ServiceBuild : Type 0 where
  pub service_id : Bytes
  pub last_spec : LastSpec
  pub image_digest_hex : Bytes

pub record DeliveryRow : Type 0 where
  pub delivery_id : Bytes
  pub provider : Bytes
  pub event : Bytes
  pub body_digest_hex : Bytes
  pub repo : Bytes
  pub git_ref : Bytes
  pub commit_sha : Bytes
  pub commit_time : Bytes
  pub environments : List Bytes
  pub received_at : Bytes
  pub expires_at : Bytes
  pub status : Bytes

pub record RulePlanInput : Type 0 where
  pub rule : Value
  pub rule_digest_hex : Bytes
  pub environment_id : Bytes
  pub server_id : Bytes
  pub head : Bytes
  pub delivery : DeliveryRow
  pub services : List ServiceBuild
  pub now : ℤ

pub record RulePlan : Type 0 where
  pub plan_id : Bytes
  pub envelope : Bytes
  pub specs : List Bytes
  pub deployments : List (Bytes × Bytes)

-- What the calls of `getrandom` give: for the plan's id, for the id of each deployment in turn, and
-- for the nonce, which may be none.
pub record Random : Type 0 where
  pub for_plan : Bytes
  pub for_deployment : ℕ → Bytes
  pub for_nonce : Option Bytes

-- A call returns `None`, or it panics.
pub data Stop : Type 0 where
  returned_none : Stop
  panicked : Stop

abbrev pub rule_plan_lifetime_seconds : ℕ
rule_plan_lifetime_seconds = 900

-- The version and the variant in the last ten bytes.
abbrev pub stamp_version : Bytes → Bytes
stamp_version (b6 ∷ b7 ∷ b8 ∷ rest) = (b6 % 16 + 0x70) ∷ b7 ∷ (b8 % 64 + 0x80) ∷ rest
stamp_version other = other

unfoldable pub uuid7_bytes : ℕ → Bytes → Bytes
uuid7_bytes unix_ms random = drop 2 (to_be_bytes unix_ms) ++ stamp_version (drop 6 random)

abbrev pub hyphens : Bytes → Bytes
hyphens hex =
    take 8 hex
    ++ (b'-'
        ∷ (take 4 (drop 8 hex)
            ++ (b'-'
                ∷ (take 4 (drop 12 hex)
                    ++ (b'-' ∷ (take 4 (drop 16 hex) ++ (b'-' ∷ take 12 (drop 20 hex))))))))

unfoldable pub new_uuid7 : ℕ → Bytes → Bytes
unfolding uuid7_bytes
new_uuid7 unix_ms random = hyphens (hex (uuid7_bytes unix_ms random))

unfoldable pub nonce : Codec → Random → Option Bytes
nonce codec random = and_then random.for_nonce (λ bytes. some (codec.b64url_encode bytes))

-- `value[key] = new`: `null` becomes an object, and what is no object panics.
unfoldable pub set_index : Bytes → Value → Value → Result Stop Value
unfolding insert
set_index key new null = ok (object (member key new no_members))
set_index key new (object ms) = ok (object (Members_of (insert key new (members ms))))
set_index key new _ = err panicked

-- `sort_by`, which is stable.
unfoldable pub insert_service : ServiceBuild → List ServiceBuild → List ServiceBuild
insert_service s [] = s ∷ []
insert_service s (t ∷ ss) =
    let rest = insert_service s ss in
    if leb_units s.service_id t.service_id then s ∷ t ∷ ss else t ∷ rest

unfoldable pub sort_services : List ServiceBuild → List ServiceBuild
unfolding insert_service
sort_services [] = []
sort_services (s ∷ ss) = insert_service s (sort_services ss)

-- `u64::try_from(now).unwrap_or(0).saturating_mul(1_000)`.
abbrev pub unix_ms_of : ℤ → ℕ
unix_ms_of now = min (pos_part now * 1_000) (2 ^ 64 - 1)

-- What the turns of the loop push.
pub record Deploy : Type 0 where
  pub action : Value
  pub spec_text : Bytes
  pub deployment : Bytes × Bytes

abbrev pub json_object : Map Value → Value
json_object m = object (Members_of m)

abbrev pub json_array : List Value → Value
json_array vs = array (Items_of vs)

abbrev pub deploy_action : ServiceBuild → Bytes → Bytes → Bytes → Value
deploy_action service commit_sha digest deployment_id = json_object (
    (codes "kind", string (codes "deploy"))
    ∷ (
      codes "params",
      json_object (
          (codes "service_id", string service.service_id)
          ∷ (codes "commit_sha", string commit_sha)
          ∷ (codes "spec_digest_hex", string digest)
          ∷ (codes "deployment_id", string deployment_id)
          ∷ []),
    )
    ∷ [])

unfoldable pub deploy_of : Codec → Bytes → ℕ → Bytes → ServiceBuild → Result Stop Deploy
unfolding set_index encode prefixed_digest new_uuid7
deploy_of codec commit_sha unix_ms random service = do
  spec ←
      set_index (codes "image_digest_hex") (string service.image_digest_hex) service.last_spec.spec
  text ← ok_or returned_none (canonicalize spec)
  let digest = hex (prefixed_digest codec spec_prefix text)
  let deployment_id = new_uuid7 unix_ms random
  ok (record {
    action = deploy_action service commit_sha digest deployment_id;
    spec_text = text;
    deployment = (service.service_id, deployment_id);
  })

unfoldable pub deploys_of :
    Codec → Bytes → ℕ → (ℕ → Bytes) → ℕ → List ServiceBuild → Result Stop (List Deploy)
unfolding deploy_of
deploys_of codec commit_sha unix_ms random turn [] = ok []
deploys_of codec commit_sha unix_ms random turn (service ∷ services) = do
  deploy ← deploy_of codec commit_sha unix_ms (random turn) service
  rest ← deploys_of codec commit_sha unix_ms random (suc turn) services
  ok (deploy ∷ rest)

abbrev pub invocation_of : RulePlanInput → Value
invocation_of input =
    let delivery = input.delivery in
    json_object (
      (codes "rule_id", index input.rule (codes "id"))
      ∷ (codes "rule_digest_hex", string input.rule_digest_hex)
      ∷ (codes "trigger", string (codes "git.push"))
      ∷ (
        codes "evidence",
        json_object (
            (codes "provider", string delivery.provider)
            ∷ (codes "repo", string delivery.repo)
            ∷ (codes "ref", string delivery.git_ref)
            ∷ (codes "commit_sha", string delivery.commit_sha)
            ∷ (codes "commit_time", string delivery.commit_time)
            ∷ (codes "delivery_id", string delivery.delivery_id)
            ∷ (codes "body_digest_hex", string delivery.body_digest_hex)
            ∷ (codes "received_at", string delivery.received_at)
            ∷ []),
      )
      ∷ [])

-- An overflow of `now + 900` is not modelled.
unfoldable pub plan_of : RulePlanInput → Bytes → List ServiceBuild → List Deploy → Bytes → Value
unfolding lookup ◌+ℤ◌ format_timestamp
plan_of input plan_id services deploys plan_nonce =
    let scope = index input.rule (codes "scope") in
    json_object (
      (codes "version", integer (pos 1))
      ∷ (codes "id", string plan_id)
      ∷ (codes "project_id", index scope (codes "project_id"))
      ∷ (codes "environment", index scope (codes "environment"))
      ∷ (codes "environment_id", string input.environment_id)
      ∷ (codes "service_ids", json_array (map (λ s. string s.service_id) services))
      ∷ (codes "targets", json_array (string input.server_id ∷ []))
      ∷ (codes "actions", json_array (map (λ d. d.action) deploys))
      ∷ (
        codes "base",
        json_object (
            (codes "force", bool false)
            ∷ (codes "heads", json_object ((input.server_id, string input.head) ∷ []))
            ∷ []),
      )
      ∷ (codes "created_at", string (format_timestamp input.now))
      ∷ (
        codes "expires_at",
        string (format_timestamp (input.now +ℤ pos rule_plan_lifetime_seconds)),
      )
      ∷ (codes "nonce", string plan_nonce)
      ∷ (
        codes "author",
        json_object ((codes "kind", string (codes "rule")) ∷ (codes "agent_session_id", null) ∷ []),
      )
      ∷ (codes "invocation", invocation_of input)
      ∷ [])

unfoldable pub envelope_of : RulePlanInput → Bytes → List ServiceBuild → List Deploy → Bytes → Value
unfolding plan_of
envelope_of input plan_id services deploys plan_nonce = json_object (
    (codes "plan", plan_of input plan_id services deploys plan_nonce)
    ∷ (codes "signatures", json_array [])
    ∷ [])

unfoldable pub build_rule_plan : Codec → Random → RulePlanInput → Result Stop RulePlan
unfolding sort_services deploys_of envelope_of nonce new_uuid7 encode
build_rule_plan codec random input = do
  let unix_ms = unix_ms_of input.now
  let plan_id = new_uuid7 unix_ms random.for_plan
  let services = sort_services input.services
  deploys ← deploys_of codec input.delivery.commit_sha unix_ms random.for_deployment 0 services
  plan_nonce ← ok_or returned_none (nonce codec random)
  envelope ←
      ok_or returned_none (canonicalize (envelope_of input plan_id services deploys plan_nonce))
  ok (record {
    plan_id = plan_id;
    envelope = envelope;
    specs = map (λ d. d.spec_text) deploys;
    deployments = map (λ d. d.deployment) deploys;
  })
