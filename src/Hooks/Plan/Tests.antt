-- ===== src/Hooks/Plan/Tests.antt =====
-- A delivery, and the rule plan that it gives.
use permanu_agent.SignedPlan.Text.{all_indexed}
use permanu_agent.SignedPlan.Text.Time.{timestamp_byte, checked}
use permanu_agent.Hooks.Plan.Lifetime.{check_time-plan_of}
use permanu_agent.SignedPlan.Text.Time.{timestamp}
use permanu_agent.SignedPlan.Verify.{max_lifetime_seconds, skew_seconds, check_time}
use permanu_agent.Hooks.Plan.Deploys.{build_rule_plan-IsBuilt, IsBuilt}
use permanu_agent.SignedPlan.Value.{string}
use permanu_agent.SignedPlan.Crypto.{Codec}
use permanu_agent.Hooks.Plan.Uuids.{new_uuid7-uuid7, AreRandom}
use permanu_agent.Hooks.Plan.{
  plan_of, rule_plan_lifetime_seconds, Stop, build_rule_plan, new_uuid7, json_object, RulePlanInput,
  ServiceBuild, RulePlan, Random, DeliveryRow, LastSpec,
}
use permanu_agent.SignedPlan.Text.{uuid7}
use permanu_agent.Base.{
  ◌≤ℤ◌, ◌+ℤ◌, same, err, ok, Result, pos, true, refl, ◌≡◌, take, some, arith, codes, Bytes, [], ◌∷◌,
}

abbrev plain_codec : Codec
plain_codec = record {
  b64url_decode = λ text. some text;
  b64url_encode = λ bytes. bytes;
  standard_decode = λ text. some text;
  standard_encode = λ bytes. bytes;
  sha256 = λ bytes. take 2 bytes;
  decompresses = λ bytes. true;
}

abbrev zeros_16 : Bytes
zeros_16 = 0 ∷ 0 ∷ 0 ∷ 0 ∷ 0 ∷ 0 ∷ 0 ∷ 0 ∷ 0 ∷ 0 ∷ 0 ∷ 0 ∷ 0 ∷ 0 ∷ 0 ∷ 255 ∷ []

abbrev quiet : Random
quiet = record {
  for_plan = zeros_16;
  for_deployment = λ turn. zeros_16;
  for_nonce = some (codes "n");
}

abbrev push : DeliveryRow
push = record {
  delivery_id = codes "d";
  provider = codes "github";
  event = codes "push";
  body_digest_hex = codes "5";
  repo = codes "github.com/acme/web";
  git_ref = codes "refs/heads/main";
  commit_sha = codes "4f";
  commit_time = codes "t";
  environments = [];
  received_at = codes "t";
  expires_at = codes "t";
  status = codes "pending";
}

abbrev last_of : Bytes → LastSpec
last_of service_id = record {
  spec = json_object (
      (codes "service_id", string service_id)
      ∷ (codes "image_digest_hex", string (codes "old"))
      ∷ []);
  spec_digest_hex = codes "0";
}

abbrev build_of : Bytes → ServiceBuild
build_of service_id = record {
  service_id = service_id;
  last_spec = last_of service_id;
  image_digest_hex = codes "new";
}

abbrev pushed : RulePlanInput
pushed = record {
  rule = json_object (
      (codes "id", string (codes "r"))
      ∷ (
        codes "scope",
        json_object (
            (codes "project_id", string (codes "p"))
            ∷ (codes "environment", string (codes "production"))
            ∷ []),
      )
      ∷ []);
  rule_digest_hex = codes "ab";
  environment_id = codes "e";
  server_id = codes "s";
  head = codes "h";
  delivery = push;
  services = build_of (codes "web") ∷ build_of (codes "api") ∷ [];
  now = pos 1_000;
}

zeros_16-AreRandom : AreRandom zeros_16
zeros_16-AreRandom = (refl, omega arith)

new_uuid7-uuid7_example : uuid7 (new_uuid7 1_000_000 zeros_16) ≡ true
new_uuid7-uuid7_example = new_uuid7-uuid7 1_000_000 zeros_16 zeros_16-AreRandom

-- The plan of a call, or one without content.
abbrev plan_from : Result Stop RulePlan → RulePlan
plan_from (ok plan) = plan
plan_from (err stop) = record { plan_id = []; envelope = []; specs = []; deployments = [] }

abbrev built : RulePlan
built = plan_from (build_rule_plan plain_codec quiet pushed)

pushed-built : build_rule_plan plain_codec quiet pushed ≡ ok built
unfolding build_rule_plan same
pushed-built = refl

-- The services come in order, each with its image replaced.
built_specs :
    built.specs
    ≡ codes "{\"image_digest_hex\":\"new\",\"service_id\":\"api\"}"
      ∷ codes "{\"image_digest_hex\":\"new\",\"service_id\":\"web\"}"
      ∷ []
unfolding build_rule_plan same
built_specs = refl

build_rule_plan-IsBuilt_example : IsBuilt plain_codec quiet pushed built
build_rule_plan-IsBuilt_example =
    build_rule_plan-IsBuilt plain_codec quiet pushed built pushed-built

written_at : timestamp (codes "1970-01-01T00:16:40Z") ≡ some pushed.now
unfolding timestamp all_indexed timestamp_byte checked
written_at = refl

expires_at_moment :
    timestamp (codes "1970-01-01T00:31:40Z") ≡ some (pushed.now +ℤ pos rule_plan_lifetime_seconds)
unfolding timestamp ◌+ℤ◌ all_indexed timestamp_byte checked
expires_at_moment = refl

begun_then : pushed.now ≤ℤ (pos 2_000 +ℤ skew_seconds)
unfolding ◌+ℤ◌
begun_then = omega arith

unexpired_then : pos 2_000 ≤ℤ ((pushed.now +ℤ pos rule_plan_lifetime_seconds) +ℤ skew_seconds)
unfolding ◌+ℤ◌
unexpired_then = omega arith

check_time-plan_of_example :
    (check_time (plan_of pushed built.plan_id pushed.services [] (codes "n")) (pos 2_000) ≡ ok tt)
    × (pos rule_plan_lifetime_seconds ≡ max_lifetime_seconds)
check_time-plan_of_example =
    check_time-plan_of pushed built.plan_id pushed.services [] (codes "n")
      (codes "1970-01-01T00:16:40Z") (codes "1970-01-01T00:31:40Z") (pos 2_000) written_at
      expires_at_moment begun_then unexpired_then
