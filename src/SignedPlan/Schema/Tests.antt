-- ===== src/SignedPlan/Schema/Tests.antt =====
-- Values that the schema accepts, and the theorems at them.
use permanu_agent.SignedPlan.Schema.Plan.Levels.{validate_plan-Level, Level}
use permanu_agent.SignedPlan.Schema.Plan.Covered.{validate_plan-IsCovered, IsCovered}
use permanu_agent.Base.{
  ◌≡◌, refl, inl, true, false, [], ◌∷◌, some, is_some, pos, Bytes, codes, contains, split,
}
use permanu_agent.Base.Map.{Map, lookup}
use permanu_agent.SignedPlan.Crypto.{Codec}
use permanu_agent.SignedPlan.Text.{uuid7, hex64}
use permanu_agent.SignedPlan.Text.Time.{timestamp, timestamp_byte, checked}
use permanu_agent.SignedPlan.Value.{
  Value, null, bool, integer, string, array, object, Items_of, Members_of, as_object,
}
use permanu_agent.SignedPlan.Schema.{Shape, enum_of, set_of, object_of, fields_of, names_of, check}
use permanu_agent.SignedPlan.Schema.Shapes.{IsField, check-object}
use permanu_agent.SignedPlan.Schema.Sets.{IsSortedSet, check-set}
use permanu_agent.SignedPlan.Schema.Grammars.{cron_parses}
use permanu_agent.SignedPlan.Schema.CronAgreement.{cron_parses-parse}
use permanu_agent.SignedPlan.Schema.Build.{relative_path}
use permanu_agent.SignedPlan.Schema.Paths.{walk, onto, walk-path}
use permanu_agent.SignedPlan.Schema.Params.{cron_id}
use permanu_agent.SignedPlan.Schema.Plan.{validate_plan, actions, heads, nonce}
use permanu_agent.Sched.Cron.{parse}

-- An encoding that leaves the bytes as they are.
abbrev plain : Codec
plain = record {
  b64url_decode = λ s. some s;
  b64url_encode = λ s. s;
  standard_decode = λ s. some s;
  standard_encode = λ s. s;
  sha256 = λ s. s;
  decompresses = λ s. true;
}

abbrev an_id : Value
an_id = string (codes "01890a5d-ac96-774b-bcce-b302099a8057")

abbrev object_with : Map Value → Value
object_with m = object (Members_of m)

abbrev cron_run : Value
cron_run = object_with ((codes "cron_id", an_id) ∷ [])

cron_run_accepted : check plain (object_of (fields_of cron_id)) cron_run ≡ true
unfolding check uuid7
cron_run_accepted = refl

cron_id_once : contains (codes "cron_id") [] ≡ false
unfolding contains
cron_id_once = refl

check-object_example :
    (m : Map Value) × (as_object cron_run ≡ some m)
    × ((n : Bytes) (shape : Shape)
        → IsField n shape (fields_of cron_id)
        → (w : Value) × (lookup n m ≡ some w) × (check plain shape w ≡ true))
    × ((k : Bytes) → is_some (lookup k m) ≡ true → contains k (names_of (fields_of cron_id)) ≡ true)
check-object_example =
    check-object plain (fields_of cron_id) cron_run (cron_id_once, tt) cron_run_accepted

abbrev kinds : Value
kinds = array (Items_of (string (codes "deploy") ∷ string (codes "scale") ∷ []))

check-set_example :
    (check plain (set_of (enum_of (codes "deploy" ∷ codes "scale" ∷ [])) 1 8) kinds ≡ true
      → IsSortedSet plain (enum_of (codes "deploy" ∷ codes "scale" ∷ [])) 1 8 kinds)
    × (IsSortedSet plain (enum_of (codes "deploy" ∷ codes "scale" ∷ [])) 1 8 kinds
        → check plain (set_of (enum_of (codes "deploy" ∷ codes "scale" ∷ [])) 1 8) kinds ≡ true)
check-set_example = check-set plain (enum_of (codes "deploy" ∷ codes "scale" ∷ [])) 1 8 kinds

cron_parses-parse_example :
    cron_parses (codes "*/15 0-6 1,15 * 1-5") ≡ is_some (parse (codes "*/15 0-6 1,15 * 1-5"))
cron_parses-parse_example = cron_parses-parse (codes "*/15 0-6 1,15 * 1-5")

dockerfile : relative_path (codes "docker/web.Dockerfile") ≡ true
unfolding relative_path
dockerfile = refl

walk-path_example :
    walk [] (split b'/' (codes "docker/web.Dockerfile"))
    ≡ some (onto [] (split b'/' (codes "docker/web.Dockerfile")))
walk-path_example = walk-path (codes "docker/web.Dockerfile") [] (inl dockerfile)

-- A plan that removes a server.
abbrev removal : Value
removal = object_with (
    (codes "kind", string (codes "server.remove"))
    ∷ (codes "params", object_with ((codes "server_id", an_id) ∷ (codes "wipe", bool false) ∷ []))
    ∷ [])

abbrev digest : Value
digest = string (codes "0123456789abcdef0123456789abcdef0123456789abcdef0123456789abcdef")

abbrev plan : Value
plan = object_with (
    (codes "version", integer (pos 1))
    ∷ (codes "id", an_id)
    ∷ (codes "project_id", null)
    ∷ (codes "environment", null)
    ∷ (codes "environment_id", null)
    ∷ (codes "service_ids", array (Items_of []))
    ∷ (codes "targets", array (Items_of (an_id ∷ [])))
    ∷ (codes "actions", array (Items_of (removal ∷ [])))
    ∷ (
      codes "base",
      object_with (
          (codes "force", bool false)
          ∷ (
            codes "heads",
            object_with ((codes "01890a5d-ac96-774b-bcce-b302099a8057", digest) ∷ []),
          )
          ∷ []),
    )
    ∷ (codes "created_at", string (codes "2026-01-01T00:00:00Z"))
    ∷ (codes "expires_at", string (codes "2026-01-01T01:00:00Z"))
    ∷ (codes "nonce", string (codes "0123456789abcdef"))
    ∷ (
      codes "author",
      object_with ((codes "kind", string (codes "user")) ∷ (codes "agent_session_id", null) ∷ []),
    )
    ∷ (codes "invocation", null)
    ∷ [])

plan_accepted : validate_plan plain plan ≡ true
unfolding validate_plan uuid7 actions heads hex64 timestamp timestamp_byte checked nonce
plan_accepted = refl

validate_plan-Level_example : Level plan
validate_plan-Level_example = validate_plan-Level plain plan plan_accepted

validate_plan-IsCovered_example : IsCovered plan
validate_plan-IsCovered_example = validate_plan-IsCovered plain plan plan_accepted
