-- ===== src/SignedPlan/Schema/Plan.antt =====
-- The schema of a plan as a whole (src/signed_plan/schema/actions.rs).
pub mod Accepted
pub mod Levels
pub mod Covered
use permanu_agent.Base.{
  ℕ, zero, suc, ◌+◌, ◌-◌, ◌*◌, ◌^◌, Bool, true, false, not, ◌&&◌, ◌||◌, List, [], ◌∷◌, ◌++◌, map,
  Option, none, some, leb, ltb, ◌==◌, if◌then◌else◌, length, take, drop, get_elem?, last?, all, any,
  is_nil, is_some, is_some_and, and_then, unwrap_or, ℤ, pos, leb_ℤ, ltb_ℤ, ◌-ℤ◌, Bytes, codes, same,
  contains, within, split, strip_suffix, starts_with, bit_and,
}
use permanu_agent.Base.Map.{Map, lookup}
use permanu_agent.SignedPlan.Crypto.{Codec, hex}
use permanu_agent.SignedPlan.Text.{uuid7}
use permanu_agent.SignedPlan.Text.Address.{default_route}
use permanu_agent.SignedPlan.Text.Time.{timestamp}
use permanu_agent.SignedPlan.Value.{
  Value, null, as_str, as_array, as_object, as_i64, is_null, is_text, is_true, index, get,
  same_bool, same_value,
}
use permanu_agent.SignedPlan.Schema.{
  Shape, int_of, enum_of, bool_of, timestamp_of, nullable, set_of, object_of, custom, fields_of,
  check, ref_shape, uuid7_shape, hex64_shape, invocation, key_scope_shape_ok,
}
use permanu_agent.SignedPlan.Jcs.{canonicalize, encode}
use permanu_agent.SignedPlan.Schema.Params.{params_ok}
use permanu_agent.SignedPlan.Schema.Rules.{string_set, items_or_none, action_rules_hold}

abbrev pub spec_kinds : List Bytes
spec_kinds =
    codes "deploy"
    ∷ codes "rollback"
    ∷ codes "restart"
    ∷ codes "scale"
    ∷ codes "service.elevate"
    ∷ []

abbrev pub server_kinds : List Bytes
server_kinds =
    codes "server.add"
    ∷ codes "server.remove"
    ∷ codes "agent.update"
    ∷ codes "component.update"
    ∷ codes "key.add"
    ∷ codes "key.revoke"
    ∷ codes "alert.rule.create"
    ∷ codes "alert.rule.update"
    ∷ codes "alert.rule.delete"
    ∷ codes "alert.silence"
    ∷ codes "alert.channel.create"
    ∷ codes "alert.channel.update"
    ∷ codes "alert.channel.delete"
    ∷ codes "telemetry.retention.set"
    ∷ []

abbrev pub server_kinds_m2 : List Bytes
server_kinds_m2 =
    codes "backup.destination.set"
    ∷ codes "backup.destination.delete"
    ∷ codes "recovery_recipient.set"
    ∷ codes "release_key.add"
    ∷ codes "release_key.revoke"
    ∷ codes "webhook.host.set"
    ∷ codes "server.accounts.migrate"
    ∷ []

abbrev pub neutral_kind : Bytes
neutral_kind = codes "operation.cancel"

unfoldable pub server_kind : Bytes → Bool
unfolding contains
server_kind kind = contains kind server_kinds || contains kind server_kinds_m2

unfoldable pub rollback_target : Value → Option Bytes
unfolding lookup
rollback_target params = elim (as_str (index params (codes "to_deployment_id"))) [
  | some id ↦ some id
  | none ↦ as_str (index params (codes "to_release_id"))
]

unfoldable pub nonce : Codec → Value → Bool
nonce codec v = is_some_and (λ bytes. length bytes == 16) (and_then (as_str v) codec.b64url_decode)

-- An action has a kind and its params, and nothing else.
unfoldable pub action_ok : Codec → Value → Bool
unfolding lookup params_ok
action_ok codec action =
    is_some_and
      (λ m.
        length m == 2
        && is_some_and (λ kind. params_ok codec kind (lookup (codes "params") m))
            (and_then (lookup (codes "kind") m) as_str))
      (as_object action)

unfoldable pub actions : Codec → Value → Bool
unfolding action_ok
actions codec v =
    is_some_and (λ xs. within 1 64 (length xs) && all (action_ok codec) xs) (as_array v)

unfoldable pub heads : Codec → Value → Bool
unfolding uuid7 check
heads codec v =
    is_some_and (all (λ entry. uuid7 entry.0 && check codec hex64_shape entry.1)) (as_object v)

abbrev pub plan_shape : Codec → Shape
plan_shape codec = object_of (
    fields_of (
      (codes "version", int_of (pos 1) (pos 1))
      ∷ (codes "id", uuid7_shape)
      ∷ (codes "project_id", nullable (uuid7_shape))
      ∷ (codes "environment", nullable (ref_shape))
      ∷ (codes "environment_id", nullable (uuid7_shape))
      ∷ (codes "service_ids", set_of (uuid7_shape) 0 64)
      ∷ (codes "targets", set_of (uuid7_shape) 1 32)
      ∷ (codes "actions", custom (actions codec))
      ∷ (
        codes "base",
        object_of
            (fields_of ((codes "force", bool_of) ∷ (codes "heads", custom (heads codec)) ∷ [])),
      )
      ∷ (codes "created_at", timestamp_of)
      ∷ (codes "expires_at", timestamp_of)
      ∷ (codes "nonce", custom (nonce codec))
      ∷ (
        codes "author",
        object_of (
            fields_of (
              (codes "kind", enum_of (codes "user" ∷ codes "rule" ∷ codes "agent-draft" ∷ []))
              ∷ (codes "agent_session_id", nullable (uuid7_shape))
              ∷ [])),
      )
      ∷ (codes "invocation", nullable (invocation))
      ∷ []))

-- `==` of two sets of strings.
unfoldable pub same_set : List Bytes → List Bytes → Bool
unfolding contains
same_set xs ys = all (λ x. contains x ys) xs && all (λ y. contains y xs) ys

-- Whether the set of the strings has as many elements as there are strings.
unfoldable pub are_distinct : List Bytes → Bool
unfolding contains
are_distinct [] = true
are_distinct (x ∷ xs) = not (contains x xs) && are_distinct xs

-- `filter_map`.
abbrev pub texts_by : (Value → Option Bytes) → List Value → List Bytes
texts_by f [] = []
texts_by f (v ∷ vs) = elim (f v) [ some t ↦ t ∷ texts_by f vs | none ↦ texts_by f vs ]

unfoldable pub kind_of : Value → Option Bytes
unfolding lookup
kind_of action = as_str (index action (codes "kind"))

unfoldable pub service_of : Value → Option Bytes
unfolding lookup
service_of action = and_then (get (codes "service_id") (index action (codes "params"))) as_str

unfoldable pub deployment_of : Value → Option Bytes
unfolding lookup same
deployment_of action =
    if is_text (codes "deploy") (index action (codes "kind"))
    then as_str (index (index action (codes "params")) (codes "deployment_id"))
    else none

unfoldable pub host_shell : Value → Bool
unfolding lookup same
host_shell action =
    is_text (codes "shell.open") (index action (codes "kind"))
    && is_null (index (index action (codes "params")) (codes "service_id"))

unfoldable pub server_action : Value → Bool
unfolding kind_of server_kind host_shell
server_action action = is_some_and server_kind (kind_of action) || host_shell action

-- The three arms of `scope_rules_hold`, on the tests that they make.
unfoldable pub scope_rules : List Bytes → List Value → Bool → Bool → Bool → Bool
unfolding contains server_kind server_action host_shell
scope_rules kinds acts has_project has_environment no_services =
    if contains neutral_kind kinds
    then length kinds == 1 && no_services && same_bool has_project has_environment
    else if any server_kind kinds || (not has_project && any host_shell acts)
    then all server_action acts && not has_project && not has_environment && no_services
    else has_project && has_environment

unfoldable pub scope_rules_hold : Value → List Bytes → Bool
unfolding lookup scope_rules
scope_rules_hold plan kinds =
    scope_rules kinds (items_or_none (index plan (codes "actions")))
      (not (is_null (index plan (codes "project_id"))))
      (not (is_null (index plan (codes "environment"))))
      (is_some_and is_nil (as_array (index plan (codes "service_ids"))))

-- `enumerate().all(...)`.
abbrev pub all_positions : (ℕ → Value → Bool) → ℕ → List Value → Bool
all_positions p n [] = true
all_positions p n (v ∷ vs) = p n v && all_positions p (suc n) vs

abbrev pub keys_of : Value → List Bytes
keys_of v = elim (as_object v) [ none ↦ [] | some m ↦ map (λ entry. entry.0) m ]

unfoldable pub author_ok : Value → Bool
unfolding lookup same
author_ok author = not (
    same_bool (is_text (codes "agent-draft") (index author (codes "kind")))
      (is_null (index author (codes "agent_session_id"))))

unfoldable pub plan_rules_hold : Codec → Value → Bool
unfolding lookup kind_of same_set author_ok scope_rules_hold service_of deployment_of are_distinct
    action_rules_hold encode
plan_rules_hold codec plan =
    let acts = items_or_none (index plan (codes "actions")) in
    let kinds = texts_by kind_of acts in
    same_set (keys_of (index (index plan (codes "base")) (codes "heads")))
      (string_set (index plan (codes "targets")))
    && author_ok (index plan (codes "author"))
    && same_bool (is_null (index plan (codes "environment")))
        (is_null (index plan (codes "environment_id")))
    && scope_rules_hold plan kinds
    && same_set (texts_by service_of acts) (string_set (index plan (codes "service_ids")))
    && are_distinct (texts_by deployment_of acts)
    && (all_positions (action_rules_hold codec plan) 0 acts && is_some (canonicalize plan))

unfoldable pub validate_plan : Codec → Value → Bool
unfolding check plan_rules_hold
validate_plan codec plan = check codec (plan_shape codec) plan && plan_rules_hold codec plan
