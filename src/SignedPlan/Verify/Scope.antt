-- ===== src/SignedPlan/Verify/Scope.antt =====
-- Whose scope a plan is in (src/signed_plan/verify.rs): the scope of a key, of a plan and of what a
-- plan names, and the policies that a plan would narrow.
use permanu_agent.SignedPlan.Schema.Rules.{items_or_none, text_or_empty}
use permanu_agent.SignedPlan.Value.{
  is_true, is_text, is_null, as_array, as_str, as_i64, index, same_value, Value,
}
use permanu_agent.SignedPlan.Verify.{Answer, SignedScope, PolicyContext}
use permanu_agent.Base.Map.{Map, lookup}
use permanu_agent.Base.{
  ltb_ℤ, ok, if◌then◌else◌, any, unwrap_or, same, contains, is_some_and, Bool, true, false, not,
  ◌&&◌, ◌||◌, List, [], ◌∷◌, Option, none, some, Bytes, codes, ℤ, pos, ◌>>=◌,
}

abbrev pub lists : Value → Value → Bool
lists set value = is_some_and (any (λ item. same_value item value)) (as_array set)

unfoldable pub scope_covers : Value → Value → Bool
unfolding lookup same_value
scope_covers signer plan =
    let scope = index signer (codes "scope") in
    if is_null scope
    then true
    else if is_null (index plan (codes "project_id"))
    then is_true (index scope (codes "server_level"))
    else lists (index scope (codes "project_ids")) (index plan (codes "project_id"))
      && lists (index scope (codes "environments")) (index plan (codes "environment"))

unfoldable pub signed_scope : Value → SignedScope
unfolding lookup
signed_scope plan = (
  text_or_empty (index plan (codes "project_id")),
  text_or_empty (index plan (codes "environment")),
  text_or_empty (index plan (codes "environment_id")),
)

abbrev pub same_scope : SignedScope → SignedScope → Bool
same_scope (a, b, c) (x, y, z) = same a x && same b y && same c z

-- `is_some_and(|found| found != scope)`.
abbrev pub is_foreign : SignedScope → Option SignedScope → Bool
is_foreign scope found = is_some_and (λ s. not (same_scope s scope)) found

abbrev pub service_param_kinds : Map Bytes
service_param_kinds =
    (codes "cron.create", codes "service_id")
    ∷ (codes "cron.update", codes "service_id")
    ∷ (codes "backup.run", codes "resource_id")
    ∷ (codes "backup.verify", codes "resource_id")
    ∷ (codes "backup.policy.set", codes "resource_id")
    ∷ (codes "backup.policy.delete", codes "resource_id")
    ∷ (codes "backup.delete", codes "resource_id")
    ∷ (codes "restore", codes "resource_id")
    ∷ []

abbrev pub cron_id_kinds : List Bytes
cron_id_kinds =
    codes "cron.update"
    ∷ codes "cron.delete"
    ∷ codes "cron.pause"
    ∷ codes "cron.resume"
    ∷ codes "cron.run"
    ∷ []

-- The three lookups of a turn of the loop, each only where the action calls for it.
unfoldable pub named_service : PolicyContext → Bytes → Value → Answer (Option SignedScope)
unfolding lookup
named_service ctx kind params = elim (lookup kind service_param_kinds) [
  | none ↦ ok none
  | some field ↦ ctx.service_scope (text_or_empty (index params field))
]

unfoldable pub restored_service : PolicyContext → Bytes → Value → Answer (Option SignedScope)
unfolding lookup same
restored_service ctx kind params =
    if same kind (codes "restore")
    then elim (as_str (index params (codes "source_resource_id"))) [
      | none ↦ ok none
      | some source ↦ ctx.service_scope source
    ]
    else ok none

unfoldable pub named_cron : PolicyContext → Bytes → Value → Answer (Option SignedScope)
unfolding lookup contains
named_cron ctx kind params =
    if contains kind cron_id_kinds
    then ctx.cron_scope (text_or_empty (index params (codes "cron_id")))
    else ok none

-- One turn of the loop: false is `return Ok(false)`.
unfoldable pub action_in_scope : PolicyContext → SignedScope → Value → Answer Bool
unfolding lookup same named_service restored_service named_cron
action_in_scope ctx scope action = do
  let kind = text_or_empty (index action (codes "kind"))
  let params = index action (codes "params")
  service ← named_service ctx kind params
  if is_foreign scope service then ok false else do
    source ← restored_service ctx kind params
    if is_foreign scope source
        then ok false
        else do cron ← named_cron ctx kind params; ok (not (is_foreign scope cron))

unfoldable pub all_in_scope : PolicyContext → SignedScope → List Value → Answer Bool
unfolding action_in_scope
all_in_scope ctx scope [] = ok true
all_in_scope ctx scope (action ∷ actions) = do
  inside ← action_in_scope ctx scope action
  elim inside [ true ↦ all_in_scope ctx scope actions | false ↦ ok false ]

unfoldable pub names_in_scope : Value → PolicyContext → Answer Bool
unfolding lookup all_in_scope signed_scope
names_in_scope plan ctx =
    all_in_scope ctx (signed_scope plan) (items_or_none (index plan (codes "actions")))

abbrev pub keeps : List Bytes
keeps = codes "keep_daily" ∷ codes "keep_weekly" ∷ codes "keep_monthly" ∷ []

abbrev pub count_at : Value → Bytes → ℤ
count_at policy keep = unwrap_or (pos 0) (as_i64 (index policy keep))

unfoldable pub narrows : Value → Value → Bool
unfolding lookup same_value
narrows params current =
    any (λ keep. ltb_ℤ (count_at params keep) (count_at current keep)) keeps
    || not (
        same_value (index params (codes "destination_ref"))
          (index current (codes "destination_ref")))

unfoldable pub any_narrows : PolicyContext → List Value → Answer Bool
unfolding lookup same narrows
any_narrows ctx [] = ok false
any_narrows ctx (action ∷ actions) =
    let rest = any_narrows ctx actions in
    if not (is_text (codes "backup.policy.set") (index action (codes "kind"))) then rest else do
      let params = index action (codes "params")
      policies ← ctx.backup_policies (text_or_empty (index params (codes "resource_id")))
      if any (narrows params) policies then ok true else rest

unfoldable pub policy_narrows : Value → PolicyContext → Answer Bool
unfolding lookup any_narrows
policy_narrows plan ctx = any_narrows ctx (items_or_none (index plan (codes "actions")))
