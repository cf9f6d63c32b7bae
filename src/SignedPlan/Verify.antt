-- ===== src/SignedPlan/Verify.antt =====
-- The verification of signed plans (src/signed_plan/verify.rs): the server's own state, the tables of
-- kinds and the time window. What a store answers is a parameter, an error included.
pub mod Envelope
pub mod Specs
pub mod Scope
pub mod RulePlans
pub mod Steps
pub mod Bootstrap
pub mod Admitted
pub mod Signers
pub mod Presence
pub mod Rebased
pub mod Scoped
pub mod Capped
pub mod Kinds
pub mod Fresh
pub mod Founding
pub mod Tests
use permanu_agent.SignedPlan.Text.Time.{timestamp}
use permanu_agent.SignedPlan.Trust.{TrustStore}
use permanu_agent.SignedPlan.Value.{as_str, index, Value}
use permanu_agent.Base.Map.{lookup}
use permanu_agent.Base.{
  leb_ℤ, ltb_ℤ, guard, ◌-ℤ◌, and_then, if◌then◌else◌, ok_or, contains, ◌+ℤ◌, ◌*◌, Result, same, ℕ,
  Bool, true, false, not, ◌&&◌, ◌||◌, List, [], ◌∷◌, Option, none, some, Bytes, codes, ℤ, pos, ◌>>◌,
  ◌>>=◌,
}
use permanu_agent.SignedPlan.Codes.{PlanCode, lifetime, not_yet_valid, expired, parse}

abbrev pub max_signed_plan_bytes : ℕ
max_signed_plan_bytes = 64 * 1_024

abbrev pub max_spec_bytes : ℕ
max_spec_bytes = 16 * 1_024

abbrev pub max_specs : ℕ
max_specs = 64

abbrev pub skew_seconds : ℤ
skew_seconds = pos 120

abbrev pub max_lifetime_seconds : ℤ
max_lifetime_seconds = pos 900

abbrev pub webhook_ttl_seconds : ℤ
webhook_ttl_seconds = pos 900

abbrev pub tid_kinds : List Bytes
tid_kinds =
    codes "agent.update"
    ∷ codes "component.update"
    ∷ codes "secret.set"
    ∷ codes "secret.unset"
    ∷ codes "restore"
    ∷ codes "server.add"
    ∷ codes "shell.open"
    ∷ codes "rule.create"
    ∷ codes "rule.revoke"
    ∷ codes "key.add"
    ∷ codes "key.revoke"
    ∷ codes "service.elevate"
    ∷ codes "service.delete"
    ∷ codes "environment.delete"
    ∷ codes "project.delete"
    ∷ codes "server.remove"
    ∷ codes "server.accounts.migrate"
    ∷ codes "volume.delete"
    ∷ codes "bucket.delete"
    ∷ codes "bucket.credentials.rotate"
    ∷ codes "backup.delete"
    ∷ codes "recovery_recipient.set"
    ∷ codes "backup.destination.set"
    ∷ codes "env.protection.set"
    ∷ codes "release_key.add"
    ∷ codes "release_key.revoke"
    ∷ codes "repo.credential.set"
    ∷ codes "repo.credential.delete"
    ∷ []

-- Kinds that only an owner may sign, besides.
abbrev pub owner_only_presence : List Bytes
owner_only_presence =
    codes "db.upgrade"
    ∷ codes "backup.policy.delete"
    ∷ codes "backup.destination.delete"
    ∷ codes "webhook.host.set"
    ∷ []

abbrev pub ci_kinds : List Bytes
ci_kinds = codes "deploy" ∷ codes "rollback" ∷ codes "restart" ∷ codes "operation.cancel" ∷ []

abbrev pub rule_eligible : List Bytes
rule_eligible = codes "deploy" ∷ codes "scale" ∷ []

unfoldable pub role_allows : Bytes → Bytes → Bool
unfolding same contains
role_allows role kind =
    if same role (codes "owner")
    then true
    else if same role (codes "deployer")
    then not (contains kind tid_kinds) && not (contains kind owner_only_presence)
    else if same role (codes "ci")
    then contains kind ci_kinds
    else false

pub data Submitter : Type 0 where
  client agent_webhook : Submitter

abbrev pub is_webhook : Submitter → Bool
is_webhook client = false
is_webhook agent_webhook = true

pub record RuleRecord : Type 0 where
  pub rule : Value
  pub rule_digest_hex : Bytes
  pub created_by_key_id : Bytes
  pub revoked : Bool

pub record DeliveryRecord : Type 0 where
  pub body_digest_hex : Bytes
  pub repo : Bytes
  pub ref : Bytes
  pub commit_sha : Bytes
  pub commit_time : Bytes
  pub received_at : Bytes
  pub verified : Bool
  pub consumed_by_rule_ids : List Bytes
  pub environments : List Bytes

-- The project, the environment and the environment's id, with the empty text for none.
abbrev pub SignedScope : Type 0
SignedScope = Bytes × Bytes × Bytes

abbrev pub Answer : Type 0 → Type 0
Answer A = Result PlanCode A

pub record PolicyContext : Type 0 where
  pub now : ℤ
  pub trust : TrustStore
  pub admission_digest : Bytes → Answer (Option Bytes)
  pub admission_signer_key_ids : Bytes → Bytes → Answer (Option (List Bytes))
  pub seen : Bytes → Bytes → Answer Bool
  pub head : Bytes → Bytes → Answer Bytes
  pub rule : Bytes → Answer (Option RuleRecord)
  pub rule_invocations_last_hour : Bytes → Answer ℕ
  pub delivery : Bytes → Answer (Option DeliveryRecord)
  pub last_admitted_spec : Bytes → Answer (Option Value)
  pub build_image : Bytes → Bytes → Answer (Option Bytes)
  pub build_window : Bytes → Bytes → Answer (Option ℤ × Option ℤ)
  pub deployed_commit : Bytes → Bytes → Answer (Option (Bytes × Bytes))
  pub admission_scope : Bytes → Bytes → Answer (Option SignedScope)
  pub service_scope : Bytes → Answer (Option SignedScope)
  pub cron_scope : Bytes → Answer (Option SignedScope)
  pub backup_policies : Bytes → Answer (List Value)
  pub environment_protected : Bytes → Bytes → Answer Bool

-- `timestamp` of `verify.rs`, over the one of `text.rs`.
unfoldable pub time_of : Value → Answer ℤ
time_of value = ok_or parse (and_then (as_str value) timestamp)

-- Step 7.
unfoldable pub check_time : Value → ℤ → Answer (Unit {0})
unfolding lookup time_of ◌+ℤ◌ ◌-ℤ◌
check_time plan now = do
  created ← time_of (index plan (codes "created_at"))
  expires ← time_of (index plan (codes "expires_at"))
  guard (ltb_ℤ (pos 0) (expires -ℤ created) && leb_ℤ (expires -ℤ created) max_lifetime_seconds)
      lifetime
  guard (not (ltb_ℤ (now +ℤ skew_seconds) created)) not_yet_valid
  guard (not (ltb_ℤ (expires +ℤ skew_seconds) now)) expired
