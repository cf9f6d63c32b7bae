-- ===== src/SignedPlan/Schema/Params.antt =====
-- The parameters of the kinds of actions (src/signed_plan/schema/actions.rs and actions_m2.rs). A
-- match on the kind is a table of its arms.
use permanu_agent.Base.{
  ◌-◌, ◌^◌, Bool, true, false, ◌&&◌, List, [], ◌∷◌, Option, none, some, leb, if◌then◌else◌, length,
  all, is_some, is_some_and, unwrap_or, pos, Bytes, codes, same, contains,
}
use permanu_agent.Base.Map.{Map, lookup, remove}
use permanu_agent.SignedPlan.Crypto.{Codec}
use permanu_agent.SignedPlan.Text.{hex40, key_id, env_name, bucket, repo, semver}
use permanu_agent.SignedPlan.Value.{Value, object, Members_of, as_object, get}
use permanu_agent.SignedPlan.Schema.{
  Shape, pattern_of, text_of, int_of, enum_of, bool_of, timestamp_of, nullable, set_of, object_of,
  custom, fields_of, check, argv_shape, rule, ref_shape, uuid7_shape, hex64_shape, env_shape,
  host_shape, cron_shape, tz_shape, path_shape, bucket_shape, label_shape, key_entry, revocation,
}
use permanu_agent.SignedPlan.Schema.Grammars.{
  age_recipient, endpoint, prefix, object_key, region, fingerprint, webhook_host,
}
use permanu_agent.SignedPlan.Schema.Pem.{ca_pem}

abbrev pub cron_params : Codec → List (Bytes × Shape)
cron_params codec =
    ((codes "cron_id", uuid7_shape)
      ∷ (codes "service_id", uuid7_shape)
      ∷ (codes "name", label_shape)
      ∷ (codes "schedule", cron_shape)
      ∷ (codes "timezone", tz_shape)
      ∷ (codes "command", argv_shape codec)
      ∷ (codes "timeout_seconds", int_of (pos 1) (pos 86_400))
      ∷ (codes "retries", int_of (pos 0) (pos 10))
      ∷ (codes "overlap", enum_of (codes "skip" ∷ codes "queue" ∷ codes "allow" ∷ []))
      ∷ (codes "heartbeat_alert", bool_of)
      ∷ [])

abbrev pub alert_rule : List (Bytes × Shape)
alert_rule =
    ((codes "alert_rule_id", uuid7_shape)
      ∷ (codes "name", label_shape)
      ∷ (codes "spec", text_of 2 16_384)
      ∷ [])

abbrev pub alert_channel : List (Bytes × Shape)
alert_channel =
    ((codes "channel_id", uuid7_shape)
      ∷ (codes "name", label_shape)
      ∷ (codes "channel_kind", enum_of (codes "slack" ∷ codes "discord" ∷ codes "webhook" ∷ []))
      ∷ (codes "credential_ciphertext_digest_hex", hex64_shape)
      ∷ [])

abbrev pub cron_id : List (Bytes × Shape)
cron_id = ((codes "cron_id", uuid7_shape) ∷ [])

abbrev pub size : Shape
size = int_of (pos (2 ^ 30)) (pos (2 ^ 46))

abbrev pub rollback_legacy : List (Bytes × Shape)
rollback_legacy =
    ((codes "service_id", uuid7_shape)
      ∷ (codes "to_release_id", uuid7_shape)
      ∷ (codes "spec_digest_hex", hex64_shape)
      ∷ [])

unfoldable pub env_map : Codec → Value → Bool
unfolding check
env_map codec v =
    is_some_and
      (λ m.
        leb (length m) 128
        && all (λ entry. env_name entry.0 && check codec (text_of 0 4_096) entry.1) m)
      (as_object v)

abbrev pub Params : Type 0
Params = List (Bytes × Shape)

-- The first arm whose pattern has the kind.
abbrev pub arm_of {ℓ} : {A : Type ℓ} → Bytes → List (List Bytes × A) → Option A
arm_of kind [] = none
arm_of kind ((kinds, a) ∷ arms) = if contains kind kinds then some a else arm_of kind arms

abbrev pub params_arms : Codec → List (List Bytes × Params)
params_arms codec =
    (
      (codes "deploy" ∷ []),
      ((codes "service_id", uuid7_shape)
          ∷ (codes "commit_sha", nullable (pattern_of hex40))
          ∷ (codes "spec_digest_hex", hex64_shape)
          ∷ (codes "deployment_id", uuid7_shape)
          ∷ []),
    )
    ∷ (
      (codes "rollback" ∷ []),
      ((codes "service_id", uuid7_shape)
          ∷ (codes "to_deployment_id", uuid7_shape)
          ∷ (codes "spec_digest_hex", hex64_shape)
          ∷ []),
    )
    ∷ (
      (codes "restart" ∷ codes "service.elevate" ∷ []),
      ((codes "service_id", uuid7_shape) ∷ (codes "spec_digest_hex", hex64_shape) ∷ []),
    )
    ∷ (
      (codes "scale" ∷ []),
      ((codes "service_id", uuid7_shape)
          ∷ (codes "replicas", int_of (pos 0) (pos 1_000))
          ∷ (codes "spec_digest_hex", hex64_shape)
          ∷ []),
    )
    ∷ (
      (codes "operation.cancel" ∷ []),
      ((codes "plan_id", uuid7_shape) ∷ (codes "plan_digest_hex", hex64_shape) ∷ []),
    )
    ∷ (
      (codes "env.set" ∷ []),
      ((codes "service_id", uuid7_shape)
          ∷ (codes "set", custom (env_map codec))
          ∷ (codes "unset", set_of (env_shape) 0 128)
          ∷ []),
    )
    ∷ (
      (codes "secret.set" ∷ []),
      ((codes "service_id", nullable (uuid7_shape))
          ∷ (codes "name", env_shape)
          ∷ (codes "ciphertext_digest_hex", hex64_shape)
          ∷ []),
    )
    ∷ (
      (codes "secret.unset" ∷ []),
      ((codes "service_id", nullable (uuid7_shape)) ∷ (codes "name", env_shape) ∷ []),
    )
    ∷ ((codes "service.delete" ∷ []), ((codes "service_id", uuid7_shape) ∷ []))
    ∷ ((codes "environment.delete" ∷ []), ((codes "environment", ref_shape) ∷ []))
    ∷ ((codes "project.delete" ∷ []), ((codes "project_id", uuid7_shape) ∷ []))
    ∷ (
      (codes "volume.create" ∷ []),
      ((codes "volume_id", uuid7_shape)
          ∷ (codes "service_id", uuid7_shape)
          ∷ (codes "mount_path", path_shape)
          ∷ (codes "size_bytes", size)
          ∷ []),
    )
    ∷ (
      (codes "volume.resize" ∷ []),
      ((codes "volume_id", uuid7_shape)
          ∷ (codes "service_id", uuid7_shape)
          ∷ (codes "size_bytes", size)
          ∷ []),
    )
    ∷ (
      (codes "volume.delete" ∷ []),
      ((codes "volume_id", uuid7_shape) ∷ (codes "service_id", uuid7_shape) ∷ []),
    )
    ∷ (
      (codes "bucket.create" ∷ codes "bucket.delete" ∷ codes "bucket.credentials.rotate" ∷ []),
      ((codes "service_id", uuid7_shape) ∷ (codes "bucket", bucket_shape) ∷ []),
    )
    ∷ (
      (codes "domain.add" ∷ []),
      ((codes "service_id", uuid7_shape)
          ∷ (codes "hostname", host_shape)
          ∷ (codes "tls", enum_of (codes "acme" ∷ codes "none" ∷ []))
          ∷ []),
    )
    ∷ (
      (codes "domain.remove" ∷ []),
      ((codes "service_id", uuid7_shape) ∷ (codes "hostname", host_shape) ∷ []),
    )
    ∷ (
      (codes "domain.switch" ∷ []),
      ((codes "service_id", uuid7_shape)
          ∷ (codes "from_hostname", host_shape)
          ∷ (codes "to_hostname", host_shape)
          ∷ []),
    )
    ∷ (
      (codes "edge.rule.set" ∷ []),
      ((codes "service_id", uuid7_shape)
          ∷ (codes "edge_rule_id", uuid7_shape)
          ∷ (codes "spec", text_of 2 16_384)
          ∷ []),
    )
    ∷ (
      (codes "edge.rule.delete" ∷ []),
      ((codes "service_id", uuid7_shape) ∷ (codes "edge_rule_id", uuid7_shape) ∷ []),
    )
    ∷ ((codes "cron.create" ∷ codes "cron.update" ∷ []), cron_params codec)
    ∷ (
      (codes "cron.delete" ∷ codes "cron.run" ∷ codes "cron.pause" ∷ codes "cron.resume" ∷ []),
      cron_id,
    )
    ∷ (
      (codes "backup.run" ∷ codes "backup.policy.delete" ∷ []),
      ((codes "resource_id", uuid7_shape) ∷ []),
    )
    ∷ (
      (codes "backup.verify" ∷ codes "backup.delete" ∷ []),
      ((codes "resource_id", uuid7_shape) ∷ (codes "backup_id", uuid7_shape) ∷ []),
    )
    ∷ (
      (codes "backup.policy.set" ∷ []),
      ((codes "resource_id", uuid7_shape)
          ∷ (codes "schedule", cron_shape)
          ∷ (codes "timezone", tz_shape)
          ∷ (codes "keep_daily", int_of (pos 0) (pos 366))
          ∷ (codes "keep_weekly", int_of (pos 0) (pos 260))
          ∷ (codes "keep_monthly", int_of (pos 0) (pos 120))
          ∷ (codes "verify_schedule", nullable (cron_shape))
          ∷ (codes "destination_ref", ref_shape)
          ∷ []),
    )
    ∷ (
      (codes "restore" ∷ []),
      ((codes "resource_id", uuid7_shape)
          ∷ (codes "backup_id", uuid7_shape)
          ∷ (codes "backup_digest_hex", hex64_shape)
          ∷ (codes "origin", enum_of (codes "server" ∷ codes "imported" ∷ []))
          ∷ []),
    )
    ∷ (
      (codes "db.upgrade" ∷ []),
      ((codes "resource_id", uuid7_shape)
          ∷ (codes "engine", enum_of (codes "postgres" ∷ []))
          ∷ (codes "from_version", text_of 1 32)
          ∷ (codes "to_version", text_of 1 32)
          ∷ []),
    )
    ∷ ((codes "alert.rule.create" ∷ codes "alert.rule.update" ∷ []), alert_rule)
    ∷ ((codes "alert.rule.delete" ∷ []), ((codes "alert_rule_id", uuid7_shape) ∷ []))
    ∷ (
      (codes "alert.silence" ∷ []),
      ((codes "alert_rule_id", uuid7_shape) ∷ (codes "until", nullable (timestamp_of)) ∷ []),
    )
    ∷ ((codes "alert.channel.create" ∷ codes "alert.channel.update" ∷ []), alert_channel)
    ∷ ((codes "alert.channel.delete" ∷ []), ((codes "channel_id", uuid7_shape) ∷ []))
    ∷ (
      (codes "telemetry.retention.set" ∷ []),
      ((
        codes "telemetry_kind",
        enum_of (
            codes "logs"
            ∷ codes "http"
            ∷ codes "traces"
            ∷ codes "metrics"
            ∷ codes "analytics"
            ∷ []),
      )
          ∷ (codes "max_age_days", int_of (pos 1) (pos 3_650))
          ∷ (codes "max_bytes", int_of (pos (2 ^ 20)) (pos ((2 ^ 53) - 1)))
          ∷ []),
    )
    ∷ (
      (codes "server.add" ∷ []),
      ((codes "server_id", uuid7_shape)
          ∷ (codes "ssh_host_key_digest_hex", hex64_shape)
          ∷ (codes "owner_key", key_entry)
          ∷ (codes "bundle_manifest_digest_hex", hex64_shape)
          ∷ (codes "age_recipient_fingerprint", hex64_shape)
          ∷ []),
    )
    ∷ (
      (codes "server.remove" ∷ []),
      ((codes "server_id", uuid7_shape) ∷ (codes "wipe", bool_of) ∷ []),
    )
    ∷ (
      (codes "agent.update" ∷ []),
      ((codes "version", pattern_of semver)
          ∷ (codes "artifact_digest_hex", hex64_shape)
          ∷ (codes "bundle_manifest_digest_hex", hex64_shape)
          ∷ (codes "allow_downgrade", bool_of)
          ∷ []),
    )
    ∷ (
      (codes "component.update" ∷ []),
      ((
        codes "component",
        enum_of (codes "dwaar" ∷ codes "runner" ∷ codes "permanu-env" ∷ codes "os_packages" ∷ []),
      )
          ∷ (codes "version", text_of 1 64)
          ∷ (codes "artifact_digest_hex", nullable (hex64_shape))
          ∷ (codes "bundle_manifest_digest_hex", nullable (hex64_shape))
          ∷ (codes "allow_downgrade", bool_of)
          ∷ []),
    )
    ∷ (
      (codes "shell.open" ∷ []),
      ((codes "service_id", nullable (uuid7_shape))
          ∷ (codes "ttl_seconds", int_of (pos 1) (pos 900))
          ∷ []),
    )
    ∷ ((codes "rule.create" ∷ []), ((codes "rule", rule codec) ∷ []))
    ∷ (
      (codes "rule.revoke" ∷ []),
      ((codes "rule_id", uuid7_shape) ∷ (codes "rule_digest_hex", hex64_shape) ∷ []),
    )
    ∷ ((codes "key.add" ∷ []), ((codes "entry", key_entry) ∷ []))
    ∷ ((codes "key.revoke" ∷ []), ((codes "revocation", revocation) ∷ []))
    ∷ []

abbrev pub params_m2_arms : List (List Bytes × Params)
params_m2_arms =
    (
      (codes "backup.destination.set" ∷ []),
      ((codes "destination_ref", ref_shape)
          ∷ (
            codes "destination_kind",
            enum_of
                (codes "r2" ∷ codes "s3" ∷ codes "b2" ∷ codes "sftp" ∷ codes "server_local" ∷ []),
          )
          ∷ (codes "endpoint", nullable (pattern_of endpoint))
          ∷ (codes "region", nullable (pattern_of region))
          ∷ (codes "bucket", nullable (pattern_of bucket))
          ∷ (codes "prefix", pattern_of prefix)
          ∷ (codes "credential_ciphertext_digest_hex", nullable (hex64_shape))
          ∷ []),
    )
    ∷ ((codes "backup.destination.delete" ∷ []), ((codes "destination_ref", ref_shape) ∷ []))
    ∷ ((codes "recovery_recipient.set" ∷ []), ((codes "recipient", pattern_of age_recipient) ∷ []))
    ∷ (
      (codes "recovery_recipient.set+fingerprint" ∷ []),
      ((codes "recipient", pattern_of age_recipient) ∷ (codes "fingerprint_hex", hex64_shape) ∷ []),
    )
    ∷ (
      (codes "env.protection.set" ∷ []),
      ((codes "environment", ref_shape) ∷ (codes "protected", bool_of) ∷ []),
    )
    ∷ (
      (codes "release_key.add" ∷ []),
      ((codes "key_id", pattern_of key_id)
          ∷ (codes "spki", text_of 1 100)
          ∷ (codes "label", label_shape)
          ∷ []),
    )
    ∷ (
      (codes "release_key.revoke" ∷ []),
      ((codes "key_id", pattern_of key_id)
          ∷ (codes "reason", enum_of (codes "compromised" ∷ codes "rotated" ∷ codes "other" ∷ []))
          ∷ []),
    )
    ∷ (
      (codes "repo.credential.set" ∷ []),
      ((codes "repo", pattern_of repo)
          ∷ (codes "credential_kind", enum_of (codes "ssh_deploy_key" ∷ codes "https_token" ∷ []))
          ∷ (codes "fingerprint", pattern_of fingerprint)
          ∷ (codes "credential_ciphertext_digest_hex", hex64_shape)
          ∷ []),
    )
    ∷ ((codes "repo.credential.delete" ∷ []), ((codes "repo", pattern_of repo) ∷ []))
    ∷ ((codes "webhook.host.set" ∷ []), ((codes "webhook_host", pattern_of webhook_host) ∷ []))
    ∷ ((codes "server.accounts.migrate" ∷ []), ((codes "server_id", uuid7_shape) ∷ []))
    ∷ []

abbrev pub db_credentials : Shape
db_credentials = object_of (
    fields_of (
      (codes "user", pattern_of env_name)
      ∷ (codes "password", pattern_of env_name)
      ∷ (codes "database", pattern_of env_name)
      ∷ []))

abbrev pub optional_arms : Codec → List (List Bytes × Params)
optional_arms codec =
    ((codes "db.upgrade" ∷ []), ((codes "spec_digest_hex", hex64_shape) ∷ []))
    ∷ (
      (codes "restore" ∷ []),
      ((codes "source_resource_id", uuid7_shape)
          ∷ (codes "destination_ref", ref_shape)
          ∷ (codes "object_key", pattern_of object_key)
          ∷ []),
    )
    ∷ (
      (codes "backup.policy.set" ∷ []),
      ((codes "db_credentials_ref", db_credentials)
          ∷ (codes "channel_ids", set_of (uuid7_shape) 0 16)
          ∷ []),
    )
    ∷ (
      (codes "domain.add" ∷ []),
      ((codes "source", enum_of (codes "custom" ∷ codes "default" ∷ [])) ∷ []),
    )
    ∷ ((codes "operation.cancel" ∷ []), ((codes "run_id", uuid7_shape) ∷ []))
    ∷ ((codes "backup.destination.set" ∷ []), ((codes "ca_pem", custom (ca_pem codec)) ∷ []))
    ∷ []

unfoldable pub params_m2_for : Bytes → Option Params
unfolding contains
params_m2_for kind = arm_of kind params_m2_arms

unfoldable pub params_for : Codec → Bytes → Option Params
unfolding contains params_m2_for
params_for codec kind = elim (arm_of kind (params_arms codec)) [
  | some ps ↦ some ps
  | none ↦ params_m2_for kind
]

unfoldable pub optional_params_for : Codec → Bytes → Params
unfolding contains
optional_params_for codec kind = unwrap_or [] (arm_of kind (optional_arms codec))

unfoldable pub params_of : Codec → Bytes → Option Value → Option Params
unfolding same lookup params_for params_m2_for
params_of codec kind ps =
    if same kind (codes "rollback") && is_some_and (λ p. is_some (get (codes "to_release_id") p)) ps
    then some rollback_legacy
    else if same kind (codes "recovery_recipient.set")
        && is_some_and (λ p. is_some (get (codes "fingerprint_hex") p)) ps
    then params_m2_for (codes "recovery_recipient.set+fingerprint")
    else params_for codec kind

-- `for (name, shape) in optional`: what is left of the members, or `none` for `return false`.
unfoldable pub take_optional : Codec → Params → Map Value → Option (Map Value)
unfolding check lookup remove
take_optional codec [] m = some m
take_optional codec ((name, shape) ∷ ps) m = elim (lookup name m) [
  | none ↦ take_optional codec ps m
  | some v ↦ elim (check codec shape v) [
    | false ↦ none
    | true ↦ take_optional codec ps (remove name m)
  ]
]

unfoldable pub params_ok : Codec → Bytes → Option Value → Bool
unfolding params_of optional_params_for take_optional check
params_ok codec kind none = false
params_ok codec kind (some v) = elim (params_of codec kind (some v)) [
  | none ↦ false
  | some fixed ↦ elim (as_object v) [
    | none ↦ false
    | some m ↦
        is_some_and (λ rest. check codec (object_of (fields_of fixed)) (object (Members_of rest)))
          (take_optional codec (optional_params_for codec kind) m)
  ]
]
