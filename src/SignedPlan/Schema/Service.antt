-- ===== src/SignedPlan/Schema/Service.antt =====
-- The specification of a service (src/signed_plan/schema.rs).
use permanu_agent.Base.{
  ℕ, ◌^◌, Bool, true, false, not, ◌&&◌, ◌||◌, List, [], ◌∷◌, Option, none, some, leb, if◌then◌else◌,
  length, all, any, is_nil, is_some_and, and_then, unwrap_or, ℤ, pos, leb_ℤ, ltb_ℤ, Bytes, codes,
  same, ends_with,
}
use permanu_agent.Base.Map.{Map, lookup, remove}
use permanu_agent.SignedPlan.Crypto.{Codec}
use permanu_agent.SignedPlan.Text.{
  reference, uuid7, hex64, hex40, key_id, env_name, hostname, cron, timezone, abs_path, bucket,
  repo, delivery_id, label_chars_ok, git_ref, semver, capability, user, is_forbidden, first_is,
  last_is, length_within,
}
use permanu_agent.SignedPlan.Text.Address.{default_route}
use permanu_agent.SignedPlan.Value.{
  Value, null, object, Members_of, as_str, as_array, as_object, as_i64, is_null, is_text, is_true,
  index, same_bool,
}
use permanu_agent.SignedPlan.Schema.{
  Shape, pattern_of, text_of, int_of, enum_of, bool_of, nullable, set_of, object_of, custom,
  fields_of, check, increasing, ltb_bytes, argv_shape, uuid7_shape, hex64_shape, host_shape,
  path_shape,
}
use permanu_agent.SignedPlan.Text
use permanu_agent.SignedPlan.Schema.Build.{build_recipe}

abbrev pub healthcheck : Codec → Shape
healthcheck codec = object_of (
    fields_of (
      (codes "kind", enum_of (codes "http" ∷ codes "tcp" ∷ codes "cmd" ∷ []))
      ∷ (codes "path", nullable (path_shape))
      ∷ (codes "port", nullable (int_of (pos 1) (pos 65_535)))
      ∷ (codes "command", nullable (argv_shape codec))
      ∷ (codes "interval_seconds", int_of (pos 1) (pos 3_600))
      ∷ (codes "timeout_seconds", int_of (pos 1) (pos 600))
      ∷ (codes "retries", int_of (pos 0) (pos 100))
      ∷ (codes "start_period_seconds", int_of (pos 0) (pos 3_600))
      ∷ []))

abbrev pub port : Shape
port = object_of (
    fields_of (
      (codes "container_port", int_of (pos 1) (pos 65_535))
      ∷ (codes "protocol", enum_of (codes "tcp" ∷ codes "udp" ∷ []))
      ∷ (codes "public", bool_of)
      ∷ []))

abbrev pub mount : Shape
mount = object_of (
    fields_of (
      (codes "volume_id", uuid7_shape)
      ∷ (codes "mount_path", path_shape)
      ∷ (codes "read_only", bool_of)
      ∷ []))

-- `sorted_unique_objects`, given the order of the keys.
unfoldable pub sorted_unique_objects {ℓ} :
    {K : Type ℓ} → Codec → (K → K → Bool) → (Value → K) → Shape → ℕ → Value → Bool
unfolding check increasing
sorted_unique_objects codec before key shape high v =
    is_some_and
      (λ xs.
        leb (length xs) high
        && all (check codec shape) xs
        && increasing (λ a b. before (key a) (key b)) xs)
      (as_array v)

-- `<` of two options.
abbrev pub ltb_option {ℓ} : {A : Type ℓ} → (A → A → Bool) → Option A → Option A → Bool
ltb_option before none none = false
ltb_option before none (some b) = true
ltb_option before (some a) none = false
ltb_option before (some a) (some b) = before a b

-- `==` of two optional integers.
abbrev pub same_option_ℤ : Option ℤ → Option ℤ → Bool
same_option_ℤ none none = true
same_option_ℤ (some a) (some b) = leb_ℤ a b && leb_ℤ b a
same_option_ℤ _ _ = false

-- `<` of two pairs of a port and a protocol.
unfoldable pub ltb_port : Option ℤ × Option Bytes → Option ℤ × Option Bytes → Bool
unfolding ltb_bytes
ltb_port (a, p) (b, q) = ltb_option ltb_ℤ a b || (same_option_ℤ a b && ltb_option ltb_bytes p q)

unfoldable pub spec_ports : Codec → Value → Bool
unfolding sorted_unique_objects ltb_port
spec_ports codec v =
    sorted_unique_objects codec ltb_port
      (λ p. (as_i64 (index p (codes "container_port")), as_str (index p (codes "protocol")))) port
      32 v

unfoldable pub spec_mounts : Codec → Value → Bool
unfolding sorted_unique_objects ltb_bytes
spec_mounts codec v =
    sorted_unique_objects codec (ltb_option ltb_bytes) (λ m. as_str (index m (codes "mount_path")))
      mount 16 v

abbrev pub binding : Shape
binding = object_of (
    fields_of (
      (codes "kind", enum_of (codes "plain" ∷ codes "secret" ∷ codes "reference" ∷ []))
      ∷ (codes "ref", nullable (text_of 1 256))
      ∷ []))

unfoldable pub spec_env : Codec → Value → Bool
unfolding check same lookup
spec_env codec v =
    is_some_and
      (λ m.
        leb (length m) 256
        && all
            (λ entry.
              env_name entry.0
              && check codec binding entry.1
              && same_bool (is_text (codes "plain") (index entry.1 (codes "kind")))
                  (is_null (index entry.1 (codes "ref"))))
            m)
      (as_object v)

-- The text test of `schema.rs`, over the one of `text.rs`.
abbrev pub image_repository : Value → Bool
image_repository v = is_some_and (λ t. length_within 1 255 t && Text.image_repository t) (as_str v)

abbrev pub spec_fields : Codec → List (Bytes × Shape)
spec_fields codec =
    ((codes "version", int_of (pos 1) (pos 1))
      ∷ (codes "service_id", uuid7_shape)
      ∷ (codes "image_repository", custom image_repository)
      ∷ (codes "image_digest_hex", hex64_shape)
      ∷ (codes "entrypoint", nullable (argv_shape codec))
      ∷ (codes "command", nullable (argv_shape codec))
      ∷ (codes "working_dir", nullable (path_shape))
      ∷ (codes "user", nullable (pattern_of user))
      ∷ (codes "env", custom (spec_env codec))
      ∷ (codes "ports", custom (spec_ports codec))
      ∷ (codes "mounts", custom (spec_mounts codec))
      ∷ (
        codes "resources",
        object_of (
            fields_of (
              (codes "cpu_millis", nullable (int_of (pos 10) (pos 256_000)))
              ∷ (codes "memory_bytes", nullable (int_of (pos (2 ^ 22)) (pos (2 ^ 40))))
              ∷ (codes "pids_limit", nullable (int_of (pos 16) (pos (2 ^ 22))))
              ∷ [])),
      )
      ∷ (codes "privileged", bool_of)
      ∷ (codes "cap_add", set_of (pattern_of capability) 0 16)
      ∷ (
        codes "network",
        object_of (
            fields_of (
              (codes "mode", enum_of (codes "project" ∷ codes "host" ∷ codes "none" ∷ []))
              ∷ (codes "aliases", set_of (host_shape) 0 8)
              ∷ [])),
      )
      ∷ (codes "healthcheck", nullable (healthcheck codec))
      ∷ (codes "replicas", int_of (pos 0) (pos 1_000))
      ∷ (
        codes "placement",
        object_of (fields_of ((codes "server_ids", set_of (uuid7_shape) 1 32) ∷ [])),
      )
      ∷ (codes "secrets_as_files_only", bool_of)
      ∷ (
        codes "service_kind",
        enum_of (
            codes "web"
            ∷ codes "worker"
            ∷ codes "database"
            ∷ codes "bucket"
            ∷ codes "cron"
            ∷ codes "static"
            ∷ []),
      )
      ∷ (codes "otel_inject", bool_of)
      ∷ [])

abbrev pub route : Shape
route = object_of (
    fields_of (
      (codes "hostname", host_shape)
      ∷ (codes "source", enum_of (codes "default" ∷ codes "custom" ∷ []))
      ∷ []))

-- The rule of an entry for its source.
unfoldable pub route_source_ok : Value → Bool
unfolding lookup same ends_with
route_source_ok r =
    let host = unwrap_or [] (as_str (index r (codes "hostname"))) in
    if is_text (codes "default") (index r (codes "source"))
    then default_route host
    else not (ends_with (codes ".sslip.io") host)

unfoldable pub spec_routes : Codec → Value → Bool
unfolding sorted_unique_objects ltb_bytes route_source_ok
spec_routes codec v =
    sorted_unique_objects codec (ltb_option ltb_bytes) (λ r. as_str (index r (codes "hostname")))
      route 16 v
    && is_some_and (all route_source_ok) (as_array v)

-- `rest.remove(name)` and a check of what it held: `none` is `return false`.
abbrev pub without : (Value → Bool) → Bytes → Map Value → Option (Map Value)
without test name m = elim (lookup name m) [
  | none ↦ some m
  | some v ↦ elim (test v) [ true ↦ some (remove name m) | false ↦ none ]
]

abbrev pub is_strategy : Value → Bool
is_strategy v = is_text (codes "rolling") v || is_text (codes "recreate") v

-- The rule of a spec that mounts a named volume.
unfoldable pub volume_rule : Map Value → Bool
unfolding lookup same
volume_rule m =
    let mounts_volume =
      is_some_and (λ xs. not (is_nil xs)) (as_array (unwrap_or null (lookup (codes "mounts") m))) in
    not mounts_volume
    || (not (is_some_and (is_text (codes "rolling")) (lookup (codes "strategy") m))
        && leb_ℤ (unwrap_or (pos 0) (as_i64 (unwrap_or null (lookup (codes "replicas") m))))
            (pos 1))

unfoldable pub spec_members : Codec → Map Value → Bool
unfolding check lookup remove same volume_rule
spec_members codec m =
    elim (and_then (without (build_recipe codec) (codes "build") m) (λ a.
      and_then (without (spec_routes codec) (codes "routes") a)
        (without is_strategy (codes "strategy")))) [
          | none ↦ false
          | some rest ↦
              check codec (object_of (fields_of (spec_fields codec))) (object (Members_of rest))
              && volume_rule m
        ]

unfoldable pub spec_shape : Codec → Value → Bool
unfolding spec_members
spec_shape codec v = is_some_and (spec_members codec) (as_object v)

abbrev pub spec : Codec → Shape
spec codec = custom (spec_shape codec)

unfoldable pub spec_elevated : Value → Bool
unfolding lookup same
spec_elevated v =
    let extra_capability =
      is_some_and (any (λ c. not (is_text (codes "NET_BIND_SERVICE") c)))
        (as_array (index v (codes "cap_add"))) in
    is_true (index v (codes "privileged"))
    || extra_capability
    || is_text (codes "host") (index (index v (codes "network")) (codes "mode"))
