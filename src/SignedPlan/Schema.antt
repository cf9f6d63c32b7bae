-- ===== src/SignedPlan/Schema.antt =====
-- The shape language of src/signed_plan/schema.rs, and the shapes that the plan and the trust store
-- share. A shape is checked under a `Codec`, the encodings of other crates.
pub mod Shapes
pub mod GrammarPatterns
pub mod Tests
pub mod Sets
pub mod Paths
pub mod Build
pub mod Service
pub mod Pem
pub mod Params
pub mod Rules
pub mod Plan
pub mod Grammars
pub mod CronAgreement
use permanu_agent.Base.{
  ℕ, ◌+◌, ◌-◌, ◌*◌, ◌^◌, Bool, true, false, not, ◌&&◌, ◌||◌, List, [], ◌∷◌, Option, none, some, leb,
  ltb, ◌==◌, if◌then◌else◌, length, all, any, is_some, is_some_and, and_then, unwrap_or, ℤ, pos,
  leb_ℤ, Bytes, codes, same, contains, within,
}
use permanu_agent.Base.Map.{Map, lookup}
use permanu_agent.SignedPlan.Crypto.{Codec}
use permanu_agent.SignedPlan.Text.{
  reference, uuid7, hex64, hex40, key_id, env_name, hostname, cron, timezone, abs_path, bucket,
  repo, delivery_id, label_chars_ok, git_ref,
}
use permanu_agent.SignedPlan.Text.Time.{timestamp}
use permanu_agent.SignedPlan.Value.{
  Value, as_str, as_array, as_object, as_i64, is_null, is_boolean, is_text, is_true, index,
  same_bool,
}

mutual
  pub data Shape : Type 0 where
    pattern_of : (Bytes → Bool) → Shape
    text_of : ℕ → ℕ → Shape
    label_of : ℕ → ℕ → Shape
    git_ref_of : Bool → Shape
    int_of : ℤ → ℤ → Shape
    enum_of : List Bytes → Shape
    bool_of : Shape
    timestamp_of : Shape
    sig64_of : Shape
    nullable : Shape → Shape
    set_of : Shape → ℕ → ℕ → Shape
    object_of : Fields → Shape
    custom : (Value → Bool) → Shape

  pub data Fields : Type 0 where
    no_more : Fields
    a_field : Bytes → Shape → Fields → Fields

abbrev pub fields_of : List (Bytes × Shape) → Fields
fields_of [] = no_more
fields_of ((n, s) ∷ fs) = a_field n s (fields_of fs)

abbrev pub names_of : Fields → List Bytes
names_of no_more = []
names_of (a_field n s fs) = n ∷ names_of fs

-- `<` of two texts.
unfoldable pub ltb_bytes : Bytes → Bytes → Bool
ltb_bytes a [] = false
ltb_bytes [] (y ∷ b) = true
ltb_bytes (x ∷ a) (y ∷ b) = ltb x y || (x == y && ltb_bytes a b)

-- `windows(2).all(|pair| pair[0] < pair[1])`.
unfoldable pub increasing {ℓ} : {A : Type ℓ} → (A → A → Bool) → List A → Bool
increasing before [] = true
increasing before (x ∷ []) = true
increasing before (x ∷ y ∷ xs) = before x y && increasing before (y ∷ xs)

-- `items.iter().map(Value::as_str).collect::<Option<Vec<_>>>()`.
abbrev pub collect_str : List Value → Option (List Bytes)
collect_str [] = some []
collect_str (v ∷ vs) = and_then (as_str v) (λ s. and_then (collect_str vs) (λ ss. some (s ∷ ss)))

-- `check_set`, given the check of an item.
unfoldable pub check_set : (Value → Bool) → ℕ → ℕ → Value → Bool
unfolding ltb_bytes increasing
check_set check_item low high v = elim (as_array v) [
  | none ↦ false
  | some xs ↦
      if not (within low high (length xs)) || not (all check_item xs)
      then false
      else elim (collect_str xs) [ none ↦ false | some strings ↦ increasing ltb_bytes strings ]
]

module _ (codec : Codec) where
  unfoldable mutual
    unfolding same contains lookup check_set

    pub check : Shape → Value → Bool
    check (pattern_of matcher) v = is_some_and matcher (as_str v)
    check (text_of low high) v = is_some_and (λ t. within low high (length t)) (as_str v)
    check (label_of low high) v =
        is_some_and (λ t. within low high (length t) && label_chars_ok t) (as_str v)
    check (git_ref_of is_pattern) v = is_some_and (λ t. git_ref t is_pattern) (as_str v)
    check (int_of low high) v = is_some_and (λ n. leb_ℤ low n && leb_ℤ n high) (as_i64 v)
    check (enum_of options) v = is_some_and (λ t. contains t options) (as_str v)
    check bool_of v = is_boolean v
    check timestamp_of v = is_some (and_then (as_str v) timestamp)
    check sig64_of v =
        is_some_and (λ bytes. length bytes == 64) (and_then (as_str v) codec.b64url_decode)
    check (nullable inner) v = is_null v || check inner v
    check (set_of inner low high) v = check_set (check inner) low high v
    check (object_of fields) v = elim (as_object v) [
      | none ↦ false
      | some m ↦ length m == length (names_of fields) && check_fields fields m
    ]
    check (custom function) v = function v

    pub check_fields : Fields → Map Value → Bool
    check_fields no_more m = true
    check_fields (a_field n shape fields) m =
        is_some_and (check shape) (lookup n m) && check_fields fields m

abbrev pub ref_shape : Shape
ref_shape = pattern_of reference

abbrev pub uuid7_shape : Shape
uuid7_shape = pattern_of uuid7

abbrev pub hex64_shape : Shape
hex64_shape = pattern_of hex64

abbrev pub kid_shape : Shape
kid_shape = pattern_of key_id

abbrev pub env_shape : Shape
env_shape = pattern_of env_name

abbrev pub host_shape : Shape
host_shape = pattern_of hostname

abbrev pub cron_shape : Shape
cron_shape = pattern_of cron

abbrev pub tz_shape : Shape
tz_shape = pattern_of timezone

abbrev pub path_shape : Shape
path_shape = pattern_of abs_path

abbrev pub bucket_shape : Shape
bucket_shape = pattern_of bucket

abbrev pub label_shape : Shape
label_shape = label_of 1 128

unfoldable pub argv : Codec → Value → Bool
unfolding check
argv codec v =
    is_some_and (λ xs. within 1 64 (length xs) && all (check codec (text_of 1 1024)) xs)
      (as_array v)

abbrev pub argv_shape : Codec → Shape
argv_shape codec = custom (argv codec)

abbrev pub sigref : Shape
sigref = object_of (fields_of ((codes "key_id", kid_shape) ∷ (codes "sig", sig64_of) ∷ []))

abbrev pub key_scope : Shape
key_scope = object_of (
    fields_of (
      (codes "project_ids", set_of (uuid7_shape) 1 32)
      ∷ (codes "environments", set_of (ref_shape) 1 16)
      ∷ (codes "server_level", bool_of)
      ∷ []))

abbrev pub key_entry : Shape
key_entry = object_of (
    fields_of (
      (codes "key_id", kid_shape)
      ∷ (codes "alg", enum_of (codes "ES256-raw" ∷ []))
      ∷ (codes "spki", text_of 1 200)
      ∷ (codes "label", label_shape)
      ∷ (codes "role", enum_of (codes "owner" ∷ codes "deployer" ∷ codes "ci" ∷ []))
      ∷ (codes "presence", enum_of (codes "biometry" ∷ codes "user_presence" ∷ codes "none" ∷ []))
      ∷ (codes "scope", nullable (key_scope))
      ∷ (codes "added_at", timestamp_of)
      ∷ (codes "added_by", nullable (sigref))
      ∷ []))

abbrev pub revocation : Shape
revocation = object_of (
    fields_of (
      (codes "key_id", kid_shape)
      ∷ (codes "revoked_at", timestamp_of)
      ∷ (
        codes "reason",
        enum_of (codes "lost" ∷ codes "compromised" ∷ codes "rotated" ∷ codes "other" ∷ []),
      )
      ∷ (codes "revoked_by", sigref)
      ∷ []))

abbrev pub rule_fields : List (Bytes × Shape)
rule_fields =
    ((codes "version", int_of (pos 1) (pos 1))
      ∷ (codes "id", uuid7_shape)
      ∷ (codes "label", label_shape)
      ∷ (codes "trigger", enum_of (codes "git.push" ∷ []))
      ∷ (
        codes "scope",
        object_of (
            fields_of (
              (codes "project_id", uuid7_shape)
              ∷ (codes "environment", ref_shape)
              ∷ (codes "service_ids", set_of (uuid7_shape) 1 32)
              ∷ (codes "server_ids", set_of (uuid7_shape) 1 32)
              ∷ (codes "repo", pattern_of repo)
              ∷ (codes "branch_patterns", set_of (git_ref_of true) 1 8)
              ∷ [])),
      )
      ∷ (codes "allowed_kinds", set_of (enum_of (codes "deploy" ∷ codes "scale" ∷ [])) 1 8)
      ∷ (
        codes "limits",
        object_of (
            fields_of (
              (codes "max_replicas", nullable (int_of (pos 1) (pos 1000)))
              ∷ (codes "max_invocations_per_hour", int_of (pos 1) (pos 120))
              ∷ [])),
      )
      ∷ (codes "not_before", timestamp_of)
      ∷ (codes "expires_at", timestamp_of)
      ∷ [])

unfoldable pub standing_rule : Codec → Value → Bool
unfolding check same
standing_rule codec v =
    if not (check codec (object_of (fields_of rule_fields)) v)
    then false
    else let lists_scale =
        is_some_and (any (is_text (codes "scale"))) (as_array (index v (codes "allowed_kinds"))) in
      not lists_scale
      || is_some_and (λ most. leb_ℤ (pos 1) most && leb_ℤ most (pos 1_000))
          (as_i64 (index (index v (codes "limits")) (codes "max_replicas")))

abbrev pub rule : Codec → Shape
rule codec = custom (standing_rule codec)

abbrev pub evidence : Shape
evidence = object_of (
    fields_of (
      (
        codes "provider",
        enum_of (codes "github" ∷ codes "gitlab" ∷ codes "gitea" ∷ codes "generic" ∷ []),
      )
      ∷ (codes "repo", pattern_of repo)
      ∷ (codes "ref", git_ref_of false)
      ∷ (codes "commit_sha", pattern_of hex40)
      ∷ (codes "commit_time", timestamp_of)
      ∷ (codes "delivery_id", pattern_of delivery_id)
      ∷ (codes "body_digest_hex", hex64_shape)
      ∷ (codes "received_at", timestamp_of)
      ∷ []))

abbrev pub invocation : Shape
invocation = object_of (
    fields_of (
      (codes "rule_id", uuid7_shape)
      ∷ (codes "rule_digest_hex", hex64_shape)
      ∷ (codes "trigger", enum_of (codes "git.push" ∷ []))
      ∷ (codes "evidence", evidence)
      ∷ []))

abbrev pub signature : Shape
signature = object_of (
    fields_of (
      (codes "key_id", kid_shape)
      ∷ (codes "alg", text_of 1 32)
      ∷ (codes "sig", sig64_of)
      ∷ (codes "signed_at", timestamp_of)
      ∷ []))

unfoldable pub key_scope_shape_ok : Value → Bool
unfolding same lookup
key_scope_shape_ok entry =
    let role = unwrap_or [] (as_str (index entry (codes "role"))) in
    let scope = index entry (codes "scope") in
    same_bool (same role (codes "owner")) (is_null scope)
    && not (same role (codes "ci") && is_true (index scope (codes "server_level")))
    && same_bool (same role (codes "ci")) (is_text (codes "none") (index entry (codes "presence")))
