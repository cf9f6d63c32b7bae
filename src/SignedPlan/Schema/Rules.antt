-- ===== src/SignedPlan/Schema/Rules.antt =====
-- The rules of each kind of action (src/signed_plan/schema/actions.rs and actions_m2.rs).
use permanu_agent.Base.{
  ℕ, ◌*◌, Bool, true, false, not, ◌&&◌, ◌||◌, List, [], ◌∷◌, Option, none, some, leb, ◌==◌,
  if◌then◌else◌, length, take, drop, get_elem?, last?, all, any, is_some, is_some_and, and_then,
  unwrap_or, ℤ, pos, leb_ℤ, ltb_ℤ, ◌-ℤ◌, Bytes, codes, same, contains, split, strip_suffix,
  starts_with, bit_and,
}
use permanu_agent.Base.Map.{lookup}
use permanu_agent.SignedPlan.Crypto.{Codec, hex}
use permanu_agent.SignedPlan.Text.Address.{default_route}
use permanu_agent.SignedPlan.Text.Time.{timestamp}
use permanu_agent.SignedPlan.Value.{
  Value, as_str, as_array, as_object, as_i64, is_null, is_text, index, get, same_bool, same_value,
}
use permanu_agent.SignedPlan.Schema.{key_scope_shape_ok}
use permanu_agent.SignedPlan.Schema.Grammars.{cron_parses, is_none_or}

-- `string_set`, as the list of its strings: sets are compared by what they contain.
abbrev pub strings_in : List Value → List Bytes
strings_in [] = []
strings_in (v ∷ vs) = elim (as_str v) [ some s ↦ s ∷ strings_in vs | none ↦ strings_in vs ]

abbrev pub string_set : Value → List Bytes
string_set v = unwrap_or [] (elim (as_array v) [ none ↦ none | some xs ↦ some (strings_in xs) ])

-- `map_or(&[][..], Vec::as_slice)`.
abbrev pub items_or_none : Value → List Value
items_or_none v = unwrap_or [] (as_array v)

abbrev pub text_or_empty : Value → Bytes
text_or_empty v = unwrap_or [] (as_str v)

-- `targets.len() == 1 && targets[0] == *server`.
unfoldable pub single_target : Value → Value → Bool
unfolding lookup same_value
single_target plan server = elim (as_array (index plan (codes "targets"))) [
  | some (t ∷ []) ↦ same_value t server
  | _ ↦ false
]

-- The last part of `rsplit('/')`, which is its first.
abbrev pub last_part : Bytes → Bytes
last_part key = unwrap_or [] (last? (split b'/' key))

unfoldable pub key_names_backup : Value → Bool
unfolding lookup split strip_suffix same
key_names_backup params = elim (as_str (index params (codes "object_key"))) [
  | none ↦ false
  | some key ↦ elim (as_str (index params (codes "backup_id"))) [
    | none ↦ false
    | some backup ↦ is_some_and (same backup) (strip_suffix (codes ".age") (last_part key))
  ]
]

-- Where the object of a restore is: signed for an imported restore alone.
unfoldable pub located_rightly : Value → Bool
unfolding lookup same key_names_backup
located_rightly params =
    let has_destination = is_some (get (codes "destination_ref") params) in
    let has_key = is_some (get (codes "object_key") params) in
    if is_text (codes "imported") (index params (codes "origin"))
    then has_destination
      && has_key
      && not (is_some (get (codes "source_resource_id") params))
      && key_names_backup params
    else not (has_destination || has_key)

abbrev pub deploys : Value → Value → Bool
deploys resource earlier =
    is_text (codes "deploy") (index earlier (codes "kind"))
    && same_value (index (index earlier (codes "params")) (codes "service_id")) resource

unfoldable pub restore_shape : Value → ℕ → Value → Bool
unfolding lookup same same_value located_rightly
restore_shape plan position params =
    if not (located_rightly params)
    then false
    else let resource = index params (codes "resource_id") in
      let source = unwrap_or resource (get (codes "source_resource_id") params) in
      same_value source resource
      || is_some_and (λ xs. any (deploys resource) (take position xs))
          (as_array (index plan (codes "actions")))

-- Which optional members a destination of a kind has.
unfoldable pub kind_members_ok : Bytes → Option Bytes → Bool → Bool → Bool → Bool
unfolding same starts_with
kind_members_ok kind url region bucket credential =
    if same kind (codes "server_local")
    then not (is_some url) && not region && not bucket && not credential
    else if same kind (codes "sftp")
    then is_some_and (starts_with (codes "sftp://")) url && not bucket && not region && credential
    else bucket
      && credential
      && (elim url [ some u ↦ starts_with (codes "https://") u | none ↦ same kind (codes "s3") ])

unfoldable pub destination_shape : Value → Bool
unfolding lookup contains kind_members_ok
destination_shape params =
    let url = as_str (index params (codes "endpoint")) in
    let kind = as_str (index params (codes "destination_kind")) in
    let s3_kinds = codes "r2" ∷ codes "s3" ∷ codes "b2" ∷ [] in
    if is_some (get (codes "ca_pem") params)
      && (not (is_some_and (λ k. contains k s3_kinds) kind) || not (is_some url))
    then false
    else kind_members_ok (unwrap_or [] kind) url (not (is_null (index params (codes "region"))))
        (not (is_null (index params (codes "bucket"))))
        (not (is_null (index params (codes "credential_ciphertext_digest_hex"))))

abbrev pub ed25519_spki_prefix : Bytes
ed25519_spki_prefix =
    0x30 ∷ 0x2a ∷ 0x30 ∷ 0x05 ∷ 0x06 ∷ 0x03 ∷ 0x2b ∷ 0x65 ∷ 0x70 ∷ 0x03 ∷ 0x21 ∷ 0x00 ∷ []

-- `at_or_above_p`: the 32 bytes of a point, little-endian and without the sign, are no residue.
unfoldable pub at_or_above_p : Bytes → Bool
at_or_above_p bytes =
    bit_and (unwrap_or 0 (get_elem? bytes 31)) 0x7f == 0x7f
    && all (λ b. b == 0xff) (take 30 (drop 1 bytes))
    && leb 0xed (unwrap_or 0 (get_elem? bytes 0))

unfoldable pub release_key_id : Codec → Bytes → Option Bytes
unfolding same at_or_above_p
release_key_id codec spki = elim (codec.standard_decode spki) [
  | none ↦ none
  | some der ↦
      if not (length der == 44)
        || not (same (take 12 der) ed25519_spki_prefix)
        || not (same (codec.standard_encode der) spki)
      then none
      else if at_or_above_p (drop 12 der)
      then none
      else if codec.decompresses (drop 12 der)
      then some (codec.b64url_encode (take 16 (codec.sha256 der)))
      else none
]

-- `action_rules_hold` of `actions_m2.rs`.
unfoldable pub m2_rules_hold : Codec → Value → Bytes → Value → Bool
unfolding contains lookup same same_value cron_parses destination_shape release_key_id single_target
m2_rules_hold codec plan kind params =
    if contains kind (codes "cron.create" ∷ codes "cron.update" ∷ [])
    then is_some_and cron_parses (as_str (index params (codes "schedule")))
    else if same kind (codes "backup.policy.set")
    then is_some_and cron_parses (as_str (index params (codes "schedule")))
      && is_none_or cron_parses (as_str (index params (codes "verify_schedule")))
    else if same kind (codes "env.protection.set")
    then same_value (index params (codes "environment")) (index plan (codes "environment"))
    else if same kind (codes "domain.add")
    then is_none_or (λ source. not (is_text (codes "default") source)) (get (codes "source") params)
      || (is_text (codes "acme") (index params (codes "tls"))
          && is_some_and default_route (as_str (index params (codes "hostname"))))
    else if same kind (codes "backup.destination.set")
    then destination_shape params
    else if same kind (codes "release_key.add")
    then is_some_and (λ id. is_text id (index params (codes "key_id")))
        (and_then (as_str (index params (codes "spki"))) (release_key_id codec))
    else if same kind (codes "recovery_recipient.set")
    then is_none_or
        (λ print.
          is_some_and (λ recipient. is_text (hex (codec.sha256 recipient)) print)
            (as_str (index params (codes "recipient"))))
        (get (codes "fingerprint_hex") params)
    else if same kind (codes "server.accounts.migrate")
    then single_target plan (index params (codes "server_id"))
    else true

-- The seconds from `not_before` to `expires_at` of a rule.
unfoldable pub rule_window : Value → Option ℤ
unfolding lookup ◌-ℤ◌
rule_window rule =
    and_then (timestamp (text_or_empty (index rule (codes "expires_at")))) (λ expires.
      and_then (timestamp (text_or_empty (index rule (codes "not_before"))))
        (λ not_before. some (expires -ℤ not_before)))

abbrev pub rule_scope : Value → Bytes → Value
rule_scope rule name = index (index rule (codes "scope")) name

abbrev pub in_window : ℤ → Bool
in_window seconds = ltb_ℤ (pos 0) seconds && leb_ℤ seconds (pos (400 * 86_400))

unfoldable pub key_entry_added : Value → Bool
unfolding lookup key_scope_shape_ok
key_entry_added entry = not (is_null (index entry (codes "added_by"))) && key_scope_shape_ok entry

unfoldable pub keeps_some : Value → Bool
unfolding lookup
keeps_some params =
    any (λ keep. ltb_ℤ (pos 0) (unwrap_or (pos 0) (as_i64 (index params keep))))
      (codes "keep_daily" ∷ codes "keep_weekly" ∷ codes "keep_monthly" ∷ [])

-- No variable is both set and unset.
unfoldable pub sets_apart : Value → Bool
unfolding lookup contains
sets_apart params =
    let unset = string_set (index params (codes "unset")) in
    is_some_and (all (λ entry. not (contains entry.0 unset)))
      (as_object (index params (codes "set")))

unfoldable pub rule_created : Value → Value → Bool
unfolding lookup same_value rule_window
rule_created plan rule =
    same_value (rule_scope rule (codes "project_id")) (index plan (codes "project_id"))
    && same_value (rule_scope rule (codes "environment")) (index plan (codes "environment"))
    && is_some_and in_window (rule_window rule)

unfoldable pub action_rules_hold : Codec → Value → ℕ → Value → Bool
unfolding contains lookup same same_value single_target key_scope_shape_ok sets_apart rule_created
    key_entry_added keeps_some m2_rules_hold restore_shape
action_rules_hold codec plan position action =
    let params = index action (codes "params") in
    let kind = text_or_empty (index action (codes "kind")) in
    if same kind (codes "server.add")
    then single_target plan (index params (codes "server_id"))
      && is_null (index (index params (codes "owner_key")) (codes "added_by"))
      && key_scope_shape_ok (index params (codes "owner_key"))
    else if same kind (codes "server.remove")
    then single_target plan (index params (codes "server_id"))
    else if same kind (codes "component.update")
    then same_bool (is_text (codes "os_packages") (index params (codes "component")))
        (is_null (index params (codes "bundle_manifest_digest_hex")))
    else if same kind (codes "env.set")
    then sets_apart params
    else if same kind (codes "rule.create")
    then rule_created plan (index params (codes "rule"))
    else if same kind (codes "key.add")
    then key_entry_added (index params (codes "entry"))
    else if same kind (codes "project.delete")
    then same_value (index params (codes "project_id")) (index plan (codes "project_id"))
    else if same kind (codes "environment.delete")
    then same_value (index params (codes "environment")) (index plan (codes "environment"))
    else if same kind (codes "domain.switch")
    then not
        (same_value (index params (codes "from_hostname")) (index params (codes "to_hostname")))
    else if same kind (codes "backup.policy.set")
    then keeps_some params && m2_rules_hold codec plan (codes "backup.policy.set") params
    else if same kind (codes "restore")
    then restore_shape plan position params
    else m2_rules_hold codec plan kind params
