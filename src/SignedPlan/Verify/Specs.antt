-- ===== src/SignedPlan/Verify/Specs.antt =====
-- The specifications that come with a plan (src/signed_plan/verify.rs): step 3s.
use permanu_agent.SignedPlan.Verify.{max_spec_bytes, max_specs}
use permanu_agent.SignedPlan.Schema.Service.{spec, spec_elevated}
use permanu_agent.SignedPlan.Crypto.{spec_prefix, hex, prefixed_digest, Crypto}
use permanu_agent.SignedPlan.Value.{as_array, get, as_str, index, is_text, same_value, Value}
use permanu_agent.SignedPlan.Jcs.{canonicalize, encode}
use permanu_agent.SignedPlan.Schema.{check}
use permanu_agent.SignedPlan.Schema.Plan.{texts_by, spec_kinds, same_set}
use permanu_agent.SignedPlan.Strict.{Parser, parse_strict}
use permanu_agent.Base.Map.{contains_key, insert, Map, lookup}
use permanu_agent.Base.{
  then_some, length, is_some, ltb, and_then, if◌then◌else◌, contains, same, map, Bool, not, ◌&&◌,
  List, [], ◌∷◌, Option, none, some, Bytes, codes,
}

unfoldable pub parse_spec : Parser → Crypto → Bytes → Option (Value × Bytes)
unfolding parse_strict check encode same prefixed_digest
parse_spec parser crypto spec_text =
    if ltb max_spec_bytes (length spec_text)
    then none
    else and_then (parse_strict parser spec_text max_spec_bytes) (λ value.
      if not (check crypto.codec (spec crypto.codec) value)
      then none
      else and_then (canonicalize value) (λ canonical.
        if not (same canonical spec_text)
        then none
        else some (value, hex (prefixed_digest crypto.codec spec_prefix spec_text))))

-- The loop over the texts.
unfoldable pub read_specs :
    Parser → Crypto → List Bytes → Map (Value × Bytes) → Option (Map (Value × Bytes))
unfolding parse_spec lookup insert
read_specs parser crypto [] specs = some specs
read_specs parser crypto (spec_text ∷ texts) specs =
    and_then (parse_spec parser crypto spec_text) (λ parsed.
      if contains_key parsed.1 specs
      then none
      else read_specs parser crypto texts (insert parsed.1 (parsed.0, spec_text) specs))

unfoldable pub elevation_of : Value → Option Bytes
unfolding lookup same
elevation_of action =
    if is_text (codes "service.elevate") (index action (codes "kind"))
    then as_str (index (index action (codes "params")) (codes "spec_digest_hex"))
    else none

-- Whether a specification is the one that an action of the kind may run.
unfoldable pub spec_fits : Bytes → Bool → Value → Value → Bool → Bool
unfolding lookup same same_value spec_elevated
spec_fits kind upgrade_spec params value elevated_here =
    let service =
      if upgrade_spec
      then index params (codes "resource_id")
      else index params (codes "service_id") in
    same_value (index value (codes "service_id")) service
    && not (
        same kind (codes "scale")
        && not (same_value (index value (codes "replicas")) (index params (codes "replicas"))))
    && not (not (same kind (codes "service.elevate")) && spec_elevated value && not elevated_here)

-- The turn of the loop for an action: the digest that it wants, or none when it wants none.
unfoldable pub wanted_by : Map (Value × Bytes) → List Bytes → Value → Option (Option Bytes)
unfolding lookup same contains spec_fits
wanted_by specs elevations action = and_then (as_str (index action (codes "kind"))) (λ kind.
    let params = index action (codes "params") in
    let upgrade_spec =
      same kind (codes "db.upgrade") && is_some (get (codes "spec_digest_hex") params) in
    if not (contains kind spec_kinds) && not upgrade_spec
    then some none
    else and_then (as_str (index params (codes "spec_digest_hex"))) (λ digest.
      and_then (lookup digest specs) (λ found.
        if spec_fits kind upgrade_spec params found.0 (contains digest elevations)
        then some (some digest)
        else none)))

unfoldable pub wanted_digests : Map (Value × Bytes) → List Bytes → List Value → Option (List Bytes)
unfolding wanted_by
wanted_digests specs elevations [] = some []
wanted_digests specs elevations (action ∷ actions) =
    and_then (wanted_by specs elevations action) (λ wanted.
      and_then (wanted_digests specs elevations actions)
        (λ rest. some (elim wanted [ none ↦ rest | some digest ↦ digest ∷ rest ])))

unfoldable pub bind_specs : Parser → Crypto → Value → List Bytes → Option (Map (Value × Bytes))
unfolding read_specs elevation_of wanted_digests same_set lookup
bind_specs parser crypto plan spec_texts =
    if ltb max_specs (length spec_texts)
    then none
    else and_then (read_specs parser crypto spec_texts []) (λ specs.
      and_then (as_array (index plan (codes "actions"))) (λ actions.
        and_then (wanted_digests specs (texts_by elevation_of actions) actions)
          (λ wanted. then_some (same_set (map (λ entry. entry.0) specs) wanted) specs)))
