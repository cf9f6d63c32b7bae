-- ===== src/SignedPlan/Codes.antt =====
-- The error codes of src/signed_plan/mod.rs.
use permanu_agent.Base.{
  unwrap_or, ◌∙◌, ap, ◌⊎◌, ◌≡◌, refl, sym, inl, inr, Bool, true, false, List, [], ◌∷◌, Option, none,
  some, Bytes, codes, same, same_iff,
}

pub data PlanCode : Type 0 where
  parse version spec_mismatch target author sig_alg key_unknown key_revoked : PlanCode
  sig_invalid rule_unknown rule_revoked lifetime not_yet_valid expired replay base_mismatch :
      PlanCode
  force_forbidden touch_id_required kind_forbidden key_scope rule_window rule_scope rule_limit
        rule_evidence :
      PlanCode
  rule_spec bootstrap exec_precondition trust_store_invalid store_quarantined internal plan_required
        plan_not_admitted :
      PlanCode
  plan_window plan_action plan_args plan_consumed scope_mismatch rollback_target_unknown
        not_supported_yet cancelled :
      PlanCode
  shell_limit channel_missing : PlanCode

abbrev pub code_as_str : PlanCode → Bytes
code_as_str parse = codes "E_PARSE"
code_as_str version = codes "E_VERSION"
code_as_str spec_mismatch = codes "E_SPEC_MISMATCH"
code_as_str target = codes "E_TARGET"
code_as_str author = codes "E_AUTHOR"
code_as_str sig_alg = codes "E_SIG_ALG"
code_as_str key_unknown = codes "E_KEY_UNKNOWN"
code_as_str key_revoked = codes "E_KEY_REVOKED"
code_as_str sig_invalid = codes "E_SIG_INVALID"
code_as_str rule_unknown = codes "E_RULE_UNKNOWN"
code_as_str rule_revoked = codes "E_RULE_REVOKED"
code_as_str lifetime = codes "E_LIFETIME"
code_as_str not_yet_valid = codes "E_NOT_YET_VALID"
code_as_str expired = codes "E_EXPIRED"
code_as_str replay = codes "E_REPLAY"
code_as_str base_mismatch = codes "E_BASE_MISMATCH"
code_as_str force_forbidden = codes "E_FORCE_FORBIDDEN"
code_as_str touch_id_required = codes "E_TOUCH_ID_REQUIRED"
code_as_str kind_forbidden = codes "E_KIND_FORBIDDEN"
code_as_str key_scope = codes "E_KEY_SCOPE"
code_as_str rule_window = codes "E_RULE_WINDOW"
code_as_str rule_scope = codes "E_RULE_SCOPE"
code_as_str rule_limit = codes "E_RULE_LIMIT"
code_as_str rule_evidence = codes "E_RULE_EVIDENCE"
code_as_str rule_spec = codes "E_RULE_SPEC"
code_as_str bootstrap = codes "E_BOOTSTRAP"
code_as_str exec_precondition = codes "E_EXEC_PRECONDITION"
code_as_str trust_store_invalid = codes "trust_store_invalid"
code_as_str store_quarantined = codes "STORE_QUARANTINED"
code_as_str internal = codes "E_INTERNAL"
code_as_str plan_required = codes "E_PLAN_REQUIRED"
code_as_str plan_not_admitted = codes "E_PLAN_NOT_ADMITTED"
code_as_str plan_window = codes "E_PLAN_WINDOW"
code_as_str plan_action = codes "E_PLAN_ACTION"
code_as_str plan_args = codes "E_PLAN_ARGS"
code_as_str plan_consumed = codes "E_PLAN_CONSUMED"
code_as_str scope_mismatch = codes "E_SCOPE_MISMATCH"
code_as_str rollback_target_unknown = codes "E_ROLLBACK_TARGET_UNKNOWN"
code_as_str not_supported_yet = codes "E_NOT_SUPPORTED_YET"
code_as_str cancelled = codes "E_CANCELLED"
code_as_str shell_limit = codes "E_SHELL_LIMIT"
code_as_str channel_missing = codes "CHANNEL_MISSING"

abbrev pub all_codes : List PlanCode
all_codes =
    parse ∷ version ∷ spec_mismatch ∷ target ∷ author ∷ sig_alg ∷ key_unknown ∷ key_revoked
    ∷ sig_invalid ∷ rule_unknown ∷ rule_revoked ∷ lifetime ∷ not_yet_valid ∷ expired ∷ replay
    ∷ base_mismatch ∷ force_forbidden ∷ touch_id_required ∷ kind_forbidden ∷ key_scope ∷ rule_window
    ∷ rule_scope ∷ rule_limit ∷ rule_evidence ∷ rule_spec ∷ bootstrap ∷ exec_precondition
    ∷ trust_store_invalid ∷ store_quarantined ∷ internal ∷ plan_required ∷ plan_not_admitted
    ∷ plan_window ∷ plan_action ∷ plan_args ∷ plan_consumed ∷ scope_mismatch
    ∷ rollback_target_unknown ∷ not_supported_yet ∷ cancelled ∷ shell_limit ∷ channel_missing ∷ []

-- `find` of the first code with the text.
unfoldable pub find_code : Bytes → List PlanCode → Option PlanCode
unfolding same
find_code text [] = none
find_code text (c ∷ cs) = elim (same (code_as_str c) text) [
  | true ↦ some c
  | false ↦ find_code text cs
]

-- `PlanCode::parse`.
unfoldable pub parse_code : Bytes → Option PlanCode
unfolding find_code
parse_code text = find_code text all_codes

found_here_or_later :
    (b : Bool) (d c : PlanCode) (rest : Option PlanCode)
    → (elim b [ true ↦ some d | false ↦ rest ]) ≡ some c
    → ((b ≡ true) × (d ≡ c)) ⊎ (rest ≡ some c)
found_here_or_later true d c rest h = inl (refl, ap (unwrap_or d) h)
found_here_or_later false d c rest h = inr h

find_code-code_as_str :
    (text : Bytes) (cs : List PlanCode) (c : PlanCode)
    → find_code text cs ≡ some c
    → code_as_str c ≡ text
unfolding find_code
find_code-code_as_str text [] c h = cc
find_code-code_as_str text (d ∷ cs) c h =
    elim (found_here_or_later (same (code_as_str d) text) d c (find_code text cs) h) [
      | inl e ↦ ap code_as_str (sym e.1) ∙ (same_iff (code_as_str d) text).0 e.0
      | inr e ↦ find_code-code_as_str text cs c e
    ]

reads_back : (c : PlanCode) → parse_code (code_as_str c) ≡ some c
unfolding parse_code
reads_back parse = refl
reads_back version = refl
reads_back spec_mismatch = refl
reads_back target = refl
reads_back author = refl
reads_back sig_alg = refl
reads_back key_unknown = refl
reads_back key_revoked = refl
reads_back sig_invalid = refl
reads_back rule_unknown = refl
reads_back rule_revoked = refl
reads_back lifetime = refl
reads_back not_yet_valid = refl
reads_back expired = refl
reads_back replay = refl
reads_back base_mismatch = refl
reads_back force_forbidden = refl
reads_back touch_id_required = refl
reads_back kind_forbidden = refl
reads_back key_scope = refl
reads_back rule_window = refl
reads_back rule_scope = refl
reads_back rule_limit = refl
reads_back rule_evidence = refl
reads_back rule_spec = refl
reads_back bootstrap = refl
reads_back exec_precondition = refl
reads_back trust_store_invalid = refl
reads_back store_quarantined = refl
reads_back internal = refl
reads_back plan_required = refl
reads_back plan_not_admitted = refl
reads_back plan_window = refl
reads_back plan_action = refl
reads_back plan_args = refl
reads_back plan_consumed = refl
reads_back scope_mismatch = refl
reads_back rollback_target_unknown = refl
reads_back not_supported_yet = refl
reads_back cancelled = refl
reads_back shell_limit = refl
reads_back channel_missing = refl

-- Every code is read back from its text, so no two codes share a text; and a text that is read as
-- a code is the text of that code.
pub parse_code-code_as_str :
    (c : PlanCode)
    → (parse_code (code_as_str c) ≡ some c)
      × ((text : Bytes) → parse_code text ≡ some c → code_as_str c ≡ text)
unfolding parse_code
parse_code-code_as_str c = (reads_back c, λ text h. find_code-code_as_str text all_codes c h)
