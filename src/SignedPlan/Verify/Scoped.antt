-- ===== src/SignedPlan/Verify/Scoped.antt =====
-- The scope of a standing rule (src/signed_plan/verify.rs).
use permanu_agent.SignedPlan.Schema.Plan.Accepted.{Member}
use permanu_agent.SignedPlan.Verify.Presence.{any-Member}
use permanu_agent.SignedPlan.Schema.Rules.{text_or_empty, items_or_none}
use permanu_agent.SignedPlan.Value.{as_array, index, same_value, Value}
use permanu_agent.SignedPlan.Verify.RulePlans.{ref_matches, string_in, rule_scope_ok}
use permanu_agent.Base.{
  Option-cases, length-append, Option, ltb→lt, ◌||◌, refl, unwrap_or, ltb, ◌∙◌, none, inr, ==_iff,
  if◌then◌else◌, same_iff, sym, is_some_and, inl, ap, length, All, any, same, ◌<◌, ◌==◌, Bool-cases,
  and_elim, arith, ends_with, is_some_and-eq_true, all, some, true, List, ◌&&◌, codes, starts_with,
  Bool, strip_suffix, ◌≡◌, [], ◌∷◌, ◌++◌, Bytes,
}

strip_suffix-eq_some :
    (suffix s : Bytes) {r : Bytes} → strip_suffix suffix s ≡ some r → s ≡ r ++ suffix
unfolding strip_suffix
strip_suffix-eq_some suffix [] h = elim (Bool-cases (same suffix [])) [
  | inl e ↦
      let nil : some [] ≡ some _ = sym (ap (λ b. if b then some [] else none) e) ∙ h in
      sym ((same_iff suffix []).0 e) ∙ ap (λ r. r ++ suffix) (ap (unwrap_or []) nil)
  | inr e ↦ (let none_is = sym (ap (λ b. if b then some [] else none) e) ∙ h in cc)
]
strip_suffix-eq_some suffix (c ∷ cs) {r = r} h =
    let rest = strip_suffix suffix cs in
    let longer : Option Bytes → Option Bytes =
      λ o. elim o [ none ↦ none | some q ↦ some (c ∷ q) ] in
    elim (Bool-cases (same suffix (c ∷ cs))) [
      | inl e ↦
          let nil : some [] ≡ some r = sym (ap (λ b. if b then some [] else longer rest) e) ∙ h in
          sym ((same_iff suffix (c ∷ cs)).0 e) ∙ ap (λ r. r ++ suffix) (ap (unwrap_or []) nil)
      | inr e ↦
          let h' = sym (ap (λ b. if b then some [] else longer rest) e) ∙ h in
          elim (Option-cases rest) [
            | inl f ↦ (let none_is = sym (ap longer f) ∙ h' in cc)
            | inr (q, f) ↦
                let found : some (c ∷ q) ≡ some r = sym (ap longer f) ∙ h' in
                ap (◌∷◌ c) (strip_suffix-eq_some suffix cs f)
                ∙ ap (λ r. r ++ suffix) (ap (unwrap_or []) found)
          ]
    ]

starts_with-eq_true : (p s : Bytes) → starts_with p s ≡ true → (rest : Bytes) × (s ≡ p ++ rest)
unfolding starts_with
starts_with-eq_true [] s h = (s, refl)
starts_with-eq_true (p ∷ ps) [] h = cc
starts_with-eq_true (p ∷ ps) (c ∷ cs) h =
    let (first_same, later) = and_elim (p == c) (starts_with ps cs) h in
    let (rest, e) = starts_with-eq_true ps cs later in
    (rest, ap (λ d. d ∷ cs) (sym ((==_iff p c).0 first_same)) ∙ ap (◌∷◌ p) e)

-- The ref is the pattern, or the pattern is a directory with a star and the ref lies in it.
pub data IsRefMatch (ref : Bytes) (pattern_text : Bytes) : Type 0 where
  exact : ref ≡ pattern_text → IsRefMatch ref pattern_text
  within_directory :
      (prefix rest : Bytes)
      → pattern_text ≡ prefix ++ codes "*"
      → ends_with (codes "/*") pattern_text ≡ true
      → ref ≡ prefix ++ rest
      → 0 < length rest
      → IsRefMatch ref pattern_text

ref_matches-IsRefMatch :
    (ref pattern_text : Bytes) → ref_matches ref pattern_text ≡ true → IsRefMatch ref pattern_text
unfolding ref_matches
ref_matches-IsRefMatch ref pattern_text h = elim (Bool-cases (same ref pattern_text)) [
  | inl e ↦ exact ((same_iff ref pattern_text).0 e)
  | inr e ↦
      let wild : Bytes → Bool = λ prefix.
        ends_with (codes "/*") pattern_text
        && starts_with prefix ref
        && ltb (length prefix) (length ref) in
      let matched : is_some_and wild (strip_suffix (codes "*") pattern_text) ≡ true =
        sym (ap (λ b. b || is_some_and wild (strip_suffix (codes "*") pattern_text)) e) ∙ h in
      let (prefix, f, k) =
        is_some_and-eq_true wild (strip_suffix (codes "*") pattern_text) matched in
      let (a, shorter) =
        and_elim (ends_with (codes "/*") pattern_text && starts_with prefix ref)
          (ltb (length prefix) (length ref)) k in
      let (directory, starts) =
        and_elim (ends_with (codes "/*") pattern_text) (starts_with prefix ref) a in
      let (rest, r) = starts_with-eq_true prefix ref starts in
      within_directory prefix rest (strip_suffix-eq_some (codes "*") pattern_text f) directory r (
        omega (
          arith,
          ltb→lt (length prefix) (length ref) shorter,
          ap length r,
          length-append prefix rest,
        ))
]

-- A list of the rule has a value that is equal to this one.
pub record IsListed (list value : Value) : Type 0 where
  pub entries : List Value
  pub entry : Value
  pub entries_are : as_array list ≡ some entries
  pub is_entry : Member entry entries
  pub is_equal : same_value entry value ≡ true

string_in-IsListed : (list value : Value) → string_in list value ≡ true → IsListed list value
unfolding string_in
string_in-IsListed list value h =
    let equal : Value → Bool = λ item. same_value item value in
    let (entries, e, k) = is_some_and-eq_true (any equal) (as_array list) h in
    let (entry, m, s) = any-Member equal entries k in
    record { entries = entries; entry = entry; entries_are = e; is_entry = m; is_equal = s }

all-IsListed :
    (list : Value) (vs : List Value) → all (string_in list) vs ≡ true → All (IsListed list) vs
all-IsListed list [] h = tt
all-IsListed list (v ∷ vs) h =
    let (a, b) = and_elim (string_in list v) (all (string_in list) vs) h in
    (string_in-IsListed list v a, all-IsListed list vs b)

-- A plan stays in the scope of a rule: it is for the rule's project and environment, one target and
-- all services are the rule's, and it was triggered as the rule says, by a push of a ref that matches
-- one of the rule's patterns to the rule's repository.
pub record IsInScope (plan rule : Value) : Type 0 where
  pub trigger :
      same_value
        (index (index plan (codes "invocation")) (codes "trigger"))
        (index rule (codes "trigger"))
      ≡ true
  pub project :
      same_value
        (index plan (codes "project_id"))
        (index (index rule (codes "scope")) (codes "project_id"))
      ≡ true
  pub environment :
      same_value
        (index plan (codes "environment"))
        (index (index rule (codes "scope")) (codes "environment"))
      ≡ true
  pub one_target : length (items_or_none (index plan (codes "targets"))) ≡ 1
  pub targets :
      All
        (IsListed (index (index rule (codes "scope")) (codes "server_ids")))
        (items_or_none (index plan (codes "targets")))
  pub services :
      All
        (IsListed (index (index rule (codes "scope")) (codes "service_ids")))
        (items_or_none (index plan (codes "service_ids")))
  pub repo :
      same_value
        (index (index (index plan (codes "invocation")) (codes "evidence")) (codes "repo"))
        (index (index rule (codes "scope")) (codes "repo"))
      ≡ true
  pub patterns : List Value
  pub pattern_text : Value
  pub patterns_are :
      as_array (index (index rule (codes "scope")) (codes "branch_patterns")) ≡ some patterns
  pub is_pattern : Member pattern_text patterns
  pub matched :
      IsRefMatch
        (text_or_empty
          (index (index (index plan (codes "invocation")) (codes "evidence")) (codes "ref")))
        (text_or_empty pattern_text)

eight :
    (a b c d e f g h : Bool)
    → (a && b && c && d && e && f && g && h) ≡ true
    → (a ≡ true)
      × (b ≡ true)
      × (c ≡ true)
      × (d ≡ true)
      × (e ≡ true)
      × (f ≡ true)
      × (g ≡ true)
      × (h ≡ true)
eight a b c d e f g h k = ground arith

pub rule_scope_ok-IsInScope :
    (plan rule : Value) → rule_scope_ok plan rule ≡ true → IsInScope plan rule
unfolding rule_scope_ok
rule_scope_ok-IsInScope plan rule h =
    let invocation = index plan (codes "invocation") in
    let evidence = index invocation (codes "evidence") in
    let scope = index rule (codes "scope") in
    let targets = items_or_none (index plan (codes "targets")) in
    let ref_matched : Value → Bool =
      λ p. ref_matches (text_or_empty (index evidence (codes "ref"))) (text_or_empty p) in
    let (a, b, c, d, e, f, g, p) =
      eight (same_value (index invocation (codes "trigger")) (index rule (codes "trigger")))
        (same_value (index plan (codes "project_id")) (index scope (codes "project_id")))
        (same_value (index plan (codes "environment")) (index scope (codes "environment")))
        (length targets == 1) (all (string_in (index scope (codes "server_ids"))) targets)
        (all (string_in (index scope (codes "service_ids")))
          (items_or_none (index plan (codes "service_ids"))))
        (same_value (index evidence (codes "repo")) (index scope (codes "repo")))
        (is_some_and (any ref_matched) (as_array (index scope (codes "branch_patterns")))) h in
    let (patterns, q, k) =
      is_some_and-eq_true (any ref_matched) (as_array (index scope (codes "branch_patterns"))) p in
    let (pattern_text, m, matches) = any-Member ref_matched patterns k in
    record {
      trigger = a;
      project = b;
      environment = c;
      one_target = (==_iff (length targets) 1).0 d;
      targets = all-IsListed _ targets e;
      services = all-IsListed _ (items_or_none (index plan (codes "service_ids"))) f;
      repo = g;
      patterns = patterns;
      pattern_text = pattern_text;
      patterns_are = q;
      is_pattern = m;
      matched = ref_matches-IsRefMatch _ _ matches;
    }
