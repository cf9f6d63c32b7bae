-- ===== src/SignedPlan/Schema/Plan/Accepted.antt =====
-- What holds of a plan that the schema accepts (src/signed_plan/schema/actions.rs).
use permanu_agent.Base.{
  ◌≡◌, sym, inl, inr, Bool, true, not, ◌&&◌, List, [], ◌∷◌, Option, some, all, any, is_nil, is_some,
  is_some_and, arith, Bytes, codes, same, same_iff, contains, and_elim, Bool-cases, Option-cases,
}
use permanu_agent.SignedPlan.Crypto.{Codec}
use permanu_agent.SignedPlan.Value.{Value, index, as_array, is_null, same_bool}
use permanu_agent.SignedPlan.Jcs.{canonicalize}
use permanu_agent.SignedPlan.Schema.{check}
use permanu_agent.SignedPlan.Schema.Rules.{items_or_none, string_set, action_rules_hold}
use permanu_agent.SignedPlan.Schema.Plan.{
  plan_shape, validate_plan, plan_rules_hold, scope_rules_hold, scope_rules, kind_of, service_of,
  deployment_of, texts_by, same_set, are_distinct, keys_of, all_positions, author_ok,
}

-- The value stands in the list.
pub data Member (v : Value) : List Value → Type 0 where
  here : {vs : List Value} → Member v (v ∷ vs)
  there : {w : Value} {vs : List Value} → Member v vs → Member v (w ∷ vs)

pub contains_texts :
    (f : Value → Option Bytes) (v : Value) (vs : List Value) (t : Bytes)
    → Member v vs
    → f v ≡ some t
    → contains t (texts_by f vs) ≡ true
unfolding contains
contains_texts f v [] t m e = elim m [ ]
contains_texts f v (w ∷ vs) t (here) e = rw (e, texts_by) (ground (arith, same_iff t t))
contains_texts f v (w ∷ vs) t (there m) e = elim (Option-cases (f w)) [
  | inl g ↦ rw (g, texts_by) (contains_texts f v vs t m e)
  | inr (u, g) ↦ rw (g, texts_by) (ground (arith, contains_texts f v vs t m e))
]

pub all-contains :
    (p : Bytes → Bool) (t : Bytes) (ts : List Bytes)
    → all p ts ≡ true
    → contains t ts ≡ true
    → p t ≡ true
unfolding contains
all-contains p t [] h c = absurd (ground arith)
all-contains p t (s ∷ ts) h c = elim (Bool-cases (same s t)) [
  | inl e ↦
      let same_text : s ≡ t = (same_iff s t).0 e in
      rw (sym same_text) (and_elim (p s) (all p ts) h).0
  | inr e ↦ all-contains p t ts (and_elim (p s) (all p ts) h).1 (ground arith)
]

pub any-contains :
    (p : Bytes → Bool) (t : Bytes) (ts : List Bytes)
    → contains t ts ≡ true
    → p t ≡ true
    → any p ts ≡ true
unfolding contains
any-contains p t [] c h = absurd (ground arith)
any-contains p t (s ∷ ts) c h = elim (Bool-cases (same s t)) [
  | inl e ↦
      let same_text : s ≡ t = (same_iff s t).0 e in
      let holds : p s ≡ true = rw same_text h in ground arith
  | inr e ↦ ground (arith, any-contains p t ts (ground arith) h)
]

-- The members of a plan that its scope is decided by.
abbrev pub actions_of : Value → List Value
actions_of plan = items_or_none (index plan (codes "actions"))

abbrev pub has_scope : Value → Bytes → Bool
has_scope plan name = not (is_null (index plan name))

abbrev pub no_services : Value → Bool
no_services plan = is_some_and is_nil (as_array (index plan (codes "service_ids")))

abbrev pub kinds_of : Value → List Bytes
kinds_of plan = texts_by kind_of (actions_of plan)

conjuncts :
    (p a b c d e f g h : Bool)
    → (p && (a && b && c && d && e && f && (g && h))) ≡ true
    → (d ≡ true) × (e ≡ true) × (f ≡ true) × (g ≡ true) × (h ≡ true)
conjuncts p a b c d e f g h k = ground arith

pub accepted_parts :
    (codec : Codec) (plan : Value)
    → validate_plan codec plan ≡ true
    → (scope_rules_hold plan (kinds_of plan) ≡ true)
      × (same_set
            (texts_by service_of (actions_of plan))
            (string_set (index plan (codes "service_ids")))
          ≡ true)
      × (are_distinct (texts_by deployment_of (actions_of plan)) ≡ true)
      × (all_positions (action_rules_hold codec plan) 0 (actions_of plan) ≡ true)
      × (is_some (canonicalize plan) ≡ true)
unfolding validate_plan plan_rules_hold
accepted_parts codec plan h =
    conjuncts (check codec (plan_shape codec) plan)
      (same_set (keys_of (index (index plan (codes "base")) (codes "heads")))
        (string_set (index plan (codes "targets"))))
      (author_ok (index plan (codes "author")))
      (same_bool (is_null (index plan (codes "environment")))
        (is_null (index plan (codes "environment_id"))))
      (scope_rules_hold plan (kinds_of plan))
      (same_set (texts_by service_of (actions_of plan))
        (string_set (index plan (codes "service_ids"))))
      (are_distinct (texts_by deployment_of (actions_of plan)))
      (all_positions (action_rules_hold codec plan) 0 (actions_of plan))
      (is_some (canonicalize plan)) h

pub scope_of :
    (codec : Codec) (plan : Value)
    → validate_plan codec plan ≡ true
    → scope_rules
        (kinds_of plan)
        (actions_of plan)
        (has_scope plan (codes "project_id"))
        (has_scope plan (codes "environment"))
        (no_services plan)
      ≡ true
unfolding scope_rules_hold
scope_of codec plan h = (accepted_parts codec plan h).0
