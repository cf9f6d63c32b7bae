-- ===== src/SignedPlan/Schema/Plan/Covered.antt =====
-- The services and deployments of a plan that the schema accepts
-- (src/signed_plan/schema/actions.rs).
use permanu_agent.SignedPlan.Schema.Rules.{string_set}
use permanu_agent.SignedPlan.Schema.Plan.Accepted.{
  here, there, all-contains, contains_texts, actions_of, accepted_parts, Member,
}
use permanu_agent.SignedPlan.Crypto.{Codec}
use permanu_agent.SignedPlan.Schema.Plan.{
  service_of, validate_plan, deployment_of, texts_by, are_distinct, same_set,
}
use permanu_agent.SignedPlan.Value.{index, Value}
use mathlib.Core.Option.{some, none, Option, some-injective}
use permanu_agent.Base.{
  same_iff, Bool-cases, not-eq_true, ◌||◌, not, arith, same, inr, ap, all, inl, ◌∙◌, and_elim, sym,
  false, Option-cases, true, All, ◌≡◌, List, codes, contains, [], ◌∷◌, Bytes,
}

-- Two actions do not have one deployment.
abbrev pub IsApart : Value → Value → Type 0
IsApart v w = (id : Bytes) → deployment_of v ≡ some id → ¬ (deployment_of w ≡ some id)

-- Each action is apart from those behind it.
abbrev pub AreApart : List Value → Type 0
AreApart [] = Unit
AreApart (v ∷ vs) = All (IsApart v) vs × AreApart vs

-- The services of the plan are those that its actions name, and its deployments differ.
pub record IsCovered (plan : Value) : Type 0 where
  pub are_listed :
      (action : Value) (service : Bytes)
      → Member action (actions_of plan)
      → service_of action ≡ some service
      → contains service (string_set (index plan (codes "service_ids"))) ≡ true
  pub are_used :
      (service : Bytes)
      → contains service (string_set (index plan (codes "service_ids"))) ≡ true
      → (action : Value) × Member action (actions_of plan) × (service_of action ≡ some service)
  pub are_apart : AreApart (actions_of plan)

named_by :
    (f : Value → Option Bytes) (vs : List Value) (t : Bytes)
    → contains t (texts_by f vs) ≡ true
    → (v : Value) × Member v vs × (f v ≡ some t)
unfolding contains
named_by f [] t c = cc
named_by f (v ∷ vs) t c = elim (Option-cases (f v)) [
  | inl e ↦
      let c' : contains t (texts_by f vs) ≡ true =
        sym (ap (λ o. contains t (elim o [ some u ↦ u ∷ texts_by f vs | none ↦ texts_by f vs ])) e)
        ∙ c in
      let (w, m, k) = named_by f vs t c' in (w, there m, k)
  | inr (u, e) ↦
      let c' : (same u t || contains t (texts_by f vs)) ≡ true =
        sym (ap (λ o. contains t (elim o [ some u ↦ u ∷ texts_by f vs | none ↦ texts_by f vs ])) e)
        ∙ c in
      elim (Bool-cases (same u t)) [
        | inl s ↦ (v, here, e ∙ ap some ((same_iff u t).0 s))
        | inr s ↦ let (w, m, k) = named_by f vs t (ground arith) in (w, there m, k)
      ]
]

IsApart-from :
    (v : Value) (id : Bytes) (vs : List Value)
    → deployment_of v ≡ some id
    → contains id (texts_by deployment_of vs) ≡ false
    → (ws : List Value) → ((w : Value) → Member w ws → Member w vs)
    → All (IsApart v) ws
IsApart-from v id vs e c [] sub = tt
IsApart-from v id vs e c (w ∷ ws) sub = (
  λ other f g.
      let same_id : other ≡ id = some-injective other id (sym f ∙ e) in
      let found = contains_texts deployment_of w vs id (sub w here) (g ∙ ap some same_id) in
      absurd (ground arith),
  IsApart-from v id vs e c ws (λ x m. sub x (there m)),
)

IsApart-from_none : (v : Value) (vs : List Value) → deployment_of v ≡ none → All (IsApart v) vs
IsApart-from_none v [] e = tt
IsApart-from_none v (w ∷ vs) e =
    (λ id f g. (let impossible = sym e ∙ f in cc), IsApart-from_none v vs e)

are_distinct-AreApart :
    (vs : List Value) → are_distinct (texts_by deployment_of vs) ≡ true → AreApart vs
unfolding are_distinct
are_distinct-AreApart [] h = tt
are_distinct-AreApart (v ∷ vs) h =
    let texts = texts_by deployment_of vs in
    let with_first : Option Bytes → List Bytes =
      λ o. elim o [ some t ↦ t ∷ texts | none ↦ texts ] in
    elim (Option-cases (deployment_of v)) [
      | inl e ↦ (
        IsApart-from_none v vs e,
        are_distinct-AreApart vs (sym (ap (λ o. are_distinct (with_first o)) e) ∙ h),
      )
      | inr (id, e) ↦
          let (new, later) =
            and_elim (not (contains id texts)) (are_distinct texts)
              (sym (ap (λ o. are_distinct (with_first o)) e) ∙ h) in
          (IsApart-from v id vs e (not-eq_true _ new) vs (λ w m. m), are_distinct-AreApart vs later)
    ]

same_both :
    (xs ys : List Bytes)
    → same_set xs ys ≡ true
    → ((t : Bytes) → contains t xs ≡ true → contains t ys ≡ true)
      × ((t : Bytes) → contains t ys ≡ true → contains t xs ≡ true)
unfolding same_set
same_both xs ys h =
    let (a, b) = and_elim (all (λ x. contains x ys) xs) (all (λ y. contains y xs) ys) h in
    (
      λ t c. all-contains (λ x. contains x ys) t xs a c,
      λ t c. all-contains (λ y. contains y xs) t ys b c,
    )

-- In an accepted plan the services are exactly those that the actions name: each that an action names
-- is listed, and each that is listed is named by an action; and no two actions have one deployment.
pub validate_plan-IsCovered :
    (codec : Codec) (plan : Value) → validate_plan codec plan ≡ true → IsCovered plan
validate_plan-IsCovered codec plan h =
    let (scope, services, distinct, rules, text) = accepted_parts codec plan h in
    let (there_in, back) =
      same_both (texts_by service_of (actions_of plan))
        (string_set (index plan (codes "service_ids"))) services in
    record {
      are_listed = λ action service m e.
          there_in service (contains_texts service_of action (actions_of plan) service m e);
      are_used = λ service c. named_by service_of (actions_of plan) service (back service c);
      are_apart = are_distinct-AreApart (actions_of plan) distinct;
    }
