-- ===== src/SignedPlan/Schema/Plan/Levels.antt =====
-- The level of a plan that the schema accepts (src/signed_plan/schema/actions.rs).
use permanu_agent.SignedPlan.Schema.Plan.Accepted.{
  there, scope_of, here, no_services, any-contains, has_scope, contains_texts, actions_of, Member,
  kinds_of,
}
use permanu_agent.SignedPlan.Crypto.{Codec}
use permanu_agent.SignedPlan.Value.{is_null, index, as_array, Value}
use permanu_agent.SignedPlan.Schema.Plan.{
  host_shell, texts_by, server_kind, neutral_kind, validate_plan, kind_of, scope_rules,
  server_action,
}
use permanu_agent.Base.{
  ◌&&◌, subst, not, is_some_and-eq_true, same_iff, ap, inr, ◌||◌, same, and_elim, ◌⊎◌, inl, refl,
  arith, All, none, Bool-cases, is_nil, false, true, some, ◌≡◌, all, is_some_and, any, length, List,
  codes, Bool, Option, contains, [], ◌∷◌, Bytes,
}

-- An action of a server-level kind, or a host shell.
abbrev pub IsServerAction : Value → Type 0
IsServerAction action =
    ((kind : Bytes) × (kind_of action ≡ some kind) × (server_kind kind ≡ true))
    ⊎ (host_shell action ≡ true)

-- An action whose kind is no server-level one and does not cancel an operation.
abbrev pub IsProjectAction : Value → Type 0
IsProjectAction action =
    (kind : Bytes)
    → kind_of action ≡ some kind
    → (server_kind kind ≡ false) × ¬ (kind ≡ codes "operation.cancel")

-- The three levels of a plan.
pub data Level (plan : Value) : Type 0 where
  cancelling :
      kinds_of plan ≡ codes "operation.cancel" ∷ []
      → as_array (index plan (codes "service_ids")) ≡ some []
      → Level plan
  server_level :
      All IsServerAction (actions_of plan)
      → is_null (index plan (codes "project_id")) ≡ true
      → is_null (index plan (codes "environment")) ≡ true
      → as_array (index plan (codes "service_ids")) ≡ some []
      → Level plan
  project_level :
      All IsProjectAction (actions_of plan)
      → is_null (index plan (codes "project_id")) ≡ false
      → is_null (index plan (codes "environment")) ≡ false
      → Level plan

left_of : (a b : Bool) → (a || b) ≡ true → b ≡ false → a ≡ true
left_of a b h e = ground arith

all-IsServerAction : (vs : List Value) → all server_action vs ≡ true → All IsServerAction vs
unfolding server_action
all-IsServerAction [] h = tt
all-IsServerAction (v ∷ vs) h =
    let (a, b) =
      and_elim (is_some_and server_kind (kind_of v) || host_shell v) (all server_action vs) h in
    (
      elim (Bool-cases (host_shell v)) [
        | inl e ↦ inr e
        | inr e ↦ inl (is_some_and-eq_true server_kind (kind_of v) (left_of _ (host_shell v) a e))
      ],
      all-IsServerAction vs b,
    )

not_any :
    (p : Bytes → Bool) (t : Bytes) (ts : List Bytes)
    → any p ts ≡ false
    → contains t ts ≡ true
    → p t ≡ false
not_any p t ts h c = elim (Bool-cases (p t)) [
  | inl e ↦ absurd (ground (arith, any-contains p t ts c e))
  | inr e ↦ e
]

-- No kind of the actions is server-level or cancels.
All-IsProjectAction :
    (all_acts vs : List Value)
    → ((v : Value) → Member v vs → Member v all_acts)
    → contains neutral_kind (texts_by kind_of all_acts) ≡ false
    → any server_kind (texts_by kind_of all_acts) ≡ false
    → All IsProjectAction vs
All-IsProjectAction all_acts [] sub n s = tt
All-IsProjectAction all_acts (v ∷ vs) sub n s = (
  λ kind e.
      let listed = contains_texts kind_of v all_acts kind (sub v here) e in
      (
        not_any server_kind kind (texts_by kind_of all_acts) s listed,
        λ c.
            let found : contains neutral_kind (texts_by kind_of all_acts) ≡ true =
              subst (λ k. contains k (texts_by kind_of all_acts) ≡ true) c listed in
            absurd (ground arith),
      ),
  All-IsProjectAction all_acts vs (λ w m. sub w (there m)) n s,
)

only_one : (t : Bytes) (ts : List Bytes) → length ts ≡ 1 → contains t ts ≡ true → ts ≡ t ∷ []
unfolding contains
only_one t [] h c = absurd (omega (arith, h))
only_one t (s ∷ []) h c =
    (let same_text : same s t ≡ true = ground arith in
      ap (λ x. x ∷ []) ((same_iff s t).0 same_text))
only_one t (s ∷ u ∷ ts) h c = absurd (omega (arith, h))

none_listed : (o : Option (List Value)) → is_some_and is_nil o ≡ true → o ≡ some []
none_listed none h = cc
none_listed (some []) h = refl
none_listed (some (v ∷ vs)) h = cc

scope_cases :
    (kinds : List Bytes) (acts : List Value) (project environment none_listed : Bool)
    → scope_rules kinds acts project environment none_listed ≡ true
    → ((contains neutral_kind kinds ≡ true) × (length kinds ≡ 1) × (none_listed ≡ true))
      ⊎ ((all server_action acts ≡ true)
          × (project ≡ false)
          × (environment ≡ false)
          × (none_listed ≡ true))
      ⊎ ((contains neutral_kind kinds ≡ false)
          × (any server_kind kinds ≡ false)
          × (project ≡ true)
          × (environment ≡ true))
unfolding scope_rules
scope_cases kinds acts project environment none_listed h =
    elim (Bool-cases (contains neutral_kind kinds)) [
      | inl e ↦ inl (ground arith)
      | inr e ↦ elim (Bool-cases (any server_kind kinds || (not project && any host_shell acts))) [
        | inl f ↦ inr (inl (ground arith))
        | inr f ↦ inr (inr (ground arith))
      ]
    ]

-- Levels never mix in an accepted plan. It cancels an operation, with no other kind and no services;
-- or every action is of a server-level kind or a host shell, and the plan has no project, no
-- environment and no services; or no action is of a server-level kind or cancels an operation, and
-- the plan has a project and an environment.
pub validate_plan-Level :
    (codec : Codec) (plan : Value) → validate_plan codec plan ≡ true → Level plan
validate_plan-Level codec plan h =
    let acts = actions_of plan in
    let listed = as_array (index plan (codes "service_ids")) in
    elim (scope_cases (kinds_of plan) acts (has_scope plan (codes "project_id"))
      (has_scope plan (codes "environment")) (no_services plan) (scope_of codec plan h)) [
        | inl (c, one, none_in) ↦
            cancelling (only_one neutral_kind (kinds_of plan) one c) (none_listed listed none_in)
        | inr (inl (s, p, e, none_in)) ↦
            server_level (all-IsServerAction acts s) (ground arith) (ground arith)
              (none_listed listed none_in)
        | inr (inr (c, s, p, e)) ↦
            project_level (All-IsProjectAction acts acts (λ v m. m) c s) (ground arith)
              (ground arith)
      ]
