-- ===== src/SignedPlan/Trust/Cascade.antt =====
-- How a compromise spreads in a trust store (src/signed_plan/trust.rs).
use permanu_agent.SignedPlan.Trust.{insert_id, extend, carry, cascade}
use permanu_agent.Base.{
  refl, sym, ◌∙◌, if◌then◌else◌, is_some_and, ap, subst, same_iff, same_self, same, arith,
  Bool-cases, contains, Bool, true, false, List, [], ◌∷◌, Option, some, ◌≡◌, Bytes, inl, inr, ◌⊎◌,
}

-- A set grows.
contains-insert_id :
    (x id : Bytes) (ids : List Bytes) → contains x ids ≡ true → contains x (insert_id id ids) ≡ true
unfolding contains
contains-insert_id x id ids h = ground (arith, same_iff id x)

insert_id_self : (id : Bytes) (ids : List Bytes) → contains id (insert_id id ids) ≡ true
unfolding contains
insert_id_self id ids = ground (arith, same_self id)

insert_id_other :
    (x id : Bytes) (ids : List Bytes)
    → contains x (insert_id id ids) ≡ true
    → contains x ids ≡ false
    → id ≡ x
unfolding contains
insert_id_other x id ids h n = ground (arith, same_iff id x)

pub extend_keeps :
    (x : Bytes) (more ids : List Bytes)
    → contains x ids ≡ true
    → contains x (extend more ids) ≡ true
unfolding extend
extend_keeps x [] ids h = h
extend_keeps x (id ∷ more) ids h =
    extend_keeps x more (insert_id id ids) (contains-insert_id x id ids h)

pub extend_adds :
    (x : Bytes) (more ids : List Bytes)
    → contains x more ≡ true
    → contains x (extend more ids) ≡ true
unfolding extend contains
extend_adds x [] ids h = cc
extend_adds x (id ∷ more) ids h = elim (Bool-cases (same id x)) [
  | inl e ↦ extend_keeps x more (insert_id id ids) (
      subst (λ y. contains y (insert_id id ids) ≡ true) ((same_iff id x).0 e)
        (insert_id_self id ids))
  | inr e ↦ extend_adds x more (insert_id id ids) (ground arith)
]

if_is : {A : Type 0} (b : Bool) (x y : A) → ((if b then x else y) ≡ x) ⊎ ((if b then x else y) ≡ y)
if_is true x y = inl refl
if_is false x y = inr refl

module _ (parent : Bytes → Option Bytes) where
  -- No key was added by itself or by a key that stands after it.
  abbrev pub IsOrdered : List Bytes → Type 0
  IsOrdered [] = Unit
  IsOrdered (id ∷ order) =
      ((p : Bytes) → parent id ≡ some p → contains p (id ∷ order) ≡ false) × IsOrdered order

  carry_keeps :
      (x id : Bytes) (ids : List Bytes)
      → contains x ids ≡ true
      → contains x (carry parent id ids) ≡ true
  unfolding carry
  carry_keeps x id ids h =
      elim (if_is (is_some_and (λ p. contains p ids) (parent id)) (insert_id id ids) ids) [
        | inl e ↦ subst (λ c. contains x c ≡ true) (sym e) (contains-insert_id x id ids h)
        | inr e ↦ subst (λ c. contains x c ≡ true) (sym e) h
      ]

  pub cascade_keeps :
      (x : Bytes) (order ids : List Bytes)
      → contains x ids ≡ true
      → contains x (cascade parent order ids) ≡ true
  unfolding cascade
  cascade_keeps x [] ids h = h
  cascade_keeps x (id ∷ order) ids h =
      cascade_keeps x order (carry parent id ids) (carry_keeps x id ids h)

  carry_other :
      (x id : Bytes) (ids : List Bytes)
      → contains x (carry parent id ids) ≡ true
      → contains x ids ≡ false
      → id ≡ x
  unfolding carry
  carry_other x id ids h n =
      elim (if_is (is_some_and (λ p. contains p ids) (parent id)) (insert_id id ids) ids) [
        | inl e ↦ insert_id_other x id ids (subst (λ c. contains x c ≡ true) e h) n
        | inr e ↦ (let stays : contains x ids ≡ true = subst (λ c. contains x c ≡ true) e h in cc)
      ]

  -- What the loop adds stands in the order.
  cascade_other :
      (x : Bytes) (order ids : List Bytes)
      → contains x (cascade parent order ids) ≡ true
      → contains x order ≡ false
      → contains x ids ≡ true
  unfolding cascade contains
  cascade_other x [] ids h n = h
  cascade_other x (id ∷ order) ids h n =
      let later = cascade_other x order (carry parent id ids) h (ground arith) in
      elim (Bool-cases (contains x ids)) [
        | inl e ↦ e
        | inr e ↦ (let own = carry_other x id ids later e in ground (arith, same_iff id x))
      ]

  carry_own :
      (id p : Bytes) (ids : List Bytes)
      → parent id ≡ some p
      → contains p ids ≡ true
      → contains id (carry parent id ids) ≡ true
  unfolding carry
  carry_own id p ids e h =
      let test : is_some_and (λ q. contains q ids) (parent id) ≡ true =
        ap (is_some_and (λ q. contains q ids)) e ∙ h in
      subst (λ b. contains id (if b then insert_id id ids else ids) ≡ true) (sym test)
        (insert_id_self id ids)

  began :
      (id p : Bytes) (ids : List Bytes)
      → contains p (carry parent id ids) ≡ true
      → same id p ≡ false
      → contains p ids ≡ true
  began id p ids h n = elim (Bool-cases (contains p ids)) [
    | inl e ↦ e
    | inr e ↦ (let own = carry_other p id ids h e in ground (arith, same_iff id p))
  ]

  pub cascade-closed :
      (order ids : List Bytes) (id p : Bytes)
      → IsOrdered order
      → contains id order ≡ true
      → parent id ≡ some p
      → contains p (cascade parent order ids) ≡ true
      → contains id (cascade parent order ids) ≡ true
  unfolding cascade contains
  cascade-closed [] ids id p o m e h = cc
  cascade-closed (x ∷ order) ids id p o m e h = elim (Bool-cases (same x id)) [
    | inl s ↦
        let is_x : x ≡ id = (same_iff x id).0 s in
        let own : parent x ≡ some p = ap parent is_x ∙ e in
        let apart = o.0 p own in
        let carried = cascade_other p order (carry parent x ids) h (ground arith) in
        let before : contains p ids ≡ true = began x p ids carried (ground arith) in
        subst (λ y. contains y (cascade parent order (carry parent x ids)) ≡ true) is_x
          (cascade_keeps x order (carry parent x ids) (carry_own x p ids own before))
    | inr s ↦ cascade-closed order (carry parent x ids) id p o.1 (ground arith) e h
  ]
