-- ===== src/Hooks/Plan/Order.antt =====
-- The order of the services in a rule plan (src/local/hooks/plan.rs).
use permanu_agent.SignedPlan.Jcs.{leb_units}
use permanu_agent.Hooks.Plan.{insert_service, sort_services, ServiceBuild}
use mathlib.Core.List.{Perm}
use mathlib.Core.List.Perm
use permanu_agent.Base.{
  inr, sym, refl, arith, subst, inl, if◌then◌else◌, true, false, Bool, Bool-cases, ◌≡◌, All, ℕ,
  List, [], ◌∷◌,
}

-- The services stand in the order of their identifiers.
abbrev pub AreSorted : List ServiceBuild → Type 0
AreSorted [] = Unit
AreSorted (s ∷ ss) = All (λ t. leb_units s.service_id t.service_id ≡ true) ss × AreSorted ss

leb_units_total : (a b : List ℕ) → leb_units a b ≡ false → leb_units b a ≡ true
leb_units_total [] b h = ground arith
leb_units_total (x ∷ a) [] h = refl
leb_units_total (x ∷ a) (y ∷ b) h = ground (arith, leb_units_total a b)

leb_units_trans :
    (a b c : List ℕ) → leb_units a b ≡ true → leb_units b c ≡ true → leb_units a c ≡ true
leb_units_trans [] b c h k = refl
leb_units_trans (x ∷ a) [] c h k = ground arith
leb_units_trans (x ∷ a) (y ∷ b) [] h k = ground arith
leb_units_trans (x ∷ a) (y ∷ b) (z ∷ c) h k = ground (arith, leb_units_trans a b c)

abbrev placed : ServiceBuild → ServiceBuild → List ServiceBuild → Bool → List ServiceBuild
placed s t ss b = if b then s ∷ t ∷ ss else t ∷ insert_service s ss

insert-All :
    (P : ServiceBuild → Type 0) (s : ServiceBuild) (ss : List ServiceBuild)
    → P s
    → All P ss
    → All P (insert_service s ss)
unfolding insert_service
insert-All P s [] p a = (p, tt)
insert-All P s (t ∷ ss) p a = elim (Bool-cases (leb_units s.service_id t.service_id)) [
  | inl e ↦ subst (λ b. All P (placed s t ss b)) (sym e) (p, a)
  | inr e ↦ subst (λ b. All P (placed s t ss b)) (sym e) (a.0, insert-All P s ss p a.1)
]

below-All :
    (s t : ServiceBuild) (ss : List ServiceBuild)
    → leb_units s.service_id t.service_id ≡ true
    → All (λ u. leb_units t.service_id u.service_id ≡ true) ss
    → All (λ u. leb_units s.service_id u.service_id ≡ true) ss
below-All s t [] h a = tt
below-All s t (u ∷ ss) h a =
    (leb_units_trans s.service_id t.service_id u.service_id h a.0, below-All s t ss h a.1)

insert-AreSorted :
    (s : ServiceBuild) (ss : List ServiceBuild) → AreSorted ss → AreSorted (insert_service s ss)
unfolding insert_service
insert-AreSorted s [] o = (tt, tt)
insert-AreSorted s (t ∷ ss) o = elim (Bool-cases (leb_units s.service_id t.service_id)) [
  | inl e ↦ subst (λ b. AreSorted (placed s t ss b)) (sym e) ((e, below-All s t ss e o.0), o)
  | inr e ↦
      subst (λ b. AreSorted (placed s t ss b)) (sym e)
        (
          insert-All (λ u. leb_units t.service_id u.service_id ≡ true) s ss
              (leb_units_total s.service_id t.service_id e) o.0,
          insert-AreSorted s ss o.1,
        )
]

pub sort-AreSorted : (ss : List ServiceBuild) → AreSorted (sort_services ss)
unfolding sort_services
sort-AreSorted [] = tt
sort-AreSorted (s ∷ ss) = insert-AreSorted s (sort_services ss) (sort-AreSorted ss)

insert-Perm : (s : ServiceBuild) (ss : List ServiceBuild) → Perm (s ∷ ss) (insert_service s ss)
unfolding insert_service
insert-Perm s [] = Perm.refl (s ∷ [])
insert-Perm s (t ∷ ss) = elim (Bool-cases (leb_units s.service_id t.service_id)) [
  | inl e ↦ subst (λ b. Perm (s ∷ t ∷ ss) (placed s t ss b)) (sym e) (Perm.refl (s ∷ t ∷ ss))
  | inr e ↦
      subst (λ b. Perm (s ∷ t ∷ ss) (placed s t ss b)) (sym e)
        (Perm.trans (Perm.swap t s ss) (Perm.cons t (insert-Perm s ss)))
]

pub sort-Perm : (ss : List ServiceBuild) → Perm ss (sort_services ss)
unfolding sort_services
sort-Perm [] = Perm.nil
sort-Perm (s ∷ ss) = Perm.trans (Perm.cons s (sort-Perm ss)) (insert-Perm s (sort_services ss))
