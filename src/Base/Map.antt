-- ===== src/Base/Map.antt =====
-- A map with text keys (`HashMap`, `BTreeMap`) as an association list with each key once. The
-- order of the entries stands for nothing.
use Prim.Native.Nat.{suc, ◌≤◌}
use mathlib.Core.Path.{◌≡◌, refl}
use mathlib.Core.Bool.{Bool, true, false}
use mathlib.Core.Option.{Option, none, some}
use mathlib.Core.List.{List, [], ◌∷◌}
use native.Mathlib.Omega.{arith}
use permanu_agent.Base.Tests.{if◌then◌else◌}
use permanu_agent.Base.Lists.{length}
use permanu_agent.Base.Options.{and_then, is_some}
use permanu_agent.Base.Text.{Bytes, same, same_iff}

abbrev pub Map {ℓ} : Type ℓ → Type ℓ
Map V = List (Bytes × V)

module _ {ℓ} {V : Type ℓ} where
  -- `get`.
  unfoldable pub lookup : Bytes → Map V → Option V
  lookup k [] = none
  lookup k ((j, v) ∷ m) = if same j k then some v else lookup k m

  abbrev pub contains_key : Bytes → Map V → Bool
  contains_key k m = is_some (lookup k m)

  -- `insert`.
  unfoldable pub insert : Bytes → V → Map V → Map V
  insert k v [] = (k, v) ∷ []
  insert k v ((j, w) ∷ m) =
      let rest = insert k v m in if same j k then (k, v) ∷ m else (j, w) ∷ rest

  -- `retain` with a predicate that may change the value: `none` drops the entry.
  unfoldable pub retain : (V → Option V) → Map V → Map V
  retain f [] = []
  retain f ((j, v) ∷ m) =
      let rest = retain f m in elim (f v) [ none ↦ rest | some w ↦ (j, w) ∷ rest ]

  -- No key stands twice.
  abbrev pub IsMap : Map V → Type ℓ
  IsMap [] = Unit
  IsMap ((k, v) ∷ m) = (lookup k m ≡ none) × IsMap m

  pub lookup-insert :
      (k j : Bytes) (v : V) (m : Map V)
      → lookup j (insert k v m) ≡ (if same k j then some v else lookup j m)
  unfolding lookup insert
  lookup-insert k j v [] = refl
  lookup-insert k j v ((i, w) ∷ m) =
      ground (arith, same_iff k j, same_iff i k, same_iff i j, lookup-insert k j v m)

  pub insert-IsMap : (k : Bytes) (v : V) (m : Map V) → IsMap m → IsMap (insert k v m)
  unfolding lookup insert
  insert-IsMap k v [] h = ground arith
  insert-IsMap k v ((i, w) ∷ m) h =
      ground (arith, insert-IsMap k v m h.1, lookup-insert k i v m, same_iff i k, same_iff k i)

  pub lookup-retain :
      (f : V → Option V) (j : Bytes) (m : Map V)
      → IsMap m
      → lookup j (retain f m) ≡ and_then (lookup j m) f
  unfolding lookup retain
  lookup-retain f j [] h = refl
  lookup-retain f j ((i, w) ∷ m) h =
      ground (arith, lookup-retain f j m h.1, lookup-retain f i m h.1, same_iff i j)

  pub retain-IsMap : (f : V → Option V) (m : Map V) → IsMap m → IsMap (retain f m)
  unfolding lookup retain
  retain-IsMap f [] h = h
  retain-IsMap f ((i, w) ∷ m) h = ground (arith, retain-IsMap f m h.1, lookup-retain f i m h.1)

  pub length-retain : (f : V → Option V) (m : Map V) → length (retain f m) ≤ length m
  unfolding retain
  length-retain f [] = omega arith
  length-retain f ((i, w) ∷ m) = ground (arith, length-retain f m)

  pub length-insert :
      (k : Bytes) (v : V) (m : Map V)
      → length (insert k v m) ≡ (if contains_key k m then length m else suc (length m))
  unfolding lookup insert
  length-insert k v [] = refl
  length-insert k v ((i, w) ∷ m) = ground (arith, length-insert k v m)

  -- `remove`.
  unfoldable pub remove : Bytes → Map V → Map V
  remove k [] = []
  remove k ((j, v) ∷ m) = let rest = remove k m in if same j k then m else (j, v) ∷ rest

  pub lookup-remove :
      (k j : Bytes) (m : Map V) → same k j ≡ false → lookup j (remove k m) ≡ lookup j m
  unfolding lookup remove
  lookup-remove k j [] h = refl
  lookup-remove k j ((i, w) ∷ m) h =
      ground (arith, same_iff k j, same_iff i k, same_iff i j, lookup-remove k j m h)

  pub length-remove :
      (k : Bytes) (m : Map V) → is_some (lookup k m) ≡ true → suc (length (remove k m)) ≡ length m
  unfolding lookup remove
  length-remove k [] h = absurd (ground arith)
  length-remove k ((i, w) ∷ m) h = ground (arith, length-remove k m)

  pub empty_map : {P : Type 0} (k : Bytes) {v : V} → lookup k [] ≡ some v → P
  unfolding lookup
  empty_map k h = absurd (ground arith)
