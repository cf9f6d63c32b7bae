-- ===== src/SignedPlan/Schema/Shapes.antt =====
-- What the shapes of src/signed_plan/schema.rs accept.
use permanu_agent.Base.{
  ◌≡◌, refl, inl, inr, true, false, List, [], ◌∷◌, some, ◌==◌, length, All, is_some, is_some_and,
  arith, Bytes, same, same_iff, contains, and_elim, Bool-cases, Option-cases,
}
use permanu_agent.Base.Map.{Map, lookup, remove, lookup-remove, length-remove}
use permanu_agent.SignedPlan.Crypto.{Codec}
use permanu_agent.SignedPlan.Value.{Value, object, as_object, members}
use permanu_agent.SignedPlan.Schema.{
  Shape, object_of, Fields, no_more, a_field, names_of, check, check_fields,
}

-- The names of a list of fields stand once each.
abbrev pub AreDistinct : List Bytes → Type 0
AreDistinct [] = Unit
AreDistinct (n ∷ ns) = (contains n ns ≡ false) × AreDistinct ns

abbrev pub AreFound {ℓ} : {V : Type ℓ} → List Bytes → Map V → Type 0
AreFound ns m = All (λ n. is_some (lookup n m) ≡ true) ns

AreFound-remove {ℓ} :
    {V : Type ℓ} (n : Bytes) (ns : List Bytes) (m : Map V)
    → contains n ns ≡ false
    → AreFound ns m
    → AreFound ns (remove n m)
unfolding contains
AreFound-remove n [] m d f = tt
AreFound-remove n (k ∷ ns) m d (f, fs) =
    let other : same n k ≡ false = ground (arith, same_iff k n, same_iff n k) in
    (rw (lookup-remove n k m other) f, AreFound-remove n ns m (ground arith) fs)

-- As many names as entries, each of them found: no key stands outside the names.
pub only_names {ℓ} :
    {V : Type ℓ} (ns : List Bytes) (m : Map V) (k : Bytes)
    → AreDistinct ns
    → AreFound ns m
    → length m ≡ length ns
    → is_some (lookup k m) ≡ true
    → contains k ns ≡ true
unfolding contains lookup
only_names [] [] k d f e h = absurd (ground arith)
only_names [] (x ∷ m) k d f e h = absurd (omega arith)
only_names (n ∷ ns) m k (d, ds) (f, fs) e h = elim (Bool-cases (same n k)) [
  | inl s ↦ ground arith
  | inr s ↦
      let smaller = length-remove n m f in
      let rest =
        only_names ns (remove n m) k ds (AreFound-remove n ns m d fs) (omega (arith, smaller))
          (rw (lookup-remove n k m s) h) in
      ground arith
]

fields_found :
    (codec : Codec) (fields : Fields) (m : Map Value)
    → check_fields codec fields m ≡ true
    → AreFound (names_of fields) m
unfolding check_fields
fields_found codec no_more m h = tt
fields_found codec (a_field n shape fields) m h =
    let (here, later) =
      and_elim (is_some_and (check codec shape) (lookup n m)) (check_fields codec fields m) h in
    (ground arith, fields_found codec fields m later)

-- A field of the list: the name and its shape.
pub data IsField (n : Bytes) (shape : Shape) : Fields → Type 0 where
  first_field : {fields : Fields} → IsField n shape (a_field n shape fields)
  later_field :
      {k : Bytes} {other : Shape} {fields : Fields}
      → IsField n shape fields
      → IsField n shape (a_field k other fields)

field_of :
    (codec : Codec) (fields : Fields) (m : Map Value) {n : Bytes} {shape : Shape}
    → check_fields codec fields m ≡ true
    → IsField n shape fields
    → (v : Value) × (lookup n m ≡ some v) × (check codec shape v ≡ true)
unfolding check_fields
field_of codec no_more m {n = n} {shape = shape} h i = elim i [ ]
field_of codec (a_field k other fields) m h (first_field) = elim (Option-cases (lookup k m)) [
  | inl e ↦ absurd (ground arith)
  | inr (v, e) ↦ (v, e, ground arith)
]
field_of codec (a_field k other fields) m h (later_field i) =
    field_of codec fields m
      (and_elim (is_some_and (check codec other) (lookup k m)) (check_fields codec fields m) h).1 i

-- An accepted object has every field of its shape with a value that the field's shape accepts, and
-- if the shape names each field once, the object has no member of another name.
pub check-object :
    (codec : Codec) (fields : Fields) (v : Value)
    → AreDistinct (names_of fields)
    → check codec (object_of fields) v ≡ true
    → (m : Map Value) × (as_object v ≡ some m)
      × ((n : Bytes) (shape : Shape)
          → IsField n shape fields
          → (w : Value) × (lookup n m ≡ some w) × (check codec shape w ≡ true))
      × ((k : Bytes) → is_some (lookup k m) ≡ true → contains k (names_of fields) ≡ true)
unfolding check
check-object codec fields (object ms) d h =
    let m = members ms in
    let (size, each) =
      and_elim (length m == length (names_of fields)) (check_fields codec fields m) h in
    (
      m,
      refl,
      λ n shape i. field_of codec fields m each i,
      λ k found.
          only_names (names_of fields) m k d (fields_found codec fields m each) (ground arith)
            found,
    )
check-object codec fields _ d h = absurd (ground arith)
