-- ===== src/Base/Options.antt =====
-- The monads of `?` on `Option` and on `Result`.
use mathlib.Core.Path.{◌≡◌, refl, sym, ap}
use mathlib.Core.Logic.{◌⊎◌, inl, inr}
use mathlib.Core.Bool.{Bool, true, false, not}
use mathlib.Core.Option.{Option, none, some}
use native.Mathlib.Omega.{arith}
use permanu_agent.Base.Tests.{if◌then◌else◌}

pub data Result {ℓ κ} (E : Type κ) (A : Type ℓ) : Type (ℓ ⊔ κ) where
  ok : A → Result E A
  err : E → Result E A

-- `Option.and_then`.
abbrev pub and_then {ℓ κ} : {A : Type ℓ} {B : Type κ} → Option A → (A → Option B) → Option B
and_then none f = none
and_then (some a) f = f a

-- `Option.filter`.
abbrev pub filter_option {ℓ} : {A : Type ℓ} → (A → Bool) → Option A → Option A
filter_option p none = none
filter_option p (some a) = elim (p a) [ true ↦ some a | false ↦ none ]

-- `b.then(|| a)` and `b.then_some(a)`.
abbrev pub then_some {ℓ} : {A : Type ℓ} → Bool → A → Option A
then_some true a = some a
then_some false a = none

-- `Option.is_some_and`.
abbrev pub is_some_and {ℓ} : {A : Type ℓ} → (A → Bool) → Option A → Bool
is_some_and p none = false
is_some_and p (some a) = p a

abbrev pub is_some {ℓ} : {A : Type ℓ} → Option A → Bool
is_some none = false
is_some (some a) = true

abbrev pub unwrap_or {ℓ} : {A : Type ℓ} → A → Option A → A
unwrap_or d none = d
unwrap_or d (some a) = a

pub Option-cases {ℓ} : {A : Type ℓ} (o : Option A) → (o ≡ none) ⊎ ((a : A) × (o ≡ some a))
Option-cases none = inl refl
Option-cases (some a) = inr (a, refl)

pub and_then-eq_some {ℓ κ} :
    {A : Type ℓ} {B : Type κ} (m : Option A) (f : A → Option B) {b : B}
    → and_then m f ≡ some b
    → (a : A) × (m ≡ some a) × (f a ≡ some b)
and_then-eq_some none f h = ground arith
and_then-eq_some (some a) f h = (a, refl, h)

infixl 5 ◌>>=◌ ◌>>◌
abbrev pub ◌>>=◌ {ℓ κ μ} :
    {E : Type μ} {A : Type ℓ} {B : Type κ} → Result E A → (A → Result E B) → Result E B
ok a >>= f = f a
err e >>= f = err e

abbrev pub ◌>>◌ {ℓ κ μ} :
    {E : Type μ} {A : Type ℓ} {B : Type κ} → Result E A → Result E B → Result E B
m >> k = m >>= λ _. k

-- `if !test { return Err(e) }`.
abbrev pub guard {μ} : {E : Type μ} → Bool → E → Result E (Unit {0})
guard true e = ok tt
guard false e = err e

-- `ok_or`.
abbrev pub ok_or {ℓ μ} : {E : Type μ} {A : Type ℓ} → E → Option A → Result E A
ok_or e none = err e
ok_or e (some a) = ok a

pub bind-eq_ok {ℓ κ μ} :
    {E : Type μ} {A : Type ℓ} {B : Type κ} (m : Result E A) (f : A → Result E B) {b : B}
    → (m >>= f) ≡ ok b
    → (a : A) × (m ≡ ok a) × (f a ≡ ok b)
bind-eq_ok (ok a) f h = (a, refl, h)
bind-eq_ok (err e) f h = cc

pub guard-eq_ok {μ} : {E : Type μ} (b : Bool) (e : E) {u : Unit {0}} → guard b e ≡ ok u → b ≡ true
guard-eq_ok true e h = refl
guard-eq_ok false e h = cc

pub then_some-eq_some {ℓ} :
    {A : Type ℓ} (b : Bool) (a : A) {c : A} → then_some b a ≡ some c → (b ≡ true) × (a ≡ c)
then_some-eq_some true a h = (refl, ap (unwrap_or a) h)
then_some-eq_some false a h = cc

-- Past an early return of nothing.
pub none_else-eq_some {ℓ} :
    {A : Type ℓ} (b : Bool) (o : Option A) {a : A}
    → (if b then none else o) ≡ some a
    → (b ≡ false) × (o ≡ some a)
none_else-eq_some true o h = cc
none_else-eq_some false o h = (refl, h)

pub ok_inj {ℓ μ} : {E : Type μ} {A : Type ℓ} {a b : A} → ◌≡◌ {A = Result E A} (ok a) (ok b) → a ≡ b
ok_inj {a = a} h = ap (λ r. elim r [ ok c ↦ c | err x ↦ a ]) h

pub ok_or-eq_ok {ℓ μ} :
    {E : Type μ} {A : Type ℓ} (e : E) (o : Option A) {a : A} → ok_or e o ≡ ok a → o ≡ some a
ok_or-eq_ok e none h = cc
ok_or-eq_ok e (some b) h = ap some (ok_inj h)

pub not-eq_true : (b : Bool) → not b ≡ true → b ≡ false
not-eq_true true h = sym h
not-eq_true false h = refl

pub is_some_and-eq_true {ℓ} :
    {A : Type ℓ} (p : A → Bool) (o : Option A)
    → is_some_and p o ≡ true
    → (a : A) × (o ≡ some a) × (p a ≡ true)
is_some_and-eq_true p none h = cc
is_some_and-eq_true p (some a) h = (a, refl, h)
