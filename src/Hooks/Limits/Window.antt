-- ===== src/Hooks/Limits/Window.antt =====
-- One sliding window: what `trim` drops, and what it keeps.
use permanu_agent.Base.{
  ℕ, ◌+◌, ◌≤◌, ◌≡◌, refl, true, false, List, [], ◌∷◌, ◌++◌, ℤ, ◌≤ℤ◌, length, if◌then◌else◌,
  Bool-cases, inl, inr, arith, All,
}
use permanu_agent.Hooks.Limits.{is_stale, trim}

-- The entries of the minute that ends at `c`.
unfoldable pub recent : ℤ → List ℤ → ℕ
recent c [] = 0
recent c (at ∷ window) = (if is_stale c at then 0 else 1) + recent c window

pub recent-le-length : (c : ℤ) (window : List ℤ) → recent c window ≤ length window
unfolding recent
recent-le-length c [] = omega arith
recent-le-length c (at ∷ window) = ground (arith, recent-le-length c window)

pub recent-append :
    (c at : ℤ) (window : List ℤ)
    → recent c (window ++ at ∷ []) ≡ recent c window + (if is_stale c at then 0 else 1)
unfolding recent
recent-append c at [] = omega arith
recent-append c at (x ∷ window) = omega (arith, recent-append c at window)

pub is_stale_mono : (now c at : ℤ) → now ≤ℤ c → is_stale now at ≡ true → is_stale c at ≡ true
unfolding is_stale
is_stale_mono now c at h e = ground arith

is_fresh_mono : (now x at : ℤ) → is_stale now x ≡ false → x ≤ℤ at → is_stale now at ≡ false
unfolding is_stale
is_fresh_mono now x at e h = ground arith

pub is_stale_self : (now : ℤ) → is_stale now now ≡ false
unfolding is_stale
is_stale_self now = ground arith

-- `trim` drops nothing that a later minute would count.
pub recent-trim :
    (c now : ℤ) (window : List ℤ) → now ≤ℤ c → recent c (trim window now) ≡ recent c window
unfolding recent trim
recent-trim c now [] h = refl
recent-trim c now (at ∷ window) h =
    ground (arith, recent-trim c now window h, is_stale_mono now c at h)

pub length-trim : (now : ℤ) (window : List ℤ) → length (trim window now) ≤ length window
unfolding trim
length-trim now [] = omega arith
length-trim now (at ∷ window) = ground (arith, length-trim now window)

-- Oldest first.
abbrev pub IsSorted : List ℤ → Type 0
IsSorted [] = Unit
IsSorted (at ∷ window) = All (λ later. at ≤ℤ later) window × IsSorted window

recent_of_newer :
    (now x : ℤ) (window : List ℤ)
    → is_stale now x ≡ false
    → All (λ later. x ≤ℤ later) window
    → recent now window ≡ length window
unfolding recent
recent_of_newer now x [] e a = refl
recent_of_newer now x (at ∷ window) e a =
    ground (arith, recent_of_newer now x window e a.1, is_fresh_mono now x at e a.0)

-- Of a sorted window exactly the entries of the last minute are left.
pub length-trim_sorted :
    (now : ℤ) (window : List ℤ) → IsSorted window → length (trim window now) ≡ recent now window
unfolding trim recent
length-trim_sorted now [] s = refl
length-trim_sorted now (at ∷ window) s =
    ground (arith, length-trim_sorted now window s.1, recent_of_newer now at window)

pub trim-IsSorted : (now : ℤ) (window : List ℤ) → IsSorted window → IsSorted (trim window now)
unfolding trim
trim-IsSorted now [] s = tt
trim-IsSorted now (at ∷ window) s = elim (Bool-cases (is_stale now at)) [
  | inl e ↦ rw e (trim-IsSorted now window s.1)
  | inr e ↦ rw e s
]
