-- ===== src/Base/Text.antt =====
-- Text as the list of its bytes, with the methods of Rust's `str` that the agent uses.
use Prim.Native.Char.{code}
use Prim.Native.String.{String}
use Prim.Native.Nat.{ℕ, ◌+◌, ◌-◌, ◌*◌}
use mathlib.Core.Path.{◌≡◌, refl}
use mathlib.Core.Logic.{◌↔◌}
use mathlib.Core.Bool.{Bool, true, false, ◌&&◌, ◌||◌}
use mathlib.Core.Option.{Option, none, some}
use mathlib.Core.List.{List, [], ◌∷◌}
use native.Mathlib.Omega.{arith}
use permanu_agent.Base.Tests.{leb, ◌==◌, if◌then◌else◌}

abbrev pub Bytes : Type 0
Bytes = List ℕ

-- The bytes of an ASCII literal.
abbrev pub codes : String → Bytes
codes String.[] = []
codes (String.◌∷◌ c s) = code c ∷ codes s

-- `==` of two texts.
unfoldable pub same : Bytes → Bytes → Bool
same [] [] = true
same (x ∷ xs) (y ∷ ys) = x == y && same xs ys
same _ _ = false

pub same_iff : (a b : Bytes) → (same a b ≡ true) ↔ (a ≡ b)
unfolding same
same_iff (x ∷ a) (y ∷ b) = ground (arith, same_iff a b)
same_iff _ _ = ground arith

pub same_self : (a : Bytes) → same a a ≡ true
same_self a = (same_iff a a).1 refl

-- `contains` of a slice of texts.
unfoldable pub contains : Bytes → List Bytes → Bool
contains k [] = false
contains k (x ∷ xs) = same x k || contains k xs

-- `u8::is_ascii_digit` and its siblings.
abbrev pub within : ℕ → ℕ → ℕ → Bool
within lo hi c = leb lo c && leb c hi

unfoldable pub is_digit : ℕ → Bool
is_digit = within b'0' b'9'

unfoldable pub is_lower : ℕ → Bool
is_lower = within b'a' b'z'

unfoldable pub is_upper : ℕ → Bool
is_upper = within b'A' b'Z'

unfoldable pub is_alphabetic : ℕ → Bool
unfolding is_lower is_upper
is_alphabetic c = is_lower c || is_upper c

unfoldable pub is_alphanumeric : ℕ → Bool
unfolding is_alphabetic is_digit
is_alphanumeric c = is_alphabetic c || is_digit c

-- `str::parse` of a text of digits; the callers have checked that it is one.
abbrev pub digits_value : ℕ → Bytes → ℕ
digits_value n [] = n
digits_value n (c ∷ cs) = digits_value (n * 10 + (c - b'0')) cs

-- `str::split` at a byte: the parts, of which there is always one.
abbrev pub cons_part : ℕ → List Bytes → List Bytes
cons_part c [] = (c ∷ []) ∷ []
cons_part c (p ∷ ps) = (c ∷ p) ∷ ps

unfoldable pub split : ℕ → Bytes → List Bytes
split sep [] = [] ∷ []
split sep (c ∷ cs) = let rest = split sep cs in if c == sep then [] ∷ rest else cons_part c rest

-- `str::split_once` at a byte.
abbrev pub cons_fst : ℕ → Option (Bytes × Bytes) → Option (Bytes × Bytes)
cons_fst c none = none
cons_fst c (some (a, b)) = some (c ∷ a, b)

unfoldable pub split_once : ℕ → Bytes → Option (Bytes × Bytes)
split_once sep [] = none
split_once sep (c ∷ cs) =
    let rest = split_once sep cs in if c == sep then some ([], cs) else cons_fst c rest

-- `str::strip_prefix`, `starts_with`, `strip_suffix`, `ends_with` and `contains`.
unfoldable pub strip_prefix : Bytes → Bytes → Option Bytes
strip_prefix [] s = some s
strip_prefix (p ∷ ps) [] = none
strip_prefix (p ∷ ps) (c ∷ cs) = let rest = strip_prefix ps cs in if p == c then rest else none

unfoldable pub starts_with : Bytes → Bytes → Bool
starts_with [] s = true
starts_with (p ∷ ps) [] = false
starts_with (p ∷ ps) (c ∷ cs) = p == c && starts_with ps cs

unfoldable pub strip_suffix : Bytes → Bytes → Option Bytes
unfolding same
strip_suffix suffix [] = if same suffix [] then some [] else none
strip_suffix suffix (c ∷ cs) =
    let rest = strip_suffix suffix cs in
    if same suffix (c ∷ cs) then some [] else elim rest [ none ↦ none | some r ↦ some (c ∷ r) ]

unfoldable pub ends_with : Bytes → Bytes → Bool
unfolding same
ends_with suffix [] = same suffix []
ends_with suffix (c ∷ cs) = same suffix (c ∷ cs) || ends_with suffix cs

unfoldable pub has_substring : Bytes → Bytes → Bool
unfolding starts_with
has_substring part [] = starts_with part []
has_substring part (c ∷ cs) = starts_with part (c ∷ cs) || has_substring part cs
