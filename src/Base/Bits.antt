-- ===== src/Base/Bits.antt =====
-- Machine words as sets of bits: what `|`, `&` and `1 << k` do to each bit.
use Prim.Native.Nat.{
  ℕ, zero, suc, ◌+◌, ◌*◌, ◌/◌, ◌%◌, ◌^◌, ◌≤◌, ◌<◌, min, max, digits, bit_and, bit_or,
  bit_and-bitwise, bit_or-bitwise,
}
use mathlib.Core.Path.{◌≡◌, refl, ap, ◌∙◌}
use mathlib.Core.Logic.{◌⊎◌, inl, inr}
use mathlib.Core.Bool.{Bool, not}
use native.Mathlib.Omega.{arith}
use native.Mathlib.Nat.{pow-suc, one-le-pow}
use permanu_agent.Base.Tests.{◌==◌, if◌then◌else◌}

-- Counts of digits that are not below the number give one result.
enough_digits :
    (z : ℕ → ℕ) (f : ℕ → ℕ → ℕ) (n m a b : ℕ) → a ≤ n → a ≤ m → digits z f n a b ≡ digits z f m a b
enough_digits z f zero zero zero b p q = refl
enough_digits z f zero (suc m) zero b p q = refl
enough_digits z f (suc n) zero zero b p q = refl
enough_digits z f (suc n) (suc m) zero b p q = refl
enough_digits z f zero m (suc a) b p q = absurd (omega arith)
enough_digits z f (suc n) zero (suc a) b p q = absurd (omega arith)
enough_digits z f (suc n) (suc m) (suc a) b p q =
    ap (λ t. t * 2 + f (suc a % 2) (b % 2))
      (enough_digits z f n m (suc a / 2) (b / 2) (omega arith) (omega arith))

or_lowest : (a b : ℕ) → bit_or a b ≡ bit_or (a / 2) (b / 2) * 2 + max (a % 2) (b % 2)
or_lowest zero b = omega (arith, bit_or-bitwise 0 b, bit_or-bitwise (0 / 2) (b / 2))
or_lowest (suc a) b = omega (
  arith,
  bit_or-bitwise (suc a) b,
  bit_or-bitwise (suc a / 2) (b / 2),
  enough_digits (λ c. c) max a (suc a / 2) (suc a / 2) (b / 2) (omega arith) (omega arith),
)

and_lowest : (a b : ℕ) → bit_and a b ≡ bit_and (a / 2) (b / 2) * 2 + min (a % 2) (b % 2)
and_lowest zero b = omega (arith, bit_and-bitwise 0 b, bit_and-bitwise (0 / 2) (b / 2))
and_lowest (suc a) b = omega (
  arith,
  bit_and-bitwise (suc a) b,
  bit_and-bitwise (suc a / 2) (b / 2),
  enough_digits (λ c. 0) min a (suc a / 2) (suc a / 2) (b / 2) (omega arith) (omega arith),
)

-- The bit of weight `2 ^ k`, as 0 or 1.
unfoldable pub bit : ℕ → ℕ → ℕ
bit n zero = n % 2
bit n (suc k) = bit (n / 2) k

pub bit-le-one : (n k : ℕ) → bit n k ≤ 1
unfolding bit
bit-le-one n zero = omega arith
bit-le-one n (suc k) = bit-le-one (n / 2) k

pub bit-bit_or : (a b k : ℕ) → bit (bit_or a b) k ≡ max (bit a k) (bit b k)
unfolding bit
bit-bit_or a b zero = omega (arith, or_lowest a b)
bit-bit_or a b (suc k) =
    let halved : bit_or a b / 2 ≡ bit_or (a / 2) (b / 2) = omega (arith, or_lowest a b) in
    ap (λ t. bit t k) halved ∙ bit-bit_or (a / 2) (b / 2) k

pub bit-bit_and : (a b k : ℕ) → bit (bit_and a b) k ≡ min (bit a k) (bit b k)
unfolding bit
bit-bit_and a b zero = omega (arith, and_lowest a b)
bit-bit_and a b (suc k) =
    let halved : bit_and a b / 2 ≡ bit_and (a / 2) (b / 2) = omega (arith, and_lowest a b) in
    ap (λ t. bit t k) halved ∙ bit-bit_and (a / 2) (b / 2) k

pub bit_zero : (k : ℕ) → bit 0 k ≡ 0
unfolding bit
bit_zero zero = refl
bit_zero (suc k) = bit_zero k

halve_pow : (v : ℕ) → 2 ^ suc v / 2 ≡ 2 ^ v
halve_pow v = omega (arith, pow-suc 2 v)

pub bit-pow : (v k : ℕ) → bit (2 ^ v) k ≡ (if v == k then 1 else 0)
unfolding bit
bit-pow zero zero = refl
bit-pow zero (suc k) = ground (arith, bit_zero k)
bit-pow (suc v) zero = ground (arith, pow-suc 2 v)
bit-pow (suc v) (suc k) = ap (λ t. bit t k) (halve_pow v) ∙ bit-pow v k ∙ ground arith

pub bit-cases : (n k : ℕ) → (bit n k ≡ 0) ⊎ (bit n k ≡ 1)
bit-cases n k = split_one (bit n k) (bit-le-one n k)
  where
    split_one : (b : ℕ) → b ≤ 1 → (b ≡ 0) ⊎ (b ≡ 1)
    split_one zero h = inl refl
    split_one (suc zero) h = inr refl
    split_one (suc (suc b)) h = absurd (omega arith)

halves : (n : ℕ) → (n ≡ 0) ⊎ (n / 2 < n)
halves zero = inl refl
halves (suc n) = inr (omega arith)

-- `n & (1 << k) != 0` reads the bit.
and_zero : (k n : ℕ) → n ≤ k → bit_and n 0 ≡ 0
and_zero zero zero h = refl
and_zero zero (suc n) h = absurd (omega arith)
and_zero (suc k) n h = elim (halves n) [
  | inl e ↦ rw e refl
  | inr e ↦ omega (arith, and_lowest n 0, and_zero k (n / 2) (omega arith))
]

pub bit_and-pow : (n k : ℕ) → bit_and n (2 ^ k) ≡ bit n k * 2 ^ k
unfolding bit
bit_and-pow n zero = omega (arith, and_lowest n 1, and_zero (n / 2) (n / 2) (omega arith))
bit_and-pow n (suc k) = omega (
  arith,
  and_lowest n (2 ^ suc k),
  halve_pow k,
  pow-suc 2 k,
  bit_and-pow (n / 2) k,
  ap (λ t. bit_and (n / 2) t) (halve_pow k),
  ap (λ t. bit (n / 2) k * t) (pow-suc 2 k),
)

abbrev pub test_bit : ℕ → ℕ → Bool
test_bit n k = not (bit_and n (2 ^ k) == 0)

pub test_bit-bit : (n k : ℕ) → test_bit n k ≡ (bit n k == 1)
test_bit-bit n k = elim (bit-cases n k) [
  | inl e ↦ ground (arith, bit_and-pow n k, ap (λ t. t * 2 ^ k) e)
  | inr e ↦ ground (arith, bit_and-pow n k, one-le-pow k 2, ap (λ t. t * 2 ^ k) e)
]

-- A word below `2 ^ w` stays below it.
pub bit_or-lt : (w a b : ℕ) → a < 2 ^ w → b < 2 ^ w → bit_or a b < 2 ^ w
bit_or-lt zero a b p q = ground (arith, or_lowest a b)
bit_or-lt (suc w) a b p q = omega (
  arith,
  pow-suc 2 w,
  or_lowest a b,
  bit_or-lt w (a / 2) (b / 2) (omega (arith, pow-suc 2 w)) (omega (arith, pow-suc 2 w)),
)

or_zero : (k n : ℕ) → n ≤ k → bit_or n 0 ≡ n
or_zero zero zero h = refl
or_zero zero (suc n) h = absurd (omega arith)
or_zero (suc k) n h = elim (halves n) [
  | inl e ↦ rw e refl
  | inr e ↦ omega (arith, or_lowest n 0, or_zero k (n / 2) (omega arith))
]

halve_shift : (k q : ℕ) → q * 2 ^ suc k / 2 ≡ q * 2 ^ k
halve_shift k q = omega (arith, ap (λ t. q * t) (pow-suc 2 k))

-- `(q << k) | r` is a sum when `r` has only the low `k` bits.
pub bit_or_low : (k q r : ℕ) → r < 2 ^ k → bit_or (q * 2 ^ k) r ≡ q * 2 ^ k + r
bit_or_low zero q r h =
    let none_low : r ≡ 0 = omega arith in
    rw none_low (omega (arith, or_zero (q * 1) (q * 1) (omega arith)))
bit_or_low (suc k) q r h = omega (
  arith,
  or_lowest (q * 2 ^ suc k) r,
  ap (λ t. q * t) (pow-suc 2 k),
  pow-suc 2 k,
  bit_or_low k q (r / 2) (omega (arith, pow-suc 2 k)),
  ap (λ t. bit_or t (r / 2)) (halve_shift k q),
)

and_zero_left : (b : ℕ) → bit_and 0 b ≡ 0
and_zero_left b = bit_and-bitwise 0 b

pub bit_and-lt : (w a b : ℕ) → a < 2 ^ w → bit_and a b < 2 ^ w
bit_and-lt zero a b p =
    let none_left : a ≡ 0 = omega arith in
    omega (arith, ap (λ t. bit_and t b) none_left, and_zero_left b)
bit_and-lt (suc w) a b p =
    omega (
      arith,
      pow-suc 2 w,
      and_lowest a b,
      bit_and-lt w (a / 2) (b / 2) (omega (arith, pow-suc 2 w)),
    )

pub pow-lt : (v w : ℕ) → v < w → 2 ^ v < 2 ^ w
pow-lt v zero h = absurd (omega arith)
pow-lt zero (suc w) h = omega (arith, pow-suc 2 w, one-le-pow w 2)
pow-lt (suc v) (suc w) h = omega (arith, pow-suc 2 w, pow-suc 2 v, pow-lt v w (omega arith))
