-- ===== src/Hooks/Plan/Uuids.antt =====
-- The identifiers that `new_uuid7` makes (src/admissions/mod.rs).
use permanu_agent.SignedPlan.Crypto.{hex_nibble}
use permanu_agent.Hooks.Plan.{new_uuid7}
use permanu_agent.SignedPlan.Text.{is_lower_hex, uuid7}
use permanu_agent.Base.{
  ◌^◌, refl, zero, suc, [], ◌∷◌, and_intro, ◌&&◌, ◌/◌, ◌%◌, arith, ◌+◌, ◌||◌, true, All, ◌==◌, ◌≡◌,
  Bool, ◌<◌, length, ℕ, Bytes,
}

-- Sixteen bytes, as `getrandom` fills them.
abbrev pub AreRandom : Bytes → Type 0
AreRandom random = (length random ≡ 16) × All (λ b. b < 256) random

lower_nibble : (n : ℕ) → n < 16 → is_lower_hex (hex_nibble n) ≡ true
unfolding is_lower_hex
lower_nibble n h = ground arith

two_digits :
    (c : ℕ) {b : Bool}
    → c < 256
    → b ≡ true
    → (is_lower_hex (hex_nibble (c / 16)) && (is_lower_hex (hex_nibble (c % 16)) && b)) ≡ true
two_digits c h k =
    and_intro (lower_nibble (c / 16) (omega (arith, h)))
      (and_intro (lower_nibble (c % 16) (omega arith)) k)

version_digits :
    (c : ℕ) {b : Bool}
    → b ≡ true
    → (hex_nibble ((c % 16 + 0x70) / 16) == b'7'
        && (is_lower_hex (hex_nibble ((c % 16 + 0x70) % 16)) && b))
      ≡ true
version_digits c k = and_intro (ground arith) (and_intro (lower_nibble _ (omega arith)) k)

abbrev is_variant : ℕ → Bool
is_variant d = d == b'8' || d == b'9' || d == b'a' || d == b'b'

variant_nibble : (n : ℕ) → n < 4 → is_variant (hex_nibble (n + 8)) ≡ true
variant_nibble n h = ground arith

variant_digits :
    (c : ℕ) {b : Bool}
    → b ≡ true
    → (is_variant (hex_nibble ((c % 64 + 0x80) / 16))
        && (is_lower_hex (hex_nibble ((c % 64 + 0x80) % 16)) && b))
      ≡ true
variant_digits c k =
    let split : (c % 64 + 0x80) / 16 ≡ c % 64 / 16 + 8 = omega arith in
    and_intro (rw split (variant_nibble (c % 64 / 16) (omega arith)))
      (and_intro (lower_nibble _ (omega arith)) k)

-- A claim about the texts of a length, for each of their bytes in turn.
abbrev Each : ℕ → (Bytes → Type 0) → Type 0
Each zero P = P []
Each (suc n) P = (c : ℕ) → Each n (λ cs. P (c ∷ cs))

each-length : (n : ℕ) (P : Bytes → Type 0) → Each n P → (cs : Bytes) → length cs ≡ n → P cs
each-length zero P f [] e = f
each-length zero P f (c ∷ cs) e = absurd (omega (arith, e))
each-length (suc n) P f [] e = absurd (omega (arith, e))
each-length (suc n) P f (c ∷ cs) e = each-length n (λ ds. P (c ∷ ds)) (f c) cs (omega (arith, e))

-- What `new_uuid7` makes of 16 random bytes is a UUIDv7 as the schema takes it: hyphens and lowercase
-- digits in their places, version 7 and the variant 10.
pub new_uuid7-uuid7 :
    (unix_ms : ℕ) (random : Bytes) → AreRandom random → uuid7 (new_uuid7 unix_ms random) ≡ true
unfolding uuid7 new_uuid7
new_uuid7-uuid7 unix_ms random (sized, bounded) =
    each-length 16 (λ bs. All (λ b. b < 256) bs → uuid7 (new_uuid7 unix_ms bs) ≡ true)
      (λ r0 r1 r2 r3 r4 r5 r6 r7 r8 r9 r10 r11 r12 r13 r14 r15 h.
        two_digits (unix_ms / 2 ^ 40 % 256) (omega arith) (
          two_digits (unix_ms / 2 ^ 32 % 256) (omega arith) (
            two_digits (unix_ms / 2 ^ 24 % 256) (omega arith) (
              two_digits (unix_ms / 2 ^ 16 % 256) (omega arith) (
                two_digits (unix_ms / 2 ^ 8 % 256) (omega arith) (
                  two_digits (unix_ms % 256) (omega arith) (
                    version_digits r6 (
                      two_digits r7 h.1.1.1.1.1.1.1.0 (
                        variant_digits r8 (
                          two_digits r9 h.1.1.1.1.1.1.1.1.1.0 (
                            two_digits r10 h.1.1.1.1.1.1.1.1.1.1.0 (
                              two_digits r11 h.1.1.1.1.1.1.1.1.1.1.1.0 (
                                two_digits r12 h.1.1.1.1.1.1.1.1.1.1.1.1.0 (
                                  two_digits r13 h.1.1.1.1.1.1.1.1.1.1.1.1.1.0 (
                                    two_digits r14 h.1.1.1.1.1.1.1.1.1.1.1.1.1.1.0 (
                                      two_digits r15 h.1.1.1.1.1.1.1.1.1.1.1.1.1.1.1.0
                                        refl))))))))))))))))
      random sized bounded
