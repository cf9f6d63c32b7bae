-- ===== src/SignedPlan/Text/Classes.antt =====
-- The classes of the patterns (src/signed_plan/text.rs) as the ranges that their comments write.
use mathlib.Core.Path.{fun_ext}
use permanu_agent.SignedPlan.Text.Regex.{rep, Decides, class_pattern, cls, Regex}
use permanu_agent.SignedPlan.Text.{
  capability, abs_path, delivery_id, env_name, key_id, reference, hex40, is_path, is_delivery,
  is_b64url, is_lower_hex, is_env, hex64, is_reference, is_capability, is_env_start,
}
use permanu_agent.SignedPlan.Text.Patterns.{
  capability-Decides, abs_path-Decides, delivery_id-Decides, env_name-Decides, key_id-Decides,
  reference-Decides, hex_n-Decides, exactly, is_slash,
}
use permanu_agent.Base.{
  ◌||◌, ◌&&◌, subst, leb, arith, false, is_lower, is_alphabetic, is_digit, Bool, ◌≡◌, Bytes,
  is_alphanumeric, is_upper, List, [], ◌∷◌, ℕ,
}

-- A class in brackets: the byte is in one of the ranges.
abbrev pub in_ranges : List (ℕ × ℕ) → ℕ → Bool
in_ranges [] c = false
in_ranges ((low, high) ∷ ranges) c = (leb low c && leb c high) || in_ranges ranges c

abbrev one : ℕ → ℕ × ℕ
one c = (c, c)

abbrev pub hex_ranges : List (ℕ × ℕ)
hex_ranges = (b'0', b'9') ∷ (b'a', b'f') ∷ []

abbrev pub alphanumeric_with : List (ℕ × ℕ) → List (ℕ × ℕ)
alphanumeric_with more = (b'A', b'Z') ∷ (b'a', b'z') ∷ (b'0', b'9') ∷ more

abbrev pub class_of : List (ℕ × ℕ) → Regex
class_of ranges = cls (in_ranges ranges)

-- A byte of one class and then `low` to `high` bytes of another.
abbrev pub head_and_class : List (ℕ × ℕ) → ℕ → ℕ → List (ℕ × ℕ) → Regex
head_and_class head low high ranges = class_pattern (in_ranges head) low high (in_ranges ranges)

by_ranges :
    (f : Bytes → Bool) (low high : ℕ) (p q : ℕ → Bool)
    → ((c : ℕ) → p c ≡ q c)
    → Decides f (rep low high (cls p))
    → Decides f (rep low high (cls q))
by_ranges f low high p q e d = subst (λ r. Decides f (rep low high (cls r))) (fun_ext e) d

by_head_ranges :
    (f : Bytes → Bool) (low high : ℕ) (head p head' q : ℕ → Bool)
    → ((c : ℕ) → head c ≡ head' c)
    → ((c : ℕ) → p c ≡ q c)
    → Decides f (class_pattern head low high p)
    → Decides f (class_pattern head' low high q)
by_head_ranges f low high head p head' q h e d =
    subst (λ r. Decides f (class_pattern head' low high r)) (fun_ext e)
      (subst (λ r. Decides f (class_pattern r low high p)) (fun_ext h) d)

hex_class : (c : ℕ) → is_lower_hex c ≡ in_ranges hex_ranges c
unfolding is_lower_hex is_digit
hex_class c = ground arith

alphanumeric_class : (c : ℕ) → is_alphanumeric c ≡ in_ranges (alphanumeric_with []) c
unfolding is_alphanumeric is_alphabetic is_lower is_upper is_digit
alphanumeric_class c = ground arith

reference_class :
    (c : ℕ) → is_reference c ≡ in_ranges (alphanumeric_with (one b'.' ∷ one b'_' ∷ one b'-' ∷ [])) c
unfolding is_reference is_alphanumeric is_alphabetic is_lower is_upper is_digit
reference_class c = ground arith

b64url_class : (c : ℕ) → is_b64url c ≡ in_ranges (alphanumeric_with (one b'_' ∷ one b'-' ∷ [])) c
unfolding is_b64url is_alphanumeric is_alphabetic is_lower is_upper is_digit
b64url_class c = ground arith

env_start_class :
    (c : ℕ) → is_env_start c ≡ in_ranges ((b'A', b'Z') ∷ (b'a', b'z') ∷ one b'_' ∷ []) c
unfolding is_env_start is_alphabetic is_lower is_upper
env_start_class c = ground arith

env_class : (c : ℕ) → is_env c ≡ in_ranges (alphanumeric_with (one b'_' ∷ [])) c
unfolding is_env is_alphanumeric is_alphabetic is_lower is_upper is_digit
env_class c = ground arith

delivery_class :
    (c : ℕ)
    → is_delivery c
      ≡ in_ranges (alphanumeric_with (one b'.' ∷ one b'_' ∷ one b':' ∷ one b'-' ∷ [])) c
unfolding is_delivery is_alphanumeric is_alphabetic is_lower is_upper is_digit
delivery_class c = ground arith

path_class :
    (c : ℕ)
    → is_path c ≡ in_ranges (alphanumeric_with (one b'.' ∷ one b'_' ∷ one b'/' ∷ one b'-' ∷ [])) c
unfolding is_path is_alphanumeric is_alphabetic is_lower is_upper is_digit
path_class c = ground arith

slash_class : (c : ℕ) → is_slash c ≡ in_ranges (one b'/' ∷ []) c
slash_class c = ground arith

upper_class : (c : ℕ) → is_upper c ≡ in_ranges ((b'A', b'Z') ∷ []) c
unfolding is_upper
upper_class c = ground arith

capability_class : (c : ℕ) → is_capability c ≡ in_ranges ((b'A', b'Z') ∷ one b'_' ∷ []) c
unfolding is_capability is_upper
capability_class c = ground arith

-- The matchers accept exactly the texts of their patterns, whose classes are given by ranges of bytes:
-- `hex64` those of `[0-9a-f]{64}`, `hex40` those of `[0-9a-f]{40}`, `reference` those of
-- `[A-Za-z0-9][A-Za-z0-9._-]{0,63}`, `key_id` those of `[A-Za-z0-9_-]{22}`, `env_name` those of
-- `[A-Za-z_][A-Za-z0-9_]{0,127}`, `delivery_id` those of `[A-Za-z0-9._:-]{1,128}`, `abs_path` those of
-- `/[A-Za-z0-9._/-]{1,255}`, and `capability` those of `[A-Z][A-Z_]{1,31}`.
pub class_patterns :
    Decides hex64 (exactly 64 (class_of hex_ranges))
    × Decides hex40 (exactly 40 (class_of hex_ranges))
    × Decides reference (
        head_and_class
          (alphanumeric_with [])
          0
          63
          (alphanumeric_with (one b'.' ∷ one b'_' ∷ one b'-' ∷ [])))
    × Decides key_id (exactly 22 (class_of (alphanumeric_with (one b'_' ∷ one b'-' ∷ []))))
    × Decides env_name (
        head_and_class
          ((b'A', b'Z') ∷ (b'a', b'z') ∷ one b'_' ∷ [])
          0
          127
          (alphanumeric_with (one b'_' ∷ [])))
    × Decides delivery_id
        (rep 1 128 (class_of (alphanumeric_with (one b'.' ∷ one b'_' ∷ one b':' ∷ one b'-' ∷ []))))
    × Decides abs_path (
        head_and_class
          (one b'/' ∷ [])
          1
          255
          (alphanumeric_with (one b'.' ∷ one b'_' ∷ one b'/' ∷ one b'-' ∷ [])))
    × Decides capability (head_and_class ((b'A', b'Z') ∷ []) 1 31 ((b'A', b'Z') ∷ one b'_' ∷ []))
unfolding hex64 hex40
class_patterns = (
  by_ranges hex64 64 64 is_lower_hex _ hex_class (hex_n-Decides 64),
  by_ranges hex40 40 40 is_lower_hex _ hex_class (hex_n-Decides 40),
  by_head_ranges reference 0 63 is_alphanumeric is_reference _ _ alphanumeric_class reference_class
      reference-Decides,
  by_ranges key_id 22 22 is_b64url _ b64url_class key_id-Decides,
  by_head_ranges env_name 0 127 is_env_start is_env _ _ env_start_class env_class env_name-Decides,
  by_ranges delivery_id 1 128 is_delivery _ delivery_class delivery_id-Decides,
  by_head_ranges abs_path 1 255 is_slash is_path _ _ slash_class path_class abs_path-Decides,
  by_head_ranges capability 1 31 is_upper is_capability _ _ upper_class capability_class
      capability-Decides,
)
