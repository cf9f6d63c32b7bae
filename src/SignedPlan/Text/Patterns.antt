-- ===== src/SignedPlan/Text/Patterns.antt =====
-- The patterns of one class after another (src/signed_plan/text.rs).
use permanu_agent.Base.{
  ℕ, ◌≡◌, refl, Bool, [], ◌∷◌, arith, ◌==◌, Bytes, starts_with, is_alphanumeric, is_upper,
}
use permanu_agent.SignedPlan.Text.{
  hex_n, is_lower_hex, reference, is_reference, key_id, is_b64url, env_name, is_env, is_env_start,
  delivery_id, is_delivery, abs_path, is_path, capability, is_capability, user_part,
}
use permanu_agent.SignedPlan.Text.Regex.{
  class_test, class_pattern, decide_class, Regex, cls, rep, Decides, decide_rep, decide_of_eq,
}

abbrev pub exactly : ℕ → Regex → Regex
exactly n r = rep n n r

-- `[0-9a-f]{n}`.
abbrev pub hex_pattern : ℕ → Regex
hex_pattern n = exactly n (cls is_lower_hex)

-- `hex_n(value, n)` accepts exactly the texts of `[0-9a-f]{n}`.
pub hex_n-Decides : (n : ℕ) → Decides (λ s. hex_n s n) (hex_pattern n)
unfolding hex_n
hex_n-Decides n =
    decide_of_eq (λ s. hex_n s n) _ (hex_pattern n) (λ s. ground arith)
      (decide_rep is_lower_hex n n)

-- `[A-Za-z0-9][A-Za-z0-9._-]{0,63}`.
abbrev pub reference_pattern : Regex
reference_pattern = class_pattern is_alphanumeric 0 63 is_reference

reference-class_test : (s : Bytes) → reference s ≡ class_test is_alphanumeric 0 63 is_reference s
unfolding reference is_reference
reference-class_test [] = refl
reference-class_test (c ∷ s) = ground arith

-- `reference` accepts exactly the texts of its pattern.
pub reference-Decides : Decides reference reference_pattern
reference-Decides =
    decide_of_eq reference _ reference_pattern reference-class_test
      (decide_class is_alphanumeric 0 63 is_reference)

-- `[A-Za-z0-9_-]{22}`.
abbrev pub key_id_pattern : Regex
key_id_pattern = exactly 22 (cls is_b64url)

pub key_id-Decides : Decides key_id key_id_pattern
unfolding key_id
key_id-Decides =
    decide_of_eq key_id _ key_id_pattern (λ s. ground arith) (decide_rep is_b64url 22 22)

-- `[A-Za-z_][A-Za-z0-9_]{0,127}`.
abbrev pub env_name_pattern : Regex
env_name_pattern = class_pattern is_env_start 0 127 is_env

env_name-class_test : (s : Bytes) → env_name s ≡ class_test is_env_start 0 127 is_env s
unfolding env_name is_env is_env_start is_alphanumeric
env_name-class_test [] = refl
env_name-class_test (c ∷ s) = ground arith

pub env_name-Decides : Decides env_name env_name_pattern
env_name-Decides =
    decide_of_eq env_name _ env_name_pattern env_name-class_test
      (decide_class is_env_start 0 127 is_env)

-- `[A-Za-z0-9._:-]{1,128}`.
abbrev pub delivery_id_pattern : Regex
delivery_id_pattern = rep 1 128 (cls is_delivery)

pub delivery_id-Decides : Decides delivery_id delivery_id_pattern
unfolding delivery_id
delivery_id-Decides =
    decide_of_eq delivery_id _ delivery_id_pattern (λ s. ground arith)
      (decide_rep is_delivery 1 128)

-- `/[A-Za-z0-9._/-]{1,255}`.
abbrev pub is_slash : ℕ → Bool
is_slash c = b'/' == c

abbrev pub abs_path_pattern : Regex
abs_path_pattern = class_pattern is_slash 1 255 is_path

abs_path-class_test : (s : Bytes) → abs_path s ≡ class_test is_slash 1 255 is_path s
unfolding abs_path starts_with
abs_path-class_test [] = refl
abs_path-class_test (c ∷ s) = ground arith

pub abs_path-Decides : Decides abs_path abs_path_pattern
abs_path-Decides =
    decide_of_eq abs_path _ abs_path_pattern abs_path-class_test
      (decide_class is_slash 1 255 is_path)

-- `[A-Z][A-Z_]{1,31}`.
abbrev pub capability_pattern : Regex
capability_pattern = class_pattern is_upper 1 31 is_capability

capability-class_test : (s : Bytes) → capability s ≡ class_test is_upper 1 31 is_capability s
unfolding capability is_capability
capability-class_test [] = refl
capability-class_test (c ∷ s) = ground arith

pub capability-Decides : Decides capability capability_pattern
capability-Decides =
    decide_of_eq capability _ capability_pattern capability-class_test
      (decide_class is_upper 1 31 is_capability)

-- `[A-Za-z0-9_][A-Za-z0-9_.-]{0,31}`.
abbrev pub user_part_pattern : Regex
user_part_pattern = class_pattern is_env 0 31 is_reference

user_part-class_test : (s : Bytes) → user_part s ≡ class_test is_env 0 31 is_reference s
unfolding user_part is_env is_reference
user_part-class_test [] = refl
user_part-class_test (c ∷ s) = ground arith

pub user_part-Decides : Decides user_part user_part_pattern
user_part-Decides =
    decide_of_eq user_part _ user_part_pattern user_part-class_test
      (decide_class is_env 0 31 is_reference)
