-- ===== src/SignedPlan/Text/SplitPatterns.antt =====
-- The patterns of the matchers that split a text (src/signed_plan/text.rs).
use permanu_agent.Base.{
  or_right, or_left, or_elim, inr, inl, Bool-cases, suc, ℕ, ◌≡◌, refl, Bool, true, false, not, ◌&&◌,
  List, [], ◌∷◌, arith, length, all, is_nil, leb, ◌==◌, Bytes, split, is_digit, and_elim, codes,
  same, same_iff, is_lower, is_upper, is_alphabetic, is_alphanumeric,
}
use permanu_agent.SignedPlan.Text.{
  head_and_parts, part_of, cron, is_cron, version_core, semver, digits, is_pre, repo, is_repo_host,
  is_reference, is_edge, user, user_part, timezone, is_env_start, is_zone,
}
use permanu_agent.SignedPlan.Text.Regex.{
  text, alt, Regex, cls, lit, seq, opt, plus, Decides, decide_plus, decide_of_eq,
}
use permanu_agent.SignedPlan.Text.Patterns.{user_part_pattern, user_part-Decides}
use permanu_agent.SignedPlan.Text.Split.{lacks_of_parts, Lacks, lacks, parts_pattern, decide_parts}
use permanu_agent.SignedPlan.Text.SplitOnce.{decide_once}

-- `[class]+`.
part_of-Decides : (p : ℕ → Bool) → Decides (part_of p) (plus (cls p))
unfolding part_of
part_of-Decides p = decide_plus p

pub all-lacks :
    (sep : ℕ) (p : ℕ → Bool) (s : Bytes)
    → ((c : ℕ) → p c ≡ true → (c == sep) ≡ false)
    → all p s ≡ true
    → lacks sep s ≡ true
all-lacks sep p [] k h = refl
all-lacks sep p (c ∷ s) k h =
    let (h1, h2) = and_elim (p c) (all p s) h in ground (arith, k c h1, all-lacks sep p s k h2)

part_of-Lacks :
    (sep : ℕ) (p : ℕ → Bool) → ((c : ℕ) → p c ≡ true → (c == sep) ≡ false) → Lacks sep (part_of p)
unfolding part_of
part_of-Lacks sep p k s h = all-lacks sep p s k (and_elim (not (is_nil s)) (all p s) h).1

is_cron-lacks : (c : ℕ) → is_cron c ≡ true → (c == b' ') ≡ false
unfolding is_cron is_digit
is_cron-lacks c h = ground arith

-- `[0-9*/,-]+( [0-9*/,-]+){4}`.
abbrev pub cron_pattern : Regex
cron_pattern = parts_pattern b' ' (plus (cls is_cron)) 4 4 (plus (cls is_cron))

-- A check of the number of parts and of each part.
equal_parts :
    (n : ℕ) (part : Bytes → Bool) (parts : List Bytes)
    → (length parts == suc n && all part parts) ≡ head_and_parts part n n part parts
unfolding head_and_parts
equal_parts n part [] = ground arith
equal_parts n part (p ∷ parts) = ground arith

-- `cron` accepts exactly the texts of `[0-9*/,-]+( [0-9*/,-]+){4}`.
pub cron-Decides : Decides cron cron_pattern
unfolding cron
cron-Decides =
    let part = part_of-Decides is_cron in
    let no_space = part_of-Lacks b' ' is_cron is_cron-lacks in
    decide_of_eq cron _ cron_pattern (λ s. equal_parts 4 (part_of is_cron) (split b' ' s))
      (decide_parts b' ' (part_of is_cron) (plus (cls is_cron)) 4 4 (part_of is_cron)
        (plus (cls is_cron)) part part no_space no_space)

-- `\d+\.\d+\.\d+`.
abbrev pub core_pattern : Regex
core_pattern = parts_pattern b'.' (plus (cls is_digit)) 2 2 (plus (cls is_digit))

pub digit_not : (sep c : ℕ) → leb b'0' sep ≡ false → is_digit c ≡ true → (c == sep) ≡ false
unfolding is_digit
digit_not sep c k h = ground arith

core-Decides : Decides version_core core_pattern
unfolding version_core digits
core-Decides =
    let part = part_of-Decides is_digit in
    let no_dot = part_of-Lacks b'.' is_digit (λ c. digit_not b'.' c refl) in
    decide_of_eq version_core _ core_pattern (λ s. equal_parts 2 (part_of is_digit) (split b'.' s))
      (decide_parts b'.' (part_of is_digit) (plus (cls is_digit)) 2 2 (part_of is_digit)
        (plus (cls is_digit)) part part no_dot no_dot)

core-Lacks : Lacks b'-' version_core
unfolding version_core digits
core-Lacks s h =
    lacks_of_parts b'.' b'-' (part_of is_digit) s refl
      (part_of-Lacks b'-' is_digit (λ c. digit_not b'-' c refl))
      (and_elim (length (split b'.' s) == 3) _ h).1

-- `\d+\.\d+\.\d+(-[0-9A-Za-z.-]+)?`.
abbrev pub semver_pattern : Regex
semver_pattern = seq core_pattern (opt (seq (lit b'-') (plus (cls is_pre))))

semver-Decides : Decides semver semver_pattern
unfolding semver
semver-Decides =
    decide_once b'-' version_core (part_of is_pre) core_pattern (plus (cls is_pre)) core-Decides
      (part_of-Decides is_pre) core-Lacks

-- `[a-z0-9.-]+(/[A-Za-z0-9._-]+){1,4}`.
abbrev pub repo_pattern : Regex
repo_pattern = parts_pattern b'/' (plus (cls is_repo_host)) 1 4 (plus (cls is_reference))

is_repo_host-lacks : (c : ℕ) → is_repo_host c ≡ true → (c == b'/') ≡ false
unfolding is_repo_host is_edge is_digit is_lower
is_repo_host-lacks c h = ground arith

is_reference-lacks : (c : ℕ) → is_reference c ≡ true → (c == b'/') ≡ false
unfolding is_reference
is_reference-lacks c h = ground arith

repo-Decides : Decides repo repo_pattern
unfolding repo
repo-Decides =
    decide_parts b'/' (part_of is_repo_host) (plus (cls is_repo_host)) 1 4 (part_of is_reference)
      (plus (cls is_reference)) (part_of-Decides is_repo_host) (part_of-Decides is_reference)
      (part_of-Lacks b'/' is_repo_host is_repo_host-lacks)
      (part_of-Lacks b'/' is_reference is_reference-lacks)

-- `UTC|[A-Za-z_]+(/[A-Za-z0-9_+-]+){1,2}`.
abbrev pub zone_pattern : Regex
zone_pattern = parts_pattern b'/' (plus (cls is_env_start)) 1 2 (plus (cls is_zone))

abbrev pub timezone_pattern : Regex
timezone_pattern = alt (text (codes "UTC")) zone_pattern

is_env_start-lacks : (c : ℕ) → is_env_start c ≡ true → (c == b'/') ≡ false
unfolding is_env_start is_alphabetic is_lower is_upper
is_env_start-lacks c h = ground arith

is_zone-lacks : (c : ℕ) → is_zone c ≡ true → (c == b'/') ≡ false
unfolding is_zone
is_zone-lacks c h = ground arith

zone-Decides :
    Decides
      (λ s. head_and_parts (part_of is_env_start) 1 2 (part_of is_zone) (split b'/' s))
      zone_pattern
zone-Decides =
    decide_parts b'/' (part_of is_env_start) (plus (cls is_env_start)) 1 2 (part_of is_zone)
      (plus (cls is_zone)) (part_of-Decides is_env_start) (part_of-Decides is_zone)
      (part_of-Lacks b'/' is_env_start is_env_start-lacks)
      (part_of-Lacks b'/' is_zone is_zone-lacks)

timezone-Decides : Decides timezone timezone_pattern
unfolding timezone
timezone-Decides s =
    let zone = zone-Decides s in
    let utc = same_iff s (codes "UTC") in
    (
      λ h. elim (Bool-cases (same s (codes "UTC"))) [
        | inl e ↦ inl (utc.0 e)
        | inr e ↦ inr (zone.0 (or_elim _ _ e h))
      ],
      elim [ inl e ↦ or_left _ (utc.1 e) | inr m ↦ or_right _ (zone.1 m) ],
    )

-- `[A-Za-z0-9_][A-Za-z0-9_.-]{0,31}(:[A-Za-z0-9_][A-Za-z0-9_.-]{0,31})?`.
abbrev pub user_pattern : Regex
user_pattern = seq user_part_pattern (opt (seq (lit b':') user_part_pattern))

is_reference-lacks_colon : (c : ℕ) → is_reference c ≡ true → (c == b':') ≡ false
unfolding is_reference is_alphanumeric
is_reference-lacks_colon c h = ground arith

user_part-Lacks : Lacks b':' user_part
unfolding user_part
user_part-Lacks s h = all-lacks b':' is_reference s is_reference-lacks_colon (ground arith)

user-Decides : Decides user user_pattern
unfolding user
user-Decides =
    decide_once b':' user_part user_part user_part_pattern user_part_pattern user_part-Decides
      user_part-Decides user_part-Lacks

-- `semver`, `repo`, `timezone`, `user` and `cron` accept exactly the texts that match the patterns
-- their comments state.
pub split_patterns :
    Decides semver semver_pattern
    × Decides repo repo_pattern
    × Decides timezone timezone_pattern
    × Decides user user_pattern
    × Decides cron cron_pattern
split_patterns = (semver-Decides, repo-Decides, timezone-Decides, user-Decides, cron-Decides)
