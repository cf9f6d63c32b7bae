-- ===== src/SignedPlan/Schema/Build.antt =====
-- The build recipe of a service (src/signed_plan/schema/spec_build.rs).
use permanu_agent.Base.{
  ℕ, ◌+◌, Bool, false, not, ◌&&◌, ◌||◌, List, [], ◌∷◌, ◌++◌, map, none, some, leb, if◌then◌else◌,
  length, all, any, is_nil, is_some, is_some_and, unwrap_or, Bytes, codes, same, within,
  is_alphanumeric, split, split_once, strip_prefix, strip_suffix,
}
use permanu_agent.Base.Map.{lookup}
use permanu_agent.SignedPlan.Crypto.{Codec}
use permanu_agent.SignedPlan.Text.{env_name, git_ref, first_is, length_within}
use permanu_agent.SignedPlan.Value.{Value, as_str, as_array, as_object, index, get}
use permanu_agent.SignedPlan.Schema.{
  Shape, pattern_of, text_of, nullable, set_of, object_of, custom, fields_of, check, env_shape,
}
use permanu_agent.SignedPlan.Schema.Grammars.{
  host_chars, host_and_port, port_digits, path_segment, is_segment, is_none_or,
}

abbrev pub k_keywords : List Bytes
k_keywords =
    codes "pass"
    ∷ codes "password"
    ∷ codes "passwd"
    ∷ codes "passphrase"
    ∷ codes "pwd"
    ∷ codes "secret"
    ∷ codes "token"
    ∷ codes "apikey"
    ∷ codes "api_key"
    ∷ codes "accesskey"
    ∷ codes "access_key"
    ∷ codes "privatekey"
    ∷ codes "private_key"
    ∷ codes "clientsecret"
    ∷ codes "client_secret"
    ∷ codes "credential"
    ∷ codes "credentials"
    ∷ codes "authorization"
    ∷ codes "authtoken"
    ∷ codes "auth_token"
    ∷ codes "sessionid"
    ∷ codes "session_id"
    ∷ codes "sessiontoken"
    ∷ codes "session_token"
    ∷ codes "cookie"
    ∷ codes "databaseurl"
    ∷ codes "database_url"
    ∷ codes "dsn"
    ∷ codes "connstring"
    ∷ codes "conn_string"
    ∷ codes "connectionstring"
    ∷ codes "connection_string"
    ∷ []

-- A segment of letters and digits.
unfoldable pub name_segment : Bytes → Bool
unfolding is_alphanumeric
name_segment part = not (is_nil part) && all is_alphanumeric part

unfoldable pub prefix_segments : Bytes → Bool
unfolding strip_suffix split name_segment
prefix_segments v =
    is_nil v
    || is_some_and (λ body. all name_segment (split b'_' body)) (strip_suffix (codes "_") v)

unfoldable pub suffix_segments : Bytes → Bool
unfolding strip_prefix split name_segment
suffix_segments v =
    is_nil v
    || is_some_and (λ body. all name_segment (split b'_' body)) (strip_prefix (codes "_") v)

-- `to_ascii_lowercase`.
abbrev pub ascii_lower : ℕ → ℕ
ascii_lower c = if within b'A' b'Z' c then c + 32 else c

-- The keywords at a start, with what stands before it.
unfoldable pub keyword_at : Bytes → Bytes → Bool
unfolding strip_prefix prefix_segments suffix_segments
keyword_at before rest =
    prefix_segments before
    && any (λ keyword. is_some_and suffix_segments (strip_prefix keyword rest)) k_keywords

-- `(0..=lower.len()).any(...)`: the starts from the first on. Every start is a boundary of
-- characters, since a name that is asked for is ASCII.
unfoldable pub any_start : Bytes → Bytes → Bool
unfolding keyword_at
any_start before [] = keyword_at before []
any_start before (c ∷ rest) = keyword_at before (c ∷ rest) || any_start (before ++ (c ∷ [])) rest

unfoldable pub secret_looking_name : Bytes → Bool
unfolding any_start
secret_looking_name name = any_start [] (map ascii_lower name)

unfoldable pub relative_path : Bytes → Bool
unfolding split path_segment
relative_path v = let parts = split b'/' v in within 1 16 (length parts) && all path_segment parts

unfoldable pub subdir : Bytes → Bool
unfolding relative_path
subdir v = is_nil v || relative_path v

unfoldable pub context : Bytes → Bool
unfolding relative_path same
context v = same v (codes ".") || relative_path v

abbrev pub drop_one : Bytes → Bytes
drop_one [] = []
drop_one (c ∷ cs) = cs

unfoldable pub build_target : Bytes → Bool
unfolding is_alphanumeric is_segment
build_target v = length_within 1 64 v && first_is is_alphanumeric v && all is_segment (drop_one v)

unfoldable pub build_ref : Bytes → Bool
unfolding strip_prefix
build_ref v = elim (strip_prefix (codes "refs/tags/") v) [
  | some tag ↦ git_ref (codes "refs/heads/" ++ tag) false
  | none ↦ git_ref v false
]

-- `rest.split_once('/').unwrap_or((rest, ""))`.
abbrev pub authority_and_path : Bytes → Bytes × Bytes
authority_and_path rest = unwrap_or (rest, []) (split_once b'/' rest)

unfoldable pub url_segment : Bytes → Bool
unfolding is_segment
url_segment part = not (is_nil part) && all is_segment part

unfoldable pub repo_url : Bytes → Bool
unfolding strip_prefix split_once split host_chars port_digits url_segment
repo_url v = elim (strip_prefix (codes "https://") v) [
  | none ↦ false
  | some rest ↦
      let (authority, path) = authority_and_path rest in
      let (host, port) = host_and_port authority in
      let segments = split b'/' path in
      host_chars host
      && is_none_or port_digits port
      && (not (is_nil path) && within 1 8 (length segments) && all url_segment segments)
]

unfoldable pub build_args : Codec → Value → Bool
unfolding check secret_looking_name
build_args codec v =
    is_some_and
      (λ m.
        leb (length m) 64
        && all
            (λ entry.
              env_name entry.0
              && check codec (text_of 0 4_096) entry.1
              && not (secret_looking_name entry.0))
            m)
      (as_object v)

abbrev pub build : Codec → Shape
build codec = object_of (
    fields_of (
      (
        codes "source",
        object_of (
            fields_of (
              (codes "repo_url", pattern_of repo_url)
              ∷ (codes "ref", pattern_of build_ref)
              ∷ (codes "subdir", pattern_of subdir)
              ∷ [])),
      )
      ∷ (codes "dockerfile", pattern_of relative_path)
      ∷ (codes "context", pattern_of context)
      ∷ (codes "target", nullable (pattern_of build_target))
      ∷ (codes "build_args", custom (build_args codec))
      ∷ (codes "build_secrets", set_of (env_shape) 0 32)
      ∷ []))

unfoldable pub build_recipe : Codec → Value → Bool
unfolding check lookup
build_recipe codec v =
    check codec (build codec) v
    && is_some_and
        (all (λ name.
          is_some_and (λ n. not (is_some (get n (index v (codes "build_args"))))) (as_str name)))
        (as_array (index v (codes "build_secrets")))
