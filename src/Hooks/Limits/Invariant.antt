-- ===== src/Hooks/Limits/Invariant.antt =====
-- What the table of windows knows of the requests admitted so far.
use permanu_agent.Base.{
  ℕ, suc, ◌+◌, ◌≤◌, ◌≡◌, refl, sym, ◌∙◌, false, not, ◌&&◌, inl, inr, List, [], ◌∷◌, Option, none,
  some, ℤ, ◌≤ℤ◌, leb, length, unwrap_or, if◌then◌else◌, Bytes, arith, same, Bool-cases, and_then,
}
use permanu_agent.Base.Map.{
  Map, lookup, retain, contains_key, IsMap, lookup-retain, retain-IsMap, length-retain,
}
use permanu_agent.Hooks.Limits.{Budget, max_keys, is_stale, trim, keep, evict, is_full}
use permanu_agent.Hooks.Limits.Window.{recent, recent-trim, length-trim}

-- The window of a key; a key that is not in the table has the empty one.
unfoldable pub window_of : Bytes → Map (List ℤ) → List ℤ
window_of k keys = unwrap_or [] (lookup k keys)

-- A request that was admitted: its key and its time. The latest one stands first.
abbrev pub Request : Type 0
Request = Bytes × ℤ

-- The admitted requests of the minute that ends at `c`: all, and those of one key.
unfoldable pub tally : ℤ → List Request → ℕ
tally c [] = 0
tally c ((k, at) ∷ h) = (if is_stale c at then 0 else 1) + tally c h

unfoldable pub tally_key : Bytes → ℤ → List Request → ℕ
tally_key j c [] = 0
tally_key j c ((k, at) ∷ h) = (if same k j && not (is_stale c at) then 1 else 0) + tally_key j c h

pub record IsKeyTable (b : Budget) (now : ℤ) (keys : Map (List ℤ)) (h : List Request) : Type 0 where
  pub is_map : IsMap keys
  pub size : length keys ≤ max_keys
  pub key_length : (k : Bytes) → length (window_of k keys) ≤ b.per_key
  pub key_tally : (k : Bytes) (c : ℤ) → now ≤ℤ c → tally_key k c h ≡ recent c (window_of k keys)

pub record IsServer (b : Budget) (now : ℤ) (server : List ℤ) (h : List Request) : Type 0 where
  pub server_length : length server ≤ b.per_server
  pub server_tally : (c : ℤ) → now ≤ℤ c → tally c h ≡ recent c server

pub trim-IsServer :
    {b : Budget} {now : ℤ} {server : List ℤ} {h : List Request} (later : ℤ)
    → now ≤ℤ later
    → IsServer b now server h
    → IsServer b later (trim server later) h
trim-IsServer {server = server} later le v = record {
  server_length = omega (arith, length-trim later server, v.server_length);
  server_tally = λ c h. v.server_tally c (omega arith) ∙ sym (recent-trim c later server h);
}

keep-recent :
    (c now : ℤ) (o : Option (List ℤ))
    → now ≤ℤ c
    → recent c (unwrap_or [] (and_then o (keep now))) ≡ recent c (unwrap_or [] o)
unfolding keep recent
keep-recent c now none h = refl
keep-recent c now (some w) h = ground (arith, recent-trim c now w h)

length-keep :
    (now : ℤ) (o : Option (List ℤ))
    → length (unwrap_or [] (and_then o (keep now))) ≤ length (unwrap_or [] o)
unfolding keep
length-keep now none = omega arith
length-keep now (some w) = ground (arith, length-trim now w)

retain-IsKeyTable :
    {b : Budget} {now : ℤ} {keys : Map (List ℤ)} {h : List Request} (later : ℤ)
    → now ≤ℤ later
    → IsKeyTable b now keys h
    → IsKeyTable b later (retain (keep later) keys) h
unfolding window_of
retain-IsKeyTable {keys = keys} later le v = record {
  is_map = retain-IsMap (keep later) keys v.is_map;
  size = omega (arith, length-retain (keep later) keys, v.size);
  key_length = λ k.
      rw (lookup-retain (keep later) k keys v.is_map)
        (omega (arith, length-keep later (lookup k keys), v.key_length k));
  key_tally = λ k c h.
      rw (lookup-retain (keep later) k keys v.is_map)
        (v.key_tally k c (omega arith) ∙ sym (keep-recent c later (lookup k keys) h));
}

pub later-IsKeyTable :
    {b : Budget} {now : ℤ} {keys : Map (List ℤ)} {h : List Request} (later : ℤ)
    → now ≤ℤ later
    → IsKeyTable b now keys h
    → IsKeyTable b later keys h
later-IsKeyTable later le v = record {
  is_map = v.is_map;
  size = v.size;
  key_length = v.key_length;
  key_tally = λ k c h. v.key_tally k c (omega arith);
}

pub evict-IsKeyTable :
    {b : Budget} {now : ℤ} {keys : Map (List ℤ)} {h : List Request} (key : Bytes) (later : ℤ)
    → now ≤ℤ later
    → IsKeyTable b now keys h
    → IsKeyTable b later (evict key later keys) h
unfolding evict
evict-IsKeyTable {keys = keys} key later le v =
    elim (Bool-cases (not (contains_key key keys) && leb max_keys (length keys))) [
      | inl e ↦ rw e (retain-IsKeyTable later le v)
      | inr e ↦ rw e (later-IsKeyTable later le v)
    ]

-- Past the check for a full table a new key has room.
pub evict_room :
    (key : Bytes) (now : ℤ) (keys : Map (List ℤ))
    → is_full key keys (evict key now keys) ≡ false
    → contains_key key (evict key now keys) ≡ false
    → suc (length (evict key now keys)) ≤ max_keys
unfolding is_full evict
evict_room key now keys e f = ground arith
