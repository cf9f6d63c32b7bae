-- ===== src/Hooks/Limits.antt =====
-- The per-minute budgets of the webhook intake (src/local/hooks/limits.rs).
-- `Budget` is the record of its two limits; the state behind its mutex is passed explicitly. Times
-- are `i64` seconds, taken as integers: a difference of two of them that overflows is not modelled.
pub mod Window
pub mod Invariant
pub mod Budgets
pub mod Exact
mod Tests
use permanu_agent.Base.{
  ℕ, suc, Bool, true, false, not, ◌&&◌, List, [], ◌∷◌, ◌++◌, Option, none, some, ℤ, pos, ◌-ℤ◌,
  leb_ℤ, leb, length, is_nil, unwrap_or, if◌then◌else◌, Bytes,
}
use permanu_agent.Base.Map.{Map, lookup, insert, retain, contains_key}

abbrev pub window_seconds : ℕ
window_seconds = 60

abbrev pub max_keys : ℕ
max_keys = 4096

pub record Budget : Type 0 where
  pub per_key : ℕ
  pub per_server : ℕ

abbrev pub pre_auth : Budget
pre_auth = record { per_key = 30; per_server = 600 }

abbrev pub deploy : Budget
deploy = record { per_key = 60; per_server = 600 }

pub record State : Type 0 where
  pub keys : Map (List ℤ)
  pub server : List ℤ

abbrev pub fresh : State
fresh = record { keys = []; server = [] }

-- `now - at >= WINDOW_SECONDS`.
unfoldable pub is_stale : ℤ → ℤ → Bool
unfolding ◌-ℤ◌
is_stale now at = leb_ℤ (pos window_seconds) (now -ℤ at)

-- The front of the deque is the head of the list.
unfoldable pub trim : List ℤ → ℤ → List ℤ
trim [] now = []
trim (at ∷ window) now = let rest = trim window now in if is_stale now at then rest else at ∷ window

-- The closure that `retain` is called with.
unfoldable pub keep : ℤ → List ℤ → Option (List ℤ)
keep now window = let trimmed = trim window now in if is_nil trimmed then none else some trimmed

-- The eviction of idle keys, when a new key meets a full table.
unfoldable pub evict : Bytes → ℤ → Map (List ℤ) → Map (List ℤ)
unfolding retain keep
evict key now keys =
    if not (contains_key key keys) && leb max_keys (length keys)
    then retain (keep now) keys
    else keys

-- The early return after an eviction that has not made room.
unfoldable pub is_full : Bytes → Map (List ℤ) → Map (List ℤ) → Bool
is_full key before after =
    not (contains_key key before) && leb max_keys (length before) && leb max_keys (length after)

-- From `entry` on: the window of the key, and the two pushes.
unfoldable pub count_in : Budget → Bytes → ℤ → State → Bool × State
unfolding insert
count_in b key now s =
    let window = trim (unwrap_or [] (lookup key s.keys)) now in
    if leb b.per_key (length window)
    then (false, record s { keys = insert key window s.keys })
    else (
      true,
      record { keys = insert key (window ++ now ∷ []) s.keys; server = s.server ++ now ∷ [] },
    )

unfoldable pub admit : Budget → Bytes → ℤ → State → Bool × State
admit b key now s =
    let server = trim s.server now in
    let keys = evict key now s.keys in
    if leb b.per_server (length server)
    then (false, record s { server = server })
    else if is_full key s.keys keys
    then (false, record { keys = keys; server = server })
    else count_in b key now (record { keys = keys; server = server })
