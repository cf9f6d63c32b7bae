-- ===== src/Hooks/Limits/Exact.antt =====
-- Which requests are admitted (src/local/hooks/limits.rs).
use permanu_agent.Base.{
  ◌≡◌, Bool, not, ◌&&◌, inl, inr, List, [], ◌∷◌, ◌++◌, Option, none, some, ℤ, ◌≤ℤ◌, leb, ltb,
  length, unwrap_or, Bytes, arith, same, Bool-cases, All, and_then, is_nil,
}
use permanu_agent.Base.Map.{Map, lookup, insert, contains_key, lookup-insert, lookup-retain}
use permanu_agent.Hooks.Limits.{
  Budget, State, fresh, max_keys, trim, keep, evict, is_full, count_in, admit,
}
use permanu_agent.Hooks.Limits.Window.{IsSorted, length-trim_sorted, trim-IsSorted}
use permanu_agent.Hooks.Limits.Invariant.{
  window_of, Request, tally, tally_key, IsKeyTable, evict-IsKeyTable,
}
use permanu_agent.Hooks.Limits.Budgets.{
  Tracks, recorded, serve, last_time, InOrder, admit-Tracks, fresh-Tracks, serve-Tracks,
}

-- Sorted, and nothing later than `now`.
pub record IsPast (now : ℤ) (window : List ℤ) : Type 0 where
  pub sorted : IsSorted window
  pub past : All (λ at. at ≤ℤ now) window

pub record IsOrdered (now : ℤ) (s : State) : Type 0 where
  pub server : IsPast now s.server
  pub keys : (k : Bytes) → IsPast now (window_of k s.keys)

All-later :
    (now later : ℤ) (window : List ℤ)
    → now ≤ℤ later
    → All (λ at. at ≤ℤ now) window
    → All (λ at. at ≤ℤ later) window
All-later now later [] le a = tt
All-later now later (at ∷ window) le a = (omega arith, All-later now later window le a.1)

trim-All : (P : ℤ → Type 0) (now : ℤ) (window : List ℤ) → All P window → All P (trim window now)
unfolding trim
trim-All P now [] a = tt
trim-All P now (at ∷ window) a = ground (arith, trim-All P now window a.1)

later-IsPast :
    {now : ℤ} {window : List ℤ} (later : ℤ) → now ≤ℤ later → IsPast now window → IsPast later window
later-IsPast {now} {window} later le p = record {
  sorted = p.sorted;
  past = All-later now later window le p.past;
}

trim-IsPast :
    {now : ℤ} {window : List ℤ} (later : ℤ)
    → now ≤ℤ later
    → IsPast now window
    → IsPast later (trim window later)
trim-IsPast {now} {window} later le p = record {
  sorted = trim-IsSorted later window p.sorted;
  past = trim-All _ later window (All-later now later window le p.past);
}

All-append :
    (P : ℤ → Type 0) (at : ℤ) (window : List ℤ) → P at → All P window → All P (window ++ at ∷ [])
All-append P at [] p a = (p, tt)
All-append P at (x ∷ window) p a = (a.0, All-append P at window p a.1)

append-IsSorted :
    (now : ℤ) (window : List ℤ)
    → IsSorted window
    → All (λ at. at ≤ℤ now) window
    → IsSorted (window ++ now ∷ [])
append-IsSorted now [] p a = (tt, tt)
append-IsSorted now (at ∷ window) p a =
    (All-append (λ later. at ≤ℤ later) now window a.0 p.0, append-IsSorted now window p.1 a.1)

append-IsPast : {now : ℤ} {window : List ℤ} → IsPast now window → IsPast now (window ++ now ∷ [])
append-IsPast {now} {window} p = record {
  sorted = append-IsSorted now window p.sorted p.past;
  past = All-append (λ at. at ≤ℤ now) now window (omega arith) p.past;
}

nil-IsPast : (now : ℤ) → IsPast now []
nil-IsPast now = record { sorted = tt; past = tt }

keep-IsPast :
    (now later : ℤ) (o : Option (List ℤ))
    → now ≤ℤ later
    → IsPast now (unwrap_or [] o)
    → IsPast later (unwrap_or [] (and_then o (keep later)))
unfolding keep
keep-IsPast now later none le p = nil-IsPast later
keep-IsPast now later (some window) le p = elim (Bool-cases (is_nil (trim window later))) [
  | inl e ↦ rw e (nil-IsPast later)
  | inr e ↦ rw e (trim-IsPast later le p)
]

evict-IsPast :
    {b : Budget} {now : ℤ} {keys : Map (List ℤ)} {h : List Request} (key : Bytes) (later : ℤ)
    → now ≤ℤ later
    → IsKeyTable b now keys h
    → ((k : Bytes) → IsPast now (window_of k keys))
    → (k : Bytes) → IsPast later (window_of k (evict key later keys))
unfolding evict window_of
evict-IsPast {now = now} {keys = keys} key later le v p k =
    elim (Bool-cases (not (contains_key key keys) && leb max_keys (length keys))) [
      | inl e ↦
          rw (e, lookup-retain (keep later) k keys v.is_map)
            (keep-IsPast now later (lookup k keys) le (p k))
      | inr e ↦ rw e (later-IsPast later le (p k))
    ]

insert-IsPast :
    (now : ℤ) (keys : Map (List ℤ)) (key : Bytes) {window : List ℤ}
    → ((k : Bytes) → IsPast now (window_of k keys))
    → IsPast now window
    → (k : Bytes) → IsPast now (window_of k (insert key window keys))
unfolding window_of
insert-IsPast now keys key {window} p w k =
    rw (lookup-insert key k window keys)
      (elim (Bool-cases (same key k)) [ inl e ↦ rw e w | inr e ↦ rw e (p k) ])

count_in-IsOrdered :
    (b : Budget) (now : ℤ) (keys : Map (List ℤ)) {server : List ℤ} (key : Bytes)
    → ((k : Bytes) → IsPast now (window_of k keys))
    → IsPast now server
    → IsOrdered now (count_in b key now (record { keys = keys; server = server })).1
unfolding count_in window_of
count_in-IsOrdered b now keys {server} key p q =
    let window = trim (window_of key keys) now in
    let past = trim-IsPast now (omega arith) (p key) in
    elim (Bool-cases (leb b.per_key (length window))) [
      | inl e ↦ rw e (record { server = q; keys = insert-IsPast now keys key p past })
      | inr e ↦ rw e (record {
        server = append-IsPast q;
        keys = insert-IsPast now keys key p (append-IsPast past);
      })
    ]

admit-IsOrdered :
    {b : Budget} {now : ℤ} {s : State} {h : List Request} (key : Bytes) (later : ℤ)
    → now ≤ℤ later
    → Tracks b now s h
    → IsOrdered now s
    → IsOrdered later (admit b key later s).1
unfolding admit
admit-IsOrdered {b} {now} {s} {h} key later le t o =
    elim (Bool-cases (leb b.per_server (length (trim s.server later)))) [
      | inl e ↦ rw e (record { server = server; keys = λ k. later-IsPast later le (o.keys k) })
      | inr e ↦ rw e (elim (Bool-cases (is_full key s.keys (evict key later s.keys))) [
        | inl f ↦ rw f (record { server = server; keys = keys })
        | inr f ↦ rw f (count_in-IsOrdered b later (evict key later s.keys) key keys server)
      ])
    ]
  where
    server : IsPast later (trim s.server later)
    server = trim-IsPast later le o.server

    keys : (k : Bytes) → IsPast later (window_of k (evict key later s.keys))
    keys = evict-IsPast key later le t.key_table o.keys

serve-IsOrdered :
    {b : Budget} (now : ℤ) (s : State) (h requests : List Request)
    → InOrder now requests
    → Tracks b now s h
    → IsOrdered now s
    → IsOrdered (last_time now requests) (serve b s h requests).0
unfolding serve
serve-IsOrdered now s h [] o t p = p
serve-IsOrdered {b} now s h ((key, at) ∷ requests) o t p =
    serve-IsOrdered at (admit b key at s).1 (recorded (admit b key at s).0 key at h) requests o.1
      (admit-Tracks key at o.0 t) (admit-IsOrdered key at o.0 t p)

-- The answer, by what the last minute has used.
unfoldable pub is_allowed : Budget → State → List Request → Bytes → ℤ → Bool
is_allowed b s h key at =
    ltb (tally at h) b.per_server
    && not (is_full key s.keys (evict key at s.keys))
    && ltb (tally_key key at h) b.per_key

admit_answer :
    {b : Budget} {now : ℤ} {s : State} {h : List Request} (key : Bytes) (later : ℤ)
    → now ≤ℤ later
    → Tracks b now s h
    → IsOrdered now s
    → (admit b key later s).0 ≡ is_allowed b s h key later
unfolding admit count_in is_allowed window_of
admit_answer {b} {now} {s} {h} key later le t o =
    let table = evict-IsKeyTable key later le t.key_table in
    let keys = evict-IsPast key later le t.key_table o.keys in
    ground (
      arith,
      length-trim_sorted later s.server o.server.sorted,
      t.server_window.server_tally later le,
      length-trim_sorted later (window_of key (evict key later s.keys)) (keys key).sorted,
      table.key_tally key later (omega arith),
    )

fresh-IsOrdered : (now : ℤ) → IsOrdered now fresh
unfolding window_of lookup
fresh-IsOrdered now = record { server = nil-IsPast now; keys = λ k. nil-IsPast now }

-- From a fresh budget, after requests in the order of their times, the next request is admitted
-- exactly when fewer than `per_server` requests and fewer than `per_key` requests of its key were
-- admitted in the minute that ends at it, and its key is tracked or has room in the table.
pub serve-admit :
    (b : Budget) (now : ℤ) (requests : List Request) (key : Bytes) (at : ℤ)
    → InOrder now requests
    → last_time now requests ≤ℤ at
    → (admit b key at (serve b fresh [] requests).0).0
      ≡ is_allowed b (serve b fresh [] requests).0 (serve b fresh [] requests).1 key at
serve-admit b now requests key at o le =
    let start = fresh-Tracks b now in
    admit_answer key at le (serve-Tracks now fresh [] requests o start)
      (serve-IsOrdered now fresh [] requests o start (fresh-IsOrdered now))
