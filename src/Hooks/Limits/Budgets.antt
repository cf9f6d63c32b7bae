-- ===== src/Hooks/Limits/Budgets.antt =====
-- The budgets over a run of requests (src/local/hooks/limits.rs).
use permanu_agent.Base.{
  suc, ◌≤◌, ◌<◌, ◌≡◌, refl, sym, ◌∙◌, Bool, false, inl, inr, List, [], ◌∷◌, ◌++◌, ℤ, ◌≤ℤ◌, leb,
  leb→lt, length, if◌then◌else◌, Bytes, arith, same, same_iff, same_self, Bool-cases, length-append,
}
use permanu_agent.Base.Map.{
  Map, lookup, insert, contains_key, lookup-insert, insert-IsMap, length-insert,
}
use permanu_agent.Hooks.Limits.{
  Budget, State, fresh, max_keys, trim, evict, is_full, count_in, admit,
}
use permanu_agent.Hooks.Limits.Window.{
  recent, recent-le-length, recent-append, recent-trim, length-trim,
}
use permanu_agent.Hooks.Limits.Invariant.{
  window_of, Request, tally, tally_key, IsKeyTable, IsServer, trim-IsServer, evict-IsKeyTable,
  evict_room, later-IsKeyTable,
}

insert-IsKeyTable :
    {b : Budget} {now : ℤ} {keys : Map (List ℤ)} {h h' : List Request} (key : Bytes)
    (window : List ℤ)
    → IsKeyTable b now keys h
    → (contains_key key keys ≡ false → suc (length keys) ≤ max_keys)
    → length window ≤ b.per_key
    → ((c : ℤ) → now ≤ℤ c → tally_key key c h' ≡ recent c window)
    → ((j : Bytes) (c : ℤ) → same key j ≡ false → tally_key j c h' ≡ tally_key j c h)
    → IsKeyTable b now (insert key window keys) h'
unfolding window_of
insert-IsKeyTable {keys = keys} key window v room fits own others = record {
  is_map = insert-IsMap key window keys v.is_map;
  size = ground (arith, length-insert key window keys, v.size);
  key_length = λ j. rw (lookup-insert key j window keys) (ground (arith, v.key_length j));
  key_tally = λ j c le. rw (lookup-insert key j window keys) (elim (Bool-cases (same key j)) [
    | inl e ↦ rw e (rw (← (same_iff key j).0 e) (own c le))
    | inr e ↦ rw e (others j c e ∙ v.key_tally j c le)
  ]);
}

-- The history after a request, by the answer to it.
abbrev pub recorded : Bool → Bytes → ℤ → List Request → List Request
recorded admitted key now h = if admitted then (key, now) ∷ h else h

pub record Tracks (b : Budget) (now : ℤ) (s : State) (h : List Request) : Type 0 where
  pub key_table : IsKeyTable b now s.keys h
  pub server_window : IsServer b now s.server h

module _ {b : Budget} {now : ℤ} {keys : Map (List ℤ)} {server : List ℤ} {h : List Request}
    (key : Bytes) (v : IsKeyTable b now keys h) (w : IsServer b now server h)
    (room : contains_key key keys ≡ false → suc (length keys) ≤ max_keys) where
  abbrev window : List ℤ
  window = trim (window_of key keys) now

  refused_IsKeyTable : IsKeyTable b now (insert key window keys) h
  refused_IsKeyTable =
      insert-IsKeyTable key window v room
        (omega (arith, length-trim now (window_of key keys), v.key_length key))
        (λ c le. v.key_tally key c le ∙ sym (recent-trim c now (window_of key keys) le))
        (λ j c e. refl)

  admitted_IsKeyTable :
      length window < b.per_key
      → IsKeyTable b now (insert key (window ++ now ∷ []) keys) ((key, now) ∷ h)
  unfolding tally_key
  admitted_IsKeyTable less =
      insert-IsKeyTable key (window ++ now ∷ []) v room
        (omega (arith, length-append window (now ∷ [])))
        (λ c le. ground (
          arith,
          v.key_tally key c le,
          recent-trim c now (window_of key keys) le,
          recent-append c now window,
          same_self key,
        ))
        (λ j c e. ground arith)

  admitted_IsServer :
      length server < b.per_server → IsServer b now (server ++ now ∷ []) ((key, now) ∷ h)
  unfolding tally
  admitted_IsServer less = record {
    server_length = omega (arith, length-append server (now ∷ []));
    server_tally = λ c le. omega (arith, w.server_tally c le, recent-append c now server);
  }

  count_in-Tracks :
      length server < b.per_server
      → Tracks b now
          (count_in b key now (record { keys = keys; server = server })).1
          (recorded (count_in b key now (record { keys = keys; server = server })).0 key now h)
  unfolding count_in window_of
  count_in-Tracks less = elim (Bool-cases (leb b.per_key (length window))) [
    | inl e ↦ rw e (record { key_table = refused_IsKeyTable; server_window = w })
    | inr e ↦ rw e (record {
      key_table = admitted_IsKeyTable (leb→lt _ _ e);
      server_window = admitted_IsServer less;
    })
  ]

-- Every request, admitted or refused on whichever branch, leaves a table that knows the history.
pub admit-Tracks :
    {b : Budget} {now : ℤ} {s : State} {h : List Request} (key : Bytes) (later : ℤ)
    → now ≤ℤ later
    → Tracks b now s h
    → Tracks b later (admit b key later s).1 (recorded (admit b key later s).0 key later h)
unfolding admit
admit-Tracks {b} {now} {s} {h} key later le t =
    elim (Bool-cases (leb b.per_server (length (trim s.server later)))) [
      | inl e ↦ rw e (record { key_table = later_table; server_window = server })
      | inr e ↦ rw e (elim (Bool-cases (is_full key s.keys (evict key later s.keys))) [
        | inl f ↦ rw f (record { key_table = table; server_window = server })
        | inr f ↦
            rw f (count_in-Tracks key table server (evict_room key later s.keys f) (leb→lt _ _ e))
      ])
    ]
  where
    server : IsServer b later (trim s.server later) h
    server = trim-IsServer later le t.server_window

    table : IsKeyTable b later (evict key later s.keys) h
    table = evict-IsKeyTable key later le t.key_table

    later_table : IsKeyTable b later s.keys h
    later_table = later-IsKeyTable later le t.key_table

-- A run over requests in the order of their times, and what it admitted.
unfoldable pub serve : Budget → State → List Request → List Request → State × List Request
serve b s h [] = (s, h)
serve b s h ((key, now) ∷ requests) =
    let (admitted, s') = admit b key now s in serve b s' (recorded admitted key now h) requests

abbrev pub last_time : ℤ → List Request → ℤ
last_time now [] = now
last_time now ((key, at) ∷ requests) = last_time at requests

abbrev pub InOrder : ℤ → List Request → Type 0
InOrder now [] = Unit
InOrder now ((key, at) ∷ requests) = (now ≤ℤ at) × InOrder at requests

pub serve-Tracks :
    {b : Budget} (now : ℤ) (s : State) (h requests : List Request)
    → InOrder now requests
    → Tracks b now s h
    → Tracks b (last_time now requests) (serve b s h requests).0 (serve b s h requests).1
unfolding serve
serve-Tracks now s h [] o t = t
serve-Tracks {b} now s h ((key, at) ∷ requests) o t =
    serve-Tracks at (admit b key at s).1 (recorded (admit b key at s).0 key at h) requests o.1
      (admit-Tracks key at o.0 t)

pub fresh-Tracks : (b : Budget) (now : ℤ) → Tracks b now fresh []
unfolding window_of lookup tally tally_key recent
fresh-Tracks b now = record {
  key_table = record {
    is_map = tt;
    size = omega arith;
    key_length = λ k. omega arith;
    key_tally = λ k c le. refl;
  };
  server_window = record { server_length = omega arith; server_tally = λ c le. refl };
}

-- From a fresh budget, after requests in the order of their times, the minute that ends at the
-- last one has at most `per_server` admitted requests, and at most `per_key` of any one key. The
-- table tracks at most `max_keys` keys.
pub serve-within :
    (b : Budget) (now : ℤ) (requests : List Request)
    → InOrder now requests
    → (tally (last_time now requests) (serve b fresh [] requests).1 ≤ b.per_server)
      × ((k : Bytes)
          → tally_key k (last_time now requests) (serve b fresh [] requests).1 ≤ b.per_key)
      × (length (serve b fresh [] requests).0.keys ≤ max_keys)
serve-within b now requests o =
    let t = serve-Tracks now fresh [] requests o (fresh-Tracks b now) in
    let last = last_time now requests in
    let final = (serve b fresh [] requests).0 in
    (
      omega (
        arith,
        t.server_window.server_tally last (omega arith),
        t.server_window.server_length,
        recent-le-length last final.server,
      ),
      λ k. omega (
        arith,
        t.key_table.key_tally k last (omega arith),
        t.key_table.key_length k,
        recent-le-length last (window_of k final.keys),
      ),
      t.key_table.size,
    )
