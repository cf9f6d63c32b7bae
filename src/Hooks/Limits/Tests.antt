-- ===== src/Hooks/Limits/Tests.antt =====
-- Runs of the budgets, and the theorems at concrete requests.
use permanu_agent.Base.{
  ◌≤◌, ◌≡◌, refl, true, List, [], ◌∷◌, ℤ, pos, Bytes, codes, length, arith, same,
}
use permanu_agent.Base.Map.{lookup, insert}
use permanu_agent.Hooks.Limits.{
  Budget, fresh, max_keys, is_stale, trim, evict, is_full, count_in, admit,
}
use permanu_agent.Hooks.Limits.Invariant.{Request, tally, tally_key}
use permanu_agent.Hooks.Limits.Budgets.{serve, last_time, serve-within}
use permanu_agent.Hooks.Limits.Exact.{is_allowed, serve-admit}

abbrev small : Budget
small = record { per_key = 2; per_server = 3 }

abbrev request : Bytes → ℤ → Request
request k at = (k, at)

abbrev pushes : List Request
pushes =
    request (codes "a") (pos 1000)
    ∷ request (codes "a") (pos 1010)
    ∷ request (codes "a") (pos 1030)
    ∷ request (codes "b") (pos 1031)
    ∷ []

-- The third request of "a" is over its budget, and is not counted.
pushes_admitted :
    (serve small fresh [] pushes).1
    ≡ request (codes "b") (pos 1031)
      ∷ request (codes "a") (pos 1010)
      ∷ request (codes "a") (pos 1000)
      ∷ []
unfolding serve admit evict is_full count_in trim is_stale lookup insert same
pushes_admitted = refl

-- A minute after the first request the window has slid.
window_slides : (admit small (codes "a") (pos 1060) (serve small fresh [] pushes).0).0 ≡ true
unfolding serve admit evict is_full count_in trim is_stale lookup insert same
window_slides = refl

serve-within_example :
    (tally (last_time (pos 0) pushes) (serve small fresh [] pushes).1 ≤ 3)
    × ((k : Bytes) → tally_key k (last_time (pos 0) pushes) (serve small fresh [] pushes).1 ≤ 2)
    × (length (serve small fresh [] pushes).0.keys ≤ max_keys)
serve-within_example = serve-within small (pos 0) pushes (omega arith)

serve-admit_example :
    (admit small (codes "a") (pos 1060) (serve small fresh [] pushes).0).0
    ≡ is_allowed small
        (serve small fresh [] pushes).0
        (serve small fresh [] pushes).1
        (codes "a")
        (pos 1060)
serve-admit_example =
    serve-admit small (pos 0) pushes (codes "a") (pos 1060) (omega arith) (omega arith)
