-- ===== src/SignedPlan/Schema/Paths.antt =====
-- Where the paths of a build recipe (src/signed_plan/schema/spec_build.rs) and the prefix of a
-- backup destination (src/signed_plan/schema/actions_m2.rs) lead.
use permanu_agent.Base.{
  ◌≡◌, refl, ◌⊎◌, inl, inr, true, false, ◌||◌, List, [], ◌∷◌, Option, none, some, if◌then◌else◌,
  all, is_nil, arith, Bytes, codes, same, split, and_elim,
}
use permanu_agent.SignedPlan.Schema.Grammars.{path_segment, prefix}
use permanu_agent.SignedPlan.Schema.Build.{relative_path}

-- Where one segment leads, from the directories below the start, last first: an empty segment and
-- `.` stay, `..` goes up, and `none` is above the start.
unfoldable pub enter : List Bytes → Bytes → Option (List Bytes)
unfolding same
enter below part =
    if is_nil part || same part (codes ".")
    then some below
    else if same part (codes "..")
    then elim below [ [] ↦ none | dir ∷ dirs ↦ some dirs ]
    else some (part ∷ below)

abbrev pub walk : List Bytes → List Bytes → Option (List Bytes)
walk below [] = some below
walk below (part ∷ parts) = elim (enter below part) [ none ↦ none | some next ↦ walk next parts ]

-- The segments, onto what stands below.
abbrev pub onto : List Bytes → List Bytes → List Bytes
onto below [] = below
onto below (part ∷ parts) = onto (part ∷ below) parts

enter-segment :
    (below : List Bytes) (part : Bytes)
    → path_segment part ≡ true
    → enter below part ≡ some (part ∷ below)
unfolding enter path_segment
enter-segment below [] h = absurd (ground arith)
enter-segment below (c ∷ part) h = ground arith

walk-segments :
    (below parts : List Bytes)
    → all path_segment parts ≡ true
    → walk below parts ≡ some (onto below parts)
walk-segments below [] h = refl
walk-segments below (part ∷ parts) h =
    let (first, rest) = and_elim (path_segment part) (all path_segment parts) h in
    rw (enter-segment below part first, walk) (walk-segments (part ∷ below) parts rest)

-- From any directory, each segment of a relative path or of a non-empty prefix that is accepted
-- enters the directory of its name: the walk never stays or goes up.
pub walk-path :
    (v : Bytes) (below : List Bytes)
    → (relative_path v ≡ true) ⊎ ((prefix v ≡ true) × (is_nil v ≡ false))
    → walk below (split b'/' v) ≡ some (onto below (split b'/' v))
unfolding relative_path prefix
walk-path v below (inl h) = walk-segments below (split b'/' v) (ground arith)
walk-path v below (inr (h, f)) = walk-segments below (split b'/' v) (ground arith)
