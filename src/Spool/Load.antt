-- ===== src/Spool/Load.antt =====
-- Opening a spool (src/spool.rs): `open`, `load_state` and `scan_segment`. What the directory lists
-- is a parameter: the names with whether each is a regular file, or none when it cannot be read.
use permanu_agent.Base.Map.{lookup}
use permanu_agent.Base.{
  all, drop, is_nil, and_then, ltb, digits_value, ◌==◌, strip_suffix, last?, take, length, leb,
  ok_or, is_digit, strip_prefix, if◌then◌else◌, ℕ, zero, suc, ◌+◌, ◌^◌, Bool, not, ◌||◌, List, [],
  ◌∷◌, ◌++◌, Option, none, some, Bytes, codes, Result, ok, err, ◌>>=◌, ◌>>◌,
}
use permanu_agent.Spool.{
  next_u64, record_header_bytes, Spool, SpoolConfig, add_u64, Files, SpoolState, Segment,
  enforce_budget, from_be_bytes, IoError, invalid_input, not_found, invalid_data, other,
}

abbrev pub checked_add : ℕ → ℕ → Result IoError ℕ
checked_add a b = if ltb (a + b) (2 ^ 64) then ok (a + b) else err invalid_data

-- The loop of `scan_segment`, on fuel: a record takes at least its header, so the length of the
-- content is enough. `io::copy` of a `take` stops at the end of the file without an error.
unfoldable pub scan_records : ℕ → Bytes → ℕ → ℕ → Result IoError (ℕ × ℕ)
scan_records zero content bytes records = ok (bytes, records)
scan_records (suc fuel) content bytes records =
    let len = from_be_bytes 0 (take 8 content) in
    let next = checked_add bytes (add_u64 record_header_bytes len) >>= λ bytes'.
    (checked_add records 1 >>= λ records'.
    scan_records fuel (drop len (drop 8 content)) bytes' records') in
    if ltb (length content) 8 then ok (bytes, records) else next

unfoldable pub scan_segment : Bytes → Files → Result IoError (ℕ × ℕ)
unfolding lookup scan_records
scan_segment path files = elim (lookup path files) [
  | none ↦ err not_found
  | some content ↦ scan_records (length content) content 0 0
]

-- `str::parse` to a `u64`: digits after at most one plus sign.
abbrev pub without_plus : Bytes → Bytes
without_plus [] = []
without_plus (c ∷ cs) = if c == b'+' then cs else c ∷ cs

unfoldable pub parse_u64 : Bytes → Option ℕ
unfolding is_digit
parse_u64 text =
    let digits = without_plus text in
    let n = digits_value 0 digits in
    if is_nil digits || not (all is_digit digits) || not (ltb n (2 ^ 64)) then none else some n

unfoldable pub parse_segment_sequence : Bytes → Option ℕ
unfolding strip_prefix strip_suffix parse_u64
parse_segment_sequence name =
    and_then (strip_prefix (codes "segment-") name)
      (λ rest. and_then (strip_suffix (codes ".spool") rest) parse_u64)

-- `entry.path()`.
abbrev pub entry_path : Bytes → Bytes → Bytes
entry_path dir name = dir ++ (b'/' ∷ name)

-- The loop over the entries.
unfoldable pub scan_entries : Bytes → Files → List (Bytes × Bool) → Result IoError (List Segment)
unfolding parse_segment_sequence scan_segment
scan_entries dir files [] = ok []
scan_entries dir files ((name, is_file) ∷ entries) =
    let rest = scan_entries dir files entries in
    if not is_file then rest else elim (parse_segment_sequence name) [
      | none ↦ rest
      | some sequence ↦ do
        let path = entry_path dir name
        (bytes, records) ← scan_segment path files
        segments ← rest
        ok (
            record { sequence = sequence; path = path; bytes = bytes; records = records }
            ∷ segments)
    ]

-- `sort_by_key`, which is stable.
unfoldable pub insert_segment : Segment → List Segment → List Segment
insert_segment s [] = s ∷ []
insert_segment s (t ∷ ss) =
    let rest = insert_segment s ss in if leb s.sequence t.sequence then s ∷ t ∷ ss else t ∷ rest

unfoldable pub sort_segments : List Segment → List Segment
unfolding insert_segment
sort_segments [] = []
sort_segments (s ∷ ss) = insert_segment s (sort_segments ss)

abbrev pub total_bytes : List Segment → ℕ
total_bytes [] = 0
total_bytes (s ∷ ss) = add_u64 s.bytes (total_bytes ss)

abbrev pub total_records : List Segment → ℕ
total_records [] = 0
total_records (s ∷ ss) = add_u64 s.records (total_records ss)

abbrev pub state_of : List Segment → SpoolState
state_of segments = record {
  segments = segments;
  bytes = total_bytes segments;
  records = total_records segments;
  next_sequence = elim (last? segments) [ none ↦ 0 | some s ↦ next_u64 s.sequence ];
  dropped_records = 0;
  dropped_bytes = 0;
}

unfoldable pub load_state : Bytes → Files → Option (List (Bytes × Bool)) → Result IoError SpoolState
unfolding scan_entries sort_segments
load_state dir files listing = do
  entries ← ok_or other listing
  segments ← scan_entries dir files entries
  ok (state_of (sort_segments segments))

-- `created` is whether `create_dir_all` succeeds.
unfoldable pub open_spool :
    SpoolConfig → Bool → Option (List (Bytes × Bool)) → Files → Result IoError Spool
unfolding load_state enforce_budget
open_spool config created listing files =
    if config.max_bytes == 0 then err invalid_input else if not created then err other else do
      state ← load_state config.dir files listing
      let outcome = enforce_budget config.max_bytes files state state.segments
      outcome.0
      ok outcome.1

pub record SpoolCounters : Type 0 where
  pub bytes : ℕ
  pub records : ℕ
  pub segments : ℕ
  pub dropped_records : ℕ
  pub dropped_bytes : ℕ

-- A poisoned lock is read all the same.
unfoldable pub counters : SpoolState → SpoolCounters
counters st = record {
  bytes = st.bytes;
  records = st.records;
  segments = length st.segments;
  dropped_records = st.dropped_records;
  dropped_bytes = st.dropped_bytes;
}
