-- ===== src/Spool.antt =====
-- The disk spool (src/spool.rs): a queue of records in segment files. The files are an explicit map
-- from paths to contents, in which a missing file is the only failure. A call returns its result
-- with the files and the state that it leaves, after an error too. A `u64` wraps around.
pub mod Reads
pub mod Records
pub mod Accounts
pub mod Queue
pub mod Batch
pub mod Names
pub mod Trim
pub mod Append
pub mod Load
pub mod Scans
pub mod Opened
pub mod Tests
use permanu_agent.Base.{
  ℕ, zero, suc, ◌+◌, ◌-◌, ◌*◌, ◌/◌, ◌%◌, ◌^◌, min, max, Bool, true, false, not, ◌&&◌, ◌||◌, List,
  [], ◌∷◌, ◌++◌, Option, none, some, leb, ltb, ◌==◌, if◌then◌else◌, length, take, drop, last?,
  is_nil, unwrap_or, Result, ok, err, Bytes, codes,
}
use permanu_agent.Base.Map.{Map, lookup, insert, remove}
use permanu_agent.SignedPlan.Text.Time.{padded}

abbrev pub record_header_bytes : ℕ
record_header_bytes = 8

pub record SpoolConfig : Type 0 where
  pub dir : Bytes
  pub max_bytes : ℕ
  pub max_segment_bytes : ℕ

pub record Segment : Type 0 where
  pub sequence : ℕ
  pub path : Bytes
  pub bytes : ℕ
  pub records : ℕ

pub record SpoolState : Type 0 where
  pub segments : List Segment
  pub bytes : ℕ
  pub records : ℕ
  pub next_sequence : ℕ
  pub dropped_records : ℕ
  pub dropped_bytes : ℕ

pub data IoError : Type 0 where
  invalid_input not_found unexpected_eof invalid_data other : IoError

abbrev pub Files : Type 0
Files = Map Bytes

pub record Spool : Type 0 where
  pub files : Files
  pub state : SpoolState

abbrev pub Outcome : Type 0 → Type 0
Outcome A = Result IoError A × Spool

-- `+=`, `-=` and `saturating_add(1)` on a `u64`.
abbrev pub add_u64 : ℕ → ℕ → ℕ
add_u64 a b = (a + b) % 2 ^ 64

abbrev pub sub_u64 : ℕ → ℕ → ℕ
sub_u64 a b = (a + 2 ^ 64 - b) % 2 ^ 64

abbrev pub next_u64 : ℕ → ℕ
next_u64 a = min (a + 1) (2 ^ 64 - 1)

-- `checked_len_u64` cannot fail: a `usize` has 64 bits.
abbrev pub record_disk_bytes : Bytes → Result IoError ℕ
record_disk_bytes payload =
    let n = length payload + record_header_bytes in
    if ltb n (2 ^ 64) then ok n else err invalid_input

-- `to_be_bytes` and `from_be_bytes` of a `u64`.
abbrev pub to_be_bytes : ℕ → Bytes
to_be_bytes n =
    (n / 2 ^ 56) % 256
    ∷ (n / 2 ^ 48) % 256
    ∷ (n / 2 ^ 40) % 256
    ∷ (n / 2 ^ 32) % 256
    ∷ (n / 2 ^ 24) % 256
    ∷ (n / 2 ^ 16) % 256
    ∷ (n / 2 ^ 8) % 256
    ∷ n % 256
    ∷ []

abbrev pub from_be_bytes : ℕ → Bytes → ℕ
from_be_bytes acc [] = acc
from_be_bytes acc (b ∷ bs) = from_be_bytes (acc * 256 + b) bs

abbrev pub encode_record : Bytes → Bytes
encode_record payload = to_be_bytes (length payload) ++ payload

-- The records that are written one after another.
abbrev pub encode_records : List Bytes → Bytes
encode_records [] = []
encode_records (p ∷ ps) = encode_record p ++ encode_records ps

abbrev pub records_bytes : List Bytes → ℕ
records_bytes [] = 0
records_bytes (p ∷ ps) = length p + record_header_bytes + records_bytes ps

-- A record in front of the others, if they can be read.
abbrev pub cons_ok : Bytes → Result IoError (List Bytes) → Result IoError (List Bytes)
cons_ok p (ok ps) = ok (p ∷ ps)
cons_ok p (err e) = err e

-- `read_segment_payloads`, on fuel: a record takes at least the bytes of its header, so the length
-- of the content is enough.
unfoldable pub read_payloads : ℕ → Bytes → Result IoError (List Bytes)
read_payloads zero content = ok []
read_payloads (suc fuel) content =
    let len = from_be_bytes 0 (take 8 content) in
    let body = drop 8 content in
    let rest = read_payloads fuel (drop len body) in
    if ltb (length content) 8
    then ok []
    else if ltb (length body) len
    then err unexpected_eof
    else cons_ok (take len body) rest

abbrev pub read_segment_payloads : Bytes → Files → Result IoError (List Bytes)
read_segment_payloads path files = elim (lookup path files) [
  | none ↦ err not_found
  | some content ↦ read_payloads (length content) content
]

-- `dir.join(format!("segment-{sequence:020}.spool"))`.
abbrev pub segment_path : Bytes → ℕ → Bytes
segment_path dir sequence = dir ++ (codes "/segment-" ++ (padded 20 sequence ++ codes ".spool"))

-- The removal of the oldest segments; they are what is left to look at.
unfoldable pub enforce_budget : ℕ → Files → SpoolState → List Segment → Outcome Unit
enforce_budget limit files st [] =
    (ok tt, record { files = files; state = record st { segments = [] } })
enforce_budget limit files st (s ∷ ss) = elim (leb st.bytes limit) [
  | true ↦ (ok tt, record { files = files; state = record st { segments = s ∷ ss } })
  | false ↦ elim (lookup s.path files) [
    | none ↦ (err not_found, record { files = files; state = record st { segments = s ∷ ss } })
    | some content ↦
        enforce_budget limit (remove s.path files)
          (record st {
            bytes = sub_u64 st.bytes s.bytes;
            records = sub_u64 st.records s.records;
            dropped_bytes = add_u64 st.dropped_bytes s.bytes;
            dropped_records = add_u64 st.dropped_records s.records;
          })
          ss
  ]
]

-- The last segment, with what it becomes.
abbrev pub change_last : (Segment → Segment) → List Segment → List Segment
change_last f [] = []
change_last f (s ∷ []) = f s ∷ []
change_last f (s ∷ t ∷ ss) = s ∷ change_last f (t ∷ ss)

abbrev pub fits : SpoolConfig → ℕ → Segment → Bool
fits config record_bytes s =
    leb (add_u64 s.bytes record_bytes) (max config.max_segment_bytes record_bytes)

-- `writable_segment_index`: the index is that of the last segment, after the call.
unfoldable pub with_writable_segment : SpoolConfig → ℕ → Spool → Spool
unfolding insert padded
with_writable_segment config record_bytes w =
    let fresh = segment_path config.dir w.state.next_sequence in
    let added : Spool = record {
      files = insert fresh [] w.files;
      state = record w.state {
        next_sequence = next_u64 w.state.next_sequence;
        segments =
            w.state.segments
            ++ (record { sequence = w.state.next_sequence; path = fresh; bytes = 0; records = 0 }
                ∷ []);
      };
    } in
    elim (last? w.state.segments) [
      | none ↦ added
      | some s ↦ if fits config record_bytes s then w else added
    ]

-- `append_record`: the file is made if it is missing.
abbrev pub append_record : Bytes → Bytes → Files → Files
append_record path payload files =
    insert path (unwrap_or [] (lookup path files) ++ encode_record payload) files

abbrev pub last_path : List Segment → Bytes
last_path segments = elim (last? segments) [ none ↦ [] | some s ↦ s.path ]

-- The record in the last segment, and in the counts.
unfoldable pub count_record : ℕ → SpoolState → SpoolState
count_record record_bytes st = record st {
  segments =
      change_last
        (λ s. record s { bytes = add_u64 s.bytes record_bytes; records = add_u64 s.records 1 })
        st.segments;
  bytes = add_u64 st.bytes record_bytes;
  records = add_u64 st.records 1;
}

unfoldable pub append_bytes : SpoolConfig → Bytes → Spool → Outcome Unit
unfolding enforce_budget with_writable_segment count_record insert lookup
append_bytes config payload w = elim (record_disk_bytes payload) [
  | err e ↦ (err e, w)
  | ok record_bytes ↦ elim (ltb config.max_bytes record_bytes) [
    | true ↦ (err invalid_input, w)
    | false ↦
        let at = with_writable_segment config record_bytes w in
        let files = append_record (last_path at.state.segments) payload at.files in
        let counted = count_record record_bytes at.state in
        enforce_budget config.max_bytes files counted counted.segments
  ]
]
