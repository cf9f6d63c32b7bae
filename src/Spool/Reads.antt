-- ===== src/Spool/Reads.antt =====
-- Reading a batch from the spool and acknowledging it (src/spool.rs).
use permanu_agent.Base.{
  ℕ, ◌-◌, Bool, true, false, not, ◌&&◌, ◌||◌, List, [], ◌∷◌, ◌++◌, leb, ltb, ◌==◌, if◌then◌else◌,
  length, drop, is_nil, Result, ok, err, Bytes,
}
use permanu_agent.Base.Map.{lookup, insert, remove}
use permanu_agent.Spool.{
  Segment, SpoolState, IoError, invalid_input, Files, Spool, Outcome, add_u64, sub_u64,
  encode_records, records_bytes, read_payloads, read_segment_payloads,
}

-- The loop over the payloads of a segment: whether the batch is returned, the records of the batch
-- and the bytes of their payloads.
unfoldable pub take_payloads : ℕ → ℕ → List Bytes → ℕ → List Bytes → Bool × List Bytes × ℕ
take_payloads max_records max_payload_bytes records payload_bytes [] =
    (false, records, payload_bytes)
take_payloads max_records max_payload_bytes records payload_bytes (p ∷ ps) =
    let total = add_u64 payload_bytes (length p) in
    let grown = records ++ (p ∷ []) in
    let rest = take_payloads max_records max_payload_bytes grown total ps in
    if not (is_nil records) && (leb max_records (length records) || ltb max_payload_bytes total)
    then (true, records, payload_bytes)
    else if leb max_records (length grown)
    then (true, grown, total)
    else rest

unfoldable pub read_segments :
    ℕ → ℕ → List Bytes → ℕ → List Segment → Files → Result IoError (List Bytes)
unfolding read_payloads lookup take_payloads
read_segments max_records max_payload_bytes records payload_bytes [] files = ok records
read_segments max_records max_payload_bytes records payload_bytes (s ∷ ss) files =
    elim (read_segment_payloads s.path files) [
      | err e ↦ err e
      | ok ps ↦
          let (is_full, batch, total) =
            take_payloads max_records max_payload_bytes records payload_bytes ps in
          elim is_full [
            | true ↦ ok batch
            | false ↦ read_segments max_records max_payload_bytes batch total ss files
          ]
    ]

-- The records of the batch; its `ack` is their number.
unfoldable pub read_batch : ℕ → ℕ → Spool → Result IoError (List Bytes)
unfolding read_segments
read_batch max_records max_payload_bytes w =
    if max_records == 0
    then ok []
    else read_segments max_records max_payload_bytes [] 0 w.state.segments w.files

-- The rest of a segment, whose file is written again without its first `count` records.
unfoldable pub ack_part : ℕ → Files → SpoolState → Segment → List Segment → Outcome Unit
unfolding read_payloads lookup insert
ack_part count files st s ss = elim (read_segment_payloads s.path files) [
  | err e ↦ (err e, record { files = files; state = record st { segments = s ∷ ss } })
  | ok payloads ↦
      let left = drop count payloads in
      let bytes = records_bytes left in
      (
        ok tt,
        record {
          files = insert s.path (encode_records left) files;
          state = record st {
            bytes = sub_u64 st.bytes (sub_u64 s.bytes bytes);
            records = sub_u64 st.records count;
            segments = record s { bytes = bytes; records = length left } ∷ ss;
          };
        },
      )
]

-- `while records_to_ack > 0`; a file that is missing is as good as removed.
unfoldable pub ack_segments : ℕ → Files → SpoolState → List Segment → Outcome Unit
unfolding remove ack_part
ack_segments count files st [] =
    (ok tt, record { files = files; state = record st { segments = [] } })
ack_segments count files st (s ∷ ss) = elim (count == 0) [
  | true ↦ (ok tt, record { files = files; state = record st { segments = s ∷ ss } })
  | false ↦ elim (leb s.records count) [
    | false ↦ ack_part count files st s ss
    | true ↦
        ack_segments (count - s.records) (remove s.path files)
          (record st { bytes = sub_u64 st.bytes s.bytes; records = sub_u64 st.records s.records })
          ss
  ]
]

unfoldable pub ack : ℕ → Spool → Outcome Unit
unfolding ack_segments
ack count w =
    if count == 0
    then (ok tt, w)
    else if ltb w.state.records count
    then (err invalid_input, w)
    else ack_segments count w.files w.state w.state.segments
