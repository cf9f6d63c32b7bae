-- ===== src/Spool/Tests.antt =====
-- A spool with two records, and the theorems at it.
use permanu_agent.Spool.Trim.{IsTrimmed}
use permanu_agent.Spool.Scans.{scan-read_segment_payloads}
use permanu_agent.Spool.Opened.{load_state-IsLoadedState, IsLoadedState}
use permanu_agent.Spool.Load.{load_state, scan_segment}
use permanu_agent.Base.{
  false, true, Bool, Option, ◌≡◌, refl, List, [], ◌∷◌, some, drop, ok, Bytes, codes, same_self,
  arith,
}
use permanu_agent.Base.Map.{lookup}
use permanu_agent.Spool.{
  segment_path, SpoolConfig, Segment, Spool, encode_records, read_segment_payloads, append_bytes,
}
use permanu_agent.Spool.Reads.{read_batch, ack}
use permanu_agent.SignedPlan.Text.Time.{padded}
use permanu_agent.Spool.Records.{read-encode_records}
use permanu_agent.Spool.Accounts.{IsAccounted, IsKept, append_bytes-IsKept}
use permanu_agent.Spool.Queue.{IsQueue, no_segments, a_segment, IsAcked, ack-IsAcked}
use permanu_agent.Spool.Names.{AreNamed}
use permanu_agent.Spool.Append.{IsGrown, append_bytes-IsTrimmed}
use permanu_agent.Spool.Batch.{IsBatch, read_batch-IsBatch}

abbrev small : SpoolConfig
small = record { dir = codes "/var/spool"; max_bytes = 64; max_segment_bytes = 32 }

abbrev payloads : List Bytes
payloads = codes "first" ∷ codes "second" ∷ []

abbrev only_path : Bytes
only_path = segment_path (codes "/var/spool") 0

abbrev only_segment : Segment
only_segment = record { sequence = 0; path = only_path; bytes = 27; records = 2 }

abbrev two_records : Spool
two_records = record {
  files = (only_path, encode_records payloads) ∷ [];
  state = record {
    segments = only_segment ∷ [];
    bytes = 27;
    records = 2;
    next_sequence = 1;
    dropped_records = 0;
    dropped_bytes = 0;
  };
}

two_records-IsAccounted : IsAccounted two_records.state
two_records-IsAccounted = record {
  bytes_sum = refl;
  records_sum = refl;
  bytes_bound = omega arith;
  records_bound = omega arith;
}

written : lookup only_path two_records.files ≡ some (encode_records payloads)
unfolding lookup
written = rw (same_self only_path) refl

two_records-IsQueue : IsQueue two_records.files two_records.state.segments payloads
two_records-IsQueue =
    a_segment payloads [] written (omega arith, (omega arith, tt)) refl refl tt refl no_segments

read-encode_records_example : read_segment_payloads only_path two_records.files ≡ ok payloads
read-encode_records_example =
    read-encode_records only_path two_records.files payloads (omega arith, (omega arith, tt))
      written

append_bytes-IsKept_example : IsKept 64 (append_bytes small (codes "third") two_records)
append_bytes-IsKept_example =
    append_bytes-IsKept small (codes "third") two_records (omega arith) (omega arith) (omega arith)
      two_records-IsAccounted

read_batch-IsBatch_example : IsBatch 1 [] payloads (read_batch 1 100 two_records)
read_batch-IsBatch_example =
    read_batch-IsBatch 1 100 two_records payloads two_records-IsQueue (omega arith)

ack-IsAcked_example : IsAcked (drop 1 payloads) (ack 1 two_records)
ack-IsAcked_example = ack-IsAcked 1 two_records payloads two_records-IsQueue refl (omega arith)

two_records-AreNamed : AreNamed small.dir 1 two_records.state.segments
two_records-AreNamed = ((refl, omega arith), tt)

append_bytes-IsTrimmed_example :
    (grown : List Segment) × IsGrown (codes "/var/spool") 13 two_records.state grown
    × IsTrimmed 64
        (codes "/var/spool")
        grown
        (codes "first" ∷ codes "second" ∷ codes "third" ∷ [])
        (append_bytes small (codes "third") two_records)
append_bytes-IsTrimmed_example =
    append_bytes-IsTrimmed small (codes "third") two_records payloads (omega arith) (omega arith)
      (omega arith) (omega arith) (omega arith) two_records-IsAccounted two_records-IsQueue
      two_records-AreNamed

scan-read_segment_payloads_example : scan_segment only_path two_records.files ≡ ok (27, 2)
scan-read_segment_payloads_example =
    scan-read_segment_payloads only_path two_records.files payloads read-encode_records_example
      (omega arith)

abbrev listing : Option (List (Bytes × Bool))
listing = some (
    (codes "notes.txt", true)
    ∷ (codes "segment-00000000000000000000.spool", true)
    ∷ (codes "segment-00000000000000000001.spool", false)
    ∷ [])

reloads : load_state (codes "/var/spool") two_records.files listing ≡ ok two_records.state
unfolding load_state padded
reloads = refl

load_state-IsLoadedState_example :
    IsLoadedState (codes "/var/spool") two_records.files listing two_records.state
load_state-IsLoadedState_example =
    load_state-IsLoadedState (codes "/var/spool") two_records.files listing two_records.state
      reloads
