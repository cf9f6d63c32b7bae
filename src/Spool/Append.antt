-- ===== src/Spool/Append.antt =====
-- What an append does to the queue (src/spool.rs).
use permanu_agent.Spool.Trim.{
  records_bytes-append, AreSized-append, append_nil, enforce_budget-IsTrimmed,
  encode_records-append, IsTrimmed, same_flip,
}
use mathlib.Core.Option.{some-injective}
use mathlib.Core.List.{append_assoc}
use permanu_agent.Base.{
  subst, ◌⊎◌, ℕ, ◌+◌, ◌-◌, ◌^◌, ◌≤◌, ◌<◌, ◌≡◌, refl, sym, ap, ◌∙◌, true, false, List, [], ◌∷◌, ◌++◌,
  some, ltb, length, last?, unwrap_or, Bytes, same, same_self, arith, length-append, Bool-cases,
  Option-cases, inl, inr,
}
use permanu_agent.Base.Map.{lookup, insert, lookup-insert}
use permanu_agent.Spool.{
  SpoolState, SpoolConfig, Segment, Files, Spool, encode_record, encode_records, change_last,
  append_record, with_writable_segment, count_record, append_bytes, fits, last_path, segment_path,
  add_u64, next_u64,
}
use permanu_agent.Spool.Queue.{IsUnused, IsQueue, no_segments, a_segment}
use permanu_agent.Spool.Names.{AreNamed, AreNamed-IsUnused}
use permanu_agent.Spool.Accounts.{
  count_record-IsAccounted, IsAccounted, sum_bytes, sum_records, with_writable_segment-IsWritable,
}

IsUnused-last :
    (path : Bytes) (ss : List Segment) (l : Segment)
    → IsUnused path ss
    → last? ss ≡ some l
    → same path l.path ≡ false
IsUnused-last path [] l u e = absurd (ground arith)
IsUnused-last path (s ∷ []) l u e = ground arith
IsUnused-last path (s ∷ t ∷ ss) l (f, u) e = IsUnused-last path (t ∷ ss) l u e

-- The record counted in a segment.
abbrev pub counted : ℕ → Segment → Segment
counted n s = record s { bytes = add_u64 s.bytes n; records = add_u64 s.records 1 }

IsUnused-change_last :
    (n : ℕ) (path : Bytes) (ss : List Segment)
    → IsUnused path ss
    → IsUnused path (change_last (counted n) ss)
IsUnused-change_last n path [] u = tt
IsUnused-change_last n path (s ∷ []) u = u
IsUnused-change_last n path (s ∷ t ∷ ss) (f, u) = (f, IsUnused-change_last n path (t ∷ ss) u)

AreNamed-change_last :
    (n : ℕ) (dir : Bytes) (next : ℕ) (ss : List Segment)
    → AreNamed dir next ss
    → AreNamed dir next (change_last (counted n) ss)
AreNamed-change_last n dir next [] h = tt
AreNamed-change_last n dir next (s ∷ []) h = h
AreNamed-change_last n dir next (s ∷ t ∷ ss) (f, h) =
    (f, AreNamed-change_last n dir next (t ∷ ss) h)

append_record-IsQueue :
    (p : Bytes) (files : Files) (ss : List Segment) (l : Segment) (queue : List Bytes)
    → length p + 8 < 2 ^ 64
    → sum_bytes ss + (length p + 8) < 2 ^ 64
    → sum_records ss + 1 < 2 ^ 64
    → last? ss ≡ some l
    → IsQueue files ss queue
    → IsQueue
        (append_record l.path p files)
        (change_last (counted (length p + 8)) ss)
        (queue ++ (p ∷ []))
append_record-IsQueue p files [] l queue k x y e q = absurd (ground arith)
append_record-IsQueue p files (s ∷ []) l queue k x y e (a_segment ps qs c z r b d f (no_segments)) =
    let path_same : s.path ≡ l.path = ap (λ (t : Segment). t.path) (some-injective s l e) in
    let found : lookup l.path files ≡ some (encode_records ps) = rw (sym path_same) c in
    let content = encode_records ps ++ encode_record p in
    let more = ps ++ (p ∷ []) in
    let text : some content ≡ some (encode_records more) =
      ap some (sym (encode_records-append ps p)) in
    let written : lookup s.path (append_record l.path p files) ≡ some (encode_records more) =
      rw (found, path_same, lookup-insert l.path l.path content files, same_self l.path) text in
    let whole : queue ++ (p ∷ []) ≡ more ++ [] =
      ap (λ v. v ++ (p ∷ [])) (f ∙ append_nil ps) ∙ sym (append_nil more) in
    a_segment more [] written (AreSized-append ps p z (omega arith))
      (omega (arith, r, length-append ps (p ∷ []))) (omega (arith, b, records_bytes-append ps p)) tt
      whole no_segments
append_record-IsQueue p files (s ∷ t ∷ ss) l queue k x y e (a_segment ps qs c z r b d f q) =
    let other = same_flip s.path l.path (IsUnused-last s.path (t ∷ ss) l d e) in
    let content = unwrap_or [] (lookup l.path files) ++ encode_record p in
    let kept : lookup s.path (append_record l.path p files) ≡ some (encode_records ps) =
      rw (lookup-insert l.path s.path content files, other) c in
    a_segment ps (qs ++ (p ∷ [])) kept z r b (IsUnused-change_last (length p + 8) s.path (t ∷ ss) d)
      (ap (λ v. v ++ (p ∷ [])) f ∙ append_assoc ps qs (p ∷ []))
      (append_record-IsQueue p files (t ∷ ss) l qs k (omega arith) (omega arith) e q)

-- A new segment after the others, with an empty file.
fresh-IsQueue :
    (files : Files) (ss : List Segment) (t : Segment) (queue : List Bytes)
    → t.bytes ≡ 0
    → t.records ≡ 0
    → IsUnused t.path ss
    → IsQueue files ss queue
    → IsQueue (insert t.path [] files) (ss ++ (t ∷ [])) queue
fresh-IsQueue files [] t queue b r u (no_segments) =
    let made : lookup t.path (insert t.path [] files) ≡ some [] =
      rw (lookup-insert t.path t.path [] files, same_self t.path) refl in
    a_segment [] [] made tt r b tt refl no_segments
fresh-IsQueue files (s ∷ ss) t queue b r (f, u) (a_segment ps qs c z m n d e q) =
    let kept : lookup s.path (insert t.path [] files) ≡ some (encode_records ps) =
      rw (lookup-insert t.path s.path [] files, f) c in
    a_segment ps qs kept z m n (unused_append ss d (same_flip t.path s.path f)) e
      (fresh-IsQueue files ss t qs b r u q)
  where
    unused_append :
        (ss : List Segment)
        → IsUnused s.path ss
        → same s.path t.path ≡ false
        → IsUnused s.path (ss ++ (t ∷ []))
    unused_append [] h k = (k, tt)
    unused_append (x ∷ ss) (h, hs) k = (h, unused_append ss hs k)

AreNamed-fresh :
    (dir : Bytes) (next : ℕ) (ss : List Segment) (t : Segment)
    → next < 2 ^ 64 - 1
    → t.path ≡ segment_path dir next
    → t.sequence ≡ next
    → AreNamed dir next ss
    → AreNamed dir (next_u64 next) (ss ++ (t ∷ []))
AreNamed-fresh dir next [] t l p s h = ((p ∙ ap (segment_path dir) (sym s), omega (arith, s)), tt)
AreNamed-fresh dir next (x ∷ ss) t l p s ((path, less), h) =
    ((path, omega arith), AreNamed-fresh dir next ss t l p s h)

-- The segment that an append adds, before the record is written to it.
abbrev pub fresh_segment : Bytes → ℕ → Segment
fresh_segment dir next = record {
  sequence = next;
  path = segment_path dir next;
  bytes = 0;
  records = 0;
}

-- The queue before the record is written.
record IsOpen (dir : Bytes) (before : SpoolState) (queue : List Bytes) (w : Spool) : Type 0 where
  segments_are :
      (w.state.segments ≡ before.segments)
      ⊎ (w.state.segments ≡ before.segments ++ (fresh_segment dir before.next_sequence ∷ []))
  is_queue : IsQueue w.files w.state.segments queue
  are_named : AreNamed dir w.state.next_sequence w.state.segments

with_writable_segment-IsOpen :
    (config : SpoolConfig) (n : ℕ) (w : Spool) (queue : List Bytes)
    → w.state.next_sequence < 2 ^ 64 - 1
    → IsQueue w.files w.state.segments queue
    → AreNamed config.dir w.state.next_sequence w.state.segments
    → IsOpen config.dir w.state queue (with_writable_segment config n w)
unfolding with_writable_segment
with_writable_segment-IsOpen config n w queue l q m = elim (Option-cases (last? w.state.segments)) [
  | inl e ↦ rw (e, with_writable_segment) added
  | inr (s, e) ↦
      rw (e, with_writable_segment)
        (elim (Bool-cases (fits config n s)) [
          | inl f ↦ rw f (record { segments_are = inl refl; is_queue = q; are_named = m })
          | inr f ↦ rw f added
        ])
]
  where
    fresh : Segment
    fresh = record {
      sequence = w.state.next_sequence;
      path = segment_path config.dir w.state.next_sequence;
      bytes = 0;
      records = 0;
    }

    added : IsOpen config.dir w.state queue (record {
      files = insert (segment_path config.dir w.state.next_sequence) [] w.files;
      state = record w.state {
        next_sequence = next_u64 w.state.next_sequence;
        segments =
            w.state.segments
            ++ (record {
              sequence = w.state.next_sequence;
              path = segment_path config.dir w.state.next_sequence;
              bytes = 0;
              records = 0;
            }
                ∷ []);
      };
    })
    added = record {
      segments_are = inr refl;
      is_queue =
          fresh-IsQueue w.files w.state.segments fresh queue refl refl
            (AreNamed-IsUnused config.dir w.state.next_sequence w.state.segments m) q;
      are_named =
          AreNamed-fresh config.dir w.state.next_sequence w.state.segments fresh l refl refl m;
    }

-- The segments after a record of some bytes was written: the last one has it, or a new one.
pub data IsGrown (dir : Bytes) (size : ℕ) (before : SpoolState) : List Segment → Type 0 where
  in_last : IsGrown dir size before (change_last (counted size) before.segments)
  in_fresh :
      IsGrown dir size before
        (before.segments ++ (counted size (fresh_segment dir before.next_sequence) ∷ []))

change_last-append :
    (f : Segment → Segment) (ss : List Segment) (t : Segment)
    → change_last f (ss ++ (t ∷ [])) ≡ ss ++ (f t ∷ [])
change_last-append f [] t = refl
change_last-append f (s ∷ []) t = refl
change_last-append f (s ∷ u ∷ ss) t = ap (◌∷◌ s) (change_last-append f (u ∷ ss) t)

opened-IsGrown :
    (dir : Bytes) (size : ℕ) (before : SpoolState) (segments : List Segment)
    → (segments ≡ before.segments)
      ⊎ (segments ≡ before.segments ++ (fresh_segment dir before.next_sequence ∷ []))
    → IsGrown dir size before (change_last (counted size) segments)
opened-IsGrown dir size before segments (inl e) =
    subst (λ ss. IsGrown dir size before (change_last (counted size) ss)) (sym e) in_last
opened-IsGrown dir size before segments (inr e) =
    subst (λ ss. IsGrown dir size before (change_last (counted size) ss)) (sym e)
      (subst (IsGrown dir size before)
        (sym (
          change_last-append (counted size) before.segments
            (fresh_segment dir before.next_sequence)))
        in_fresh)

-- An append of a record that fits the budget, to a spool within its budget whose counts are the sums
-- over its segments, whose files and segments stand for a queue, and whose segments are named by
-- their numbers: the record is always taken. The call succeeds; the record is written to the last
-- segment or to a new one behind it, and then the oldest segments go, as long as the bytes are over
-- the budget and no longer. What is left stands for the queue with the payload at its end, less the
-- records of the segments that are gone, and its segments are named by their numbers. The budget is
-- below 2 ^ 63, and the count of records and the next number are below 2 ^ 64 - 1.
pub append_bytes-IsTrimmed :
    (config : SpoolConfig) (payload : Bytes) (w : Spool) (queue : List Bytes)
    → config.max_bytes < 2 ^ 63
    → length payload + 8 ≤ config.max_bytes
    → w.state.records + 1 < 2 ^ 64
    → w.state.next_sequence < 2 ^ 64 - 1
    → w.state.bytes ≤ config.max_bytes
    → IsAccounted w.state
    → IsQueue w.files w.state.segments queue
    → AreNamed config.dir w.state.next_sequence w.state.segments
    → (grown : List Segment) × IsGrown config.dir (length payload + 8) w.state grown
      × IsTrimmed config.max_bytes config.dir grown
          (queue ++ (payload ∷ []))
          (append_bytes config payload w)
unfolding append_bytes count_record
append_bytes-IsTrimmed config payload w queue m k c l b a q n =
    let size = length payload + 8 in
    let no_overflow : ltb size (2 ^ 64) ≡ true = ground arith in
    let fits_budget : ltb config.max_bytes size ≡ false = ground arith in
    let at = with_writable_segment config size w in
    let t = with_writable_segment-IsWritable config size w a in
    let o = with_writable_segment-IsOpen config size w queue l q n in
    let last_same : last_path at.state.segments ≡ t.last.path = rw (t.is_last, last_path) refl in
    let written =
      append_record-IsQueue payload at.files at.state.segments t.last queue (omega arith)
        (omega (arith, t.bytes_same, a.bytes_sum)) (omega (arith, t.records_same, a.records_sum))
        t.is_last o.is_queue in
    let accounts =
      count_record-IsAccounted size at.state t.last t.is_last t.accounted
        (omega (arith, t.bytes_same, a.bytes_sum)) (omega (arith, t.records_same, a.records_sum)) in
    (
      change_last (counted size) at.state.segments,
      opened-IsGrown config.dir size w.state at.state.segments o.segments_are,
      rw (no_overflow, fits_budget, append_bytes, last_same)
          (enforce_budget-IsTrimmed config.max_bytes config.dir
            (append_record t.last.path payload at.files) (count_record size at.state)
            (count_record size at.state).segments (queue ++ (payload ∷ [])) accounts written
            (AreNamed-change_last size config.dir at.state.next_sequence at.state.segments
              o.are_named)),
    )
