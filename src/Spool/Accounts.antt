-- ===== src/Spool/Accounts.antt =====
-- The counts of the spool and its budget (src/spool.rs).
use permanu_agent.Base.{
  ℕ, ◌+◌, ◌^◌, ◌≤◌, ◌<◌, ◌≡◌, refl, ap, ◌∙◌, List, [], ◌∷◌, ◌++◌, some, leb, ltb, last?, Result, ok,
  err, Bytes, arith, Bool-cases, Option-cases, inl, inr,
}
use permanu_agent.Base.Map.{lookup, remove}
use permanu_agent.Spool.{
  IoError, invalid_input, SpoolConfig, Segment, SpoolState, Files, Spool, Outcome, add_u64,
  enforce_budget, change_last, with_writable_segment, count_record, append_bytes, record_disk_bytes,
  fits,
}

abbrev pub sum_bytes : List Segment → ℕ
sum_bytes [] = 0
sum_bytes (s ∷ ss) = s.bytes + sum_bytes ss

abbrev pub sum_records : List Segment → ℕ
sum_records [] = 0
sum_records (s ∷ ss) = s.records + sum_records ss

-- The counts are the sums over the segments, and no sum wraps around.
pub record IsAccounted (st : SpoolState) : Type 0 where
  pub bytes_sum : st.bytes ≡ sum_bytes st.segments
  pub records_sum : st.records ≡ sum_records st.segments
  pub bytes_bound : sum_bytes st.segments < 2 ^ 64
  pub records_bound : sum_records st.segments < 2 ^ 64

-- What an outcome leaves: its counts, and the budget if it is no error.
pub record IsKept (limit : ℕ) (o : Outcome Unit) : Type 0 where
  pub accounted : IsAccounted o.1.state
  pub within_budget : o.0 ≡ ok tt → o.1.state.bytes ≤ limit

enforce_budget-IsKept :
    (limit : ℕ) (files : Files) (st : SpoolState) (ss : List Segment)
    → IsAccounted (record st { segments = ss })
    → IsKept limit (enforce_budget limit files st ss)
unfolding enforce_budget
enforce_budget-IsKept limit files st [] a = record {
  accounted = a;
  within_budget = λ h. omega (arith, a.bytes_sum);
}
enforce_budget-IsKept limit files st (s ∷ ss) a = elim (Bool-cases (leb st.bytes limit)) [
  | inl l ↦ rw (l, enforce_budget) (record { accounted = a; within_budget = λ h. ground arith })
  | inr l ↦
      rw (l, enforce_budget)
        (elim (Option-cases (lookup s.path files)) [
          | inl e ↦ rw e (record { accounted = a; within_budget = λ h. absurd (ground arith) })
          | inr (content, e) ↦ rw e (
              enforce_budget-IsKept limit (remove s.path files) _ ss (record {
                bytes_sum = omega (arith, a.bytes_sum, a.bytes_bound);
                records_sum = omega (arith, a.records_sum, a.records_bound);
                bytes_bound = omega (arith, a.bytes_bound);
                records_bound = omega (arith, a.records_bound);
              }))
        ])
]

-- The last segment with a record more.
sum_change_last :
    (n : ℕ) (ss : List Segment) (f : Segment → Segment) (s : Segment)
    → last? ss ≡ some s
    → sum_bytes ss + n < 2 ^ 64
    → sum_records ss + 1 < 2 ^ 64
    → ((t : Segment) → t.bytes + n < 2 ^ 64 → (f t).bytes ≡ t.bytes + n)
    → ((t : Segment) → t.records + 1 < 2 ^ 64 → (f t).records ≡ t.records + 1)
    → (sum_bytes (change_last f ss) ≡ sum_bytes ss + n)
      × (sum_records (change_last f ss) ≡ sum_records ss + 1)
sum_change_last n [] f s e h k b r = absurd (ground arith)
sum_change_last n (t ∷ []) f s e h k b r =
    let more = b t (omega arith) in
    let one = r t (omega arith) in (omega (arith, more), omega (arith, one))
sum_change_last n (t ∷ u ∷ ss) f s e h k b r =
    let (bytes, records) = sum_change_last n (u ∷ ss) f s e (omega arith) (omega arith) b r in
    (omega (arith, bytes), omega (arith, records))

pub count_record-IsAccounted :
    (n : ℕ) (st : SpoolState) (s : Segment)
    → last? st.segments ≡ some s
    → IsAccounted st
    → sum_bytes st.segments + n < 2 ^ 64
    → sum_records st.segments + 1 < 2 ^ 64
    → IsAccounted (count_record n st)
unfolding count_record
count_record-IsAccounted n st s e a h k =
    let (bytes, records) =
      sum_change_last n st.segments
        (λ s. record s { bytes = add_u64 s.bytes n; records = add_u64 s.records 1 }) s e h k
        (λ t l. omega arith) (λ t l. omega arith) in
    record {
      bytes_sum = omega (arith, a.bytes_sum, bytes);
      records_sum = omega (arith, a.records_sum, records);
      bytes_bound = omega (arith, bytes);
      records_bound = omega (arith, records);
    }

sum_append :
    (ss : List Segment) (t : Segment)
    → t.bytes ≡ 0
    → t.records ≡ 0
    → (sum_bytes (ss ++ (t ∷ [])) ≡ sum_bytes ss) × (sum_records (ss ++ (t ∷ [])) ≡ sum_records ss)
sum_append [] t b r = (omega (arith, b), omega (arith, r))
sum_append (s ∷ ss) t b r =
    let (bytes, records) = sum_append ss t b r in (omega (arith, bytes), omega (arith, records))

last-append : (ss : List Segment) (t : Segment) → last? (ss ++ (t ∷ [])) ≡ some t
last-append [] t = refl
last-append (s ∷ []) t = refl
last-append (s ∷ u ∷ ss) t = last-append (u ∷ ss) t

-- A spool with a segment to write to, and the counts of another.
pub record IsWritable (before after : SpoolState) : Type 0 where
  pub last : Segment
  pub is_last : last? after.segments ≡ some last
  pub accounted : IsAccounted after
  pub bytes_same : sum_bytes after.segments ≡ sum_bytes before.segments
  pub records_same : sum_records after.segments ≡ sum_records before.segments

added-IsWritable :
    (st after : SpoolState) (t : Segment)
    → IsAccounted st
    → t.bytes ≡ 0
    → t.records ≡ 0
    → after.segments ≡ st.segments ++ (t ∷ [])
    → after.bytes ≡ st.bytes
    → after.records ≡ st.records
    → IsWritable st after
added-IsWritable st after t a b r e f g =
    let (bytes, records) = sum_append st.segments t b r in
    let bytes_same : sum_bytes after.segments ≡ sum_bytes st.segments = ap sum_bytes e ∙ bytes in
    let records_same : sum_records after.segments ≡ sum_records st.segments =
      ap sum_records e ∙ records in
    record {
      last = t;
      is_last = ap last? e ∙ last-append st.segments t;
      accounted = record {
        bytes_sum = omega (arith, a.bytes_sum);
        records_sum = omega (arith, a.records_sum);
        bytes_bound = omega (arith, a.bytes_bound);
        records_bound = omega (arith, a.records_bound);
      };
      bytes_same = bytes_same;
      records_same = records_same;
    }

pub with_writable_segment-IsWritable :
    (config : SpoolConfig) (n : ℕ) (w : Spool)
    → IsAccounted w.state
    → IsWritable w.state (with_writable_segment config n w).state
unfolding with_writable_segment
with_writable_segment-IsWritable config n w a = elim (Option-cases (last? w.state.segments)) [
  | inl e ↦ rw (e, with_writable_segment) (added-IsWritable w.state _ _ a refl refl refl refl refl)
  | inr (s, e) ↦
      rw (e, with_writable_segment)
        (elim (Bool-cases (fits config n s)) [
          | inl f ↦ rw f (record {
            last = s;
            is_last = e;
            accounted = a;
            bytes_same = refl;
            records_same = refl;
          })
          | inr f ↦ rw f (added-IsWritable w.state _ _ a refl refl refl refl refl)
        ])
]

-- A spool within its budget whose counts are those of its segments: after an append, whether it
-- fails or not, the counts are those of the segments, and after one that is no error the bytes are
-- within the budget. The budget is below 2 ^ 63, and the number of records below 2 ^ 64 - 1.
pub append_bytes-IsKept :
    (config : SpoolConfig) (payload : Bytes) (w : Spool)
    → config.max_bytes < 2 ^ 63
    → w.state.records + 1 < 2 ^ 64
    → w.state.bytes ≤ config.max_bytes
    → IsAccounted w.state
    → IsKept config.max_bytes (append_bytes config payload w)
unfolding append_bytes
append_bytes-IsKept config payload w m c b a = go (record_disk_bytes payload) refl
  where
    unchanged : (r : Result IoError Unit) → IsKept config.max_bytes (r, w)
    unchanged r = record { accounted = a; within_budget = λ h. b }

    go :
        (r : Result IoError ℕ)
        → record_disk_bytes payload ≡ r
        → IsKept config.max_bytes (append_bytes config payload w)
    go (err e) f = rw (f, append_bytes) (unchanged (err e))
    go (ok n) f =
        rw (f, append_bytes)
          (elim (Bool-cases (ltb config.max_bytes n)) [
            | inl g ↦ rw g (unchanged (err invalid_input))
            | inr g ↦
                let t = with_writable_segment-IsWritable config n w a in
                rw g (
                  enforce_budget-IsKept config.max_bytes _ _ _ (
                    count_record-IsAccounted n (with_writable_segment config n w).state t.last
                      t.is_last t.accounted (ground (arith, t.bytes_same, a.bytes_sum))
                      (ground (arith, t.records_same, a.records_sum))))
          ])
