-- ===== src/Spool/Batch.antt =====
-- Batches and the queue (src/spool.rs).
use mathlib.Core.List.{append_assoc}
use permanu_agent.Base.{
  ℕ, suc, ◌+◌, ◌≤◌, ◌<◌, ◌≡◌, refl, sym, ap, ◌∙◌, Bool, true, false, not, ◌&&◌, ◌||◌, List, [], ◌∷◌,
  ◌++◌, leb, ltb, ◌==◌, length, is_nil, Result, ok, Bytes, arith, length-append, Bool-cases, inl,
  inr,
}
use permanu_agent.Spool.{Segment, Files, Spool, IoError, add_u64}
use permanu_agent.Spool.Reads.{take_payloads, read_segments, read_batch}
use permanu_agent.Spool.Records.{read-encode_records}
use permanu_agent.Spool.Queue.{IsQueue, no_segments, a_segment}

append_nil {ℓ} : {A : Type ℓ} (xs : List A) → xs ≡ xs ++ []
append_nil [] = refl
append_nil (x ∷ xs) = ap (◌∷◌ x) (append_nil xs)

-- What the loop over a segment's payloads makes of them.
record IsTaken (most : ℕ) (records ps : List Bytes) (r : Bool × List Bytes × ℕ) : Type 0 where
  taken : List Bytes
  rest : List Bytes
  parts : ps ≡ taken ++ rest
  batch : r.1 ≡ records ++ taken
  size : length r.1 ≤ most
  all_taken : r.0 ≡ false → (rest ≡ []) × (length r.1 < most)
  full_some : r.0 ≡ true → 1 ≤ length r.1

take_payloads-IsTaken :
    (most bytes : ℕ) (records : List Bytes) (total : ℕ) (ps : List Bytes)
    → length records < most
    → IsTaken most records ps (take_payloads most bytes records total ps)
unfolding take_payloads
take_payloads-IsTaken most bytes records total [] h = record {
  taken = [];
  rest = [];
  parts = refl;
  batch = append_nil records;
  size = omega arith;
  all_taken = λ f. (refl, h);
  full_some = λ l. absurd (ground arith);
}
take_payloads-IsTaken most bytes records total (p ∷ ps) h =
    let sum = add_u64 total (length p) in
    let grown = records ++ (p ∷ []) in
    let longer : length grown ≡ suc (length records) =
      length-append records (p ∷ [])
      ∙ (let one : length records + 1 ≡ suc (length records) = omega arith in one) in
    elim (Bool-cases (not (is_nil records) && (leb most (length records) || ltb bytes sum))) [
      | inl f ↦ rw f (record {
        taken = [];
        rest = p ∷ ps;
        parts = refl;
        batch = append_nil records;
        size = omega arith;
        all_taken = λ g. absurd (ground arith);
        full_some = λ l. some_records records (ground arith);
      })
      | inr f ↦ rw f (elim (Bool-cases (leb most (length grown))) [
        | inl g ↦ rw g (record {
          taken = p ∷ [];
          rest = ps;
          parts = refl;
          batch = refl;
          size = omega (arith, longer);
          all_taken = λ k. absurd (ground arith);
          full_some = λ l. omega (arith, longer);
        })
        | inr g ↦
            let r = take_payloads-IsTaken most bytes grown sum ps (ground arith) in
            let whole = r.batch ∙ append_assoc records (p ∷ []) r.taken in
            rw g (record {
              taken = p ∷ r.taken;
              rest = r.rest;
              parts = ap (◌∷◌ p) r.parts;
              batch = whole;
              size = r.size;
              all_taken = r.all_taken;
              full_some = r.full_some;
            })
      ])
    ]
  where
    some_records : (rs : List Bytes) → is_nil rs ≡ false → 1 ≤ length rs
    some_records [] k = absurd (ground arith)
    some_records (x ∷ rs) k = omega arith

-- A batch of the queue, after the records that were taken before it.
pub record IsBatch (most : ℕ) (records queue : List Bytes) (r : Result IoError (List Bytes))
    : Type 0 where
  pub batch : List Bytes
  pub is_ok : r ≡ ok batch
  pub front : List Bytes
  pub rest : List Bytes
  pub queue_eq : queue ≡ front ++ rest
  pub batch_eq : batch ≡ records ++ front
  pub size : length batch ≤ most
  pub takes_some : 1 ≤ length records + length queue → 1 ≤ length batch

-- A segment whose payloads are `ps`, given the segments after it.
segment_step :
    (most bytes : ℕ) (records : List Bytes) (ss : List Segment) (files : Files)
    (queue ps qs : List Bytes)
    → queue ≡ ps ++ qs
    → ((batch : List Bytes) (sum : ℕ)
        → length batch < most
        → IsBatch most batch qs (read_segments most bytes batch sum ss files))
    → (t : Bool × List Bytes × ℕ) → IsTaken most records ps t
    → IsBatch most records queue
        (elim t.0 [ true ↦ ok t.1 | false ↦ read_segments most bytes t.1 t.2 ss files ])
segment_step most bytes records ss files queue ps qs e again (true, batch, sum) t = record {
  batch = batch;
  is_ok = refl;
  front = t.taken;
  rest = t.rest ++ qs;
  queue_eq = e ∙ ap (λ k. k ++ qs) t.parts ∙ append_assoc t.taken t.rest qs;
  batch_eq = t.batch;
  size = t.size;
  takes_some = λ l. t.full_some refl;
}
segment_step most bytes records ss files queue ps qs e again (false, batch, sum) t =
    let (nothing_left, smaller) = t.all_taken refl in
    let b = again batch sum smaller in
    let whole : ps ≡ t.taken =
      t.parts ∙ ap (λ k. t.taken ++ k) nothing_left ∙ sym (append_nil t.taken) in
    record {
      batch = b.batch;
      is_ok = b.is_ok;
      front = ps ++ b.front;
      rest = b.rest;
      queue_eq = e ∙ ap (λ k. ps ++ k) b.queue_eq ∙ sym (append_assoc ps b.front b.rest);
      batch_eq =
          b.batch_eq
          ∙ ap (λ k. k ++ b.front) (t.batch ∙ ap (λ k. records ++ k) (sym whole))
          ∙ append_assoc records ps b.front;
      size = b.size;
      takes_some = λ l. b.takes_some (
          omega (
            arith,
            ap length t.batch,
            ap length whole,
            ap length e,
            length-append records t.taken,
            length-append ps qs,
          ));
    }

read_segments-IsBatch :
    (most bytes : ℕ) (records : List Bytes) (total : ℕ) (ss : List Segment) (files : Files)
    (queue : List Bytes)
    → IsQueue files ss queue
    → length records < most
    → IsBatch most records queue (read_segments most bytes records total ss files)
unfolding read_segments
read_segments-IsBatch most bytes records total [] files queue (no_segments) h = record {
  batch = records;
  is_ok = refl;
  front = [];
  rest = [];
  queue_eq = refl;
  batch_eq = append_nil records;
  size = omega arith;
  takes_some = λ l. omega arith;
}
read_segments-IsBatch most bytes records total (s ∷ ss) files queue (a_segment ps qs c z r b d e q)
      h =
    rw (read-encode_records s.path files ps z c, read_segments)
      (segment_step most bytes records ss files queue ps qs e
        (λ batch sum l. read_segments-IsBatch most bytes batch sum ss files qs q l)
        (take_payloads most bytes records total ps)
        (take_payloads-IsTaken most bytes records total ps h))

-- A read of a spool whose files and segments stand for a queue, for at least one record: it
-- succeeds, gives the oldest payloads of the queue in order, at most `max_records` of them, and at
-- least one if there is any.
pub read_batch-IsBatch :
    (max_records max_payload_bytes : ℕ) (w : Spool) (queue : List Bytes)
    → IsQueue w.files w.state.segments queue
    → 1 ≤ max_records
    → IsBatch max_records [] queue (read_batch max_records max_payload_bytes w)
unfolding read_batch
read_batch-IsBatch most bytes w queue q h =
    let some_wanted : (most == 0) ≡ false = ground arith in
    rw (some_wanted, read_batch)
      (read_segments-IsBatch most bytes [] 0 w.state.segments w.files queue q (omega arith))
