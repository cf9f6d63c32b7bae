-- ===== src/Spool/Trim.antt =====
-- What the budget does to the queue (src/spool.rs).
use mathlib.Core.List.{append_assoc}
use permanu_agent.Base.{
  ◌≤◌, length-append, ℕ, ◌+◌, ◌^◌, ◌<◌, ◌≡◌, refl, sym, ap, ◌∙◌, false, List, [], ◌∷◌, ◌++◌, leb,
  length, ok, Bytes, same, same_iff, arith, Bool-cases, inl, inr,
}
use permanu_agent.Base.Map.{remove}
use permanu_agent.Spool.{
  Segment, SpoolState, Files, Outcome, encode_record, encode_records, records_bytes, enforce_budget,
  add_u64, sub_u64,
}
use permanu_agent.Spool.Records.{AreSized}
use permanu_agent.Spool.Accounts.{IsAccounted, sum_bytes, sum_records}
use permanu_agent.Spool.Queue.{IsQueue, no_segments, a_segment, IsQueue-remove}
use permanu_agent.Spool.Names.{AreNamed}

pub append_nil {ℓ} : {A : Type ℓ} (xs : List A) → xs ++ [] ≡ xs
append_nil [] = refl
append_nil (x ∷ xs) = ap (◌∷◌ x) (append_nil xs)

pub encode_records-append :
    (ps : List Bytes) (p : Bytes)
    → encode_records (ps ++ (p ∷ [])) ≡ encode_records ps ++ encode_record p
encode_records-append [] p = append_nil (encode_record p)
encode_records-append (q ∷ ps) p =
    ap (λ k. encode_record q ++ k) (encode_records-append ps p)
    ∙ sym (append_assoc (encode_record q) (encode_records ps) (encode_record p))

pub records_bytes-append :
    (ps : List Bytes) (p : Bytes)
    → records_bytes (ps ++ (p ∷ [])) ≡ records_bytes ps + (length p + 8)
records_bytes-append [] p = omega arith
records_bytes-append (q ∷ ps) p = omega (arith, records_bytes-append ps p)

pub AreSized-append :
    (ps : List Bytes) (p : Bytes) → AreSized ps → length p < 2 ^ 64 → AreSized (ps ++ (p ∷ []))
AreSized-append [] p h k = (k, tt)
AreSized-append (q ∷ ps) p (h, hs) k = (h, AreSized-append ps p hs k)

pub same_flip : (a b : Bytes) → same a b ≡ false → same b a ≡ false
same_flip a b h = ground (arith, same_iff a b, same_iff b a)

-- The segments that go before those kept: with the last of them the bytes are over the limit.
pub data IsNeeded (limit : ℕ) (kept : List Segment) : List Segment → Type 0 where
  none_gone : IsNeeded limit kept []
  last_gone : (s : Segment) → limit < sum_bytes (s ∷ kept) → IsNeeded limit kept (s ∷ [])
  more_gone :
      (s t : Segment) (ss : List Segment)
      → IsNeeded limit kept (t ∷ ss)
      → IsNeeded limit kept (s ∷ t ∷ ss)

-- What the budget leaves: the segments that it drops are the oldest ones, and it drops none that
-- could stay.
pub record IsTrimmed (limit : ℕ) (dir : Bytes) (segments : List Segment) (queue : List Bytes)
    (o : Outcome Unit) : Type 0 where
  pub is_ok : o.0 ≡ ok tt
  pub gone : List Segment
  pub segments_are : segments ≡ gone ++ o.1.state.segments
  pub needed : IsNeeded limit o.1.state.segments gone
  pub within_budget : sum_bytes o.1.state.segments ≤ limit
  pub dropped : List Bytes
  pub rest : List Bytes
  pub queue_eq : queue ≡ dropped ++ rest
  pub are_gone : length dropped ≡ sum_records gone
  pub is_queue : IsQueue o.1.files o.1.state.segments rest
  pub are_named : AreNamed dir o.1.state.next_sequence o.1.state.segments

one_more :
    (limit : ℕ) (s : Segment) (gone kept ss : List Segment)
    → ss ≡ gone ++ kept
    → limit < sum_bytes (s ∷ ss)
    → IsNeeded limit kept gone
    → IsNeeded limit kept (s ∷ gone)
one_more limit s [] kept ss e h n = last_gone s (omega (arith, ap sum_bytes e, h))
one_more limit s (t ∷ gone) kept ss e h n = more_gone s t gone n

pub enforce_budget-IsTrimmed :
    (limit : ℕ) (dir : Bytes) (files : Files) (st : SpoolState) (ss : List Segment)
    (queue : List Bytes)
    → IsAccounted (record st { segments = ss })
    → IsQueue files ss queue
    → AreNamed dir st.next_sequence ss
    → IsTrimmed limit dir ss queue (enforce_budget limit files st ss)
unfolding enforce_budget
enforce_budget-IsTrimmed limit dir files st [] queue a (no_segments) n = record {
  is_ok = refl;
  gone = [];
  segments_are = refl;
  needed = none_gone;
  within_budget = omega arith;
  dropped = [];
  rest = [];
  queue_eq = refl;
  are_gone = refl;
  is_queue = no_segments;
  are_named = tt;
}
enforce_budget-IsTrimmed limit dir files st (s ∷ ss) queue a (a_segment ps qs c z r b d e q) n =
    elim (Bool-cases (leb st.bytes limit)) [
      | inl l ↦
          rw (l, enforce_budget)
            (record {
              is_ok = refl;
              gone = [];
              segments_are = refl;
              needed = none_gone;
              within_budget =
                  (let under : st.bytes ≤ limit = ground arith in
                    omega (arith, under, a.bytes_sum));
              dropped = [];
              rest = queue;
              queue_eq = refl;
              are_gone = refl;
              is_queue = a_segment ps qs c z r b d e q;
              are_named = n;
            })
      | inr l ↦
          rw (l, c, enforce_budget)
            (let t =
                enforce_budget-IsTrimmed limit dir (remove s.path files)
                  (record st {
                    bytes = sub_u64 st.bytes s.bytes;
                    records = sub_u64 st.records s.records;
                    dropped_bytes = add_u64 st.dropped_bytes s.bytes;
                    dropped_records = add_u64 st.dropped_records s.records;
                  })
                  ss qs
                  (record {
                    bytes_sum = omega (arith, a.bytes_sum, a.bytes_bound);
                    records_sum = omega (arith, a.records_sum, a.records_bound);
                    bytes_bound = omega (arith, a.bytes_bound);
                    records_bound = omega (arith, a.records_bound);
                  })
                  (IsQueue-remove s.path files ss qs d q) n.1 in
              record {
                is_ok = t.is_ok;
                gone = s ∷ t.gone;
                segments_are = ap (◌∷◌ s) t.segments_are;
                needed =
                    one_more limit s t.gone _ ss t.segments_are
                      (let over : limit < st.bytes = ground arith in
                        omega (arith, over, a.bytes_sum))
                      t.needed;
                within_budget = t.within_budget;
                dropped = ps ++ t.dropped;
                rest = t.rest;
                queue_eq =
                    e ∙ ap (λ k. ps ++ k) t.queue_eq ∙ sym (append_assoc ps t.dropped t.rest);
                are_gone = omega (arith, length-append ps t.dropped, r, t.are_gone);
                is_queue = t.is_queue;
                are_named = t.are_named;
              })
    ]
