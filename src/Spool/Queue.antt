-- ===== src/Spool/Queue.antt =====
-- The queue of payloads that the segments and their files stand for, and `ack` (src/spool.rs).
use permanu_agent.Base.{
  same_self, ℕ, zero, suc, ◌-◌, ◌≤◌, ◌≡◌, refl, sym, ap, ◌∙◌, false, List, [], ◌∷◌, ◌++◌, some, leb,
  ltb, ◌==◌, length, drop, All, ok, Bytes, same, arith, length-append, Bool-cases, inl, inr,
}
use permanu_agent.Base.Map.{lookup, insert, remove, lookup-insert, lookup-remove}
use permanu_agent.Spool.{Segment, SpoolState, Files, Spool, Outcome, encode_records, records_bytes}
use permanu_agent.Spool.Reads.{ack_part, ack_segments, ack}
use permanu_agent.Spool.Records.{AreSized, read-encode_records}

-- No segment has this path.
abbrev pub IsUnused : Bytes → List Segment → Type 0
IsUnused path ss = All (λ t. same path t.path ≡ false) ss

-- The payloads of the segments, in order: each file holds the records that its segment counts, and
-- no two segments have one path.
pub data IsQueue (files : Files) : List Segment → List Bytes → Type 0 where
  no_segments : IsQueue files [] []
  a_segment :
      {s : Segment} {ss : List Segment} {queue : List Bytes} (ps qs : List Bytes)
      → lookup s.path files ≡ some (encode_records ps)
      → AreSized ps
      → s.records ≡ length ps
      → s.bytes ≡ records_bytes ps
      → IsUnused s.path ss
      → queue ≡ ps ++ qs
      → IsQueue files ss qs
      → IsQueue files (s ∷ ss) queue

pub IsQueue-insert :
    (k v : Bytes) (files : Files) (ss : List Segment) (queue : List Bytes)
    → IsUnused k ss
    → IsQueue files ss queue
    → IsQueue (insert k v files) ss queue
IsQueue-insert k v files [] queue u (no_segments) = no_segments
IsQueue-insert k v files (s ∷ ss) queue (other, u) (a_segment ps qs c z r b d e q) =
    let kept : lookup s.path (insert k v files) ≡ some (encode_records ps) =
      rw (lookup-insert k s.path v files, other) c in
    a_segment ps qs kept z r b d e (IsQueue-insert k v files ss qs u q)

pub IsQueue-remove :
    (k : Bytes) (files : Files) (ss : List Segment) (queue : List Bytes)
    → IsUnused k ss
    → IsQueue files ss queue
    → IsQueue (remove k files) ss queue
IsQueue-remove k files [] queue u (no_segments) = no_segments
IsQueue-remove k files (s ∷ ss) queue (other, u) (a_segment ps qs c z r b d e q) =
    let kept : lookup s.path (remove k files) ≡ some (encode_records ps) =
      rw (lookup-remove k s.path files other) c in
    a_segment ps qs kept z r b d e (IsQueue-remove k files ss qs u q)

drop_within {ℓ} :
    {A : Type ℓ} (n : ℕ) (xs ys : List A) → n ≤ length xs → drop n (xs ++ ys) ≡ drop n xs ++ ys
drop_within zero xs ys h = refl
drop_within (suc n) [] ys h = absurd (omega arith)
drop_within (suc n) (x ∷ xs) ys h = drop_within n xs ys (omega arith)

drop_beyond {ℓ} :
    {A : Type ℓ} (n : ℕ) (xs ys : List A)
    → length xs ≤ n
    → drop n (xs ++ ys) ≡ drop (n - length xs) ys
drop_beyond n [] ys h = ap (λ k. drop k ys) (let whole : n ≡ n - 0 = omega arith in whole)
drop_beyond zero (x ∷ xs) ys h = absurd (omega arith)
drop_beyond (suc n) (x ∷ xs) ys h =
    drop_beyond n xs ys (omega arith)
    ∙ ap (λ k. drop k ys)
        (let same_count : n - length xs ≡ suc n - suc (length xs) = omega arith in same_count)

drop-AreSized : (n : ℕ) (ps : List Bytes) → AreSized ps → AreSized (drop n ps)
drop-AreSized zero ps h = h
drop-AreSized (suc n) [] h = tt
drop-AreSized (suc n) (p ∷ ps) (h, hs) = drop-AreSized n ps hs

-- An acknowledgement that succeeds, and what it leaves in the queue.
pub record IsAcked (queue : List Bytes) (o : Outcome Unit) : Type 0 where
  pub is_ok : o.0 ≡ ok tt
  pub is_queue : IsQueue o.1.files o.1.state.segments queue

ack_part-IsAcked :
    (count : ℕ) (files : Files) (st : SpoolState) (s : Segment) (ss : List Segment)
    (ps qs : List Bytes)
    → lookup s.path files ≡ some (encode_records ps)
    → AreSized ps
    → IsUnused s.path ss
    → IsQueue files ss qs
    → IsAcked (drop count ps ++ qs) (ack_part count files st s ss)
unfolding ack_part
ack_part-IsAcked count files st s ss ps qs c z d q =
    let left = drop count ps in
    let written : lookup s.path (insert s.path (encode_records left) files)
        ≡ some (encode_records left) =
      ground (arith, lookup-insert s.path s.path (encode_records left) files, same_self s.path) in
    rw (read-encode_records s.path files ps z c, ack_part)
      (record {
        is_ok = refl;
        is_queue =
            a_segment left qs written (drop-AreSized count ps z) refl refl d refl
              (IsQueue-insert s.path (encode_records left) files ss qs d q);
      })

ack_segments-IsAcked :
    (count : ℕ) (files : Files) (st : SpoolState) (ss : List Segment) (queue : List Bytes)
    → IsQueue files ss queue
    → count ≤ length queue
    → IsAcked (drop count queue) (ack_segments count files st ss)
unfolding ack_segments
ack_segments-IsAcked count files st [] queue (no_segments) h =
    let none_left : count ≡ 0 = omega arith in
    rw none_left (record { is_ok = refl; is_queue = no_segments })
ack_segments-IsAcked count files st (s ∷ ss) queue (a_segment ps qs c z r b d e q) h =
    elim (Bool-cases (count == 0)) [
      | inl n ↦
          let none_left : count ≡ 0 = ground arith in
          rw (n, ack_segments)
            (rw none_left (record { is_ok = refl; is_queue = a_segment ps qs c z r b d e q }))
      | inr n ↦
          rw (n, ack_segments)
            (elim (Bool-cases (leb s.records count)) [
              | inl l ↦
                  let beyond : length ps ≤ count = ground (arith, r) in
                  let rest : drop count queue ≡ drop (count - s.records) qs =
                    ap (drop count) e
                    ∙ drop_beyond count ps qs beyond
                    ∙ ap (λ k. drop (count - k) qs) (sym r) in
                  rw (l, rest)
                    (ack_segments-IsAcked (count - s.records) (remove s.path files) _ ss qs
                      (IsQueue-remove s.path files ss qs d q)
                      (omega (arith, r, ap length e, length-append ps qs)))
              | inr l ↦
                  let within : count ≤ length ps = ground (arith, r) in
                  let rest : drop count queue ≡ drop count ps ++ qs =
                    ap (drop count) e ∙ drop_within count ps qs within in
                  rw (l, rest) (ack_part-IsAcked count files st s ss ps qs c z d q)
            ])
    ]

-- In a spool whose files and segments stand for a queue, and that counts its records, acknowledging
-- at most as many records as the queue has removes exactly the oldest ones: the call succeeds, and
-- the segments and files that it leaves stand for the rest of the queue.
pub ack-IsAcked :
    (count : ℕ) (w : Spool) (queue : List Bytes)
    → IsQueue w.files w.state.segments queue
    → w.state.records ≡ length queue
    → count ≤ length queue
    → IsAcked (drop count queue) (ack count w)
unfolding ack
ack-IsAcked count w queue q r h = elim (Bool-cases (count == 0)) [
  | inl n ↦
      let none_left : count ≡ 0 = ground arith in
      rw (n, ack) (rw none_left (record { is_ok = refl; is_queue = q }))
  | inr n ↦
      let enough : ltb w.state.records count ≡ false = ground arith in
      rw (n, enough, ack) (ack_segments-IsAcked count w.files w.state w.state.segments queue q h)
]
