-- ===== src/Spool/Records.antt =====
-- The format of a segment's file (src/spool.rs).
use permanu_agent.Base.{
  ℕ, zero, suc, ◌^◌, ◌≤◌, ◌<◌, ◌≡◌, refl, ap, ◌∙◌, false, List, [], ◌∷◌, ◌++◌, some, ltb, length,
  take, drop, All, ok, Bytes, arith, length-append,
}
use permanu_agent.Base.Map.{lookup}
use permanu_agent.Spool.{
  to_be_bytes, from_be_bytes, encode_record, encode_records, read_payloads, cons_ok, Files,
  read_segment_payloads,
}

from_be_bytes-to_be_bytes : (n : ℕ) → n < 2 ^ 64 → from_be_bytes 0 (to_be_bytes n) ≡ n
from_be_bytes-to_be_bytes n h = omega arith

take-length : (xs ys : Bytes) → take (length xs) (xs ++ ys) ≡ xs
take-length [] ys = refl
take-length (x ∷ xs) ys = ap (◌∷◌ x) (take-length xs ys)

drop-length : (xs ys : Bytes) → drop (length xs) (xs ++ ys) ≡ ys
drop-length [] ys = refl
drop-length (x ∷ xs) ys = drop-length xs ys

-- The lengths of the payloads are `u64`s.
abbrev pub AreSized : List Bytes → Type 0
AreSized ps = All (λ p. length p < 2 ^ 64) ps

-- A record in front of a content.
read_payloads-cons :
    (fuel : ℕ) (p tail : Bytes)
    → length p < 2 ^ 64
    → read_payloads (suc fuel) (encode_record p ++ tail) ≡ cons_ok p (read_payloads fuel tail)
unfolding read_payloads
read_payloads-cons fuel p tail h =
    let len = from_be_bytes-to_be_bytes (length p) h in
    let longer : ltb (length (p ++ tail)) (length p) ≡ false =
      ground (arith, length-append p tail) in
    let header : ltb (length (encode_record p ++ tail)) 8 ≡ false = ground arith in
    rw (len, header, longer, take-length p tail, drop-length p tail) refl

read_payloads-encode_records :
    (fuel : ℕ) (ps : List Bytes)
    → AreSized ps
    → length (encode_records ps) ≤ fuel
    → read_payloads fuel (encode_records ps) ≡ ok ps
unfolding read_payloads
read_payloads-encode_records zero [] h l = refl
read_payloads-encode_records zero (p ∷ ps) h l = absurd (omega arith)
read_payloads-encode_records (suc fuel) [] h l = refl
read_payloads-encode_records (suc fuel) (p ∷ ps) (h, hs) l =
    let size = length-append p (encode_records ps) in
    let rest = read_payloads-encode_records fuel ps hs (omega (arith, size)) in
    read_payloads-cons fuel p (encode_records ps) h ∙ ap (cons_ok p) rest

-- A file of records, each with its length in front, is read as the records, in order.
pub read-encode_records :
    (path : Bytes) (files : Files) (ps : List Bytes)
    → AreSized ps
    → lookup path files ≡ some (encode_records ps)
    → read_segment_payloads path files ≡ ok ps
read-encode_records path files ps h e =
    rw (e, read_segment_payloads)
      (read_payloads-encode_records (length (encode_records ps)) ps h (omega arith))
