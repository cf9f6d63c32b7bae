-- ===== src/Spool/Scans.antt =====
-- What opening a spool counts, against what reading it gives (src/spool.rs).
use permanu_agent.Base.Map.{lookup}
use permanu_agent.Spool.Load.{scan_segment, scan_records, checked_add}
use permanu_agent.Spool.{
  not_found, read_segment_payloads, Files, record_header_bytes, read_payloads, add_u64, cons_ok,
  from_be_bytes, invalid_data, unexpected_eof, records_bytes, IoError,
}
use permanu_agent.Base.{
  none, Option, Option-cases, sym, ltb→le, length-take, min, arith, subst, ◌∙◌, refl, drop, ok_inj,
  take, lt→ltb, ltb, length, ap, if◌then◌else◌, ℕ, zero, suc, ◌+◌, ◌^◌, ◌<◌, ◌≤◌, ◌≡◌, ◌⊎◌, inl,
  inr, Bool, true, false, List, [], ◌∷◌, some, Bytes, Result, ok, err, ◌>>=◌,
}

-- How one round of reading goes well.
read_step :
    (short torn : Bool) (p : Bytes) (rest : Result IoError (List Bytes)) {ps : List Bytes}
    → (if short then ok [] else if torn then err unexpected_eof else cons_ok p rest) ≡ ok ps
    → ((short ≡ true) × ([] ≡ ps))
      ⊎ ((short ≡ false) × (torn ≡ false) × ((qs : List Bytes) × (rest ≡ ok qs) × ((p ∷ qs) ≡ ps)))
read_step true torn p rest h = inl (refl, ok_inj h)
read_step false true p rest h = cc
read_step false false p (ok qs) h = inr (refl, refl, (qs, refl, ok_inj h))
read_step false false p (err e) h = cc

checked_add-eq_ok : (a b : ℕ) → a + b < 2 ^ 64 → checked_add a b ≡ ok (a + b)
checked_add-eq_ok a b h =
    ap (λ t. if t then ok (a + b) else err invalid_data) (lt→ltb (a + b) (2 ^ 64) h)

min_le : (a b : ℕ) → a ≤ b → min a b ≡ a
min_le a b h = omega arith

-- The counts after the records that are read.
abbrev Counts : ℕ → ℕ → List Bytes → Result IoError (ℕ × ℕ)
Counts bytes records ps = ok (bytes + records_bytes ps, records + length ps)

add_header : (len : ℕ) → len + 8 < 2 ^ 64 → add_u64 record_header_bytes len ≡ len + 8
add_header len h = omega arith

-- The length that the first header states.
abbrev first_len : Bytes → ℕ
first_len content = from_be_bytes 0 (take 8 content)

-- A round of scanning, in front of the others.
scan_step :
    (fuel : ℕ) (content : Bytes) (bytes records : ℕ)
    → ltb (length content) 8 ≡ false
    → bytes + (first_len content + 8) < 2 ^ 64
    → records + 1 < 2 ^ 64
    → scan_records (suc fuel) content bytes records
      ≡ scan_records fuel
          (drop (first_len content) (drop 8 content))
          (bytes + (first_len content + 8))
          (records + 1)
unfolding scan_records
scan_step fuel content bytes records long fits one =
    let len = first_len content in
    let go_on = λ (b r : ℕ). scan_records fuel (drop len (drop 8 content)) b r in
    let count = λ (b : ℕ). (checked_add records 1 >>= λ r. go_on b r) in
    ap
      (λ t.
        if t
        then ok (bytes, records)
        else (checked_add bytes (add_u64 record_header_bytes len) >>= count))
      long
    ∙ ap (λ m. checked_add bytes m >>= count) (add_header len (omega (arith, fits)))
    ∙ ap (λ q. q >>= count) (checked_add-eq_ok bytes (len + 8) fits)
    ∙ ap (λ q. q >>= λ r. go_on (bytes + (len + 8)) r) (checked_add-eq_ok records 1 one)

scan_end :
    (fuel : ℕ) (content : Bytes) (bytes records : ℕ)
    → ltb (length content) 8 ≡ true
    → scan_records (suc fuel) content bytes records ≡ ok (bytes, records)
unfolding scan_records
scan_end fuel content bytes records short = rw short refl

pair_eq : {a b c d : ℕ} → a ≡ c → b ≡ d → ◌≡◌ {A = Result IoError (ℕ × ℕ)} (ok (a, b)) (ok (c, d))
pair_eq {b = b} {c = c} e f = ap (λ x. ok (x, b)) e ∙ ap (λ y. ok (c, y)) f

scan-read_payloads :
    (fuel : ℕ) (content : Bytes) (bytes records : ℕ) {ps : List Bytes}
    → read_payloads fuel content ≡ ok ps
    → bytes + records_bytes ps < 2 ^ 64
    → records + length ps < 2 ^ 64
    → scan_records fuel content bytes records ≡ Counts bytes records ps
unfolding read_payloads scan_records
scan-read_payloads zero content bytes records h fits counted =
    subst (λ qs. ok (bytes, records) ≡ Counts bytes records qs) (ok_inj h)
      (pair_eq (omega arith) (omega arith))
scan-read_payloads (suc fuel) content bytes records {ps = ps} h fits counted =
    let len = first_len content in
    let body = drop 8 content in
    elim (read_step (ltb (length content) 8) (ltb (length body) len) (take len body)
      (read_payloads fuel (drop len body)) h) [
        | inl s ↦
            scan_end fuel content bytes records s.0
            ∙ subst (λ qs. ok (bytes, records) ≡ Counts bytes records qs) s.1
                (pair_eq (omega arith) (omega arith))
        | inr (long, whole, (qs, rest, e)) ↦
            let sized : length (take len body) ≡ len =
              length-take len body ∙ min_le len (length body) (ltb→le (length body) len whole) in
            let fits' : bytes + records_bytes (take len body ∷ qs) < 2 ^ 64 =
              subst (λ l. bytes + records_bytes l < 2 ^ 64) (sym e) fits in
            let counted' : records + length (take len body ∷ qs) < 2 ^ 64 =
              subst (λ l. records + length l < 2 ^ 64) (sym e) counted in
            scan_step fuel content bytes records long (omega (arith, sized, fits'))
              (omega (arith, counted'))
            ∙ scan-read_payloads fuel (drop len body) (bytes + (len + 8)) (records + 1) rest
                (omega (arith, sized, fits')) (omega (arith, counted'))
            ∙ subst (λ l. Counts (bytes + (len + 8)) (records + 1) qs ≡ Counts bytes records l) e
                (pair_eq (omega (arith, sized)) (omega arith))
      ]

fewer : (ps : List Bytes) → length ps ≤ records_bytes ps
fewer [] = omega arith
fewer (p ∷ ps) = omega (arith, fewer ps)

read_content : Option Bytes → Result IoError (List Bytes)
read_content none = err not_found
read_content (some content) = read_payloads (length content) content

scan_content : Option Bytes → Result IoError (ℕ × ℕ)
scan_content none = err not_found
scan_content (some content) = scan_records (length content) content 0 0

-- A segment that can be read is counted as it is read: opening a spool finds in it as many records
-- as reading gives, and the bytes that they take with their headers.
pub scan-read_segment_payloads :
    (path : Bytes) (files : Files) (ps : List Bytes)
    → read_segment_payloads path files ≡ ok ps
    → records_bytes ps < 2 ^ 64
    → scan_segment path files ≡ ok (records_bytes ps, length ps)
unfolding scan_segment read_content scan_content
scan-read_segment_payloads path files ps h fits = elim (Option-cases (lookup path files)) [
  | inl e ↦ (let impossible : err not_found ≡ ok ps = sym (ap read_content e) ∙ h in cc)
  | inr (content, e) ↦
      ap scan_content e
      ∙ scan-read_payloads (length content) content 0 0 (sym (ap read_content e) ∙ h)
          (omega (arith, fits)) (omega (arith, fewer ps, fits))
      ∙ pair_eq (omega arith) (omega arith)
]
