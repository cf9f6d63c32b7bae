-- ===== src/SignedPlan/Text/Address/Octets.antt =====
-- The number that an IPv4 text writes (src/signed_plan/text.rs).
use permanu_agent.Base.{
  inr, inl, ℕ, ◌+◌, ◌*◌, ◌/◌, ◌%◌, ◌^◌, ◌≤◌, ◌<◌, bit_or, ◌≡◌, refl, sym, ap, ◌∙◌, true, false,
  List, [], ◌∷◌, ◌++◌, some, leb, ltb, ◌==◌, if◌then◌else◌, length, arith, Bytes, split,
  Option-cases, and_intro,
}
use permanu_agent.Base.Bits.{bit_or_low}
use permanu_agent.SignedPlan.Text.Address.{octet, push_octet, fold_octets, ipv4_parts}
use permanu_agent.SignedPlan.Text.Split.{lacks, joined, glue, glue-split, split-glue}

-- The decimal digits of a number below 1000, without leading zeros.
unfoldable pub decimal : ℕ → Bytes
decimal n =
    if ltb n 10
    then (b'0' + n) ∷ []
    else if ltb n 100
    then (b'0' + n / 10) ∷ (b'0' + n % 10) ∷ []
    else (b'0' + n / 100) ∷ (b'0' + n / 10 % 10) ∷ (b'0' + n % 10) ∷ []

octet-decimal : (n : ℕ) → n ≤ 255 → octet (decimal n) ≡ some n
unfolding octet decimal
octet-decimal n h = ground arith

decimal-octet : (s : Bytes) (n : ℕ) → octet s ≡ some n → (s ≡ decimal n) × (n ≤ 255)
unfolding octet decimal
decimal-octet [] n h = ground arith
decimal-octet (a ∷ []) n h = ground arith
decimal-octet (a ∷ b ∷ []) n h = ground arith
decimal-octet (a ∷ b ∷ c ∷ []) n h = ground arith
decimal-octet (a ∷ b ∷ c ∷ d ∷ s) n h = ground arith

push_octet_lem : (acc n : ℕ) → acc < 2 ^ 24 → n ≤ 255 → push_octet acc n ≡ acc * 256 + n
push_octet_lem acc n h k =
    let fits : acc * 2 ^ 8 % 2 ^ 32 ≡ acc * 2 ^ 8 = omega arith in
    ap (λ t. bit_or t n) fits ∙ bit_or_low 8 acc n (omega arith)

abbrev pub address : ℕ → ℕ → ℕ → ℕ → ℕ
address a b c d = ((a * 256 + b) * 256 + c) * 256 + d

-- Four octets, written with a separator between them.
abbrev pub written : ℕ → ℕ → ℕ → ℕ → ℕ → Bytes
written sep a b c d = decimal a ++ joined sep (decimal b ∷ decimal c ∷ decimal d ∷ [])

pub record IsAddress (sep : ℕ) (s : Bytes) (ip : ℕ) : Type 0 where
  pub a : ℕ
  pub b : ℕ
  pub c : ℕ
  pub d : ℕ
  pub in_range : (a ≤ 255) × (b ≤ 255) × (c ≤ 255) × (d ≤ 255)
  pub text : s ≡ written sep a b c d
  pub value : ip ≡ address a b c d

fold_four :
    (a b c d : ℕ)
    → a ≤ 255
    → b ≤ 255
    → c ≤ 255
    → d ≤ 255
    → push_octet (push_octet (push_octet (push_octet 0 a) b) c) d ≡ address a b c d
fold_four a b c d ha hb hc hd =
    let e1 : push_octet 0 a ≡ a = push_octet_lem 0 a (omega arith) ha ∙ omega arith in
    let e2 : push_octet (push_octet 0 a) b ≡ a * 256 + b =
      ap (λ t. push_octet t b) e1 ∙ push_octet_lem a b (omega arith) hb in
    let e3 : push_octet (push_octet (push_octet 0 a) b) c ≡ (a * 256 + b) * 256 + c =
      ap (λ t. push_octet t c) e2 ∙ push_octet_lem (a * 256 + b) c (omega arith) hc in
    ap (λ t. push_octet t d) e3 ∙ push_octet_lem ((a * 256 + b) * 256 + c) d (omega arith) hd

decimal-lacks : (sep n : ℕ) → leb b'0' sep ≡ false → n ≤ 255 → lacks sep (decimal n) ≡ true
unfolding decimal
decimal-lacks sep n h k = ground arith

fold_step :
    (acc n : ℕ) (ps : List Bytes)
    → n ≤ 255
    → fold_octets acc (decimal n ∷ ps) ≡ fold_octets (push_octet acc n) ps
unfolding fold_octets
fold_step acc n ps h = rw (octet-decimal n h, fold_octets)

ipv4_parts-written :
    (sep a b c d : ℕ)
    → leb b'0' sep ≡ false
    → a ≤ 255
    → b ≤ 255
    → c ≤ 255
    → d ≤ 255
    → ipv4_parts (written sep a b c d) sep ≡ some (address a b c d)
unfolding ipv4_parts fold_octets
ipv4_parts-written sep a b c d h ha hb hc hd =
    let lack = λ (n : ℕ) (k : n ≤ 255). decimal-lacks sep n h k in
    let parts =
      split-glue sep (decimal a) (decimal b ∷ decimal c ∷ decimal d ∷ []) (lack a ha)
        (and_intro (lack b hb) (and_intro (lack c hc) (and_intro (lack d hd) refl))) in
    rw parts (
      fold_step 0 a (decimal b ∷ decimal c ∷ decimal d ∷ []) ha
      ∙ fold_step (push_octet 0 a) b (decimal c ∷ decimal d ∷ []) hb
      ∙ fold_step (push_octet (push_octet 0 a) b) c (decimal d ∷ []) hc
      ∙ fold_step (push_octet (push_octet (push_octet 0 a) b) c) d [] hd
      ∙ ap some (fold_four a b c d ha hb hc hd))

four_parts :
    (parts : List Bytes)
    → (length parts == 4) ≡ true
    → (p : Bytes) × (q : Bytes) × (r : Bytes) × (t : Bytes) × (parts ≡ p ∷ q ∷ r ∷ t ∷ [])
four_parts [] h = absurd (ground arith)
four_parts (p ∷ []) h = absurd (ground arith)
four_parts (p ∷ q ∷ []) h = absurd (ground arith)
four_parts (p ∷ q ∷ r ∷ []) h = absurd (ground arith)
four_parts (p ∷ q ∷ r ∷ t ∷ []) h = (p, q, r, t, refl)
four_parts (p ∷ q ∷ r ∷ t ∷ u ∷ rest) h = absurd (ground arith)

fold_octets-cons :
    (acc : ℕ) (p : Bytes) (ps : List Bytes) (ip : ℕ)
    → fold_octets acc (p ∷ ps) ≡ some ip
    → (n : ℕ) × (octet p ≡ some n) × (fold_octets (push_octet acc n) ps ≡ some ip)
unfolding fold_octets
fold_octets-cons acc p ps ip h = elim (Option-cases (octet p)) [
  | inl e ↦ absurd (ground arith)
  | inr (n, e) ↦ (n, e, rw (e, fold_octets) at h)
]

last_eq : {acc ip : ℕ} → fold_octets acc [] ≡ some ip → ip ≡ acc
unfolding fold_octets
last_eq e = ground arith

read_octets :
    (sep : ℕ) (s : Bytes) (ip : ℕ) (p q r t : Bytes)
    → s ≡ p ++ joined sep (q ∷ r ∷ t ∷ [])
    → fold_octets 0 (p ∷ q ∷ r ∷ t ∷ []) ≡ some ip
    → IsAddress sep s ip
read_octets sep s ip p q r t whole folded =
    let (a, ea, fa) = fold_octets-cons 0 p (q ∷ r ∷ t ∷ []) ip folded in
    let (b, eb, fb) = fold_octets-cons (push_octet 0 a) q (r ∷ t ∷ []) ip fa in
    let (c, ec, fc) = fold_octets-cons (push_octet (push_octet 0 a) b) r (t ∷ []) ip fb in
    let (d, ed, fd) = fold_octets-cons (push_octet (push_octet (push_octet 0 a) b) c) t [] ip fc in
    let (pa, ha) = decimal-octet p a ea in
    let (pb, hb) = decimal-octet q b eb in
    let (pc, hc) = decimal-octet r c ec in
    let (pd, hd) = decimal-octet t d ed in
    record {
      a = a;
      b = b;
      c = c;
      d = d;
      in_range = (ha, hb, hc, hd);
      text = whole ∙ same_parts pa pb pc pd;
      value = last_eq fd ∙ fold_four a b c d ha hb hc hd;
    }
  where
    same_parts :
        {a b c d : Bytes}
        → p ≡ a
        → q ≡ b
        → r ≡ c
        → t ≡ d
        → p ++ joined sep (q ∷ r ∷ t ∷ []) ≡ a ++ joined sep (b ∷ c ∷ d ∷ [])
    same_parts e f g h = cc

-- `ipv4_parts`, with a separator below the digits, reads exactly the texts that write four
-- octets without leading zeros, and gives the address they write.
pub ipv4_parts-IsAddress :
    (sep : ℕ) (s : Bytes) (ip : ℕ)
    → leb b'0' sep ≡ false
    → (ipv4_parts s sep ≡ some ip → IsAddress sep s ip)
      × (IsAddress sep s ip → ipv4_parts s sep ≡ some ip)
unfolding ipv4_parts
ipv4_parts-IsAddress sep s ip h = (forth, back)
  where
    forth : ipv4_parts s sep ≡ some ip → IsAddress sep s ip
    forth e =
        let count : (length (split sep s) == 4) ≡ true = ground arith in
        let (p, q, r, t, f) = four_parts (split sep s) count in
        let folded : fold_octets 0 (p ∷ q ∷ r ∷ t ∷ []) ≡ some ip = rw (count, f) at e in
        let whole : s ≡ p ++ joined sep (q ∷ r ∷ t ∷ []) =
          sym (glue-split sep s) ∙ unfold glue in ap (glue sep) f in
        read_octets sep s ip p q r t whole folded

    back : IsAddress sep s ip → ipv4_parts s sep ≡ some ip
    back v =
        ap (λ t. ipv4_parts t sep) v.text
        ∙ ipv4_parts-written sep v.a v.b v.c v.d h v.in_range.0 v.in_range.1 v.in_range.2
            v.in_range.3
        ∙ ap some (sym v.value)
