-- ===== src/Spool/Opened.antt =====
-- The state that opening a spool gives (src/spool.rs).
use mathlib.Core.List.{Perm}
use mathlib.Core.List.Perm
use permanu_agent.Spool.Load.{
  total_records, total_bytes, load_state, scan_segment, entry_path, parse_segment_sequence,
  insert_segment, scan_entries, sort_segments,
}
use permanu_agent.Base.{
  ok_or-eq_ok, unwrap_or, Option-cases, ap, ok_or, bind-eq_ok, refl, last?, none, sym, Option,
  ok_inj, arith, if◌then◌else◌, subst, Bool-cases, ℕ, ◌-◌, ◌^◌, ◌<◌, ◌≤◌, ◌≡◌, ◌⊎◌, inl, inr, Bool,
  true, false, List, [], ◌∷◌, some, Bytes, Result, ok, ◌>>=◌, All, leb, leb→le, leb→lt,
}
use permanu_agent.Spool.{next_u64, IoError, SpoolState, Files, Segment, other}

-- The sequence numbers do not fall.
abbrev pub AreOrdered : List Segment → Type 0
AreOrdered [] = Unit
AreOrdered (s ∷ ss) = All (λ t. s.sequence ≤ t.sequence) ss × AreOrdered ss

insert-All :
    (P : Segment → Type 0) (s : Segment) (ss : List Segment)
    → P s
    → All P ss
    → All P (insert_segment s ss)
unfolding insert_segment
insert-All P s [] p a = (p, tt)
insert-All P s (t ∷ ss) p a = elim (Bool-cases (leb s.sequence t.sequence)) [
  | inl e ↦ subst (λ b. All P (if b then s ∷ t ∷ ss else t ∷ insert_segment s ss)) (sym e) (p, a)
  | inr e ↦
      subst (λ b. All P (if b then s ∷ t ∷ ss else t ∷ insert_segment s ss)) (sym e)
        (a.0, insert-All P s ss p a.1)
]

All-map :
    (P Q : Segment → Type 0) (ss : List Segment) → ((s : Segment) → P s → Q s) → All P ss → All Q ss
All-map P Q [] f a = tt
All-map P Q (s ∷ ss) f a = (f s a.0, All-map P Q ss f a.1)

insert-AreOrdered :
    (s : Segment) (ss : List Segment) → AreOrdered ss → AreOrdered (insert_segment s ss)
unfolding insert_segment
insert-AreOrdered s [] o = (tt, tt)
insert-AreOrdered s (t ∷ ss) o = elim (Bool-cases (leb s.sequence t.sequence)) [
  | inl e ↦
      let below = leb→le s.sequence t.sequence e in
      let rest =
        All-map (λ u. t.sequence ≤ u.sequence) (λ u. s.sequence ≤ u.sequence) ss
          (λ u h. omega (arith, below, h)) o.0 in
      subst (λ b. AreOrdered (if b then s ∷ t ∷ ss else t ∷ insert_segment s ss)) (sym e)
        ((below, rest), o)
  | inr e ↦
      let above = leb→lt s.sequence t.sequence e in
      subst (λ b. AreOrdered (if b then s ∷ t ∷ ss else t ∷ insert_segment s ss)) (sym e)
        (
          insert-All (λ u. t.sequence ≤ u.sequence) s ss (omega (arith, above)) o.0,
          insert-AreOrdered s ss o.1,
        )
]

sort-AreOrdered : (ss : List Segment) → AreOrdered (sort_segments ss)
unfolding sort_segments
sort-AreOrdered [] = tt
sort-AreOrdered (s ∷ ss) = insert-AreOrdered s (sort_segments ss) (sort-AreOrdered ss)

-- A segment is what scanning the file of a name gives, under the number in the name.
pub record IsScanned (dir : Bytes) (files : Files) (name : Bytes) (s : Segment) : Type 0 where
  pub numbered : parse_segment_sequence name ≡ some s.sequence
  pub path_is : s.path ≡ entry_path dir name
  pub counted : scan_segment s.path files ≡ ok (s.bytes, s.records)

-- The segments of a listing, in its order: one for each regular file whose name has a number, and
-- none for another entry.
pub data AreScanned (dir : Bytes) (files : Files)
    : List (Bytes × Bool) → List Segment → Type 0 where
  no_entries : AreScanned dir files [] []
  no_file :
      (name : Bytes) {entries : List (Bytes × Bool)} {ss : List Segment}
      → AreScanned dir files entries ss
      → AreScanned dir files ((name, false) ∷ entries) ss
  no_number :
      (name : Bytes) {entries : List (Bytes × Bool)} {ss : List Segment}
      → parse_segment_sequence name ≡ none
      → AreScanned dir files entries ss
      → AreScanned dir files ((name, true) ∷ entries) ss
  a_scanned :
      (name : Bytes) (s : Segment) {entries : List (Bytes × Bool)} {ss : List Segment}
      → IsScanned dir files name s
      → AreScanned dir files entries ss
      → AreScanned dir files ((name, true) ∷ entries) (s ∷ ss)

-- The turn of the loop for a file, by whether its name has a number.
scan_named :
    Bytes → Files → Bytes → Result IoError (List Segment) → Option ℕ → Result IoError (List Segment)
scan_named dir files name rest none = rest
scan_named dir files name rest (some sequence) =
    scan_segment (entry_path dir name) files >>= λ counts.
    (rest >>= λ segments. ok (
      record {
        sequence = sequence;
        path = entry_path dir name;
        bytes = counts.0;
        records = counts.1;
      }
      ∷ segments))

scan_named-AreScanned :
    (dir : Bytes) (files : Files) (name : Bytes) (entries : List (Bytes × Bool))
    (rest : Result IoError (List Segment)) (o : Option ℕ) {ss : List Segment}
    → ((qs : List Segment) → rest ≡ ok qs → AreScanned dir files entries qs)
    → parse_segment_sequence name ≡ o
    → scan_named dir files name rest o ≡ ok ss
    → AreScanned dir files ((name, true) ∷ entries) ss
unfolding scan_named
scan_named-AreScanned dir files name entries rest none {ss = ss} later e k =
    no_number name e (later ss k)
scan_named-AreScanned dir files name entries rest (some sequence) later e k =
    let (counts, c, k') = bind-eq_ok (scan_segment (entry_path dir name) files) _ k in
    let (qs, r, k'') = bind-eq_ok rest _ k' in
    subst (AreScanned dir files ((name, true) ∷ entries)) (ok_inj k'')
      (a_scanned name _ (record { numbered = e; path_is = refl; counted = c }) (later qs r))

scan_entries-AreScanned :
    (dir : Bytes) (files : Files) (entries : List (Bytes × Bool)) (ss : List Segment)
    → scan_entries dir files entries ≡ ok ss
    → AreScanned dir files entries ss
unfolding scan_entries scan_named
scan_entries-AreScanned dir files [] ss h = subst (AreScanned dir files []) (ok_inj h) no_entries
scan_entries-AreScanned dir files ((name, false) ∷ entries) ss h =
    no_file name (scan_entries-AreScanned dir files entries ss h)
scan_entries-AreScanned dir files ((name, true) ∷ entries) ss h =
    scan_named-AreScanned dir files name entries (scan_entries dir files entries)
      (parse_segment_sequence name) (scan_entries-AreScanned dir files entries) refl h

insert-Perm : (s : Segment) (ss : List Segment) → Perm (s ∷ ss) (insert_segment s ss)
unfolding insert_segment
insert-Perm s [] = Perm.refl (s ∷ [])
insert-Perm s (t ∷ ss) = elim (Bool-cases (leb s.sequence t.sequence)) [
  | inl e ↦
      subst (λ b. Perm (s ∷ t ∷ ss) (if b then s ∷ t ∷ ss else t ∷ insert_segment s ss)) (sym e)
        (Perm.refl (s ∷ t ∷ ss))
  | inr e ↦
      subst (λ b. Perm (s ∷ t ∷ ss) (if b then s ∷ t ∷ ss else t ∷ insert_segment s ss)) (sym e)
        (Perm.trans (Perm.swap t s ss) (Perm.cons t (insert-Perm s ss)))
]

sort-Perm : (ss : List Segment) → Perm ss (sort_segments ss)
unfolding sort_segments
sort-Perm [] = Perm.nil
sort-Perm (s ∷ ss) = Perm.trans (Perm.cons s (sort-Perm ss)) (insert-Perm s (sort_segments ss))

-- The state of a spool that was opened on a directory with these entries.
pub record IsLoadedState (dir : Bytes) (files : Files) (listing : Option (List (Bytes × Bool)))
    (st : SpoolState) : Type 0 where
  pub entries : List (Bytes × Bool)
  pub found : List Segment
  pub listed : listing ≡ some entries
  pub scanned : AreScanned dir files entries found
  pub same_segments : Perm found st.segments
  pub ordered : AreOrdered st.segments
  pub bytes_total : st.bytes ≡ total_bytes st.segments
  pub records_total : st.records ≡ total_records st.segments
  pub none_dropped : (st.dropped_records ≡ 0) × (st.dropped_bytes ≡ 0)
  pub next_above :
      All (λ s. (s.sequence < st.next_sequence) ⊎ (st.next_sequence ≡ 2 ^ 64 - 1)) st.segments

above_last :
    (s : Segment) (ss : List Segment) (t : Segment)
    → AreOrdered (s ∷ ss)
    → last? (s ∷ ss) ≡ some t
    → All (λ u. u.sequence ≤ t.sequence) (s ∷ ss)
above_last s [] t o e =
    (subst (λ u. s.sequence ≤ u.sequence) (ap (unwrap_or s) e) (omega arith), tt)
above_last s (u ∷ ss) t o e =
    let later = above_last u ss t o.1 e in (omega (arith, o.0.0, later.0), later)

abbrev next_of : Option Segment → ℕ
next_of o = elim o [ none ↦ 0 | some s ↦ next_u64 s.sequence ]

abbrev next_after_last : List Segment → ℕ
next_after_last ss = next_of (last? ss)

last?-cons : (s : Segment) (ss : List Segment) → ¬ (last? (s ∷ ss) ≡ none)
last?-cons s [] e = (let impossible : some s ≡ none = e in cc)
last?-cons s (t ∷ ss) e = last?-cons t ss e

below_next : (a b : ℕ) → a ≤ b → (a < next_u64 b) ⊎ (next_u64 b ≡ 2 ^ 64 - 1)
below_next a b h = ground arith

above_next :
    (ss : List Segment)
    → AreOrdered ss
    → All (λ s. (s.sequence < next_after_last ss) ⊎ (next_after_last ss ≡ 2 ^ 64 - 1)) ss
above_next [] o = tt
above_next (s ∷ ss) o = elim (Option-cases (last? (s ∷ ss))) [
  | inl e ↦ absurd (last?-cons s ss e)
  | inr (t, e) ↦
      subst (λ n. All (λ u. (u.sequence < n) ⊎ (n ≡ 2 ^ 64 - 1)) (s ∷ ss)) (sym (ap next_of e))
        (All-map (λ u. u.sequence ≤ t.sequence)
          (λ u. (u.sequence < next_u64 t.sequence) ⊎ (next_u64 t.sequence ≡ 2 ^ 64 - 1)) (s ∷ ss)
          (λ u h. below_next u.sequence t.sequence h) (above_last s ss t o e))
]

-- A spool that opens holds one segment for each regular file that the directory lists under a name
-- with a number, with that number and with the counts that scanning the file gives, and no other;
-- they stand in the order of the numbers. Its totals are the wrapped sums over them, nothing counts
-- as dropped, and the next number is above every number in use, unless it stands at the greatest of
-- 64 bits.
pub load_state-IsLoadedState :
    (dir : Bytes) (files : Files) (listing : Option (List (Bytes × Bool))) (st : SpoolState)
    → load_state dir files listing ≡ ok st
    → IsLoadedState dir files listing st
unfolding load_state
load_state-IsLoadedState dir files listing st h =
    let (entries, e0, h0) = bind-eq_ok (ok_or other listing) _ h in
    let (found, e1, h1) = bind-eq_ok (scan_entries dir files entries) _ h0 in
    let segments = sort_segments found in
    subst (IsLoadedState dir files listing) (ok_inj h1) (record {
      entries = entries;
      found = found;
      listed = ok_or-eq_ok other listing e0;
      scanned = scan_entries-AreScanned dir files entries found e1;
      same_segments = sort-Perm found;
      ordered = sort-AreOrdered found;
      bytes_total = refl;
      records_total = refl;
      none_dropped = (refl, refl);
      next_above = above_next segments (sort-AreOrdered found);
    })
