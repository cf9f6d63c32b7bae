-- ===== src/SignedPlan/Text/Hosts.antt =====
-- Image repositories and host names.
use mathlib.Core.List.{append-nil, append_assoc}
use permanu_agent.Base.{
  ℕ, suc, ◌≤◌, ◌≡◌, refl, sym, ap, ◌∙◌, ◌↔◌, ◌⊎◌, inl, inr, Bool, true, false, not, ◌&&◌, List, [],
  ◌∷◌, ◌++◌, Option, none, some, arith, length, all, is_nil, leb, ◌==◌, within, Bytes, Bool-cases,
  and_intro, and_elim, split, split_once, is_digit, is_lower, all-append,
}
use permanu_agent.SignedPlan.Text.{
  bucket, image_component, image_host, image_repository, is_image, is_edge, is_host, digits,
  host_label, host_labels, hostname,
}
use permanu_agent.SignedPlan.Text.Regex.{
  Regex, cls, lit, seq, opt, rep, plus, Pow, none_left, one_more, Matches, Decides, decide_rep,
  decide_of_eq,
}
use permanu_agent.SignedPlan.Text.Split.{
  Lacks, lacks, joined, glue, glue-split, split-glue, parts_pattern, decide_parts,
}
use permanu_agent.SignedPlan.Text.SplitOnce.{Parted, split_once-Parted, once, decide_once}
use permanu_agent.SignedPlan.Text.SplitPatterns.{all-lacks, digit_not}
use permanu_agent.SignedPlan.Text.Edges.{
  component_pattern, image_component-Decides, label_pattern, label-Decides, final_label_pattern,
  final_label-Decides, bucket_pattern, bucket-Decides,
}

-- `component(:[0-9]{1,5})?`.
abbrev pub image_host_pattern : Regex
image_host_pattern = seq component_pattern (opt (seq (lit b':') (rep 1 5 (cls is_digit))))

-- `component(:[0-9]{1,5})?(/component){0,6}`.
abbrev pub image_pattern : Regex
image_pattern = parts_pattern b'/' image_host_pattern 0 6 component_pattern

image_not : (sep c : ℕ) → sep ≡ b':' ⊎ (sep ≡ b'/') → is_image c ≡ true → (c == sep) ≡ false
unfolding is_image is_edge is_lower is_digit
image_not sep c k h = ground arith

component-Lacks : (sep : ℕ) → sep ≡ b':' ⊎ (sep ≡ b'/') → Lacks sep image_component
unfolding image_component
component-Lacks sep k s h = all-lacks sep is_image s (λ c. image_not sep c k) (ground arith)

abbrev port : Bytes → Bool
port s = digits s && leb (length s) 5

port-rep : (s : Bytes) → port s ≡ (within 1 5 (length s) && all is_digit s)
unfolding digits
port-rep [] = refl
port-rep (c ∷ s) = ground arith

port-Decides : Decides port (rep 1 5 (cls is_digit))
port-Decides = decide_of_eq port _ (rep 1 5 (cls is_digit)) port-rep (decide_rep is_digit 1 5)

image_host-once :
    (s : Bytes) → image_host s ≡ once b':' image_component (λ a b. image_component a && port b) s
unfolding image_host
image_host-once s = ground arith

image_host-Decides : Decides image_host image_host_pattern
image_host-Decides = decide_of_eq image_host _ image_host_pattern image_host-once (
    decide_once b':' image_component port component_pattern (rep 1 5 (cls is_digit))
      image_component-Decides port-Decides (component-Lacks b':' (inl refl)))

image_host-Lacks : Lacks b'/' image_host
unfolding image_host digits
image_host-Lacks s h = go (split_once b':' s) refl (split_once-Parted b':' s)
  where
    go :
        (o : Option (Bytes × Bytes)) → split_once b':' s ≡ o → Parted b':' s o → lacks b'/' s ≡ true
    go none e p = component-Lacks b'/' (inr refl) s (ground arith)
    go (some (a, b)) e p = rw p.0 (
        ground (
          arith,
          all-append (λ c. not (c == b'/')) a (b':' ∷ b),
          component-Lacks b'/' (inr refl) a,
          all-lacks b'/' is_digit b (λ c. digit_not b'/' c refl),
        ))

image_repository-Decides : Decides image_repository image_pattern
unfolding image_repository
image_repository-Decides =
    decide_parts b'/' image_host image_host_pattern 0 6 image_component component_pattern
      image_host-Decides image_component-Decides image_host-Lacks (component-Lacks b'/' (inr refl))

-- `(label\.)+final`.
abbrev pub hostname_pattern : Regex
hostname_pattern = seq (plus (seq label_pattern (lit b'.'))) final_label_pattern

labels_forth :
    (p q : Bytes) (ps : List Bytes)
    → host_labels (p ∷ q ∷ ps) ≡ true
    → Matches hostname_pattern (p ++ joined b'.' (q ∷ ps))
unfolding host_labels joined
labels_forth p q [] h =
    let (hp, hq) = and_elim (host_label p false) (host_label q true) h in
    (
      p ++ b'.' ∷ [],
      q,
      rw (append-nil q, append_assoc p (b'.' ∷ []) q),
      (
        1,
        omega arith,
        one_more {v = []} (sym (append-nil _)) (p, b'.' ∷ [], refl, (label-Decides p).0 hp, refl)
            (none_left refl),
      ),
      (final_label-Decides q).0 hq,
    )
labels_forth p q (r ∷ rs) h =
    let (hp, hq) = and_elim (host_label p false) (host_labels (q ∷ r ∷ rs)) h in
    let (u, v, e, (n, l, w), m) = labels_forth q r rs hq in
    (
      (p ++ b'.' ∷ []) ++ u,
      v,
      ap (λ t. p ++ (b'.' ∷ t)) e
          ∙ sym (append_assoc p (b'.' ∷ []) (u ++ v))
          ∙ sym (append_assoc (p ++ b'.' ∷ []) u v),
      (suc n, omega arith, one_more refl (p, b'.' ∷ [], refl, (label-Decides p).0 hp, refl) w),
      m,
    )

-- The labels of a matching text.
record Labels (s : Bytes) (n : ℕ) : Type 0 where
  first : Bytes
  rest : List Bytes
  whole : s ≡ first ++ joined b'.' rest
  accepted : host_labels (first ∷ rest) ≡ true
  count : length rest ≡ n
  first_lacks : lacks b'.' first ≡ true
  rest_lacks : all (lacks b'.') rest ≡ true

is_host-not_dot : (c : ℕ) → is_host c ≡ true → (c == b'.') ≡ false
unfolding is_host is_edge is_lower is_digit
is_host-not_dot c k = ground arith

host_label-Lacks : (final : Bool) → Lacks b'.' (λ s. host_label s final)
unfolding host_label
host_label-Lacks final s h = all-lacks b'.' is_host s is_host-not_dot (ground arith)

Labels-back :
    {n : ℕ} {u : Bytes} (v : Bytes)
    → Pow (Matches (seq label_pattern (lit b'.'))) n u
    → Matches final_label_pattern v
    → Labels (u ++ v) n
unfolding host_labels joined
Labels-back v (none_left e) m =
    let ok_final : host_label v true ≡ true = (final_label-Decides v).1 m in
    record {
      first = v;
      rest = [];
      whole = ap (λ t. t ++ v) e ∙ sym (append-nil v);
      accepted = ok_final;
      count = refl;
      first_lacks = host_label-Lacks true v ok_final;
      rest_lacks = refl;
    }
Labels-back v (one_more {u = u} {v = w} e (p, d, f, k, g) rest) m =
    let ok_label : host_label p false ≡ true = (label-Decides p).1 k in
    let more = Labels-back v rest m in
    record {
      first = p;
      rest = more.first ∷ more.rest;
      whole =
          ap (λ t. t ++ v) (e ∙ ap (λ t. t ++ w) (f ∙ ap (λ t. p ++ t) g))
          ∙ append_assoc (p ++ b'.' ∷ []) w v
          ∙ append_assoc p (b'.' ∷ []) (w ++ v)
          ∙ ap (λ t. p ++ (b'.' ∷ t)) more.whole;
      accepted = and_intro ok_label more.accepted;
      count = ap suc more.count;
      first_lacks = host_label-Lacks false p ok_label;
      rest_lacks = and_intro more.first_lacks more.rest_lacks;
    }

split_nil : (sep : ℕ) (s : Bytes) → is_nil s ≡ true → split sep s ≡ [] ∷ []
unfolding split
split_nil sep [] h = refl
split_nil sep (c ∷ s) h = cc

-- `hostname` accepts exactly the texts of at most 253 bytes that match `(label\.)+final`.
pub hostname-Matches :
    (s : Bytes) → (hostname s ≡ true) ↔ ((length s ≤ 253) × Matches hostname_pattern s)
unfolding hostname
hostname-Matches s = (forth, back)
  where
    forth : hostname s ≡ true → (length s ≤ 253) × Matches hostname_pattern s
    forth h = (ground arith, go (split b'.' s) refl)
      where
        go : (parts : List Bytes) → split b'.' s ≡ parts → Matches hostname_pattern s
        go [] e = absurd (ground arith)
        go (p ∷ []) e = absurd (ground arith)
        go (p ∷ q ∷ ps) e =
            let whole : s ≡ p ++ joined b'.' (q ∷ ps) =
              sym (glue-split b'.' s) ∙ unfold glue in rw e in
            rw whole (labels_forth p q ps (ground arith))

    back : (length s ≤ 253) × Matches hostname_pattern s → hostname s ≡ true
    back (l, (u, v, e, (n, k, w), m)) =
        let found = Labels-back v w m in
        let parts : split b'.' s ≡ found.first ∷ found.rest =
          ap (split b'.') (e ∙ found.whole)
          ∙ split-glue b'.' found.first found.rest found.first_lacks found.rest_lacks in
        elim (Bool-cases (is_nil s)) [
          | inl z ↦ absurd (ground (arith, split_nil b'.' s, found.count))
          | inr z ↦ rw parts (ground (arith, found.count))
        ]

-- `bucket` and `image_repository` accept exactly the texts that match the patterns their comments
-- state.
pub edge_patterns : Decides bucket bucket_pattern × Decides image_repository image_pattern
edge_patterns = (bucket-Decides, image_repository-Decides)
