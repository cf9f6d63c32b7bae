-- ===== src/SignedPlan/Text/Address/Routes.antt =====
-- Public webhook addresses and default routes, by what their texts write.
use permanu_agent.Base.{
  ℕ, ◌+◌, ◌-◌, ◌^◌, ◌≤◌, ◌<◌, ◌≡◌, refl, sym, ap, ◌∙◌, ◌↔◌, ◌⊎◌, inl, inr, Bool, true, false, ◌&&◌,
  ◌∷◌, ◌++◌, Option, none, some, is_some, is_some_and, arith, ◌==◌, all, All, Bytes, codes,
  strip_suffix, split_once, Option-cases, and_intro, and_elim,
}
use permanu_agent.SignedPlan.Text.{is_host, is_edge}
use permanu_agent.SignedPlan.Text.Address.{
  ipv4_parts, public_ipv4, outside, Block, non_public_ipv4, route_label, default_route,
}
use permanu_agent.SignedPlan.Text.Address.Octets.{IsAddress, ipv4_parts-IsAddress}
use permanu_agent.SignedPlan.Text.Split.{Lacks}
use permanu_agent.SignedPlan.Text.SplitOnce.{Parted, split_once-Parted, split_once-append}
use permanu_agent.SignedPlan.Text.SplitPatterns.{all-lacks}
use permanu_agent.SignedPlan.Text.Suffix.{strip_suffix-append, strip_suffix-eq_some}

-- `ip` is none of the addresses `net` to `net + 2 ^ (32 - bits) - 1`.
abbrev pub IsOutside : ℕ → Block → Type 0
IsOutside ip (net, bits) = (ip < net) ⊎ (net + 2 ^ (32 - bits) ≤ ip)

all-outside :
    (ip : ℕ) → (all (outside ip) non_public_ipv4 ≡ true) ↔ All (IsOutside ip) non_public_ipv4
all-outside ip = (λ h. ground arith, λ a. ground arith)

-- `public_ipv4` accepts exactly the dotted texts of four octets without leading zeros whose
-- address lies in none of the special-purpose blocks, each taken as its range of addresses.
pub public_ipv4-IsAddress :
    (s : Bytes)
    → (public_ipv4 s ≡ true → (ip : ℕ) × IsAddress b'.' s ip × All (IsOutside ip) non_public_ipv4)
      × ((ip : ℕ) → IsAddress b'.' s ip → All (IsOutside ip) non_public_ipv4 → public_ipv4 s ≡ true)
unfolding public_ipv4
public_ipv4-IsAddress s = (forth, back)
  where
    forth :
        public_ipv4 s ≡ true → (ip : ℕ) × IsAddress b'.' s ip × All (IsOutside ip) non_public_ipv4
    forth h = elim (Option-cases (ipv4_parts s b'.')) [
      | inl e ↦ absurd (let bad : false ≡ true = rw (e, is_some_and) at h in cc)
      | inr (ip, e) ↦ (
        ip,
        (ipv4_parts-IsAddress b'.' s ip refl).0 e,
        (all-outside ip).0 (rw (e, is_some_and) at h),
      )
    ]

    back :
        (ip : ℕ) → IsAddress b'.' s ip → All (IsOutside ip) non_public_ipv4 → public_ipv4 s ≡ true
    back ip a o = rw ((ipv4_parts-IsAddress b'.' s ip refl).1 a, is_some_and) ((all-outside ip).1 o)

-- `<label>.<a>-<b>-<c>-<d>.sslip.io`.
pub record IsRoute (s : Bytes) : Type 0 where
  pub label : Bytes
  pub ip_text : Bytes
  pub ip : ℕ
  pub text : s ≡ (label ++ (b'.' ∷ ip_text)) ++ codes ".sslip.io"
  pub label_ok : route_label label ≡ true
  pub ip_ok : IsAddress b'-' ip_text ip

is_host-lacks : (c : ℕ) → is_host c ≡ true → (c == b'.') ≡ false
unfolding is_host is_edge
is_host-lacks c h = ground arith

route_label-Lacks : Lacks b'.' route_label
unfolding route_label
route_label-Lacks s h = all-lacks b'.' is_host s is_host-lacks (ground arith)

abbrev halves_ok : Bytes → Bytes → Bool
halves_ok label ip = route_label label && is_some (ipv4_parts ip b'-')

abbrev rest_ok : Bytes → Bool
rest_ok rest = elim (split_once b'.' rest) [ none ↦ false | some (label, ip) ↦ halves_ok label ip ]

rest_forth : (s rest : Bytes) → s ≡ rest ++ codes ".sslip.io" → rest_ok rest ≡ true → IsRoute s
rest_forth s rest e h = go (split_once b'.' rest) refl (split_once-Parted b'.' rest)
  where
    go : (o : Option (Bytes × Bytes)) → split_once b'.' rest ≡ o → Parted b'.' rest o → IsRoute s
    go none f p = absurd (let bad : false ≡ true = rw (f, rest_ok) at h in cc)
    go (some (label, ip_text)) f p =
        let (label_ok, some_ip) =
          and_elim (route_label label) (is_some (ipv4_parts ip_text b'-')) (rw (f, rest_ok) at h) in
        elim (Option-cases (ipv4_parts ip_text b'-')) [
          | inl g ↦ absurd (let bad : false ≡ true = rw (g, is_some) at some_ip in cc)
          | inr (ip, g) ↦ record {
            label = label;
            ip_text = ip_text;
            ip = ip;
            text = e ∙ ap (λ t. t ++ codes ".sslip.io") p.0;
            label_ok = label_ok;
            ip_ok = (ipv4_parts-IsAddress b'-' ip_text ip refl).0 g;
          }
        ]

abbrev pair_ok : Option (Bytes × Bytes) → Bool
pair_ok none = false
pair_ok (some (label, ip)) = halves_ok label ip

abbrev suffix_ok : Option Bytes → Bool
suffix_ok none = false
suffix_ok (some rest) = rest_ok rest

default_route_rest : (s : Bytes) → default_route s ≡ suffix_ok (strip_suffix (codes ".sslip.io") s)
unfolding default_route
default_route_rest s = ground arith

rest_ok_pair : (rest : Bytes) → rest_ok rest ≡ pair_ok (split_once b'.' rest)
rest_ok_pair rest = ground arith

rest_back : (s : Bytes) (r : IsRoute s) → rest_ok (r.label ++ (b'.' ∷ r.ip_text)) ≡ true
rest_back s r =
    rest_ok_pair (r.label ++ (b'.' ∷ r.ip_text))
    ∙ ap pair_ok (split_once-append b'.' r.label r.ip_text (route_label-Lacks r.label r.label_ok))
    ∙ and_intro r.label_ok (ap is_some ((ipv4_parts-IsAddress b'-' r.ip_text r.ip refl).1 r.ip_ok))

-- `default_route` accepts exactly the texts `<label>.<a>-<b>-<c>-<d>.sslip.io` whose label is a
-- DNS label and whose octets have no leading zeros.
pub default_route-IsRoute :
    (s : Bytes) → (default_route s ≡ true → IsRoute s) × (IsRoute s → default_route s ≡ true)
default_route-IsRoute s = (forth, back)
  where
    forth : default_route s ≡ true → IsRoute s
    forth h = elim (Option-cases (strip_suffix (codes ".sslip.io") s)) [
      | inl e ↦
          absurd (let bad : false ≡ true = rw e at (sym (default_route_rest s) ∙ h) in ground arith)
      | inr (rest, e) ↦
          rest_forth s rest (strip_suffix-eq_some (codes ".sslip.io") s rest e)
            (ap suffix_ok (sym e) ∙ sym (default_route_rest s) ∙ h)
    ]

    back : IsRoute s → default_route s ≡ true
    back r =
        default_route_rest s
        ∙ ap suffix_ok (
            ap (strip_suffix (codes ".sslip.io")) r.text
            ∙ strip_suffix-append (codes ".sslip.io") (r.label ++ (b'.' ∷ r.ip_text)))
        ∙ rest_back s r
