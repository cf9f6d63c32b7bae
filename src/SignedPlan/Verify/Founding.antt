-- ===== src/SignedPlan/Verify/Founding.antt =====
-- What a bootstrap rests on (src/signed_plan/verify.rs): `verify_bootstrap`.
use permanu_agent.SignedPlan.Verify.Signers.{kept_by}
use permanu_agent.SignedPlan.Verify.Fresh.{check_time-IsTimely, IsTimely}
use permanu_agent.SignedPlan.Jcs.{canonicalize}
use permanu_agent.SignedPlan.Schema.Rules.{single_target, text_or_empty}
use permanu_agent.SignedPlan.Verify.RulePlans.{actions_in}
use permanu_agent.SignedPlan.Verify.Envelope.{parse_envelope}
use permanu_agent.SignedPlan.Trust.{is_owner}
use permanu_agent.SignedPlan.Verify.Steps.{is_present_owner}
use permanu_agent.SignedPlan.Crypto.{
  hex, plan_prefix, prefixed_digest, verify_prehash, parse_spki_base64, PublicKey, Crypto,
}
use permanu_agent.SignedPlan.Verify.{check_time, Answer}
use permanu_agent.SignedPlan.Strict.{Parser}
use permanu_agent.SignedPlan.Verify.Bootstrap.{
  names_server, first, add_params, version_as_parse, map_err, BootstrapPlan, carries_owner,
  signed_by_carried, verify_bootstrap,
}
use permanu_agent.Base.{
  same_iff, none, sym, same_self, arith, contains, false, same, [], is_some_and-eq_true,
  is_some_and, is_nil, ◌∙◌, Option, ◌∷◌, refl, ==_iff, subst, ok_or-eq_ok, guard-eq_ok, and_elim,
  and_then, filter_option, ok_or, ◌==◌, guard, length, err, ok_inj, bind-eq_ok, ap, ok, true, not,
  ◌&&◌, List, some, Bytes, codes, ◌≡◌, ℤ,
}
use permanu_agent.SignedPlan.Codes.{PlanCode, bootstrap, parse, sig_invalid}
use permanu_agent.SignedPlan.Value.{as_array, same_value, string, index, is_text, Value, as_str}

-- The server is this one: its only target, its host key among those of the machine, and the digest of
-- its own recipient, which is not empty.
pub record IsThisServer (crypto : Crypto) (plan params : Value) (server_id : Bytes)
    (host_key_digests : List Bytes) (age_recipient : Bytes) : Type 0 where
  pub target : Value
  pub targets_are : as_array (index plan (codes "targets")) ≡ some (target ∷ [])
  pub target_is : same_value target (string server_id) ≡ true
  pub host_key :
      contains (text_or_empty (index params (codes "ssh_host_key_digest_hex"))) host_key_digests
      ≡ true
  pub has_recipient : ¬ (age_recipient ≡ [])
  pub recipient_is :
      as_str (index params (codes "age_recipient_fingerprint"))
      ≡ some (hex (crypto.codec.sha256 age_recipient))

-- The one signature is what the key made over the digest, and it names the key of the entry.
pub record IsItsSignature (crypto : Crypto) (owner : Value) (key : PublicKey) (digest : Bytes)
    (sig : Value) : Type 0 where
  pub raw : Bytes
  pub names_key : same_value (index sig (codes "key_id")) (index owner (codes "key_id")) ≡ true
  pub carries : and_then (as_str (index sig (codes "sig"))) crypto.codec.b64url_decode ≡ some raw
  pub verified : verify_prehash crypto key digest raw ≡ true

-- The plan of a bootstrap that is accepted.
pub record IsFounding (parser : Parser) (crypto : Crypto) (text : Bytes)
    (host_key_digests : List Bytes) (age_recipient : Bytes) (now : ℤ) (founded : BootstrapPlan)
    : Type 0 where
  pub plan : Value
  pub key : PublicKey
  pub canonical : Bytes
  pub action : Value
  pub sig : Value
  pub parsed : parse_envelope parser crypto text ≡ ok (plan, sig ∷ [])
  pub alone : actions_in plan ≡ action ∷ []
  pub adds : as_str (index action (codes "kind")) ≡ some (codes "server.add")
  pub server_is :
      founded.server_id ≡ text_or_empty (index (index action (codes "params")) (codes "server_id"))
  pub is_here :
      IsThisServer crypto plan
        (index action (codes "params"))
        founded.server_id
        host_key_digests
        age_recipient
  pub owner_is : founded.owner_key ≡ index (index action (codes "params")) (codes "owner_key")
  pub is_owner_key : as_str (index founded.owner_key (codes "role")) ≡ some (codes "owner")
  pub asks_presence : ¬ (as_str (index founded.owner_key (codes "presence")) ≡ some (codes "none"))
  pub by_user : as_str (index (index plan (codes "author")) (codes "kind")) ≡ some (codes "user")
  pub spki :
      parse_spki_base64 crypto (text_or_empty (index founded.owner_key (codes "spki"))) ≡ some key
  pub key_id_is : as_str (index founded.owner_key (codes "key_id")) ≡ some key.key_id
  pub canonical_is : canonicalize plan ≡ some canonical
  pub signed :
      IsItsSignature crypto founded.owner_key key
        (prefixed_digest crypto.codec plan_prefix canonical)
        sig
  pub timely : IsTimely plan now

is_text-eq : (t : Bytes) (v : Value) → is_text t v ≡ true → as_str v ≡ some t
is_text-eq t v h =
    let (u, e, k) = is_some_and-eq_true (same t) (as_str v) h in
    e ∙ ap some (sym ((same_iff t u).0 k))

is_text-ne : (t : Bytes) (v : Value) → not (is_text t v) ≡ true → ¬ (as_str v ≡ some t)
is_text-ne t v h e =
    let found : is_text t v ≡ true = ap (is_some_and (same t)) e ∙ same_self t in
    let opposite = ap not found in ground arith

one_of : (vs : List Value) → (length vs == 1) ≡ true → vs ≡ first vs ∷ []
one_of [] h = cc
one_of (v ∷ []) h = refl
one_of (v ∷ w ∷ vs) h = absurd (omega (arith, (==_iff (length (v ∷ w ∷ vs)) 1).0 h))

only_target :
    (o : Option (List Value)) (server : Value)
    → (elim o [ some (t ∷ []) ↦ same_value t server | _ ↦ false ]) ≡ true
    → (t : Value) × (o ≡ some (t ∷ [])) × (same_value t server ≡ true)
only_target none server h = cc
only_target (some []) server h = cc
only_target (some (t ∷ [])) server h = (t, refl, h)
only_target (some (t ∷ u ∷ ts)) server h = cc

not_nil : (t : Bytes) → not (is_nil t) ≡ true → ¬ (t ≡ [])
not_nil t h e = (let opposite = ap (λ s. not (is_nil s)) e in cc)

this_server :
    (crypto : Crypto) (plan params : Value) (server_id : Bytes) (host_key_digests : List Bytes)
    (age_recipient : Bytes)
    → single_target plan (string server_id) ≡ true
    → names_server crypto params host_key_digests age_recipient ≡ true
    → IsThisServer crypto plan params server_id host_key_digests age_recipient
unfolding single_target names_server
this_server crypto plan params server_id host_key_digests age_recipient s n =
    let (target, a, b) =
      only_target (as_array (index plan (codes "targets"))) (string server_id) s in
    let host =
      contains (text_or_empty (index params (codes "ssh_host_key_digest_hex"))) host_key_digests in
    let fingerprint =
      is_text (hex (crypto.codec.sha256 age_recipient))
        (index params (codes "age_recipient_fingerprint")) in
    let (n', f) = and_elim (host && not (is_nil age_recipient)) fingerprint n in
    let (k, r) = and_elim host (not (is_nil age_recipient)) n' in
    record {
      target = target;
      targets_are = a;
      target_is = b;
      host_key = k;
      has_recipient = not_nil age_recipient r;
      recipient_is = is_text-eq _ _ f;
    }

map_err-eq_ok :
    {A : Type 0} (f : PlanCode → PlanCode) (r : Answer A) {a : A} → map_err f r ≡ ok a → r ≡ ok a
map_err-eq_ok f (ok b) h = ap ok (ok_inj h)
map_err-eq_ok f (err e) h = cc

-- A bootstrap is accepted only of a plan by a user with the one action of adding this server: its one
-- target is the server, the host key that it names is one of the machine's, and the fingerprint is of
-- the machine's own recipient; the envelope has one signature, which names the key that the plan
-- carries and is what that key made over the plan's digest; that key is an owner's and asks for
-- presence, and its id is that of its point; and the plan is in its window.
pub verify_bootstrap-IsFounding :
    (parser : Parser) (crypto : Crypto) (text : Bytes) (host_key_digests : List Bytes)
    (age_recipient : Bytes) (now : ℤ) {founded : BootstrapPlan}
    → verify_bootstrap parser crypto text host_key_digests age_recipient now ≡ ok founded
    → IsFounding parser crypto text host_key_digests age_recipient now founded
unfolding verify_bootstrap signed_by_carried carries_owner is_present_owner is_owner
verify_bootstrap-IsFounding parser crypto text host_key_digests age_recipient now
      {founded = founded} h =
    let (envelope, e0, h0) =
      bind-eq_ok (map_err version_as_parse (parse_envelope parser crypto text)) _ h in
    let plan = envelope.0 in
    let signatures = envelope.1 in
    let actions = actions_in plan in
    let params = add_params plan in
    let server_id = text_or_empty (index params (codes "server_id")) in
    let owner = index params (codes "owner_key") in
    let (u1, e1, h1) =
      bind-eq_ok
        (guard
          (length actions == 1
            && is_text (codes "server.add") (index (first actions) (codes "kind")))
          bootstrap)
        _ h0 in
    let (u2, e2, h2) = bind-eq_ok (guard (single_target plan (string server_id)) bootstrap) _ h1 in
    let (u3, e3, h3) =
      bind-eq_ok (guard (names_server crypto params host_key_digests age_recipient) bootstrap) _
        h2 in
    let (u4, e4, h4) = bind-eq_ok (guard (signed_by_carried owner signatures) bootstrap) _ h3 in
    let (u5, e5, h5) = bind-eq_ok (guard (carries_owner owner plan) bootstrap) _ h4 in
    let (key, e6, h6) =
      bind-eq_ok
        (ok_or bootstrap (
          filter_option (λ k. is_text k.key_id (index owner (codes "key_id")))
            (parse_spki_base64 crypto (text_or_empty (index owner (codes "spki"))))))
        _ h5 in
    let (canonical, e7, h7) = bind-eq_ok (ok_or parse (canonicalize plan)) _ h6 in
    let (raw, e8, h8) =
      bind-eq_ok
        (ok_or parse
          (and_then (as_str (index (first signatures) (codes "sig"))) crypto.codec.b64url_decode))
        _ h7 in
    let (u9, e9, h9) =
      bind-eq_ok
        (guard (verify_prehash crypto key (prefixed_digest crypto.codec plan_prefix canonical) raw)
          sig_invalid)
        _ h8 in
    let (u10, e10, h10) = bind-eq_ok (check_time plan now) _ h9 in
    let (alone, adds) =
      and_elim (length actions == 1)
        (is_text (codes "server.add") (index (first actions) (codes "kind")))
        (guard-eq_ok _ _ e1) in
    let (same_key, alg) =
      and_elim
        (length signatures == 1
          && same_value (index (first signatures) (codes "key_id")) (index owner (codes "key_id")))
        (is_text (codes "ES256-raw") (index (first signatures) (codes "alg")))
        (guard-eq_ok _ _ e4) in
    let (one, agrees) =
      and_elim (length signatures == 1)
        (same_value (index (first signatures) (codes "key_id")) (index owner (codes "key_id")))
        same_key in
    let (present, author_is) =
      and_elim
        (is_text (codes "owner") (index owner (codes "role"))
          && not (is_text (codes "none") (index owner (codes "presence"))))
        (is_text (codes "user") (index (index plan (codes "author")) (codes "kind")))
        (guard-eq_ok _ _ e5) in
    let (owner_role, presence) =
      and_elim (is_text (codes "owner") (index owner (codes "role")))
        (not (is_text (codes "none") (index owner (codes "presence")))) present in
    let (spki, key_id_is) =
      kept_by (λ k. is_text k.key_id (index owner (codes "key_id")))
        (parse_spki_base64 crypto (text_or_empty (index owner (codes "spki"))))
        (ok_or-eq_ok _ _ e6) in
    subst (IsFounding parser crypto text host_key_digests age_recipient now) (ok_inj h10) (record {
      plan = plan;
      key = key;
      canonical = canonical;
      action = first actions;
      sig = first signatures;
      parsed =
          map_err-eq_ok version_as_parse _ e0
          ∙ ap (λ sigs. ok (plan, sigs)) (one_of signatures one);
      alone = one_of actions alone;
      adds = is_text-eq _ _ adds;
      server_is = refl;
      is_here =
          this_server crypto plan params server_id host_key_digests age_recipient
            (guard-eq_ok _ _ e2) (guard-eq_ok _ _ e3);
      owner_is = refl;
      is_owner_key = is_text-eq _ _ owner_role;
      asks_presence = is_text-ne _ _ presence;
      by_user = is_text-eq _ _ author_is;
      spki = spki;
      key_id_is = is_text-eq _ _ key_id_is;
      canonical_is = ok_or-eq_ok _ _ e7;
      signed = record {
        raw = raw;
        names_key = agrees;
        carries = ok_or-eq_ok _ _ e8;
        verified = guard-eq_ok _ _ e9;
      };
      timely = check_time-IsTimely plan now e10;
    })
