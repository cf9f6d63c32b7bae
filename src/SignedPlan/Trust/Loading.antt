-- ===== src/SignedPlan/Trust/Loading.antt =====
-- What one turn of the loop over the keys of the trust file has done (src/signed_plan/trust.rs).
use permanu_agent.SignedPlan.Schema.Rules.{text_or_empty}
use permanu_agent.Base.Map.{lookup, contains_key, insert}
use permanu_agent.SignedPlan.Schema.{key_scope_shape_ok, check}
use permanu_agent.SignedPlan.Value.{Value, index, as_array}
use permanu_agent.SignedPlan.Trust.{
  parent_of, extend, cascade, none_revoked, add_revocations, no_keys, load_keys, trust_file,
  Revoked, TrustStore, validate_trust, is_added, is_root, test_key_ids, is_production, as_str,
  Loaded, TrustMode, load_key,
}
use permanu_agent.SignedPlan.Crypto.{parse_spki_base64, PublicKey, Crypto}
use permanu_agent.Base.{
  ◌∙◌, is_nil, refl, sym, ap, not-eq_true, same_iff, ok_or-eq_ok, ok_inj, ◌==◌, contains, ◌&&◌,
  same, ok_or, bind-eq_ok, guard-eq_ok, ok, guard, is_some, if◌then◌else◌, ℕ, Bool, true, false,
  not, List, [], ◌∷◌, ◌++◌, Option, none, some, ◌≡◌, Bytes, codes, inl, inr, ◌⊎◌,
}

pub record Loads (crypto : Crypto) (mode : TrustMode) (entry : Value) (loaded next : Loaded)
    : Type 0 where
  pub id : Bytes
  pub public : PublicKey
  pub named : as_str (index entry (codes "key_id")) ≡ some id
  pub read : parse_spki_base64 crypto (text_or_empty (index entry (codes "spki"))) ≡ some public
  pub derived : public.key_id ≡ id
  pub fresh : lookup id loaded.keys ≡ none
  pub genuine : (is_production mode && contains id test_key_ids) ≡ false
  pub vouched : (is_root entry ≡ true) ⊎ (is_added crypto loaded.keys entry ≡ true)
  pub keys_after : next.keys ≡ insert id (record { public_key = public; entry = entry }) loaded.keys
  pub order_after : next.order ≡ loaded.order ++ (id ∷ [])

root_or_added :
    (b root added : Bool) (e f : Bytes) {u : Unit {0}}
    → (if b then guard root e else guard added f) ≡ ok u
    → (root ≡ true) ⊎ (added ≡ true)
root_or_added true root added e f h = inl (guard-eq_ok root e h)
root_or_added false root added e f h = inr (guard-eq_ok added f h)

is_absent : {A : Type 0} (o : Option A) → not (is_some o) ≡ true → o ≡ none
is_absent none h = refl
is_absent (some a) h = cc

pub load_key-Loads :
    (crypto : Crypto) (mode : TrustMode) (number : ℕ) (entry : Value) (loaded : Loaded)
    {next : Loaded}
    → load_key crypto mode number entry loaded ≡ ok next
    → Loads crypto mode entry loaded next
unfolding load_key
load_key-Loads crypto mode number entry loaded h =
    let (id, e1, h1) = bind-eq_ok (ok_or _ (as_str (index entry (codes "key_id")))) _ h in
    let (public, e2, h2) =
      bind-eq_ok (ok_or _ (parse_spki_base64 crypto (text_or_empty (index entry (codes "spki"))))) _
        h1 in
    let (u3, e3, h3) = bind-eq_ok (guard (same public.key_id id) _) _ h2 in
    let (u4, e4, h4) = bind-eq_ok (guard (not (contains_key id loaded.keys)) _) _ h3 in
    let (u5, e5, h5) = bind-eq_ok (guard (key_scope_shape_ok entry) _) _ h4 in
    let (u6, e6, h6) =
      bind-eq_ok (guard (not (is_production mode && contains id test_key_ids)) _) _ h5 in
    let (u7, e7, h7) =
      bind-eq_ok
        (if number == 0
          then guard (is_root entry) _
          else guard (is_added crypto loaded.keys entry) _)
        _ h6 in
    let result = ok_inj h7 in
    record {
      id = id;
      public = public;
      named = ok_or-eq_ok _ _ e1;
      read = ok_or-eq_ok _ _ e2;
      derived = (same_iff public.key_id id).0 (guard-eq_ok _ _ e3);
      fresh = is_absent (lookup id loaded.keys) (guard-eq_ok _ _ e4);
      genuine = not-eq_true _ (guard-eq_ok _ _ e6);
      vouched =
          root_or_added (number == 0) (is_root entry) (is_added crypto loaded.keys entry) _ _ e7;
      keys_after = ap (λ l. l.keys) (sym result);
      order_after = ap (λ l. l.order) (sym result);
    }

-- What a validated document has gone through.
pub record IsValidated (crypto : Crypto) (value : Value) (mode : TrustMode) (store : TrustStore)
    : Type 0 where
  pub entries : List Value
  pub withdrawn : List Value
  pub loaded : Loaded
  pub state : Revoked
  pub entries_are : as_array (index value (codes "keys")) ≡ some entries
  pub withdrawn_are : as_array (index value (codes "revocations")) ≡ some withdrawn
  pub loads : load_keys crypto mode 0 entries no_keys ≡ ok loaded
  pub withdraws : add_revocations crypto loaded.keys withdrawn none_revoked ≡ ok state
  pub keys_are : store.keys ≡ loaded.keys
  pub compromised_are :
      store.compromised ≡ cascade (parent_of loaded.keys) loaded.order state.compromised
  pub revoked_are : store.revoked ≡ extend store.compromised state.revoked
  pub document_is : store.document ≡ value

pub validate_trust-IsValidated :
    (crypto : Crypto) (value : Value) (mode : TrustMode) {store : TrustStore}
    → validate_trust crypto value mode ≡ ok store
    → IsValidated crypto value mode store
unfolding validate_trust
validate_trust-IsValidated crypto value mode h =
    let (u0, e0, h0) =
      bind-eq_ok (guard (check crypto.codec (trust_file crypto.codec) value) _) _ h in
    let (entries, e1, h1) = bind-eq_ok (ok_or _ (as_array (index value (codes "keys")))) _ h0 in
    let (u2, e2, h2) = bind-eq_ok (guard (not (is_nil entries)) _) _ h1 in
    let (loaded, e3, h3) = bind-eq_ok (load_keys crypto mode 0 entries no_keys) _ h2 in
    let (withdrawn, e4, h4) =
      bind-eq_ok (ok_or _ (as_array (index value (codes "revocations")))) _ h3 in
    let (state, e5, h5) =
      bind-eq_ok (add_revocations crypto loaded.keys withdrawn none_revoked) _ h4 in
    let (server_id, e6, h6) =
      bind-eq_ok (ok_or _ (as_str (index value (codes "server_id")))) _ h5 in
    let result = ok_inj h6 in
    record {
      entries = entries;
      withdrawn = withdrawn;
      loaded = loaded;
      state = state;
      entries_are = ok_or-eq_ok _ _ e1;
      withdrawn_are = ok_or-eq_ok _ _ e4;
      loads = e3;
      withdraws = e5;
      keys_are = ap (λ s. s.keys) (sym result);
      compromised_are = ap (λ s. s.compromised) (sym result);
      revoked_are =
          ap (λ s. s.revoked) (sym result) ∙ ap (λ s. extend s.compromised state.revoked) result;
      document_is = ap (λ s. s.document) (sym result);
    }
