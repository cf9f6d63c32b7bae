-- ===== src/SignedPlan/Trust/Ancestry.antt =====
-- Where the keys of a trust store come from (src/signed_plan/trust.rs).
use permanu_agent.SignedPlan.Value.{Value, index}
use permanu_agent.SignedPlan.Schema.Rules.{text_or_empty}
use permanu_agent.Base.Map.{Map, lookup, insert, empty_map, lookup-insert}
use permanu_agent.SignedPlan.Trust.Loading.{validate_trust-IsValidated, load_key-Loads, Loads}
use permanu_agent.SignedPlan.Crypto.{key_add_prefix, parse_spki_base64, Crypto}
use permanu_agent.SignedPlan.Trust.{
  no_keys, TrustStore, validate_trust, test_key_ids, load_key, is_production, sig_verifies,
  statement_digest, is_owner, is_root, as_str, Loaded, TrustedKey, load_keys, is_added, TrustMode,
  signed_by_owner,
}
use permanu_agent.Base.{
  subst, ◌∙◌, if◌then◌else◌, unwrap_or, ap, same, Bool-cases, contains, bind-eq_ok, ◌&&◌, same_self,
  same_iff, ok_inj, arith, sym, and_elim, ok, is_some_and-eq_true, ℕ, suc, true, false, List, [],
  ◌∷◌, Option, none, some, ◌≡◌, Bytes, codes, inl, inr, ◌⊎◌,
}

-- The owner key `parent` of the map has signed the statement.
pub record IsSigned (crypto : Crypto) (keys : Map TrustedKey) (signer : Value)
    (digest : Option Bytes) (parent : Bytes) : Type 0 where
  pub owner : TrustedKey
  pub statement : Bytes
  pub signer_id : as_str (index signer (codes "key_id")) ≡ some parent
  pub digested : digest ≡ some statement
  pub held : lookup parent keys ≡ some owner
  pub role : is_owner owner.entry ≡ true
  pub verified : sig_verifies crypto owner.public_key signer statement ≡ true

pub signed_by_owner-IsSigned :
    (crypto : Crypto) (keys : Map TrustedKey) (signer : Value) (digest : Option Bytes)
    → signed_by_owner crypto keys signer digest ≡ true
    → (parent : Bytes) × IsSigned crypto keys signer digest parent
unfolding signed_by_owner
signed_by_owner-IsSigned crypto keys signer digest h =
    let (parent, e1, h1) = is_some_and-eq_true _ (as_str (index signer (codes "key_id"))) h in
    let (statement, e2, h2) = is_some_and-eq_true _ digest h1 in
    let (owner, e3, h3) = is_some_and-eq_true _ (lookup parent keys) h2 in
    let (role, verified) = and_elim (is_owner owner.entry) _ h3 in
    (
      parent,
      record {
        owner = owner;
        statement = statement;
        signer_id = e1;
        digested = e2;
        held = e3;
        role = role;
        verified = verified;
      },
    )

module _ (crypto : Crypto) where
  abbrev pub AddedBy : Map TrustedKey → Value → Bytes → Type 0
  AddedBy keys entry parent =
      IsSigned crypto keys (index entry (codes "added_by"))
        (statement_digest crypto.codec entry key_add_prefix (codes "added_by")) parent

  -- A chain of owner signatures that ends at a root: an owner key that nobody added.
  pub data Ancestry (keys : Map TrustedKey) : Bytes → Type 0 where
    root :
        {id : Bytes} (key : TrustedKey)
        → lookup id keys ≡ some key
        → is_root key.entry ≡ true
        → Ancestry keys id
    link :
        {id parent : Bytes} (key : TrustedKey)
        → lookup id keys ≡ some key
        → AddedBy keys key.entry parent
        → Ancestry keys parent
        → Ancestry keys id

  -- The key's id is that of its public point, which its entry carries, and no test key is trusted
  -- in production.
  pub record IsGenuine (mode : TrustMode) (id : Bytes) (key : TrustedKey) : Type 0 where
    pub named : as_str (index key.entry (codes "key_id")) ≡ some id
    pub read :
        parse_spki_base64 crypto (text_or_empty (index key.entry (codes "spki")))
        ≡ some key.public_key
    pub derived : key.public_key.key_id ≡ id
    pub genuine : (is_production mode && contains id test_key_ids) ≡ false

  abbrev pub IsTraced : TrustMode → Map TrustedKey → Type 0
  IsTraced mode keys =
      (id : Bytes) (key : TrustedKey)
      → lookup id keys ≡ some key
      → Ancestry keys id × IsGenuine mode id key

  -- A new key shadows none.
  kept :
      (keys : Map TrustedKey) (id j : Bytes) (new : TrustedKey) {key : TrustedKey}
      → lookup id keys ≡ none
      → lookup j keys ≡ some key
      → lookup j (insert id new keys) ≡ some key
  kept keys id j new fresh e = ground (arith, lookup-insert id j new keys, same_iff id j)

  kept_signature :
      (keys : Map TrustedKey) (id : Bytes) (new : TrustedKey) {signer : Value}
      {digest : Option Bytes} {parent : Bytes}
      → lookup id keys ≡ none
      → IsSigned crypto keys signer digest parent
      → IsSigned crypto (insert id new keys) signer digest parent
  kept_signature keys id new {parent = parent} fresh s = record {
    owner = s.owner;
    statement = s.statement;
    signer_id = s.signer_id;
    digested = s.digested;
    held = kept keys id parent new fresh s.held;
    role = s.role;
    verified = s.verified;
  }

  insert-Ancestry :
      (keys : Map TrustedKey) (id j : Bytes) (new : TrustedKey)
      → lookup id keys ≡ none
      → Ancestry keys j
      → Ancestry (insert id new keys) j
  insert-Ancestry keys id j new fresh (root key e r) = root key (kept keys id j new fresh e) r
  insert-Ancestry keys id j new fresh (link {parent = parent} key e s a) =
      link key (kept keys id j new fresh e) (kept_signature keys id new fresh s)
        (insert-Ancestry keys id parent new fresh a)

  vouched-Ancestry :
      (mode : TrustMode) (keys : Map TrustedKey) (id : Bytes) (new : TrustedKey)
      → IsTraced mode keys
      → lookup id keys ≡ none
      → (is_root new.entry ≡ true) ⊎ (is_added crypto keys new.entry ≡ true)
      → Ancestry (insert id new keys) id
  unfolding is_added
  vouched-Ancestry mode keys id new traced fresh vouched =
      let own : lookup id (insert id new keys) ≡ some new =
        ground (arith, lookup-insert id id new keys, same_self id) in
      elim vouched [
        | inl r ↦ root new own r
        | inr s ↦
            let (parent, signature) = signed_by_owner-IsSigned crypto keys _ _ s in
            link new own (kept_signature keys id new fresh signature) (
              insert-Ancestry keys id parent new fresh
                (traced parent signature.owner signature.held).0)
      ]

  insert-IsTraced :
      (mode : TrustMode) (keys : Map TrustedKey) (id : Bytes) (new : TrustedKey)
      → IsTraced mode keys
      → lookup id keys ≡ none
      → IsGenuine mode id new
      → Ancestry (insert id new keys) id
      → IsTraced mode (insert id new keys)
  insert-IsTraced mode keys id new traced fresh genuine ancestry j key e =
      elim (Bool-cases (same id j)) [
        | inl s ↦
            let is_id : id ≡ j = (same_iff id j).0 s in
            let is_new : new ≡ key = ap (unwrap_or new) (
              ap (λ b. if b then some new else lookup j keys) (sym s)
              ∙ sym (lookup-insert id j new keys)
              ∙ e) in
            (
              subst (λ k. Ancestry (insert id new keys) k) is_id ancestry,
              subst (λ k. IsGenuine mode k key) is_id
                  (subst (λ k. IsGenuine mode id k) is_new genuine),
            )
        | inr s ↦
            let old : lookup j keys ≡ some key =
              ap (λ b. if b then some new else lookup j keys) (sym s)
              ∙ sym (lookup-insert id j new keys)
              ∙ e in
            let (a, g) = traced j key old in (insert-Ancestry keys id j new fresh a, g)
      ]

  pub load_key-IsTraced :
      (mode : TrustMode) (entry : Value) (loaded next : Loaded)
      → Loads crypto mode entry loaded next
      → IsTraced mode loaded.keys
      → IsTraced mode next.keys
  load_key-IsTraced mode entry loaded next l traced =
      let new : TrustedKey = record { public_key = l.public; entry = entry } in
      let genuine : IsGenuine mode l.id new = record {
        named = l.named;
        read = l.read;
        derived = l.derived;
        genuine = l.genuine;
      } in
      subst (IsTraced mode) (sym l.keys_after) (
        insert-IsTraced mode loaded.keys l.id new traced l.fresh genuine
          (vouched-Ancestry mode loaded.keys l.id new traced l.fresh l.vouched))

  load_keys-IsTraced :
      (mode : TrustMode) (number : ℕ) (entries : List Value) (loaded : Loaded) {next : Loaded}
      → load_keys crypto mode number entries loaded ≡ ok next
      → IsTraced mode loaded.keys
      → IsTraced mode next.keys
  unfolding load_keys
  load_keys-IsTraced mode number [] loaded h traced =
      subst (λ l. IsTraced mode l.keys) (ok_inj h) traced
  load_keys-IsTraced mode number (entry ∷ entries) loaded h traced =
      let (next, e, h') = bind-eq_ok (load_key crypto mode number entry loaded) _ h in
      load_keys-IsTraced mode (suc number) entries next h' (
        load_key-IsTraced mode entry loaded next (load_key-Loads crypto mode number entry loaded e)
          traced)

  -- Every key that a validated trust store holds is the end of a chain of signatures over its
  -- entry that begins at an owner key which nobody added, each made by an owner key of the store;
  -- its id is that of its public point, and no test key is trusted in production.
  pub validate_trust-Ancestry :
      (value : Value) (mode : TrustMode) (id : Bytes) {store : TrustStore} {key : TrustedKey}
      → validate_trust crypto value mode ≡ ok store
      → lookup id store.keys ≡ some key
      → Ancestry store.keys id × IsGenuine mode id key
  validate_trust-Ancestry value mode id {key = key} h e =
      let p = validate_trust-IsValidated crypto value mode h in
      let traced = load_keys-IsTraced mode 0 p.entries no_keys p.loads (λ j k f. empty_map j f) in
      subst (IsTraced mode) (sym p.keys_are) traced id key e
