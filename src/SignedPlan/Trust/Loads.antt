-- ===== src/SignedPlan/Trust/Loads.antt =====
-- What the state of the trust file says of the file (src/signed_plan/trust.rs).
use permanu_agent.SignedPlan.Trust.{validate_trust, max_trust_file_bytes, TrustStore, TrustMode}
use permanu_agent.SignedPlan.Crypto.{Crypto}
use permanu_agent.SignedPlan.Value.{Value}
use permanu_agent.SignedPlan.Strict.{parse_strict, Parser}
use permanu_agent.SignedPlan.Trust.File.{
  invalid, TrustState, not_opened, not_found, opened, valid, absent, Opened, read_trust_bytes,
  validated, Metadata, load, load_parsed, load_read, read_opened,
}
use permanu_agent.Base.{
  inr, inl, ◌⊎◌, leb→le, ==_iff, ok_or-eq_ok, ok_inj, guard-eq_ok, subst, sym, leb, unwrap_or, ◌≤◌,
  length, refl, ap, ◌==◌, err, ◌↔◌, guard, ◌+◌, ok_or, bind-eq_ok, take, Result, bit_and, ok, ℕ,
  true, Option, none, some, ◌≡◌, Bytes,
}

-- A file that was read: a regular file of the owner that only the owner writes, of at most 256 KiB.
pub record IsSafeFile (owner_uid : ℕ) (stat : Option Metadata) (contents : Option Bytes)
    (bytes : Bytes) : Type 0 where
  pub metadata : Metadata
  pub all_bytes : Bytes
  pub stat_is : stat ≡ some metadata
  pub regular : metadata.is_file ≡ true
  pub owned : metadata.uid ≡ owner_uid
  pub closed : bit_and metadata.mode 18 ≡ 0
  pub contents_are : contents ≡ some all_bytes
  pub bytes_are : bytes ≡ take (max_trust_file_bytes + 1) all_bytes
  pub small : length bytes ≤ max_trust_file_bytes

read_opened-IsSafeFile :
    (owner_uid : ℕ) (stat : Option Metadata) (contents : Option Bytes) {found : Option Bytes}
    → read_opened owner_uid stat contents ≡ ok found
    → (bytes : Bytes) × (found ≡ some bytes) × IsSafeFile owner_uid stat contents bytes
unfolding read_opened
read_opened-IsSafeFile owner_uid stat contents h =
    let (m, e1, h1) = bind-eq_ok (ok_or _ stat) _ h in
    let (u2, e2, h2) = bind-eq_ok (guard m.is_file _) _ h1 in
    let (u3, e3, h3) = bind-eq_ok (guard (m.uid == owner_uid) _) _ h2 in
    let (u4, e4, h4) = bind-eq_ok (guard (bit_and m.mode 18 == 0) _) _ h3 in
    let (u5, e5, h5) = bind-eq_ok (guard (leb m.len max_trust_file_bytes) _) _ h4 in
    let (all_bytes, e6, h6) = bind-eq_ok (ok_or _ contents) _ h5 in
    let bytes = take (max_trust_file_bytes + 1) all_bytes in
    let (u7, e7, h7) = bind-eq_ok (guard (leb (length bytes) max_trust_file_bytes) _) _ h6 in
    (
      bytes,
      sym (ok_inj h7),
      record {
        metadata = m;
        all_bytes = all_bytes;
        stat_is = ok_or-eq_ok _ _ e1;
        regular = guard-eq_ok m.is_file _ e2;
        owned = (==_iff m.uid owner_uid).0 (guard-eq_ok _ _ e3);
        closed = (==_iff (bit_and m.mode 18) 0).0 (guard-eq_ok _ _ e4);
        contents_are = ok_or-eq_ok _ _ e6;
        bytes_are = refl;
        small = leb→le (length bytes) max_trust_file_bytes (guard-eq_ok _ _ e7);
      },
    )

not_absent :
    {P : Type 0} (bytes : Bytes) (document : Value) (r : Result Bytes TrustStore)
    → validated bytes document r ≡ absent
    → P
unfolding validated
not_absent bytes document (ok store) h = cc
not_absent bytes document (err reason) h = cc

parsed_not_absent :
    {P : Type 0} (crypto : Crypto) (mode : TrustMode) (bytes : Bytes) (o : Option Value)
    → load_parsed crypto mode bytes o ≡ absent
    → P
unfolding load_parsed
parsed_not_absent crypto mode bytes none h = cc
parsed_not_absent crypto mode bytes (some document) h =
    not_absent bytes document (validate_trust crypto document mode) h

absent_read :
    (parser : Parser) (crypto : Crypto) (mode : TrustMode) (r : Result Bytes (Option Bytes))
    → load_read parser crypto mode r ≡ absent
    → r ≡ ok none
unfolding load_read
absent_read parser crypto mode (err reason) h = cc
absent_read parser crypto mode (ok none) h = refl
absent_read parser crypto mode (ok (some bytes)) h =
    parsed_not_absent crypto mode bytes (parse_strict parser bytes max_trust_file_bytes) h

load-eq_absent :
    (parser : Parser) (crypto : Crypto) (file : Opened) (owner_uid : ℕ) (mode : TrustMode)
    → (load parser crypto file owner_uid mode ≡ absent) ↔ (file ≡ not_found)
unfolding load read_trust_bytes load_read
load-eq_absent parser crypto not_found owner_uid mode = (λ h. refl, λ h. refl)
load-eq_absent parser crypto not_opened owner_uid mode = (λ h. cc, λ h. cc)
load-eq_absent parser crypto (opened stat contents) owner_uid mode = (
  λ h.
      let (bytes, found, safe) =
        read_opened-IsSafeFile owner_uid stat contents
          (absent_read parser crypto mode (read_opened owner_uid stat contents) h) in
      cc,
  λ h. cc,
)

-- The document that a valid store was made of.
pub record IsLoaded (parser : Parser) (crypto : Crypto) (mode : TrustMode) (bytes : Bytes)
    (store : TrustStore) : Type 0 where
  pub document : Value
  pub checked : TrustStore
  pub parsed : parse_strict parser bytes max_trust_file_bytes ≡ some document
  pub validates : validate_trust crypto document mode ≡ ok checked
  pub store_is : store ≡ (record checked { raw = bytes })

valid_document :
    (bytes : Bytes) (document : Value) (r : Result Bytes TrustStore) {store : TrustStore}
    → validated bytes document r ≡ valid store
    → (checked : TrustStore) × (r ≡ ok checked) × (store ≡ (record checked { raw = bytes }))
unfolding validated
valid_document bytes document (ok checked) {store = store} h =
    (checked, refl, ap (λ s. elim s [ valid t ↦ t | _ ↦ store ]) (sym h))
valid_document bytes document (err reason) h = cc

valid_parsed :
    (crypto : Crypto) (mode : TrustMode) (bytes : Bytes) (o : Option Value) {store : TrustStore}
    → load_parsed crypto mode bytes o ≡ valid store
    → (document : Value) × (o ≡ some document)
      × (validated bytes document (validate_trust crypto document mode) ≡ valid store)
unfolding load_parsed
valid_parsed crypto mode bytes none h = cc
valid_parsed crypto mode bytes (some document) h = (document, refl, h)

valid_read :
    (parser : Parser) (crypto : Crypto) (mode : TrustMode) (r : Result Bytes (Option Bytes))
    {store : TrustStore}
    → load_read parser crypto mode r ≡ valid store
    → (bytes : Bytes) × (r ≡ ok (some bytes)) × IsLoaded parser crypto mode bytes store
unfolding load_read
valid_read parser crypto mode (err reason) h = cc
valid_read parser crypto mode (ok none) h = cc
valid_read parser crypto mode (ok (some bytes)) h =
    let (document, parsed, h') =
      valid_parsed crypto mode bytes (parse_strict parser bytes max_trust_file_bytes) h in
    let (checked, validates, store_is) =
      valid_document bytes document (validate_trust crypto document mode) h' in
    (
      bytes,
      refl,
      record {
        document = document;
        checked = checked;
        parsed = parsed;
        validates = validates;
        store_is = store_is;
      },
    )

-- A valid state comes of a regular file that the given user owns, that neither its group nor
-- others may write and that has at most 256 KiB; its bytes are strict JSON, and the store is what
-- validation makes of the document, with the bytes.
pub load-valid :
    (parser : Parser) (crypto : Crypto) (stat : Option Metadata) (contents : Option Bytes)
    (owner_uid : ℕ) (mode : TrustMode) {store : TrustStore}
    → load parser crypto (opened stat contents) owner_uid mode ≡ valid store
    → (bytes : Bytes) × IsSafeFile owner_uid stat contents bytes
      × IsLoaded parser crypto mode bytes store
unfolding load read_trust_bytes
load-valid parser crypto stat contents owner_uid mode h =
    let (bytes, read, loaded) =
      valid_read parser crypto mode (read_opened owner_uid stat contents) h in
    let (bytes', found, safe) = read_opened-IsSafeFile owner_uid stat contents read in
    let same_bytes : bytes' ≡ bytes = ap (unwrap_or bytes) (sym found) in
    (bytes, subst (IsSafeFile owner_uid stat contents) same_bytes safe, loaded)

-- The file is one that a valid store may come of: what reading it gives is strict JSON of a document
-- that validates.
pub record IsUsable (parser : Parser) (crypto : Crypto) (file : Opened) (owner_uid : ℕ)
    (mode : TrustMode) : Type 0 where
  pub stat : Option Metadata
  pub contents : Option Bytes
  pub bytes : Bytes
  pub store : TrustStore
  pub opens : file ≡ opened stat contents
  pub safe : IsSafeFile owner_uid stat contents bytes
  pub loaded : IsLoaded parser crypto mode bytes store

state_cases :
    (state : TrustState)
    → (state ≡ absent)
      ⊎ ((store : TrustStore) × (state ≡ valid store))
      ⊎ ((reason : Bytes) × (document : Option Value) × (state ≡ invalid reason document))
state_cases absent = inl refl
state_cases (valid store) = inr (inl (store, refl))
state_cases (invalid reason document) = inr (inr (reason, document, refl))

usable :
    (parser : Parser) (crypto : Crypto) (file : Opened) (owner_uid : ℕ) (mode : TrustMode)
    (store : TrustStore)
    → load parser crypto file owner_uid mode ≡ valid store
    → IsUsable parser crypto file owner_uid mode
unfolding load read_trust_bytes load_read
usable parser crypto not_found owner_uid mode store h = cc
usable parser crypto not_opened owner_uid mode store h = cc
usable parser crypto (opened stat contents) owner_uid mode store h =
    let (bytes, safe, loaded) = load-valid parser crypto stat contents owner_uid mode h in
    record {
      stat = stat;
      contents = contents;
      bytes = bytes;
      store = store;
      opens = refl;
      safe = safe;
      loaded = loaded;
    }

-- At a path that exists, the state of the trust file is an invalid one, unless the file opens, is a
-- regular file of the owner that only the owner writes, is small enough, and holds strict JSON of a
-- document that validates: it is never the state of a server without a trust file.
pub load-invalid :
    (parser : Parser) (crypto : Crypto) (file : Opened) (owner_uid : ℕ) (mode : TrustMode)
    → ¬ (file ≡ not_found)
    → ¬ IsUsable parser crypto file owner_uid mode
    → (reason : Bytes) × (document : Option Value) × (load parser crypto file owner_uid mode
        ≡ invalid reason document)
load-invalid parser crypto file owner_uid mode exists unusable =
    elim (state_cases (load parser crypto file owner_uid mode)) [
      | inl e ↦ absurd (exists ((load-eq_absent parser crypto file owner_uid mode).0 e))
      | inr (inl (store, e)) ↦ absurd (unusable (usable parser crypto file owner_uid mode store e))
      | inr (inr found) ↦ found
    ]
