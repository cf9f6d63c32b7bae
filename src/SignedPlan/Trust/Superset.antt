-- ===== src/SignedPlan/Trust/Superset.antt =====
-- What a change of the trust file keeps (src/signed_plan/trust.rs).
use permanu_agent.SignedPlan.Trust.{
  active_ids, TrustedKey, is_owner, active_owner_count, validate_trust, TrustMode, generation,
  TrustStore,
}
use permanu_agent.SignedPlan.Crypto.{Crypto}
use permanu_agent.Base.Map.{contains_key, lookup-insert, lookup, insert, Map}
use permanu_agent.SignedPlan.Schema.Rules.{text_or_empty, items_or_none}
use permanu_agent.SignedPlan.Trust.Change.{
  is_revoke, or_rejected, bootstrap, revoke, add_key, TrustWriteError, changed_document,
  TrustChange, apply_change, push,
}
use permanu_agent.SignedPlan.Value.{
  as_str, array, as_array, null, object, Members_of, members, index, as_object, Items_of, items,
  Value,
}
use permanu_agent.Base.{
  inr, and_elim, inl, Bool-cases, same_iff, is_some_and-eq_true, contains, guard-eq_ok, not-eq_true,
  ◌==◌, ◌&&◌, ◌<◌, guard, err, length, Result, ok_or-eq_ok, ok_inj, subst, sym, arith, same_self,
  and_then, ◌∙◌, if◌then◌else◌, refl, ok_or, ap, bind-eq_ok, unwrap_or, same, ok, ℕ, suc, ◌+◌, Bool,
  true, false, not, List, [], ◌∷◌, ◌++◌, Option, some, ◌≡◌, Bytes, codes,
}

members-Members_of : (m : Map Value) → members (Members_of m) ≡ m
members-Members_of [] = refl
members-Members_of ((k, v) ∷ m) = ap (λ r. (k, v) ∷ r) (members-Members_of m)

items-Items_of : (xs : List Value) → items (Items_of xs) ≡ xs
items-Items_of [] = refl
items-Items_of (x ∷ xs) = ap (λ r. x ∷ r) (items-Items_of xs)

abbrev entries_in : Bytes → Value → List Value
entries_in field document = items_or_none (index document field)

index-insert :
    (field other : Bytes) (v : Value) (m : Map Value)
    → index (object (Members_of (insert field v m))) other
      ≡ (if same field other then v else unwrap_or null (lookup other m))
index-insert field other v m =
    ap (λ n. unwrap_or null (lookup other n)) (members-Members_of (insert field v m))
    ∙ ground (arith, lookup-insert field other v m)

index-as_object :
    (document : Value) (m : Map Value) (other : Bytes)
    → as_object document ≡ some m
    → unwrap_or null (lookup other m) ≡ index document other
index-as_object document m other e =
    ap (λ o. unwrap_or null (and_then o (λ (n : Map Value). lookup other n))) (sym e)

-- `push` appends to the field and leaves the others.
push-entries :
    (document : Value) (field other : Bytes) (value : Value) {next : Value}
    → push document field value ≡ ok next
    → (entries_in field next ≡ entries_in field document ++ (value ∷ []))
      × (same field other ≡ false → entries_in other next ≡ entries_in other document)
unfolding push
push-entries document field other value h =
    let (m, e1, h1) = bind-eq_ok (ok_or _ (as_object document)) _ h in
    let (xs, e2, h2) = bind-eq_ok (ok_or _ (as_array (index document field))) _ h1 in
    let new = array (Items_of (xs ++ (value ∷ []))) in
    let appended : as_array (index (object (Members_of (insert field new m))) field)
        ≡ some (xs ++ (value ∷ [])) =
      ap as_array (
        index-insert field field new m
        ∙ ap (λ b. if b then new else unwrap_or null (lookup field m)) (same_self field))
      ∙ ap some (items-Items_of (xs ++ (value ∷ []))) in
    (
      subst (λ d. entries_in field d ≡ entries_in field document ++ (value ∷ [])) (ok_inj h2)
          (ap (unwrap_or []) appended
            ∙ ap (λ o. unwrap_or [] o ++ (value ∷ [])) (sym (ok_or-eq_ok _ _ e2))),
      λ apart.
          subst (λ d. entries_in other d ≡ entries_in other document) (ok_inj h2)
            (ap items_or_none (
              index-insert field other new m
              ∙ ap (λ b. if b then new else unwrap_or null (lookup other m)) apart
              ∙ index-as_object document m other (ok_or-eq_ok _ _ e1))),
    )

keys_apart : same (codes "keys") (codes "revocations") ≡ false
unfolding same
keys_apart = refl

revocations_apart : same (codes "revocations") (codes "keys") ≡ false
unfolding same
revocations_apart = refl

-- What a change adds to the keys and to the revocations.
abbrev pub new_keys : TrustChange → List Value
new_keys (add_key entry) = entry ∷ []
new_keys _ = []

abbrev pub new_revocations : TrustChange → List Value
new_revocations (revoke entry) = entry ∷ []
new_revocations _ = []

pub record IsSuperset (current document : Value) (change : TrustChange) : Type 0 where
  pub keys :
      entries_in (codes "keys") document ≡ entries_in (codes "keys") current ++ new_keys change
  pub revocations :
      entries_in (codes "revocations") document
      ≡ entries_in (codes "revocations") current ++ new_revocations change
  pub grown : generation document ≡ suc (generation current)

append_nothing : (xs : List Value) → xs ++ [] ≡ xs
append_nothing [] = refl
append_nothing (x ∷ xs) = ap (λ r. x ∷ r) (append_nothing xs)

length-snoc : (xs : List Value) (x : Value) → length (xs ++ (x ∷ [])) ≡ suc (length xs)
length-snoc [] x = refl
length-snoc (y ∷ xs) x = ap suc (length-snoc xs x)

more_left : {a b c d : ℕ} → a ≡ suc c → b ≡ d → a + b ≡ suc (c + d)
more_left e f = omega arith

more_right : {a b c d : ℕ} → a ≡ c → b ≡ suc d → a + b ≡ suc (c + d)
more_right e f = omega arith

not_err :
    {A : Type 0} (b : Bool) (e : TrustWriteError) (r : Result TrustWriteError A) {a : A}
    → (if b then err e else r) ≡ ok a
    → (b ≡ false) × (r ≡ ok a)
not_err true e r h = cc
not_err false e r h = (refl, h)

changed_document-IsSuperset :
    (store : TrustStore) (change : TrustChange) {document : Value}
    → changed_document (some store) change ≡ ok document
    → IsSuperset store.document document change
unfolding changed_document generation
changed_document-IsSuperset store (bootstrap server_id owner_key) h = cc
changed_document-IsSuperset store (add_key entry) {document = document} h =
    let (fresh, h') =
      not_err (contains_key (text_or_empty (index entry (codes "key_id"))) store.keys) _ _ h in
    let (added, kept) = push-entries store.document (codes "keys") (codes "revocations") entry h' in
    let same_revocations = kept keys_apart in
    record {
      keys = added;
      revocations =
          same_revocations ∙ sym (append_nothing (entries_in (codes "revocations") store.document));
      grown =
          more_left (ap length added ∙ length-snoc (entries_in (codes "keys") store.document) entry)
            (ap length same_revocations);
    }
changed_document-IsSuperset store (revoke entry) {document = document} h =
    let (fresh, h') =
      not_err (contains_key (text_or_empty (index entry (codes "key_id"))) store.revocations) _ _
        h in
    let (added, kept) = push-entries store.document (codes "revocations") (codes "keys") entry h' in
    let same_keys = kept revocations_apart in
    record {
      keys = same_keys ∙ sym (append_nothing (entries_in (codes "keys") store.document));
      revocations = added;
      grown =
          more_right (ap length same_keys)
            (ap length added ∙ length-snoc (entries_in (codes "revocations") store.document) entry);
    }

record IsApplied (crypto : Crypto) (current : Option TrustStore) (change : TrustChange)
    (mode : TrustMode) (document : Value) : Type 0 where
  changed : changed_document current change ≡ ok document
  next : TrustStore
  validated : validate_trust crypto document mode ≡ ok next
  owned : (is_revoke change && active_owner_count next == 0) ≡ false

or_rejected-eq_ok :
    (r : Result Bytes TrustStore) {store : TrustStore} → or_rejected r ≡ ok store → r ≡ ok store
or_rejected-eq_ok (ok s) h = ap ok (ok_inj h)
or_rejected-eq_ok (err e) h = cc

apply_change-IsApplied :
    (crypto : Crypto) (current : Option TrustStore) (change : TrustChange) (mode : TrustMode)
    {document : Value}
    → apply_change crypto current change mode ≡ ok document
    → IsApplied crypto current change mode document
unfolding apply_change
apply_change-IsApplied crypto current change mode {document = document} h =
    let (made, e1, h1) = bind-eq_ok (changed_document current change) _ h in
    let (next, e2, h2) = bind-eq_ok (or_rejected (validate_trust crypto made mode)) _ h1 in
    let (u, e3, h3) =
      bind-eq_ok (guard (not (is_revoke change && active_owner_count next == 0)) _) _ h2 in
    let is_made = ok_inj h3 in
    record {
      changed = e1 ∙ h3;
      next = next;
      validated =
          subst (λ d. validate_trust crypto d mode ≡ ok next) is_made (or_rejected-eq_ok _ e2);
      owned = not-eq_true _ (guard-eq_ok _ _ e3);
    }

-- A change of a trust store that is accepted only adds: the new document has the keys and the
-- revocations of the old one in their order, and behind them the entry of the change and nothing
-- else, so its generation is one higher; and the new document is itself a valid trust store.
pub apply_change-IsSuperset :
    (crypto : Crypto) (store : TrustStore) (change : TrustChange) (mode : TrustMode)
    {document : Value}
    → apply_change crypto (some store) change mode ≡ ok document
    → IsSuperset store.document document change
      × ((next : TrustStore) × (validate_trust crypto document mode ≡ ok next))
apply_change-IsSuperset crypto store change mode h =
    let a = apply_change-IsApplied crypto (some store) change mode h in
    (changed_document-IsSuperset store change a.changed, (a.next, a.validated))

-- The key stands in the map under the id.
pub data IsHeld (id : Bytes) (key : TrustedKey) : Map TrustedKey → Type 0 where
  held_here : {keys : Map TrustedKey} → IsHeld id key ((id, key) ∷ keys)
  held_later :
      {entry : Bytes × TrustedKey} {keys : Map TrustedKey}
      → IsHeld id key keys
      → IsHeld id key (entry ∷ keys)

-- An owner's key of the store that is not revoked.
pub record HasActiveOwner (store : TrustStore) : Type 0 where
  pub id : Bytes
  pub key : TrustedKey
  pub is_held : IsHeld id key store.keys
  pub owns : as_str (index key.entry (codes "role")) ≡ some (codes "owner")
  pub unrevoked : contains id store.revoked ≡ false

active_ids-IsHeld :
    (counts : TrustedKey → Bool) (revoked : List Bytes) (keys : Map TrustedKey)
    → 0 < length (active_ids counts revoked keys)
    → (id : Bytes) × (key : TrustedKey) × IsHeld id key keys
      × (counts key ≡ true)
      × (contains id revoked ≡ false)
active_ids-IsHeld counts revoked [] h = absurd (omega (arith, h))
active_ids-IsHeld counts revoked ((id, key) ∷ keys) h =
    let rest = active_ids counts revoked keys in
    elim (Bool-cases (counts key && not (contains id revoked))) [
      | inl e ↦
          let (counted, active) = and_elim (counts key) (not (contains id revoked)) e in
          (id, key, held_here, counted, not-eq_true _ active)
      | inr e ↦
          let (other_id, other_key, held, counted, active) =
            active_ids-IsHeld counts revoked keys
              (subst (λ b. 0 < length (if b then id ∷ rest else rest)) e h) in
          (other_id, other_key, held_later held, counted, active)
    ]

is_owner-role :
    (entry : Value)
    → is_owner entry ≡ true
    → as_str (index entry (codes "role")) ≡ some (codes "owner")
unfolding is_owner
is_owner-role entry h =
    let (role, e, k) =
      is_some_and-eq_true (same (codes "owner")) (as_str (index entry (codes "role"))) h in
    e ∙ ap some (sym ((same_iff (codes "owner") role).0 k))

active_owner : (store : TrustStore) → 0 < active_owner_count store → HasActiveOwner store
unfolding active_owner_count
active_owner store h =
    let (id, key, held, counted, active) =
      active_ids-IsHeld (λ key. is_owner key.entry) store.revoked store.keys h in
    record {
      id = id;
      key = key;
      is_held = held;
      owns = is_owner-role key.entry counted;
      unrevoked = active;
    }

-- A revocation that is accepted leaves a valid trust store that holds a key whose entry has the role
-- of an owner and which is not among the revoked ones.
pub apply_change-owner :
    (crypto : Crypto) (store : TrustStore) (entry : Value) (mode : TrustMode) {document : Value}
    → apply_change crypto (some store) (revoke entry) mode ≡ ok document
    → (next : TrustStore) × (validate_trust crypto document mode ≡ ok next) × HasActiveOwner next
apply_change-owner crypto store entry mode h =
    let a = apply_change-IsApplied crypto (some store) (revoke entry) mode h in
    let owned = a.owned in (a.next, a.validated, active_owner a.next (ground arith))
