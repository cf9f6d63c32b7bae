-- ===== src/SignedPlan/Trust/Change.antt =====
-- Changes of the trust file (src/signed_plan/trust.rs): `apply_change`.
use permanu_agent.SignedPlan.Crypto.{Crypto}
use permanu_agent.SignedPlan.Schema.Rules.{text_or_empty}
use permanu_agent.SignedPlan.Value.{
  Value, object, as_object, Members_of, as_array, index, Items_of, array, string, integer,
}
use permanu_agent.SignedPlan.Trust.{TrustMode, active_owner_count, TrustStore, validate_trust}
use permanu_agent.Base.Map.{contains_key, insert, lookup}
use permanu_agent.Base.{
  ok_or, ◌==◌, ◌&&◌, if◌then◌else◌, pos, guard, codes, ok, err, Bytes, Result, Bool, true, false,
  not, [], ◌∷◌, ◌++◌, Option, none, some, ◌>>◌, ◌>>=◌,
}

pub data TrustWriteError : Type 0 where
  already_bootstrapped : TrustWriteError
  current_invalid : Bytes → TrustWriteError
  rejected : Bytes → TrustWriteError
  io : Bytes → TrustWriteError

pub data TrustChange : Type 0 where
  bootstrap : Bytes → Value → TrustChange
  add_key : Value → TrustChange
  revoke : Value → TrustChange

-- `document[field]` of a document without the field is null, which is no array. Indexing a
-- document that is no object panics; the document of a store is one.
unfoldable pub push : Value → Bytes → Value → Result TrustWriteError Value
unfolding lookup insert
push document field value = do
  m ← ok_or (current_invalid (field ++ codes " is not an array")) (as_object document)
  xs ← ok_or (current_invalid (field ++ codes " is not an array")) (as_array (index document field))
  ok (object (Members_of (insert field (array (Items_of (xs ++ (value ∷ [])))) m)))

abbrev pub first_document : Bytes → Value → Value
first_document server_id owner_key = object (
    Members_of (
      (codes "version", integer (pos 1))
      ∷ (codes "server_id", string server_id)
      ∷ (codes "keys", array (Items_of (owner_key ∷ [])))
      ∷ (codes "revocations", array (Items_of []))
      ∷ []))

-- The document that a change makes of the current one.
unfoldable pub changed_document : Option TrustStore → TrustChange → Result TrustWriteError Value
unfolding lookup push
changed_document (some store) (bootstrap server_id owner_key) = err already_bootstrapped
changed_document none (bootstrap server_id owner_key) = ok (first_document server_id owner_key)
changed_document none (add_key entry) = err (current_invalid (codes "no valid trust file"))
changed_document none (revoke entry) = err (current_invalid (codes "no valid trust file"))
changed_document (some store) (add_key entry) =
    let key_id = text_or_empty (index entry (codes "key_id")) in
    if contains_key key_id store.keys
    then err (rejected (codes "key_id already present"))
    else push store.document (codes "keys") entry
changed_document (some store) (revoke entry) =
    let key_id = text_or_empty (index entry (codes "key_id")) in
    if contains_key key_id store.revocations
    then err (rejected (codes "key already revoked"))
    else push store.document (codes "revocations") entry

abbrev pub is_revoke : TrustChange → Bool
is_revoke (revoke entry) = true
is_revoke _ = false

abbrev pub or_rejected : Result Bytes TrustStore → Result TrustWriteError TrustStore
or_rejected (ok store) = ok store
or_rejected (err reason) = err (rejected reason)

unfoldable pub apply_change :
    Crypto → Option TrustStore → TrustChange → TrustMode → Result TrustWriteError Value
unfolding changed_document validate_trust active_owner_count
apply_change crypto current change mode = do
  document ← changed_document current change
  validated ← or_rejected (validate_trust crypto document mode)
  guard (not (is_revoke change && active_owner_count validated == 0))
      (rejected (codes "would leave no active owner key"))
  ok document
