-- ===== src/SignedPlan/Verify/Signers.antt =====
-- On whose authority a plan is admitted (src/signed_plan/verify.rs).
use permanu_agent.SignedPlan.Jcs.{canonicalize}
use permanu_agent.SignedPlan.Schema.Rules.{text_or_empty}
use permanu_agent.SignedPlan.Verify.Admitted.{
  verify_signed_plan-IsAdmitted, digest_hex_of, IsVerified,
}
use permanu_agent.Base.Map.{lookup}
use permanu_agent.SignedPlan.Strict.{Parser}
use permanu_agent.SignedPlan.Trust.{is_test_key, TrustedKey, TrustStore}
use permanu_agent.SignedPlan.Crypto.{
  verify_prehash, rule_prefix, hex, plan_prefix, prefixed_digest, Crypto,
}
use permanu_agent.SignedPlan.Verify.Steps.{
  verify_signed_plan, admit, VerifiedPlan, by_rule, authority_ok, invoked_rule,
}
use permanu_agent.SignedPlan.Verify.Envelope.{
  parse_envelope, verify_signature, verify_rule, verify_signatures,
}
use permanu_agent.Base.{
  and_elim, same_iff, unwrap_or, and_then-eq_some, guard-eq_ok, is_some_and-eq_true, not-eq_true,
  is_some_and, same, ok_or-eq_ok, ap, ◌∙◌, and_then, sym, ok_inj, ok_or, guard, refl, ◌>>=◌,
  bind-eq_ok, subst, contains, is_nil, All, ok, arith, filter_option, if◌then◌else◌, Bool, true,
  false, not, ◌&&◌, ◌||◌, List, [], ◌∷◌, Option, none, some, Bytes, codes, ◌≡◌, ◌⊎◌, inl, inr,
}
use permanu_agent.SignedPlan.Value.{is_text, index, Value, as_str}
use permanu_agent.SignedPlan.Verify.{
  client, agent_webhook, RuleRecord, PolicyContext, is_webhook, Submitter,
}

-- The entry of a key of the trust store that is neither revoked nor a test key and that has signed
-- the digest.
pub record IsSigner (crypto : Crypto) (trust : TrustStore) (digest : Bytes) (signer : Value)
    : Type 0 where
  pub key_id : Bytes
  pub key : TrustedKey
  pub raw : Bytes
  pub held : lookup key_id trust.keys ≡ some key
  pub entry_is : signer ≡ key.entry
  pub unrevoked : contains key_id trust.revoked ≡ false
  pub genuine : is_test_key trust key_id ≡ false
  pub verified : verify_prehash crypto key.public_key digest raw ≡ true

-- The signature is by the key of this entry: it names the key, and its bytes are what that key made
-- over the digest.
pub record IsSignedBy (crypto : Crypto) (trust : TrustStore) (digest : Bytes) (sig signer : Value)
    : Type 0 where
  pub is_signer : IsSigner crypto trust digest signer
  pub names_key : is_signer.key_id ≡ text_or_empty (index sig (codes "key_id"))
  pub carries :
      and_then (as_str (index sig (codes "sig"))) crypto.codec.b64url_decode ≡ some is_signer.raw

-- Each of the signatures is by the key of the entry in the same place.
abbrev pub AreSigned : Crypto → TrustStore → Bytes → List Value → List Value → Type 0
AreSigned crypto trust digest [] [] = Unit
AreSigned crypto trust digest (sig ∷ sigs) (signer ∷ signers) =
    IsSignedBy crypto trust digest sig signer × AreSigned crypto trust digest sigs signers
AreSigned crypto trust digest _ _ = ⊥

pub AreSigned-IsSigner :
    (crypto : Crypto) (trust : TrustStore) (digest : Bytes) (sigs signers : List Value)
    → AreSigned crypto trust digest sigs signers
    → All (IsSigner crypto trust digest) signers
AreSigned-IsSigner crypto trust digest [] [] a = tt
AreSigned-IsSigner crypto trust digest [] (signer ∷ signers) a = absurd a
AreSigned-IsSigner crypto trust digest (sig ∷ sigs) [] a = absurd a
AreSigned-IsSigner crypto trust digest (sig ∷ sigs) (signer ∷ signers) a =
    (a.0.is_signer, AreSigned-IsSigner crypto trust digest sigs signers a.1)

kept_if :
    {A : Type 0} (b : Bool) (a : A) {c : A}
    → (elim b [ true ↦ some a | false ↦ none ]) ≡ some c
    → (a ≡ c) × (b ≡ true)
kept_if true a h = (ap (unwrap_or a) h, refl)
kept_if false a h = cc

pub kept_by :
    {A : Type 0} (p : A → Bool) (o : Option A) {a : A}
    → filter_option p o ≡ some a
    → (o ≡ some a) × (p a ≡ true)
kept_by p none h = cc
kept_by p (some b) h =
    let (same_key, holds) = kept_if (p b) b h in (ap some same_key, ap p (sym same_key) ∙ holds)

verify_signature-IsSignedBy :
    (crypto : Crypto) (sig : Value) (digest : Bytes) (trust : TrustStore) {signer : Value}
    → verify_signature crypto sig digest trust ≡ ok signer
    → IsSignedBy crypto trust digest sig signer
unfolding verify_signature
verify_signature-IsSignedBy crypto sig digest trust h =
    let key_id = text_or_empty (index sig (codes "key_id")) in
    let (u0, e0, h0) =
      bind-eq_ok (guard (is_text (codes "ES256-raw") (index sig (codes "alg"))) _) _ h in
    let (key, e1, h1) =
      bind-eq_ok
        (ok_or _ (filter_option (λ k. not (is_test_key trust key_id)) (lookup key_id trust.keys))) _
        h0 in
    let (u2, e2, h2) = bind-eq_ok (guard (not (contains key_id trust.revoked)) _) _ h1 in
    let (raw, e3, h3) =
      bind-eq_ok (ok_or _ (and_then (as_str (index sig (codes "sig"))) crypto.codec.b64url_decode))
        _ h2 in
    let (u4, e4, h4) =
      bind-eq_ok (guard (verify_prehash crypto key.public_key digest raw) _) _ h3 in
    let (held, genuine) = kept_by _ (lookup key_id trust.keys) (ok_or-eq_ok _ _ e1) in
    record {
      is_signer = record {
        key_id = key_id;
        key = key;
        raw = raw;
        held = held;
        entry_is = sym (ok_inj h4);
        unrevoked = not-eq_true _ (guard-eq_ok _ _ e2);
        genuine = not-eq_true _ genuine;
        verified = guard-eq_ok _ _ e4;
      };
      names_key = refl;
      carries = ok_or-eq_ok _ _ e3;
    }

verify_signatures-AreSigned :
    (crypto : Crypto) (digest : Bytes) (trust : TrustStore) (sigs : List Value)
    {signers : List Value}
    → verify_signatures crypto digest trust sigs ≡ ok signers
    → AreSigned crypto trust digest sigs signers
unfolding verify_signatures
verify_signatures-AreSigned crypto digest trust [] h =
    subst (AreSigned crypto trust digest []) (ok_inj h) tt
verify_signatures-AreSigned crypto digest trust (sig ∷ sigs) h =
    let (signer, e0, h0) = bind-eq_ok (verify_signature crypto sig digest trust) _ h in
    let (rest, e1, h1) = bind-eq_ok (verify_signatures crypto digest trust sigs) _ h0 in
    subst (AreSigned crypto trust digest (sig ∷ sigs)) (ok_inj h1) (
      verify_signature-IsSignedBy crypto sig digest trust e0,
      verify_signatures-AreSigned crypto digest trust sigs e1,
    )

-- The standing rule that a plan invokes, as it is stored: its text has the digest that the plan
-- names, it is not revoked, and the key that created it is not compromised.
pub record IsInForce (crypto : Crypto) (ctx : PolicyContext) (invocation : Value)
    (found : RuleRecord) : Type 0 where
  pub canonical : Bytes
  pub stored : ctx.rule (text_or_empty (index invocation (codes "rule_id"))) ≡ ok (some found)
  pub canonical_is : canonicalize found.rule ≡ some canonical
  pub digest_is :
      hex (prefixed_digest crypto.codec rule_prefix canonical)
      ≡ text_or_empty (index invocation (codes "rule_digest_hex"))
  pub unrevoked : found.revoked ≡ false
  pub creator_sound : contains found.created_by_key_id ctx.trust.compromised ≡ false

neither : (a b : Bool) → not (a || b) ≡ true → (a ≡ false) × (b ≡ false)
neither a b h = ground arith

verify_rule-IsInForce :
    (crypto : Crypto) (invocation : Value) (ctx : PolicyContext) {found : RuleRecord}
    → verify_rule crypto invocation ctx ≡ ok found
    → IsInForce crypto ctx invocation found
unfolding verify_rule
verify_rule-IsInForce crypto invocation ctx {found = found} h =
    let claimed = text_or_empty (index invocation (codes "rule_digest_hex")) in
    let (o, e0, h0) =
      bind-eq_ok (ctx.rule (text_or_empty (index invocation (codes "rule_id")))) _ h in
    let (r, e1, h1) = bind-eq_ok (ok_or _ o) _ h0 in
    let recomputed =
      and_then (canonicalize r.rule)
        (λ canonical. some (hex (prefixed_digest crypto.codec rule_prefix canonical))) in
    let (u2, e2, h2) =
      bind-eq_ok
        (guard
          (is_text (text_or_empty (index invocation (codes "rule_id"))) (index r.rule (codes "id"))
            && same r.rule_digest_hex claimed
            && is_some_and (same claimed) recomputed)
          _)
        _ h1 in
    let (u3, e3, h3) =
      bind-eq_ok (guard (not (r.revoked || contains r.created_by_key_id ctx.trust.compromised)) _) _
        h2 in
    let agreed : is_some_and (same claimed) recomputed ≡ true =
      (and_elim
        (is_text (text_or_empty (index invocation (codes "rule_id"))) (index r.rule (codes "id"))
          && same r.rule_digest_hex claimed)
        (is_some_and (same claimed) recomputed) (guard-eq_ok _ _ e2)).1 in
    let (text, t, agrees) = is_some_and-eq_true (same claimed) recomputed agreed in
    let (canonical, c, k) = and_then-eq_some (canonicalize r.rule) _ t in
    let (unrevoked, sound) = neither r.revoked _ (guard-eq_ok _ _ e3) in
    subst (IsInForce crypto ctx invocation) (ok_inj h3) (record {
      canonical = canonical;
      stored = e0 ∙ ap ok (ok_or-eq_ok _ _ e1);
      canonical_is = c;
      digest_is = ap (unwrap_or claimed) k ∙ sym ((same_iff claimed text).0 agrees);
      unrevoked = unrevoked;
      creator_sound = sound;
    })

-- What a plan is admitted on: signatures, all of them good, or a rule in force that the agent's own
-- webhook invokes.
pub data Authority (crypto : Crypto) (submitter : Submitter) (ctx : PolicyContext) (plan : Value)
    (digest : Bytes) (signatures signers : List Value) : Type 0 where
  by_keys :
      by_rule plan ≡ false
      → is_nil signatures ≡ false
      → AreSigned crypto ctx.trust digest signatures signers
      → Authority crypto submitter ctx plan digest signatures signers
  by_standing_rule :
      (found : RuleRecord)
      → by_rule plan ≡ true
      → submitter ≡ agent_webhook
      → is_nil signatures ≡ true
      → AreSigned crypto ctx.trust digest signatures signers
      → IsInForce crypto ctx (index plan (codes "invocation")) found
      → Authority crypto submitter ctx plan digest signatures signers

from_webhook : (submitter : Submitter) → is_webhook submitter ≡ true → submitter ≡ agent_webhook
from_webhook client h = cc
from_webhook agent_webhook h = refl

rule_branch :
    (is_rule none_signed invoked webhook : Bool)
    → (if is_rule then none_signed && invoked && webhook else not none_signed && not invoked) ≡ true
    → ((is_rule ≡ true) × (none_signed ≡ true) × (webhook ≡ true))
      ⊎ ((is_rule ≡ false) × (none_signed ≡ false))
rule_branch is_rule none_signed invoked webhook h = ground arith

pub invoked_rule-IsInForce :
    (crypto : Crypto) (plan : Value) (ctx : PolicyContext) {rule_found : Option RuleRecord}
    → by_rule plan ≡ true
    → invoked_rule crypto plan ctx ≡ ok rule_found
    → (found : RuleRecord) × (rule_found ≡ some found)
      × IsInForce crypto ctx (index plan (codes "invocation")) found
unfolding invoked_rule
invoked_rule-IsInForce crypto plan ctx r h =
    let invoked =
      verify_rule crypto (index plan (codes "invocation")) ctx >>= λ found. ok (some found) in
    let h' = sym (ap (λ b. if b then invoked else ok none) r) ∙ h in
    let (found, e, h'') =
      bind-eq_ok (verify_rule crypto (index plan (codes "invocation")) ctx) _ h' in
    (found, sym (ok_inj h''), verify_rule-IsInForce crypto (index plan (codes "invocation")) ctx e)

IsVerified-Authority :
    {parser : Parser} {crypto : Crypto} {text : Bytes} {spec_texts : List Bytes}
    {submitter : Submitter} {ctx : PolicyContext}
    (v : IsVerified parser crypto text spec_texts submitter ctx)
    → Authority crypto submitter ctx v.plan
        (prefixed_digest crypto.codec plan_prefix v.canonical)
        v.signatures
        v.signers
unfolding authority_ok
IsVerified-Authority {crypto = crypto} {submitter = submitter} {ctx = ctx} v =
    let good = verify_signatures-AreSigned crypto _ ctx.trust v.signatures v.signed in
    elim (rule_branch (by_rule v.plan) (is_nil v.signatures) _ (is_webhook submitter)
      v.authorised) [
        | inl r ↦
            let (found, e, in_force) = invoked_rule-IsInForce crypto v.plan ctx r.0 v.invoked in
            by_standing_rule found r.0 (from_webhook submitter r.2) r.1 good in_force
        | inr k ↦ by_keys k.0 k.1 good
      ]

-- A plan is admitted only on good authority: the envelope has at least one signature over the plan,
-- and every one of its signatures names a key of the trust store that is neither revoked nor a test
-- key and is what that key made over the digest of the plan's canonical text, with the entry of that
-- key among the signers in the same place; or the envelope has no signatures and came through the
-- agent's own webhook, under a standing rule that is stored as the plan says, that is not revoked,
-- and whose creator's key is not compromised.
pub verify_signed_plan-Authority :
    (parser : Parser) (crypto : Crypto) (text : Bytes) (spec_texts : List Bytes)
    (submitter : Submitter) (ctx : PolicyContext) {verified : VerifiedPlan}
    → verify_signed_plan parser crypto text spec_texts submitter ctx ≡ ok (admit verified)
    → (canonical : Bytes) × (signatures : List Value) × (parse_envelope parser crypto text
        ≡ ok (verified.plan, signatures))
      × (canonicalize verified.plan ≡ some canonical)
      × (digest_hex_of crypto canonical ≡ verified.digest_hex)
      × Authority crypto submitter ctx verified.plan
          (prefixed_digest crypto.codec plan_prefix canonical)
          signatures
          verified.signers
verify_signed_plan-Authority parser crypto text spec_texts submitter ctx {verified = verified} h =
    let a = verify_signed_plan-IsAdmitted parser crypto text spec_texts submitter ctx h in
    let v = a.steps in
    let digest = prefixed_digest crypto.codec plan_prefix v.canonical in
    (
      v.canonical,
      v.signatures,
      subst (λ p. parse_envelope parser crypto text ≡ ok (p, v.signatures)) a.plan_is v.parsed,
      ap canonicalize (sym a.plan_is) ∙ v.canonical_is,
      a.digest_is,
      subst (λ p. Authority crypto submitter ctx p digest v.signatures verified.signers) a.plan_is
          (subst (λ s. Authority crypto submitter ctx v.plan digest v.signatures s) a.signers_are
            (IsVerified-Authority v)),
    )
