-- ===== src/Hooks/Plan/Lifetime.antt =====
-- The lifetime of a rule plan (src/local/hooks/plan.rs), as the verifier sees it
-- (src/signed_plan/verify.rs).
use permanu_agent.Base.Map.{lookup}
use permanu_agent.Hooks.Plan.{
  rule_plan_lifetime_seconds, Deploy, ServiceBuild, RulePlanInput, plan_of,
}
use permanu_agent.SignedPlan.Text.Time.Stamps.{format_timestamp-timestamp}
use permanu_agent.SignedPlan.Value.{index, Value, string}
use permanu_agent.SignedPlan.Text.Time.{format_timestamp, timestamp}
use permanu_agent.SignedPlan.Verify.{max_lifetime_seconds, skew_seconds, check_time, time_of}
use permanu_agent.Base.{
  codes, neg_part, ◌+◌, same, suc, pos_part, sub_ℕ, refl, ◌∙◌, ap, negsuc, ok, arith, some, true,
  pos, ltb_ℤ, ◌≡◌, not, ◌≤ℤ◌, ◌-ℤ◌, ℤ, ◌+ℤ◌, ℕ, Bytes, List,
}

after_900 :
    (n : ℕ)
    → sub_ℕ (pos_part (sub_ℕ 900 (suc n + 0)) + suc n) (neg_part (sub_ℕ 900 (suc n + 0)) + 0)
      ≡ pos 900
after_900 n = ground arith

lasts_900 : (z : ℤ) → (z +ℤ pos 900) -ℤ z ≡ pos 900
unfolding ◌+ℤ◌ ◌-ℤ◌
lasts_900 (pos n) = ground arith
lasts_900 (negsuc n) = after_900 n

not_below : (a b : ℤ) → b ≤ℤ a → not (ltb_ℤ a b) ≡ true
not_below a b h = ground arith

time_of-format_timestamp :
    (v : Bytes) (z : ℤ) → timestamp v ≡ some z → time_of (string (format_timestamp z)) ≡ ok z
unfolding time_of
time_of-format_timestamp v z e =
    ap (λ text. time_of (string text)) (format_timestamp-timestamp v z e) ∙ rw e refl

window_passes :
    (plan : Value) (created expires now : ℤ)
    → time_of (index plan (codes "created_at")) ≡ ok created
    → time_of (index plan (codes "expires_at")) ≡ ok expires
    → (expires -ℤ created) ≡ pos 900
    → not (ltb_ℤ (now +ℤ skew_seconds) created) ≡ true
    → not (ltb_ℤ (expires +ℤ skew_seconds) now) ≡ true
    → check_time plan now ≡ ok tt
unfolding check_time
window_passes plan created expires now c e lasts begun unexpired =
    rw c (rw e (rw lasts (rw begun (rw unexpired refl))))

-- The plan that the agent writes for a push passes the verifier's check of its window from two minutes
-- before it is written to two minutes after its fifteen minutes are over, when its two times can be
-- written as timestamps; and those fifteen minutes are the verifier's limit on a lifetime.
pub check_time-plan_of :
    (input : RulePlanInput) (plan_id : Bytes) (services : List ServiceBuild) (deploys : List Deploy)
    (plan_nonce created expires : Bytes) (now : ℤ)
    → timestamp created ≡ some input.now
    → timestamp expires ≡ some (input.now +ℤ pos rule_plan_lifetime_seconds)
    → input.now ≤ℤ (now +ℤ skew_seconds)
    → now ≤ℤ ((input.now +ℤ pos rule_plan_lifetime_seconds) +ℤ skew_seconds)
    → (check_time (plan_of input plan_id services deploys plan_nonce) now ≡ ok tt)
      × (pos rule_plan_lifetime_seconds ≡ max_lifetime_seconds)
unfolding plan_of lookup same
check_time-plan_of input plan_id services deploys plan_nonce created expires now c e begun
      unexpired =
    let expiry = input.now +ℤ pos rule_plan_lifetime_seconds in
    (
      window_passes (plan_of input plan_id services deploys plan_nonce) input.now expiry now
          (time_of-format_timestamp created input.now c) (time_of-format_timestamp expires expiry e)
          (lasts_900 input.now) (not_below (now +ℤ skew_seconds) input.now begun)
          (not_below (expiry +ℤ skew_seconds) now unexpired),
      refl,
    )
