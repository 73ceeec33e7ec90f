-- ===== src/Operations/Recovery/Bounds.antt =====
-- The waiting times of operations/src/recovery.py.
use opencode_cloud.Prelude.{
  ℕ, zero, suc, ◌-◌, ◌≤◌, ◌<◌, true, false, not, List, [], ◌∷◌, ◌≡◌, arith, ltb, if◌then◌else◌,
  length, any, any-false, All,
}
use opencode_cloud.Operations.RecoveryPolicy.{
  RecoveryPolicy, between, valid_policy, get_or, backoff,
}

get_or-All : (P : ℕ → Type 0) (xs : List ℕ) (i d : ℕ) → All P xs → i < length xs → P (get_or xs i d)
get_or-All P [] i d h lt = absurd (omega (arith, lt))
get_or-All P (x ∷ xs) zero d h lt = h.0
get_or-All P (x ∷ xs) (suc i) d h lt = get_or-All P xs i d h.1 (omega (arith, lt))

accepted :
    (policy : RecoveryPolicy)
    → valid_policy policy ≡ true
    → (1 ≤ length policy.backoff_seconds)
      × (any (λ v. not (between 1 3600 v)) policy.backoff_seconds ≡ false)
unfolding valid_policy
accepted policy e = (ground arith, ground arith)

-- With a policy that passes its validation, the index is in range for any number of attempts: the
-- wait is one of the backoffs, of 1 to 3600 seconds.
pub backoff-in_range :
    (policy : RecoveryPolicy) (n : ℕ)
    → valid_policy policy ≡ true
    → (1 ≤ backoff policy n) × (backoff policy n ≤ 3600)
unfolding backoff
backoff-in_range policy n e =
    let (some_wait, in_range) = accepted policy e in
    let last = length policy.backoff_seconds - 1 in
    let h =
      get_or-All (λ v. not (between 1 3600 v) ≡ false) policy.backoff_seconds
        (if ltb last n then last else n) 0 (any-false _ policy.backoff_seconds in_range)
        (ground (arith, some_wait)) in
    (ground (arith, h), ground (arith, h))
