-- ===== src/Contract/Policy.antt =====
-- src/contract/policy.rs: the limits that a runtime is given for one run.
use void_control.Base.{ℕ, ◌≡◌, ◌==◌, if◌then◌else◌, Option, none, some, String, ◌<◌, ◌↔◌, arith}

pub record ExecutionPolicy : Type 0 where
  pub max_parallel_microvms_per_run : ℕ
  pub max_stage_retries : ℕ
  pub stage_timeout_secs : ℕ
  pub cancel_grace_period_secs : ℕ

-- `none` stands for `Ok(())`, and `some` for the error with its text.
unfoldable pub validate : ExecutionPolicy → Option String
validate p =
    if p.max_parallel_microvms_per_run == 0
    then some "max_parallel_microvms_per_run must be > 0"
    else if p.stage_timeout_secs == 0
    then some "stage_timeout_secs must be > 0"
    else if p.cancel_grace_period_secs == 0
    then some "cancel_grace_period_secs must be > 0"
    else none

-- A policy is accepted exactly when each of the three limits is positive.
pub execution_policy_iff :
    (p : ExecutionPolicy)
    → (validate p ≡ none) ↔ (
        (0 < p.max_parallel_microvms_per_run)
        × (0 < p.stage_timeout_secs)
        × (0 < p.cancel_grace_period_secs))
unfolding validate
execution_policy_iff p = ground arith
