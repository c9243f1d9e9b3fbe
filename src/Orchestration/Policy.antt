-- ===== src/Orchestration/Policy.antt =====
-- src/orchestration/policy.rs: the limits that an execution is submitted with, and their validation.
-- `F` is the type of `f64`.
use void_control.Base.{
  ℕ, not, ◌&&◌, Option, none, some, String, ltb, ◌==◌, str_eq, ◌&◌, is_some, if◌then◌else◌, u32_max,
}

pub record GlobalConfig : Type 0 where
  pub max_concurrent_child_runs : ℕ

pub record BudgetPolicy : Type 0 where
  pub max_iterations : Option ℕ
  pub max_child_runs : Option ℕ
  pub max_wall_clock_secs : Option ℕ
  pub max_cost_usd_millis : Option ℕ

pub record ConcurrencyPolicy : Type 0 where
  pub max_concurrent_candidates : ℕ

pub record ConvergencePolicy (F : Type 0) : Type 0 where
  pub strategy : String
  pub min_score : Option F
  pub max_iterations_without_improvement : Option ℕ

pub record OrchestrationPolicy (F : Type 0) : Type 0 where
  pub budget : BudgetPolicy
  pub concurrency : ConcurrencyPolicy
  pub convergence : ConvergencePolicy F
  pub max_candidate_failures_per_iteration : ℕ
  pub missing_output_policy : String
  pub iteration_failure_policy : String

unfoldable pub default_budget : BudgetPolicy
default_budget = record {
  max_iterations = some 10;
  max_child_runs = none;
  max_wall_clock_secs = some 600;
  max_cost_usd_millis = none;
}

unfoldable pub default_convergence : {F : Type 0} → ConvergencePolicy F
default_convergence = record {
  strategy = "plateau";
  min_score = none;
  max_iterations_without_improvement = some 2;
}

unfoldable pub default_policy : {F : Type 0} → OrchestrationPolicy F
unfolding default_budget default_convergence
default_policy = record {
  budget = default_budget;
  concurrency = record { max_concurrent_candidates = 1 };
  convergence = default_convergence;
  max_candidate_failures_per_iteration = u32_max;
  missing_output_policy = "mark_failed";
  iteration_failure_policy = "fail_execution";
}

-- The `match` on the convergence strategy. `none` stands for `Ok(())`.
unfoldable pub validate_convergence : {F : Type 0} → OrchestrationPolicy F → Option String
validate_convergence p =
    if str_eq p.convergence.strategy "threshold"
    then (if not (is_some p.convergence.min_score)
        then some "policy.convergence.min_score is required for threshold strategy"
        else none)
    else if str_eq p.convergence.strategy "plateau"
    then (if not (is_some p.convergence.max_iterations_without_improvement)
        then some
            "policy.convergence.max_iterations_without_improvement is required for plateau strategy"
        else none)
    else if str_eq p.convergence.strategy "exhaustive"
    then (if not (is_some p.budget.max_iterations)
        then some "policy.budget.max_iterations is required for exhaustive strategy"
        else none)
    else some ("unknown convergence strategy '" & p.convergence.strategy & "'")

-- `OrchestrationPolicy::validate`
unfoldable pub validate : {F : Type 0} → OrchestrationPolicy F → GlobalConfig → Option String
unfolding validate_convergence
validate p global =
    if not (is_some p.budget.max_iterations) && not (is_some p.budget.max_wall_clock_secs)
    then some
        "at least one of policy.budget.max_iterations or policy.budget.max_wall_clock_secs must be set"
    else if p.concurrency.max_concurrent_candidates == 0
    then some "policy.concurrency.max_concurrent_candidates must be positive"
    else if ltb global.max_concurrent_child_runs p.concurrency.max_concurrent_candidates
    then some
        "policy.concurrency.max_concurrent_candidates cannot exceed global.max_concurrent_child_runs"
    else validate_convergence p
