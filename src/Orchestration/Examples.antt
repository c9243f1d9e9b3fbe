-- ===== src/Orchestration/Examples.antt =====
-- src/orchestration: variation and validation on concrete values.
use void_control.Base.{ℕ, ◌≡◌, ◌↔◌, refl, true, none, some, String, [], ◌∷◌, is_blank}
use void_control.Orchestration.Types.{VariationProposal, ExecutionAccumulator, default_accumulator}
use void_control.Orchestration.Policy.{
  GlobalConfig, default_policy, default_budget, default_convergence,
}
use void_control.Orchestration.Variation.{VariationConfig, generate}
use void_control.Orchestration.Spec.{ExecutionSpec, validate}
use void_control.Orchestration.Spec.Validation.{SpecHolds, spec_validate_iff}

abbrev proposal : String → VariationProposal
proposal value = record { overrides = ("model", value) ∷ [] }

abbrev explicit : VariationConfig
explicit = record {
  source = "explicit";
  candidates_per_iteration = 2;
  selection = none;
  parameter_space = [];
  explicit = proposal "a" ∷ proposal "b" ∷ proposal "c" ∷ [];
}

abbrev after_two : ExecutionAccumulator
after_two = record default_accumulator { scoring_history_len = 2 }

goes_round : generate explicit after_two ≡ (proposal "c" ∷ proposal "a" ∷ [])
unfolding generate default_accumulator
goes_round = refl

abbrev spec : ExecutionSpec ℕ
spec = record {
  mode = "swarm";
  goal = "goal";
  workflow = record { template = "workflow.yaml" };
  policy = default_policy;
  evaluation = record {
    scoring_type = "weighted_metrics";
    weights = [];
    pass_threshold = some 1;
    ranking = "highest_score";
    tie_breaking = "cost_usd";
  };
  variation = explicit;
  swarm = true;
  supervision = none;
}

default_is_accepted : validate spec (record { max_concurrent_child_runs = 4 }) ≡ none
unfolding validate default_policy is_blank void_control.Orchestration.Policy.validate
default_is_accepted = refl

-- Limits of no iterations and no iterations without improvement.
abbrev idle_spec : ExecutionSpec ℕ
idle_spec = record spec {
  policy = record default_policy {
    budget = record default_budget { max_iterations = some 0 };
    convergence = record default_convergence { max_iterations_without_improvement = some 0 };
  };
}

idle_is_accepted : validate idle_spec (record { max_concurrent_child_runs = 4 }) ≡ none
unfolding validate default_policy default_budget default_convergence is_blank
    void_control.Orchestration.Policy.validate
idle_is_accepted = refl

spec_validate_iff_example :
    (validate spec (record { max_concurrent_child_runs = 4 }) ≡ none)
    ↔ SpecHolds spec (record { max_concurrent_child_runs = 4 })
spec_validate_iff_example = spec_validate_iff spec (record { max_concurrent_child_runs = 4 })
