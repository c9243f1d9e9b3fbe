-- ===== src/Orchestration/Spec.antt =====
-- src/orchestration/spec.rs: the specification of an execution and its validation.
-- `F` is the type of `f64`.
pub mod Validation
use void_control.Base.{
  ℕ, Bool, true, false, not, ◌&&◌, ◌||◌, Option, none, some, String, ◌==◌, str_eq, ◌&◌, is_blank,
  if◌then◌else◌,
}
use void_control.Base.Map.{Map}
use void_control.Orchestration.Policy.{GlobalConfig, OrchestrationPolicy}
use void_control.Orchestration.Policy
use void_control.Orchestration.Variation.{VariationConfig}

pub record EvaluationConfig (F : Type 0) : Type 0 where
  pub scoring_type : String
  pub weights : Map F
  pub pass_threshold : Option F
  pub ranking : String
  pub tie_breaking : String

pub record WorkflowTemplateRef : Type 0 where
  pub template : String

pub record SupervisionReviewPolicy : Type 0 where
  pub max_revision_rounds : ℕ
  pub retry_on_runtime_failure : Bool
  pub require_final_approval : Bool

pub record SupervisionConfig : Type 0 where
  pub supervisor_role : String
  pub review_policy : SupervisionReviewPolicy

pub record ExecutionSpec (F : Type 0) : Type 0 where
  pub mode : String
  pub goal : String
  pub workflow : WorkflowTemplateRef
  pub policy : OrchestrationPolicy F
  pub evaluation : EvaluationConfig F
  pub variation : VariationConfig
  pub swarm : Bool
  pub supervision : Option SupervisionConfig

-- The checks of the section that supervision needs; `none` stands for no error.
validate_supervision : Option SupervisionConfig → Option String
validate_supervision none = some "supervision mode requires the supervision section"
validate_supervision (some c) =
    if is_blank c.supervisor_role then some "supervision.supervisor_role is required" else none

-- The checks behind that of the policy.
validate_rest : {F : Type 0} → ExecutionSpec F → Option String
validate_rest s =
    if s.variation.candidates_per_iteration == 0
    then some "variation.candidates_per_iteration must be positive"
    else if not (
        str_eq s.variation.source "parameter_space"
        || str_eq s.variation.source "explicit"
        || str_eq s.variation.source "leader_directed"
        || str_eq s.variation.source "signal_reactive")
    then some ("unknown variation source '" & s.variation.source & "'")
    else if is_blank s.workflow.template
    then some "workflow.template is required"
    else none

-- The first error, or what comes after.
or_next : Option String → Option String → Option String
or_next (some e) next = some e
or_next none next = next

-- `ExecutionSpec::validate`: the error's text, or none for `Ok(())`.
unfoldable pub validate : {F : Type 0} → ExecutionSpec F → GlobalConfig → Option String
unfolding validate_supervision validate_rest or_next
validate s global =
    if not (str_eq s.mode "swarm" || str_eq s.mode "supervision")
    then some ("unknown mode '" & s.mode & "'")
    else if str_eq s.mode "swarm" && not s.swarm
    then some "swarm mode requires the swarm section"
    else or_next (if str_eq s.mode "supervision" then validate_supervision s.supervision else none)
        (or_next (Policy.validate s.policy global) (validate_rest s))
