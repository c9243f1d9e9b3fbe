-- ===== src/Orchestration/Spec/Validation.antt =====
-- src/orchestration/spec.rs and src/orchestration/policy.rs: what a specification that is accepted holds.
use void_control.Base.{
  ◌≤◌, ◌<◌, ◌≡◌, sym, ◌∙◌, ◌↔◌, ◌⊎◌, true, false, Option, none, some, String, arith, str_eq,
  str_eq_iff, is_blank, is_some, if◌then◌else◌, not, ◌&&◌, ◌||◌, ◌&◌,
}
use void_control.Orchestration.Policy.{GlobalConfig, OrchestrationPolicy, validate_convergence}
use void_control.Orchestration.Policy
use void_control.Orchestration.Spec.{
  ExecutionSpec, SupervisionConfig, validate, validate_supervision, validate_rest, or_next,
}

-- A strategy of convergence that is known, with the number that it needs.
abbrev pub ConvergenceHolds : {F : Type 0} → OrchestrationPolicy F → Type 0
ConvergenceHolds p =
    ((p.convergence.strategy ≡ "threshold") × (is_some p.convergence.min_score ≡ true))
    ⊎ ((p.convergence.strategy ≡ "plateau")
        × (is_some p.convergence.max_iterations_without_improvement ≡ true))
    ⊎ ((p.convergence.strategy ≡ "exhaustive") × (is_some p.budget.max_iterations ≡ true))

validate_convergence_iff :
    {F : Type 0} (p : OrchestrationPolicy F) → (validate_convergence p ≡ none) ↔ ConvergenceHolds p
unfolding validate_convergence
validate_convergence_iff p = ground (
  arith,
  str_eq_iff p.convergence.strategy "threshold",
  str_eq_iff p.convergence.strategy "plateau",
  str_eq_iff p.convergence.strategy "exhaustive",
  str_eq_iff "threshold" "plateau",
  str_eq_iff "threshold" "exhaustive",
  str_eq_iff "plateau" "exhaustive",
)

-- What a valid policy holds, under a global limit.
pub record PolicyHolds {F : Type 0} (p : OrchestrationPolicy F) (g : GlobalConfig) : Type 0 where
  pub ends :
      (is_some p.budget.max_iterations ≡ true) ⊎ (is_some p.budget.max_wall_clock_secs ≡ true)
  pub positive : 0 < p.concurrency.max_concurrent_candidates
  pub within : p.concurrency.max_concurrent_candidates ≤ g.max_concurrent_child_runs
  pub converges : ConvergenceHolds p

policy_accepts_iff :
    {F : Type 0} (p : OrchestrationPolicy F) (g : GlobalConfig)
    → (Policy.validate p g ≡ none) ↔ PolicyHolds p g
unfolding Policy.validate
policy_accepts_iff p g = ground (arith, validate_convergence_iff p)

-- The section names a supervisor.
abbrev pub SectionHolds : Option SupervisionConfig → Type 0
SectionHolds none = ⊥
SectionHolds (some c) = is_blank c.supervisor_role ≡ false

-- A mode that is known, with the section that it needs.
abbrev pub ModeHolds : {F : Type 0} → ExecutionSpec F → Type 0
ModeHolds s =
    ((s.mode ≡ "swarm") × (s.swarm ≡ true))
    ⊎ ((s.mode ≡ "supervision") × SectionHolds s.supervision)

abbrev pub SourceIsKnown : String → Type 0
SourceIsKnown source =
    (source ≡ "parameter_space")
    ⊎ (source ≡ "explicit")
    ⊎ (source ≡ "leader_directed")
    ⊎ (source ≡ "signal_reactive")

-- What a valid specification holds, under a global limit.
pub record SpecHolds {F : Type 0} (s : ExecutionSpec F) (g : GlobalConfig) : Type 0 where
  pub mode : ModeHolds s
  pub policy : PolicyHolds s.policy g
  pub candidates : 0 < s.variation.candidates_per_iteration
  pub source : SourceIsKnown s.variation.source
  pub template : is_blank s.workflow.template ≡ false

mode_error : {F : Type 0} → ExecutionSpec F → Option String
mode_error s =
    if not (str_eq s.mode "swarm" || str_eq s.mode "supervision")
    then some ("unknown mode '" & s.mode & "'")
    else if str_eq s.mode "swarm" && not s.swarm
    then some "swarm mode requires the swarm section"
    else if str_eq s.mode "supervision"
    then validate_supervision s.supervision
    else none

validate_supervision_iff :
    (o : Option SupervisionConfig) → (validate_supervision o ≡ none) ↔ SectionHolds o
unfolding validate_supervision
validate_supervision_iff none = ground arith
validate_supervision_iff (some c) = ground arith

mode_error_iff : {F : Type 0} (s : ExecutionSpec F) → (mode_error s ≡ none) ↔ ModeHolds s
unfolding mode_error
mode_error_iff s =
    let (there, back) = validate_supervision_iff s.supervision in
    ground (
      arith,
      there,
      back,
      str_eq_iff s.mode "swarm",
      str_eq_iff s.mode "supervision",
      str_eq_iff "swarm" "supervision",
    )

validate-mode_error :
    {F : Type 0} (s : ExecutionSpec F) (g : GlobalConfig)
    → validate s g ≡ or_next (mode_error s) (or_next (Policy.validate s.policy g) (validate_rest s))
unfolding validate mode_error or_next
validate-mode_error s g = ground arith

validate_rest_iff :
    {F : Type 0} (s : ExecutionSpec F)
    → (validate_rest s ≡ none) ↔ (
        (0 < s.variation.candidates_per_iteration)
        × SourceIsKnown s.variation.source
        × (is_blank s.workflow.template ≡ false))
unfolding validate_rest
validate_rest_iff s = ground (
  arith,
  str_eq_iff s.variation.source "parameter_space",
  str_eq_iff s.variation.source "explicit",
  str_eq_iff s.variation.source "leader_directed",
  str_eq_iff s.variation.source "signal_reactive",
)

-- A specification is accepted exactly when its mode is known and has its section, its policy is
-- valid under the global limit, it asks for candidates from a known source, and its template is
-- named by more than white space. Of the numbers of the policy only the candidates that run at once
-- need be positive: the limits of iterations, of iterations without improvement and of seconds need
-- only be given where they are asked for, and may be 0.
pub spec_validate_iff :
    {F : Type 0} (s : ExecutionSpec F) (g : GlobalConfig) → (validate s g ≡ none) ↔ SpecHolds s g
unfolding or_next
spec_validate_iff s g = (
  λ h.
      let parts =
        split (mode_error s) (Policy.validate s.policy g) (validate_rest s)
          (sym (validate-mode_error s g) ∙ h) in
      let rest = (validate_rest_iff s).0 parts.2 in
      record {
        mode = (mode_error_iff s).0 parts.0;
        policy = (policy_accepts_iff s.policy g).0 parts.1;
        candidates = rest.0;
        source = rest.1;
        template = rest.2;
      },
  λ v.
      validate-mode_error s g
      ∙ join (mode_error s) (Policy.validate s.policy g) (validate_rest s)
          ((mode_error_iff s).1 v.mode) ((policy_accepts_iff s.policy g).1 v.policy)
          ((validate_rest_iff s).1 (v.candidates, v.source, v.template)),
)
  where
    split :
        (a b c : Option String)
        → or_next a (or_next b c) ≡ none
        → (a ≡ none) × (b ≡ none) × (c ≡ none)
    split a b c e = ground arith

    join : (a b c : Option String) → a ≡ none → b ≡ none → c ≡ none → or_next a (or_next b c) ≡ none
    join a b c x y z = ground arith
