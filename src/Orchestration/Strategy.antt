-- ===== src/Orchestration/Strategy.antt =====
-- src/orchestration/strategy.rs: how each strategy plans, evaluates and reduces an iteration.
-- `F` is the type of `f64`, `fl` its operations, and `V` the type of JSON values.
pub mod Planning
pub mod Reduction
pub mod Rounds
pub mod Supervision
pub mod Records
pub mod Examples
use mathlib.Core.Option.{get_or}
use void_control.Base.{
  ℕ, zero, suc, ◌+◌, ◌/◌, ◌%◌, ◌≤◌, Bool, true, false, not, ◌&&◌, ◌||◌, Option, none, some, String,
  List, [], ◌∷◌, if◌then◌else◌, ltb, leb, ◌==◌, length, head?, take, filter, get_elem?, is_empty,
  str_eq, ◌&◌, decimal, add_u32, u32_mod, u32_max,
}
use void_control.Base.Map.{Map, get, insert}
use void_control.Float.{FloatOps}
use void_control.Float
use void_control.Orchestration.Types.{
  CandidateInbox, CandidateOutput, CandidateSpec, ExecutionAccumulator, MessageStats,
  VariationProposal, WorkerReviewStatus,
}
use void_control.Orchestration.Policy.{ConvergencePolicy}
use void_control.Orchestration.Scoring.{ScoringConfig, RankedCandidate, score_iteration}
use void_control.Orchestration.Spec.{SupervisionReviewPolicy}
use void_control.Orchestration.Variation.{VariationConfig, generate}

pub record IterationEvaluation (F : Type 0) : Type 0 where
  pub ranked_candidates : List (RankedCandidate F)

pub record WorkerReviewDecision : Type 0 where
  pub candidate_id : String
  pub status : WorkerReviewStatus
  pub revision_round : ℕ

pub record SupervisionEvaluation : Type 0 where
  pub decisions : List WorkerReviewDecision
  pub final_approval_ready : Bool

pub data StopReason : Type 0 where
  convergence_threshold convergence_plateau : StopReason

pub record SwarmStrategy (F : Type 0) : Type 0 where
  pub variation : VariationConfig
  pub scoring : ScoringConfig F
  pub convergence : ConvergencePolicy F

pub record SupervisionStrategy : Type 0 where
  pub variation : VariationConfig
  pub review_policy : SupervisionReviewPolicy

-- The candidate's id: that of the inbox at its place, or one made from the place.
candidate_name : Option CandidateInbox → ℕ → String
candidate_name none idx = "candidate-" & decimal (idx + 1)
candidate_name (some inbox) idx = inbox.candidate_id

-- The proposals from a place on, each as a candidate. Both strategies plan so.
unfoldable pub name_candidates :
    List CandidateInbox → ℕ → List VariationProposal → List CandidateSpec
unfolding candidate_name
name_candidates inboxes idx [] = []
name_candidates inboxes idx (p ∷ ps) =
    record { candidate_id = candidate_name (get_elem? inboxes idx) idx; overrides = p.overrides }
    ∷ name_candidates inboxes (suc idx) ps

unfoldable pub advisory_message_stats : VariationConfig → Option MessageStats → Option MessageStats
advisory_message_stats variation none = none
advisory_message_stats variation (some stats) =
    if str_eq variation.source "leader_directed" || stats.total_messages == 0
    then none
    else some stats

-- `div_ceil(2)`
half_up : ℕ → ℕ
half_up n = (n + 1) / 2

-- More messages that narrow the search than messages that widen it halve the candidates.
limit_by_stats : Option MessageStats → List CandidateSpec → List CandidateSpec
unfolding half_up
limit_by_stats none candidates = candidates
limit_by_stats (some stats) candidates =
    let exploration_pressure =
      stats.proposal_count + stats.signal_count + stats.unique_sources + stats.leader_messages in
    let convergence_pressure =
      stats.broadcast_messages + stats.dropped_count + stats.expired_count in
    if ltb exploration_pressure convergence_pressure && ltb 1 (length candidates)
    then take (half_up (length candidates)) candidates
    else candidates

module _ {F : Type 0} (fl : FloatOps F) where
  -- `SwarmStrategy::plan_candidates`
  unfoldable pub plan_swarm :
      SwarmStrategy F
      → ExecutionAccumulator
      → List CandidateInbox
      → Option MessageStats
      → List CandidateSpec
  unfolding limit_by_stats
  plan_swarm s accumulator inboxes message_stats =
      limit_by_stats (advisory_message_stats s.variation message_stats)
        (name_candidates inboxes 0 (generate s.variation accumulator))

  -- `SwarmStrategy::evaluate`
  unfoldable pub evaluate_swarm :
      {V : Type 0} → SwarmStrategy F → List (CandidateOutput F V) → IterationEvaluation F
  evaluate_swarm s outputs = record { ranked_candidates = score_iteration fl s.scoring outputs }

  -- The threshold is infinity where none is set.
  stop_at_threshold : Option F → Option (RankedCandidate F) → Option StopReason
  stop_at_threshold min_score none = none
  stop_at_threshold min_score (some best) =
      if Float.ge fl best.score (get_or min_score fl.infinity)
      then some StopReason.convergence_threshold
      else none

  -- `SwarmStrategy::should_stop`
  unfoldable pub should_stop :
      SwarmStrategy F → ExecutionAccumulator → IterationEvaluation F → Option StopReason
  unfolding stop_at_threshold
  should_stop s accumulator evaluation =
      if str_eq s.convergence.strategy "threshold"
      then stop_at_threshold s.convergence.min_score (head? evaluation.ranked_candidates)
      else if str_eq s.convergence.strategy "plateau"
      then (if leb (get_or s.convergence.max_iterations_without_improvement u32_max)
            accumulator.iterations_without_improvement
          then some StopReason.convergence_plateau
          else none)
      else none

best_or_kept : {F : Type 0} → Option (RankedCandidate F) → Option String → Option String
best_or_kept none kept = kept
best_or_kept (some best) kept = some best.candidate_id

-- `count() as u32`
count_failed : {F : Type 0} → List (RankedCandidate F) → ℕ
count_failed ranked = length (filter (λ c. not c.pass) ranked) % u32_mod

-- `SwarmStrategy::reduce`
unfoldable pub reduce_swarm :
    {F : Type 0} → ExecutionAccumulator → IterationEvaluation F → ExecutionAccumulator
unfolding best_or_kept count_failed
reduce_swarm accumulator evaluation = record accumulator {
  scoring_history_len = add_u32 accumulator.scoring_history_len 1;
  completed_iterations = add_u32 accumulator.completed_iterations 1;
  failure_counts = record {
    total_candidate_failures =
        add_u32 accumulator.failure_counts.total_candidate_failures
          (count_failed evaluation.ranked_candidates);
  };
  best_candidate_id =
      best_or_kept (head? evaluation.ranked_candidates) accumulator.best_candidate_id;
}

-- `SupervisionStrategy::plan_candidates`
unfoldable pub plan_supervision :
    SupervisionStrategy → ExecutionAccumulator → List CandidateInbox → List CandidateSpec
plan_supervision s accumulator inboxes =
    name_candidates inboxes 0 (generate s.variation accumulator)

-- `status != WorkerReviewStatus::Approved`
is_approved : WorkerReviewStatus → Bool
is_approved WorkerReviewStatus.approved = true
is_approved _ = false

-- `status == RevisionRequested || status == RetryRequested`, the first arm of the reduction.
pub asks_again : WorkerReviewStatus → Bool
asks_again WorkerReviewStatus.revision_requested = true
asks_again WorkerReviewStatus.retry_requested = true
asks_again _ = false

module _ {F : Type 0} (fl : FloatOps F) where
  unfoldable pub review_status_for_output :
      {V : Type 0} → SupervisionStrategy → CandidateOutput F V → ℕ → WorkerReviewStatus
  review_status_for_output s output revision_round =
      if not output.succeeded
      then (if s.review_policy.retry_on_runtime_failure
            && ltb revision_round s.review_policy.max_revision_rounds
          then WorkerReviewStatus.retry_requested
          else WorkerReviewStatus.rejected)
      else if Float.ge fl (get_or (get "approved" output.metrics) fl.zero) fl.one
      then WorkerReviewStatus.approved
      else if ltb revision_round s.review_policy.max_revision_rounds
      then WorkerReviewStatus.revision_requested
      else WorkerReviewStatus.rejected

  unfoldable pub decide :
      {V : Type 0}
      → SupervisionStrategy
      → ExecutionAccumulator
      → CandidateOutput F V
      → WorkerReviewDecision
  decide s accumulator output =
      let revision_round =
        get_or (get output.candidate_id accumulator.supervision_revision_rounds) 0 in
      record {
        candidate_id = output.candidate_id;
        status = review_status_for_output s output revision_round;
        revision_round = revision_round;
      }

  -- The loop of `evaluate`: the decisions, and whether the flag is still up.
  unfoldable pub review_outputs :
      {V : Type 0}
      → SupervisionStrategy
      → ExecutionAccumulator
      → List (CandidateOutput F V)
      → Bool
      → SupervisionEvaluation
  unfolding is_approved
  review_outputs s accumulator [] ready = record { decisions = []; final_approval_ready = ready }
  review_outputs s accumulator (o ∷ os) ready =
      let d = decide s accumulator o in
      let rest = review_outputs s accumulator os (ready && is_approved d.status) in
      record { decisions = d ∷ rest.decisions; final_approval_ready = rest.final_approval_ready }

  -- `SupervisionStrategy::evaluate`
  unfoldable pub evaluate_supervision :
      {V : Type 0}
      → SupervisionStrategy
      → ExecutionAccumulator
      → List (CandidateOutput F V)
      → SupervisionEvaluation
  evaluate_supervision s accumulator outputs =
      review_outputs s accumulator outputs (not (is_empty outputs))

-- One decision, in the loop of `reduce`.
unfoldable pub record_decision : WorkerReviewDecision → ExecutionAccumulator → ExecutionAccumulator
unfolding asks_again
record_decision d accumulator = record accumulator {
  supervision_reviews = insert d.candidate_id d.status accumulator.supervision_reviews;
  supervision_revision_rounds =
      if asks_again d.status
      then insert d.candidate_id (add_u32 d.revision_round 1)
          accumulator.supervision_revision_rounds
      else accumulator.supervision_revision_rounds;
}

unfoldable pub record_decisions :
    List WorkerReviewDecision → ExecutionAccumulator → ExecutionAccumulator
record_decisions [] accumulator = accumulator
record_decisions (d ∷ ds) accumulator = record_decisions ds (record_decision d accumulator)

unfoldable pub approved_count : List WorkerReviewDecision → ℕ
unfolding is_approved
approved_count [] = 0
approved_count (d ∷ ds) =
    let rest = approved_count ds in if is_approved d.status then suc rest else rest

-- `SupervisionStrategy::reduce`
unfoldable pub reduce_supervision :
    ExecutionAccumulator → SupervisionEvaluation → ExecutionAccumulator
reduce_supervision accumulator evaluation =
    let recorded = record_decisions evaluation.decisions accumulator in
    record recorded {
      supervision_final_approval =
          if ltb 0 (approved_count evaluation.decisions) && evaluation.final_approval_ready
          then some true
          else if not (is_empty evaluation.decisions)
          then some false
          else recorded.supervision_final_approval;
    }
