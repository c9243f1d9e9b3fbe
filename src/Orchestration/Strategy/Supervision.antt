-- ===== src/Orchestration/Strategy/Supervision.antt =====
-- src/orchestration/strategy.rs: the reviews of a supervised iteration.
use void_control.Base.{
  ◌<◌, ◌≡◌, refl, ap, ◌∙◌, Bool, true, ◌&&◌, some, List, [], ◌∷◌, map, all, is_empty, arith,
  if◌then◌else◌,
}
use void_control.Float.{FloatOps}
use void_control.Orchestration.Types.{CandidateOutput, ExecutionAccumulator}
use void_control.Orchestration.Strategy.{
  SupervisionStrategy, WorkerReviewDecision, is_approved, asks_again, review_status_for_output,
  decide, review_outputs, evaluate_supervision, record_decision, record_decisions, approved_count,
  reduce_supervision,
}

final_approval-record_decisions :
    (ds : List WorkerReviewDecision) (b : ExecutionAccumulator)
    → (record_decisions ds b).supervision_final_approval ≡ b.supervision_final_approval
unfolding record_decisions record_decision
final_approval-record_decisions [] b = refl
final_approval-record_decisions (d ∷ ds) b =
    final_approval-record_decisions ds (record_decision d b)

module _ {F V : Type 0} (fl : FloatOps F) (s : SupervisionStrategy) (a : ExecutionAccumulator) where
  -- The output is approved in this iteration.
  pub approves : CandidateOutput F V → Bool
  approves o = is_approved (decide fl s a o).status

  pub decisions-review_outputs :
      (os : List (CandidateOutput F V)) (ready : Bool)
      → (review_outputs fl s a os ready).decisions ≡ map (decide fl s a) os
  unfolding review_outputs
  decisions-review_outputs [] ready = refl
  decisions-review_outputs (o ∷ os) ready =
      ap (◌∷◌ (decide fl s a o)) (decisions-review_outputs os _)

  ready-review_outputs :
      (os : List (CandidateOutput F V)) (ready : Bool)
      → (review_outputs fl s a os ready).final_approval_ready ≡ (ready && all approves os)
  unfolding review_outputs approves
  ready-review_outputs [] ready = ground arith
  ready-review_outputs (o ∷ os) ready =
      ready-review_outputs os (ready && approves o) ∙ assoc ready (approves o) (all approves os)
    where
      assoc : (p q r : Bool) → (p && q && r) ≡ (p && (q && r))
      assoc p q r = ground arith

  approved_count_pos :
      (o : CandidateOutput F V) (os : List (CandidateOutput F V))
      → all approves (o ∷ os) ≡ true
      → 0 < approved_count (map (decide fl s a) (o ∷ os))
  unfolding approved_count approves
  approved_count_pos o os h = ground arith

  -- The final approval is given exactly when there are outputs and each of them is approved, and
  -- refused when there are outputs of which one is not. Without outputs it stays as it was.
  pub final_approval_lem :
      (os : List (CandidateOutput F V))
      → (reduce_supervision a (evaluate_supervision fl s a os)).supervision_final_approval
        ≡ (if is_empty os then a.supervision_final_approval else some (all approves os))
  unfolding reduce_supervision evaluate_supervision
  final_approval_lem [] = unfold review_outputs approved_count record_decisions in refl
  final_approval_lem (o ∷ os) =
      rw (decisions-review_outputs (o ∷ os) true, ready-review_outputs (o ∷ os) true)
        (ground (arith, approved_count_pos o os))

-- A worker is asked again only while it has a round left.
pub asks_again-lt :
    {F V : Type 0} (fl : FloatOps F) (s : SupervisionStrategy) (a : ExecutionAccumulator)
    (o : CandidateOutput F V)
    → asks_again (decide fl s a o).status ≡ true
    → (decide fl s a o).revision_round < s.review_policy.max_revision_rounds
unfolding decide review_status_for_output asks_again
asks_again-lt fl s a o h = ground arith
