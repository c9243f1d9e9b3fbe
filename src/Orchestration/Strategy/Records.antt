-- ===== src/Orchestration/Strategy/Records.antt =====
-- src/orchestration/strategy.rs: what a supervised iteration records of each worker.
use void_control.Base.{
  ◌≡◌, refl, ◌∙◌, inl, inr, true, false, not, ◌&&◌, some, String, List, [], ◌∷◌, map, All, All-In,
  subst, In, is_empty, arith, if◌then◌else◌, add_u32, str_eq, str_eq_iff, str_eq_refl,
}
use void_control.Base.Map.{get, get-insert}
use void_control.Float.{FloatOps}
use void_control.Orchestration.Types.{CandidateOutput, ExecutionAccumulator}
use void_control.Orchestration.Strategy.{
  SupervisionStrategy, WorkerReviewDecision, asks_again, decide, evaluate_supervision,
  record_decision, record_decisions, reduce_supervision,
}
use void_control.Orchestration.Strategy.Supervision.{decisions-review_outputs}

-- No two outputs are of one worker.
abbrev pub OfDistinctWorkers : {F V : Type 0} → List (CandidateOutput F V) → Type 0
OfDistinctWorkers [] = Unit {0}
OfDistinctWorkers (o ∷ os) =
    All (λ p. str_eq p.candidate_id o.candidate_id ≡ false) os × OfDistinctWorkers os

-- What one decision leaves recorded of each worker.
pub get-record_decision :
    (d : WorkerReviewDecision) (b : ExecutionAccumulator) (id : String)
    → (get id (record_decision d b).supervision_reviews
        ≡ (if str_eq d.candidate_id id then some d.status else get id b.supervision_reviews))
      × (get id (record_decision d b).supervision_revision_rounds ≡ (
          if str_eq d.candidate_id id && asks_again d.status
          then some (add_u32 d.revision_round 1)
          else get id b.supervision_revision_rounds))
unfolding record_decision
get-record_decision d b id = (get-insert d.candidate_id id d.status b.supervision_reviews, rounds)
  where
    rounds : get id (record_decision d b).supervision_revision_rounds ≡ (
        if str_eq d.candidate_id id && asks_again d.status
        then some (add_u32 d.revision_round 1)
        else get id b.supervision_revision_rounds)
    rounds = ground (
      arith,
      get-insert d.candidate_id id (add_u32 d.revision_round 1) b.supervision_revision_rounds,
    )

module _ {F V : Type 0} (fl : FloatOps F) (s : SupervisionStrategy) (a : ExecutionAccumulator) where
  -- The decisions on the outputs, recorded one after another.
  abbrev pub recorded : List (CandidateOutput F V) → ExecutionAccumulator → ExecutionAccumulator
  recorded os b = record_decisions (map (decide fl s a) os) b

  -- What is kept of a worker that no decision names.
  pub recorded_other :
      (b : ExecutionAccumulator) (os : List (CandidateOutput F V)) (id : String)
      → All (λ p. str_eq p.candidate_id id ≡ false) os
      → (get id (recorded os b).supervision_reviews ≡ get id b.supervision_reviews)
        × (get id (recorded os b).supervision_revision_rounds
            ≡ get id b.supervision_revision_rounds)
  unfolding record_decisions
  recorded_other b [] id h = (refl, refl)
  recorded_other b (o ∷ os) id h =
      let (r, n) = recorded_other (record_decision (decide fl s a o) b) os id h.1 in
      let (r', n') = get-record_decision (decide fl s a o) b id in
      let no : str_eq (decide fl s a o).candidate_id id ≡ false = unfold decide in h.0 in
      (r ∙ r' ∙ rw no refl, n ∙ n' ∙ rw no refl)

  -- The worker's review is recorded, and one more round if it is asked again.
  abbrev pub IsRecorded : CandidateOutput F V → ExecutionAccumulator → ExecutionAccumulator → Type 0
  IsRecorded o b c =
      (get o.candidate_id c.supervision_reviews ≡ some (decide fl s a o).status)
      × (get o.candidate_id c.supervision_revision_rounds ≡ (
          if asks_again (decide fl s a o).status
          then some (add_u32 (decide fl s a o).revision_round 1)
          else get o.candidate_id b.supervision_revision_rounds))

  recorded_first :
      (b : ExecutionAccumulator) (o : CandidateOutput F V) (os : List (CandidateOutput F V))
      → All (λ p. str_eq p.candidate_id o.candidate_id ≡ false) os
      → IsRecorded o b (recorded (o ∷ os) b)
  unfolding record_decisions
  recorded_first b o os h =
      let (r, n) = recorded_other (record_decision (decide fl s a o) b) os o.candidate_id h in
      let (r', n') = get-record_decision (decide fl s a o) b o.candidate_id in
      let same : str_eq (decide fl s a o).candidate_id o.candidate_id ≡ true =
        unfold decide in str_eq_refl o.candidate_id in
      (r ∙ r' ∙ rw same refl, n ∙ n' ∙ rw same refl)

  recorded_one :
      (b : ExecutionAccumulator) (os : List (CandidateOutput F V)) (o : CandidateOutput F V)
      → OfDistinctWorkers os
      → In o os
      → IsRecorded o b (recorded os b)
  unfolding record_decisions
  recorded_one b [] o dist i = absurd i.0
  recorded_one b (p ∷ os) o dist (inl e) =
      subst (λ t. IsRecorded t b (recorded (p ∷ os) b)) e (recorded_first b p os dist.0)
  recorded_one b (p ∷ os) o dist (inr i) =
      let (r, n) = recorded_one (record_decision (decide fl s a p) b) os o dist.1 i in
      let (_, n') = get-record_decision (decide fl s a p) b o.candidate_id in
      let other : str_eq (decide fl s a p).candidate_id o.candidate_id ≡ false =
        unfold decide in
        ground (
          arith,
          All-In (λ q. str_eq q.candidate_id p.candidate_id ≡ false) o os dist.0 i,
          str_eq_iff p.candidate_id o.candidate_id,
          str_eq_iff o.candidate_id p.candidate_id,
        ) in
      let kept : get o.candidate_id
            (record_decision (decide fl s a p) b).supervision_revision_rounds
          ≡ get o.candidate_id b.supervision_revision_rounds =
        n' ∙ rw other refl in
      (r, n ∙ rw kept refl)

  -- After an iteration over outputs of distinct workers, each worker's review is the decision on
  -- its output, and its rounds are one more than the decision read if it is asked again, and as
  -- they were otherwise.
  pub reduce_supervision_records :
      (os : List (CandidateOutput F V)) (o : CandidateOutput F V)
      → OfDistinctWorkers os
      → In o os
      → IsRecorded o a (reduce_supervision a (evaluate_supervision fl s a os))
  unfolding reduce_supervision evaluate_supervision
  reduce_supervision_records os o dist i =
      rw (decisions-review_outputs fl s a os (not (is_empty os))) (recorded_one a os o dist i)
