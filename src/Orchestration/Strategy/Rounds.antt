-- ===== src/Orchestration/Strategy/Rounds.antt =====
-- src/orchestration/strategy.rs: how often a worker is asked for a revision or a retry in a run of
-- supervised iterations.
use mathlib.Core.Option.{get_or}
use void_control.Base.{
  ℕ, suc, ◌+◌, ◌≤◌, ◌<◌, ◌≡◌, refl, subst, ap, ◌∙◌, inl, inr, Bool-cases, true, false, not, ◌&&◌,
  String, List, [], ◌∷◌, map, All, is_empty, arith, if◌then◌else◌, u32_mod, str_eq, str_eq_iff,
}
use void_control.Base.Map.{get}
use void_control.Float.{FloatOps}
use void_control.Orchestration.Types.{CandidateOutput, ExecutionAccumulator}
use void_control.Orchestration.Strategy.{
  SupervisionStrategy, WorkerReviewDecision, asks_again, decide, evaluate_supervision,
  record_decision, record_decisions, reduce_supervision,
}
use void_control.Orchestration.Strategy.Supervision.{decisions-review_outputs, asks_again-lt}
use void_control.Orchestration.Strategy.Records.{
  OfDistinctWorkers, recorded, recorded_other, get-record_decision,
}

-- The iterations of a supervision, one after another: each list of outputs is evaluated and reduced.
pub run_supervision :
    {F V : Type 0}
    → FloatOps F
    → SupervisionStrategy
    → ExecutionAccumulator
    → List (List (CandidateOutput F V))
    → ExecutionAccumulator
run_supervision fl s a [] = a
run_supervision fl s a (outputs ∷ rest) =
    run_supervision fl s (reduce_supervision a (evaluate_supervision fl s a outputs)) rest

-- The decisions that ask the worker for a revision or a retry.
unfoldable pub times_asked : String → List WorkerReviewDecision → ℕ
times_asked id [] = 0
times_asked id (d ∷ ds) =
    let rest = times_asked id ds in
    if str_eq d.candidate_id id && asks_again d.status then suc rest else rest

-- How often the iterations of a run ask the worker.
unfoldable pub times_asked_in_run :
    {F V : Type 0}
    → FloatOps F
    → SupervisionStrategy
    → String
    → ExecutionAccumulator
    → List (List (CandidateOutput F V))
    → ℕ
times_asked_in_run fl s id a [] = 0
times_asked_in_run fl s id a (outputs ∷ rest) =
    times_asked id (evaluate_supervision fl s a outputs).decisions
    + times_asked_in_run fl s id (reduce_supervision a (evaluate_supervision fl s a outputs)) rest

-- The rounds that are recorded of the worker.
abbrev pub rounds_of : String → ExecutionAccumulator → ℕ
rounds_of id a = get_or (get id a.supervision_revision_rounds) 0

-- One decision on the worker counts one round if it asks again.
rounds_of-record_decision :
    (id : String) (n limit : ℕ) (b : ExecutionAccumulator) (d : WorkerReviewDecision)
    → limit < u32_mod
    → rounds_of id b ≡ n
    → n ≤ limit
    → (str_eq d.candidate_id id ≡ true → d.revision_round ≡ n)
    → (asks_again d.status ≡ true → d.revision_round < limit)
    → (rounds_of id (record_decision d b) ≡ n + times_asked id (d ∷ []))
      × (rounds_of id (record_decision d b) ≤ limit)
unfolding times_asked
rounds_of-record_decision id n limit b d small same within read below =
    elim (Bool-cases (str_eq d.candidate_id id && asks_again d.status)) [
      | inl e ↦ rw ((get-record_decision d b id).1, e) (ground (arith, read, below))
      | inr e ↦ rw ((get-record_decision d b id).1, e) (ground (arith, same))
    ]

module _ {F V : Type 0} (fl : FloatOps F) (s : SupervisionStrategy) (id : String)
    (small : s.review_policy.max_revision_rounds < u32_mod) where
  module _ (a : ExecutionAccumulator) where
    times_asked_other :
        (os : List (CandidateOutput F V))
        → All (λ p. str_eq p.candidate_id id ≡ false) os
        → times_asked id (map (decide fl s a) os) ≡ 0
    unfolding times_asked decide
    times_asked_other [] h = refl
    times_asked_other (o ∷ os) h = rw h.0 (times_asked_other os h.1)

    All-named :
        (k k' : String) (os : List (CandidateOutput F V))
        → k ≡ k'
        → All (λ p. str_eq p.candidate_id k ≡ false) os
        → All (λ p. str_eq p.candidate_id k' ≡ false) os
    All-named k k' os e h = subst (λ t. All (λ p. str_eq p.candidate_id t ≡ false) os) e h

    rounds_of-decide :
        (o : CandidateOutput F V)
        → str_eq (decide fl s a o).candidate_id id ≡ true
        → (decide fl s a o).revision_round ≡ rounds_of id a
    unfolding decide
    rounds_of-decide o h =
        ap (λ k. get_or (get k a.supervision_revision_rounds) 0)
          ((str_eq_iff o.candidate_id id).0 h)

    rounds_of-recorded :
        (b : ExecutionAccumulator) (os : List (CandidateOutput F V))
        → OfDistinctWorkers os
        → rounds_of id b ≡ rounds_of id a
        → rounds_of id a ≤ s.review_policy.max_revision_rounds
        → (rounds_of id (recorded fl s a os b)
            ≡ rounds_of id a + times_asked id (map (decide fl s a) os))
          × (rounds_of id (recorded fl s a os b) ≤ s.review_policy.max_revision_rounds)
    unfolding record_decisions times_asked
    rounds_of-recorded b [] dist same within = (omega (arith, same), omega (arith, same))
    rounds_of-recorded b (o ∷ os) dist same within =
        let (sum, limit) =
          rounds_of-record_decision id (rounds_of id a) s.review_policy.max_revision_rounds b
            (decide fl s a o) small same within (rounds_of-decide o) (asks_again-lt fl s a o) in
        elim (Bool-cases (str_eq (decide fl s a o).candidate_id id)) [
          | inl e ↦
              let others =
                All-named o.candidate_id id os
                  ((str_eq_iff o.candidate_id id).0 (unfold decide in e)) dist.0 in
              let (_, kept) =
                recorded_other fl s a (record_decision (decide fl s a o) b) os id others in
              rw (kept, times_asked_other os others) (sum, limit)
          | inr e ↦
              let unchanged : rounds_of id (record_decision (decide fl s a o) b) ≡ rounds_of id a =
                sum ∙ ground (arith, e) in
              rw e (
                rounds_of-recorded (record_decision (decide fl s a o) b) os dist.1 unchanged within)
        ]

  rounds_of-reduce_supervision :
      (a : ExecutionAccumulator) (os : List (CandidateOutput F V))
      → OfDistinctWorkers os
      → rounds_of id a ≤ s.review_policy.max_revision_rounds
      → (rounds_of id (reduce_supervision a (evaluate_supervision fl s a os))
          ≡ rounds_of id a + times_asked id (evaluate_supervision fl s a os).decisions)
        × (rounds_of id (reduce_supervision a (evaluate_supervision fl s a os))
            ≤ s.review_policy.max_revision_rounds)
  unfolding reduce_supervision evaluate_supervision
  rounds_of-reduce_supervision a os dist within =
      rw (decisions-review_outputs fl s a os (not (is_empty os)))
        (rounds_of-recorded a a os dist refl within)

  -- In a run of iterations, none of which holds two outputs of one worker, the rounds that are
  -- recorded of a worker grow by one for every decision that asks it for a revision or a retry, and
  -- stay within the policy's limit, which is a u32: so a worker that began with no more rounds than
  -- the limit is asked at most as often as it had rounds left, however many iterations run.
  pub asked_within_limit :
      (a : ExecutionAccumulator) (its : List (List (CandidateOutput F V)))
      → All OfDistinctWorkers its
      → rounds_of id a ≤ s.review_policy.max_revision_rounds
      → (rounds_of id (run_supervision fl s a its)
          ≡ rounds_of id a + times_asked_in_run fl s id a its)
        × (rounds_of id a + times_asked_in_run fl s id a its ≤ s.review_policy.max_revision_rounds)
  unfolding run_supervision times_asked_in_run
  asked_within_limit a [] dist within = (omega arith, omega (arith, within))
  asked_within_limit a (os ∷ its) dist within =
      let (sum, limit) = rounds_of-reduce_supervision a os dist.0 within in
      let (total, bound) =
        asked_within_limit (reduce_supervision a (evaluate_supervision fl s a os)) its dist.1
          limit in
      (omega (arith, sum, total), omega (arith, sum, bound))
