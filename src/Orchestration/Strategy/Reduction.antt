-- ===== src/Orchestration/Strategy/Reduction.antt =====
-- src/orchestration/strategy.rs: what a swarm's reduction records, and when the swarm stops.
use void_control.Base.{
  ℕ, ◌<◌, ◌≡◌, refl, ap, ◌∙◌, none, some, List, [], ◌∷◌, length, map, All, arith, length-sort_by,
  length-map,
}
use void_control.Float.{FloatOps, FloatLaws}
use void_control.Orchestration.Types.{CandidateOutput, ExecutionAccumulator}
use void_control.Orchestration.Scoring.{RankedCandidate, score_one, score_iteration, ranked_after}
use void_control.Orchestration.Scoring.Ranking.{
  IsNumbered, RanksFirst, IsRanked, score_iteration-IsRanked,
}
use void_control.Orchestration.Strategy.{
  SwarmStrategy, evaluate_swarm, should_stop, reduce_swarm, best_or_kept,
}

-- The iterations of a swarm, one after another: each list of outputs is evaluated and reduced.
pub run_iterations :
    {F V : Type 0}
    → FloatOps F
    → SwarmStrategy F
    → ExecutionAccumulator
    → List (List (CandidateOutput F V))
    → ExecutionAccumulator
run_iterations fl s a [] = a
run_iterations fl s a (outputs ∷ rest) =
    run_iterations fl s (reduce_swarm a (evaluate_swarm fl s outputs)) rest

run_iterations-improvement :
    {F V : Type 0} (fl : FloatOps F) (s : SwarmStrategy F) (a : ExecutionAccumulator)
    (its : List (List (CandidateOutput F V)))
    → (run_iterations fl s a its).iterations_without_improvement ≡ a.iterations_without_improvement
unfolding run_iterations
run_iterations-improvement fl s a [] = refl
run_iterations-improvement fl s a (o ∷ its) =
    run_iterations-improvement fl s (reduce_swarm a (evaluate_swarm fl s o)) its
    ∙ unfold reduce_swarm in refl

-- No reduction counts an iteration without improvement, so the plateau strategy never stops a swarm
-- whose limit is above the count that it began with, however many iterations it has run.
pub plateau_never_stops :
    {F V : Type 0} (fl : FloatOps F) (s : SwarmStrategy F) (a : ExecutionAccumulator)
    (its : List (List (CandidateOutput F V))) (outputs : List (CandidateOutput F V)) (limit : ℕ)
    → s.convergence.strategy ≡ "plateau"
    → s.convergence.max_iterations_without_improvement ≡ some limit
    → a.iterations_without_improvement < limit
    → should_stop fl s (run_iterations fl s a its) (evaluate_swarm fl s outputs) ≡ none
unfolding should_stop
plateau_never_stops fl s a its outputs limit p l h =
    rw (p, l) (ground (arith, run_iterations-improvement fl s a its))

-- Where no score and no metric that breaks ties is NaN, a reduction of at least one output names
-- the best candidate of its own iteration: the first of the ranking, which every other candidate of
-- the iteration ranks behind. It takes the place of the best candidate that was kept before, whatever
-- that one's score was, and also where every output of the iteration failed.
pub reduce_swarm_best :
    {F V : Type 0} (fl : FloatOps F) (laws : FloatLaws fl) (s : SwarmStrategy F)
    (a : ExecutionAccumulator) (outputs : List (CandidateOutput F V))
    → All (IsNumbered fl laws s.scoring) (map (score_one fl s.scoring outputs) outputs)
    → 0 < length outputs
    → (best : RankedCandidate F) × (rest : List (RankedCandidate F)) × ((evaluate_swarm fl s
          outputs).ranked_candidates
        ≡ best ∷ rest)
      × ((reduce_swarm a (evaluate_swarm fl s outputs)).best_candidate_id ≡ some best.candidate_id)
      × All (RanksFirst fl laws s.scoring best) rest
unfolding evaluate_swarm reduce_swarm score_iteration
reduce_swarm_best {F} fl laws s a outputs n h =
    first (score_iteration fl s.scoring outputs) refl
      (score_iteration-IsRanked fl laws s.scoring outputs n)
      (omega (
        arith,
        length-sort_by (ranked_after fl s.scoring) scored,
        length-map (score_one fl s.scoring outputs) outputs,
      ))
  where
    scored : List (RankedCandidate F)
    scored = map (score_one fl s.scoring outputs) outputs

    first :
        (l : List (RankedCandidate F))
        → score_iteration fl s.scoring outputs ≡ l
        → IsRanked fl laws s.scoring l
        → 0 < length (score_iteration fl s.scoring outputs)
        → (best : RankedCandidate F) × (rest : List (RankedCandidate F)) × ((evaluate_swarm fl s
              outputs).ranked_candidates
            ≡ best ∷ rest)
          × ((reduce_swarm a (evaluate_swarm fl s outputs)).best_candidate_id
              ≡ some best.candidate_id)
          × All (RanksFirst fl laws s.scoring best) rest
    first [] e r p = absurd (omega (arith, ap length e))
    first (b ∷ rest) e r p = (b, rest, e, rw (e, best_or_kept) refl, r.0)
