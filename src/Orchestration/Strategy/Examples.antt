-- ===== src/Orchestration/Strategy/Examples.antt =====
-- src/orchestration/strategy.rs and src/orchestration/scoring.rs on concrete outputs.
-- The floats are whole numbers, with one value more for NaN.
use void_control.Base.{
  ℕ, ◌+◌, ◌-◌, ◌*◌, ◌/◌, ◌≤◌, ◌<◌, ◌≡◌, refl, Ordering, compare, min, max, Bool, true, false,
  Option, none, some, String, List, [], ◌∷◌, map, length, take, is_empty, if◌then◌else◌, all, All,
  inl, inr, arith,
}
use void_control.Base.Map.{get, insert}
use void_control.Float.{FloatOps, FloatLaws}
use void_control.Orchestration.Types.{
  CandidateInbox, CandidateOutput, default_accumulator, new_inbox, new_output,
}
use void_control.Orchestration.Variation.{VariationConfig, generate}
use void_control.Orchestration.Scoring.{
  MetricDirection, RankedCandidate, ScoringConfig, score_one, score_iteration,
}
use void_control.Orchestration.Scoring.Ranking.{
  IsNumbered, IsRanked, RanksFirst, score_iteration-IsRanked,
}
use void_control.Orchestration.Strategy.{
  SupervisionStrategy, SwarmStrategy, decide, record_decision, record_decisions, review_outputs,
  review_status_for_output, evaluate_supervision, evaluate_swarm, name_candidates, plan_swarm,
  reduce_supervision, reduce_swarm, should_stop,
}
use void_control.Orchestration.Strategy.Planning.{plan_swarm_lem}
use void_control.Orchestration.Strategy.Reduction.{
  run_iterations, plateau_never_stops, reduce_swarm_best,
}
use void_control.Orchestration.Strategy.Supervision.{approves, final_approval_lem}
use void_control.Orchestration.Strategy.Records.{
  IsRecorded, OfDistinctWorkers, reduce_supervision_records,
}
use void_control.Orchestration.Strategy.Rounds.{
  run_supervision, times_asked, times_asked_in_run, rounds_of, asked_within_limit,
}

abbrev lift : (ℕ → ℕ → ℕ) → Option ℕ → Option ℕ → Option ℕ
lift f none b = none
lift f (some a) none = none
lift f (some a) (some b) = some (f a b)

abbrev pick : (ℕ → ℕ → ℕ) → Option ℕ → Option ℕ → Option ℕ
pick f none b = b
pick f (some a) none = some a
pick f (some a) (some b) = some (f a b)

abbrev order : Option ℕ → Option ℕ → Option Ordering
order none b = none
order (some a) none = none
order (some a) (some b) = some (compare a b)

abbrev value : Option ℕ → ℕ
value none = 0
value (some a) = a

abbrev is_none : Option ℕ → Bool
is_none none = true
is_none (some a) = false

abbrev floats : FloatOps (Option ℕ)
floats = record {
  zero = some 0;
  one = some 1;
  infinity = some 1000;
  neg_infinity = some 0;
  epsilon = some 1;
  sum_start = some 0;
  add = lift (λ a b. a + b);
  sub = lift (λ a b. a - b);
  mul = lift (λ a b. a * b);
  div = lift (λ a b. a / b);
  abs = λ a. a;
  min = pick min;
  max = pick max;
  partial_cmp = order;
}

order-value :
    (a b : Option ℕ)
    → is_none a ≡ false
    → is_none b ≡ false
    → order a b ≡ some (compare (value a) (value b))
order-value none b h k = absurd (ground arith)
order-value (some a) none h k = absurd (ground arith)
order-value (some a) (some b) h k = refl

abbrev laws : FloatLaws floats
laws = record { is_nan = is_none; place = value; cmp = order-value; infinity_number = refl }

abbrev output : String → Bool → ℕ → CandidateOutput (Option ℕ) ℕ
output id succeeded quality = new_output id succeeded (("quality", some quality) ∷ [])

abbrev outputs : List (CandidateOutput (Option ℕ) ℕ)
outputs =
    output "candidate-1" true 3 ∷ output "candidate-2" true 7 ∷ output "candidate-3" false 9 ∷ []

abbrev scoring : ScoringConfig (Option ℕ)
scoring = record {
  metrics = record { name = "quality"; weight = some 1; direction = MetricDirection.maximize } ∷ [];
  pass_threshold = some 1;
  tie_break_metric = "cost_usd";
}

abbrev explicit : VariationConfig
explicit = record {
  source = "explicit";
  candidates_per_iteration = 2;
  selection = none;
  parameter_space = [];
  explicit =
      record { overrides = ("model", "a") ∷ [] } ∷ record { overrides = ("model", "b") ∷ [] } ∷ [];
}

abbrev swarm : SwarmStrategy (Option ℕ)
swarm = record {
  variation = explicit;
  scoring = scoring;
  convergence = record {
    strategy = "plateau";
    min_score = none;
    max_iterations_without_improvement = some 2;
  };
}

outputs-IsNumbered :
    All (IsNumbered floats laws scoring) (map (score_one floats scoring outputs) outputs)
unfolding score_one new_output get
outputs-IsNumbered = (
  record { score = refl; tie = refl },
  (record { score = refl; tie = refl }, (record { score = refl; tie = refl }, tt)),
)

score_iteration-IsRanked_example :
    IsRanked floats laws scoring (score_iteration floats scoring outputs)
score_iteration-IsRanked_example =
    score_iteration-IsRanked floats laws scoring outputs outputs-IsNumbered

reduce_swarm_best_example :
    (best : RankedCandidate (Option ℕ)) × (rest : List (RankedCandidate (Option ℕ)))
    × ((evaluate_swarm floats swarm outputs).ranked_candidates ≡ best ∷ rest)
    × ((reduce_swarm default_accumulator (evaluate_swarm floats swarm outputs)).best_candidate_id
        ≡ some best.candidate_id)
    × All (RanksFirst floats laws scoring best) rest
reduce_swarm_best_example =
    reduce_swarm_best floats laws swarm default_accumulator outputs outputs-IsNumbered (omega arith)

-- The best of an iteration that failed takes the place of one that scored.
failed_iteration_replaces_best :
    (reduce_swarm
      (reduce_swarm default_accumulator (evaluate_swarm floats swarm outputs))
      (evaluate_swarm floats swarm (output "candidate-9" false 0 ∷ []))).best_candidate_id
    ≡ some "candidate-9"
unfolding reduce_swarm evaluate_swarm score_iteration score_one new_output default_accumulator
    void_control.Base.sort_by
failed_iteration_replaces_best = refl

no_improvement : default_accumulator.iterations_without_improvement < 2
unfolding default_accumulator
no_improvement = omega arith

plateau_never_stops_example :
    should_stop floats swarm
      (run_iterations floats swarm default_accumulator (outputs ∷ outputs ∷ outputs ∷ []))
      (evaluate_swarm floats swarm outputs)
    ≡ none
plateau_never_stops_example =
    plateau_never_stops floats swarm default_accumulator (outputs ∷ outputs ∷ outputs ∷ []) outputs
      2 refl refl no_improvement

abbrev inboxes : List CandidateInbox
inboxes = new_inbox "candidate-7" ∷ new_inbox "candidate-8" ∷ []

plan_swarm_lem_example :
    (n : ℕ) × (plan_swarm floats swarm default_accumulator inboxes none
      ≡ take n (name_candidates inboxes 0 (generate explicit default_accumulator)))
    × (length (plan_swarm floats swarm default_accumulator inboxes none) ≡ n)
    × (length (generate explicit default_accumulator) ≤ 2 * n)
    × (n ≤ 2)
plan_swarm_lem_example = plan_swarm_lem floats swarm default_accumulator inboxes none

abbrev supervision : SupervisionStrategy
supervision = record {
  variation = explicit;
  review_policy = record {
    max_revision_rounds = 2;
    retry_on_runtime_failure = true;
    require_final_approval = true;
  };
}

abbrev reviewed : List (CandidateOutput (Option ℕ) ℕ)
reviewed =
    new_output "candidate-1" true (("approved", some 1) ∷ [])
    ∷ new_output "candidate-2" false []
    ∷ []

failed_worker_is_asked_again :
    (reduce_supervision default_accumulator (
      evaluate_supervision floats supervision default_accumulator
        reviewed)).supervision_revision_rounds
    ≡ (("candidate-2", 1) ∷ [])
unfolding reduce_supervision evaluate_supervision default_accumulator new_output get insert
    record_decisions review_outputs record_decision decide review_status_for_output
failed_worker_is_asked_again = refl

final_approval_lem_example :
    (reduce_supervision default_accumulator (
      evaluate_supervision floats supervision default_accumulator
        reviewed)).supervision_final_approval
    ≡ (if is_empty reviewed
        then default_accumulator.supervision_final_approval
        else some (all (approves floats supervision default_accumulator) reviewed))
final_approval_lem_example = final_approval_lem floats supervision default_accumulator reviewed

abbrev thrice_reviewed : List (List (CandidateOutput (Option ℕ) ℕ))
thrice_reviewed = reviewed ∷ reviewed ∷ reviewed ∷ []

asked_twice_of_three_times :
    times_asked_in_run floats supervision "candidate-2" default_accumulator thrice_reviewed ≡ 2
unfolding times_asked_in_run times_asked reduce_supervision evaluate_supervision default_accumulator
    new_output get insert record_decisions review_outputs record_decision decide
    review_status_for_output
asked_twice_of_three_times = refl

distinct_workers : OfDistinctWorkers reviewed
unfolding new_output
distinct_workers = ((refl, tt), (tt, tt))

no_rounds_yet : rounds_of "candidate-2" default_accumulator ≤ 2
unfolding default_accumulator get
no_rounds_yet = omega arith

asked_within_limit_example :
    (rounds_of "candidate-2"
        (run_supervision floats supervision default_accumulator thrice_reviewed)
      ≡ rounds_of "candidate-2" default_accumulator
        + times_asked_in_run floats supervision "candidate-2" default_accumulator thrice_reviewed)
    × (rounds_of "candidate-2" default_accumulator
          + times_asked_in_run floats supervision "candidate-2" default_accumulator thrice_reviewed
        ≤ 2)
asked_within_limit_example =
    asked_within_limit floats supervision "candidate-2" (omega arith) default_accumulator
      thrice_reviewed (distinct_workers, (distinct_workers, (distinct_workers, tt))) no_rounds_yet

reduce_supervision_records_example :
    IsRecorded {V = ℕ} floats supervision default_accumulator
      (new_output "candidate-2" false [])
      default_accumulator
      (reduce_supervision default_accumulator
        (evaluate_supervision floats supervision default_accumulator reviewed))
unfolding new_output
reduce_supervision_records_example =
    reduce_supervision_records floats supervision default_accumulator reviewed
      (new_output "candidate-2" false []) ((refl, tt), (tt, tt)) (inr (inl refl))
