-- ===== src/Orchestration/Reconcile/Examples.antt =====
-- src/orchestration/reconcile.rs over a store of two executions.
use void_control.Base.{
  ℕ, ◌≡◌, ◌↔◌, refl, String, List, [], ◌∷◌, map, In, IsSortedBy, str_eq, if◌then◌else◌,
}
use void_control.Orchestration.Types.{
  CandidateStatus, ExecutionCandidate, ExecutionStatus, new_candidate, new_execution,
  default_accumulator,
}
use void_control.Orchestration.Events.{ExecutionSnapshot}
use void_control.Orchestration.Reconcile.{reload_queued_candidates}
use void_control.Orchestration.Store.{IoResult, ExecutionStore}
use void_control.Orchestration.Reconcile.Queued.{QueuesIn, reload_queued_candidates_lem}

abbrev snapshot : String → ExecutionSnapshot ℕ
snapshot id = record {
  execution = record (new_execution id "swarm" "goal") {
    status = if str_eq id "exec-2" then ExecutionStatus.paused else ExecutionStatus.running;
  };
  events = [];
  accumulator = default_accumulator;
  candidates =
      new_candidate id "candidate-1" 7 1 CandidateStatus.queued
      ∷ new_candidate id "candidate-2" 5 1 CandidateStatus.queued
      ∷ new_candidate id "candidate-3" 6 1 CandidateStatus.running
      ∷ [];
}

abbrev store : ExecutionStore String ℕ
store = record {
  list_active_execution_ids = IoResult.ok ("exec-1" ∷ "exec-2" ∷ []);
  load_execution = λ id. IoResult.ok (snapshot id);
  load_candidates = λ id. IoResult.ok ((snapshot id).candidates);
}

reload_queued_candidates_lem_example :
    (cs : List (ExecutionCandidate ℕ)) × (reload_queued_candidates store ≡ IoResult.ok cs)
    × IsSortedBy (λ c. c.created_seq) cs
    × ((c : ExecutionCandidate ℕ) → In c cs ↔ QueuesIn c (map snapshot ("exec-1" ∷ "exec-2" ∷ [])))
reload_queued_candidates_lem_example =
    reload_queued_candidates_lem store snapshot ("exec-1" ∷ "exec-2" ∷ []) refl (λ id i. refl)
