-- ===== src/Orchestration/Reconcile.antt =====
-- src/orchestration/reconcile.rs: what is loaded again after a restart.
-- The store is taken as its operations; `E` is the type of its errors and `F` that of `f64`.
pub mod Queued
pub mod Examples
use void_control.Base.{
  Bool, true, false, String, List, [], ◌∷◌, ◌++◌, filter, if◌then◌else◌, sort_by_key,
}
use void_control.Orchestration.Types.{CandidateStatus, ExecutionCandidate, ExecutionStatus}
use void_control.Orchestration.Events.{ExecutionSnapshot}
use void_control.Orchestration.Store.{ExecutionStore, IoResult, and_then, map_ok}

is_paused : ExecutionStatus → Bool
is_paused ExecutionStatus.paused = true
is_paused _ = false

is_queued : CandidateStatus → Bool
is_queued CandidateStatus.queued = true
is_queued _ = false

-- The candidates that the loop takes up from the snapshots.
unfoldable pub queued_of : {F : Type 0} → List (ExecutionSnapshot F) → List (ExecutionCandidate F)
unfolding is_paused is_queued
queued_of [] = []
queued_of (s ∷ ss) =
    let rest = queued_of ss in
    if is_paused s.execution.status
    then rest
    else filter (λ c. is_queued c.status) s.candidates ++ rest

module _ {E F : Type 0} (store : ExecutionStore E F) where
  -- `.map(load).collect()`: the first error, or all the snapshots.
  unfoldable pub load_all : List String → IoResult E (List (ExecutionSnapshot F))
  load_all [] = IoResult.ok []
  load_all (id ∷ ids) =
      let rest = load_all ids in
      and_then (store.load_execution id) (λ s. map_ok (λ ss. s ∷ ss) rest)

  unfoldable pub reload_active_executions : IoResult E (List (ExecutionSnapshot F))
  reload_active_executions = and_then store.list_active_execution_ids load_all

  unfoldable pub reload_queued_candidates : IoResult E (List (ExecutionCandidate F))
  reload_queued_candidates =
      map_ok (λ ss. sort_by_key (λ c. c.created_seq) (queued_of ss)) reload_active_executions
