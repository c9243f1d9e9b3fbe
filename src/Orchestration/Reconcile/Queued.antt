-- ===== src/Orchestration/Reconcile/Queued.antt =====
-- src/orchestration/reconcile.rs: the candidates that queue again.
use void_control.Base.{
  ◌≡◌, ◌≢◌, refl, ◌↔◌, ◌⊎◌, inl, inr, Bool-cases, true, false, String, List, [], ◌∷◌, map, filter,
  In, sort_by_key, In-sort_by, In-append, In-filter, IsSortedBy, sort_by_key-IsSortedBy, ltb, arith,
}
use void_control.Orchestration.Types.{CandidateStatus, ExecutionCandidate, ExecutionStatus}
use void_control.Orchestration.Events.{ExecutionSnapshot}
use void_control.Orchestration.Reconcile.{
  is_paused, is_queued, queued_of, load_all, reload_active_executions, reload_queued_candidates,
}
use void_control.Orchestration.Store.{IoResult, ExecutionStore}

is_queued_iff : (s : CandidateStatus) → (is_queued s ≡ true) ↔ (s ≡ CandidateStatus.queued)
unfolding is_queued
is_queued_iff s = ground arith

is_paused_iff : (s : ExecutionStatus) → (is_paused s ≡ false) ↔ (s ≢ ExecutionStatus.paused)
unfolding is_paused
is_paused_iff s = ground arith

-- The candidate is queued in one of the snapshots, whose execution is not paused.
abbrev pub QueuesIn : {F : Type 0} → ExecutionCandidate F → List (ExecutionSnapshot F) → Type 0
QueuesIn c [] = ⊥
QueuesIn c (s ∷ ss) =
    (In c s.candidates
      × (c.status ≡ CandidateStatus.queued)
      × (s.execution.status ≢ ExecutionStatus.paused))
    ⊎ QueuesIn c ss

In-queued_of :
    {F : Type 0} (c : ExecutionCandidate F) (ss : List (ExecutionSnapshot F))
    → In c (queued_of ss) ↔ QueuesIn c ss
unfolding queued_of
In-queued_of c [] = (λ i. absurd i.0, λ i. absurd i)
In-queued_of c (s ∷ ss) =
    let queued = is_queued_iff c.status in
    let paused = is_paused_iff s.execution.status in
    let among = In-filter (λ d. is_queued d.status) c s.candidates in
    let joined = In-append c (filter (λ d. is_queued d.status) s.candidates) (queued_of ss) in
    let rest = In-queued_of c ss in
    elim (Bool-cases (is_paused s.execution.status)) [
      | inl e ↦ rw e (ground (arith, paused, rest))
      | inr e ↦ rw e (ground (arith, paused, queued, among, joined, rest))
    ]

load_all-ok :
    {E F : Type 0} (store : ExecutionStore E F) (snapshot : String → ExecutionSnapshot F)
    (ids : List String)
    → ((id : String) → In id ids → store.load_execution id ≡ IoResult.ok (snapshot id))
    → load_all store ids ≡ IoResult.ok (map snapshot ids)
unfolding load_all
load_all-ok store snapshot [] h = refl
load_all-ok store snapshot (id ∷ ids) h =
    rw (h id (inl refl), load_all-ok store snapshot ids (λ j i. h j (inr i))) refl

-- Where the store lists the active executions and each of them loads, the reloaded candidates are
-- those that are queued in one of the executions that is not paused, in the order in which they were
-- created.
pub reload_queued_candidates_lem :
    {E F : Type 0} (store : ExecutionStore E F) (snapshot : String → ExecutionSnapshot F)
    (ids : List String)
    → store.list_active_execution_ids ≡ IoResult.ok ids
    → ((id : String) → In id ids → store.load_execution id ≡ IoResult.ok (snapshot id))
    → (cs : List (ExecutionCandidate F)) × (reload_queued_candidates store ≡ IoResult.ok cs)
      × IsSortedBy (λ c. c.created_seq) cs
      × ((c : ExecutionCandidate F) → In c cs ↔ QueuesIn c (map snapshot ids))
unfolding reload_queued_candidates reload_active_executions load_all
reload_queued_candidates_lem store snapshot ids listed loads =
    let found = queued_of (map snapshot ids) in
    (
      sort_by_key (λ c. c.created_seq) found,
      rw (listed, load_all-ok store snapshot ids loads) refl,
      sort_by_key-IsSortedBy (λ c. c.created_seq) found,
      λ c.
          let sorted = In-sort_by (λ x y. ltb y.created_seq x.created_seq) c found in
          let queues = In-queued_of c (map snapshot ids) in
          (λ i. queues.0 (sorted.0 i), λ q. sorted.1 (queues.1 q)),
    )
