-- ===== src/Orchestration/Scheduler/Examples.antt =====
-- src/orchestration/scheduler.rs: the scheduler on concrete queues.
use void_control.Base.{
  ◌+◌, ◌≤◌, ◌<◌, ◌≡◌, ◌≢◌, refl, ◌⊎◌, inl, inr, true, false, none, some, String, List, [], ◌∷◌,
  arith, length, max, In, u64_mod,
}
use void_control.Base.Map.{get, IsOrdered}
use void_control.Orchestration.Scheduler.{
  QueuedCandidate, DispatchGrant, ExecutionQueue, GlobalScheduler, new, enqueue, register_execution,
  next_dispatch, mark_running, release,
}
use void_control.Orchestration.Scheduler.Accounting.{
  total_running, running_of, IsBalanced, Reach, start, next, enqueues, dispatches, marks, releases,
  Reach-IsBalanced, register_unknown_slots,
}
use void_control.Orchestration.Scheduler.Dispatch.{
  IsReady, next_dispatch_serves_front, next_dispatch_oldest, marked_within_limits,
}

abbrev first : QueuedCandidate
first = record { execution_id = "exec-1"; candidate_id = "candidate-1"; created_seq = 7 }

abbrev second : QueuedCandidate
second = record { execution_id = "exec-2"; candidate_id = "candidate-1"; created_seq = 5 }

abbrev second_grant : DispatchGrant
second_grant = record { execution_id = "exec-2"; candidate_id = "candidate-1" }

abbrev two_queues : GlobalScheduler
two_queues = record {
  max_concurrent_child_runs = 3;
  active_slots = 1;
  executions =
      ("exec-1", record { paused = false; queued = first ∷ []; running = 1; max_concurrent = 2 })
      ∷ ("exec-2", record { paused = false; queued = second ∷ []; running = 0; max_concurrent = 2 })
      ∷ [];
}

two_queues_built :
    enqueue
      (enqueue
        (register_execution (register_execution (new 3) "exec-1" false 1 2) "exec-2" false 0 2)
        second)
      first
    ≡ two_queues
unfolding enqueue register_execution new void_control.Base.Map.get void_control.Base.Map.insert
two_queues_built = refl

second_is_served : (next_dispatch two_queues).1 ≡ some second_grant
unfolding next_dispatch
second_is_served = refl

next_dispatch_serves_front_example :
    (q : ExecutionQueue) × (c : QueuedCandidate) × (rest : List QueuedCandidate)
    × (two_queues.active_slots < two_queues.max_concurrent_child_runs)
    × (get "exec-2" two_queues.executions ≡ some q)
    × IsReady q c rest
    × (second_grant.candidate_id ≡ c.candidate_id)
    × (get "exec-2" (next_dispatch two_queues).0.executions ≡ some (record q { queued = rest }))
next_dispatch_serves_front_example =
    next_dispatch_serves_front two_queues second_grant ((refl, tt), (tt, tt)) second_is_served

next_dispatch_oldest_example :
    (g : DispatchGrant) × (p : ExecutionQueue) × (d : QueuedCandidate) × (others : List
      QueuedCandidate)
    × ((next_dispatch two_queues).1 ≡ some g)
    × In (g.execution_id, p) two_queues.executions
    × IsReady p d others
    × (g.candidate_id ≡ d.candidate_id)
    × (d.created_seq ≤ 7)
next_dispatch_oldest_example =
    next_dispatch_oldest two_queues "exec-1"
      (record { paused = false; queued = first ∷ []; running = 1; max_concurrent = 2 }) first []
      (omega arith) (inl refl) (record { unpaused = refl; below = omega arith; front = refl })

marked_within_limits_example :
    (q : ExecutionQueue) × (get "exec-2"
        (mark_running (next_dispatch two_queues).0 second_grant).executions
      ≡ some q)
    × ((mark_running (next_dispatch two_queues).0 second_grant).active_slots ≤ 3)
    × (q.running ≤ q.max_concurrent)
    × (q.paused ≡ false)
marked_within_limits_example =
    marked_within_limits two_queues second_grant ((refl, tt), (tt, tt)) (omega arith) (omega arith)
      second_is_served

history : Reach 3 (
    release
      (mark_running (next_dispatch (enqueue (new 3) second)).0 second_grant)
      "exec-2"
      "candidate-1")
unfolding next_dispatch enqueue new mark_running running_of void_control.Base.Map.get
    void_control.Base.Map.insert void_control.Base.Map.update
history =
    next (next (next (next start (enqueues second)) dispatches) (marks second_grant (omega arith)))
      (releases "exec-2" "candidate-1" (omega arith))

Reach-IsBalanced_example : IsBalanced (
    release
      (mark_running (next_dispatch (enqueue (new 3) second)).0 second_grant)
      "exec-2"
      "candidate-1")
Reach-IsBalanced_example = Reach-IsBalanced 3 _ history

two_queues-IsBalanced : IsBalanced two_queues
unfolding total_running
two_queues-IsBalanced = record { counted = refl; ordered = ((refl, tt), (tt, tt)) }

register_unknown_slots_example :
    ((register_execution two_queues "exec-3" false 2 2).active_slots ≡ max 1 2)
    × (total_running (register_execution two_queues "exec-3" false 2 2).executions ≡ 1 + 2)
unfolding void_control.Base.Map.get
register_unknown_slots_example =
    register_unknown_slots two_queues "exec-3" false 2 2 two_queues-IsBalanced refl (omega arith)
