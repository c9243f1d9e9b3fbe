-- ===== src/Orchestration/Scheduler/Accounting.antt =====
-- src/orchestration/scheduler.rs: how `active_slots` relates to the runs that the queues count.
use void_control.Base.{
  ℕ, ◌+◌, ◌≤◌, ◌<◌, ◌≡◌, ◌≢◌, refl, ◌⊎◌, inl, inr, Bool, Option, false, u64_max, none, some, String,
  [], ◌∷◌, arith, u64_mod, max, str_eq_iff, Option-cases,
}
use mathlib.Core.Option
use void_control.Base.Map.{
  Map, get, insert, update, IsOrdered, get-below, insert-IsOrdered, update-IsOrdered,
}
use void_control.Orchestration.Scheduler.{
  QueuedCandidate, DispatchGrant, ExecutionQueue, GlobalScheduler, new, enqueue, register_execution,
  next_dispatch, mark_running, release, pause_execution, entry, push_back, pop_front, start_one,
  stop_one, pause_queue, best_offer,
}
use text.Mathlib.TextEquality.{path_by_compare}
use text.Mathlib.TextPositions.{compare_refl}

-- The runs that the queues count.
unfoldable pub total_running : Map ExecutionQueue → ℕ
total_running [] = 0
total_running ((k, q) ∷ m) = q.running + total_running m

-- What a queue that may be missing counts.
unfoldable pub running_of : Option ExecutionQueue → ℕ
running_of none = 0
running_of (some q) = q.running

running-le-total : (k : String) (m : Map ExecutionQueue) → running_of (get k m) ≤ total_running m
unfolding get total_running running_of
running-le-total k [] = omega arith
running-le-total k ((j, q) ∷ m) = ground (arith, running-le-total k m)

total_running-insert :
    (k : String) (q : ExecutionQueue) (m : Map ExecutionQueue)
    → IsOrdered m
    → total_running (insert k q m) + running_of (get k m) ≡ total_running m + q.running
unfolding insert get total_running running_of
total_running-insert k q [] o = omega arith
total_running-insert k q ((j, p) ∷ m) o = ground (
  arith,
  path_by_compare j k,
  compare_refl j,
  get-below k j p m o,
  str_eq_iff j k,
  total_running-insert k q m o.1,
)

total_running-update :
    (k : String) (f : ExecutionQueue → ExecutionQueue) (m : Map ExecutionQueue)
    → total_running (update k f m) + running_of (get k m)
      ≡ total_running m + running_of (Option.map f (get k m))
unfolding update get total_running running_of
total_running-update k f [] = omega arith
total_running-update k f ((j, p) ∷ m) = ground (arith, total_running-update k f m)

-- The slots in use are the runs that the queues count, and the queues are a map in order.
pub record IsBalanced (s : GlobalScheduler) : Type 0 where
  pub counted : s.active_slots ≡ total_running s.executions
  pub ordered : IsOrdered s.executions

pub new-IsBalanced : (n : ℕ) → IsBalanced (new n)
unfolding new total_running
new-IsBalanced n = record { counted = refl; ordered = tt }

enqueue-IsBalanced :
    (s : GlobalScheduler) (c : QueuedCandidate) → IsBalanced s → IsBalanced (enqueue s c)
unfolding enqueue running_of
enqueue-IsBalanced s c b = record {
  counted = ground (
    arith,
    total_running-insert c.execution_id
        (push_back c (
          entry s c.execution_id
            (record { paused = false; queued = []; running = 0; max_concurrent = u64_max })))
        s.executions b.ordered,
  );
  ordered = insert-IsOrdered c.execution_id _ s.executions b.ordered;
}

next_dispatch-IsBalanced : (s : GlobalScheduler) → IsBalanced s → IsBalanced (next_dispatch s).0
unfolding next_dispatch running_of
next_dispatch-IsBalanced s b = elim (Option-cases (best_offer s.executions)) [
  | inl e ↦ rw e (ground arith)
  | inr (o, e) ↦ rw e (
      ground (
        arith,
        total_running-update o.execution_id pop_front s.executions,
        update-IsOrdered o.execution_id pop_front s.executions b.ordered,
      ))
]

mark_running-IsBalanced :
    (s : GlobalScheduler) (g : DispatchGrant)
    → IsBalanced s
    → s.active_slots + 1 < u64_mod
    → IsBalanced (mark_running s g)
unfolding mark_running running_of
mark_running-IsBalanced s g b h = ground (
  arith,
  running-le-total g.execution_id s.executions,
  total_running-update g.execution_id start_one s.executions,
  update-IsOrdered g.execution_id start_one s.executions b.ordered,
)

release-IsBalanced :
    (s : GlobalScheduler) (id candidate : String)
    → IsBalanced s
    → 0 < running_of (get id s.executions)
    → IsBalanced (release s id candidate)
unfolding release running_of
release-IsBalanced s id candidate b h = ground (
  arith,
  running-le-total id s.executions,
  total_running-update id stop_one s.executions,
  update-IsOrdered id stop_one s.executions b.ordered,
)

pause_execution-IsBalanced :
    (s : GlobalScheduler) (id : String) → IsBalanced s → IsBalanced (pause_execution s id)
unfolding pause_execution running_of
pause_execution-IsBalanced s id b = ground (
  arith,
  running-le-total id s.executions,
  total_running-update id pause_queue s.executions,
  update-IsOrdered id pause_queue s.executions b.ordered,
)

register-IsBalanced :
    (s : GlobalScheduler) (id : String) (paused : Bool) (running limit : ℕ)
    → IsBalanced s
    → (get id s.executions ≢ none) ⊎ (running ≡ 0)
    → s.active_slots + running < u64_mod
    → IsBalanced (register_execution s id paused running limit)
unfolding register_execution running_of
register-IsBalanced s id paused running limit b known h = record {
  counted = ground (
    arith,
    running-le-total id s.executions,
    total_running-insert id
        (record (entry s id fresh) { paused = paused; running = running; max_concurrent = limit })
        s.executions b.ordered,
  );
  ordered = insert-IsOrdered id _ s.executions b.ordered;
}
  where
    fresh : ExecutionQueue
    fresh = record { paused = paused; queued = []; running = running; max_concurrent = limit }

-- A call by a caller that reports each run once.
pub data Step (s : GlobalScheduler) : GlobalScheduler → Type 0 where
  enqueues : (c : QueuedCandidate) → Step s (enqueue s c)
  dispatches : Step s (next_dispatch s).0
  marks : (g : DispatchGrant) → s.active_slots + 1 < u64_mod → Step s (mark_running s g)
  releases :
      (id candidate : String)
      → 0 < running_of (get id s.executions)
      → Step s (release s id candidate)
  pauses : (id : String) → Step s (pause_execution s id)
  registers :
      (id : String) (paused : Bool) (running limit : ℕ)
      → (get id s.executions ≢ none) ⊎ (running ≡ 0)
      → s.active_slots + running < u64_mod
      → Step s (register_execution s id paused running limit)

pub data Reach (n : ℕ) : GlobalScheduler → Type 0 where
  start : Reach n (new n)
  next : {s t : GlobalScheduler} → Reach n s → Step s t → Reach n t

Step-IsBalanced : {s t : GlobalScheduler} → Step s t → IsBalanced s → IsBalanced t
Step-IsBalanced {s} (enqueues c) b = enqueue-IsBalanced s c b
Step-IsBalanced {s} dispatches b = next_dispatch-IsBalanced s b
Step-IsBalanced {s} (marks g h) b = mark_running-IsBalanced s g b h
Step-IsBalanced {s} (releases id candidate h) b = release-IsBalanced s id candidate b h
Step-IsBalanced {s} (pauses id) b = pause_execution-IsBalanced s id b
Step-IsBalanced {s} (registers id paused running limit k h) b =
    register-IsBalanced s id paused running limit b k h

-- From a new scheduler, `active_slots` stays the number of runs that the queues count, and the
-- queues stay in the order of their keys, through every sequence of calls in which a release is of
-- an execution with a run, an execution that is registered with runs is known already, and no
-- count reaches 2^64.
pub Reach-IsBalanced : (n : ℕ) (s : GlobalScheduler) → Reach n s → IsBalanced s
Reach-IsBalanced n s start = new-IsBalanced n
Reach-IsBalanced n s (next r st) = Step-IsBalanced st (Reach-IsBalanced n _ r)

-- Registering an execution that the scheduler does not know takes the greater of the slots in use
-- and the new runs, where the queues then count their sum.
pub register_unknown_slots :
    (s : GlobalScheduler) (id : String) (paused : Bool) (running limit : ℕ)
    → IsBalanced s
    → get id s.executions ≡ none
    → s.active_slots + running < u64_mod
    → ((register_execution s id paused running limit).active_slots ≡ max s.active_slots running)
      × (total_running (register_execution s id paused running limit).executions
          ≡ s.active_slots + running)
unfolding register_execution running_of
register_unknown_slots s id paused running limit b unknown h =
    (ground arith, ground (arith, total_running-insert id fresh s.executions b.ordered))
  where
    fresh : ExecutionQueue
    fresh = record { paused = paused; queued = []; running = running; max_concurrent = limit }
