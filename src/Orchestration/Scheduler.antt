-- ===== src/Orchestration/Scheduler.antt =====
-- src/orchestration/scheduler.rs: the scheduler that shares the slots for child runs among executions.
-- A method on `&mut self` returns the new scheduler, with its answer where it has one.
pub mod Accounting
pub mod Dispatch
pub mod Examples
use void_control.Base.{
  ℕ, ◌-◌, Bool, true, false, Option, none, some, String, List, [], ◌∷◌, ◌++◌, leb, ltb, not,
  if◌then◌else◌, length, head?, add_u64, saturating_sub, u64_max,
}
use void_control.Base.Map.{Map, get, insert, update}
use void_control.Orchestration.Types.{ExecutionAccumulator}

pub record QueuedCandidate : Type 0 where
  pub execution_id : String
  pub candidate_id : String
  pub created_seq : ℕ

pub data SchedulerDecision : Type 0 where
  enqueued rejected_budget_exceeded : SchedulerDecision

pub record DispatchGrant : Type 0 where
  pub execution_id : String
  pub candidate_id : String

pub record ExecutionQueue : Type 0 where
  pub paused : Bool
  pub queued : List QueuedCandidate
  pub running : ℕ
  pub max_concurrent : ℕ

pub record GlobalScheduler : Type 0 where
  pub max_concurrent_child_runs : ℕ
  pub active_slots : ℕ
  pub executions : Map ExecutionQueue

unfoldable pub new : ℕ → GlobalScheduler
new max_concurrent_child_runs = record {
  max_concurrent_child_runs = max_concurrent_child_runs;
  active_slots = 0;
  executions = [];
}

-- `entry(key).or_insert_with(|| fresh)`
or_insert : Option ExecutionQueue → ExecutionQueue → ExecutionQueue
or_insert none fresh = fresh
or_insert (some queue) fresh = queue

entry : GlobalScheduler → String → ExecutionQueue → ExecutionQueue
unfolding or_insert
entry s execution_id fresh = or_insert (get execution_id s.executions) fresh

push_back : QueuedCandidate → ExecutionQueue → ExecutionQueue
push_back candidate queue = record queue { queued = queue.queued ++ candidate ∷ [] }

unfoldable pub enqueue : GlobalScheduler → QueuedCandidate → GlobalScheduler
unfolding entry push_back
enqueue s candidate = record s {
  executions = insert candidate.execution_id (push_back candidate queue) s.executions;
}
  where
    queue : ExecutionQueue
    queue =
        entry s candidate.execution_id
          (record { paused = false; queued = []; running = 0; max_concurrent = u64_max })

-- The slots are given back that the queue's `running` stood for, also when the entry is a new one.
unfoldable pub register_execution : GlobalScheduler → String → Bool → ℕ → ℕ → GlobalScheduler
unfolding entry
register_execution s execution_id paused running max_concurrent = record s {
  active_slots = add_u64 (saturating_sub s.active_slots queue.running) running;
  executions =
      insert execution_id
        (record queue { paused = paused; running = running; max_concurrent = max_concurrent })
        s.executions;
}
  where
    queue : ExecutionQueue
    queue = entry s execution_id (record {
      paused = paused;
      queued = [];
      running = running;
      max_concurrent = max_concurrent;
    })

unfoldable pub enqueue_if_budget_allows :
    GlobalScheduler
    → QueuedCandidate
    → ExecutionAccumulator
    → ℕ
    → GlobalScheduler × SchedulerDecision
enqueue_if_budget_allows s candidate accumulator max_iterations =
    if leb max_iterations accumulator.completed_iterations
    then (s, SchedulerDecision.rejected_budget_exceeded)
    else (enqueue s candidate, SchedulerDecision.enqueued)

-- The key, the execution and the candidate of what could be dispatched.
pub record Offer : Type 0 where
  pub created_seq : ℕ
  pub execution_id : String
  pub candidate_id : String

offer_front : String → Option QueuedCandidate → Option Offer
offer_front execution_id none = none
offer_front execution_id (some candidate) = some (record {
  created_seq = candidate.created_seq;
  execution_id = execution_id;
  candidate_id = candidate.candidate_id;
})

-- The two `filter`s and the `filter_map` of `next_dispatch`, for one entry.
offer : String → ExecutionQueue → Option Offer
unfolding offer_front
offer execution_id queue =
    if not queue.paused
    then (if ltb queue.running queue.max_concurrent
        then offer_front execution_id (head? queue.queued)
        else none)
    else none

-- `min_by_key` over the offers in the order of the keys: the first of the least.
earlier : Option Offer → Option Offer → Option Offer
earlier none later = later
earlier (some o) none = some o
earlier (some o) (some p) = if leb o.created_seq p.created_seq then some o else some p

best_offer : Map ExecutionQueue → Option Offer
unfolding offer earlier
best_offer [] = none
best_offer ((execution_id, queue) ∷ m) = earlier (offer execution_id queue) (best_offer m)

pop : List QueuedCandidate → List QueuedCandidate
pop [] = []
pop (c ∷ cs) = cs

pop_front : ExecutionQueue → ExecutionQueue
unfolding pop
pop_front queue = record queue { queued = pop queue.queued }

grant : GlobalScheduler → Option Offer → GlobalScheduler × Option DispatchGrant
unfolding pop_front
grant s none = (s, none)
grant s (some o) = (
  record s { executions = update o.execution_id pop_front s.executions },
  some (record { execution_id = o.execution_id; candidate_id = o.candidate_id }),
)

unfoldable pub next_dispatch : GlobalScheduler → GlobalScheduler × Option DispatchGrant
unfolding grant best_offer
next_dispatch s =
    if leb s.max_concurrent_child_runs s.active_slots
    then (s, none)
    else grant s (best_offer s.executions)

start_one : ExecutionQueue → ExecutionQueue
start_one queue = record queue { running = add_u64 queue.running 1 }

mark_found : GlobalScheduler → String → Option ExecutionQueue → GlobalScheduler
unfolding start_one
mark_found s execution_id none = s
mark_found s execution_id (some _) = record s {
  active_slots = add_u64 s.active_slots 1;
  executions = update execution_id start_one s.executions;
}

unfoldable pub mark_running : GlobalScheduler → DispatchGrant → GlobalScheduler
unfolding mark_found
mark_running s g = mark_found s g.execution_id (get g.execution_id s.executions)

-- `if queue.running > 0 { queue.running -= 1 }`
stop_one : ExecutionQueue → ExecutionQueue
stop_one queue = record queue { running = queue.running - 1 }

-- The candidate's id is not read.
unfoldable pub release : GlobalScheduler → String → String → GlobalScheduler
unfolding stop_one
release s execution_id candidate_id = record s {
  active_slots = s.active_slots - 1;
  executions = update execution_id stop_one s.executions;
}

pause_queue : ExecutionQueue → ExecutionQueue
pause_queue queue = record queue { paused = true; running = 0 }

pause_found : GlobalScheduler → String → Option ExecutionQueue → GlobalScheduler
unfolding pause_queue
pause_found s execution_id none = s
pause_found s execution_id (some queue) = record s {
  active_slots = saturating_sub s.active_slots queue.running;
  executions = update execution_id pause_queue s.executions;
}

unfoldable pub pause_execution : GlobalScheduler → String → GlobalScheduler
unfolding pause_found
pause_execution s execution_id = pause_found s execution_id (get execution_id s.executions)

depth_of : Option ExecutionQueue → ℕ
depth_of none = 0
depth_of (some queue) = length queue.queued

unfoldable pub execution_queue_depth : GlobalScheduler → String → ℕ
unfolding depth_of
execution_queue_depth s execution_id = depth_of (get execution_id s.executions)
