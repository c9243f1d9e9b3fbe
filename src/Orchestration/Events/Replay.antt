-- ===== src/Orchestration/Events/Replay.antt =====
-- src/orchestration/events.rs: what a replay of an execution's events gives.
use void_control.Base.{
  ℕ, suc, ◌+◌, ◌%◌, ◌≡◌, refl, ap, ◌∙◌, Bool, true, false, Option, none, some, String, List, [],
  ◌∷◌, arith, ◌<◌, if◌then◌else◌, u32_mod, filter,
}
use void_control.Orchestration.Types.{Execution, ExecutionStatus, default_accumulator}
use void_control.Orchestration.Events.{
  ControlEventType, ControlEventEnvelope, ExecutionSnapshot, Replayed, advances_state, replay_one,
  replay_all, replay,
}

replay_one-quiet :
    (t : ControlEventType) (r : Replayed) → advances_state t ≡ false → replay_one t r ≡ r
unfolding advances_state replay_one
replay_one-quiet t r h = ground arith

replay_all-filter :
    (es : List ControlEventEnvelope) (r : Replayed)
    → replay_all (filter (λ e. advances_state e.event_type) es) r ≡ replay_all es r
unfolding replay_all
replay_all-filter [] r = refl
replay_all-filter (e ∷ es) r = ground (
  arith,
  replay_one-quiet e.event_type r,
  replay_all-filter es r,
  replay_all-filter es (replay_one e.event_type r),
)

-- Events that `advances_state` rejects can be left out of a replay: the execution and the
-- accumulator that it gives are the same without them.
pub replay-advances_state :
    (F : Type 0) (x : Execution) (es : List ControlEventEnvelope)
    → let s : ExecutionSnapshot F = replay x es in
      let t : ExecutionSnapshot F = replay x (filter (λ e. advances_state e.event_type) es) in
      (t.execution ≡ s.execution) × (t.accumulator ≡ s.accumulator)
unfolding replay
replay-advances_state F x es =
    ground
      (arith, replay_all-filter es (record { execution = x; accumulator = default_accumulator }))

-- The status that an event sets.
unfoldable pub status_set_by : ControlEventType → Option ExecutionStatus
status_set_by ControlEventType.execution_started = some ExecutionStatus.running
status_set_by ControlEventType.iteration_started = some ExecutionStatus.running
status_set_by ControlEventType.execution_resumed = some ExecutionStatus.running
status_set_by ControlEventType.execution_finalized = some ExecutionStatus.completed
status_set_by ControlEventType.execution_completed = some ExecutionStatus.completed
status_set_by ControlEventType.execution_failed = some ExecutionStatus.failed
status_set_by ControlEventType.execution_paused = some ExecutionStatus.paused
status_set_by ControlEventType.execution_canceled = some ExecutionStatus.canceled
status_set_by _ = none

or_else : Option ExecutionStatus → Option ExecutionStatus → Option ExecutionStatus
or_else (some a) b = some a
or_else none b = b

-- The last status that is set.
unfoldable pub last_status : List ControlEventEnvelope → Option ExecutionStatus
unfolding or_else status_set_by
last_status [] = none
last_status (e ∷ es) = or_else (last_status es) (status_set_by e.event_type)

unfoldable pub status_or : Option ExecutionStatus → ExecutionStatus → ExecutionStatus
status_or none s = s
status_or (some t) s = t

unfoldable pub is_scored : ControlEventType → Bool
is_scored ControlEventType.candidate_scored = true
is_scored _ = false

unfoldable pub is_completed_iteration : ControlEventType → Bool
is_completed_iteration ControlEventType.iteration_completed = true
is_completed_iteration _ = false

-- How many events are of a kind.
unfoldable pub count_events : (ControlEventType → Bool) → List ControlEventEnvelope → ℕ
count_events p [] = 0
count_events p (e ∷ es) = let rest = count_events p es in if p e.event_type then suc rest else rest

-- What the loop leaves: the last status set, and both counters.
expected : List ControlEventEnvelope → Replayed → Replayed
unfolding last_status status_or count_events is_scored is_completed_iteration
expected es r = record {
  execution = record (r.execution) { status = status_or (last_status es) r.execution.status };
  accumulator = record (r.accumulator) {
    scoring_history_len = (r.accumulator.scoring_history_len + count_events is_scored es) % u32_mod;
    completed_iterations =
        (r.accumulator.completed_iterations + count_events is_completed_iteration es) % u32_mod;
  };
}

expected-cons :
    (id : String) (seq : ℕ) (t : ControlEventType) (es : List ControlEventEnvelope) (r : Replayed)
    → expected es (replay_one t r)
      ≡ expected (record { execution_id = id; seq = seq; event_type = t } ∷ es) r
unfolding expected replay_one
expected-cons id seq ControlEventType.execution_created es r = ground arith
expected-cons id seq _ es r = ground arith

replay_one_bounds :
    (t : ControlEventType) (r : Replayed)
    → r.accumulator.scoring_history_len < u32_mod
    → r.accumulator.completed_iterations < u32_mod
    → ((replay_one t r).accumulator.scoring_history_len < u32_mod)
      × ((replay_one t r).accumulator.completed_iterations < u32_mod)
unfolding replay_one
replay_one_bounds t r h k = ground arith

replay_all_lem :
    (es : List ControlEventEnvelope) (r : Replayed)
    → r.accumulator.scoring_history_len < u32_mod
    → r.accumulator.completed_iterations < u32_mod
    → replay_all es r ≡ expected es r
unfolding replay_all
replay_all_lem [] r h k = unfold expected in ground arith
replay_all_lem (e ∷ es) r h k =
    let (h', k') = replay_one_bounds e.event_type r h k in
    replay_all_lem es (replay_one e.event_type r) h' k'
    ∙ expected-cons e.execution_id e.seq e.event_type es r

-- A replay changes of the execution only its status, to the last one that an event sets. The new
-- accumulator counts, as u32, the scorings and the completed iterations, and holds nothing else.
-- The events are kept as they are, and there are no candidates.
pub replay_lem :
    (F : Type 0) (x : Execution) (es : List ControlEventEnvelope)
    → let s : ExecutionSnapshot F = replay x es in
      (s.execution ≡ record x { status = status_or (last_status es) x.status })
      × (s.accumulator ≡ record default_accumulator {
        scoring_history_len = count_events is_scored es % u32_mod;
        completed_iterations = count_events is_completed_iteration es % u32_mod;
      })
      × (s.events ≡ es)
      × (s.candidates ≡ [])
unfolding replay expected default_accumulator
replay_lem F x es =
    let e = replay_all_lem es start (omega arith) (omega arith) in
    (ap (λ r. r.execution) e, rw e (ground arith), refl, refl)
  where
    start : Replayed
    start = record { execution = x; accumulator = default_accumulator }
