-- ===== src/Orchestration/Events.antt =====
-- src/orchestration/events.rs: the control events of an execution, their names, and their replay.
pub mod Names
pub mod Replay
pub mod Examples
use void_control.Base.{
  ℕ, Bool, true, false, not, Option, none, some, String, List, [], ◌∷◌, str_eq, if◌then◌else◌,
  add_u32,
}
use void_control.Orchestration.Types.{
  Execution, ExecutionStatus, ExecutionAccumulator, ExecutionCandidate, default_accumulator,
}

pub data ControlEventType : Type 0 where
  execution_created : ControlEventType
  execution_submitted : ControlEventType
  execution_started : ControlEventType
  iteration_started : ControlEventType
  supervisor_assigned : ControlEventType
  candidate_queued : ControlEventType
  candidate_dispatched : ControlEventType
  candidate_output_collected : ControlEventType
  worker_queued : ControlEventType
  review_requested : ControlEventType
  worker_approved : ControlEventType
  revision_requested : ControlEventType
  candidate_scored : ControlEventType
  iteration_completed : ControlEventType
  execution_finalized : ControlEventType
  execution_completed : ControlEventType
  execution_failed : ControlEventType
  execution_paused : ControlEventType
  execution_resumed : ControlEventType
  execution_canceled : ControlEventType
  execution_stalled : ControlEventType
  communication_intent_emitted : ControlEventType
  communication_intent_rejected : ControlEventType
  message_routed : ControlEventType
  message_delivered : ControlEventType
  message_expired : ControlEventType

unfoldable pub as_str : ControlEventType → String
as_str ControlEventType.execution_created = "ExecutionCreated"
as_str ControlEventType.execution_submitted = "ExecutionSubmitted"
as_str ControlEventType.execution_started = "ExecutionStarted"
as_str ControlEventType.iteration_started = "IterationStarted"
as_str ControlEventType.supervisor_assigned = "SupervisorAssigned"
as_str ControlEventType.candidate_queued = "CandidateQueued"
as_str ControlEventType.candidate_dispatched = "CandidateDispatched"
as_str ControlEventType.candidate_output_collected = "CandidateOutputCollected"
as_str ControlEventType.worker_queued = "WorkerQueued"
as_str ControlEventType.review_requested = "ReviewRequested"
as_str ControlEventType.worker_approved = "WorkerApproved"
as_str ControlEventType.revision_requested = "RevisionRequested"
as_str ControlEventType.candidate_scored = "CandidateScored"
as_str ControlEventType.iteration_completed = "IterationCompleted"
as_str ControlEventType.execution_finalized = "ExecutionFinalized"
as_str ControlEventType.execution_completed = "ExecutionCompleted"
as_str ControlEventType.execution_failed = "ExecutionFailed"
as_str ControlEventType.execution_paused = "ExecutionPaused"
as_str ControlEventType.execution_resumed = "ExecutionResumed"
as_str ControlEventType.execution_canceled = "ExecutionCanceled"
as_str ControlEventType.execution_stalled = "ExecutionStalled"
as_str ControlEventType.communication_intent_emitted = "CommunicationIntentEmitted"
as_str ControlEventType.communication_intent_rejected = "CommunicationIntentRejected"
as_str ControlEventType.message_routed = "MessageRouted"
as_str ControlEventType.message_delivered = "MessageDelivered"
as_str ControlEventType.message_expired = "MessageExpired"

-- `ControlEventType::parse`
unfoldable pub parse : String → Option ControlEventType
parse value =
    if str_eq value "ExecutionCreated"
    then some ControlEventType.execution_created
    else if str_eq value "ExecutionSubmitted"
    then some ControlEventType.execution_submitted
    else if str_eq value "ExecutionStarted"
    then some ControlEventType.execution_started
    else if str_eq value "IterationStarted"
    then some ControlEventType.iteration_started
    else if str_eq value "SupervisorAssigned"
    then some ControlEventType.supervisor_assigned
    else if str_eq value "CandidateQueued"
    then some ControlEventType.candidate_queued
    else if str_eq value "CandidateDispatched"
    then some ControlEventType.candidate_dispatched
    else if str_eq value "CandidateOutputCollected"
    then some ControlEventType.candidate_output_collected
    else if str_eq value "WorkerQueued"
    then some ControlEventType.worker_queued
    else if str_eq value "ReviewRequested"
    then some ControlEventType.review_requested
    else if str_eq value "WorkerApproved"
    then some ControlEventType.worker_approved
    else if str_eq value "RevisionRequested"
    then some ControlEventType.revision_requested
    else if str_eq value "CandidateScored"
    then some ControlEventType.candidate_scored
    else if str_eq value "IterationCompleted"
    then some ControlEventType.iteration_completed
    else if str_eq value "ExecutionFinalized"
    then some ControlEventType.execution_finalized
    else if str_eq value "ExecutionCompleted"
    then some ControlEventType.execution_completed
    else if str_eq value "ExecutionFailed"
    then some ControlEventType.execution_failed
    else if str_eq value "ExecutionPaused"
    then some ControlEventType.execution_paused
    else if str_eq value "ExecutionResumed"
    then some ControlEventType.execution_resumed
    else if str_eq value "ExecutionCanceled"
    then some ControlEventType.execution_canceled
    else if str_eq value "ExecutionStalled"
    then some ControlEventType.execution_stalled
    else if str_eq value "CommunicationIntentEmitted"
    then some ControlEventType.communication_intent_emitted
    else if str_eq value "CommunicationIntentRejected"
    then some ControlEventType.communication_intent_rejected
    else if str_eq value "MessageRouted"
    then some ControlEventType.message_routed
    else if str_eq value "MessageDelivered"
    then some ControlEventType.message_delivered
    else if str_eq value "MessageExpired"
    then some ControlEventType.message_expired
    else none

-- The `matches!` of `advances_state`.
is_quiet : ControlEventType → Bool
is_quiet ControlEventType.execution_submitted = true
is_quiet ControlEventType.supervisor_assigned = true
is_quiet ControlEventType.candidate_queued = true
is_quiet ControlEventType.candidate_dispatched = true
is_quiet ControlEventType.candidate_output_collected = true
is_quiet ControlEventType.worker_queued = true
is_quiet ControlEventType.review_requested = true
is_quiet ControlEventType.worker_approved = true
is_quiet ControlEventType.revision_requested = true
is_quiet ControlEventType.execution_stalled = true
is_quiet ControlEventType.communication_intent_emitted = true
is_quiet ControlEventType.communication_intent_rejected = true
is_quiet ControlEventType.message_routed = true
is_quiet ControlEventType.message_delivered = true
is_quiet ControlEventType.message_expired = true
is_quiet _ = false

unfoldable pub advances_state : ControlEventType → Bool
unfolding is_quiet
advances_state t = not (is_quiet t)

pub record ControlEventEnvelope : Type 0 where
  pub execution_id : String
  pub seq : ℕ
  pub event_type : ControlEventType

-- `ControlEventEnvelope::new`
unfoldable pub new : String → ℕ → ControlEventType → ControlEventEnvelope
new execution_id seq event_type = record {
  execution_id = execution_id;
  seq = seq;
  event_type = event_type;
}

-- src/orchestration/types.rs
pub record ExecutionSnapshot (F : Type 0) : Type 0 where
  pub execution : Execution
  pub events : List ControlEventEnvelope
  pub accumulator : ExecutionAccumulator
  pub candidates : List (ExecutionCandidate F)

-- What the loop of `replay` changes.
pub record Replayed : Type 0 where
  pub execution : Execution
  pub accumulator : ExecutionAccumulator

set_status : ExecutionStatus → Replayed → Replayed
set_status status r = record r { execution = record (r.execution) { status = status } }

-- One round of the loop. An event that is not named has an empty arm.
unfoldable pub replay_one : ControlEventType → Replayed → Replayed
unfolding set_status
replay_one ControlEventType.execution_started r = set_status ExecutionStatus.running r
replay_one ControlEventType.iteration_started r = set_status ExecutionStatus.running r
replay_one ControlEventType.candidate_scored r = record r {
  accumulator = record (r.accumulator) {
    scoring_history_len = add_u32 r.accumulator.scoring_history_len 1;
  };
}
replay_one ControlEventType.iteration_completed r = record r {
  accumulator = record (r.accumulator) {
    completed_iterations = add_u32 r.accumulator.completed_iterations 1;
  };
}
replay_one ControlEventType.execution_finalized r = set_status ExecutionStatus.completed r
replay_one ControlEventType.execution_completed r = set_status ExecutionStatus.completed r
replay_one ControlEventType.execution_failed r = set_status ExecutionStatus.failed r
replay_one ControlEventType.execution_paused r = set_status ExecutionStatus.paused r
replay_one ControlEventType.execution_resumed r = set_status ExecutionStatus.running r
replay_one ControlEventType.execution_canceled r = set_status ExecutionStatus.canceled r
replay_one _ r = r

unfoldable pub replay_all : List ControlEventEnvelope → Replayed → Replayed
replay_all [] r = r
replay_all (e ∷ es) r = replay_all es (replay_one e.event_type r)

unfoldable pub replay : {F : Type 0} → Execution → List ControlEventEnvelope → ExecutionSnapshot F
replay execution events = record {
  execution = result.execution;
  events = events;
  accumulator = result.accumulator;
  candidates = [];
}
  where
    result : Replayed
    result = replay_all events (record { execution = execution; accumulator = default_accumulator })
