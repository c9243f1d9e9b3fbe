-- ===== src/Orchestration/Types.antt =====
-- src/orchestration/types.rs: the records of an execution, its candidates and their messages.
use void_control.Base.{ℕ, Bool, Option, none, String, List, []}
use void_control.Base.Map.{Map}

pub data ExecutionStatus : Type 0 where
  pending running paused completed failed canceled : ExecutionStatus

pub data CandidateStatus : Type 0 where
  queued running completed failed canceled : CandidateStatus

pub data WorkerReviewStatus : Type 0 where
  pending_review approved revision_requested retry_requested rejected : WorkerReviewStatus

pub record FailureCounts : Type 0 where
  pub total_candidate_failures : ℕ

pub record Execution : Type 0 where
  pub execution_id : String
  pub mode : String
  pub goal : String
  pub status : ExecutionStatus
  pub result_best_candidate_id : Option String
  pub completed_iterations : ℕ
  pub failure_counts : FailureCounts

-- `Execution::new`
unfoldable pub new_execution : String → String → String → Execution
new_execution execution_id mode goal = record {
  execution_id = execution_id;
  mode = mode;
  goal = goal;
  status = ExecutionStatus.pending;
  result_best_candidate_id = none;
  completed_iterations = 0;
  failure_counts = record { total_candidate_failures = 0 };
}

-- `F` is the type of `f64`.
pub record ExecutionCandidate (F : Type 0) : Type 0 where
  pub execution_id : String
  pub candidate_id : String
  pub created_seq : ℕ
  pub iteration : ℕ
  pub status : CandidateStatus
  pub runtime_run_id : Option String
  pub overrides : Map String
  pub succeeded : Option Bool
  pub metrics : Map F
  pub review_status : Option WorkerReviewStatus
  pub revision_round : ℕ

-- `ExecutionCandidate::new`
unfoldable pub new_candidate :
    {F : Type 0} → String → String → ℕ → ℕ → CandidateStatus → ExecutionCandidate F
new_candidate execution_id candidate_id created_seq iteration status = record {
  execution_id = execution_id;
  candidate_id = candidate_id;
  created_seq = created_seq;
  iteration = iteration;
  status = status;
  runtime_run_id = none;
  overrides = [];
  succeeded = none;
  metrics = [];
  review_status = none;
  revision_round = 0;
}

-- src/orchestration/variation.rs
pub record VariationProposal : Type 0 where
  pub overrides : Map String

pub record ExecutionAccumulator : Type 0 where
  pub scoring_history_len : ℕ
  pub completed_iterations : ℕ
  pub leader_proposals : List VariationProposal
  pub iterations_without_improvement : ℕ
  pub best_candidate_id : Option String
  pub best_candidate_overrides : Map String
  pub failure_counts : FailureCounts
  pub supervision_reviews : Map WorkerReviewStatus
  pub supervision_revision_rounds : Map ℕ
  pub supervision_final_approval : Option Bool

-- The derived `Default`.
unfoldable pub default_accumulator : ExecutionAccumulator
default_accumulator = record {
  scoring_history_len = 0;
  completed_iterations = 0;
  leader_proposals = [];
  iterations_without_improvement = 0;
  best_candidate_id = none;
  best_candidate_overrides = [];
  failure_counts = record { total_candidate_failures = 0 };
  supervision_reviews = [];
  supervision_revision_rounds = [];
  supervision_final_approval = none;
}

pub record MessageStats : Type 0 where
  pub iteration : ℕ
  pub total_messages : ℕ
  pub leader_messages : ℕ
  pub broadcast_messages : ℕ
  pub proposal_count : ℕ
  pub signal_count : ℕ
  pub evaluation_count : ℕ
  pub high_priority_count : ℕ
  pub normal_priority_count : ℕ
  pub low_priority_count : ℕ
  pub delivered_count : ℕ
  pub dropped_count : ℕ
  pub expired_count : ℕ
  pub unique_sources : ℕ
  pub unique_intent_count : ℕ

pub record CandidateInbox : Type 0 where
  pub candidate_id : String
  pub messages : List String

-- `CandidateInbox::new`
unfoldable pub new_inbox : String → CandidateInbox
new_inbox candidate_id = record { candidate_id = candidate_id; messages = [] }

pub record CandidateSpec : Type 0 where
  pub candidate_id : String
  pub overrides : Map String

pub data CommunicationIntentKind : Type 0 where
  proposal signal evaluation : CommunicationIntentKind

pub data CommunicationIntentAudience : Type 0 where
  leader broadcast : CommunicationIntentAudience

pub data CommunicationIntentPriority : Type 0 where
  low normal high : CommunicationIntentPriority

-- `V` is the type of JSON values, `serde_json::Value`.
pub record CommunicationIntent (V : Type 0) : Type 0 where
  pub intent_id : String
  pub from_candidate_id : String
  pub iteration : ℕ
  pub kind : CommunicationIntentKind
  pub audience : CommunicationIntentAudience
  pub payload : V
  pub priority : CommunicationIntentPriority
  pub ttl_iterations : ℕ
  pub caused_by : Option String
  pub context : Option V

pub record CandidateOutput (F V : Type 0) : Type 0 where
  pub candidate_id : String
  pub succeeded : Bool
  pub metrics : Map F
  pub intents : List (CommunicationIntent V)

-- `CandidateOutput::new`
unfoldable pub new_output : {F V : Type 0} → String → Bool → Map F → CandidateOutput F V
new_output candidate_id succeeded metrics = record {
  candidate_id = candidate_id;
  succeeded = succeeded;
  metrics = metrics;
  intents = [];
}

pub data RoutedMessageStatus : Type 0 where
  routed delivered expired dropped : RoutedMessageStatus

pub record RoutedMessage : Type 0 where
  pub message_id : String
  pub intent_id : String
  pub to : String
  pub delivery_iteration : ℕ
  pub routing_reason : String
  pub status : RoutedMessageStatus

pub record InboxEntry (V : Type 0) : Type 0 where
  pub message_id : String
  pub intent_id : String
  pub from_candidate_id : String
  pub kind : CommunicationIntentKind
  pub payload : V

pub record InboxSnapshot (V : Type 0) : Type 0 where
  pub execution_id : String
  pub candidate_id : String
  pub iteration : ℕ
  pub entries : List (InboxEntry V)
