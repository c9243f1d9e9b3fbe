-- ===== src/Orchestration/Store/Records.antt =====
-- src/orchestration/store/fs.rs: the text files of executions, accumulators, candidates and events.
-- `F` is the type of `f64`.
pub mod Names
pub mod Executions
pub mod Faithful
pub mod Accumulators
pub mod EventLog
use void_control.Base.{
  ℕ, Bool, true, false, Option, none, some, String, List, [], ◌∷◌, str_eq, if◌then◌else◌, ◌&◌,
  decimal, parse_number, u32_max, u64_max, lines, split,
}
use void_control.Base.Map.{Map}
use void_control.Orchestration.Types.{
  Execution, ExecutionStatus, CandidateStatus, WorkerReviewStatus, ExecutionAccumulator,
  ExecutionCandidate, default_accumulator,
}
use void_control.Orchestration.Events
use void_control.Orchestration.Events.{ControlEventEnvelope, ControlEventType, as_str, parse}
use void_control.Orchestration.Store.{IoResult, Io, ErrorKind, fail, map_ok, and_then}
use void_control.Orchestration.Store.Lines.{
  Reader, then_read, with_rest, ◌>>=◌, give, run, required_line, optional_line, non_empty,
  transpose, transpose_filled, unwrap_or, invalid_data,
}

-- What the store takes from `serde_json`, be it the library or the module of that name, and the text of
-- the error of `parse` of an unsigned number. An error is its text.
pub record Texts (F : Type 0) : Type 0 where
  pub map_to_string : Map String → IoResult String String
  pub map_from_str : String → IoResult String (Map String)
  pub numbers_to_string : Map F → IoResult String String
  pub numbers_from_str : String → IoResult String (Map F)
  pub parse_error : String → String

unfoldable pub status_to_str : ExecutionStatus → String
status_to_str ExecutionStatus.pending = "Pending"
status_to_str ExecutionStatus.running = "Running"
status_to_str ExecutionStatus.paused = "Paused"
status_to_str ExecutionStatus.completed = "Completed"
status_to_str ExecutionStatus.failed = "Failed"
status_to_str ExecutionStatus.canceled = "Canceled"

unfoldable pub candidate_status_to_str : CandidateStatus → String
candidate_status_to_str CandidateStatus.queued = "Queued"
candidate_status_to_str CandidateStatus.running = "Running"
candidate_status_to_str CandidateStatus.completed = "Completed"
candidate_status_to_str CandidateStatus.failed = "Failed"
candidate_status_to_str CandidateStatus.canceled = "Canceled"

unfoldable pub worker_review_status_to_str : WorkerReviewStatus → String
worker_review_status_to_str WorkerReviewStatus.pending_review = "PendingReview"
worker_review_status_to_str WorkerReviewStatus.approved = "Approved"
worker_review_status_to_str WorkerReviewStatus.revision_requested = "RevisionRequested"
worker_review_status_to_str WorkerReviewStatus.retry_requested = "RetryRequested"
worker_review_status_to_str WorkerReviewStatus.rejected = "Rejected"

unfoldable pub str_to_status : String → Io ExecutionStatus
str_to_status value =
    if str_eq value "Pending"
    then IoResult.ok ExecutionStatus.pending
    else if str_eq value "Running"
    then IoResult.ok ExecutionStatus.running
    else if str_eq value "Paused"
    then IoResult.ok ExecutionStatus.paused
    else if str_eq value "Completed"
    then IoResult.ok ExecutionStatus.completed
    else if str_eq value "Failed"
    then IoResult.ok ExecutionStatus.failed
    else if str_eq value "Canceled"
    then IoResult.ok ExecutionStatus.canceled
    else fail ErrorKind.invalid_data ("unknown execution status '" & value & "'")

unfoldable pub str_to_candidate_status : String → Io CandidateStatus
str_to_candidate_status value =
    if str_eq value "Queued"
    then IoResult.ok CandidateStatus.queued
    else if str_eq value "Running"
    then IoResult.ok CandidateStatus.running
    else if str_eq value "Completed"
    then IoResult.ok CandidateStatus.completed
    else if str_eq value "Failed"
    then IoResult.ok CandidateStatus.failed
    else if str_eq value "Canceled"
    then IoResult.ok CandidateStatus.canceled
    else fail ErrorKind.invalid_data ("unknown candidate status '" & value & "'")

unfoldable pub str_to_worker_review_status : String → Io WorkerReviewStatus
str_to_worker_review_status value =
    if str_eq value "PendingReview"
    then IoResult.ok WorkerReviewStatus.pending_review
    else if str_eq value "Approved"
    then IoResult.ok WorkerReviewStatus.approved
    else if str_eq value "RevisionRequested"
    then IoResult.ok WorkerReviewStatus.revision_requested
    else if str_eq value "RetryRequested"
    then IoResult.ok WorkerReviewStatus.retry_requested
    else if str_eq value "Rejected"
    then IoResult.ok WorkerReviewStatus.rejected
    else fail ErrorKind.invalid_data ("unknown worker review status '" & value & "'")

-- The match on the text of the success flag.
unfoldable pub str_to_success : String → Io Bool
str_to_success value =
    if str_eq value "true"
    then IoResult.ok true
    else if str_eq value "false"
    then IoResult.ok false
    else fail ErrorKind.invalid_data ("invalid candidate success flag '" & value & "'")

abbrev pub success_to_str : Bool → String
success_to_str true = "true"
success_to_str false = "false"

-- The body of `execution.txt`.
unfoldable pub execution_text : Execution → String
execution_text e =
    e.execution_id
    & "\n"
    & e.mode
    & "\n"
    & e.goal
    & "\n"
    & status_to_str e.status
    & "\n"
    & unwrap_or "" e.result_best_candidate_id
    & "\n"
    & decimal e.completed_iterations
    & "\n"
    & decimal e.failure_counts.total_candidate_failures

-- The line that `append_event` adds.
unfoldable pub event_line : ControlEventEnvelope → String
event_line e = e.execution_id & "|" & decimal e.seq & "|" & as_str e.event_type & "\n"

event_from : String → Option ℕ → Option ControlEventType → Option ControlEventEnvelope
event_from execution_id (some seq) (some event_type) = some (Events.new execution_id seq event_type)
event_from execution_id _ _ = none

-- One line of `parse_events`.
parse_event_parts : List String → Option ControlEventEnvelope
unfolding event_from
parse_event_parts (execution_id ∷ seq ∷ event_type ∷ parts) =
    event_from execution_id (parse_number u64_max seq) (parse event_type)
parse_event_parts _ = none

add_some : Option ControlEventEnvelope → List ControlEventEnvelope → List ControlEventEnvelope
add_some none es = es
add_some (some e) es = e ∷ es

unfoldable pub parse_event_lines : List String → List ControlEventEnvelope
unfolding parse_event_parts add_some
parse_event_lines [] = []
parse_event_lines (line ∷ rest) =
    add_some (parse_event_parts (split "|" line)) (parse_event_lines rest)

unfoldable pub parse_events : String → List ControlEventEnvelope
parse_events contents = parse_event_lines (lines contents)

module _ {F : Type 0} (texts : Texts F) where
  -- `value.parse().map_err(invalid_data)`
  unfoldable pub number_from_str : ℕ → String → Io ℕ
  number_from_str max value = elim (parse_number max value) [
    | none ↦ fail ErrorKind.invalid_data (texts.parse_error value)
    | some n ↦ IoResult.ok n
  ]

  abbrev pub map_from_text : String → Io (Map String)
  map_from_text value = invalid_data (texts.map_from_str value)

  abbrev pub numbers_from_text : String → Io (Map F)
  numbers_from_text value = invalid_data (texts.numbers_from_str value)

  execution_reader : Reader Execution
  execution_reader = do
    execution_id ← required_line "execution_id"
    mode ← required_line "mode"
    goal ← required_line "goal"
    status ← required_line "status"
    best ← optional_line
    iterations_line ← optional_line
    completed_iterations ← give (transpose (number_from_str u32_max) iterations_line)
    failures_line ← optional_line
    failures ← give (transpose (number_from_str u32_max) failures_line)
    status_value ← give (str_to_status status)
    give (
        IoResult.ok (record {
          execution_id = execution_id;
          mode = mode;
          goal = goal;
          status = status_value;
          result_best_candidate_id = non_empty best;
          completed_iterations = unwrap_or 0 completed_iterations;
          failure_counts = record { total_candidate_failures = unwrap_or 0 failures };
        }))

  unfoldable pub parse_execution : String → Io Execution
  unfolding execution_reader
  parse_execution contents = run execution_reader (lines contents)

  -- The body of `accumulator.txt`.
  unfoldable pub accumulator_text : ExecutionAccumulator → Io String
  accumulator_text a =
      map_ok
        (λ overrides.
          decimal a.scoring_history_len
          & "\n"
          & decimal a.completed_iterations
          & "\n"
          & unwrap_or "" a.best_candidate_id
          & "\n"
          & overrides)
        (invalid_data (texts.map_to_string a.best_candidate_overrides))

  -- The three lines of older files that follow are read and dropped.
  accumulator_reader : Reader ExecutionAccumulator
  accumulator_reader = do
    history_line ← required_line "scoring_history_len"
    scoring_history_len ← give (number_from_str u32_max history_line)
    iterations_line ← required_line "completed_iterations"
    completed_iterations ← give (number_from_str u32_max iterations_line)
    best ← optional_line
    overrides_line ← optional_line
    overrides ← give (transpose_filled map_from_text overrides_line)
    _legacy_search_phase ← optional_line
    _legacy_explored_signatures ← optional_line
    _legacy_message_backlog ← optional_line
    give (
        IoResult.ok (record default_accumulator {
          scoring_history_len = scoring_history_len;
          completed_iterations = completed_iterations;
          best_candidate_id = non_empty best;
          best_candidate_overrides = unwrap_or [] overrides;
        }))

  unfoldable pub parse_accumulator : String → Io ExecutionAccumulator
  unfolding accumulator_reader
  parse_accumulator contents = run accumulator_reader (lines contents)
