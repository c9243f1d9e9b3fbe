-- ===== src/Orchestration/Store/Candidates.antt =====
-- src/orchestration/store/fs.rs: the text file of a candidate.
pub mod RoundTrip
use void_control.Base.{
  Bool, Option, none, some, String, List, [], ◌∷◌, ◌&◌, decimal, lines, u32_max, u64_max,
  if◌then◌else◌, is_empty_text,
}
use void_control.Orchestration.Types.{ExecutionCandidate}
use void_control.Orchestration.Store.{IoResult, Io, map_ok, and_then}
use void_control.Orchestration.Store.Lines.{
  Reader, then_read, with_rest, ◌>>=◌, give, run, required_line, optional_line, non_empty,
  transpose, transpose_filled, unwrap_or, invalid_data,
}
use void_control.Orchestration.Store.Records.{
  Texts, number_from_str, map_from_text, numbers_from_text, candidate_status_to_str,
  str_to_candidate_status, worker_review_status_to_str, str_to_worker_review_status, success_to_str,
  str_to_success,
}

abbrev option_text : {A : Type 0} → (A → String) → Option A → String
option_text f none = ""
option_text f (some a) = f a

-- The name of a candidate's file.
abbrev pub candidate_file : {F : Type 0} → ExecutionCandidate F → String
candidate_file c = decimal c.created_seq & "-" & c.candidate_id & ".txt"

-- The lines of the file, with the texts of the two maps.
abbrev pub candidate_body : {F : Type 0} → ExecutionCandidate F → String → String → String
candidate_body c overrides metrics =
    c.execution_id
    & "\n"
    & c.candidate_id
    & "\n"
    & decimal c.created_seq
    & "\n"
    & decimal c.iteration
    & "\n"
    & candidate_status_to_str c.status
    & "\n"
    & unwrap_or "" c.runtime_run_id
    & "\n"
    & overrides
    & "\n"
    & option_text success_to_str c.succeeded
    & "\n"
    & metrics
    & "\n"
    & option_text worker_review_status_to_str c.review_status
    & "\n"
    & decimal c.revision_round

module _ {F : Type 0} (texts : Texts F) where
  unfoldable pub candidate_text : ExecutionCandidate F → Io String
  candidate_text c = and_then (invalid_data (texts.map_to_string c.overrides)) λ overrides.
      map_ok (candidate_body c overrides) (invalid_data (texts.numbers_to_string c.metrics))

  candidate_reader : Reader (ExecutionCandidate F)
  candidate_reader = do
    execution_id ← required_line "execution_id"
    candidate_id ← required_line "candidate_id"
    seq_line ← required_line "created_seq"
    created_seq ← give (number_from_str texts u64_max seq_line)
    iteration_line ← required_line "iteration"
    iteration ← give (number_from_str texts u32_max iteration_line)
    status_line ← required_line "status"
    run_line ← optional_line
    overrides_line ← optional_line
    overrides ← give (transpose_filled (map_from_text texts) overrides_line)
    succeeded_line ← optional_line
    succeeded ← give (transpose_filled str_to_success succeeded_line)
    metrics_line ← optional_line
    metrics ← give (transpose_filled (numbers_from_text texts) metrics_line)
    review_line ← optional_line
    review_status ← give (transpose_filled str_to_worker_review_status review_line)
    round_line ← optional_line
    revision_round ← give (transpose_filled (number_from_str texts u32_max) round_line)
    status ← give (str_to_candidate_status status_line)
    give (
        IoResult.ok (record {
          execution_id = execution_id;
          candidate_id = candidate_id;
          created_seq = created_seq;
          iteration = iteration;
          status = status;
          runtime_run_id = non_empty run_line;
          overrides = unwrap_or [] overrides;
          succeeded = succeeded;
          metrics = unwrap_or [] metrics;
          review_status = review_status;
          revision_round = unwrap_or 0 revision_round;
        }))

  unfoldable pub parse_candidate : String → Io (ExecutionCandidate F)
  unfolding candidate_reader
  parse_candidate contents = run candidate_reader (lines contents)
