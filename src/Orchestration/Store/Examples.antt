-- ===== src/Orchestration/Store/Examples.antt =====
-- The properties of the store at concrete inputs, on a disk in memory.
use void_control.Base.{
  Option, false, is_blank, lines, ◌≡◌, ◌≢◌, ◌↔◌, refl, ap, arith, ℕ, Bool, true, none, some, String,
  List, [], ◌∷◌, ◌&◌, inl, All, parse_number, decimal, u32_max, sort_by,
}
use void_control.Base.Map.{Map, IsOrdered}
use void_control.Orchestration.Types.{
  Execution, ExecutionStatus, ExecutionCandidate, ExecutionAccumulator, CandidateStatus,
  WorkerReviewStatus, default_accumulator,
}
use void_control.Orchestration.Events.{ControlEventEnvelope, ControlEventType}
use void_control.Orchestration.Store.{ErrorKind, fail, IoResult, IoError, and_then, map_ok}
use void_control.Orchestration.Store.Codec.{
  escape, encode_map_string, decode_map_string, encode_list, decode_list,
}
use void_control.Orchestration.Store.Codec.RoundTrip.{
  decode_map_string-encode_map_string, decode_list-encode_list_iff,
}
use void_control.Orchestration.Store.Codec.Numbers.{IsExactEntry}
use void_control.Orchestration.Store.Records.{
  Texts, parse_execution, parse_events, execution_text, accumulator_text, parse_accumulator,
}
use void_control.Orchestration.Store.Records.Faithful.{local_json, local_json-IsFaithful}
use void_control.Orchestration.Store.Candidates.{candidate_text, parse_candidate}
use void_control.Orchestration.Store.Candidates.RoundTrip
use void_control.Orchestration.Store.Candidates.RoundTrip.{parse_candidate-candidate_text}
use void_control.Orchestration.Store.Records.Accumulators
use void_control.Orchestration.Store.Records.Accumulators.{kept, parse_accumulator-accumulator_text}
use void_control.Orchestration.Store.Records.Executions
use void_control.Orchestration.Store.Claims.{ExecutionClaim, claim_execution, claim_path, opened}
use void_control.Orchestration.Store.Files.{Entry, FileKind}
use void_control.Orchestration.Store.Operations.Listing.{two_line_goal_stops_listing}
use void_control.Orchestration.Store.Claims.Taking.{Claimed, claim_execution_total}
use void_control.Orchestration.Store.Claims.Race.{claims_race}
use void_control.Orchestration.Store.Operations.{
  append_event, save_execution, events_path, execution_path, list_active_execution_ids,
  list_execution_ids,
}
use void_control.Orchestration.Store.Operations.Saving.{Holds, append_event_lem, save_execution_lem}
use void_control.Orchestration.Store.Logs.{
  RecordTexts, load_lines, load_ndjson_records, append_ndjson_record,
}
use void_control.Orchestration.Store.Logs.Appending.{append_records, append_after_torn}
use void_control.Orchestration.Store.Logs.Crash.{IsLine, load_lines-torn}
use void_control.Orchestration.Store.Memory.{
  Disk, memory, text_at, text_of, set_file, set_file_self, Opened, memory-IsWorking,
  memory-IsAppending,
}

abbrev overrides : Map String
overrides = ("prompt", "a=b; c\nd") ∷ ("temperature", "") ∷ []

overrides-IsOrdered : IsOrdered overrides
overrides-IsOrdered = ground arith

decode_map_string-encode_map_string_example :
    decode_map_string (encode_map_string overrides) ≡ IoResult.ok overrides
decode_map_string-encode_map_string_example =
    decode_map_string-encode_map_string overrides overrides-IsOrdered

decode_list-encode_list_iff_example :
    (decode_list (encode_list ("" ∷ [])) ≡ IoResult.ok ("" ∷ []))
    ↔ ◌≢◌ {A = List String} ("" ∷ []) ("" ∷ [])
decode_list-encode_list_iff_example = decode_list-encode_list_iff ("" ∷ [])

-- Numbers in the place of `f64`.
abbrev read_number : String → IoResult String ℕ
read_number s = elim (parse_number u32_max s) [
  | none ↦ IoResult.err "invalid float literal"
  | some n ↦ IoResult.ok n
]

abbrev texts : Texts ℕ
texts = local_json decimal read_number (λ s. "invalid digit found in string")

abbrev Exact : String × ℕ → Type 0
Exact = IsExactEntry decimal read_number

abbrev candidate : ExecutionCandidate ℕ
candidate = record {
  execution_id = "exec-1";
  candidate_id = "candidate-2";
  created_seq = 12;
  iteration = 0;
  status = CandidateStatus.completed;
  runtime_run_id = some "run-7";
  overrides = overrides;
  succeeded = some true;
  metrics = ("latency", 250) ∷ [];
  review_status = some WorkerReviewStatus.approved;
  revision_round = 1;
}

metrics-Exact : All Exact candidate.metrics
unfolding escape decimal parse_number
metrics-Exact = ((refl, refl), tt)

candidate-IsStorable : RoundTrip.IsStorable Exact candidate
candidate-IsStorable = record {
  execution_line = ground arith;
  candidate_line = ground arith;
  seq_small = omega arith;
  iteration_small = omega arith;
  run_line = ground arith;
  run_named = refl;
  overrides_ordered = overrides-IsOrdered;
  metrics_ordered = ground arith;
  metrics_exact = metrics-Exact;
  round_small = omega arith;
}

parse_candidate-candidate_text_example :
    (t : String) × (candidate_text texts candidate ≡ IoResult.ok t)
    × (parse_candidate texts t ≡ IoResult.ok candidate)
parse_candidate-candidate_text_example =
    parse_candidate-candidate_text texts Exact candidate
      (local_json-IsFaithful decimal read_number (λ s. "invalid digit found in string"))
      candidate-IsStorable

abbrev accumulator : ExecutionAccumulator
accumulator = record default_accumulator {
  scoring_history_len = 3;
  completed_iterations = 2;
  best_candidate_id = some "candidate-2";
  best_candidate_overrides = overrides;
  supervision_final_approval = some true;
}

accumulator-IsStorable : Accumulators.IsStorable accumulator
unfolding default_accumulator
accumulator-IsStorable = record {
  history_small = omega arith;
  iterations_small = omega arith;
  best_line = ground arith;
  best_named = refl;
  overrides_ordered = overrides-IsOrdered;
}

parse_accumulator-accumulator_text_example :
    (t : String) × (accumulator_text texts accumulator ≡ IoResult.ok t)
    × (parse_accumulator texts t ≡ IoResult.ok (kept accumulator))
parse_accumulator-accumulator_text_example =
    parse_accumulator-accumulator_text texts Exact accumulator
      (local_json-IsFaithful decimal read_number (λ s. "invalid digit found in string"))
      accumulator-IsStorable

abbrev empty_disk : Disk
empty_disk = record { file_at = λ p. none; entries_at = λ p. []; next_file = 0; clock = 1000 }

claim_execution_total_example :
    (b : Bool) × (d' : Disk) × (claim_execution memory 2 "exec-1" "pid-7" empty_disk
      ≡ some (IoResult.ok b, d'))
    × Claimed memory text_at memory-IsWorking "exec-1" "pid-7" empty_disk b d'
claim_execution_total_example =
    claim_execution_total memory text_at memory-IsWorking 0 "exec-1" "pid-7" empty_disk

abbrev claim : ExecutionClaim
claim = record { worker_id = "pid-7"; claimed_at_ms = 1000 }

claims_race_example :
    (h : String × ℕ) × (d1 : Disk) × (memory.create_new (claim_path memory "exec-1") empty_disk
      ≡ (IoResult.ok h, d1))
    × (d2 : Disk) × (claim_execution memory 2 "exec-1" "pid-8" d1 ≡ some (IoResult.ok true, d2))
    × (d3 : Disk) × (opened memory "exec-1" claim (λ d. none) (IoResult.ok h, d2)
        ≡ some (IoResult.ok true, d3))
claims_race_example =
    claims_race memory text_at memory-IsWorking 0 "exec-1" "pid-8" claim (λ d. none) empty_disk refl

abbrev two_lines : Execution
two_lines = record {
  execution_id = "exec-1";
  mode = "swarm";
  goal = "find a prompt\nand keep it short";
  status = ExecutionStatus.pending;
  result_best_candidate_id = none;
  completed_iterations = 0;
  failure_counts = record { total_candidate_failures = 0 };
}

abbrev directory_entry : String → Entry String
directory_entry name = record {
  path = "executions/" & name;
  file_name = name;
  file_type = IoResult.ok FileKind.is_dir;
}

abbrev listed_disk : Disk
listed_disk = record {
  file_at = λ p. some (0, execution_text two_lines);
  entries_at = λ p. IoResult.ok (directory_entry "exec-1") ∷ [];
  next_file = 1;
  clock = 1000;
}

listed : list_execution_ids memory listed_disk ≡ IoResult.ok ("exec-1" ∷ [])
unfolding list_execution_ids sort_by
listed = refl

two_line_goal_stops_listing_example :
    (f : IoError) × (list_active_execution_ids memory texts listed_disk ≡ IoResult.err f)
two_line_goal_stops_listing_example =
    two_line_goal_stops_listing memory texts listed_disk ("exec-1" ∷ []) two_lines "find a prompt"
      "and keep it short" listed (inl refl) refl refl (ground arith) (ground arith) (ground arith)
      (ground arith) refl

abbrev started_event : ControlEventEnvelope
started_event = record {
  execution_id = "exec-1";
  seq = 1;
  event_type = ControlEventType.execution_started;
}

append_event_lem_example :
    (d' : Disk) × (append_event memory "exec-1" started_event empty_disk ≡ (IoResult.ok tt, d'))
    × (map_ok parse_events (memory.read_to_string (events_path memory "exec-1") d')
        ≡ IoResult.ok (started_event ∷ []))
    × Holds (started_event ∷ []) (text_at (events_path memory "exec-1") d')
    × ((q : String) → q ≢ events_path memory "exec-1" → text_at q d' ≡ text_at q empty_disk)
append_event_lem_example =
    append_event_lem memory text_at memory-IsWorking "exec-1" [] started_event empty_disk refl tt
      (record { id_part = ground arith; seq_small = omega arith })

abbrev one_line : Execution
one_line = record {
  execution_id = "exec-1";
  mode = "swarm";
  goal = "find a prompt";
  status = ExecutionStatus.running;
  result_best_candidate_id = some "candidate-2";
  completed_iterations = 2;
  failure_counts = record { total_candidate_failures = 1 };
}

one_line-IsStorable : Executions.IsStorable one_line
one_line-IsStorable = record {
  id_line = ground arith;
  mode_line = ground arith;
  goal_line = ground arith;
  best_line = ground arith;
  best_named = refl;
  iterations_small = omega arith;
  failures_small = omega arith;
}

save_execution_lem_example :
    (d' : Disk) × (save_execution memory one_line empty_disk ≡ (IoResult.ok tt, d'))
    × (and_then (memory.read_to_string (execution_path memory "exec-1") d') (parse_execution texts)
        ≡ IoResult.ok one_line)
    × ((q : String) → q ≢ execution_path memory "exec-1" → text_at q d' ≡ text_at q empty_disk)
save_execution_lem_example =
    save_execution_lem memory text_at memory-IsWorking texts one_line empty_disk one_line-IsStorable

-- Numbers in the place of JSON records.
abbrev number_record : Option ℕ → IoResult String ℕ
number_record none = IoResult.err "expected value"
number_record (some n) = IoResult.ok n

abbrev number_texts : RecordTexts ℕ
number_texts = record {
  to_text = λ n. IoResult.ok (decimal n);
  from_str = λ s. number_record (parse_number u32_max s);
}

number-IsLine : IsLine number_texts 7 "7"
unfolding decimal parse_number is_blank
number-IsLine = (refl, refl, (refl, tt), refl)

torn_line : number_texts.from_str "x" ≡ IoResult.err "expected value"
unfolding parse_number
torn_line = refl

joined_line : number_texts.from_str "x7" ≡ IoResult.err "expected value"
unfolding parse_number
joined_line = refl

joined_filled : is_blank "x7" ≡ false
unfolding is_blank
joined_filled = refl

load_lines-torn_example : load_lines number_texts (lines "7\nx") ≡ IoResult.ok (7 ∷ [])
load_lines-torn_example =
    load_lines-torn number_texts ((7, "7") ∷ []) "x" "expected value" (number-IsLine, tt) (refl, tt)
      torn_line

abbrev no_logs : Disk
no_logs = record { file_at = λ p. none; entries_at = λ p. []; next_file = 0; clock = 0 }

abbrev torn_disk : Disk
torn_disk = set_file "logs/messages.log" (some (0, "7\nx")) no_logs

torn_disk_text : text_at "logs/messages.log" torn_disk ≡ some "7\nx"
torn_disk_text = ap text_of (set_file_self "logs/messages.log" (some (0, "7\nx")) no_logs)

append_after_torn_example :
    (d1 : Disk) × (d2 : Disk) × (append_ndjson_record number_texts memory "logs" "logs/messages.log"
        7 torn_disk
      ≡ (IoResult.ok tt, d1))
    × (load_ndjson_records number_texts memory "logs/messages.log" d1 ≡ IoResult.ok (7 ∷ []))
    × (append_records number_texts memory "logs" "logs/messages.log" (7 ∷ []) d1
        ≡ (IoResult.ok tt, d2))
    × (load_ndjson_records number_texts memory "logs/messages.log" d2
        ≡ fail ErrorKind.invalid_data "expected value")
unfolding decimal
append_after_torn_example =
    append_after_torn number_texts memory text_at Opened memory-IsWorking memory-IsAppending "logs"
      "logs/messages.log" torn_disk ((7, "7") ∷ []) [] 7 7 "x" "7" "7" "expected value"
      (number-IsLine, tt) torn_disk_text refl (number-IsLine, tt) (refl, (refl, tt)) joined_filled
      joined_line
