-- ===== src/Orchestration/Service/Examples.antt =====
-- The properties of the service at a concrete input, on a disk in memory.
use void_control.Base.{◌≡◌, refl, arith, ℕ, none, some, List, [], ◌∷◌, str_eq_iff, decimal, sort_by}
use void_control.Orchestration.Types.{
  Execution, ExecutionStatus, default_accumulator, new_execution,
}
use void_control.Orchestration.Events.{
  ControlEventEnvelope, ControlEventType, ExecutionSnapshot, Replayed, replay_all,
}
use void_control.Orchestration.Store.{IoResult, and_then, map_ok}
use void_control.Orchestration.Store.Records.{Texts, parse_execution, parse_events, execution_text}
use void_control.Orchestration.Store.Records.Executions.{IsStorable, parse_execution-execution_text}
use void_control.Orchestration.Store.Records.Faithful.{local_json}
use void_control.Orchestration.Store.Operations.{
  load_execution, load_candidates, execution_path, events_path,
}
use void_control.Orchestration.Store.Claims.{execution_dir}
use void_control.Orchestration.Store.Memory.{Disk, memory, text_at, set_file, memory-IsWorking}
use void_control.Orchestration.Service.{
  ExecutionAction, update_execution_status, with_status, next_event, action_event, next_status,
}
use void_control.Orchestration.Service.Control.{update_execution_status_lem}

-- Numbers in the place of `f64`.
abbrev texts : Texts ℕ
texts =
    local_json decimal (λ s. IoResult.err "invalid float literal")
      (λ s. "invalid digit found in string")

abbrev running_execution : Execution
running_execution = record {
  execution_id = "exec-1";
  mode = "swarm";
  goal = "find a prompt";
  status = ExecutionStatus.running;
  result_best_candidate_id = none;
  completed_iterations = 1;
  failure_counts = record { total_candidate_failures = 0 };
}

running-IsStorable : IsStorable running_execution
running-IsStorable = record {
  id_line = ground arith;
  mode_line = ground arith;
  goal_line = ground arith;
  best_line = tt;
  best_named = refl;
  iterations_small = omega arith;
  failures_small = omega arith;
}

paused-IsStorable : IsStorable (with_status ExecutionStatus.paused running_execution)
paused-IsStorable = record {
  id_line = ground arith;
  mode_line = ground arith;
  goal_line = ground arith;
  best_line = tt;
  best_named = refl;
  iterations_small = omega arith;
  failures_small = omega arith;
}

abbrev running_disk : Disk
running_disk =
    set_file "executions/exec-1/execution.txt" (some (0, execution_text running_execution))
      (record { file_at = λ p. none; entries_at = λ p. []; next_file = 1; clock = 1000 })

abbrev snapshot : ExecutionSnapshot ℕ
snapshot = record {
  execution = running_execution;
  events = [];
  accumulator = default_accumulator;
  candidates = [];
}

loaded : load_execution memory texts "exec-1" running_disk ≡ IoResult.ok snapshot
unfolding load_execution load_candidates execution_dir sort_by
loaded = rw (parse_execution-execution_text texts running_execution running-IsStorable) refl

abbrev replayed : Replayed
replayed = record {
  execution = new_execution "exec-1" "swarm" "find a prompt";
  accumulator = default_accumulator;
}

update_execution_status_lem_example :
    (d' : Disk) × (es : List ControlEventEnvelope) × (update_execution_status memory texts "exec-1"
        ExecutionAction.pause running_disk
      ≡ (IoResult.ok (with_status ExecutionStatus.paused running_execution), d'))
    × (and_then (memory.read_to_string (execution_path memory "exec-1") d') (parse_execution texts)
        ≡ IoResult.ok (with_status ExecutionStatus.paused running_execution))
    × (map_ok parse_events (memory.read_to_string (events_path memory "exec-1") d')
        ≡ IoResult.ok es)
    × (es ≡ next_event "exec-1" [] ControlEventType.execution_paused ∷ [])
    × ((replay_all es replayed).execution.status ≡ ExecutionStatus.paused)
unfolding next_status action_event execution_dir
update_execution_status_lem_example =
    update_execution_status_lem memory texts text_at memory-IsWorking "exec-1" ExecutionAction.pause
      running_disk snapshot ExecutionStatus.paused replayed loaded refl refl paused-IsStorable refl
      tt (record { id_part = ground arith; seq_small = omega arith })
      (λ e. cc ((str_eq_iff "executions/exec-1/execution.txt" "executions/exec-1/events.log").1 e))
