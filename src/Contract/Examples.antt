-- ===== src/Contract/Examples.antt =====
-- src/contract: runs, events and limits on concrete values.
use void_control.Base.{
  ℕ, ◌≡◌, ◌↔◌, refl, true, false, is_some, none, some, List, [], ◌∷◌, String, decimal, parse_number,
}
use void_control.Contract.State.{RunState, can_transition_to}
use void_control.Contract.State.Lifecycle.{Moves, here, next}
use void_control.Contract.Event.{EventType, EventEnvelope, default, observe_all}
use void_control.Contract.Event.Sequence.{IsStrictlyIncreasing, observe_all_iff}
use void_control.Contract.Policy.{ExecutionPolicy}
use void_control.Contract.Error.{Result}
use void_control.Contract.Compat.{
  VoidBoxRunEventRaw, VoidBoxRunRaw, ConvertedRunView, from_void_box_run, map_void_box_status,
  map_void_box_event_type, convert_events, ts_ms_to_string, parse_ts_ms, time_range,
  derive_started_updated, flatten_payload,
}
use void_control.Contract.Compat.Counting.{Converts, from_void_box_run_lem}

canceled_run : Moves RunState.pending RunState.canceled
unfolding can_transition_to
canceled_run = next {b = RunState.running} (next {b = RunState.starting} (next here refl) refl) refl

abbrev event : ℕ → EventType → EventEnvelope
event n t = record {
  event_id = "evt";
  event_type = t;
  run_id = "run-1";
  attempt_id = 1;
  timestamp = "";
  seq = n;
  payload = [];
}

abbrev run_events : List EventEnvelope
run_events =
    event 1 EventType.run_started
    ∷ event 2 EventType.stage_started
    ∷ event 5 EventType.run_completed
    ∷ []

observe_all_iff_example :
    (is_some (observe_all default run_events) ≡ true) ↔ IsStrictlyIncreasing run_events
observe_all_iff_example = observe_all_iff run_events

repeated_number_is_refused :
    is_some (observe_all default (event 2 EventType.run_started ∷ run_events)) ≡ false
unfolding default observe_all void_control.Contract.Event.observe
repeated_number_is_refused = refl

abbrev limits : ExecutionPolicy
limits = record {
  max_parallel_microvms_per_run = 2;
  max_stage_retries = 0;
  stage_timeout_secs = 300;
  cancel_grace_period_secs = 5;
}

abbrev raw_event : ℕ → String → VoidBoxRunEventRaw ℕ
raw_event ts_ms event_type = record {
  ts_ms = ts_ms;
  event_type = event_type;
  run_id = some "run-1";
  seq = none;
  payload = none;
}

abbrev raw_run : VoidBoxRunRaw ℕ
raw_run = record {
  id = "run-1";
  status = "Completed";
  error = none;
  events =
      raw_event 1000 "run.started"
      ∷ raw_event 1001 "workflow.planned"
      ∷ raw_event 1500 "run.finished"
      ∷ [];
}

abbrev converted_event : ℕ → String → EventType → String → EventEnvelope
converted_event seq event_id event_type timestamp = record {
  event_id = event_id;
  event_type = event_type;
  run_id = "run-1";
  attempt_id = 1;
  timestamp = timestamp;
  seq = seq;
  payload = [];
}

abbrev converted_view : ConvertedRunView
converted_view = record {
  inspection = record {
    run_id = "run-1";
    attempt_id = 1;
    state = RunState.succeeded;
    active_stage_count = 0;
    active_microvm_count = 0;
    started_at = "1000ms";
    updated_at = "1500ms";
    terminal_reason = none;
    exit_code = none;
  };
  events =
      converted_event 1 "evt_run-1_1" EventType.run_started "1000ms"
      ∷ converted_event 2 "evt_run-1_2" EventType.run_completed "1500ms"
      ∷ [];
  diagnostics = record {
    dropped_unknown_event_types = 1;
    dropped_missing_run_id = 0;
    seq_fallback_assigned = 2;
  };
}

converts : from_void_box_run decimal raw_run ≡ Result.ok converted_view
unfolding from_void_box_run map_void_box_status map_void_box_event_type convert_events
    ts_ms_to_string parse_ts_ms time_range derive_started_updated flatten_payload observe_all
    void_control.Contract.Event.observe default decimal parse_number
converts = refl

from_void_box_run_lem_example : Converts decimal raw_run converted_view
from_void_box_run_lem_example = from_void_box_run_lem decimal raw_run converted_view converts
