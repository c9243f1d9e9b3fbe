-- ===== src/Runtime/Mock.antt =====
-- src/runtime/mock.rs: the runtime that keeps its runs in memory, and its start of a run.
-- What the clock says is an argument, one for each time that it is read. `F` is the type of `f64` and
-- `V` that of JSON values. A method on `&mut self` returns the new runtime with its answer.
pub mod Requests
pub mod Starting
pub mod Examples
use mathlib.Core.Option.{get_or}
use void_control.Base.{
  ℕ, ◌+◌, Bool, true, false, Option, none, some, String, List, [], ◌∷◌, ◌++◌, reverse, find,
  if◌then◌else◌, str_eq, ◌&◌, decimal, add_u64,
}
use void_control.Base.Map.{Map, get, insert}
use void_control.Contract.State.{RunState, is_terminal, state_eq}
use void_control.Contract.Event.{EventEnvelope, EventType}
use void_control.Contract.Event
use void_control.Contract.Policy.{validate}
use void_control.Contract.Error.{ContractErrorCode, ContractError, Result, ok, err, new}
use void_control.Contract.Api.{
  RuntimeInspection, StartRequest, StartResult, StopRequest, StopResult, SubscribeEventsRequest,
}
use void_control.Orchestration.Types.{CandidateOutput}

pub record RunRecord : Type 0 where
  pub run_id : String
  pub handle : String
  pub attempt_id : ℕ
  pub state : RunState
  pub started_at : String
  pub updated_at : String
  pub terminal_reason : Option String
  pub exit_code : Option ℕ
  pub events : List EventEnvelope
  pub next_seq : ℕ

pub data SeededOutcome (F V : Type 0) : Type 0 where
  success : CandidateOutput F V → SeededOutcome F V
  failure missing_output malformed_output : SeededOutcome F V

pub record MockRuntime (F V : Type 0) : Type 0 where
  pub runs : List RunRecord
  pub seeded : Map (SeededOutcome F V)

-- src/orchestration/service.rs
pub data StructuredOutputResult (F V : Type 0) : Type 0 where
  found : CandidateOutput F V → StructuredOutputResult F V
  missing : StructuredOutputResult F V
  error : ContractError → StructuredOutputResult F V

-- `RunRecord::new`
unfoldable pub new_run : String → String → RunRecord
new_run run_id now = record {
  run_id = run_id;
  handle = "run-handle:" & run_id;
  attempt_id = 1;
  state = RunState.running;
  started_at = now;
  updated_at = now;
  terminal_reason = none;
  exit_code = none;
  events = [];
  next_seq = 1;
}

-- The id of the run's next event, which `push_event` returns.
unfoldable pub next_event_id : RunRecord → String
next_event_id r = "evt_" & r.run_id & "_" & decimal r.next_seq

unfoldable pub push_event : EventType → Map String → String → RunRecord → RunRecord
unfolding next_event_id
push_event event_type payload now r = record r {
  updated_at = now;
  next_seq = add_u64 r.next_seq 1;
  events =
      r.events
      ++ record {
        event_id = next_event_id r;
        event_type = event_type;
        run_id = r.run_id;
        attempt_id = r.attempt_id;
        timestamp = now;
        seq = r.next_seq;
        payload = payload;
      }
        ∷ [];
}

fail_run : String → String → RunRecord → RunRecord
unfolding push_event
fail_run reason now r =
    push_event EventType.run_failed [] now
      (record r { state = RunState.failed; exit_code = some 1; terminal_reason = some reason })

-- The `match` on the seeded outcome of a new run.
unfoldable pub play_outcome :
    {F V : Type 0} → Option (SeededOutcome F V) → String → RunRecord → RunRecord
unfolding fail_run push_event
play_outcome none now r = r
play_outcome (some (SeededOutcome.success output)) now r =
    push_event EventType.run_completed [] now (record r { state = RunState.succeeded })
play_outcome (some SeededOutcome.missing_output) now r =
    push_event EventType.run_completed [] now (record r { state = RunState.succeeded })
play_outcome (some SeededOutcome.malformed_output) now r =
    fail_run "malformed structured output" now r
play_outcome (some SeededOutcome.failure) now r = fail_run "seeded failure" now r

started : RunRecord → StartResult
started r = record { handle = r.handle; attempt_id = r.attempt_id; state = r.state }

module _ {F V : Type 0} where
  -- The record that `start` pushes.
  unfoldable pub first_record : MockRuntime F V → String → String → String → String → RunRecord
  first_record rt run_id created_at started_at finished_at =
      play_outcome (get run_id rt.seeded) finished_at
        (push_event EventType.run_started [] started_at (new_run run_id created_at))

  start_found :
      MockRuntime F V
      → StartRequest
      → String
      → String
      → String
      → Option RunRecord
      → MockRuntime F V × Result StartResult
  unfolding started
  start_found rt request created_at started_at finished_at none =
      let r = first_record rt request.run_id created_at started_at finished_at in
      (record rt { runs = rt.runs ++ r ∷ [] }, ok (started r))
  start_found rt request created_at started_at finished_at (some existing) =
      if is_terminal existing.state
      then (rt, err (new ContractErrorCode.already_terminal "run is already terminal" false))
      else (rt, ok (started existing))

  start_valid :
      MockRuntime F V
      → StartRequest
      → String
      → String
      → String
      → Option String
      → MockRuntime F V × Result StartResult
  unfolding start_found
  start_valid rt request created_at started_at finished_at (some message) =
      (rt, err (new ContractErrorCode.invalid_policy message false))
  start_valid rt request created_at started_at finished_at none =
      start_found rt request created_at started_at finished_at
        (find (λ r. str_eq r.run_id request.run_id) rt.runs)

  -- The clock is read when the record is made, and for each of its events.
  unfoldable pub start :
      MockRuntime F V
      → StartRequest
      → String
      → String
      → String
      → MockRuntime F V × Result StartResult
  unfolding start_valid
  start rt request created_at started_at finished_at =
      start_valid rt request created_at started_at finished_at (validate request.policy)
