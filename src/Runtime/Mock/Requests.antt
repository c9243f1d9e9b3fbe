-- ===== src/Runtime/Mock/Requests.antt =====
-- src/runtime/mock.rs: stopping, inspecting and reading runs, and seeding their outcomes.
pub mod Invariant
pub mod Stopping
pub mod Reading
use mathlib.Core.Option.{get_or}
use void_control.Base.{
  ℕ, ◌+◌, Bool, true, false, Option, none, some, String, List, [], ◌∷◌, ◌++◌, reverse, find,
  if◌then◌else◌, str_eq, ◌&◌, decimal, add_u64,
}
use void_control.Base.Map.{Map, get, insert}
use void_control.Contract.State.{RunState, is_terminal, state_eq}
use void_control.Contract.Event.{EventEnvelope, EventType}
use void_control.Contract.Event
use void_control.Contract.Policy.{validate}
use void_control.Contract.Error.{ContractErrorCode, ContractError, Result, ok, err, new}
use void_control.Contract.Api.{
  RuntimeInspection, StartRequest, StartResult, StopRequest, StopResult, SubscribeEventsRequest,
}
use void_control.Orchestration.Types.{CandidateOutput}
use void_control.Runtime.Mock.{
  MockRuntime, RunRecord, SeededOutcome, StructuredOutputResult, push_event, next_event_id,
}

-- `runs.iter_mut().find(..)` and what is done to the record that is found.
unfoldable pub update_run : String → (RunRecord → RunRecord) → List RunRecord → List RunRecord
update_run handle f [] = []
update_run handle f (r ∷ rs) =
    let rest = update_run handle f rs in if str_eq r.handle handle then f r ∷ rs else r ∷ rest

id_or_missing : Option EventEnvelope → String
id_or_missing none = "evt_missing_terminal"
id_or_missing (some e) = e.event_id

unfoldable pub terminal_event_id : RunRecord → String
unfolding id_or_missing
terminal_event_id r = id_or_missing (find Event.is_terminal (reverse r.events))

unfoldable pub cancel_run : String → String → RunRecord → RunRecord
cancel_run reason now r =
    push_event EventType.run_canceled [] now
      (record r { state = RunState.canceled; terminal_reason = some reason; exit_code = some 130 })

not_found : ContractError
not_found = new ContractErrorCode.not_found "run handle not found" false

-- `position(..)` and the rest behind it.
unfoldable pub events_after : String → List EventEnvelope → Option (List EventEnvelope)
events_after event_id [] = none
events_after event_id (e ∷ es) =
    let rest = events_after event_id es in if str_eq e.event_id event_id then some es else rest

-- The events behind the one that is named, or all of them.
unfoldable pub events_from : Option String → List EventEnvelope → List EventEnvelope
events_from none es = es
events_from (some event_id) es = get_or (events_after event_id es) es

inspect_run : RunRecord → RuntimeInspection
inspect_run r = record {
  run_id = r.run_id;
  attempt_id = r.attempt_id;
  state = r.state;
  active_stage_count = if state_eq r.state RunState.running then 1 else 0;
  active_microvm_count = if state_eq r.state RunState.running then 1 else 0;
  started_at = r.started_at;
  updated_at = r.updated_at;
  terminal_reason = r.terminal_reason;
  exit_code = r.exit_code;
}

inspect_found : Option RunRecord → Result RuntimeInspection
unfolding inspect_run not_found
inspect_found none = err not_found
inspect_found (some r) = ok (inspect_run r)

subscribe_found : Option String → Option RunRecord → Result (List EventEnvelope)
unfolding events_from not_found
subscribe_found from_event_id none = err not_found
subscribe_found from_event_id (some r) = ok (events_from from_event_id r.events)

module _ {F V : Type 0} where
  unfoldable pub find_run : MockRuntime F V → String → Option RunRecord
  find_run rt handle = find (λ r. str_eq r.handle handle) rt.runs

  stop_found :
      MockRuntime F V
      → StopRequest
      → String
      → Option RunRecord
      → MockRuntime F V × Result StopResult
  unfolding terminal_event_id cancel_run update_run not_found
  stop_found rt request now none = (rt, err not_found)
  stop_found rt request now (some r) =
      if is_terminal r.state
      then (rt, ok (record { state = r.state; terminal_event_id = terminal_event_id r }))
      else (
        record rt { runs = update_run request.handle (cancel_run request.reason now) rt.runs },
        ok (record { state = RunState.canceled; terminal_event_id = next_event_id r }),
      )

  unfoldable pub stop : MockRuntime F V → StopRequest → String → MockRuntime F V × Result StopResult
  unfolding stop_found find_run
  stop rt request now = stop_found rt request now (find_run rt request.handle)

  unfoldable pub inspect : MockRuntime F V → String → Result RuntimeInspection
  unfolding inspect_found find_run
  inspect rt handle = inspect_found (find_run rt handle)

  unfoldable pub subscribe_events :
      MockRuntime F V → SubscribeEventsRequest → Result (List EventEnvelope)
  unfolding subscribe_found find_run
  subscribe_events rt request = subscribe_found request.from_event_id (find_run rt request.handle)

  -- `seed_success`, `seed_failure`, `seed_missing_output` and `seed_malformed_output`.
  unfoldable pub seed : MockRuntime F V → String → SeededOutcome F V → MockRuntime F V
  seed rt run_id outcome = record rt { seeded = insert run_id outcome rt.seeded }

  output_of : String → Option (SeededOutcome F V) → StructuredOutputResult F V
  output_of run_id none = StructuredOutputResult.missing
  output_of run_id (some (SeededOutcome.success output)) = StructuredOutputResult.found output
  output_of run_id (some SeededOutcome.malformed_output) = StructuredOutputResult.error (
      new ContractErrorCode.structured_output_malformed
        ("run '" & run_id & "' emitted malformed structured output") false)
  output_of run_id (some SeededOutcome.failure) = StructuredOutputResult.missing
  output_of run_id (some SeededOutcome.missing_output) = StructuredOutputResult.missing

  unfoldable pub take_structured_output : MockRuntime F V → String → StructuredOutputResult F V
  unfolding output_of
  take_structured_output rt run_id = output_of run_id (get run_id rt.seeded)
