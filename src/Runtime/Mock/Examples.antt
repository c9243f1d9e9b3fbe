-- ===== src/Runtime/Mock/Examples.antt =====
-- src/runtime/mock.rs on a concrete runtime.
use void_control.Base.{◌≡◌, refl, none, some, String, decimal, [], All, ℕ}
use void_control.Base.Map.{get}
use void_control.Contract.Event.{EventEnvelope, EventType}
use void_control.Contract.Policy.{validate}
use void_control.Contract.Error.{ok}
use void_control.Contract.Api.{StartRequest, StopRequest}
use void_control.Runtime.Mock.{
  MockRuntime, RunRecord, first_record, new_run, push_event, next_event_id, play_outcome, start,
}
use void_control.Runtime.Mock.Requests.{find_run, stop, subscribe_events}
use void_control.Runtime.Mock.Requests.Invariant.{IsRun, Reach, fresh, starts, Reach-IsRun}
use void_control.Runtime.Mock.Requests.Stopping.{HasStopped, stop-HasStopped, stop_twice}
use void_control.Runtime.Mock.Requests.Reading.{subscribe_resumes}

abbrev empty_runtime : MockRuntime ℕ ℕ
empty_runtime = record { runs = []; seeded = [] }

abbrev first_request : StartRequest
first_request = record {
  run_id = "run-1";
  workflow_spec = "";
  launch_context = none;
  policy = record {
    max_parallel_microvms_per_run = 2;
    max_stage_retries = 0;
    stage_timeout_secs = 300;
    cancel_grace_period_secs = 5;
  };
}

abbrev one_run : MockRuntime ℕ ℕ
one_run = (start empty_runtime first_request "1Z" "2Z" "3Z").0

one_run-Reach : Reach one_run
one_run-Reach = starts first_request "1Z" "2Z" "3Z" fresh

abbrev running : RunRecord
running = first_record empty_runtime "run-1" "1Z" "2Z" "3Z"

abbrev stop_request : String → StopRequest
stop_request reason = record { handle = "run-handle:run-1"; reason = reason }

one_run_found : find_run one_run "run-handle:run-1" ≡ some running
unfolding find_run start first_record new_run push_event play_outcome validate get
one_run_found = refl

Reach-IsRun_example : All IsRun one_run.runs
Reach-IsRun_example = Reach-IsRun one_run one_run-Reach

stop-HasStopped_example :
    HasStopped
      (stop one_run (stop_request "user") "7Z").0
      "run-handle:run-1"
      (stop one_run (stop_request "user") "7Z").1
stop-HasStopped_example =
    stop-HasStopped one_run (stop_request "user") "7Z" running one_run-Reach one_run_found

stop_twice_example :
    stop (stop one_run (stop_request "user") "7Z").0 (stop_request "again") "8Z"
    ≡ stop one_run (stop_request "user") "7Z"
stop_twice_example =
    stop_twice one_run (stop_request "user") (stop_request "again") "7Z" "8Z" running one_run-Reach
      one_run_found refl

abbrev started_event : EventEnvelope
started_event = record {
  event_id = "evt_run-1_1";
  event_type = EventType.run_started;
  run_id = "run-1";
  attempt_id = 1;
  timestamp = "2Z";
  seq = 1;
  payload = [];
}

subscribe_resumes_example :
    subscribe_events one_run
      (record { handle = "run-handle:run-1"; from_event_id = some "evt_run-1_1" })
    ≡ ok []
unfolding first_record new_run push_event play_outcome get next_event_id decimal
subscribe_resumes_example =
    subscribe_resumes one_run
      (record { handle = "run-handle:run-1"; from_event_id = some "evt_run-1_1" }) running [] []
      started_event one_run_found refl refl tt
