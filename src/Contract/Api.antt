-- ===== src/Contract/Api.antt =====
-- src/contract/api.rs: the requests to a runtime and its answers.
use void_control.Base.{ℕ, Option, String}
use void_control.Contract.State.{RunState}
use void_control.Contract.Policy.{ExecutionPolicy}

pub record StartRequest : Type 0 where
  pub run_id : String
  pub workflow_spec : String
  pub launch_context : Option String
  pub policy : ExecutionPolicy

pub record StartResult : Type 0 where
  pub handle : String
  pub attempt_id : ℕ
  pub state : RunState

pub record StopRequest : Type 0 where
  pub handle : String
  pub reason : String

pub record StopResult : Type 0 where
  pub state : RunState
  pub terminal_event_id : String

-- `exit_code` is an i32; every value the code gives it is not negative.
pub record RuntimeInspection : Type 0 where
  pub run_id : String
  pub attempt_id : ℕ
  pub state : RunState
  pub active_stage_count : ℕ
  pub active_microvm_count : ℕ
  pub started_at : String
  pub updated_at : String
  pub terminal_reason : Option String
  pub exit_code : Option ℕ

pub record SubscribeEventsRequest : Type 0 where
  pub handle : String
  pub from_event_id : Option String
