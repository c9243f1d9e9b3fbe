-- ===== src/Orchestration/Service.antt =====
-- src/orchestration/service.rs: submitting, steering and checking executions over the file store. `F` is the type
-- of `f64`; `spec_texts` is what serde_json does with a specification.
pub mod Control
pub mod Examples
use void_control.Base.{
  ℕ, Bool, true, false, Option, none, some, String, List, [], ◌∷◌, ◌++◌, ◌&◌, ◌%◌, ◌*◌, ◌+◌, length,
  map, str_eq, if◌then◌else◌, add_u64, mul_u32, u64_mod,
}
use void_control.Base.Map.{Map}
use void_control.Float.{FloatOps}
use void_control.Float
use void_control.Contract.Policy.{ExecutionPolicy}
use void_control.Orchestration.Types.{Execution, ExecutionStatus, new_execution}
use void_control.Orchestration.Events
use void_control.Orchestration.Events.{ControlEventEnvelope, ControlEventType, ExecutionSnapshot}
use void_control.Orchestration.Policy.{GlobalConfig}
use void_control.Orchestration.Spec
use void_control.Orchestration.Spec.{ExecutionSpec}
use void_control.Orchestration.Scoring.{ScoringConfig, WeightedMetric, MetricDirection}
use void_control.Orchestration.Store.{IoResult, Io, IoError, ErrorKind, fail, and_then, map_ok}
use void_control.Orchestration.Store.Lines.{invalid_data}
use void_control.Orchestration.Store.Files.{Files, Act, then_act, ◌>>=◌, ◌>>◌, give}
use void_control.Orchestration.Store.Records.{Texts}
use void_control.Orchestration.Store.Claims.{execution_dir, refresh_claim}
use void_control.Orchestration.Store.Operations.{
  load_execution, save_execution, create_execution, append_event, is_active,
}

pub data ExecutionAction : Type 0 where
  pause resume cancel : ExecutionAction

pub data ExecutionControl : Type 0 where
  continue paused canceled : ExecutionControl

-- The first `match` of `update_execution_status`.
unfoldable pub next_status : ExecutionAction → ExecutionStatus → Io ExecutionStatus
next_status ExecutionAction.pause ExecutionStatus.running = IoResult.ok ExecutionStatus.paused
next_status ExecutionAction.resume ExecutionStatus.paused = IoResult.ok ExecutionStatus.running
next_status ExecutionAction.cancel ExecutionStatus.running = IoResult.ok ExecutionStatus.canceled
next_status ExecutionAction.cancel ExecutionStatus.paused = IoResult.ok ExecutionStatus.canceled
next_status ExecutionAction.cancel ExecutionStatus.pending = IoResult.ok ExecutionStatus.canceled
next_status ExecutionAction.pause _ =
    fail ErrorKind.invalid_input "pause is only valid for running executions"
next_status ExecutionAction.resume _ =
    fail ErrorKind.invalid_input "resume is only valid for paused executions"
next_status ExecutionAction.cancel _ =
    fail ErrorKind.invalid_input "cancel is only valid for pending, running, or paused executions"

-- The second one.
unfoldable pub action_event : ExecutionAction → ControlEventType
action_event ExecutionAction.pause = ControlEventType.execution_paused
action_event ExecutionAction.resume = ControlEventType.execution_resumed
action_event ExecutionAction.cancel = ControlEventType.execution_canceled

abbrev pub with_status : ExecutionStatus → Execution → Execution
with_status status execution = record execution { status = status }

-- The event that follows those of the snapshot.
abbrev pub next_event : String → List ControlEventEnvelope → ControlEventType → ControlEventEnvelope
next_event execution_id events event_type = record {
  execution_id = execution_id;
  seq = add_u64 (length events) 1;
  event_type = event_type;
}

control_of : ExecutionStatus → ExecutionControl
control_of ExecutionStatus.pending = ExecutionControl.continue
control_of ExecutionStatus.running = ExecutionControl.continue
control_of ExecutionStatus.paused = ExecutionControl.paused
control_of ExecutionStatus.canceled = ExecutionControl.canceled
control_of ExecutionStatus.completed = ExecutionControl.canceled
control_of ExecutionStatus.failed = ExecutionControl.canceled

is_workable : ExecutionStatus → Bool
is_workable ExecutionStatus.pending = true
is_workable ExecutionStatus.running = true
is_workable _ = false

-- `to_vec_pretty` and `from_slice` of a specification; an error is its text.
pub record SpecTexts (F : Type 0) : Type 0 where
  pub spec_to_text : ExecutionSpec F → IoResult String String
  pub spec_from_text : String → IoResult String (ExecutionSpec F)

pub record PolicyPatch : Type 0 where
  pub max_iterations : Option ℕ
  pub max_concurrent_candidates : Option ℕ

patch_iterations : {F : Type 0} → Option ℕ → ExecutionSpec F → ExecutionSpec F
patch_iterations none spec = spec
patch_iterations (some n) spec = record spec {
  policy = record (spec.policy) {
    budget = record (spec.policy.budget) { max_iterations = some n };
  };
}

patch_concurrency : {F : Type 0} → Option ℕ → ExecutionSpec F → ExecutionSpec F
patch_concurrency none spec = spec
patch_concurrency (some n) spec = record spec {
  policy = record (spec.policy) { concurrency = record { max_concurrent_candidates = n } };
}

unfoldable pub patched : {F : Type 0} → PolicyPatch → ExecutionSpec F → ExecutionSpec F
unfolding patch_iterations patch_concurrency
patched patch spec =
    patch_concurrency patch.max_concurrent_candidates (patch_iterations patch.max_iterations spec)

-- `.map_err(InvalidInput)?`
validated : {F : Type 0} → Option String → ExecutionSpec F → Io (ExecutionSpec F)
validated none spec = IoResult.ok spec
validated (some message) spec = fail ErrorKind.invalid_input message

-- src/orchestration/store/fs.rs
module _ {D P H F : Type 0} (files : Files D P H) (spec_texts : SpecTexts F) where
  spec_path : String → P
  spec_path execution_id = files.join (execution_dir files execution_id) "spec.json"

  unfoldable pub save_spec : String → ExecutionSpec F → Act D (Unit {0})
  unfolding spec_path
  save_spec execution_id spec =
      files.create_dir_all (execution_dir files execution_id)
      >> (give (invalid_data (spec_texts.spec_to_text spec))
          >>= files.write (spec_path execution_id))

  unfoldable pub load_spec : String → D → Io (ExecutionSpec F)
  unfolding spec_path
  load_spec execution_id d =
      and_then (files.read_to_string (spec_path execution_id) d)
        (λ body. invalid_data (spec_texts.spec_from_text body))

  -- What follows the load of the specification that is patched.
  save_patched : String → PolicyPatch → GlobalConfig → ExecutionSpec F → Act D (ExecutionSpec F)
  unfolding validated
  save_patched execution_id patch global spec =
      give (validated (Spec.validate (patched patch spec) global) (patched patch spec)) >>= λ next.
      save_spec execution_id next >> give (IoResult.ok next)

module _ {D P H F : Type 0} (files : Files D P H) (texts : Texts F) where
  -- What follows the load: save the new status, and add its event to the log.
  update_loaded : String → ExecutionAction → ExecutionSnapshot F → Act D Execution
  update_loaded execution_id action snapshot =
      give (next_status action snapshot.execution.status) >>= λ next.
      save_execution files (with_status next snapshot.execution)
      >> (append_event files execution_id
            (next_event execution_id snapshot.events (action_event action))
          >> give (IoResult.ok (with_status next snapshot.execution)))

  unfoldable pub update_execution_status : String → ExecutionAction → Act D Execution
  unfolding update_loaded
  update_execution_status execution_id action d =
      then_act (load_execution files texts execution_id d, d) (update_loaded execution_id action)

  -- `append_event` of the service: the number is one more than that of the events that are there.
  unfoldable pub append_next_event : String → ControlEventType → Act D (Unit {0})
  append_next_event execution_id event_type d =
      then_act (load_execution files texts execution_id d, d)
        λ snapshot.
          append_event files execution_id (next_event execution_id snapshot.events event_type)

  -- The result of the refresh is not looked at.
  unfoldable pub check_execution_control : String → String → Act D ExecutionControl
  unfolding control_of
  check_execution_control execution_id worker_id d =
      let (refreshed, after) = refresh_claim files execution_id worker_id d in
      (
        map_ok (λ snapshot. control_of snapshot.execution.status)
            (load_execution files texts execution_id after),
        after,
      )

  module _ (spec_texts : SpecTexts F) where
    unfoldable pub submit_execution : String → ExecutionSpec F → Act D Execution
    submit_execution execution_id spec =
        create_execution files (new_execution execution_id spec.mode spec.goal)
        >> (append_event files execution_id
              (Events.new execution_id 1 ControlEventType.execution_created)
            >> (append_event files execution_id
                  (Events.new execution_id 2 ControlEventType.execution_submitted)
                >> (save_spec files spec_texts execution_id spec
                    >> give (IoResult.ok (new_execution execution_id spec.mode spec.goal)))))

    unfoldable pub load_workable_execution :
        String → String → D → Io (ExecutionSnapshot F × ExecutionSpec F)
    unfolding is_workable
    load_workable_execution execution_id invalid_message d =
        and_then (load_execution files texts execution_id d) λ snapshot.
          if is_workable snapshot.execution.status
          then map_ok (λ spec. (snapshot, spec)) (load_spec files spec_texts execution_id d)
          else fail ErrorKind.invalid_input invalid_message

    unfoldable pub patch_execution_policy :
        String → PolicyPatch → GlobalConfig → Act D (ExecutionSpec F)
    unfolding save_patched
    patch_execution_policy execution_id patch global d =
        then_act (load_execution files texts execution_id d, d)
          λ snapshot.
            if is_active snapshot.execution.status
            then (λ d.
                then_act (load_spec files spec_texts execution_id d, d)
                  (save_patched files spec_texts execution_id patch global))
            else give (
                fail ErrorKind.invalid_input
                  "policy updates are only valid for pending, running, or paused executions")
