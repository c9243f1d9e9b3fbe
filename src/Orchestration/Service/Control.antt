-- ===== src/Orchestration/Service/Control.antt =====
-- src/orchestration/service.rs: pausing, resuming and canceling keep the saved status and the event log together.
use void_control.Base.{
  ◌≡◌, ◌≢◌, refl, sym, ap, ◌∙◌, arith, String, List, [], ◌∷◌, ◌++◌, All, Option, some, subst,
}
use void_control.Orchestration.Types.{Execution, ExecutionStatus}
use void_control.Orchestration.Events.{
  ControlEventEnvelope, ExecutionSnapshot, Replayed, replay_one, replay_all,
}
use void_control.Orchestration.Store.{IoResult, IoError, and_then, map_ok}
use void_control.Orchestration.Store.Files.{Files}
use void_control.Orchestration.Store.Files.Working.{IsWorking}
use void_control.Orchestration.Store.Records.{Texts, execution_text, parse_execution, parse_events}
use void_control.Orchestration.Store.Records.Executions.{IsStorable}
use void_control.Orchestration.Store.Records.EventLog.{IsLoggable}
use void_control.Orchestration.Store.Operations.{
  load_execution, save_execution, append_event, execution_path, events_path,
}
use void_control.Orchestration.Store.Operations.Saving.{
  Holds, append_event_lem, save_execution-written, parse_execution-saved,
}
use void_control.Orchestration.Service.{
  ExecutionAction, next_status, action_event, with_status, next_event, update_loaded,
  update_execution_status,
}

replay_all-append :
    (es fs : List ControlEventEnvelope) (r : Replayed)
    → replay_all (es ++ fs) r ≡ replay_all fs (replay_all es r)
unfolding replay_all
replay_all-append [] fs r = refl
replay_all-append (e ∷ es) fs r = replay_all-append es fs (replay_one e.event_type r)

replayed_status :
    (action : ExecutionAction) (from to : ExecutionStatus) (r : Replayed)
    → next_status action from ≡ IoResult.ok to
    → (replay_one (action_event action) r).execution.status ≡ to
unfolding next_status action_event replay_one
replayed_status ExecutionAction.pause ExecutionStatus.running to r h = ground arith
replayed_status ExecutionAction.resume ExecutionStatus.paused to r h = ground arith
replayed_status ExecutionAction.cancel ExecutionStatus.running to r h = ground arith
replayed_status ExecutionAction.cancel ExecutionStatus.paused to r h = ground arith
replayed_status ExecutionAction.cancel ExecutionStatus.pending to r h = ground arith
replayed_status _ _ to r h = ground arith

module _ {D P H F : Type 0} (files : Files D P H) (texts : Texts F) where
  -- An action that the status does not allow leaves the disk as it is.
  pub update_execution_status-refused :
      (id : String) (action : ExecutionAction) (d : D) (s : ExecutionSnapshot F) (e : IoError)
      → load_execution files texts id d ≡ IoResult.ok s
      → next_status action s.execution.status ≡ IoResult.err e
      → update_execution_status files texts id action d ≡ (IoResult.err e, d)
  unfolding update_execution_status update_loaded
  update_execution_status-refused id action d s e loaded refused = rw (loaded, refused) refl

  -- On a disk that does not fail, an action that `next_status` allows for the status of the loaded
  -- execution (to cancel is allowed of a pending one too) ends well: the file of the execution then
  -- holds it with the next status, the log holds one more event, and the status to which any replay
  -- of that log comes is the one that was saved. The loaded execution has the id under which it was
  -- loaded, its texts are of one line each, its numbers of 32 bits and the id of its best
  -- candidate not empty, the log is as append_event writes it, its events and the new one can be
  -- read back, and the two files are not the same.
  pub update_execution_status_lem :
      (text_at : P → D → Option String) (works : IsWorking files text_at) (id : String)
      (action : ExecutionAction) (d : D) (s : ExecutionSnapshot F) (to : ExecutionStatus)
      (r : Replayed)
      → load_execution files texts id d ≡ IoResult.ok s
      → s.execution.execution_id ≡ id
      → next_status action s.execution.status ≡ IoResult.ok to
      → IsStorable (with_status to s.execution)
      → Holds s.events (text_at (events_path files id) d)
      → All IsLoggable s.events
      → IsLoggable (next_event id s.events (action_event action))
      → execution_path files id ≢ events_path files id
      → (d' : D) × (es : List ControlEventEnvelope) × (update_execution_status files texts id action
            d
          ≡ (IoResult.ok (with_status to s.execution), d'))
        × (and_then (files.read_to_string (execution_path files id) d') (parse_execution texts)
            ≡ IoResult.ok (with_status to s.execution))
        × (map_ok parse_events (files.read_to_string (events_path files id) d') ≡ IoResult.ok es)
        × (es ≡ s.events ++ next_event id s.events (action_event action) ∷ [])
        × ((replay_all es r).execution.status ≡ to)
  update_execution_status_lem text_at works id action d s to r loaded same allowed storable holds
        logged new apart =
      let e : Execution = with_status to s.execution in
      let event : ControlEventEnvelope = next_event id s.events (action_event action) in
      let path : execution_path files e.execution_id ≡ execution_path files id =
        ap (execution_path files) same in
      let (d1, saved, there, others) = save_execution-written files text_at works e d in
      let log : Holds s.events (text_at (events_path files id) d1) =
        subst (Holds s.events) (sym (others (events_path files id) (λ q. apart (sym path ∙ sym q))))
          holds in
      let (d2, added, read, held, kept) =
        append_event_lem files text_at works id s.events event d1 log logged new in
      let still : text_at (execution_path files id) d2 ≡ some (execution_text e) =
        kept (execution_path files id) apart ∙ ap (λ p. text_at p d1) (sym path) ∙ there in
      (
        d2,
        s.events ++ event ∷ [],
        ends loaded allowed saved added,
        parse_execution-saved files text_at works texts e (execution_path files id) d2 storable
            still,
        read,
        refl,
        ap (λ (x : Replayed). x.execution.status) (replay_all-append s.events (event ∷ []) r)
            ∙ unfold replay_all in
              (replayed_status action s.execution.status to (replay_all s.events r) allowed),
      )
    where
      ends :
          {d1 d2 : D}
          → load_execution files texts id d ≡ IoResult.ok s
          → next_status action s.execution.status ≡ IoResult.ok to
          → save_execution files (with_status to s.execution) d ≡ (IoResult.ok tt, d1)
          → append_event files id (next_event id s.events (action_event action)) d1
            ≡ (IoResult.ok tt, d2)
          → update_execution_status files texts id action d
            ≡ (IoResult.ok (with_status to s.execution), d2)
      ends l n w a = unfold update_execution_status update_loaded in (rw (l, n, w, a) refl)
