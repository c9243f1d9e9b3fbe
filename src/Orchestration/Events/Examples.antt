-- ===== src/Orchestration/Events/Examples.antt =====
-- src/orchestration/events.rs: names and replays of concrete events.
use void_control.Base.{◌≡◌, ◌↔◌, refl, some, List, [], ◌∷◌, ℕ, ◌%◌, u32_mod}
use void_control.Orchestration.Types.{
  Execution, ExecutionStatus, new_execution, default_accumulator,
}
use void_control.Orchestration.Events.{
  ControlEventType, ControlEventEnvelope, ExecutionSnapshot, new, parse, as_str, replay, replay_all,
  replay_one,
}
use void_control.Orchestration.Events.Names.{parse_iff}
use void_control.Orchestration.Events.Replay.{
  replay_lem, status_or, last_status, count_events, is_scored, is_completed_iteration,
}

abbrev submitted : Execution
submitted = new_execution "exec-1" "swarm" "goal"

abbrev one_iteration : List ControlEventEnvelope
one_iteration =
    new "exec-1" 1 ControlEventType.execution_created
    ∷ new "exec-1" 2 ControlEventType.execution_submitted
    ∷ new "exec-1" 3 ControlEventType.execution_started
    ∷ new "exec-1" 4 ControlEventType.candidate_queued
    ∷ new "exec-1" 5 ControlEventType.candidate_scored
    ∷ new "exec-1" 6 ControlEventType.iteration_completed
    ∷ new "exec-1" 7 ControlEventType.execution_completed
    ∷ []

one_iteration_completes :
    let s : ExecutionSnapshot ℕ = replay submitted one_iteration in
    (s.execution.status ≡ ExecutionStatus.completed) × (s.accumulator.completed_iterations ≡ 1)
unfolding replay new new_execution replay_all replay_one default_accumulator
one_iteration_completes = (refl, refl)

parse_iff_example :
    (parse "MessageRouted" ≡ some ControlEventType.message_routed)
    ↔ ("MessageRouted" ≡ as_str ControlEventType.message_routed)
parse_iff_example = parse_iff "MessageRouted" ControlEventType.message_routed

replay_lem_example :
    let s : ExecutionSnapshot ℕ = replay submitted one_iteration in
    (s.execution
      ≡ record submitted { status = status_or (last_status one_iteration) submitted.status })
    × (s.accumulator ≡ record default_accumulator {
      scoring_history_len = count_events is_scored one_iteration % u32_mod;
      completed_iterations = count_events is_completed_iteration one_iteration % u32_mod;
    })
    × (s.events ≡ one_iteration)
    × (s.candidates ≡ [])
replay_lem_example = replay_lem ℕ submitted one_iteration
