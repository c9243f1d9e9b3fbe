-- ===== src/Orchestration/Events/Names.antt =====
-- src/orchestration/events.rs: the names of the control events.
use void_control.Base.{
  ◌≡◌, refl, ◌↔◌, ◌∙◌, sym, Option, none, some, String, List, [], ◌∷◌, arith, str_eq, str_eq_iff,
  if◌then◌else◌, All,
}
use void_control.Orchestration.Events.{ControlEventType, as_str, parse}

parse-as_str : (t : ControlEventType) → parse (as_str t) ≡ some t
unfolding parse as_str
parse-as_str ControlEventType.execution_created = refl
parse-as_str _ = refl

-- The arms of `parse`, in order.
abbrev arms : List (String × ControlEventType)
arms =
    ("ExecutionCreated", ControlEventType.execution_created)
    ∷ ("ExecutionSubmitted", ControlEventType.execution_submitted)
    ∷ ("ExecutionStarted", ControlEventType.execution_started)
    ∷ ("IterationStarted", ControlEventType.iteration_started)
    ∷ ("SupervisorAssigned", ControlEventType.supervisor_assigned)
    ∷ ("CandidateQueued", ControlEventType.candidate_queued)
    ∷ ("CandidateDispatched", ControlEventType.candidate_dispatched)
    ∷ ("CandidateOutputCollected", ControlEventType.candidate_output_collected)
    ∷ ("WorkerQueued", ControlEventType.worker_queued)
    ∷ ("ReviewRequested", ControlEventType.review_requested)
    ∷ ("WorkerApproved", ControlEventType.worker_approved)
    ∷ ("RevisionRequested", ControlEventType.revision_requested)
    ∷ ("CandidateScored", ControlEventType.candidate_scored)
    ∷ ("IterationCompleted", ControlEventType.iteration_completed)
    ∷ ("ExecutionFinalized", ControlEventType.execution_finalized)
    ∷ ("ExecutionCompleted", ControlEventType.execution_completed)
    ∷ ("ExecutionFailed", ControlEventType.execution_failed)
    ∷ ("ExecutionPaused", ControlEventType.execution_paused)
    ∷ ("ExecutionResumed", ControlEventType.execution_resumed)
    ∷ ("ExecutionCanceled", ControlEventType.execution_canceled)
    ∷ ("ExecutionStalled", ControlEventType.execution_stalled)
    ∷ ("CommunicationIntentEmitted", ControlEventType.communication_intent_emitted)
    ∷ ("CommunicationIntentRejected", ControlEventType.communication_intent_rejected)
    ∷ ("MessageRouted", ControlEventType.message_routed)
    ∷ ("MessageDelivered", ControlEventType.message_delivered)
    ∷ ("MessageExpired", ControlEventType.message_expired)
    ∷ []

first_arm : String → List (String × ControlEventType) → Option ControlEventType
first_arm s [] = none
first_arm s ((n, t) ∷ l) = if str_eq s n then some t else first_arm s l

parse-eq-first_arm : (s : String) → parse s ≡ first_arm s arms
unfolding parse first_arm
parse-eq-first_arm s = refl

arms_named : All (λ a. as_str a.1 ≡ a.0) arms
unfolding as_str
arms_named = ground arith

first_arm_named :
    (s : String) (t : ControlEventType) (l : List (String × ControlEventType))
    → All (λ a. as_str a.1 ≡ a.0) l
    → first_arm s l ≡ some t
    → as_str t ≡ s
unfolding first_arm
first_arm_named s t [] a h = cc
first_arm_named s t ((n, u) ∷ l) a h = ground (arith, str_eq_iff s n, first_arm_named s t l a.1)

as_str_of_parse : (s : String) (t : ControlEventType) → parse s ≡ some t → as_str t ≡ s
as_str_of_parse s t h = first_arm_named s t arms arms_named (sym (parse-eq-first_arm s) ∙ h)

-- A text is parsed to an event type exactly when it is the name of that type. So every type has
-- its own name, and no other text is accepted.
pub parse_iff : (s : String) (t : ControlEventType) → (parse s ≡ some t) ↔ (s ≡ as_str t)
parse_iff s t = (λ h. sym (as_str_of_parse s t h), λ e. rw e (parse-as_str t))
