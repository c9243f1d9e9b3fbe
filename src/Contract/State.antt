-- ===== src/Contract/State.antt =====
-- src/contract/state.rs: the states of a run and the moves between them.
pub mod Lifecycle
use void_control.Base.{Bool, true, false}

pub data RunState : Type 0 where
  pending starting running succeeded failed canceled : RunState

unfoldable pub is_terminal : RunState → Bool
is_terminal RunState.succeeded = true
is_terminal RunState.failed = true
is_terminal RunState.canceled = true
is_terminal _ = false

-- The derived `PartialEq`.
unfoldable pub state_eq : RunState → RunState → Bool
state_eq RunState.pending RunState.pending = true
state_eq RunState.starting RunState.starting = true
state_eq RunState.running RunState.running = true
state_eq RunState.succeeded RunState.succeeded = true
state_eq RunState.failed RunState.failed = true
state_eq RunState.canceled RunState.canceled = true
state_eq _ _ = false

unfoldable pub can_transition_to : RunState → RunState → Bool
unfolding state_eq
can_transition_to RunState.pending RunState.starting = true
can_transition_to RunState.starting RunState.running = true
can_transition_to RunState.running RunState.succeeded = true
can_transition_to RunState.running RunState.failed = true
can_transition_to RunState.running RunState.canceled = true
can_transition_to a b = state_eq a b
