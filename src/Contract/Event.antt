-- ===== src/Contract/Event.antt =====
-- src/contract/event.rs: the events of a run, and the tracker of their sequence numbers.
pub mod Sequence
use void_control.Base.{
  ℕ, Bool, true, false, Option, none, some, String, List, [], ◌∷◌, leb, if◌then◌else◌,
}
use void_control.Base.Map.{Map}

pub data EventType : Type 0 where
  run_started stage_started stage_completed stage_failed micro_vm_spawned : EventType
  micro_vm_exited run_completed run_failed run_canceled : EventType

pub record EventEnvelope : Type 0 where
  pub event_id : String
  pub event_type : EventType
  pub run_id : String
  pub attempt_id : ℕ
  pub timestamp : String
  pub seq : ℕ
  pub payload : Map String

unfoldable pub is_terminal_type : EventType → Bool
is_terminal_type EventType.run_completed = true
is_terminal_type EventType.run_failed = true
is_terminal_type EventType.run_canceled = true
is_terminal_type _ = false

unfoldable pub is_terminal : EventEnvelope → Bool
unfolding is_terminal_type
is_terminal e = is_terminal_type e.event_type

-- `EventSequenceTracker`: the number seen last.
pub record EventSequenceTracker : Type 0 where
  pub last_seq : Option ℕ

unfoldable pub default : EventSequenceTracker
default = record { last_seq = none }

-- `observe`: the new tracker, or none for the error "event sequence must be strictly increasing".
unfoldable pub observe_after : Option ℕ → EventEnvelope → Option EventSequenceTracker
observe_after none e = some (record { last_seq = some e.seq })
observe_after (some last_seq) e =
    if leb e.seq last_seq then none else some (record { last_seq = some e.seq })

unfoldable pub observe : EventSequenceTracker → EventEnvelope → Option EventSequenceTracker
unfolding observe_after
observe t e = observe_after t.last_seq e

-- The loop of `from_void_box_run` that observes each event in turn.
unfoldable pub observe_all : EventSequenceTracker → List EventEnvelope → Option EventSequenceTracker
observe_all t [] = some t
observe_all t (e ∷ es) = elim (observe t e) [ none ↦ none | some t' ↦ observe_all t' es ]
