-- ===== src/Runtime/Mock/Requests/Invariant.antt =====
-- src/runtime/mock.rs: what holds of every run, and what stopping and starting again do.
use void_control.Base.{
  ◌≡◌, refl, sym, ap, ◌∙◌, subst, ◌⊎◌, inl, inr, Bool, Bool-cases, true, false, Option, none, some,
  Option-cases, is_some, String, List, [], ◌∷◌, ◌++◌, find, All, All-append, str_eq, arith,
}
use void_control.Base.Map.{get}
use void_control.Contract.State.{RunState, is_terminal}
use void_control.Contract.Event.{EventEnvelope, EventType, default, observe_all, is_terminal_type}
use void_control.Contract.Event
use void_control.Contract.Event.Sequence.{observe_all_iff}
use void_control.Contract.Policy.{validate}
use void_control.Contract.Api.{StartRequest, StopRequest}
use void_control.Runtime.Mock.{
  MockRuntime, RunRecord, SeededOutcome, new_run, push_event, next_event_id, play_outcome, fail_run,
  first_record, start, start_valid, start_found,
}
use void_control.Runtime.Mock.Requests.{update_run, cancel_run, find_run, stop, stop_found, seed}

-- A run that goes on has its first event only; one that has ended has a terminal event behind it.
pub record Started (r : RunRecord) : Type 0 where
  pub first : EventEnvelope
  pub state : r.state ≡ RunState.running
  pub events : r.events ≡ first ∷ []
  pub seq : first.seq ≡ 1
  pub quiet : Event.is_terminal first ≡ false
  pub next : r.next_seq ≡ 2

pub record Ended (r : RunRecord) : Type 0 where
  pub first : EventEnvelope
  pub last : EventEnvelope
  pub state : is_terminal r.state ≡ true
  pub events : r.events ≡ first ∷ last ∷ []
  pub seq : first.seq ≡ 1
  pub last_seq : last.seq ≡ 2
  pub quiet : Event.is_terminal first ≡ false
  pub terminal : Event.is_terminal last ≡ true

abbrev pub IsRun : RunRecord → Type 0
IsRun r = Started r ⊎ Ended r

-- The event that is pushed next.
abbrev pub event_of : EventType → String → RunRecord → EventEnvelope
event_of t now r = record {
  event_id = next_event_id r;
  event_type = t;
  run_id = r.run_id;
  attempt_id = r.attempt_id;
  timestamp = now;
  seq = r.next_seq;
  payload = [];
}

push_event-Started :
    (run_id created now : String)
    → Started (push_event EventType.run_started [] now (new_run run_id created))
unfolding push_event new_run Event.is_terminal
push_event-Started run_id created now = record {
  first = event_of EventType.run_started now (new_run run_id created);
  state = refl;
  events = refl;
  seq = refl;
  quiet = refl;
  next = refl;
}

-- A terminal event ends a run that goes on.
push_event-Ended :
    (t : EventType) (now : String) (r : RunRecord) (e : EventEnvelope)
    → r.events ≡ e ∷ []
    → e.seq ≡ 1
    → Event.is_terminal e ≡ false
    → r.next_seq ≡ 2
    → is_terminal r.state ≡ true
    → is_terminal_type t ≡ true
    → Ended (push_event t [] now r)
unfolding push_event Event.is_terminal
push_event-Ended t now r e events seq quiet next state terminal = record {
  first = e;
  last = event_of t now r;
  state = state;
  events = ap (λ l. l ++ event_of t now r ∷ []) events;
  seq = seq;
  last_seq = next;
  quiet = quiet;
  terminal = terminal;
}

pub cancel_run-Ended :
    (reason now : String) (r : RunRecord) → Started r → Ended (cancel_run reason now r)
unfolding cancel_run is_terminal is_terminal_type
cancel_run-Ended reason now r s =
    push_event-Ended EventType.run_canceled now
      (record r { state = RunState.canceled; terminal_reason = some reason; exit_code = some 130 })
      s.first s.events s.seq s.quiet s.next refl refl

play_outcome-IsRun :
    {F V : Type 0} (o : Option (SeededOutcome F V)) (now : String) (r : RunRecord)
    → Started r
    → IsRun (play_outcome o now r)
unfolding play_outcome fail_run is_terminal is_terminal_type
play_outcome-IsRun {F} {V} o now r s = go o
  where
    completed :
        Ended (push_event EventType.run_completed [] now (record r { state = RunState.succeeded }))
    completed =
        push_event-Ended EventType.run_completed now (record r { state = RunState.succeeded })
          s.first s.events s.seq s.quiet s.next refl refl

    failed : (reason : String) → Ended (fail_run reason now r)
    failed reason =
        push_event-Ended EventType.run_failed now
          (record r { state = RunState.failed; exit_code = some 1; terminal_reason = some reason })
          s.first s.events s.seq s.quiet s.next refl refl

    go : (p : Option (SeededOutcome F V)) → IsRun (play_outcome p now r)
    go none = inl s
    go (some (SeededOutcome.success output)) = inr completed
    go (some SeededOutcome.missing_output) = inr completed
    go (some SeededOutcome.malformed_output) = inr (failed "malformed structured output")
    go (some SeededOutcome.failure) = inr (failed "seeded failure")

update_run-All :
    (P : RunRecord → Type 0) (handle : String) (f : RunRecord → RunRecord) (rs : List RunRecord)
    (r : RunRecord)
    → find (λ x. str_eq x.handle handle) rs ≡ some r
    → P (f r)
    → All P rs
    → All P (update_run handle f rs)
unfolding update_run
update_run-All P handle f [] r e p a = tt
update_run-All P handle f (x ∷ rs) r e p a = elim (Bool-cases (str_eq x.handle handle)) [
  | inl b ↦ let same : x ≡ r = ground arith in rw b (subst (λ y. P (f y)) (sym same) p, a.1)
  | inr b ↦ rw b (a.0, update_run-All P handle f rs r (ground arith) p a.1)
]

pub find-All :
    (P : RunRecord → Type 0) (p : RunRecord → Bool) (rs : List RunRecord) (r : RunRecord)
    → find p rs ≡ some r
    → All P rs
    → P r × (p r ≡ true)
find-All P p [] r e a = cc
find-All P p (x ∷ rs) r e a = elim (Bool-cases (p x)) [
  | inl b ↦ let same : x ≡ r = ground arith in (subst P same a.0, ap p (sym same) ∙ b)
  | inr b ↦ find-All P p rs r (ground arith) a.1
]

tracked : (r : RunRecord) → IsRun r → is_some (observe_all default r.events) ≡ true
tracked r (inl s) = rw s.events ((observe_all_iff (s.first ∷ [])).1 (tt, tt))
tracked r (inr n) =
    rw n.events (
      (observe_all_iff (n.first ∷ n.last ∷ [])).1
        ((omega (arith, n.seq, n.last_seq), tt), (tt, tt)))

module _ {F V : Type 0} where
  -- The runtimes that come about by starting and stopping runs and seeding outcomes.
  pub data Reach : MockRuntime F V → Type 0 where
    fresh : Reach (record { runs = []; seeded = [] })
    starts :
        {rt : MockRuntime F V} (request : StartRequest) (created begun finished : String)
        → Reach rt
        → Reach (start rt request created begun finished).0
    stops :
        {rt : MockRuntime F V} (request : StopRequest) (now : String)
        → Reach rt
        → Reach (stop rt request now).0
    seeds :
        {rt : MockRuntime F V} (run_id : String) (outcome : SeededOutcome F V)
        → Reach rt
        → Reach (seed rt run_id outcome)

  start_found-IsRun :
      (rt : MockRuntime F V) (q : StartRequest) (c b f : String) (o : Option RunRecord)
      → All IsRun rt.runs
      → All IsRun (start_found rt q c b f o).0.runs
  unfolding start_found first_record
  start_found-IsRun rt q c b f none a =
      All-append IsRun rt.runs (first_record rt q.run_id c b f ∷ []) a (
        play_outcome-IsRun (get q.run_id rt.seeded) f
            (push_event EventType.run_started [] b (new_run q.run_id c))
            (push_event-Started q.run_id c b),
        tt,
      )
  start_found-IsRun rt q c b f (some r) a = ground arith

  start-IsRun :
      (rt : MockRuntime F V) (q : StartRequest) (c b f : String)
      → All IsRun rt.runs
      → All IsRun (start rt q c b f).0.runs
  unfolding start start_valid
  start-IsRun rt q c b f a = elim (Option-cases (validate q.policy)) [
    | inl e ↦ rw e (start_found-IsRun rt q c b f (find (λ r. str_eq r.run_id q.run_id) rt.runs) a)
    | inr (m, e) ↦ rw e a
  ]

  stop_found-IsRun :
      (rt : MockRuntime F V) (q : StopRequest) (now : String) (o : Option RunRecord)
      → find_run rt q.handle ≡ o
      → All IsRun rt.runs
      → All IsRun (stop_found rt q now o).0.runs
  unfolding stop_found find_run
  stop_found-IsRun rt q now none e a = a
  stop_found-IsRun rt q now (some r) e a =
      elim (find-All IsRun (λ x. str_eq x.handle q.handle) rt.runs r e a).0 [
        | inr n ↦ rw n.state a
        | inl s ↦
            unfold is_terminal in
            rw s.state (
              update_run-All IsRun q.handle (cancel_run q.reason now) rt.runs r e
                (inr (cancel_run-Ended q.reason now r s)) a)
      ]

  -- Every run of a reachable runtime either goes on with its first event only, or has ended with a
  -- terminal event behind the first; the events are numbered 1 and 2.
  pub Reach-IsRun : (rt : MockRuntime F V) → Reach rt → All IsRun rt.runs
  unfolding stop seed
  Reach-IsRun rt fresh = tt
  Reach-IsRun rt (starts {rt = r} q c b f h) = start-IsRun r q c b f (Reach-IsRun r h)
  Reach-IsRun rt (stops {rt = r} q now h) =
      stop_found-IsRun r q now (find_run r q.handle) refl (Reach-IsRun r h)
  Reach-IsRun rt (seeds {rt = r} run_id outcome h) = Reach-IsRun r h

  -- The tracker of sequence numbers lets the events of every run of a reachable runtime pass.
  pub Reach-tracked :
      (rt : MockRuntime F V)
      → Reach rt
      → All (λ r. is_some (observe_all default r.events) ≡ true) rt.runs
  Reach-tracked rt h = all rt.runs (Reach-IsRun rt h)
    where
      all :
          (rs : List RunRecord)
          → All IsRun rs
          → All (λ r. is_some (observe_all default r.events) ≡ true) rs
      all [] a = tt
      all (r ∷ rs) a = (tracked r a.0, all rs a.1)
