-- ===== src/Runtime/Mock/Requests/Stopping.antt =====
-- src/runtime/mock.rs: what stopping a run does, once and again.
use void_control.Base.{
  ◌≡◌, refl, sym, ap, ◌∙◌, subst, inl, inr, Bool-cases, true, false, some, String, List, [], ◌∷◌,
  find, In, str_eq, arith,
}
use void_control.Contract.State.{is_terminal}
use void_control.Contract.Event.{EventEnvelope, EventType, is_terminal_type}
use void_control.Contract.Event
use void_control.Contract.Error.{Result, ok}
use void_control.Contract.Api.{StopRequest, StopResult}
use void_control.Runtime.Mock.{MockRuntime, RunRecord, push_event}
use void_control.Runtime.Mock.Requests.{
  update_run, cancel_run, terminal_event_id, id_or_missing, find_run, stop, stop_found,
}
use void_control.Runtime.Mock.Requests.Invariant.{
  Ended, IsRun, Reach, stops, Reach-IsRun, event_of, find-All,
}

find-update_run :
    (handle : String) (f : RunRecord → RunRecord) (rs : List RunRecord) (r : RunRecord)
    → find (λ x. str_eq x.handle handle) rs ≡ some r
    → ((x : RunRecord) → (f x).handle ≡ x.handle)
    → find (λ x. str_eq x.handle handle) (update_run handle f rs) ≡ some (f r)
unfolding update_run
find-update_run handle f [] r e k = cc
find-update_run handle f (x ∷ rs) r e k = elim (Bool-cases (str_eq x.handle handle)) [
  | inl b ↦
      let same : x ≡ r = ground arith in
      let there : str_eq (f x).handle handle ≡ true = ap (λ h. str_eq h handle) (k x) ∙ b in
      rw b (rw there (ap (λ y. some (f y)) same))
  | inr b ↦ rw b (rw b (find-update_run handle f rs r (ground arith) k))
]

terminal_event_id-Ended : (r : RunRecord) (n : Ended r) → terminal_event_id r ≡ n.last.event_id
unfolding terminal_event_id id_or_missing
terminal_event_id-Ended r n = rw (n.events, n.terminal) refl

-- The only terminal event of a run that has ended is its last one.
last_terminal :
    (r : RunRecord) (e : EventEnvelope)
    → IsRun r
    → is_terminal r.state ≡ true
    → In e r.events
    → Event.is_terminal e ≡ true
    → terminal_event_id r ≡ e.event_id
last_terminal r e (inl s) t i ends = absurd (unfold is_terminal in ground (arith, s.state))
last_terminal r e (inr n) t i ends =
    terminal_event_id-Ended r n ∙ ap (λ x. x.event_id) (same (subst (In e) n.events i))
  where
    same : In e (n.first ∷ n.last ∷ []) → n.last ≡ e
    same (inl p) = absurd (ground (arith, n.quiet, ap Event.is_terminal p))
    same (inr (inl p)) = p
    same (inr (inr p)) = absurd p.0

module _ {F V : Type 0} where
  -- What is known of a runtime whose run is stopped: the answer is the state of the run, which is
  -- terminal, and the id of a terminal event of the run.
  abbrev pub HasStopped : MockRuntime F V → String → Result StopResult → Type 0
  HasStopped rt handle answer =
      (r : RunRecord) × (e : EventEnvelope) × (find_run rt handle ≡ some r)
      × (is_terminal r.state ≡ true)
      × In e r.events
      × (Event.is_terminal e ≡ true)
      × (answer ≡ ok (record { state = r.state; terminal_event_id = e.event_id }))

  stop_found-HasStopped :
      (rt : MockRuntime F V) (q : StopRequest) (now : String) (r : RunRecord)
      → find_run rt q.handle ≡ some r
      → IsRun r
      → HasStopped (stop_found rt q now (some r)).0 q.handle (stop_found rt q now (some r)).1
  unfolding stop_found
  stop_found-HasStopped rt q now r e (inr n) = rw n.state (
    r,
    n.last,
    e,
    n.state,
    rw n.events (inr (inl refl)),
    n.terminal,
    ap (λ id. ok (record { state = r.state; terminal_event_id = id }))
        (terminal_event_id-Ended r n),
  )
  stop_found-HasStopped rt q now r e (inl s) =
      let going : is_terminal r.state ≡ false = unfold is_terminal in rw s.state refl in
      let last = event_of EventType.run_canceled now r in
      rw going (
        cancel_run q.reason now r,
        last,
        (unfold find_run cancel_run push_event in
            find-update_run q.handle (cancel_run q.reason now) rt.runs r e (λ x. refl)),
        (unfold cancel_run push_event is_terminal in refl),
        (unfold cancel_run push_event in rw s.events (inr (inl refl))),
        (unfold Event.is_terminal is_terminal_type in refl),
        (unfold cancel_run push_event in refl),
      )

  -- In a reachable runtime, stopping a run that is there always succeeds: afterwards the run is in a
  -- terminal state, and the answer is that state and the id of a terminal event of the run.
  pub stop-HasStopped :
      (rt : MockRuntime F V) (q : StopRequest) (now : String) (r : RunRecord)
      → Reach rt
      → find_run rt q.handle ≡ some r
      → HasStopped (stop rt q now).0 q.handle (stop rt q now).1
  unfolding stop
  stop-HasStopped rt q now r h e =
      let run : IsRun r =
        unfold find_run in
        (find-All IsRun (λ x. str_eq x.handle q.handle) rt.runs r e (Reach-IsRun rt h)).0 in
      rw e (stop_found-HasStopped rt q now r e run)

  stop_found-again :
      (rt : MockRuntime F V) (q : StopRequest) (now : String) (r : RunRecord)
      → is_terminal r.state ≡ true
      → stop_found rt q now (some r)
        ≡ (rt, ok (record { state = r.state; terminal_event_id = terminal_event_id r }))
  unfolding stop_found
  stop_found-again rt q now r t = rw t refl

  -- In a reachable runtime, stopping a run that is there a second time, for whatever reason and
  -- whenever, changes nothing and gives the first answer again.
  pub stop_twice :
      (rt : MockRuntime F V) (q again : StopRequest) (now later : String) (r : RunRecord)
      → Reach rt
      → find_run rt q.handle ≡ some r
      → again.handle ≡ q.handle
      → stop (stop rt q now).0 again later ≡ stop rt q now
  unfolding stop
  stop_twice rt q again now later r h e same =
      let (r', last, found, terminal, there, ends, answer) = stop-HasStopped rt q now r h e in
      let found_again : find_run (stop rt q now).0 again.handle ≡ some r' =
        ap (find_run (stop rt q now).0) same ∙ found in
      let run : IsRun r' =
        unfold find_run in
        (find-All IsRun (λ x. str_eq x.handle q.handle) (stop rt q now).0.runs r' found
          (Reach-IsRun (stop rt q now).0 (stops q now h))).0 in
      ap (stop_found (stop rt q now).0 again later) found_again
      ∙ stop_found-again (stop rt q now).0 again later r' terminal
      ∙ ap (λ id. ((stop rt q now).0, ok (record { state = r'.state; terminal_event_id = id })))
          (last_terminal r' last run terminal there ends)
      ∙ ap (λ a. ((stop rt q now).0, a)) (sym answer)
