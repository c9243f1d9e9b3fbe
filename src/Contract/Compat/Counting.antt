-- ===== src/Contract/Compat/Counting.antt =====
-- src/contract/compat.rs: what becomes of the events of a run.
use void_control.Base.{
  ℕ, ◌+◌, ◌≡◌, refl, arith, Option, none, some, is_some, true, List, [], ◌∷◌, All, length, String,
  subst,
}
use void_control.Contract.State.{RunState}
use void_control.Contract.Event.{
  EventType, EventEnvelope, EventSequenceTracker, observe_all, default,
}
use void_control.Contract.Event.Sequence.{IsStrictlyIncreasing, observe_all_iff}
use void_control.Contract.Error.{Result}
use void_control.Contract.Compat.{
  VoidBoxRunEventRaw, VoidBoxRunRaw, ConversionDiagnostics, ConvertedRunView, no_diagnostics,
  map_void_box_status, map_void_box_event_type, convert_events, convert_typed, convert_known,
  checked, converted, view_of, from_void_box_run, push_front, envelope, seq_of, count_fallback,
}

-- What the counts and the events amount to.
abbrev accounted : ConversionDiagnostics × List EventEnvelope → ℕ
accounted (diagnostics, events) =
    diagnostics.dropped_unknown_event_types + diagnostics.dropped_missing_run_id + length events

-- A loop that accounts for `n` events, and gives each the run's id.
abbrev Accounts :
    String
    → ℕ
    → (ConversionDiagnostics → Option ℕ → ConversionDiagnostics × List EventEnvelope)
    → Type 0
Accounts id n rest =
    (diagnostics : ConversionDiagnostics) (last : Option ℕ)
    → (accounted (rest diagnostics last)
        ≡ diagnostics.dropped_unknown_event_types + diagnostics.dropped_missing_run_id + n)
      × All (λ e. e.run_id ≡ id) (rest diagnostics last).1

module _ {F : Type 0} (float_text : F → String) where
  convert_known-Accounts :
      (id : String) (raw : VoidBoxRunEventRaw F) (t : EventType) (run_id : Option String) (n : ℕ)
      (rest : ConversionDiagnostics → Option ℕ → ConversionDiagnostics × List EventEnvelope)
      → Accounts id n rest
      → Accounts id
          (n + 1)
          (λ diagnostics last. convert_known float_text id raw t run_id diagnostics last rest)
  unfolding convert_known push_front envelope count_fallback
  convert_known-Accounts id raw t none n rest h d last =
      let next = h (record d { dropped_missing_run_id = d.dropped_missing_run_id + 1 }) last in
      (omega (arith, next.0), next.1)
  convert_known-Accounts id raw t (some run_id) n rest h d last =
      let next = h (count_fallback float_text raw.seq d) (some (seq_of float_text raw.seq last)) in
      let fact = by_seq raw.seq next.0 in (omega (arith, fact), (refl, next.1))
    where
      by_seq :
          (o : Option ℕ)
          → {m : ℕ}
          → m
            ≡ (count_fallback float_text o d).dropped_unknown_event_types
              + (count_fallback float_text o d).dropped_missing_run_id
              + n
          → m + 1 ≡ d.dropped_unknown_event_types + d.dropped_missing_run_id + (n + 1)
      by_seq none e = omega arith
      by_seq (some k) e = omega arith

  convert_typed-Accounts :
      (id : String) (raw : VoidBoxRunEventRaw F) (o : Option EventType) (n : ℕ)
      (rest : ConversionDiagnostics → Option ℕ → ConversionDiagnostics × List EventEnvelope)
      → Accounts id n rest
      → Accounts id
          (n + 1)
          (λ diagnostics last. convert_typed float_text id raw o diagnostics last rest)
  unfolding convert_typed
  convert_typed-Accounts id raw none n rest h d last =
      let next =
        h (record d { dropped_unknown_event_types = d.dropped_unknown_event_types + 1 }) last in
      (omega (arith, next.0), next.1)
  convert_typed-Accounts id raw (some t) n rest h d last =
      convert_known-Accounts id raw t raw.run_id n rest h d last

  convert_events-Accounts :
      (id : String) (raws : List (VoidBoxRunEventRaw F))
      → Accounts id (length raws) (convert_events float_text id raws)
  unfolding convert_events
  convert_events-Accounts id [] d last = (omega arith, tt)
  convert_events-Accounts id (raw ∷ raws) d last =
      let step =
        convert_typed-Accounts id raw (map_void_box_event_type raw.event_type) (length raws)
          (convert_events float_text id raws) (convert_events-Accounts id raws) d last in
      (omega (arith, step.0), step.1)

  -- What the conversion promises of its result.
  abbrev pub Converts : VoidBoxRunRaw F → ConvertedRunView → Type 0
  Converts run view =
      (accounted (view.diagnostics, view.events) ≡ length run.events)
      × All (λ e. e.run_id ≡ run.id) view.events
      × IsStrictlyIncreasing view.events
      × (map_void_box_status run.status ≡ some view.inspection.state)
      × (view.inspection.run_id ≡ run.id)

  -- A conversion that succeeds loses no event unseen: those that are kept and those that are counted
  -- as dropped, for an unknown type or for want of a run's id, are as many as void-box reported.
  -- Those that are kept carry the id of the run, their numbers rise strictly, and the state is that
  -- of the reported status.
  pub from_void_box_run_lem :
      (run : VoidBoxRunRaw F) (view : ConvertedRunView)
      → from_void_box_run float_text run ≡ Result.ok view
      → Converts run view
  unfolding from_void_box_run converted
  from_void_box_run_lem run view h = by_status (map_void_box_status run.status) refl h
    where
      by_tracker :
          (state : RunState) (tracker : Option EventSequenceTracker)
          → map_void_box_status run.status ≡ some state
          → observe_all default (convert_events float_text run.id run.events no_diagnostics none).1
            ≡ tracker
          → checked float_text tracker (
              view_of float_text run state
                (convert_events float_text run.id run.events no_diagnostics none))
            ≡ Result.ok view
          → Converts run view
      by_tracker state none status seen r = unfold checked in (cc r)
      by_tracker state (some tracker) status seen r =
          let same : view_of float_text run state
                (convert_events float_text run.id run.events no_diagnostics none)
              ≡ view =
            unfold checked in (cc r) in
          let counts = convert_events-Accounts run.id run.events no_diagnostics none in
          let passed : is_some (
                observe_all default
                  (convert_events float_text run.id run.events no_diagnostics none).1)
              ≡ true =
            rw seen refl in
          subst (Converts run) same (
            unfold view_of in
            (
              omega (arith, counts.0),
              counts.1,
              (observe_all_iff
                    (convert_events float_text run.id run.events no_diagnostics none).1).0
                  passed,
              status,
              refl,
            ))

      by_status :
          (o : Option RunState)
          → map_void_box_status run.status ≡ o
          → converted float_text run o ≡ Result.ok view
          → Converts run view
      by_status none status r = unfold converted in (cc r)
      by_status (some state) status r =
          by_tracker state
            (observe_all default
              (convert_events float_text run.id run.events no_diagnostics none).1)
            status refl (unfold converted in r)
