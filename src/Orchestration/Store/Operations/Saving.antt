-- ===== src/Orchestration/Store/Operations/Saving.antt =====
-- src/orchestration/store/fs.rs: what is saved on a disk that does not fail is there to be loaded.
use void_control.Base.{
  ◌≡◌, ◌≢◌, refl, sym, ap, ◌∙◌, Option, none, some, String, List, [], ◌∷◌, ◌++◌, ◌&◌, All,
  All-append, append-nil, lines,
}
use text.Mathlib.TextLemmas
use void_control.Orchestration.Types.{Execution}
use void_control.Orchestration.Events.{ControlEventEnvelope}
use void_control.Orchestration.Store.{IoResult, and_then, map_ok}
use void_control.Orchestration.Store.Files.{Files}
use void_control.Orchestration.Store.Files.Working.{IsWorking}
use void_control.Orchestration.Store.Claims.{execution_dir}
use void_control.Orchestration.Store.Records.{
  Texts, execution_text, parse_execution, event_line, parse_events, parse_event_lines,
}
use void_control.Orchestration.Store.Records.Executions.{IsStorable, parse_execution-execution_text}
use void_control.Orchestration.Store.Records.EventLog.{
  IsLoggable, append_all, parse_events-append_all,
}
use void_control.Orchestration.Store.Operations.{
  save_execution, append_event, or_empty, execution_path, events_path,
}

-- The file of a log holds the events: there is no file before the first.
abbrev pub Holds : List ControlEventEnvelope → Option String → Type 0
Holds es none = es ≡ []
Holds es (some t) = t ≡ append_all "" es

append_all-last :
    (existing : String) (es : List ControlEventEnvelope) (e : ControlEventEnvelope)
    → append_all existing (es ++ e ∷ []) ≡ append_all existing es & event_line e
append_all-last existing [] e = refl
append_all-last existing (f ∷ es) e = append_all-last (existing & event_line f) es e

parse_events-all :
    (es : List ControlEventEnvelope) → All IsLoggable es → parse_events (append_all "" es) ≡ es
unfolding parse_events parse_event_lines lines
parse_events-all es h =
    ap parse_events (sym (TextLemmas.append-nil (append_all "" es)))
    ∙ parse_events-append_all es "" h
    ∙ append-nil es

module _ {D P H : Type 0} (files : Files D P H) (text_at : P → D → Option String)
    (works : IsWorking files text_at) where
  or_empty-Holds :
      (p : P) (d : D) (es : List ControlEventEnvelope)
      → Holds es (text_at p d)
      → or_empty (files.read_to_string p d) ≡ append_all "" es
  unfolding or_empty
  or_empty-Holds p d es h = by_file (text_at p d) refl h
    where
      by_file :
          (o : Option String)
          → text_at p d ≡ o
          → Holds es o
          → or_empty (files.read_to_string p d) ≡ append_all "" es
      by_file none e h = let (err, read, kind) = works.missing p d e in rw (read, h) refl
      by_file (some t) e h = rw (works.found p d t e) h

  -- On a disk that does not fail, an event is added behind the events that the log holds: the events
  -- that are then read from the file are those before it and the event, and no other file has
  -- changed. The log is as append_event writes it, and the ids of all the events hold no bar and no
  -- end of a line.
  pub append_event_lem :
      (id : String) (es : List ControlEventEnvelope) (e : ControlEventEnvelope) (d : D)
      → Holds es (text_at (events_path files id) d)
      → All IsLoggable es
      → IsLoggable e
      → (d' : D) × (append_event files id e d ≡ (IoResult.ok tt, d'))
        × (map_ok parse_events (files.read_to_string (events_path files id) d')
            ≡ IoResult.ok (es ++ e ∷ []))
        × Holds (es ++ e ∷ []) (text_at (events_path files id) d')
        × ((q : P) → q ≢ events_path files id → text_at q d' ≡ text_at q d)
  unfolding append_event
  append_event_lem id es e d h logged new =
      let path : P = events_path files id in
      let next : String = append_all "" (es ++ e ∷ []) in
      let (d1, wrote, there, others) = works.written_over path next d in
      let contents : or_empty (files.read_to_string path d) & event_line e ≡ next =
        ap (λ s. s & event_line e) (or_empty-Holds path d es h) ∙ sym (append_all-last "" es e) in
      (
        d1,
        ap (λ s. files.write path s d) contents ∙ wrote,
        rw (works.found path d1 next there) (
            ap IoResult.ok (
              parse_events-all (es ++ e ∷ [])
                (All-append IsLoggable es (e ∷ []) logged (new, tt)))),
        rw there refl,
        others,
      )

  pub save_execution-written :
      (e : Execution) (d : D)
      → (d' : D) × (save_execution files e d ≡ (IoResult.ok tt, d'))
        × (text_at (execution_path files e.execution_id) d' ≡ some (execution_text e))
        × ((q : P) → q ≢ execution_path files e.execution_id → text_at q d' ≡ text_at q d)
  unfolding save_execution
  save_execution-written e d =
      let path : P = execution_path files e.execution_id in
      let (d1, dir, same) = works.dir_made (execution_dir files e.execution_id) d in
      let (d2, wrote, there, others) = works.written_over path (execution_text e) d1 in
      (d2, rw (dir, wrote) refl, there, λ q apart. others q apart ∙ same q)

  pub parse_execution-saved :
      {F : Type 0} (texts : Texts F) (e : Execution) (p : P) (d : D)
      → IsStorable e
      → text_at p d ≡ some (execution_text e)
      → and_then (files.read_to_string p d) (parse_execution texts) ≡ IoResult.ok e
  parse_execution-saved texts e p d s there =
      rw (works.found p d (execution_text e) there) (parse_execution-execution_text texts e s)

  -- On a disk that does not fail, an execution whose texts are of one line each, whose numbers are
  -- of 32 bits and whose best candidate, if it has one, has an id that is not empty, is saved and is
  -- read back, and no other file has changed.
  pub save_execution_lem :
      {F : Type 0} (texts : Texts F) (e : Execution) (d : D)
      → IsStorable e
      → (d' : D) × (save_execution files e d ≡ (IoResult.ok tt, d'))
        × (and_then
              (files.read_to_string (execution_path files e.execution_id) d')
              (parse_execution texts)
            ≡ IoResult.ok e)
        × ((q : P) → q ≢ execution_path files e.execution_id → text_at q d' ≡ text_at q d)
  save_execution_lem texts e d s =
      let (d1, saved, there, others) = save_execution-written e d in
      (
        d1,
        saved,
        parse_execution-saved texts e (execution_path files e.execution_id) d1 s there,
        others,
      )
