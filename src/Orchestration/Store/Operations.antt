-- ===== src/Orchestration/Store/Operations.antt =====
-- src/orchestration/store/fs.rs: the records of an execution on the disk, one directory for each execution.
-- `F` is the type of `f64`.
pub mod Listing
pub mod Saving
use void_control.Base.{
  ℕ, Bool, true, false, Option, none, some, String, List, [], ◌∷◌, ◌&◌, ◌==◌, ltb, if◌then◌else◌,
  sort_by, compare_text, Ordering, ◌||◌,
}
use void_control.Orchestration.Types.{
  Execution, ExecutionStatus, ExecutionAccumulator, ExecutionCandidate, default_accumulator,
}
use void_control.Orchestration.Events.{ControlEventEnvelope, ExecutionSnapshot}
use void_control.Orchestration.Store
use void_control.Orchestration.Store.{
  IoResult, Io, IoError, ErrorKind, map_ok, and_then, ExecutionStore, is_not_found,
}
use void_control.Orchestration.Store.Files.{
  Files, FileKind, Entry, Act, then_act, ◌>>=◌, ◌>>◌, give,
}
use void_control.Orchestration.Store.Records.{
  Texts, execution_text, event_line, parse_events, parse_execution, accumulator_text,
  parse_accumulator,
}
use void_control.Orchestration.Store.Candidates.{candidate_file, candidate_text, parse_candidate}
use void_control.Orchestration.Store.Claims.{execution_dir}

-- `Err(err) if err.kind() == NotFound => Ok(otherwise)`
abbrev pub or_missing : {A : Type 0} → A → Io A → Io A
or_missing otherwise (IoResult.ok a) = IoResult.ok a
or_missing otherwise (IoResult.err e) =
    if is_not_found e.kind then IoResult.ok otherwise else IoResult.err e

-- The statuses that `list_active_execution_ids` looks for.
abbrev pub is_active : ExecutionStatus → Bool
is_active ExecutionStatus.pending = true
is_active ExecutionStatus.running = true
is_active ExecutionStatus.paused = true
is_active _ = false

abbrev is_file : FileKind → Bool
is_file FileKind.is_file = true
is_file _ = false

abbrev is_dir : FileKind → Bool
is_dir FileKind.is_dir = true
is_dir _ = false

later_seq : {F : Type 0} → ExecutionCandidate F → ExecutionCandidate F → Bool
later_seq x y = ltb y.created_seq x.created_seq

later_text : String → String → Bool
later_text x y = elim (compare_text x y) [ Ordering.gt ↦ true | _ ↦ false ]

-- `unwrap_or_default()`: whatever the error is
or_empty : Io String → String
or_empty (IoResult.ok contents) = contents
or_empty (IoResult.err e) = ""

module _ {D P H : Type 0} (files : Files D P H) where
  abbrev pub execution_path : String → P
  execution_path execution_id = files.join (execution_dir files execution_id) "execution.txt"

  abbrev pub events_path : String → P
  events_path execution_id = files.join (execution_dir files execution_id) "events.log"

  abbrev pub accumulator_path : String → P
  accumulator_path execution_id = files.join (execution_dir files execution_id) "accumulator.txt"

  abbrev pub candidates_dir : String → P
  candidates_dir execution_id = files.join (execution_dir files execution_id) "candidates"

  unfoldable pub save_execution : Execution → Act D (Unit {0})
  save_execution execution =
      files.create_dir_all (execution_dir files execution.execution_id)
      >> files.write (execution_path execution.execution_id) (execution_text execution)

  unfoldable pub create_execution : Execution → Act D (Unit {0})
  create_execution execution =
      files.create_dir_all (execution_dir files execution.execution_id) >> save_execution execution

  unfoldable pub append_event : String → ControlEventEnvelope → Act D (Unit {0})
  unfolding or_empty
  append_event execution_id event d =
      files.write (events_path execution_id)
        (or_empty (files.read_to_string (events_path execution_id) d) & event_line event) d

  remove_of_iteration : {F : Type 0} → ℕ → P → ExecutionCandidate F → Act D (Unit {0})
  remove_of_iteration iteration path candidate =
      if candidate.iteration == iteration then files.remove_file path else give (IoResult.ok tt)

  push_dir : Io (List String) → Entry P → Io (List String)
  push_dir more entry =
      and_then entry.file_type
        (λ kind. if is_dir kind then map_ok (◌∷◌ entry.file_name) more else more)

  dir_names : List (Io (Entry P)) → Io (List String)
  unfolding push_dir
  dir_names [] = IoResult.ok []
  dir_names (entry ∷ entries) = and_then entry (push_dir (dir_names entries))

  unfoldable pub list_execution_ids : D → Io (List String)
  unfolding dir_names later_text
  list_execution_ids d =
      and_then (files.read_dir files.root d)
        (λ entries. map_ok (sort_by later_text) (dir_names entries))

module _ {D P H F : Type 0} (files : Files D P H) (texts : Texts F) where
  unfoldable pub save_accumulator : String → ExecutionAccumulator → Act D (Unit {0})
  save_accumulator execution_id accumulator =
      give (accumulator_text texts accumulator)
      >>= files.write (accumulator_path files execution_id)

  unfoldable pub save_candidate : ExecutionCandidate F → Act D (Unit {0})
  save_candidate candidate =
      files.create_dir_all (candidates_dir files candidate.execution_id)
      >> (give (candidate_text texts candidate)
          >>= files.write
              (files.join (candidates_dir files candidate.execution_id) (candidate_file candidate)))

  candidate_at : P → D → Io (ExecutionCandidate F)
  candidate_at path d = and_then (files.read_to_string path d) (parse_candidate texts)

  -- One entry of the directory, before the entries `more`.
  push_candidate : D → Io (List (ExecutionCandidate F)) → Entry P → Io (List (ExecutionCandidate F))
  unfolding candidate_at
  push_candidate d more entry = and_then entry.file_type λ kind.
      if is_file kind then and_then (candidate_at entry.path d) (λ c. map_ok (◌∷◌ c) more) else more

  load_entries : D → List (Io (Entry P)) → Io (List (ExecutionCandidate F))
  unfolding push_candidate
  load_entries d [] = IoResult.ok []
  load_entries d (entry ∷ entries) = and_then entry (push_candidate d (load_entries d entries))

  unfoldable pub load_candidates : String → D → Io (List (ExecutionCandidate F))
  unfolding load_entries later_seq
  load_candidates execution_id d =
      and_then (or_missing [] (files.read_dir (candidates_dir files execution_id) d))
        (λ entries. map_ok (sort_by later_seq) (load_entries d entries))

  -- One entry of the directory, and then the rest of the loop.
  clear_entry : ℕ → Act D (Unit {0}) → Entry P → Act D (Unit {0})
  unfolding candidate_at remove_of_iteration
  clear_entry iteration rest entry d =
      then_act (entry.file_type, d)
        λ kind.
          if is_file kind
          then (λ d.
              then_act (candidate_at entry.path d, d)
                (remove_of_iteration files iteration entry.path))
            >> rest
          else rest

  clear_entries : ℕ → List (Io (Entry P)) → Act D (Unit {0})
  unfolding clear_entry
  clear_entries iteration [] d = (IoResult.ok tt, d)
  clear_entries iteration (entry ∷ entries) d =
      then_act (entry, d) (clear_entry iteration (clear_entries iteration entries))

  unfoldable pub clear_iteration_candidates : String → ℕ → Act D (Unit {0})
  unfolding clear_entries
  clear_iteration_candidates execution_id iteration d =
      then_act (or_missing [] (files.read_dir (candidates_dir files execution_id) d), d)
        (clear_entries iteration)

  loaded_accumulator : Io String → Io ExecutionAccumulator
  loaded_accumulator (IoResult.ok contents) = parse_accumulator texts contents
  loaded_accumulator (IoResult.err e) =
      if is_not_found e.kind then IoResult.ok default_accumulator else IoResult.err e

  unfoldable pub load_execution : String → D → Io (ExecutionSnapshot F)
  unfolding loaded_accumulator
  load_execution execution_id d =
      and_then (files.read_to_string (execution_path files execution_id) d) λ contents.
        and_then (parse_execution texts contents) λ execution.
          and_then
            (or_missing []
              (map_ok parse_events (files.read_to_string (events_path files execution_id) d)))
            λ events.
              and_then
                (loaded_accumulator (files.read_to_string (accumulator_path files execution_id) d))
                λ accumulator.
                  map_ok
                    (λ candidates. record {
                      execution = execution;
                      events = events;
                      accumulator = accumulator;
                      candidates = candidates;
                    })
                    (load_candidates execution_id d)

  -- The loop of `list_active_execution_ids`.
  unfoldable pub active_among : D → List String → Io (List String)
  active_among d [] = IoResult.ok []
  active_among d (id ∷ ids) =
      let more = active_among d ids in
      and_then (load_execution id d)
        (λ snapshot. if is_active snapshot.execution.status then map_ok (◌∷◌ id) more else more)

  unfoldable pub list_active_execution_ids : D → Io (List String)
  list_active_execution_ids d = and_then (list_execution_ids files d) (active_among d)

  -- `impl ExecutionStore for FsExecutionStore`
  unfoldable pub fs_execution_store : D → ExecutionStore IoError F
  fs_execution_store d = record {
    list_active_execution_ids = list_active_execution_ids d;
    load_execution = λ id. load_execution id d;
    load_candidates = λ id. load_candidates id d;
  }
