-- ===== src/Orchestration/Store/Operations/Listing.antt =====
-- src/orchestration/store/fs.rs: which executions are listed as active.
use void_control.Base.{
  ◌≡◌, refl, none, String, List, [], ◌∷◌, ◌&◌, In, All, inl, inr, Bool-cases, filter, AllChars,
  is_plain,
}
use void_control.Orchestration.Types.{Execution, ExecutionStatus}
use void_control.Orchestration.Events.{ExecutionSnapshot}
use void_control.Orchestration.Store.{IoResult, Io, IoError, ErrorKind, fail}
use void_control.Orchestration.Store.Files.{Files}
use void_control.Orchestration.Store.Records.{Texts, execution_text}
use void_control.Orchestration.Store.Records.Executions.{parse_execution-two_line_goal}
use void_control.Orchestration.Store.Operations.{
  is_active, load_execution, execution_path, list_execution_ids, list_active_execution_ids,
  active_among,
}

module _ {D P H F : Type 0} (files : Files D P H) (texts : Texts F) (d : D) where
  -- Every execution can be loaded, and its status is that of `status_of`.
  abbrev pub Loads : (String → ExecutionStatus) → String → Type 0
  Loads status_of id =
      (s : ExecutionSnapshot F) × (load_execution files texts id d ≡ IoResult.ok s)
      × (s.execution.status ≡ status_of id)

  active_among-Loads :
      (status_of : String → ExecutionStatus) (ids : List String)
      → All (Loads status_of) ids
      → active_among files texts d ids ≡ IoResult.ok (filter (λ id. is_active (status_of id)) ids)
  active_among-Loads status_of [] h = unfold active_among in refl
  active_among-Loads status_of (id ∷ ids) h = step h.0 (active_among-Loads status_of ids h.1)
    where
      step :
          Loads status_of id
          → active_among files texts d ids
            ≡ IoResult.ok (filter (λ id. is_active (status_of id)) ids)
          → active_among files texts d (id ∷ ids)
            ≡ IoResult.ok (filter (λ id. is_active (status_of id)) (id ∷ ids))
      step (s, e, t) rest = elim (Bool-cases (is_active (status_of id))) [
        | inl a ↦ unfold active_among in (rw (e, t, rest, a) refl)
        | inr a ↦ unfold active_among in (rw (e, t, a) rest)
      ]

  -- Where every execution can be loaded, those are listed, in order, that are pending, running or paused.
  pub list_active_execution_ids-Loads :
      (status_of : String → ExecutionStatus) (ids : List String)
      → list_execution_ids files d ≡ IoResult.ok ids
      → All (Loads status_of) ids
      → list_active_execution_ids files texts d
        ≡ IoResult.ok (filter (λ id. is_active (status_of id)) ids)
  unfolding list_active_execution_ids
  list_active_execution_ids-Loads status_of ids listed h =
      rw listed (active_among-Loads status_of ids h)

  active_among-err :
      (bad : String) (ids : List String) (e : IoError)
      → In bad ids
      → load_execution files texts bad d ≡ IoResult.err e
      → (f : IoError) × (active_among files texts d ids ≡ IoResult.err f)
  active_among-err bad [] e i h = absurd i.0
  active_among-err bad (id ∷ ids) e (inl same) h = (e, unfold active_among in (rw (same, h) refl))
  active_among-err bad (id ∷ ids) e (inr i) h =
      step (load_execution files texts id d) refl (active_among-err bad ids e i h)
    where
      step :
          (r : Io (ExecutionSnapshot F))
          → load_execution files texts id d ≡ r
          → (f : IoError) × (active_among files texts d ids ≡ IoResult.err f)
          → (f : IoError) × (active_among files texts d (id ∷ ids) ≡ IoResult.err f)
      step (IoResult.err f) loaded rest = (f, unfold active_among in (rw loaded refl))
      step (IoResult.ok s) loaded (f, rest) = elim (Bool-cases (is_active s.execution.status)) [
        | inl a ↦ (f, unfold active_among in (rw (loaded, rest, a) refl))
        | inr a ↦ (f, unfold active_among in (rw (loaded, a) rest))
      ]

  -- One execution that cannot be loaded is enough for no execution to be listed.
  pub list_active_execution_ids-err :
      (bad : String) (ids : List String) (e : IoError)
      → list_execution_ids files d ≡ IoResult.ok ids
      → In bad ids
      → load_execution files texts bad d ≡ IoResult.err e
      → (f : IoError) × (list_active_execution_ids files texts d ≡ IoResult.err f)
  unfolding list_active_execution_ids
  list_active_execution_ids-err bad ids e listed i h = rw listed (active_among-err bad ids e i h)

  -- Where the file of a listed execution is as save_execution writes it, the execution has no best
  -- candidate, its id and its mode are of one line each, and its goal is of two lines, no execution
  -- is listed as active: the file is not read back, and the error ends the listing.
  pub two_line_goal_stops_listing :
      (ids : List String) (e : Execution) (a b : String)
      → list_execution_ids files d ≡ IoResult.ok ids
      → In e.execution_id ids
      → files.read_to_string (execution_path files e.execution_id) d
        ≡ IoResult.ok (execution_text e)
      → e.goal ≡ a & "\n" & b
      → AllChars is_plain a
      → AllChars is_plain b
      → AllChars is_plain e.execution_id
      → AllChars is_plain e.mode
      → e.result_best_candidate_id ≡ none
      → (f : IoError) × (list_active_execution_ids files texts d ≡ IoResult.err f)
  two_line_goal_stops_listing ids e a b listed i saved goal a_line b_line id_line mode_line fresh =
      list_active_execution_ids-err e.execution_id ids
        (record { kind = ErrorKind.invalid_data; message = texts.parse_error "" }) listed i unread
    where
      unread :
          load_execution files texts e.execution_id d
          ≡ fail ErrorKind.invalid_data (texts.parse_error "")
      unread =
          unfold load_execution in
          (rw
            (
              saved,
              parse_execution-two_line_goal texts e a b goal a_line b_line id_line mode_line fresh,
            )
            refl)
