-- ===== src/Orchestration/Store/Records/Executions.antt =====
-- src/orchestration/store/fs.rs: the file of an execution is read back, and what a goal of two lines does.
use void_control.Base.{
  ◌≡◌, refl, ap, arith, ℕ, ◌≤◌, none, some, String, [], ◌∷◌, ◌&◌, AllChars, is_plain, lines,
  decimal, u32_max, parse_number, parse_number-decimal,
}
use text.Mathlib.TextLemmas
use void_control.Orchestration.Types.{Execution}
use void_control.Orchestration.Store.{IoResult, ErrorKind, fail}
use void_control.Orchestration.Store.Lines.Reading.{lines-cons, decimal-is_plain, lines-decimal}
use void_control.Orchestration.Store.Lines.{required_line, optional_line, non_empty, unwrap_or}
use void_control.Orchestration.Store.Records.{
  Texts, status_to_str, execution_text, parse_execution, number_from_str,
}
use void_control.Orchestration.Store.Records.Names.{
  str_to_status-status_to_str, status_to_str-AllChars,
}

-- Every text of the execution is one line, and its numbers are of 32 bits. A candidate that is named
-- has a name.
pub record IsStorable (e : Execution) : Type 0 where
  pub id_line : AllChars is_plain e.execution_id
  pub mode_line : AllChars is_plain e.mode
  pub goal_line : AllChars is_plain e.goal
  pub best_line : AllChars is_plain (unwrap_or "" e.result_best_candidate_id)
  pub best_named :
      non_empty (some (unwrap_or "" e.result_best_candidate_id)) ≡ e.result_best_candidate_id
  pub iterations_small : e.completed_iterations ≤ u32_max
  pub failures_small : e.failure_counts.total_candidate_failures ≤ u32_max

lines-execution_text :
    (e : Execution)
    → IsStorable e
    → lines (execution_text e)
      ≡ e.execution_id
        ∷ e.mode
        ∷ e.goal
        ∷ status_to_str e.status
        ∷ unwrap_or "" e.result_best_candidate_id
        ∷ decimal e.completed_iterations
        ∷ decimal e.failure_counts.total_candidate_failures
        ∷ []
unfolding execution_text
lines-execution_text e s =
    rw
      (
        lines-cons e.execution_id _ s.id_line,
        lines-cons e.mode _ s.mode_line,
        lines-cons e.goal _ s.goal_line,
        lines-cons (status_to_str e.status) _ (status_to_str-AllChars e.status),
        lines-cons (unwrap_or "" e.result_best_candidate_id) _ s.best_line,
        lines-cons (decimal e.completed_iterations) _ (decimal-is_plain e.completed_iterations),
        lines-decimal e.failure_counts.total_candidate_failures,
      )
      refl

shifted :
    (e : Execution) (a b : String)
    → e.goal ≡ a & "\n" & b
    → AllChars is_plain a
    → AllChars is_plain b
    → AllChars is_plain e.execution_id
    → AllChars is_plain e.mode
    → e.result_best_candidate_id ≡ none
    → lines (execution_text e)
      ≡ e.execution_id
        ∷ e.mode
        ∷ a
        ∷ b
        ∷ status_to_str e.status
        ∷ ""
        ∷ decimal e.completed_iterations
        ∷ decimal e.failure_counts.total_candidate_failures
        ∷ []
unfolding execution_text
shifted e a b goal a_line b_line id_line mode_line fresh =
    rw (goal, fresh, TextLemmas.append_assoc, TextLemmas.append_assoc)
      (rw
        (
          lines-cons e.execution_id _ id_line,
          lines-cons e.mode _ mode_line,
          lines-cons a _ a_line,
          lines-cons b _ b_line,
          lines-cons (status_to_str e.status) _ (status_to_str-AllChars e.status),
          lines-cons "" _ tt,
          lines-cons (decimal e.completed_iterations) _ (decimal-is_plain e.completed_iterations),
          lines-decimal e.failure_counts.total_candidate_failures,
        )
        refl)

module _ {F : Type 0} (texts : Texts F) where
  pub number_from_str-decimal :
      (max n : ℕ) → n ≤ max → number_from_str texts max (decimal n) ≡ IoResult.ok n
  unfolding number_from_str
  number_from_str-decimal max n h = ground (arith, parse_number-decimal max n h)

  -- An execution is read back from its file where its texts are of one line each.
  pub parse_execution-execution_text :
      (e : Execution) → IsStorable e → parse_execution texts (execution_text e) ≡ IoResult.ok e
  unfolding parse_execution required_line optional_line
  parse_execution-execution_text e s =
      rw
        (
          lines-execution_text e s,
          number_from_str-decimal u32_max e.completed_iterations s.iterations_small,
          number_from_str-decimal u32_max e.failure_counts.total_candidate_failures
              s.failures_small,
          str_to_status-status_to_str e.status,
        )
        (ap (λ b. IoResult.ok (record e { result_best_candidate_id = b })) s.best_named)

  -- A goal of two lines is written, and the file is not read back: for an execution without a best
  -- candidate the lines shift, the empty line of the candidate is read as the number of iterations, and the
  -- reading ends with that error.
  pub parse_execution-two_line_goal :
      (e : Execution) (a b : String)
      → e.goal ≡ a & "\n" & b
      → AllChars is_plain a
      → AllChars is_plain b
      → AllChars is_plain e.execution_id
      → AllChars is_plain e.mode
      → e.result_best_candidate_id ≡ none
      → parse_execution texts (execution_text e)
        ≡ fail ErrorKind.invalid_data (texts.parse_error "")
  unfolding parse_execution required_line optional_line
  parse_execution-two_line_goal e a b goal a_line b_line id_line mode_line fresh =
      rw (shifted e a b goal a_line b_line id_line mode_line fresh, no_number) refl
    where
      no_number :
          number_from_str texts u32_max "" ≡ fail ErrorKind.invalid_data (texts.parse_error "")
      no_number = unfold number_from_str parse_number in refl
