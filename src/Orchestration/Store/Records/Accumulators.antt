-- ===== src/Orchestration/Store/Records/Accumulators.antt =====
-- src/orchestration/store/fs.rs: what of an accumulator is read back from its file.
use void_control.Base.{
  ◌≡◌, refl, ◌≤◌, some, String, [], ◌∷◌, ◌&◌, AllChars, is_plain, lines, decimal, u32_max, arith,
}
use void_control.Base.Map.{Map, IsOrdered}
use void_control.Orchestration.Types.{ExecutionAccumulator, default_accumulator}
use void_control.Orchestration.Store.{IoResult}
use void_control.Orchestration.Store.Lines.Reading.{lines-cons, decimal-is_plain, lines-last}
use void_control.Orchestration.Store.Lines.{
  required_line, optional_line, non_empty, transpose_filled, unwrap_or, invalid_data,
}
use void_control.Orchestration.Store.Records.{Texts, accumulator_text, parse_accumulator}
use void_control.Orchestration.Store.Records.Executions.{number_from_str-decimal}
use void_control.Orchestration.Store.Records.Faithful.{
  IsFaithful, Carries, transpose_filled-Carries,
}

-- The id of the best candidate is one line, the numbers are of 32 bits, and the map is in order.
pub record IsStorable (a : ExecutionAccumulator) : Type 0 where
  pub history_small : a.scoring_history_len ≤ u32_max
  pub iterations_small : a.completed_iterations ≤ u32_max
  pub best_line : AllChars is_plain (unwrap_or "" a.best_candidate_id)
  pub best_named : non_empty (some (unwrap_or "" a.best_candidate_id)) ≡ a.best_candidate_id
  pub overrides_ordered : IsOrdered a.best_candidate_overrides

-- What the file keeps; the rest is as in a new accumulator.
abbrev pub kept : ExecutionAccumulator → ExecutionAccumulator
kept a = record default_accumulator {
  scoring_history_len = a.scoring_history_len;
  completed_iterations = a.completed_iterations;
  best_candidate_id = a.best_candidate_id;
  best_candidate_overrides = a.best_candidate_overrides;
}

module _ {F : Type 0} (texts : Texts F) where
  head_lines :
      (a : ExecutionAccumulator) (o : String)
      → IsStorable a
      → lines (
          decimal a.scoring_history_len
          & "\n"
          & decimal a.completed_iterations
          & "\n"
          & unwrap_or "" a.best_candidate_id
          & "\n"
          & o)
        ≡ decimal a.scoring_history_len
          ∷ decimal a.completed_iterations
          ∷ unwrap_or "" a.best_candidate_id
          ∷ lines o
  head_lines a o s =
      rw
        (
          lines-cons (decimal a.scoring_history_len) _ (decimal-is_plain a.scoring_history_len),
          lines-cons (decimal a.completed_iterations) _ (decimal-is_plain a.completed_iterations),
          lines-cons (unwrap_or "" a.best_candidate_id) o s.best_line,
        )
        refl

  -- The line of the map, which is missing where its text is empty.
  map_lines :
      (a : ExecutionAccumulator) (o : String)
      → IsStorable a
      → Carries texts.map_from_str [] o a.best_candidate_overrides
      → parse_accumulator texts (
          decimal a.scoring_history_len
          & "\n"
          & decimal a.completed_iterations
          & "\n"
          & unwrap_or "" a.best_candidate_id
          & "\n"
          & o)
        ≡ IoResult.ok (kept a)
  unfolding parse_accumulator required_line optional_line
  map_lines a String.[] s carried =
      let no_map : ◌≡◌ {A = Map String} [] a.best_candidate_overrides = ground (arith, carried.1) in
      rw
        (
          head_lines a "" s,
          number_from_str-decimal texts u32_max a.scoring_history_len s.history_small,
          number_from_str-decimal texts u32_max a.completed_iterations s.iterations_small,
        )
        (unfold lines transpose_filled in
          (λ i. IoResult.ok (record (kept a) {
            best_candidate_id = s.best_named i;
            best_candidate_overrides = no_map i;
          })))
  map_lines a (String.◌∷◌ c o) s carried =
      let (x, ex, ux) =
        transpose_filled-Carries texts.map_from_str [] (String.◌∷◌ c o) a.best_candidate_overrides
          carried in
      rw
        (
          head_lines a (String.◌∷◌ c o) s,
          lines-last (String.◌∷◌ c o) carried.0 refl,
          number_from_str-decimal texts u32_max a.scoring_history_len s.history_small,
          number_from_str-decimal texts u32_max a.completed_iterations s.iterations_small,
          ex,
        )
        (λ i.
          IoResult.ok (record (kept a) {
            best_candidate_id = s.best_named i;
            best_candidate_overrides = ux i;
          }))

  -- Of an accumulator that is saved, the length of the history, the completed iterations and the best
  -- candidate with its overrides are read back, and nothing else: the leader's proposals, the iterations
  -- without improvement, the failures, and all that a supervisor decided are as in a new one. The id of the
  -- best candidate is of one line, the numbers are of 32 bits, and maps are carried faithfully.
  pub parse_accumulator-accumulator_text :
      (Exact : String × F → Type 0) (a : ExecutionAccumulator)
      → IsFaithful texts Exact
      → IsStorable a
      → (t : String) × (accumulator_text texts a ≡ IoResult.ok t)
        × (parse_accumulator texts t ≡ IoResult.ok (kept a))
  parse_accumulator-accumulator_text Exact a faithful s =
      let (o, w, c) = faithful.map_carried a.best_candidate_overrides s.overrides_ordered in
      (
        decimal a.scoring_history_len
            & "\n"
            & decimal a.completed_iterations
            & "\n"
            & unwrap_or "" a.best_candidate_id
            & "\n"
            & o,
        written o w,
        map_lines a o s c,
      )
    where
      written :
          (o : String)
          → texts.map_to_string a.best_candidate_overrides ≡ IoResult.ok o
          → accumulator_text texts a
            ≡ IoResult.ok (
                decimal a.scoring_history_len
                & "\n"
                & decimal a.completed_iterations
                & "\n"
                & unwrap_or "" a.best_candidate_id
                & "\n"
                & o)
      written o w = unfold accumulator_text invalid_data in (rw w refl)
