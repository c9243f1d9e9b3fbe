-- ===== src/Orchestration/Store/Candidates/RoundTrip.antt =====
-- src/orchestration/store/fs.rs: the file of a candidate is read back.
use void_control.Base.{
  ◌≡◌, refl, ap, arith, ℕ, ◌≤◌, Bool, true, false, Option, none, some, String, [], ◌∷◌, All,
  AllChars, is_plain, lines, decimal, is_empty_text-decimal, u32_max, u64_max,
}
use void_control.Base.Map.{IsOrdered}
use void_control.Orchestration.Types.{ExecutionCandidate, WorkerReviewStatus}
use void_control.Orchestration.Store.{IoResult}
use void_control.Orchestration.Store.Lines.Reading.{lines-cons, decimal-is_plain, lines-decimal}
use void_control.Orchestration.Store.Lines.{
  required_line, optional_line, non_empty, transpose_filled, unwrap_or, invalid_data,
}
use void_control.Orchestration.Store.Records.{
  Texts, number_from_str, candidate_status_to_str, worker_review_status_to_str,
  str_to_worker_review_status, success_to_str, str_to_success,
}
use void_control.Orchestration.Store.Candidates.{
  option_text, candidate_body, candidate_text, parse_candidate,
}
use void_control.Orchestration.Store.Records.Names.{
  str_to_candidate_status-candidate_status_to_str, candidate_status_to_str-AllChars,
  str_to_worker_review_status-worker_review_status_to_str, worker_review_status_to_str-AllChars,
  worker_review_status_to_str-filled, str_to_success-success_to_str,
}
use void_control.Orchestration.Store.Records.Executions.{number_from_str-decimal}
use void_control.Orchestration.Store.Records.Faithful.{
  IsFaithful, Carries, transpose_filled-Carries,
}

-- The texts of the candidate are of one line each, its numbers fit their types, and its maps are in order.
pub record IsStorable {F : Type 0} (IsExactNumber : String × F → Type 0) (c : ExecutionCandidate F)
    : Type 0 where
  pub execution_line : AllChars is_plain c.execution_id
  pub candidate_line : AllChars is_plain c.candidate_id
  pub seq_small : c.created_seq ≤ u64_max
  pub iteration_small : c.iteration ≤ u32_max
  pub run_line : AllChars is_plain (unwrap_or "" c.runtime_run_id)
  pub run_named : non_empty (some (unwrap_or "" c.runtime_run_id)) ≡ c.runtime_run_id
  pub overrides_ordered : IsOrdered c.overrides
  pub metrics_ordered : IsOrdered c.metrics
  pub metrics_exact : All IsExactNumber c.metrics
  pub round_small : c.revision_round ≤ u32_max

success-AllChars : (o : Option Bool) → AllChars is_plain (option_text success_to_str o)
success-AllChars none = tt
success-AllChars (some true) = ground arith
success-AllChars (some false) = ground arith

review-AllChars :
    (o : Option WorkerReviewStatus) → AllChars is_plain (option_text worker_review_status_to_str o)
review-AllChars none = tt
review-AllChars (some s) = worker_review_status_to_str-AllChars s

transpose_filled-success :
    (o : Option Bool)
    → transpose_filled str_to_success (some (option_text success_to_str o)) ≡ IoResult.ok o
unfolding transpose_filled
transpose_filled-success none = refl
transpose_filled-success (some true) = rw (str_to_success-success_to_str true) refl
transpose_filled-success (some false) = rw (str_to_success-success_to_str false) refl

transpose_filled-review :
    (o : Option WorkerReviewStatus)
    → transpose_filled str_to_worker_review_status
        (some (option_text worker_review_status_to_str o))
      ≡ IoResult.ok o
unfolding transpose_filled
transpose_filled-review none = refl
transpose_filled-review (some s) =
    rw
      (
        worker_review_status_to_str-filled s,
        str_to_worker_review_status-worker_review_status_to_str s,
      )
      refl

lines-candidate_body :
    {F : Type 0} (Exact : String × F → Type 0) (c : ExecutionCandidate F)
    (overrides metrics : String)
    → IsStorable Exact c
    → AllChars is_plain overrides
    → AllChars is_plain metrics
    → lines (candidate_body c overrides metrics)
      ≡ c.execution_id
        ∷ c.candidate_id
        ∷ decimal c.created_seq
        ∷ decimal c.iteration
        ∷ candidate_status_to_str c.status
        ∷ unwrap_or "" c.runtime_run_id
        ∷ overrides
        ∷ option_text success_to_str c.succeeded
        ∷ metrics
        ∷ option_text worker_review_status_to_str c.review_status
        ∷ decimal c.revision_round
        ∷ []
lines-candidate_body Exact c overrides metrics s overrides_line metrics_line =
    rw
      (
        lines-cons c.execution_id _ s.execution_line,
        lines-cons c.candidate_id _ s.candidate_line,
        lines-cons (decimal c.created_seq) _ (decimal-is_plain c.created_seq),
        lines-cons (decimal c.iteration) _ (decimal-is_plain c.iteration),
        lines-cons (candidate_status_to_str c.status) _ (candidate_status_to_str-AllChars c.status),
        lines-cons (unwrap_or "" c.runtime_run_id) _ s.run_line,
        lines-cons overrides _ overrides_line,
        lines-cons (option_text success_to_str c.succeeded) _ (success-AllChars c.succeeded),
        lines-cons metrics _ metrics_line,
        lines-cons (option_text worker_review_status_to_str c.review_status) _
            (review-AllChars c.review_status),
        lines-decimal c.revision_round,
      )
      refl

module _ {F : Type 0} (texts : Texts F) (Exact : String × F → Type 0) where
  transpose_filled-decimal :
      (max n : ℕ)
      → n ≤ max
      → transpose_filled (number_from_str texts max) (some (decimal n)) ≡ IoResult.ok (some n)
  unfolding transpose_filled
  transpose_filled-decimal max n h =
      rw (is_empty_text-decimal n, number_from_str-decimal texts max n h) refl

  parse_candidate-candidate_body :
      (c : ExecutionCandidate F) (overrides metrics : String)
      → IsStorable Exact c
      → Carries texts.map_from_str [] overrides c.overrides
      → Carries texts.numbers_from_str [] metrics c.metrics
      → parse_candidate texts (candidate_body c overrides metrics) ≡ IoResult.ok c
  unfolding parse_candidate required_line optional_line
  parse_candidate-candidate_body c overrides metrics s o m =
      let (x, ex, ux) = transpose_filled-Carries texts.map_from_str [] overrides c.overrides o in
      let (y, ey, uy) = transpose_filled-Carries texts.numbers_from_str [] metrics c.metrics m in
      rw
        (
          lines-candidate_body Exact c overrides metrics s o.0 m.0,
          number_from_str-decimal texts u64_max c.created_seq s.seq_small,
          number_from_str-decimal texts u32_max c.iteration s.iteration_small,
          ex,
          transpose_filled-success c.succeeded,
          ey,
          transpose_filled-review c.review_status,
          transpose_filled-decimal u32_max c.revision_round s.round_small,
          str_to_candidate_status-candidate_status_to_str c.status,
        )
        (rw (ux, uy) (ap (λ r. IoResult.ok (record c { runtime_run_id = r })) s.run_named))

  -- A candidate is written to its file and read back from it, where its texts are of one line each,
  -- its numbers fit their types, its maps are in order, and maps are carried faithfully.
  pub parse_candidate-candidate_text :
      (c : ExecutionCandidate F)
      → IsFaithful texts Exact
      → IsStorable Exact c
      → (t : String) × (candidate_text texts c ≡ IoResult.ok t)
        × (parse_candidate texts t ≡ IoResult.ok c)
  parse_candidate-candidate_text c faithful s =
      let (o, wo, co) = faithful.map_carried c.overrides s.overrides_ordered in
      let (m, wm, cm) = faithful.numbers_carried c.metrics s.metrics_ordered s.metrics_exact in
      (candidate_body c o m, written o m wo wm, parse_candidate-candidate_body c o m s co cm)
    where
      written :
          (o m : String)
          → texts.map_to_string c.overrides ≡ IoResult.ok o
          → texts.numbers_to_string c.metrics ≡ IoResult.ok m
          → candidate_text texts c ≡ IoResult.ok (candidate_body c o m)
      written o m wo wm = unfold candidate_text invalid_data in (rw (wo, wm) refl)
