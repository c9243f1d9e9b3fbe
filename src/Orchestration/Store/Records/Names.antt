-- ===== src/Orchestration/Store/Records/Names.antt =====
-- src/orchestration/store/fs.rs: the names of the statuses are read back, and are one line each.
use void_control.Base.{◌≡◌, refl, arith, Bool, true, false, AllChars, is_plain, is_empty_text}
use void_control.Orchestration.Types.{ExecutionStatus, CandidateStatus, WorkerReviewStatus}
use void_control.Orchestration.Store.{IoResult}
use void_control.Orchestration.Store.Records.{
  status_to_str, str_to_status, candidate_status_to_str, str_to_candidate_status,
  worker_review_status_to_str, str_to_worker_review_status, success_to_str, str_to_success,
}

pub str_to_status-status_to_str :
    (s : ExecutionStatus) → str_to_status (status_to_str s) ≡ IoResult.ok s
unfolding str_to_status status_to_str
str_to_status-status_to_str ExecutionStatus.pending = refl
str_to_status-status_to_str _ = refl

pub str_to_candidate_status-candidate_status_to_str :
    (s : CandidateStatus) → str_to_candidate_status (candidate_status_to_str s) ≡ IoResult.ok s
unfolding str_to_candidate_status candidate_status_to_str
str_to_candidate_status-candidate_status_to_str CandidateStatus.queued = refl
str_to_candidate_status-candidate_status_to_str _ = refl

pub str_to_worker_review_status-worker_review_status_to_str :
    (s : WorkerReviewStatus)
    → str_to_worker_review_status (worker_review_status_to_str s) ≡ IoResult.ok s
unfolding str_to_worker_review_status worker_review_status_to_str
str_to_worker_review_status-worker_review_status_to_str WorkerReviewStatus.pending_review = refl
str_to_worker_review_status-worker_review_status_to_str _ = refl

pub str_to_success-success_to_str : (b : Bool) → str_to_success (success_to_str b) ≡ IoResult.ok b
unfolding str_to_success
str_to_success-success_to_str true = refl
str_to_success-success_to_str false = refl

pub status_to_str-AllChars : (s : ExecutionStatus) → AllChars is_plain (status_to_str s)
unfolding status_to_str
status_to_str-AllChars ExecutionStatus.pending = ground arith
status_to_str-AllChars _ = ground arith

pub candidate_status_to_str-AllChars :
    (s : CandidateStatus) → AllChars is_plain (candidate_status_to_str s)
unfolding candidate_status_to_str
candidate_status_to_str-AllChars CandidateStatus.queued = ground arith
candidate_status_to_str-AllChars _ = ground arith

pub worker_review_status_to_str-AllChars :
    (s : WorkerReviewStatus) → AllChars is_plain (worker_review_status_to_str s)
unfolding worker_review_status_to_str
worker_review_status_to_str-AllChars WorkerReviewStatus.pending_review = ground arith
worker_review_status_to_str-AllChars _ = ground arith

pub worker_review_status_to_str-filled :
    (s : WorkerReviewStatus) → is_empty_text (worker_review_status_to_str s) ≡ false
unfolding worker_review_status_to_str
worker_review_status_to_str-filled WorkerReviewStatus.pending_review = refl
worker_review_status_to_str-filled _ = refl
