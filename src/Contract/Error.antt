-- ===== src/Contract/Error.antt =====
-- src/contract/error.rs: the errors that a runtime answers with.
use void_control.Base.{Bool, String}

pub data ContractErrorCode : Type 0 where
  invalid_spec invalid_policy not_found already_terminal resource_limit_exceeded : ContractErrorCode
  structured_output_missing structured_output_malformed artifact_not_found : ContractErrorCode
  artifact_publication_incomplete artifact_store_unavailable : ContractErrorCode
  retrieval_timeout internal_error : ContractErrorCode

pub record ContractError : Type 0 where
  pub code : ContractErrorCode
  pub message : String
  pub retryable : Bool

unfoldable pub new : ContractErrorCode → String → Bool → ContractError
new code message retryable = record { code = code; message = message; retryable = retryable }

-- `Result<T, ContractError>`
pub data Result (T : Type 0) : Type 0 where
  err : ContractError → Result T
  ok : T → Result T
