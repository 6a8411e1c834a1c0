-- ===== src/Execution.antt =====
-- internal/runner/executor.go and executor_variables.go: what an execution reports to the
-- scheduler, and the interface `OperationExecutor` of internal/runner/scheduler.go.
use kurama.Base.{Bytes, ℕ, Bool, true, false, Option, some}
use kurama.Base.Result.{}
use kurama.Base.Context.{Context}
use kurama.Config.{OperationConfig}
use kurama.JsonPointer.{PointerError}
use kurama.Store.{StoreError}

pub record ExecutionResult : Type 0 where
  pub operation : Bytes
  pub status_code : ℕ
  pub response_bytes : ℕ
  pub duration : ℕ
  pub captured : Bool

-- `ErrStoreValueUnavailable`, wrapped or not, is `store_not_configured` or `store_empty`.
pub data VariableError : Type 0 where
  store_not_configured store_empty : Bytes → VariableError
  store_read_failed : Bytes → StoreError → VariableError
  unsupported_source : Bytes → VariableError
  generator_failed : Bytes → VariableError

pub data HeaderError : Type 0 where
  projected_unreadable projected_too_large projected_empty projected_line_break : HeaderError

pub data CaptureError : Type 0 where
  no_store_configured capture_not_json : CaptureError
  pointer_failed : PointerError → CaptureError
  capture_not_string capture_empty capture_too_large : CaptureError
  store_put_failed : Bytes → StoreError → CaptureError

pub data ExecutionError : Type 0 where
  variables_failed : VariableError → ExecutionError
  request_body_too_large : ExecutionError
  bad_request_url origin_overridden : ExecutionError
  bad_request : ExecutionError
  headers_failed : HeaderError → ExecutionError
  transport_failed : ExecutionError
  response_unreadable response_too_large : ExecutionError
  unexpected_status : ℕ → ExecutionError
  capture_failed : CaptureError → ExecutionError

-- `errors.Is(err, ErrStoreValueUnavailable)`
unfoldable pub is_unavailable : Option ExecutionError → Bool
is_unavailable (some (variables_failed (store_not_configured s))) = true
is_unavailable (some (variables_failed (store_empty s))) = true
is_unavailable e = false

-- `Execute` returns its result beside the error.
pub record OperationExecutor {ℓ} (S : Type ℓ) : Type ℓ where
  pub execute : Context → OperationConfig → S → (ExecutionResult × Option ExecutionError) × S
