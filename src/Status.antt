-- ===== src/Status.antt =====
-- `google::cloud::Status` and `StatusOr<T>` as the sources use them: a code, a message, and a
-- result type of the model's own; with status_utils.cc and the error semantics of retry_policy.h.
use text.Mathlib.Text.{find?}
use google_cloud_cpp_spanner.Prelude.{
  Bool, true, false, not, ◌&&◌, ◌||◌, Option, none, some, String,
}

pub data StatusCode : Type 0 where
  ok cancelled unknown invalid_argument deadline_exceeded not_found already_exists : StatusCode
  permission_denied unauthenticated resource_exhausted failed_precondition aborted : StatusCode
  out_of_range unimplemented internal unavailable data_loss : StatusCode

pub record Status : Type 0 where
  pub code : StatusCode
  pub message : String

abbrev pub status : StatusCode → String → Status
status c m = record { code = c; message = m }

abbrev pub ok_status : Status
ok_status = status StatusCode.ok ""

-- A `StatusOr<T>` holds a value, or the status of a failure.
pub data StatusOr {ℓ} (A : Type ℓ) : Type ℓ where
  value : A → StatusOr A
  error : Status → StatusOr A

abbrev is_ok_code : StatusCode → Bool
is_ok_code StatusCode.ok = true
is_ok_code _ = false

-- `Status::ok()`.
abbrev pub is_ok : Status → Bool
is_ok s = is_ok_code s.code

abbrev is_not_found_code : StatusCode → Bool
is_not_found_code StatusCode.not_found = true
is_not_found_code _ = false

abbrev is_some {ℓ} : {A : Type ℓ} → Option A → Bool
is_some none = false
is_some (some a) = true

-- `IsSessionNotFound`.
unfoldable pub is_session_not_found : Status → Bool
is_session_not_found s = is_not_found_code s.code && is_some (find? "Session not found" s.message)

abbrev is_grpc_transient_code : StatusCode → Bool
is_grpc_transient_code StatusCode.unavailable = true
is_grpc_transient_code StatusCode.resource_exhausted = true
is_grpc_transient_code _ = false

-- `SafeGrpcRetry`: which errors a call is retried for.
abbrev pub is_grpc_transient : Status → Bool
is_grpc_transient s = is_grpc_transient_code s.code

abbrev pub is_grpc_permanent : Status → Bool
is_grpc_permanent s = not (is_ok s) && not (is_grpc_transient s)

abbrev is_aborted_code : StatusCode → Bool
is_aborted_code StatusCode.aborted = true
is_aborted_code _ = false

-- `SafeTransactionRerun`: which errors a transaction is rerun for.
unfoldable pub is_rerun_transient : Status → Bool
unfolding is_session_not_found
is_rerun_transient s = is_aborted_code s.code || is_session_not_found s

unfoldable pub is_rerun_permanent : Status → Bool
unfolding is_rerun_transient
is_rerun_permanent s = not (is_ok s) && not (is_rerun_transient s)
