-- ===== src/Admin/Service.antt =====
-- What the admin connections share: a call is made by `RetryLoop`, and a long-running operation is
-- then polled. The stub's answers and the policies are arguments: the answers to a request by their
-- number, the first attempt's at 0. Each call clones the prototypes of the policies.
use Prim.Native.String.{String}
use google_cloud_cpp_spanner.Prelude.{ℕ, suc, Bool, Option, none, some}
use google_cloud_cpp_spanner.Status.{Status, StatusOr, value, error}
use google_cloud_cpp_spanner.Retry.Policy.{RetryPolicy, BackoffPolicy, PollingPolicy}
use google_cloud_cpp_spanner.Retry.Loop.{Report, retry_loop}
use google_cloud_cpp_spanner.Retry.Polling.{
  Operation, Polled, extract_response, extract_metadata, polling_loop,
}

-- A connection: its stub and the prototypes of its policies, with the number of failures that each
-- allows. `R` is the requests, `M` the messages that answer them, and an operation's are in `Any`s.
pub record AdminService (R M E Any P B Q : Type 0) : Type 0 where
  pub call : R → ℕ → StatusOr M
  pub start : R → ℕ → StatusOr (Operation E Any)
  pub get_operation : String → ℕ → StatusOr (Operation E Any)
  pub unpack : Any → Option M
  pub make_status : E → Status
  pub print : Status → String
  pub retry_policy : RetryPolicy P
  pub retry_policy_prototype : P
  pub backoff_policy : BackoffPolicy B
  pub backoff_policy_prototype : B
  pub polling_policy : PollingPolicy Q
  pub polling_policy_prototype : Q
  pub retry_budget : P → ℕ
  pub polling_budget : Q → ℕ

-- The future of a long-running operation: what its start was answered, and the polls if it started.
pub record Awaited (M E Any : Type 0) : Type 0 where
  pub started : Report (Operation E Any)
  pub polled : Option (Polled M)
  pub result : StatusOr M

module _ {R M E Any P B Q : Type 0} (admin : AdminService R M E Any P B Q) where
  -- The fuel is one more than the failures that the policy allows.
  unfoldable pub called : {A : Type 0} → Bool → (ℕ → StatusOr A) → String → Option (Report A)
  unfolding retry_loop
  called is_idempotent answers location =
      retry_loop admin.retry_policy admin.backoff_policy admin.print location is_idempotent answers
        (suc (admin.retry_budget admin.retry_policy_prototype)) admin.retry_policy_prototype
        admin.backoff_policy_prototype

  -- `AwaitDatabase`, `AwaitCreateBackup` and `AwaitCreateOrUpdateInstance`. `GetOperation` is asked by
  -- the name of the operation that was started, which an update of it keeps.
  unfoldable pub await_response : String → Operation E Any → Option (Polled M)
  unfolding polling_loop extract_response
  await_response location operation =
      polling_loop admin.polling_policy admin.make_status (extract_response admin.unpack) location
        (admin.get_operation operation.name)
        (suc (admin.polling_budget admin.polling_policy_prototype)) admin.polling_policy_prototype
        operation

  -- `AwaitUpdateDatabase`.
  unfoldable pub await_metadata : String → Operation E Any → Option (Polled M)
  unfolding polling_loop extract_metadata
  await_metadata location operation =
      polling_loop admin.polling_policy admin.make_status (extract_metadata admin.unpack) location
        (admin.get_operation operation.name)
        (suc (admin.polling_budget admin.polling_policy_prototype)) admin.polling_policy_prototype
        operation

  abbrev pub polled_report : Report (Operation E Any) → Option (Polled M) → Option (Awaited M E Any)
  polled_report r none = none
  polled_report r (some p) = some (record { started = r; polled = some p; result = p.result })

  abbrev pub await_started :
      (Operation E Any → Option (Polled M))
      → Report (Operation E Any)
      → StatusOr (Operation E Any)
      → Option (Awaited M E Any)
  await_started await r (error s) = some (record { started = r; polled = none; result = error s })
  await_started await r (value operation) = polled_report r (await operation)

  -- The start of an operation, and a future that is ready where that failed.
  unfoldable pub long_running :
      Bool → (Operation E Any → Option (Polled M)) → R → String → Option (Awaited M E Any)
  unfolding called
  long_running is_idempotent await request location =
      elim (called is_idempotent (admin.start request) location) [
        | none ↦ none
        | some r ↦ await_started await r r.result
      ]
