-- ===== src/Retry/Examples.antt =====
-- The theorems about the loops at work, with a policy that counts failures as
-- `LimitedErrorCountRetryPolicy` does.
use google_cloud_cpp_spanner.Prelude.{
  ℕ, zero, suc, ◌+◌, ◌<◌, ◌≤◌, ◌≡◌, Bool, true, false, none, some, arith,
}
use google_cloud_cpp_spanner.Status.{
  StatusCode, Status, status, StatusOr, value, error, is_grpc_permanent,
}
use google_cloud_cpp_spanner.Retry.Policy.{
  RetryPolicy, BackoffPolicy, PollingPolicy, IsLimited, GenericState, generic_polling_policy,
}
use google_cloud_cpp_spanner.Retry.Loop.{Report, retry_loop}
use google_cloud_cpp_spanner.Retry.Calls.{IsExplained, retry_loop-IsExplained}
use google_cloud_cpp_spanner.Retry.Polling.{Operation, Result}

-- The state is how many failures there can still be.
abbrev pub after_failure : ℕ → Bool → ℕ × Bool
after_failure n true = (n, false)
after_failure zero false = (zero, false)
after_failure (suc n) false = (n, true)

abbrev pub error_count : RetryPolicy ℕ
error_count = record {
  is_exhausted = λ n. false;
  on_failure = λ n s. after_failure n (is_grpc_permanent s);
}

pub after_failure-lt : (n m : ℕ) (b : Bool) → after_failure n b ≡ (m, true) → m < n
after_failure-lt n m true h = absurd (grind arith)
after_failure-lt zero m false h = absurd (grind arith)
after_failure-lt (suc n) m false h = grind arith

pub error_count-IsLimited : IsLimited error_count.on_failure (λ n. n)
error_count-IsLimited p q s h = after_failure-lt p q (is_grpc_permanent s) h

abbrev pub doubling : BackoffPolicy ℕ
doubling = record { on_completion = λ b. (b + b, b) }

abbrev flaky : ℕ → StatusOr ℕ
flaky zero = error (status StatusCode.unavailable "try again")
flaky (suc zero) = error (status StatusCode.unavailable "try again")
flaky (suc (suc k)) = value 42

retry_loop-IsExplained_example :
    (r : Report ℕ) × (retry_loop error_count doubling (λ s. s.message) "here" true flaky 4 3 10
      ≡ some r)
    × IsExplained true flaky 4 r
retry_loop-IsExplained_example =
    retry_loop-IsExplained error_count doubling (λ s. s.message) "here" true flaky (λ n. n)
      error_count-IsLimited 4 3 10 (omega arith)

abbrev pub polling : PollingPolicy (GenericState ℕ ℕ)
polling = generic_polling_policy error_count doubling

pub polling-IsLimited : IsLimited polling.on_failure (λ p. p.retry_policy)
unfolding generic_polling_policy
polling-IsLimited p q s h =
    after_failure-lt p.retry_policy q.retry_policy (is_grpc_permanent s) (grind arith)

pub polling-keeps : (p : GenericState ℕ ℕ) → (polling.wait_period p).0.retry_policy ≤ p.retry_policy
unfolding generic_polling_policy
polling-keeps p = omega arith

abbrev pub running : Operation ℕ ℕ
running = record { name = "operations/1"; done = false; result = Result.unset; metadata = none }

abbrev pub finishing : ℕ → StatusOr (Operation ℕ ℕ)
finishing zero = error (status StatusCode.unavailable "try again")
finishing (suc zero) = value running
finishing (suc (suc k)) = value (record running { done = true; result = Result.response 7 })

abbrev pub rpc_status : ℕ → Status
rpc_status e = status StatusCode.unknown "failed"
