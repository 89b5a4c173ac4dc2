-- ===== src/Retry/Policy.antt =====
-- The policies that the loops are given. They come with google-cloud-cpp, so they are arguments of
-- the loops: a type of states with the operations that the loops call.
use google_cloud_cpp_spanner.Prelude.{ℕ, ◌<◌, ◌≡◌, Bool, true}
use google_cloud_cpp_spanner.Status.{Status}

-- `RetryPolicy`: `OnFailure` gives the next state, and whether the loop may go on.
pub record RetryPolicy (P : Type 0) : Type 0 where
  pub is_exhausted : P → Bool
  pub on_failure : P → Status → P × Bool

-- `BackoffPolicy`: `OnCompletion` gives the next state and how long to sleep.
pub record BackoffPolicy (B : Type 0) : Type 0 where
  pub on_completion : B → B × ℕ

-- `PollingPolicy`: `WaitPeriod` gives the next state and how long to sleep.
pub record PollingPolicy (P : Type 0) : Type 0 where
  pub wait_period : P → P × ℕ
  pub on_failure : P → Status → P × Bool

-- The state of a `GenericPollingPolicy`: that of the policies that it keeps.
pub record GenericState (R B : Type 0) : Type 0 where
  pub retry_policy : R
  pub backoff_policy : B

-- `GenericPollingPolicy` of polling_policy.h.
unfoldable pub generic_polling_policy :
    {R B : Type 0} → RetryPolicy R → BackoffPolicy B → PollingPolicy (GenericState R B)
generic_polling_policy retry backoff = record {
  wait_period = λ p.
      let slept = backoff.on_completion p.backoff_policy in
      (record p { backoff_policy = slept.0 }, slept.1);
  on_failure = λ p s.
      let verdict = retry.on_failure p.retry_policy s in
      (record p { retry_policy = verdict.0 }, verdict.1);
}

-- A policy that allows a bounded number of failures, as `LimitedErrorCountRetryPolicy` does.
abbrev pub IsLimited : {P : Type 0} → (P → Status → P × Bool) → (P → ℕ) → Type 0
IsLimited {P} on_failure budget =
    (p q : P) (s : Status) → on_failure p s ≡ (q, true) → budget q < budget p
