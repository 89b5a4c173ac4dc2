-- ===== src/Retry/Loop.antt =====
-- `RetryLoopImpl` of internal/retry_loop.h and `RetryLoopError` of internal/retry_loop.cc. The
-- functor is the answers that its calls get, the first call's at 0; the sleeper writes down how long
-- it sleeps. A turn is one pass of the `while` loop.
use Prim.Native.String.{String, ◌++◌}
use google_cloud_cpp_spanner.Prelude.{
  ℕ, zero, suc, List, [], ◌∷◌, Bool, true, false, not, Option, none, some, ◌⊎◌, inl, inr,
  if◌then◌else◌,
}
use google_cloud_cpp_spanner.Status.{Status, status, ok_status, StatusOr, value, error}
use google_cloud_cpp_spanner.Retry.Policy.{RetryPolicy, BackoffPolicy}

pub record Report (A : Type 0) : Type 0 where
  pub result : StatusOr A
  pub calls : ℕ
  pub sleeps : List ℕ

-- What the loop keeps between two passes; the latest sleep stands first.
pub record Loop (P B : Type 0) : Type 0 where
  pub retry_policy : P
  pub backoff_policy : B
  pub last_status : Status
  pub calls : ℕ
  pub sleeps : List ℕ

-- `RetryLoopError`, where `print` is how a `Status` is streamed.
unfoldable pub retry_loop_error : (Status → String) → String → String → Status → Status
retry_loop_error print loop_message location last_status =
    status last_status.code (loop_message ++ " " ++ location ++ ": " ++ print last_status)

module _ {P B A : Type 0} (policy : RetryPolicy P) (backoff : BackoffPolicy B)
    (print : Status → String) (location : String) (is_idempotent : Bool)
    (answers : ℕ → StatusOr A) where
  -- Behind the loop.
  unfoldable pub give_up : Loop P B → Report A
  unfolding retry_loop_error
  give_up l =
      let message =
        if not (policy.is_exhausted l.retry_policy)
        then "Permanent error in"
        else "Retry policy exhausted in" in
      record {
        result = error (retry_loop_error print message location l.last_status);
        calls = l.calls;
        sleeps = l.sleeps;
      }

  -- What a failed call leads to, by the answer of `OnFailure`.
  unfoldable pub failed : Loop P B → Status → P × Bool → Loop P B ⊎ Report A
  unfolding give_up
  failed l s (q, false) =
      inr (give_up (record l { retry_policy = q; last_status = s; calls = suc l.calls }))
  failed l s (q, true) =
      let slept = backoff.on_completion l.backoff_policy in
      inl (record {
        retry_policy = q;
        backoff_policy = slept.0;
        last_status = s;
        calls = suc l.calls;
        sleeps = slept.1 ∷ l.sleeps;
      })

  unfoldable pub called : Loop P B → StatusOr A → Loop P B ⊎ Report A
  unfolding failed
  called l (value a) = inr (record { result = value a; calls = suc l.calls; sleeps = l.sleeps })
  called l (error s) =
      if not is_idempotent
      then inr (record {
        result = error (retry_loop_error print "Error in non-idempotent operation" location s);
        calls = suc l.calls;
        sleeps = l.sleeps;
      })
      else failed l s (policy.on_failure l.retry_policy s)

  unfoldable pub turn : Loop P B → Loop P B ⊎ Report A
  unfolding called
  turn l =
      if policy.is_exhausted l.retry_policy then inr (give_up l) else called l (answers l.calls)

  unfoldable pub run : ℕ → Loop P B → Option (Report A)
  unfolding turn
  run zero l = none
  run (suc fuel) l = elim (turn l) [ inl next ↦ run fuel next | inr r ↦ some r ]

  -- `RetryLoopImpl`.
  unfoldable pub retry_loop : ℕ → P → B → Option (Report A)
  unfolding run
  retry_loop fuel p b = run fuel (record {
    retry_policy = p;
    backoff_policy = b;
    last_status = ok_status;
    calls = 0;
    sleeps = [];
  })
