-- ===== src/Retry/Calls.antt =====
-- How often `RetryLoopImpl` calls the functor, and which answer it passes on.
use google_cloud_cpp_spanner.Prelude.{
  ℕ, zero, suc, ◌+◌, ◌≤◌, ◌<◌, ◌≡◌, refl, ap, subst, ◌∙◌, Bool, true, false, Option, some, ◌⊎◌, inl,
  inr, String, length, arith, Bool-cases, ==_iff, ◌==◌,
}
use google_cloud_cpp_spanner.Status.{Status, status, ok_status, StatusOr, value, error}
use google_cloud_cpp_spanner.Retry.Policy.{RetryPolicy, BackoffPolicy, IsLimited}
use google_cloud_cpp_spanner.Retry.Loop.{
  Report, Loop, retry_loop_error, give_up, failed, called, turn, run, retry_loop,
}

-- The failure of the last of some calls; a default status where there was no call.
abbrev pub IsLastFailure : {A : Type 0} → (ℕ → StatusOr A) → ℕ → Status → Type 0
IsLastFailure answers zero s = s ≡ ok_status
IsLastFailure answers (suc k) s = answers k ≡ error s

-- A result, by the answers to the calls before it: the value that the last call answered, or an
-- error with the code of the last failure.
pub data IsResult {A : Type 0} (answers : ℕ → StatusOr A) : ℕ → StatusOr A → Type 0 where
  passed_on : (k : ℕ) (a : A) → answers k ≡ value a → IsResult answers (suc k) (value a)
  reported :
      (calls : ℕ) (s : Status) (message : String)
      → IsLastFailure answers calls s
      → IsResult answers calls (error (status s.code message))

-- Every call but the last failed, the result is by the last one, and the loop slept only between.
pub record IsExplained {A : Type 0} (is_idempotent : Bool) (answers : ℕ → StatusOr A) (bound : ℕ)
    (r : Report A) : Type 0 where
  pub bounded : r.calls ≤ bound
  pub retried : (k : ℕ) → suc k < r.calls → (s : Status) × (answers k ≡ error s)
  pub by_last : IsResult answers r.calls r.result
  pub slept : length r.sleeps ≤ r.calls
  pub once : is_idempotent ≡ false → r.calls ≤ 1

module _ {P B A : Type 0} (policy : RetryPolicy P) (backoff : BackoffPolicy B)
    (print : Status → String) (location : String) (is_idempotent : Bool) (answers : ℕ → StatusOr A)
    (budget : P → ℕ) (is_limited : IsLimited policy.on_failure budget) where
  -- What holds between two passes; `bound` is how many calls there can be in all.
  record Going (bound : ℕ) (l : Loop P B) : Type 0 where
    room : l.calls + suc (budget l.retry_policy) ≤ bound
    all_failed : (k : ℕ) → k < l.calls → (s : Status) × (answers k ≡ error s)
    last : IsLastFailure answers l.calls l.last_status
    slept : length l.sleeps ≤ l.calls
    fresh : is_idempotent ≡ false → l.calls ≡ 0

  Next : ℕ → Loop P B → Loop P B ⊎ Report A → Type 0
  Next bound l (inl next) = Going bound next × (budget next.retry_policy < budget l.retry_policy)
  Next bound l (inr r) = IsExplained is_idempotent answers bound r

  all_failed-step :
      (n : ℕ) (s : Status)
      → ((k : ℕ) → k < n → (t : Status) × (answers k ≡ error t))
      → answers n ≡ error s
      → (k : ℕ) → k < suc n
      → (t : Status) × (answers k ≡ error t)
  all_failed-step n s before e k lt = elim (Bool-cases (k == n)) [
    | inl here ↦ (s, ap answers (omega (arith, (==_iff k n).0 here)) ∙ e)
    | inr earlier ↦ before k (ground (arith, earlier))
  ]

  failed-Next :
      (bound : ℕ) (l : Loop P B) (s : Status) (verdict : P × Bool)
      → is_idempotent ≡ true
      → Going bound l
      → answers l.calls ≡ error s
      → policy.on_failure l.retry_policy s ≡ verdict
      → Next bound l (failed policy backoff print location is_idempotent answers l s verdict)
  unfolding Next failed give_up retry_loop_error
  failed-Next bound l s (q, true) idem g e v =
      let less = is_limited l.retry_policy q s v in
      (
        record {
          room = omega arith;
          all_failed = all_failed-step l.calls s g.all_failed e;
          last = e;
          slept = omega (arith, g.slept);
          fresh = λ no. absurd (ground (arith, idem, no));
        },
        less,
      )
  failed-Next bound l s (q, false) idem g e v = record {
    bounded = omega (arith, g.room);
    retried = λ k lt. g.all_failed k (omega arith);
    by_last = reported (suc l.calls) s _ e;
    slept = omega (arith, g.slept);
    once = λ no. omega (arith, g.fresh no);
  }

  called-Next :
      (bound : ℕ) (l : Loop P B) (answer : StatusOr A)
      → Going bound l
      → answers l.calls ≡ answer
      → Next bound l (called policy backoff print location is_idempotent answers l answer)
  unfolding called Next retry_loop_error
  called-Next bound l (value a) g e = record {
    bounded = omega (arith, g.room);
    retried = λ k lt. g.all_failed k (omega arith);
    by_last = passed_on l.calls a e;
    slept = omega (arith, g.slept);
    once = λ no. omega (arith, g.fresh no);
  }
  called-Next bound l (error s) g e = elim (Bool-cases is_idempotent) [
    | inl yes_ ↦
        subst (λ r. Next bound l r) (rw yes_)
          (failed-Next bound l s (policy.on_failure l.retry_policy s) yes_ g e refl)
    | inr once ↦
        let ended : Next bound l (
            inr (record {
              result =
                  error (retry_loop_error print "Error in non-idempotent operation" location s);
              calls = suc l.calls;
              sleeps = l.sleeps;
            })) =
          record {
            bounded = omega (arith, g.room);
            retried = λ k lt. g.all_failed k (omega arith);
            by_last = reported (suc l.calls) s _ e;
            slept = omega (arith, g.slept);
            once = λ no. omega (arith, g.fresh no);
          } in
        subst (λ r. Next bound l r)
          {x = inr (record {
            result = error (retry_loop_error print "Error in non-idempotent operation" location s);
            calls = suc l.calls;
            sleeps = l.sleeps;
          })}
          (rw once) ended
  ]

  turn-Next :
      (bound : ℕ) (l : Loop P B)
      → Going bound l
      → Next bound l (turn policy backoff print location is_idempotent answers l)
  unfolding turn Next give_up retry_loop_error
  turn-Next bound l g = elim (Bool-cases (policy.is_exhausted l.retry_policy)) [
    | inl out ↦
        let ended : Next bound l
            (inr (give_up policy backoff print location is_idempotent answers l)) =
          record {
            bounded = omega (arith, g.room);
            retried = λ k lt. g.all_failed k (omega arith);
            by_last = reported l.calls l.last_status _ g.last;
            slept = g.slept;
            once = λ no. omega (arith, g.fresh no);
          } in
        subst (λ r. Next bound l r)
          {x = inr (give_up policy backoff print location is_idempotent answers l)} (rw out) ended
    | inr more ↦
        subst (λ r. Next bound l r) (rw more) (called-Next bound l (answers l.calls) g refl)
  ]

  -- The loop ends in an explained report.
  Ends : ℕ → Option (Report A) → Type 0
  Ends bound o = (r : Report A) × (o ≡ some r) × IsExplained is_idempotent answers bound r

  after-Ends :
      (fuel bound : ℕ) (l : Loop P B) (t : Loop P B ⊎ Report A)
      → turn policy backoff print location is_idempotent answers l ≡ t
      → Next bound l t
      → ((next : Loop P B)
          → Going bound next
          → budget next.retry_policy < budget l.retry_policy
          → Ends bound (run policy backoff print location is_idempotent answers fuel next))
      → Ends bound (run policy backoff print location is_idempotent answers (suc fuel) l)
  unfolding run Next Ends
  after-Ends fuel bound l (inl next) e (g, less) more =
      let rest = more next g less in (rest.0, rw (e, run) rest.1, rest.2)
  after-Ends fuel bound l (inr r) e x more = (r, rw (e, run), x)

  run-Ends :
      (fuel bound : ℕ) (l : Loop P B)
      → Going bound l
      → budget l.retry_policy < fuel
      → Ends bound (run policy backoff print location is_idempotent answers fuel l)
  run-Ends zero bound l g enough = absurd (omega arith)
  run-Ends (suc fuel) bound l g enough =
      after-Ends fuel bound l (turn policy backoff print location is_idempotent answers l) refl
        (turn-Next bound l g) (λ next g2 less. run-Ends fuel bound next g2 (omega arith))

  -- The loop ends, whatever the functor answers, once the fuel is above the number of failures
  -- that the policy allows. It calls the functor at most once more than that number; every call
  -- but the last failed; the result is the value that the last call answered, or an error with the
  -- code of the last failure (of a default status, when the policy is exhausted before the first
  -- call); it has
  -- slept at most once for each call; and an operation that is not idempotent is called at most once.
  pub retry_loop-IsExplained :
      (fuel : ℕ) (p : P) (b : B)
      → budget p < fuel
      → (r : Report A) × (retry_loop policy backoff print location is_idempotent answers fuel p b
          ≡ some r)
        × IsExplained is_idempotent answers (suc (budget p)) r
  unfolding retry_loop Ends
  retry_loop-IsExplained fuel p b enough =
      run-Ends fuel (suc (budget p)) _
        (record {
          room = omega arith;
          all_failed = λ k lt. absurd (omega arith);
          last = refl;
          slept = omega arith;
          fresh = λ no. refl;
        })
        enough
