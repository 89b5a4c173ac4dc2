-- ===== src/Retry/Persistence.antt =====
-- When `RetryLoopImpl` goes on: behind failures that its policy allows.
use google_cloud_cpp_spanner.Prelude.{
  ℕ, zero, suc, ◌+◌, ◌≤◌, ◌<◌, ◌≡◌, refl, ap, ◌∙◌, ◌∷◌, true, false, Option, some, inl, inr, String,
  arith,
}
use google_cloud_cpp_spanner.Status.{Status, StatusOr, value, error}
use google_cloud_cpp_spanner.Retry.Policy.{RetryPolicy, BackoffPolicy, IsLimited}
use google_cloud_cpp_spanner.Retry.Loop.{Report, Loop, called, failed, turn, run, retry_loop}

-- The `k` answers from number `n` on are failures, and the policy, from the state `p` on, lets the loop
-- go on behind each of them.
abbrev pub Allows : {P A : Type 0} → RetryPolicy P → (ℕ → StatusOr A) → ℕ → P → ℕ → Type 0
Allows policy answers n p zero = policy.is_exhausted p ≡ false
Allows {P} policy answers n p (suc k) =
    (policy.is_exhausted p ≡ false)
    × (s : Status) × (q : P) × (answers n ≡ error s)
    × (policy.on_failure p s ≡ (q, true))
    × Allows policy answers (suc n) q k

module _ {P B A : Type 0} (policy : RetryPolicy P) (backoff : BackoffPolicy B)
    (print : Status → String) (location : String) (answers : ℕ → StatusOr A) where
  turn-value :
      (l : Loop P B) (a : A)
      → policy.is_exhausted l.retry_policy ≡ false
      → answers l.calls ≡ value a
      → turn policy backoff print location true answers l
        ≡ inr (record { result = value a; calls = suc l.calls; sleeps = l.sleeps })
  unfolding turn called
  turn-value l a usable e = rw (usable, e, called) refl

  turn-again :
      (l : Loop P B) (s : Status) (q : P)
      → policy.is_exhausted l.retry_policy ≡ false
      → answers l.calls ≡ error s
      → policy.on_failure l.retry_policy s ≡ (q, true)
      → turn policy backoff print location true answers l
        ≡ inl (record {
          retry_policy = q;
          backoff_policy = (backoff.on_completion l.backoff_policy).0;
          last_status = s;
          calls = suc l.calls;
          sleeps = (backoff.on_completion l.backoff_policy).1 ∷ l.sleeps;
        })
  unfolding turn called failed
  turn-again l s q usable e v =
      rw (usable, e, called) (ap (failed policy backoff print location true answers l s) v)

  run-next :
      (fuel : ℕ) (l next : Loop P B)
      → turn policy backoff print location true answers l ≡ inl next
      → run policy backoff print location true answers (suc fuel) l
        ≡ run policy backoff print location true answers fuel next
  unfolding run
  run-next fuel l next e = rw (e, run) refl

  run-over :
      (fuel : ℕ) (l : Loop P B) (r : Report A)
      → turn policy backoff print location true answers l ≡ inr r
      → run policy backoff print location true answers (suc fuel) l ≡ some r
  unfolding run
  run-over fuel l r e = rw (e, run) refl

  Arrives : ℕ → Option (Report A) → A → Type 0
  Arrives n o a = (r : Report A) × (o ≡ some r) × (r.calls ≡ suc n) × (r.result ≡ value a)

  run-Arrives :
      (k fuel : ℕ) (l : Loop P B) (a : A)
      → Allows policy answers l.calls l.retry_policy k
      → answers (l.calls + k) ≡ value a
      → k < fuel
      → Arrives (l.calls + k) (run policy backoff print location true answers fuel l) a
  unfolding Arrives
  run-Arrives k zero l a usable e enough = absurd (omega arith)
  run-Arrives zero (suc fuel) l a usable e enough =
      let here : answers l.calls ≡ value a = ap answers (omega arith) ∙ e in
      (_, run-over fuel l _ (turn-value l a usable here), omega arith, refl)
  run-Arrives (suc k) (suc fuel) l a (usable, s, q, failed_, goes, rest) e enough =
      let (r, went, calls, result) =
        run-Arrives k fuel
          (record {
            retry_policy = q;
            backoff_policy = (backoff.on_completion l.backoff_policy).0;
            last_status = s;
            calls = suc l.calls;
            sleeps = (backoff.on_completion l.backoff_policy).1 ∷ l.sleeps;
          })
          a rest (ap answers (omega arith) ∙ e) (omega arith) in
      (
        r,
        run-next fuel l _ (turn-again l s q usable failed_ goes) ∙ went,
        omega (arith, calls),
        result,
      )

  Allows-bounded :
      (budget : P → ℕ)
      → IsLimited policy.on_failure budget
      → (k n : ℕ) (p : P) → Allows policy answers n p k
      → k ≤ budget p
  Allows-bounded budget limited zero n p h = omega arith
  Allows-bounded budget limited (suc k) n p (usable, s, q, failed_, goes, rest) =
      let less = limited p q s goes in
      let more = Allows-bounded budget limited k (suc n) q rest in omega arith

  -- An idempotent call goes on behind every failure that its policy allows.
  pub retry_loop-persists :
      (budget : P → ℕ)
      → IsLimited policy.on_failure budget
      → (k : ℕ) (p : P) (b : B) (a : A) → Allows policy answers 0 p k
      → answers k ≡ value a
      → (r : Report A) × (retry_loop policy backoff print location true answers (suc (budget p)) p b
          ≡ some r)
        × (r.calls ≡ suc k)
        × (r.result ≡ value a)
  unfolding retry_loop Arrives
  retry_loop-persists budget limited k p b a allowed e =
      let few = Allows-bounded budget limited k 0 p allowed in
      let (r, went, calls, result) =
        run-Arrives k (suc (budget p)) _ a allowed (ap answers (omega arith) ∙ e) (omega arith) in
      (r, went, omega (arith, calls), result)
