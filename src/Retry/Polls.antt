-- ===== src/Retry/Polls.antt =====
-- How often `PollingLoopImpl` polls, and which operation it passes on.
use google_cloud_cpp_spanner.Prelude.{
  ℕ, zero, suc, ◌+◌, ◌≤◌, ◌<◌, ◌≡◌, refl, sym, ap, subst, ◌∙◌, ◌∷◌, Bool, true, false, Option, some,
  ◌⊎◌, inl, inr, String, length, arith, Bool-cases, ==_iff, ◌==◌,
}
use google_cloud_cpp_spanner.Status.{Status, StatusOr, value, error}
use google_cloud_cpp_spanner.Retry.Policy.{PollingPolicy, IsLimited}
use google_cloud_cpp_spanner.Retry.Polling.{
  Operation, Polled, Polling, status_of, is_done, updated, finish, stop, decided, polled, poll,
  poll_all, polling_loop,
}

-- The operation as the updates of some polls leave it.
abbrev pub known :
    {E Any : Type 0} → Operation E Any → (ℕ → StatusOr (Operation E Any)) → ℕ → Operation E Any
known operation answers zero = operation
known operation answers (suc k) = updated (known operation answers k) (answers k)

updated-done :
    {E Any : Type 0} (o : Operation E Any) (update : StatusOr (Operation E Any))
    → is_done update ≡ true
    → (updated o update).done ≡ true
updated-done o (value u) h = h
updated-done o (error s) h = absurd (ground (arith, h))

module _ {P E Any A : Type 0} (policy : PollingPolicy P) (make_status : E → Status)
    (extract : Operation E Any → String → StatusOr A) (location : String)
    (answers : ℕ → StatusOr (Operation E Any)) (initial : Operation E Any) where
  -- A result is that of the operation when it is done, or the last poll did not complete it and
  -- the policy stopped the loop.
  pub data IsEnd : ℕ → StatusOr A → Type 0 where
    completed :
        (polls : ℕ)
        → (known initial answers polls).done ≡ true
        → IsEnd polls
            (finish policy make_status extract location answers (known initial answers polls))
    stopped :
        (k : ℕ)
        → is_done (answers k) ≡ false
        → IsEnd (suc k) (stop policy make_status extract location answers (answers k))

  -- No poll but the last completed the operation, and the loop slept before each.
  pub record IsPolled (bound : ℕ) (r : Polled A) : Type 0 where
    pub bounded : r.polls ≤ bound
    pub pending : (k : ℕ) → suc k < r.polls → is_done (answers k) ≡ false
    pub by_end : IsEnd r.polls r.result
    pub slept : length r.sleeps ≡ r.polls

  module _ (budget : P → ℕ) (is_limited : IsLimited policy.on_failure budget)
      (keeps : (p : P) → budget (policy.wait_period p).0 ≤ budget p) where
    record Going (bound : ℕ) (l : Polling P E Any) : Type 0 where
      room : l.polls + suc (budget l.polling_policy) ≤ bound
      pending : (k : ℕ) → k < l.polls → is_done (answers k) ≡ false
      operation : l.operation ≡ known initial answers l.polls
      slept : length l.sleeps ≡ l.polls

    Next : ℕ → Polling P E Any → Polling P E Any ⊎ Polled A → Type 0
    Next bound l (inl next) =
        Going bound next × (budget next.polling_policy < budget l.polling_policy)
    Next bound l (inr r) = IsPolled bound r

    -- Within a pass: the loop has slept, and the budget is at most what it was.
    record Slept (bound : ℕ) (l now : Polling P E Any) : Type 0 where
      going : Going bound l
      budget_kept : budget now.polling_policy ≤ budget l.polling_policy
      same_operation : now.operation ≡ l.operation
      same_polls : now.polls ≡ l.polls
      slept_once : length now.sleeps ≡ suc l.polls

    abbrev ended_report : Polling P E Any → Polled A
    ended_report now = record {
      result =
          finish policy make_status extract location answers
            (updated now.operation (answers now.polls));
      polls = suc now.polls;
      sleeps = now.sleeps;
    }

    abbrev done_report : Polling P E Any → Polled A
    done_report l = record {
      result = finish policy make_status extract location answers l.operation;
      polls = l.polls;
      sleeps = l.sleeps;
    }

    abbrev waiting : Polling P E Any → Polling P E Any
    waiting l =
        let waited = policy.wait_period l.polling_policy in
        record l { polling_policy = waited.0; sleeps = waited.1 ∷ l.sleeps }

    pending-step :
        (n : ℕ)
        → ((k : ℕ) → k < n → is_done (answers k) ≡ false)
        → is_done (answers n) ≡ false
        → (k : ℕ) → k < suc n
        → is_done (answers k) ≡ false
    pending-step n before e k lt = elim (Bool-cases (k == n)) [
      | inl here ↦ ap (λ i. is_done (answers i)) (omega (arith, (==_iff k n).0 here)) ∙ e
      | inr earlier ↦ before k (ground (arith, earlier))
    ]

    decided-Next :
        (bound : ℕ) (l now : Polling P E Any) (verdict : P × Bool)
        → Slept bound l now
        → is_done (answers now.polls) ≡ false
        → policy.on_failure now.polling_policy (status_of (answers now.polls)) ≡ verdict
        → Next bound l
            (decided policy make_status extract location answers now (answers now.polls) verdict)
    unfolding Next decided
    decided-Next bound l now (q, true) s e v =
        let g = s.going in
        let less = is_limited now.polling_policy q (status_of (answers now.polls)) v in
        (
          record {
            room = omega (arith, less, s.budget_kept, s.same_polls, g.room);
            pending = pending-step now.polls (λ k lt. g.pending k (omega (arith, s.same_polls))) e;
            operation =
                ap (λ o. updated o (answers now.polls))
                  (s.same_operation ∙ g.operation ∙ ap (known initial answers) (sym s.same_polls));
            slept = s.slept_once ∙ ap suc (sym s.same_polls);
          },
          omega (arith, less, s.budget_kept),
        )
    decided-Next bound l now (q, false) s e v =
        let g = s.going in
        record {
          bounded = omega (arith, s.same_polls, g.room);
          pending = λ k lt. g.pending k (omega (arith, s.same_polls));
          by_end = stopped now.polls e;
          slept = s.slept_once ∙ ap suc (sym s.same_polls);
        }

    polled-Next :
        (bound : ℕ) (l now : Polling P E Any)
        → Slept bound l now
        → Next bound l (polled policy make_status extract location answers now (answers now.polls))
    unfolding Next polled
    polled-Next bound l now s = elim (Bool-cases (is_done (answers now.polls))) [
      | inl done ↦
          let g = s.going in
          let same : now.operation ≡ known initial answers now.polls =
            s.same_operation ∙ g.operation ∙ ap (known initial answers) (sym s.same_polls) in
          let ended : IsPolled bound (ended_report now) = record {
            bounded = omega (arith, s.same_polls, g.room);
            pending = λ k lt. g.pending k (omega (arith, s.same_polls));
            by_end =
                subst
                  (λ o. IsEnd (suc now.polls) (
                    finish policy make_status extract location answers
                      (updated o (answers now.polls))))
                  (sym same)
                  (completed (suc now.polls)
                    (updated-done (known initial answers now.polls) (answers now.polls) done));
            slept = s.slept_once ∙ ap suc (sym s.same_polls);
          } in
          subst (λ r. Next bound l r) {x = inr (ended_report now)} (rw done) ended
      | inr more ↦
          subst (λ r. Next bound l r)
            {x = decided policy make_status extract location answers now (answers now.polls)
              (policy.on_failure now.polling_policy (status_of (answers now.polls)))}
            (rw more) (decided-Next bound l now _ s more refl)
    ]

    poll-Next :
        (bound : ℕ) (l : Polling P E Any)
        → Going bound l
        → Next bound l (poll policy make_status extract location answers l)
    unfolding Next poll
    poll-Next bound l g = elim (Bool-cases l.operation.done) [
      | inl done ↦
          let ended : IsPolled bound (done_report l) = record {
            bounded = omega (arith, g.room);
            pending = λ k lt. g.pending k (omega arith);
            by_end =
                subst (λ o. IsEnd l.polls (finish policy make_status extract location answers o))
                  (sym g.operation) (completed l.polls (ap (λ o. o.done) (sym g.operation) ∙ done));
            slept = g.slept;
          } in
          subst (λ r. Next bound l r) {x = inr (done_report l)} (rw done) ended
      | inr more ↦
          subst (λ r. Next bound l r)
            {x = polled policy make_status extract location answers (waiting l) (answers l.polls)}
            (rw more)
            (polled-Next bound l (waiting l) (record {
              going = g;
              budget_kept = keeps l.polling_policy;
              same_operation = refl;
              same_polls = refl;
              slept_once = ap suc g.slept;
            }))
    ]

    Ends : ℕ → Option (Polled A) → Type 0
    Ends bound o = (r : Polled A) × (o ≡ some r) × IsPolled bound r

    after-Ends :
        (fuel bound : ℕ) (l : Polling P E Any) (t : Polling P E Any ⊎ Polled A)
        → poll policy make_status extract location answers l ≡ t
        → Next bound l t
        → ((next : Polling P E Any)
            → Going bound next
            → budget next.polling_policy < budget l.polling_policy
            → Ends bound (poll_all policy make_status extract location answers fuel next))
        → Ends bound (poll_all policy make_status extract location answers (suc fuel) l)
    unfolding poll_all Next Ends
    after-Ends fuel bound l (inl next) e (g, less) more =
        let rest = more next g less in (rest.0, rw (e, poll_all) rest.1, rest.2)
    after-Ends fuel bound l (inr r) e x more = (r, rw (e, poll_all), x)

    poll_all-Ends :
        (fuel bound : ℕ) (l : Polling P E Any)
        → Going bound l
        → budget l.polling_policy < fuel
        → Ends bound (poll_all policy make_status extract location answers fuel l)
    poll_all-Ends zero bound l g enough = absurd (omega arith)
    poll_all-Ends (suc fuel) bound l g enough =
        after-Ends fuel bound l (poll policy make_status extract location answers l) refl
          (poll-Next bound l g) (λ next g2 less. poll_all-Ends fuel bound next g2 (omega arith))

    pub polling_loop-IsPolled :
        (fuel : ℕ) (p : P)
        → budget p < fuel
        → (r : Polled A) × (polling_loop policy make_status extract location answers fuel p initial
            ≡ some r)
          × IsPolled (suc (budget p)) r
    unfolding polling_loop Ends
    polling_loop-IsPolled fuel p enough =
        poll_all-Ends fuel (suc (budget p)) _
          (record {
            room = omega arith;
            pending = λ k lt. absurd (omega arith);
            operation = refl;
            slept = refl;
          })
          enough
