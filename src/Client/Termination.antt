-- ===== src/Client/Termination.antt =====
-- `Client::Commit` ends, and how.
use google_cloud_cpp_spanner.Prelude.{
  ℕ, zero, suc, ◌+◌, ◌≤◌, ◌<◌, ◌≡◌, refl, ap, sym, subst, ◌∙◌, ◌⊎◌, inl, inr, List, length, All,
  Bool, true, false, Bool-cases, Option, none, some, arith,
}
use google_cloud_cpp_spanner.Status.{
  Status, StatusOr, value, error, is_session_not_found, is_rerun_transient,
}
use google_cloud_cpp_spanner.Retry.Policy.{RetryPolicy, BackoffPolicy, IsLimited}
use google_cloud_cpp_spanner.Transaction.Impl.{read_write_transaction, rerun_transaction}
use google_cloud_cpp_spanner.Requests.Mutations.{Mutation}
use google_cloud_cpp_spanner.Connection.Service.{Service, Visit, Log}
use google_cloud_cpp_spanner.Connection.Commits.{commit_impl, rollback_impl}
use google_cloud_cpp_spanner.Connection.Visiting.{Transacting, visit_of}
use google_cloud_cpp_spanner.Connection.Committed.{commit_impl-last}
use google_cloud_cpp_spanner.Client.Commit.{
  Mutated, returned, threw_status, threw, Ended, returns, rethrows, Rerun, Outcome, thrown_status,
  mutations_of, next_transaction, and_then, over, rolling_back, rerun, committed, committing,
  mutated, turn, commit_loop, client_commit,
}
use google_cloud_cpp_spanner.Client.Reruns.{
  IsReady, IsTransient, Commits, IsCommitOf, Fails, rolled_back_log, IsEnding, IsExplained,
  visit_ready,
}

module _ {P B R S : Type 0} (service : Service R S) (policy : RetryPolicy P)
    (backoff : BackoffPolicy B) (mutator : ℕ → Transacting → Mutated × Transacting) (budget : P → ℕ)
    (is_limited : IsLimited policy.on_failure budget)
    (keeps : (k : ℕ) (t : Transacting) → IsReady t → IsReady (mutator k t).1) where
  -- What holds between two passes.
  record Going (bound : ℕ) (l : Rerun P B) : Type 0 where
    room : l.reruns + suc (budget l.rerun_policy) ≤ bound
    transient : All IsTransient l.failures
    counted : length l.failures ≡ l.reruns
    slept : length l.sleeps ≡ l.reruns
    ready : IsReady l.txn

  Next : ℕ → Rerun P B → Option (Rerun P B ⊎ Outcome) → Type 0
  Next bound l none = ⊥
  Next bound l (some (inl next)) =
      Going bound next × (budget next.rerun_policy < budget l.rerun_policy)
  Next bound l (some (inr o)) = IsExplained service mutator policy bound o

  next-IsReady : (s : Status) (t : Transacting) → IsReady (next_transaction s t)
  unfolding next_transaction read_write_transaction rerun_transaction
  next-IsReady s t = elim (Bool-cases (is_session_not_found s)) [
    | inl lost ↦ rw lost tt
    | inr other ↦ rw other tt
  ]

  rerun-Next :
      (bound : ℕ) (l : Rerun P B) (s : Status) (t : Transacting) (verdict : P × Bool)
      → Going bound l
      → IsTransient s
      → Fails service mutator l.reruns s (λ u. u.log) t.log
      → policy.on_failure l.rerun_policy s ≡ verdict
      → Next bound l (rerun service policy backoff mutator l s t verdict)
  unfolding Next rerun
  rerun-Next bound l s t (q, false) g transient fails v = record {
    bounded = omega (arith, g.room);
    transient = (transient, g.transient);
    slept = omega (arith, g.slept);
    ending = inr (
      l.failures,
      refl,
      omega (arith, g.counted),
      subst (λ k. Fails service mutator k s (λ u. u.log) t.log) (sym g.counted) fails,
      l.rerun_policy,
      q,
      v,
    );
  }
  rerun-Next bound l s t (q, true) g transient fails v =
      let less = is_limited l.rerun_policy q s v in
      (
        record {
          room = omega (arith, g.room);
          transient = (transient, g.transient);
          counted = omega (arith, g.counted);
          slept = omega (arith, g.slept);
          ready = next-IsReady s t;
        },
        less,
      )

  -- A failure that is not transient ends the loop behind a rollback.
  rolling_back-Next :
      (bound : ℕ) (l : Rerun P B) (e : Ended) (t : Transacting)
      → Going bound l
      → IsReady t
      → IsEnding service mutator policy e l.failures
          (suc l.reruns)
          (rolled_back_log service mutator t)
      → Next bound l (rolling_back service policy backoff mutator l e t)
  unfolding Next rolling_back
  rolling_back-Next bound l e t g h ends =
      let (r, w, u, went, did, same, kept) = visit_ready (λ n v. rollback_impl service v) t h in
      subst (λ o. Next bound l (and_then o (λ x. over service policy backoff mutator l e x.1)))
        (sym went)
        (record {
          bounded = omega (arith, g.room);
          transient = g.transient;
          slept = omega (arith, g.slept);
          ending =
              subst (λ log. IsEnding service mutator policy e l.failures (suc l.reruns) log)
                (ap (λ p. p.1.log) did ∙ sym same) ends;
        })

  committed-Next :
      (bound : ℕ) (l : Rerun P B) (result : StatusOr ℕ) (t : Transacting)
      → Going bound l
      → ((timestamp : ℕ)
          → result ≡ value timestamp
          → (mutations : List Mutation) × IsCommitOf service mutator l.reruns mutations
              (value timestamp)
              t.log
            × Commits mutations t.log)
      → ((s : Status)
          → result ≡ error s
          → (mutations : List Mutation) × IsCommitOf service mutator l.reruns mutations
              (error s)
              t.log)
      → Next bound l (committed service policy backoff mutator l (result, t))
  unfolding Next committed
  committed-Next bound l (value timestamp) t g c f =
      let (mutations, made, sent) = c timestamp refl in
      record {
        bounded = omega (arith, g.room);
        transient = g.transient;
        slept = omega (arith, g.slept);
        ending = (
          omega (arith, g.counted),
          mutations,
          subst (λ k. IsCommitOf service mutator k mutations (value timestamp) t.log)
              (sym g.counted) made,
          sent,
        );
      }
  committed-Next bound l (error s) t g c f = elim (Bool-cases (is_rerun_transient s)) [
    | inl transient ↦
        subst (λ p. Next bound l p) (rw transient refl)
          (rerun-Next bound l s t (policy.on_failure l.rerun_policy s) g transient (inr (f s refl))
            refl)
    | inr permanent ↦
        let explained : Next bound l (over service policy backoff mutator l (returns (error s)) t) =
          record {
            bounded = omega (arith, g.room);
            transient = g.transient;
            slept = omega (arith, g.slept);
            ending = inl (
              permanent,
              omega (arith, g.counted),
              subst (λ k. Fails service mutator k s (rolled_back_log service mutator) t.log)
                  (sym g.counted) (inr (f s refl)),
            );
          } in
        subst (λ p. Next bound l p)
          {x = over service policy backoff mutator l (returns (error s)) t} (rw permanent refl)
          explained
  ]

  committing-Next :
      (bound : ℕ) (l : Rerun P B) (mutations : List Mutation) (t from : Transacting)
      → Going bound l
      → IsReady t
      → (mutator l.reruns from).0 ≡ returned (value mutations)
      → (mutator l.reruns from).1 ≡ t
      → Next bound l (committing service policy backoff mutator l mutations t)
  unfolding committing
  committing-Next bound l mutations t from g h made left =
      let (r, w, u, went, did, same, kept) =
        visit_ready (λ n v. commit_impl service mutations v) t h in
      subst (λ o. Next bound l (and_then o (λ x. committed service policy backoff mutator l x)))
        (sym went)
        (committed-Next bound l r u g
          (λ timestamp ok.
            let sent = did ∙ ap (λ x. (x, w)) ok in
            let (n, i, before, last) =
              commit_impl-last service mutations (visit_of t) w timestamp sent in
            (mutations, (from, w, made, at_t left sent, same), (n, i, before, same ∙ last)))
          (λ s failed_.
            (mutations, (from, w, made, at_t left (did ∙ ap (λ x. (x, w)) failed_), same))))
    where
      at_t :
          {r : StatusOr ℕ} {w : Visit}
          → (mutator l.reruns from).1 ≡ t
          → commit_impl service mutations (visit_of t) ≡ (r, w)
          → commit_impl service mutations (visit_of (mutator l.reruns from).1) ≡ (r, w)
      at_t {r} {w} e sent =
          subst (λ u. commit_impl service mutations (visit_of u) ≡ (r, w)) (sym e) sent

  failed_mutator :
      (bound : ℕ) (l : Rerun P B) (s : Status) (t from : Transacting)
      → Going bound l
      → IsReady t
      → mutations_of (mutator l.reruns from).0 ≡ some (error s)
      → (mutator l.reruns from).1 ≡ t
      → Next bound l (mutated service policy backoff mutator l (some (error s)) t)
  unfolding mutated
  failed_mutator bound l s t from g h made left = elim (Bool-cases (is_rerun_transient s)) [
    | inl transient ↦
        subst (λ p. Next bound l p) (rw transient refl)
          (rerun-Next bound l s t (policy.on_failure l.rerun_policy s) g transient
            (inl (from, made, ap (λ u. u.log) (sym left))) refl)
    | inr permanent ↦
        subst (λ p. Next bound l p) (rw permanent refl)
          (rolling_back-Next bound l (returns (error s)) t g h (
            inl (
              permanent,
              omega (arith, g.counted),
              inl (
                from,
                subst (λ k. mutations_of (mutator k from).0 ≡ some (error s)) (sym g.counted) made,
                ap (rolled_back_log service mutator)
                    (sym left ∙ ap (λ k. (mutator k from).1) (sym g.counted)),
              ),
            )))
  ]

  mutated-Next :
      (bound : ℕ) (l : Rerun P B) (m : Mutated) (t from : Transacting)
      → Going bound l
      → IsReady t
      → (mutator l.reruns from).0 ≡ m
      → (mutator l.reruns from).1 ≡ t
      → Next bound l (mutated service policy backoff mutator l (mutations_of m) t)
  unfolding mutated
  mutated-Next bound l (returned (value mutations)) t from g h made left =
      committing-Next bound l mutations t from g h made left
  mutated-Next bound l (returned (error s)) t from g h made left =
      failed_mutator bound l s t from g h (ap mutations_of made) left
  mutated-Next bound l (threw_status s) t from g h made left =
      failed_mutator bound l (thrown_status s) t from g h (ap mutations_of made) left
  mutated-Next bound l threw t from g h made left = rolling_back-Next bound l rethrows t g h (
    omega (arith, g.counted),
    from,
    subst (λ k. (mutator k from).0 ≡ threw) (sym g.counted) made,
    ap (rolled_back_log service mutator) (sym left ∙ ap (λ k. (mutator k from).1) (sym g.counted)),
  )

  turn-Next :
      (bound : ℕ) (l : Rerun P B)
      → Going bound l
      → Next bound l (turn service policy backoff mutator l)
  unfolding turn
  turn-Next bound l g =
      mutated-Next bound l (mutator l.reruns l.txn).0 (mutator l.reruns l.txn).1 l.txn g
        (keeps l.reruns l.txn g.ready) refl refl

  Ends : ℕ → Option Outcome → Type 0
  Ends bound r = (o : Outcome) × (r ≡ some o) × IsExplained service mutator policy bound o

  after-Ends :
      (fuel bound : ℕ) (l : Rerun P B) (t : Option (Rerun P B ⊎ Outcome))
      → turn service policy backoff mutator l ≡ t
      → Next bound l t
      → ((next : Rerun P B)
          → Going bound next
          → budget next.rerun_policy < budget l.rerun_policy
          → Ends bound (commit_loop service policy backoff mutator fuel next))
      → Ends bound (commit_loop service policy backoff mutator (suc fuel) l)
  unfolding commit_loop Next Ends
  after-Ends fuel bound l none e h more = absurd h
  after-Ends fuel bound l (some (inl next)) e (g, less) more =
      let rest = more next g less in (rest.0, rw (e, commit_loop) rest.1, rest.2)
  after-Ends fuel bound l (some (inr o)) e x more = (o, rw (e, commit_loop), x)

  loop-Ends :
      (fuel bound : ℕ) (l : Rerun P B)
      → Going bound l
      → budget l.rerun_policy < fuel
      → Ends bound (commit_loop service policy backoff mutator fuel l)
  loop-Ends zero bound l g enough = absurd (omega arith)
  loop-Ends (suc fuel) bound l g enough =
      after-Ends fuel bound l (turn service policy backoff mutator l) refl (turn-Next bound l g)
        (λ next g2 less. loop-Ends fuel bound next g2 (omega arith))

  -- `Commit` ends for every service and every mutator that leaves the transaction free, once the
  -- fuel is above the number of failures that the rerun policy allows. It calls the mutator at
  -- most once more than that number, and sleeps between two calls and at no other time; all
  -- failures before the end are transient. Its result is that of the last pass. It returns the
  -- timestamp that the commit of the mutations of the last call of the mutator came to, and that
  -- commit was the last call of the connection. Or it returns the failure of the last call of the
  -- mutator, or of the commit of what it returned: when it is transient, because the rerun policy
  -- refuses to go on, and with no call behind it; when it is not, behind a rollback if the mutator
  -- failed, and with no call behind a failed commit. Or it throws what the last call of the
  -- mutator threw, behind a rollback.
  pub client_commit-IsExplained :
      (fuel : ℕ) (p : P) (b : B) (log : Log)
      → budget p < fuel
      → (o : Outcome) × (client_commit service policy backoff mutator fuel p b log ≡ some o)
        × IsExplained service mutator policy (suc (budget p)) o
  unfolding client_commit read_write_transaction Ends
  client_commit-IsExplained fuel p b log enough =
      loop-Ends fuel (suc (budget p)) _
        (record {
          room = omega arith;
          transient = tt;
          counted = omega arith;
          slept = omega arith;
          ready = tt;
        })
        enough
