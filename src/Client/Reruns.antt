-- ===== src/Client/Reruns.antt =====
-- How `Client::Commit` may end, and what its visits of a transaction do.
use google_cloud_cpp_spanner.Prelude.{
  ℕ, suc, ◌≤◌, ◌≡◌, refl, ◌⊎◌, List, ◌∷◌, length, All, String, Bool, true, false, Option, some,
}
use google_cloud_cpp_spanner.Status.{Status, StatusOr, value, error, is_rerun_transient}
use google_cloud_cpp_spanner.Retry.Policy.{RetryPolicy}
use google_cloud_cpp_spanner.Transaction.Selector.{Selector}
use google_cloud_cpp_spanner.Transaction.Impl.{State, is_begin, is_pending, is_done}
use google_cloud_cpp_spanner.Requests.Mutations.{Mutation}
use google_cloud_cpp_spanner.Connection.Service.{Service, Visit, Log, Rpc}
use google_cloud_cpp_spanner.Connection.Commits.{commit_request, commit_impl, rollback_impl}
use google_cloud_cpp_spanner.Connection.Visiting.{Transacting, visit_of, visit}
use google_cloud_cpp_spanner.Client.Commit.{
  Mutated, returned, threw, mutations_of, Ended, returns, rethrows, Outcome,
}

abbrev pub NotPending : State → Type 0
NotPending is_pending = ⊥
NotPending _ = Unit {0}

-- Nobody is about to assign the transaction's id.
abbrev pub IsReady : Transacting → Type 0
IsReady t = NotPending t.impl.state

abbrev pub IsTransient : Status → Type 0
IsTransient s = is_rerun_transient s ≡ true

-- The last call made was a commit of these mutations.
abbrev pub Commits : List Mutation → Log → Type 0
Commits mutations log =
    (n i : String) × (before : Log) × (log ≡ Rpc.commit (commit_request n mutations i) ∷ before)

module _ {R S : Type 0} (service : Service R S)
    (mutator : ℕ → Transacting → Mutated × Transacting) where
  -- The log behind a rollback.
  abbrev pub rolled_back_log : Transacting → Log
  rolled_back_log t = (rollback_impl service (visit_of t)).1.log

  -- Call `k` of the mutator returned these mutations, and the commit of them in the transaction that
  -- the mutator left has this result, and leaves this log.
  abbrev pub IsCommitOf : ℕ → List Mutation → StatusOr ℕ → Log → Type 0
  IsCommitOf k mutations result log =
      (t : Transacting) × (w : Visit) × ((mutator k t).0 ≡ returned (value mutations))
      × (commit_impl service mutations (visit_of (mutator k t).1) ≡ (result, w))
      × (log ≡ w.log)

  -- Pass `k` failed with a status: call `k` of the mutator did, and what was done next left this log, or
  -- the commit of what it returned did.
  abbrev pub Fails : ℕ → Status → (Transacting → Log) → Log → Type 0
  Fails k s next log =
      ((t : Transacting) × (mutations_of (mutator k t).0 ≡ some (error s))
        × (log ≡ next (mutator k t).1))
      ⊎ ((mutations : List Mutation) × IsCommitOf k mutations (error s) log)

  module _ {P : Type 0} (policy : RetryPolicy P) where
    -- How `Commit` may end after some failures and attempts.
    abbrev pub IsEnding : Ended → List Status → ℕ → Log → Type 0
    IsEnding (returns (value timestamp)) failures attempts log =
        (suc (length failures) ≡ attempts)
        × (mutations : List Mutation) × IsCommitOf (length failures) mutations (value timestamp) log
        × Commits mutations log
    IsEnding rethrows failures attempts log =
        (suc (length failures) ≡ attempts)
        × (t : Transacting) × ((mutator (length failures) t).0 ≡ threw)
        × (log ≡ rolled_back_log (mutator (length failures) t).1)
    IsEnding (returns (error s)) failures attempts log =
        ((is_rerun_transient s ≡ false)
          × (suc (length failures) ≡ attempts)
          × Fails (length failures) s rolled_back_log log)
        ⊎ ((before : List Status) × (failures ≡ s ∷ before)
            × (length failures ≡ attempts)
            × Fails (length before) s (λ t. t.log) log
            × (p q : P) × (policy.on_failure p s ≡ (q, false)))

    pub record IsExplained (bound : ℕ) (o : Outcome) : Type 0 where
      pub bounded : o.attempts ≤ bound
      pub transient : All IsTransient o.failures
      pub slept : suc (length o.sleeps) ≡ o.attempts
      pub ending : IsEnding o.ended o.failures o.attempts o.txn.log

visit-IsReady :
    {R : Type 0} (f : ℕ → Visit → R × Visit) (st : State) (n : Option String) (x : Selector) (k : ℕ)
    (b : Bool) (log : Log)
    → NotPending st
    → (r : R) × (w : Visit) × (u : Transacting) × (visit f (record {
      impl = record { state = st; session = n; selector = x; seqno = k };
      is_bad = b;
      log = log;
    })
        ≡ some (r, u))
      × (f (suc k) (record { session = n; is_bad = b; selector = x; log = log }) ≡ (r, w))
      × (u.log ≡ w.log)
      × (u.impl.session ≡ w.session)
unfolding visit
visit-IsReady f is_begin n x k b log h = (_, _, _, refl, refl, refl, refl)
visit-IsReady f is_done n x k b log h = (_, _, _, refl, refl, refl, refl)
visit-IsReady f is_pending n x k b log h = absurd h

-- A visit of a ready transaction goes ahead: it is what its functor does.
pub visit_ready :
    {R : Type 0} (f : ℕ → Visit → R × Visit) (t : Transacting)
    → IsReady t
    → (r : R) × (w : Visit) × (u : Transacting) × (visit f t ≡ some (r, u))
      × (f (suc t.impl.seqno) (visit_of t) ≡ (r, w))
      × (u.log ≡ w.log)
      × (u.impl.session ≡ w.session)
visit_ready f t h =
    visit-IsReady f t.impl.state t.impl.session t.impl.selector t.impl.seqno t.is_bad t.log h
