-- ===== src/Client/Sessions.antt =====
-- The transactions and the sessions of the attempts of `Client::Commit`.
use google_cloud_cpp_spanner.Prelude.{
  ℕ, ◌≡◌, refl, ap, sym, subst, ◌∙◌, ◌⊎◌, inl, inr, List, ◌∷◌, String, Bool, true, false, not,
  Bool-cases, Option, none, some, if◌then◌else◌,
}
use google_cloud_cpp_spanner.Status.{
  Status, StatusOr, value, error, is_session_not_found, is_rerun_transient,
}
use google_cloud_cpp_spanner.Retry.Policy.{RetryPolicy, BackoffPolicy}
use google_cloud_cpp_spanner.Transaction.Selector.{begin, read_write}
use google_cloud_cpp_spanner.Transaction.Impl.{is_begin, read_write_transaction, rerun_transaction}
use google_cloud_cpp_spanner.Requests.Mutations.{Mutation}
use google_cloud_cpp_spanner.Connection.Service.{Service, Visit}
use google_cloud_cpp_spanner.Connection.Commits.{commit_impl}
use google_cloud_cpp_spanner.Connection.Visiting.{Transacting, visit_of}
use google_cloud_cpp_spanner.Client.Commit.{
  Mutated, returned, threw_status, threw, Ended, returns, rethrows, Rerun, Outcome, thrown_status,
  mutations_of, give_up_session, next_transaction, and_then, over, rolling_back, rerun, committed,
  committing, mutated, turn,
}
use google_cloud_cpp_spanner.Client.Reruns.{IsReady, IsTransient, visit_ready}
use google_cloud_cpp_spanner.Connection.Operation.{commit, failure_of, perform}
use google_cloud_cpp_spanner.Connection.Kept.{perform-Effect}

failure_of-visit : {A : Type 0} (r : StatusOr A) (w : Visit) → (failure_of (r, w)).1 ≡ w
failure_of-visit (value a) w = refl
failure_of-visit (error s) w = refl

-- A commit keeps its session.
commit_impl-session :
    {R S : Type 0} (service : Service R S) (mutations : List Mutation) (n : String) (v : Visit)
    → v.session ≡ some n
    → (commit_impl service mutations v).1.session ≡ some n
unfolding perform
commit_impl-session service mutations n v h =
    ap (λ w. w.session)
      (sym
        (failure_of-visit (commit_impl service mutations v).0 (commit_impl service mutations v).1))
    ∙ (perform-Effect service 0 (commit mutations) n v h tt).0.session

-- What is left of a session behind a failure: nothing if it was not found, and it is given up then.
abbrev pub SessionAfter : Bool → String → Option String → List String → List String → Type 0
SessionAfter true n session lost before = (session ≡ none) × (lost ≡ n ∷ before)
SessionAfter false n session lost before = (session ≡ some n) × (lost ≡ before)

-- A read-write transaction that nobody has visited.
pub record IsFresh (t : Transacting) : Type 0 where
  pub unvisited : t.impl.state ≡ is_begin
  pub to_begin : t.impl.selector ≡ begin read_write
  pub numbers : t.impl.seqno ≡ 0

-- The pass behind one of a transaction with session `n`.
pub record Follows {P B : Type 0} (n : String) (l next : Rerun P B) (s : Status) : Type 0 where
  pub failed : next.failures ≡ s ∷ l.failures
  pub transient : IsTransient s
  pub fresh : IsFresh next.txn
  pub session : SessionAfter (is_session_not_found s) n next.txn.impl.session next.lost l.lost

module _ {P B R S : Type 0} (service : Service R S) (policy : RetryPolicy P)
    (backoff : BackoffPolicy B) (mutator : ℕ → Transacting → Mutated × Transacting) (n : String)
    (l : Rerun P B) where
  Next : Option (Rerun P B ⊎ Outcome) → Type 0
  Next (some (inl next)) = (s : Status) × Follows n l next s
  Next _ = Unit {0}

  next_IsFresh : (s : Status) (t : Transacting) → IsFresh (next_transaction s t)
  unfolding next_transaction read_write_transaction rerun_transaction
  next_IsFresh s t = elim (Bool-cases (is_session_not_found s)) [
    | inl lost ↦
        subst IsFresh {x = record { impl = read_write_transaction; is_bad = false; log = t.log }}
          (rw lost refl) (record { unvisited = refl; to_begin = refl; numbers = refl })
    | inr other ↦
        subst IsFresh {x = record t { impl = rerun_transaction t.impl }} (rw other refl)
          (record { unvisited = refl; to_begin = refl; numbers = refl })
  ]

  session_after :
      (s : Status) (t : Transacting)
      → t.impl.session ≡ some n
      → SessionAfter
          (is_session_not_found s)
          n
          (next_transaction s t).impl.session
          (if is_session_not_found s then give_up_session t.impl.session l.lost else l.lost)
          l.lost
  unfolding next_transaction read_write_transaction rerun_transaction
  session_after s t h = elim (Bool-cases (is_session_not_found s)) [
    | inl lost ↦ rw lost (rw h (refl, refl))
    | inr other ↦ rw other (h, refl)
  ]

  rerun-Next :
      (s : Status) (t : Transacting) (verdict : P × Bool)
      → t.impl.session ≡ some n
      → IsTransient s
      → Next (rerun service policy backoff mutator l s t verdict)
  unfolding Next rerun
  rerun-Next s t (q, false) h transient = tt
  rerun-Next s t (q, true) h transient = (
    s,
    record {
      failed = refl;
      transient = transient;
      fresh = next_IsFresh s t;
      session = session_after s t h;
    },
  )

  ended-Next :
      (e : Ended) (o : Option (StatusOr (Unit {0}) × Transacting))
      → Next (and_then o (λ x. over service policy backoff mutator l e x.1))
  unfolding Next
  ended-Next e none = tt
  ended-Next e (some p) = tt

  failing :
      (s : Status) (t : Transacting) (stop : Option (Rerun P B ⊎ Outcome))
      → t.impl.session ≡ some n
      → Next stop
      → Next (
          if not (is_rerun_transient s)
          then stop
          else rerun service policy backoff mutator l s t (policy.on_failure l.rerun_policy s))
  failing s t stop h k = elim (Bool-cases (is_rerun_transient s)) [
    | inl transient ↦
        subst Next (rw transient refl)
          (rerun-Next s t (policy.on_failure l.rerun_policy s) h transient)
    | inr permanent ↦ subst Next {x = stop} (rw permanent refl) k
  ]

  committed-Next :
      (r : StatusOr ℕ) (t : Transacting)
      → t.impl.session ≡ some n
      → Next (committed service policy backoff mutator l (r, t))
  unfolding committed Next
  committed-Next (value timestamp) t h = tt
  committed-Next (error s) t h =
      failing s t (over service policy backoff mutator l (returns (error s)) t) h tt

  committing-Next :
      (mutations : List Mutation) (t : Transacting)
      → IsReady t
      → t.impl.session ≡ some n
      → Next (committing service policy backoff mutator l mutations t)
  unfolding committing
  committing-Next mutations t ready h =
      let (r, w, u, went, did, same, kept) =
        visit_ready (λ k v. commit_impl service mutations v) t ready in
      let holds : u.impl.session ≡ some n =
        kept
        ∙ sym (ap (λ p. p.1.session) did)
        ∙ commit_impl-session service mutations n (visit_of t) h in
      subst (λ o. Next (and_then o (λ x. committed service policy backoff mutator l x))) (sym went)
        (committed-Next r u holds)

  mutated-Next :
      (m : Mutated) (t : Transacting)
      → IsReady t
      → t.impl.session ≡ some n
      → Next (mutated service policy backoff mutator l (mutations_of m) t)
  unfolding mutated rolling_back
  mutated-Next (returned (value mutations)) t ready h = committing-Next mutations t ready h
  mutated-Next (returned (error s)) t ready h = failing s t _ h (ended-Next (returns (error s)) _)
  mutated-Next (threw_status s) t ready h =
      failing (thrown_status s) t _ h (ended-Next (returns (error (thrown_status s))) _)
  mutated-Next threw t ready h = ended-Next rethrows _

  -- A pass of `Commit` that another one follows failed with a transient failure, which it notes. If
  -- the mutator left its transaction free and with session `n`, then the next transaction is a new
  -- one that is to begin as read-write, and it has the same session; or, if the failure says that the
  -- session was not found, it has none, and `n` is marked bad and given up.
  pub turn-Follows :
      (next : Rerun P B)
      → IsReady (mutator l.reruns l.txn).1
      → (mutator l.reruns l.txn).1.impl.session ≡ some n
      → turn service policy backoff mutator l ≡ some (inl next)
      → (s : Status) × Follows n l next s
  unfolding turn Next
  turn-Follows next ready h e =
      subst Next e (mutated-Next (mutator l.reruns l.txn).0 (mutator l.reruns l.txn).1 ready h)
