-- ===== src/Client/Commit.antt =====
-- `Client::Commit` with a mutator, and the calls of a connection that it makes. A turn is one pass of
-- the `for` loop. The mutator is given by what its calls do; the first is number 0.
use google_cloud_cpp_spanner.Prelude.{
  ℕ, zero, suc, List, [], ◌∷◌, String, Bool, true, false, not, Option, none, some, ◌⊎◌, inl, inr,
  if◌then◌else◌,
}
use google_cloud_cpp_spanner.Status.{
  StatusCode, Status, status, StatusOr, value, error, is_ok, is_session_not_found,
  is_rerun_transient,
}
use google_cloud_cpp_spanner.Retry.Policy.{RetryPolicy, BackoffPolicy}
use google_cloud_cpp_spanner.Transaction.Impl.{read_write_transaction, rerun_transaction}
use google_cloud_cpp_spanner.Requests.Mutations.{Mutation}
use google_cloud_cpp_spanner.Connection.Service.{Service, Log}
use google_cloud_cpp_spanner.Connection.Commits.{commit_impl, rollback_impl}
use google_cloud_cpp_spanner.Connection.Visiting.{Transacting, visit}

-- How a call of the mutator ends.
pub data Mutated : Type 0 where
  returned : StatusOr (List Mutation) → Mutated
  threw_status : Status → Mutated
  threw : Mutated

-- How `Commit` ends: it returns, or throws what the mutator threw.
pub data Ended : Type 0 where
  returns : StatusOr ℕ → Ended
  rethrows : Ended

-- What the loop keeps between two passes: the latest failure and the latest sleep stand first, and so
-- does the latest of the sessions that were marked bad and given up.
pub record Rerun (P B : Type 0) : Type 0 where
  pub txn : Transacting
  pub rerun_policy : P
  pub backoff_policy : B
  pub reruns : ℕ
  pub failures : List Status
  pub sleeps : List ℕ
  pub lost : List String

pub record Outcome : Type 0 where
  pub ended : Ended
  pub txn : Transacting
  pub attempts : ℕ
  pub failures : List Status
  pub sleeps : List ℕ

-- `catch (RuntimeStatusError const&)`.
unfoldable pub thrown_status : Status → Status
thrown_status s = if is_ok s then status StatusCode.unknown "OK Status thrown from mutator" else s

abbrev pub mutations_of : Mutated → Option (StatusOr (List Mutation))
mutations_of (returned r) = some r
mutations_of (threw_status s) = some (error (thrown_status s))
mutations_of threw = none

abbrev pub and_then : {A B : Type 0} → Option A → (A → Option B) → Option B
and_then none f = none
and_then (some a) f = f a

abbrev pub give_up_session : Option String → List String → List String
give_up_session none lost = lost
give_up_session (some n) lost = n ∷ lost

-- The transaction of the next pass: with a new session if that of the last one is gone.
unfoldable pub next_transaction : Status → Transacting → Transacting
unfolding read_write_transaction rerun_transaction
next_transaction s t =
    if is_session_not_found s
    then record { impl = read_write_transaction; is_bad = false; log = t.log }
    else record t { impl = rerun_transaction t.impl }

module _ {P B R S : Type 0} (service : Service R S) (policy : RetryPolicy P)
    (backoff : BackoffPolicy B) (mutator : ℕ → Transacting → Mutated × Transacting) where
  abbrev pub Turn : Type 0
  Turn = Rerun P B ⊎ Outcome

  abbrev pub over : Rerun P B → Ended → Transacting → Option Turn
  over l e t = some (
      inr (record {
        ended = e;
        txn = t;
        attempts = suc l.reruns;
        failures = l.failures;
        sleeps = l.sleeps;
      }))

  -- `Rollback(txn)`, whose failure is only logged, and the end behind it.
  unfoldable pub rolling_back : Rerun P B → Ended → Transacting → Option Turn
  unfolding visit rollback_impl
  rolling_back l e t = and_then (visit (λ n v. rollback_impl service v) t) (λ p. over l e p.1)

  -- A transient failure, by the answer of the rerun policy.
  unfoldable pub rerun : Rerun P B → Status → Transacting → P × Bool → Option Turn
  unfolding next_transaction
  rerun l s t (q, false) = over (record l { failures = s ∷ l.failures }) (returns (error s)) t
  rerun l s t (q, true) =
      let slept = backoff.on_completion l.backoff_policy in
      some (
        inl (record {
          txn = next_transaction s t;
          rerun_policy = q;
          backoff_policy = slept.0;
          reruns = suc l.reruns;
          failures = s ∷ l.failures;
          sleeps = slept.1 ∷ l.sleeps;
          lost = if is_session_not_found s then give_up_session t.impl.session l.lost else l.lost;
        }))

  -- The result of the connection's `Commit`.
  unfoldable pub committed : Rerun P B → StatusOr ℕ × Transacting → Option Turn
  unfolding rerun
  committed l (value timestamp, t) = over l (returns (value timestamp)) t
  committed l (error s, t) =
      if not (is_rerun_transient s)
      then over l (returns (error s)) t
      else rerun l s t (policy.on_failure l.rerun_policy s)

  unfoldable pub committing : Rerun P B → List Mutation → Transacting → Option Turn
  unfolding visit commit_impl committed
  committing l mutations t =
      and_then (visit (λ n v. commit_impl service mutations v) t) (λ p. committed l p)

  -- What follows the mutator.
  unfoldable pub mutated : Rerun P B → Option (StatusOr (List Mutation)) → Transacting → Option Turn
  unfolding rolling_back committing rerun
  mutated l none t = rolling_back l rethrows t
  mutated l (some (value mutations)) t = committing l mutations t
  mutated l (some (error s)) t =
      if not (is_rerun_transient s)
      then rolling_back l (returns (error s)) t
      else rerun l s t (policy.on_failure l.rerun_policy s)

  -- One pass; none where a call would wait for another visitor of the transaction.
  unfoldable pub turn : Rerun P B → Option Turn
  unfolding mutated thrown_status
  turn l = let (m, t) = mutator l.reruns l.txn in mutated l (mutations_of m) t

  unfoldable pub commit_loop : ℕ → Rerun P B → Option Outcome
  unfolding turn
  commit_loop zero l = none
  commit_loop (suc fuel) l = elim (turn l) [
    | none ↦ none
    | some (inl next) ↦ commit_loop fuel next
    | some (inr o) ↦ some o
  ]

  -- `Commit`, on a log of calls made before.
  unfoldable pub client_commit : ℕ → P → B → Log → Option Outcome
  unfolding commit_loop read_write_transaction
  client_commit fuel p b log = commit_loop fuel (record {
    txn = record { impl = read_write_transaction; is_bad = false; log = log };
    rerun_policy = p;
    backoff_policy = b;
    reruns = 0;
    failures = [];
    sleeps = [];
    lost = [];
  })
