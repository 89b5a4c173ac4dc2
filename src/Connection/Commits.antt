-- ===== src/Connection/Commits.antt =====
-- `CommitImpl` and `RollbackImpl`.
use google_cloud_cpp_spanner.Prelude.{ℕ, List, String, false}
use google_cloud_cpp_spanner.Status.{StatusCode, Status, status, value}
use google_cloud_cpp_spanner.Transaction.Selector.{Selector, begin, single_use, id}
use google_cloud_cpp_spanner.Requests.Mutations.{Mutation}
use google_cloud_cpp_spanner.Connection.Service.{
  Service, Action, ◌>>=◌, pure, fail, marking_bad, set_id, called, prepare_session, Rpc,
  BeginOptions, of_options, CommitRequest,
}

unfoldable pub commit_request : String → List Mutation → String → CommitRequest
commit_request session mutations i = record {
  session = session;
  mutations = mutations;
  transaction_id = i;
}

abbrev pub single_use_rollback : Status
single_use_rollback = status StatusCode.invalid_argument "Cannot rollback a single-use transaction"

module _ {P B : Type 0} (service : Service P B) where
  unfoldable pub begin_commit : String → BeginOptions → Action String
  unfolding called marking_bad
  begin_commit session options = do
    i ← marking_bad (
        called service (Rpc.begin_transaction session options) "CommitImpl"
          (λ log. service.begin_transaction log session options))
    λ v. (value i, set_id i v)

  -- The id that is committed: that of the transaction, which is begun if it has none.
  unfoldable pub committed_id : String → Selector → Action String
  unfolding begin_commit
  committed_id session (id i) = pure i
  committed_id session (begin o) = begin_commit session (of_options o)
  committed_id session (single_use o) = begin_commit session (of_options o)

  unfoldable pub ask_commit : List Mutation → String → String → Action ℕ
  unfolding commit_request called
  ask_commit mutations session i =
      let request = commit_request session mutations i in
      called service (Rpc.commit request) "CommitImpl" (λ log. service.commit log request)

  -- `CommitImpl`; its result is the commit timestamp.
  unfoldable pub commit_impl : List Mutation → Action ℕ
  unfolding prepare_session committed_id ask_commit marking_bad
  commit_impl mutations = do
    session ← prepare_session service false
    i ← λ v. committed_id session v.selector v
    marking_bad (ask_commit mutations session i)

  unfoldable pub rolled_back : String → Selector → Action (Unit {0})
  unfolding called marking_bad
  rolled_back session (single_use o) = fail single_use_rollback
  rolled_back session (begin o) = pure tt
  rolled_back session (id i) = marking_bad (
      called service (Rpc.rollback session i) "RollbackImpl"
        (λ log. service.rollback log session i))

  -- `RollbackImpl`; a value is the status OK.
  unfoldable pub rollback_impl : Action (Unit {0})
  unfolding prepare_session rolled_back
  rollback_impl = do session ← prepare_session service false; λ v. rolled_back session v.selector v
