-- ===== src/Connection/Kept.antt =====
-- The operations keep the session, the selector, the log and the bad mark as they should.
use google_cloud_cpp_spanner.Prelude.{ℕ, ◌≡◌, String, Bool, false, ◌||◌, Option, none, some}
use google_cloud_cpp_spanner.Status.{Status, StatusOr, value, error, is_session_not_found}
use google_cloud_cpp_spanner.Transaction.Selector.{Selector, begin, single_use, id}
use google_cloud_cpp_spanner.Requests.Statement.{SqlStatement}
use google_cloud_cpp_spanner.Connection.Service.{Service, Visit, Action, normal, profile}
use google_cloud_cpp_spanner.Connection.Reads.{try_read, partition_read_impl}
use google_cloud_cpp_spanner.Connection.Sql.{
  try_query, execute_dml_impl, profile_dml_impl, analyze_sql_impl,
}
use google_cloud_cpp_spanner.Connection.Batches.{
  partition_query_impl, execute_batch_dml_impl, execute_partitioned_dml_impl,
}
use google_cloud_cpp_spanner.Connection.Commits.{commit_impl, rollback_impl}
use google_cloud_cpp_spanner.Connection.Operation.{
  Operation, read, partition_read, execute_query, profile_query, execute_dml, profile_dml,
  analyze_sql, partition_query, execute_batch_dml, execute_partitioned_dml, commit, rollback,
  failure_of, perform,
}
use google_cloud_cpp_spanner.Connection.Laws.{MayMove, begins, uses, Effect, IsLawful}
use google_cloud_cpp_spanner.Connection.Lawful.{Lawfully}
use google_cloud_cpp_spanner.Connection.Members.{
  try_read-IsLawful, partition_read_impl-IsLawful, try_query-IsLawful, common_dml_impl-IsLawful,
  partition_query_impl-IsLawful, execute_batch_dml_impl-IsLawful, commit_impl-IsLawful,
  rollback_impl-IsLawful, analyze_sql_impl-IsLawful, execute_partitioned_dml_impl-Lawfully,
}

-- The selector that an operation may be given: `ExecutePartitionedDml` makes a transaction of its own.
abbrev pub Suits : Operation → Selector → Type 0
Suits (execute_partitioned_dml statement) (id i) = ⊥
Suits _ _ = Unit {0}

-- Whether an operation failed because its session was not found.
abbrev pub lost_session : Option Status → Bool
lost_session none = false
lost_session (some s) = is_session_not_found s

failure_of-Lawful :
    {A : Type 0} (n : String) (v : Visit) (r : StatusOr A) (w : Visit)
    → Lawfully n v (r, w)
    → Effect n v (failure_of (r, w)).1
      × ((failure_of (r, w)).1.is_bad ≡ (lost_session (failure_of (r, w)).0 || v.is_bad))
unfolding Lawfully
failure_of-Lawful n v (value a) w h = h
failure_of-Lawful n v (error s) w h = h

reported :
    {A : Type 0} (n : String) (m : Action A)
    → IsLawful n m
    → (v : Visit) → v.session ≡ some n
    → Effect n v (failure_of (m v)).1
      × ((failure_of (m v)).1.is_bad ≡ (lost_session (failure_of (m v)).0 || v.is_bad))
unfolding Lawfully
reported n m h v s = failure_of-Lawful n v (m v).0 (m v).1 (h v s)

suits-MayMove :
    (statement : SqlStatement) (x : Selector) (i : String)
    → Suits (execute_partitioned_dml statement) x
    → MayMove x (id i)
suits-MayMove statement (begin o) i h = begins o i
suits-MayMove statement (single_use o) i h = uses o i
suits-MayMove statement (id j) i h = absurd h

-- Whatever an operation of the connection is and whatever the service answers, where a partitioned
-- DML statement has a transaction without an id, as `ExecutePartitionedDml` makes it: it keeps the
-- session that the transaction has; every call that it makes names that session; it leaves the
-- selector as it is, or puts an id in the place of one that asks to begin or to be used once; and
-- the session is marked bad exactly when it was before or the operation fails because the session
-- was not found.
pub perform-Effect :
    {P B : Type 0} (service : Service P B) (seqno : ℕ) (op : Operation) (n : String) (v : Visit)
    → v.session ≡ some n
    → Suits op v.selector
    → Effect n v (perform service seqno op v).1
      × ((perform service seqno op v).1.is_bad
          ≡ (lost_session (perform service seqno op v).0 || v.is_bad))
unfolding perform Lawfully execute_dml_impl profile_dml_impl
perform-Effect service seqno (read params) n v s suits =
    reported n (try_read service params) (try_read-IsLawful service n params) v s
perform-Effect service seqno (partition_read params options) n v s suits =
    reported n (partition_read_impl service params options)
      (partition_read_impl-IsLawful service n params options) v s
perform-Effect service seqno (execute_query params) n v s suits =
    reported n (try_query service seqno params normal)
      (try_query-IsLawful service n seqno params normal) v s
perform-Effect service seqno (profile_query params) n v s suits =
    reported n (try_query service seqno params profile)
      (try_query-IsLawful service n seqno params profile) v s
perform-Effect service seqno (execute_dml params) n v s suits =
    reported n (execute_dml_impl service seqno params)
      (common_dml_impl-IsLawful service n seqno params normal) v s
perform-Effect service seqno (profile_dml params) n v s suits =
    reported n (profile_dml_impl service seqno params)
      (common_dml_impl-IsLawful service n seqno params profile) v s
perform-Effect service seqno (analyze_sql params) n v s suits =
    reported n (analyze_sql_impl service seqno params)
      (analyze_sql_impl-IsLawful service n seqno params) v s
perform-Effect service seqno (partition_query statement options) n v s suits =
    reported n (partition_query_impl service statement options)
      (partition_query_impl-IsLawful service n statement options) v s
perform-Effect service seqno (execute_batch_dml statements) n v s suits =
    reported n (execute_batch_dml_impl service seqno statements)
      (execute_batch_dml_impl-IsLawful service n seqno statements) v s
perform-Effect service seqno (execute_partitioned_dml statement) n v s suits =
    failure_of-Lawful n v (execute_partitioned_dml_impl service seqno statement v).0
      (execute_partitioned_dml_impl service seqno statement v).1
      (execute_partitioned_dml_impl-Lawfully service n seqno statement v s
        (λ i. suits-MayMove statement v.selector i suits))
perform-Effect service seqno (commit mutations) n v s suits =
    reported n (commit_impl service mutations) (commit_impl-IsLawful service n mutations) v s
perform-Effect service seqno rollback n v s suits =
    reported n (rollback_impl service) (rollback_impl-IsLawful service n) v s
