-- ===== src/Connection/Operation.antt =====
-- The operations of `ConnectionImpl` on a transaction, as one type. The transaction is the caller's;
-- `ExecutePartitionedDml` makes one of its own, which asks to begin.
use google_cloud_cpp_spanner.Prelude.{ℕ, List, Option, none, some}
use google_cloud_cpp_spanner.Status.{Status, StatusOr, value, error}
use google_cloud_cpp_spanner.Requests.Statement.{SqlStatement}
use google_cloud_cpp_spanner.Requests.Mutations.{Mutation}
use google_cloud_cpp_spanner.Requests.Partitions.{ReadParams, PartitionOptions, SqlParams}
use google_cloud_cpp_spanner.Connection.Service.{Service, Visit, normal, profile}
use google_cloud_cpp_spanner.Connection.Reads.{try_read, partition_read_impl}
use google_cloud_cpp_spanner.Connection.Sql.{
  try_query, execute_dml_impl, profile_dml_impl, analyze_sql_impl,
}
use google_cloud_cpp_spanner.Connection.Batches.{
  partition_query_impl, execute_batch_dml_impl, execute_partitioned_dml_impl,
}
use google_cloud_cpp_spanner.Connection.Commits.{commit_impl, rollback_impl}

pub data Operation : Type 0 where
  read : ReadParams → Operation
  partition_read : ReadParams → PartitionOptions → Operation
  execute_query profile_query execute_dml profile_dml analyze_sql : SqlParams → Operation
  partition_query : SqlStatement → PartitionOptions → Operation
  execute_batch_dml : List SqlStatement → Operation
  execute_partitioned_dml : SqlStatement → Operation
  commit : List Mutation → Operation
  rollback : Operation

-- The failure of an operation, if it failed, and what it left.
abbrev pub failure_of : {A : Type 0} → StatusOr A × Visit → Option Status × Visit
failure_of (value a, v) = (none, v)
failure_of (error s, v) = (some s, v)

module _ {P B : Type 0} (service : Service P B) (seqno : ℕ) where
  -- The functor that `Visit` runs.
  unfoldable pub perform : Operation → Visit → Option Status × Visit
  unfolding try_read partition_read_impl try_query execute_dml_impl profile_dml_impl
      analyze_sql_impl partition_query_impl execute_batch_dml_impl execute_partitioned_dml_impl
      commit_impl rollback_impl
  perform (read params) v = failure_of (try_read service params v)
  perform (partition_read params options) v =
      failure_of (partition_read_impl service params options v)
  perform (execute_query params) v = failure_of (try_query service seqno params normal v)
  perform (profile_query params) v = failure_of (try_query service seqno params profile v)
  perform (execute_dml params) v = failure_of (execute_dml_impl service seqno params v)
  perform (profile_dml params) v = failure_of (profile_dml_impl service seqno params v)
  perform (analyze_sql params) v = failure_of (analyze_sql_impl service seqno params v)
  perform (partition_query statement options) v =
      failure_of (partition_query_impl service statement options v)
  perform (execute_batch_dml statements) v =
      failure_of (execute_batch_dml_impl service seqno statements v)
  perform (execute_partitioned_dml statement) v =
      failure_of (execute_partitioned_dml_impl service seqno statement v)
  perform (commit mutations) v = failure_of (commit_impl service mutations v)
  perform rollback v = failure_of (rollback_impl service v)
