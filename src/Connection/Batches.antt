-- ===== src/Connection/Batches.antt =====
-- `PartitionQueryImpl`, `ExecuteBatchDmlImpl` and `ExecutePartitionedDmlImpl`.
use google_cloud_cpp_spanner.Prelude.{
  ℕ, List, [], ◌∷◌, map, String, true, false, Option, none, some,
}
use google_cloud_cpp_spanner.Status.{Status, value}
use google_cloud_cpp_spanner.Transaction.Selector.{Selector, id}
use google_cloud_cpp_spanner.Requests.Statement.{SqlStatement, to_proto}
use google_cloud_cpp_spanner.Requests.Partitions.{
  PartitionOptions, QueryPartition, options_to_proto,
}
use google_cloud_cpp_spanner.Connection.Results.{Stats, ResultSet, transaction_id}
use google_cloud_cpp_spanner.Connection.Service.{
  Service, Action, ◌>>=◌, ◌>>◌, pure, marking_bad, set_id, called, prepare_session, Rpc, normal,
  ExecuteSqlRequest, PartitionQueryRequest, PartitionResponse, BatchDmlRequest, BatchDmlResponse,
  partitioned_dml,
}
use google_cloud_cpp_spanner.Connection.Reads.{begun}

unfoldable pub partition_query_request :
    String → Selector → SqlStatement → PartitionOptions → PartitionQueryRequest
unfolding to_proto options_to_proto
partition_query_request session s statement options =
    let sql_statement = to_proto statement in
    record {
      session = session;
      transaction = s;
      sql = sql_statement.sql;
      params = sql_statement.params;
      param_types = sql_statement.param_types;
      partition_options = options_to_proto options;
    }

unfoldable pub query_partitions : String → SqlStatement → PartitionResponse → List QueryPartition
query_partitions session statement response =
    map
      (λ token. record {
        transaction_id = response.transaction_id;
        session_id = session;
        partition_token = token;
        sql_statement = statement;
      })
      response.partitions

unfoldable pub batch_request : String → Selector → ℕ → List SqlStatement → BatchDmlRequest
unfolding to_proto
batch_request session s seqno statements = record {
  session = session;
  seqno = seqno;
  transaction = s;
  statements = map to_proto statements;
}

pub record BatchDmlResult : Type 0 where
  pub stats : List ℕ
  pub status : Status

abbrev pub exact_count : Option Stats → ℕ
exact_count none = 0
exact_count (some s) = s.row_count_exact

abbrev pub lower_bound : Option Stats → ℕ
lower_bound none = 0
lower_bound (some s) = s.row_count_lower_bound

unfoldable pub batch_result : BatchDmlResponse → BatchDmlResult
batch_result response = record {
  stats = map (λ r. exact_count r.stats) response.result_sets;
  status = response.status;
}

-- The id of the transaction that the first of the results names.
unfoldable pub begun_by : List ResultSet → Action (Unit {0})
unfolding begun transaction_id
begun_by [] v = (value tt, v)
begun_by (r ∷ rs) v = begun (transaction_id r.metadata) v

-- The request of a partitioned DML statement; what it does not set is at its default.
unfoldable pub partitioned_request : String → String → ℕ → SqlStatement → ExecuteSqlRequest
unfolding to_proto
partitioned_request session i seqno statement =
    let sql_statement = to_proto statement in
    record {
      session = session;
      transaction = id i;
      sql = sql_statement.sql;
      params = sql_statement.params;
      param_types = sql_statement.param_types;
      seqno = seqno;
      query_mode = normal;
      partition_token = "";
      optimizer_version = none;
    }

module _ {P B : Type 0} (service : Service P B) where
  unfoldable pub ask_partition_query :
      SqlStatement → PartitionOptions → String → Action PartitionResponse
  unfolding partition_query_request called
  ask_partition_query statement options session v =
      let request = partition_query_request session v.selector statement options in
      called service (Rpc.partition_query request) "PartitionQueryImpl"
        (λ log. service.partition_query log request) v

  -- `PartitionQueryImpl`.
  unfoldable pub partition_query_impl :
      SqlStatement → PartitionOptions → Action (List QueryPartition)
  unfolding prepare_session marking_bad ask_partition_query begun query_partitions
  partition_query_impl statement options = do
    session ← prepare_session service true
    response ← marking_bad (ask_partition_query statement options session)
    begun response.transaction_id
    pure (query_partitions session statement response)

  unfoldable pub ask_batch : ℕ → List SqlStatement → String → Action BatchDmlResponse
  unfolding batch_request called
  ask_batch seqno statements session v =
      let request = batch_request session v.selector seqno statements in
      called service (Rpc.execute_batch_dml request) "ExecuteBatchDmlImpl"
        (λ log. service.execute_batch_dml log request) v

  -- `ExecuteBatchDmlImpl`.
  unfoldable pub execute_batch_dml_impl : ℕ → List SqlStatement → Action BatchDmlResult
  unfolding prepare_session marking_bad ask_batch begun_by batch_result
  execute_batch_dml_impl seqno statements = do
    session ← prepare_session service false
    response ← marking_bad (ask_batch seqno statements session)
    begun_by response.result_sets
    pure (batch_result response)

  unfoldable pub begin_partitioned : String → Action String
  unfolding called
  begin_partitioned session =
      called service (Rpc.begin_transaction session partitioned_dml) "ExecutePartitionedDmlImpl"
        (λ log. service.begin_transaction log session partitioned_dml)

  unfoldable pub ask_partitioned : ℕ → SqlStatement → String → String → Action ResultSet
  unfolding partitioned_request called
  ask_partitioned seqno statement session i v =
      let request = partitioned_request session i seqno statement in
      called service (Rpc.execute_sql request) "ExecutePartitionedDmlImpl"
        (λ log. service.execute_sql log request) (set_id i v)

  -- `ExecutePartitionedDmlImpl`; its result is the lower bound of the number of rows.
  unfoldable pub execute_partitioned_dml_impl : ℕ → SqlStatement → Action ℕ
  unfolding prepare_session marking_bad begin_partitioned ask_partitioned
  execute_partitioned_dml_impl seqno statement = do
    session ← prepare_session service false
    i ← marking_bad (begin_partitioned session)
    response ← marking_bad (ask_partitioned seqno statement session i)
    pure (lower_bound response.stats)
