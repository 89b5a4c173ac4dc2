-- ===== src/Connection/Sql.antt =====
-- `ExecuteSqlImpl` and the queries and DML statements over it.
use google_cloud_cpp_spanner.Prelude.{ℕ, String, false, Option}
use google_cloud_cpp_spanner.Transaction.Selector.{Selector}
use google_cloud_cpp_spanner.Requests.Statement.{to_proto}
use google_cloud_cpp_spanner.Requests.Partitions.{SqlParams}
use google_cloud_cpp_spanner.Connection.Results.{ResultSource, dml, rows_of, execution_plan}
use google_cloud_cpp_spanner.Connection.Service.{
  Service, Visit, Action, ◌>>=◌, ◌>>◌, pure, marking_bad, asked, called, streamed, prepare_session,
  Rpc, QueryMode, normal, plan, profile, ExecuteSqlRequest,
}
use google_cloud_cpp_spanner.Connection.Reads.{or_empty, record_id}

unfoldable pub sql_request : String → Selector → ℕ → SqlParams → QueryMode → ExecuteSqlRequest
unfolding to_proto
sql_request session s seqno params query_mode =
    let sql_statement = to_proto params.statement in
    record {
      session = session;
      transaction = s;
      sql = sql_statement.sql;
      params = sql_statement.params;
      param_types = sql_statement.param_types;
      seqno = seqno;
      query_mode = query_mode;
      partition_token = or_empty params.partition_token;
      optimizer_version = params.optimizer_version;
    }

-- `ExecuteSqlImpl`.
unfoldable pub execute_sql_impl :
    String
    → ℕ
    → SqlParams
    → QueryMode
    → (ExecuteSqlRequest → Action ResultSource)
    → Action ResultSource
unfolding sql_request record_id
execute_sql_impl session seqno params query_mode retry_resume_fn = do
  reader ← λ v. retry_resume_fn (sql_request session v.selector seqno params query_mode) v
  record_id "Begin transaction requested but no transaction returned." reader
  pure reader

module _ {P B : Type 0} (service : Service P B) where
  unfoldable pub open_query : ExecuteSqlRequest → Action ResultSource
  open_query request v = (
    streamed (service.execute_streaming_sql v.log request),
    asked (Rpc.execute_streaming_sql request) v,
  )

  unfoldable pub try_query : ℕ → SqlParams → QueryMode → Action ResultSource
  unfolding prepare_session marking_bad execute_sql_impl open_query
  try_query seqno params query_mode = do
    session ← prepare_session service false
    marking_bad (execute_sql_impl session seqno params query_mode open_query)

  -- `CommonQueryImpl`; a failure is a stream that has only a status.
  unfoldable pub common_query_impl : ℕ → SqlParams → QueryMode → Visit → ResultSource × Visit
  unfolding try_query
  common_query_impl seqno params query_mode v =
      let (r, w) = try_query seqno params query_mode v in (rows_of r, w)

  unfoldable pub execute_query_impl : ℕ → SqlParams → Visit → ResultSource × Visit
  unfolding common_query_impl
  execute_query_impl seqno params = common_query_impl seqno params normal

  unfoldable pub profile_query_impl : ℕ → SqlParams → Visit → ResultSource × Visit
  unfolding common_query_impl
  profile_query_impl seqno params = common_query_impl seqno params profile

  unfoldable pub ask_dml : ExecuteSqlRequest → Action ResultSource
  unfolding marking_bad called
  ask_dml request = do
    response ← marking_bad (
        called service (Rpc.execute_sql request) "CommonDmlImpl"
          (λ log. service.execute_sql log request))
    pure (dml response)

  -- `CommonDmlImpl`.
  unfoldable pub common_dml_impl : ℕ → SqlParams → QueryMode → Action ResultSource
  unfolding prepare_session execute_sql_impl ask_dml
  common_dml_impl seqno params query_mode = do
    session ← prepare_session service false
    execute_sql_impl session seqno params query_mode ask_dml

  unfoldable pub execute_dml_impl : ℕ → SqlParams → Action ResultSource
  unfolding common_dml_impl
  execute_dml_impl seqno params = common_dml_impl seqno params normal

  unfoldable pub profile_dml_impl : ℕ → SqlParams → Action ResultSource
  unfolding common_dml_impl
  profile_dml_impl seqno params = common_dml_impl seqno params profile

  -- `AnalyzeSqlImpl`; none where the code reads a plan that is not there.
  unfoldable pub analyze_sql_impl : ℕ → SqlParams → Action (Option ℕ)
  unfolding common_dml_impl execution_plan
  analyze_sql_impl seqno params = do
    result ← common_dml_impl seqno params plan
    pure (execution_plan result)
