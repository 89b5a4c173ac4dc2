-- ===== src/Connection/Results.antt =====
-- The sources of results that connection_impl.cc makes, and what results.cc reads from a source.
use google_cloud_cpp_spanner.Prelude.{ℕ, List, String, Option, none, some}
use google_cloud_cpp_spanner.Status.{Status, StatusOr, value, error}

-- The transaction that the metadata of a response name.
pub record TransactionProto : Type 0 where
  pub id : String
  pub read_timestamp : Option ℕ

-- `ResultSetMetadata`, without the row type.
pub record Metadata : Type 0 where
  pub transaction : Option TransactionProto

-- `ResultSetStats`; a query plan is the number that names it, and a count that is not set is 0.
pub record Stats : Type 0 where
  pub query_plan : Option ℕ
  pub query_stats : Option (List (String × String))
  pub row_count_exact : ℕ
  pub row_count_lower_bound : ℕ

-- `ResultSet` of a DML statement.
pub record ResultSet : Type 0 where
  pub metadata : Option Metadata
  pub stats : Option Stats

-- What implements `ResultSourceInterface`: `StatusOnlyResultSetSource`, `DmlResultSetSource`, and a
-- stream of partial results, of which only its metadata and statistics count here.
pub data ResultSource : Type 0 where
  status_only : Status → ResultSource
  dml : ResultSet → ResultSource
  stream : ResultSet → ResultSource

unfoldable pub metadata : ResultSource → Option Metadata
metadata (status_only s) = none
metadata (dml r) = r.metadata
metadata (stream r) = r.metadata

unfoldable pub stats : ResultSource → Option Stats
stats (status_only s) = none
stats (dml r) = r.stats
stats (stream r) = r.stats

-- `NextRow` of the two sources without rows: the status, or the empty row; none for a stream.
unfoldable pub no_row : ResultSource → Option (StatusOr (Unit {0}))
no_row (status_only s) = some (error s)
no_row (dml r) = some (value tt)
no_row (stream r) = none

abbrev pub and_then : {A B : Type 0} → Option A → (A → Option B) → Option B
and_then none f = none
and_then (some a) f = f a

-- `GetReadTimestamp`.
unfoldable pub read_timestamp : ResultSource → Option ℕ
unfolding metadata
read_timestamp s = and_then (metadata s) (λ m. and_then m.transaction (λ t. t.read_timestamp))

abbrev count_of : Option Stats → Option ℕ
count_of none = none
count_of (some s) = some s.row_count_exact

-- `GetRowsModified`; none where the code reads from statistics that are not there.
unfoldable pub rows_modified : ResultSource → Option ℕ
unfolding stats
rows_modified s = count_of (stats s)

-- `GetExecutionStats`, with the values of the fields as texts.
unfoldable pub execution_stats : ResultSource → Option (List (String × String))
unfolding stats
execution_stats s = and_then (stats s) (λ t. t.query_stats)

-- `GetExecutionPlan`.
unfoldable pub execution_plan : ResultSource → Option ℕ
unfolding stats
execution_plan s = and_then (stats s) (λ t. t.query_plan)

-- `MakeStatusOnlyResult`, for an operation that returns a stream of rows.
unfoldable pub rows_of : StatusOr ResultSource → ResultSource
rows_of (value s) = s
rows_of (error s) = status_only s

-- The id of the transaction in the metadata; empty where there is none.
unfoldable pub transaction_id : Option Metadata → String
transaction_id none = ""
transaction_id (some m) = elim m.transaction [ none ↦ "" | some t ↦ t.id ]
