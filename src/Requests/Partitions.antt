-- ===== src/Requests/Partitions.antt =====
-- `ReadPartition` and `QueryPartition`, what they are serialized as, and the parameters of a read or
-- a query that they stand for. How a proto becomes a text comes with protobuf, and is a parameter.
use google_cloud_cpp_spanner.Prelude.{ℕ, List, [], ◌∷◌, map, String, Option, none, some}
use google_cloud_cpp_spanner.Status.{StatusCode, Status, status, StatusOr, value, error}
use google_cloud_cpp_spanner.Stream.Value as Proto
use google_cloud_cpp_spanner.Transaction.Selector.{Selector, id}
use google_cloud_cpp_spanner.Transaction.Impl.{TransactionImpl, transaction_from_ids}
use google_cloud_cpp_spanner.Values.Types.{SpannerType}
use google_cloud_cpp_spanner.Requests.Keys.{KeySet}
use google_cloud_cpp_spanner.Requests.Statement.{
  SqlStatement, Params, find, type_of, value_of, present,
}

pub record ReadOptions : Type 0 where
  pub index_name : String
  pub limit : ℕ

pub record PartitionOptions : Type 0 where
  pub partition_size_bytes : Option ℕ
  pub max_partitions : Option ℕ

-- `google::spanner::v1::PartitionOptions`: an unset number is 0.
pub record PartitionOptionsProto : Type 0 where
  pub partition_size : ℕ
  pub partition_count : ℕ

abbrev pub or_zero : Option ℕ → ℕ
or_zero none = 0
or_zero (some n) = n

-- `ToProto(PartitionOptions)`.
unfoldable pub options_to_proto : PartitionOptions → PartitionOptionsProto
options_to_proto po = record {
  partition_size = or_zero po.partition_size_bytes;
  partition_count = or_zero po.max_partitions;
}

-- `google::spanner::v1::ReadRequest`. A text that is not set is empty.
pub record ReadRequest : Type 0 where
  pub session : String
  pub transaction : Selector
  pub table : String
  pub index : String
  pub columns : List String
  pub key_set : KeySet
  pub limit : ℕ
  pub partition_token : String

-- `ReadPartition` is its proto: the constructor.
unfoldable pub read_partition :
    String → String → String → String → KeySet → List String → ReadOptions → ReadRequest
read_partition transaction_id session_id partition_token table_name key_set column_names options =
    record {
      session = session_id;
      transaction = id transaction_id;
      table = table_name;
      index = options.index_name;
      columns = column_names;
      key_set = key_set;
      limit = options.limit;
      partition_token = partition_token;
    }

-- `Connection::ReadParams`.
pub record ReadParams : Type 0 where
  pub transaction : TransactionImpl
  pub table : String
  pub keys : KeySet
  pub columns : List String
  pub read_options : ReadOptions
  pub partition_token : Option String

abbrev pub id_of : Selector → String
id_of (id i) = i
id_of _ = ""

-- `MakeReadParams`.
unfoldable pub make_read_params : ReadRequest → ReadParams
unfolding transaction_from_ids
make_read_params p = record {
  transaction = transaction_from_ids p.session (id_of p.transaction);
  table = p.table;
  keys = p.key_set;
  columns = p.columns;
  read_options = record { index_name = p.index; limit = p.limit };
  partition_token = some p.partition_token;
}

pub record QueryPartition : Type 0 where
  pub transaction_id : String
  pub session_id : String
  pub partition_token : String
  pub sql_statement : SqlStatement

-- `Connection::SqlParams`; of the query options only the version.
pub record SqlParams : Type 0 where
  pub transaction : TransactionImpl
  pub statement : SqlStatement
  pub optimizer_version : Option String
  pub partition_token : Option String

-- `MakeSqlParams`.
unfoldable pub make_sql_params : QueryPartition → SqlParams
unfolding transaction_from_ids
make_sql_params p = record {
  transaction = transaction_from_ids p.session_id p.transaction_id;
  statement = p.sql_statement;
  optimizer_version = none;
  partition_token = some p.partition_token;
}

-- `ExecuteSqlRequest`, as far as a partition is written in it.
pub record QueryProto : Type 0 where
  pub partition_token : String
  pub session : String
  pub transaction : Selector
  pub sql : String
  pub params : Option (List (String × Proto.Value))
  pub param_types : List (String × SpannerType)

unfoldable pub query_proto : QueryPartition → QueryProto
query_proto p = record {
  partition_token = p.partition_token;
  session = p.session_id;
  transaction = id p.transaction_id;
  sql = p.sql_statement.statement;
  params = present (map value_of p.sql_statement.params);
  param_types = map type_of p.sql_statement.params;
}

abbrev pub add_typed : String → Proto.Value → Option SpannerType → Params → Params
add_typed n v none rest = rest
add_typed n v (some t) rest = (n, record { type = t; value = v }) ∷ rest

-- The loop over the fields; the names of a map's fields differ, so that each `insert` adds one. A
-- parameter without a type is left out.
unfoldable pub typed_params : List (String × SpannerType) → List (String × Proto.Value) → Params
typed_params types [] = []
typed_params types ((n, v) ∷ fields) = add_typed n v (find n types) (typed_params types fields)

abbrev pub params_of : List (String × SpannerType) → Option (List (String × Proto.Value)) → Params
params_of types none = []
params_of types (some fields) = typed_params types fields

unfoldable pub query_partition : QueryProto → QueryPartition
unfolding typed_params
query_partition p = record {
  transaction_id = id_of p.transaction;
  session_id = p.session;
  partition_token = p.partition_token;
  sql_statement = record { statement = p.sql; params = params_of p.param_types p.params };
}

abbrev pub invalid_argument : String → Status
invalid_argument = status StatusCode.invalid_argument

abbrev pub or_invalid {ℓ} : {A : Type ℓ} → String → Option A → StatusOr A
or_invalid message none = error (invalid_argument message)
or_invalid message (some a) = value a

-- `SerializeToString` and `ParseFromString` of a message.
pub record Wire (M : Type 0) : Type 0 where
  pub serialize : M → Option String
  pub parse : String → Option M

unfoldable pub serialize_read_partition : Wire ReadRequest → ReadRequest → StatusOr String
serialize_read_partition w p = or_invalid "Failed to serialize SqlPartition" (w.serialize p)

unfoldable pub deserialize_read_partition : Wire ReadRequest → String → StatusOr ReadRequest
deserialize_read_partition w s = or_invalid "Failed to deserialize into SqlPartition" (w.parse s)

unfoldable pub serialize_query_partition : Wire QueryProto → QueryPartition → StatusOr String
unfolding query_proto
serialize_query_partition w p =
    or_invalid "Failed to serialize QueryPartition" (w.serialize (query_proto p))

abbrev pub map_some {ℓ} : {A B : Type ℓ} → (A → B) → Option A → Option B
map_some f none = none
map_some f (some a) = some (f a)

unfoldable pub deserialize_query_partition : Wire QueryProto → String → StatusOr QueryPartition
unfolding query_partition
deserialize_query_partition w s =
    or_invalid "Failed to deserialize into QueryPartition" (map_some query_partition (w.parse s))
