-- ===== src/Requests/Examples.antt =====
-- The theorems about requests at work.
use google_cloud_cpp_spanner.Prelude.{◌≡◌, refl, List, [], ◌∷◌, true, some}
use google_cloud_cpp_spanner.Status.{value}
use google_cloud_cpp_spanner.Stream.Value.{boolean}
use google_cloud_cpp_spanner.Transaction.Selector.{id}
use google_cloud_cpp_spanner.Values.Types.{Code, scalar}
use google_cloud_cpp_spanner.Values.Make.{Value}
use google_cloud_cpp_spanner.Requests.Serialized.{deserialize-serialize}
use google_cloud_cpp_spanner.Requests.Keys.{Call, key, range, Bound, no_keys}
use google_cloud_cpp_spanner.Requests.Statement.{SqlStatement}
use google_cloud_cpp_spanner.Requests.Partitions.{
  ReadRequest, QueryPartition, Wire, query_proto, serialize_query_partition,
  serialize_read_partition, deserialize_query_partition, deserialize_read_partition,
}

abbrev truth : Value
truth = record { type = scalar Code.bool; value = boolean true }

abbrev two_calls : List Call
two_calls =
    key (truth ∷ [])
    ∷ range (record { key = truth ∷ []; bound = Bound.closed })
        (record { key = []; bound = Bound.open_bound })
    ∷ []

abbrev select : SqlStatement
select = record { statement = "SELECT @a, @b"; params = ("a", truth) ∷ ("b", truth) ∷ [] }

abbrev partition : QueryPartition
partition = record {
  transaction_id = "txn";
  session_id = "session";
  partition_token = "token";
  sql_statement = select;
}

abbrev read_request : ReadRequest
read_request = record {
  session = "session";
  transaction = id "txn";
  table = "t";
  index = "";
  columns = "c" ∷ [];
  key_set = no_keys;
  limit = 0;
  partition_token = "token";
}

-- A wire that carries one message.
abbrev carrying : {M : Type 0} → M → Wire M
carrying m = record { serialize = λ n. some "message"; parse = λ s. some m }

deserialize-serialize_example :
    (deserialize_query_partition (carrying (query_proto partition)) "message" ≡ value partition)
    × (deserialize_read_partition (carrying read_request) "message" ≡ value read_request)
unfolding serialize_query_partition serialize_read_partition
deserialize-serialize_example =
    deserialize-serialize (carrying (query_proto partition)) (carrying read_request) partition
      read_request "message" "message" (λ s e. refl) (λ s e. refl) ((refl, tt), (tt, tt)) refl refl
