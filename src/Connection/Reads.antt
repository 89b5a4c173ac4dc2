-- ===== src/Connection/Reads.antt =====
-- `ReadImpl` and `PartitionReadImpl`.
use text.Mathlib.Text.{◌==◌}
use google_cloud_cpp_spanner.Prelude.{
  List, map, String, true, false, Option, none, some, if◌then◌else◌,
}
use google_cloud_cpp_spanner.Status.{StatusCode, status, value, error}
use google_cloud_cpp_spanner.Transaction.Selector.{Selector, has_begin}
use google_cloud_cpp_spanner.Requests.Partitions.{
  ReadRequest, ReadParams, PartitionOptions, options_to_proto, read_partition,
}
use google_cloud_cpp_spanner.Connection.Results.{ResultSource, metadata, rows_of, transaction_id}
use google_cloud_cpp_spanner.Connection.Service.{
  Service, Visit, Action, ◌>>=◌, ◌>>◌, pure, marking_bad, set_id, asked, called, streamed,
  prepare_session, Rpc, PartitionReadRequest, PartitionResponse,
}

-- The id of a transaction that was to begin is taken from the metadata; without one the operation
-- fails.
unfoldable pub record_id : String → ResultSource → Action (Unit {0})
unfolding metadata transaction_id
record_id message reader v =
    let i = transaction_id (metadata reader) in
    if has_begin v.selector
    then if i == "" then (error (status StatusCode.internal message), v) else (value tt, set_id i v)
    else (value tt, v)

abbrev pub or_empty : Option String → String
or_empty none = ""
or_empty (some s) = s

unfoldable pub read_request : String → Selector → ReadParams → ReadRequest
read_request session s params = record {
  session = session;
  transaction = s;
  table = params.table;
  index = params.read_options.index_name;
  columns = params.columns;
  key_set = params.keys;
  limit = params.read_options.limit;
  partition_token = or_empty params.partition_token;
}

unfoldable pub partition_read_request :
    String → Selector → ReadParams → PartitionOptions → PartitionReadRequest
unfolding options_to_proto
partition_read_request session s params options = record {
  session = session;
  transaction = s;
  table = params.table;
  index = params.read_options.index_name;
  columns = params.columns;
  key_set = params.keys;
  partition_options = options_to_proto options;
}

-- `set_id` of a partition call.
unfoldable pub begun : String → Action (Unit {0})
begun i v = if has_begin v.selector then (value tt, set_id i v) else (value tt, v)

unfoldable pub read_partitions : String → ReadParams → PartitionResponse → List ReadRequest
unfolding read_partition
read_partitions session params response =
    map
      (λ token.
        read_partition response.transaction_id session token params.table params.keys params.columns
          params.read_options)
      response.partitions

module _ {P B : Type 0} (service : Service P B) where
  unfoldable pub open_read : ReadParams → String → Action ResultSource
  unfolding read_request
  open_read params session v =
      let request = read_request session v.selector params in
      (streamed (service.streaming_read v.log request), asked (Rpc.streaming_read request) v)

  unfoldable pub try_read : ReadParams → Action ResultSource
  unfolding prepare_session marking_bad open_read record_id
  try_read params = do
    session ← prepare_session service false
    reader ← marking_bad (open_read params session)
    record_id "Begin transaction requested but no transaction returned (in Read)." reader
    pure reader

  -- `ReadImpl`; a failure is a stream that has only a status.
  unfoldable pub read_impl : ReadParams → Visit → ResultSource × Visit
  unfolding try_read
  read_impl params v = let (r, w) = try_read params v in (rows_of r, w)

  unfoldable pub ask_partition_read :
      ReadParams → PartitionOptions → String → Action PartitionResponse
  unfolding partition_read_request called
  ask_partition_read params options session v =
      let request = partition_read_request session v.selector params options in
      called service (Rpc.partition_read request) "PartitionReadImpl"
        (λ log. service.partition_read log request) v

  -- `PartitionReadImpl`.
  unfoldable pub partition_read_impl : ReadParams → PartitionOptions → Action (List ReadRequest)
  unfolding prepare_session marking_bad ask_partition_read begun read_partitions
  partition_read_impl params options = do
    session ← prepare_session service true
    response ← marking_bad (ask_partition_read params options session)
    begun response.transaction_id
    pure (read_partitions session params response)
