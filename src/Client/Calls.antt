-- ===== src/Client/Calls.antt =====
-- The calls of a client that pass on to the connection, `OverlayQueryOptions`, and the channels that
-- `MakeConnection` makes.
use google_cloud_cpp_spanner.Prelude.{
  ℕ, zero, suc, ◌+◌, ◌<◌, ◌≤◌, ◌≡◌, refl, ap, ◌∙◌, max, List, [], ◌∷◌, String, Option, none, some,
  length, get_elem?, arith,
}
use google_cloud_cpp_spanner.Transaction.Selector.{ReadOnly, read_only_strong}
use google_cloud_cpp_spanner.Transaction.Impl.{TransactionImpl, single_use_transaction}
use google_cloud_cpp_spanner.Requests.Keys.{KeySet}
use google_cloud_cpp_spanner.Requests.Statement.{SqlStatement}
use google_cloud_cpp_spanner.Requests.Partitions.{
  ReadParams, ReadOptions, SqlParams, QueryPartition, make_sql_params,
}

-- `Read` in a given transaction.
unfoldable pub read_in : TransactionImpl → String → KeySet → List String → ReadOptions → ReadParams
read_in transaction table keys columns read_options = record {
  transaction = transaction;
  table = table;
  keys = keys;
  columns = columns;
  read_options = read_options;
  partition_token = none;
}

-- `Read` with the options of a single-use transaction, and without options.
unfoldable pub read_once : ReadOnly → String → KeySet → List String → ReadOptions → ReadParams
unfolding read_in single_use_transaction
read_once options table keys columns read_options =
    read_in (single_use_transaction options) table keys columns read_options

unfoldable pub read : String → KeySet → List String → ReadOptions → ReadParams
unfolding read_once read_only_strong
read table keys columns read_options = read_once read_only_strong table keys columns read_options

-- `OverlayQueryOptions`: the options of the call, then those of the client, then the environment.
unfoldable pub overlay_query_options : Option String → Option String → Option String → Option String
overlay_query_options (some preferred) fallback environment = some preferred
overlay_query_options none (some fallback) environment = some fallback
overlay_query_options none none environment = environment

-- What a client has of options: its own, and those of its environment.
pub record Options : Type 0 where
  pub client : Option String
  pub environment : Option String

abbrev overlaid : Options → Option String → Option String
overlaid o preferred = overlay_query_options preferred o.client o.environment

-- `ExecuteQuery`, `ProfileQuery`, `ExecuteDml`, `ProfileDml` and `AnalyzeSql` in a transaction.
unfoldable pub sql_in : Options → TransactionImpl → SqlStatement → Option String → SqlParams
unfolding overlay_query_options
sql_in o transaction statement opts = record {
  transaction = transaction;
  statement = statement;
  optimizer_version = overlaid o opts;
  partition_token = none;
}

unfoldable pub sql_once : Options → ReadOnly → SqlStatement → Option String → SqlParams
unfolding sql_in single_use_transaction
sql_once o options statement opts = sql_in o (single_use_transaction options) statement opts

unfoldable pub sql : Options → SqlStatement → Option String → SqlParams
unfolding sql_once read_only_strong
sql o statement opts = sql_once o read_only_strong statement opts

-- `ExecuteQuery` of a partition.
unfoldable pub sql_of_partition : Options → QueryPartition → Option String → SqlParams
unfolding make_sql_params overlay_query_options
sql_of_partition o partition opts = record (make_sql_params partition) {
  optimizer_version = overlaid o opts;
}

abbrev channels_from : ℕ → ℕ → List ℕ
channels_from zero id = []
channels_from (suc n) id = id ∷ channels_from n (suc id)

-- The ids of the channels whose stubs `MakeConnection` makes.
unfoldable pub channel_ids : ℕ → List ℕ
channel_ids num_channels = channels_from (max num_channels 1) 0

length-channels_from : (n id : ℕ) → length (channels_from n id) ≡ n
length-channels_from zero id = refl
length-channels_from (suc n) id = omega (arith, length-channels_from n (suc id))

nth-channels_from : (n id i : ℕ) → i < n → get_elem? (channels_from n id) i ≡ some (id + i)
nth-channels_from zero id i h = absurd (omega arith)
nth-channels_from (suc n) id zero h = grind arith
nth-channels_from (suc n) id (suc i) h = grind (arith, nth-channels_from n (suc id) i (omega arith))

-- A connection has as many channels as its options say, and one where they say none; the `i`-th has
-- the id `i`.
channel_ids-length :
    (num_channels i : ℕ)
    → i < length (channel_ids num_channels)
    → (length (channel_ids num_channels) ≡ max num_channels 1)
      × (1 ≤ length (channel_ids num_channels))
      × (get_elem? (channel_ids num_channels) i ≡ some i)
unfolding channel_ids
channel_ids-length num_channels i h =
    let n = length-channels_from (max num_channels 1) 0 in
    (
      n,
      ground (arith, n),
      nth-channels_from (max num_channels 1) 0 i (omega (arith, n)) ∙ ap some (omega arith),
    )
