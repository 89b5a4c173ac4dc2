-- ===== src/Connection/Named.antt =====
-- The members of the connection that assign the id that their result names.
use text.Mathlib.Text.{◌==◌}
use google_cloud_cpp_spanner.Prelude.{
  ℕ, ◌≡◌, refl, ap, List, [], ◌∷◌, map, All, String, Bool, true, false, Option, none, some,
}
use google_cloud_cpp_spanner.Status.{StatusCode, status, StatusOr, value, error}
use google_cloud_cpp_spanner.Transaction.Selector.{id, has_begin}
use google_cloud_cpp_spanner.Requests.Statement.{SqlStatement}
use google_cloud_cpp_spanner.Requests.Partitions.{
  ReadRequest, ReadParams, PartitionOptions, QueryPartition, SqlParams, read_partition,
}
use google_cloud_cpp_spanner.Connection.Results.{ResultSource, dml, metadata, transaction_id}
use google_cloud_cpp_spanner.Connection.Service.{
  Service, Visit, Action, ◌>>=◌, marking_bad, called, prepare_session, held, allocated, Rpc,
  QueryMode, ExecuteSqlRequest, PartitionResponse,
}
use google_cloud_cpp_spanner.Connection.Reads.{
  record_id, begun, open_read, try_read, ask_partition_read, partition_read_impl, read_partitions,
}
use google_cloud_cpp_spanner.Connection.Sql.{
  execute_sql_impl, open_query, try_query, ask_dml, common_dml_impl,
}
use google_cloud_cpp_spanner.Connection.Batches.{
  ask_partition_query, partition_query_impl, query_partitions,
}
use google_cloud_cpp_spanner.Connection.Lawful.{if_either}
use google_cloud_cpp_spanner.Connection.Assigning.{
  still->>=, Assigned, IsStill, IsAssigning, Assigned-error, IsAssigning-pure, IsStill-pure,
  marking_bad-IsStill, marking_bad-IsAssigning, Assigned-id, Assigned-none,
}

-- The id in the metadata of a result, which is not empty.
abbrev pub HasId : ResultSource → String → Type 0
HasId reader i = (transaction_id (metadata reader) ≡ i) × ((i == "") ≡ false)

-- The id that all partitions name.
abbrev pub ReadIn : List ReadRequest → String → Type 0
ReadIn partitions i = All (λ (p : ReadRequest). p.transaction ≡ id i) partitions

abbrev pub QueriedIn : List QueryPartition → String → Type 0
QueriedIn partitions i = All (λ (p : QueryPartition). p.transaction_id ≡ i) partitions

AssignedTo : (String → Type 0) → Visit → StatusOr (Unit {0}) × Visit → Type 0
AssignedTo Q v r = Assigned (λ _. Q) v.selector r.0 r.1.selector

record_id-IsAssigning :
    (message : String) (reader : ResultSource)
    → IsAssigning (λ _. HasId reader) (record_id message reader)
unfolding record_id IsAssigning AssignedTo
record_id-IsAssigning message reader v =
    if_either (AssignedTo (HasId reader) v) (has_begin v.selector) _ _
      (λ asks.
        if_either (AssignedTo (HasId reader) v) (transaction_id (metadata reader) == "") _ _
          (λ e. Assigned-error (λ _. HasId reader) v.selector (status StatusCode.internal message))
          (λ e.
            Assigned-id (λ _. HasId reader) (transaction_id (metadata reader)) tt v.selector
              (refl, e) asks))
      (λ other. Assigned-none (λ _. HasId reader) tt v.selector other)

begun-IsAssigning : (i : String) → IsAssigning (λ _ j. i ≡ j) (begun i)
unfolding begun IsAssigning AssignedTo
begun-IsAssigning i v =
    if_either (AssignedTo (λ j. i ≡ j) v) (has_begin v.selector) _ _
      (λ asks. Assigned-id (λ _ j. i ≡ j) i tt v.selector refl asks)
      (λ other. Assigned-none (λ _ j. i ≡ j) tt v.selector other)

read_all_in :
    (i j session : String) (params : ReadParams) (tokens : List String)
    → i ≡ j
    → ReadIn
        (map
          (λ token.
            read_partition i session token params.table params.keys params.columns
              params.read_options)
          tokens)
        j
unfolding read_partition
read_all_in i j session params [] e = tt
read_all_in i j session params (t ∷ ts) e = (ap id e, read_all_in i j session params ts e)

read_partitions-ReadIn :
    (session : String) (params : ReadParams) (response : PartitionResponse) (j : String)
    → response.transaction_id ≡ j
    → ReadIn (read_partitions session params response) j
unfolding read_partitions
read_partitions-ReadIn session params response j e =
    read_all_in response.transaction_id j session params response.partitions e

query_all_in :
    (i j session : String) (statement : SqlStatement) (tokens : List String)
    → i ≡ j
    → QueriedIn
        (map
          (λ token. record {
            transaction_id = i;
            session_id = session;
            partition_token = token;
            sql_statement = statement;
          })
          tokens)
        j
query_all_in i j session statement [] e = tt
query_all_in i j session statement (t ∷ ts) e = (e, query_all_in i j session statement ts e)

query_partitions-QueriedIn :
    (session : String) (statement : SqlStatement) (response : PartitionResponse) (j : String)
    → response.transaction_id ≡ j
    → QueriedIn (query_partitions session statement response) j
unfolding query_partitions
query_partitions-QueriedIn session statement response j e =
    query_all_in response.transaction_id j session statement response.partitions e

execute_sql_impl-IsAssigning :
    (session : String) (seqno : ℕ) (params : SqlParams) (mode : QueryMode)
    (f : ExecuteSqlRequest → Action ResultSource)
    → ((r : ExecuteSqlRequest) → IsStill (f r))
    → IsAssigning HasId (execute_sql_impl session seqno params mode f)
unfolding execute_sql_impl IsStill
execute_sql_impl-IsAssigning session seqno params mode f h =
    still->>= HasId _ _ (λ v. h _ v)
      (λ reader.
        IsAssigning-pure (λ _. HasId reader) HasId (record_id _ reader) (λ _. reader) (λ _ i q. q)
          (record_id-IsAssigning _ reader))

module _ {P B : Type 0} (service : Service P B) where
  held-selector :
      (d : Bool) (o : Option String) (v : Visit) → (held service d o v).1.selector ≡ v.selector
  unfolding held
  held-selector d (some n) v = refl
  held-selector d none v = allocated_selector (service.allocate v.log d)
    where
      allocated_selector : (r : StatusOr String) → (allocated service d r v).1.selector ≡ v.selector
      allocated_selector (value n) = refl
      allocated_selector (error s) = refl

  prepared-IsAssigning :
      {A : Type 0} (Q : A → String → Type 0) (d : Bool) (f : String → Action A)
      → ((n : String) → IsAssigning Q (f n))
      → IsAssigning Q (prepare_session service d >>= f)
  unfolding prepare_session IsStill
  prepared-IsAssigning Q d f h =
      still->>= Q (prepare_session service d) f (λ v. held-selector d v.session v) h

  pub try_read-IsAssigning : (params : ReadParams) → IsAssigning HasId (try_read service params)
  unfolding try_read open_read IsStill
  try_read-IsAssigning params = prepared-IsAssigning HasId false _ (λ n.
      still->>= HasId _ _ (marking_bad-IsStill _ (λ v. refl)) (λ reader.
        IsAssigning-pure (λ _. HasId reader) HasId (record_id _ reader) (λ _. reader) (λ _ i q. q)
          (record_id-IsAssigning _ reader)))

  pub partition_read_impl-IsAssigning :
      (params : ReadParams) (options : PartitionOptions)
      → IsAssigning ReadIn (partition_read_impl service params options)
  unfolding partition_read_impl ask_partition_read IsStill
  partition_read_impl-IsAssigning params options = prepared-IsAssigning ReadIn true _ (λ n.
      still->>= ReadIn _ _ (marking_bad-IsStill _ (λ v. refl)) (λ (r : PartitionResponse).
        IsAssigning-pure (λ _ j. r.transaction_id ≡ j) ReadIn (begun r.transaction_id) _
          (λ _ j q. read_partitions-ReadIn n params r j q) (begun-IsAssigning r.transaction_id)))

  pub partition_query_impl-IsAssigning :
      (statement : SqlStatement) (options : PartitionOptions)
      → IsAssigning QueriedIn (partition_query_impl service statement options)
  unfolding partition_query_impl ask_partition_query IsStill
  partition_query_impl-IsAssigning statement options = prepared-IsAssigning QueriedIn true _ (λ n.
      still->>= QueriedIn _ _ (marking_bad-IsStill _ (λ v. refl)) (λ (r : PartitionResponse).
        IsAssigning-pure (λ _ j. r.transaction_id ≡ j) QueriedIn (begun r.transaction_id) _
          (λ _ j q. query_partitions-QueriedIn n statement r j q)
          (begun-IsAssigning r.transaction_id)))

  pub try_query-IsAssigning :
      (seqno : ℕ) (params : SqlParams) (mode : QueryMode)
      → IsAssigning HasId (try_query service seqno params mode)
  unfolding try_query open_query IsStill
  try_query-IsAssigning seqno params mode = prepared-IsAssigning HasId false _ (λ n.
      marking_bad-IsAssigning HasId _
        (execute_sql_impl-IsAssigning n seqno params mode (open_query service) (λ r v. refl)))

  pub common_dml_impl-IsAssigning :
      (seqno : ℕ) (params : SqlParams) (mode : QueryMode)
      → IsAssigning HasId (common_dml_impl service seqno params mode)
  unfolding common_dml_impl ask_dml IsStill
  common_dml_impl-IsAssigning seqno params mode = prepared-IsAssigning HasId false _ (λ n.
      execute_sql_impl-IsAssigning n seqno params mode (ask_dml service) (λ r.
        IsStill-pure
          (marking_bad
            (called service (Rpc.execute_sql r) "CommonDmlImpl" (λ log. service.execute_sql log r)))
          dml (marking_bad-IsStill _ (λ v. refl))))
