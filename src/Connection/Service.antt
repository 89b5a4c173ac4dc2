-- ===== src/Connection/Service.antt =====
-- What the operations of a connection work with: the requests, the stub and the session pool as what
-- they answer, the state that a visit may change, and the calls through the retry loop.
use Prim.Native.String.{String}
use google_cloud_cpp_spanner.Prelude.{
  ℕ, suc, List, ◌∷◌, Bool, true, false, Option, none, some, if◌then◌else◌,
}
use google_cloud_cpp_spanner.Status.{
  StatusCode, Status, status, StatusOr, value, error, is_session_not_found,
}
use google_cloud_cpp_spanner.Retry.Policy.{RetryPolicy, BackoffPolicy}
use google_cloud_cpp_spanner.Retry.Loop.{Report, retry_loop}
use google_cloud_cpp_spanner.Transaction.Selector.{Selector, Options, id}
use google_cloud_cpp_spanner.Stream.Value as Proto
use google_cloud_cpp_spanner.Values.Types.{SpannerType}
use google_cloud_cpp_spanner.Requests.Keys.{KeySet}
use google_cloud_cpp_spanner.Requests.Statement.{SqlStatementProto}
use google_cloud_cpp_spanner.Requests.Mutations.{Mutation}
use google_cloud_cpp_spanner.Requests.Partitions.{ReadRequest, PartitionOptionsProto}
use google_cloud_cpp_spanner.Connection.Results.{ResultSet, ResultSource, stream}

pub data QueryMode : Type 0 where
  normal plan profile : QueryMode

pub record PartitionReadRequest : Type 0 where
  pub session : String
  pub transaction : Selector
  pub table : String
  pub index : String
  pub columns : List String
  pub key_set : KeySet
  pub partition_options : PartitionOptionsProto

pub record ExecuteSqlRequest : Type 0 where
  pub session : String
  pub transaction : Selector
  pub sql : String
  pub params : Option (List (String × Proto.Value))
  pub param_types : List (String × SpannerType)
  pub seqno : ℕ
  pub query_mode : QueryMode
  pub partition_token : String
  pub optimizer_version : Option String

pub record PartitionQueryRequest : Type 0 where
  pub session : String
  pub transaction : Selector
  pub sql : String
  pub params : Option (List (String × Proto.Value))
  pub param_types : List (String × SpannerType)
  pub partition_options : PartitionOptionsProto

-- `PartitionResponse`: the id of its transaction, and the tokens of the partitions.
pub record PartitionResponse : Type 0 where
  pub transaction_id : String
  pub partitions : List String

pub record BatchDmlRequest : Type 0 where
  pub session : String
  pub seqno : ℕ
  pub transaction : Selector
  pub statements : List SqlStatementProto

-- `ExecuteBatchDmlResponse`, with its status as `MakeStatusFromRpcError` converts it.
pub record BatchDmlResponse : Type 0 where
  pub result_sets : List ResultSet
  pub status : Status

pub data BeginOptions : Type 0 where
  of_options : Options → BeginOptions
  partitioned_dml : BeginOptions

pub record CommitRequest : Type 0 where
  pub session : String
  pub mutations : List Mutation
  pub transaction_id : String

-- What is asked of the pool and of the stub.
pub data Rpc : Type 0 where
  allocate : Bool → Rpc
  streaming_read : ReadRequest → Rpc
  partition_read : PartitionReadRequest → Rpc
  execute_streaming_sql : ExecuteSqlRequest → Rpc
  execute_sql : ExecuteSqlRequest → Rpc
  partition_query : PartitionQueryRequest → Rpc
  execute_batch_dml : BatchDmlRequest → Rpc
  begin_transaction : String → BeginOptions → Rpc
  commit : CommitRequest → Rpc
  rollback : String → String → Rpc

-- What was asked, the latest first.
abbrev pub Log : Type 0
Log = List Rpc

-- The answers. They may depend on all that was asked before; the last number counts the attempts of
-- the retry loop. `stream` is what `PartialResultSetSource::Create` makes of a resumed stream.
pub record Service (P B : Type 0) : Type 0 where
  pub retry_policy : RetryPolicy P
  pub backoff_policy : BackoffPolicy B
  pub retry_policy_prototype : P
  pub backoff_policy_prototype : B
  pub budget : P → ℕ
  pub print : Status → String
  pub allocate : Log → Bool → StatusOr String
  pub streaming_read : Log → ReadRequest → StatusOr ResultSet
  pub execute_streaming_sql : Log → ExecuteSqlRequest → StatusOr ResultSet
  pub partition_read : Log → PartitionReadRequest → ℕ → StatusOr PartitionResponse
  pub execute_sql : Log → ExecuteSqlRequest → ℕ → StatusOr ResultSet
  pub partition_query : Log → PartitionQueryRequest → ℕ → StatusOr PartitionResponse
  pub execute_batch_dml : Log → BatchDmlRequest → ℕ → StatusOr BatchDmlResponse
  pub begin_transaction : Log → String → BeginOptions → ℕ → StatusOr String
  pub commit : Log → CommitRequest → ℕ → StatusOr ℕ
  pub rollback : Log → String → String → ℕ → StatusOr (Unit {0})

-- What a visit may change: the session, whether it is marked bad, and the selector.
pub record Visit : Type 0 where
  pub session : Option String
  pub is_bad : Bool
  pub selector : Selector
  pub log : Log

abbrev pub Action : Type 0 → Type 0
Action A = Visit → StatusOr A × Visit

abbrev pub continue : {A B : Type 0} → StatusOr A × Visit → (A → Action B) → StatusOr B × Visit
continue (value a, v) f = f a v
continue (error s, v) f = (error s, v)

infixl 5 ◌>>=◌ ◌>>◌
abbrev pub ◌>>=◌ : {A B : Type 0} → Action A → (A → Action B) → Action B
◌>>=◌ m f v = continue (m v) f

abbrev pub ◌>>◌ : {A B : Type 0} → Action A → Action B → Action B
m >> k = m >>= λ _. k

abbrev pub pure : {A : Type 0} → A → Action A
pure a v = (value a, v)

abbrev pub fail : {A : Type 0} → Status → Action A
fail s v = (error s, v)

-- `set_bad` where a failed call lost its session.
abbrev pub mark : {A : Type 0} → StatusOr A → Visit → StatusOr A × Visit
mark (value a) v = (value a, v)
mark (error s) v =
    (error s, record v { is_bad = if is_session_not_found s then true else v.is_bad })

unfoldable pub marking_bad : {A : Type 0} → Action A → Action A
marking_bad m v = let (r, w) = m v in mark r w

abbrev pub set_id : String → Visit → Visit
set_id i v = record v { selector = id i }

abbrev pub asked : Rpc → Visit → Visit
asked rpc v = record v { log = rpc ∷ v.log }

-- A `RowStream` over an opened stream.
abbrev pub streamed : StatusOr ResultSet → StatusOr ResultSource
streamed (value r) = value (stream r)
streamed (error s) = error s

abbrev pub result_of : {A : Type 0} → Option (Report A) → StatusOr A
result_of none = error (status StatusCode.internal "")
result_of (some r) = r.result

module _ {P B : Type 0} (service : Service P B) where
  -- `RetryLoop` of an idempotent call. The fuel is one more than the failures that the policy
  -- allows.
  unfoldable pub retried : {A : Type 0} → String → (ℕ → StatusOr A) → StatusOr A
  unfolding retry_loop
  retried location answers = result_of (
      retry_loop service.retry_policy service.backoff_policy service.print location true answers
        (suc (service.budget service.retry_policy_prototype)) service.retry_policy_prototype
        service.backoff_policy_prototype)

  unfoldable pub called : {A : Type 0} → Rpc → String → (Log → ℕ → StatusOr A) → Action A
  unfolding retried
  called rpc location answers v = (retried location (answers v.log), asked rpc v)

  unfoldable pub allocated : Bool → StatusOr String → Action String
  allocated dissociate (value n) v =
      (value n, record (asked (Rpc.allocate dissociate) v) { session = some n; is_bad = false })
  allocated dissociate (error s) v = (error s, asked (Rpc.allocate dissociate) v)

  unfoldable pub held : Bool → Option String → Action String
  unfolding allocated
  held dissociate (some n) v = (value n, v)
  held dissociate none v = allocated dissociate (service.allocate v.log dissociate) v

  -- `PrepareSession`; its result is the name of the session that is held then.
  unfoldable pub prepare_session : Bool → Action String
  unfolding held
  prepare_session dissociate v = held dissociate v.session v
