-- ===== src/Connection/Examples.antt =====
-- A service, and the theorems about the operations of a connection at work.
use google_cloud_cpp_spanner.Prelude.{
  ℕ, zero, suc, ◌≡◌, inl, refl, [], ◌∷◌, String, false, ◌||◌, none, some,
}
use google_cloud_cpp_spanner.Status.{StatusCode, status, StatusOr, value, error}
use google_cloud_cpp_spanner.Retry.Examples.{error_count, error_count-IsLimited, doubling}
use google_cloud_cpp_spanner.Transaction.Selector.{begin, id, read_write}
use google_cloud_cpp_spanner.Transaction.Impl.{is_begin, is_done, new_impl, new_visited}
use google_cloud_cpp_spanner.Transaction.Reachable.{Reach, here}
use google_cloud_cpp_spanner.Requests.Keys.{no_keys}
use google_cloud_cpp_spanner.Requests.Partitions.{ReadParams}
use google_cloud_cpp_spanner.Connection.Results.{ResultSet}
use google_cloud_cpp_spanner.Connection.Service.{Service, Visit, Log, Rpc, of_options, retried}
use google_cloud_cpp_spanner.Connection.Commits.{commit_request, commit_impl}
use google_cloud_cpp_spanner.Connection.Operation.{read, perform}
use google_cloud_cpp_spanner.Connection.Laws.{Effect}
use google_cloud_cpp_spanner.Connection.Kept.{lost_session, perform-Effect}
use google_cloud_cpp_spanner.Connection.Selectors.{Answers, Became, perform-Became}
use google_cloud_cpp_spanner.Connection.Visiting.{Transacting, visit_of, run_operation}
use google_cloud_cpp_spanner.Connection.Committed.{
  IsCommitted, commit_impl-IsCommitted, allocated_then, perform-allocated_then, retried-persists,
}
use google_cloud_cpp_spanner.Connection.Refinement.{alone, run_operation-Reach}

abbrev answer : ResultSet
answer = record {
  metadata = some (record { transaction = some (record { id = "txn"; read_timestamp = none }) });
  stats = none;
}

abbrev unasked : {A : Type 0} → StatusOr A
unasked = error (status StatusCode.unimplemented "not here")

-- The first commit is aborted, and the others are not.
abbrev commit_answer : Log → StatusOr ℕ
commit_answer [] = error (status StatusCode.aborted "try again")
commit_answer (Rpc.commit r ∷ log) = value 42
commit_answer (_ ∷ log) = commit_answer log

abbrev pub service : Service ℕ ℕ
service = record {
  retry_policy = error_count;
  backoff_policy = doubling;
  retry_policy_prototype = 2;
  backoff_policy_prototype = 10;
  budget = λ n. n;
  print = λ s. s.message;
  allocate = λ log dissociate. value "session";
  streaming_read = λ log r. value answer;
  execute_streaming_sql = λ log r. value answer;
  partition_read = λ log r k. unasked;
  execute_sql = λ log r k. value answer;
  partition_query = λ log r k. unasked;
  execute_batch_dml = λ log r k. unasked;
  begin_transaction = λ log n o k. value "txn";
  commit = λ log r k. commit_answer log;
  rollback = λ log n i k. value tt;
}

abbrev read_all : ReadParams
read_all = record {
  transaction = record { state = is_begin; session = none; selector = begin read_write; seqno = 0 };
  table = "t";
  keys = no_keys;
  columns = "c" ∷ [];
  read_options = record { index_name = ""; limit = 0 };
  partition_token = none;
}

abbrev started : Visit
started = record { session = some "session"; is_bad = false; selector = begin read_write; log = [] }

perform-Effect_example :
    Effect "session" started (perform service 1 (read read_all) started).1
    × ((perform service 1 (read read_all) started).1.is_bad
        ≡ (lost_session (perform service 1 (read read_all) started).0 || started.is_bad))
perform-Effect_example = perform-Effect service 1 (read read_all) "session" started refl tt

perform-Became_example :
    Became
      (Answers service 1 (read read_all) started)
      started.selector
      (perform service 1 (read read_all) started).0
      (perform service 1 (read read_all) started).1.selector
perform-Became_example = perform-Became service 1 (read read_all) started tt

-- The read succeeds, and the transaction has an id behind it.
read_begins : (perform service 1 (read read_all) started).1.selector ≡ id "txn"
unfolding perform
read_begins = refl

-- A transaction that was aborted once.
abbrev aborted_before : Visit
aborted_before = record started { log = Rpc.commit (commit_request "session" [] "old") ∷ [] }

abbrev committed : Visit
committed = record started {
  selector = id "txn";
  log =
      Rpc.commit (commit_request "session" [] "txn")
      ∷ Rpc.begin_transaction "session" (of_options read_write)
      ∷ Rpc.commit (commit_request "session" [] "old")
      ∷ [];
}

commits : commit_impl service [] aborted_before ≡ (value 42, committed)
unfolding commit_impl
commits = refl

commit_impl-IsCommitted_example :
    (i : String) × IsCommitted service "session" [] aborted_before committed i
commit_impl-IsCommitted_example =
    commit_impl-IsCommitted service [] "session" aborted_before committed 42 refl commits

perform-allocated_then_example :
    perform service 1 (read read_all) (record started { session = none })
    ≡ allocated_then false
        (service.allocate [] false)
        (perform service 1 (read read_all))
        (record started { session = none })
perform-allocated_then_example =
    perform-allocated_then service 1 (read read_all) (record started { session = none }) refl

-- A stub that is out of reach at first.
abbrev second_time : ℕ → StatusOr ℕ
second_time zero = error (status StatusCode.unavailable "try again")
second_time (suc k) = value 42

retried-persists_example : retried service "CommitImpl" second_time ≡ value 42
retried-persists_example =
    retried-persists service 1 "CommitImpl" second_time 1 42 error_count-IsLimited
      (refl, status StatusCode.unavailable "try again", 1, refl, refl, refl) refl

-- A transaction that has only been made.
abbrev unvisited : Transacting
unvisited = record {
  impl = record { state = is_begin; session = none; selector = begin read_write; seqno = 0 };
  is_bad = false;
  log = [];
}

abbrev after_read : Transacting
after_read = record {
  impl = record { state = is_done; session = some "session"; selector = id "txn"; seqno = 1 };
  is_bad = false;
  log =
      Rpc.streaming_read (record {
        session = "session";
        transaction = begin read_write;
        table = "t";
        index = "";
        columns = "c" ∷ [];
        key_set = no_keys;
        limit = 0;
        partition_token = "";
      })
      ∷ Rpc.allocate false
      ∷ [];
}

read_once : run_operation service (read read_all) unvisited ≡ some (none, after_read)
unfolding run_operation
read_once = refl

made : Reach (new_visited (new_impl none (begin read_write))) (alone unvisited.impl [])
unfolding new_visited new_impl
made = here

run_operation-Reach_example :
    Reach (new_visited (new_impl none (begin read_write))) (alone after_read.impl (1 ∷ []))
    × ((none, visit_of after_read) ≡ perform service 1 (read read_all) (visit_of unvisited))
run_operation-Reach_example =
    run_operation-Reach service (read read_all) none (begin read_write) [] unvisited after_read none
      made (inl (tt, tt)) read_once
