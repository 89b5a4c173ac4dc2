-- ===== src/Connection/Members.antt =====
-- The members of the connection, one by one, keep the session, the selector, the log and the bad mark as
-- they should.
use google_cloud_cpp_spanner.Prelude.{
  ℕ, ◌≡◌, refl, sym, subst, List, String, Bool, true, false, Option, some,
}
use google_cloud_cpp_spanner.Status.{StatusOr, value, error, is_session_not_found}
use google_cloud_cpp_spanner.Transaction.Selector.{Selector, begin, single_use, id}
use google_cloud_cpp_spanner.Requests.Statement.{SqlStatement}
use google_cloud_cpp_spanner.Requests.Mutations.{Mutation}
use google_cloud_cpp_spanner.Requests.Partitions.{ReadParams, PartitionOptions, SqlParams}
use google_cloud_cpp_spanner.Connection.Results.{ResultSet, dml, execution_plan}
use google_cloud_cpp_spanner.Connection.Service.{
  Service, Visit, Log, Action, continue, ◌>>=◌, pure, mark, marking_bad, set_id, asked, called, Rpc,
  BatchDmlResponse, PartitionResponse, QueryMode, of_options, partitioned_dml, plan,
}
use google_cloud_cpp_spanner.Connection.Reads.{
  record_id, begun, open_read, try_read, ask_partition_read, partition_read_impl, read_request,
  partition_read_request,
}
use google_cloud_cpp_spanner.Connection.Sql.{
  open_query, try_query, ask_dml, common_dml_impl, analyze_sql_impl,
}
use google_cloud_cpp_spanner.Connection.Batches.{
  partition_query_request, ask_partition_query, partition_query_impl, batch_request, ask_batch,
  begun_by, execute_batch_dml_impl, begin_partitioned, partitioned_request, ask_partitioned,
  execute_partitioned_dml_impl, lower_bound,
}
use google_cloud_cpp_spanner.Connection.Commits.{
  commit_request, begin_commit, committed_id, ask_commit, commit_impl, rolled_back, rollback_impl,
}
use google_cloud_cpp_spanner.Connection.Laws.{
  Names, Grows, MayMove, begins, uses, IsLawful, Effect-refl, Effect-asked, Effect-trans, prepared,
  >>=-IsLawful, marking_bad-IsLawful, mark-IsLawful, pure-IsLawful, prepare_session-IsLawful,
}
use google_cloud_cpp_spanner.Connection.Lawful.{
  Lawfully, record_id-IsLawful, begun-IsLawful, begun_by-IsLawful, then_pure,
  execute_sql_impl-IsUnmarked, execute_sql_impl-IsLawful,
}

module _ {P B : Type 0} (service : Service P B) (n : String) where
  pub try_read-IsLawful : (params : ReadParams) → IsLawful n (try_read service params)
  unfolding try_read open_read read_request
  try_read-IsLawful params = prepare_session-IsLawful service n false _ (
      >>=-IsLawful n _ _
        (marking_bad-IsLawful n _ (λ v s.
          (Effect-asked n v (Rpc.streaming_read (read_request n v.selector params)) refl s, refl)))
        (λ reader. then_pure n (record_id _ reader) reader (record_id-IsLawful n _ reader)))

  pub partition_read_impl-IsLawful :
      (params : ReadParams) (options : PartitionOptions)
      → IsLawful n (partition_read_impl service params options)
  unfolding partition_read_impl ask_partition_read partition_read_request
  partition_read_impl-IsLawful params options = prepare_session-IsLawful service n true _ (
      >>=-IsLawful n _ _
        (marking_bad-IsLawful n _ (λ v s. (
          Effect-asked n v (Rpc.partition_read (partition_read_request n v.selector params options))
              refl s,
          refl,
        )))
        (λ (r : PartitionResponse).
          then_pure n (begun r.transaction_id) _ (begun-IsLawful n r.transaction_id)))

  pub try_query-IsLawful :
      (seqno : ℕ) (params : SqlParams) (mode : QueryMode)
      → IsLawful n (try_query service seqno params mode)
  unfolding try_query open_query
  try_query-IsLawful seqno params mode = prepare_session-IsLawful service n false _ (
      marking_bad-IsLawful n _ (
        execute_sql_impl-IsUnmarked n seqno params mode (open_query service)
          (λ r named v s. (Effect-asked n v (Rpc.execute_streaming_sql r) named s, refl))))

  pub common_dml_impl-IsLawful :
      (seqno : ℕ) (params : SqlParams) (mode : QueryMode)
      → IsLawful n (common_dml_impl service seqno params mode)
  unfolding common_dml_impl ask_dml
  common_dml_impl-IsLawful seqno params mode = prepare_session-IsLawful service n false _ (
      execute_sql_impl-IsLawful n seqno params mode (ask_dml service) (λ r named.
        >>=-IsLawful n _ _
          (marking_bad-IsLawful n _ (λ v s. (Effect-asked n v (Rpc.execute_sql r) named s, refl)))
          (λ response. pure-IsLawful n (dml response))))

  pub partition_query_impl-IsLawful :
      (statement : SqlStatement) (options : PartitionOptions)
      → IsLawful n (partition_query_impl service statement options)
  unfolding partition_query_impl ask_partition_query partition_query_request
  partition_query_impl-IsLawful statement options = prepare_session-IsLawful service n true _ (
      >>=-IsLawful n _ _
        (marking_bad-IsLawful n _ (λ v s. (
          Effect-asked n v
              (Rpc.partition_query (partition_query_request n v.selector statement options)) refl s,
          refl,
        )))
        (λ (r : PartitionResponse).
          then_pure n (begun r.transaction_id) _ (begun-IsLawful n r.transaction_id)))

  pub execute_batch_dml_impl-IsLawful :
      (seqno : ℕ) (statements : List SqlStatement)
      → IsLawful n (execute_batch_dml_impl service seqno statements)
  unfolding execute_batch_dml_impl ask_batch batch_request
  execute_batch_dml_impl-IsLawful seqno statements = prepare_session-IsLawful service n false _ (
      >>=-IsLawful n _ _
        (marking_bad-IsLawful n _ (λ v s. (
          Effect-asked n v (Rpc.execute_batch_dml (batch_request n v.selector seqno statements))
              refl s,
          refl,
        )))
        (λ (r : BatchDmlResponse).
          then_pure n (begun_by r.result_sets) _ (begun_by-IsLawful n r.result_sets)))

  -- A transaction is begun for a commit, unless it has its id.
  begun-Lawfully :
      (r : StatusOr String) (v : Visit) (rpc : Rpc)
      → Names n rpc
      → v.session ≡ some n
      → ((i : String) → MayMove v.selector (id i))
      → Lawfully n v (continue (mark r (asked rpc v)) (λ i w. (value i, set_id i w)))
  unfolding Lawfully
  begun-Lawfully (value i) v rpc named s move =
      (record { session = s; selector = move i; log = Grows.more rpc named Grows.same }, refl)
  begun-Lawfully (error e) v rpc named s move =
      mark-IsLawful {A = String} n v (error e) (asked rpc v) (Effect-asked n v rpc named s, refl)

  committed_id-Lawfully :
      (x : Selector) (session : Option String) (b : Bool) (l : Log)
      → session ≡ some n
      → Lawfully n
          (record { session = session; is_bad = b; selector = x; log = l })
          (committed_id service n x
            (record { session = session; is_bad = b; selector = x; log = l }))
  unfolding committed_id begin_commit Lawfully
  committed_id-Lawfully (begin o) session b l s =
      begun-Lawfully _ (record { session = session; is_bad = b; selector = begin o; log = l })
        (Rpc.begin_transaction n (of_options o)) refl s (λ i. begins o i)
  committed_id-Lawfully (single_use o) session b l s =
      begun-Lawfully _ (record { session = session; is_bad = b; selector = single_use o; log = l })
        (Rpc.begin_transaction n (of_options o)) refl s (λ i. uses o i)
  committed_id-Lawfully (id i) session b l s = (Effect-refl n _ s, refl)

  pub commit_impl-IsLawful :
      (mutations : List Mutation) → IsLawful n (commit_impl service mutations)
  unfolding commit_impl ask_commit commit_request Lawfully
  commit_impl-IsLawful mutations = prepare_session-IsLawful service n false _ (
      >>=-IsLawful n (λ v. committed_id service n v.selector v)
        (λ i. marking_bad (ask_commit service mutations n i))
        (λ v s. committed_id-Lawfully v.selector v.session v.is_bad v.log s)
        (λ i.
          marking_bad-IsLawful n (ask_commit service mutations n i)
            (λ v s. (Effect-asked n v (Rpc.commit (commit_request n mutations i)) refl s, refl))))

  rolled_back-IsLawful : (x : Selector) → IsLawful n (rolled_back service n x)
  unfolding rolled_back is_session_not_found
  rolled_back-IsLawful (begin o) v s = (Effect-refl n v s, refl)
  rolled_back-IsLawful (single_use o) v s = (Effect-refl n v s, refl)
  rolled_back-IsLawful (id i) v s =
      marking_bad-IsLawful n
        (called service (Rpc.rollback n i) "RollbackImpl" (λ log. service.rollback log n i))
        (λ w t. (Effect-asked n w (Rpc.rollback n i) refl t, refl)) v s

  pub rollback_impl-IsLawful : IsLawful n (rollback_impl service)
  unfolding rollback_impl
  rollback_impl-IsLawful =
      prepare_session-IsLawful service n false _ (λ v s. rolled_back-IsLawful v.selector v s)

  pub analyze_sql_impl-IsLawful :
      (seqno : ℕ) (params : SqlParams) → IsLawful n (analyze_sql_impl service seqno params)
  unfolding analyze_sql_impl
  analyze_sql_impl-IsLawful seqno params =
      >>=-IsLawful n (common_dml_impl service seqno params plan) (λ r. pure (execution_plan r))
        (common_dml_impl-IsLawful seqno params plan) (λ r. pure-IsLawful n (execution_plan r))

module _ {P B : Type 0} (service : Service P B) (n : String) (seqno : ℕ)
    (statement : SqlStatement) where
  -- The calls behind the one that begins the transaction.
  counting : String → Action ℕ
  counting i =
      marking_bad (ask_partitioned service seqno statement n i)
      >>= (λ response. pure (lower_bound response.stats))

  executed-Lawfully :
      (r : StatusOr String) (v : Visit) (rpc : Rpc)
      → Names n rpc
      → v.session ≡ some n
      → ((i : String) → MayMove v.selector (id i))
      → Lawfully n v (continue (mark r (asked rpc v)) counting)
  unfolding Lawfully counting ask_partitioned partitioned_request marking_bad called
  executed-Lawfully (value i) v rpc named s move =
      let request = partitioned_request n i seqno statement in
      let ask : Action ResultSet =
        called service (Rpc.execute_sql request) "ExecutePartitionedDmlImpl"
          (λ log. service.execute_sql log request) in
      let (e, b) =
        >>=-IsLawful n (marking_bad ask) (λ response. pure (lower_bound response.stats))
          (marking_bad-IsLawful n ask
            (λ w t. (Effect-asked n w (Rpc.execute_sql request) refl t, refl)))
          (λ response. pure-IsLawful n (lower_bound response.stats)) (set_id i (asked rpc v)) s in
      (
        Effect-trans
            (record { session = s; selector = move i; log = Grows.more rpc named Grows.same }) e,
        b,
      )
  executed-Lawfully (error e) v rpc named s move =
      mark-IsLawful {A = String} n v (error e) (asked rpc v) (Effect-asked n v rpc named s, refl)

  pub execute_partitioned_dml_impl-Lawfully :
      (v : Visit)
      → v.session ≡ some n
      → ((i : String) → MayMove v.selector (id i))
      → Lawfully n v (execute_partitioned_dml_impl service seqno statement v)
  unfolding execute_partitioned_dml_impl begin_partitioned marking_bad counting
  execute_partitioned_dml_impl-Lawfully v s move =
      subst (λ r. Lawfully n v r) (sym (prepared service n false _ v s))
        (executed-Lawfully _ v (Rpc.begin_transaction n partitioned_dml) refl s move)
