-- ===== src/Connection/Selectors.antt =====
-- What an operation that succeeds, and one that fails, makes of a selector.
use google_cloud_cpp_spanner.Prelude.{ℕ, ◌≡◌, refl, sym, subst, String, Option, none}
use google_cloud_cpp_spanner.Status.{Status, StatusOr, value, error}
use google_cloud_cpp_spanner.Transaction.Selector.{Selector, begin, single_use, id}
use google_cloud_cpp_spanner.Connection.Results.{ResultSource, execution_plan}
use google_cloud_cpp_spanner.Connection.Service.{
  Service, Visit, Action, continue, pure, normal, profile, plan,
}
use google_cloud_cpp_spanner.Connection.Reads.{try_read, partition_read_impl}
use google_cloud_cpp_spanner.Connection.Sql.{
  try_query, common_dml_impl, execute_dml_impl, profile_dml_impl, analyze_sql_impl,
}
use google_cloud_cpp_spanner.Connection.Batches.{partition_query_impl}
use google_cloud_cpp_spanner.Connection.Operation.{
  Operation, read, partition_read, execute_query, profile_query, execute_dml, profile_dml,
  analyze_sql, partition_query, execute_batch_dml, execute_partitioned_dml, commit, rollback,
  failure_of, perform,
}
use google_cloud_cpp_spanner.Connection.Assigning.{Assigned, IsAssigning}
use google_cloud_cpp_spanner.Connection.Named.{
  HasId, ReadIn, QueriedIn, try_read-IsAssigning, partition_read_impl-IsAssigning,
  partition_query_impl-IsAssigning, try_query-IsAssigning, common_dml_impl-IsAssigning,
}

-- The operations that a transaction may begin with, and that return its id.
abbrev pub Begins : Operation → Type 0
Begins (execute_batch_dml statements) = ⊥
Begins (execute_partitioned_dml statement) = ⊥
Begins (commit mutations) = ⊥
Begins rollback = ⊥
Begins _ = Unit {0}

-- A value that names the id.
abbrev pub Reports : {A : Type 0} → (A → String → Type 0) → StatusOr A → String → Type 0
Reports Q (value a) i = Q a i
Reports Q (error s) i = ⊥

module _ {P B : Type 0} (service : Service P B) (seqno : ℕ) where
  -- The id that the result of the operation names.
  abbrev pub Answers : Operation → Visit → String → Type 0
  Answers (read params) v i = Reports HasId (try_read service params v).0 i
  Answers (partition_read params options) v i =
      Reports ReadIn (partition_read_impl service params options v).0 i
  Answers (execute_query params) v i = Reports HasId (try_query service seqno params normal v).0 i
  Answers (profile_query params) v i = Reports HasId (try_query service seqno params profile v).0 i
  Answers (execute_dml params) v i = Reports HasId (execute_dml_impl service seqno params v).0 i
  Answers (profile_dml params) v i = Reports HasId (profile_dml_impl service seqno params v).0 i
  Answers (analyze_sql params) v i = Reports HasId (common_dml_impl service seqno params plan v).0 i
  Answers (partition_query statement options) v i =
      Reports QueriedIn (partition_query_impl service statement options v).0 i
  Answers _ v i = ⊥

abbrev pub Became : (String → Type 0) → Selector → Option Status → Selector → Type 0
Became N (begin o) none s = (i : String) × N i × (s ≡ id i)
Became N x r s = s ≡ x

Became-Assigned :
    {A : Type 0} (Q : A → String → Type 0) (x : Selector) (r : StatusOr A) (w : Visit)
    → Assigned Q x r w.selector
    → Became (Reports Q r) x (failure_of (r, w)).0 (failure_of (r, w)).1.selector
Became-Assigned Q (begin o) (value a) w h = h
Became-Assigned Q (begin o) (error s) w h = h
Became-Assigned Q (single_use o) (value a) w h = h
Became-Assigned Q (single_use o) (error s) w h = h
Became-Assigned Q (id i) (value a) w h = h
Became-Assigned Q (id i) (error s) w h = h

reported :
    {A : Type 0} (Q : A → String → Type 0) (m : Action A)
    → IsAssigning Q m
    → (v : Visit)
    → Became (Reports Q (m v).0) v.selector (failure_of (m v)).0 (failure_of (m v)).1.selector
unfolding IsAssigning
reported Q m h v = Became-Assigned Q v.selector (m v).0 (m v).1 (h v)

analyzed :
    (x s : Selector) (r : StatusOr ResultSource) (v : Visit)
    → Became (Reports HasId r) x (failure_of (r, v)).0 s
    → Became (Reports HasId r) x (failure_of (continue (r, v) (λ a. pure (execution_plan a)))).0 s
analyzed (begin o) s (value a) v h = h
analyzed (begin o) s (error e) v h = h
analyzed (single_use o) s (value a) v h = h
analyzed (single_use o) s (error e) v h = h
analyzed (id i) s (value a) v h = h
analyzed (id i) s (error e) v h = h

analyzed_selector :
    (r : StatusOr ResultSource) (v : Visit)
    → (failure_of (continue (r, v) (λ a. pure (execution_plan a)))).1.selector
      ≡ (failure_of (r, v)).1.selector
analyzed_selector (value a) v = refl
analyzed_selector (error e) v = refl

-- A read, a query, a DML statement, an analysis and a partitioning, in any transaction and whatever
-- the service answers: when it succeeds, a selector that asked to begin has become an id: for
-- partitions that which every partition names, and otherwise that in the metadata of the result,
-- which is not empty. When it fails, the selector is what it was; another selector stays in any case.
pub perform-Became :
    {P B : Type 0} (service : Service P B) (seqno : ℕ) (op : Operation) (v : Visit)
    → Begins op
    → Became
        (Answers service seqno op v)
        v.selector
        (perform service seqno op v).0
        (perform service seqno op v).1.selector
unfolding perform execute_dml_impl profile_dml_impl analyze_sql_impl
perform-Became service seqno (read params) v b =
    reported HasId (try_read service params) (try_read-IsAssigning service params) v
perform-Became service seqno (partition_read params options) v b =
    reported ReadIn (partition_read_impl service params options)
      (partition_read_impl-IsAssigning service params options) v
perform-Became service seqno (execute_query params) v b =
    reported HasId (try_query service seqno params normal)
      (try_query-IsAssigning service seqno params normal) v
perform-Became service seqno (profile_query params) v b =
    reported HasId (try_query service seqno params profile)
      (try_query-IsAssigning service seqno params profile) v
perform-Became service seqno (execute_dml params) v b =
    reported HasId (execute_dml_impl service seqno params)
      (common_dml_impl-IsAssigning service seqno params normal) v
perform-Became service seqno (profile_dml params) v b =
    reported HasId (profile_dml_impl service seqno params)
      (common_dml_impl-IsAssigning service seqno params profile) v
perform-Became service seqno (analyze_sql params) v b =
    let (r, w) = common_dml_impl service seqno params plan v in
    subst
      (λ s.
        Became (Reports HasId r) v.selector
          (failure_of (continue (r, w) (λ a. pure (execution_plan a)))).0 s)
      (sym (analyzed_selector r w))
      (analyzed v.selector _ r w (
        reported HasId (common_dml_impl service seqno params plan)
          (common_dml_impl-IsAssigning service seqno params plan) v))
perform-Became service seqno (partition_query statement options) v b =
    reported QueriedIn (partition_query_impl service statement options)
      (partition_query_impl-IsAssigning service statement options) v
perform-Became service seqno (execute_batch_dml statements) v b = absurd b
perform-Became service seqno (execute_partitioned_dml statement) v b = absurd b
perform-Became service seqno (commit mutations) v b = absurd b
perform-Became service seqno rollback v b = absurd b
