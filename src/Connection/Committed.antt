-- ===== src/Connection/Committed.antt =====
-- What a commit that succeeds has done, and operations on a transaction that has no session yet.
use google_cloud_cpp_spanner.Prelude.{
  ℕ, ◌≡◌, refl, ap, sym, subst, ◌∙◌, List, ◌∷◌, String, Bool, true, false, Option, none, some,
  arith,
}
use google_cloud_cpp_spanner.Status.{Status, StatusOr, value, error}
use google_cloud_cpp_spanner.Retry.Policy.{IsLimited}
use google_cloud_cpp_spanner.Retry.Persistence.{Allows, retry_loop-persists}
use google_cloud_cpp_spanner.Transaction.Selector.{Selector, begin, single_use, id}
use google_cloud_cpp_spanner.Requests.Mutations.{Mutation}
use google_cloud_cpp_spanner.Connection.Service.{
  Service, Visit, Log, Action, continue, ◌>>=◌, mark, marking_bad, set_id, asked, called,
  prepare_session, held, allocated, Rpc, of_options, normal, profile, retried, result_of,
}
use google_cloud_cpp_spanner.Connection.Reads.{try_read, partition_read_impl}
use google_cloud_cpp_spanner.Connection.Sql.{
  try_query, execute_dml_impl, profile_dml_impl, analyze_sql_impl, common_dml_impl,
}
use google_cloud_cpp_spanner.Connection.Batches.{
  partition_query_impl, execute_batch_dml_impl, execute_partitioned_dml_impl,
}
use google_cloud_cpp_spanner.Connection.Commits.{
  commit_request, begin_commit, committed_id, ask_commit, commit_impl, rollback_impl,
}
use google_cloud_cpp_spanner.Connection.Operation.{
  Operation, read, partition_read, execute_query, profile_query, execute_dml, profile_dml,
  analyze_sql, partition_query, execute_batch_dml, execute_partitioned_dml, commit, rollback,
  failure_of, perform,
}
use google_cloud_cpp_spanner.Connection.Laws.{prepared}

-- The calls of a commit behind those before: the transaction is begun if it has no id.
abbrev pub commit_log : String → List Mutation → Selector → String → Log → Log
commit_log n mutations (id j) i log = Rpc.commit (commit_request n mutations i) ∷ log
commit_log n mutations (begin o) i log =
    Rpc.commit (commit_request n mutations i) ∷ Rpc.begin_transaction n (of_options o) ∷ log
commit_log n mutations (single_use o) i log =
    Rpc.commit (commit_request n mutations i) ∷ Rpc.begin_transaction n (of_options o) ∷ log

-- Where the id comes from: it is that of the transaction, or it is what `BeginTransaction` answered to
-- the options of the transaction.
abbrev pub IsIdOf : {P B : Type 0} → Service P B → String → Selector → Log → String → Type 0
IsIdOf service n (id j) log i = i ≡ j
IsIdOf service n (begin o) log i =
    retried service "CommitImpl" (service.begin_transaction log n (of_options o)) ≡ value i
IsIdOf service n (single_use o) log i =
    retried service "CommitImpl" (service.begin_transaction log n (of_options o)) ≡ value i

pub record IsCommitted {P B : Type 0} (service : Service P B) (n : String)
    (mutations : List Mutation) (v w : Visit) (i : String) : Type 0 where
  pub committed : w.log ≡ commit_log n mutations v.selector i v.log
  pub has_id : w.selector ≡ id i
  pub kept : IsIdOf service n v.selector v.log i

module _ {P B : Type 0} (service : Service P B) (mutations : List Mutation) (n : String) where
  -- The last call, with an id.
  pub asked_commit :
      (i : String) (v w : Visit) (t : ℕ) (r : StatusOr ℕ)
      → mark r (asked (Rpc.commit (commit_request n mutations i)) v) ≡ (value t, w)
      → w ≡ asked (Rpc.commit (commit_request n mutations i)) v
  asked_commit i v w t (value u) e = sym (ap (λ p. p.1) e)
  asked_commit i v w t (error s) e = absurd (grind (arith, ap (λ p. p.0) e))

  Succeeds : Selector → Visit → Visit → ℕ → Type 0
  Succeeds x v w t =
      continue (committed_id service n x v) (λ i. marking_bad (ask_commit service mutations n i))
      ≡ (value t, w)

  committed-begun :
      (rpc : Rpc) (r : StatusOr String) (v w : Visit) (t : ℕ)
      → continue
          (continue (mark r (asked rpc v)) (λ i u. (value i, set_id i u)))
          (λ i. marking_bad (ask_commit service mutations n i))
        ≡ (value t, w)
      → (i : String) × (w.log ≡ Rpc.commit (commit_request n mutations i) ∷ rpc ∷ v.log)
        × (w.selector ≡ id i)
        × (r ≡ value i)
  unfolding marking_bad ask_commit
  committed-begun rpc (value i) v w t e =
      let last = asked_commit i (set_id i (asked rpc v)) w t _ e in
      (i, ap (λ u. u.log) last, ap (λ u. u.selector) last, refl)
  committed-begun rpc (error s) v w t e = absurd (grind (arith, ap (λ p. p.0) e))

  succeed-IsCommitted :
      (x : Selector) (v w : Visit) (t : ℕ)
      → v.selector ≡ x
      → Succeeds x v w t
      → (i : String) × (w.log ≡ commit_log n mutations x i v.log)
        × (w.selector ≡ id i)
        × IsIdOf service n x v.log i
  unfolding Succeeds committed_id begin_commit marking_bad ask_commit called
  succeed-IsCommitted (id j) v w t s e =
      let last = asked_commit j v w t _ e in
      (j, ap (λ u. u.log) last, ap (λ u. u.selector) last ∙ s, refl)
  succeed-IsCommitted (begin o) v w t s e =
      let (i, log, sel, answered) =
        committed-begun (Rpc.begin_transaction n (of_options o)) _ v w t e in
      (i, log, sel, answered)
  succeed-IsCommitted (single_use o) v w t s e =
      let (i, log, sel, answered) =
        committed-begun (Rpc.begin_transaction n (of_options o)) _ v w t e in
      (i, log, sel, answered)

  -- A commit that succeeds, in a transaction with a session: its last call is a commit of these
  -- mutations in that session, with the id that the transaction then has. A transaction that had an
  -- id keeps it, and there is no other call; any other transaction was begun by the call before,
  -- with its own options, and has the id that `BeginTransaction` answered.
  pub commit_impl-IsCommitted :
      (v w : Visit) (t : ℕ)
      → v.session ≡ some n
      → commit_impl service mutations v ≡ (value t, w)
      → (i : String) × IsCommitted service n mutations v w i
  unfolding commit_impl Succeeds
  commit_impl-IsCommitted v w t s e =
      let (i, log, sel, kept_id) = succeed-IsCommitted v.selector v w t refl (
        sym (
          prepared service n false
            (λ session.
              (λ u. committed_id service session u.selector u)
              >>= (λ i. marking_bad (ask_commit service mutations session i)))
            v s)
        ∙ e) in
      (i, record { committed = log; has_id = sel; kept = kept_id })

-- Whether the session of an operation may be used by other machines.
abbrev pub dissociates : Operation → Bool
dissociates (partition_read params options) = true
dissociates (partition_query statement options) = true
dissociates _ = false

-- What follows the pool's answer: the failure, or an action with the session.
abbrev pub allocated_then :
    Bool → StatusOr String → (Visit → Option Status × Visit) → Visit → Option Status × Visit
allocated_then d (value n) g v =
    g (record (asked (Rpc.allocate d) v) { session = some n; is_bad = false })
allocated_then d (error s) g v = (some s, asked (Rpc.allocate d) v)

continue_assoc :
    {A B C : Type 0} (r : StatusOr A) (v : Visit) (f : A → Action B) (g : B → Action C)
    → continue (continue (r, v) f) g ≡ continue (r, v) (λ a u. continue (f a u) g)
continue_assoc (value a) v f g = refl
continue_assoc (error s) v f g = refl

module _ {P B A : Type 0} (service : Service P B) (d : Bool) (f : String → Action A) (m : Action A)
    (prepares : (u : Visit) → m u ≡ (prepare_session service d >>= f) u) where
  allocated-then :
      (r : StatusOr String) (v : Visit)
      → failure_of (continue (allocated service d r v) f)
        ≡ allocated_then d r (λ u. failure_of (m u)) v
  unfolding allocated prepare_session held
  allocated-then (value n) v = ap failure_of (sym (prepares _))
  allocated-then (error s) v = refl

  fresh :
      (v : Visit)
      → v.session ≡ none
      → failure_of (m v) ≡ allocated_then d (service.allocate v.log d) (λ u. failure_of (m u)) v
  unfolding prepare_session held
  fresh v h =
      ap failure_of (prepares v)
      ∙ subst
          (λ o.
            failure_of (continue (held service d o v) f)
            ≡ allocated_then d (service.allocate v.log d) (λ u. failure_of (m u)) v)
          (sym h) (allocated-then (service.allocate v.log d) v)

module _ {P B : Type 0} (service : Service P B) (seqno : ℕ) where
  -- An operation of a transaction without a session asks the pool for one, once and before all
  -- else: it fails as the pool does, and changes nothing then, or it is the operation with the
  -- session that it was given. Only the sessions of partitions are taken from the pool for good.
  pub perform-allocated_then :
      (op : Operation) (v : Visit)
      → v.session ≡ none
      → perform service seqno op v
        ≡ allocated_then
            (dissociates op)
            (service.allocate v.log (dissociates op))
            (perform service seqno op)
            v
  unfolding perform try_read partition_read_impl try_query execute_dml_impl profile_dml_impl
      common_dml_impl partition_query_impl execute_batch_dml_impl execute_partitioned_dml_impl
      commit_impl rollback_impl analyze_sql_impl
  perform-allocated_then (read params) v h =
      fresh service false _ (try_read service params) (λ u. refl) v h
  perform-allocated_then (partition_read params options) v h =
      fresh service true _ (partition_read_impl service params options) (λ u. refl) v h
  perform-allocated_then (execute_query params) v h =
      fresh service false _ (try_query service seqno params normal) (λ u. refl) v h
  perform-allocated_then (profile_query params) v h =
      fresh service false _ (try_query service seqno params profile) (λ u. refl) v h
  perform-allocated_then (execute_dml params) v h =
      fresh service false _ (execute_dml_impl service seqno params) (λ u. refl) v h
  perform-allocated_then (profile_dml params) v h =
      fresh service false _ (profile_dml_impl service seqno params) (λ u. refl) v h
  perform-allocated_then (analyze_sql params) v h =
      fresh service false _ (analyze_sql_impl service seqno params)
        (λ u.
          continue_assoc (prepare_session service false u).0 (prepare_session service false u).1 _
            _)
        v h
  perform-allocated_then (partition_query statement options) v h =
      fresh service true _ (partition_query_impl service statement options) (λ u. refl) v h
  perform-allocated_then (execute_batch_dml statements) v h =
      fresh service false _ (execute_batch_dml_impl service seqno statements) (λ u. refl) v h
  perform-allocated_then (execute_partitioned_dml statement) v h =
      fresh service false _ (execute_partitioned_dml_impl service seqno statement) (λ u. refl) v h
  perform-allocated_then (commit mutations) v h =
      fresh service false _ (commit_impl service mutations) (λ u. refl) v h
  perform-allocated_then rollback v h =
      fresh service false _ (rollback_impl service) (λ u. refl) v h

  -- What a call of the connection answers, for a policy that allows a bounded number of failures:
  -- where the stub fails `k` times, the policy allows each of these failures, and the stub then
  -- answers a value, the call comes to that value.
  pub retried-persists :
      {A : Type 0} (location : String) (answers : ℕ → StatusOr A) (k : ℕ) (a : A)
      → IsLimited service.retry_policy.on_failure service.budget
      → Allows service.retry_policy answers 0 service.retry_policy_prototype k
      → answers k ≡ value a
      → retried service location answers ≡ value a
  unfolding retried
  retried-persists location answers k a limited allowed e =
      let (r, went, calls, result) =
        retry_loop-persists service.retry_policy service.backoff_policy service.print location
          answers service.budget limited k service.retry_policy_prototype
          service.backoff_policy_prototype a allowed e in
      ap result_of went ∙ result

-- An action behind another that succeeded.
continue-value :
    {A B : Type 0} (r : StatusOr A) (v w : Visit) (f : A → Action B) (b : B)
    → continue (r, v) f ≡ (value b, w)
    → (a : A) × (f a v ≡ (value b, w))
continue-value (value a) v w f b e = (a, e)
continue-value (error s) v w f b e = absurd (grind (arith, ap (λ p. p.0) e))

-- A commit that succeeds has sent a commit of its mutations last, with or without a session before.
pub commit_impl-last :
    {P B : Type 0} (service : Service P B) (mutations : List Mutation) (v w : Visit) (t : ℕ)
    → commit_impl service mutations v ≡ (value t, w)
    → (n i : String) × (before : Log) × (w.log ≡ Rpc.commit (commit_request n mutations i) ∷ before)
unfolding commit_impl marking_bad ask_commit
commit_impl-last service mutations v w t e =
    let (n, begun_then) =
      continue-value (prepare_session service false v).0 (prepare_session service false v).1 w _ t
        e in
    let (i, last) =
      continue-value
        (committed_id service n (prepare_session service false v).1.selector
          (prepare_session service false v).1).0
        (committed_id service n (prepare_session service false v).1.selector
          (prepare_session service false v).1).1
        w _ t begun_then in
    (n, i, _, ap (λ u. u.log) (asked_commit service mutations n i _ w t _ last))
