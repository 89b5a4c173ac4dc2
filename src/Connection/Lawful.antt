-- ===== src/Connection/Lawful.antt =====
-- The parts that operations share keep the session, the selector, the log and the bad mark as they
-- should.
use text.Mathlib.Text.{◌==◌}
use google_cloud_cpp_spanner.Prelude.{
  ℕ, ◌≡◌, refl, List, [], ◌∷◌, String, Bool, true, false, ◌||◌, Option, some, if◌then◌else◌, arith,
}
use google_cloud_cpp_spanner.Status.{StatusOr, is_session_not_found}
use google_cloud_cpp_spanner.Transaction.Selector.{Selector, begin, single_use, id, has_begin}
use google_cloud_cpp_spanner.Requests.Partitions.{SqlParams}
use google_cloud_cpp_spanner.Connection.Results.{ResultSet, ResultSource, metadata, transaction_id}
use google_cloud_cpp_spanner.Connection.Service.{
  Visit, Log, Action, ◌>>◌, pure, QueryMode, ExecuteSqlRequest,
}
use google_cloud_cpp_spanner.Connection.Reads.{record_id, begun}
use google_cloud_cpp_spanner.Connection.Sql.{sql_request, execute_sql_impl}
use google_cloud_cpp_spanner.Connection.Batches.{begun_by}
use google_cloud_cpp_spanner.Connection.Laws.{
  Grows, begins, is_lost, Effect, IsLawful, IsUnmarked, Effect-refl, >>=-IsLawful, >>=-IsUnmarked,
  pure-IsLawful, pure-IsUnmarked,
}

-- The id that a selector that asked to begin is given.
begun_Effect :
    (n i : String) (o : Selector) (s : Option String) (b : Bool) (l : Log)
    → has_begin o ≡ true
    → s ≡ some n
    → Effect n
        (record { session = s; is_bad = b; selector = o; log = l })
        (record { session = s; is_bad = b; selector = id i; log = l })
begun_Effect n i (begin o) s b l h e = record {
  session = e;
  selector = begins o i;
  log = Grows.same;
}
begun_Effect n i (single_use o) s b l h e = absurd (grind arith)
begun_Effect n i (id j) s b l h e = absurd (grind arith)

pub if_either {ℓ κ} :
    {R : Type ℓ} (Q : R → Type κ) (b : Bool) (x y : R)
    → (b ≡ true → Q x)
    → (b ≡ false → Q y)
    → Q (if b then x else y)
if_either Q true x y h k = h refl
if_either Q false x y h k = k refl

unfoldable pub Lawfully : {A : Type 0} → String → Visit → StatusOr A × Visit → Type 0
Lawfully n v r = Effect n v r.1 × (r.1.is_bad ≡ (is_lost r.0 || v.is_bad))

Unmarked : {A : Type 0} → String → Visit → StatusOr A × Visit → Type 0
Unmarked n v r = Effect n v r.1 × (r.1.is_bad ≡ v.is_bad)

module _ (n : String) where
  pub record_id-IsUnmarked :
      (message : String) (reader : ResultSource) → IsUnmarked n (record_id message reader)
  unfolding record_id Unmarked
  record_id-IsUnmarked message reader v h =
      if_either (Unmarked n v) (has_begin v.selector) _ _
        (λ asks.
          if_either (Unmarked n v) (transaction_id (metadata reader) == "") _ _
            (λ e. (Effect-refl n v h, refl))
            (λ e. (begun_Effect n _ v.selector v.session v.is_bad v.log asks h, refl)))
        (λ e. (Effect-refl n v h, refl))

  pub record_id-IsLawful :
      (message : String) (reader : ResultSource) → IsLawful n (record_id message reader)
  unfolding record_id Lawfully is_session_not_found
  record_id-IsLawful message reader v h =
      if_either (Lawfully n v) (has_begin v.selector) _ _
        (λ asks.
          if_either (Lawfully n v) (transaction_id (metadata reader) == "") _ _
            (λ e. (Effect-refl n v h, refl))
            (λ e. (begun_Effect n _ v.selector v.session v.is_bad v.log asks h, refl)))
        (λ e. (Effect-refl n v h, refl))

  pub begun-IsLawful : (i : String) → IsLawful n (begun i)
  unfolding begun Lawfully
  begun-IsLawful i v h =
      if_either (Lawfully n v) (has_begin v.selector) _ _
        (λ asks. (begun_Effect n i v.selector v.session v.is_bad v.log asks h, refl))
        (λ e. (Effect-refl n v h, refl))

  pub begun_by-IsLawful : (rs : List ResultSet) → IsLawful n (begun_by rs)
  unfolding begun_by
  begun_by-IsLawful [] v h = (Effect-refl n v h, refl)
  begun_by-IsLawful (r ∷ rs) v h = begun-IsLawful (transaction_id r.metadata) v h

  pub then_pure : {A B : Type 0} (m : Action B) (a : A) → IsLawful n m → IsLawful n (m >> pure a)
  then_pure m a h = >>=-IsLawful n m (λ _. pure a) h (λ _. pure-IsLawful n a)

  pub execute_sql_impl-IsUnmarked :
      (seqno : ℕ) (params : SqlParams) (mode : QueryMode)
      (f : ExecuteSqlRequest → Action ResultSource)
      → ((r : ExecuteSqlRequest) → r.session ≡ n → IsUnmarked n (f r))
      → IsUnmarked n (execute_sql_impl n seqno params mode f)
  unfolding execute_sql_impl sql_request
  execute_sql_impl-IsUnmarked seqno params mode f h =
      >>=-IsUnmarked n _ _ (λ v s. h (sql_request n v.selector seqno params mode) refl v s)
        (λ reader.
          >>=-IsUnmarked n (record_id _ reader) (λ _. pure reader) (record_id-IsUnmarked _ reader)
            (λ _. pure-IsUnmarked n reader))

  pub execute_sql_impl-IsLawful :
      (seqno : ℕ) (params : SqlParams) (mode : QueryMode)
      (f : ExecuteSqlRequest → Action ResultSource)
      → ((r : ExecuteSqlRequest) → r.session ≡ n → IsLawful n (f r))
      → IsLawful n (execute_sql_impl n seqno params mode f)
  unfolding execute_sql_impl sql_request
  execute_sql_impl-IsLawful seqno params mode f h =
      >>=-IsLawful n _ _ (λ v s. h (sql_request n v.selector seqno params mode) refl v s)
        (λ reader. then_pure (record_id _ reader) reader (record_id-IsLawful _ reader))
