-- ===== src/Admin/Awaiting.antt =====
-- How the admin connections' long-running operations end, and how often the stub is called.
use Prim.Native.String.{String}
use text.Mathlib.Text.{◌==◌}
use google_cloud_cpp_spanner.Prelude.{
  ℕ, suc, ◌≤◌, ◌≡◌, refl, sym, subst, Bool, true, false, not, Option, none, some, arith,
}
use google_cloud_cpp_spanner.Status.{Status, StatusOr, value, error}
use google_cloud_cpp_spanner.Retry.Policy.{IsLimited}
use google_cloud_cpp_spanner.Retry.Loop.{Report}
use google_cloud_cpp_spanner.Retry.Calls.{IsResult, IsExplained, retry_loop-IsExplained}
use google_cloud_cpp_spanner.Retry.Persistence.{Allows, retry_loop-persists}
use google_cloud_cpp_spanner.Retry.Polling.{Operation, Polled, extract_response, extract_metadata}
use google_cloud_cpp_spanner.Retry.Polls.{IsPolled, polling_loop-IsPolled}
use google_cloud_cpp_spanner.Names.{Database, database_name}
use google_cloud_cpp_spanner.Admin.Service.{
  AdminService, Awaited, called, await_response, await_metadata, await_started, long_running,
}
use google_cloud_cpp_spanner.Admin.Requests.{DatabaseRequest, IamPolicy}
use google_cloud_cpp_spanner.Admin.Database.{unary, set_iam_policy}

-- Policies that allow a bounded number of failures, and waiting that costs the polls nothing.
pub record HasBudgets {R M E Any P B Q : Type 0} (admin : AdminService R M E Any P B Q)
    : Type 0 where
  pub retries : IsLimited admin.retry_policy.on_failure admin.retry_budget
  pub polls : IsLimited admin.polling_policy.on_failure admin.polling_budget
  pub waits :
      (q : Q) → admin.polling_budget (admin.polling_policy.wait_period q).0 ≤ admin.polling_budget q

module _ {R M E Any P B Q : Type 0} (admin : AdminService R M E Any P B Q) where
  abbrev pub attempts : ℕ
  attempts = suc (admin.retry_budget admin.retry_policy_prototype)

  -- The polls of an operation that has started end as those of `PollingLoop` do.
  abbrev pub IsPolledOf :
      (Operation E Any → String → StatusOr M) → String → Operation E Any → Polled M → Type 0
  IsPolledOf extract location operation p =
      IsPolled admin.polling_policy admin.make_status extract location
        (admin.get_operation operation.name) operation
        (suc (admin.polling_budget admin.polling_policy_prototype)) p

  -- The result is the failure of the start, with no poll, or that of the polls.
  pub data IsEnd (extract : Operation E Any → String → StatusOr M) (location : String)
      : StatusOr (Operation E Any) → Option (Polled M) → StatusOr M → Type 0 where
    refused : (s : Status) → IsEnd extract location (error s) none (error s)
    polled :
        (operation : Operation E Any) (p : Polled M)
        → IsPolledOf extract location operation p
        → IsEnd extract location (value operation) (some p) p.result

  pub record IsAwaited (is_idempotent : Bool) (request : R)
      (extract : Operation E Any → String → StatusOr M) (location : String) (o : Awaited M E Any)
      : Type 0 where
    pub started : IsExplained is_idempotent (admin.start request) attempts o.started
    pub ended : IsEnd extract location o.started.result o.polled o.result

  module _ (budgets : HasBudgets admin) where
    pub called-IsExplained :
        {A : Type 0} (is_idempotent : Bool) (answers : ℕ → StatusOr A) (location : String)
        → (r : Report A) × (called admin is_idempotent answers location ≡ some r)
          × IsExplained is_idempotent answers attempts r
    unfolding called
    called-IsExplained is_idempotent answers location =
        retry_loop-IsExplained admin.retry_policy admin.backoff_policy admin.print location
          is_idempotent answers admin.retry_budget budgets.retries attempts
          admin.retry_policy_prototype admin.backoff_policy_prototype (omega arith)

    await_started-IsAwaited :
        (is_idempotent : Bool) (await : Operation E Any → Option (Polled M))
        (extract : Operation E Any → String → StatusOr M) (request : R) (place : String)
        (r : Report (Operation E Any)) (answer : StatusOr (Operation E Any))
        → IsExplained is_idempotent (admin.start request) attempts r
        → r.result ≡ answer
        → ((operation : Operation E Any)
            → (p : Polled M) × (await operation ≡ some p) × IsPolledOf extract place operation p)
        → (o : Awaited M E Any) × (await_started admin await r answer ≡ some o)
          × IsAwaited is_idempotent request extract place o
    await_started-IsAwaited is_idempotent await extract request place r (error s) x e polls = (
      _,
      refl,
      record {
        started = x;
        ended = subst (λ a. IsEnd extract place a none (error s)) (sym e) (refused s);
      },
    )
    await_started-IsAwaited is_idempotent await extract request place r (value operation) x e
          polls =
        let (p, went, polled_so) = polls operation in
        (
          record { started = r; polled = some p; result = p.result },
          rw went refl,
          record {
            started = x;
            ended =
                subst (λ a. IsEnd extract place a (some p) p.result) (sym e)
                  (IsEnd.polled operation p polled_so);
          },
        )

    long_running-IsAwaited :
        (is_idempotent : Bool) (await : Operation E Any → Option (Polled M))
        (extract : Operation E Any → String → StatusOr M) (request : R) (location place : String)
        → ((operation : Operation E Any)
            → (p : Polled M) × (await operation ≡ some p) × IsPolledOf extract place operation p)
        → (o : Awaited M E Any) × (long_running admin is_idempotent await request location ≡ some o)
          × IsAwaited is_idempotent request extract place o
    unfolding long_running
    long_running-IsAwaited is_idempotent await extract request location place polls =
        let (r, went, x) = called-IsExplained is_idempotent (admin.start request) location in
        let rest =
          await_started-IsAwaited is_idempotent await extract request place r r.result x refl
            polls in
        (rest.0, rw (long_running, went) rest.1, rest.2)

    pub response-IsAwaited :
        (is_idempotent : Bool) (request : R) (location place : String)
        → (o : Awaited M E Any) × (long_running admin is_idempotent
              (await_response admin place)
              request
              location
            ≡ some o)
          × IsAwaited is_idempotent request (extract_response admin.unpack) place o
    unfolding await_response
    response-IsAwaited is_idempotent request location place =
        long_running-IsAwaited is_idempotent (await_response admin place)
          (extract_response admin.unpack) request location place
          (λ operation.
            polling_loop-IsPolled admin.polling_policy admin.make_status
              (extract_response admin.unpack) place (admin.get_operation operation.name) operation
              admin.polling_budget budgets.polls budgets.waits
              (suc (admin.polling_budget admin.polling_policy_prototype))
              admin.polling_policy_prototype (omega arith))

    pub metadata-IsAwaited :
        (is_idempotent : Bool) (request : R) (location place : String)
        → (o : Awaited M E Any) × (long_running admin is_idempotent
              (await_metadata admin place)
              request
              location
            ≡ some o)
          × IsAwaited is_idempotent request (extract_metadata admin.unpack) place o
    unfolding await_metadata
    metadata-IsAwaited is_idempotent request location place =
        long_running-IsAwaited is_idempotent (await_metadata admin place)
          (extract_metadata admin.unpack) request location place
          (λ operation.
            polling_loop-IsPolled admin.polling_policy admin.make_status
              (extract_metadata admin.unpack) place (admin.get_operation operation.name) operation
              admin.polling_budget budgets.polls budgets.waits
              (suc (admin.polling_budget admin.polling_policy_prototype))
              admin.polling_policy_prototype (omega arith))

-- A value after `k` failures, by whether the call may be made again: it is arrived at, or the first
-- answer is the last.
abbrev pub IsSent : {A : Type 0} → (ℕ → StatusOr A) → ℕ → A → Bool → Report A → Type 0
IsSent answers k a true r = (r.calls ≡ suc k) × (r.result ≡ value a)
IsSent answers k a false r = (r.calls ≤ 1) × IsResult answers r.calls r.result

module _ {R M E Any P B Q : Type 0} (admin : AdminService R M E Any P B Q)
    (budgets : HasBudgets admin) where
  called-IsSent :
      {A : Type 0} (is_idempotent : Bool) (answers : ℕ → StatusOr A) (location : String) (k : ℕ)
      (a : A)
      → Allows admin.retry_policy answers 0 admin.retry_policy_prototype k
      → answers k ≡ value a
      → (r : Report A) × (called admin is_idempotent answers location ≡ some r)
        × IsSent answers k a is_idempotent r
  unfolding called
  called-IsSent true answers location k a allowed e =
      let (r, went, calls, result) =
        retry_loop-persists admin.retry_policy admin.backoff_policy admin.print location answers
          admin.retry_budget budgets.retries k admin.retry_policy_prototype
          admin.backoff_policy_prototype a allowed e in
      (r, went, (calls, result))
  called-IsSent false answers location k a allowed e =
      let (r, went, x) = called-IsExplained admin budgets false answers location in
      (r, went, (x.once refl, x.by_last))

module _ {M E Any P B Q : Type 0} (admin : AdminService DatabaseRequest M E Any P B Q) where
  abbrev pub Ends :
      Option (Awaited M E Any)
      → DatabaseRequest
      → (Operation E Any → String → StatusOr M)
      → String
      → Type 0
  Ends future request extract place =
      (o : Awaited M E Any) × (future ≡ some o) × IsAwaited admin false request extract place o

module _ {M E Any P B Q : Type 0} (admin : AdminService DatabaseRequest M E Any P B Q)
    (budgets : HasBudgets admin) where
  -- `SetIamPolicy` with policies that allow a bounded number of failures, where the stub fails `k`
  -- times, each failure is one that the retry policy allows, and it then answers a value. A policy
  -- with an etag is sent again behind every failure, and the value is the result. One without an
  -- etag, which could overwrite a change made since, is sent at most once, and the result is by
  -- that answer.
  pub set_iam_policy-IsSent :
      (d : Database) (policy : IamPolicy) (k : ℕ) (m : M)
      → Allows admin.retry_policy
          (admin.call (DatabaseRequest.set_iam_policy (database_name d) policy))
          0
          admin.retry_policy_prototype
          k
      → admin.call (DatabaseRequest.set_iam_policy (database_name d) policy) k ≡ value m
      → (r : Report M) × (set_iam_policy admin d policy ≡ some r)
        × IsSent
            (admin.call (DatabaseRequest.set_iam_policy (database_name d) policy))
            k
            m
            (not (policy.etag == ""))
            r
  unfolding set_iam_policy unary
  set_iam_policy-IsSent d policy k m allowed e =
      called-IsSent admin budgets (not (policy.etag == ""))
        (admin.call (DatabaseRequest.set_iam_policy (database_name d) policy)) "SetIamPolicy" k m
        allowed e
