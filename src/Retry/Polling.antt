-- ===== src/Retry/Polling.antt =====
-- `PollingLoopImpl` of internal/polling_loop.h and its two extractors. The functor is the answers
-- that its calls get, the first call's at 0; the sleeper writes down how long it sleeps. What an
-- `Any` unpacks to and how an RPC error is turned to a `Status` are arguments.
use Prim.Native.String.{String, ◌++◌}
use google_cloud_cpp_spanner.Prelude.{
  ℕ, zero, suc, List, [], ◌∷◌, Bool, true, false, Option, none, some, ◌⊎◌, inl, inr, if◌then◌else◌,
}
use google_cloud_cpp_spanner.Status.{StatusCode, Status, status, ok_status, StatusOr, value, error}
use google_cloud_cpp_spanner.Retry.Policy.{PollingPolicy}

-- The `result` of a long-running operation.
pub data Result (E Any : Type 0) : Type 0 where
  unset : Result E Any
  failure : E → Result E Any
  response : Any → Result E Any

pub record Operation (E Any : Type 0) : Type 0 where
  pub name : String
  pub done : Bool
  pub result : Result E Any
  pub metadata : Option Any

abbrev pub internal_error : String → Status
internal_error = status StatusCode.internal

unfoldable pub unpacked : {A : Type 0} → String → Option A → StatusOr A
unpacked message none = error (internal_error message)
unpacked message (some a) = value a

module _ {E Any A : Type 0} (unpack : Any → Option A) where
  -- `PollingLoopResponseExtractor::Extract`.
  unfoldable pub extract_response : Operation E Any → String → StatusOr A
  unfolding unpacked
  extract_response operation location = elim operation.result [
    | response any ↦
        unpacked
          (location ++ "() operation completed with an invalid response type, name="
            ++ operation.name)
          (unpack any)
    | failure _ ↦ error (
        internal_error
          (location ++ "() operation completed without error or response, name=" ++ operation.name))
    | unset ↦ error (
        internal_error
          (location ++ "() operation completed without error or response, name=" ++ operation.name))
  ]

  -- `PollingLoopMetadataExtractor::Extract`.
  unfoldable pub extract_metadata : Operation E Any → String → StatusOr A
  unfolding unpacked
  extract_metadata operation location = elim operation.metadata [
    | some any ↦
        unpacked
          (location ++ "() operation completed with an invalid metadata type, name="
            ++ operation.name)
          (unpack any)
    | none ↦ error (
        internal_error
          (location ++ "() operation completed without error or metadata, name=" ++ operation.name))
  ]

pub record Polled (A : Type 0) : Type 0 where
  pub result : StatusOr A
  pub polls : ℕ
  pub sleeps : List ℕ

-- What the loop keeps between two passes; the latest sleep stands first.
pub record Polling (P E Any : Type 0) : Type 0 where
  pub polling_policy : P
  pub operation : Operation E Any
  pub polls : ℕ
  pub sleeps : List ℕ

-- `StatusOr::status`.
abbrev pub status_of : {A : Type 0} → StatusOr A → Status
status_of (value a) = ok_status
status_of (error s) = s

abbrev pub is_done : {E Any : Type 0} → StatusOr (Operation E Any) → Bool
is_done (value operation) = operation.done
is_done (error s) = false

-- The operation after an update that goes on: `swap` on a success.
abbrev pub updated :
    {E Any : Type 0} → Operation E Any → StatusOr (Operation E Any) → Operation E Any
updated operation (value update) = update
updated operation (error s) = operation

module _ {P E Any A : Type 0} (policy : PollingPolicy P) (make_status : E → Status)
    (extract : Operation E Any → String → StatusOr A) (location : String)
    (answers : ℕ → StatusOr (Operation E Any)) where
  -- Behind the loop.
  unfoldable pub finish : Operation E Any → StatusOr A
  finish operation = elim operation.result [
    | failure e ↦ error (make_status e)
    | response any ↦ extract operation location
    | unset ↦ extract operation location
  ]

  -- The policy refuses to go on.
  unfoldable pub stop : StatusOr (Operation E Any) → StatusOr A
  stop (value update) =
      error (status StatusCode.deadline_exceeded "exhausted polling policy with no previous error")
  stop (error s) = error s

  -- The rest of a pass after the sleep, by the update, its policy's state being `p`.
  unfoldable pub decided :
      Polling P E Any → StatusOr (Operation E Any) → P × Bool → Polling P E Any ⊎ Polled A
  unfolding stop
  decided l update (q, false) =
      inr (record { result = stop update; polls = suc l.polls; sleeps = l.sleeps })
  decided l update (q, true) =
      inl (record l {
        polling_policy = q;
        operation = updated l.operation update;
        polls = suc l.polls;
      })

  unfoldable pub polled : Polling P E Any → StatusOr (Operation E Any) → Polling P E Any ⊎ Polled A
  unfolding finish decided
  polled l update =
      if is_done update
      then inr (record {
        result = finish (updated l.operation update);
        polls = suc l.polls;
        sleeps = l.sleeps;
      })
      else decided l update (policy.on_failure l.polling_policy (status_of update))

  unfoldable pub poll : Polling P E Any → Polling P E Any ⊎ Polled A
  unfolding finish polled
  poll l =
      let waited = policy.wait_period l.polling_policy in
      if l.operation.done
      then inr (record { result = finish l.operation; polls = l.polls; sleeps = l.sleeps })
      else polled (record l { polling_policy = waited.0; sleeps = waited.1 ∷ l.sleeps })
          (answers l.polls)

  unfoldable pub poll_all : ℕ → Polling P E Any → Option (Polled A)
  unfolding poll
  poll_all zero l = none
  poll_all (suc fuel) l = elim (poll l) [ inl next ↦ poll_all fuel next | inr r ↦ some r ]

  -- `PollingLoopImpl`.
  unfoldable pub polling_loop : ℕ → P → Operation E Any → Option (Polled A)
  unfolding poll_all
  polling_loop fuel p operation =
      poll_all fuel (record { polling_policy = p; operation = operation; polls = 0; sleeps = [] })
