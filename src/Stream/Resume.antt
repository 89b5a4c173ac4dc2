-- ===== src/Stream/Resume.antt =====
-- `PartialResultSetResume` of internal/partial_result_set_resume.{h,cc}. A reader is what its calls
-- of `Read` return, one response after another, and then what `Finish` returns. The factory makes
-- the n-th reader from a resume token; a turn is one pass of the `do` loop of `Read`.
use google_cloud_cpp_spanner.Prelude.{
  ℕ, zero, suc, List, [], ◌∷◌, Bool, true, false, not, Option, none, some, ◌⊎◌, inl, inr,
  if◌then◌else◌,
}
use google_cloud_cpp_spanner.Status.{Status, is_ok}
use google_cloud_cpp_spanner.Retry.Policy.{RetryPolicy, BackoffPolicy}
use google_cloud_cpp_spanner.Stream.Source.{PartialResultSet}

pub record Reader : Type 0 where
  pub responses : List PartialResultSet
  pub finish : Status

pub record Resume (P B : Type 0) : Type 0 where
  pub retry_policy_prototype : P
  pub backoff_policy_prototype : B
  pub last_resume_token : List ℕ
  pub child : Reader
  pub last_status : Option Status
  pub readers : ℕ
  pub sleeps : List ℕ

module _ {P B : Type 0} (policy : RetryPolicy P) (backoff : BackoffPolicy B)
    (factory : ℕ → List ℕ → Reader) (is_idempotent : Bool) where
  -- The constructor.
  unfoldable pub new_resume : P → B → Resume P B
  new_resume p b = record {
    retry_policy_prototype = p;
    backoff_policy_prototype = b;
    last_resume_token = [];
    child = factory 0 [];
    last_status = none;
    readers = 1;
    sleeps = [];
  }

  -- `Finish`: the status is asked for once.
  unfoldable pub finish : Resume P B → Status × Resume P B
  finish r = elim r.last_status [
    | some s ↦ (s, r)
    | none ↦ (r.child.finish, record r { last_status = some r.child.finish })
  ]

  -- A pass that goes on, or what `Read` returns and leaves.
  abbrev pub Turn : Type 0
  Turn = Resume P B ⊎ (Option PartialResultSet × Resume P B)

  -- The end of a pass: the loop's condition.
  unfoldable pub go_on : Resume P B → Turn
  go_on r = if policy.is_exhausted r.retry_policy_prototype then inr (none, r) else inl r

  -- After a failure, by the answer of `OnFailure`.
  unfoldable pub resumed : Resume P B → P × Bool → Turn
  unfolding go_on
  resumed r (q, false) = inr (none, record r { retry_policy_prototype = q })
  resumed r (q, true) =
      let slept = backoff.on_completion r.backoff_policy_prototype in
      go_on (record {
        retry_policy_prototype = q;
        backoff_policy_prototype = slept.0;
        last_resume_token = r.last_resume_token;
        child = factory r.readers r.last_resume_token;
        last_status = none;
        readers = suc r.readers;
        sleeps = slept.1 ∷ r.sleeps;
      })

  -- The reader has ended with a status.
  unfoldable pub ended : Status × Resume P B → Turn
  unfolding resumed
  ended (s, r) =
      if is_ok s
      then inr (none, r)
      else if not is_idempotent
      then inr (none, r)
      else resumed r (policy.on_failure r.retry_policy_prototype s)

  unfoldable pub read_turn : Resume P B → Turn
  unfolding finish ended
  read_turn r = elim r.child.responses [
    | x ∷ rest ↦ inr (
      some x,
      record r { last_resume_token = x.resume_token; child = record r.child { responses = rest } },
    )
    | [] ↦ ended (finish r)
  ]

  -- `Read`.
  unfoldable pub read : ℕ → Resume P B → Option (Option PartialResultSet × Resume P B)
  unfolding read_turn
  read zero r = none
  read (suc fuel) r = elim (read_turn r) [ inl next ↦ read fuel next | inr out ↦ some out ]

  -- A caller that reads to the end and asks for the status, `reads` times at most.
  unfoldable pub read_all : ℕ → ℕ → Resume P B → Option (List PartialResultSet × Status)
  unfolding read finish
  read_all fuel zero r = none
  read_all fuel (suc reads) r = elim (read fuel r) [
    | none ↦ none
    | some (none, last) ↦ some ([], (finish last).0)
    | some (some x, next) ↦ elim (read_all fuel reads next) [
      | none ↦ none
      | some (xs, s) ↦ some (x ∷ xs, s)
    ]
  ]
