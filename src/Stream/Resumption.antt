-- ===== src/Stream/Resumption.antt =====
-- What a caller of `PartialResultSetResume` reads to the end of a stream, against what was sent.
use google_cloud_cpp_spanner.Prelude.{
  ℕ, zero, suc, ◌≤◌, ◌<◌, ◌≡◌, refl, sym, ap, subst, ◌∙◌, List, [], ◌∷◌, ◌++◌, Bool, true, false,
  Option, none, some, ◌⊎◌, inl, inr, length, arith, Bool-cases,
}
use google_cloud_cpp_spanner.Status.{Status, is_ok}
use google_cloud_cpp_spanner.Retry.Policy.{RetryPolicy, BackoffPolicy, IsLimited}
use google_cloud_cpp_spanner.Stream.Source.{PartialResultSet}
use google_cloud_cpp_spanner.Stream.Resume.{
  Reader, Resume, new_resume, finish, go_on, resumed, ended, read_turn, read, read_all,
}

-- What is left of a stream: what a reader gives is a first part of it, all of it when the reader
-- ends without a failure.
abbrev pub IsPart : List PartialResultSet → Reader → Type 0
IsPart left reader =
    (missing : List PartialResultSet) × (reader.responses ++ missing ≡ left)
    × (is_ok reader.finish ≡ true → missing ≡ [])

-- The service, by what it sends after each resume token.
pub record IsService (factory : ℕ → List ℕ → Reader) (after : List ℕ → List PartialResultSet)
    : Type 0 where
  pub reads : (n : ℕ) (token : List ℕ) → IsPart (after token) (factory n token)
  pub tokens :
      (token : List ℕ) (x : PartialResultSet) (rest : List PartialResultSet)
      → after token ≡ x ∷ rest
      → after x.resume_token ≡ rest

-- A caller that reads to the end has a first part of what was left, all of it on success.
abbrev pub Collects : List PartialResultSet → Option (List PartialResultSet × Status) → Type 0
Collects left o =
    (xs : List PartialResultSet) × (missing : List PartialResultSet) × (s : Status) × (o
      ≡ some (xs, s))
    × (xs ++ missing ≡ left)
    × (is_ok s ≡ true → missing ≡ [])

module _ {P B : Type 0} (policy : RetryPolicy P) (backoff : BackoffPolicy B)
    (factory : ℕ → List ℕ → Reader) (is_idempotent : Bool) (after : List ℕ → List PartialResultSet)
    (is_service : IsService factory after) (budget : P → ℕ)
    (is_limited : IsLimited policy.on_failure budget)
    (goes_on : (p q : P) (s : Status)
      → policy.on_failure p s ≡ (q, true)
      → policy.is_exhausted q ≡ false) where
  record Good (r : Resume P B) : Type 0 where
    part : IsPart (after r.last_resume_token) r.child
    unasked : r.last_status ≡ none

  -- What `Read` returned, with what it left, by what was left of the stream and the budget.
  Returned : List PartialResultSet → ℕ → Option PartialResultSet × Resume P B → Type 0
  Returned left n (some x, r) =
      Good r × (left ≡ x ∷ after r.last_resume_token) × (budget r.retry_policy_prototype ≤ n)
  Returned left n (none, r) =
      is_ok (finish policy backoff factory is_idempotent r).0 ≡ true → left ≡ []

  Next : Resume P B → Resume P B ⊎ (Option PartialResultSet × Resume P B) → Type 0
  Next r (inl next) =
      Good next
      × (next.last_resume_token ≡ r.last_resume_token)
      × (budget next.retry_policy_prototype < budget r.retry_policy_prototype)
  Next r (inr out) = Returned (after r.last_resume_token) (budget r.retry_policy_prototype) out

  abbrev asked : Resume P B → Resume P B
  asked r = record r { last_status = some r.child.finish }

  -- The end of a reader that ended without a failure is the end of the stream.
  at_end :
      (r : Resume P B)
      → Good r
      → r.child.responses ≡ []
      → is_ok r.child.finish ≡ true
      → after r.last_resume_token ≡ []
  at_end r g e ok = let part = g.part in sym part.1 ∙ ap (λ xs. xs ++ part.0) e ∙ part.2 ok

  resumed-Next :
      (r : Resume P B) (verdict : P × Bool)
      → Good r
      → r.child.responses ≡ []
      → policy.on_failure r.retry_policy_prototype r.child.finish ≡ verdict
      → Next r (resumed policy backoff factory is_idempotent (asked r) verdict)
  unfolding Next Returned resumed go_on finish
  resumed-Next r (q, false) g e v = λ ok. at_end r g e ok
  resumed-Next r (q, true) g e v =
      subst (λ t. Next r t)
        {x = inl (record {
          retry_policy_prototype = q;
          backoff_policy_prototype = (backoff.on_completion r.backoff_policy_prototype).0;
          last_resume_token = r.last_resume_token;
          child = factory r.readers r.last_resume_token;
          last_status = none;
          readers = suc r.readers;
          sleeps = (backoff.on_completion r.backoff_policy_prototype).1 ∷ r.sleeps;
        })}
        (rw (goes_on r.retry_policy_prototype q r.child.finish v))
        (
          record { part = is_service.reads r.readers r.last_resume_token; unasked = refl },
          refl,
          is_limited r.retry_policy_prototype q r.child.finish v,
        )

  ended-Next :
      (r : Resume P B)
      → Good r
      → r.child.responses ≡ []
      → Next r (ended policy backoff factory is_idempotent (r.child.finish, asked r))
  unfolding Next Returned ended finish
  ended-Next r g e = elim (Bool-cases (is_ok r.child.finish)) [
    | inl ok ↦ subst (λ t. Next r t) {x = inr (none, asked r)} (rw ok) (λ fine. at_end r g e fine)
    | inr bad ↦ elim (Bool-cases is_idempotent) [
      | inr once ↦
          subst (λ t. Next r t) {x = inr (none, asked r)} (rw (bad, once))
            (λ fine. at_end r g e fine)
      | inl again ↦
          subst (λ t. Next r t)
            {x = resumed policy backoff factory is_idempotent (asked r)
              (policy.on_failure r.retry_policy_prototype r.child.finish)}
            (rw (bad, again)) (resumed-Next r _ g e refl)
    ]
  ]

  -- A response that the reader gives is the next one of the stream.
  given :
      (r : Resume P B) (x : PartialResultSet) (rest : List PartialResultSet)
      → Good r
      → r.child.responses ≡ x ∷ rest
      → Next r (
          inr (
            some x,
            record r {
              last_resume_token = x.resume_token;
              child = record r.child { responses = rest };
            },
          ))
  unfolding Next Returned
  given r x rest g e =
      let part = g.part in
      let whole : x ∷ (rest ++ part.0) ≡ after r.last_resume_token =
        ap (λ xs. xs ++ part.0) (sym e) ∙ part.1 in
      let next = is_service.tokens r.last_resume_token x (rest ++ part.0) (sym whole) in
      (
        record { part = (part.0, sym next, part.2); unasked = g.unasked },
        sym whole ∙ ap (λ xs. x ∷ xs) (sym next),
        omega arith,
      )

  read_turn-Next :
      (r : Resume P B) (xs : List PartialResultSet)
      → r.child.responses ≡ xs
      → Good r
      → Next r (read_turn policy backoff factory is_idempotent r)
  unfolding read_turn
  read_turn-Next r [] e g =
      subst (λ t. Next r t)
        {x = ended policy backoff factory is_idempotent (r.child.finish, asked r)}
        (rw (e, g.unasked, finish)) (ended-Next r g e)
  read_turn-Next r (x ∷ rest) e g = subst (λ t. Next r t) (rw e) (given r x rest g e)

  -- `Read` returns.
  Reads : List PartialResultSet → ℕ → Option (Option PartialResultSet × Resume P B) → Type 0
  Reads left n o =
      (out : Option PartialResultSet × Resume P B) × (o ≡ some out) × Returned left n out

  Returned-later :
      (r next : Resume P B) (out : Option PartialResultSet × Resume P B)
      → next.last_resume_token ≡ r.last_resume_token
      → budget next.retry_policy_prototype < budget r.retry_policy_prototype
      → Returned (after next.last_resume_token) (budget next.retry_policy_prototype) out
      → Returned (after r.last_resume_token) (budget r.retry_policy_prototype) out
  unfolding Returned
  Returned-later r next (some x, last) e less (g, here, le) =
      (g, ap after (sym e) ∙ here, omega arith)
  Returned-later r next (none, last) e less h = λ ok. ap after (sym e) ∙ h ok

  after-Reads :
      (fuel : ℕ) (r : Resume P B) (t : Resume P B ⊎ (Option PartialResultSet × Resume P B))
      → read_turn policy backoff factory is_idempotent r ≡ t
      → Next r t
      → ((next : Resume P B)
          → Good next
          → budget next.retry_policy_prototype < budget r.retry_policy_prototype
          → Reads
              (after next.last_resume_token)
              (budget next.retry_policy_prototype)
              (read policy backoff factory is_idempotent fuel next))
      → Reads
          (after r.last_resume_token)
          (budget r.retry_policy_prototype)
          (read policy backoff factory is_idempotent (suc fuel) r)
  unfolding Reads Next read
  after-Reads fuel r (inl next) e (g, same, less) more =
      let rest = more next g less in
      (rest.0, rw (e, read) rest.1, Returned-later r next rest.0 same less rest.2)
  after-Reads fuel r (inr out) e h more = (out, rw (e, read), h)

  read-Reads :
      (fuel : ℕ) (r : Resume P B)
      → Good r
      → budget r.retry_policy_prototype < fuel
      → Reads
          (after r.last_resume_token)
          (budget r.retry_policy_prototype)
          (read policy backoff factory is_idempotent fuel r)
  read-Reads zero r g enough = absurd (omega arith)
  read-Reads (suc fuel) r g enough =
      after-Reads fuel r (read_turn policy backoff factory is_idempotent r) refl
        (read_turn-Next r r.child.responses refl g)
        (λ next g2 less. read-Reads fuel next g2 (omega arith))

  after-Collects :
      (fuel reads : ℕ) (r : Resume P B)
      → Reads
          (after r.last_resume_token)
          (budget r.retry_policy_prototype)
          (read policy backoff factory is_idempotent fuel r)
      → length (after r.last_resume_token) < suc reads
      → ((next : Resume P B)
          → Good next
          → budget next.retry_policy_prototype ≤ budget r.retry_policy_prototype
          → length (after next.last_resume_token) < reads
          → Collects
              (after next.last_resume_token)
              (read_all policy backoff factory is_idempotent fuel reads next))
      → Collects
          (after r.last_resume_token)
          (read_all policy backoff factory is_idempotent fuel (suc reads) r)
  unfolding Reads Returned read_all
  after-Collects fuel reads r ((none, last), e, ended_) enough more = (
    [],
    after r.last_resume_token,
    (finish policy backoff factory is_idempotent last).0,
    rw (e, read_all),
    refl,
    ended_,
  )
  after-Collects fuel reads r ((some x, next), e, (g, here, le)) enough more =
      let rest = more next g le (omega (arith, ap length here)) in
      (
        x ∷ rest.0,
        rest.1,
        rest.2,
        rw (e, rest.3, read_all),
        ap (λ ys. x ∷ ys) rest.4 ∙ sym here,
        rest.5,
      )

  read_all-Collects :
      (fuel reads : ℕ) (r : Resume P B)
      → Good r
      → budget r.retry_policy_prototype < fuel
      → length (after r.last_resume_token) < reads
      → Collects
          (after r.last_resume_token)
          (read_all policy backoff factory is_idempotent fuel reads r)
  read_all-Collects fuel zero r g f enough = absurd (omega arith)
  read_all-Collects fuel (suc reads) r g f enough =
      after-Collects fuel reads r (read-Reads fuel r g f) enough
        (λ next g2 le shorter. read_all-Collects fuel reads next g2 (omega arith) shorter)

  -- For a service that, given the token of a response, sends what comes after that response, and
  -- a policy that allows a bounded number of failures and is not exhausted after one that it allows:
  -- a caller that reads to the end does end, and has got a first part of the stream, each response
  -- once and in order however often the readers failed; it is the whole stream when the status is
  -- that of a success.
  pub resume-Collects :
      (fuel reads : ℕ) (p : P) (b : B)
      → budget p < fuel
      → length (after []) < reads
      → Collects (after []) (
          read_all policy backoff factory is_idempotent fuel reads
            (new_resume policy backoff factory is_idempotent p b))
  unfolding new_resume
  resume-Collects fuel reads p b f enough =
      read_all-Collects fuel reads (new_resume policy backoff factory is_idempotent p b)
        (record { part = is_service.reads 0 []; unasked = refl }) f enough
