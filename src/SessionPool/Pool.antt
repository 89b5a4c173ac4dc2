-- ===== src/SessionPool/Pool.antt =====
-- session_pool.{h,cc} and session.h: the state of the pool and what it does under its lock. The
-- proofs are in the modules beside this one. The head of `sessions` is the back of the vector.
-- `--n` is `n - 1`: that the counters are positive there is part of the invariant.
use google_cloud_cpp_spanner.Prelude.{
  ℕ, suc, ◌+◌, ◌-◌, ◌*◌, List, [], ◌∷◌, ◌++◌, Option, none, some, Bool, true, false, not, ◌&&◌,
  ◌||◌, String, ltb, leb, ◌==◌, length, get_elem?, modify, if◌then◌else◌,
}
use google_cloud_cpp_spanner.Prelude.Int.{ℤ, pos, pos_part, ◌+ℤ◌, ◌-ℤ◌, ltb_ℤ, min_ℤ}
use google_cloud_cpp_spanner.Status.{StatusCode, Status, status, ok_status, StatusOr, value, error}
use google_cloud_cpp_spanner.SessionPool.Options.{
  SessionPoolOptions, ActionOnExhaustion, enforce_constraints,
}
use google_cloud_cpp_spanner.SessionPool.CreateCounts.{Channel, CreateCount, counts_for}

-- `Session`: a null channel is `none`, others are named by their place in `channels_`.
pub record Session : Type 0 where
  pub session_name : String
  pub channel : Option ℕ
  pub is_bad : Bool
  pub last_use_time : ℕ

-- `SessionPool`: the members that its lock guards, the options and the size limit.
pub record SessionPool : Type 0 where
  pub options : SessionPoolOptions
  pub max_pool_size : ℕ
  pub sessions : List Session
  pub total_sessions : ℕ
  pub create_calls_in_progress : ℕ
  pub num_waiting_for_session : ℕ
  pub last_use_time_lower_bound : ℕ
  pub channels : List Channel
  pub next_dissociated_stub_channel : ℕ

abbrev pub invalid_argument : String → Status
invalid_argument = status StatusCode.invalid_argument

abbrev pub exhausted : Status
exhausted = status StatusCode.resource_exhausted "session pool exhausted"

unfoldable pub new_channels : List ℕ → List Channel
new_channels [] = []
new_channels (stub ∷ stubs) = record { stub = stub; session_count = 0 } ∷ new_channels stubs

-- The constructor. `error` is the exception that it throws.
unfoldable pub new_pool : List ℕ → SessionPoolOptions → ℕ → StatusOr SessionPool
unfolding new_channels enforce_constraints
new_pool [] o now = error (invalid_argument "SessionPool requires a non-empty set of stubs")
new_pool (stub ∷ stubs) o now =
    let n = length (stub ∷ stubs) in
    let options = enforce_constraints o n in
    value (record {
      options = options;
      max_pool_size = pos_part options.max_sessions_per_channel * n;
      sessions = [];
      total_sessions = 0;
      create_calls_in_progress = 0;
      num_waiting_for_session = 0;
      last_use_time_lower_bound = now;
      channels = new_channels (stub ∷ stubs);
      next_dissociated_stub_channel = 0;
    })

-- `--channel->session_count`, where there is a channel.
unfoldable pub release_channel : Option ℕ → List Channel → List Channel
release_channel none channels = channels
release_channel (some i) channels =
    modify (λ c. record c { session_count = c.session_count - 1 }) i channels

-- A session leaves the pool for good: `total_sessions_` and its channel's count fall.
unfoldable pub forget : SessionPool → Session → SessionPool
unfolding release_channel
forget p session = record p {
  total_sessions = p.total_sessions - 1;
  channels = release_channel session.channel p.channels;
}

-- `ComputeCreateCounts`.
unfoldable pub compute_create_counts : SessionPool → ℤ → StatusOr (List CreateCount)
unfolding ◌+ℤ◌
compute_create_counts p sessions_to_create =
    if p.total_sessions == p.max_pool_size
    then error exhausted
    else value (
        counts_for (min_ℤ (pos p.total_sessions +ℤ sessions_to_create) (pos p.max_pool_size))
          p.channels)

-- `Grow` up to the point where it gives the lock up for `CreateSessions`: the requests to make.
unfoldable pub start_grow : SessionPool → ℤ → StatusOr (SessionPool × List CreateCount)
start_grow p sessions_to_create = elim (compute_create_counts p sessions_to_create) [
  | error e ↦ error e
  | value counts ↦
      value
        (record p { create_calls_in_progress = p.create_calls_in_progress + length counts }, counts)
]

-- What one round of the loop of `Allocate` comes to.
pub data Attempt : Type 0 where
  granted : Session → Attempt
  failed : Status → Attempt
  wait_for_room : Attempt
  wait_for_creation : Attempt
  creates : List CreateCount → Attempt

-- `Wait` counts the caller while it is blocked.
unfoldable pub start_wait : SessionPool → SessionPool
start_wait p = record p { num_waiting_for_session = p.num_waiting_for_session + 1 }

unfoldable pub end_wait : SessionPool → SessionPool
end_wait p = record p { num_waiting_for_session = p.num_waiting_for_session - 1 }

abbrev is_empty {ℓ} : {A : Type ℓ} → List A → Bool
is_empty [] = true
is_empty (x ∷ xs) = false

-- The conditions that the two calls of `Wait` in `Allocate` wait for.
abbrev pub has_room : SessionPool → Bool
has_room p = not (is_empty p.sessions) || ltb p.total_sessions p.max_pool_size

abbrev pub has_creation_ended : SessionPool → Bool
has_creation_ended p = not (is_empty p.sessions) || p.create_calls_in_progress == 0

-- The pool holds no session, and has reached its limit.
unfoldable pub at_limit : SessionPool → ActionOnExhaustion → SessionPool × Attempt
unfolding start_wait
at_limit p ActionOnExhaustion.fail = (p, failed exhausted)
at_limit p ActionOnExhaustion.block = (start_wait p, wait_for_room)

abbrev pub after_grow :
    SessionPool → StatusOr (SessionPool × List CreateCount) → SessionPool × Attempt
after_grow p (error e) = (p, failed e)
after_grow p (value (q, counts)) = (q, creates counts)

-- `Grow` for a caller of `Allocate`: `min_sessions` and one for the caller.
unfoldable pub grow_for_caller : SessionPool → SessionPool × Attempt
unfolding start_grow
grow_for_caller p = after_grow p (start_grow p (p.options.min_sessions +ℤ pos 1))

-- One round of the loop of `Allocate`, by the sessions at hand.
unfoldable pub attempt : SessionPool → Bool → List Session → SessionPool × Attempt
unfolding forget at_limit grow_for_caller start_wait
attempt p dissociate (session ∷ rest) =
    let q = record p { sessions = rest } in
    (if dissociate then forget q session else q, granted session)
attempt p dissociate [] =
    if leb p.max_pool_size p.total_sessions
    then at_limit p p.options.action_on_exhaustion
    else if ltb 0 p.create_calls_in_progress
    then (start_wait p, wait_for_creation)
    else grow_for_caller p

unfoldable pub allocate : SessionPool → Bool → SessionPool × Attempt
unfolding attempt
allocate p dissociate = attempt p dissociate p.sessions

-- `Release`; `now` is what the clock reads. The flag says whether a waiter is notified.
unfoldable pub release : SessionPool → Session → ℕ → SessionPool × Bool
unfolding forget
release p session now = if session.is_bad then (forget p session, false) else (
  record p { sessions = record session { last_use_time = now } ∷ p.sessions },
  ltb 0 p.num_waiting_for_session,
)

-- The sessions that a response names, each stamped with its own reading of the clock.
unfoldable pub created : ℕ → (ℕ → ℕ) → List String → List Session
created channel clock [] = []
created channel clock (name ∷ names) =
    record { session_name = name; channel = some channel; is_bad = false; last_use_time = clock 0 }
    ∷ created channel (λ i. clock (suc i)) names

-- The second half of `HandleBatchCreateSessionsDone`: the sessions join the pool, in an order
-- that `shuffle` (`std::shuffle` and its generator) picks.
unfoldable pub add_sessions :
    (List Session → List Session) → SessionPool → ℕ → List String → (ℕ → ℕ) → SessionPool
unfolding created
add_sessions shuffle p channel names clock = record p {
  channels =
      modify (λ c. record c { session_count = c.session_count + length names }) channel p.channels;
  total_sessions = p.total_sessions + length names;
  sessions = shuffle (created channel clock names ++ p.sessions);
}

-- `HandleBatchCreateSessionsDone`, with what it returns.
unfoldable pub handle_batch_create_sessions_done :
    (List Session → List Session)
    → SessionPool
    → ℕ
    → StatusOr (List String)
    → (ℕ → ℕ)
    → SessionPool × Status
unfolding add_sessions
handle_batch_create_sessions_done shuffle p channel response clock =
    let q = record p { create_calls_in_progress = p.create_calls_in_progress - 1 } in
    elim response [
      | error e ↦ (q, e)
      | value names ↦ (add_sessions shuffle q channel names clock, ok_status)
    ]

-- `Initialize`, before the background work is scheduled.
unfoldable pub initialize : SessionPool → StatusOr (SessionPool × List CreateCount)
unfolding start_grow
initialize p =
    if ltb_ℤ (pos 0) p.options.min_sessions
    then start_grow p p.options.min_sessions
    else value (p, [])

-- `MaintainPoolSize`; it ignores the status that `Grow` returns.
unfoldable pub maintain_pool_size : SessionPool → SessionPool × List CreateCount
unfolding start_grow ◌-ℤ◌
maintain_pool_size p =
    if p.create_calls_in_progress == 0 && ltb_ℤ (pos p.total_sessions) p.options.min_sessions
    then (elim (start_grow p (pos p.total_sessions -ℤ p.options.min_sessions)) [
      | error e ↦ (p, [])
      | value grown ↦ grown
    ])
    else (p, [])

stub_at : Option Channel → Option ℕ
stub_at none = none
stub_at (some c) = some c.stub

-- `GetStub`: the stub of the session's own channel, or of the next one in turn.
unfoldable pub get_stub : SessionPool → Option ℕ → SessionPool × Option ℕ
unfolding stub_at
get_stub p (some i) = (p, stub_at (get_elem? p.channels i))
get_stub p none =
    let next = p.next_dissociated_stub_channel in
    (
      record p {
        next_dissociated_stub_channel = if suc next == length p.channels then 0 else suc next;
      },
      stub_at (get_elem? p.channels next),
    )
