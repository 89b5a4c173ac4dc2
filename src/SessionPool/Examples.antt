-- ===== src/SessionPool/Examples.antt =====
-- The theorems about the session pool at work on a small pool.
use mathlib.Core.List.Permᴰ
use google_cloud_cpp_spanner.Prelude.{
  ◌==◌, ℕ, ◌<◌, ◌≡◌, refl, List, [], ◌∷◌, some, false, true, arith, ◌+◌, All,
}
use google_cloud_cpp_spanner.Prelude.Int.{pos, ◌*ℤ◌, ◌+ℤ◌, ◌-ℤ◌, quot}
use google_cloud_cpp_spanner.Status.{value}
use google_cloud_cpp_spanner.SessionPool.Options.{SessionPoolOptions, ActionOnExhaustion}
use google_cloud_cpp_spanner.SessionPool.CreateCounts.{counts_for, target_for}
use google_cloud_cpp_spanner.SessionPool.Pool.{
  Session, SessionPool, granted, new_pool, allocate, release, compute_create_counts,
  maintain_pool_size, initialize, start_grow,
}
use google_cloud_cpp_spanner.SessionPool.System.{
  System, start, step, allocates, completes, releases, Reach, here, next,
}
use google_cloud_cpp_spanner.SessionPool.Invariant.{Inv}
use google_cloud_cpp_spanner.SessionPool.Growing.{channel_limit}
use google_cloud_cpp_spanner.SessionPool.Interleavings.{Reach-start-Inv}
use google_cloud_cpp_spanner.SessionPool.Growth.{
  IsCounted, IsComputed, compute_create_counts-Requests, maintain_pool_size-eq,
}
use google_cloud_cpp_spanner.SessionPool.Allocation.{allocate-release, allocate-Explains, Explains}
use google_cloud_cpp_spanner.SessionPool.Refresh.{
  IsBounded, refresh_expiring_sessions, expiring, refresh-expiring, refresh-IsBounded,
}

abbrev stubs : List ℕ
stubs = 70 ∷ 80 ∷ []

abbrev options : SessionPoolOptions
options = record {
  min_sessions = pos 3;
  max_sessions_per_channel = pos 2;
  max_idle_sessions = pos 0;
  action_on_exhaustion = ActionOnExhaustion.block;
  keep_alive_interval = 10;
  labels = [];
}

abbrev fresh_pool : SessionPool
fresh_pool = record {
  options = options;
  max_pool_size = 4;
  sessions = [];
  total_sessions = 0;
  create_calls_in_progress = 0;
  num_waiting_for_session = 0;
  last_use_time_lower_bound = 5;
  channels = record { stub = 70; session_count = 0 } ∷ record { stub = 80; session_count = 0 } ∷ [];
  next_dissociated_stub_channel = 0;
}

fresh_pool_is : new_pool stubs options 5 ≡ value fresh_pool
unfolding new_pool ◌*ℤ◌
fresh_pool_is = refl

-- The two requests of `Initialize` end, in the other order, and a caller takes a session, holds it
-- and gives it back bad.
abbrev after_creation : System
after_creation =
    step (λ xs. xs) (step (λ xs. xs) (start fresh_pool) (completes 1 (value ("c" ∷ [])) (λ i. 6)))
      (completes 0 (value ("a" ∷ "b" ∷ [])) (λ i. 7))

abbrev after_use : System
after_use = step (λ xs. xs) (step (λ xs. xs) after_creation (allocates false)) (releases 0 true 8)

reaches : Reach (λ xs. xs) (start fresh_pool) after_use
unfolding start step initialize start_grow compute_create_counts counts_for target_for ◌+ℤ◌ ◌-ℤ◌
    quot
reaches =
    next
      (next
        (next (next here (completes 1 (value ("c" ∷ [])) (λ i. 6)) (omega arith))
          (completes 0 (value ("a" ∷ "b" ∷ [])) (λ i. 7)) (omega arith))
        (allocates false) tt)
      (releases 0 true 8) tt

Reach-start-Inv_example : Inv (channel_limit stubs options) after_use
Reach-start-Inv_example =
    Reach-start-Inv (λ xs. xs) Permᴰ.refl stubs options 5 fresh_pool after_use fresh_pool_is reaches

-- A pool of three sessions on two channels.
abbrev some_pool : SessionPool
some_pool = record fresh_pool {
  sessions =
      record { session_name = "a"; channel = some 0; is_bad = false; last_use_time = 30 }
      ∷ record { session_name = "b"; channel = some 1; is_bad = false; last_use_time = 12 }
      ∷ record { session_name = "c"; channel = some 0; is_bad = false; last_use_time = 5 }
      ∷ [];
  total_sessions = 3;
  channels = record { stub = 70; session_count = 2 } ∷ record { stub = 80; session_count = 1 } ∷ [];
}

some_pool-IsCounted : IsCounted 2 some_pool
some_pool-IsCounted = record {
  has_channels = omega arith;
  limit = refl;
  total = refl;
  within = omega arith;
}

compute_create_counts-Requests_example :
    IsComputed 2 5 some_pool
      (compute_create_counts some_pool (pos 5))
      (some_pool.total_sessions == some_pool.max_pool_size)
compute_create_counts-Requests_example =
    compute_create_counts-Requests 2 5 some_pool some_pool-IsCounted

abbrev low_pool : SessionPool
low_pool = fresh_pool

maintain_pool_size-eq_example : maintain_pool_size low_pool ≡ (low_pool, [])
maintain_pool_size-eq_example =
    maintain_pool_size-eq 2 low_pool
      (record { has_channels = omega arith; limit = refl; total = refl; within = omega arith })

abbrev given_back : Session
given_back = record { session_name = "d"; channel = some 1; is_bad = false; last_use_time = 1 }

allocate-release_example :
    allocate (release some_pool given_back 40).0 false
    ≡ (some_pool, granted (record given_back { last_use_time = 40 }))
allocate-release_example = allocate-release some_pool given_back 40 refl

start-after_creation : Reach (λ xs. xs) (start fresh_pool) after_creation
unfolding start step initialize start_grow compute_create_counts counts_for target_for ◌+ℤ◌ ◌-ℤ◌
    quot
start-after_creation =
    next (next here (completes 1 (value ("c" ∷ [])) (λ i. 6)) (omega arith))
      (completes 0 (value ("a" ∷ "b" ∷ [])) (λ i. 7)) (omega arith)

allocate-Explains_example : Explains after_creation.pool true (allocate after_creation.pool true)
allocate-Explains_example =
    allocate-Explains (channel_limit stubs options) after_creation
      (Reach-start-Inv (λ xs. xs) Permᴰ.refl stubs options 5 fresh_pool after_creation fresh_pool_is
        start-after_creation)
      true

refresh-expiring_example :
    (refresh_expiring_sessions some_pool 22 (λ i. 23 + i)).1 ≡ expiring 10 22 some_pool.sessions
refresh-expiring_example =
    refresh-expiring some_pool 22 (λ i. 23 + i) (omega arith, (omega arith, (omega arith, tt)))

refresh-IsBounded_example :
    let q = (refresh_expiring_sessions some_pool 22 (λ i. 23 + i)).0 in
    IsBounded q × All (λ s. 22 < s.last_use_time + some_pool.options.keep_alive_interval) q.sessions
refresh-IsBounded_example =
    refresh-IsBounded some_pool 22 (λ i. 23 + i) (λ i. omega arith) (omega arith)
      (omega arith, (omega arith, (omega arith, tt)))
