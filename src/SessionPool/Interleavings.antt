-- ===== src/SessionPool/Interleavings.antt =====
-- The invariant over every interleaving of threads, and what follows for a caller.
use mathlib.Core.List.{Permᴰ}
use google_cloud_cpp_spanner.Prelude.{
  ℕ, zero, suc, ◌+◌, ◌<◌, ◌≡◌, refl, ap, List, [], ◌∷◌, ◌++◌, Option, none, some, String, arith,
  length, length-append, get_elem?, remove_at, All, inl, inr, Bool-cases,
}
use google_cloud_cpp_spanner.Status.{StatusOr, value, error}
use google_cloud_cpp_spanner.SessionPool.Options.{SessionPoolOptions}
use google_cloud_cpp_spanner.SessionPool.CreateCounts.{CreateCount}
use google_cloud_cpp_spanner.SessionPool.Balance.{requested}
use google_cloud_cpp_spanner.SessionPool.Counting.{
  on_channel, HasChannel, length-remove_at, All-remove_at, All-get, All-append, All-perm,
  count_at-add, session_total-add, length-modify, on_channel-created, length-created,
  created-HasChannel, on_channel-perm, length-perm, on_channel-append,
}
use google_cloud_cpp_spanner.SessionPool.Pool.{
  Session, SessionPool, created, handle_batch_create_sessions_done, new_pool,
}
use google_cloud_cpp_spanner.SessionPool.Refresh.{scan, is_expiring, refresh_expiring_sessions}
use google_cloud_cpp_spanner.SessionPool.Growth.{maintain_pool_size-eq}
use google_cloud_cpp_spanner.SessionPool.System.{
  System, Event, allocates, wakes, releases, completes, maintains, refreshes, complete, step, start,
  AnswersWithin, IsAllowed, Reach, here, next,
}
use google_cloud_cpp_spanner.SessionPool.Invariant.{Inv, let_go-Inv}
use google_cloud_cpp_spanner.SessionPool.Growing.{Inv-IsCounted, channel_limit, start-Inv}
use google_cloud_cpp_spanner.SessionPool.Run.{enter-Inv, wake-Inv}

module _ (interval now : ℕ) (clock : ℕ → ℕ) where
  on_channel-scan :
      (c : ℕ) (xs : List Session)
      → on_channel c (scan interval now clock xs).sessions ≡ on_channel c xs
  unfolding scan
  on_channel-scan c [] = refl
  on_channel-scan c (x ∷ xs) = elim (Bool-cases (is_expiring interval now x.last_use_time)) [
    | inl t ↦ rw t (omega (arith, on_channel-scan c xs))
    | inr t ↦ rw t (omega (arith, on_channel-scan c xs))
  ]

  length-scan : (xs : List Session) → length (scan interval now clock xs).sessions ≡ length xs
  unfolding scan
  length-scan [] = refl
  length-scan (x ∷ xs) = ground (arith, length-scan xs)

  scan-HasChannel :
      (xs : List Session) → All HasChannel xs → All HasChannel (scan interval now clock xs).sessions
  unfolding scan
  scan-HasChannel [] h = tt
  scan-HasChannel (x ∷ xs) h = elim (Bool-cases (is_expiring interval now x.last_use_time)) [
    | inl t ↦ rw t (h.0, scan-HasChannel xs h.1)
    | inr t ↦ rw t (h.0, scan-HasChannel xs h.1)
  ]

refresh-Inv :
    (m : ℕ) (s : System) (now : ℕ) (clock : ℕ → ℕ)
    → Inv m s
    → Inv m (record s { pool = (refresh_expiring_sessions s.pool now clock).0 })
unfolding refresh_expiring_sessions
refresh-Inv m s now clock v =
    elim (Bool-cases (is_expiring interval now s.pool.last_use_time_lower_bound)) [
      | inl t ↦ rw t (record {
        has_channels = v.has_channels;
        limit = v.limit;
        total = v.total;
        held = omega (arith, v.held, length-scan interval now clock s.pool.sessions);
        within = v.within;
        calls = v.calls;
        waiting = v.waiting;
        enforced = v.enforced;
        owned = λ i. omega (arith, v.owned i, on_channel-scan interval now clock i s.pool.sessions);
        attached = (scan-HasChannel interval now clock s.pool.sessions v.attached.0, v.attached.1);
        targets = v.targets;
      })
      | inr t ↦ rw t v
    ]
  where
    interval : ℕ
    interval = s.pool.options.keep_alive_interval

requested-remove_at :
    (i : ℕ) (q : CreateCount) (qs : List CreateCount)
    → get_elem? qs i ≡ some q
    → requested (remove_at i qs) + q.session_count ≡ requested qs
requested-remove_at i q [] e = cc
requested-remove_at zero q (x ∷ qs) e = omega (arith, ap size e)
  where
    size : Option CreateCount → ℕ
    size none = 0
    size (some r) = r.session_count
requested-remove_at (suc i) q (x ∷ qs) e = omega (arith, requested-remove_at i q qs e)

module _ (shuffle : List Session → List Session)
    (permutes : (xs : List Session) → Permᴰ xs (shuffle xs)) where
  complete-Inv :
      (m : ℕ) (s : System) (i : ℕ) (response : StatusOr (List String)) (clock : ℕ → ℕ)
      (o : Option CreateCount)
      → get_elem? s.creating i ≡ o
      → AnswersWithin o response
      → Inv m s
      → Inv m (complete shuffle s i response clock o)
  unfolding complete handle_batch_create_sessions_done
  complete-Inv m s i response clock none e a v = v
  complete-Inv m s i (error err) clock (some q) e a v = record {
    has_channels = v.has_channels;
    limit = v.limit;
    total = v.total;
    held = v.held;
    within = omega (arith, v.within, requested-remove_at i q s.creating e);
    calls = omega (arith, v.calls, length-remove_at i q s.creating e);
    waiting = v.waiting;
    enforced = v.enforced;
    owned = v.owned;
    attached = v.attached;
    targets = All-remove_at _ i s.creating v.targets;
  }
  complete-Inv m s i (value names) clock (some q) e a v = record {
    has_channels = rw length-modify v.has_channels;
    limit = rw length-modify v.limit;
    total = omega (arith, v.total, session_total-add (length names) q.channel s.pool.channels on);
    held = omega (
      arith,
      v.held,
      length-perm (permutes (added ++ s.pool.sessions)),
      length-append added s.pool.sessions,
      length-created q.channel clock names,
    );
    within = omega (arith, v.within, requested-remove_at i q s.creating e, a);
    calls = omega (arith, v.calls, length-remove_at i q s.creating e);
    waiting = v.waiting;
    enforced = v.enforced;
    owned = λ j. omega (
      arith,
      v.owned j,
      count_at-add (length names) q.channel j s.pool.channels on,
      on_channel-perm j (permutes (added ++ s.pool.sessions)),
      on_channel-append j added s.pool.sessions,
      on_channel-created j q.channel clock names,
    );
    attached = (
      All-perm HasChannel (permutes (added ++ s.pool.sessions)) (
          All-append HasChannel added s.pool.sessions (created-HasChannel q.channel clock names)
            v.attached.0),
      v.attached.1,
    );
    targets = rw length-modify (All-remove_at _ i s.creating v.targets);
  }
    where
      added : List Session
      added = created q.channel clock names

      on : q.channel < length s.pool.channels
      on = All-get _ i q s.creating v.targets e

  -- Every event keeps the invariant.
  pub step-Inv :
      (m : ℕ) (s : System) (e : Event) → IsAllowed s e → Inv m s → Inv m (step shuffle s e)
  unfolding step
  step-Inv m s (allocates dissociate) a v = enter-Inv m s dissociate v
  step-Inv m s (wakes i) a v = wake-Inv m s i (get_elem? s.blocked i) refl v
  step-Inv m s (releases i bad now) a v = let_go-Inv m s i bad now (get_elem? s.leased i) refl v
  step-Inv m s (completes i response clock) a v =
      complete-Inv m s i response clock (get_elem? s.creating i) refl a v
  step-Inv m s maintains a v = rw (maintain_pool_size-eq m s.pool (Inv-IsCounted m s v)) v
  step-Inv m s (refreshes now clock) a v = refresh-Inv m s now clock v

  Reach-Inv : (m : ℕ) {s t : System} → Inv m s → Reach shuffle s t → Inv m t
  Reach-Inv m v here = v
  Reach-Inv m v (next r e a) = step-Inv m _ e a (Reach-Inv m v r)

  -- Whatever the interleaving of the callers of a new pool, its invariant holds.
  pub Reach-start-Inv :
      (stubs : List ℕ) (o : SessionPoolOptions) (now : ℕ) (p : SessionPool) (t : System)
      → new_pool stubs o now ≡ value p
      → Reach shuffle (start p) t
      → Inv (channel_limit stubs o) t
  Reach-start-Inv stubs o now p t e r =
      Reach-Inv (channel_limit stubs o) (start-Inv stubs o now p e) r
