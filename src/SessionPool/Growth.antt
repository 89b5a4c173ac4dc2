-- ===== src/SessionPool/Growth.antt =====
-- What `Grow` asks for, and what `MaintainPoolSize` makes of it.
use google_cloud_cpp_spanner.Prelude.{
  ℕ, ◌+◌, ◌*◌, ◌≤◌, ◌<◌, ◌≡◌, List, [], arith, length, All, min, ◌⊎◌, inl, inr, Bool, true, false,
  Bool-cases, ◌==◌, sym, subst,
}
use google_cloud_cpp_spanner.Prelude.Int.{pos, ◌+ℤ◌, ◌-ℤ◌, min_ℤ}
use google_cloud_cpp_spanner.Status.{StatusOr, value, error}
use google_cloud_cpp_spanner.SessionPool.CreateCounts.{CreateCount, counts_for}
use google_cloud_cpp_spanner.SessionPool.Balance.{requested}
use google_cloud_cpp_spanner.SessionPool.Sorting.{session_total}
use google_cloud_cpp_spanner.SessionPool.CreateTotals.{
  counts_for-nil, requested-counts_for, counts_for-KeepsWithin, KeepsWithin,
}
use google_cloud_cpp_spanner.SessionPool.Pool.{
  SessionPool, exhausted, compute_create_counts, maintain_pool_size,
}

-- The counters of the pool and of its channels agree, and the pool is within its limit, which is
-- `m` sessions for each of its channels.
pub record IsCounted (m : ℕ) (p : SessionPool) : Type 0 where
  pub has_channels : 0 < length p.channels
  pub limit : p.max_pool_size ≡ length p.channels * m
  pub total : p.total_sessions ≡ session_total p.channels
  pub within : p.total_sessions ≤ p.max_pool_size

-- What a request for `n` more sessions is answered with.
pub record Requests (m n : ℕ) (p : SessionPool) (counts : List CreateCount) : Type 0 where
  pub sum_is : requested counts + p.total_sessions ≡ min (p.total_sessions + n) p.max_pool_size
  pub each_within : All (KeepsWithin p.channels m) counts

target_is : (a n m : ℕ) → min_ℤ (pos a +ℤ pos n) (pos m) ≡ pos (min (a + n) m)
unfolding ◌+ℤ◌
target_is a n m = ground arith

-- What `ComputeCreateCounts` comes to, by whether the pool is at its limit.
abbrev pub IsComputed : (m n : ℕ) → SessionPool → StatusOr (List CreateCount) → Bool → Type 0
IsComputed m n p r true = r ≡ error exhausted
IsComputed m n p r false = (counts : List CreateCount) × (r ≡ value counts) × Requests m n p counts

-- In a pool whose counters agree: at the limit `ComputeCreateCounts` fails, and below it asks for
-- exactly as many sessions as were wanted, or as fit, and takes no channel past `m` sessions.
pub compute_create_counts-Requests :
    (m n : ℕ) (p : SessionPool)
    → IsCounted m p
    → IsComputed m n p (compute_create_counts p (pos n)) (p.total_sessions == p.max_pool_size)
unfolding compute_create_counts
compute_create_counts-Requests m n p c = elim (Bool-cases (p.total_sessions == p.max_pool_size)) [
  | inl full ↦
      subst (λ b. IsComputed m n p (compute_create_counts p (pos n)) b) (sym full) (rw full)
  | inr room ↦
      subst (λ b. IsComputed m n p (compute_create_counts p (pos n)) b) (sym room)
        (
          counts_for (pos target) p.channels,
          rw (room, target_is),
          record {
            sum_is = omega (arith, total_is);
            each_within =
                counts_for-KeepsWithin target m p.channels (omega (arith, c)) (omega (arith, c));
          },
        )
]
  where
    target : ℕ
    target = min (p.total_sessions + n) p.max_pool_size

    total_is : requested (counts_for (pos target) p.channels) + session_total p.channels ≡ target
    total_is = requested-counts_for target p.channels c.has_channels (omega (arith, c))

pub below_limit :
    (m n : ℕ) (p : SessionPool)
    → IsCounted m p
    → ¬ (p.total_sessions ≡ p.max_pool_size)
    → (counts : List CreateCount) × (compute_create_counts p (pos n) ≡ value counts)
      × Requests m n p counts
below_limit m n p c room =
    subst (λ b. IsComputed m n p (compute_create_counts p (pos n)) b) {y = false} (grind arith)
      (compute_create_counts-Requests m n p c)

pub full_or_below :
    (m n : ℕ) (p : SessionPool)
    → IsCounted m p
    → (compute_create_counts p (pos n) ≡ error exhausted)
      ⊎ ((counts : List CreateCount) × (compute_create_counts p (pos n) ≡ value counts)
          × Requests m n p counts)
full_or_below m n p c = elim (Bool-cases (p.total_sessions == p.max_pool_size)) [
  | inl full ↦ inl (
      subst (λ b. IsComputed m n p (compute_create_counts p (pos n)) b) full
        (compute_create_counts-Requests m n p c))
  | inr room ↦ inr (
      subst (λ b. IsComputed m n p (compute_create_counts p (pos n)) b) room
        (compute_create_counts-Requests m n p c))
]

-- `MaintainPoolSize` never creates a session: the difference that it hands to `Grow` has the wrong
-- sign, so even a pool that is below `min_sessions` is left as it is, with no request made.
pub maintain_pool_size-eq :
    (m : ℕ) (p : SessionPool) → IsCounted m p → maintain_pool_size p ≡ (p, [])
unfolding maintain_pool_size compute_create_counts
maintain_pool_size-eq m p c = ground (
  arith,
  counts_for-nil
      (min_ℤ (pos p.total_sessions +ℤ (pos p.total_sessions -ℤ p.options.min_sessions))
        (pos p.max_pool_size))
      p.channels,
)
