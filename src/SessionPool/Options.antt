-- ===== src/SessionPool/Options.antt =====
-- session_pool_options.h: the options of the pool and the constraints on them.
use google_cloud_cpp_spanner.Prelude.{ℕ, ◌≡◌, arith, List, String}
use google_cloud_cpp_spanner.Prelude.Int.{ℤ, pos, negsuc, ◌*ℤ◌, ◌≤ℤ◌, max_ℤ, min_ℤ}

pub data ActionOnExhaustion : Type 0 where
  block fail : ActionOnExhaustion

-- Times are counted in the ticks of the steady clock. Labels are keys with their values.
pub record SessionPoolOptions : Type 0 where
  pub min_sessions : ℤ
  pub max_sessions_per_channel : ℤ
  pub max_idle_sessions : ℤ
  pub action_on_exhaustion : ActionOnExhaustion
  pub keep_alive_interval : ℕ
  pub labels : List (String × String)

-- `EnforceConstraints`; the product is taken to fit an `int`.
unfoldable pub enforce_constraints : SessionPoolOptions → ℕ → SessionPoolOptions
enforce_constraints o num_channels =
    let min_sessions = max_ℤ o.min_sessions (pos 0) in
    let max_sessions_per_channel = max_ℤ o.max_sessions_per_channel (pos 1) in
    record o {
      min_sessions = min_ℤ min_sessions (max_sessions_per_channel *ℤ pos num_channels);
      max_sessions_per_channel = max_sessions_per_channel;
      max_idle_sessions = max_ℤ o.max_idle_sessions (pos 0);
    }

*ℤ_nonneg : (a : ℤ) (n : ℕ) → pos 0 ≤ℤ a → pos 0 ≤ℤ a *ℤ pos n
unfolding ◌*ℤ◌
*ℤ_nonneg (pos a) n h = ground arith
*ℤ_nonneg (negsuc a) n h = absurd (omega arith)

-- What the constraints promise of the options.
pub record IsConstrained (num_channels : ℕ) (o : SessionPoolOptions) : Type 0 where
  pub min_nonneg : pos 0 ≤ℤ o.min_sessions
  pub max_positive : pos 1 ≤ℤ o.max_sessions_per_channel
  pub min_within : o.min_sessions ≤ℤ o.max_sessions_per_channel *ℤ pos num_channels
  pub idle_nonneg : pos 0 ≤ℤ o.max_idle_sessions

-- The constraints hold of the result, whatever the user set.
pub enforce_constraints-IsConstrained :
    (o : SessionPoolOptions) (num_channels : ℕ)
    → IsConstrained num_channels (enforce_constraints o num_channels)
unfolding enforce_constraints
enforce_constraints-IsConstrained o num_channels =
    let m = max_ℤ o.max_sessions_per_channel (pos 1) in
    let one : pos 1 ≤ℤ m = ground arith in
    let limit : pos 0 ≤ℤ m *ℤ pos num_channels = *ℤ_nonneg m num_channels (omega (arith, one)) in
    record {
      min_nonneg = ground (arith, limit);
      max_positive = one;
      min_within = ground (arith, limit);
      idle_nonneg = ground arith;
    }

-- Options that meet the constraints are left as they are.
pub enforce_constraints-eq :
    (o : SessionPoolOptions) (num_channels : ℕ)
    → IsConstrained num_channels o
    → enforce_constraints o num_channels ≡ o
unfolding enforce_constraints
enforce_constraints-eq o num_channels c = ground arith
