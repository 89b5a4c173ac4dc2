-- ===== src/Transaction/Selector.antt =====
-- The options and selectors of transaction.cc. Durations and timestamps are natural numbers of
-- nanoseconds, since the sources only pass them on.
use google_cloud_cpp_spanner.Prelude.{ℕ, ◌/◌, ◌%◌, String, Bool, true, false}

pub record Duration : Type 0 where
  pub seconds : ℕ
  pub nanos : ℕ

pub data Bound : Type 0 where
  strong : Bound
  read_timestamp : ℕ → Bound
  exact_staleness : Duration → Bound
  min_read_timestamp : ℕ → Bound
  max_staleness : Duration → Bound

pub record ReadOnly : Type 0 where
  pub bound : Bound
  pub return_read_timestamp : Bool

-- `TransactionOptions`.
pub data Options : Type 0 where
  read_only : ReadOnly → Options
  read_write : Options

-- `TransactionSelector`.
pub data Selector : Type 0 where
  begin : Options → Selector
  single_use : Options → Selector
  id : String → Selector

-- `ToProto` of a number of nanoseconds.
unfoldable pub to_duration : ℕ → Duration
to_duration ns = record { seconds = ns / 1000000000; nanos = ns % 1000000000 }

abbrev bounded_by : Bound → ReadOnly
bounded_by b = record { bound = b; return_read_timestamp = true }

-- The constructors of `ReadOnlyOptions`.
unfoldable pub read_only_strong : ReadOnly
read_only_strong = bounded_by strong

unfoldable pub read_only_at : ℕ → ReadOnly
read_only_at t = bounded_by (read_timestamp t)

unfoldable pub read_only_stale : ℕ → ReadOnly
unfolding to_duration
read_only_stale ns = bounded_by (exact_staleness (to_duration ns))

-- The constructors of `SingleUseOptions`.
unfoldable pub single_use_min : ℕ → ReadOnly
single_use_min t = bounded_by (min_read_timestamp t)

unfoldable pub single_use_max : ℕ → ReadOnly
unfolding to_duration
single_use_max ns = bounded_by (max_staleness (to_duration ns))

-- `has_begin`.
abbrev pub has_begin : Selector → Bool
has_begin (begin o) = true
has_begin (single_use o) = false
has_begin (id i) = false
