-- ===== src/SessionPool.antt =====
-- The session pool: internal/session_pool.{h,cc}, internal/session.h, internal/channel.h and
-- session_pool_options.h.
pub mod Options
pub mod CreateCounts
pub mod Balance
pub mod Sorting
pub mod CreateTotals
pub mod Pool
pub mod Refresh
pub mod Growth
pub mod Counting
pub mod System
pub mod Invariant
pub mod Growing
pub mod Run
pub mod Allocation
pub mod Interleavings
mod Examples
