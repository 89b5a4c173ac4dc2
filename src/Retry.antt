-- ===== src/Retry.antt =====
-- The loops that retry and poll: internal/retry_loop.{h,cc} and internal/polling_loop.h.
pub mod Policy
pub mod Loop
pub mod Calls
pub mod Persistence
pub mod Polling
pub mod Polls
pub mod Examples
