-- ===== src/Client.antt =====
-- `Client` of client.{h,cc}: the loop of `Commit`, the options of queries, and the channels of a
-- connection.
pub mod Calls
pub mod Commit
pub mod Reruns
pub mod Termination
pub mod Sessions
mod Examples
