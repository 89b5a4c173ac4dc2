-- ===== src/Connection.antt =====
-- `ConnectionImpl` of internal/connection_impl.cc: the operations that a visit of a transaction runs,
-- over the stub, the session pool and the retry loop; and the results that they return.
pub mod Results
pub mod Service
pub mod Reads
pub mod Sql
pub mod Batches
pub mod Commits
pub mod Operation
mod Laws
mod Lawful
mod Members
pub mod Kept
mod Assigning
mod Named
pub mod Selectors
pub mod Visiting
pub mod Committed
pub mod Refinement
pub mod Examples
