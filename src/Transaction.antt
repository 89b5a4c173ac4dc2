-- ===== src/Transaction.antt =====
-- Transactions: transaction.cc and internal/transaction_impl.h.
pub mod Selector
pub mod Impl
pub mod Visitors
pub mod Steps
pub mod Reachable
mod Examples
