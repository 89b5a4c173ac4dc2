-- ===== src/Rows.antt =====
-- Rows and the iterators over them: google/cloud/spanner/row.h and row.cc.
pub mod Row
pub mod Cells
pub mod Iterator
pub mod Walk
pub mod Tuples
mod Examples
