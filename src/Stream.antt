-- ===== src/Stream.antt =====
-- The stream of partial results: internal/merge_chunk.cc, internal/partial_result_set_source.cc and
-- internal/partial_result_set_resume.cc.
pub mod Value
pub mod MergeChunk
pub mod Chunking
pub mod Source
pub mod Rows
pub mod Delivery
pub mod NextRow
pub mod Resume
pub mod Resumption
mod Examples
