-- ===== src/Requests.antt =====
-- What a caller asks for: keys.{h,cc}, sql_statement.{h,cc}, mutations.h, read_partition.{h,cc},
-- query_partition.{h,cc}, partition_options.cc and read_options.h.
pub mod Keys
pub mod Statement
pub mod Mutations
pub mod Partitions
pub mod Serialized
mod Examples
