-- ===== src/Values.antt =====
-- `Value` of value.h and value.cc: what a value of a C++ type becomes as a pair of protos, what is
-- read back from it, and how two such pairs compare.
pub mod Types
pub mod Integers
pub mod Host
pub mod Make
pub mod Get
pub mod Storable
pub mod SameType
mod RoundTrip
pub mod Stored
pub mod Equality
pub mod Equal
mod Unequal
mod Examples
