-- ===== src/Bytes.antt =====
-- The BYTES type: bytes.h and bytes.cc.
pub mod Base64
pub mod Table
pub mod RoundTrip
pub mod Canonical
mod Examples
