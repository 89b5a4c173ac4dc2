-- ===== src/Time.antt =====
-- Timestamps, civil times and dates: timestamp.cc, internal/time_format.cc and date.cc.
pub mod Era
pub mod Counts
pub mod Normal
pub mod Civil
pub mod Trip
pub mod Back
mod Examples
pub mod Parse
pub mod Accepted
pub mod Format
pub mod Printed
pub mod Parsed
pub mod Ranges
pub mod Rfc3339
pub mod Fractions
pub mod Texts
pub mod Offsets
pub mod Ratio
pub mod Date
pub mod Calendar
pub mod Normalised
