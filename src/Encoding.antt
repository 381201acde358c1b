-- ===== src/Encoding.antt =====
-- crates/hns-encoding/src/lib.rs: little-endian wire encoding with bounds.
pub mod Decoder
pub mod Encoder
pub mod Reads
pub mod RoundTrip
pub mod Canonical
pub mod Writes
