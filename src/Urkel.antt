-- ===== src/Urkel.antt =====
-- crates/hns-urkel-proof/src/lib.rs: the verification of Urkel proofs.
pub mod Prefix
pub mod Proof
pub mod Tree
pub mod Hashes
pub mod Descent
pub mod Terminal
pub mod Soundness
pub mod Reader
pub mod Wire
pub mod Bitmap
pub mod Reading
pub mod RoundTrip
pub mod Admission
pub mod Shape
