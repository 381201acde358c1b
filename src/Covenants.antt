-- ===== src/Covenants.antt =====
-- crates/hns-covenants/src: name covenants and the authenticated state of names.
pub mod Name
pub mod Covenant
pub mod Decode
pub mod Size
pub mod RoundTrip
pub mod Label
pub mod NameState
pub mod Transfer
pub mod Finalize
pub mod Fields
