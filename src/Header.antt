-- ===== src/Header.antt =====
-- crates/hns-header-consensus/src/lib.rs: headers, compact targets, work and retargeting.
pub mod Codec
pub mod Hashing
pub mod Network
pub mod U256
pub mod Target
pub mod Retarget
pub mod Validate
