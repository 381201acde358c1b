-- ===== src/Journal.antt =====
-- crates/hns-rollback-journal/src/lib.rs: the external anti-rollback journal.
pub mod Binding
pub mod Snapshot
pub mod Record
pub mod Decode
pub mod Codec
pub mod RoundTrip
pub mod Mutation
pub mod Recovery
pub mod Lifecycle
