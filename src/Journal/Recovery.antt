-- ===== src/Journal/Recovery.antt =====
-- crates/hns-rollback-journal/src/lib.rs: the recovery decision for a record and an observed database.
pub mod Laws
use hns_rs.Base.{◌||◌, not, Option, none, some, ltb, ◌==◌, if◌then◌else◌}
use hns_rs.Base.Bytes.{Bytes}
use hns_rs.Journal.Binding.{JournalBinding, binding_eq}
use hns_rs.Journal.Snapshot.{
  StateIdentity, SnapshotImage, DatabaseObservation, absent, present, identity_eq,
}
use hns_rs.Journal.Record.{
  JournalState, JournalRecord, never_initialized, stable, prepared, retired,
}

pub data FailClosedReason : Type 0 where
  missing_journal_record : FailClosedReason
  binding_mismatch : FailClosedReason
  not_enrolled : FailClosedReason
  already_retired : FailClosedReason
  same_revision_fork : FailClosedReason
  database_ahead : FailClosedReason
  unexpected_intermediate_state : FailClosedReason

pub data RecoveryPlan : Type 0 where
  ready : (current : SnapshotImage) → RecoveryPlan
  restore_stable_then_reread :
      (expected_database : DatabaseObservation) (current : SnapshotImage) → RecoveryPlan
  retry_prepared_database_cas :
      (transition_id : Bytes) (expected_old : StateIdentity) (proposed : SnapshotImage)
      → RecoveryPlan
  restore_prepared_old_then_reread :
      (transition_id : Bytes) (expected_database : DatabaseObservation) (old : SnapshotImage)
      → RecoveryPlan
  finalize_prepared_plan : (transition_id : Bytes) → RecoveryPlan
  fail_closed : FailClosedReason → RecoveryPlan

-- The arms of `recovery_plan` on a stable record.
unfoldable pub plan_stable : SnapshotImage → DatabaseObservation → RecoveryPlan
plan_stable current absent = restore_stable_then_reread absent current
plan_stable current (present identity) =
    if identity_eq identity current.identity
    then ready current
    else if ltb identity.revision current.identity.revision
    then restore_stable_then_reread (present identity) current
    else if identity.revision == current.identity.revision
    then fail_closed same_revision_fork
    else fail_closed database_ahead

-- The arms on a prepared record.
unfoldable pub plan_prepared :
    Bytes → SnapshotImage → SnapshotImage → DatabaseObservation → RecoveryPlan
plan_prepared id old new absent = restore_prepared_old_then_reread id absent old
plan_prepared id old new (present identity) =
    if identity_eq identity old.identity
    then retry_prepared_database_cas id old.identity new
    else if identity_eq identity new.identity
    then finalize_prepared_plan id
    else if ltb identity.revision old.identity.revision
    then restore_prepared_old_then_reread id (present identity) old
    else if identity.revision == old.identity.revision || identity.revision == new.identity.revision
    then fail_closed same_revision_fork
    else if ltb new.identity.revision identity.revision
    then fail_closed database_ahead
    else fail_closed unexpected_intermediate_state

unfoldable pub plan_state : JournalState → DatabaseObservation → RecoveryPlan
unfolding plan_stable plan_prepared
plan_state never_initialized database = fail_closed not_enrolled
plan_state (retired last id) database = fail_closed already_retired
plan_state (stable current) database = plan_stable current database
plan_state (prepared id old new) database = plan_prepared id old new database

unfoldable pub recovery_plan : JournalRecord → JournalBinding → DatabaseObservation → RecoveryPlan
unfolding plan_state
recovery_plan r expected_binding database =
    if not (binding_eq r.binding expected_binding)
    then fail_closed binding_mismatch
    else plan_state r.state database

unfoldable pub plan_recovery :
    JournalBinding → Option JournalRecord → DatabaseObservation → RecoveryPlan
unfolding recovery_plan
plan_recovery expected_binding (some r) database = recovery_plan r expected_binding database
plan_recovery expected_binding none database = fail_closed missing_journal_record
