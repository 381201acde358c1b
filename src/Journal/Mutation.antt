-- ===== src/Journal/Mutation.antt =====
-- crates/hns-rollback-journal/src/lib.rs: the transitions of a record, the fenced write that each one
-- proposes, and the reconciliation of a write whose outcome is unknown.
pub mod Reconcile
use hns_rs.Base.{
  ℕ, Bool, true, false, not, ◌&&◌, Option, none, some, leb, ◌==◌, if◌then◌else◌, checked_add,
  Result, ok, err, ◌>>=◌, ◌>>◌, ensure, ok_or,
}
use hns_rs.Base.Bytes.{Bytes, bytes_eq}
use hns_rs.Hash.{Blake2b}
use hns_rs.Journal.Binding.{
  JournalError, invalid, wrong_state, journal_revision_exhausted, database_mismatch, JournalBinding,
  binding_eq, binding_fingerprint, JournalLeaseContext,
}
use hns_rs.Journal.Snapshot.{SnapshotImage, DatabaseObservation, is_present}
use hns_rs.Journal.Record.{
  JournalState, JournalRecord, never_initialized, stable, prepared, retired, fingerprint, validate,
  transition_id, retirement_id,
}

pub data ExpectedJournalRecord : Type 0 where
  absent : ExpectedJournalRecord
  exact : (journal_revision : ℕ) (record_fingerprint : Bytes) → ExpectedJournalRecord

pub record JournalWriteExpectation : Type 0 where
  pub binding_fingerprint : Bytes
  pub fencing_token : ℕ
  pub prior : ExpectedJournalRecord

pub record JournalMutation : Type 0 where
  pub expectation : JournalWriteExpectation
  pub proposed : JournalRecord

pub data MutationReconciliation : Type 0 where
  committed : MutationReconciliation
  retry_exact : MutationReconciliation
  fail_closed_conflict : MutationReconciliation

-- `let JournalState::Stable { current } = &self.state else { return Err(..) }`, and likewise.
unfoldable pub expect_stable : JournalState → Result JournalError SnapshotImage
expect_stable (stable current) = ok current
expect_stable other = err (wrong_state "not Stable")

unfoldable pub expect_prepared : JournalState → Result JournalError SnapshotImage
expect_prepared (prepared id old new) = ok new
expect_prepared other = err (wrong_state "not Prepared")

unfoldable pub expect_never_initialized : JournalState → Result JournalError (Unit {0})
expect_never_initialized never_initialized = ok tt
expect_never_initialized other = err (wrong_state "not NeverInitialized")

module _ ⦃blake : Blake2b⦄ where
  unfoldable pub ensure_lease_binding :
      JournalRecord → JournalLeaseContext → Result JournalError (Unit {0})
  ensure_lease_binding r lease =
      ensure (bytes_eq lease.binding_fingerprint (binding_fingerprint r.binding))
        (invalid "journal lease binding does not match the record")

  unfoldable pub next_mutation :
      JournalRecord → JournalLeaseContext → JournalState → Result JournalError JournalMutation
  next_mutation r lease state = do
    journal_revision ← ok_or (checked_add 64 r.journal_revision 1) journal_revision_exhausted
    let proposed = record r { journal_revision = journal_revision; state = state }
    validate proposed
    ok (record {
      expectation = record {
        binding_fingerprint = binding_fingerprint r.binding;
        fencing_token = lease.fencing_token;
        prior = exact r.journal_revision (fingerprint r);
      };
      proposed = proposed;
    })

  unfoldable pub privileged_enroll :
      JournalRecord
      → JournalLeaseContext
      → DatabaseObservation
      → SnapshotImage
      → Result JournalError JournalMutation
  privileged_enroll r lease database current = do
    ensure_lease_binding r lease
    expect_never_initialized r.state
    ensure (is_present database current.identity) database_mismatch
    next_mutation r lease (stable current)

  unfoldable pub prepare_transition :
      JournalRecord
      → JournalLeaseContext
      → DatabaseObservation
      → SnapshotImage
      → Result JournalError JournalMutation
  prepare_transition r lease database new = do
    ensure_lease_binding r lease
    old ← expect_stable r.state
    ensure (is_present database old.identity) database_mismatch
    ensure (not (leb new.identity.revision old.identity.revision))
        (invalid "prepared revision must advance the protocol state")
    reserved ← ok_or (checked_add 64 r.journal_revision 2) journal_revision_exhausted
    next_mutation r lease (prepared (transition_id r.binding old new) old new)

  unfoldable pub finalize_prepared :
      JournalRecord
      → JournalLeaseContext
      → DatabaseObservation
      → Result JournalError JournalMutation
  finalize_prepared r lease database = do
    ensure_lease_binding r lease
    new ← expect_prepared r.state
    ensure (is_present database new.identity) database_mismatch
    next_mutation r lease (stable new)

  unfoldable pub privileged_retire :
      JournalRecord
      → JournalLeaseContext
      → DatabaseObservation
      → Result JournalError JournalMutation
  privileged_retire r lease database = do
    ensure_lease_binding r lease
    current ← expect_stable r.state
    ensure (is_present database current.identity) database_mismatch
    next_mutation r lease
        (retired current.identity (retirement_id r.binding current.identity (fingerprint r)))

  unfoldable pub privileged_provision :
      JournalBinding → JournalLeaseContext → Result JournalError JournalMutation
  privileged_provision binding lease = do
    ensure (bytes_eq lease.binding_fingerprint (binding_fingerprint binding))
        (invalid "journal lease binding does not match the provisioned namespace")
    ok (record {
      expectation = record {
        binding_fingerprint = binding_fingerprint binding;
        fencing_token = lease.fencing_token;
        prior = absent;
      };
      proposed = record { binding = binding; journal_revision = 0; state = never_initialized };
    })

  unfoldable pub matches_prior : Bytes → ExpectedJournalRecord → Option JournalRecord → Bool
  matches_prior binding absent none = true
  matches_prior binding (exact revision print) (some r) =
      bytes_eq (binding_fingerprint r.binding) binding
      && r.journal_revision == revision
      && bytes_eq (fingerprint r) print
  matches_prior binding prior other = false

  unfoldable pub matches : JournalWriteExpectation → Option JournalRecord → Bool
  unfolding matches_prior
  matches e loaded = matches_prior e.binding_fingerprint e.prior loaded

  unfoldable pub is_proposed : JournalMutation → Option JournalRecord → Bool
  is_proposed m none = false
  is_proposed m (some r) =
      binding_eq r.binding m.proposed.binding && bytes_eq (fingerprint r) (fingerprint m.proposed)

  unfoldable pub reconcile : JournalMutation → Option JournalRecord → MutationReconciliation
  unfolding is_proposed matches
  reconcile m loaded =
      if is_proposed m loaded
      then committed
      else if matches m.expectation loaded
      then retry_exact
      else fail_closed_conflict
