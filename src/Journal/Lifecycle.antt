-- ===== src/Journal/Lifecycle.antt =====
-- What each accepted transition of a record says of the record before it and of the one proposed.
pub mod Runs
pub mod Progress
use hns_rs.Base.{
  ℕ, ◌+◌, ◌%◌, ◌≤◌, ◌<◌, ◌^◌, ◌≡◌, refl, sym, ap, ◌∙◌, Bool, true, false, not, ◌||◌, Option, none,
  some, ltb, leb, ◌==◌, if◌then◌else◌, arith, checked_add, Result, ok, err, ◌>>=◌, ◌>>◌, ensure,
  ok_or, ◌⊎◌, inl, inr, Bool-cases,
}
use hns_rs.Base.Bytes.{Bytes, bytes_eq, bytes_eq_refl, bytes_eq_iff}
use hns_rs.Hash.{Blake2b}
use hns_rs.Journal.Binding.{JournalError, JournalBinding, JournalLeaseContext, binding_fingerprint}
use hns_rs.Journal.Snapshot.{StateIdentity, SnapshotImage, DatabaseObservation, is_present}
use hns_rs.Journal.Record.{
  JournalState, JournalRecord, never_initialized, stable, prepared, retired, validate, is_even,
  transition_id, retirement_id, fingerprint,
}
use hns_rs.Journal.Mutation.{
  JournalMutation, next_mutation, ensure_lease_binding, expect_stable, expect_prepared,
  expect_never_initialized, privileged_enroll, prepare_transition, finalize_prepared,
  privileged_retire, privileged_provision,
}

module _ ⦃blake : Blake2b⦄ where
  -- `next_mutation` keeps the binding, takes the next journal revision and the new state, and its
  -- record is valid.
  pub next_mutation_lem :
      (r : JournalRecord) (lease : JournalLeaseContext) (s : JournalState) (m : JournalMutation)
      → next_mutation r lease s ≡ ok m
      → (m.proposed ≡ record r { journal_revision = r.journal_revision + 1; state = s })
        × (validate m.proposed ≡ ok tt)
        × (m.proposed.journal_revision < 2 ^ 64)
  unfolding next_mutation
  next_mutation_lem r lease s m h = ground arith

  pub enroll_lem :
      (r : JournalRecord) (lease : JournalLeaseContext) (db : DatabaseObservation)
      (current : SnapshotImage) (m : JournalMutation)
      → privileged_enroll r lease db current ≡ ok m
      → (r.state ≡ never_initialized)
        × (is_present db current.identity ≡ true)
        × (next_mutation r lease (stable current) ≡ ok m)
  unfolding privileged_enroll expect_never_initialized ensure_lease_binding
  enroll_lem r lease db current m h = ground arith

  pub prepare_lem :
      (r : JournalRecord) (lease : JournalLeaseContext) (db : DatabaseObservation)
      (new : SnapshotImage) (m : JournalMutation)
      → prepare_transition r lease db new ≡ ok m
      → (old : SnapshotImage) × (r.state ≡ stable old)
        × (is_present db old.identity ≡ true)
        × (old.identity.revision < new.identity.revision)
        × (next_mutation r lease (prepared (transition_id r.binding old new) old new) ≡ ok m)
  unfolding prepare_transition expect_stable ensure_lease_binding
  prepare_lem r lease db new m h = ground arith

  pub finalize_lem :
      (r : JournalRecord) (lease : JournalLeaseContext) (db : DatabaseObservation)
      (m : JournalMutation)
      → finalize_prepared r lease db ≡ ok m
      → (id : Bytes) × (old : SnapshotImage) × (new : SnapshotImage) × (r.state
          ≡ prepared id old new)
        × (is_present db new.identity ≡ true)
        × (next_mutation r lease (stable new) ≡ ok m)
  unfolding finalize_prepared expect_prepared ensure_lease_binding
  finalize_lem r lease db m h = ground arith

  pub retire_lem :
      (r : JournalRecord) (lease : JournalLeaseContext) (db : DatabaseObservation)
      (m : JournalMutation)
      → privileged_retire r lease db ≡ ok m
      → (current : SnapshotImage) × (r.state ≡ stable current)
        × (is_present db current.identity ≡ true)
        × (next_mutation r lease
              (retired current.identity (retirement_id r.binding current.identity (fingerprint r)))
            ≡ ok m)
  unfolding privileged_retire expect_stable ensure_lease_binding
  retire_lem r lease db m h = ground arith
