-- ===== src/Journal/Lifecycle/Progress.antt =====
-- When a transition is accepted: a prepared record can always be finalized, and the two phases of a
-- commit fit together.
use hns_rs.Base.{◌+◌, ◌<◌, ◌^◌, ◌≡◌, arith, true, ok}
use hns_rs.Base.Bytes.{Bytes, bytes_eq_refl, eq_of_bytes_eq}
use hns_rs.Hash.{Blake2b}
use hns_rs.Journal.Binding.{JournalLeaseContext, binding_fingerprint}
use hns_rs.Journal.Snapshot.{
  SnapshotImage, DatabaseObservation, present, is_present, identity_eq_refl,
}
use hns_rs.Journal.Record.{
  JournalState, JournalRecord, stable, prepared, validate, transition_id, fingerprint,
}
use hns_rs.Journal.Mutation.{
  JournalMutation, next_mutation, ensure_lease_binding, expect_prepared, prepare_transition,
  finalize_prepared, exact,
}
use hns_rs.Journal.Lifecycle.{prepare_lem, next_mutation_lem}

module _ ⦃blake : Blake2b⦄ where
  -- The fenced write that proposes `state` after `r`.
  abbrev pub mutation : JournalRecord → JournalLeaseContext → JournalState → JournalMutation
  mutation r lease state = record {
    expectation = record {
      binding_fingerprint = binding_fingerprint r.binding;
      fencing_token = lease.fencing_token;
      prior = exact r.journal_revision (fingerprint r);
    };
    proposed = record r { journal_revision = r.journal_revision + 1; state = state };
  }

  stable_after_prepared :
      (r : JournalRecord) (lease : JournalLeaseContext) (id : Bytes) (old new : SnapshotImage)
      → validate r ≡ ok tt
      → r.journal_revision < 2 ^ 64
      → r.state ≡ prepared id old new
      → next_mutation r lease (stable new) ≡ ok (mutation r lease (stable new))
  unfolding next_mutation validate
  stable_after_prepared r lease id old new v h e = ground arith

  -- A valid prepared record is finalized whenever the lease is of its namespace and the database
  -- holds the prepared state: neither the revision space nor a check of the new record can refuse.
  pub finalize_prepared_accepts :
      (r : JournalRecord) (lease : JournalLeaseContext) (db : DatabaseObservation) (id : Bytes)
      (old new : SnapshotImage)
      → validate r ≡ ok tt
      → r.journal_revision < 2 ^ 64
      → r.state ≡ prepared id old new
      → lease.binding_fingerprint ≡ binding_fingerprint r.binding
      → is_present db new.identity ≡ true
      → finalize_prepared r lease db ≡ ok (mutation r lease (stable new))
  unfolding finalize_prepared ensure_lease_binding expect_prepared
  finalize_prepared_accepts r lease db id old new v h e l p = ground (
    arith,
    stable_after_prepared r lease id old new v h e,
    bytes_eq_refl lease.binding_fingerprint,
  )

  lease_of_prepare :
      (r : JournalRecord) (lease : JournalLeaseContext) (db : DatabaseObservation)
      (new : SnapshotImage) (m : JournalMutation)
      → prepare_transition r lease db new ≡ ok m
      → (lease.binding_fingerprint ≡ binding_fingerprint r.binding)
        × (r.journal_revision + 2 < 2 ^ 64)
  unfolding prepare_transition ensure_lease_binding
  lease_of_prepare r lease db new m h =
      ground (arith, eq_of_bytes_eq lease.binding_fingerprint (binding_fingerprint r.binding))

  -- After an accepted prepare, the finalization under the same lease is accepted as soon as the
  -- database holds the new state, and leaves the record two revisions on, stable at the new image.
  pub prepare_then_finalize :
      (r : JournalRecord) (lease : JournalLeaseContext) (db : DatabaseObservation)
      (new : SnapshotImage) (m : JournalMutation)
      → prepare_transition r lease db new ≡ ok m
      → (m' : JournalMutation) × (finalize_prepared m.proposed lease (present new.identity) ≡ ok m')
        × (m'.proposed ≡ record r { journal_revision = r.journal_revision + 2; state = stable new })
  prepare_then_finalize r lease db new m h =
      let (old, e, p, lt, k) = prepare_lem r lease db new m h in
      let (shape, valid, range) = next_mutation_lem r lease _ m k in
      let (same, room) = lease_of_prepare r lease db new m h in
      let shown : is_present (present new.identity) new.identity ≡ true =
        unfold is_present in identity_eq_refl new.identity in
      (
        mutation m.proposed lease (stable new),
        finalize_prepared_accepts m.proposed lease (present new.identity)
            (transition_id r.binding old new) old new valid range (ground arith) (ground arith)
            shown,
        ground arith,
      )
