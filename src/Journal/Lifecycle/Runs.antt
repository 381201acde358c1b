-- ===== src/Journal/Lifecycle/Runs.antt =====
-- Runs of accepted transitions: what no run can undo.
use hns_rs.Base.{ℕ, suc, zero, ◌+◌, ◌≤◌, ◌<◌, ◌≡◌, refl, ap, ◌∙◌, arith, ok}
use hns_rs.Base.Bytes.{Bytes}
use hns_rs.Hash.{Blake2b}
use hns_rs.Journal.Binding.{JournalLeaseContext}
use hns_rs.Journal.Snapshot.{
  StateIdentity, SnapshotImage, DatabaseObservation, present, eq_of_is_present,
}
use hns_rs.Journal.Record.{
  JournalState, JournalRecord, never_initialized, stable, prepared, retired, validate,
}
use hns_rs.Journal.Mutation.{
  JournalMutation, privileged_enroll, prepare_transition, finalize_prepared, privileged_retire,
}
use hns_rs.Journal.Lifecycle.{next_mutation_lem, enroll_lem, prepare_lem, finalize_lem, retire_lem}

-- The protocol revision below which a state accepts no database.
abbrev pub floor : JournalState → ℕ
floor never_initialized = 0
floor (stable current) = current.identity.revision
floor (prepared id old new) = old.identity.revision
floor (retired last id) = last.revision

module _ ⦃blake : Blake2b⦄ where
  -- One transition that the journal accepts, under any lease, database and argument.
  pub data Step (r : JournalRecord) : JournalRecord → Type 0 where
    enroll :
        (lease : JournalLeaseContext) (db : DatabaseObservation) (current : SnapshotImage)
        (m : JournalMutation)
        → privileged_enroll r lease db current ≡ ok m
        → Step r m.proposed
    prepare :
        (lease : JournalLeaseContext) (db : DatabaseObservation) (new : SnapshotImage)
        (m : JournalMutation)
        → prepare_transition r lease db new ≡ ok m
        → Step r m.proposed
    finalize :
        (lease : JournalLeaseContext) (db : DatabaseObservation) (m : JournalMutation)
        → finalize_prepared r lease db ≡ ok m
        → Step r m.proposed
    retire :
        (lease : JournalLeaseContext) (db : DatabaseObservation) (m : JournalMutation)
        → privileged_retire r lease db ≡ ok m
        → Step r m.proposed

  pub data Run (r : JournalRecord) : ℕ → JournalRecord → Type 0 where
    done : Run r zero r
    next : {n : ℕ} {s t : JournalRecord} → Run r n s → Step s t → Run r (suc n) t

  -- The database under which a transition was accepted.
  abbrev pub database : {r s : JournalRecord} → Step r s → DatabaseObservation
  database (enroll lease db current m h) = db
  database (prepare lease db new m h) = db
  database (finalize lease db m h) = db
  database (retire lease db m h) = db

  -- What one step does to the binding, the revision and the floor.
  record Advances (r s : JournalRecord) : Type 0 where
    same_binding : s.binding ≡ r.binding
    counted : s.journal_revision ≡ r.journal_revision + 1
    floor_kept : floor r.state ≤ floor s.state
    valid : validate s ≡ ok tt

  prepared_advances :
      (r : JournalRecord) (id : Bytes) (old new : SnapshotImage)
      → r.state ≡ prepared id old new
      → validate r ≡ ok tt
      → old.identity.revision < new.identity.revision
  unfolding validate
  prepared_advances r id old new e h = ground arith

  Step-Advances : {r s : JournalRecord} → validate r ≡ ok tt → Step r s → Advances r s
  Step-Advances {r} v (enroll lease db current m h) =
      ground
        (arith, enroll_lem r lease db current m h, next_mutation_lem r lease (stable current) m)
  Step-Advances {r} v (prepare lease db new m h) =
      let (old, e, p, lt, k) = prepare_lem r lease db new m h in
      ground (arith, next_mutation_lem r lease _ m k)
  Step-Advances {r} v (finalize lease db m h) =
      let (id, old, new, e, p, k) = finalize_lem r lease db m h in
      ground (arith, next_mutation_lem r lease _ m k, prepared_advances r id old new e v)
  Step-Advances {r} v (retire lease db m h) =
      let (current, e, p, k) = retire_lem r lease db m h in
      ground (arith, next_mutation_lem r lease _ m k)

  -- A run of `n` accepted transitions from a valid record keeps the binding, adds `n` to the journal
  -- revision, never lowers the protocol revision that the record protects, and ends in a valid record.
  pub Run-monotone :
      {r s : JournalRecord} {n : ℕ}
      → validate r ≡ ok tt
      → Run r n s
      → (s.binding ≡ r.binding)
        × (s.journal_revision ≡ r.journal_revision + n)
        × (floor r.state ≤ floor s.state)
        × (validate s ≡ ok tt)
  Run-monotone v done = (refl, omega arith, omega arith, v)
  Run-monotone v (next run step) =
      let (b, c, f, w) = Run-monotone v run in
      let a = Step-Advances w step in
      (a.same_binding ∙ b, omega (arith, a.counted), omega (arith, a.floor_kept), a.valid)

  retired_stuck :
      {r s : JournalRecord} {last : StateIdentity} {id : Bytes}
      → r.state ≡ retired last id
      → ¬ (Step r s)
  retired_stuck {r} e (enroll lease db current m h) =
      ground (arith, enroll_lem r lease db current m h)
  retired_stuck {r} e (prepare lease db new m h) = ground (arith, prepare_lem r lease db new m h)
  retired_stuck {r} e (finalize lease db m h) = ground (arith, finalize_lem r lease db m h)
  retired_stuck {r} e (retire lease db m h) = ground (arith, retire_lem r lease db m h)

  -- Retirement is terminal: no transition is accepted from a retired record, so that a run from it
  -- has no step and ends in the same record.
  pub retired_terminal :
      {r s : JournalRecord} {n : ℕ} {last : StateIdentity} {id : Bytes}
      → r.state ≡ retired last id
      → Run r n s
      → (n ≡ 0) × (s ≡ r)
  retired_terminal e done = (refl, refl)
  retired_terminal e (next run step) =
      let (z, same) = retired_terminal e run in
      absurd (retired_stuck (ap (λ (q : JournalRecord). q.state) same ∙ e) step)

  Step_database :
      {r s : JournalRecord}
      → validate r ≡ ok tt
      → (st : Step r s)
      → (seen : StateIdentity) × (database st ≡ present seen) × (floor r.state ≤ seen.revision)
  Step_database {r} v (enroll lease db current m h) =
      let (e, p, k) = enroll_lem r lease db current m h in
      (current.identity, eq_of_is_present db _ p, ground arith)
  Step_database {r} v (prepare lease db new m h) =
      let (old, e, p, lt, k) = prepare_lem r lease db new m h in
      (old.identity, eq_of_is_present db _ p, ground arith)
  Step_database {r} v (finalize lease db m h) =
      let (id, old, new, e, p, k) = finalize_lem r lease db m h in
      (new.identity, eq_of_is_present db _ p, ground (arith, prepared_advances r id old new e v))
  Step_database {r} v (retire lease db m h) =
      let (current, e, p, k) = retire_lem r lease db m h in
      (current.identity, eq_of_is_present db _ p, ground arith)

  -- No rollback: after any run from a valid record, every transition that is accepted saw a present
  -- database whose protocol revision is at least the one that the first record protects.
  pub Run-no_rollback :
      {r s t : JournalRecord} {n : ℕ}
      → validate r ≡ ok tt
      → Run r n s
      → (st : Step s t)
      → (seen : StateIdentity) × (database st ≡ present seen) × (floor r.state ≤ seen.revision)
  Run-no_rollback v run st =
      let (b, c, f, w) = Run-monotone v run in
      let (seen, e, g) = Step_database w st in (seen, e, omega arith)
