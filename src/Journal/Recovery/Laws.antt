-- ===== src/Journal/Recovery/Laws.antt =====
-- What following a recovery plan does to the database, and that it is safe and comes to an end.
use hns_rs.Base.{
  ◌<◌, ◌≡◌, refl, ap, subst, ◌∙◌, ◌↔◌, ◌⊎◌, inl, inr, arith, Option, none, some, ok, Bool-cases,
}
use hns_rs.Base.Bytes.{Bytes}
use mathlib.Core.Path.{fun_ext}
use hns_rs.Hash.{Blake2b}
use hns_rs.Journal.Binding.{JournalBinding, binding_eq, eq_of_binding_eq, binding_eq_refl}
use hns_rs.Journal.Snapshot.{
  SnapshotImage, DatabaseObservation, absent, present, eq_of_identity_eq, identity_eq_refl,
}
use hns_rs.Journal.Record.{
  JournalState, JournalRecord, never_initialized, stable, prepared, retired, validate,
}
use hns_rs.Journal.Recovery.{
  RecoveryPlan, FailClosedReason, not_enrolled, already_retired, binding_mismatch, ready,
  restore_stable_then_reread, retry_prepared_database_cas, restore_prepared_old_then_reread,
  finalize_prepared_plan, fail_closed, plan_stable, plan_prepared, plan_state, recovery_plan,
  plan_recovery,
}

-- The database that a plan replaces, and the image that it puts there.
abbrev pub target : RecoveryPlan → Option (DatabaseObservation × SnapshotImage)
target (ready current) = none
target (restore_stable_then_reread expected current) = some (expected, current)
target (retry_prepared_database_cas id old proposed) = some (present old, proposed)
target (restore_prepared_old_then_reread id expected old) = some (expected, old)
target (finalize_prepared_plan id) = none
target (fail_closed reason) = none

-- The database after the write of a plan, which the embedding makes as an exact compare-and-swap.
abbrev pub write : RecoveryPlan → DatabaseObservation → DatabaseObservation
write p db = elim (target p) [ none ↦ db | some (e, i) ↦ present i.identity ]

-- Nothing is there, or something older than `i`.
abbrev pub IsOlder : DatabaseObservation → SnapshotImage → Type 0
IsOlder absent i = Unit {0}
IsOlder (present seen) i = seen.revision < i.identity.revision

prepared_order :
    ⦃blake : Blake2b⦄ (r : JournalRecord) (id : Bytes) (old new : SnapshotImage)
    → r.state ≡ prepared id old new
    → validate r ≡ ok tt
    → old.identity.revision < new.identity.revision
unfolding validate
prepared_order r id old new e h = ground arith

stable_safe :
    (current i : SnapshotImage) (db e : DatabaseObservation)
    → target (plan_stable current db) ≡ some (e, i)
    → (e ≡ db) × IsOlder db i × (i ≡ current)
unfolding plan_stable
stable_safe current i absent e h = ground arith
stable_safe current i (present seen) e h = ground arith

prepared_safe :
    (id : Bytes) (old new i : SnapshotImage) (db e : DatabaseObservation)
    → old.identity.revision < new.identity.revision
    → target (plan_prepared id old new db) ≡ some (e, i)
    → (e ≡ db) × IsOlder db i
unfolding plan_prepared
prepared_safe id old new i absent e lt h = ground arith
prepared_safe id old new i (present seen) e lt h =
    ground (arith, eq_of_identity_eq seen old.identity)

plan_state_safe :
    ⦃blake : Blake2b⦄ (r : JournalRecord) (s : JournalState) (db e : DatabaseObservation)
    (i : SnapshotImage)
    → r.state ≡ s
    → validate r ≡ ok tt
    → target (plan_state s db) ≡ some (e, i)
    → (e ≡ db) × IsOlder db i
plan_state_safe r never_initialized db e i q v h = unfold plan_state in cc
plan_state_safe r (retired last id) db e i q v h = unfold plan_state in cc
plan_state_safe r (stable current) db e i q v h =
    let (a, b, c) = stable_safe current i db e (unfold plan_state in h) in (a, b)
plan_state_safe r (prepared id old new) db e i q v h =
    prepared_safe id old new i db e (prepared_order r id old new q v) (unfold plan_state in h)

-- A recovery plan that writes to the database does so for a record of the expected binding, expects
-- exactly the observed database, and puts its image where nothing or an older revision is: on a
-- valid record, recovery never replaces a database of the image's revision or a later one.
pub recovery_safe :
    ⦃blake : Blake2b⦄ (b : JournalBinding) (r : JournalRecord) (db e : DatabaseObservation)
    (i : SnapshotImage)
    → validate r ≡ ok tt
    → target (plan_recovery b (some r) db) ≡ some (e, i)
    → (r.binding ≡ b) × (e ≡ db) × IsOlder db i
unfolding recovery_plan plan_recovery
recovery_safe b r db e i v h = elim (Bool-cases (binding_eq r.binding b)) [
  | inl same ↦
      let (x, y) = plan_state_safe r r.state db e i refl v (rw same at h) in
      (eq_of_binding_eq r.binding b same, x, y)
  | inr other ↦ cc (rw other at h)
]

plan_state_ready :
    (s : JournalState) (db : DatabaseObservation) (c : SnapshotImage)
    → plan_state s db ≡ ready c
    → (s ≡ stable c) × (db ≡ present c.identity)
unfolding plan_state
plan_state_ready never_initialized db c h = cc
plan_state_ready (retired last id) db c h = cc
plan_state_ready (prepared id old new) absent c h = cc
plan_state_ready (prepared id old new) (present seen) c h = ground arith
plan_state_ready (stable current) absent c h = cc
plan_state_ready (stable current) (present seen) c h =
    ground (arith, eq_of_identity_eq seen current.identity)

recovery_ready :
    (b : JournalBinding) (r : JournalRecord) (db : DatabaseObservation) (c : SnapshotImage)
    → plan_recovery b (some r) db ≡ ready c
    → (r.binding ≡ b) × (r.state ≡ stable c) × (db ≡ present c.identity)
unfolding plan_recovery
recovery_ready b r db c h = elim (Bool-cases (binding_eq r.binding b)) [
  | inl same ↦
      let (x, y) = plan_state_ready r.state db c (rw same at h) in
      (eq_of_binding_eq r.binding b same, x, y)
  | inr other ↦ cc (rw other at h)
]

stable_ready : (c : SnapshotImage) → plan_stable c (present c.identity) ≡ ready c
unfolding plan_stable
stable_ready c = rw (identity_eq_refl c.identity)

ready_recovery :
    (b : JournalBinding) (r : JournalRecord) (db : DatabaseObservation) (c : SnapshotImage)
    → (r.binding ≡ b) × (r.state ≡ stable c) × (db ≡ present c.identity)
    → plan_recovery b (some r) db ≡ ready c
unfolding plan_recovery
ready_recovery b r db c (x, y, z) = rw (x, y, z, binding_eq_refl b) (stable_ready c)

-- `Ready` is planned exactly for a stable record of the expected binding whose current identity is
-- the one that the database holds.
pub recovery_ready_iff :
    (b : JournalBinding) (r : JournalRecord) (db : DatabaseObservation) (c : SnapshotImage)
    → (plan_recovery b (some r) db ≡ ready c)
      ↔ ((r.binding ≡ b) × (r.state ≡ stable c) × (db ≡ present c.identity))
recovery_ready_iff b r db c = (recovery_ready b r db c, ready_recovery b r db c)

-- The state of things after following plans.
abbrev follow : (DatabaseObservation → RecoveryPlan) → DatabaseObservation → DatabaseObservation
follow plan db = write (plan db) db

module _ (id : Bytes) (old new : SnapshotImage)
    (lt : old.identity.revision < new.identity.revision) where
  plan_at_new : plan_prepared id old new (present new.identity) ≡ finalize_prepared_plan id
  unfolding plan_prepared
  plan_at_new =
      ground (arith, identity_eq_refl new.identity, eq_of_identity_eq new.identity old.identity)

  follow-old : follow (plan_prepared id old new) (present old.identity) ≡ present new.identity
  unfolding plan_prepared
  follow-old = ground (arith, identity_eq_refl old.identity)

  follow-new : follow (plan_prepared id old new) (present new.identity) ≡ present new.identity
  follow-new = rw plan_at_new

  follow_cases :
      (db : DatabaseObservation)
      → ((reason : FailClosedReason) × (plan_prepared id old new db ≡ fail_closed reason))
        ⊎ ((follow (plan_prepared id old new) db ≡ present old.identity)
            ⊎ (follow (plan_prepared id old new) db ≡ present new.identity))
  unfolding plan_prepared
  follow_cases absent = inr (inl refl)
  follow_cases (present seen) = ground (arith, eq_of_identity_eq seen new.identity)

  prepared_settles :
      (db : DatabaseObservation)
      → ((reason : FailClosedReason) × (plan_prepared id old new db ≡ fail_closed reason))
        ⊎ (follow (plan_prepared id old new) (follow (plan_prepared id old new) db)
            ≡ present new.identity)
  prepared_settles db = elim (follow_cases db) [
    | inl bad ↦ inl bad
    | inr (inl e) ↦ inr (ap (follow (plan_prepared id old new)) e ∙ follow-old)
    | inr (inr e) ↦ inr (ap (follow (plan_prepared id old new)) e ∙ follow-new)
  ]

-- Where following the plans of a record ends.
pub data Settled (r : JournalRecord) (plan : DatabaseObservation → RecoveryPlan)
    (db : DatabaseObservation) : Type 0 where
  refused : (reason : FailClosedReason) → plan db ≡ fail_closed reason → Settled r plan db
  is_ready :
      (c : SnapshotImage)
      → r.state ≡ stable c
      → follow plan (follow plan db) ≡ present c.identity
      → plan (follow plan (follow plan db)) ≡ ready c
      → Settled r plan db
  is_final :
      (id : Bytes) (old new : SnapshotImage)
      → r.state ≡ prepared id old new
      → follow plan (follow plan db) ≡ present new.identity
      → plan (follow plan (follow plan db)) ≡ finalize_prepared_plan id
      → Settled r plan db

follow_stable :
    (c : SnapshotImage) (db : DatabaseObservation)
    → ((reason : FailClosedReason) × (plan_stable c db ≡ fail_closed reason))
      ⊎ (follow (plan_stable c) db ≡ present c.identity)
unfolding plan_stable
follow_stable c absent = inr refl
follow_stable c (present seen) = ground (arith, eq_of_identity_eq seen c.identity)

state_settles :
    ⦃blake : Blake2b⦄ (r : JournalRecord) (s : JournalState) (db : DatabaseObservation)
    → r.state ≡ s
    → validate r ≡ ok tt
    → Settled r (plan_state s) db
unfolding plan_state
state_settles r never_initialized db e v = refused not_enrolled refl
state_settles r (retired last id) db e v = refused already_retired refl
state_settles r (stable c) db e v = elim (follow_stable c db) [
  | inl (reason, bad) ↦ refused reason bad
  | inr f ↦
      let again : follow (plan_stable c) (follow (plan_stable c) db) ≡ present c.identity =
        rw (f, stable_ready c) in
      is_ready c e again (rw again (stable_ready c))
]
state_settles r (prepared id old new) db e v =
    let lt = prepared_order r id old new e v in
    elim (prepared_settles id old new lt db) [
      | inl (reason, bad) ↦ refused reason bad
      | inr f ↦ is_final id old new e f (rw f (plan_at_new id old new lt))
    ]

-- Recovery comes to an end: on a valid record, either the first plan fails closed, or after at most
-- two plans with their database writes the database holds the current image of a stable record and
-- the plan is `Ready`, or it holds the new image of a prepared record and the plan is to finalize.
pub recovery_settles :
    ⦃blake : Blake2b⦄ (b : JournalBinding) (r : JournalRecord) (db : DatabaseObservation)
    → validate r ≡ ok tt
    → Settled r (plan_recovery b (some r)) db
unfolding plan_recovery
recovery_settles b r db v = elim (Bool-cases (binding_eq r.binding b)) [
  | inl same ↦
      subst (λ plan. Settled r plan db) (fun_ext (λ d. unfold plan_recovery in rw same))
        (state_settles r r.state db refl v)
  | inr other ↦ refused binding_mismatch (rw other)
]
