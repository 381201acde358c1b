-- ===== src/Tests/Journal.antt =====
-- The theorems on the journal of crates/hns-rollback-journal/src/lib.rs at a concrete record.
use hns_rs.Base.{
  ℕ, ◌+◌, ◌-◌, ◌%◌, ◌^◌, ◌<◌, ◌≤◌, ◌≡◌, ◌≢◌, ◌↔◌, ◌⊎◌, refl, true, some, ok, replicate, length,
  arith,
}
use hns_rs.Base.Bytes.{
  Bytes, to_le_bytes, from_le_bytes, length-to_le_bytes, bytes_eq, bytes_eq_refl,
}
use hns_rs.Hash.{Blake2b, length-hash32, Collision}
use hns_rs.Journal.Binding.{
  JournalBinding, JournalLeaseContext, hardware_monotonic, is_zero, binding_fingerprint, binding_eq,
  class_u8,
}
use hns_rs.Journal.Snapshot.{
  StateIdentity, SnapshotImage, present, absent, is_present, identity_eq_refl,
}
use hns_rs.Journal.Record.{
  JournalRecord, stable, prepared, retired, validate, encode, transition_id,
}
use hns_rs.Journal.Codec.{decode}
use hns_rs.Journal.RoundTrip.{IsBinding, IsImage}
use hns_rs.Journal.RoundTrip.Records.{IsRecord, decode-encode}
use hns_rs.Journal.Mutation.{
  JournalMutation, prepare_transition, finalize_prepared, ensure_lease_binding, expect_stable,
  next_mutation, reconcile, committed, retry_exact, fail_closed_conflict,
}
use hns_rs.Journal.Mutation.Reconcile.{IsStored, reconcile_decides}
use hns_rs.Journal.Lifecycle.Progress.{mutation, finalize_prepared_accepts, prepare_then_finalize}
use hns_rs.Journal.Lifecycle.Runs.{
  Step, prepare, finalize, done, next, floor, database, Run-monotone, Run-no_rollback,
  retired_terminal,
}
use hns_rs.Journal.Recovery.{plan_recovery, ready}
use hns_rs.Journal.Recovery.Laws.{
  IsOlder, Settled, recovery_safe, recovery_ready_iff, recovery_settles,
}

-- A hash function in the place of BLAKE2b: the message as a number, modulo 2^256 - 189.
message_digest : Bytes → Bytes
message_digest message = to_le_bytes 32 (from_le_bytes message % (2 ^ 256 - 189))

length-message_digest : (message : Bytes) → length (message_digest message) ≡ 32
unfolding message_digest
length-message_digest message = length-to_le_bytes 32 (from_le_bytes message % (2 ^ 256 - 189))

instance abbrev modular : Blake2b
modular = record { digest = message_digest; length-digest = length-message_digest }

abbrev sample_binding : JournalBinding
sample_binding = record {
  installation_lineage = replicate 32 1;
  network_magic = 0x5b6ef2d3;
  role_id = replicate 32 2;
  storage_namespace_id = replicate 32 3;
  logical_key = replicate 32 0;
  protocol_id = replicate 32 4;
  protocol_version = 1;
  aead_suite = 1;
  key_version = 7;
  key_id = replicate 32 5;
  protection = hardware_monotonic;
}

-- A snapshot of no plaintext at the given revision.
abbrev sample_image : ℕ → SnapshotImage
sample_image revision = record {
  identity = record {
    revision = revision;
    protocol_fingerprint = replicate 32 6;
    byte_fingerprint = replicate 32 8;
  };
  sealed = record { plaintext_len = 0; ciphertext = replicate 28 9 };
}

abbrev sample : JournalRecord
sample = record { binding = sample_binding; journal_revision = 1; state = stable (sample_image 10) }

sample_binding-IsBinding : IsBinding sample_binding
unfolding is_zero
sample_binding-IsBinding = record {
  lineage = refl;
  lineage_nonzero = refl;
  network = omega arith;
  role = refl;
  role_nonzero = refl;
  storage = refl;
  storage_nonzero = refl;
  logical = refl;
  protocol = refl;
  protocol_nonzero = refl;
  version = omega arith;
  suite = refl;
  key_version_range = omega arith;
  key = refl;
  key_nonzero = refl;
}

sample_image-IsImage : (revision : ℕ) → revision < 2 ^ 64 → IsImage (sample_image revision)
sample_image-IsImage revision h = record {
  identity_part = record { revision_range = h; protocol_length = refl; byte_length = refl };
  sealed_part = record { plaintext_bound = omega arith; ciphertext_length = refl };
}

sample-IsRecord : IsRecord sample
sample-IsRecord = record {
  binding_part = sample_binding-IsBinding;
  revision_range = omega arith;
  state_part = sample_image-IsImage 10 (omega arith);
}

sample_valid : validate sample ≡ ok tt
unfolding validate
sample_valid = refl

decode-encode_example : decode (encode sample) ≡ ok sample
decode-encode_example = decode-encode sample sample-IsRecord sample_valid

-- The next state of the protocol database, and the two phases that lead to it.
abbrev old_image : SnapshotImage
old_image = sample_image 10

abbrev new_image : SnapshotImage
new_image = sample_image 11

abbrev lease : JournalLeaseContext
lease = record { binding_fingerprint = binding_fingerprint sample_binding; fencing_token = 3 }

abbrev prepare_mutation : JournalMutation
prepare_mutation =
    mutation sample lease
      (prepared (transition_id sample_binding old_image new_image) old_image new_image)

prepare_accepted :
    prepare_transition sample lease (present old_image.identity) new_image ≡ ok prepare_mutation
unfolding prepare_transition ensure_lease_binding expect_stable next_mutation validate is_present
prepare_accepted = ground (
  arith,
  bytes_eq_refl (binding_fingerprint sample_binding),
  identity_eq_refl old_image.identity,
  bytes_eq_refl (transition_id sample_binding old_image new_image),
)

prepared_valid : validate prepare_mutation.proposed ≡ ok tt
unfolding validate
prepared_valid = ground (arith, bytes_eq_refl (transition_id sample_binding old_image new_image))

new_is_present : is_present (present new_image.identity) new_image.identity ≡ true
unfolding is_present
new_is_present = identity_eq_refl new_image.identity

old_is_present : is_present (present old_image.identity) old_image.identity ≡ true
unfolding is_present
old_is_present = identity_eq_refl old_image.identity

finalize_prepared_accepts_example :
    finalize_prepared prepare_mutation.proposed lease (present new_image.identity)
    ≡ ok (mutation prepare_mutation.proposed lease (stable new_image))
finalize_prepared_accepts_example =
    finalize_prepared_accepts prepare_mutation.proposed lease (present new_image.identity)
      (transition_id sample_binding old_image new_image) old_image new_image prepared_valid
      (omega arith) refl refl new_is_present

prepare_then_finalize_example :
    (m : JournalMutation) × (finalize_prepared prepare_mutation.proposed lease
        (present new_image.identity)
      ≡ ok m)
    × (m.proposed ≡ record sample { journal_revision = 1 + 2; state = stable new_image })
prepare_then_finalize_example =
    prepare_then_finalize sample lease (present old_image.identity) new_image prepare_mutation
      prepare_accepted

one_step : Step sample prepare_mutation.proposed
one_step = prepare lease (present old_image.identity) new_image prepare_mutation prepare_accepted

Run-monotone_example :
    (prepare_mutation.proposed.binding ≡ sample.binding)
    × (prepare_mutation.proposed.journal_revision ≡ 1 + 1)
    × (floor sample.state ≤ floor prepare_mutation.proposed.state)
    × (validate prepare_mutation.proposed ≡ ok tt)
Run-monotone_example = Run-monotone sample_valid (next done one_step)

finalize_step :
    Step prepare_mutation.proposed
      (mutation prepare_mutation.proposed lease (stable new_image)).proposed
finalize_step = finalize lease (present new_image.identity) _ finalize_prepared_accepts_example

Run-no_rollback_example :
    (seen : StateIdentity) × (database finalize_step ≡ present seen)
    × (floor sample.state ≤ seen.revision)
Run-no_rollback_example = Run-no_rollback sample_valid (next done one_step) finalize_step

abbrev retired_sample : JournalRecord
retired_sample = record sample {
  journal_revision = 2;
  state = retired old_image.identity (replicate 32 1);
}

retired_terminal_example : (◌≡◌ {A = ℕ} 0 0) × (retired_sample ≡ retired_sample)
retired_terminal_example =
    retired_terminal {r = retired_sample} {s = retired_sample} {last = old_image.identity}
      {id = replicate 32 1} refl done

recovery_safe_example :
    (sample_binding ≡ sample_binding) × (absent ≡ absent) × IsOlder absent old_image
unfolding plan_recovery binding_eq bytes_eq class_u8
recovery_safe_example =
    recovery_safe sample_binding sample absent absent old_image sample_valid refl

recovery_ready_iff_example :
    (plan_recovery sample_binding (some sample) (present old_image.identity) ≡ ready old_image) ↔ (
      (sample.binding ≡ sample_binding)
      × (sample.state ≡ stable old_image)
      × (present old_image.identity ≡ present old_image.identity))
recovery_ready_iff_example =
    recovery_ready_iff sample_binding sample (present old_image.identity) old_image

recovery_settles_example :
    Settled prepare_mutation.proposed
      (plan_recovery sample_binding (some prepare_mutation.proposed))
      absent
recovery_settles_example =
    recovery_settles sample_binding prepare_mutation.proposed absent prepared_valid

sample-IsStored : IsStored sample
sample-IsStored = record { ranges = sample-IsRecord; valid = sample_valid }

prepared-IsStored : IsStored prepare_mutation.proposed
unfolding transition_id
prepared-IsStored = record {
  ranges = record {
    binding_part = sample_binding-IsBinding;
    revision_range = omega arith;
    state_part = (
      length-hash32 _ _,
      sample_image-IsImage 10 (omega arith),
      sample_image-IsImage 11 (omega arith),
    );
  };
  valid = prepared_valid;
}

next_of_prepare :
    next_mutation sample lease
      (prepared (transition_id sample_binding old_image new_image) old_image new_image)
    ≡ ok prepare_mutation
unfolding next_mutation validate
next_of_prepare = ground (arith, bytes_eq_refl (transition_id sample_binding old_image new_image))

reconcile_decides_example :
    ((reconcile prepare_mutation (some sample) ≡ committed) × (sample ≡ prepare_mutation.proposed))
    ⊎ (((reconcile prepare_mutation (some sample) ≡ retry_exact) × (sample ≡ sample))
        ⊎ (((reconcile prepare_mutation (some sample) ≡ fail_closed_conflict)
              × (sample ≢ prepare_mutation.proposed)
              × (sample ≢ sample))
            ⊎ Collision))
reconcile_decides_example =
    reconcile_decides sample lease
      (prepared (transition_id sample_binding old_image new_image) old_image new_image)
      prepare_mutation next_of_prepare sample sample-IsStored prepared-IsStored sample-IsStored
