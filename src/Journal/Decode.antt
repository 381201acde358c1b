-- ===== src/Journal/Decode.antt =====
-- crates/hns-rollback-journal/src/lib.rs: the decoders of the binding, the snapshots and the record.
use hns_rs.Base.{◌==◌, if◌then◌else◌}
use hns_rs.Base.Bytes.{bytes_eq}
use hns_rs.Encoding.Decoder.{
  Parser, ◌>>=◌, ◌>>◌, pure, fail, ensure, lift, read_array, read_u8, read_u16_le, read_u32_le,
  read_u64_le, read_varbytes, new,
}
use hns_rs.Journal.Binding.{
  JournalError, invalid, JournalBinding, new_binding, decode_class, from_decoder, magic,
  format_version, max_sealed_snapshot_size,
}
use hns_rs.Journal.Snapshot.{StateIdentity, SealedSnapshot, SnapshotImage, new_sealed}
use hns_rs.Journal.Record.{
  JournalState, JournalRecord, never_initialized, stable, prepared, retired,
}

unfoldable pub decode_binding : Parser JournalError JournalBinding
decode_binding = do
  installation_lineage ← from_decoder (read_array 32)
  network_magic ← from_decoder read_u32_le
  role_id ← from_decoder (read_array 32)
  storage_namespace_id ← from_decoder (read_array 32)
  logical_key ← from_decoder (read_array 32)
  protocol_id ← from_decoder (read_array 32)
  protocol_version ← from_decoder read_u16_le
  aead_suite ← from_decoder read_u16_le
  key_version ← from_decoder read_u32_le
  key_id ← from_decoder (read_array 32)
  class ← from_decoder read_u8
  protection ← lift (decode_class class)
  lift (
      new_binding (record {
        installation_lineage = installation_lineage;
        network_magic = network_magic;
        role_id = role_id;
        storage_namespace_id = storage_namespace_id;
        logical_key = logical_key;
        protocol_id = protocol_id;
        protocol_version = protocol_version;
        aead_suite = aead_suite;
        key_version = key_version;
        key_id = key_id;
        protection = protection;
      }))

unfoldable pub decode_identity : Parser JournalError StateIdentity
decode_identity = do
  revision ← from_decoder read_u64_le
  protocol_fingerprint ← from_decoder (read_array 32)
  byte_fingerprint ← from_decoder (read_array 32)
  pure (record {
    revision = revision;
    protocol_fingerprint = protocol_fingerprint;
    byte_fingerprint = byte_fingerprint;
  })

unfoldable pub decode_sealed : Parser JournalError SealedSnapshot
decode_sealed = do
  plaintext_len ← from_decoder read_u32_le
  ciphertext ← from_decoder (read_varbytes max_sealed_snapshot_size "sealed snapshot")
  lift (new_sealed plaintext_len ciphertext)

unfoldable pub decode_image : Parser JournalError SnapshotImage
decode_image = do
  identity ← decode_identity
  sealed ← decode_sealed
  pure (record { identity = identity; sealed = sealed })

unfoldable pub decode_stable : Parser JournalError JournalState
decode_stable = do current ← decode_image; pure (stable current)

unfoldable pub decode_prepared : Parser JournalError JournalState
decode_prepared = do
  transition_id ← from_decoder (read_array 32)
  old ← decode_image
  new ← decode_image
  pure (prepared transition_id old new)

unfoldable pub decode_retired : Parser JournalError JournalState
decode_retired = do
  last ← decode_identity
  retirement_id ← from_decoder (read_array 32)
  pure (retired last retirement_id)

-- The branch on the tag of a state.
unfoldable pub decode_state : Parser JournalError JournalState
decode_state = do
  tag ← from_decoder read_u8
  if tag == 0
      then pure never_initialized
      else if tag == 1
      then decode_stable
      else if tag == 2
      then decode_prepared
      else if tag == 3
      then decode_retired
      else fail (invalid "unknown journal state")

-- The fields of a record behind its length and checksum checks.
unfoldable pub decode_fields : Parser JournalError JournalRecord
decode_fields = do
  read_magic ← from_decoder (read_array 8)
  ensure (bytes_eq read_magic magic) (invalid "invalid journal magic")
  version ← from_decoder read_u16_le
  ensure (version == format_version) (invalid "unsupported journal format version")
  binding ← decode_binding
  journal_revision ← from_decoder read_u64_le
  state ← decode_state
  pure (record { binding = binding; journal_revision = journal_revision; state = state })
