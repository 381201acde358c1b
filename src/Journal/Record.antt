-- ===== src/Journal/Record.antt =====
-- crates/hns-rollback-journal/src/lib.rs: the journal record, its validation, its canonical bytes and
-- its fingerprints.
use hns_rs.Base.{ℕ, ◌%◌, Bool, not, ◌||◌, [], ◌∷◌, ◌++◌, ltb, leb, ◌==◌, ◌|>◌, Result, ◌>>◌, ensure}
use hns_rs.Base.Bytes.{Bytes, bytes_eq}
use hns_rs.Hash.{Blake2b, hash32}
use hns_rs.Encoding.Encoder.{
  Encoder, with_capacity, put_bytes, put_u8, put_u16_le, put_u64_le, into_bytes,
}
use hns_rs.Journal.Binding.{
  JournalError, invalid, JournalBinding, encode_binding, binding_fingerprint, format_version, magic,
  checksum_domain, record_fingerprint_domain, transition_id_domain, retirement_id_domain,
}
use hns_rs.Journal.Snapshot.{
  StateIdentity, SnapshotImage, encode_identity, encode_image, image_fingerprint,
}

pub data JournalState : Type 0 where
  never_initialized : JournalState
  stable : (current : SnapshotImage) → JournalState
  prepared : (transition_id : Bytes) (old new : SnapshotImage) → JournalState
  retired : (last : StateIdentity) (retirement_id : Bytes) → JournalState

pub record JournalRecord : Type 0 where
  pub binding : JournalBinding
  pub journal_revision : ℕ
  pub state : JournalState

-- `is_multiple_of(2)`
abbrev pub is_even : ℕ → Bool
is_even n = n % 2 == 0

unfoldable pub encode_state : JournalState → Encoder → Encoder
encode_state never_initialized encoder = encoder |> put_u8 0
encode_state (stable current) encoder = encoder |> put_u8 1 |> encode_image current
encode_state (prepared id old new) encoder =
    encoder |> put_u8 2 |> put_bytes id |> encode_image old |> encode_image new
encode_state (retired last id) encoder = encoder |> put_u8 3 |> encode_identity last |> put_bytes id

-- The bytes before the checksum. The capacity reserves memory only.
unfoldable pub encode_body : JournalRecord → Bytes
encode_body r = into_bytes (
    with_capacity 320
    |> put_bytes magic
    |> put_u16_le format_version
    |> encode_binding r.binding
    |> put_u64_le r.journal_revision
    |> encode_state r.state)

module _ ⦃blake : Blake2b⦄ where
  unfoldable pub transition_id : JournalBinding → SnapshotImage → SnapshotImage → Bytes
  transition_id binding old new =
      hash32 transition_id_domain
        (binding_fingerprint binding ∷ image_fingerprint old ∷ image_fingerprint new ∷ [])

  unfoldable pub retirement_id : JournalBinding → StateIdentity → Bytes → Bytes
  retirement_id binding last prior_record = hash32 retirement_id_domain (
      binding_fingerprint binding
      ∷ into_bytes (with_capacity 72 |> encode_identity last)
      ∷ prior_record
      ∷ [])

  unfoldable pub journal_checksum : Bytes → Bytes
  journal_checksum bytes = hash32 checksum_domain (bytes ∷ [])

  unfoldable pub encode : JournalRecord → Bytes
  encode r = let bytes = encode_body r in bytes ++ journal_checksum bytes

  unfoldable pub fingerprint : JournalRecord → Bytes
  fingerprint r = hash32 record_fingerprint_domain (encode r ∷ [])

  -- The checks of `validate` on each state, at the binding and the journal revision.
  unfoldable pub validate_state : JournalBinding → ℕ → JournalState → Result JournalError (Unit {0})
  validate_state binding revision never_initialized =
      ensure (revision == 0) (invalid "NeverInitialized must have journal revision zero")
  validate_state binding revision (stable current) =
      ensure (not (revision == 0 || is_even revision))
        (invalid "Stable journal revision must be odd")
  validate_state binding revision (prepared id old new) = do
    ensure (not (ltb revision 2 || not (is_even revision)))
        (invalid "Prepared journal revision must be even and finalizable")
    ensure (not (leb new.identity.revision old.identity.revision))
        (invalid "Prepared protocol revision does not advance")
    ensure (bytes_eq id (transition_id binding old new)) (invalid "prepared transition ID mismatch")
  validate_state binding revision (retired last id) =
      ensure (not (ltb revision 2 || not (is_even revision)))
        (invalid "Retired journal revision must be even")

  unfoldable pub validate : JournalRecord → Result JournalError (Unit {0})
  unfolding validate_state
  validate r = validate_state r.binding r.journal_revision r.state
