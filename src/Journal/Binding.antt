-- ===== src/Journal/Binding.antt =====
-- crates/hns-rollback-journal/src/lib.rs: constants, errors, the protection class, the lease context and
-- the binding of a journal namespace. A newtype over `[u8; 32]` is a byte string.
use hns_rs.Base.{
  ◌≡◌, arith, ℕ, ◌+◌, ◌*◌, Bool, true, false, ◌&&◌, Option, none, some, List, [], ◌∷◌, ◌++◌, String,
  ◌==◌, if◌then◌else◌, ◌|>◌, Result, ok, err, ◌>>=◌, ◌>>◌, ensure, ok_or,
}
use hns_rs.Base.Bytes.{Bytes, codes, bytes_eq, eq_of_bytes_eq, bytes_eq_refl}
use hns_rs.Hash.{Blake2b, hash32}
use hns_rs.Encoding.Decoder.{DecodeError, Parser, convert}
use hns_rs.Encoding.Encoder.{
  Encoder, with_capacity, put_bytes, put_u8, put_u16_le, put_u32_le, into_bytes,
}

abbrev pub format_version : ℕ
format_version = 1

abbrev pub magic : Bytes
magic = codes "HNSRBJ1" ++ (0 ∷ [])

abbrev pub checksum_domain : Bytes
checksum_domain = codes "HNS-ROLLBACK-JOURNAL-CHECKSUM-V1" ++ (0 ∷ [])

abbrev pub record_fingerprint_domain : Bytes
record_fingerprint_domain = codes "HNS-ROLLBACK-JOURNAL-RECORD-V1" ++ (0 ∷ [])

abbrev pub binding_fingerprint_domain : Bytes
binding_fingerprint_domain = codes "HNS-ROLLBACK-JOURNAL-BINDING-V1" ++ (0 ∷ [])

abbrev pub snapshot_bytes_domain : Bytes
snapshot_bytes_domain = codes "HNS-ROLLBACK-JOURNAL-SNAPSHOT-BYTES-V1" ++ (0 ∷ [])

abbrev pub snapshot_image_domain : Bytes
snapshot_image_domain = codes "HNS-ROLLBACK-JOURNAL-SNAPSHOT-IMAGE-V1" ++ (0 ∷ [])

abbrev pub snapshot_aad_domain : Bytes
snapshot_aad_domain = codes "HNS-ROLLBACK-JOURNAL-SNAPSHOT-AAD-V1" ++ (0 ∷ [])

abbrev pub transition_id_domain : Bytes
transition_id_domain = codes "HNS-ROLLBACK-JOURNAL-TRANSITION-V1" ++ (0 ∷ [])

abbrev pub retirement_id_domain : Bytes
retirement_id_domain = codes "HNS-ROLLBACK-JOURNAL-RETIREMENT-V1" ++ (0 ∷ [])

abbrev pub max_plaintext_snapshot_size : ℕ
max_plaintext_snapshot_size = 16 * 1024 * 1024

abbrev pub aead_suite_aes_256_gcm : ℕ
aead_suite_aes_256_gcm = 1

abbrev pub aes_256_gcm_nonce_size : ℕ
aes_256_gcm_nonce_size = 12

abbrev pub aes_256_gcm_tag_size : ℕ
aes_256_gcm_tag_size = 16

abbrev pub max_sealed_snapshot_size : ℕ
max_sealed_snapshot_size =
    max_plaintext_snapshot_size + aes_256_gcm_nonce_size + aes_256_gcm_tag_size

abbrev pub max_journal_record_size : ℕ
max_journal_record_size = 2048 + 2 * max_sealed_snapshot_size

pub data JournalError : Type 0 where
  decode_error : DecodeError → JournalError
  invalid : String → JournalError
  wrong_state : String → JournalError
  journal_revision_exhausted : JournalError
  database_mismatch : JournalError

pub data RollbackProtectionClass : Type 0 where
  integrity_only_same_rollback_domain : RollbackProtectionClass
  independent_local_root : RollbackProtectionClass
  hardware_monotonic : RollbackProtectionClass
  remote_witness : RollbackProtectionClass

-- The discriminant of `#[repr(u8)]`.
unfoldable pub class_u8 : RollbackProtectionClass → ℕ
class_u8 integrity_only_same_rollback_domain = 0
class_u8 independent_local_root = 1
class_u8 hardware_monotonic = 2
class_u8 remote_witness = 3

unfoldable pub has_independent_rollback_domain : RollbackProtectionClass → Bool
has_independent_rollback_domain integrity_only_same_rollback_domain = false
has_independent_rollback_domain c = true

unfoldable pub decode_class : ℕ → Result JournalError RollbackProtectionClass
decode_class value =
    if value == 0
    then ok integrity_only_same_rollback_domain
    else if value == 1
    then ok independent_local_root
    else if value == 2
    then ok hardware_monotonic
    else if value == 3
    then ok remote_witness
    else err (invalid "unknown rollback protection class")

unfoldable pub is_zero : Bytes → Bool
is_zero [] = true
is_zero (b ∷ bs) = b == 0 && is_zero bs

pub record JournalBindingParts : Type 0 where
  pub installation_lineage : Bytes
  pub network_magic : ℕ
  pub role_id : Bytes
  pub storage_namespace_id : Bytes
  pub logical_key : Bytes
  pub protocol_id : Bytes
  pub protocol_version : ℕ
  pub aead_suite : ℕ
  pub key_version : ℕ
  pub key_id : Bytes
  pub protection : RollbackProtectionClass

-- The nonzero fields hold their numbers.
pub record JournalBinding : Type 0 where
  pub installation_lineage : Bytes
  pub network_magic : ℕ
  pub role_id : Bytes
  pub storage_namespace_id : Bytes
  pub logical_key : Bytes
  pub protocol_id : Bytes
  pub protocol_version : ℕ
  pub aead_suite : ℕ
  pub key_version : ℕ
  pub key_id : Bytes
  pub protection : RollbackProtectionClass

-- `NonZeroU16::new` and `NonZeroU32::new`.
abbrev pub nonzero : ℕ → Option ℕ
nonzero v = if v == 0 then none else some v

-- The loop over the identifiers that may not be zero.
unfoldable pub ensure_nonzero : List (Bytes × String) → Result JournalError (Unit {0})
ensure_nonzero [] = ok tt
ensure_nonzero ((value, field) ∷ rest) =
    if is_zero value then err (invalid field) else ensure_nonzero rest

unfoldable pub new_binding : JournalBindingParts → Result JournalError JournalBinding
new_binding parts = do
  ensure_nonzero (
      (parts.installation_lineage, "zero installation lineage")
      ∷ (parts.role_id, "zero role identifier")
      ∷ (parts.storage_namespace_id, "zero storage namespace")
      ∷ (parts.protocol_id, "zero protocol identifier")
      ∷ (parts.key_id, "zero key identifier")
      ∷ [])
  protocol_version ← ok_or (nonzero parts.protocol_version) (invalid "zero protocol version")
  aead_suite ← ok_or (nonzero parts.aead_suite) (invalid "zero AEAD suite")
  ensure (aead_suite == aead_suite_aes_256_gcm) (invalid "unsupported AEAD suite")
  key_version ← ok_or (nonzero parts.key_version) (invalid "zero key version")
  ok (record {
    installation_lineage = parts.installation_lineage;
    network_magic = parts.network_magic;
    role_id = parts.role_id;
    storage_namespace_id = parts.storage_namespace_id;
    logical_key = parts.logical_key;
    protocol_id = parts.protocol_id;
    protocol_version = protocol_version;
    aead_suite = aead_suite;
    key_version = key_version;
    key_id = parts.key_id;
    protection = parts.protection;
  })

unfoldable pub encode_binding : JournalBinding → Encoder → Encoder
encode_binding b encoder =
    encoder
    |> put_bytes b.installation_lineage
    |> put_u32_le b.network_magic
    |> put_bytes b.role_id
    |> put_bytes b.storage_namespace_id
    |> put_bytes b.logical_key
    |> put_bytes b.protocol_id
    |> put_u16_le b.protocol_version
    |> put_u16_le b.aead_suite
    |> put_u32_le b.key_version
    |> put_bytes b.key_id
    |> put_u8 (class_u8 b.protection)

-- A reader of the decoder under the journal's error type.
abbrev pub from_decoder : {A : Type 0} → Parser DecodeError A → Parser JournalError A
from_decoder = convert decode_error

-- The derived equality.
unfoldable pub binding_eq : JournalBinding → JournalBinding → Bool
binding_eq a b =
    bytes_eq a.installation_lineage b.installation_lineage
    && a.network_magic == b.network_magic
    && bytes_eq a.role_id b.role_id
    && bytes_eq a.storage_namespace_id b.storage_namespace_id
    && bytes_eq a.logical_key b.logical_key
    && bytes_eq a.protocol_id b.protocol_id
    && a.protocol_version == b.protocol_version
    && a.aead_suite == b.aead_suite
    && a.key_version == b.key_version
    && bytes_eq a.key_id b.key_id
    && class_u8 a.protection == class_u8 b.protection

class_u8_injective : (a b : RollbackProtectionClass) → class_u8 a ≡ class_u8 b → a ≡ b
unfolding class_u8
class_u8_injective a b h = ground arith

pub eq_of_binding_eq : (a b : JournalBinding) → binding_eq a b ≡ true → a ≡ b
unfolding binding_eq
eq_of_binding_eq a b h = ground (
  arith,
  eq_of_bytes_eq a.installation_lineage b.installation_lineage,
  eq_of_bytes_eq a.role_id b.role_id,
  eq_of_bytes_eq a.storage_namespace_id b.storage_namespace_id,
  eq_of_bytes_eq a.logical_key b.logical_key,
  eq_of_bytes_eq a.protocol_id b.protocol_id,
  eq_of_bytes_eq a.key_id b.key_id,
  class_u8_injective a.protection b.protection,
)

pub binding_eq_refl : (a : JournalBinding) → binding_eq a a ≡ true
unfolding binding_eq
binding_eq_refl a = ground (
  arith,
  bytes_eq_refl a.installation_lineage,
  bytes_eq_refl a.role_id,
  bytes_eq_refl a.storage_namespace_id,
  bytes_eq_refl a.logical_key,
  bytes_eq_refl a.protocol_id,
  bytes_eq_refl a.key_id,
)

module _ ⦃blake : Blake2b⦄ where
  unfoldable pub binding_fingerprint : JournalBinding → Bytes
  binding_fingerprint b =
      hash32 binding_fingerprint_domain (into_bytes (with_capacity 240 |> encode_binding b) ∷ [])

-- The lease context of the external journal: the namespace and a nonzero fencing token.
pub record JournalLeaseContext : Type 0 where
  pub binding_fingerprint : Bytes
  pub fencing_token : ℕ

module _ ⦃blake : Blake2b⦄ where
  unfoldable pub new_lease : JournalBinding → ℕ → JournalLeaseContext
  new_lease binding token = record {
    binding_fingerprint = binding_fingerprint binding;
    fencing_token = token;
  }
