-- ===== src/Journal/Snapshot.antt =====
-- crates/hns-rollback-journal/src/lib.rs: state identities, sealed snapshots, snapshot images and what
-- is observed of the protocol database.
use hns_rs.Base.{
  ◌≡◌, ap, arith, true, ℕ, ◌+◌, ◌-◌, Bool, false, ◌&&◌, Option, none, some, [], ◌∷◌, leb, ◌==◌,
  ◌|>◌, checked_add, length, take, drop, slice, Result, ok, ◌>>=◌, ◌>>◌, ensure, ok_or,
}
use hns_rs.Base.Bytes.{Bytes, bytes_eq, eq_of_bytes_eq, bytes_eq_refl}
use hns_rs.Hash.{Blake2b, hash32}
use hns_rs.Encoding.Encoder.{
  Encoder, with_capacity, put_bytes, put_u32_le, put_u64_le, put_varbytes, into_bytes,
}
use hns_rs.Journal.Binding.{
  JournalError, invalid, JournalBinding, binding_fingerprint, max_plaintext_snapshot_size,
  max_sealed_snapshot_size, aes_256_gcm_nonce_size, aes_256_gcm_tag_size, snapshot_bytes_domain,
  snapshot_image_domain, snapshot_aad_domain,
}

pub record StateIdentity : Type 0 where
  pub revision : ℕ
  pub protocol_fingerprint : Bytes
  pub byte_fingerprint : Bytes

unfoldable pub identity_eq : StateIdentity → StateIdentity → Bool
identity_eq a b =
    a.revision == b.revision
    && bytes_eq a.protocol_fingerprint b.protocol_fingerprint
    && bytes_eq a.byte_fingerprint b.byte_fingerprint

unfoldable pub encode_identity : StateIdentity → Encoder → Encoder
encode_identity s encoder =
    encoder
    |> put_u64_le s.revision
    |> put_bytes s.protocol_fingerprint
    |> put_bytes s.byte_fingerprint

pub record SealedSnapshot : Type 0 where
  pub plaintext_len : ℕ
  pub ciphertext : Bytes

-- The plaintext length is at most 2^24 where it is cast to 32 bits, so the cast cannot fail.
unfoldable pub new_sealed : ℕ → Bytes → Result JournalError SealedSnapshot
new_sealed plaintext_len ciphertext = do
  ensure (leb plaintext_len max_plaintext_snapshot_size) (invalid "plaintext snapshot is too large")
  expected_ciphertext_len ←
      ok_or (checked_add 64 plaintext_len (aes_256_gcm_nonce_size + aes_256_gcm_tag_size))
        (invalid "sealed snapshot length overflow")
  ensure
      (length ciphertext == expected_ciphertext_len
        && leb (length ciphertext) max_sealed_snapshot_size)
      (invalid "invalid sealed snapshot size")
  ok (record { plaintext_len = plaintext_len; ciphertext = ciphertext })

unfoldable pub nonce : SealedSnapshot → Bytes
nonce s = take aes_256_gcm_nonce_size s.ciphertext

unfoldable pub encrypted_payload : SealedSnapshot → Bytes
encrypted_payload s =
    slice aes_256_gcm_nonce_size (length s.ciphertext - aes_256_gcm_tag_size) s.ciphertext

unfoldable pub tag : SealedSnapshot → Bytes
tag s = drop (length s.ciphertext - aes_256_gcm_tag_size) s.ciphertext

unfoldable pub encode_sealed : SealedSnapshot → Encoder → Encoder
encode_sealed s encoder = encoder |> put_u32_le s.plaintext_len |> put_varbytes s.ciphertext

pub record SnapshotImage : Type 0 where
  pub identity : StateIdentity
  pub sealed : SealedSnapshot

unfoldable pub encode_image : SnapshotImage → Encoder → Encoder
encode_image i encoder = encoder |> encode_identity i.identity |> encode_sealed i.sealed

pub data DatabaseObservation : Type 0 where
  absent : DatabaseObservation
  present : StateIdentity → DatabaseObservation

unfoldable pub observed_identity : DatabaseObservation → Option StateIdentity
observed_identity absent = none
observed_identity (present identity) = some identity

-- `database == DatabaseObservation::Present(identity)`
unfoldable pub is_present : DatabaseObservation → StateIdentity → Bool
unfolding identity_eq
is_present absent identity = false
is_present (present seen) identity = identity_eq seen identity

pub eq_of_identity_eq : (a b : StateIdentity) → identity_eq a b ≡ true → a ≡ b
unfolding identity_eq
eq_of_identity_eq a b h = ground (
  arith,
  eq_of_bytes_eq a.protocol_fingerprint b.protocol_fingerprint,
  eq_of_bytes_eq a.byte_fingerprint b.byte_fingerprint,
)

pub identity_eq_refl : (a : StateIdentity) → identity_eq a a ≡ true
unfolding identity_eq
identity_eq_refl a =
    ground (arith, bytes_eq_refl a.protocol_fingerprint, bytes_eq_refl a.byte_fingerprint)

pub eq_of_is_present :
    (db : DatabaseObservation) (s : StateIdentity) → is_present db s ≡ true → db ≡ present s
unfolding is_present
eq_of_is_present absent s h = cc
eq_of_is_present (present seen) s h = ap present (eq_of_identity_eq seen s h)

module _ ⦃blake : Blake2b⦄ where
  unfoldable pub snapshot_byte_fingerprint : Bytes → Bytes
  snapshot_byte_fingerprint plaintext = hash32 snapshot_bytes_domain (plaintext ∷ [])

  -- `StateIdentity::from_plaintext`
  unfoldable pub identity_from_plaintext : ℕ → Bytes → Bytes → Result JournalError StateIdentity
  identity_from_plaintext revision protocol_fingerprint plaintext = do
    ensure (leb (length plaintext) max_plaintext_snapshot_size)
        (invalid "plaintext snapshot is too large")
    ok (record {
      revision = revision;
      protocol_fingerprint = protocol_fingerprint;
      byte_fingerprint = snapshot_byte_fingerprint plaintext;
    })

  unfoldable pub identity_verifies_plaintext : StateIdentity → Bytes → Bool
  identity_verifies_plaintext s plaintext =
      leb (length plaintext) max_plaintext_snapshot_size
      && bytes_eq s.byte_fingerprint (snapshot_byte_fingerprint plaintext)

  unfoldable pub new_image : ℕ → Bytes → Bytes → Bytes → Result JournalError SnapshotImage
  new_image revision protocol_fingerprint plaintext ciphertext = do
    identity ← identity_from_plaintext revision protocol_fingerprint plaintext
    sealed ← new_sealed (length plaintext) ciphertext
    ok (record { identity = identity; sealed = sealed })

  unfoldable pub image_verifies_plaintext : SnapshotImage → Bytes → Bool
  image_verifies_plaintext i plaintext =
      length plaintext == i.sealed.plaintext_len && identity_verifies_plaintext i.identity plaintext

  unfoldable pub image_fingerprint : SnapshotImage → Bytes
  image_fingerprint i =
      hash32 snapshot_image_domain
        (into_bytes (with_capacity (80 + length i.sealed.ciphertext) |> encode_image i) ∷ [])

  -- `DatabaseObservation::from_plaintext`
  unfoldable pub observe_plaintext : ℕ → Bytes → Bytes → Result JournalError DatabaseObservation
  observe_plaintext revision protocol_fingerprint plaintext = do
    identity ← identity_from_plaintext revision protocol_fingerprint plaintext
    ok (present identity)

  unfoldable pub snapshot_associated_data : JournalBinding → StateIdentity → ℕ → Bytes
  snapshot_associated_data b identity plaintext_len = into_bytes (
      with_capacity 112
      |> put_bytes snapshot_aad_domain
      |> put_bytes (binding_fingerprint b)
      |> encode_identity identity
      |> put_u32_le plaintext_len)
