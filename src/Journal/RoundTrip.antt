-- ===== src/Journal/RoundTrip.antt =====
-- The canonical bytes of the parts of a record, and that their decoders read them back.
pub mod Records
use hns_rs.Base.{
  ℕ, ◌+◌, ◌≤◌, ◌<◌, ◌^◌, ◌≡◌, refl, ap, subst, Bool, true, false, List, [], ◌∷◌, ◌++◌, ==_iff, leb,
  ◌==◌, le→ltb, if◌then◌else◌, ◌|>◌, arith, length, length-append, append_assoc, Result, ok, err,
  ◌⊎◌,
}
use hns_rs.Base.Bytes.{Bytes, to_le_bytes, bytes_eq, bytes_eq_refl, length-to_le_bytes}
use hns_rs.Encoding.Decoder.{
  Parser, pure, read_array, lift, read_u16_le, read_u8, read_u32_le, read_u64_le, read_varbytes,
}
use hns_rs.Encoding.Encoder.{
  Encoder, put_bytes, put_u8, put_u16_le, put_u32_le, put_u64_le, put_varbytes,
}
use hns_rs.Encoding.Reads.{Reads, Reads-pure, Reads-bind, Reads-last, Reads-convert}
use hns_rs.Encoding.RoundTrip.{
  read_array-Reads, read_u8-Reads, read_u16_le-Reads, read_u32_le-Reads, read_u64_le-Reads,
  read_varbytes-Reads, compact_bytes, put_varbytes-bytes,
}
use hns_rs.Journal.Binding.{
  JournalError, JournalBinding, RollbackProtectionClass, class_u8, decode_class, is_zero,
  ensure_nonzero, new_binding, decode_error, encode_binding, from_decoder,
  max_plaintext_snapshot_size, max_sealed_snapshot_size, integrity_only_same_rollback_domain,
  independent_local_root, hardware_monotonic, remote_witness,
}
use hns_rs.Journal.Snapshot.{
  StateIdentity, SealedSnapshot, SnapshotImage, encode_identity, encode_sealed, encode_image,
  new_sealed,
}
use hns_rs.Journal.Decode.{decode_binding, decode_identity, decode_sealed, decode_image}

-- What the types and the constructor of a binding guarantee.
pub record IsBinding (b : JournalBinding) : Type 0 where
  pub lineage : length b.installation_lineage ≡ 32
  pub lineage_nonzero : is_zero b.installation_lineage ≡ false
  pub network : b.network_magic < 2 ^ 32
  pub role : length b.role_id ≡ 32
  pub role_nonzero : is_zero b.role_id ≡ false
  pub storage : length b.storage_namespace_id ≡ 32
  pub storage_nonzero : is_zero b.storage_namespace_id ≡ false
  pub logical : length b.logical_key ≡ 32
  pub protocol : length b.protocol_id ≡ 32
  pub protocol_nonzero : is_zero b.protocol_id ≡ false
  pub version : (0 < b.protocol_version) × (b.protocol_version < 2 ^ 16)
  pub suite : b.aead_suite ≡ 1
  pub key_version_range : (0 < b.key_version) × (b.key_version < 2 ^ 32)
  pub key : length b.key_id ≡ 32
  pub key_nonzero : is_zero b.key_id ≡ false

pub record IsIdentity (s : StateIdentity) : Type 0 where
  pub revision_range : s.revision < 2 ^ 64
  pub protocol_length : length s.protocol_fingerprint ≡ 32
  pub byte_length : length s.byte_fingerprint ≡ 32

pub record IsSealed (s : SealedSnapshot) : Type 0 where
  pub plaintext_bound : s.plaintext_len ≤ max_plaintext_snapshot_size
  pub ciphertext_length : length s.ciphertext ≡ s.plaintext_len + 28

pub record IsImage (i : SnapshotImage) : Type 0 where
  pub identity_part : IsIdentity i.identity
  pub sealed_part : IsSealed i.sealed

unfoldable pub binding_bytes : JournalBinding → Bytes
binding_bytes b =
    b.installation_lineage
    ++ (to_le_bytes 4 b.network_magic
        ++ (b.role_id
            ++ (b.storage_namespace_id
                ++ (b.logical_key
                    ++ (b.protocol_id
                        ++ (to_le_bytes 2 b.protocol_version
                            ++ (to_le_bytes 2 b.aead_suite
                                ++ (to_le_bytes 4 b.key_version
                                    ++ (b.key_id ++ (class_u8 b.protection ∷ []))))))))))

unfoldable pub identity_bytes : StateIdentity → Bytes
identity_bytes s = to_le_bytes 8 s.revision ++ (s.protocol_fingerprint ++ s.byte_fingerprint)

unfoldable pub sealed_bytes : SealedSnapshot → Bytes
sealed_bytes s =
    to_le_bytes 4 s.plaintext_len ++ (compact_bytes (length s.ciphertext) ++ s.ciphertext)

unfoldable pub image_bytes : SnapshotImage → Bytes
image_bytes i = identity_bytes i.identity ++ sealed_bytes i.sealed

pub encode_binding-bytes :
    (b : JournalBinding) (e : Encoder) → (encode_binding b e).bytes ≡ e.bytes ++ binding_bytes b
unfolding encode_binding binding_bytes put_bytes put_u8 put_u16_le put_u32_le
encode_binding-bytes b e = simp append_assoc

pub encode_identity-bytes :
    (s : StateIdentity) (e : Encoder) → (encode_identity s e).bytes ≡ e.bytes ++ identity_bytes s
unfolding encode_identity identity_bytes put_bytes put_u64_le
encode_identity-bytes s e = simp append_assoc

pub encode_sealed-bytes :
    (s : SealedSnapshot) (e : Encoder)
    → IsSealed s
    → (encode_sealed s e).bytes ≡ e.bytes ++ sealed_bytes s
unfolding encode_sealed sealed_bytes put_u32_le
encode_sealed-bytes s e h =
    rw
      (put_varbytes-bytes s.ciphertext (put_u32_le s.plaintext_len e)
        (omega (arith, h.plaintext_bound, h.ciphertext_length)))
      (append_assoc e.bytes _ _)

pub encode_image-bytes :
    (i : SnapshotImage) (e : Encoder)
    → IsImage i
    → (encode_image i e).bytes ≡ e.bytes ++ image_bytes i
unfolding encode_image image_bytes
encode_image-bytes i e h =
    rw
      (
        encode_sealed-bytes i.sealed (encode_identity i.identity e) h.sealed_part,
        encode_identity-bytes i.identity e,
      )
      (append_assoc e.bytes _ _)

decode_class-class_u8 : (c : RollbackProtectionClass) → decode_class (class_u8 c) ≡ ok c
unfolding decode_class class_u8
decode_class-class_u8 integrity_only_same_rollback_domain = refl
decode_class-class_u8 independent_local_root = refl
decode_class-class_u8 hardware_monotonic = refl
decode_class-class_u8 remote_witness = refl

-- The constructor accepts a binding's own fields.
new_binding_self :
    (b : JournalBinding)
    → IsBinding b
    → new_binding (record {
      installation_lineage = b.installation_lineage;
      network_magic = b.network_magic;
      role_id = b.role_id;
      storage_namespace_id = b.storage_namespace_id;
      logical_key = b.logical_key;
      protocol_id = b.protocol_id;
      protocol_version = b.protocol_version;
      aead_suite = b.aead_suite;
      key_version = b.key_version;
      key_id = b.key_id;
      protection = b.protection;
    })
      ≡ ok b
unfolding new_binding ensure_nonzero
new_binding_self b h = ground arith

pub Reads-array : (xs : Bytes) → length xs ≡ 32 → Reads (from_decoder (read_array 32)) xs xs
Reads-array xs h = Reads-convert decode_error (read_array-Reads 32 xs h)

pub Reads-u16 : (v : ℕ) → v < 2 ^ 16 → Reads (from_decoder read_u16_le) (to_le_bytes 2 v) v
Reads-u16 v h = Reads-convert decode_error (read_u16_le-Reads v h)

Reads-u32 : (v : ℕ) → v < 2 ^ 32 → Reads (from_decoder read_u32_le) (to_le_bytes 4 v) v
Reads-u32 v h = Reads-convert decode_error (read_u32_le-Reads v h)

pub Reads-u64 : (v : ℕ) → v < 2 ^ 64 → Reads (from_decoder read_u64_le) (to_le_bytes 8 v) v
Reads-u64 v h = Reads-convert decode_error (read_u64_le-Reads v h)

pub decode_binding-Reads :
    (b : JournalBinding) → IsBinding b → Reads decode_binding (binding_bytes b) b
unfolding decode_binding binding_bytes
decode_binding-Reads b h = Reads-bind _ (Reads-array b.installation_lineage h.lineage) (
    Reads-bind _ (Reads-u32 b.network_magic h.network) (
      Reads-bind _ (Reads-array b.role_id h.role) (
        Reads-bind _ (Reads-array b.storage_namespace_id h.storage) (
          Reads-bind _ (Reads-array b.logical_key h.logical) (
            Reads-bind _ (Reads-array b.protocol_id h.protocol) (
              Reads-bind _ (Reads-u16 b.protocol_version h.version.1) (
                Reads-bind _ (Reads-u16 b.aead_suite (omega (arith, h.suite))) (
                  Reads-bind _ (Reads-u32 b.key_version h.key_version_range.1) (
                    Reads-bind _ (Reads-array b.key_id h.key) (
                      Reads-last _
                        (Reads-convert decode_error (read_u8-Reads (class_u8 b.protection)))
                        (rw (decode_class-class_u8 b.protection, new_binding_self b h))))))))))))

pub decode_identity-Reads :
    (s : StateIdentity) → IsIdentity s → Reads decode_identity (identity_bytes s) s
unfolding decode_identity identity_bytes
decode_identity-Reads s h = Reads-bind _ (Reads-u64 s.revision h.revision_range) (
    Reads-bind _ (Reads-array s.protocol_fingerprint h.protocol_length)
      (Reads-last _ (Reads-array s.byte_fingerprint h.byte_length) refl))

new_sealed_self : (s : SealedSnapshot) → IsSealed s → new_sealed s.plaintext_len s.ciphertext ≡ ok s
unfolding new_sealed
new_sealed_self s h = ground arith

pub decode_sealed-Reads : (s : SealedSnapshot) → IsSealed s → Reads decode_sealed (sealed_bytes s) s
unfolding decode_sealed sealed_bytes
decode_sealed-Reads s h =
    Reads-bind _ (Reads-u32 s.plaintext_len (omega (arith, h.plaintext_bound))) (
      Reads-last _
        (Reads-convert decode_error (
          read_varbytes-Reads s.ciphertext _ _
            (omega (arith, h.plaintext_bound, h.ciphertext_length))
            (omega (arith, h.plaintext_bound, h.ciphertext_length))))
        (rw (new_sealed_self s h)))

pub decode_image-Reads : (i : SnapshotImage) → IsImage i → Reads decode_image (image_bytes i) i
unfolding decode_image image_bytes
decode_image-Reads i h =
    Reads-bind _ (decode_identity-Reads i.identity h.identity_part)
      (Reads-last _ (decode_sealed-Reads i.sealed h.sealed_part) refl)
