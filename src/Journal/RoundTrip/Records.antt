-- ===== src/Journal/RoundTrip/Records.antt =====
-- The canonical bytes of a whole record, and `decode` on what `encode` writes.
use hns_rs.Base.{
  ◌+◌, ◌*◌, ◌-◌, ◌≤◌, ◌<◌, ◌^◌, ◌≡◌, refl, true, not, ◌||◌, [], ◌∷◌, ◌++◌, ltb, ◌==◌, ◌|>◌, arith,
  length, length-append, append_assoc, append-nil, take-append_self, drop-append_self, ok,
}
use hns_rs.Base.Bytes.{Bytes, to_le_bytes, bytes_eq_refl}
use hns_rs.Hash.{Blake2b, length-hash32}
use hns_rs.Encoding.Decoder.{Decoder, new, finish}
use hns_rs.Encoding.Encoder.{
  Encoder, put_bytes, put_u8, put_u16_le, put_u64_le, with_capacity, into_bytes,
}
use hns_rs.Encoding.Reads.{Reads, Reads-bind, Reads-last, Reads-ensure, Reads-convert}
use hns_rs.Encoding.RoundTrip.{read_array-Reads, read_u8-Reads, length-compact_bytes}
use hns_rs.Journal.Binding.{
  invalid, decode_error, JournalBinding, encode_binding, magic, format_version,
  max_plaintext_snapshot_size, max_journal_record_size,
}
use hns_rs.Journal.Snapshot.{StateIdentity, SnapshotImage, encode_image}
use hns_rs.Journal.Record.{
  JournalState, JournalRecord, never_initialized, stable, prepared, retired, encode_state,
  encode_body, encode, validate, journal_checksum,
}
use hns_rs.Journal.Decode.{
  decode_state, decode_stable, decode_prepared, decode_retired, decode_fields,
}
use hns_rs.Journal.Codec.{decode}
use hns_rs.Journal.RoundTrip.{
  IsBinding, IsIdentity, IsImage, binding_bytes, identity_bytes, image_bytes, sealed_bytes,
  encode_binding-bytes, encode_identity-bytes, encode_image-bytes, decode_binding-Reads,
  decode_identity-Reads, decode_image-Reads, Reads-array, Reads-u16, Reads-u64,
}

-- What the types and constructors of the parts of a state guarantee.
abbrev pub IsState : JournalState → Type 0
IsState never_initialized = Unit {0}
IsState (stable current) = IsImage current
IsState (prepared id old new) = (length id ≡ 32) × IsImage old × IsImage new
IsState (retired last id) = IsIdentity last × (length id ≡ 32)

pub record IsRecord (r : JournalRecord) : Type 0 where
  pub binding_part : IsBinding r.binding
  pub revision_range : r.journal_revision < 2 ^ 64
  pub state_part : IsState r.state

unfoldable pub state_bytes : JournalState → Bytes
state_bytes never_initialized = 0 ∷ []
state_bytes (stable current) = 1 ∷ image_bytes current
state_bytes (prepared id old new) = 2 ∷ (id ++ (image_bytes old ++ image_bytes new))
state_bytes (retired last id) = 3 ∷ (identity_bytes last ++ id)

unfoldable pub body_bytes : JournalRecord → Bytes
body_bytes r =
    magic
    ++ (to_le_bytes 2 format_version
        ++ (binding_bytes r.binding ++ (to_le_bytes 8 r.journal_revision ++ state_bytes r.state)))

encode_state-bytes :
    (s : JournalState) (e : Encoder)
    → IsState s
    → (encode_state s e).bytes ≡ e.bytes ++ state_bytes s
unfolding encode_state state_bytes put_u8 put_bytes
encode_state-bytes never_initialized e h = refl
encode_state-bytes (stable current) e h =
    rw (encode_image-bytes current (put_u8 1 e) h) (append_assoc e.bytes _ _)
encode_state-bytes (prepared id old new) e (hid, ho, hn) =
    rw
      (
        encode_image-bytes new (encode_image old (put_bytes id (put_u8 2 e))) hn,
        encode_image-bytes old (put_bytes id (put_u8 2 e)) ho,
      )
      (simp append_assoc)
encode_state-bytes (retired last id) e h =
    rw (encode_identity-bytes last (put_u8 3 e)) (simp append_assoc)

pub encode_body-bytes : (r : JournalRecord) → IsRecord r → encode_body r ≡ body_bytes r
unfolding encode_body body_bytes with_capacity into_bytes put_bytes put_u16_le put_u64_le
encode_body-bytes r h =
    rw
      (
        encode_state-bytes r.state (put_u64_le r.journal_revision (encode_binding r.binding front))
            h.state_part,
        encode_binding-bytes r.binding front,
      )
      (simp append_assoc)
  where
    front : Encoder
    front = with_capacity 320 |> put_bytes magic |> put_u16_le format_version

decode_state-Reads : (s : JournalState) → IsState s → Reads decode_state (state_bytes s) s
unfolding decode_state state_bytes
decode_state-Reads never_initialized h =
    Reads-last _ (Reads-convert decode_error (read_u8-Reads 0)) refl
decode_state-Reads (stable current) h =
    Reads-bind _ (Reads-convert decode_error (read_u8-Reads 1))
      (unfold decode_stable in Reads-last _ (decode_image-Reads current h) refl)
decode_state-Reads (prepared id old new) (hid, ho, hn) =
    Reads-bind _ (Reads-convert decode_error (read_u8-Reads 2)) (
      unfold decode_prepared in
      Reads-bind _ (Reads-array id hid)
        (Reads-bind _ (decode_image-Reads old ho) (Reads-last _ (decode_image-Reads new hn) refl)))
decode_state-Reads (retired last id) (hl, hid) =
    Reads-bind _ (Reads-convert decode_error (read_u8-Reads 3)) (
      unfold decode_retired in
      Reads-bind _ (decode_identity-Reads last hl) (Reads-last _ (Reads-array id hid) refl))

pub decode_fields-Reads : (r : JournalRecord) → IsRecord r → Reads decode_fields (body_bytes r) r
unfolding decode_fields body_bytes
decode_fields-Reads r h =
    Reads-bind _ (Reads-convert decode_error (read_array-Reads 8 magic refl)) (
      Reads-ensure _ (invalid "invalid journal magic") (bytes_eq_refl magic) (
        Reads-bind _ (Reads-u16 format_version (omega arith)) (
          Reads-ensure (format_version == format_version)
            (invalid "unsupported journal format version") refl
            (Reads-bind _ (decode_binding-Reads r.binding h.binding_part) (
              Reads-bind _ (Reads-u64 r.journal_revision h.revision_range)
                (Reads-last _ (decode_state-Reads r.state h.state_part) refl))))))

length-binding_bytes : (b : JournalBinding) → IsBinding b → length (binding_bytes b) ≡ 205
unfolding binding_bytes
length-binding_bytes b h = simp length-append (omega (arith, h.lineage))

length-identity_bytes : (s : StateIdentity) → IsIdentity s → length (identity_bytes s) ≡ 72
unfolding identity_bytes
length-identity_bytes s h = simp length-append (omega (arith, h.protocol_length, h.byte_length))

length-image_bytes :
    (i : SnapshotImage) → IsImage i → length (image_bytes i) ≤ 113 + max_plaintext_snapshot_size
unfolding image_bytes sealed_bytes
length-image_bytes i h = simp length-append (
    omega (
      arith,
      length-identity_bytes i.identity h.identity_part,
      h.sealed_part.plaintext_bound,
      h.sealed_part.ciphertext_length,
      length-compact_bytes (length i.sealed.ciphertext),
    ))

length-state_bytes :
    (s : JournalState) → IsState s → length (state_bytes s) ≤ 259 + 2 * max_plaintext_snapshot_size
unfolding state_bytes
length-state_bytes never_initialized h = omega arith
length-state_bytes (stable current) h = omega (arith, length-image_bytes current h)
length-state_bytes (prepared id old new) (hid, ho, hn) =
    simp length-append (omega (arith, length-image_bytes old ho, length-image_bytes new hn))
length-state_bytes (retired last id) (hl, hid) =
    simp length-append (omega (arith, length-identity_bytes last hl))

-- The bounds that `decode` sets on the whole input hold with the checksum of 32 bytes.
length-body_bytes :
    (r : JournalRecord)
    → IsRecord r
    → (10 ≤ length (body_bytes r)) × (length (body_bytes r) + 32 ≤ max_journal_record_size)
unfolding body_bytes
length-body_bytes r h = simp length-append (
    omega (
      arith,
      length-binding_bytes r.binding h.binding_part,
      length-state_bytes r.state h.state_part,
    ))

-- A decoder at the end of its input.
abbrev at_end : Bytes → Decoder
at_end body = record { input = body; position = length body }

finish_at : (body : Bytes) → finish (at_end body) ≡ ok tt
unfolding finish
finish_at body = ground arith

decode_fields-body_bytes :
    (r : JournalRecord)
    → IsRecord r
    → decode_fields (new (body_bytes r)) ≡ ok (r, at_end (body_bytes r))
unfolding new
decode_fields-body_bytes r h =
    rw (append-nil (body_bytes r)) at
      ((decode_fields-Reads r h).run [] [] (omega (arith, length-body_bytes r h)))

module _ ⦃blake : Blake2b⦄ where
  length-journal_checksum : (bytes : Bytes) → length (journal_checksum bytes) ≡ 32
  unfolding journal_checksum
  length-journal_checksum bytes = length-hash32 _ _

  -- `decode` on a body of canonical bytes with its checksum.
  decode-body :
      (r : JournalRecord)
      → IsRecord r
      → validate r ≡ ok tt
      → encode r ≡ body_bytes r ++ journal_checksum (body_bytes r)
      → decode (body_bytes r ++ journal_checksum (body_bytes r)) ≡ ok r
  unfolding decode
  decode-body r h v e =
      let body = body_bytes r in
      let sum = journal_checksum body in
      let len : length (body ++ sum) ≡ length body + 32 =
        omega (arith, length-append body sum, length-journal_checksum body) in
      let cut : length (body ++ sum) - 32 ≡ length body = omega arith in
      let size : not (
            ltb (length (body ++ sum)) (length magic + 2 + 32)
            || ltb max_journal_record_size (length (body ++ sum)))
          ≡ true =
        ground (arith, length-body_bytes r h) in
      rw (size, cut, take-append_self body sum, drop-append_self body sum, bytes_eq_refl sum)
        (rw (decode_fields-body_bytes r h, finish_at body, v, e, bytes_eq_refl (body ++ sum)))

  -- `decode` reads back every record that satisfies what its types and constructors guarantee and
  -- that passes `validate`, from the bytes that `encode` writes.
  pub decode-encode :
      (r : JournalRecord) → IsRecord r → validate r ≡ ok tt → decode (encode r) ≡ ok r
  decode-encode r h v =
      let e : encode r ≡ body_bytes r ++ journal_checksum (body_bytes r) =
        unfold encode in rw (encode_body-bytes r h) in
      rw e (decode-body r h v e)
