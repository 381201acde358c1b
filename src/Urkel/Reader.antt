-- ===== src/Urkel/Reader.antt =====
-- crates/hns-urkel-proof/src/lib.rs: `ProofReader`, which has the fields of a decoder. The conversions of slices to
-- arrays keep the bytes.
use hns_rs.Base.{
  ℕ, ◌+◌, ◌*◌, ◌/◌, ◌%◌, ◌^◌, not, some, none, ltb, ◌==◌, if◌then◌else◌, checked_add, length,
  get_or, slice, ok, err, leb,
}
use hns_rs.Base.Bytes.{Bytes, from_le_bytes}
use hns_rs.Encoding.Decoder.{Parser, ◌>>=◌, ◌>>◌, pure, ensure, lift}
use hns_rs.Urkel.Prefix.{
  UrkelError, unexpected_end, offset_overflow, prefix_length, urkel_bits, BitPrefix, div_ceil_8,
  validate_prefix,
}

abbrev pub Reader : Type 0 → Type 0
Reader A = Parser UrkelError A

unfoldable pub read_u8 : Reader ℕ
read_u8 d =
    if leb (length d.input) d.position
    then err (unexpected_end d.position)
    else ok (get_or d.input d.position 0, record d { position = d.position + 1 })

unfoldable pub read_slice : ℕ → Reader Bytes
read_slice size d = elim (checked_add 64 d.position size) [
  | none ↦ err offset_overflow
  | some end ↦
      if ltb (length d.input) end
      then err (unexpected_end d.position)
      else ok (slice d.position end d.input, record d { position = end })
]

unfoldable pub read_u16 : Reader ℕ
read_u16 = do bytes ← read_slice 2; pure (from_le_bytes bytes)

unfoldable pub read_hash : Reader Bytes
read_hash = read_slice 32

unfoldable pub read_vec : ℕ → Reader Bytes
read_vec size = read_slice size

-- The one or two bytes that hold the number of bits.
unfoldable pub read_bit_len : ℕ → Reader ℕ
read_bit_len first =
    if first / 0x80 % 2 == 1
    then (do second ← read_u8; pure (first % 0x80 * 2 ^ 8 + second))
    else pure first

unfoldable pub read_prefix : Reader BitPrefix
read_prefix = do
  first ← read_u8
  bit_len ← read_bit_len first
  ensure (not (ltb urkel_bits bit_len)) (prefix_length bit_len)
  bytes ← read_vec (div_ceil_8 bit_len)
  lift (validate_prefix (record { bit_len = bit_len; bytes = bytes }))
  pure (record { bit_len = bit_len; bytes = bytes })
