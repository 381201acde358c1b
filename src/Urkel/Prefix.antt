-- ===== src/Urkel/Prefix.antt =====
-- crates/hns-urkel-proof/src/lib.rs: the errors, bit prefixes and the hashes of nodes.
use hns_rs.Base.{
  ℕ, zero, suc, ◌+◌, ◌-◌, ◌/◌, ◌%◌, ◌^◌, Bool, true, not, ◌&&◌, ◌||◌, ◌∷◌, ◌++◌, ltb, leb, ◌==◌,
  if◌then◌else◌, length, get_or, Result, ok, ◌>>◌, ensure,
}
use hns_rs.Base.Bytes.{Bytes, to_le_bytes}
use hns_rs.Hash.{Blake2b}

abbrev pub urkel_bits : ℕ
urkel_bits = 256

pub data UrkelError : Type 0 where
  too_large : ℕ → UrkelError
  invalid_depth : ℕ → UrkelError
  node_count : ℕ → UrkelError
  prefix_length : ℕ → UrkelError
  prefix_size : UrkelError
  prefix_trailing_bits : UrkelError
  empty_explicit_prefix : UrkelError
  empty_short_prefix : UrkelError
  unexpected_end : ℕ → UrkelError
  offset_overflow : UrkelError
  trailing_bytes : ℕ → UrkelError
  non_canonical : UrkelError
  value_too_large : ℕ → UrkelError
  kind_mismatch : UrkelError
  short_follows_key : UrkelError
  collision_uses_key : UrkelError
  ancestor_depth : UrkelError
  ancestor_prefix : UrkelError
  incomplete_path : ℕ → UrkelError
  root_mismatch : (expected actual : Bytes) → UrkelError

pub record BitPrefix : Type 0 where
  pub bit_len : ℕ
  pub bytes : Bytes

-- `n.div_ceil(8)`
abbrev pub div_ceil_8 : ℕ → ℕ
div_ceil_8 n = (n + 7) / 8

-- The byte at `index / 8`, from its highest bit on. An index is within the bytes wherever the code asks.
unfoldable pub packed_bit : Bytes → ℕ → ℕ
packed_bit bytes index = get_or bytes (index / 8) 0 / 2 ^ (7 - index % 8) % 2

unfoldable pub key_bit : Bytes → ℕ → ℕ
key_bit key index = get_or key (index / 8) 0 / 2 ^ (7 - index % 8) % 2

-- `(offset..bit_len).all(..)` for the last `count` offsets.
unfoldable pub bits_match : Bytes → Bytes → ℕ → ℕ → ℕ → Bool
bits_match bytes key depth offset zero = true
bits_match bytes key depth offset (suc count) =
    packed_bit bytes offset == key_bit key (depth + offset)
    && bits_match bytes key depth (offset + 1) count

unfoldable pub matches_key : BitPrefix → Bytes → ℕ → Bool
matches_key p key depth =
    leb (depth + p.bit_len) urkel_bits && bits_match p.bytes key depth 0 p.bit_len

unfoldable pub validate_prefix : BitPrefix → Result UrkelError (Unit {0})
validate_prefix p = do
  ensure (not (ltb urkel_bits p.bit_len)) (prefix_length p.bit_len)
  ensure (length p.bytes == div_ceil_8 p.bit_len) prefix_size
  ensure
      (p.bit_len % 8 == 0
        || length p.bytes == 0
        || get_or p.bytes (length p.bytes - 1) 0 % 2 ^ (8 - p.bit_len % 8) == 0)
      prefix_trailing_bits
  ok tt

-- What `hash_leaf` and `hash_internal` feed to the hash function.
unfoldable pub leaf_message : Bytes → Bytes → Bytes
leaf_message key value_hash = 0 ∷ (key ++ value_hash)

unfoldable pub internal_message : BitPrefix → Bytes → Bytes → Bytes
internal_message p left right =
    if p.bit_len == 0
    then 1 ∷ (left ++ right)
    else 2 ∷ (to_le_bytes 2 (p.bit_len % 2 ^ 16) ++ (p.bytes ++ (left ++ right)))

module _ ⦃blake : Blake2b⦄ where
  unfoldable pub hash_leaf : Bytes → Bytes → Bytes
  hash_leaf key value_hash = blake.digest (leaf_message key value_hash)

  unfoldable pub hash_internal : BitPrefix → Bytes → Bytes → Bytes
  hash_internal p left right = blake.digest (internal_message p left right)

  unfoldable pub blake2b_256 : Bytes → Bytes
  blake2b_256 input = blake.digest input
