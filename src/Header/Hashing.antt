-- ===== src/Header/Hashing.antt =====
-- crates/hns-header-consensus/src/lib.rs: the hashes of a header.
pub mod Laws
use Prim.Native.Nat.{bit_xor}
use hns_rs.Base.{ℕ, zero, suc, ◌+◌, ◌%◌, List, [], ◌∷◌, ◌|>◌, get_or}
use hns_rs.Base.Bytes.{Bytes}
use hns_rs.Hash.{Blake2b, Blake2b512, Sha3, flatten}
use hns_rs.Encoding.Encoder.{with_capacity, put_u32_le, put_u64_le, put_bytes, into_bytes}
use hns_rs.Header.Codec.{Header}

-- The bytes of the padding from `index` on.
unfoldable pub padding_from : Header → ℕ → ℕ → Bytes
padding_from h index zero = []
padding_from h index (suc count) =
    bit_xor (get_or h.previous_block (index % 32) 0) (get_or h.tree_root (index % 32) 0)
    ∷ padding_from h (index + 1) count

unfoldable pub padding : ℕ → Header → Bytes
padding size h = padding_from h 0 size

unfoldable pub subheader : Header → Bytes
subheader h = into_bytes (
    with_capacity 128
    |> put_bytes h.extra_nonce
    |> put_bytes h.reserved_root
    |> put_bytes h.witness_root
    |> put_bytes h.merkle_root
    |> put_u32_le h.version
    |> put_u32_le h.bits)

-- `for (byte, mask) in hash.iter_mut().zip(mask) { *byte ^= mask; }`
unfoldable pub xor_bytes : Bytes → Bytes → Bytes
xor_bytes (x ∷ xs) (y ∷ ys) = bit_xor x y ∷ xor_bytes xs ys
xor_bytes xs ys = xs

module _ ⦃blake : Blake2b⦄ where
  unfoldable pub blake2b_256 : List Bytes → Bytes
  blake2b_256 parts = blake.digest (flatten parts)

  unfoldable pub sub_hash : Header → Bytes
  sub_hash h = blake2b_256 (subheader h ∷ [])

  unfoldable pub mask_hash : Header → Bytes
  mask_hash h = blake2b_256 (h.previous_block ∷ h.mask ∷ [])

  unfoldable pub commit_hash : Header → Bytes
  commit_hash h = blake2b_256 (sub_hash h ∷ mask_hash h ∷ [])

  unfoldable pub preheader : Header → Bytes
  preheader h = into_bytes (
      with_capacity 128
      |> put_u32_le h.nonce
      |> put_u64_le h.time
      |> put_bytes (padding 20 h)
      |> put_bytes h.previous_block
      |> put_bytes h.tree_root
      |> put_bytes (commit_hash h))

module _ ⦃blake : Blake2b⦄ ⦃wide : Blake2b512⦄ ⦃sha3 : Sha3⦄ where
  unfoldable pub share_hash : Header → Bytes
  share_hash h =
      let left = wide.digest (preheader h) in
      let right = sha3.digest (flatten (preheader h ∷ padding 8 h ∷ [])) in
      blake2b_256 (left ∷ padding 32 h ∷ right ∷ [])

  unfoldable pub pow_hash : Header → Bytes
  pow_hash h = xor_bytes (share_hash h) h.mask

  unfoldable pub block_hash : Header → Bytes
  block_hash h = pow_hash h
