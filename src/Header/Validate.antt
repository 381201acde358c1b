-- ===== src/Header/Validate.antt =====
-- crates/hns-header-consensus/src/lib.rs: the validation of a header.
pub mod Laws
use hns_rs.Base.{
  ℕ, ◌+◌, Bool, true, false, not, ◌&&◌, ◌||◌, ltb, leb, ◌==◌, if◌then◌else◌, Option, Result, ok,
  err, ◌>>=◌, ◌>>◌, ensure, ok_or,
}
use hns_rs.Base.Bytes.{Bytes, bytes_eq}
use hns_rs.Hash.{Blake2b, Blake2b512, Sha3}
use hns_rs.Primitives.Chainwork.{Limbs}
use hns_rs.Header.Codec.{
  Header, HeaderError, wrong_genesis, wrong_previous_block, invalid_time, invalid_difficulty,
  invalid_proof_of_work,
}
use hns_rs.Header.Hashing.{pow_hash, block_hash}
use hns_rs.Header.Network.{NetworkParameters, genesis_header}
use hns_rs.Header.Target.{from_compact, is_met_by, proof}
use hns_rs.Header.Retarget.{saturating_add_u64}

pub record HeaderValidationContext : Type 0 where
  pub height : ℕ
  pub previous_block : Bytes
  pub median_time : ℕ
  pub now : ℕ
  pub expected_bits : ℕ

-- The derived equality of headers.
unfoldable pub header_eq : Header → Header → Bool
header_eq a b =
    a.nonce == b.nonce
    && a.time == b.time
    && bytes_eq a.previous_block b.previous_block
    && bytes_eq a.tree_root b.tree_root
    && bytes_eq a.extra_nonce b.extra_nonce
    && bytes_eq a.reserved_root b.reserved_root
    && bytes_eq a.witness_root b.witness_root
    && bytes_eq a.merkle_root b.merkle_root
    && a.version == b.version
    && a.bits == b.bits
    && bytes_eq a.mask b.mask

module _ ⦃blake : Blake2b⦄ ⦃wide : Blake2b512⦄ ⦃sha3 : Sha3⦄ where
  unfoldable pub verify_pow : Header → Bool
  verify_pow h = is_met_by (from_compact h.bits) (pow_hash h)

  -- The test of the link to the chain: the genesis header itself, or the hash of the block before.
  unfoldable pub check_link :
      NetworkParameters → Header → HeaderValidationContext → Result HeaderError (Unit {0})
  check_link parameters header context =
      if context.height == 0
      then ensure
          (header_eq header (genesis_header parameters)
            && bytes_eq (block_hash header) parameters.genesis_hash)
          wrong_genesis
      else ensure (bytes_eq header.previous_block context.previous_block) wrong_previous_block

  unfoldable pub validate_header :
      NetworkParameters → Header → HeaderValidationContext → Result HeaderError Limbs
  validate_header parameters header context = do
    check_link parameters header context
    ensure
        (not (
          leb header.time context.median_time
          || ltb (saturating_add_u64 context.now 7200) header.time))
        invalid_time
    ensure (header.bits == context.expected_bits) invalid_difficulty
    ensure
        (not (
          not (context.height == 0)
          && not (is_met_by (from_compact header.bits) (pow_hash header))))
        invalid_proof_of_work
    ok_or (proof (from_compact header.bits)) invalid_proof_of_work
