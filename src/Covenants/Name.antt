-- ===== src/Covenants/Name.antt =====
-- crates/hns-covenants/src/lib.rs: the errors, valid names, name hashes and blinded bids.
use hns_rs.Base.{
  ℕ, ◌+◌, Bool, true, false, not, ◌&&◌, ◌||◌, [], ◌∷◌, ◌++◌, String, ltb, leb, ◌==◌, if◌then◌else◌,
  length, Result, ok, err,
}
use hns_rs.Base.Bytes.{Bytes, codes, bytes_eq, to_le_bytes}
use hns_rs.Hash.{Blake2b, Sha3}
use hns_rs.Encoding.Decoder.{DecodeError}

abbrev pub max_name_size : ℕ
max_name_size = 63

abbrev pub max_resource_size : ℕ
max_resource_size = 512

pub data CovenantError : Type 0 where
  decode_error : DecodeError → CovenantError
  too_large : (actual maximum : ℕ) → CovenantError
  invalid_name : CovenantError
  unsupported_resource_version : CovenantError
  unsupported_resource_record : (kind : ℕ) → CovenantError
  invalid_resource : String → CovenantError
  invalid_name_state : String → CovenantError
  non_canonical_name_state : CovenantError
  name_state_hash_mismatch : CovenantError
  invalid_transfer_covenant : String → CovenantError
  invalid_finalize_covenant : String → CovenantError
  finalize_name_hash_mismatch : CovenantError

-- `b'0'..=b'9' | b'a'..=b'z'`
unfoldable pub is_alnum : ℕ → Bool
is_alnum b = leb b'0' b && leb b b'9' || leb b'a' b && leb b b'z'

-- `b'-' | b'_'`
unfoldable pub is_joiner : ℕ → Bool
is_joiner b = b == b'-' || b == b'_'

-- The test of the byte at `index` in a name of `total` bytes.
unfoldable pub is_name_byte : ℕ → ℕ → ℕ → Bool
is_name_byte total index b =
    is_alnum b || is_joiner b && not (index == 0) && not (index + 1 == total)

-- The test of every byte, from `index` on.
unfoldable pub are_name_bytes : ℕ → ℕ → Bytes → Bool
are_name_bytes total index [] = true
are_name_bytes total index (b ∷ bs) =
    is_name_byte total index b && are_name_bytes total (index + 1) bs

unfoldable pub is_reserved : Bytes → Bool
is_reserved name =
    bytes_eq name (codes "example")
    || bytes_eq name (codes "invalid")
    || bytes_eq name (codes "local")
    || bytes_eq name (codes "localhost")
    || bytes_eq name (codes "test")

unfoldable pub validate_name : Bytes → Bool
validate_name name =
    if length name == 0 || ltb max_name_size (length name)
    then false
    else if is_reserved name
    then false
    else are_name_bytes (length name) 0 name

module _ ⦃sha3 : Sha3⦄ where
  unfoldable pub hash_name : Bytes → Result CovenantError Bytes
  hash_name name = if not (validate_name name) then err invalid_name else ok (sha3.digest name)

module _ ⦃blake : Blake2b⦄ where
  unfoldable pub blind_bid : ℕ → Bytes → Bytes
  blind_bid value nonce = blake.digest (to_le_bytes 8 value ++ nonce)
