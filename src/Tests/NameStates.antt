-- ===== src/Tests/NameStates.antt =====
-- The theorems on name states and on TRANSFER and FINALIZE covenants at concrete inputs.
use hns_rs.Base.{◌≡◌, ◌⊎◌, ◌≤◌, arith, refl, [], ◌∷◌, ◌++◌, ok, true, false, length, replicate}
use hns_rs.Base.Bytes.{Bytes, codes, zeros, bytes_eq}
use hns_rs.Hash.{Sha3}
use hns_rs.Tests.Padding.{pad, length-pad}
use hns_rs.Primitives.{null_outpoint, is_null_outpoint}
use hns_rs.Encoding.Encoder.{
  with_capacity, put_u8, put_u16_le, put_u32_le, put_compact_size, put_bytes, into_bytes,
}
use hns_rs.Covenants.Name.{
  validate_name, hash_name, is_reserved, are_name_bytes, is_name_byte, is_alnum, is_joiner,
}
use hns_rs.Covenants.Covenant.{Covenant, transfer, finalize}
use hns_rs.Covenants.NameState.{
  NameState, max_name_state_size, is_null, validate_key_binding, validate_lengths,
  validate_safe_integer, field_bits, put_name_state, encode,
}
use hns_rs.Covenants.NameState.Decode.{decode, decode_name_state}
use hns_rs.Covenants.NameState.Laws.{IsInRange, decode-encode_state}
use hns_rs.Covenants.NameState.Canonical.{decode_canonical}
use hns_rs.Covenants.Transfer
use hns_rs.Covenants.Transfer.{TransferCovenant}
use hns_rs.Covenants.Transfer.Laws.{try_from-to_covenant, to_covenant-try_from}
use hns_rs.Covenants.Finalize
use hns_rs.Covenants.Finalize.{FinalizeCovenant}
use hns_rs.Covenants.Finalize.Laws.{
  IsFinalize, finalize_round_trip, finalize_canonical, finalize_covenant, from_name_state-decode,
}

instance abbrev padded : Sha3
padded = record { digest = pad 32; length-digest = length-pad 32 }

abbrev sample_name : Bytes
sample_name = codes "ab-c"

abbrev sample_hash : Bytes
sample_hash = sample_name ++ zeros 28

abbrev sample_state : NameState
sample_state = record {
  name_hash = sample_hash;
  name = sample_name;
  height = 7;
  renewal = 300;
  owner = null_outpoint;
  value = 1000;
  highest = 0;
  resource_data = 1 ∷ 2 ∷ [];
  transfer = 0;
  revoked = 0;
  claimed = 0;
  renewals = 2;
  registered = true;
  expired = false;
  weak = true;
}

abbrev sample_bytes : Bytes
sample_bytes =
    4
    ∷ (sample_name
        ++ (2 ∷ 0 ∷ 1 ∷ 2 ∷ 7 ∷ 0 ∷ 0 ∷ 0 ∷ 44 ∷ 1 ∷ 0 ∷ 0 ∷ 194 ∷ 2 ∷ 253 ∷ 232 ∷ 3 ∷ 2 ∷ []))

encode-sample : encode sample_state ≡ ok sample_bytes
unfolding encode validate_lengths validate_safe_integer validate_key_binding is_null
    is_null_outpoint hash_name validate_name is_reserved are_name_bytes is_name_byte is_alnum
    is_joiner bytes_eq pad put_name_state put_u8 put_u16_le put_u32_le put_compact_size put_bytes
    field_bits with_capacity into_bytes
encode-sample = refl

sample-IsInRange : IsInRange sample_state
sample-IsInRange = record {
  height_range = omega arith;
  renewal_range = omega arith;
  hash_length = refl;
  index_range = omega arith;
  transfer_range = omega arith;
  revoked_range = omega arith;
  claimed_range = omega arith;
  renewals_range = omega arith;
}

decode-encode_state_example :
    (length sample_bytes ≤ max_name_state_size)
    × (decode sample_hash sample_bytes ≡ ok sample_state)
decode-encode_state_example =
    decode-encode_state sample_state sample_bytes sample-IsInRange encode-sample

decode_canonical_example :
    (encode sample_state ≡ ok sample_bytes)
    × (sample_state.name_hash ≡ sample_hash)
    × ((is_null sample_state ≡ true) ⊎ (hash_name sample_name ≡ ok sample_hash))
decode_canonical_example =
    decode_canonical sample_hash sample_bytes sample_state
      ((decode-encode_state sample_state sample_bytes sample-IsInRange encode-sample).1)

decode-sample : decode_name_state sample_hash sample_bytes ≡ ok sample_state
unfolding decode_name_state
decode-sample = (decode-encode_state sample_state sample_bytes sample-IsInRange encode-sample).1

abbrev sample_transfer : TransferCovenant
sample_transfer = record {
  name_hash = sample_hash;
  start_height = 258;
  recipient_version = 0;
  recipient_hash = replicate 20 9;
}

abbrev sample_transfer_covenant : Covenant
sample_transfer_covenant = record {
  kind = transfer;
  items = sample_hash ∷ (2 ∷ 1 ∷ 0 ∷ 0 ∷ []) ∷ (0 ∷ []) ∷ replicate 20 9 ∷ [];
}

to_covenant-sample : Transfer.to_covenant sample_transfer ≡ ok sample_transfer_covenant
unfolding Transfer.to_covenant Transfer.validate Transfer.is_address_length
to_covenant-sample = refl

try_from-to_covenant_example : Transfer.try_from sample_transfer_covenant ≡ ok sample_transfer
try_from-to_covenant_example =
    try_from-to_covenant sample_transfer sample_transfer_covenant refl (omega arith)
      to_covenant-sample

try_from-sample : Transfer.try_from sample_transfer_covenant ≡ ok sample_transfer
unfolding Transfer.try_from Transfer.from_items Transfer.validate Transfer.is_address_length
    Transfer.is_transfer
try_from-sample = refl

to_covenant-try_from_example : Transfer.to_covenant sample_transfer ≡ ok sample_transfer_covenant
to_covenant-try_from_example =
    to_covenant-try_from sample_transfer_covenant sample_transfer (search arith) try_from-sample

abbrev sample_finalize : FinalizeCovenant
sample_finalize = record {
  name_hash = sample_hash;
  start_height = 7;
  name = sample_name;
  flags = 1;
  claimed = 0;
  renewals = 2;
  renewal_block = replicate 32 5;
}

abbrev sample_finalize_covenant : Covenant
sample_finalize_covenant = record {
  kind = finalize;
  items =
      sample_hash
      ∷ (7 ∷ 0 ∷ 0 ∷ 0 ∷ [])
      ∷ sample_name
      ∷ (1 ∷ [])
      ∷ (0 ∷ 0 ∷ 0 ∷ 0 ∷ [])
      ∷ (2 ∷ 0 ∷ 0 ∷ 0 ∷ [])
      ∷ replicate 32 5
      ∷ [];
}

sample-IsFinalize : IsFinalize sample_finalize
sample-IsFinalize = record {
  hash_length = refl;
  height_range = omega arith;
  claimed_range = omega arith;
  renewals_range = omega arith;
  block_length = refl;
}

finalize-sample : Finalize.to_covenant sample_finalize ≡ ok sample_finalize_covenant
unfolding Finalize.to_covenant Finalize.validate hash_name validate_name is_reserved are_name_bytes
    is_name_byte is_alnum is_joiner bytes_eq pad
finalize-sample = refl

finalize_round_trip_example : Finalize.try_from sample_finalize_covenant ≡ ok sample_finalize
finalize_round_trip_example =
    finalize_round_trip sample_finalize sample_finalize_covenant sample-IsFinalize finalize-sample

read_finalize-sample : Finalize.try_from sample_finalize_covenant ≡ ok sample_finalize
unfolding Finalize.try_from Finalize.from_items Finalize.is_finalize Finalize.validate hash_name
    validate_name is_reserved are_name_bytes is_name_byte is_alnum is_joiner bytes_eq pad
read_finalize-sample = refl

finalize_canonical_example : Finalize.to_covenant sample_finalize ≡ ok sample_finalize_covenant
finalize_canonical_example =
    finalize_canonical sample_finalize_covenant sample_finalize (search arith) read_finalize-sample

not_null : is_null sample_state ≡ false
unfolding is_null is_null_outpoint
not_null = refl

from_name_state-decode_example :
    (f : FinalizeCovenant) × (Finalize.from_name_state sample_state (replicate 32 5) ≡ ok f)
    × (f.name_hash ≡ sample_hash)
    × (hash_name f.name ≡ ok sample_hash)
    × (Finalize.to_covenant f ≡ ok (finalize_covenant f))
from_name_state-decode_example =
    from_name_state-decode sample_hash sample_bytes (replicate 32 5) sample_state decode-sample
      not_null
