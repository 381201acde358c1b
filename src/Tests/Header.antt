-- ===== src/Tests/Header.antt =====
-- The theorems on headers, targets and the difficulty at concrete inputs.
use hns_rs.Base.{
  ◌≡◌, ◌≤◌, ◌<◌, ◌⊎◌, ◌+◌, ◌/◌, ◌^◌, ◌&&◌, ◌∙◌, arith, refl, subst, err, [], ◌∷◌, ◌++◌, ok, some,
  none, true, false, length, leb, map_ok,
}
use hns_rs.Base.Bytes.{Bytes, zeros}
use hns_rs.Base.BigEndian.{from_be_bytes}
use hns_rs.Hash.{Blake2b, Blake2b512, Sha3}
use hns_rs.Encoding.Encoder.{into_bytes, put_bytes, put_u64_le, put_u32_le, with_capacity}
use hns_rs.Tests.Padding.{pad, length-pad}
use hns_rs.Primitives.Chainwork.{Limbs}
use hns_rs.Primitives.Chainwork.Laws.{IsWork, value}
use hns_rs.Header.Codec.{Header, header_size, encode, decode}
use hns_rs.Header.Codec.Laws.{IsHeader, decode-encode_header, decode_every_header}
use hns_rs.Header.Hashing.{
  pow_hash, share_hash, blake2b_256, preheader, commit_hash, sub_hash, mask_hash, subheader,
  padding, padding_from, xor_bytes,
}
use hns_rs.Header.Hashing.Laws.{pow_hash_lem}
use hns_rs.Header.Network.{simnet, parameters, hex32, hex_pairs, hex_nibble}
use hns_rs.Header.U256.{divide_two_to_256}
use hns_rs.Header.U256.Value.{IsNumber}
use hns_rs.Header.U256.Division.{divide_two_to_256_exact}
use hns_rs.Header.Target.{
  DecodedTarget, from_compact, is_met_by, proof, to_compact, from_first, fold_bytes,
}
use hns_rs.Header.Target.Compact.{compact_value, compact_sign, Stands, from_compact_exact}
use hns_rs.Header.Target.Met.{sound, is_met_by-from_compact, proof_exact}
use hns_rs.Header.Target.Rounding.{Rounds, to_compact-Rounds}
use hns_rs.Header.Retarget.{DifficultyPoint, retarget_bits, expected_next_bits}
use hns_rs.Header.Retarget.Laws.{spec_retarget, spec_timespan, spec_limit, retarget_refines}
use hns_rs.Header.Retarget.Limit.{IsPow, IsLimited, network_limits, expected_next_bits-IsLimited}
use hns_rs.Header.Validate.{HeaderValidationContext, validate_header}
use hns_rs.Header.Validate.Laws.{IsLinked, link_error, spec_validate, validate_header_refines}

instance abbrev padded : Blake2b
padded = record { digest = pad 32; length-digest = length-pad 32 }

instance abbrev padded_wide : Blake2b512
padded_wide = record { digest = pad 64; length-digest = length-pad 64 }

instance abbrev padded_sha3 : Sha3
padded_sha3 = record { digest = pad 32; length-digest = length-pad 32 }

abbrev sample_header : Header
sample_header = record {
  nonce = 77;
  time = 1_580_745_099;
  previous_block = 1 ∷ zeros 31;
  tree_root = zeros 32;
  extra_nonce = zeros 24;
  reserved_root = zeros 32;
  witness_root = zeros 32;
  merkle_root = 5 ∷ zeros 31;
  version = 0;
  bits = 0x207f_ffff;
  mask = zeros 32;
}

sample-IsHeader : IsHeader sample_header
sample-IsHeader = record {
  nonce_range = omega arith;
  time_range = omega arith;
  previous_length = refl;
  tree_length = refl;
  extra_length = refl;
  reserved_length = refl;
  witness_length = refl;
  merkle_length = refl;
  version_range = omega arith;
  bits_range = omega arith;
  mask_length = refl;
}

decode-encode_header_example :
    (length (encode sample_header) ≡ header_size)
    × (decode (encode sample_header) ≡ ok sample_header)
decode-encode_header_example = decode-encode_header sample_header sample-IsHeader

abbrev plain_input : Bytes
plain_input = 9 ∷ zeros 235

decode_every_header_example :
    (h : Header) × IsHeader h × (encode h ≡ plain_input) × (decode plain_input ≡ ok h)
decode_every_header_example = decode_every_header plain_input refl (omega arith)

abbrev seventeen : Bytes
seventeen = zeros 31 ++ (17 ∷ [])

seventeen-IsNumber : IsNumber 32 seventeen
seventeen-IsNumber = record { width = refl; bytes = omega arith }

divide_two_to_256_exact_example :
    ((from_be_bytes seventeen ≤ 1) × (divide_two_to_256 seventeen ≡ none))
    ⊎ ((q : Bytes) × (divide_two_to_256 seventeen ≡ some q)
        × IsNumber 32 q
        × (from_be_bytes q ≡ 2 ^ 256 / from_be_bytes seventeen))
divide_two_to_256_exact_example = divide_two_to_256_exact seventeen seventeen-IsNumber

from_compact_exact_example :
    Stands (compact_value 0x1d00_ffff) (from_compact 0x1d00_ffff)
    × ((from_compact 0x1d00_ffff).negative ≡ compact_sign 0x1d00_ffff)
from_compact_exact_example = from_compact_exact 0x1d00_ffff

is_met_by-from_compact_example :
    is_met_by (from_compact 0x1d00_ffff) seventeen
    ≡ (sound 0x1d00_ffff && leb (from_be_bytes seventeen) (compact_value 0x1d00_ffff))
is_met_by-from_compact_example = is_met_by-from_compact 0x1d00_ffff seventeen seventeen-IsNumber

proof_exact_example :
    ((sound 0x1d00_ffff ≡ false) × (proof (from_compact 0x1d00_ffff) ≡ none))
    ⊎ ((sound 0x1d00_ffff ≡ true)
        × ((w : Limbs) × (proof (from_compact 0x1d00_ffff) ≡ some w)
            × IsWork w
            × (value w ≡ 2 ^ 256 / (compact_value 0x1d00_ffff + 1))))
proof_exact_example = proof_exact 0x1d00_ffff

abbrev sample_target : DecodedTarget
sample_target = record {
  bytes = zeros 8 ++ (0x92 ∷ 3 ∷ 4 ∷ 5 ∷ zeros 20);
  negative = false;
  overflow = false;
}

to_compact_test : to_compact sample_target ≡ 0x1900_9203
unfolding to_compact from_first fold_bytes
to_compact_test = refl

sample_positive : 0 < from_be_bytes sample_target.bytes
unfolding from_be_bytes
sample_positive = omega arith

to_compact-Rounds_example : Rounds (to_compact sample_target) (from_be_bytes sample_target.bytes)
to_compact-Rounds_example =
    to_compact-Rounds sample_target (record { width = refl; bytes = omega arith }) sample_positive

abbrev first_point : DifficultyPoint
first_point = record { height = 1; time = 1000; bits = 0x207f_ffff; chainwork = 0 ∷ 0 ∷ 0 ∷ 0 ∷ [] }

abbrev last_point : DifficultyPoint
last_point = record {
  height = 145;
  time = 87_400;
  bits = 0x207f_ffff;
  chainwork = 2880 ∷ 0 ∷ 0 ∷ 0 ∷ [];
}

abbrev previous_point : DifficultyPoint
previous_point = record {
  height = 147;
  time = 88_000;
  bits = 0x207f_ffff;
  chainwork = 2900 ∷ 0 ∷ 0 ∷ 0 ∷ [];
}

first_point-IsWork : IsWork first_point.chainwork
first_point-IsWork = record { four = refl; limbs = omega arith }

last_point-IsWork : IsWork last_point.chainwork
last_point-IsWork = record { four = refl; limbs = omega arith }

sound_simnet : IsPow (parameters simnet).pow
sound_simnet = (network_limits simnet).0

retarget_refines_example :
    retarget_bits (parameters simnet).pow first_point last_point
    ≡ spec_retarget (parameters simnet).pow first_point last_point
retarget_refines_example =
    retarget_refines (parameters simnet).pow first_point last_point sound_simnet.limit_number
      first_point-IsWork last_point-IsWork

spec_test : spec_retarget (parameters simnet).pow first_point last_point ≡ ok 0x200c_cccc
unfolding spec_retarget spec_limit value spec_timespan parameters to_compact from_first fold_bytes
    from_be_bytes hex32 hex_pairs hex_nibble
spec_test = refl

next_bits :
    expected_next_bits
      (parameters simnet).pow
      88_600
      previous_point
      (some first_point)
      (some last_point)
    ≡ ok 0x200c_cccc
unfolding expected_next_bits parameters
next_bits = retarget_refines_example ∙ spec_test

expected_next_bits-IsLimited_example : IsLimited (parameters simnet).pow 0x200c_cccc
expected_next_bits-IsLimited_example =
    expected_next_bits-IsLimited (parameters simnet).pow 88_600 previous_point (some first_point)
      (some last_point) 0x200c_cccc sound_simnet first_point-IsWork last_point-IsWork next_bits

abbrev sample_context : HeaderValidationContext
sample_context = record {
  height = 2;
  previous_block = 1 ∷ zeros 31;
  median_time = 1_580_745_090;
  now = 1_580_745_000;
  expected_bits = 0x207f_ffff;
}

sample_pow : IsNumber 32 (pow_hash sample_header)
unfolding pow_hash share_hash blake2b_256 preheader commit_hash sub_hash mask_hash subheader padding
    padding_from xor_bytes pad into_bytes put_bytes put_u64_le put_u32_le with_capacity
sample_pow = record { width = refl; bytes = omega arith }

validate_header_refines_example :
    (IsLinked (parameters simnet) sample_header sample_context
      × (map_ok value (validate_header (parameters simnet) sample_header sample_context)
          ≡ spec_validate sample_header sample_context))
    ⊎ ((¬ IsLinked (parameters simnet) sample_header sample_context)
        × (map_ok value (validate_header (parameters simnet) sample_header sample_context)
            ≡ err (link_error sample_context)))
validate_header_refines_example =
    validate_header_refines (parameters simnet) sample_header sample_context sample-IsHeader
      (subst (IsNumber 32) (pow_hash_lem sample_header sample-IsHeader) sample_pow)
