-- ===== src/Covenants/NameState/Decode.antt =====
-- crates/hns-covenants/src/name_state.rs: the decoder of a name state.
use hns_rs.Base
use hns_rs.Base.{
  ℕ, ◌-◌, ◌/◌, ◌%◌, ◌^◌, Bool, not, String, ltb, ◌==◌, if◌then◌else◌, length, Result, ok, err,
}
use hns_rs.Base.Bytes.{Bytes, bytes_eq}
use hns_rs.Hash.{Sha3}
use hns_rs.Primitives.{Outpoint, null_outpoint, u32_max}
use hns_rs.Encoding.Decoder.{
  DecodeError, Parser, ◌>>=◌, ◌>>◌, pure, fail, ensure, lift, convert, new, read_u8, read_u16_le,
  read_u32_le, read_array, read_compact_size, read_bounded_vec, finish,
}
use hns_rs.Covenants.Name.{
  CovenantError, decode_error, too_large, invalid_name_state, non_canonical_name_state,
  max_name_size, max_resource_size,
}
use hns_rs.Covenants.NameState.{
  NameState, max_name_state_size, validate_key_binding, validate_safe_integer, encode,
}

-- `field & (1 << k) != 0`
abbrev pub is_set : ℕ → ℕ → Bool
is_set field k = field / 2 ^ k % 2 == 1

-- A call of the decoder whose error `?` wraps.
abbrev pub step : {A : Type 0} → Parser DecodeError A → Parser CovenantError A
step p = convert decode_error p

-- `if test { read } else { default }`
abbrev pub read_if : {A : Type 0} → Bool → Parser CovenantError A → A → Parser CovenantError A
read_if test p default = if test then p else pure default

unfoldable pub read_safe_integer : Parser CovenantError ℕ
read_safe_integer = do
  value ← step read_compact_size
  lift (validate_safe_integer value)
  pure value

unfoldable pub read_u32_compact : String → Parser CovenantError ℕ
read_u32_compact overflow_reason = do
  value ← step read_compact_size
  if ltb u32_max value then fail (invalid_name_state overflow_reason) else pure value

unfoldable pub read_owner : Parser CovenantError Outpoint
read_owner = do
  transaction_hash ← step (read_array 32)
  index ← read_u32_compact "owner index exceeds u32"
  pure (record { transaction_hash = transaction_hash; index = index })

-- What stands behind the bitmap.
unfoldable pub decode_optional : Bytes → Bytes → Bytes → ℕ → ℕ → ℕ → Parser CovenantError NameState
decode_optional name_hash name resource_data height renewal field = do
  owner ← read_if (is_set field 0) read_owner null_outpoint
  value ← read_if (is_set field 1) read_safe_integer 0
  highest ← read_if (is_set field 2) read_safe_integer 0
  transfer ← read_if (is_set field 3) (step read_u32_le) 0
  revoked ← read_if (is_set field 4) (step read_u32_le) 0
  claimed ← read_if (is_set field 5) (step read_u32_le) 0
  renewals ← read_if (is_set field 6) (read_u32_compact "renewal count exceeds u32") 0
  pure (record {
    name_hash = name_hash;
    name = name;
    height = height;
    renewal = renewal;
    owner = owner;
    value = value;
    highest = highest;
    resource_data = resource_data;
    transfer = transfer;
    revoked = revoked;
    claimed = claimed;
    renewals = renewals;
    registered = is_set field 7;
    expired = is_set field 8;
    weak = is_set field 9;
  })

-- `field & !NAME_STATE_FIELD_MASK != 0`: a bit above the tenth is set.
unfoldable pub decode_heights : Bytes → Bytes → Bytes → Parser CovenantError NameState
decode_heights name_hash name resource_data = do
  height ← step read_u32_le
  renewal ← step read_u32_le
  field ← step read_u16_le
  ensure (field / 2 ^ 10 == 0) (invalid_name_state "optional-field bitmap contains unknown bits")
  decode_optional name_hash name resource_data height renewal field

unfoldable pub decode_fields : Bytes → Parser CovenantError NameState
decode_fields name_hash = do
  name_length ← step read_u8
  ensure (not (ltb max_name_size name_length)) (invalid_name_state "name exceeds 63 bytes")
  name ← step (read_bounded_vec name_length max_name_size)
  resource_length ← step read_u16_le
  ensure (not (ltb max_resource_size resource_length))
      (invalid_name_state "resource data exceeds 512 bytes")
  resource_data ← step (read_bounded_vec resource_length max_resource_size)
  decode_heights name_hash name resource_data

module _ ⦃sha3 : Sha3⦄ where
  -- What is tested of a state that was read to the end of the input.
  unfoldable pub accept : NameState → Bytes → Result CovenantError NameState
  accept state input = Base.◌>>◌ (validate_key_binding state) (
      Base.◌>>=◌ (encode state)
        (λ canonical. if bytes_eq canonical input then ok state else err non_canonical_name_state))

  unfoldable pub decode : Bytes → Bytes → Result CovenantError NameState
  decode name_hash input =
      if ltb max_name_state_size (length input)
      then err (too_large (length input) max_name_state_size)
      else Base.◌>>=◌ (decode_fields name_hash (new input))
          (λ r. Base.◌>>◌ (Base.map_err decode_error (finish r.1)) (accept r.0 input))

  unfoldable pub decode_name_state : Bytes → Bytes → Result CovenantError NameState
  decode_name_state name_hash input = decode name_hash input
