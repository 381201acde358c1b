-- ===== src/Covenants/NameState.antt =====
-- crates/hns-covenants/src/name_state.rs: the value of the authenticated name tree.
pub mod Decode
pub mod Field
pub mod RoundTrip
pub mod Bounds
pub mod Laws
pub mod Canonical
use hns_rs.Base.{
  ℕ, ◌+◌, ◌-◌, ◌%◌, ◌^◌, Bool, true, false, not, ◌&&◌, Option, none, some, [], ltb, ◌==◌,
  if◌then◌else◌, ◌|>◌, length, Result, ok, err, ◌>>=◌, ◌>>◌, ensure,
}
use hns_rs.Base.Bytes.{Bytes, bytes_eq}
use hns_rs.Hash.{Sha3}
use hns_rs.Primitives.{Outpoint, null_outpoint, is_null_outpoint}
use hns_rs.Encoding.Encoder.{
  Encoder, with_capacity, put_u8, put_u16_le, put_u32_le, put_bytes, put_compact_size, into_bytes,
}
use hns_rs.Encoding.Writes.{put_if}
use hns_rs.Covenants.Name.{
  CovenantError, too_large, name_state_hash_mismatch, invalid_name_state, max_name_size,
  max_resource_size, hash_name,
}

abbrev pub max_name_state_size : ℕ
max_name_state_size = 668

abbrev pub hsd_max_safe_integer : ℕ
hsd_max_safe_integer = 2 ^ 53 - 1

pub record NameState : Type 0 where
  pub name_hash : Bytes
  pub name : Bytes
  pub height : ℕ
  pub renewal : ℕ
  pub owner : Outpoint
  pub value : ℕ
  pub highest : ℕ
  pub resource_data : Bytes
  pub transfer : ℕ
  pub revoked : ℕ
  pub claimed : ℕ
  pub renewals : ℕ
  pub registered : Bool
  pub expired : Bool
  pub weak : Bool

abbrev pub null_name_state : Bytes → NameState
null_name_state name_hash = record {
  name_hash = name_hash;
  name = [];
  height = 0;
  renewal = 0;
  owner = null_outpoint;
  value = 0;
  highest = 0;
  resource_data = [];
  transfer = 0;
  revoked = 0;
  claimed = 0;
  renewals = 0;
  registered = false;
  expired = false;
  weak = false;
}

unfoldable pub is_null : NameState → Bool
is_null s =
    s.height == 0
    && s.renewal == 0
    && is_null_outpoint s.owner
    && s.value == 0
    && s.highest == 0
    && length s.resource_data == 0
    && s.transfer == 0
    && s.revoked == 0
    && s.claimed == 0
    && s.renewals == 0
    && not s.registered
    && not s.expired
    && not s.weak

unfoldable pub owner_outpoint : NameState → Option Outpoint
owner_outpoint s = if not (is_null_outpoint s.owner) then some s.owner else none

module _ ⦃sha3 : Sha3⦄ where
  -- `hash_name` is asked only of a state that is not null.
  unfoldable pub validate_key_binding : NameState → Result CovenantError (Unit {0})
  validate_key_binding s =
      if is_null s
      then ok tt
      else do hash ← hash_name s.name; ensure (bytes_eq hash s.name_hash) name_state_hash_mismatch

unfoldable pub validate_lengths : ℕ → ℕ → Result CovenantError (Unit {0})
validate_lengths name_length resource_length = do
  ensure (not (ltb max_name_size name_length)) (too_large name_length max_name_size)
  ensure (not (ltb max_resource_size resource_length)) (too_large resource_length max_resource_size)
  ok tt

unfoldable pub validate_safe_integer : ℕ → Result CovenantError (Unit {0})
validate_safe_integer value =
    if ltb hsd_max_safe_integer value
    then err (invalid_name_state "compact integer exceeds HSD's safe-integer range")
    else ok tt

-- `if test { field |= 1 << k }` of a bit that is not set yet.
abbrev pub flag : Bool → ℕ → ℕ
flag true k = 2 ^ k
flag false k = 0

unfoldable pub field_bits : NameState → ℕ
field_bits s =
    flag (not (is_null_outpoint s.owner)) 0
    + flag (not (s.value == 0)) 1
    + flag (not (s.highest == 0)) 2
    + flag (not (s.transfer == 0)) 3
    + flag (not (s.revoked == 0)) 4
    + flag (not (s.claimed == 0)) 5
    + flag (not (s.renewals == 0)) 6
    + flag s.registered 7
    + flag s.expired 8
    + flag s.weak 9

unfoldable pub put_name_state : NameState → Encoder → Encoder
put_name_state s e =
    e
    |> put_u8 (length s.name % 2 ^ 8)
    |> put_bytes s.name
    |> put_u16_le (length s.resource_data % 2 ^ 16)
    |> put_bytes s.resource_data
    |> put_u32_le s.height
    |> put_u32_le s.renewal
    |> put_u16_le (field_bits s)
    |> put_if (not (is_null_outpoint s.owner))
        (λ e. e |> put_bytes s.owner.transaction_hash |> put_compact_size s.owner.index)
    |> put_if (not (s.value == 0)) (put_compact_size s.value)
    |> put_if (not (s.highest == 0)) (put_compact_size s.highest)
    |> put_if (not (s.transfer == 0)) (put_u32_le s.transfer)
    |> put_if (not (s.revoked == 0)) (put_u32_le s.revoked)
    |> put_if (not (s.claimed == 0)) (put_u32_le s.claimed)
    |> put_if (not (s.renewals == 0)) (put_compact_size s.renewals)

module _ ⦃sha3 : Sha3⦄ where
  unfoldable pub encode : NameState → Result CovenantError Bytes
  encode s = do
    validate_lengths (length s.name) (length s.resource_data)
    validate_safe_integer s.value
    validate_safe_integer s.highest
    validate_key_binding s
    ok (into_bytes (put_name_state s (with_capacity max_name_state_size)))

  unfoldable pub encode_name_state : NameState → Result CovenantError Bytes
  encode_name_state s = encode s
