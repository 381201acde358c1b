-- ===== src/Header/Target.antt =====
-- crates/hns-header-consensus/src/lib.rs: `DecodedTarget` and compact targets.
pub mod Compact
pub mod Met
pub mod Rounding
use hns_rs.Base.{
  ℕ, zero, suc, ◌+◌, ◌-◌, ◌*◌, ◌/◌, ◌%◌, ◌^◌, Bool, true, false, not, ◌&&◌, ◌||◌, List, [], ◌∷◌,
  ◌++◌, ltb, leb, ◌==◌, if◌then◌else◌, Option, some, none, get_or, ◌|>◌, length,
}
use hns_rs.Base.Bytes.{Bytes, zeros}
use hns_rs.Base.BigEndian.{to_be_bytes}
use hns_rs.Primitives.Chainwork.{Limbs, work_from_be_bytes}
use hns_rs.Header.U256.{is_less, work_for_target}

pub record DecodedTarget : Type 0 where
  pub bytes : Bytes
  pub negative : Bool
  pub overflow : Bool

unfoldable pub put_at : ℕ → ℕ → Bytes → Bytes
put_at index byte [] = []
put_at zero byte (a ∷ xs) = byte ∷ xs
put_at (suc index) byte (a ∷ xs) = a ∷ put_at index byte xs

-- One round of the loop over the bytes of the mantissa. The position `32 - exponent + offset` is signed.
unfoldable pub place_byte : ℕ → ℕ → ℕ → Bytes × Bool → Bytes × Bool
place_byte exponent offset byte (bytes, overflow) =
    if ltb (32 + offset) exponent || leb 32 (32 + offset - exponent)
    then (bytes, overflow || not (byte == 0))
    else (put_at (32 + offset - exponent) byte bytes, overflow)

unfoldable pub place_mantissa : ℕ → ℕ → Bytes × Bool
place_mantissa exponent mantissa =
    (zeros 32, false)
    |> place_byte exponent 0 (mantissa / 2 ^ 16 % 256)
    |> place_byte exponent 1 (mantissa / 2 ^ 8 % 256)
    |> place_byte exponent 2 (mantissa % 256)

unfoldable pub from_compact : ℕ → DecodedTarget
from_compact bits =
    let exponent = bits / 2 ^ 24 in
    let negative = bits / 0x0080_0000 % 2 == 1 in
    let mantissa = bits % 0x0080_0000 in
    if bits == 0
    then record { bytes = zeros 32; negative = false; overflow = false }
    else if leb exponent 3
    then record {
      bytes = zeros 29 ++ to_be_bytes 3 (mantissa / 2 ^ (8 * (3 - exponent)));
      negative = negative;
      overflow = false;
    }
    else record {
      bytes = (place_mantissa exponent mantissa).0;
      negative = negative;
      overflow = (place_mantissa exponent mantissa).1;
    }

unfoldable pub any_nonzero : Bytes → Bool
any_nonzero [] = false
any_nonzero (b ∷ bs) = not (b == 0) || any_nonzero bs

unfoldable pub is_valid : DecodedTarget → Bool
is_valid t = not t.negative && not t.overflow && any_nonzero t.bytes

-- `hash <= &self.bytes`
unfoldable pub is_met_by : DecodedTarget → Bytes → Bool
is_met_by t hash = is_valid t && not (is_less t.bytes hash)

unfoldable pub proof : DecodedTarget → Option Limbs
proof t =
    if not (is_valid t)
    then none
    else elim (work_for_target t.bytes) [ none ↦ none | some work ↦ some (work_from_be_bytes work) ]

-- `position(|byte| *byte != 0)` as the bytes from the first nonzero one on: their number is `32 - first`.
unfoldable pub from_first : Bytes → Bytes
from_first [] = []
from_first (b ∷ bs) = if b == 0 then from_first bs else b ∷ bs

-- `for byte in .. { value = (value << 8) | byte }`
unfoldable pub fold_bytes : ℕ → Bytes → ℕ
fold_bytes value [] = value
fold_bytes value (b ∷ bs) = fold_bytes (value * 2 ^ 8 + b) bs

unfoldable pub to_compact : DecodedTarget → ℕ
to_compact t =
    let digits = from_first t.bytes in
    let exponent = length digits in
    let mantissa =
      if leb exponent 3
      then fold_bytes 0 digits * 2 ^ (8 * (3 - exponent))
      else get_or digits 0 0 * 2 ^ 16 + get_or digits 1 0 * 2 ^ 8 + get_or digits 2 0 in
    if exponent == 0
    then 0
    else if mantissa / 0x0080_0000 % 2 == 1
    then (exponent + 1) * 2 ^ 24 + mantissa / 2 ^ 8
    else exponent * 2 ^ 24 + mantissa
