-- ===== src/Encoding/Decoder.antt =====
-- crates/hns-encoding/src/lib.rs: `DecodeError` and `Decoder`. A method is a function of the decoder
-- that returns its result with the decoder after it. An error drops the decoder, as every caller
-- does that passes it on by `?`. A `usize` has 64 bits.
use hns_rs.Base.{
  ℕ, ◌+◌, ◌-◌, ◌^◌, Bool, true, false, Option, none, some, List, [], ◌∷◌, String, ltb, leb, ◌==◌,
  if◌then◌else◌, checked_add, length, get_or, slice, Result, ok, err,
}
use hns_rs.Base
use hns_rs.Base.Bytes.{from_le_bytes}

abbrev pub usize_max : ℕ
usize_max = 2 ^ 64 - 1

pub data DecodeError : Type 0 where
  unexpected_end : (offset needed : ℕ) → DecodeError
  length_exceeds_bound : (actual maximum : ℕ) → DecodeError
  trailing_bytes : (remaining : ℕ) → DecodeError
  invalid_value : (field reason : String) → DecodeError

pub record Decoder : Type 0 where
  pub input : List ℕ
  pub position : ℕ

-- A method of the decoder: the result and the decoder after it.
abbrev pub Parser : Type 0 → Type 0 → Type 0
Parser E A = Decoder → Result E (A × Decoder)

module _ {E : Type 0} where
  infixl 5 ◌>>=◌ ◌>>◌
  abbrev pub ◌>>=◌ : {A B : Type 0} → Parser E A → (A → Parser E B) → Parser E B
  ◌>>=◌ p f d = elim (p d) [ ok (a, d') ↦ f a d' | err e ↦ err e ]

  abbrev pub ◌>>◌ : {B : Type 0} → Parser E (Unit {0}) → Parser E B → Parser E B
  p >> q = p >>= λ _. q

  abbrev pub pure : {A : Type 0} → A → Parser E A
  pure a d = ok (a, d)

  -- An early `return Err(e)`.
  abbrev pub fail : {A : Type 0} → E → Parser E A
  fail e d = err e

  abbrev pub ensure : Bool → E → Parser E (Unit {0})
  ensure true e = pure tt
  ensure false e = fail e

  -- A result that does not depend on the decoder.
  abbrev pub lift : {A : Type 0} → Result E A → Parser E A
  lift (ok a) d = ok (a, d)
  lift (err e) d = err e

-- `?` at a method of another error type.
abbrev pub convert : {E F : Type 0} {A : Type 0} → (E → F) → Parser E A → Parser F A
convert f p d = Base.map_err f (p d)

unfoldable pub new : List ℕ → Decoder
new input = record { input = input; position = 0 }

unfoldable pub remaining : Decoder → ℕ
remaining d = length d.input - d.position

unfoldable pub read_slice : ℕ → Parser DecodeError (List ℕ)
unfolding remaining
read_slice n d = elim (checked_add 64 d.position n) [
  | none ↦ err (length_exceeds_bound usize_max (remaining d))
  | some end ↦
      if ltb (length d.input) end
      then err (unexpected_end d.position (end - length d.input))
      else ok (slice d.position end d.input, record d { position = end })
]

-- The constant generic parameter is an argument. The copy into the array keeps the bytes.
unfoldable pub read_array : ℕ → Parser DecodeError (List ℕ)
read_array n = read_slice n

unfoldable pub read_u8 : Parser DecodeError ℕ
read_u8 = do bytes ← read_array 1; pure (get_or bytes 0 0)

unfoldable pub read_u16_le : Parser DecodeError ℕ
read_u16_le = do bytes ← read_array 2; pure (from_le_bytes bytes)

unfoldable pub read_u32_le : Parser DecodeError ℕ
read_u32_le = do bytes ← read_array 4; pure (from_le_bytes bytes)

unfoldable pub read_u64_le : Parser DecodeError ℕ
read_u64_le = do bytes ← read_array 8; pure (from_le_bytes bytes)

-- The three wide forms of a compact size, behind their tag.
unfoldable pub compact_u16 : Parser DecodeError ℕ
compact_u16 = do
  value ← read_u16_le
  if ltb value 0xfd
      then fail (invalid_value "compact size" "noncanonical u16 encoding")
      else pure value

unfoldable pub compact_u32 : Parser DecodeError ℕ
compact_u32 = do
  value ← read_u32_le
  if leb value 0xffff
      then fail (invalid_value "compact size" "noncanonical u32 encoding")
      else pure value

unfoldable pub compact_u64 : Parser DecodeError ℕ
compact_u64 = do
  value ← read_u64_le
  if leb value 0xffff_ffff
      then fail (invalid_value "compact size" "noncanonical u64 encoding")
      else pure value

unfoldable pub read_compact_size : Parser DecodeError ℕ
read_compact_size = do
  value ← read_u8
  if leb value 0xfc
      then pure value
      else if value == 0xfd
      then compact_u16
      else if value == 0xfe
      then compact_u32
      else compact_u64

unfoldable pub read_compact_usize : ℕ → String → Parser DecodeError ℕ
read_compact_usize maximum field = do
  value ← read_compact_size
  if ltb usize_max value
      then fail (length_exceeds_bound usize_max maximum)
      else if ltb maximum value
      then fail (length_exceeds_bound value maximum)
      else pure value

unfoldable pub read_bounded_vec : ℕ → ℕ → Parser DecodeError (List ℕ)
read_bounded_vec n maximum =
    if ltb maximum n then fail (length_exceeds_bound n maximum) else read_slice n

unfoldable pub read_varbytes : ℕ → String → Parser DecodeError (List ℕ)
read_varbytes maximum field = do n ← read_compact_usize maximum field; read_bounded_vec n maximum

unfoldable pub finish : Decoder → Result DecodeError (Unit {0})
unfolding remaining
finish d = if remaining d == 0 then ok tt else err (trailing_bytes (remaining d))
