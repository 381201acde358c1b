-- ===== src/Encoding/Encoder.antt =====
-- crates/hns-encoding/src/lib.rs: `Encoder`. A method that changes the encoder returns the changed one.
use hns_rs.Base.{ℕ, ◌%◌, ◌^◌, List, [], ◌∷◌, ◌++◌, leb, if◌then◌else◌, ◌|>◌, length}
use hns_rs.Base.Bytes.{to_le_bytes}

pub record Encoder : Type 0 where
  pub bytes : List ℕ

unfoldable pub new : Encoder
new = record { bytes = [] }

-- The capacity reserves memory only.
unfoldable pub with_capacity : ℕ → Encoder
with_capacity capacity = record { bytes = [] }

unfoldable pub put_bytes : List ℕ → Encoder → Encoder
put_bytes value e = record e { bytes = e.bytes ++ value }

unfoldable pub put_u8 : ℕ → Encoder → Encoder
put_u8 value e = record e { bytes = e.bytes ++ (value ∷ []) }

unfoldable pub put_u16_le : ℕ → Encoder → Encoder
put_u16_le value e = record e { bytes = e.bytes ++ to_le_bytes 2 value }

unfoldable pub put_u32_le : ℕ → Encoder → Encoder
put_u32_le value e = record e { bytes = e.bytes ++ to_le_bytes 4 value }

unfoldable pub put_u64_le : ℕ → Encoder → Encoder
put_u64_le value e = record e { bytes = e.bytes ++ to_le_bytes 8 value }

-- `value as u8` keeps the low byte; the wider casts likewise.
unfoldable pub put_compact_size : ℕ → Encoder → Encoder
put_compact_size value e =
    if leb value 0xfc
    then e |> put_u8 (value % 2 ^ 8)
    else if leb value 0xffff
    then e |> put_u8 0xfd |> put_u16_le (value % 2 ^ 16)
    else if leb value 0xffff_ffff
    then e |> put_u8 0xfe |> put_u32_le (value % 2 ^ 32)
    else e |> put_u8 0xff |> put_u64_le value

unfoldable pub put_varbytes : List ℕ → Encoder → Encoder
put_varbytes value e = e |> put_compact_size (length value % 2 ^ 64) |> put_bytes value

unfoldable pub into_bytes : Encoder → List ℕ
into_bytes e = e.bytes
