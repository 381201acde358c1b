-- ===== src/Tests/Encoding.antt =====
-- The theorems on the encoding of crates/hns-encoding/src/lib.rs at concrete inputs.
use hns_rs.Base.{◌≡◌, ◌<◌, ◌^◌, refl, [], ◌∷◌, ◌++◌, ok, err, drop, arith}
use hns_rs.Encoding.Decoder.{
  Decoder, invalid_value, unexpected_end, read_slice, read_compact_size, read_varbytes, compact_u16,
  read_u16_le, read_u8, read_array,
}
use hns_rs.Encoding.Encoder.{new, put_varbytes, put_compact_size, put_u8, put_bytes}
use hns_rs.Encoding.Reads.{at}
use hns_rs.Encoding.RoundTrip.{read_varbytes-put_varbytes}
use hns_rs.Encoding.Canonical.{read_compact_size_canonical}

-- A compact size of three bytes behind one byte that is read already.
abbrev three_bytes : Decoder
three_bytes = record { input = 7 ∷ 0xfd ∷ 0x00 ∷ 0x01 ∷ 9 ∷ []; position = 1 }

wide_value :
    read_compact_size three_bytes
    ≡ ok (256, record { input = 7 ∷ 0xfd ∷ 0x00 ∷ 0x01 ∷ 9 ∷ []; position = 4 })
unfolding read_compact_size compact_u16 read_u16_le read_u8 read_array read_slice
wide_value = refl

short_value_refused :
    read_compact_size (at [] (0xfd ∷ 0xfc ∷ 0x00 ∷ []))
    ≡ err (invalid_value "compact size" "noncanonical u16 encoding")
unfolding read_compact_size compact_u16 read_u16_le read_u8 read_array read_slice
short_value_refused = refl

end_of_input : read_slice 4 (at (1 ∷ []) (2 ∷ 3 ∷ [])) ≡ err (unexpected_end 1 2)
unfolding read_slice
end_of_input = refl

read_varbytes-put_varbytes_example :
    read_varbytes 10 "field" (at (1 ∷ []) ((put_varbytes (5 ∷ 6 ∷ []) new).bytes ++ (9 ∷ [])))
    ≡ ok (5 ∷ 6 ∷ [], at (put_varbytes (5 ∷ 6 ∷ []) (record { bytes = 1 ∷ [] })).bytes (9 ∷ []))
unfolding put_varbytes put_compact_size put_u8 put_bytes
read_varbytes-put_varbytes_example =
    read_varbytes-put_varbytes (1 ∷ []) (5 ∷ 6 ∷ []) (9 ∷ []) 10 "field" (omega arith) (omega arith)

read_compact_size_canonical_example :
    (drop 1 three_bytes.input ≡ (put_compact_size 256 new).bytes ++ (9 ∷ []))
    × (three_bytes.input ≡ three_bytes.input)
    × (256 < 2 ^ 64)
read_compact_size_canonical_example =
    read_compact_size_canonical three_bytes
      (record { input = 7 ∷ 0xfd ∷ 0x00 ∷ 0x01 ∷ 9 ∷ []; position = 4 }) 256 (omega arith)
      wide_value
