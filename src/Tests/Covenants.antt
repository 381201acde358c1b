-- ===== src/Tests/Covenants.antt =====
-- The theorems on crates/hns-covenants at concrete inputs.
use hns_rs.Base.{◌↔◌, ◌≡◌, refl, [], ◌∷◌, ok, err, panic, some, none, true, false, ◌>>=◌, length}
use hns_rs.Base.Bytes.{Bytes, codes, bytes_eq}
use hns_rs.Encoding.Encoder.{
  with_capacity, put_u8, put_compact_size, put_varbytes, put_bytes, into_bytes,
}
use hns_rs.Covenants.Name.{
  CovenantError, validate_name, is_reserved, are_name_bytes, is_name_byte, is_alnum, is_joiner,
}
use hns_rs.Covenants.Covenant.{
  Covenant, item, item_u8, bid, as_u8, compact_size_len, add_item_size, add_sizes, encoded_size,
  put_items, put_covenant, encode,
}
use hns_rs.Covenants.Decode.{decode}
use hns_rs.Covenants.Label.{IsLabel, IsReserved, validate_name_iff}
use hns_rs.Covenants.Size.{encode-encoded_size}
use hns_rs.Covenants.RoundTrip.{decode-encode_ok}

abbrev two_items : Covenant
two_items = record { kind = bid; items = (1 ∷ 2 ∷ []) ∷ (3 ∷ []) ∷ [] }

abbrev empty_item : Covenant
empty_item = record { kind = bid; items = [] ∷ (3 ∷ []) ∷ (1 ∷ 2 ∷ []) ∷ [] }

items_u8 :
    (item_u8 {E = CovenantError} empty_item 0 ≡ err panic)
    × (item_u8 {E = CovenantError} empty_item 1 ≡ ok (some 3))
    × (item_u8 {E = CovenantError} empty_item 2 ≡ ok none)
    × (item_u8 {E = CovenantError} empty_item 3 ≡ ok none)
unfolding item_u8 item
items_u8 = (refl, refl, refl, refl)

abbrev two_items_bytes : Bytes
two_items_bytes = 3 ∷ 2 ∷ 2 ∷ 1 ∷ 2 ∷ 1 ∷ 3 ∷ []

encode-two_items : encode two_items ≡ ok two_items_bytes
unfolding encode encoded_size add_sizes add_item_size compact_size_len put_covenant put_items
    put_varbytes put_compact_size put_u8 put_bytes as_u8 with_capacity into_bytes
encode-two_items = refl

decode-encode_ok_example : decode two_items_bytes ≡ ok two_items
decode-encode_ok_example = decode-encode_ok two_items two_items_bytes tt encode-two_items

encode-encoded_size_example :
    (encode two_items >>= λ bytes. ok (length bytes)) ≡ encoded_size two_items
encode-encoded_size_example = encode-encoded_size two_items

dashes_inside : validate_name (codes "a-b_c") ≡ true
unfolding validate_name is_reserved are_name_bytes is_name_byte is_alnum is_joiner bytes_eq
dashes_inside = refl

dash_first : validate_name (codes "-ab") ≡ false
unfolding validate_name is_reserved are_name_bytes is_name_byte is_alnum is_joiner bytes_eq
dash_first = refl

reserved_name : validate_name (codes "localhost") ≡ false
unfolding validate_name is_reserved are_name_bytes is_name_byte is_alnum is_joiner bytes_eq
reserved_name = refl

validate_name_iff_example :
    (validate_name (codes "a-b_c") ≡ true)
    ↔ (IsLabel (codes "a-b_c") × ¬ IsReserved (codes "a-b_c"))
validate_name_iff_example = validate_name_iff (codes "a-b_c")
