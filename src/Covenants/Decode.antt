-- ===== src/Covenants/Decode.antt =====
-- crates/hns-covenants/src/lib.rs: the covenant decoder with its budget.
use hns_rs.Base.{
  ℕ, zero, suc, ◌+◌, ◌-◌, Bool, not, List, [], ◌∷◌, ltb, if◌then◌else◌, length, Result, ok, err,
}
use hns_rs.Base
use hns_rs.Base.Bytes.{Bytes}
use Prim.Native.Nat.{min}
use hns_rs.Encoding.Decoder.{
  Parser, ◌>>=◌, ◌>>◌, pure, ensure, convert, new, read_u8, read_compact_usize, read_bounded_vec,
  finish, usize_max,
}
use hns_rs.Covenants.Name.{CovenantError, decode_error, too_large}
use hns_rs.Covenants.Covenant.{
  Covenant, from_u8, max_covenant_items, max_covenant_item_size, max_covenant_encoded_size,
}

-- `decoder.position()` as a step that reads nothing.
abbrev pub position : {E : Type 0} → Parser E ℕ
position d = ok (d.position, d)

unfoldable pub ensure_decode_budget : ℕ → ℕ → Parser CovenantError ℕ
ensure_decode_budget start maximum d =
    let consumed = d.position - start in
    if ltb maximum consumed then err (too_large consumed maximum) else ok (maximum - consumed, d)

-- One round of the loop over the items behind the size. The two saturating operations do not
-- saturate: `start` is an earlier position, and the sum is of two lengths within the input.
unfoldable pub decode_payload : ℕ → ℕ → ℕ → Parser CovenantError Bytes
decode_payload start maximum size = do
  remaining ← ensure_decode_budget start maximum
  here ← position
  ensure (not (ltb remaining size)) (too_large (min (here - start + size) usize_max) maximum)
  convert decode_error (read_bounded_vec size remaining)

unfoldable pub decode_item : ℕ → ℕ → Parser CovenantError Bytes
decode_item start maximum = do
  size ← convert decode_error (read_compact_usize max_covenant_item_size "covenant item")
  decode_payload start maximum size

unfoldable pub decode_items : ℕ → ℕ → ℕ → Parser CovenantError (List Bytes)
decode_items start maximum zero = pure []
decode_items start maximum (suc count) = do
  item ← decode_item start maximum
  items ← decode_items start maximum count
  pure (item ∷ items)

unfoldable pub decode_from_with_limit : ℕ → Parser CovenantError Covenant
decode_from_with_limit limit = do
  let maximum = min limit max_covenant_encoded_size
  ensure (not (ltb maximum 2)) (too_large 2 maximum)
  start ← position
  tag ← convert decode_error read_u8
  count ← convert decode_error (read_compact_usize max_covenant_items "covenant items")
  remaining ← ensure_decode_budget start maximum
  items ← decode_items start maximum count
  pure (record { kind = from_u8 tag; items = items })

unfoldable pub decode_from : Parser CovenantError Covenant
decode_from = decode_from_with_limit max_covenant_encoded_size

unfoldable pub decode : Bytes → Result CovenantError Covenant
decode input =
    if ltb max_covenant_encoded_size (length input)
    then err (too_large (length input) max_covenant_encoded_size)
    else Base.◌>>=◌ (decode_from (new input))
        (λ r. Base.◌>>=◌ (Base.map_err decode_error (finish r.1)) (λ _. ok r.0))
