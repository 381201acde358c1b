-- ===== src/Covenants/NameState/Bounds.antt =====
-- The size of an encoded name state.

use hns_rs.Base.{◌≤◌, arith, Bool, true, false, ◌++◌, ◌==◌, length, length-append, not}
use hns_rs.Base.Bytes.{Bytes, to_le_bytes}
use hns_rs.Primitives.{is_null_outpoint}
use hns_rs.Encoding.Writes.{bytes_if}
use hns_rs.Encoding.RoundTrip.{compact_bytes, length-compact_bytes}
use hns_rs.Covenants.NameState.{NameState, max_name_state_size}
use hns_rs.Covenants.NameState.RoundTrip.{
  IsNameState, owner_bytes, optional_bytes, heights_bytes, name_state_bytes,
}

length-bytes_if : (test : Bool) (xs : Bytes) → length (bytes_if test xs) ≤ length xs
length-bytes_if true xs = omega arith
length-bytes_if false xs = omega arith

optional_bytes_bound : (s : NameState) → IsNameState s → length (optional_bytes s) ≤ 80
unfolding optional_bytes
optional_bytes_bound s h =
    let b0 = bytes_if (not (is_null_outpoint s.owner)) (owner_bytes s.owner) in
    let b1 = bytes_if (not (s.value == 0)) (compact_bytes s.value) in
    let b2 = bytes_if (not (s.highest == 0)) (compact_bytes s.highest) in
    let b3 = bytes_if (not (s.transfer == 0)) (to_le_bytes 4 s.transfer) in
    let b4 = bytes_if (not (s.revoked == 0)) (to_le_bytes 4 s.revoked) in
    let b5 = bytes_if (not (s.claimed == 0)) (to_le_bytes 4 s.claimed) in
    let b6 = bytes_if (not (s.renewals == 0)) (compact_bytes s.renewals) in
    omega (
      arith,
      length-append b0 (b1 ++ (b2 ++ (b3 ++ (b4 ++ (b5 ++ b6))))),
      length-append b1 (b2 ++ (b3 ++ (b4 ++ (b5 ++ b6)))),
      length-append b2 (b3 ++ (b4 ++ (b5 ++ b6))),
      length-append b3 (b4 ++ (b5 ++ b6)),
      length-append b4 (b5 ++ b6),
      length-append b5 b6,
      length-append s.owner.transaction_hash (compact_bytes s.owner.index),
      length-bytes_if (not (is_null_outpoint s.owner)) (owner_bytes s.owner),
      length-bytes_if (not (s.value == 0)) (compact_bytes s.value),
      length-bytes_if (not (s.highest == 0)) (compact_bytes s.highest),
      length-bytes_if (not (s.transfer == 0)) (to_le_bytes 4 s.transfer),
      length-bytes_if (not (s.revoked == 0)) (to_le_bytes 4 s.revoked),
      length-bytes_if (not (s.claimed == 0)) (to_le_bytes 4 s.claimed),
      length-bytes_if (not (s.renewals == 0)) (compact_bytes s.renewals),
      length-compact_bytes s.owner.index,
      length-compact_bytes s.value,
      length-compact_bytes s.highest,
      length-compact_bytes s.renewals,
      h.hash_length,
    )

pub name_state_bytes_bound :
    (s : NameState) → IsNameState s → length (name_state_bytes s) ≤ max_name_state_size
unfolding name_state_bytes heights_bytes
name_state_bytes_bound s h =
    let tail = s.resource_data ++ heights_bytes s in
    omega (
      arith,
      optional_bytes_bound s h,
      length-append s.name (to_le_bytes 2 (length s.resource_data) ++ tail),
      length-append s.resource_data (heights_bytes s),
      h.name_bound,
      h.resource_bound,
    )
