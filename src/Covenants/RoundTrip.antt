-- ===== src/Covenants/RoundTrip.antt =====
-- crates/hns-covenants/src/lib.rs: a written covenant is read back within the budget of the decoder.
use hns_rs.Base
use hns_rs.Base.{
  ℕ, zero, suc, inl, inr, ◌≤◌, ◌+◌, ◌-◌, ◌<◌, ◌%◌, ◌^◌, ◌≡◌, refl, sym, ap, ◌∙◌, arith, Bool, true,
  false, List, [], ◌∷◌, ◌++◌, ltb, leb, ◌==◌, le→ltb, if◌then◌else◌, ◌|>◌, length, length-append,
  append_assoc, append-nil, Result, ok, err, All,
}
use hns_rs.Base.Bytes.{Bytes}
use hns_rs.Encoding.Decoder.{◌>>=◌, new}
use hns_rs.Encoding.Reads.{at_end, finish-at_end, at, Reads-convert}
use hns_rs.Encoding.RoundTrip.{
  compact_bytes, read_u8-Reads, read_compact_usize-Reads, read_bounded_vec-Reads,
}
use hns_rs.Covenants.Name.{decode_error}
use hns_rs.Covenants.Covenant.{
  CovenantKind, Covenant, unknown, from_u8, as_u8, none_kind, claim, open_kind, bid, reveal, redeem,
  register, update, renew, transfer, finalize, revoke, encode, max_covenant_item_size,
  max_covenant_items, max_covenant_encoded_size,
}
use hns_rs.Covenants.Decode.{
  ensure_decode_budget, decode_payload, decode_item, decode_items, decode_from_with_limit,
  decode_from, decode,
}
use hns_rs.Covenants.Size.{items_bytes, covenant_bytes, encode_lem}

-- A tag that has no kind of its own.
abbrev pub IsKind : CovenantKind → Type 0
IsKind (unknown value) = (12 ≤ value) × (value < 256)
IsKind kind = Unit {0}

from_u8-as_u8 : (kind : CovenantKind) → IsKind kind → from_u8 (as_u8 kind) ≡ kind
unfolding from_u8 as_u8
from_u8-as_u8 none_kind h = refl
from_u8-as_u8 claim h = refl
from_u8-as_u8 open_kind h = refl
from_u8-as_u8 bid h = refl
from_u8-as_u8 reveal h = refl
from_u8-as_u8 redeem h = refl
from_u8-as_u8 register h = refl
from_u8-as_u8 update h = refl
from_u8-as_u8 renew h = refl
from_u8-as_u8 transfer h = refl
from_u8-as_u8 finalize h = refl
from_u8-as_u8 revoke h = refl
from_u8-as_u8 (unknown value) h = ground arith

ensure_decode_budget-run :
    (start maximum : ℕ) (front rest : Bytes)
    → length front - start ≤ maximum
    → ensure_decode_budget start maximum (at front rest)
      ≡ ok (maximum - (length front - start), at front rest)
unfolding ensure_decode_budget
ensure_decode_budget-run start maximum front rest h = rw (le→ltb maximum (length front - start) h)

decode_payload-run :
    (start maximum : ℕ) (front x rest : Bytes)
    → start ≤ length front
    → length front + length x ≤ start + maximum
    → length front + (length x + length rest) < 2 ^ 64
    → decode_payload start maximum (length x) (at front (x ++ rest)) ≡ ok (x, at (front ++ x) rest)
unfolding decode_payload
decode_payload-run start maximum front x rest h k l =
    let remaining = maximum - (length front - start) in
    rw
      (
        ensure_decode_budget-run start maximum front (x ++ rest) (omega arith),
        ◌>>=◌,
        le→ltb remaining (length x) (omega arith),
      )
      ((Reads-convert decode_error (read_bounded_vec-Reads x remaining (omega arith))).run front
        rest l)

decode_item-run :
    (start maximum : ℕ) (front x rest : Bytes)
    → start ≤ length front
    → length x ≤ max_covenant_item_size
    → length front + length (compact_bytes (length x) ++ x) ≤ start + maximum
    → length front + (length (compact_bytes (length x) ++ x) + length rest) < 2 ^ 64
    → decode_item start maximum (at front ((compact_bytes (length x) ++ x) ++ rest))
      ≡ ok (x, at (front ++ (compact_bytes (length x) ++ x)) rest)
unfolding decode_item
decode_item-run start maximum front x rest h b k l =
    let size = compact_bytes (length x) in
    let la = length-append size x in
    let lf = length-append front size in
    rw
      (
        append_assoc size x rest,
        (Reads-convert decode_error (
              read_compact_usize-Reads (length x) max_covenant_item_size "covenant item"
                (omega arith) b)).run
            front (x ++ rest) (rw (length-append x rest) (omega arith)),
        ◌>>=◌,
        ← append_assoc front size x,
      )
      (decode_payload-run start maximum (front ++ size) x rest (omega arith) (omega arith)
        (omega arith))

decode_items-run :
    (start maximum : ℕ) (xs : List Bytes) (front rest : Bytes)
    → start ≤ length front
    → All (λ x. length x ≤ max_covenant_item_size) xs
    → length front + length (items_bytes xs) ≤ start + maximum
    → length front + (length (items_bytes xs) + length rest) < 2 ^ 64
    → decode_items start maximum (length xs) (at front (items_bytes xs ++ rest))
      ≡ ok (xs, at (front ++ items_bytes xs) rest)
unfolding decode_items items_bytes
decode_items-run start maximum [] front rest h b k l =
    ap (λ f. ok ([], at f rest)) (sym (append-nil front))
decode_items-run start maximum (x ∷ xs) front rest h b k l =
    let one = compact_bytes (length x) ++ x in
    let la = length-append one (items_bytes xs) in
    let lf = length-append front one in
    rw (
      append_assoc one (items_bytes xs) rest,
      decode_item-run start maximum front x (items_bytes xs ++ rest) h b.0 (omega arith)
          (rw (length-append (items_bytes xs) rest) (omega arith)),
      ◌>>=◌,
      decode_items-run start maximum xs (front ++ one) rest (omega arith) b.1 (omega arith)
          (omega arith),
      ◌>>=◌,
      append_assoc front one (items_bytes xs),
    )

decode_from-covenant_bytes :
    (c : Covenant)
    → IsKind c.kind
    → All (λ x. length x ≤ max_covenant_item_size) c.items
    → length c.items ≤ max_covenant_items
    → length (covenant_bytes c) ≤ max_covenant_encoded_size
    → decode_from (new (covenant_bytes c)) ≡ ok (c, at_end (covenant_bytes c))
unfolding decode_from decode_from_with_limit covenant_bytes new
decode_from-covenant_bytes c kind bounded few short =
    let count = compact_bytes (length c.items) in
    let items = items_bytes c.items in
    let tag = as_u8 c.kind ∷ [] in
    let lc = length-append count items in
    let whole : tag ++ (count ++ items) ≡ (tag ++ count) ++ items =
      sym (append_assoc tag count items) in
    let kinds = from_u8-as_u8 c.kind kind in
    let read : decode_items 0 max_covenant_encoded_size (length c.items) (at (tag ++ count) items)
        ≡ ok (c.items, at_end (covenant_bytes c)) =
      rw (append-nil items, append-nil (covenant_bytes c)) at
        (decode_items-run 0 max_covenant_encoded_size c.items (tag ++ count) [] (omega arith)
          bounded (omega arith) (omega arith)) in
    rw
      (
        (Reads-convert decode_error (read_u8-Reads (as_u8 c.kind))).run [] (count ++ items)
            (omega arith),
        ◌>>=◌,
        (Reads-convert decode_error (
              read_compact_usize-Reads (length c.items) max_covenant_items "covenant items"
                (omega arith) few)).run
            tag items (omega arith),
        ◌>>=◌,
        ensure_decode_budget-run 0 max_covenant_encoded_size (tag ++ count) items (omega arith),
        ◌>>=◌,
        read,
        ◌>>=◌,
        kinds,
      )
      refl

-- Decoding the bytes of an accepted `encode` gives the covenant back, all of the input read, for every kind
-- that is one of the named ones or carries a tag of its own from 12 to 255.
pub decode-encode_ok :
    (c : Covenant) (bytes : Bytes) → IsKind c.kind → encode c ≡ ok bytes → decode bytes ≡ ok c
unfolding decode
decode-encode_ok c bytes kind h =
    let (bounded, few, written, _, short) = encode_lem c bytes h in
    let room : ltb max_covenant_encoded_size (length bytes) ≡ false =
      le→ltb max_covenant_encoded_size (length bytes) short in
    let decoded : decode_from (new bytes) ≡ ok (c, at_end bytes) =
      rw written (decode_from-covenant_bytes c kind bounded few (rw written at short)) in
    rw (room, decoded, Base.◌>>=◌, finish-at_end bytes, Base.◌>>=◌) refl
