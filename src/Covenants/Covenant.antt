-- ===== src/Covenants/Covenant.antt =====
-- crates/hns-covenants/src/lib.rs: covenants, their bounds and their wire form.
use mathlib.Core.Option
use hns_rs.Base.{
  get_elem?, get_or, ℕ, ◌+◌, ◌%◌, ◌^◌, Bool, true, false, not, Option, none, some, List, [], ◌∷◌,
  ltb, leb, ◌==◌, if◌then◌else◌, ◌|>◌, checked_add, length, Result, Failure, panic, err, ok, ◌>>=◌,
  ◌>>◌, ensure, ok_or,
}
use hns_rs.Base.Bytes.{Bytes, from_le_bytes}
use hns_rs.Encoding.Decoder.{usize_max}
use hns_rs.Encoding.Encoder.{
  Encoder, with_capacity, put_u8, put_compact_size, put_varbytes, into_bytes,
}
use hns_rs.Covenants.Name.{CovenantError, too_large}

abbrev pub max_covenant_items : ℕ
max_covenant_items = 1000

abbrev pub max_covenant_item_size : ℕ
max_covenant_item_size = 1_000_000

abbrev pub max_covenant_encoded_size : ℕ
max_covenant_encoded_size = max_covenant_item_size + 9

pub data CovenantKind : Type 0 where
  none_kind claim open_kind bid reveal redeem register update renew transfer finalize revoke :
      CovenantKind
  unknown : ℕ → CovenantKind

unfoldable pub from_u8 : ℕ → CovenantKind
from_u8 value =
    if value == 0
    then none_kind
    else if value == 1
    then claim
    else if value == 2
    then open_kind
    else if value == 3
    then bid
    else if value == 4
    then reveal
    else if value == 5
    then redeem
    else if value == 6
    then register
    else if value == 7
    then update
    else if value == 8
    then renew
    else if value == 9
    then transfer
    else if value == 10
    then finalize
    else if value == 11
    then revoke
    else unknown value

unfoldable pub as_u8 : CovenantKind → ℕ
as_u8 none_kind = 0
as_u8 claim = 1
as_u8 open_kind = 2
as_u8 bid = 3
as_u8 reveal = 4
as_u8 redeem = 5
as_u8 register = 6
as_u8 update = 7
as_u8 renew = 8
as_u8 transfer = 9
as_u8 finalize = 10
as_u8 revoke = 11
as_u8 (unknown value) = value

unfoldable pub is_name : CovenantKind → Bool
is_name none_kind = false
is_name (unknown value) = false
is_name kind = true

unfoldable pub is_linked : CovenantKind → Bool
is_linked reveal = true
is_linked redeem = true
is_linked register = true
is_linked update = true
is_linked renew = true
is_linked transfer = true
is_linked finalize = true
is_linked revoke = true
is_linked kind = false

unfoldable pub is_unspendable : CovenantKind → Bool
is_unspendable revoke = true
is_unspendable kind = false

pub record Covenant : Type 0 where
  pub kind : CovenantKind
  pub items : List Bytes

abbrev pub default_covenant : Covenant
default_covenant = record { kind = none_kind; items = [] }

unfoldable pub compact_size_len : ℕ → ℕ
compact_size_len value =
    if leb value 0xfc
    then 1
    else if leb value 0xffff
    then 3
    else if leb value 0xffff_ffff
    then 5
    else 9

-- One item in the loop of `encoded_size`: `size` is the running sum.
unfoldable pub add_item_size : Bytes → ℕ → Result CovenantError ℕ
add_item_size item size = do
  ensure (not (ltb max_covenant_item_size (length item)))
      (too_large (length item) max_covenant_item_size)
  with_prefix ←
      ok_or (checked_add 64 size (compact_size_len (length item)))
        (too_large usize_max max_covenant_encoded_size)
  total ←
      ok_or (checked_add 64 with_prefix (length item))
        (too_large usize_max max_covenant_encoded_size)
  ensure (not (ltb max_covenant_encoded_size total)) (too_large total max_covenant_encoded_size)
  ok total

unfoldable pub add_sizes : List Bytes → ℕ → Result CovenantError ℕ
unfolding add_item_size
add_sizes [] size = ok size
add_sizes (item ∷ items) size = add_item_size item size >>= add_sizes items

unfoldable pub encoded_size : Covenant → Result CovenantError ℕ
encoded_size c = do
  ensure (not (ltb max_covenant_items (length c.items)))
      (too_large (length c.items) max_covenant_items)
  size ←
      ok_or (checked_add 64 1 (compact_size_len (length c.items)))
        (too_large usize_max max_covenant_encoded_size)
  add_sizes c.items size

-- `for item in &self.items { encoder.put_varbytes(item); }`
unfoldable pub put_items : List Bytes → Encoder → Encoder
put_items [] encoder = encoder
put_items (item ∷ items) encoder = put_items items (put_varbytes item encoder)

-- The kind, the count and the items, as `encode` and `encode_to` write them.
unfoldable pub put_covenant : Covenant → Encoder → Encoder
put_covenant c encoder =
    encoder
    |> put_u8 (as_u8 c.kind)
    |> put_compact_size (length c.items % 2 ^ 64)
    |> put_items c.items

unfoldable pub encode : Covenant → Result CovenantError Bytes
encode c = do size ← encoded_size c; ok (into_bytes (put_covenant c (with_capacity size)))

unfoldable pub encode_to : Covenant → Encoder → Result CovenantError Encoder
encode_to c encoder = do size ← encoded_size c; ok (put_covenant c encoder)

unfoldable pub item : Covenant → ℕ → Option Bytes
item c index = get_elem? c.items index

-- The argument of `then_some` is evaluated first, so that an empty item panics at `item[0]`.
unfoldable pub item_u8 : {E : Type 0} → Covenant → ℕ → Result (Failure E) (Option ℕ)
unfolding item
item_u8 c index = elim (item c index) [
  | none ↦ ok none
  | some x ↦
      if length x == 0 then err panic else ok (if length x == 1 then some (get_or x 0 0) else none)
]

-- `try_into()` an array of `n` bytes.
abbrev pub to_array : ℕ → Bytes → Option Bytes
to_array n bytes = if length bytes == n then some bytes else none

unfoldable pub item_u32 : Covenant → ℕ → Option ℕ
unfolding item
item_u32 c index = Option.map from_le_bytes (Option.bind (item c index) (to_array 4))

unfoldable pub item_u64 : Covenant → ℕ → Option ℕ
unfolding item
item_u64 c index = Option.map from_le_bytes (Option.bind (item c index) (to_array 8))

unfoldable pub item_name_hash : Covenant → ℕ → Option Bytes
unfolding item
item_name_hash c index = Option.bind (item c index) (to_array 32)
