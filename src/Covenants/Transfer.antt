-- ===== src/Covenants/Transfer.antt =====
-- crates/hns-covenants/src/name_transition.rs: the fields of a TRANSFER covenant.
pub mod Laws
use hns_rs.Base.{
  ℕ, Bool, true, false, not, ◌&&◌, List, [], ◌∷◌, ltb, leb, ◌==◌, length, get_or, Result, ok, err,
  ◌>>=◌, ◌>>◌, ensure, ok_or,
}
use hns_rs.Base.Bytes.{Bytes, to_le_bytes, from_le_bytes}
use hns_rs.Covenants.Name.{CovenantError, invalid_transfer_covenant}
use hns_rs.Covenants.Covenant.{CovenantKind, Covenant, transfer, to_array}

abbrev pub transfer_covenant_items : ℕ
transfer_covenant_items = 4

abbrev pub min_transfer_address_hash_size : ℕ
min_transfer_address_hash_size = 2

abbrev pub max_transfer_address_hash_size : ℕ
max_transfer_address_hash_size = 40

pub record TransferCovenant : Type 0 where
  pub name_hash : Bytes
  pub start_height : ℕ
  pub recipient_version : ℕ
  pub recipient_hash : Bytes

-- `(MIN..=MAX).contains(&length)`
unfoldable pub is_address_length : ℕ → Bool
is_address_length n = leb min_transfer_address_hash_size n && leb n max_transfer_address_hash_size

unfoldable pub validate : TransferCovenant → Result CovenantError (Unit {0})
validate t = do
  ensure (not (ltb 31 t.recipient_version))
      (invalid_transfer_covenant "recipient version exceeds 31")
  ensure (is_address_length (length t.recipient_hash))
      (invalid_transfer_covenant "recipient hash length is outside 2..=40")
  ok tt

unfoldable pub new : Bytes → ℕ → ℕ → Bytes → Result CovenantError TransferCovenant
new name_hash start_height recipient_version recipient_hash = do
  let built : TransferCovenant = record {
    name_hash = name_hash;
    start_height = start_height;
    recipient_version = recipient_version;
    recipient_hash = recipient_hash;
  }
  validate built
  ok built

unfoldable pub to_covenant : TransferCovenant → Result CovenantError Covenant
to_covenant t = do
  validate t
  ok (record {
    kind = transfer;
    items =
        t.name_hash
        ∷ to_le_bytes 4 t.start_height
        ∷ (t.recipient_version ∷ [])
        ∷ t.recipient_hash
        ∷ [];
  })

unfoldable pub is_transfer : CovenantKind → Bool
is_transfer transfer = true
is_transfer kind = false

-- The four items, in the order in which the code tests them.
unfoldable pub from_items : List Bytes → Result CovenantError TransferCovenant
from_items (name_hash ∷ start_height ∷ recipient_version ∷ recipient_hash ∷ []) = do
  ensure (length recipient_version == 1)
      (invalid_transfer_covenant "recipient version is not one byte")
  ensure (is_address_length (length recipient_hash))
      (invalid_transfer_covenant "recipient hash length is outside 2..=40")
  hash ← ok_or (to_array 32 name_hash) (invalid_transfer_covenant "name hash is not 32 bytes")
  height ←
      ok_or (to_array 4 start_height) (invalid_transfer_covenant "start height is not four bytes")
  let parsed : TransferCovenant = record {
    name_hash = hash;
    start_height = from_le_bytes height;
    recipient_version = get_or recipient_version 0 0;
    recipient_hash = recipient_hash;
  }
  validate parsed
  ok parsed
from_items items = err (invalid_transfer_covenant "expected exactly four items")

unfoldable pub try_from : Covenant → Result CovenantError TransferCovenant
try_from c = do
  ensure (is_transfer c.kind) (invalid_transfer_covenant "covenant kind is not TRANSFER")
  from_items c.items
