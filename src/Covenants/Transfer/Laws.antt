-- ===== src/Covenants/Transfer/Laws.antt =====
-- A TRANSFER covenant and its fields determine each other.
use hns_rs.Base.{
  ◌<◌, ◌^◌, ◌≡◌, ltb, refl, true, not, List, [], ◌∷◌, All, ◌==◌, length, get_or, ok, ensure, ok_or,
  >>=-eq-ok, ensure-eq-ok,
}
use hns_rs.Base.Bytes.{Bytes, IsByte, to_le_bytes, from_le_bytes, from_le_bytes-to_le_bytes}
use hns_rs.Covenants.Covenant.{CovenantKind, Covenant, transfer, to_array}
use hns_rs.Covenants.Transfer
use hns_rs.Covenants.Transfer.{TransferCovenant, is_address_length}
use hns_rs.Covenants.Fields.{to_array_self, to_array_lem, u32-canonical, one_byte, test_length}

-- The address bound is the second test of `validate`.
validate_transfer_lem :
    (t : TransferCovenant)
    → Transfer.validate t ≡ ok tt
    → is_address_length (length t.recipient_hash) ≡ true
unfolding Transfer.validate
validate_transfer_lem t h =
    let (_, _, h1) = >>=-eq-ok (ensure (not (ltb 31 t.recipient_version)) _) _ h in
    let (_, e, _) = >>=-eq-ok (ensure (is_address_length (length t.recipient_hash)) _) _ h1 in
    ensure-eq-ok _ _ e

abbrev transfer_covenant : TransferCovenant → Covenant
transfer_covenant t = record {
  kind = transfer;
  items =
      t.name_hash
      ∷ to_le_bytes 4 t.start_height
      ∷ (t.recipient_version ∷ [])
      ∷ t.recipient_hash
      ∷ [];
}

try_from-transfer_covenant :
    (t : TransferCovenant)
    → length t.name_hash ≡ 32
    → t.start_height < 2 ^ 32
    → Transfer.validate t ≡ ok tt
    → Transfer.try_from (transfer_covenant t) ≡ ok t
unfolding Transfer.try_from Transfer.from_items Transfer.is_transfer
try_from-transfer_covenant t h k valid =
    rw
      (
        validate_transfer_lem t valid,
        to_array_self 32 t.name_hash h,
        from_le_bytes-to_le_bytes 4 t.start_height k,
        valid,
      )
      refl

-- A transfer whose name hash has 32 bytes and whose height fits 32 bits is read back from the covenant that
-- it is written as.
pub try_from-to_covenant :
    (t : TransferCovenant) (c : Covenant)
    → length t.name_hash ≡ 32
    → t.start_height < 2 ^ 32
    → Transfer.to_covenant t ≡ ok c
    → Transfer.try_from c ≡ ok t
unfolding Transfer.to_covenant
try_from-to_covenant t c h k e =
    let (_, valid, written) = >>=-eq-ok (Transfer.validate t) _ e in
    let same : transfer_covenant t ≡ c = cc written in
    rw same at (try_from-transfer_covenant t h k valid)

from_items-transfer_lem :
    (items : List Bytes) (t : TransferCovenant)
    → All (All IsByte) items
    → Transfer.from_items items ≡ ok t
    → (Transfer.validate t ≡ ok tt) × ((transfer_covenant t).items ≡ items)
unfolding Transfer.from_items
from_items-transfer_lem (name_hash ∷ start_height ∷ version ∷ recipient ∷ []) t b h =
    let (_, one, h1) = >>=-eq-ok (ensure (length version == 1) _) _ h in
    let (_, _, h2) = >>=-eq-ok (ensure (is_address_length (length recipient)) _) _ h1 in
    let (hash, e3, h3) = >>=-eq-ok (ok_or (to_array 32 name_hash) _) _ h2 in
    let (height, e4, h4) = >>=-eq-ok (ok_or (to_array 4 start_height) _) _ h3 in
    let (_, valid, h5) = >>=-eq-ok (Transfer.validate _) _ h4 in
    let (_, same_hash) = to_array_lem 32 name_hash hash _ e3 in
    let (four, same_height) = to_array_lem 4 start_height height _ e4 in
    let version_byte = one_byte version (test_length _ _ (ensure-eq-ok _ _ one)) in
    let height_bytes : to_le_bytes 4 (from_le_bytes height) ≡ start_height =
      rw same_height (u32-canonical start_height (b.1).0 four) in
    let read : record {
      name_hash = hash;
      start_height = from_le_bytes height;
      recipient_version = get_or version 0 0;
      recipient_hash = recipient;
    }
        ≡ t =
      cc h5 in
    rw (← read) (valid, cc (same_hash, version_byte, height_bytes))
from_items-transfer_lem [] t b h = cc h
from_items-transfer_lem (a ∷ []) t b h = cc h
from_items-transfer_lem (a ∷ a' ∷ []) t b h = cc h
from_items-transfer_lem (a ∷ a' ∷ a'' ∷ []) t b h = cc h
from_items-transfer_lem (a ∷ a' ∷ a'' ∷ d ∷ e ∷ items) t b h = cc h

is_transfer_lem : (kind : CovenantKind) → Transfer.is_transfer kind ≡ true → kind ≡ transfer
unfolding Transfer.is_transfer
is_transfer_lem transfer h = refl
is_transfer_lem kind h = cc h

-- A covenant of bytes that is read as a transfer is the covenant that the transfer is written as.
pub to_covenant-try_from :
    (c : Covenant) (t : TransferCovenant)
    → All (All IsByte) c.items
    → Transfer.try_from c ≡ ok t
    → Transfer.to_covenant t ≡ ok c
unfolding Transfer.try_from Transfer.to_covenant
to_covenant-try_from c t b h =
    let (_, tagged, h1) = >>=-eq-ok (ensure (Transfer.is_transfer c.kind) _) _ h in
    let kind = is_transfer_lem c.kind (ensure-eq-ok _ _ tagged) in
    let (valid, same) = from_items-transfer_lem c.items t b h1 in rw (valid, same, ← kind) refl
