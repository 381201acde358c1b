-- ===== src/Covenants/Finalize.antt =====
-- crates/hns-covenants/src/name_transition.rs: the fields of a FINALIZE covenant.
pub mod Laws
use hns_rs.Base.{
  ℕ, ◌%◌, Bool, true, false, not, List, [], ◌∷◌, ◌==◌, length, get_or, Result, ok, err, ◌>>=◌, ◌>>◌,
  ensure, ok_or,
}
use hns_rs.Base.Bytes.{Bytes, to_le_bytes, from_le_bytes, bytes_eq}
use hns_rs.Hash.{Sha3}
use hns_rs.Covenants.Name.{
  CovenantError, invalid_finalize_covenant, invalid_name, finalize_name_hash_mismatch,
  validate_name, hash_name,
}
use hns_rs.Covenants.Covenant.{CovenantKind, Covenant, finalize, to_array}
use hns_rs.Covenants.NameState.{NameState, is_null, validate_key_binding}

abbrev pub finalize_covenant_items : ℕ
finalize_covenant_items = 7

pub record FinalizeCovenant : Type 0 where
  pub name_hash : Bytes
  pub start_height : ℕ
  pub name : Bytes
  pub flags : ℕ
  pub claimed : ℕ
  pub renewals : ℕ
  pub renewal_block : Bytes

-- `u8::from`
abbrev pub bool_u8 : Bool → ℕ
bool_u8 true = 1
bool_u8 false = 0

unfoldable pub weak : FinalizeCovenant → Bool
weak f = not (f.flags % 2 == 0)

module _ ⦃sha3 : Sha3⦄ where
  unfoldable pub validate : FinalizeCovenant → Result CovenantError (Unit {0})
  validate f = do
    ensure (validate_name f.name) invalid_name
    hash ← hash_name f.name
    ensure (bytes_eq hash f.name_hash) finalize_name_hash_mismatch
    ok tt

  unfoldable pub new : Bytes → ℕ → Bool → ℕ → ℕ → Bytes → Result CovenantError FinalizeCovenant
  new name start_height is_weak claimed renewals renewal_block = do
    name_hash ← hash_name name
    let built : FinalizeCovenant = record {
      name_hash = name_hash;
      start_height = start_height;
      name = name;
      flags = bool_u8 is_weak;
      claimed = claimed;
      renewals = renewals;
      renewal_block = renewal_block;
    }
    validate built
    ok built

  unfoldable pub from_name_state : NameState → Bytes → Result CovenantError FinalizeCovenant
  from_name_state state renewal_block = do
    ensure (not (is_null state)) (invalid_finalize_covenant "name state is null")
    validate_key_binding state
    let built : FinalizeCovenant = record {
      name_hash = state.name_hash;
      start_height = state.height;
      name = state.name;
      flags = bool_u8 state.weak;
      claimed = state.claimed;
      renewals = state.renewals;
      renewal_block = renewal_block;
    }
    validate built
    ok built

  unfoldable pub to_covenant : FinalizeCovenant → Result CovenantError Covenant
  to_covenant f = do
    validate f
    ok (record {
      kind = finalize;
      items =
          f.name_hash
          ∷ to_le_bytes 4 f.start_height
          ∷ f.name
          ∷ (f.flags ∷ [])
          ∷ to_le_bytes 4 f.claimed
          ∷ to_le_bytes 4 f.renewals
          ∷ f.renewal_block
          ∷ [];
    })

unfoldable pub is_finalize : CovenantKind → Bool
is_finalize finalize = true
is_finalize kind = false

module _ ⦃sha3 : Sha3⦄ where
  -- The seven items, in the order in which the code tests them.
  unfoldable pub from_items : List Bytes → Result CovenantError FinalizeCovenant
  from_items (name_hash ∷ start_height ∷ name ∷ flags ∷ claimed ∷ renewals ∷ renewal_block ∷ []) =
      do
        ensure (length flags == 1) (invalid_finalize_covenant "flags field is not one byte")
        ensure (validate_name name) invalid_name
        parsed_name_hash ←
            ok_or (to_array 32 name_hash) (invalid_finalize_covenant "name hash is not 32 bytes")
        hash ← hash_name name
        ensure (bytes_eq hash parsed_name_hash) finalize_name_hash_mismatch
        height ←
            ok_or (to_array 4 start_height)
              (invalid_finalize_covenant "start height is not four bytes")
        claim ←
            ok_or (to_array 4 claimed) (invalid_finalize_covenant "claim height is not four bytes")
        count ←
            ok_or (to_array 4 renewals)
              (invalid_finalize_covenant "renewal count is not four bytes")
        block ←
            ok_or (to_array 32 renewal_block)
              (invalid_finalize_covenant "renewal block hash is not 32 bytes")
        let parsed : FinalizeCovenant = record {
          name_hash = parsed_name_hash;
          start_height = from_le_bytes height;
          name = name;
          flags = get_or flags 0 0;
          claimed = from_le_bytes claim;
          renewals = from_le_bytes count;
          renewal_block = block;
        }
        validate parsed
        ok parsed
  from_items items = err (invalid_finalize_covenant "expected exactly seven items")

  unfoldable pub try_from : Covenant → Result CovenantError FinalizeCovenant
  try_from c = do
    ensure (is_finalize c.kind) (invalid_finalize_covenant "covenant kind is not FINALIZE")
    from_items c.items
