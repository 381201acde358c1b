-- ===== src/Mining/Merkle.antt =====
-- crates/hns-mining/src/lib.rs: `merkle_root`.
pub mod Laws
use hns_rs.Base.{ℕ, zero, suc, List, [], ◌∷◌, ◌++◌, ltb, ◌==◌, if◌then◌else◌, length, get_or}
use hns_rs.Base.Bytes.{Bytes}
use hns_rs.Hash.{Blake2b, flatten}

module _ ⦃blake : Blake2b⦄ where
  unfoldable pub blake2b_256_many : List Bytes → Bytes
  blake2b_256_many parts = blake.digest (flatten parts)

  unfoldable pub sentinel : Bytes
  sentinel = blake2b_256_many []

  unfoldable pub leaves : List Bytes → List Bytes
  leaves [] = []
  leaves (hash ∷ hashes) = blake2b_256_many ((0 ∷ []) ∷ hash ∷ []) ∷ leaves hashes

  -- One round of the loop: the hashes of `chunks(2)`, the last with the sentinel if it is alone.
  unfoldable pub next_level : List Bytes → List Bytes
  next_level [] = []
  next_level (left ∷ []) = blake2b_256_many ((1 ∷ []) ∷ left ∷ sentinel ∷ []) ∷ []
  next_level (left ∷ right ∷ nodes) =
      blake2b_256_many ((1 ∷ []) ∷ left ∷ right ∷ []) ∷ next_level nodes

  -- `while nodes.len() > 1`, then the first node.
  unfoldable pub levels : ℕ → List Bytes → Bytes
  levels zero nodes = get_or nodes 0 []
  levels (suc fuel) nodes =
      let rest = levels fuel (next_level nodes) in
      if ltb 1 (length nodes) then rest else get_or nodes 0 []

  unfoldable pub merkle_root : List Bytes → Bytes
  merkle_root hashes =
      if length (leaves hashes) == 0 then sentinel else levels (length hashes) (leaves hashes)
