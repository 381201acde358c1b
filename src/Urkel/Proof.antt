-- ===== src/Urkel/Proof.antt =====
-- crates/hns-urkel-proof/src/lib.rs: proofs, their validation and `verify`.
use hns_rs.Base.{
  ℕ, ◌+◌, ◌-◌, ◌^◌, not, Option, none, some, List, [], ◌∷◌, ltb, ◌==◌, ◌≡◌, if◌then◌else◌, length,
  Result, ok, err, ◌>>=◌, ◌>>◌, ensure,
}
use hns_rs.Base.Bytes.{Bytes, zeros, bytes_eq}
use hns_rs.Hash.{Blake2b}
use hns_rs.Urkel.Prefix.{
  UrkelError, invalid_depth, node_count, empty_short_prefix, value_too_large, short_follows_key,
  collision_uses_key, ancestor_depth, ancestor_prefix, incomplete_path, root_mismatch, urkel_bits,
  BitPrefix, matches_key, validate_prefix, key_bit, hash_leaf, hash_internal, blake2b_256,
}

pub record ProofNode : Type 0 where
  pub prefix : BitPrefix
  pub sibling : Bytes

pub data ProofTerminal : Type 0 where
  dead_end : ProofTerminal
  short : (prefix : BitPrefix) (left right : Bytes) → ProofTerminal
  collision : (key value_hash : Bytes) → ProofTerminal
  exists : (value : Bytes) → ProofTerminal

pub record HsdUrkelProof : Type 0 where
  pub depth : ℕ
  pub nodes : List ProofNode
  pub terminal : ProofTerminal

-- The widths that the types of a proof guarantee: hashes and keys of 32 bytes.
abbrev pub IsWide : ProofTerminal → Type 0
IsWide (short prefix left right) = (length left ≡ 32) × (length right ≡ 32)
IsWide (collision key value_hash) = (length key ≡ 32) × (length value_hash ≡ 32)
IsWide terminal = Unit {0}

unfoldable pub validate_nodes : List ProofNode → Result UrkelError (Unit {0})
validate_nodes [] = ok tt
validate_nodes (node ∷ nodes) = validate_prefix node.prefix >> validate_nodes nodes

unfoldable pub validate_terminal : ProofTerminal → Result UrkelError (Unit {0})
validate_terminal (short prefix left right) =
    validate_prefix prefix >> ensure (not (prefix.bit_len == 0)) empty_short_prefix
validate_terminal (exists value) =
    ensure (not (ltb (2 ^ 16 - 1) (length value))) (value_too_large (length value))
validate_terminal terminal = ok tt

unfoldable pub validate : HsdUrkelProof → Result UrkelError (Unit {0})
validate proof = do
  ensure (not (ltb urkel_bits proof.depth)) (invalid_depth proof.depth)
  ensure (not (ltb urkel_bits (length proof.nodes))) (node_count (length proof.nodes))
  validate_nodes proof.nodes
  validate_terminal proof.terminal

module _ ⦃blake : Blake2b⦄ where
  -- The hash at the end of the path, and the value that a match gives.
  unfoldable pub open_terminal :
      ProofTerminal → Bytes → ℕ → Result UrkelError (Bytes × Option Bytes)
  open_terminal dead_end key depth = ok (zeros 32, none)
  open_terminal (short prefix left right) key depth =
      if matches_key prefix key depth
      then err short_follows_key
      else ok (hash_internal prefix left right, none)
  open_terminal (collision other value_hash) key depth =
      if bytes_eq other key then err collision_uses_key else ok (hash_leaf other value_hash, none)
  open_terminal (exists value) key depth = ok (hash_leaf key (blake2b_256 value), some value)

  -- One round of the loop: the hash and the depth above the node.
  unfoldable pub climb_node : Bytes → ProofNode → Bytes × ℕ → Result UrkelError (Bytes × ℕ)
  climb_node key node (hash, depth) = do
    ensure (not (ltb depth (node.prefix.bit_len + 1))) ancestor_depth
    let above =
        if key_bit key (depth - 1) == 1
        then hash_internal node.prefix node.sibling hash
        else hash_internal node.prefix hash node.sibling
    ensure (matches_key node.prefix key (depth - 1 - node.prefix.bit_len)) ancestor_prefix
    ok (above, depth - 1 - node.prefix.bit_len)

  -- `for node in self.nodes.iter().rev()`: the last node of the list is taken first.
  unfoldable pub climb : Bytes → List ProofNode → Bytes × ℕ → Result UrkelError (Bytes × ℕ)
  climb key [] state = ok state
  climb key (node ∷ nodes) state = climb key nodes state >>= climb_node key node

  unfoldable pub verify : HsdUrkelProof → Bytes → Bytes → Result UrkelError (Option Bytes)
  verify proof expected_root key = do
    validate proof
    start ← open_terminal proof.terminal key proof.depth
    top ← climb key proof.nodes (start.0, proof.depth)
    ensure (top.1 == 0) (incomplete_path top.1)
    ensure (bytes_eq top.0 expected_root) (root_mismatch expected_root top.0)
    ok start.1
