-- ===== src/Urkel/Tree.antt =====
-- The authenticated map that a root commits to: a radix tree with its lookup.
use hns_rs.Base.{ℕ, ◌+◌, ◌≤◌, ◌≡◌, Option, none, some, ◌==◌, if◌then◌else◌, length}
use hns_rs.Base.Bytes.{Bytes, zeros, bytes_eq}
use hns_rs.Hash.{Blake2b}
use hns_rs.Urkel.Prefix.{BitPrefix, matches_key, key_bit, hash_leaf, hash_internal, div_ceil_8}

pub data Tree : Type 0 where
  empty : Tree
  leaf : (key value_hash : Bytes) → Tree
  internal : (prefix : BitPrefix) (left right : Tree) → Tree

-- The hash of the value under a key, for a tree whose root stands at a depth.
unfoldable pub lookup : Bytes → ℕ → Tree → Option Bytes
lookup key depth empty = none
lookup key depth (leaf other value_hash) = if bytes_eq other key then some value_hash else none
lookup key depth (internal p left right) =
    let in_right = lookup key (depth + p.bit_len + 1) right in
    let in_left = lookup key (depth + p.bit_len + 1) left in
    if matches_key p key depth
    then if key_bit key (depth + p.bit_len) == 1 then in_right else in_left
    else none

abbrev pub IsPrefix : BitPrefix → Type 0
IsPrefix p = (p.bit_len ≤ 256) × (length p.bytes ≡ div_ceil_8 p.bit_len)

abbrev pub IsTree : Tree → Type 0
IsTree empty = Unit {0}
IsTree (leaf key value_hash) = (length key ≡ 32) × (length value_hash ≡ 32)
IsTree (internal p left right) = IsPrefix p × IsTree left × IsTree right

module _ ⦃blake : Blake2b⦄ where
  unfoldable pub root : Tree → Bytes
  root empty = zeros 32
  root (leaf key value_hash) = hash_leaf key value_hash
  root (internal p left right) = hash_internal p (root left) (root right)
