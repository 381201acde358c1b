-- ===== src/Urkel/Terminal.antt =====
-- The end of a proof: what its hash says of the subtree there.
use hns_rs.Base.{
  ℕ, ◌≡◌, ◌⊎◌, inl, inr, refl, ap, ◌∙◌, arith, false, Option, length, ok, ok-injective,
}
use mathlib.Core.Option
use hns_rs.Base.Bytes.{Bytes, bytes_eq, bytes_eq_refl}
use hns_rs.Hash.{Blake2b}
use hns_rs.Urkel.Prefix.{matches_key, hash_leaf, blake2b_256}
use hns_rs.Urkel.Proof.{ProofTerminal, dead_end, short, collision, exists, open_terminal}
use hns_rs.Urkel.Tree.{Tree, IsPrefix, IsTree, lookup, root}
use hns_rs.Urkel.Hashes.{Broken, zero_root, leaf_root, internal_root}
use hns_rs.Urkel.Descent.{length-hash_internal}

abbrev pub IsTerminal : ProofTerminal → Type 0
IsTerminal (short prefix left right) = IsPrefix prefix × (length left ≡ 32) × (length right ≡ 32)
IsTerminal (collision key value_hash) = (length key ≡ 32) × (length value_hash ≡ 32)
IsTerminal terminal = Unit {0}

module _ ⦃blake : Blake2b⦄ where
  -- What the end of the path says of the subtree there: the value under the key, if any.
  pub open_terminal_lem :
      (terminal : ProofTerminal) (key : Bytes) (depth : ℕ) (hash : Bytes) (value : Option Bytes)
      (t : Tree)
      → IsTerminal terminal
      → length key ≡ 32
      → IsTree t
      → open_terminal terminal key depth ≡ ok (hash, value)
      → hash ≡ root t
      → (lookup key depth t ≡ Option.map blake2b_256 value) ⊎ Broken
  unfolding open_terminal lookup
  open_terminal_lem dead_end key depth hash value t ht hk tree e r =
      let pair = ok-injective e in
      elim (zero_root t (ap (λ q. q.0) pair ∙ r)) [
        | inl is_empty ↦ inl (rw (is_empty, ← ap (λ q. q.1) pair) refl)
        | inr broken ↦ inr broken
      ]
  open_terminal_lem (short prefix left right) key depth hash value t ht hk tree e r =
      let free : matches_key prefix key depth ≡ false = ground (arith, e) in
      let pair = ok-injective (rw free at e) in
      elim (internal_root t prefix left right tree ht.0 ht.1 ht.2 (ap (λ q. q.0) pair ∙ r)) [
        | inl (_, _, is_internal, _, _, _, _) ↦
            inl (rw (is_internal, ← ap (λ q. q.1) pair, free) refl)
        | inr broken ↦ inr broken
      ]
  open_terminal_lem (collision other value_hash) key depth hash value t ht hk tree e r =
      let free : bytes_eq other key ≡ false = ground (arith, e) in
      let pair = ok-injective (rw free at e) in
      elim (leaf_root t other value_hash tree ht.0 (ap (λ q. q.0) pair ∙ r)) [
        | inl is_leaf ↦ inl (rw (is_leaf, ← ap (λ q. q.1) pair, free) refl)
        | inr broken ↦ inr broken
      ]
  open_terminal_lem (exists found) key depth hash value t ht hk tree e r =
      let pair = ok-injective e in
      elim (leaf_root t key (blake2b_256 found) tree hk (ap (λ q. q.0) pair ∙ r)) [
        | inl is_leaf ↦ inl (rw (is_leaf, ← ap (λ q. q.1) pair, bytes_eq_refl key) refl)
        | inr broken ↦ inr broken
      ]

  pub length-open_terminal :
      (terminal : ProofTerminal) (key : Bytes) (depth : ℕ) (hash : Bytes) (value : Option Bytes)
      → open_terminal terminal key depth ≡ ok (hash, value)
      → length hash ≡ 32
  unfolding open_terminal hash_leaf
  length-open_terminal dead_end key depth hash value e = rw (← ap (λ q. q.0) (ok-injective e)) refl
  length-open_terminal (short prefix left right) key depth hash value e =
      let free : matches_key prefix key depth ≡ false = ground (arith, e) in
      rw (← ap (λ q. q.0) (ok-injective (rw free at e))) (length-hash_internal prefix left right)
  length-open_terminal (collision other value_hash) key depth hash value e =
      let free : bytes_eq other key ≡ false = ground (arith, e) in
      rw (← ap (λ q. q.0) (ok-injective (rw free at e))) (blake.length-digest _)
  length-open_terminal (exists found) key depth hash value e =
      rw (← ap (λ q. q.0) (ok-injective e)) (blake.length-digest _)
