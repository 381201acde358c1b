-- ===== src/Urkel/Descent.antt =====
-- The climb from the end of a proof to the root, read downwards: the path of the key in the tree.
use hns_rs.Base.{
  ℕ, ◌+◌, ◌-◌, ◌≤◌, ◌≡◌, ◌⊎◌, inl, inr, refl, sym, ap, ◌∙◌, arith, Bool, true, false, Bool-cases,
  not, List, [], ◌∷◌, All, ltb, ◌==◌, if◌then◌else◌, length, ok, ensure, >>=-eq-ok, ensure-eq-ok,
  ok-injective,
}
use hns_rs.Base.Bytes.{Bytes}
use hns_rs.Hash.{Blake2b}
use hns_rs.Urkel.Prefix.{BitPrefix, matches_key, key_bit, hash_internal}
use hns_rs.Urkel.Proof.{ProofNode, climb_node, climb}
use hns_rs.Urkel.Tree.{Tree, internal, IsPrefix, IsTree, lookup, root}
use hns_rs.Urkel.Hashes.{Broken, internal_root}

-- The widths that the types of a node guarantee.
abbrev pub IsNode : ProofNode → Type 0
IsNode node = IsPrefix node.prefix × (length node.sibling ≡ 32)

lookup-right :
    (key : Bytes) (depth : ℕ) (p : BitPrefix) (l r : Tree)
    → matches_key p key depth ≡ true
    → (key_bit key (depth + p.bit_len) == 1) ≡ true
    → lookup key depth (internal p l r) ≡ lookup key (depth + p.bit_len + 1) r
unfolding lookup
lookup-right key depth p l r h k = rw (h, k) refl

lookup-left :
    (key : Bytes) (depth : ℕ) (p : BitPrefix) (l r : Tree)
    → matches_key p key depth ≡ true
    → (key_bit key (depth + p.bit_len) == 1) ≡ false
    → lookup key depth (internal p l r) ≡ lookup key (depth + p.bit_len + 1) l
unfolding lookup
lookup-left key depth p l r h k = rw (h, k) refl

module _ ⦃blake : Blake2b⦄ where
  pub length-hash_internal : (p : BitPrefix) (l r : Bytes) → length (hash_internal p l r) ≡ 32
  unfolding hash_internal
  length-hash_internal p l r = blake.length-digest _

  -- The hash above a node, for the bit of the key at the node.
  above : Bool → ProofNode → Bytes → Bytes
  above bit node hash =
      if bit
      then hash_internal node.prefix node.sibling hash
      else hash_internal node.prefix hash node.sibling

  length-above : (bit : Bool) (node : ProofNode) (hash : Bytes) → length (above bit node hash) ≡ 32
  unfolding above
  length-above true node hash = length-hash_internal _ _ _
  length-above false node hash = length-hash_internal _ _ _

  climb_node_lem :
      (key : Bytes) (node : ProofNode) (hash top : Bytes) (depth end : ℕ)
      → climb_node key node (hash, depth) ≡ ok (top, end)
      → (end + node.prefix.bit_len + 1 ≡ depth)
        × (matches_key node.prefix key end ≡ true)
        × (top ≡ above (key_bit key (end + node.prefix.bit_len) == 1) node hash)
  unfolding climb_node above
  climb_node_lem key node hash top depth end h =
      let n = node.prefix.bit_len in
      let (_, deep, h1) = >>=-eq-ok (ensure (not (ltb depth (n + 1))) _) _ h in
      let (_, prefix, h2) =
        >>=-eq-ok (ensure (matches_key node.prefix key (depth - 1 - n)) _) _ h1 in
      let deep_enough = ensure-eq-ok _ _ deep in
      let le : n + 1 ≤ depth = ground (arith, deep_enough) in
      let pair = ok-injective h2 in
      let ends : depth - 1 - n ≡ end = ap (λ q. q.1) pair in
      let tops = ap (λ q. q.0) pair in
      let bit : end + n ≡ depth - 1 = omega (arith, ends, le) in
      (omega (arith, ends, le), rw ends at (ensure-eq-ok _ _ prefix), rw bit (sym tops))

  length-climb :
      (key : Bytes) (nodes : List ProofNode) (hash top : Bytes) (depth end : ℕ)
      → length hash ≡ 32
      → climb key nodes (hash, depth) ≡ ok (top, end)
      → length top ≡ 32
  unfolding climb
  length-climb key [] hash top depth end h e = rw (← ap (λ q. q.0) (ok-injective e)) h
  length-climb key (node ∷ nodes) hash top depth end h e =
      let ((middle, at), _, e') = >>=-eq-ok (climb key nodes (hash, depth)) _ e in
      let (_, _, tops) = climb_node_lem key node middle top at end e' in
      rw tops (length-above _ node middle)

  -- The subtree that the climb started from.
  unfoldable pub Start : Bytes → Bytes → ℕ → Tree → ℕ → Type 0
  Start key hash depth t end =
      (s : Tree) × IsTree s × (hash ≡ root s) × (lookup key end t ≡ lookup key depth s)

  pub descend :
      (key : Bytes) (nodes : List ProofNode) (hash top : Bytes) (depth end : ℕ) (t : Tree)
      → All IsNode nodes
      → length hash ≡ 32
      → IsTree t
      → climb key nodes (hash, depth) ≡ ok (top, end)
      → top ≡ root t
      → Start key hash depth t end ⊎ Broken
  unfolding climb Start above
  descend key [] hash top depth end t hn hh ht e r =
      let pair = ok-injective e in
      inl (t, ht, ap (λ q. q.0) pair ∙ r, ap (λ q. lookup key q.1 t) (sym pair))
  descend key (node ∷ nodes) hash top depth end t hn hh ht e r =
      let ((middle, at), below, e') = >>=-eq-ok (climb key nodes (hash, depth)) _ e in
      let (deep, follows, tops) = climb_node_lem key node middle top at end e' in
      let wide = length-climb key nodes hash middle depth at hh below in
      elim (Bool-cases (key_bit key (end + node.prefix.bit_len) == 1)) [
        | inl right ↦
            let e1 : hash_internal node.prefix node.sibling middle ≡ root t =
              rw right at (sym tops ∙ r) in
            elim (internal_root t node.prefix node.sibling middle ht (hn.0).0 (hn.0).1 wide e1) [
              | inl (a, b, whole, _, at_b, _, tree_b) ↦
                  elim (descend key nodes hash middle depth at b hn.1 hh tree_b below at_b) [
                    | inl (s, tree_s, h_s, found) ↦ inl (
                      s,
                      tree_s,
                      h_s,
                      ap (lookup key end) whole
                          ∙ lookup-right key end node.prefix a b follows right
                          ∙ ap (λ n. lookup key n b) deep
                          ∙ found,
                    )
                    | inr broken ↦ inr broken
                  ]
              | inr broken ↦ inr broken
            ]
        | inr left ↦
            let e1 : hash_internal node.prefix middle node.sibling ≡ root t =
              rw left at (sym tops ∙ r) in
            elim (internal_root t node.prefix middle node.sibling ht (hn.0).0 wide (hn.0).1 e1) [
              | inl (a, b, whole, at_a, _, tree_a, _) ↦
                  elim (descend key nodes hash middle depth at a hn.1 hh tree_a below at_a) [
                    | inl (s, tree_s, h_s, found) ↦ inl (
                      s,
                      tree_s,
                      h_s,
                      ap (lookup key end) whole
                          ∙ lookup-left key end node.prefix a b follows left
                          ∙ ap (λ n. lookup key n a) deep
                          ∙ found,
                    )
                    | inr broken ↦ inr broken
                  ]
              | inr broken ↦ inr broken
            ]
      ]
