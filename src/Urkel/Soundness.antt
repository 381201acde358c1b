-- ===== src/Urkel/Soundness.antt =====
-- What an accepted proof says of the tree whose root it was checked against.
use hns_rs.Base.{
  ◌≡◌, ◌⊎◌, inl, inr, sym, ap, ◌∙◌, arith, not, List, [], ◌∷◌, All, Option, ltb, ◌==◌, length, ok,
  ensure, >>=-eq-ok, ensure-eq-ok, ok-injective,
}
use mathlib.Core.Option
use hns_rs.Base.Bytes.{Bytes, bytes_eq, eq_of_bytes_eq}
use hns_rs.Hash.{Blake2b}
use hns_rs.Urkel.Prefix.{BitPrefix, blake2b_256, validate_prefix, urkel_bits, div_ceil_8}
use hns_rs.Urkel.Proof.{
  ProofNode, ProofTerminal, HsdUrkelProof, dead_end, short, collision, exists, validate,
  validate_nodes, validate_terminal, open_terminal, climb, verify, IsWide,
}
use hns_rs.Urkel.Tree.{Tree, IsPrefix, IsTree, lookup, root}
use hns_rs.Urkel.Hashes.{Broken}
use hns_rs.Urkel.Descent.{IsNode, Start, descend}
use hns_rs.Urkel.Terminal.{IsTerminal, open_terminal_lem, length-open_terminal}

validate_prefix_lem : (p : BitPrefix) → validate_prefix p ≡ ok tt → IsPrefix p
unfolding validate_prefix
validate_prefix_lem p h =
    let (_, bound, h1) = >>=-eq-ok (ensure (not (ltb urkel_bits p.bit_len)) _) _ h in
    let (_, size, _) = >>=-eq-ok (ensure (length p.bytes == div_ceil_8 p.bit_len) _) _ h1 in
    let bounded = ensure-eq-ok _ _ bound in
    let sized = ensure-eq-ok _ _ size in (ground (arith, bounded), ground (arith, sized))

validate_nodes_lem :
    (nodes : List ProofNode)
    → All (λ node. length node.sibling ≡ 32) nodes
    → validate_nodes nodes ≡ ok tt
    → All IsNode nodes
unfolding validate_nodes
validate_nodes_lem [] w h = tt
validate_nodes_lem (node ∷ nodes) w h =
    let (_, prefix, rest) = >>=-eq-ok (validate_prefix node.prefix) _ h in
    ((validate_prefix_lem node.prefix prefix, w.0), validate_nodes_lem nodes w.1 rest)

validate_terminal_lem :
    (terminal : ProofTerminal)
    → IsWide terminal
    → validate_terminal terminal ≡ ok tt
    → IsTerminal terminal
unfolding validate_terminal
validate_terminal_lem dead_end w h = tt
validate_terminal_lem (short prefix left right) w h =
    let (_, e, _) = >>=-eq-ok (validate_prefix prefix) _ h in
    (validate_prefix_lem prefix e, w.0, w.1)
validate_terminal_lem (collision key value_hash) w h = w
validate_terminal_lem (exists value) w h = tt

validate_lem :
    (proof : HsdUrkelProof)
    → validate proof ≡ ok tt
    → (validate_nodes proof.nodes ≡ ok tt) × (validate_terminal proof.terminal ≡ ok tt)
unfolding validate
validate_lem proof h =
    let (_, _, h1) = >>=-eq-ok (ensure (not (ltb urkel_bits proof.depth)) _) _ h in
    let (_, _, h2) = >>=-eq-ok (ensure (not (ltb urkel_bits (length proof.nodes))) _) _ h1 in
    let (_, nodes, h3) = >>=-eq-ok (validate_nodes proof.nodes) _ h2 in (nodes, h3)

module _ ⦃blake : Blake2b⦄ where
  -- When a proof is accepted against the root of a tree, the tree has under the key exactly what the proof says:
  -- the hash of the returned value, or nothing when no value is returned. Otherwise two messages with one hash
  -- are found, or one that hashes to 32 zero bytes. The key and the hashes in the proof and in the tree have 32
  -- bytes, and the prefixes in the tree at most 256 bits, with as many bytes as these need.
  pub verify_sound :
      (proof : HsdUrkelProof) (t : Tree) (key : Bytes) (value : Option Bytes)
      → All (λ node. length node.sibling ≡ 32) proof.nodes
      → IsWide proof.terminal
      → length key ≡ 32
      → IsTree t
      → verify proof (root t) key ≡ ok value
      → (lookup key 0 t ≡ Option.map blake2b_256 value) ⊎ Broken
  unfolding verify Start
  verify_sound proof t key value hn hw hk tree h =
      let (_, valid, h1) = >>=-eq-ok (validate proof) _ h in
      let (nodes, terminal) = validate_lem proof valid in
      let ((hash, found), opened, h2) =
        >>=-eq-ok (open_terminal proof.terminal key proof.depth) _ h1 in
      let ((top, end), climbed, h3) = >>=-eq-ok (climb key proof.nodes (hash, proof.depth)) _ h2 in
      let (_, whole, h4) = >>=-eq-ok (ensure (end == 0) _) _ h3 in
      let (_, same, h5) = >>=-eq-ok (ensure (bytes_eq top (root t)) _) _ h4 in
      let at_root = ensure-eq-ok _ _ whole in
      let zero_end : end ≡ 0 = ground (arith, at_root) in
      let is_root : top ≡ root t = eq_of_bytes_eq top (root t) (ensure-eq-ok _ _ same) in
      let wide = length-open_terminal proof.terminal key proof.depth hash found opened in
      elim (descend key proof.nodes hash top proof.depth end t
        (validate_nodes_lem proof.nodes hn nodes) wide tree climbed is_root) [
          | inl (s, tree_s, hash_s, path) ↦
              elim (open_terminal_lem proof.terminal key proof.depth hash found s
                (validate_terminal_lem proof.terminal hw terminal) hk tree_s opened hash_s) [
                  | inl held ↦ inl (
                      ap (λ n. lookup key n t) (sym zero_end)
                      ∙ path
                      ∙ held
                      ∙ ap (Option.map blake2b_256) (ok-injective h5))
                  | inr broken ↦ inr broken
                ]
          | inr broken ↦ inr broken
        ]
