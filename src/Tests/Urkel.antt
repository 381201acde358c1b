-- ===== src/Tests/Urkel.antt =====
-- The theorem on Urkel proofs at a tree of two leaves.
use mathlib.Core.Option
use hns_rs.Base.{◌≡◌, ◌⊎◌, ◌≤◌, ◌++◌, length, refl, [], ◌∷◌, arith, some, ok, err}
use hns_rs.Base.Bytes.{Bytes, zeros, bytes_eq}
use hns_rs.Hash.{Blake2b}
use hns_rs.Tests.Padding.{pad, length-pad}
use hns_rs.Urkel.Prefix.{
  ancestor_depth, BitPrefix, validate_prefix, matches_key, bits_match, key_bit, packed_bit,
  hash_leaf, leaf_message, hash_internal, internal_message, blake2b_256,
}
use hns_rs.Urkel.Proof.{
  HsdUrkelProof, exists, short, validate, validate_nodes, validate_terminal, open_terminal, climb,
  climb_node, verify,
}
use hns_rs.Urkel.Reader.{
  read_u8, read_slice, read_u16, read_hash, read_vec, read_bit_len, read_prefix,
}
use hns_rs.Urkel.Wire.{
  max_hsd_proof_size, inclusion, UrkelProof, encode, decode_inner, decode_strict, admit,
  read_nonempty, read_node, read_nodes, read_terminal, read_proof, write_prefix, set_byte_bit,
  set_packed_bit, write_nodes, proof_type, write_terminal, write_proof, terminal_kind, kind,
  kind_eq, verify_decoded, verify_hsd, verify_strict,
}
use hns_rs.Urkel.RoundTrip.{decode_strict-encode}
use hns_rs.Urkel.Admission.{Answers, verify_strict_admits}
use hns_rs.Urkel.Shape.{verify_strict_sound}
use hns_rs.Encoding.Decoder.{new}
use hns_rs.Urkel.Tree.{Tree, leaf, internal, IsTree, lookup, root}
use hns_rs.Urkel.Hashes.{Broken}
use hns_rs.Urkel.Soundness.{verify_sound}

instance abbrev padded : Blake2b
padded = record { digest = pad 32; length-digest = length-pad 32 }

abbrev no_bits : BitPrefix
no_bits = record { bit_len = 0; bytes = [] }

abbrev left_key : Bytes
left_key = zeros 32

abbrev right_key : Bytes
right_key = 128 ∷ zeros 31

abbrev right_value : Bytes
right_value = 1 ∷ 2 ∷ 3 ∷ []

abbrev two_leaves : Tree
two_leaves =
    internal no_bits (leaf left_key (pad 32 (9 ∷ []))) (leaf right_key (pad 32 right_value))

abbrev right_proof : HsdUrkelProof
right_proof = record {
  depth = 1;
  nodes = record { prefix = no_bits; sibling = pad 32 (0 ∷ zeros 32) } ∷ [];
  terminal = exists right_value;
}

verify-right_proof : verify right_proof (root two_leaves) right_key ≡ ok (some right_value)
unfolding verify validate validate_nodes validate_terminal validate_prefix open_terminal climb
    climb_node matches_key bits_match key_bit root hash_leaf leaf_message hash_internal
    internal_message blake2b_256 pad bytes_eq
verify-right_proof = refl

two_leaves-IsTree : IsTree two_leaves
unfolding pad
two_leaves-IsTree = ((omega arith, refl), (refl, refl), (refl, refl))

verify_sound_example :
    (lookup right_key 0 two_leaves ≡ Option.map blake2b_256 (some right_value)) ⊎ Broken
verify_sound_example =
    verify_sound right_proof two_leaves right_key (some right_value)
      (length-pad 32 (0 ∷ zeros 32), tt) tt refl two_leaves-IsTree verify-right_proof

-- Without the bit that the only node of the path takes, the proof is refused.
too_shallow :
    verify (record right_proof { depth = 0 }) (root two_leaves) right_key ≡ err ancestor_depth
unfolding verify validate validate_nodes validate_terminal validate_prefix open_terminal climb
    climb_node
too_shallow = refl

abbrev declared : UrkelProof
declared = record {
  name_hash = right_key;
  kind = inclusion;
  raw = 1 ∷ 192 ∷ 1 ∷ 0 ∷ 0 ∷ (zeros 32 ++ (3 ∷ 0 ∷ right_value));
}

accepted : verify_strict declared (root two_leaves) ≡ ok (some right_value)
unfolding verify_strict decode_strict decode_inner admit read_proof read_nodes read_node
    read_nonempty read_terminal read_u8 read_slice read_u16 read_hash read_vec read_bit_len
    read_prefix new encode write_proof write_prefix set_byte_bit set_packed_bit write_nodes
    proof_type write_terminal terminal_kind kind kind_eq verify_decoded verify validate
    validate_nodes validate_terminal validate_prefix open_terminal climb climb_node matches_key
    bits_match key_bit packed_bit root hash_leaf leaf_message hash_internal internal_message
    blake2b_256 pad bytes_eq
accepted = refl

verify_strict_sound_example :
    (lookup right_key 0 two_leaves ≡ Option.map blake2b_256 (some right_value)) ⊎ Broken
verify_strict_sound_example =
    verify_strict_sound declared two_leaves (some right_value) refl two_leaves-IsTree accepted

verify_strict_admits_example :
    (verify_hsd declared (root two_leaves) ≡ ok (some right_value))
    × Answers declared.kind (some right_value)
    × ((proof : HsdUrkelProof) × (decode_inner declared.raw ≡ ok (proof, length declared.raw))
        × (encode proof ≡ ok declared.raw)
        × (verify proof (root two_leaves) declared.name_hash ≡ ok (some right_value)))
verify_strict_admits_example =
    verify_strict_admits declared (root two_leaves) (some right_value) accepted

-- A proof with a compressed ancestor and a compressed subtree at its end.
abbrev short_proof : HsdUrkelProof
short_proof = record {
  depth = 12;
  nodes =
      record { prefix = no_bits; sibling = pad 32 (4 ∷ []) }
      ∷ record {
        prefix = record { bit_len = 9; bytes = 170 ∷ 128 ∷ [] };
        sibling = pad 32 (5 ∷ []);
      }
      ∷ [];
  terminal = short (record { bit_len = 200; bytes = zeros 25 }) (zeros 32) (zeros 32);
}

short_valid : validate short_proof ≡ ok tt
unfolding validate validate_nodes validate_terminal validate_prefix
short_valid = refl

decode_strict-encode_example :
    (raw : Bytes) × (encode short_proof ≡ ok raw)
    × (length raw ≤ max_hsd_proof_size)
    × (decode_strict raw ≡ ok short_proof)
decode_strict-encode_example =
    decode_strict-encode short_proof
      (record {
        siblings = (length-pad 32 (4 ∷ []), (length-pad 32 (5 ∷ []), tt));
        hashes = (refl, refl);
      })
      short_valid
