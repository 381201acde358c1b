-- ===== src/Urkel/RoundTrip.antt =====
-- Proofs are read back strictly from what is written for them.
use hns_rs.Base.{
  ℕ, zero, suc, ◌+◌, ◌-◌, ◌*◌, ◌/◌, ◌%◌, ◌^◌, ◌≤◌, ◌<◌, ◌≡◌, ◌⊎◌, inl, inr, refl, sym, ap, subst,
  ◌∙◌, arith, true, false, not, Bool, Bool-cases, List, [], ◌∷◌, ◌++◌, append_assoc, append-nil,
  length-replicate, length, length-append, ltb, ◌==◌, if◌then◌else◌, ok, ensure-eq-ok, >>=-eq-ok,
  All,
}
use hns_rs.Base
use hns_rs.Base.Bytes.{Bytes, to_le_bytes, length-to_le_bytes, zeros, bytes_eq, bytes_eq_iff}
use hns_rs.Encoding.Decoder.{◌>>◌, pure, lift}
use hns_rs.Encoding.Reads.{Reads, Reads-bind, Reads-last, Reads-ensure, Reads-new}
use hns_rs.Urkel.Prefix.{
  UrkelError, div_ceil_8, validate_prefix, urkel_bits, invalid_depth, node_count, BitPrefix,
}
use hns_rs.Urkel.Proof.{
  ProofNode, ProofTerminal, dead_end, short, collision, exists, IsWide, HsdUrkelProof, validate,
  validate_terminal, validate_nodes,
}
use hns_rs.Urkel.Wire.{
  read_proof, read_terminal, decode_inner, write_proof, encode, admit, decode_strict,
  max_hsd_proof_size, write_prefix, write_terminal, proof_type, write_nodes,
}
use hns_rs.Urkel.Bitmap.{
  mark, mark-Marks, zeros-clear, write_nodes_lem, nodes_bytes, node_bytes, length-mark,
}
use hns_rs.Urkel.Reading.{
  IsNode, read_u16-Reads, read_vec-Reads, read_nodes-Reads, read_terminal-Reads,
  validate_prefix_lem, short_prefix, value_fits,
}

-- What the types of the fields guarantee: hashes of 32 bytes.
pub record IsProof (p : HsdUrkelProof) : Type 0 where
  pub siblings : All (λ (n : ProofNode). length n.sibling ≡ 32) p.nodes
  pub hashes : IsWide p.terminal

valid_nodes :
    (ns : List ProofNode)
    → All (λ (n : ProofNode). length n.sibling ≡ 32) ns
    → validate_nodes ns ≡ ok tt
    → All IsNode ns
unfolding validate_nodes
valid_nodes [] h v = tt
valid_nodes (n ∷ ns) h v =
    let (u, here, rest) = >>=-eq-ok (validate_prefix n.prefix) _ v in
    (record { sibling_length = h.0; prefix_valid = here }, valid_nodes ns h.1 rest)

-- The parts of an accepted validation.
record Accepted (p : HsdUrkelProof) : Type 0 where
  depth_bound : p.depth ≤ 256
  count_bound : length p.nodes ≤ 256
  nodes_valid : validate_nodes p.nodes ≡ ok tt
  terminal_valid : validate_terminal p.terminal ≡ ok tt

accepted : (p : HsdUrkelProof) → validate p ≡ ok tt → Accepted p
unfolding validate
accepted p v =
    let (_, depth, v1) = >>=-eq-ok _ _ v in
    let (_, count, v2) = >>=-eq-ok _ _ v1 in
    let (_, nodes, terminal) = >>=-eq-ok _ _ v2 in
    record {
      depth_bound = bound _ (ensure-eq-ok _ _ depth);
      count_bound = bound _ (ensure-eq-ok _ _ count);
      nodes_valid = nodes;
      terminal_valid = terminal;
    }
  where
    bound : (n : ℕ) → not (ltb urkel_bits n) ≡ true → n ≤ 256
    bound n h = ground (arith, h)

-- The bytes of a proof in its parts.
proof_bytes : HsdUrkelProof → Bytes
proof_bytes p =
    to_le_bytes 2 (proof_type p.terminal * 2 ^ 14 + p.depth)
    ++ (to_le_bytes 2 (length p.nodes)
        ++ (mark 0 p.nodes (zeros (div_ceil_8 (length p.nodes)))
            ++ (nodes_bytes p.nodes ++ write_terminal p.terminal)))

enough_bits : (n : ℕ) → 0 + n ≤ 8 * length (zeros (div_ceil_8 n))
enough_bits n = omega (arith, length-replicate {A = ℕ} (div_ceil_8 n) 0)

write_proof-bytes : (p : HsdUrkelProof) → length p.nodes ≤ 256 → write_proof p ≡ proof_bytes p
unfolding write_proof proof_bytes
write_proof-bytes p h =
    let count : length p.nodes % 2 ^ 16 ≡ length p.nodes = omega (arith, h) in
    let bitmap = zeros (div_ceil_8 (length p.nodes)) in
    let nodes : write_nodes 0 p.nodes bitmap ≡ mark 0 p.nodes bitmap ++ nodes_bytes p.nodes =
      ap (write_nodes 0 p.nodes) (sym (append-nil bitmap))
      ∙ write_nodes_lem 0 p.nodes bitmap [] (enough_bits (length p.nodes)) in
    rw
      (
        count,
        nodes,
        append_assoc (mark 0 p.nodes bitmap) (nodes_bytes p.nodes) (write_terminal p.terminal),
      )
      refl

proof_type_lt : (t : ProofTerminal) → proof_type t < 4
unfolding proof_type
proof_type_lt dead_end = omega arith
proof_type_lt (short p l r) = omega arith
proof_type_lt (collision k v) = omega arith
proof_type_lt (exists v) = omega arith

checked_lem :
    (p : HsdUrkelProof) (depth : ℕ)
    → depth ≡ p.depth
    → validate p ≡ ok tt
    → (lift (validate (record p { depth = depth })) >> pure (record p { depth = depth }))
      ≡ pure {E = UrkelError} p
checked_lem p depth e v =
    ap (λ (d : ℕ). lift (validate (record p { depth = d })) >> pure (record p { depth = d })) e
    ∙ ap (λ (r : Base.Result UrkelError (Unit {0})). lift r >> pure p) v

-- The whole reader on the bytes of a proof.
read_proof-Reads :
    (p : HsdUrkelProof) → IsProof p → validate p ≡ ok tt → Reads read_proof (proof_bytes p) p
unfolding read_proof proof_bytes
read_proof-Reads p h v =
    let a = accepted p v in
    let field = proof_type p.terminal * 2 ^ 14 + p.depth in
    let small = proof_type_lt p.terminal in
    let depth : field % 2 ^ 14 ≡ p.depth = omega (arith, small, a.depth_bound) in
    let kind : field / 2 ^ 14 ≡ proof_type p.terminal = omega (arith, small, a.depth_bound) in
    let deep : not (ltb urkel_bits (field % 2 ^ 14)) ≡ true =
      ground (arith, depth, a.depth_bound) in
    let many : not (ltb urkel_bits (length p.nodes)) ≡ true = ground (arith, a.count_bound) in
    let bitmap = mark 0 p.nodes (zeros (div_ceil_8 (length p.nodes))) in
    let width : length bitmap ≡ div_ceil_8 (length p.nodes) =
      length-mark 0 p.nodes _ ∙ length-replicate (div_ceil_8 (length p.nodes)) 0 in
    let marks =
      mark-Marks 0 p.nodes (zeros (div_ceil_8 (length p.nodes))) (enough_bits (length p.nodes))
        (zeros-clear (div_ceil_8 (length p.nodes)) 0) in
    Reads-bind _ (read_u16-Reads field (omega (arith, small, a.depth_bound))) (
      Reads-ensure (not (ltb urkel_bits (field % 2 ^ 14))) (invalid_depth (field % 2 ^ 14)) deep (
        Reads-bind _ (read_u16-Reads (length p.nodes) (omega (arith, a.count_bound))) (
          Reads-ensure (not (ltb urkel_bits (length p.nodes))) (node_count (length p.nodes)) many (
            Reads-bind _ (read_vec-Reads (div_ceil_8 (length p.nodes)) bitmap width) (
              Reads-bind _
                (read_nodes-Reads bitmap 0 p.nodes (valid_nodes p.nodes h.siblings a.nodes_valid)
                  marks)
                (Reads-last _
                  (subst (λ k. Reads (read_terminal k) (write_terminal p.terminal) p.terminal)
                    (sym kind) (read_terminal-Reads p.terminal h.hashes a.terminal_valid))
                  (checked_lem p _ depth v)))))))

length-write_prefix : (p : BitPrefix) → validate_prefix p ≡ ok tt → length (write_prefix p) ≤ 34
unfolding write_prefix
length-write_prefix p v =
    let (small, width) = validate_prefix_lem p v in ground (arith, small, width)

length-nodes_bytes :
    (ns : List ProofNode) → All IsNode ns → length (nodes_bytes ns) ≤ 66 * length ns
unfolding nodes_bytes
length-nodes_bytes [] h = omega arith
length-nodes_bytes (n ∷ ns) h =
    let prefix = length-write_prefix n.prefix (h.0.prefix_valid) in
    let front : length (if n.prefix.bit_len == 0 then [] else write_prefix n.prefix) ≤ 34 =
      ground (arith, prefix) in
    omega (
      arith,
      length-append (node_bytes n) (nodes_bytes ns),
      length-append (if n.prefix.bit_len == 0 then [] else write_prefix n.prefix) n.sibling,
      h.0.sibling_length,
      length-nodes_bytes ns h.1,
      front,
    )

length-write_terminal :
    (t : ProofTerminal)
    → IsWide t
    → validate_terminal t ≡ ok tt
    → length (write_terminal t) ≤ 65_537
unfolding write_terminal
length-write_terminal dead_end h v = omega arith
length-write_terminal (short p left right) h v =
    let prefix = length-write_prefix p (short_prefix p left right v).0 in
    omega (
      arith,
      prefix,
      length-append (write_prefix p) (left ++ right),
      length-append left right,
      h.0,
      h.1,
    )
length-write_terminal (collision key value_hash) h v =
    omega (arith, length-append key value_hash, h.0, h.1)
length-write_terminal (exists value) h v =
    let fits = value_fits value v in
    omega (
      arith,
      fits,
      length-append (to_le_bytes 2 (length value % 2 ^ 16)) value,
      length-to_le_bytes 2 (length value % 2 ^ 16),
    )

length-proof_bytes :
    (p : HsdUrkelProof)
    → IsProof p
    → validate p ≡ ok tt
    → length (proof_bytes p) ≤ max_hsd_proof_size
unfolding proof_bytes
length-proof_bytes p h v =
    let a = accepted p v in
    let bitmap = mark 0 p.nodes (zeros (div_ceil_8 (length p.nodes))) in
    let nodes = length-nodes_bytes p.nodes (valid_nodes p.nodes h.siblings a.nodes_valid) in
    let terminal = length-write_terminal p.terminal h.hashes a.terminal_valid in
    let width : length bitmap ≡ div_ceil_8 (length p.nodes) =
      length-mark 0 p.nodes _ ∙ length-replicate (div_ceil_8 (length p.nodes)) 0 in
    let field = to_le_bytes 2 (proof_type p.terminal * 2 ^ 14 + p.depth) in
    let count = to_le_bytes 2 (length p.nodes) in
    let rest = nodes_bytes p.nodes ++ write_terminal p.terminal in
    omega (
      arith,
      nodes,
      terminal,
      width,
      a.count_bound,
      length-append (nodes_bytes p.nodes) (write_terminal p.terminal),
      length-append bitmap rest,
      length-append count (bitmap ++ rest),
      length-append field (count ++ (bitmap ++ rest)),
      length-to_le_bytes 2 (length p.nodes),
      length-to_le_bytes 2 (proof_type p.terminal * 2 ^ 14 + p.depth),
    )

encode-bytes : (p : HsdUrkelProof) → IsProof p → validate p ≡ ok tt → encode p ≡ ok (proof_bytes p)
unfolding encode
encode-bytes p h v =
    let same = write_proof-bytes p (accepted p v).count_bound in
    let size = length-proof_bytes p h v in
    let fits : ltb max_hsd_proof_size (length (proof_bytes p)) ≡ false = ground (arith, size) in
    rw (v, same, fits) refl

decode_inner-bytes :
    (p : HsdUrkelProof)
    → IsProof p
    → validate p ≡ ok tt
    → decode_inner (proof_bytes p) ≡ ok (p, length (proof_bytes p))
unfolding decode_inner
decode_inner-bytes p h v =
    let size = length-proof_bytes p h v in
    let fits : ltb max_hsd_proof_size (length (proof_bytes p)) ≡ false = ground (arith, size) in
    rw (fits, Reads-new (read_proof-Reads p h v) (omega (arith, size))) refl

-- A proof that passes its validation and whose hashes have 32 bytes is always written, in at most 82,469 bytes, and strict
-- decoding reads the same proof back from them.
pub decode_strict-encode :
    (p : HsdUrkelProof)
    → IsProof p
    → validate p ≡ ok tt
    → (raw : Bytes) × (encode p ≡ ok raw)
      × (length raw ≤ max_hsd_proof_size)
      × (decode_strict raw ≡ ok p)
unfolding decode_strict admit
decode_strict-encode p h v =
    let bytes = proof_bytes p in
    let whole : (length bytes == length bytes) ≡ true = ground arith in
    let same : bytes_eq bytes bytes ≡ true = (bytes_eq_iff bytes bytes).1 refl in
    (
      bytes,
      encode-bytes p h v,
      length-proof_bytes p h v,
      rw (decode_inner-bytes p h v, whole, encode-bytes p h v, same) refl,
    )
