-- ===== src/Urkel/Wire.antt =====
-- crates/hns-urkel-proof/src/lib.rs: the wire form of proofs.
use hns_rs.Base
use hns_rs.Base.{
  ℕ, zero, suc, ◌+◌, ◌-◌, ◌*◌, ◌/◌, ◌%◌, ◌^◌, Bool, not, List, [], ◌∷◌, ◌++◌, ltb, ◌==◌,
  if◌then◌else◌, length, ◌|>◌, Result, ok, err, Option,
}
use hns_rs.Base.Bytes.{Bytes, to_le_bytes, zeros, bytes_eq}
use hns_rs.Hash.{Blake2b}
use hns_rs.Encoding.Decoder.{◌>>=◌, ◌>>◌, pure, ensure, lift, new}
use hns_rs.Urkel.Prefix.{
  UrkelError, too_large, invalid_depth, node_count, empty_explicit_prefix, empty_short_prefix,
  trailing_bytes, non_canonical, kind_mismatch, urkel_bits, BitPrefix, div_ceil_8, packed_bit,
}
use hns_rs.Urkel.Proof.{
  ProofNode, ProofTerminal, dead_end, short, collision, exists, HsdUrkelProof, validate, verify,
}
use hns_rs.Urkel.Reader.{Reader, read_u16, read_hash, read_vec, read_prefix}

abbrev pub max_hsd_proof_size : ℕ
max_hsd_proof_size = 82_469

abbrev pub type_deadend : ℕ
type_deadend = 0

abbrev pub type_short : ℕ
type_short = 1

abbrev pub type_collision : ℕ
type_collision = 2

abbrev pub type_exists : ℕ
type_exists = 3

abbrev pub no_prefix : BitPrefix
no_prefix = record { bit_len = 0; bytes = [] }

-- A prefix that has to have a bit.
unfoldable pub read_nonempty : UrkelError → Reader BitPrefix
read_nonempty e = do prefix ← read_prefix; ensure (not (prefix.bit_len == 0)) e; pure prefix

unfoldable pub read_node : Bytes → ℕ → Reader ProofNode
read_node field index = do
  prefix ←
      if packed_bit field index == 1 then read_nonempty empty_explicit_prefix else pure no_prefix
  sibling ← read_hash
  pure (record { prefix = prefix; sibling = sibling })

-- `for index in 0..count`, from `index` on.
unfoldable pub read_nodes : Bytes → ℕ → ℕ → Reader (List ProofNode)
read_nodes field index zero = pure []
read_nodes field index (suc count) = do
  node ← read_node field index
  nodes ← read_nodes field (index + 1) count
  pure (node ∷ nodes)

-- A field of 16 bits has no other type.
unfoldable pub read_terminal : ℕ → Reader ProofTerminal
read_terminal proof_type =
    if proof_type == type_deadend
    then pure dead_end
    else if proof_type == type_short
    then (do
      prefix ← read_nonempty empty_short_prefix
      left ← read_hash
      right ← read_hash
      pure (short prefix left right))
    else if proof_type == type_collision
    then (do key ← read_hash; value_hash ← read_hash; pure (collision key value_hash))
    else (do size ← read_u16; value ← read_vec size; pure (exists value))

unfoldable pub read_proof : Reader HsdUrkelProof
read_proof = do
  field ← read_u16
  ensure (not (ltb urkel_bits (field % 2 ^ 14))) (invalid_depth (field % 2 ^ 14))
  count ← read_u16
  ensure (not (ltb urkel_bits count)) (node_count count)
  prefix_field ← read_vec (div_ceil_8 count)
  nodes ← read_nodes prefix_field 0 count
  terminal ← read_terminal (field / 2 ^ 14)
  lift (validate (record { depth = field % 2 ^ 14; nodes = nodes; terminal = terminal }))
  pure (record { depth = field % 2 ^ 14; nodes = nodes; terminal = terminal })

-- The proof and the number of bytes that it takes.
unfoldable pub decode_inner : Bytes → Result UrkelError (HsdUrkelProof × ℕ)
decode_inner raw =
    if ltb max_hsd_proof_size (length raw)
    then err (too_large (length raw))
    else Base.map_ok (λ r. (r.0, r.1.position)) (read_proof (new raw))

unfoldable pub write_prefix : BitPrefix → Bytes
write_prefix p =
    if ltb p.bit_len 0x80
    then (p.bit_len % 256) ∷ p.bytes
    else (0x80 + p.bit_len / 2 ^ 8) ∷ (p.bit_len % 256) ∷ p.bytes

-- `byte |= 1 << k`
abbrev pub or_bit : ℕ → ℕ → ℕ
or_bit k byte = if byte / 2 ^ k % 2 == 1 then byte else byte + 2 ^ k

unfoldable pub set_byte_bit : ℕ → ℕ → Bytes → Bytes
set_byte_bit index k [] = []
set_byte_bit zero k (a ∷ xs) = or_bit k a ∷ xs
set_byte_bit (suc index) k (a ∷ xs) = a ∷ set_byte_bit index k xs

-- `set_packed_bit` with the bit 1, as it is called.
unfoldable pub set_packed_bit : ℕ → Bytes → Bytes
set_packed_bit index bytes = set_byte_bit (index / 8) (7 - index % 8) bytes

-- The nodes from `index` on. The state is the output from the bitmap on.
unfoldable pub write_nodes : ℕ → List ProofNode → Bytes → Bytes
write_nodes index [] tail = tail
write_nodes index (node ∷ nodes) tail =
    let explicit =
      if node.prefix.bit_len == 0
      then tail
      else set_packed_bit index tail ++ write_prefix node.prefix in
    write_nodes (index + 1) nodes (explicit ++ node.sibling)

unfoldable pub proof_type : ProofTerminal → ℕ
proof_type dead_end = type_deadend
proof_type (short prefix left right) = type_short
proof_type (collision key value_hash) = type_collision
proof_type (exists value) = type_exists

unfoldable pub write_terminal : ProofTerminal → Bytes
write_terminal dead_end = []
write_terminal (short prefix left right) = write_prefix prefix ++ (left ++ right)
write_terminal (collision key value_hash) = key ++ value_hash
write_terminal (exists value) = to_le_bytes 2 (length value % 2 ^ 16) ++ value

unfoldable pub write_proof : HsdUrkelProof → Bytes
write_proof proof =
    to_le_bytes 2 (proof_type proof.terminal * 2 ^ 14 + proof.depth)
    ++ (to_le_bytes 2 (length proof.nodes % 2 ^ 16)
        ++ (write_nodes 0 proof.nodes (zeros (div_ceil_8 (length proof.nodes)))
            ++ write_terminal proof.terminal))

unfoldable pub encode : HsdUrkelProof → Result UrkelError Bytes
encode proof = Base.◌>>◌ (validate proof) (
    if ltb max_hsd_proof_size (length (write_proof proof))
    then err (too_large (length (write_proof proof)))
    else ok (write_proof proof))

unfoldable pub decode_hsd : Bytes → Result UrkelError HsdUrkelProof
decode_hsd raw = Base.map_ok (λ r. r.0) (decode_inner raw)

-- What `decode_strict` asks of a decoded proof.
unfoldable pub admit : Bytes → HsdUrkelProof → ℕ → Result UrkelError HsdUrkelProof
admit raw proof consumed =
    if not (consumed == length raw)
    then err (trailing_bytes (length raw - consumed))
    else Base.◌>>=◌ (encode proof)
        (λ canonical. if bytes_eq canonical raw then ok proof else err non_canonical)

unfoldable pub decode_strict : Bytes → Result UrkelError HsdUrkelProof
decode_strict raw = Base.◌>>=◌ (decode_inner raw) (λ r. admit raw r.0 r.1)

pub data ProofKind : Type 0 where
  inclusion non_inclusion : ProofKind

unfoldable pub terminal_kind : ProofTerminal → ProofKind
terminal_kind (exists value) = inclusion
terminal_kind terminal = non_inclusion

unfoldable pub kind : HsdUrkelProof → ProofKind
kind proof = terminal_kind proof.terminal

pub record UrkelProof : Type 0 where
  pub name_hash : Bytes
  pub kind : ProofKind
  pub raw : Bytes

unfoldable pub kind_eq : ProofKind → ProofKind → Bool
kind_eq inclusion inclusion = Base.true
kind_eq non_inclusion non_inclusion = Base.true
kind_eq a b = Base.false

module _ ⦃blake : Blake2b⦄ where
  -- What both ways of verifying do with the decoded proof.
  unfoldable pub verify_decoded :
      UrkelProof → Bytes → HsdUrkelProof → Result UrkelError (Option Bytes)
  verify_decoded p root proof =
      if not (kind_eq (kind proof) p.kind) then err kind_mismatch else verify proof root p.name_hash

  unfoldable pub verify_hsd : UrkelProof → Bytes → Result UrkelError (Option Bytes)
  verify_hsd p root = Base.◌>>=◌ (decode_hsd p.raw) (verify_decoded p root)

  unfoldable pub verify_strict : UrkelProof → Bytes → Result UrkelError (Option Bytes)
  verify_strict p root = Base.◌>>=◌ (decode_strict p.raw) (verify_decoded p root)
