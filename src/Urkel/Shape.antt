-- ===== src/Urkel/Shape.antt =====
-- The widths of what the reader gives, and the soundness of strict verification from the bytes on.
use mathlib.Core.Option
use hns_rs.Base.{
  ℕ, zero, suc, ◌+◌, ◌-◌, ◌/◌, ◌%◌, ◌^◌, ◌≤◌, ◌<◌, ◌≡◌, ◌⊎◌, inl, inr, refl, sym, ap, subst, ◌∙◌,
  arith, true, false, not, Bool, Bool-cases, Option, some, none, List, [], ◌∷◌, All, length,
  length-take, length-drop, ltb, ◌==◌, if◌then◌else◌, ok, err, ok-injective, drop, take,
  checked_add, Result,
}
use hns_rs.Base
use hns_rs.Base.Bytes.{Bytes}
use hns_rs.Hash.{Blake2b}
use hns_rs.Encoding.Decoder.{Decoder, pure, lift, ensure, new}
use hns_rs.Encoding.Reads.{>>=-eq-ok}
use hns_rs.Urkel.Prefix.{
  UrkelError, too_large, div_ceil_8, packed_bit, urkel_bits, blake2b_256, empty_short_prefix,
  empty_explicit_prefix,
}
use hns_rs.Urkel.Proof.{
  ProofNode, ProofTerminal, short, collision, exists, HsdUrkelProof, IsWide, validate,
}
use hns_rs.Urkel.Reader.{read_u16, read_slice, read_hash, read_vec}
use hns_rs.Urkel.Wire.{
  read_nonempty, read_node, read_nodes, read_terminal, read_proof, decode_inner, no_prefix,
  max_hsd_proof_size, UrkelProof, verify_strict,
}
use hns_rs.Urkel.Tree.{Tree, IsTree, lookup, root}
use hns_rs.Urkel.Hashes.{Broken}
use hns_rs.Urkel.Soundness.{verify_sound}
use hns_rs.Urkel.Admission.{verify_strict_admits}

length-read_hash : (d d' : Decoder) (xs : Bytes) → read_hash d ≡ ok (xs, d') → length xs ≡ 32
unfolding read_hash read_slice
length-read_hash d d' xs h = ground (
  arith,
  h,
  ap (λ (r : Bytes × Decoder). length r.0),
  length-take (d.position + 32 - d.position) (drop d.position d.input),
  length-drop d.position d.input,
)

sibling_length :
    (field : Bytes) (index : ℕ) (d d' : Decoder) (n : ProofNode)
    → read_node field index d ≡ ok (n, d')
    → length n.sibling ≡ 32
unfolding read_node
sibling_length field index d d' n h =
    let (prefix, d1, e1, h1) =
      >>=-eq-ok
        (if packed_bit field index == 1
          then read_nonempty empty_explicit_prefix
          else pure no_prefix)
        _ d h in
    let (sibling, d2, e2, h2) =
      >>=-eq-ok read_hash (λ s. pure (record { prefix = prefix; sibling = s })) d1 h1 in
    ap (λ (x : ProofNode × Decoder). length x.0.sibling) (sym (ok-injective h2))
    ∙ length-read_hash d1 d2 sibling e2

sibling_lengths :
    (field : Bytes) (index count : ℕ) (d d' : Decoder) (ns : List ProofNode)
    → read_nodes field index count d ≡ ok (ns, d')
    → All (λ (n : ProofNode). length n.sibling ≡ 32) ns
unfolding read_nodes
sibling_lengths field index zero d d' ns h =
    subst (λ l. All (λ (n : ProofNode). length n.sibling ≡ 32) l) (ap (λ r. r.0) (ok-injective h))
      tt
sibling_lengths field index (suc count) d d' ns h =
    let (n, d1, e1, h1) = >>=-eq-ok (read_node field index) _ d h in
    let (rest, d2, e2, h2) =
      >>=-eq-ok (read_nodes field (index + 1) count) (λ l. pure (n ∷ l)) d1 h1 in
    subst (λ l. All (λ (n : ProofNode). length n.sibling ≡ 32) l) (ap (λ r. r.0) (ok-injective h2))
      (sibling_length field index d d1 n e1, sibling_lengths field (index + 1) count d1 d2 rest e2)

read_terminal-IsWide :
    (kind : ℕ) (d d' : Decoder) (t : ProofTerminal) → read_terminal kind d ≡ ok (t, d') → IsWide t
unfolding read_terminal
read_terminal-IsWide kind d d' t h = elim (cases kind) [
  | inl nothing ↦ subst (λ t. IsWide t) (ap (λ r. r.0) (ok-injective (rw nothing at h))) tt
  | inr (inl (nothing, is_short)) ↦
      let h0 = rw (nothing, is_short) at h in
      let (prefix, d1, e1, h1) = >>=-eq-ok (read_nonempty empty_short_prefix) _ d h0 in
      let (left, d2, e2, h2) = >>=-eq-ok read_hash _ d1 h1 in
      let (right, d3, e3, h3) = >>=-eq-ok read_hash (λ r. pure (short prefix left r)) d2 h2 in
      subst (λ t. IsWide t) (ap (λ r. r.0) (ok-injective h3))
        (length-read_hash d1 d2 left e2, length-read_hash d2 d3 right e3)
  | inr (inr (inl (nothing, other, is_collision))) ↦
      let h0 = rw (nothing, other, is_collision) at h in
      let (key, d1, e1, h1) = >>=-eq-ok read_hash _ d h0 in
      let (value_hash, d2, e2, h2) = >>=-eq-ok read_hash (λ v. pure (collision key v)) d1 h1 in
      subst (λ t. IsWide t) (ap (λ r. r.0) (ok-injective h2))
        (length-read_hash d d1 key e1, length-read_hash d1 d2 value_hash e2)
  | inr (inr (inr (nothing, other, another))) ↦
      let h0 = rw (nothing, other, another) at h in
      let (size, d1, e1, h1) = >>=-eq-ok read_u16 _ d h0 in
      let (value, d2, e2, h2) = >>=-eq-ok (read_vec size) (λ v. pure (exists v)) d1 h1 in
      subst (λ t. IsWide t) (ap (λ r. r.0) (ok-injective h2)) tt
]
  where
    cases :
        (k : ℕ)
        → ((k == 0) ≡ true)
          ⊎ ((k == 0) ≡ false) × ((k == 1) ≡ true)
          ⊎ ((k == 0) ≡ false) × ((k == 1) ≡ false) × ((k == 2) ≡ true)
          ⊎ ((k == 0) ≡ false) × ((k == 1) ≡ false) × ((k == 2) ≡ false)
    cases k = ground arith

read_proof-IsWide :
    (d d' : Decoder) (p : HsdUrkelProof)
    → read_proof d ≡ ok (p, d')
    → All (λ (n : ProofNode). length n.sibling ≡ 32) p.nodes × IsWide p.terminal
unfolding read_proof
read_proof-IsWide d d' p h =
    let (field, d1, e1, h1) = >>=-eq-ok read_u16 _ d h in
    let (_, d2, e2, h2) = >>=-eq-ok (ensure (not (ltb urkel_bits (field % 2 ^ 14))) _) _ d1 h1 in
    let (count, d3, e3, h3) = >>=-eq-ok read_u16 _ d2 h2 in
    let (_, d4, e4, h4) = >>=-eq-ok (ensure (not (ltb urkel_bits count)) _) _ d3 h3 in
    let (bitmap, d5, e5, h5) = >>=-eq-ok (read_vec (div_ceil_8 count)) _ d4 h4 in
    let (nodes, d6, e6, h6) = >>=-eq-ok (read_nodes bitmap 0 count) _ d5 h5 in
    let (terminal, d7, e7, h7) = >>=-eq-ok (read_terminal (field / 2 ^ 14)) _ d6 h6 in
    let whole : HsdUrkelProof = record {
      depth = field % 2 ^ 14;
      nodes = nodes;
      terminal = terminal;
    } in
    let (_, d8, e8, h8) = >>=-eq-ok (lift (validate whole)) (λ (u : Unit {0}). pure whole) d7 h7 in
    subst (λ q. All (λ (n : ProofNode). length n.sibling ≡ 32) q.nodes × IsWide q.terminal)
      (ap (λ r. r.0) (ok-injective h8))
      (
        sibling_lengths bitmap 0 count d5 d6 nodes e6,
        read_terminal-IsWide (field / 2 ^ 14) d6 d7 terminal e7,
      )

map_ok-eq-ok :
    {A B : Type 0} (f : A → B) (r : Result UrkelError A) (b : B)
    → Base.map_ok f r ≡ ok b
    → (a : A) × (r ≡ ok a) × (f a ≡ b)
map_ok-eq-ok f (ok a) b h = (a, refl, ok-injective h)
map_ok-eq-ok f (err e) b h = cc

read_of :
    (test : Bool) (e : UrkelError) (r : Result UrkelError (HsdUrkelProof × ℕ))
    (x : HsdUrkelProof × ℕ)
    → (if test then err e else r) ≡ ok x
    → r ≡ ok x
read_of true e r x h = cc
read_of false e r x h = h

decode_inner-IsWide :
    (raw : Bytes) (p : HsdUrkelProof) (n : ℕ)
    → decode_inner raw ≡ ok (p, n)
    → All (λ (n : ProofNode). length n.sibling ≡ 32) p.nodes × IsWide p.terminal
unfolding decode_inner
decode_inner-IsWide raw p n h =
    let result =
      Base.map_ok (λ (r : HsdUrkelProof × Decoder). (r.0, r.1.position)) (read_proof (new raw)) in
    let inner =
      read_of (ltb max_hsd_proof_size (length raw)) (too_large (length raw)) result (p, n) h in
    let ((q, d), run, same) =
      map_ok-eq-ok (λ (r : HsdUrkelProof × Decoder). (r.0, r.1.position)) (read_proof (new raw))
        (p, n) inner in
    subst (λ q. All (λ (n : ProofNode). length n.sibling ≡ 32) q.nodes × IsWide q.terminal)
      (ap (λ r. r.0) same) (read_proof-IsWide (new raw) d q run)

module _ ⦃blake : Blake2b⦄ where
  -- When strict verification accepts a declared proof against the root of a tree, the tree has under the name exactly what
  -- the answer says: the hash of the returned value, or nothing when no value is returned. Otherwise two messages with
  -- one hash are found, or one that hashes to 32 zero bytes. Nothing is assumed of the bytes of the proof.
  pub verify_strict_sound :
      (p : UrkelProof) (t : Tree) (value : Option Bytes)
      → length p.name_hash ≡ 32
      → IsTree t
      → verify_strict p (root t) ≡ ok value
      → (lookup p.name_hash 0 t ≡ Option.map blake2b_256 value) ⊎ Broken
  verify_strict_sound p t value width tree h =
      let (_, _, (proof, decoded, _, verified)) = verify_strict_admits p (root t) value h in
      let (siblings, terminal) = decode_inner-IsWide p.raw proof (length p.raw) decoded in
      verify_sound proof t p.name_hash value siblings terminal width tree verified
