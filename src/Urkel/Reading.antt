-- ===== src/Urkel/Reading.antt =====
-- The parts of a proof are read back from what is written for them.
use hns_rs.Base.{
  ℕ, zero, suc, ◌+◌, ◌-◌, ◌*◌, ◌/◌, ◌%◌, ◌^◌, ◌≤◌, ◌<◌, ◌≡◌, ◌≢◌, ◌⊎◌, inl, inr, refl, sym, ap,
  subst, ◌∙◌, arith, true, false, not, ◌||◌, Bool, Bool-cases, List, [], ◌∷◌, ◌++◌, append_assoc,
  append-nil, length, length-append, get_or, ltb, ◌==◌, if◌then◌else◌, ok, ensure-eq-ok, >>=-eq-ok,
  All,
}
use hns_rs.Base
use hns_rs.Base.Bytes.{Bytes, to_le_bytes, length-to_le_bytes, from_le_bytes-to_le_bytes}
use hns_rs.Encoding.Decoder.{◌>>=◌, ◌>>◌, pure, lift}
use hns_rs.Encoding.Reads.{Reads, Reads-bind, Reads-last, Reads-ensure, Reads-pure}
use hns_rs.Encoding.RoundTrip.{slice_middle}
use hns_rs.Urkel.Prefix.{
  UrkelError, BitPrefix, div_ceil_8, packed_bit, validate_prefix, urkel_bits, prefix_length,
}
use hns_rs.Urkel.Proof.{
  ProofNode, ProofTerminal, dead_end, short, collision, exists, validate_terminal, IsWide,
}
use hns_rs.Urkel.Reader.{
  Reader, read_u8, read_slice, read_u16, read_hash, read_vec, read_bit_len, read_prefix,
}
use hns_rs.Urkel.Wire.{
  read_nonempty, read_node, read_nodes, read_terminal, write_prefix, write_terminal, proof_type,
  no_prefix,
}
use hns_rs.Urkel.Bitmap.{Marks, node_bytes, nodes_bytes}

pub read_slice-Reads : (xs : Bytes) → Reads (read_slice (length xs)) xs xs
unfolding read_slice
read_slice-Reads xs = record {
  run = λ front rest h. ground (
    arith,
    slice_middle front xs rest,
    length-append front (xs ++ rest),
    length-append xs rest,
    length-append front xs,
    append_assoc front xs rest,
  );
}

pub read_vec-Reads : (n : ℕ) (xs : Bytes) → length xs ≡ n → Reads (read_vec n) xs xs
unfolding read_vec
read_vec-Reads n xs h = subst (λ k. Reads (read_slice k) xs xs) h (read_slice-Reads xs)

pub read_hash-Reads : (xs : Bytes) → length xs ≡ 32 → Reads read_hash xs xs
unfolding read_hash
read_hash-Reads xs h = subst (λ k. Reads (read_slice k) xs xs) h (read_slice-Reads xs)

next_byte : (front rest : Bytes) (v : ℕ) → get_or (front ++ (v ∷ rest)) (length front) 0 ≡ v
next_byte [] rest v = refl
next_byte (x ∷ front) rest v = next_byte front rest v

read_u8-Reads : (v : ℕ) → Reads read_u8 (v ∷ []) v
unfolding read_u8
read_u8-Reads v = record {
  run = λ front rest h. ground (
    arith,
    next_byte front rest v,
    length-append front (v ∷ rest),
    length-append front (v ∷ []),
    append_assoc front (v ∷ []) rest,
  );
}

pub read_u16-Reads : (v : ℕ) → v < 2 ^ 16 → Reads read_u16 (to_le_bytes 2 v) v
unfolding read_u16
read_u16-Reads v h =
    Reads-last _
      (subst (λ k. Reads (read_slice k) (to_le_bytes 2 v) (to_le_bytes 2 v))
        (length-to_le_bytes 2 v) (read_slice-Reads (to_le_bytes 2 v)))
      (ap pure (from_le_bytes-to_le_bytes 2 v h))

-- What an accepted prefix promises.
pub validate_prefix_lem :
    (p : BitPrefix)
    → validate_prefix p ≡ ok tt
    → (p.bit_len ≤ 256) × (length p.bytes ≡ div_ceil_8 p.bit_len)
unfolding validate_prefix
validate_prefix_lem p h = ground (arith, h)

lift-Reads :
    {A B : Type 0} {r : Base.Result UrkelError A} (a : A) (k : A → Reader B) {xs : Bytes} {b : B}
    → r ≡ ok a
    → Reads (k a) xs b
    → Reads (lift r >>= k) xs b
lift-Reads a k e h = rw e (Reads-bind k (Reads-pure a) h)

read_bit_len-Reads :
    (n : ℕ)
    → n ≤ 256
    → (head : ℕ) × (tail : Bytes) × ((bytes : Bytes)
        → write_prefix (record { bit_len = n; bytes = bytes }) ≡ head ∷ (tail ++ bytes))
      × Reads (read_bit_len head) tail n
unfolding read_bit_len write_prefix
read_bit_len-Reads n h = elim (Bool-cases (ltb n 0x80)) [
  | inl low ↦
      let one : (n % 256 / 0x80 % 2 == 1) ≡ false = ground (arith, low) in
      let same : n % 256 ≡ n = ground (arith, low) in
      (
        n % 256,
        [],
        (λ bytes. rw low refl),
        rw one
            (subst (λ m. Reads {E = UrkelError} (pure (n % 256)) [] m) same (Reads-pure (n % 256))),
      )
  | inr high ↦ (
    0x80 + n / 2 ^ 8,
    (n % 256) ∷ [],
    (λ bytes. rw high refl),
    rw (high_bit n h) (Reads-last _ (read_u8-Reads (n % 256)) (ap pure (joined n h))),
  )
]
  where
    high_bit : (n : ℕ) → n ≤ 256 → ((0x80 + n / 2 ^ 8) / 0x80 % 2 == 1) ≡ true
    high_bit n h = ground (arith, h)

    joined : (n : ℕ) → n ≤ 256 → (0x80 + n / 2 ^ 8) % 0x80 * 2 ^ 8 + n % 256 ≡ n
    joined n h = omega (arith, h)

pub read_prefix-Reads :
    (p : BitPrefix) → validate_prefix p ≡ ok tt → Reads read_prefix (write_prefix p) p
unfolding read_prefix
read_prefix-Reads p h =
    let (small, width) = validate_prefix_lem p h in
    let (head, tail, written, reads) = read_bit_len-Reads p.bit_len small in
    let test : not (ltb urkel_bits p.bit_len) ≡ true = ground (arith, small) in
    rw (written p.bytes) (
      Reads-bind _ (read_u8-Reads head) (
        Reads-bind _ reads (
          Reads-ensure (not (ltb urkel_bits p.bit_len)) (prefix_length p.bit_len) test (
            Reads-last _ (read_vec-Reads (div_ceil_8 p.bit_len) p.bytes width)
              (ap (λ (r : Base.Result UrkelError (Unit {0})). lift r >> pure p) h)))))

pub read_nonempty-Reads :
    (p : BitPrefix) (e : UrkelError)
    → validate_prefix p ≡ ok tt
    → (p.bit_len == 0) ≡ false
    → Reads (read_nonempty e) (write_prefix p) p
unfolding read_nonempty
read_nonempty-Reads p e h some_bit = Reads-last _ (read_prefix-Reads p h) (rw some_bit refl)

-- A node of hash size whose prefix is accepted.
pub record IsNode (n : ProofNode) : Type 0 where
  pub sibling_length : length n.sibling ≡ 32
  pub prefix_valid : validate_prefix n.prefix ≡ ok tt

empty_bytes : (xs : Bytes) → length xs ≡ 0 → xs ≡ []
empty_bytes [] h = refl
empty_bytes (x ∷ xs) h = ground (arith, h)

empty_prefix : (p : BitPrefix) → validate_prefix p ≡ ok tt → (p.bit_len == 0) ≡ true → p ≡ no_prefix
empty_prefix p h zero_bits =
    let nothing : p.bit_len ≡ 0 = ground (arith, zero_bits) in
    let bytes : p.bytes ≡ [] =
      empty_bytes p.bytes (omega (arith, (validate_prefix_lem p h).1, nothing)) in
    λ i. record { bit_len = nothing i; bytes = bytes i }

abbrev with_sibling : BitPrefix → Reader ProofNode
with_sibling prefix = read_hash >>= λ sibling. pure (record { prefix = prefix; sibling = sibling })

abbrev as_node : BitPrefix → Bytes → Reader ProofNode
as_node prefix sibling = pure (record { prefix = prefix; sibling = sibling })

read_node-Reads :
    (field : Bytes) (index : ℕ) (n : ProofNode)
    → IsNode n
    → (packed_bit field index == 1) ≡ not (n.prefix.bit_len == 0)
    → Reads (read_node field index) (node_bytes n) n
unfolding read_node
read_node-Reads field index n h marked = elim (Bool-cases (n.prefix.bit_len == 0)) [
  | inl zero_bits ↦
      let unmarked : (packed_bit field index == 1) ≡ false = marked ∙ ap not zero_bits in
      rw (unmarked, zero_bits)
        (Reads-bind with_sibling (Reads-pure no_prefix) (
          Reads-last (as_node no_prefix) (read_hash-Reads n.sibling h.sibling_length) (
            ap (λ q. pure (record { prefix = q; sibling = n.sibling }))
              (sym (empty_prefix n.prefix h.prefix_valid zero_bits)))))
  | inr some_bits ↦
      let set : (packed_bit field index == 1) ≡ true = marked ∙ ap not some_bits in
      rw (set, some_bits)
        (Reads-bind with_sibling (read_nonempty-Reads n.prefix _ h.prefix_valid some_bits)
          (Reads-last (as_node n.prefix) (read_hash-Reads n.sibling h.sibling_length) refl))
]

pub read_nodes-Reads :
    (field : Bytes) (index : ℕ) (ns : List ProofNode)
    → All IsNode ns
    → Marks field index ns
    → Reads (read_nodes field index (length ns)) (nodes_bytes ns) ns
unfolding read_nodes nodes_bytes
read_nodes-Reads field index [] h m = Reads-pure []
read_nodes-Reads field index (n ∷ ns) h m =
    Reads-bind _ (read_node-Reads field index n h.0 m.0)
      (Reads-last _ (read_nodes-Reads field (index + 1) ns h.1 m.1) refl)

pub short_prefix :
    (p : BitPrefix) (l r : Bytes)
    → validate_terminal (short p l r) ≡ ok tt
    → (validate_prefix p ≡ ok tt) × ((p.bit_len == 0) ≡ false)
unfolding validate_terminal
short_prefix p l r h =
    let (u, valid, rest) = >>=-eq-ok (validate_prefix p) _ h in
    (valid, not_true _ (ensure-eq-ok _ _ rest))
  where
    not_true : (b : Bool) → not b ≡ true → b ≡ false
    not_true b h = ground (arith, h)

pub value_fits : (value : Bytes) → validate_terminal (exists value) ≡ ok tt → length value < 2 ^ 16
unfolding validate_terminal
value_fits value h = ground (arith, h)

pub read_terminal-Reads :
    (t : ProofTerminal)
    → IsWide t
    → validate_terminal t ≡ ok tt
    → Reads (read_terminal (proof_type t)) (write_terminal t) t
unfolding read_terminal write_terminal proof_type
read_terminal-Reads dead_end h v = Reads-pure dead_end
read_terminal-Reads (short p left right) h v =
    let (valid, some_bits) = short_prefix p left right v in
    Reads-bind _ (read_nonempty-Reads p _ valid some_bits)
      (Reads-bind _ (read_hash-Reads left h.0) (Reads-last _ (read_hash-Reads right h.1) refl))
read_terminal-Reads (collision key value_hash) h v =
    Reads-bind _ (read_hash-Reads key h.0) (Reads-last _ (read_hash-Reads value_hash h.1) refl)
read_terminal-Reads (exists value) h v =
    let fits = value_fits value v in
    let same : length value % 2 ^ 16 ≡ length value = omega (arith, fits) in
    rw same (
      Reads-bind _ (read_u16-Reads (length value) fits)
        (Reads-last _ (read_vec-Reads (length value) value refl) refl))
