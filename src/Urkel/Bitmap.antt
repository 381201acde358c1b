-- ===== src/Urkel/Bitmap.antt =====
-- The bitmap of a proof: which bits `set_packed_bit` sets and keeps.
use hns_rs.Base.{
  ℕ, zero, suc, ◌+◌, ◌-◌, ◌*◌, ◌/◌, ◌%◌, ◌^◌, ◌≤◌, ◌<◌, ◌≡◌, ◌≢◌, ◌⊎◌, inl, inr, refl, sym, ap,
  subst, ◌∙◌, arith, true, not, Bool-cases, List, [], ◌∷◌, ◌++◌, append_assoc, append-nil, length,
  get_or, ◌==◌, if◌then◌else◌,
}
use hns_rs.Base.Bytes.{Bytes, zeros}
use hns_rs.Urkel.Prefix.{packed_bit}
use hns_rs.Urkel.Proof.{ProofNode}
use hns_rs.Urkel.Wire.{or_bit, set_byte_bit, set_packed_bit, write_prefix, write_nodes}

bit_cases :
    (k : ℕ) → k < 8 → (k ≡ 0) ⊎ (k ≡ 1) ⊎ (k ≡ 2) ⊎ (k ≡ 3) ⊎ (k ≡ 4) ⊎ (k ≡ 5) ⊎ (k ≡ 6) ⊎ (k ≡ 7)
bit_cases k h = ground (arith, h)

-- One fact for each of the eight bits of a byte.
for_bits : (P : ℕ → Type 0) → P 0 → P 1 → P 2 → P 3 → P 4 → P 5 → P 6 → P 7 → (k : ℕ) → k < 8 → P k
for_bits P a b c d e f g h k l = elim (bit_cases k l) [
  | inl s ↦ subst P (sym s) a
  | inr (inl s) ↦ subst P (sym s) b
  | inr (inr (inl s)) ↦ subst P (sym s) c
  | inr (inr (inr (inl s))) ↦ subst P (sym s) d
  | inr (inr (inr (inr (inl s)))) ↦ subst P (sym s) e
  | inr (inr (inr (inr (inr (inl s))))) ↦ subst P (sym s) f
  | inr (inr (inr (inr (inr (inr (inl s)))))) ↦ subst P (sym s) g
  | inr (inr (inr (inr (inr (inr (inr s)))))) ↦ subst P (sym s) h
]

or_bit_sets : (a k : ℕ) → k < 8 → or_bit k a / 2 ^ k % 2 ≡ 1
or_bit_sets a =
    for_bits (λ k. or_bit k a / 2 ^ k % 2 ≡ 1) (ground arith) (ground arith) (ground arith)
      (ground arith) (ground arith) (ground arith) (ground arith) (ground arith)

abbrev Keeps : ℕ → ℕ → ℕ → Type 0
Keeps a k m = m ≢ k → or_bit k a / 2 ^ m % 2 ≡ a / 2 ^ m % 2

bit_0-Keeps : (a m : ℕ) → m < 8 → Keeps a 0 m
bit_0-Keeps a =
    for_bits (λ m. Keeps a 0 m) (ground arith) (ground arith) (ground arith) (ground arith)
      (ground arith) (ground arith) (ground arith) (ground arith)

bit_1-Keeps : (a m : ℕ) → m < 8 → Keeps a 1 m
bit_1-Keeps a =
    for_bits (λ m. Keeps a 1 m) (ground arith) (ground arith) (ground arith) (ground arith)
      (ground arith) (ground arith) (ground arith) (ground arith)

bit_2-Keeps : (a m : ℕ) → m < 8 → Keeps a 2 m
bit_2-Keeps a =
    for_bits (λ m. Keeps a 2 m) (ground arith) (ground arith) (ground arith) (ground arith)
      (ground arith) (ground arith) (ground arith) (ground arith)

bit_3-Keeps : (a m : ℕ) → m < 8 → Keeps a 3 m
bit_3-Keeps a =
    for_bits (λ m. Keeps a 3 m) (ground arith) (ground arith) (ground arith) (ground arith)
      (ground arith) (ground arith) (ground arith) (ground arith)

bit_4-Keeps : (a m : ℕ) → m < 8 → Keeps a 4 m
bit_4-Keeps a =
    for_bits (λ m. Keeps a 4 m) (ground arith) (ground arith) (ground arith) (ground arith)
      (ground arith) (ground arith) (ground arith) (ground arith)

bit_5-Keeps : (a m : ℕ) → m < 8 → Keeps a 5 m
bit_5-Keeps a =
    for_bits (λ m. Keeps a 5 m) (ground arith) (ground arith) (ground arith) (ground arith)
      (ground arith) (ground arith) (ground arith) (ground arith)

bit_6-Keeps : (a m : ℕ) → m < 8 → Keeps a 6 m
bit_6-Keeps a =
    for_bits (λ m. Keeps a 6 m) (ground arith) (ground arith) (ground arith) (ground arith)
      (ground arith) (ground arith) (ground arith) (ground arith)

bit_7-Keeps : (a m : ℕ) → m < 8 → Keeps a 7 m
bit_7-Keeps a =
    for_bits (λ m. Keeps a 7 m) (ground arith) (ground arith) (ground arith) (ground arith)
      (ground arith) (ground arith) (ground arith) (ground arith)

or_bit-Keeps : (a m : ℕ) → m < 8 → (k : ℕ) → k < 8 → Keeps a k m
or_bit-Keeps a m l =
    for_bits (λ k. Keeps a k m) (bit_0-Keeps a m l) (bit_1-Keeps a m l) (bit_2-Keeps a m l)
      (bit_3-Keeps a m l) (bit_4-Keeps a m l) (bit_5-Keeps a m l) (bit_6-Keeps a m l)
      (bit_7-Keeps a m l)

get_or-set_byte_bit :
    (xs : Bytes) (i j k : ℕ)
    → i < length xs
    → get_or (set_byte_bit i k xs) j 0
      ≡ (if i == j then or_bit k (get_or xs j 0) else get_or xs j 0)
unfolding set_byte_bit
get_or-set_byte_bit [] i j k h = absurd (omega (arith, h))
get_or-set_byte_bit (x ∷ xs) zero zero k h = refl
get_or-set_byte_bit (x ∷ xs) zero (suc j) k h = ground arith
get_or-set_byte_bit (x ∷ xs) (suc i) zero k h = ground arith
get_or-set_byte_bit (x ∷ xs) (suc i) (suc j) k h =
    get_or-set_byte_bit xs i j k (omega (arith, h))
    ∙ ap (λ t. if t then or_bit k (get_or xs j 0) else get_or xs j 0) (shift i j)
  where
    shift : (i j : ℕ) → (i == j) ≡ (suc i == suc j)
    shift i j = ground arith

length-set_packed_bit : (i : ℕ) (xs : Bytes) → length (set_packed_bit i xs) ≡ length xs
unfolding set_packed_bit set_byte_bit
length-set_packed_bit i xs = go (i / 8) (7 - i % 8) xs
  where
    go : (i k : ℕ) (xs : Bytes) → length (set_byte_bit i k xs) ≡ length xs
    go i k [] = refl
    go zero k (x ∷ xs) = refl
    go (suc i) k (x ∷ xs) = ap suc (go i k xs)

-- Bits past the front are set in the front only.
set_packed_bit-append :
    (i : ℕ) (xs ys : Bytes)
    → i < 8 * length xs
    → set_packed_bit i (xs ++ ys) ≡ set_packed_bit i xs ++ ys
unfolding set_packed_bit set_byte_bit
set_packed_bit-append i xs ys h = go (i / 8) (7 - i % 8) xs ys (omega (arith, h))
  where
    go :
        (i k : ℕ) (xs ys : Bytes)
        → i < length xs
        → set_byte_bit i k (xs ++ ys) ≡ set_byte_bit i k xs ++ ys
    go i k [] ys h = absurd (omega (arith, h))
    go zero k (x ∷ xs) ys h = refl
    go (suc i) k (x ∷ xs) ys h = ap (λ l. x ∷ l) (go i k xs ys (omega (arith, h)))

packed_bit_set : (i : ℕ) (xs : Bytes) → i < 8 * length xs → packed_bit (set_packed_bit i xs) i ≡ 1
unfolding packed_bit set_packed_bit
packed_bit_set i xs h =
    let same : (i / 8 == i / 8) ≡ true = ground arith in
    rw (get_or-set_byte_bit xs (i / 8) (i / 8) (7 - i % 8) (omega (arith, h)), same)
      (or_bit_sets (get_or xs (i / 8) 0) (7 - i % 8) (omega arith))

packed_bit_kept :
    (i j : ℕ) (xs : Bytes)
    → i < 8 * length xs
    → j ≢ i
    → packed_bit (set_packed_bit i xs) j ≡ packed_bit xs j
unfolding packed_bit set_packed_bit
packed_bit_kept i j xs h d =
    rw (get_or-set_byte_bit xs (i / 8) (j / 8) (7 - i % 8) (omega (arith, h)))
      (elim (Bool-cases (i / 8 == j / 8)) [
        | inr other ↦ rw other refl
        | inl same ↦
            let byte : i / 8 ≡ j / 8 = ground (arith, same) in
            rw same (
              or_bit-Keeps (get_or xs (j / 8) 0) (7 - j % 8) (omega arith) (7 - i % 8) (omega arith)
                (λ e. d (omega (arith, e, byte))))
      ])

packed_bit-zeros : (n i : ℕ) → packed_bit (zeros n) i ≡ 0
unfolding packed_bit
packed_bit-zeros n i = rw (get_or-zeros n (i / 8)) (zero_bit (7 - i % 8))
  where
    get_or-zeros : (n i : ℕ) → get_or (zeros n) i 0 ≡ 0
    get_or-zeros zero i = refl
    get_or-zeros (suc n) zero = refl
    get_or-zeros (suc n) (suc i) = get_or-zeros n i

    zero_bit : (k : ℕ) → 0 / 2 ^ k % 2 ≡ 0
    zero_bit k = grind arith

-- The bitmap with the bit of a node set, if that has a prefix.
abbrev pub one_mark : ℕ → ProofNode → Bytes → Bytes
one_mark index node bitmap =
    if node.prefix.bit_len == 0 then bitmap else set_packed_bit index bitmap

length-one_mark : (i : ℕ) (n : ProofNode) (b : Bytes) → length (one_mark i n b) ≡ length b
length-one_mark i n b = elim (Bool-cases (n.prefix.bit_len == 0)) [
  | inl none_here ↦ rw none_here refl
  | inr some_here ↦ rw some_here (length-set_packed_bit i b)
]

one_mark_here :
    (i : ℕ) (n : ProofNode) (b : Bytes)
    → i < 8 * length b
    → packed_bit b i ≡ 0
    → (packed_bit (one_mark i n b) i == 1) ≡ not (n.prefix.bit_len == 0)
one_mark_here i n b h clear = elim (Bool-cases (n.prefix.bit_len == 0)) [
  | inl none_here ↦ rw (none_here, clear) refl
  | inr some_here ↦ rw (some_here, packed_bit_set i b h) refl
]

one_mark_kept :
    (i j : ℕ) (n : ProofNode) (b : Bytes)
    → i < 8 * length b
    → j ≢ i
    → packed_bit (one_mark i n b) j ≡ packed_bit b j
one_mark_kept i j n b h d = elim (Bool-cases (n.prefix.bit_len == 0)) [
  | inl none_here ↦ rw none_here refl
  | inr some_here ↦ rw some_here (packed_bit_kept i j b h d)
]

-- The bits that the nodes from `index` on set.
unfoldable pub mark : ℕ → List ProofNode → Bytes → Bytes
mark index [] bitmap = bitmap
mark index (node ∷ nodes) bitmap = mark (index + 1) nodes (one_mark index node bitmap)

-- A bitmap that tells which nodes from `index` on have a prefix.
abbrev pub Marks : Bytes → ℕ → List ProofNode → Type 0
Marks bitmap index [] = Unit
Marks bitmap index (node ∷ nodes) =
    ((packed_bit bitmap index == 1) ≡ not (node.prefix.bit_len == 0))
    × Marks bitmap (index + 1) nodes

mark_below :
    (i j : ℕ) (ns : List ProofNode) (b : Bytes)
    → i + length ns ≤ 8 * length b
    → j < i
    → packed_bit (mark i ns b) j ≡ packed_bit b j
unfolding mark
mark_below i j [] b h l = refl
mark_below i j (n ∷ ns) b h l =
    mark_below (i + 1) j ns (one_mark i n b) (omega (arith, h, length-one_mark i n b))
      (omega (arith, l))
    ∙ one_mark_kept i j n b (omega (arith, h)) (omega (arith, l))

pub mark-Marks :
    (i : ℕ) (ns : List ProofNode) (b : Bytes)
    → i + length ns ≤ 8 * length b
    → ((j : ℕ) → i ≤ j → packed_bit b j ≡ 0)
    → Marks (mark i ns b) i ns
unfolding mark
mark-Marks i [] b h clear = tt
mark-Marks i (n ∷ ns) b h clear =
    let room : i + 1 + length ns ≤ 8 * length (one_mark i n b) =
      omega (arith, h, length-one_mark i n b) in
    let inside : i < 8 * length b = omega (arith, h) in
    let here : packed_bit (mark (i + 1) ns (one_mark i n b)) i ≡ packed_bit (one_mark i n b) i =
      mark_below (i + 1) i ns (one_mark i n b) room (omega arith) in
    (
      ap (λ t. t == 1) here ∙ one_mark_here i n b inside (clear i (omega arith)),
      mark-Marks (i + 1) ns (one_mark i n b) room
          (λ j l. one_mark_kept i j n b inside (omega (arith, l)) ∙ clear j (omega (arith, l))),
    )

pub zeros-clear : (n i j : ℕ) → i ≤ j → packed_bit (zeros n) j ≡ 0
zeros-clear n i j h = packed_bit-zeros n j

-- The bytes of a node after the bitmap, and of all nodes.
abbrev pub node_bytes : ProofNode → Bytes
node_bytes node =
    (if node.prefix.bit_len == 0 then [] else write_prefix node.prefix) ++ node.sibling

unfoldable pub nodes_bytes : List ProofNode → Bytes
nodes_bytes [] = []
nodes_bytes (node ∷ nodes) = node_bytes node ++ nodes_bytes nodes

one_node :
    (i : ℕ) (n : ProofNode) (b body : Bytes)
    → i < 8 * length b
    → (if n.prefix.bit_len == 0
          then b ++ body
          else set_packed_bit i (b ++ body) ++ write_prefix n.prefix)
        ++ n.sibling
      ≡ one_mark i n b ++ (body ++ node_bytes n)
one_node i n b body h = elim (Bool-cases (n.prefix.bit_len == 0)) [
  | inl none_here ↦ rw none_here (append_assoc b body n.sibling)
  | inr some_here ↦ rw (some_here, set_packed_bit-append i b body h) (simp append_assoc refl)
]

-- The loop of `encode` writes the bitmap in front and the nodes behind.
pub write_nodes_lem :
    (i : ℕ) (ns : List ProofNode) (b body : Bytes)
    → i + length ns ≤ 8 * length b
    → write_nodes i ns (b ++ body) ≡ mark i ns b ++ (body ++ nodes_bytes ns)
unfolding write_nodes mark nodes_bytes
write_nodes_lem i [] b body h = ap (λ l. b ++ l) (sym (append-nil body))
write_nodes_lem i (n ∷ ns) b body h =
    ap (write_nodes (i + 1) ns) (one_node i n b body (omega (arith, h)))
    ∙ write_nodes_lem (i + 1) ns (one_mark i n b) (body ++ node_bytes n)
        (omega (arith, h, length-one_mark i n b))
    ∙ ap (λ l. mark (i + 1) ns (one_mark i n b) ++ l)
        (append_assoc body (node_bytes n) (nodes_bytes ns))

pub length-mark : (i : ℕ) (ns : List ProofNode) (b : Bytes) → length (mark i ns b) ≡ length b
unfolding mark
length-mark i [] b = refl
length-mark i (n ∷ ns) b = length-mark (i + 1) ns (one_mark i n b) ∙ length-one_mark i n b
