-- ===== src/Urkel/Hashes.antt =====
-- What a hash of a node says of the tree that has it, up to a collision or a message that hashes to zero.
use hns_rs.Base.{
  ℕ, ◌<◌, ◌%◌, ◌^◌, ◌≡◌, ◌≢◌, ◌⊎◌, inl, inr, refl, sym, ap, ◌∙◌, arith, Bool-cases, [], ◌∷◌, ◌++◌,
  ◌==◌, length, length-append, take, drop, take-append_self, drop-append_self,
}
use hns_rs.Base.Bytes.{
  Bytes, zeros, bytes_eq, bytes_eq_iff, eq_of_bytes_eq, to_le_bytes, from_le_bytes,
  from_le_bytes-to_le_bytes,
}
use hns_rs.Hash.{Blake2b, Collision}
use hns_rs.Urkel.Prefix.{BitPrefix, leaf_message, internal_message, hash_leaf, hash_internal}
use hns_rs.Urkel.Tree.{Tree, empty, leaf, internal, IsPrefix, IsTree, root}

append_injective :
    (xs xs' ys ys' : Bytes)
    → length xs ≡ length xs'
    → xs ++ ys ≡ xs' ++ ys'
    → (xs ≡ xs') × (ys ≡ ys')
append_injective xs xs' ys ys' h e =
    let t : take (length xs) (xs' ++ ys') ≡ xs' = rw h (take-append_self xs' ys') in
    let d : drop (length xs) (xs' ++ ys') ≡ ys' = rw h (drop-append_self xs' ys') in
    (
      sym (take-append_self xs ys) ∙ ap (take (length xs)) e ∙ t,
      sym (drop-append_self xs ys) ∙ ap (drop (length xs)) e ∙ d,
    )

cons_tail : (x y : ℕ) (xs ys : Bytes) → x ∷ xs ≡ y ∷ ys → xs ≡ ys
cons_tail x y xs ys e = cc

cons_head : (x y : ℕ) (xs ys : Bytes) → x ∷ xs ≡ y ∷ ys → x ≡ y
cons_head x y xs ys e = cc

nil_of_zero : (xs : Bytes) → length xs ≡ 0 → xs ≡ []
nil_of_zero [] h = refl
nil_of_zero (x ∷ xs) h = ground (arith, h)

BitPrefix-path : (p q : BitPrefix) → p.bit_len ≡ q.bit_len → p.bytes ≡ q.bytes → p ≡ q
BitPrefix-path p q e f = λ i. record { bit_len = e i; bytes = f i }

u16_injective : (m n : ℕ) → m < 2 ^ 16 → n < 2 ^ 16 → to_le_bytes 2 m ≡ to_le_bytes 2 n → m ≡ n
u16_injective m n h k e =
    sym (from_le_bytes-to_le_bytes 2 m h) ∙ ap from_le_bytes e ∙ from_le_bytes-to_le_bytes 2 n k

-- With a prefix of at least one bit, behind the tag.
long_parts :
    (p q : BitPrefix) (l l' r r' : Bytes)
    → IsPrefix p
    → IsPrefix q
    → length l ≡ 32
    → length l' ≡ 32
    → length r ≡ 32
    → length r' ≡ 32
    → to_le_bytes 2 (p.bit_len % 2 ^ 16) ++ (p.bytes ++ (l ++ r))
      ≡ to_le_bytes 2 (q.bit_len % 2 ^ 16) ++ (q.bytes ++ (l' ++ r'))
    → (p ≡ q) × (l ≡ l') × (r ≡ r')
long_parts p q l l' r r' hp hq a a' b b' e =
    let (es, et) =
      append_injective (to_le_bytes 2 (p.bit_len % 2 ^ 16)) (to_le_bytes 2 (q.bit_len % 2 ^ 16)) _ _
        refl e in
    let size : p.bit_len % 2 ^ 16 ≡ q.bit_len % 2 ^ 16 =
      u16_injective _ _ (omega arith) (omega arith) es in
    let lengths : length (p.bytes ++ (l ++ r)) ≡ length (q.bytes ++ (l' ++ r')) = ap length et in
    let same : length p.bytes ≡ length q.bytes = omega (
      arith,
      lengths,
      length-append p.bytes (l ++ r),
      length-append q.bytes (l' ++ r'),
      length-append l r,
      length-append l' r',
    ) in
    let (eb, eu) = append_injective p.bytes q.bytes _ _ same et in
    let (el, er) = append_injective l l' r r' (omega arith) eu in
    (BitPrefix-path p q (omega (arith, size, hp.0, hq.0)) eb, el, er)

internal_parts :
    (p q : BitPrefix) (l l' r r' : Bytes)
    → IsPrefix p
    → IsPrefix q
    → length l ≡ 32
    → length l' ≡ 32
    → length r ≡ 32
    → length r' ≡ 32
    → internal_message p l r ≡ internal_message q l' r'
    → (p ≡ q) × (l ≡ l') × (r ≡ r')
unfolding internal_message
internal_parts p q l l' r r' hp hq a a' b b' e = elim (Bool-cases (p.bit_len == 0)) [
  | inl zp ↦ elim (Bool-cases (q.bit_len == 0)) [
    | inl zq ↦
        let np : p.bit_len ≡ 0 = ground (arith, zp) in
        let nq : q.bit_len ≡ 0 = ground (arith, zq) in
        let bp = nil_of_zero p.bytes (omega (arith, hp.1)) in
        let bq = nil_of_zero q.bytes (omega (arith, hq.1)) in
        let (el, er) =
          append_injective l l' r r' (omega arith) (cons_tail _ _ _ _ (rw (zp, zq) at e)) in
        (BitPrefix-path p q (np ∙ sym nq) (bp ∙ sym bq), el, er)
    | inr zq ↦ cc (cons_head _ _ _ _ (rw (zp, zq) at e))
  ]
  | inr zp ↦ elim (Bool-cases (q.bit_len == 0)) [
    | inl zq ↦ cc (cons_head _ _ _ _ (rw (zp, zq) at e))
    | inr zq ↦ long_parts p q l l' r r' hp hq a a' b b' (cons_tail _ _ _ _ (rw (zp, zq) at e))
  ]
]

leaf_parts :
    (k k' v v' : Bytes)
    → length k ≡ 32
    → length k' ≡ 32
    → leaf_message k v ≡ leaf_message k' v'
    → (k ≡ k') × (v ≡ v')
unfolding leaf_message
leaf_parts k k' v v' h h' e = append_injective k k' v v' (omega arith) (cons_tail _ _ _ _ e)

leaf_internal :
    (k v : Bytes) (p : BitPrefix) (l r : Bytes) → leaf_message k v ≢ internal_message p l r
unfolding leaf_message internal_message
leaf_internal k v p l r e = elim (Bool-cases (p.bit_len == 0)) [
  | inl z ↦ cc (cons_head _ _ _ _ (rw z at e))
  | inr z ↦ cc (cons_head _ _ _ _ (rw z at e))
]

module _ ⦃blake : Blake2b⦄ where
  -- Two messages with one hash, or a message that hashes to the root of the empty tree.
  abbrev pub Broken : Type 0
  Broken = Collision ⊎ ((x : Bytes) × (blake.digest x ≡ zeros 32))

  digest-cases : (x y : Bytes) → blake.digest x ≡ blake.digest y → (x ≡ y) ⊎ Broken
  digest-cases x y e = elim (Bool-cases (bytes_eq x y)) [
    | inl same ↦ inl (eq_of_bytes_eq x y same)
    | inr other ↦ inr (inl (x, y, (λ p. cc (sym other ∙ (bytes_eq_iff x y).1 p)), e))
  ]

  pub length-root : (t : Tree) → length (root t) ≡ 32
  unfolding root hash_leaf hash_internal
  length-root empty = refl
  length-root (leaf key value_hash) = blake.length-digest (leaf_message key value_hash)
  length-root (internal p l r) = blake.length-digest (internal_message p (root l) (root r))

  pub zero_root : (t : Tree) → zeros 32 ≡ root t → (t ≡ empty) ⊎ Broken
  unfolding root hash_leaf hash_internal
  zero_root empty e = inl refl
  zero_root (leaf key value_hash) e = inr (inr (leaf_message key value_hash, sym e))
  zero_root (internal p l r) e = inr (inr (internal_message p (root l) (root r), sym e))

  pub leaf_root :
      (t : Tree) (key value_hash : Bytes)
      → IsTree t
      → length key ≡ 32
      → hash_leaf key value_hash ≡ root t
      → (t ≡ leaf key value_hash) ⊎ Broken
  unfolding root hash_leaf hash_internal
  leaf_root empty key value_hash w h e = inr (inr (leaf_message key value_hash, e))
  leaf_root (leaf k v) key value_hash w h e = elim (digest-cases _ _ e) [
    | inl same ↦ let (ek, ev) = leaf_parts key k value_hash v h w.0 same in inl (cc (ek, ev))
    | inr broken ↦ inr broken
  ]
  leaf_root (internal p l r) key value_hash w h e = elim (digest-cases _ _ e) [
    | inl same ↦ elim (leaf_internal key value_hash p (root l) (root r) same) [ ]
    | inr broken ↦ inr broken
  ]

  pub internal_root :
      (t : Tree) (p : BitPrefix) (left right : Bytes)
      → IsTree t
      → IsPrefix p
      → length left ≡ 32
      → length right ≡ 32
      → hash_internal p left right ≡ root t
      → ((l : Tree) × (r : Tree) × (t ≡ internal p l r)
          × (left ≡ root l)
          × (right ≡ root r)
          × IsTree l
          × IsTree r)
        ⊎ Broken
  unfolding root hash_leaf hash_internal
  internal_root empty p left right w hp a b e = inr (inr (internal_message p left right, e))
  internal_root (leaf k v) p left right w hp a b e = elim (digest-cases _ _ e) [
    | inl same ↦ elim (leaf_internal k v p left right (sym same)) [ ]
    | inr broken ↦ inr broken
  ]
  internal_root (internal q l r) p left right w hp a b e = elim (digest-cases _ _ e) [
    | inl same ↦
        let (ep, el, er) =
          internal_parts p q left (root l) right (root r) hp w.0 a (length-root l) b (length-root r)
            same in
        inl (l, r, ap (λ x. internal x l r) (sym ep), el, er, w.1, w.2)
    | inr broken ↦ inr broken
  ]
