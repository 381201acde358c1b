-- ===== src/Mining/Merkle/Laws.antt =====
-- The loop of `merkle_root` ends, and its result binds the hashes.
use hns_rs.Base.{
  ℕ, zero, suc, ◌+◌, ◌≤◌, ◌<◌, ◌≡◌, ◌⊎◌, inl, inr, refl, sym, ap, ◌∙◌, arith, true, false,
  Bool-cases, List, [], ◌∷◌, ◌++◌, append-nil, ltb, ◌==◌, length, All, get_or, take, drop,
  take-append_self, drop-append_self,
}
use hns_rs.Base.Bytes.{Bytes, bytes_eq, eq_of_bytes_eq, bytes_eq_iff}
use hns_rs.Hash.{Blake2b, Collision}
use hns_rs.Mining.Merkle.{blake2b_256_many, sentinel, leaves, next_level, levels, merkle_root}

module _ ⦃blake : Blake2b⦄ where
  length-leaves : (hs : List Bytes) → length (leaves hs) ≡ length hs
  unfolding leaves
  length-leaves [] = refl
  length-leaves (h ∷ hs) = ap suc (length-leaves hs)

  -- A level has half the nodes, rounded up.
  length-next_level :
      (ns : List Bytes)
      → (length (next_level ns) + length (next_level ns) ≤ length ns + 1)
        × (length ns ≤ length (next_level ns) + length (next_level ns))
  unfolding next_level
  length-next_level [] = omega arith
  length-next_level (a ∷ []) = omega arith
  length-next_level (a ∷ b ∷ ns) = omega (arith, length-next_level ns)

  -- The nodes after a number of rounds.
  unfoldable pub after : ℕ → List Bytes → List Bytes
  after zero nodes = nodes
  after (suc rounds) nodes = after rounds (next_level nodes)

  -- From at least one node, fuel for as many rounds as there are nodes is enough: after fewer rounds than that one node is left,
  -- and it is the result.
  pub levels_end :
      (fuel : ℕ) (nodes : List Bytes)
      → 0 < length nodes
      → length nodes ≤ fuel
      → (rounds : ℕ) × (node : Bytes) × (rounds < fuel)
        × (after rounds nodes ≡ node ∷ [])
        × (levels fuel nodes ≡ node)
  unfolding levels after
  levels_end zero nodes h k = absurd (omega (arith, h, k))
  levels_end (suc fuel) [] h k = absurd (omega (arith, h))
  levels_end (suc fuel) (a ∷ []) h k = (0, a, omega arith, refl, refl)
  levels_end (suc fuel) (a ∷ b ∷ ns) h k =
      let (small, large) = length-next_level (a ∷ b ∷ ns) in
      let (r, n, less, single, result) =
        levels_end fuel (next_level (a ∷ b ∷ ns)) (omega (arith, large))
          (omega (arith, small, k)) in
      let many : ltb 1 (length (a ∷ b ∷ ns)) ≡ true = ground arith in
      (suc r, n, omega (arith, less), single, rw many result)

  digest-cases : (x y : Bytes) → blake.digest x ≡ blake.digest y → (x ≡ y) ⊎ Collision
  digest-cases x y e = elim (Bool-cases (bytes_eq x y)) [
    | inl same ↦ inl (eq_of_bytes_eq x y same)
    | inr other ↦ inr (x, y, (λ p. cc (sym other ∙ (bytes_eq_iff x y).1 p)), e)
  ]

  -- Two hashes behind one tag.
  pair_cases :
      (a b c d : Bytes)
      → length a ≡ length c
      → blake2b_256_many ((1 ∷ []) ∷ a ∷ b ∷ []) ≡ blake2b_256_many ((1 ∷ []) ∷ c ∷ d ∷ [])
      → ((a ≡ c) × (b ≡ d)) ⊎ Collision
  unfolding blake2b_256_many
  pair_cases a b c d l e = elim (digest-cases _ _ e) [
    | inr broken ↦ inr broken
    | inl same ↦
        let tails : a ++ (b ++ []) ≡ c ++ (d ++ []) = ap (drop 1) same in
        let left : a ≡ c =
          sym (take-append_self a (b ++ []))
          ∙ ap (take (length a)) tails
          ∙ ap (λ n. take n (c ++ (d ++ []))) l
          ∙ take-append_self c (d ++ []) in
        let right : b ++ [] ≡ d ++ [] =
          sym (drop-append_self a (b ++ []))
          ∙ ap (drop (length a)) tails
          ∙ ap (λ n. drop n (c ++ (d ++ []))) l
          ∙ drop-append_self c (d ++ []) in
        inl (left, sym (append-nil b) ∙ right ∙ append-nil d)
  ]

  leaf_cases :
      (a b : Bytes)
      → blake2b_256_many ((0 ∷ []) ∷ a ∷ []) ≡ blake2b_256_many ((0 ∷ []) ∷ b ∷ [])
      → (a ≡ b) ⊎ Collision
  unfolding blake2b_256_many
  leaf_cases a b e = elim (digest-cases _ _ e) [
    | inr broken ↦ inr broken
    | inl same ↦ inl (sym (append-nil a) ∙ ap (drop 1) same ∙ append-nil b)
  ]

  abbrev Wide : List Bytes → Type 0
  Wide ns = All (λ (n : Bytes). length n ≡ 32) ns

  leaves-Wide : (hs : List Bytes) → Wide (leaves hs)
  unfolding leaves blake2b_256_many
  leaves-Wide [] = tt
  leaves-Wide (h ∷ hs) = (blake.length-digest _, leaves-Wide hs)

  next_level-Wide : (ns : List Bytes) → Wide (next_level ns)
  unfolding next_level blake2b_256_many
  next_level-Wide [] = tt
  next_level-Wide (a ∷ []) = (blake.length-digest _, tt)
  next_level-Wide (a ∷ b ∷ ns) = (blake.length-digest _, next_level-Wide ns)

  leaves_cases : (xs ys : List Bytes) → leaves xs ≡ leaves ys → (xs ≡ ys) ⊎ Collision
  unfolding leaves
  leaves_cases [] [] e = inl refl
  leaves_cases [] (y ∷ ys) e = absurd (ground (arith, ap length e))
  leaves_cases (x ∷ xs) [] e = absurd (ground (arith, ap length e))
  leaves_cases (x ∷ xs) (y ∷ ys) e = elim (leaf_cases x y (ap first e)) [
    | inr broken ↦ inr broken
    | inl here ↦ elim (leaves_cases xs ys (ap (drop 1) e)) [
      | inr broken ↦ inr broken
      | inl rest ↦ inl (λ i. here i ∷ rest i)
    ]
  ]
    where
      first : List Bytes → Bytes
      first ns = get_or ns 0 []

  next_level_cases :
      (xs ys : List Bytes)
      → length xs ≡ length ys
      → Wide xs
      → Wide ys
      → next_level xs ≡ next_level ys
      → (xs ≡ ys) ⊎ Collision
  unfolding next_level
  next_level_cases [] [] l h k e = inl refl
  next_level_cases [] (c ∷ ys) l h k e = absurd (omega (arith, l))
  next_level_cases (a ∷ xs) [] l h k e = absurd (omega (arith, l))
  next_level_cases (a ∷ []) (c ∷ []) l h k e =
      elim (pair_cases a sentinel c sentinel (h.0 ∙ sym k.0) (ap (λ ns. get_or ns 0 []) e)) [
        | inr broken ↦ inr broken
        | inl (same, _) ↦ inl (λ i. same i ∷ [])
      ]
  next_level_cases (a ∷ []) (c ∷ d ∷ ys) l h k e = absurd (omega (arith, l))
  next_level_cases (a ∷ b ∷ xs) (c ∷ []) l h k e = absurd (omega (arith, l))
  next_level_cases (a ∷ b ∷ xs) (c ∷ d ∷ ys) l h k e =
      elim (pair_cases a b c d (h.0 ∙ sym k.0) (ap (λ ns. get_or ns 0 []) e)) [
        | inr broken ↦ inr broken
        | inl (left, right) ↦
            elim (next_level_cases xs ys (omega (arith, l)) h.1.1 k.1.1 (ap (drop 1) e)) [
              | inr broken ↦ inr broken
              | inl rest ↦ inl (λ i. left i ∷ right i ∷ rest i)
            ]
      ]

  length-next_level_same :
      (xs ys : List Bytes) → length xs ≡ length ys → length (next_level xs) ≡ length (next_level ys)
  length-next_level_same xs ys l = omega (arith, l, length-next_level xs, length-next_level ys)

  levels_cases :
      (fuel : ℕ) (xs ys : List Bytes)
      → length xs ≡ length ys
      → length xs ≤ fuel
      → Wide xs
      → Wide ys
      → levels fuel xs ≡ levels fuel ys
      → (xs ≡ ys) ⊎ Collision
  unfolding levels
  levels_cases fuel [] [] l b h k e = inl refl
  levels_cases fuel [] (c ∷ ys) l b h k e = absurd (omega (arith, l))
  levels_cases fuel (a ∷ xs) [] l b h k e = absurd (omega (arith, l))
  levels_cases zero (a ∷ xs) (c ∷ ys) l b h k e = absurd (omega (arith, b))
  levels_cases (suc fuel) (a ∷ []) (c ∷ []) l b h k e = inl (λ i. e i ∷ [])
  levels_cases (suc fuel) (a ∷ []) (c ∷ d ∷ ys) l b h k e = absurd (omega (arith, l))
  levels_cases (suc fuel) (a ∷ x ∷ xs) (c ∷ []) l b h k e = absurd (omega (arith, l))
  levels_cases (suc fuel) (a ∷ x ∷ xs) (c ∷ y ∷ ys) l b h k e =
      let many : ltb 1 (length (a ∷ x ∷ xs)) ≡ true = ground arith in
      let many' : ltb 1 (length (c ∷ y ∷ ys)) ≡ true = ground arith in
      let deeper = rw (many, many') at e in
      let one = next_level (a ∷ x ∷ xs) in
      let two = next_level (c ∷ y ∷ ys) in
      let small = length-next_level (a ∷ x ∷ xs) in
      elim (levels_cases fuel one two (length-next_level_same (a ∷ x ∷ xs) (c ∷ y ∷ ys) l)
        (omega (arith, small, b)) (next_level-Wide (a ∷ x ∷ xs)) (next_level-Wide (c ∷ y ∷ ys))
        deeper) [
          | inr broken ↦ inr broken
          | inl same ↦ next_level_cases (a ∷ x ∷ xs) (c ∷ y ∷ ys) l h k same
        ]

  some_leaf : (h : Bytes) (hs : List Bytes) → (length (leaves (h ∷ hs)) == 0) ≡ false
  unfolding leaves
  some_leaf h hs = ground arith

  -- Two lists of as many hashes with the same root are the same list, or two messages with one hash are found.
  pub merkle_root_binding :
      (xs ys : List Bytes)
      → length xs ≡ length ys
      → merkle_root xs ≡ merkle_root ys
      → (xs ≡ ys) ⊎ Collision
  unfolding merkle_root
  merkle_root_binding [] [] l e = inl refl
  merkle_root_binding [] (y ∷ ys) l e = absurd (omega (arith, l))
  merkle_root_binding (x ∷ xs) [] l e = absurd (omega (arith, l))
  merkle_root_binding (x ∷ xs) (y ∷ ys) l e =
      let count = length-leaves (x ∷ xs) in
      let count' = length-leaves (y ∷ ys) in
      let some_left = some_leaf x xs in
      let some_right = some_leaf y ys in
      let roots : levels (length (x ∷ xs)) (leaves (x ∷ xs))
          ≡ levels (length (y ∷ ys)) (leaves (y ∷ ys)) =
        rw (some_left, some_right) at e in
      let same_fuel = roots ∙ ap (λ n. levels n (leaves (y ∷ ys))) (sym l) in
      elim (levels_cases (length (x ∷ xs)) (leaves (x ∷ xs)) (leaves (y ∷ ys))
        (count ∙ l ∙ sym count') (omega (arith, count)) (leaves-Wide (x ∷ xs))
        (leaves-Wide (y ∷ ys)) same_fuel) [
          | inr broken ↦ inr broken
          | inl same ↦ leaves_cases (x ∷ xs) (y ∷ ys) same
        ]
