-- ===== src/Header/Hashing/Laws.antt =====
-- The hash of a header, described by the bytes that are hashed.
use Prim.Native.Nat.{bit_xor}
use hns_rs.Base.{
  ℕ, zero, suc, ◌+◌, ◌%◌, ◌≤◌, ◌<◌, ◌≡◌, refl, sym, ap, ◌∙◌, arith, [], ◌∷◌, ◌++◌, append_assoc,
  append-nil, length, get_or, take, drop,
}
use hns_rs.Base.Bytes.{Bytes, to_le_bytes}
use hns_rs.Hash.{Blake2b, Blake2b512, Sha3}
use hns_rs.Encoding.Encoder.{with_capacity, put_u32_le, put_u64_le, put_bytes, into_bytes}
use hns_rs.Header.Codec.{Header}
use hns_rs.Header.Codec.Laws.{IsHeader}
use hns_rs.Header.Hashing.{
  padding_from, padding, subheader, xor_bytes, blake2b_256, sub_hash, mask_hash, commit_hash,
  preheader, share_hash, pow_hash,
}

-- The exclusive or of two strings, byte by byte.
unfoldable pub zip_xor : Bytes → Bytes → Bytes
zip_xor [] ys = []
zip_xor (x ∷ xs) [] = []
zip_xor (x ∷ xs) (y ∷ ys) = bit_xor x y ∷ zip_xor xs ys

zip_xor_lem : (xs ys : Bytes) → length xs ≡ length ys → xor_bytes xs ys ≡ zip_xor xs ys
unfolding zip_xor xor_bytes
zip_xor_lem [] [] h = refl
zip_xor_lem [] (y ∷ ys) h = refl
zip_xor_lem (x ∷ xs) [] h = absurd (omega (arith, h))
zip_xor_lem (x ∷ xs) (y ∷ ys) h = ap (λ l. bit_xor x y ∷ l) (zip_xor_lem xs ys (omega (arith, h)))

drop-zip_xor :
    (i : ℕ) (xs ys : Bytes)
    → i < length xs
    → length xs ≡ length ys
    → drop i (zip_xor xs ys)
      ≡ bit_xor (get_or xs i 0) (get_or ys i 0) ∷ drop (i + 1) (zip_xor xs ys)
unfolding zip_xor
drop-zip_xor i [] ys h e = absurd (omega (arith, h))
drop-zip_xor i (x ∷ xs) [] h e = absurd (omega (arith, e))
drop-zip_xor zero (x ∷ xs) (y ∷ ys) h e = refl
drop-zip_xor (suc i) (x ∷ xs) (y ∷ ys) h e =
    drop-zip_xor i xs ys (omega (arith, h)) (omega (arith, e))
    ∙ ap (λ n. bit_xor (get_or xs i 0) (get_or ys i 0) ∷ drop n (bit_xor x y ∷ zip_xor xs ys))
        (next i)
  where
    next : (i : ℕ) → suc (i + 1) ≡ suc i + 1
    next i = omega arith

-- The padding is the front of the exclusive or of the previous block and the tree root.
padding_from_lem :
    (h : Header) (i n : ℕ)
    → IsHeader h
    → i + n ≤ 32
    → padding_from h i n ≡ take n (drop i (zip_xor h.previous_block h.tree_root))
unfolding padding_from
padding_from_lem h i zero r k = refl
padding_from_lem h i (suc n) r k =
    let inside : i % 32 ≡ i = omega (arith, k) in
    let rest = padding_from_lem h (i + 1) n r (omega (arith, k)) in
    rw (inside, rest)
      (sym (
        ap (take (suc n)) (
          drop-zip_xor i h.previous_block h.tree_root (omega (arith, k, r.previous_length))
            (r.previous_length ∙ sym r.tree_length))))

padding_lem :
    (n : ℕ) (h : Header)
    → IsHeader h
    → n ≤ 32
    → padding n h ≡ take n (zip_xor h.previous_block h.tree_root)
unfolding padding
padding_lem n h r k = padding_from_lem h 0 n r (omega (arith, k))

-- What is hashed of the fields that a miner is given.
unfoldable pub subheader_bytes : Header → Bytes
subheader_bytes h =
    h.extra_nonce
    ++ (h.reserved_root
        ++ (h.witness_root ++ (h.merkle_root ++ (to_le_bytes 4 h.version ++ to_le_bytes 4 h.bits))))

subheader_lem : (h : Header) → subheader h ≡ subheader_bytes h
unfolding subheader subheader_bytes with_capacity put_bytes put_u32_le into_bytes
subheader_lem h = simp append_assoc refl

module _ ⦃blake : Blake2b⦄ where
  -- The hash that commits to the fields and to the mask.
  unfoldable pub commitment : Header → Bytes
  commitment h =
      blake.digest (blake.digest (subheader_bytes h) ++ blake.digest (h.previous_block ++ h.mask))

  unfoldable pub preheader_bytes : Header → Bytes
  preheader_bytes h =
      to_le_bytes 4 h.nonce
      ++ (to_le_bytes 8 h.time
          ++ (take 20 (zip_xor h.previous_block h.tree_root)
              ++ (h.previous_block ++ (h.tree_root ++ commitment h))))

  blake2b_256_one : (a : Bytes) → blake2b_256 (a ∷ []) ≡ blake.digest a
  unfolding blake2b_256
  blake2b_256_one a = ap blake.digest (append-nil a)

  blake2b_256_two : (a b : Bytes) → blake2b_256 (a ∷ b ∷ []) ≡ blake.digest (a ++ b)
  unfolding blake2b_256
  blake2b_256_two a b = ap (λ l. blake.digest (a ++ l)) (append-nil b)

  blake2b_256_three : (a b c : Bytes) → blake2b_256 (a ∷ b ∷ c ∷ []) ≡ blake.digest (a ++ (b ++ c))
  unfolding blake2b_256
  blake2b_256_three a b c = ap (λ l. blake.digest (a ++ (b ++ l))) (append-nil c)

  commit_hash_lem : (h : Header) → commit_hash h ≡ commitment h
  unfolding commit_hash commitment sub_hash mask_hash
  commit_hash_lem h =
      blake2b_256_two (blake2b_256 (subheader h ∷ []))
        (blake2b_256 (h.previous_block ∷ h.mask ∷ []))
      ∙ ap (λ l. blake.digest (l ++ blake2b_256 (h.previous_block ∷ h.mask ∷ [])))
          (blake2b_256_one (subheader h) ∙ ap blake.digest (subheader_lem h))
      ∙ ap (λ l. blake.digest (blake.digest (subheader_bytes h) ++ l))
          (blake2b_256_two h.previous_block h.mask)

  preheader_lem : (h : Header) → IsHeader h → preheader h ≡ preheader_bytes h
  unfolding preheader preheader_bytes with_capacity put_bytes put_u32_le put_u64_le into_bytes
  preheader_lem h r =
      rw (padding_lem 20 h r (omega arith), commit_hash_lem h) (simp append_assoc refl)

module _ ⦃blake : Blake2b⦄ ⦃wide : Blake2b512⦄ ⦃sha3 : Sha3⦄ where
  -- The proof of work: the bytes before the mask are hashed in two ways, and both hashes again with the padding between them;
  -- the mask is laid over the result.
  unfoldable pub work_hash : Header → Bytes
  work_hash h =
      let padded = zip_xor h.previous_block h.tree_root in
      let message = preheader_bytes h in
      zip_xor
        (blake.digest (wide.digest message ++ (padded ++ sha3.digest (message ++ take 8 padded))))
        h.mask

  take_all :
      (xs ys : Bytes) → length xs ≡ length ys → take (length xs) (zip_xor xs ys) ≡ zip_xor xs ys
  unfolding zip_xor
  take_all [] ys h = refl
  take_all (x ∷ xs) [] h = refl
  take_all (x ∷ xs) (y ∷ ys) h = ap (λ l. bit_xor x y ∷ l) (take_all xs ys (omega (arith, h)))

  share_hash_lem :
      (h : Header)
      → IsHeader h
      → share_hash h
        ≡ blake.digest (
            wide.digest (preheader_bytes h)
            ++ (zip_xor h.previous_block h.tree_root
                ++ sha3.digest
                    (preheader_bytes h ++ take 8 (zip_xor h.previous_block h.tree_root))))
  unfolding share_hash
  share_hash_lem h r =
      let whole : padding 32 h ≡ zip_xor h.previous_block h.tree_root =
        padding_lem 32 h r (omega arith)
        ∙ ap (λ n. take n (zip_xor h.previous_block h.tree_root)) (sym r.previous_length)
        ∙ take_all h.previous_block h.tree_root (r.previous_length ∙ sym r.tree_length) in
      rw (preheader_lem h r, whole, padding_lem 8 h r (omega arith))
        (rw (append-nil (take 8 (zip_xor h.previous_block h.tree_root))) (
          blake2b_256_three (wide.digest (preheader_bytes h)) (zip_xor h.previous_block h.tree_root)
            _))

  -- `pow_hash` hashes those bytes.
  pub pow_hash_lem : (h : Header) → IsHeader h → pow_hash h ≡ work_hash h
  unfolding pow_hash work_hash
  pow_hash_lem h r =
      let bytes = blake.length-digest (
        wide.digest (preheader_bytes h)
        ++ (zip_xor h.previous_block h.tree_root
            ++ sha3.digest (preheader_bytes h ++ take 8 (zip_xor h.previous_block h.tree_root)))) in
      ap (λ l. xor_bytes l h.mask) (share_hash_lem h r)
      ∙ zip_xor_lem _ h.mask (bytes ∙ sym r.mask_length)
