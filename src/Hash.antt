-- ===== src/Hash.antt =====
-- The hash functions of the `blake2` and `sha3` crates as interfaces, with an output of 32 bytes. The
-- code feeds it by `update`, which appends to one message.
use hns_rs.Base.{
  ◌⊎◌, ◌≢◌, inl, inr, false, sym, ap, ◌∙◌, drop, drop-append_self, append-nil, Bool-cases, ◌≡◌,
  List, [], ◌∷◌, ◌++◌, length,
}
use hns_rs.Base.Bytes.{Bytes, bytes_eq, eq_of_bytes_eq, bytes_eq_iff}

pub record Blake2b : Type 0 where
  pub digest : Bytes → Bytes
  pub length-digest : (message : Bytes) → length (digest message) ≡ 32

-- SHA3-256 of the `sha3` crate, likewise.
pub record Sha3 : Type 0 where
  pub digest : Bytes → Bytes
  pub length-digest : (message : Bytes) → length (digest message) ≡ 32

abbrev pub flatten : List Bytes → Bytes
flatten [] = []
flatten (x ∷ xs) = x ++ flatten xs

module _ ⦃blake : Blake2b⦄ where
  -- `hash32` of the journal: a domain tag and the parts, one message.
  unfoldable pub hash32 : Bytes → List Bytes → Bytes
  hash32 domain parts = blake.digest (domain ++ flatten parts)

  pub length-hash32 : (domain : Bytes) (parts : List Bytes) → length (hash32 domain parts) ≡ 32
  unfolding hash32
  length-hash32 domain parts = blake.length-digest (domain ++ flatten parts)

  -- Two different messages with one digest.
  abbrev pub Collision : Type 0
  Collision = (x : Bytes) × (y : Bytes) × (x ≢ y) × (blake.digest x ≡ blake.digest y)

  -- Under one domain, hashes of two single parts agree only if the parts do or there is a collision.
  pub hash32_injective :
      (domain x y : Bytes) → hash32 domain (x ∷ []) ≡ hash32 domain (y ∷ []) → (x ≡ y) ⊎ Collision
  unfolding hash32
  hash32_injective domain x y e = elim (Bool-cases (bytes_eq x y)) [
    | inl same ↦ inl (eq_of_bytes_eq x y same)
    | inr other ↦ inr (domain ++ (x ++ []), domain ++ (y ++ []), differ other, e)
  ]
    where
      differ : bytes_eq x y ≡ false → domain ++ (x ++ []) ≢ domain ++ (y ++ [])
      differ other p =
          let q : x ++ [] ≡ y ++ [] =
            sym (drop-append_self domain (x ++ []))
            ∙ ap (drop (length domain)) p
            ∙ drop-append_self domain (y ++ []) in
          let k : x ≡ y = sym (append-nil x) ∙ q ∙ append-nil y in
          cc (sym other ∙ (bytes_eq_iff x y).1 k)

-- BLAKE2b-512, with an output of 64 bytes.
pub record Blake2b512 : Type 0 where
  pub digest : Bytes → Bytes
  pub length-digest : (message : Bytes) → length (digest message) ≡ 64
