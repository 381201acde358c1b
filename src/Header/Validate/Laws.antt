-- ===== src/Header/Validate/Laws.antt =====
-- The validation of a header against natural numbers.
use hns_rs.Base.{
  ℕ, ◌+◌, ◌/◌, ◌^◌, ◌≡◌, ◌≢◌, ◌⊎◌, inl, inr, refl, sym, ap, subst, ◌∙◌, arith, Bool, true, false,
  not, ◌&&◌, ◌||◌, Bool-cases, ltb, leb, ◌==◌, if◌then◌else◌, Result, ok, err, map_ok, ensure,
  ok_or, ◌>>◌,
}
use hns_rs.Base.BigEndian.{from_be_bytes}
use hns_rs.Base.Bytes.{bytes_eq, bytes_eq_refl, eq_of_bytes_eq, bytes_eq_iff}
use hns_rs.Hash.{Blake2b, Blake2b512, Sha3}
use hns_rs.Primitives.Chainwork.{Limbs}
use hns_rs.Primitives.Chainwork.Laws.{value}
use hns_rs.Header.Codec.{
  Header, HeaderError, wrong_genesis, wrong_previous_block, invalid_time, invalid_difficulty,
  invalid_proof_of_work,
}
use hns_rs.Header.Codec.Laws.{IsHeader}
use hns_rs.Header.Hashing.{pow_hash, block_hash}
use hns_rs.Header.Hashing.Laws.{work_hash, pow_hash_lem}
use hns_rs.Header.Network.{NetworkParameters, genesis_header}
use hns_rs.Header.U256.Value.{IsNumber}
use hns_rs.Header.Target.{from_compact, proof}
use hns_rs.Header.Target.Compact.{compact_value}
use hns_rs.Header.Target.Met.{sound, is_met_by-from_compact, proof_exact}
use hns_rs.Header.Retarget.{saturating_add_u64}
use hns_rs.Header.Validate.{HeaderValidationContext, header_eq, check_link, validate_header}

-- `map_ok` past a step that gives nothing.
map_ok-ensure :
    (r : Result HeaderError (Unit {0})) (k : Result HeaderError Limbs)
    → map_ok value (r >> k) ≡ (r >> map_ok value k)
map_ok-ensure (ok u) k = refl
map_ok-ensure (err e) k = refl

-- The work of a target that has a proof.
abbrev pub spec_work : ℕ → Result HeaderError ℕ
spec_work bits =
    if sound bits then ok (2 ^ 256 / (compact_value bits + 1)) else err invalid_proof_of_work

proof_work :
    (bits : ℕ)
    → map_ok value (ok_or (proof (from_compact bits)) invalid_proof_of_work) ≡ spec_work bits
proof_work bits = elim (proof_exact bits) [
  | inl (bad, run) ↦ rw (bad, run) refl
  | inr (good, (w, run, work, exact)) ↦ rw (good, run) (ap ok exact)
]

pow_step :
    (bits : ℕ) (genesis met : Bool)
    → map_ok value (
        ensure (not (not genesis && not (sound bits && met))) invalid_proof_of_work
        >> ok_or (proof (from_compact bits)) invalid_proof_of_work)
      ≡ (if genesis || met then spec_work bits else err invalid_proof_of_work)
pow_step bits true met = proof_work bits
pow_step bits false met = elim (Bool-cases (sound bits && met)) [
  | inl both ↦ let hit : met ≡ true = ground (arith, both) in rw (both, hit) (proof_work bits)
  | inr refused ↦ elim (Bool-cases met) [
    | inr miss ↦ rw (refused, miss) refl
    | inl hit ↦
        let bad : sound bits ≡ false = ground (arith, refused, hit) in rw (refused, hit, bad) refl
  ]
]

and_true : (a b : Bool) → (a && b) ≡ true → (a ≡ true) × (b ≡ true)
and_true a b h = ground (arith, h)

same_number : (a b : ℕ) → (a == b) ≡ true → a ≡ b
same_number a b h = ground (arith, h)

-- The derived equality decides equality.
header_eq_refl : (a : Header) → header_eq a a ≡ true
unfolding header_eq
header_eq_refl a =
    rw
      (
        bytes_eq_refl a.previous_block,
        bytes_eq_refl a.tree_root,
        bytes_eq_refl a.extra_nonce,
        bytes_eq_refl a.reserved_root,
        bytes_eq_refl a.witness_root,
        bytes_eq_refl a.merkle_root,
        bytes_eq_refl a.mask,
      )
      (ground arith)

eq_of_header_eq : (a b : Header) → header_eq a b ≡ true → a ≡ b
unfolding header_eq
eq_of_header_eq a b h =
    let (h10, e10) =
      and_true
        (a.nonce == b.nonce
          && a.time == b.time
          && bytes_eq a.previous_block b.previous_block
          && bytes_eq a.tree_root b.tree_root
          && bytes_eq a.extra_nonce b.extra_nonce
          && bytes_eq a.reserved_root b.reserved_root
          && bytes_eq a.witness_root b.witness_root
          && bytes_eq a.merkle_root b.merkle_root
          && a.version == b.version
          && a.bits == b.bits)
        (bytes_eq a.mask b.mask) h in
    let (h9, e9) =
      and_true
        (a.nonce == b.nonce
          && a.time == b.time
          && bytes_eq a.previous_block b.previous_block
          && bytes_eq a.tree_root b.tree_root
          && bytes_eq a.extra_nonce b.extra_nonce
          && bytes_eq a.reserved_root b.reserved_root
          && bytes_eq a.witness_root b.witness_root
          && bytes_eq a.merkle_root b.merkle_root
          && a.version == b.version)
        (a.bits == b.bits) h10 in
    let (h8, e8) =
      and_true
        (a.nonce == b.nonce
          && a.time == b.time
          && bytes_eq a.previous_block b.previous_block
          && bytes_eq a.tree_root b.tree_root
          && bytes_eq a.extra_nonce b.extra_nonce
          && bytes_eq a.reserved_root b.reserved_root
          && bytes_eq a.witness_root b.witness_root
          && bytes_eq a.merkle_root b.merkle_root)
        (a.version == b.version) h9 in
    let (h7, e7) =
      and_true
        (a.nonce == b.nonce
          && a.time == b.time
          && bytes_eq a.previous_block b.previous_block
          && bytes_eq a.tree_root b.tree_root
          && bytes_eq a.extra_nonce b.extra_nonce
          && bytes_eq a.reserved_root b.reserved_root
          && bytes_eq a.witness_root b.witness_root)
        (bytes_eq a.merkle_root b.merkle_root) h8 in
    let (h6, e6) =
      and_true
        (a.nonce == b.nonce
          && a.time == b.time
          && bytes_eq a.previous_block b.previous_block
          && bytes_eq a.tree_root b.tree_root
          && bytes_eq a.extra_nonce b.extra_nonce
          && bytes_eq a.reserved_root b.reserved_root)
        (bytes_eq a.witness_root b.witness_root) h7 in
    let (h5, e5) =
      and_true
        (a.nonce == b.nonce
          && a.time == b.time
          && bytes_eq a.previous_block b.previous_block
          && bytes_eq a.tree_root b.tree_root
          && bytes_eq a.extra_nonce b.extra_nonce)
        (bytes_eq a.reserved_root b.reserved_root) h6 in
    let (h4, e4) =
      and_true
        (a.nonce == b.nonce
          && a.time == b.time
          && bytes_eq a.previous_block b.previous_block
          && bytes_eq a.tree_root b.tree_root)
        (bytes_eq a.extra_nonce b.extra_nonce) h5 in
    let (h3, e3) =
      and_true
        (a.nonce == b.nonce && a.time == b.time && bytes_eq a.previous_block b.previous_block)
        (bytes_eq a.tree_root b.tree_root) h4 in
    let (h2, e2) =
      and_true (a.nonce == b.nonce && a.time == b.time) (bytes_eq a.previous_block b.previous_block)
        h3 in
    let (e0, e1) = and_true (a.nonce == b.nonce) (a.time == b.time) h2 in
    let p0 : a.nonce ≡ b.nonce = same_number a.nonce b.nonce e0 in
    let p1 : a.time ≡ b.time = same_number a.time b.time e1 in
    let p2 : a.previous_block ≡ b.previous_block =
      eq_of_bytes_eq a.previous_block b.previous_block e2 in
    let p3 : a.tree_root ≡ b.tree_root = eq_of_bytes_eq a.tree_root b.tree_root e3 in
    let p4 : a.extra_nonce ≡ b.extra_nonce = eq_of_bytes_eq a.extra_nonce b.extra_nonce e4 in
    let p5 : a.reserved_root ≡ b.reserved_root =
      eq_of_bytes_eq a.reserved_root b.reserved_root e5 in
    let p6 : a.witness_root ≡ b.witness_root = eq_of_bytes_eq a.witness_root b.witness_root e6 in
    let p7 : a.merkle_root ≡ b.merkle_root = eq_of_bytes_eq a.merkle_root b.merkle_root e7 in
    let p8 : a.version ≡ b.version = same_number a.version b.version e8 in
    let p9 : a.bits ≡ b.bits = same_number a.bits b.bits e9 in
    let p10 : a.mask ≡ b.mask = eq_of_bytes_eq a.mask b.mask e10 in
    λ i. record {
      nonce = p0 i;
      time = p1 i;
      previous_block = p2 i;
      tree_root = p3 i;
      extra_nonce = p4 i;
      reserved_root = p5 i;
      witness_root = p6 i;
      merkle_root = p7 i;
      version = p8 i;
      bits = p9 i;
      mask = p10 i;
    }

module _ ⦃blake : Blake2b⦄ ⦃wide : Blake2b512⦄ ⦃sha3 : Sha3⦄ where
  -- A header that links to the chain: the genesis header of the network, with the hash that the network names, or one that
  -- names the block before it.
  abbrev pub IsLinked : NetworkParameters → Header → HeaderValidationContext → Type 0
  IsLinked parameters header context =
      ((context.height ≡ 0)
        × (header ≡ genesis_header parameters)
        × (work_hash header ≡ parameters.genesis_hash))
      ⊎ ((context.height ≢ 0) × (header.previous_block ≡ context.previous_block))

  abbrev pub link_error : HeaderValidationContext → HeaderError
  link_error context = if context.height == 0 then wrong_genesis else wrong_previous_block

  -- What a header that links to the chain has to meet, by numbers.
  unfoldable pub spec_validate : Header → HeaderValidationContext → Result HeaderError ℕ
  spec_validate header context =
      if leb header.time context.median_time || ltb (context.now + 7200) header.time
      then err invalid_time
      else if not (header.bits == context.expected_bits)
      then err invalid_difficulty
      else if context.height == 0
          || leb (from_be_bytes (work_hash header)) (compact_value header.bits)
      then spec_work header.bits
      else err invalid_proof_of_work

  link_cases :
      (parameters : NetworkParameters) (header : Header) (context : HeaderValidationContext)
      → IsHeader header
      → (IsLinked parameters header context × (check_link parameters header context ≡ ok tt))
        ⊎ ((¬ IsLinked parameters header context)
            × (check_link parameters header context ≡ err (link_error context)))
  unfolding check_link block_hash
  link_cases parameters header context r = elim (Bool-cases (context.height == 0)) [
    | inl genesis ↦
        let start : context.height ≡ 0 = same_number _ _ genesis in
        let hash = pow_hash_lem header r in
        elim (Bool-cases (
          header_eq header (genesis_header parameters)
          && bytes_eq (pow_hash header) parameters.genesis_hash)) [
            | inl both ↦
                let (a, b) = and_true _ _ both in
                inl (
                  inl (start, eq_of_header_eq header _ a, sym hash ∙ eq_of_bytes_eq _ _ b),
                  rw (genesis, both) refl,
                )
            | inr other ↦
                inr
                  (not_genesis parameters header context start hash other, rw (genesis, other) refl)
          ]
    | inr later ↦ elim (Bool-cases (bytes_eq header.previous_block context.previous_block)) [
      | inl same ↦ inl (inr (not_same _ _ later, eq_of_bytes_eq _ _ same), rw (later, same) refl)
      | inr other ↦ inr (not_linked parameters header context later other, rw (later, other) refl)
    ]
  ]
    where
      not_same : (a b : ℕ) → (a == b) ≡ false → a ≢ b
      not_same a b h = ground (arith, h)

      not_genesis :
          (parameters : NetworkParameters) (header : Header) (context : HeaderValidationContext)
          → context.height ≡ 0
          → pow_hash header ≡ work_hash header
          → (header_eq header (genesis_header parameters)
              && bytes_eq (pow_hash header) parameters.genesis_hash)
            ≡ false
          → ¬ IsLinked parameters header context
      not_genesis parameters header context start hash other (inl (_, same, named)) =
          let a : header_eq header (genesis_header parameters) ≡ true =
            subst (λ g. header_eq header g ≡ true) same (header_eq_refl header) in
          let b = (bytes_eq_iff (pow_hash header) parameters.genesis_hash).1 (hash ∙ named) in
          let both : (header_eq header (genesis_header parameters)
                && bytes_eq (pow_hash header) parameters.genesis_hash)
              ≡ true =
            rw (a, b) refl in
          cc (sym other ∙ both)
      not_genesis parameters header context start hash other (inr (later, _)) = later start

      not_linked :
          (parameters : NetworkParameters) (header : Header) (context : HeaderValidationContext)
          → (context.height == 0) ≡ false
          → bytes_eq header.previous_block context.previous_block ≡ false
          → ¬ IsLinked parameters header context
      not_linked parameters header context later other (inl (start, _, _)) =
          not_same _ _ later start
      not_linked parameters header context later other (inr (_, same)) =
          cc (sym other ∙ (bytes_eq_iff header.previous_block context.previous_block).1 same)

  -- The saturated sum is compared with a time of 64 bits, so that it may as well be the sum.
  late_lem :
      (header : Header) (context : HeaderValidationContext)
      → IsHeader header
      → ltb (saturating_add_u64 context.now 7200) header.time ≡ ltb (context.now + 7200) header.time
  late_lem header context r = let range = r.time_range in ground (arith, range)

  -- A header whose link to the chain fails is refused as a wrong genesis header at height 0 and for its previous block at any
  -- other: at height 0 it has to be the genesis header with the hash that the network names, and elsewhere to name the block
  -- before it. A header that links is refused for its time, if that is not after the median time or more than two hours
  -- after now, then for its bits, if they are not the expected ones, then for its proof of work, if its target is negative,
  -- zero or too large, or, save at height 0, if its hash is above the target. Every other header is accepted, and the work
  -- counted for it is 2^256 / (target + 1). The fields of the header have the widths of their types, and the hash, which is
  -- described by the bytes that are hashed, is 32 bytes.
  pub validate_header_refines :
      (parameters : NetworkParameters) (header : Header) (context : HeaderValidationContext)
      → IsHeader header
      → IsNumber 32 (work_hash header)
      → (IsLinked parameters header context
          × (map_ok value (validate_header parameters header context)
              ≡ spec_validate header context))
        ⊎ ((¬ IsLinked parameters header context)
            × (map_ok value (validate_header parameters header context) ≡ err (link_error context)))
  unfolding validate_header spec_validate
  validate_header_refines parameters header context r h =
      elim (link_cases parameters header context r) [
        | inr (loose, refused) ↦ inr (loose, rw refused refl)
        | inl (linked, passed) ↦ inl (
          linked,
          rw (passed, late_lem header context r)
              (elim (Bool-cases
                (leb header.time context.median_time || ltb (context.now + 7200) header.time)) [
                  | inl late ↦ rw late refl
                  | inr timely ↦ elim (Bool-cases (header.bits == context.expected_bits)) [
                    | inr other ↦ rw (timely, other) refl
                    | inl expected ↦
                        let hash = pow_hash_lem header r in
                        rw
                          (
                            timely,
                            expected,
                            hash,
                            is_met_by-from_compact header.bits (work_hash header) h,
                          )
                          (pow_step header.bits (context.height == 0) _)
                  ]
                ]),
        )
      ]
