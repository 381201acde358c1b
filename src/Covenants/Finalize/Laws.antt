-- ===== src/Covenants/Finalize/Laws.antt =====
-- A FINALIZE covenant and its fields determine each other, and an authenticated state has one.
use hns_rs.Base.{
  ◌<◌, ◌^◌, ◌≡◌, refl, ap, ◌∙◌, arith, true, false, List, [], ◌∷◌, All, ◌==◌, length, get_or, ok,
  ◌>>=◌, ensure, ok_or, >>=-eq-ok, ensure-eq-ok, ok-injective,
}
use hns_rs.Base.Bytes.{
  Bytes, IsByte, to_le_bytes, from_le_bytes, bytes_eq, bytes_eq_refl, eq_of_bytes_eq,
  from_le_bytes-to_le_bytes,
}
use hns_rs.Hash.{Sha3}
use hns_rs.Covenants.Name.{hash_name, validate_name}
use hns_rs.Covenants.Covenant.{CovenantKind, Covenant, finalize, to_array}
use hns_rs.Covenants.NameState.{NameState, is_null, validate_key_binding}
use hns_rs.Covenants.NameState.Decode.{decode_name_state}
use hns_rs.Covenants.NameState.Canonical.{decode_canonical}
use hns_rs.Covenants.Finalize
use hns_rs.Covenants.Finalize.{FinalizeCovenant}
use hns_rs.Covenants.Fields.{array_u32, to_array_self, to_array_lem, one_byte, test_length}

abbrev pub finalize_covenant : FinalizeCovenant → Covenant
finalize_covenant f = record {
  kind = finalize;
  items =
      f.name_hash
      ∷ to_le_bytes 4 f.start_height
      ∷ f.name
      ∷ (f.flags ∷ [])
      ∷ to_le_bytes 4 f.claimed
      ∷ to_le_bytes 4 f.renewals
      ∷ f.renewal_block
      ∷ [];
}

-- What the types of the fields guarantee.
pub record IsFinalize (f : FinalizeCovenant) : Type 0 where
  pub hash_length : length f.name_hash ≡ 32
  pub height_range : f.start_height < 2 ^ 32
  pub claimed_range : f.claimed < 2 ^ 32
  pub renewals_range : f.renewals < 2 ^ 32
  pub block_length : length f.renewal_block ≡ 32

same_items :
    {a a' b b' c d d' e e' f f' g g' : Bytes}
    → a ≡ a'
    → b ≡ b'
    → d ≡ d'
    → e ≡ e'
    → f ≡ f'
    → g ≡ g'
    → a ∷ b ∷ c ∷ d ∷ e ∷ f ∷ g ∷ [] ≡ a' ∷ b' ∷ c ∷ d' ∷ e' ∷ f' ∷ g' ∷ []
same_items p q r s t u = cc

is_finalize_lem : (kind : CovenantKind) → Finalize.is_finalize kind ≡ true → kind ≡ finalize
unfolding Finalize.is_finalize
is_finalize_lem finalize h = refl
is_finalize_lem kind h = cc h

module _ ⦃sha3 : Sha3⦄ where
  hash_name-eq-ok :
      (name hash : Bytes)
      → hash_name name ≡ ok hash
      → (validate_name name ≡ true) × (hash ≡ sha3.digest name)
  unfolding hash_name
  hash_name-eq-ok name hash h = ground (arith, h)

  validate-eq-ok :
      (f : FinalizeCovenant)
      → Finalize.validate f ≡ ok tt
      → (validate_name f.name ≡ true) × (hash_name f.name ≡ ok f.name_hash)
  unfolding Finalize.validate
  validate-eq-ok f h =
      let (_, valid, h1) = >>=-eq-ok (ensure (validate_name f.name) _) _ h in
      let (hash, e, h2) = >>=-eq-ok (hash_name f.name) _ h1 in
      let (_, same, _) = >>=-eq-ok (ensure (bytes_eq hash f.name_hash) _) _ h2 in
      (ensure-eq-ok _ _ valid, e ∙ ap ok (eq_of_bytes_eq hash f.name_hash (ensure-eq-ok _ _ same)))

  eq-ok-validate :
      (f : FinalizeCovenant) → hash_name f.name ≡ ok f.name_hash → Finalize.validate f ≡ ok tt
  unfolding Finalize.validate
  eq-ok-validate f h =
      let (valid, _) = hash_name-eq-ok f.name f.name_hash h in
      rw (valid, h, ◌>>=◌, bytes_eq_refl f.name_hash) refl

  try_from-finalize_covenant :
      (f : FinalizeCovenant)
      → IsFinalize f
      → Finalize.validate f ≡ ok tt
      → Finalize.try_from (finalize_covenant f) ≡ ok f
  unfolding Finalize.try_from Finalize.from_items Finalize.is_finalize
  try_from-finalize_covenant f r h =
      let (valid, hash) = validate-eq-ok f h in
      rw
        (
          valid,
          to_array_self 32 f.name_hash r.hash_length,
          hash,
          ◌>>=◌,
          bytes_eq_refl f.name_hash,
          to_array_self 32 f.renewal_block r.block_length,
          from_le_bytes-to_le_bytes 4 f.start_height r.height_range,
          from_le_bytes-to_le_bytes 4 f.claimed r.claimed_range,
          from_le_bytes-to_le_bytes 4 f.renewals r.renewals_range,
          h,
        )
        refl

  -- The fields of a finalization, with hashes of 32 bytes and numbers of 32 bits, are read back from the
  -- covenant that they are written as.
  pub finalize_round_trip :
      (f : FinalizeCovenant) (c : Covenant)
      → IsFinalize f
      → Finalize.to_covenant f ≡ ok c
      → Finalize.try_from c ≡ ok f
  unfolding Finalize.to_covenant
  finalize_round_trip f c r e =
      let (_, valid, written) = >>=-eq-ok (Finalize.validate f) _ e in
      let same : finalize_covenant f ≡ c = cc written in
      rw same at (try_from-finalize_covenant f r valid)

  from_items-finalize_lem :
      (items : List Bytes) (f : FinalizeCovenant)
      → All (All IsByte) items
      → Finalize.from_items items ≡ ok f
      → (Finalize.validate f ≡ ok tt) × ((finalize_covenant f).items ≡ items)
  unfolding Finalize.from_items
  from_items-finalize_lem
        (name_hash ∷ start_height ∷ name ∷ flags ∷ claimed ∷ renewals ∷ block ∷ []) f b h =
      let (_, one, h1) = >>=-eq-ok (ensure (length flags == 1) _) _ h in
      let (_, _, h2) = >>=-eq-ok (ensure (validate_name name) _) _ h1 in
      let (hash, e3, h3) = >>=-eq-ok (ok_or (to_array 32 name_hash) _) _ h2 in
      let (named, _, h4) = >>=-eq-ok (hash_name name) _ h3 in
      let (_, _, h5) = >>=-eq-ok (ensure (bytes_eq named hash) _) _ h4 in
      let (height, e6, h6) = >>=-eq-ok (ok_or (to_array 4 start_height) _) _ h5 in
      let (claim, e7, h7) = >>=-eq-ok (ok_or (to_array 4 claimed) _) _ h6 in
      let (count, e8, h8) = >>=-eq-ok (ok_or (to_array 4 renewals) _) _ h7 in
      let (last, e9, h9) = >>=-eq-ok (ok_or (to_array 32 block) _) _ h8 in
      let (_, valid, h10) = >>=-eq-ok (Finalize.validate _) _ h9 in
      let (_, same_hash) = to_array_lem 32 name_hash hash _ e3 in
      let (_, same_block) = to_array_lem 32 block last _ e9 in
      let flag_byte = one_byte flags (test_length _ _ (ensure-eq-ok _ _ one)) in
      let height_bytes = array_u32 start_height height _ (b.1).0 e6 in
      let claim_bytes = array_u32 claimed claim _ ((((b.1).1).1).1).0 e7 in
      let count_bytes = array_u32 renewals count _ (((((b.1).1).1).1).1).0 e8 in
      let read : record {
        name_hash = hash;
        start_height = from_le_bytes height;
        name = name;
        flags = get_or flags 0 0;
        claimed = from_le_bytes claim;
        renewals = from_le_bytes count;
        renewal_block = last;
      }
          ≡ f =
        ok-injective h10 in
      rw (← read)
        (valid, same_items same_hash height_bytes flag_byte claim_bytes count_bytes same_block)
  from_items-finalize_lem items f b h = cc h

  -- A covenant of bytes that is read as a finalization is the covenant that the finalization is written as.
  pub finalize_canonical :
      (c : Covenant) (f : FinalizeCovenant)
      → All (All IsByte) c.items
      → Finalize.try_from c ≡ ok f
      → Finalize.to_covenant f ≡ ok c
  unfolding Finalize.try_from Finalize.to_covenant
  finalize_canonical c f b h =
      let (_, tagged, h1) = >>=-eq-ok (ensure (Finalize.is_finalize c.kind) _) _ h in
      let kind = is_finalize_lem c.kind (ensure-eq-ok _ _ tagged) in
      let (valid, same) = from_items-finalize_lem c.items f b h1 in rw (valid, same, ← kind) refl

  -- A state that decodes under a key and is not null has a finalization: `from_name_state` succeeds, its name
  -- hashes to the key, and it is written as a covenant.
  pub from_name_state-decode :
      (name_hash input block : Bytes) (s : NameState)
      → decode_name_state name_hash input ≡ ok s
      → is_null s ≡ false
      → (f : FinalizeCovenant) × (Finalize.from_name_state s block ≡ ok f)
        × (f.name_hash ≡ name_hash)
        × (hash_name f.name ≡ ok name_hash)
        × (Finalize.to_covenant f ≡ ok (finalize_covenant f))
  unfolding Finalize.from_name_state Finalize.to_covenant decode_name_state validate_key_binding
  from_name_state-decode name_hash input block s h full =
      let (_, key, bound) = decode_canonical name_hash input s h in
      let tagged : hash_name s.name ≡ ok name_hash = ground (arith, bound, full) in
      let f : FinalizeCovenant = record {
        name_hash = s.name_hash;
        start_height = s.height;
        name = s.name;
        flags = Finalize.bool_u8 s.weak;
        claimed = s.claimed;
        renewals = s.renewals;
        renewal_block = block;
      } in
      let named : hash_name s.name ≡ ok s.name_hash = rw key tagged in
      let valid : Finalize.validate f ≡ ok tt = eq-ok-validate f named in
      (
        f,
        rw (full, named, ◌>>=◌, bytes_eq_refl s.name_hash, valid) refl,
        key,
        tagged,
        rw valid refl,
      )
