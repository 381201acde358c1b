-- ===== src/Covenants/NameState/Laws.antt =====
-- What an accepted encoding of a name state says, and that it decodes to the state.
use hns_rs.Base
use hns_rs.Base.{
  ℕ, ◌/◌, subst, ◌∙◌, ◌+◌, ◌≤◌, ◌<◌, ◌^◌, ◌≡◌, ◌⊎◌, inl, inr, refl, sym, ap, arith, Bool, true,
  false, List, [], ◌∷◌, ◌++◌, ltb, ◌==◌, le→ltb, if◌then◌else◌, length, length-append, append-nil,
  Result, ok, err, Bool-cases, not,
}
use hns_rs.Base.Bytes.{Bytes, bytes_eq_refl}
use hns_rs.Hash.{Sha3}
use hns_rs.Encoding.Encoder.{with_capacity, into_bytes}
use hns_rs.Encoding.Decoder.{new}
use hns_rs.Encoding.Reads.{at_end, finish-at_end, Reads-new}
use hns_rs.Covenants.Name.{max_name_size, max_resource_size}
use hns_rs.Covenants.NameState.{
  NameState, validate_lengths, validate_safe_integer, validate_key_binding, hsd_max_safe_integer,
  max_name_state_size, put_name_state, encode,
}
use hns_rs.Covenants.NameState.Decode.{decode_fields, accept, decode}
use hns_rs.Covenants.NameState.RoundTrip.{
  IsNameState, name_state_bytes, put_name_state-Writes, decode_fields-Reads,
}
use hns_rs.Covenants.NameState.Bounds.{name_state_bytes_bound}

-- What the types of the fields of a state guarantee.
pub record IsInRange (s : NameState) : Type 0 where
  pub height_range : s.height < 2 ^ 32
  pub renewal_range : s.renewal < 2 ^ 32
  pub hash_length : length s.owner.transaction_hash ≡ 32
  pub index_range : s.owner.index < 2 ^ 32
  pub transfer_range : s.transfer < 2 ^ 32
  pub revoked_range : s.revoked < 2 ^ 32
  pub claimed_range : s.claimed < 2 ^ 32
  pub renewals_range : s.renewals < 2 ^ 32

validate_lengths_lem :
    (m n : ℕ) (u : Unit {0})
    → validate_lengths m n ≡ ok u
    → (m ≤ max_name_size) × (n ≤ max_resource_size)
unfolding validate_lengths
validate_lengths_lem m n u h = ground arith

validate_safe_integer_lem :
    (v : ℕ) (u : Unit {0}) → validate_safe_integer v ≡ ok u → v ≤ hsd_max_safe_integer
unfolding validate_safe_integer
validate_safe_integer_lem v u h = ground arith

module _ ⦃sha3 : Sha3⦄ where
  encode_lem :
      (s : NameState) (bytes : Bytes)
      → encode s ≡ ok bytes
      → (length s.name ≤ max_name_size)
        × (length s.resource_data ≤ max_resource_size)
        × (s.value ≤ hsd_max_safe_integer)
        × (s.highest ≤ hsd_max_safe_integer)
        × (validate_key_binding s ≡ ok tt)
        × (bytes ≡ (put_name_state s (with_capacity max_name_state_size)).bytes)
  unfolding encode into_bytes
  encode_lem s bytes h =
      let (_, lengths, h1) =
        Base.>>=-eq-ok (validate_lengths (length s.name) (length s.resource_data)) _ h in
      let (_, value, h2) = Base.>>=-eq-ok (validate_safe_integer s.value) _ h1 in
      let (_, highest, h3) = Base.>>=-eq-ok (validate_safe_integer s.highest) _ h2 in
      let (_, key, h4) = Base.>>=-eq-ok (validate_key_binding s) _ h3 in
      let (name, resource) = validate_lengths_lem _ _ _ lengths in
      (
        name,
        resource,
        validate_safe_integer_lem _ _ value,
        validate_safe_integer_lem _ _ highest,
        key,
        cc,
      )

  -- What an accepted encoding of a state in range is.
  encode_bytes_lem :
      (s : NameState) (bytes : Bytes)
      → IsInRange s
      → encode s ≡ ok bytes
      → IsNameState s × (bytes ≡ name_state_bytes s)
  unfolding with_capacity
  encode_bytes_lem s bytes r h =
      let (name, resource, value, highest, _, written) = encode_lem s bytes h in
      let state : IsNameState s = record {
        name_bound = name;
        resource_bound = resource;
        height_range = r.height_range;
        renewal_range = r.renewal_range;
        hash_length = r.hash_length;
        index_range = r.index_range;
        value_range = value;
        highest_range = highest;
        transfer_range = r.transfer_range;
        revoked_range = r.revoked_range;
        claimed_range = r.claimed_range;
        renewals_range = r.renewals_range;
      } in
      (
        state,
        rw ((put_name_state-Writes s state).run (with_capacity max_name_state_size)) at written,
      )

  -- An accepted encoding of a state whose numbers fit their types, and whose owner has a hash of 32 bytes, is at
  -- most 668 bytes long and decodes, under the key of the state, to the state itself.
  pub decode-encode_state :
      (s : NameState) (bytes : Bytes)
      → IsInRange s
      → encode s ≡ ok bytes
      → (length bytes ≤ max_name_state_size) × (decode s.name_hash bytes ≡ ok s)
  unfolding decode accept
  decode-encode_state s bytes r h =
      let (state, written) = encode_bytes_lem s bytes r h in
      let (_, _, _, _, key, _) = encode_lem s bytes h in
      let short : length bytes ≤ max_name_state_size =
        rw written (name_state_bytes_bound s state) in
      let parsed : decode_fields s.name_hash (new bytes) ≡ ok (s, at_end bytes) =
        rw written (
          Reads-new (decode_fields-Reads s state)
            (omega (arith, name_state_bytes_bound s state))) in
      (
        short,
        rw
            (
              le→ltb max_name_state_size (length bytes) short,
              parsed,
              Base.◌>>=◌,
              finish-at_end bytes,
              Base.◌>>=◌,
              key,
              Base.◌>>=◌,
              h,
              Base.◌>>=◌,
              bytes_eq_refl bytes,
            )
            refl,
      )
