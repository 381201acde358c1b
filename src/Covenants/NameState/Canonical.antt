-- ===== src/Covenants/NameState/Canonical.antt =====
-- What a decoded name state is: canonical, and bound to its key.
use hns_rs.Base
use hns_rs.Base.{
  ℕ, ◌/◌, subst, ◌∙◌, ◌+◌, ◌≤◌, ◌<◌, ◌^◌, ◌≡◌, ◌⊎◌, inl, inr, refl, sym, ap, arith, Bool, true,
  false, List, [], ◌∷◌, ◌++◌, ltb, ◌==◌, le→ltb, if◌then◌else◌, length, length-append, append-nil,
  Result, ok, err, Bool-cases, not,
}
use hns_rs.Base.Bytes.{Bytes, bytes_eq, eq_of_bytes_eq}
use hns_rs.Hash.{Sha3}
use hns_rs.Primitives.{null_outpoint}
use hns_rs.Encoding.Decoder.{
  Decoder, Parser, pure, ensure, read_u8, read_u16_le, read_u32_le, read_bounded_vec, ◌>>=◌, new,
  finish,
}
use hns_rs.Encoding.Reads.{>>=-eq-ok}
use hns_rs.Covenants.Name.{CovenantError, decode_error, hash_name, max_name_size, max_resource_size}
use hns_rs.Covenants.NameState.{
  NameState, is_null, validate_key_binding, max_name_state_size, encode,
}
use hns_rs.Covenants.NameState.Decode.{
  is_set, read_if, step, read_owner, read_safe_integer, read_u32_compact, decode_optional,
  decode_heights, decode_fields, accept, decode,
}

-- Whenever a parser succeeds, its result has the property.
record Returns {A : Type 0} (P : A → Type 0) (p : Parser CovenantError A) : Type 0 where
  pub holds : (d d' : Decoder) (a : A) → p d ≡ ok (a, d') → P a

module _ {A : Type 0} {P : A → Type 0} where
  Returns-bind :
      {B : Type 0} (p : Parser CovenantError B) (f : B → Parser CovenantError A)
      → ((b : B) → Returns P (f b))
      → Returns P (p >>= f)
  Returns-bind p f h = record {
    holds = λ d d' a e. let (b, d1, _, e') = >>=-eq-ok p f d e in (h b).holds d1 d' a e';
  }

  Returns-pure : (a : A) → P a → Returns P (pure a)
  Returns-pure a h = record {
    holds = λ d d' x e. subst P (ap (λ r. elim r [ ok q ↦ q.0 | err _ ↦ a ]) e) h;
  }

decode_optional_key :
    (name_hash name resource_data : Bytes) (height renewal field : ℕ)
    → Returns
        (λ s. s.name_hash ≡ name_hash)
        (decode_optional name_hash name resource_data height renewal field)
unfolding decode_optional
decode_optional_key name_hash name resource_data height renewal field =
    Returns-bind (read_if (is_set field 0) read_owner null_outpoint) _ (λ owner.
      Returns-bind (read_if (is_set field 1) read_safe_integer 0) _ (λ value.
        Returns-bind (read_if (is_set field 2) read_safe_integer 0) _ (λ highest.
          Returns-bind (read_if (is_set field 3) (step read_u32_le) 0) _ (λ transfer.
            Returns-bind (read_if (is_set field 4) (step read_u32_le) 0) _ (λ revoked.
              Returns-bind (read_if (is_set field 5) (step read_u32_le) 0) _ (λ claimed.
                Returns-bind
                  (read_if (is_set field 6) (read_u32_compact "renewal count exceeds u32") 0) _
                  (λ renewals. Returns-pure _ refl)))))))

decode_fields_key :
    (name_hash : Bytes) → Returns (λ s. s.name_hash ≡ name_hash) (decode_fields name_hash)
unfolding decode_fields decode_heights
decode_fields_key name_hash = Returns-bind (step read_u8) _ (λ name_length.
    Returns-bind (ensure (not (ltb max_name_size name_length)) _) _ (λ _.
      Returns-bind (step (read_bounded_vec name_length max_name_size)) _ (λ name.
        Returns-bind (step read_u16_le) _ (λ resource_length.
          Returns-bind (ensure (not (ltb max_resource_size resource_length)) _) _ (λ _.
            Returns-bind (step (read_bounded_vec resource_length max_resource_size)) _
              (λ resource_data. Returns-bind (step read_u32_le) _ (λ height.
                Returns-bind (step read_u32_le) _ (λ renewal.
                  Returns-bind (step read_u16_le) _ (λ field.
                    Returns-bind (ensure (field / 2 ^ 10 == 0) _) _ (λ _.
                      decode_optional_key name_hash name resource_data height renewal
                        field))))))))))

module _ ⦃sha3 : Sha3⦄ where
  accept_lem :
      (s out : NameState) (input : Bytes)
      → accept s input ≡ ok out
      → (out ≡ s) × (encode s ≡ ok input) × (validate_key_binding s ≡ ok tt)
  unfolding accept
  accept_lem s out input h =
      let (_, key, h1) = Base.>>=-eq-ok (validate_key_binding s) _ h in
      let (canonical, coded, h2) = Base.>>=-eq-ok (encode s) _ h1 in
      elim (Bool-cases (bytes_eq canonical input)) [
        | inl same ↦
            let same_bytes = eq_of_bytes_eq canonical input same in
            (cc (rw same at h2), coded ∙ ap ok same_bytes, key)
        | inr other ↦ cc (rw other at h2)
      ]

  validate_key_binding_lem :
      (s : NameState)
      → validate_key_binding s ≡ ok tt
      → (is_null s ≡ true) ⊎ (hash_name s.name ≡ ok s.name_hash)
  unfolding validate_key_binding
  validate_key_binding_lem s h = elim (Bool-cases (is_null s)) [
    | inl null ↦ inl null
    | inr full ↦
        let (hash, e, e') = Base.>>=-eq-ok (hash_name s.name) _ (rw full at h) in
        inr (e ∙ ap ok (eq_of_bytes_eq hash s.name_hash (Base.ensure-eq-ok _ _ e')))
  ]

  -- A decoded state encodes to the very bytes that were decoded and carries the key it was decoded under, and
  -- unless it is the null state its name is a valid name that hashes to that key.
  pub decode_canonical :
      (name_hash input : Bytes) (s : NameState)
      → decode name_hash input ≡ ok s
      → (encode s ≡ ok input)
        × (s.name_hash ≡ name_hash)
        × ((is_null s ≡ true) ⊎ (hash_name s.name ≡ ok name_hash))
  unfolding decode
  decode_canonical name_hash input s h =
      let fits : ltb max_name_state_size (length input) ≡ false = ground (arith, h) in
      let ((state, d), parsed, h1) =
        Base.>>=-eq-ok (decode_fields name_hash (new input)) _ (rw fits at h) in
      let (_, _, h2) = Base.>>=-eq-ok (Base.map_err decode_error (finish d)) _ h1 in
      let (same, coded, key) = accept_lem state s input h2 in
      let tagged : state.name_hash ≡ name_hash = (decode_fields_key name_hash).holds _ _ _ parsed in
      let bound = rw tagged at (validate_key_binding_lem state key) in
      rw same (coded, tagged, bound)
