-- ===== src/Journal/Mutation/Reconcile.antt =====
-- What `reconcile` says of the record that is reloaded after a write with unknown outcome.
use hns_rs.Base.{◌≡◌, ◌≢◌, sym, ap, ◌∙◌, ◌⊎◌, inl, inr, arith, true, some, ok, Bool-cases}
use hns_rs.Base.Bytes.{eq_of_bytes_eq, bytes_eq_refl}
use hns_rs.Hash.{Blake2b, Collision, hash32_injective}
use hns_rs.Journal.Binding.{
  JournalLeaseContext, binding_eq_refl, binding_fingerprint, record_fingerprint_domain,
}
use hns_rs.Journal.Record.{JournalState, JournalRecord, validate, encode, fingerprint}
use hns_rs.Journal.RoundTrip.Records.{IsRecord, decode-encode}
use hns_rs.Journal.Codec.{decode}
use hns_rs.Journal.Mutation.{
  JournalMutation, committed, retry_exact, fail_closed_conflict, matches, is_proposed, reconcile,
  next_mutation,
}

-- What a record is when it is stored: of the types' ranges, and valid.
pub record IsStored ⦃blake : Blake2b⦄ (r : JournalRecord) : Type 0 where
  pub ranges : IsRecord r
  pub valid : validate r ≡ ok tt

module _ ⦃blake : Blake2b⦄ where
  -- Two stored records with the same bytes are the same.
  pub encode_injective :
      (r s : JournalRecord) → IsStored r → IsStored s → encode r ≡ encode s → r ≡ s
  encode_injective r s hr hs e =
      let p = decode-encode r hr.ranges hr.valid in
      let q = decode-encode s hs.ranges hs.valid in cc (ap decode e)

  -- Two stored records with one fingerprint are the same, or the hash function collides.
  pub fingerprint_injective :
      (r s : JournalRecord)
      → IsStored r
      → IsStored s
      → fingerprint r ≡ fingerprint s
      → (r ≡ s) ⊎ Collision
  unfolding fingerprint
  fingerprint_injective r s hr hs e =
      elim (hash32_injective record_fingerprint_domain (encode r) (encode s) e) [
        | inl same ↦ inl (encode_injective r s hr hs same)
        | inr c ↦ inr c
      ]

  is_proposed_cases :
      (m : JournalMutation) (q : JournalRecord)
      → IsStored m.proposed
      → IsStored q
      → is_proposed m (some q) ≡ true
      → (q ≡ m.proposed) ⊎ Collision
  unfolding is_proposed
  is_proposed_cases m q hm hq h =
      fingerprint_injective q m.proposed hq hm
        (ground (arith, eq_of_bytes_eq (fingerprint q) (fingerprint m.proposed)))

  is_proposed_self : (m : JournalMutation) → is_proposed m (some m.proposed) ≡ true
  unfolding is_proposed
  is_proposed_self m =
      ground (arith, binding_eq_refl m.proposed.binding, bytes_eq_refl (fingerprint m.proposed))

  -- The expectation of a mutation of `r`.
  module _ (r : JournalRecord) (lease : JournalLeaseContext) (s : JournalState)
      (m : JournalMutation) (h : next_mutation r lease s ≡ ok m) where
    matches_cases :
        (q : JournalRecord)
        → IsStored r
        → IsStored q
        → matches m.expectation (some q) ≡ true
        → (q ≡ r) ⊎ Collision
    unfolding matches next_mutation
    matches_cases q hr hq k =
        fingerprint_injective q r hq hr
          (ground (arith, eq_of_bytes_eq (fingerprint q) (fingerprint r)))

    matches_self : matches m.expectation (some r) ≡ true
    unfolding matches next_mutation
    matches_self =
        ground (arith, bytes_eq_refl (binding_fingerprint r.binding), bytes_eq_refl (fingerprint r))

    -- `reconcile` tells the three cases apart. For a mutation of the stored record `r` to a stored
    -- record, and a reloaded record `q`: it answers `Committed` and `q` is the proposed record, or
    -- `RetryExact` and `q` is still `r`, or `FailClosedConflict` and `q` is neither, or else the hash
    -- function has a collision.
    pub reconcile_decides :
        (q : JournalRecord)
        → IsStored r
        → IsStored m.proposed
        → IsStored q
        → ((reconcile m (some q) ≡ committed) × (q ≡ m.proposed))
          ⊎ (((reconcile m (some q) ≡ retry_exact) × (q ≡ r))
              ⊎ (((reconcile m (some q) ≡ fail_closed_conflict) × (q ≢ m.proposed) × (q ≢ r))
                  ⊎ Collision))
    unfolding reconcile
    reconcile_decides q hr hm hq = elim (Bool-cases (is_proposed m (some q))) [
      | inl same ↦ elim (is_proposed_cases m q hm hq same) [
        | inl e ↦ inl (rw same, e)
        | inr c ↦ inr (inr (inr c))
      ]
      | inr other ↦ elim (Bool-cases (matches m.expectation (some q))) [
        | inl old ↦ elim (matches_cases q hr hq old) [
          | inl e ↦ inr (inl (rw (other, old), e))
          | inr c ↦ inr (inr (inr c))
        ]
        | inr none_of ↦ inr (
            inr (
              inl (
                rw (other, none_of),
                λ e. cc (sym other ∙ ap (λ x. is_proposed m (some x)) e ∙ is_proposed_self m),
                λ e. cc (sym none_of ∙ ap (λ x. matches m.expectation (some x)) e ∙ matches_self),
              )))
      ]
    ]
