-- ===== src/Header/U256/Work.antt =====
-- The work of a target and the target for a work.
use native.Mathlib.Nat.{le-div_iff_mul-le}
use hns_rs.Base.{
  ℕ, ◌+◌, ◌/◌, ◌^◌, ◌<◌, ◌≡◌, ◌≢◌, ◌⊎◌, inl, inr, refl, sym, ap, ◌∙◌, arith, true, false,
  Bool-cases, le→ltb, ◌==◌, some, none, replicate,
}
use hns_rs.Base.Bytes.{Bytes, bytes_eq, bytes_eq_iff, eq_of_bytes_eq}
use hns_rs.Base.BigEndian.{from_be_bytes, from_be_bytes_injective}
use hns_rs.Header.U256.{
  is_less, add_bytes, checked_add_u256, checked_sub_u256, wrapping_sub, zero_u256, one_u256,
  work_for_target, target_for_work,
}
use hns_rs.Header.U256.Value.{
  IsNumber, is_less_lem, number_lt, add_bytes-IsNumber, wrapping_sub-IsNumber,
}
use hns_rs.Header.U256.Division.{
  divide_two_to_256_exact, one_u256-IsNumber, zero_u256-IsNumber, value_one, value_zero,
}

-- Whether a number is the given one is whether their values are equal.
same_number :
    (a b : Bytes)
    → IsNumber 32 a
    → IsNumber 32 b
    → ((bytes_eq a b ≡ true) × (from_be_bytes a ≡ from_be_bytes b))
      ⊎ ((bytes_eq a b ≡ false) × (from_be_bytes a ≢ from_be_bytes b))
same_number a b h k = elim (Bool-cases (bytes_eq a b)) [
  | inl same ↦ inl (same, ap from_be_bytes (eq_of_bytes_eq a b same))
  | inr other ↦ inr (
    other,
    λ e.
        let equal = from_be_bytes_injective a b (h.width ∙ sym k.width) h.bytes k.bytes e in
        cc (sym other ∙ (bytes_eq_iff a b).1 equal),
  )
]

positive_lem : (n : ℕ) → n ≢ 0 → 0 < n
positive_lem n h = omega (arith, h)

highest-IsNumber : IsNumber 32 (replicate 32 0xff)
highest-IsNumber = record { width = refl; bytes = omega arith }

highest : from_be_bytes (replicate 32 0xff) + 1 ≡ 2 ^ 256 / 1
unfolding from_be_bytes
highest = refl

add_one :
    (a : Bytes)
    → IsNumber 32 a
    → ((from_be_bytes a + 1 ≡ 2 ^ 256) × (checked_add_u256 a one_u256 ≡ none))
      ⊎ ((b : Bytes) × (checked_add_u256 a one_u256 ≡ some b)
          × IsNumber 32 b
          × (from_be_bytes b ≡ from_be_bytes a + 1))
unfolding checked_add_u256
add_one a h =
    let (sum, number) = add_bytes-IsNumber a one_u256 h one_u256-IsNumber in
    let total = rw value_one at sum in
    elim (Bool-cases ((add_bytes a one_u256).1 == 0)) [
      | inl fits ↦
          let zero_carry : (add_bytes a one_u256).1 ≡ 0 = ground (arith, fits) in
          inr ((add_bytes a one_u256).0, rw fits refl, number, omega (arith, total, zero_carry))
      | inr carry ↦
          let over : 0 < (add_bytes a one_u256).1 = ground (arith, carry) in
          inl (omega (arith, total, over, number_lt a h), rw carry refl)
    ]

-- The work of a target is 2^256 divided by the target plus one, rounded down, and the zero target has none. The
-- highest target, to which one cannot be added in 256 bits, has work one by the same formula.
pub work_for_target_exact :
    (target : Bytes)
    → IsNumber 32 target
    → ((from_be_bytes target ≡ 0) × (work_for_target target ≡ none))
      ⊎ ((0 < from_be_bytes target)
          × ((w : Bytes) × (work_for_target target ≡ some w)
              × IsNumber 32 w
              × (from_be_bytes w ≡ 2 ^ 256 / (from_be_bytes target + 1))))
unfolding work_for_target
work_for_target_exact target h = elim (same_number target zero_u256 h zero_u256-IsNumber) [
  | inl (same, value) ↦ inl (omega (arith, value, value_zero), rw same refl)
  | inr (other, value) ↦
      let positive : 0 < from_be_bytes target = positive_lem _ (λ e. value (e ∙ sym value_zero)) in
      elim (add_one target h) [
        | inl (over, added) ↦ inr (
          positive,
          (
            one_u256,
            rw (other, added) refl,
            one_u256-IsNumber,
            value_one ∙ ap (λ n. 2 ^ 256 / n) (sym over),
          ),
        )
        | inr (b, added, number, next) ↦ elim (divide_two_to_256_exact b number) [
          | inl (small, _) ↦ absurd (omega (arith, small, next, positive))
          | inr (q, run, wide, exact) ↦
              inr (positive, (q, rw (other, added) run, wide, exact ∙ ap (λ n. 2 ^ 256 / n) next))
        ]
      ]
]

quotient_bounds : (w : ℕ) → 1 < w → w < 2 ^ 256 → 0 < 2 ^ 256 / w
quotient_bounds w h k =
    (le-div_iff_mul-le {k = w} {x = 1} {y = 2 ^ 256} (omega arith)).1 (omega arith)

two_lem : (n : ℕ) → 0 < n → n ≢ 1 → 1 < n
two_lem n h k = omega (arith, h, k)

take_one :
    (a : Bytes)
    → IsNumber 32 a
    → 0 < from_be_bytes a
    → (t : Bytes) × (checked_sub_u256 a one_u256 ≡ some t)
      × IsNumber 32 t
      × (from_be_bytes t + 1 ≡ from_be_bytes a)
unfolding checked_sub_u256
take_one a h positive =
    let (borrow, one, sum, number) = wrapping_sub-IsNumber a one_u256 h one_u256-IsNumber in
    let not_less : is_less a one_u256 ≡ false =
      is_less_lem 32 a one_u256 h one_u256-IsNumber
      ∙ le→ltb _ _ (omega (arith, value_one, positive)) in
    (
      wrapping_sub a one_u256,
      rw not_less refl,
      number,
      omega (arith, sum, value_one, one, number_lt (wrapping_sub a one_u256) number, positive),
    )

-- The target for a work is 2^256 divided by the work, rounded down, less one, and there is none for zero work.
pub target_for_work_exact :
    (work : Bytes)
    → IsNumber 32 work
    → ((from_be_bytes work ≡ 0) × (target_for_work work ≡ none))
      ⊎ ((0 < from_be_bytes work)
          × ((t : Bytes) × (target_for_work work ≡ some t)
              × IsNumber 32 t
              × (from_be_bytes t + 1 ≡ 2 ^ 256 / from_be_bytes work)))
unfolding target_for_work
target_for_work_exact work h = elim (same_number work zero_u256 h zero_u256-IsNumber) [
  | inl (same, value) ↦ inl (omega (arith, value, value_zero), rw same refl)
  | inr (other, value) ↦
      let positive : 0 < from_be_bytes work = positive_lem _ (λ e. value (e ∙ sym value_zero)) in
      elim (same_number work one_u256 h one_u256-IsNumber) [
        | inl (same, unit) ↦ inr (
          positive,
          (
            replicate 32 0xff,
            rw (other, same) refl,
            highest-IsNumber,
            highest ∙ ap (λ n. 2 ^ 256 / n) (sym (unit ∙ value_one)),
          ),
        )
        | inr (different, unit) ↦
            let many : 1 < from_be_bytes work =
              two_lem _ positive (λ e. unit (e ∙ sym value_one)) in
            elim (divide_two_to_256_exact work h) [
              | inl (small, _) ↦ absurd (omega (arith, small, many))
              | inr (q, run, wide, exact) ↦
                  let (t, taken, number, less) =
                    take_one q wide
                      (omega (arith, exact, quotient_bounds _ many (number_lt work h))) in
                  inr (positive, (t, rw (other, different, run) taken, number, less ∙ exact))
            ]
      ]
]
