-- ===== src/Primitives/Chainwork/Cases.antt =====
-- The cases of a checked operation on `Chainwork`: its result, of four limbs, or its error.
use hns_rs.Base.{
  ℕ, ◌-◌, ◌*◌, ◌/◌, ◌^◌, ◌≤◌, ◌<◌, ◌≡◌, ◌⊎◌, inl, inr, refl, arith, false, Bool-cases, ltb, ◌==◌,
  ok, err,
}
use hns_rs.Primitives.Chainwork.{
  Limbs, underflow, overflow, sub_limbs, mul_limbs, div_limbs, checked_sub_work, checked_mul_u64,
  checked_div_u64,
}
use hns_rs.Primitives.Chainwork.Laws.{
  IsWork, value, sub_limbs-IsWork, mul_limbs-IsWork, div_limbs-IsWork, is_below_lem, value_bound,
}

pub sub_cases :
    (a b : Limbs)
    → IsWork a
    → IsWork b
    → (value a < value b) × (checked_sub_work a b ≡ err underflow)
      ⊎ (value b ≤ value a)
        × ((w : Limbs) × (checked_sub_work a b ≡ ok w) × IsWork w × (value w ≡ value a - value b))
unfolding checked_sub_work
sub_cases a b h k = elim (Bool-cases (ltb (value a) (value b))) [
  | inl under ↦ inl (ground (arith, under), rw (is_below_lem a b h k, under) refl)
  | inr fits ↦
      let (sum, w) = sub_limbs-IsWork a b h k in
      let order : value b ≤ value a = ground (arith, fits) in
      inr (
        order,
        (
          (sub_limbs a b false).0,
          rw (is_below_lem a b h k, fits) refl,
          w,
          ground (arith, sum, order, value_bound (sub_limbs a b false).0 w, value_bound a h),
        ),
      )
]

pub mul_cases :
    (a : Limbs) (m : ℕ)
    → IsWork a
    → (2 ^ 256 ≤ value a * m) × (checked_mul_u64 a m ≡ err overflow)
      ⊎ (value a * m < 2 ^ 256)
        × ((w : Limbs) × (checked_mul_u64 a m ≡ ok w) × IsWork w × (value w ≡ value a * m))
unfolding checked_mul_u64
mul_cases a m h =
    let (sum, w) = mul_limbs-IsWork a m h in
    let below = value_bound (mul_limbs a m 0).0 w in
    elim (Bool-cases ((mul_limbs a m 0).1 == 0)) [
      | inl fits ↦
          let nothing : (mul_limbs a m 0).1 ≡ 0 = ground (arith, fits) in
          inr (
            omega (arith, sum, nothing, below),
            ((mul_limbs a m 0).0, rw fits refl, w, omega (arith, sum, nothing)),
          )
      | inr over ↦
          let some_carry : 0 < (mul_limbs a m 0).1 = ground (arith, over) in
          inl (omega (arith, sum, some_carry), rw over refl)
    ]

pub div_cases :
    (a : Limbs) (d : ℕ)
    → IsWork a
    → (d ≡ 0) × (checked_div_u64 a d ≡ err underflow)
      ⊎ (0 < d) × ((w : Limbs) × (checked_div_u64 a d ≡ ok w) × IsWork w × (value w ≡ value a / d))
unfolding checked_div_u64
div_cases a d h = elim (Bool-cases (d == 0)) [
  | inl nothing ↦ inl (ground (arith, nothing), rw nothing refl)
  | inr positive ↦
      let order : 0 < d = ground (arith, positive) in
      let (exact, w) = div_limbs-IsWork a d order h in
      inr (order, ((div_limbs a d).0, rw positive refl, w, exact))
]
