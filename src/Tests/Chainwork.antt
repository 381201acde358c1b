-- ===== src/Tests/Chainwork.antt =====
-- The theorem on `Chainwork` at two values whose sum carries into a second limb.
use hns_rs.Base.{◌≡◌, ◌^◌, ◌-◌, arith, refl, [], ◌∷◌, ok, map_ok}
use hns_rs.Primitives.Chainwork.{
  Limbs, checked_add_work, checked_sub_work, checked_mul_u64, checked_div_u64, add_limbs, add_limb,
}
use hns_rs.Primitives.Chainwork.Laws.{value, spec_add, spec_sub, spec_mul, spec_div, work_refines}

abbrev almost : Limbs
almost = (2 ^ 64 - 1) ∷ 0 ∷ 7 ∷ 0 ∷ []

abbrev five : Limbs
five = 5 ∷ 0 ∷ 0 ∷ 0 ∷ []

carry_test : checked_add_work almost five ≡ ok (4 ∷ 1 ∷ 7 ∷ 0 ∷ [])
unfolding checked_add_work add_limbs add_limb
carry_test = refl

work_refines_example :
    (map_ok value (checked_add_work almost five) ≡ spec_add (value almost) (value five))
    × (map_ok value (checked_sub_work almost five) ≡ spec_sub (value almost) (value five))
    × (map_ok value (checked_mul_u64 almost 1000) ≡ spec_mul (value almost) 1000)
    × (map_ok value (checked_div_u64 almost 1000) ≡ spec_div (value almost) 1000)
work_refines_example =
    work_refines almost five 1000 (record { four = refl; limbs = omega arith })
      (record { four = refl; limbs = omega arith })
