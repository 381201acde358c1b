-- ===== src/Primitives/Chainwork/Laws.antt =====
-- The limb loops of `Chainwork` against the numbers that the limbs stand for.
use Prim.Native.Nat.{compare}
use native.Mathlib.Nat.{mod-lt, div-eq_of_lt-le, div-add-mod', div-lt_iff_lt-mul}
use hns_rs.Base.{
  map_ok, ◌∙◌, ℕ, zero, suc, ◌+◌, ◌-◌, ◌*◌, ◌/◌, ◌%◌, ◌^◌, ◌≤◌, ◌<◌, ◌≡◌, refl, sym, arith, Bool,
  true, false, [], ◌∷◌, All, length, ltb, ◌==◌, if◌then◌else◌, Result, ok, err,
}
use hns_rs.Primitives.Chainwork.{
  ArithmeticError, overflow, underflow, Limbs, bool_u64, add_limb, sub_limb, add_limbs, sub_limbs,
  checked_add_work, compare_limbs, is_below, checked_sub_work, mul_limbs, checked_mul_u64,
  div_limbs, checked_div_u64,
}

-- The number that the limbs stand for, and the number of values of that many limbs.
unfoldable pub value : Limbs → ℕ
value [] = 0
value (a ∷ xs) = a + 2 ^ 64 * value xs

unfoldable pub weight : Limbs → ℕ
weight [] = 1
weight (a ∷ xs) = 2 ^ 64 * weight xs

abbrev pub IsLimbs : Limbs → Type 0
IsLimbs xs = All (λ a. a < 2 ^ 64) xs

pub value_lt : (xs : Limbs) → IsLimbs xs → value xs < weight xs
unfolding value weight
value_lt [] h = omega arith
value_lt (a ∷ xs) h = omega (arith, h.0, value_lt xs h.1)

add_limb_lem :
    (a b : ℕ) (c : Bool)
    → a < 2 ^ 64
    → b < 2 ^ 64
    → ((add_limb a b c).0 + 2 ^ 64 * bool_u64 (add_limb a b c).1 ≡ a + b + bool_u64 c)
      × ((add_limb a b c).0 < 2 ^ 64)
unfolding add_limb
add_limb_lem a b true h k = ground arith
add_limb_lem a b false h k = ground arith

add_limbs_lem :
    (xs ys : Limbs) (c : Bool)
    → length xs ≡ length ys
    → IsLimbs xs
    → IsLimbs ys
    → (value (add_limbs xs ys c).0 + weight xs * bool_u64 (add_limbs xs ys c).1
        ≡ value xs + value ys + bool_u64 c)
      × IsLimbs (add_limbs xs ys c).0
unfolding add_limbs value weight
add_limbs_lem [] [] c e h k = (omega arith, tt)
add_limbs_lem [] (y ∷ ys) c e h k = ground (arith, e)
add_limbs_lem (x ∷ xs) [] c e h k = ground (arith, e)
add_limbs_lem (x ∷ xs) (y ∷ ys) c e h k =
    let (s, l) = add_limb_lem x y c h.0 k.0 in
    let (t, m) = add_limbs_lem xs ys (add_limb x y c).1 (omega (arith, e)) h.1 k.1 in
    (grind (arith, s, t), (l, m))

sub_limb_lem :
    (a b : ℕ) (c : Bool)
    → a < 2 ^ 64
    → b < 2 ^ 64
    → ((sub_limb a b c).0 + b + bool_u64 c ≡ a + 2 ^ 64 * bool_u64 (sub_limb a b c).1)
      × ((sub_limb a b c).0 < 2 ^ 64)
unfolding sub_limb
sub_limb_lem a b true h k = ground arith
sub_limb_lem a b false h k = ground arith

sub_limbs_lem :
    (xs ys : Limbs) (c : Bool)
    → length xs ≡ length ys
    → IsLimbs xs
    → IsLimbs ys
    → (value (sub_limbs xs ys c).0 + value ys + bool_u64 c
        ≡ value xs + weight xs * bool_u64 (sub_limbs xs ys c).1)
      × IsLimbs (sub_limbs xs ys c).0
unfolding sub_limbs value weight
sub_limbs_lem [] [] c e h k = (omega arith, tt)
sub_limbs_lem [] (y ∷ ys) c e h k = ground (arith, e)
sub_limbs_lem (x ∷ xs) [] c e h k = ground (arith, e)
sub_limbs_lem (x ∷ xs) (y ∷ ys) c e h k =
    let (s, l) = sub_limb_lem x y c h.0 k.0 in
    let (t, m) = sub_limbs_lem xs ys (sub_limb x y c).1 (omega (arith, e)) h.1 k.1 in
    (grind (arith, s, t), (l, m))

-- Comparing limbs from the highest on compares the numbers.
compare_limbs_lem :
    (xs ys : Limbs)
    → length xs ≡ length ys
    → IsLimbs xs
    → IsLimbs ys
    → compare_limbs xs ys ≡ compare (value xs) (value ys)
unfolding compare_limbs value
compare_limbs_lem [] [] e h k = refl
compare_limbs_lem [] (y ∷ ys) e h k = ground (arith, e)
compare_limbs_lem (x ∷ xs) [] e h k = ground (arith, e)
compare_limbs_lem (x ∷ xs) (y ∷ ys) e h k =
    let ih = compare_limbs_lem xs ys (omega (arith, e)) h.1 k.1 in ground (arith, ih, h.0, k.0)

mul_limbs_lem :
    (xs : Limbs) (m c : ℕ)
    → value (mul_limbs xs m c).0 + weight xs * (mul_limbs xs m c).1 ≡ value xs * m + c
unfolding mul_limbs value weight
mul_limbs_lem [] m c = omega arith
mul_limbs_lem (x ∷ xs) m c = let t = mul_limbs_lem xs m ((x * m + c) / 2 ^ 64) in grind (arith, t)

-- One digit of a long division: the quotient digit fits the radix.
pub quotient_digit :
    (radix r x d : ℕ)
    → 0 < d
    → x < radix
    → r < d
    → ((r * radix + x) / d < radix)
      × ((r * radix + x) / d * d + (r * radix + x) % d ≡ r * radix + x)
quotient_digit radix r x d h k l =
    let le : (r + 1) * radix ≤ d * radix = grind arith in
    let lt : r * radix + x < radix * d = grind (arith, le) in
    ((div-lt_iff_lt-mul h).1 lt, div-add-mod' (r * radix + x) d)

div_limbs_lem :
    (xs : Limbs) (d : ℕ)
    → 0 < d
    → IsLimbs xs
    → (value (div_limbs xs d).0 * d + (div_limbs xs d).1 ≡ value xs)
      × ((div_limbs xs d).1 < d)
      × IsLimbs (div_limbs xs d).0
unfolding div_limbs value
div_limbs_lem [] d h k = (omega arith, h, tt)
div_limbs_lem (x ∷ xs) d h k =
    let (t, r, l) = div_limbs_lem xs d h k.1 in
    let (fits, exact) = quotient_digit (2 ^ 64) (div_limbs xs d).1 x d h k.0 r in
    let whole : ((div_limbs xs d).1 * 2 ^ 64 + x) / d % 2 ^ 64
        ≡ ((div_limbs xs d).1 * 2 ^ 64 + x) / d =
      omega (arith, fits) in
    (rw whole (grind (arith, t, exact)), mod-lt _ h, (omega arith, l))

mul_limbs-IsLimbs : (xs : Limbs) (m c : ℕ) → IsLimbs (mul_limbs xs m c).0
unfolding mul_limbs
mul_limbs-IsLimbs [] m c = tt
mul_limbs-IsLimbs (x ∷ xs) m c = (omega arith, mul_limbs-IsLimbs xs m ((x * m + c) / 2 ^ 64))

-- Four limbs of 64 bits.
pub record IsWork (a : Limbs) : Type 0 where
  pub four : length a ≡ 4
  pub limbs : IsLimbs a

pub weight_four : (a : Limbs) → length a ≡ 4 → weight a ≡ 2 ^ 256
unfolding weight
weight_four (x ∷ y ∷ z ∷ w ∷ []) h = refl
weight_four [] h = ground (arith, h)
weight_four (x ∷ []) h = ground (arith, h)
weight_four (x ∷ y ∷ []) h = ground (arith, h)
weight_four (x ∷ y ∷ z ∷ []) h = ground (arith, h)
weight_four (x ∷ y ∷ z ∷ w ∷ v ∷ l) h = ground (arith, h)

pub value_bound : (a : Limbs) → IsWork a → value a < 2 ^ 256
value_bound a h = omega (arith, value_lt a h.limbs, weight_four a h.four)

-- The arithmetic on natural numbers that the checked operations promise.
abbrev pub spec_add : ℕ → ℕ → Result ArithmeticError ℕ
spec_add a b = if ltb (a + b) (2 ^ 256) then ok (a + b) else err overflow

abbrev pub spec_sub : ℕ → ℕ → Result ArithmeticError ℕ
spec_sub a b = if ltb a b then err underflow else ok (a - b)

abbrev pub spec_mul : ℕ → ℕ → Result ArithmeticError ℕ
spec_mul a m = if ltb (a * m) (2 ^ 256) then ok (a * m) else err overflow

abbrev pub spec_div : ℕ → ℕ → Result ArithmeticError ℕ
spec_div a d = if d == 0 then err underflow else ok (a / d)

length-add_limbs :
    (xs ys : Limbs) (c : Bool) → length xs ≡ length ys → length (add_limbs xs ys c).0 ≡ length xs
unfolding add_limbs
length-add_limbs [] [] c e = refl
length-add_limbs [] (y ∷ ys) c e = ground (arith, e)
length-add_limbs (x ∷ xs) [] c e = ground (arith, e)
length-add_limbs (x ∷ xs) (y ∷ ys) c e =
    omega (arith, length-add_limbs xs ys (add_limb x y c).1 (omega (arith, e)))

length-sub_limbs :
    (xs ys : Limbs) (c : Bool) → length xs ≡ length ys → length (sub_limbs xs ys c).0 ≡ length xs
unfolding sub_limbs
length-sub_limbs [] [] c e = refl
length-sub_limbs [] (y ∷ ys) c e = ground (arith, e)
length-sub_limbs (x ∷ xs) [] c e = ground (arith, e)
length-sub_limbs (x ∷ xs) (y ∷ ys) c e =
    omega (arith, length-sub_limbs xs ys (sub_limb x y c).1 (omega (arith, e)))

length-mul_limbs : (xs : Limbs) (m c : ℕ) → length (mul_limbs xs m c).0 ≡ length xs
unfolding mul_limbs
length-mul_limbs [] m c = refl
length-mul_limbs (x ∷ xs) m c = omega (arith, length-mul_limbs xs m ((x * m + c) / 2 ^ 64))

length-div_limbs : (xs : Limbs) (d : ℕ) → length (div_limbs xs d).0 ≡ length xs
unfolding div_limbs
length-div_limbs [] d = refl
length-div_limbs (x ∷ xs) d = omega (arith, length-div_limbs xs d)

pub add_limbs-IsWork :
    (a b : Limbs)
    → IsWork a
    → IsWork b
    → (value (add_limbs a b false).0 + 2 ^ 256 * bool_u64 (add_limbs a b false).1
        ≡ value a + value b)
      × IsWork (add_limbs a b false).0
add_limbs-IsWork a b h k =
    let e = h.four ∙ sym k.four in
    let (sum, bound) = add_limbs_lem a b false e h.limbs k.limbs in
    (
      omega (arith, rw (weight_four a h.four) at sum),
      record { four = length-add_limbs a b false e ∙ h.four; limbs = bound },
    )

pub sub_limbs-IsWork :
    (a b : Limbs)
    → IsWork a
    → IsWork b
    → (value (sub_limbs a b false).0 + value b
        ≡ value a + 2 ^ 256 * bool_u64 (sub_limbs a b false).1)
      × IsWork (sub_limbs a b false).0
sub_limbs-IsWork a b h k =
    let e = h.four ∙ sym k.four in
    let (sum, bound) = sub_limbs_lem a b false e h.limbs k.limbs in
    (
      omega (arith, rw (weight_four a h.four) at sum),
      record { four = length-sub_limbs a b false e ∙ h.four; limbs = bound },
    )

pub mul_limbs-IsWork :
    (a : Limbs) (m : ℕ)
    → IsWork a
    → (value (mul_limbs a m 0).0 + 2 ^ 256 * (mul_limbs a m 0).1 ≡ value a * m)
      × IsWork (mul_limbs a m 0).0
mul_limbs-IsWork a m h =
    let sum = mul_limbs_lem a m 0 in
    (
      omega (arith, rw (weight_four a h.four) at sum),
      record { four = length-mul_limbs a m 0 ∙ h.four; limbs = mul_limbs-IsLimbs a m 0 },
    )

pub div_limbs-IsWork :
    (a : Limbs) (d : ℕ)
    → 0 < d
    → IsWork a
    → (value (div_limbs a d).0 ≡ value a / d) × IsWork (div_limbs a d).0
div_limbs-IsWork a d h w =
    let (exact, r, l) = div_limbs_lem a d h w.limbs in
    (
      sym (div-eq_of_lt-le d (omega (arith, exact)) (grind (arith, exact, r))),
      record { four = length-div_limbs a d ∙ w.four; limbs = l },
    )

add_refines :
    (a b : Limbs)
    → IsWork a
    → IsWork b
    → map_ok value (checked_add_work a b) ≡ spec_add (value a) (value b)
unfolding checked_add_work
add_refines a b h k =
    let (sum, w) = add_limbs-IsWork a b h k in
    let below = value_bound (add_limbs a b false).0 w in ground (arith, sum, below)

pub is_below_lem : (a b : Limbs) → IsWork a → IsWork b → is_below a b ≡ ltb (value a) (value b)
unfolding is_below
is_below_lem a b h k =
    rw (is_below, compare_limbs_lem a b (h.four ∙ sym k.four) h.limbs k.limbs) refl

sub_refines :
    (a b : Limbs)
    → IsWork a
    → IsWork b
    → map_ok value (checked_sub_work a b) ≡ spec_sub (value a) (value b)
unfolding checked_sub_work
sub_refines a b h k =
    let (sum, w) = sub_limbs-IsWork a b h k in
    let below = value_bound (sub_limbs a b false).0 w in
    rw (is_below_lem a b h k) (ground (arith, sum, below, value_bound b k))

mul_refines :
    (a : Limbs) (m : ℕ) → IsWork a → map_ok value (checked_mul_u64 a m) ≡ spec_mul (value a) m
unfolding checked_mul_u64
mul_refines a m h =
    let (sum, w) = mul_limbs-IsWork a m h in
    let below = value_bound (mul_limbs a m 0).0 w in ground (arith, sum, below)

div_refines :
    (a : Limbs) (d : ℕ) → IsWork a → map_ok value (checked_div_u64 a d) ≡ spec_div (value a) d
unfolding checked_div_u64
div_refines a zero h = refl
div_refines a (suc d) h =
    let (exact, _) = div_limbs-IsWork a (suc d) (omega arith) h in
    let nonzero : (suc d == 0) ≡ false = ground arith in rw (nonzero, exact) refl

-- On four limbs of 64 bits the checked operations are those of the natural numbers below 2^256: a sum or product of
-- 2^256 or more is an overflow, a difference below zero and a division by zero an underflow, and every other result is exact.
pub work_refines :
    (a b : Limbs) (m : ℕ)
    → IsWork a
    → IsWork b
    → (map_ok value (checked_add_work a b) ≡ spec_add (value a) (value b))
      × (map_ok value (checked_sub_work a b) ≡ spec_sub (value a) (value b))
      × (map_ok value (checked_mul_u64 a m) ≡ spec_mul (value a) m)
      × (map_ok value (checked_div_u64 a m) ≡ spec_div (value a) m)
work_refines a b m h k =
    (add_refines a b h k, sub_refines a b h k, mul_refines a m h, div_refines a m h)
