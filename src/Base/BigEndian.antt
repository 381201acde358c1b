-- ===== src/Base/BigEndian.antt =====
-- Byte strings as big-endian numbers, and powers of two.
use Prim.Native.Nat.{ℕ, zero, suc, ◌+◌, ◌*◌, ◌/◌, ◌%◌, ◌^◌, ◌≤◌, ◌<◌, Ordering, compare}
use mathlib.Core.Path.{◌≡◌, refl, ap, ◌∙◌, sym}
use mathlib.Core.Logic.{◌⊎◌, inl, inr}
use mathlib.Core.List.{[], ◌∷◌}
use native.Mathlib.Omega.{arith}
use native.Mathlib.Nat.{pow-zero, pow-suc}
use hns_rs.Base.Lists.{length, All}
use hns_rs.Base.Bytes.{Bytes, IsByte}

abbrev pub to_be_bytes : ℕ → ℕ → Bytes
to_be_bytes zero v = []
to_be_bytes (suc n) v = (v / 256 ^ n % 256) ∷ to_be_bytes n v

unfoldable pub from_be_bytes : Bytes → ℕ
from_be_bytes [] = 0
from_be_bytes (b ∷ bs) = b * 256 ^ length bs + from_be_bytes bs

pub pow_pos : (k n : ℕ) → 0 < k → 0 < k ^ n
pow_pos k zero h = omega (arith, pow-zero k)
pow_pos k (suc n) h = let ih = pow_pos k n h in grind (arith, ih, pow-suc k n)

mul_shift : (p q r k : ℕ) → p ≡ q * r → p * k ≡ q * k * r
mul_shift p q r k h = rw h (grind arith)

pub pow_add : (k m n : ℕ) → k ^ (m + n) ≡ k ^ m * k ^ n
pow_add k zero n =
    let start : zero + n ≡ n = omega arith in
    ap (λ e. k ^ e) start ∙ omega (arith, pow-zero k, ap (λ e. e * k ^ n) (pow-zero k))
pow_add k (suc m) n =
    let shift : suc m + n ≡ suc (m + n) = omega arith in
    let step : k ^ (suc m + n) ≡ k ^ (m + n) * k = ap (λ e. k ^ e) shift ∙ pow-suc k (m + n) in
    step
    ∙ mul_shift (k ^ (m + n)) (k ^ m) (k ^ n) k (pow_add k m n)
    ∙ ap (λ e. e * k ^ n) (sym (pow-suc k m))

pub pow_256 : (n : ℕ) → 256 ^ n ≡ 2 ^ (8 * n)
pow_256 zero = refl
pow_256 (suc n) =
    omega (arith, pow-suc 256 n, pow_256 n, ap (λ e. 2 ^ e) (towards n), pow_add 2 8 (8 * n))
  where
    towards : (n : ℕ) → 8 * suc n ≡ 8 + 8 * n
    towards n = omega arith

pub from_be_bytes_lt : (bs : Bytes) → All IsByte bs → from_be_bytes bs < 256 ^ length bs
unfolding from_be_bytes
from_be_bytes_lt [] h = omega arith
from_be_bytes_lt (b ∷ bs) h =
    let ih = from_be_bytes_lt bs h.1 in grind (arith, ih, h.0, pow-suc 256 (length bs))

-- `Ordering::then`
abbrev pub then_compare : Ordering → Ordering → Ordering
then_compare Ordering.eq low = low
then_compare Ordering.lt low = Ordering.lt
then_compare Ordering.gt low = Ordering.gt

-- The lexicographic order of two arrays.
unfoldable pub compare_bytes : Bytes → Bytes → Ordering
compare_bytes (x ∷ xs) (y ∷ ys) = then_compare (compare x y) (compare_bytes xs ys)
compare_bytes xs ys = Ordering.eq

digit_gap : (x y w : ℕ) → x < y → x * w + w ≤ y * w
digit_gap x y w h = grind arith

lt_cases : (x y : ℕ) → (x < y) ⊎ (x ≡ y) ⊎ (y < x)
lt_cases x y = ground arith

high_digit :
    (x y w u v : ℕ)
    → u < w
    → v < w
    → then_compare (compare x y) (compare u v) ≡ compare (x * w + u) (y * w + v)
high_digit x y w u v h k = elim (lt_cases x y) [
  | inl less ↦ ground (arith, digit_gap x y w less)
  | inr (inl same) ↦ rw same (ground arith)
  | inr (inr more) ↦ ground (arith, digit_gap y x w more)
]

pub compare_bytes_lem :
    (xs ys : Bytes)
    → length xs ≡ length ys
    → All IsByte xs
    → All IsByte ys
    → compare_bytes xs ys ≡ compare (from_be_bytes xs) (from_be_bytes ys)
unfolding compare_bytes from_be_bytes
compare_bytes_lem [] [] e h k = refl
compare_bytes_lem [] (y ∷ ys) e h k = ground (arith, e)
compare_bytes_lem (x ∷ xs) [] e h k = ground (arith, e)
compare_bytes_lem (x ∷ xs) (y ∷ ys) e h k =
    let same : length xs ≡ length ys = omega (arith, e) in
    let ih = compare_bytes_lem xs ys same h.1 k.1 in
    let bx = from_be_bytes_lt xs h.1 in
    let by = from_be_bytes_lt ys k.1 in
    rw (← same, ih)
      (high_digit x y (256 ^ length xs) (from_be_bytes xs) (from_be_bytes ys) bx
        (rw (← same) at by))

digit_unique : (x y w u v : ℕ) → u < w → v < w → x * w + u ≡ y * w + v → (x ≡ y) × (u ≡ v)
digit_unique x y w u v h k e = elim (lt_cases x y) [
  | inl less ↦ absurd (omega (arith, digit_gap x y w less, e))
  | inr (inl same) ↦ (same, omega (arith, e, ap (λ n. n * w) same))
  | inr (inr more) ↦ absurd (omega (arith, digit_gap y x w more, e))
]

pub from_be_bytes_injective :
    (xs ys : Bytes)
    → length xs ≡ length ys
    → All IsByte xs
    → All IsByte ys
    → from_be_bytes xs ≡ from_be_bytes ys
    → xs ≡ ys
unfolding from_be_bytes
from_be_bytes_injective [] [] l h k e = refl
from_be_bytes_injective [] (y ∷ ys) l h k e = ground (arith, l)
from_be_bytes_injective (x ∷ xs) [] l h k e = ground (arith, l)
from_be_bytes_injective (x ∷ xs) (y ∷ ys) l h k e =
    let same : length xs ≡ length ys = omega (arith, l) in
    let weights : y * 256 ^ length ys + from_be_bytes ys ≡ y * 256 ^ length xs + from_be_bytes ys =
      ap (λ n. y * 256 ^ n + from_be_bytes ys) (sym same) in
    let bound : from_be_bytes ys < 256 ^ length xs =
      omega (arith, from_be_bytes_lt ys k.1, ap (λ n. 256 ^ n) same) in
    let (p, q) =
      digit_unique x y (256 ^ length xs) _ _ (from_be_bytes_lt xs h.1) bound (e ∙ weights) in
    let tails = from_be_bytes_injective xs ys same h.1 k.1 q in cc
