-- ===== src/Primitives/Chainwork.antt =====
-- crates/hns-primitives/src/lib.rs: checked amounts, and `Chainwork`, four little-endian limbs of 64 bits. A loop over
-- the indices of the limbs is a recursion on the list of limbs.
pub mod Laws
pub mod Codec
pub mod Cases
use hns_rs.Base.{
  ℕ, ◌+◌, ◌-◌, ◌*◌, ◌/◌, ◌%◌, ◌^◌, Bool, true, false, not, ◌||◌, List, [], ◌∷◌, ◌++◌, ltb, leb,
  ◌==◌, if◌then◌else◌, Option, some, none, Result, ok, err,
}
use Prim.Native.Nat.{Ordering, compare}
use hns_rs.Base.{slice, ◌++◌}
use hns_rs.Base.Bytes.{Bytes}
use hns_rs.Base.BigEndian.{from_be_bytes, to_be_bytes}

pub data ArithmeticError : Type 0 where
  overflow underflow : ArithmeticError

abbrev pub u64_modulus : ℕ
u64_modulus = 2 ^ 64

-- `Dollarydoos::checked_add` and `checked_sub`
unfoldable pub checked_add_amount : ℕ → ℕ → Result ArithmeticError ℕ
checked_add_amount a b = if ltb (a + b) u64_modulus then ok (a + b) else err overflow

unfoldable pub checked_sub_amount : ℕ → ℕ → Result ArithmeticError ℕ
checked_sub_amount a b = if ltb a b then err underflow else ok (a - b)

abbrev pub Limbs : Type 0
Limbs = List ℕ

-- `overflowing_add` and `overflowing_sub` of `u64`.
abbrev pub overflowing_add : ℕ → ℕ → ℕ × Bool
overflowing_add a b = ((a + b) % u64_modulus, leb u64_modulus (a + b))

abbrev pub overflowing_sub : ℕ → ℕ → ℕ × Bool
overflowing_sub a b = ((a + u64_modulus - b) % u64_modulus, ltb a b)

abbrev pub bool_u64 : Bool → ℕ
bool_u64 b = if b then 1 else 0

abbrev pub zero_limbs : Limbs
zero_limbs = 0 ∷ 0 ∷ 0 ∷ 0 ∷ []

-- One round of the loop of `checked_add`, and of `checked_sub`.
unfoldable pub add_limb : ℕ → ℕ → Bool → ℕ × Bool
add_limb a b carry =
    let first = overflowing_add a b in
    let second = overflowing_add first.0 (bool_u64 carry) in (second.0, first.1 || second.1)

unfoldable pub sub_limb : ℕ → ℕ → Bool → ℕ × Bool
sub_limb a b borrow =
    let first = overflowing_sub a b in
    let second = overflowing_sub first.0 (bool_u64 borrow) in (second.0, first.1 || second.1)

-- The rounds from a limb on: the limbs of the output and the last carry.
unfoldable pub add_limbs : Limbs → Limbs → Bool → Limbs × Bool
add_limbs (a ∷ xs) (b ∷ ys) carry =
    let here = add_limb a b carry in let rest = add_limbs xs ys here.1 in (here.0 ∷ rest.0, rest.1)
add_limbs xs ys carry = ([], carry)

unfoldable pub sub_limbs : Limbs → Limbs → Bool → Limbs × Bool
sub_limbs (a ∷ xs) (b ∷ ys) borrow =
    let here = sub_limb a b borrow in let rest = sub_limbs xs ys here.1 in (here.0 ∷ rest.0, rest.1)
sub_limbs xs ys borrow = ([], borrow)

unfoldable pub checked_add_work : Limbs → Limbs → Result ArithmeticError Limbs
checked_add_work a b = let sum = add_limbs a b false in if sum.1 then err overflow else ok sum.0

-- `cmp`: the highest limb that differs decides.
unfoldable pub compare_limbs : Limbs → Limbs → Ordering
compare_limbs (a ∷ xs) (b ∷ ys) = elim (compare_limbs xs ys) [
  | Ordering.eq ↦ compare a b
  | Ordering.lt ↦ Ordering.lt
  | Ordering.gt ↦ Ordering.gt
]
compare_limbs xs ys = Ordering.eq

unfoldable pub is_below : Limbs → Limbs → Bool
is_below a b = elim (compare_limbs a b) [
  | Ordering.lt ↦ true
  | Ordering.eq ↦ false
  | Ordering.gt ↦ false
]

unfoldable pub checked_sub_work : Limbs → Limbs → Result ArithmeticError Limbs
checked_sub_work a b = if is_below a b then err underflow else ok (sub_limbs a b false).0

-- The product and the carry fit a `u128`.
unfoldable pub mul_limbs : Limbs → ℕ → ℕ → Limbs × ℕ
mul_limbs [] multiplier carry = ([], carry)
mul_limbs (a ∷ xs) multiplier carry =
    let product = a * multiplier + carry in
    let rest = mul_limbs xs multiplier (product / 2 ^ 64) in ((product % 2 ^ 64) ∷ rest.0, rest.1)

unfoldable pub checked_mul_u64 : Limbs → ℕ → Result ArithmeticError Limbs
checked_mul_u64 a multiplier =
    let product = mul_limbs a multiplier 0 in if product.1 == 0 then ok product.0 else err overflow

-- `for index in (0..4).rev()`: the higher limbs are divided first. The remainder comes with the quotient.
unfoldable pub div_limbs : Limbs → ℕ → Limbs × ℕ
div_limbs [] divisor = ([], 0)
div_limbs (a ∷ xs) divisor =
    let high = div_limbs xs divisor in
    let dividend = high.1 * 2 ^ 64 + a in
    ((dividend / divisor % 2 ^ 64) ∷ high.0, dividend % divisor)

unfoldable pub checked_div_u64 : Limbs → ℕ → Result ArithmeticError Limbs
checked_div_u64 a divisor = if divisor == 0 then err underflow else ok (div_limbs a divisor).0

-- The eight-byte chunks, the highest limb first.
unfoldable pub work_from_be_bytes : Bytes → Limbs
work_from_be_bytes bytes =
    from_be_bytes (slice 24 32 bytes)
    ∷ from_be_bytes (slice 16 24 bytes)
    ∷ from_be_bytes (slice 8 16 bytes)
    ∷ from_be_bytes (slice 0 8 bytes)
    ∷ []

unfoldable pub work_to_be_bytes : Limbs → Bytes
work_to_be_bytes [] = []
work_to_be_bytes (a ∷ xs) = work_to_be_bytes xs ++ to_be_bytes 8 a
