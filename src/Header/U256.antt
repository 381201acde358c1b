-- ===== src/Header/U256.antt =====
-- crates/hns-header-consensus/src/lib.rs: `U256`, 32 bytes with the highest first. A loop over the indices from
-- the last byte on is a recursion that does the bytes behind before the byte.
pub mod Value
pub mod Bits
pub mod Division
pub mod Work
use hns_rs.Base.{
  ℕ, zero, suc, ◌+◌, ◌-◌, ◌*◌, ◌/◌, ◌%◌, ◌^◌, Bool, true, false, ◌||◌, List, [], ◌∷◌, ◌++◌, ltb,
  leb, ◌==◌, if◌then◌else◌, Option, some, none, get_or, replicate,
}
use hns_rs.Base.Bytes.{Bytes, zeros, bytes_eq}
use hns_rs.Base.BigEndian.{to_be_bytes, compare_bytes}
use Prim.Native.Nat.{Ordering}

unfoldable pub from_u64 : ℕ → Bytes
from_u64 value = zeros 24 ++ to_be_bytes 8 value

abbrev pub zero_u256 : Bytes
zero_u256 = zeros 32

abbrev pub one_u256 : Bytes
one_u256 = zeros 31 ++ (1 ∷ [])

-- The derived order of the arrays.
unfoldable pub is_less : Bytes → Bytes → Bool
is_less a b = elim (compare_bytes a b) [
  | Ordering.lt ↦ true
  | Ordering.eq ↦ false
  | Ordering.gt ↦ false
]

-- The bytes of the sum, and the carry out of the first.
unfoldable pub add_bytes : Bytes → Bytes → Bytes × ℕ
add_bytes (a ∷ xs) (b ∷ ys) =
    let low = add_bytes xs ys in let sum = a + b + low.1 in ((sum % 256) ∷ low.0, sum / 2 ^ 8)
add_bytes xs ys = ([], 0)

unfoldable pub checked_add_u256 : Bytes → Bytes → Option Bytes
checked_add_u256 a b = let sum = add_bytes a b in if sum.1 == 0 then some sum.0 else none

-- The difference of each round is signed: below zero it borrows 256.
unfoldable pub sub_bytes : Bytes → Bytes → Bytes × ℕ
sub_bytes (a ∷ xs) (b ∷ ys) =
    let low = sub_bytes xs ys in
    let taken = b + low.1 in
    if ltb a taken then ((a + 256 - taken) ∷ low.0, 1) else ((a - taken) ∷ low.0, 0)
sub_bytes xs ys = ([], 0)

unfoldable pub wrapping_sub : Bytes → Bytes → Bytes
wrapping_sub a b = (sub_bytes a b).0

unfoldable pub checked_sub_u256 : Bytes → Bytes → Option Bytes
checked_sub_u256 a b = if is_less a b then none else some (wrapping_sub a b)

-- `(byte << 1) | carry`, where the low bit of the shifted byte is clear.
unfoldable pub shift_bytes : Bytes → Bytes × ℕ
shift_bytes [] = ([], 0)
shift_bytes (a ∷ xs) = let low = shift_bytes xs in ((a * 2 % 256 + low.1) ∷ low.0, a / 2 ^ 7)

-- The shifted number, and whether its highest bit was set.
unfoldable pub shift_left_one : Bytes → Bytes × Bool
shift_left_one a = ((shift_bytes a).0, get_or a 0 0 / 0x80 % 2 == 1)

-- `byte |= 1 << k`
abbrev pub or_bit : ℕ → ℕ → ℕ
or_bit k byte = if byte / 2 ^ k % 2 == 1 then byte else byte + 2 ^ k

unfoldable pub set_at : ℕ → ℕ → Bytes → Bytes
set_at index k [] = []
set_at zero k (a ∷ xs) = or_bit k a ∷ xs
set_at (suc index) k (a ∷ xs) = a ∷ set_at index k xs

unfoldable pub set_bit : ℕ → Bytes → Bytes
set_bit bit a = set_at (31 - bit / 8) (bit % 8) a

-- One round of the division: the remainder and the quotient. `remainder.0[31] |= 1` sets bit 0.
unfoldable pub divide_round : Bytes → ℕ → Bytes × Bytes → Bytes × Bytes
divide_round divisor bit (remainder, quotient) =
    let shifted = shift_left_one remainder in
    let dividend = if bit == 256 then set_bit 0 shifted.0 else shifted.0 in
    let subtract = shifted.1 || (if is_less dividend divisor then false else true) in
    if subtract
    then (wrapping_sub dividend divisor, if ltb bit 256 then set_bit bit quotient else quotient)
    else (dividend, quotient)

-- `for bit in (0..count).rev()`
unfoldable pub divide_rounds : Bytes → ℕ → Bytes × Bytes → Bytes × Bytes
divide_rounds divisor zero state = state
divide_rounds divisor (suc bit) state = divide_rounds divisor bit (divide_round divisor bit state)

unfoldable pub divide_two_to_256 : Bytes → Option Bytes
divide_two_to_256 divisor =
    if is_less one_u256 divisor
    then some (divide_rounds divisor 257 (zero_u256, zero_u256)).1
    else none

unfoldable pub work_for_target : Bytes → Option Bytes
work_for_target target =
    if bytes_eq target zero_u256 then none else elim (checked_add_u256 target one_u256) [
      | none ↦ some one_u256
      | some divisor ↦ divide_two_to_256 divisor
    ]

unfoldable pub target_for_work : Bytes → Option Bytes
target_for_work work =
    if bytes_eq work zero_u256
    then none
    else if bytes_eq work one_u256
    then some (replicate 32 0xff)
    else elim (divide_two_to_256 work) [
      | none ↦ none
      | some quotient ↦ checked_sub_u256 quotient one_u256
    ]
