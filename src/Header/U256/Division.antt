-- ===== src/Header/U256/Division.antt =====
-- The long division of 2^256 is exact division.
use native.Mathlib.Nat.{
  pow-suc, div-eq_of_lt-le, div-add-mod', mul-add-div_right, mul-add-mod_self_right, zero-mod,
  zero-div, add-mod_right,
}
use hns_rs.Base.{
  ℕ, zero, suc, ◌+◌, ◌*◌, ◌/◌, ◌%◌, ◌^◌, ◌≤◌, ◌<◌, ◌≡◌, ◌⊎◌, inl, inr, refl, sym, ap, ◌∙◌, arith,
  Bool, true, false, Bool-cases, ltb, lt→ltb, ltb→lt, ◌==◌, ◌||◌, if◌then◌else◌, some, none,
}
use hns_rs.Base.Bytes.{Bytes}
use hns_rs.Base.BigEndian.{from_be_bytes, pow_pos}
use hns_rs.Header.U256.{
  is_less, wrapping_sub, shift_left_one, set_bit, divide_round, divide_rounds, divide_two_to_256,
  shift_bytes, set_at, zero_u256, one_u256,
}
use hns_rs.Header.U256.Value.{
  IsNumber, bit_nat, is_less_lem, number_lt, wrapping_sub-IsNumber, shift_left_one-IsNumber,
  le_of_ltb,
}
use hns_rs.Header.U256.Bits.{set_bit_lem}

-- Before the rounds for the bits below `bits`: what is left of 2^256 is the remainder at these bits, and the
-- quotient has none of them yet.
pub record IsPartial (divisor : Bytes) (bits : ℕ) (remainder quotient : Bytes) : Type 0 where
  pub remainder_number : IsNumber 32 remainder
  pub quotient_number : IsNumber 32 quotient
  pub small : from_be_bytes remainder < from_be_bytes divisor
  pub whole :
      from_be_bytes quotient * from_be_bytes divisor + from_be_bytes remainder * 2 ^ bits ≡ 2 ^ 256
  pub aligned : from_be_bytes quotient % 2 ^ bits ≡ 0

-- The new remainder and whether the divisor was taken off, as numbers.
subtracted :
    (divisor dividend : Bytes) (high : Bool) (r : ℕ)
    → IsNumber 32 divisor
    → IsNumber 32 dividend
    → r < from_be_bytes divisor
    → from_be_bytes dividend + 2 ^ 256 * bit_nat high ≡ r + r
    → (high || (if is_less dividend divisor then false else true)) ≡ true
    → (from_be_bytes (wrapping_sub dividend divisor) + from_be_bytes divisor ≡ r + r)
      × IsNumber 32 (wrapping_sub dividend divisor)
subtracted divisor dividend high r hd hv small twice test =
    let (borrow, one, sum, number) = wrapping_sub-IsNumber dividend divisor hv hd in
    let less = is_less_lem 32 dividend divisor hv hd in
    (
      ground (
        arith,
        test,
        less,
        sum,
        one,
        twice,
        small,
        number_lt (wrapping_sub dividend divisor) number,
        number_lt divisor hd,
      ),
      number,
    )

not_subtracted :
    (divisor dividend : Bytes) (high : Bool) (r : ℕ)
    → IsNumber 32 divisor
    → IsNumber 32 dividend
    → from_be_bytes dividend + 2 ^ 256 * bit_nat high ≡ r + r
    → (high || (if is_less dividend divisor then false else true)) ≡ false
    → (from_be_bytes dividend ≡ r + r) × (from_be_bytes dividend < from_be_bytes divisor)
not_subtracted divisor dividend high r hd hv twice test =
    let less = is_less_lem 32 dividend divisor hv hd in ground (arith, test, less, twice)

-- The identities of a round over plain numbers: `p` is the power of two of the bit.
taken_round :
    (q d r r' p : ℕ)
    → q * d + r * (p * 2) ≡ 2 ^ 256
    → r' + d ≡ r + r
    → (q + p) * d + r' * p ≡ 2 ^ 256
taken_round q d r r' p h e =
    let scaled : r' * p + d * p ≡ r * p + r * p = grind (arith, ap (λ n. n * p) e) in
    grind (arith, h, scaled)

kept_round :
    (q d r r' p : ℕ) → q * d + r * (p * 2) ≡ 2 ^ 256 → r' ≡ r + r → q * d + r' * p ≡ 2 ^ 256
kept_round q d r r' p h e = rw e (grind (arith, h))

-- A multiple of twice a power has the bit of that power clear, and stays a multiple of the power when it is set.
aligned_bit :
    (q p : ℕ) → 0 < p → q % (p * 2) ≡ 0 → (q / p % 2 ≡ 0) × (q % p ≡ 0) × ((q + p) % p ≡ 0)
aligned_bit q p h a =
    let exact : q / (p * 2) * (p * 2) + q % (p * 2) ≡ q = div-add-mod' q (p * 2) in
    let shape : q ≡ (2 * (q / (p * 2))) * p + 0 = grind (arith, exact, a) in
    let bit : q / p ≡ 2 * (q / (p * 2)) + 0 / p =
      ap (λ n. n / p) shape ∙ mul-add-div_right h (2 * (q / (p * 2))) 0 in
    let rest : q % p ≡ 0 =
      ap (λ n. n % p) shape ∙ mul-add-mod_self_right (2 * (q / (p * 2))) p 0 ∙ zero-mod p in
    (omega (arith, bit, zero-div p), rest, add-mod_right q p ∙ rest)

divide_round_lem :
    (divisor remainder quotient : Bytes) (bit : ℕ)
    → bit < 256
    → IsNumber 32 divisor
    → IsPartial divisor (suc bit) remainder quotient
    → IsPartial divisor bit
        (divide_round divisor bit (remainder, quotient)).0
        (divide_round divisor bit (remainder, quotient)).1
unfolding divide_round
divide_round_lem divisor remainder quotient bit h hd k =
    let (twice, number) = shift_left_one-IsNumber remainder k.remainder_number in
    let not_first : (bit == 256) ≡ false = ground (arith, h) in
    let counted : ltb bit 256 ≡ true = lt→ltb bit 256 h in
    let weight : 2 ^ suc bit ≡ 2 ^ bit * 2 = pow-suc 2 bit in
    let whole = rw weight at k.whole in
    let (clear, kept, set) =
      aligned_bit (from_be_bytes quotient) (2 ^ bit) (pow_pos 2 bit (omega arith))
        (rw weight at k.aligned) in
    let shifted = (shift_left_one remainder).0 in
    let high = (shift_left_one remainder).1 in
    rw not_first (elim (Bool-cases (high || (if is_less shifted divisor then false else true))) [
      | inl test ↦
          let (sum, reduced) =
            subtracted divisor shifted high (from_be_bytes remainder) hd number k.small twice
              test in
          let (added, wider) = set_bit_lem bit quotient h k.quotient_number clear in
          rw (test, counted)
            (record {
              remainder_number = reduced;
              quotient_number = wider;
              small = omega (arith, sum, k.small);
              whole = rw added (taken_round _ _ _ _ (2 ^ bit) whole sum);
              aligned = rw added set;
            })
      | inr test ↦
          let (same, small) =
            not_subtracted divisor shifted high (from_be_bytes remainder) hd number twice test in
          rw test (record {
            remainder_number = number;
            quotient_number = k.quotient_number;
            small = small;
            whole = kept_round _ _ _ _ (2 ^ bit) whole same;
            aligned = kept;
          })
    ])

divide_rounds_lem :
    (divisor : Bytes) (bits : ℕ) (remainder quotient : Bytes)
    → bits ≤ 256
    → IsNumber 32 divisor
    → IsPartial divisor bits remainder quotient
    → IsPartial divisor 0
        (divide_rounds divisor bits (remainder, quotient)).0
        (divide_rounds divisor bits (remainder, quotient)).1
unfolding divide_rounds
divide_rounds_lem divisor zero remainder quotient h hd k = k
divide_rounds_lem divisor (suc bit) remainder quotient h hd k =
    divide_rounds_lem divisor bit (divide_round divisor bit (remainder, quotient)).0
      (divide_round divisor bit (remainder, quotient)).1 (omega (arith, h)) hd
      (divide_round_lem divisor remainder quotient bit (omega (arith, h)) hd k)

pub one_u256-IsNumber : IsNumber 32 one_u256
one_u256-IsNumber = record { width = refl; bytes = omega arith }

pub zero_u256-IsNumber : IsNumber 32 zero_u256
zero_u256-IsNumber = record { width = refl; bytes = omega arith }

pub value_one : from_be_bytes one_u256 ≡ 1
unfolding from_be_bytes
value_one = refl

pub value_zero : from_be_bytes zero_u256 ≡ 0
unfolding from_be_bytes
value_zero = refl

-- The first round, at bit 256, only brings the one of 2^256 into the remainder.
first_round :
    (divisor : Bytes)
    → IsNumber 32 divisor
    → 1 < from_be_bytes divisor
    → divide_round divisor 256 (zero_u256, zero_u256) ≡ (one_u256, zero_u256)
unfolding divide_round shift_left_one shift_bytes set_bit set_at
first_round divisor hd big =
    let less : is_less one_u256 divisor ≡ true =
      is_less_lem 32 one_u256 divisor one_u256-IsNumber hd
      ∙ lt→ltb _ _ (omega (arith, value_one, big)) in
    rw less refl

open_rounds :
    (divisor : Bytes) (bit : ℕ) (state : Bytes × Bytes)
    → divide_rounds divisor (suc bit) state
      ≡ divide_rounds divisor bit (divide_round divisor bit state)
unfolding divide_rounds
open_rounds divisor bit state = refl

below_next : (q d r : ℕ) → q * d + r * 2 ^ 0 ≡ 2 ^ 256 → r < d → 2 ^ 256 < (q + 1) * d
below_next q d r h k = grind (arith, h, k)

-- The loop divides: for a divisor of two or more the result is 2^256 divided by it, rounded down, and there is
-- none for a smaller one.
pub divide_two_to_256_exact :
    (divisor : Bytes)
    → IsNumber 32 divisor
    → ((from_be_bytes divisor ≤ 1) × (divide_two_to_256 divisor ≡ none))
      ⊎ ((q : Bytes) × (divide_two_to_256 divisor ≡ some q)
          × IsNumber 32 q
          × (from_be_bytes q ≡ 2 ^ 256 / from_be_bytes divisor))
unfolding divide_two_to_256
divide_two_to_256_exact divisor hd =
    let less = is_less_lem 32 one_u256 divisor one_u256-IsNumber hd in
    elim (Bool-cases (is_less one_u256 divisor)) [
      | inl big ↦
          let two : 1 < from_be_bytes divisor =
            omega (arith, ltb→lt _ _ (sym less ∙ big), value_one) in
          let start : IsPartial divisor 256 one_u256 zero_u256 = record {
            remainder_number = one_u256-IsNumber;
            quotient_number = zero_u256-IsNumber;
            small = omega (arith, value_one, two);
            whole = rw (value_one, value_zero) (omega arith);
            aligned = rw value_zero refl;
          } in
          let end = divide_rounds_lem divisor 256 one_u256 zero_u256 (omega arith) hd start in
          let last : divide_rounds divisor 257 (zero_u256, zero_u256)
              ≡ divide_rounds divisor 256 (one_u256, zero_u256) =
            open_rounds divisor 256 (zero_u256, zero_u256)
            ∙ ap (divide_rounds divisor 256) (first_round divisor hd two) in
          inr (
            (divide_rounds divisor 256 (one_u256, zero_u256)).1,
            rw (big, last) refl,
            end.quotient_number,
            sym (
                div-eq_of_lt-le (from_be_bytes divisor) (omega (arith, end.whole))
                  (below_next _ _ _ end.whole end.small)),
          )
      | inr small ↦ inl (omega (arith, le_of_ltb _ _ (sym less ∙ small), value_one), rw small refl)
    ]
