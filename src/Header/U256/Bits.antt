-- ===== src/Header/U256/Bits.antt =====
-- Setting a clear bit of a big-endian number adds its power of two.
use native.Mathlib.Nat.{mul-add-div_right, div-eq_of_lt, div-div-eq-div-mul}
use hns_rs.Base.{
  subst, ℕ, zero, suc, ◌+◌, ◌-◌, ◌*◌, ◌/◌, ◌%◌, ◌^◌, ◌<◌, ◌≡◌, refl, sym, ap, ◌∙◌, arith, [], ◌∷◌,
  All, length,
}
use hns_rs.Base.Bytes.{Bytes, IsByte}
use hns_rs.Base.BigEndian.{from_be_bytes, from_be_bytes_lt, pow_pos, pow_add, pow_256}
use hns_rs.Header.U256.{set_at, set_bit, or_bit}
use hns_rs.Header.U256.Value.{IsNumber}

below_byte : (k x : ℕ) → k < 8 → x < 256 → x / 2 ^ k % 2 ≡ 0 → x + 2 ^ k < 256
below_byte zero x h b c = omega (arith, c)
below_byte (suc zero) x h b c = omega (arith, c)
below_byte (suc (suc zero)) x h b c = omega (arith, c)
below_byte (suc (suc (suc zero))) x h b c = omega (arith, c)
below_byte (suc (suc (suc (suc zero)))) x h b c = omega (arith, c)
below_byte (suc (suc (suc (suc (suc zero))))) x h b c = omega (arith, c)
below_byte (suc (suc (suc (suc (suc (suc zero)))))) x h b c = omega (arith, c)
below_byte (suc (suc (suc (suc (suc (suc (suc zero))))))) x h b c = omega (arith, c)
below_byte (suc (suc (suc (suc (suc (suc (suc (suc k)))))))) x h b c = absurd (omega (arith, h))

or_bit_clear : (k x : ℕ) → x / 2 ^ k % 2 ≡ 0 → or_bit k x ≡ x + 2 ^ k
or_bit_clear k x c = rw c refl

bit_weight : (bit : ℕ) → 2 ^ bit ≡ 256 ^ (bit / 8) * 2 ^ (bit % 8)
bit_weight bit =
    let split : bit ≡ 8 * (bit / 8) + bit % 8 = omega arith in
    ap (λ e. 2 ^ e) split
    ∙ pow_add 2 (8 * (bit / 8)) (bit % 8)
    ∙ ap (λ w. w * 2 ^ (bit % 8)) (sym (pow_256 (bit / 8)))

-- A bit of the first byte is a bit of the number.
first_byte : (x v w p : ℕ) → 0 < w → v < w → (x * w + v) / (w * p) ≡ x / p
first_byte x v w p h k =
    sym (div-div-eq-div-mul (x * w + v) w p)
    ∙ ap (λ n. n / p) (mul-add-div_right h x v ∙ omega (arith, div-eq_of_lt k))

-- A bit behind the first byte is a bit of the number behind it.
later_byte : (x v p t : ℕ) → 0 < p → (x * (p * 2 * t) + v) / p % 2 ≡ v / p % 2
later_byte x v p t h =
    let shape : x * (p * 2 * t) + v ≡ (2 * (x * t)) * p + v = grind arith in
    rw shape (omega (arith, mul-add-div_right h (2 * (x * t)) v))

set_at_lem :
    (xs : Bytes) (index bit : ℕ)
    → bit / 8 + index + 1 ≡ length xs
    → All IsByte xs
    → from_be_bytes xs / 2 ^ bit % 2 ≡ 0
    → (from_be_bytes (set_at index (bit % 8) xs) ≡ from_be_bytes xs + 2 ^ bit)
      × (length (set_at index (bit % 8) xs) ≡ length xs)
      × All IsByte (set_at index (bit % 8) xs)
unfolding set_at from_be_bytes
set_at_lem [] index bit e h c = ground (arith, e)
set_at_lem (x ∷ xs) zero bit e h c =
    let w = 256 ^ length xs in
    let here : bit / 8 ≡ length xs = omega (arith, e) in
    let weight : 2 ^ bit ≡ w * 2 ^ (bit % 8) =
      bit_weight bit ∙ ap (λ n. 256 ^ n * 2 ^ (bit % 8)) here in
    let clear : x / 2 ^ (bit % 8) % 2 ≡ 0 =
      ap (λ n. n % 2)
        (sym (
          first_byte x (from_be_bytes xs) w (2 ^ (bit % 8)) (pow_pos 256 (length xs) (omega arith))
            (from_be_bytes_lt xs h.1)))
      ∙ ap (λ n. (x * w + from_be_bytes xs) / n % 2) (sym weight)
      ∙ c in
    let added = or_bit_clear (bit % 8) x clear in
    let sum : (x + 2 ^ (bit % 8)) * w + from_be_bytes xs ≡ x * w + from_be_bytes xs + 2 ^ bit =
      rw weight (grind arith) in
    (
      ap (λ n. n * w + from_be_bytes xs) added ∙ sum,
      refl,
      (subst IsByte (sym added) (below_byte (bit % 8) x (omega arith) h.0 clear), h.1),
    )
set_at_lem (x ∷ xs) (suc index) bit e h c =
    let t = 2 ^ (8 * length xs - bit - 1) in
    let split : 8 * length xs ≡ bit + 1 + (8 * length xs - bit - 1) = omega (arith, e) in
    let weight : 256 ^ length xs ≡ 2 ^ bit * 2 * t =
      pow_256 (length xs)
      ∙ ap (λ n. 2 ^ n) split
      ∙ pow_add 2 (bit + 1) (8 * length xs - bit - 1)
      ∙ ap (λ n. n * t) (pow_add 2 bit 1) in
    let clear : from_be_bytes xs / 2 ^ bit % 2 ≡ 0 =
      sym (later_byte x (from_be_bytes xs) (2 ^ bit) t (pow_pos 2 bit (omega arith)))
      ∙ ap (λ n. (x * n + from_be_bytes xs) / 2 ^ bit % 2) (sym weight)
      ∙ c in
    let (v, l, b) = set_at_lem xs index bit (omega (arith, e)) h.1 clear in
    (
      ap (λ n. x * 256 ^ n + from_be_bytes (set_at index (bit % 8) xs)) l ∙ omega (arith, v),
      omega (arith, l),
      (h.0, b),
    )

pub set_bit_lem :
    (bit : ℕ) (a : Bytes)
    → bit < 256
    → IsNumber 32 a
    → from_be_bytes a / 2 ^ bit % 2 ≡ 0
    → (from_be_bytes (set_bit bit a) ≡ from_be_bytes a + 2 ^ bit) × IsNumber 32 (set_bit bit a)
unfolding set_bit
set_bit_lem bit a h k c =
    let (v, l, b) = set_at_lem a (31 - bit / 8) bit (omega (arith, k.width)) k.bytes c in
    (v, record { width = l ∙ k.width; bytes = b })
