-- ===== src/Header/Target/Rounding.antt =====
-- What `to_compact` keeps of a target.
use hns_rs.Base.{
  ℕ, suc, ◌+◌, ◌-◌, ◌/◌, ◌*◌, ◌%◌, ◌^◌, ◌≤◌, ◌<◌, ◌≡◌, inl, inr, refl, sym, ap, subst, ◌∙◌, arith,
  false, Bool-cases, [], ◌∷◌, All, length, get_or, leb, ◌==◌, if◌then◌else◌,
}
use native.Mathlib.Nat.{pow-suc}
use hns_rs.Base.Bytes.{Bytes, IsByte}
use hns_rs.Base.BigEndian.{from_be_bytes, from_be_bytes_lt}
use hns_rs.Header.U256.Value.{IsNumber}
use hns_rs.Header.Target.{DecodedTarget, from_first, fold_bytes, to_compact}
use hns_rs.Header.Target.Compact.{compact_value, compact_sign}

-- Digits with no zero byte in front.
abbrev Trimmed : Bytes → Type 0
Trimmed [] = Unit
Trimmed (b ∷ bs) = 0 < b

from_first_lem :
    (xs : Bytes)
    → All IsByte xs
    → (from_be_bytes (from_first xs) ≡ from_be_bytes xs)
      × All IsByte (from_first xs)
      × Trimmed (from_first xs)
      × (length (from_first xs) ≤ length xs)
unfolding from_first from_be_bytes
from_first_lem [] h = (refl, tt, tt, omega arith)
from_first_lem (b ∷ bs) h = elim (Bool-cases (b == 0)) [
  | inl nothing ↦
      let none_here : b ≡ 0 = ground (arith, nothing) in
      let (v, all, trimmed, l) = from_first_lem bs h.1 in
      rw nothing
        (omega (arith, v, ap (λ n. n * 256 ^ length bs) none_here), all, trimmed, omega (arith, l))
  | inr digit ↦
      let some_here : 0 < b = ground (arith, digit) in rw digit (refl, h, some_here, omega arith)
]

-- A compact number `c` stands for `v`, rounded down with a relative error of less than 2^-15, and has a clear sign.
abbrev pub Rounds : ℕ → ℕ → Type 0
Rounds c v =
    (compact_sign c ≡ false) × (compact_value c ≤ v) × (v * 2 ^ 15 ≤ compact_value c * (2 ^ 15 + 1))

-- The compact number of an exponent and a mantissa with a clear bit of the sign.
parts_sign : (e m : ℕ) → m < 2 ^ 23 → compact_sign (e * 2 ^ 24 + m) ≡ false
unfolding compact_sign
parts_sign e m h = ground (arith, h)

parts_low : (e m : ℕ) → e ≤ 3 → m < 2 ^ 23 → compact_value (e * 2 ^ 24 + m) ≡ m / 2 ^ (8 * (3 - e))
unfolding compact_value
parts_low e m k h =
    let exponent : (e * 2 ^ 24 + m) / 2 ^ 24 ≡ e = omega (arith, h) in
    let mantissa : (e * 2 ^ 24 + m) % 0x0080_0000 ≡ m = omega (arith, h) in
    rw (exponent, mantissa) (ground (arith, k))

parts_high : (e m : ℕ) → 3 < e → m < 2 ^ 23 → compact_value (e * 2 ^ 24 + m) ≡ m * 256 ^ (e - 3)
unfolding compact_value
parts_high e m k h =
    let exponent : (e * 2 ^ 24 + m) / 2 ^ 24 ≡ e = omega (arith, h) in
    let mantissa : (e * 2 ^ 24 + m) % 0x0080_0000 ≡ m = omega (arith, h) in
    rw (exponent, mantissa) (ground (arith, k))

-- The end of `to_compact`.
abbrev finish_compact : ℕ → ℕ → ℕ
finish_compact exponent mantissa =
    if mantissa / 0x0080_0000 % 2 == 1
    then (exponent + 1) * 2 ^ 24 + mantissa / 2 ^ 8
    else exponent * 2 ^ 24 + mantissa

-- Three bytes of mantissa in front of `rest`, at an exponent above three.
round_step :
    (m w rest : ℕ)
    → 2 ^ 15 ≤ m
    → rest < w
    → (m * w ≤ m * w + rest) × ((m * w + rest) * 2 ^ 15 ≤ m * w * (2 ^ 15 + 1))
round_step m w rest h r = (omega arith, grind arith)

finish_high :
    (e m rest : ℕ)
    → 3 < e
    → 2 ^ 16 ≤ m
    → m < 2 ^ 24
    → rest < 256 ^ (e - 3)
    → Rounds (finish_compact e m) (m * 256 ^ (e - 3) + rest)
finish_high e m rest low h k r = elim (Bool-cases (m / 0x0080_0000 % 2 == 1)) [
  | inl signed ↦
      let large : 2 ^ 15 ≤ m / 256 = ground (arith, signed, k, h) in
      let small : m / 256 < 2 ^ 23 = omega (arith, k) in
      let weight : 256 ^ (e + 1 - 3) ≡ 256 ^ (e - 3) * 256 =
        ap (λ n. 256 ^ n) (up e low) ∙ pow-suc 256 (e - 3) in
      let (p, q) =
        round_step (m / 256) (256 ^ (e - 3) * 256) (m % 256 * 256 ^ (e - 3) + rest) large
          (remainder m _ rest r) in
      let whole = total m (256 ^ (e - 3)) rest in
      rw (signed, parts_high (e + 1) (m / 256) (omega (arith, low)) small, weight, whole)
        (parts_sign (e + 1) (m / 256) small, p, q)
  | inr clear ↦
      let small : m < 2 ^ 23 = ground (arith, clear, k) in
      let (p, q) = round_step m (256 ^ (e - 3)) rest (omega (arith, h)) r in
      rw (clear, parts_high e m low small) (parts_sign e m small, p, q)
]
  where
    up : (e : ℕ) → 3 < e → e + 1 - 3 ≡ suc (e - 3)
    up e h = omega (arith, h)

    remainder : (m w rest : ℕ) → rest < w → m % 256 * w + rest < w * 256
    remainder m w rest h = let low : m % 256 < 256 = omega arith in grind arith

    total : (m w rest : ℕ) → m * w + rest ≡ m / 256 * (w * 256) + (m % 256 * w + rest)
    total m w rest =
        let split : m ≡ m / 256 * 256 + m % 256 = omega arith in
        grind (arith, ap (λ n. n * w) split)

exact-Rounds : (c v : ℕ) → compact_sign c ≡ false → compact_value c ≡ v → Rounds c v
exact-Rounds c v h k = (h, omega (arith, k), omega (arith, k))

-- A mantissa whose lowest byte is free, at an exponent of at most two.
finish_low :
    (e m v : ℕ)
    → e ≤ 2
    → m < 2 ^ 24
    → m / 2 ^ (8 * (3 - e)) ≡ v
    → m / 2 ^ 8 / 2 ^ (8 * (3 - (e + 1))) ≡ v
    → Rounds (finish_compact e m) v
finish_low e m v low k clear_case signed_case = elim (Bool-cases (m / 0x0080_0000 % 2 == 1)) [
  | inl signed ↦
      let small : m / 256 < 2 ^ 23 = omega (arith, k) in
      rw signed (
        exact-Rounds _ v (parts_sign (e + 1) (m / 256) small)
          (parts_low (e + 1) (m / 256) (omega (arith, low)) small ∙ signed_case))
  | inr clear ↦
      let small : m < 2 ^ 23 = ground (arith, clear, k) in
      rw clear (
        exact-Rounds _ v (parts_sign e m small)
          (parts_low e m (omega (arith, low)) small ∙ clear_case))
]

finish_three : (m : ℕ) → 2 ^ 16 ≤ m → m < 2 ^ 24 → Rounds (finish_compact 3 m) m
finish_three m h k = elim (Bool-cases (m / 0x0080_0000 % 2 == 1)) [
  | inl signed ↦
      let small : m / 256 < 2 ^ 23 = omega (arith, k) in
      let large : 2 ^ 23 ≤ m = ground (arith, signed, k) in
      rw (signed, parts_high 4 (m / 256) (omega arith) small)
        (parts_sign 4 (m / 256) small, omega arith, omega (arith, large))
  | inr clear ↦
      let small : m < 2 ^ 23 = ground (arith, clear, k) in
      rw clear
        (exact-Rounds _ m (parts_sign 3 m small) (parts_low 3 m (omega arith) small ∙ div_one m))
]
  where
    div_one : (m : ℕ) → m / 1 ≡ m
    div_one m = omega arith

abbrev compact_digits : Bytes → ℕ
compact_digits digits = finish_compact (length digits) (
    if leb (length digits) 3
    then fold_bytes 0 digits * 2 ^ (8 * (3 - length digits))
    else get_or digits 0 0 * 2 ^ 16 + get_or digits 1 0 * 2 ^ 8 + get_or digits 2 0)

three_bytes :
    (a b c : ℕ)
    → (((0 * 2 ^ 8 + a) * 2 ^ 8 + b) * 2 ^ 8 + c) * 1 ≡ a * 65536 + (b * 256 + (c * 1 + 0))
three_bytes a b c = omega arith

long_bytes :
    (a b c n e low : ℕ)
    → e - 3 ≡ suc n
    → (a * 2 ^ 16 + b * 2 ^ 8 + c) * 256 ^ (e - 3) + low
      ≡ a * 256 ^ suc (suc (suc n)) + (b * 256 ^ suc (suc n) + (c * 256 ^ suc n + low))
long_bytes a b c n e low h =
    let p1 = pow-suc 256 n in
    let p2 = pow-suc 256 (suc n) in
    let p3 = pow-suc 256 (suc (suc n)) in rw (h, p3, p2, p1) (grind arith)

nonempty : (ds : Bytes) → 0 < from_be_bytes ds → 0 < length ds
unfolding from_be_bytes
nonempty [] h = h
nonempty (d ∷ ds) h = omega arith

compact_digits_lem :
    (ds : Bytes)
    → All IsByte ds
    → Trimmed ds
    → 0 < length ds
    → Rounds (compact_digits ds) (from_be_bytes ds)
unfolding fold_bytes from_be_bytes
compact_digits_lem [] h t l = ground (arith, l)
compact_digits_lem (a ∷ []) h t l =
    finish_low 1 _ _ (omega arith) (omega (arith, h.0)) (omega (arith, h.0)) (omega (arith, h.0))
compact_digits_lem (a ∷ b ∷ []) h t l =
    finish_low 2 _ _ (omega arith) (omega (arith, h.0, h.1.0)) (omega (arith, h.0, h.1.0))
      (omega (arith, h.0, h.1.0))
compact_digits_lem (a ∷ b ∷ c ∷ []) h t l =
    subst (Rounds (compact_digits (a ∷ b ∷ c ∷ []))) (three_bytes a b c) (
      finish_three ((((0 * 2 ^ 8 + a) * 2 ^ 8 + b) * 2 ^ 8 + c) * 1) (omega (arith, t))
        (omega (arith, h.0, h.1.0, h.1.1.0)))
compact_digits_lem (a ∷ b ∷ c ∷ d ∷ r) h t l =
    let size : leb (length (a ∷ b ∷ c ∷ d ∷ r)) 3 ≡ false = ground arith in
    let below : d * 256 ^ length r + from_be_bytes r < 256 ^ (length (a ∷ b ∷ c ∷ d ∷ r) - 3) =
      omega (arith, from_be_bytes_lt (d ∷ r) (h.1.1.1), ap (λ n. 256 ^ n) (tail r)) in
    let rounded =
      finish_high (length (a ∷ b ∷ c ∷ d ∷ r)) (a * 2 ^ 16 + b * 2 ^ 8 + c)
        (d * 256 ^ length r + from_be_bytes r) (omega arith) (omega (arith, t))
        (omega (arith, h.0, h.1.0, h.1.1.0)) below in
    rw size (
      subst (Rounds (finish_compact (length (a ∷ b ∷ c ∷ d ∷ r)) (a * 2 ^ 16 + b * 2 ^ 8 + c)))
        (long_bytes a b c (length r) _ _ (sym (tail r))) rounded)
  where
    tail : (r : Bytes) → suc (length r) ≡ suc (suc (suc (suc (length r)))) - 3
    tail r = omega arith

-- The compact form of a positive target of 32 bytes has a clear sign and stands for the target rounded down, by less than one part
-- in 2^15.
pub to_compact-Rounds :
    (t : DecodedTarget)
    → IsNumber 32 t.bytes
    → 0 < from_be_bytes t.bytes
    → Rounds (to_compact t) (from_be_bytes t.bytes)
unfolding to_compact
to_compact-Rounds t n positive =
    let (v, all, trimmed, l) = from_first_lem t.bytes n.bytes in
    let some_digit : 0 < length (from_first t.bytes) =
      nonempty (from_first t.bytes) (omega (arith, v, positive)) in
    let test : (length (from_first t.bytes) == 0) ≡ false = ground (arith, some_digit) in
    rw test (
      subst (Rounds (compact_digits (from_first t.bytes))) v
        (compact_digits_lem (from_first t.bytes) all trimmed some_digit))
