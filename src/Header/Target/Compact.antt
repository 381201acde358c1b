-- ===== src/Header/Target/Compact.antt =====
-- What number a compact target stands for, and when it is too large.
use hns_rs.Base.{
  ℕ, zero, suc, ◌+◌, ◌-◌, ◌*◌, ◌/◌, ◌%◌, ◌^◌, ◌≤◌, ◌<◌, ◌≡◌, ◌≢◌, ◌⊎◌, inl, inr, refl, sym, ap,
  subst, ◌∙◌, arith, Bool, true, false, not, ◌||◌, ◌&&◌, Bool-cases, [], ◌∷◌, ◌++◌, All, length,
  get_or, ltb, leb, ◌==◌, if◌then◌else◌, ◌|>◌,
}
use native.Mathlib.Nat.{pow-le-pow_right}
use hns_rs.Base.Bytes.{Bytes, IsByte, zeros}
use hns_rs.Base.BigEndian.{from_be_bytes, to_be_bytes, pow_add, pow_pos}
use hns_rs.Header.U256.Value.{IsNumber}
use hns_rs.Header.Target.{DecodedTarget, put_at, place_byte, place_mantissa, from_compact}

put_at_lem :
    (xs : Bytes) (i b : ℕ)
    → i < length xs
    → b < 256
    → All IsByte xs
    → get_or xs i 0 ≡ 0
    → (from_be_bytes (put_at i b xs) ≡ from_be_bytes xs + b * 256 ^ (length xs - 1 - i))
      × (length (put_at i b xs) ≡ length xs)
      × All IsByte (put_at i b xs)
unfolding put_at from_be_bytes
put_at_lem [] i b h c k z = absurd (omega (arith, h))
put_at_lem (x ∷ xs) zero b h c k z =
    let start : length (x ∷ xs) - 1 - 0 ≡ length xs = omega arith in
    let weight : b * 256 ^ (length (x ∷ xs) - 1 - 0) ≡ b * 256 ^ length xs =
      ap (λ n. b * 256 ^ n) start in
    (omega (arith, weight, z, ap (λ n. n * 256 ^ length xs) z), refl, (c, k.1))
put_at_lem (x ∷ xs) (suc i) b h c k z =
    let (v, l, bytes) = put_at_lem xs i b (omega (arith, h)) c k.1 z in
    let next : length (x ∷ xs) - 1 - suc i ≡ length xs - 1 - i = omega arith in
    (
      omega (arith, v, ap (λ n. b * 256 ^ n) next, ap (λ n. x * 256 ^ n) l),
      omega (arith, l),
      (k.0, bytes),
    )

get_or-put_at : (xs : Bytes) (i j b : ℕ) → j ≢ i → get_or (put_at i b xs) j 0 ≡ get_or xs j 0
unfolding put_at
get_or-put_at [] i j b h = refl
get_or-put_at (x ∷ xs) zero zero b h = absurd (h refl)
get_or-put_at (x ∷ xs) zero (suc j) b h = refl
get_or-put_at (x ∷ xs) (suc i) zero b h = refl
get_or-put_at (x ∷ xs) (suc i) (suc j) b h = get_or-put_at xs i j b (λ e. h (ap suc e))

-- A byte whose position is inside is put there, and one outside only counts as an overflow.
place_inside :
    (exponent offset byte : ℕ) (bytes : Bytes) (overflow : Bool)
    → exponent ≤ 32 + offset
    → 32 + offset - exponent < 32
    → place_byte exponent offset byte (bytes, overflow)
      ≡ (put_at (32 + offset - exponent) byte bytes, overflow)
unfolding place_byte
place_inside exponent offset byte bytes overflow h k =
    let test : (ltb (32 + offset) exponent || leb 32 (32 + offset - exponent)) ≡ false =
      ground (arith, h, k) in
    rw test refl

place_outside :
    (exponent offset byte : ℕ) (bytes : Bytes) (overflow : Bool)
    → 32 + offset < exponent
    → place_byte exponent offset byte (bytes, overflow) ≡ (bytes, overflow || not (byte == 0))
unfolding place_byte
place_outside exponent offset byte bytes overflow h =
    let test : (ltb (32 + offset) exponent || leb 32 (32 + offset - exponent)) ≡ true =
      ground (arith, h) in
    rw test refl

get_or-zeros : (i : ℕ) → get_or (zeros 32) i 0 ≡ 0
get_or-zeros i = go 32 i
  where
    go : (n i : ℕ) → get_or (zeros n) i 0 ≡ 0
    go zero i = refl
    go (suc n) zero = refl
    go (suc n) (suc i) = go n i

zeros-IsNumber : IsNumber 32 (zeros 32)
zeros-IsNumber = record { width = refl; bytes = omega arith }

value_zeros : from_be_bytes (zeros 32) ≡ 0
unfolding from_be_bytes
value_zeros = refl

-- One more byte placed inside a number of 32 bytes.
place_lem :
    (exponent offset byte : ℕ) (bytes : Bytes) (overflow : Bool)
    → exponent ≤ 32 + offset
    → 32 + offset - exponent < 32
    → byte < 256
    → IsNumber 32 bytes
    → get_or bytes (32 + offset - exponent) 0 ≡ 0
    → (out : Bytes) × (place_byte exponent offset byte (bytes, overflow) ≡ (out, overflow))
      × IsNumber 32 out
      × (from_be_bytes out ≡ from_be_bytes bytes + byte * 256 ^ (exponent - 1 - offset))
      × (out ≡ put_at (32 + offset - exponent) byte bytes)
place_lem exponent offset byte bytes overflow h k b n z =
    let (v, l, all) =
      put_at_lem bytes (32 + offset - exponent) byte (omega (arith, n.width, k)) b n.bytes z in
    let power : length bytes - 1 - (32 + offset - exponent) ≡ exponent - 1 - offset =
      omega (arith, n.width, h, k) in
    (
      put_at (32 + offset - exponent) byte bytes,
      place_inside exponent offset byte bytes overflow h k,
      record { width = l ∙ n.width; bytes = all },
      v ∙ ap (λ e. from_be_bytes bytes + byte * 256 ^ e) power,
      refl,
    )

abbrev Placed : ℕ → ℕ → Bytes × Bool → Type 0
Placed exponent mantissa (bytes, overflow) =
    IsNumber 32 bytes
    × ((overflow ≡ false) × (from_be_bytes bytes ≡ mantissa * 256 ^ (exponent - 3))
        ⊎ (overflow ≡ true) × (2 ^ 256 ≤ mantissa * 256 ^ (exponent - 3)))

abbrev three : ℕ → ℕ → ℕ → ℕ → Bytes × Bool
three exponent b0 b1 b2 =
    (zeros 32, false)
    |> place_byte exponent 0 b0
    |> place_byte exponent 1 b1
    |> place_byte exponent 2 b2

weights :
    (e b0 b1 b2 : ℕ)
    → 3 ≤ e
    → b0 * 256 ^ (e - 1 - 0) + b1 * 256 ^ (e - 1 - 1) + b2 * 256 ^ (e - 1 - 2)
      ≡ (b0 * 65536 + b1 * 256 + b2) * 256 ^ (e - 3)
weights e b0 b1 b2 h =
    let p0 : 256 ^ (e - 1 - 0) ≡ 65536 * 256 ^ (e - 3) =
      ap (λ n. 256 ^ n) (at (e - 1 - 0) 2 (omega (arith, h))) ∙ pow_add 256 2 (e - 3) in
    let p1 : 256 ^ (e - 1 - 1) ≡ 256 * 256 ^ (e - 3) =
      ap (λ n. 256 ^ n) (at (e - 1 - 1) 1 (omega (arith, h))) ∙ pow_add 256 1 (e - 3) in
    let p2 : 256 ^ (e - 1 - 2) ≡ 256 ^ (e - 3) =
      ap (λ n. 256 ^ n) (at (e - 1 - 2) 0 (omega (arith, h)) ∙ zero_plus (e - 3)) in
    rw (p0, p1, p2) (grind arith)
  where
    at : (m k : ℕ) → m ≡ k + (e - 3) → m ≡ k + (e - 3)
    at m k q = q

    zero_plus : (n : ℕ) → 0 + n ≡ n
    zero_plus n = omega arith

at_least : (m w : ℕ) → 1 ≤ m → w ≤ m * w
at_least m w h = grind arith

inside-Placed :
    (e b0 b1 b2 : ℕ)
    → b0 < 256
    → b1 < 256
    → b2 < 256
    → 3 < e
    → e ≤ 32
    → Placed e (b0 * 65536 + b1 * 256 + b2) (three e b0 b1 b2)
inside-Placed e b0 b1 b2 h0 h1 h2 low high =
    let (o0, s0, n0, v0, r0) =
      place_lem e 0 b0 (zeros 32) false (omega (arith, high)) (omega (arith, low)) h0 zeros-IsNumber
        (get_or-zeros (32 + 0 - e)) in
    let z1 : get_or o0 (32 + 1 - e) 0 ≡ 0 =
      ap (λ l. get_or l (32 + 1 - e) 0) r0
      ∙ get_or-put_at (zeros 32) (32 + 0 - e) (32 + 1 - e) b0 (omega (arith, high))
      ∙ get_or-zeros (32 + 1 - e) in
    let (o1, s1, n1, v1, r1) =
      place_lem e 1 b1 o0 false (omega (arith, high)) (omega (arith, low)) h1 n0 z1 in
    let z2 : get_or o1 (32 + 2 - e) 0 ≡ 0 =
      ap (λ l. get_or l (32 + 2 - e) 0) r1
      ∙ get_or-put_at o0 (32 + 1 - e) (32 + 2 - e) b1 (omega (arith, high))
      ∙ ap (λ l. get_or l (32 + 2 - e) 0) r0
      ∙ get_or-put_at (zeros 32) (32 + 0 - e) (32 + 2 - e) b0 (omega (arith, high))
      ∙ get_or-zeros (32 + 2 - e) in
    let (o2, s2, n2, v2, _) =
      place_lem e 2 b2 o1 false (omega (arith, high)) (omega (arith, low)) h2 n1 z2 in
    let run : three e b0 b1 b2 ≡ (o2, false) =
      ap (λ s. s |> place_byte e 1 b1 |> place_byte e 2 b2) s0 ∙ ap (place_byte e 2 b2) s1 ∙ s2 in
    rw run (
      n2,
      inl (refl, omega (arith, v0, v1, v2, value_zeros, weights e b0 b1 b2 (omega (arith, low)))),
    )

at_33-Placed :
    (b0 b1 b2 : ℕ)
    → b0 < 256
    → b1 < 256
    → b2 < 256
    → Placed 33 (b0 * 65536 + b1 * 256 + b2) (three 33 b0 b1 b2)
at_33-Placed b0 b1 b2 h0 h1 h2 =
    let over = not (b0 == 0) in
    let s0 = place_outside 33 0 b0 (zeros 32) false (omega arith) in
    let (o1, s1, n1, v1, r1) =
      place_lem 33 1 b1 (zeros 32) over (omega arith) (omega arith) h1 zeros-IsNumber
        (get_or-zeros 0) in
    let z2 : get_or o1 1 0 ≡ 0 =
      ap (λ l. get_or l 1 0) r1 ∙ get_or-put_at (zeros 32) 0 1 b1 (omega arith) ∙ get_or-zeros 1 in
    let (o2, s2, n2, v2, _) = place_lem 33 2 b2 o1 over (omega arith) (omega arith) h2 n1 z2 in
    let run : three 33 b0 b1 b2 ≡ (o2, over) =
      ap (λ s. s |> place_byte 33 1 b1 |> place_byte 33 2 b2) s0
      ∙ ap (place_byte 33 2 b2) s1
      ∙ s2 in
    rw run (n2, ground (arith, v1, v2, value_zeros))

at_34-Placed :
    (b0 b1 b2 : ℕ)
    → b0 < 256
    → b1 < 256
    → b2 < 256
    → Placed 34 (b0 * 65536 + b1 * 256 + b2) (three 34 b0 b1 b2)
at_34-Placed b0 b1 b2 h0 h1 h2 =
    let over0 = not (b0 == 0) in
    let over = over0 || not (b1 == 0) in
    let s0 = place_outside 34 0 b0 (zeros 32) false (omega arith) in
    let s1 = place_outside 34 1 b1 (zeros 32) over0 (omega arith) in
    let (o2, s2, n2, v2, _) =
      place_lem 34 2 b2 (zeros 32) over (omega arith) (omega arith) h2 zeros-IsNumber
        (get_or-zeros 0) in
    let run : three 34 b0 b1 b2 ≡ (o2, over) =
      ap (λ s. s |> place_byte 34 1 b1 |> place_byte 34 2 b2) s0
      ∙ ap (place_byte 34 2 b2) s1
      ∙ s2 in
    rw run (n2, ground (arith, v2, value_zeros))

beyond-Placed : (e b0 b1 b2 : ℕ) → 34 < e → Placed e (b0 * 65536 + b1 * 256 + b2) (three e b0 b1 b2)
beyond-Placed e b0 b1 b2 h =
    let over0 = not (b0 == 0) in
    let over1 = over0 || not (b1 == 0) in
    let over = over1 || not (b2 == 0) in
    let s0 = place_outside e 0 b0 (zeros 32) false (omega (arith, h)) in
    let s1 = place_outside e 1 b1 (zeros 32) over0 (omega (arith, h)) in
    let s2 = place_outside e 2 b2 (zeros 32) over1 (omega (arith, h)) in
    let run : three e b0 b1 b2 ≡ (zeros 32, over) =
      ap (λ s. s |> place_byte e 1 b1 |> place_byte e 2 b2) s0 ∙ ap (place_byte e 2 b2) s1 ∙ s2 in
    let huge : 256 ^ 32 ≤ 256 ^ (e - 3) =
      pow-le-pow_right {n = 256} (omega arith) {i = 32} {j = e - 3} (omega (arith, h)) in
    rw run (
      zeros-IsNumber,
      elim (Bool-cases over) [
        | inl flagged ↦
            let some_byte : 1 ≤ b0 * 65536 + b1 * 256 + b2 = ground (arith, flagged) in
            inr (flagged, omega (arith, at_least _ (256 ^ (e - 3)) some_byte, huge))
        | inr clear ↦
            let no_byte : b0 * 65536 + b1 * 256 + b2 ≡ 0 = ground (arith, clear) in
            inl (clear, omega (arith, value_zeros, ap (λ n. n * 256 ^ (e - 3)) no_byte))
      ],
    )

-- The number that a compact target stands for: its mantissa, moved by whole bytes.
unfoldable pub compact_value : ℕ → ℕ
compact_value bits =
    if leb (bits / 2 ^ 24) 3
    then bits % 0x0080_0000 / 2 ^ (8 * (3 - bits / 2 ^ 24))
    else bits % 0x0080_0000 * 256 ^ (bits / 2 ^ 24 - 3)

place_mantissa_lem : (e m : ℕ) → 3 < e → m < 2 ^ 24 → Placed e m (place_mantissa e m)
unfolding place_mantissa
place_mantissa_lem e m low h =
    let b0 = m / 2 ^ 16 % 256 in
    let b1 = m / 2 ^ 8 % 256 in
    let b2 = m % 256 in
    let whole : b0 * 65536 + b1 * 256 + b2 ≡ m = omega (arith, h) in
    let placed : Placed e (b0 * 65536 + b1 * 256 + b2) (three e b0 b1 b2) = elim (split e) [
      | inl small ↦ inside-Placed e b0 b1 b2 (omega arith) (omega arith) (omega arith) low small
      | inr (inl is_33) ↦ rw is_33 (at_33-Placed b0 b1 b2 (omega arith) (omega arith) (omega arith))
      | inr (inr (inl is_34)) ↦
          rw is_34 (at_34-Placed b0 b1 b2 (omega arith) (omega arith) (omega arith))
      | inr (inr (inr big)) ↦ beyond-Placed e b0 b1 b2 big
    ] in
    subst (λ n. Placed e n (three e b0 b1 b2)) whole placed
  where
    split : (e : ℕ) → (e ≤ 32) ⊎ (e ≡ 33) ⊎ (e ≡ 34) ⊎ (34 < e)
    split e = ground arith

low_bytes :
    (v : ℕ)
    → v < 2 ^ 24
    → (from_be_bytes (zeros 29 ++ to_be_bytes 3 v) ≡ v) × IsNumber 32 (zeros 29 ++ to_be_bytes 3 v)
unfolding from_be_bytes
low_bytes v h = (omega (arith, h), record { width = refl; bytes = omega arith })

-- What a decoded target says of a number.
abbrev pub Stands : ℕ → DecodedTarget → Type 0
Stands v t =
    IsNumber 32 t.bytes
    × ((t.overflow ≡ false) × (from_be_bytes t.bytes ≡ v) ⊎ (t.overflow ≡ true) × (2 ^ 256 ≤ v))

mantissa_lt : (bits : ℕ) → bits % 0x0080_0000 < 2 ^ 24
mantissa_lt bits = omega arith

small_mantissa_lt : (bits k : ℕ) → bits % 0x0080_0000 / 2 ^ k < 2 ^ 24
small_mantissa_lt bits k = grind (arith, mantissa_lt bits, pow_pos 2 k (omega arith))

compact_zero : (bits : ℕ) → bits ≡ 0 → compact_value bits ≡ 0
unfolding compact_value
compact_zero bits h = rw h refl

compact_low :
    (bits : ℕ)
    → bits / 2 ^ 24 ≤ 3
    → compact_value bits ≡ bits % 0x0080_0000 / 2 ^ (8 * (3 - bits / 2 ^ 24))
unfolding compact_value
compact_low bits h = ground (arith, h)

compact_high :
    (bits : ℕ)
    → 3 < bits / 2 ^ 24
    → compact_value bits ≡ bits % 0x0080_0000 * 256 ^ (bits / 2 ^ 24 - 3)
unfolding compact_value
compact_high bits h = ground (arith, h)

-- The sign of a compact target is the bit under its mantissa, save in the target 0.
unfoldable pub compact_sign : ℕ → Bool
compact_sign bits = not (bits == 0) && bits / 0x0080_0000 % 2 == 1

-- Decoding a compact target always gives 32 bytes and the bit of the sign. Either no overflow is reported and the bytes
-- are, big-endian, exactly the number that the compact target stands for, or an overflow is reported and that number is
-- 2^256 or more.
pub from_compact_exact :
    (bits : ℕ)
    → Stands (compact_value bits) (from_compact bits)
      × ((from_compact bits).negative ≡ compact_sign bits)
unfolding from_compact compact_sign
from_compact_exact bits = elim (cases bits) [
  | inl nothing ↦
      rw nothing ((zeros-IsNumber, inl (refl, value_zeros ∙ sym (compact_zero 0 refl))), refl)
  | inr (inl (some_bits, low)) ↦
      let (v, n) = low_bytes _ (small_mantissa_lt bits (8 * (3 - bits / 2 ^ 24))) in
      let test : (bits == 0) ≡ false = ground (arith, some_bits) in
      let size : leb (bits / 2 ^ 24) 3 ≡ true = ground (arith, low) in
      rw (test, size) ((n, inl (refl, v ∙ sym (compact_low bits low))), refl)
  | inr (inr (some_bits, high)) ↦
      let test : (bits == 0) ≡ false = ground (arith, some_bits) in
      let size : leb (bits / 2 ^ 24) 3 ≡ false = ground (arith, high) in
      let (n, v) =
        place_mantissa_lem (bits / 2 ^ 24) (bits % 0x0080_0000) high (mantissa_lt bits) in
      rw (test, size, compact_high bits high) ((n, v), refl)
]
  where
    cases :
        (bits : ℕ)
        → (bits ≡ 0) ⊎ (bits ≢ 0) × (bits / 2 ^ 24 ≤ 3) ⊎ (bits ≢ 0) × (3 < bits / 2 ^ 24)
    cases bits = ground arith
