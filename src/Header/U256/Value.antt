-- ===== src/Header/U256/Value.antt =====
-- The byte loops of `U256` against the numbers that the bytes stand for.
use native.Mathlib.Nat.{pow-suc}
use hns_rs.Base.{
  ℕ, ◌+◌, ◌-◌, ◌*◌, ◌/◌, ◌%◌, ◌^◌, ◌≤◌, ◌<◌, ◌≡◌, inl, inr, refl, sym, ap, ◌∙◌, arith, Bool, false,
  Bool-cases, [], ◌∷◌, All, length, ltb, ltb→lt, ◌==◌, if◌then◌else◌, get_or,
}
use hns_rs.Base.Bytes.{Bytes, IsByte}
use hns_rs.Base.BigEndian.{from_be_bytes, from_be_bytes_lt, compare_bytes_lem}
use hns_rs.Header.U256.{is_less, add_bytes, sub_bytes, wrapping_sub, shift_bytes, shift_left_one}

-- Byte strings of a length: 32 for a `U256`.
pub record IsNumber (n : ℕ) (a : Bytes) : Type 0 where
  pub width : length a ≡ n
  pub bytes : All IsByte a

abbrev pub bit_nat : Bool → ℕ
bit_nat b = if b then 1 else 0

-- One byte in front of the bytes behind it: `w` is the weight of the byte, and `whole` that of the byte before.
add_step :
    (d c' a b c w w1 w2 whole low x y : ℕ)
    → low + w * c ≡ x + y
    → d + c' * 256 ≡ a + b + c
    → w1 ≡ w
    → w2 ≡ w
    → whole ≡ w * 256
    → d * w1 + low + whole * c' ≡ a * w + x + (b * w2 + y)
add_step d c' a b c w w1 w2 whole low x y s t e f g =
    let spread : d * w + c' * 256 * w ≡ a * w + b * w + c * w = grind (arith, ap (λ n. n * w) t) in
    rw (e, f, g) (grind (arith, s, spread))

sub_step :
    (d c' a b c w w1 w2 whole low x y : ℕ)
    → low + y ≡ x + w * c
    → d + b + c ≡ a + c' * 256
    → w1 ≡ w
    → w2 ≡ w
    → whole ≡ w * 256
    → d * w1 + low + (b * w2 + y) ≡ a * w + x + whole * c'
sub_step d c' a b c w w1 w2 whole low x y s t e f g =
    let spread : d * w + b * w + c * w ≡ a * w + c' * 256 * w = grind (arith, ap (λ n. n * w) t) in
    rw (e, f, g) (grind (arith, s, spread))

pub le_of_ltb : (a b : ℕ) → ltb a b ≡ false → b ≤ a
le_of_ltb a b h = ground (arith, h)

add_bytes_lem :
    (xs ys : Bytes)
    → length xs ≡ length ys
    → All IsByte xs
    → All IsByte ys
    → (from_be_bytes (add_bytes xs ys).0 + 256 ^ length xs * (add_bytes xs ys).1
        ≡ from_be_bytes xs + from_be_bytes ys)
      × ((add_bytes xs ys).1 ≤ 1)
      × (length (add_bytes xs ys).0 ≡ length xs)
      × All IsByte (add_bytes xs ys).0
unfolding add_bytes from_be_bytes
add_bytes_lem [] [] e h k = (omega arith, omega arith, refl, tt)
add_bytes_lem [] (y ∷ ys) e h k = ground (arith, e)
add_bytes_lem (x ∷ xs) [] e h k = ground (arith, e)
add_bytes_lem (x ∷ xs) (y ∷ ys) e h k =
    let same : length xs ≡ length ys = omega (arith, e) in
    let (s, c, l, b) = add_bytes_lem xs ys same h.1 k.1 in
    (
      add_step _ _ x y (add_bytes xs ys).1 (256 ^ length xs) (256 ^ length (add_bytes xs ys).0)
          (256 ^ length ys) _ _ _ _ s (omega arith) (ap (λ n. 256 ^ n) l)
          (ap (λ n. 256 ^ n) (sym same)) (pow-suc 256 (length xs)),
      omega (arith, c, h.0, k.0),
      omega (arith, l),
      (omega arith, b),
    )

sub_bytes_lem :
    (xs ys : Bytes)
    → length xs ≡ length ys
    → All IsByte xs
    → All IsByte ys
    → (from_be_bytes (sub_bytes xs ys).0 + from_be_bytes ys
        ≡ from_be_bytes xs + 256 ^ length xs * (sub_bytes xs ys).1)
      × ((sub_bytes xs ys).1 ≤ 1)
      × (length (sub_bytes xs ys).0 ≡ length xs)
      × All IsByte (sub_bytes xs ys).0
unfolding sub_bytes from_be_bytes
sub_bytes_lem [] [] e h k = (omega arith, omega arith, refl, tt)
sub_bytes_lem [] (y ∷ ys) e h k = ground (arith, e)
sub_bytes_lem (x ∷ xs) [] e h k = ground (arith, e)
sub_bytes_lem (x ∷ xs) (y ∷ ys) e h k =
    let same : length xs ≡ length ys = omega (arith, e) in
    let (s, c, l, b) = sub_bytes_lem xs ys same h.1 k.1 in
    let taken = y + (sub_bytes xs ys).1 in
    let weights = ap (λ n. 256 ^ n) l in
    let weights' = ap (λ n. 256 ^ n) (sym same) in
    elim (Bool-cases (ltb x taken)) [
      | inl borrow ↦
          let under = ltb→lt x taken borrow in
          rw borrow (
            sub_step (x + 256 - taken) 1 x y (sub_bytes xs ys).1 (256 ^ length xs)
                (256 ^ length (sub_bytes xs ys).0) (256 ^ length ys) _ _ _ _ s
                (omega (arith, under, c, k.0)) weights weights' (pow-suc 256 (length xs)),
            omega arith,
            omega (arith, l),
            (omega (arith, under), b),
          )
      | inr fits ↦
          let over = le_of_ltb x taken fits in
          rw fits (
            sub_step (x - taken) 0 x y (sub_bytes xs ys).1 (256 ^ length xs)
                (256 ^ length (sub_bytes xs ys).0) (256 ^ length ys) _ _ _ _ s (omega (arith, over))
                weights weights' (pow-suc 256 (length xs)),
            omega arith,
            omega (arith, l),
            (omega (arith, h.0), b),
          )
    ]

shift_bytes_lem :
    (xs : Bytes)
    → All IsByte xs
    → (from_be_bytes (shift_bytes xs).0 + 256 ^ length xs * (shift_bytes xs).1
        ≡ from_be_bytes xs + from_be_bytes xs)
      × ((shift_bytes xs).1 ≤ 1)
      × (length (shift_bytes xs).0 ≡ length xs)
      × All IsByte (shift_bytes xs).0
unfolding shift_bytes from_be_bytes
shift_bytes_lem [] h = (omega arith, omega arith, refl, tt)
shift_bytes_lem (x ∷ xs) h =
    let (s, c, l, b) = shift_bytes_lem xs h.1 in
    (
      add_step _ _ x x (shift_bytes xs).1 (256 ^ length xs) (256 ^ length (shift_bytes xs).0)
          (256 ^ length xs) _ _ _ _ s (omega (arith, h.0)) (ap (λ n. 256 ^ n) l) refl
          (pow-suc 256 (length xs)),
      omega (arith, h.0),
      omega (arith, l),
      (omega (arith, c), b),
    )

-- The order of the bytes is that of the numbers.
pub is_less_lem :
    (n : ℕ) (a b : Bytes)
    → IsNumber n a
    → IsNumber n b
    → is_less a b ≡ ltb (from_be_bytes a) (from_be_bytes b)
unfolding is_less
is_less_lem n a b h k =
    rw (is_less, compare_bytes_lem a b (h.width ∙ sym k.width) h.bytes k.bytes) refl

pub number_lt : (a : Bytes) → IsNumber 32 a → from_be_bytes a < 2 ^ 256
number_lt a h = omega (arith, from_be_bytes_lt a h.bytes, ap (λ n. 256 ^ n) h.width)

pub add_bytes-IsNumber :
    (a b : Bytes)
    → IsNumber 32 a
    → IsNumber 32 b
    → (from_be_bytes (add_bytes a b).0 + 2 ^ 256 * (add_bytes a b).1
        ≡ from_be_bytes a + from_be_bytes b)
      × IsNumber 32 (add_bytes a b).0
add_bytes-IsNumber a b h k =
    let (s, _, l, bytes) = add_bytes_lem a b (h.width ∙ sym k.width) h.bytes k.bytes in
    (rw (ap (λ n. 256 ^ n) h.width) at s, record { width = l ∙ h.width; bytes = bytes })

pub wrapping_sub-IsNumber :
    (a b : Bytes)
    → IsNumber 32 a
    → IsNumber 32 b
    → (borrow : ℕ) × (borrow ≤ 1)
      × (from_be_bytes (wrapping_sub a b) + from_be_bytes b ≡ from_be_bytes a + 2 ^ 256 * borrow)
      × IsNumber 32 (wrapping_sub a b)
unfolding wrapping_sub
wrapping_sub-IsNumber a b h k =
    let (s, c, l, bytes) = sub_bytes_lem a b (h.width ∙ sym k.width) h.bytes k.bytes in
    (
      (sub_bytes a b).1,
      c,
      rw (ap (λ n. 256 ^ n) h.width) at s,
      record { width = l ∙ h.width; bytes = bytes },
    )

top_bit :
    (xs : Bytes)
    → All IsByte xs
    → 0 < length xs
    → bit_nat (get_or xs 0 0 / 0x80 % 2 == 1) ≡ (shift_bytes xs).1
unfolding shift_bytes
top_bit [] h k = ground (arith, k)
top_bit (x ∷ xs) h k = ground (arith, h.0)

pub shift_left_one-IsNumber :
    (a : Bytes)
    → IsNumber 32 a
    → (from_be_bytes (shift_left_one a).0 + 2 ^ 256 * bit_nat (shift_left_one a).1
        ≡ from_be_bytes a + from_be_bytes a)
      × IsNumber 32 (shift_left_one a).0
unfolding shift_left_one
shift_left_one-IsNumber a h =
    let (s, _, l, bytes) = shift_bytes_lem a h.bytes in
    let top = top_bit a h.bytes (omega (arith, h.width)) in
    (rw (ap (λ n. 256 ^ n) h.width, ← top) at s, record { width = l ∙ h.width; bytes = bytes })
