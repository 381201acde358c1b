-- ===== src/Primitives/Chainwork/Codec.antt =====
-- `Chainwork::from_be_bytes` and `to_be_bytes` against the numbers that the bytes and the limbs stand for.
use native.Mathlib.Nat.{pow-suc, div-div-eq-div-mul, div-eq_of_lt}
use hns_rs.Base.{
  ℕ, zero, suc, ◌+◌, ◌-◌, ◌*◌, ◌/◌, ◌%◌, ◌^◌, ◌≤◌, ◌<◌, ◌≡◌, refl, sym, ap, ◌∙◌, arith, [], ◌∷◌,
  ◌++◌, All, All-append, All-take, All-drop, length, take, drop, length-take, length-drop,
  length-append, take-append-drop,
}
use hns_rs.Base.Bytes.{Bytes, IsByte}
use hns_rs.Base.BigEndian.{from_be_bytes, to_be_bytes, from_be_bytes_lt, pow_add}
use hns_rs.Primitives.Chainwork.{Limbs, work_from_be_bytes, work_to_be_bytes}
use hns_rs.Primitives.Chainwork.Laws.{IsWork, IsLimbs, value}

from_be_bytes-append :
    (xs ys : Bytes)
    → from_be_bytes (xs ++ ys) ≡ from_be_bytes xs * 256 ^ length ys + from_be_bytes ys
unfolding from_be_bytes
from_be_bytes-append [] ys = omega arith
from_be_bytes-append (x ∷ xs) ys =
    let power : 256 ^ length (xs ++ ys) ≡ 256 ^ length xs * 256 ^ length ys =
      ap (λ n. 256 ^ n) (length-append xs ys) ∙ pow_add 256 (length xs) (length ys) in
    rw (power, from_be_bytes-append xs ys) (grind arith)

abbrev no_bytes : Bytes
no_bytes = []

drop_add : (m n : ℕ) (xs : Bytes) → drop (m + n) xs ≡ drop n (drop m xs)
drop_add zero n xs = ap (λ k. drop k xs) (start n)
  where
    start : (n : ℕ) → zero + n ≡ n
    start n = omega arith
drop_add (suc m) n [] = ap (λ k. drop k []) (next m n) ∙ sym (nothing n)
  where
    next : (m n : ℕ) → suc m + n ≡ suc (m + n)
    next m n = omega arith

    nothing : (n : ℕ) → drop n no_bytes ≡ no_bytes
    nothing zero = refl
    nothing (suc n) = refl
drop_add (suc m) n (x ∷ xs) = ap (λ k. drop k (x ∷ xs)) (next m n) ∙ drop_add m n xs
  where
    next : (m n : ℕ) → suc m + n ≡ suc (m + n)
    next m n = omega arith

-- Eight bytes off the front of a string are a limb.
limb_lem :
    (xs : Bytes)
    → All IsByte xs
    → 8 ≤ length xs
    → (from_be_bytes xs
        ≡ from_be_bytes (take 8 xs) * 256 ^ (length xs - 8) + from_be_bytes (drop 8 xs))
      × (from_be_bytes (take 8 xs) < 2 ^ 64)
      × (length (drop 8 xs) ≡ length xs - 8)
      × All IsByte (drop 8 xs)
limb_lem xs h k =
    let front : length (take 8 xs) ≡ 8 = omega (arith, length-take 8 xs, k) in
    (
      ap from_be_bytes (sym (take-append-drop 8 xs))
          ∙ from_be_bytes-append (take 8 xs) (drop 8 xs)
          ∙ ap (λ n. from_be_bytes (take 8 xs) * 256 ^ n + from_be_bytes (drop 8 xs))
              (length-drop 8 xs),
      omega (arith, from_be_bytes_lt (take 8 xs) (All-take IsByte 8 xs h), ap (λ n. 256 ^ n) front),
      length-drop 8 xs,
      All-drop IsByte 8 xs h,
    )

-- The limbs of 32 bytes stand for the number that the bytes stand for.
pub value-work_from_be_bytes :
    (xs : Bytes)
    → length xs ≡ 32
    → All IsByte xs
    → (value (work_from_be_bytes xs) ≡ from_be_bytes xs) × IsWork (work_from_be_bytes xs)
unfolding work_from_be_bytes value from_be_bytes
value-work_from_be_bytes xs width h =
    let (v0, l0, w0, b0) = limb_lem xs h (omega (arith, width)) in
    let (v1, l1, w1, b1) = limb_lem (drop 8 xs) b0 (omega (arith, width, w0)) in
    let (v2, l2, w2, b2) = limb_lem (drop 8 (drop 8 xs)) b1 (omega (arith, width, w0, w1)) in
    let (v3, l3, w3, b3) =
      limb_lem (drop 8 (drop 8 (drop 8 xs))) b2 (omega (arith, width, w0, w1, w2)) in
    let at16 : drop 16 xs ≡ drop 8 (drop 8 xs) = drop_add 8 8 xs in
    let at24 : drop 24 xs ≡ drop 8 (drop 8 (drop 8 xs)) = drop_add 16 8 xs ∙ ap (drop 8) at16 in
    let n0 : length xs ≡ 32 = omega (arith, width) in
    let p0 : 256 ^ (length xs - 8) ≡ 256 ^ 24 = ap (λ n. 256 ^ (n - 8)) n0 in
    let n1 : length (drop 8 xs) ≡ 24 = omega (arith, w0, width) in
    let p1 : 256 ^ (length (drop 8 xs) - 8) ≡ 256 ^ 16 = ap (λ n. 256 ^ (n - 8)) n1 in
    let n2 : length (drop 8 (drop 8 xs)) ≡ 16 = omega (arith, w1, w0, width) in
    let p2 : 256 ^ (length (drop 8 (drop 8 xs)) - 8) ≡ 256 ^ 8 = ap (λ n. 256 ^ (n - 8)) n2 in
    let n3 : length (drop 8 (drop 8 (drop 8 xs))) ≡ 8 = omega (arith, w2, w1, w0, width) in
    let p3 : 256 ^ (length (drop 8 (drop 8 (drop 8 xs))) - 8) ≡ 256 ^ 0 =
      ap (λ n. 256 ^ (n - 8)) n3 in
    let rest : length (drop 8 (drop 8 (drop 8 (drop 8 xs)))) ≡ 0 =
      omega (arith, w3, w2, w1, w0, width) in
    let nothing = nothing_lem _ rest in
    (
      omega (
        arith,
        v0,
        v1,
        v2,
        v3,
        nothing,
        ap from_be_bytes (ap (take 8) at16),
        ap from_be_bytes (ap (take 8) at24),
        ap (λ n. from_be_bytes (take 8 xs) * n) p0,
        ap (λ n. from_be_bytes (take 8 (drop 8 xs)) * n) p1,
        ap (λ n. from_be_bytes (take 8 (drop 8 (drop 8 xs))) * n) p2,
        ap (λ n. from_be_bytes (take 8 (drop 8 (drop 8 (drop 8 xs)))) * n) p3,
      ),
      record { four = refl; limbs = (rw at24 l3, (rw at16 l2, (l1, (l0, tt)))) },
    )
  where
    nothing_lem : (xs : Bytes) → length xs ≡ 0 → from_be_bytes xs ≡ 0
    nothing_lem [] h = refl
    nothing_lem (x ∷ xs) h = ground (arith, h)

-- The low digits of a number, in as many bytes as asked for.
pub to_be_bytes_lem :
    (n v : ℕ)
    → (v / 256 ^ n * 256 ^ n + from_be_bytes (to_be_bytes n v) ≡ v)
      × (length (to_be_bytes n v) ≡ n)
      × All IsByte (to_be_bytes n v)
unfolding from_be_bytes
to_be_bytes_lem zero v = (omega arith, refl, tt)
to_be_bytes_lem (suc n) v =
    let (ih, l, b) = to_be_bytes_lem n v in
    let q = v / 256 ^ n in
    let whole : v / 256 ^ suc n ≡ q / 256 =
      ap (λ (k : ℕ). v / k) (pow-suc 256 n) ∙ sym (div-div-eq-div-mul v (256 ^ n) 256) in
    let split : q ≡ q / 256 * 256 + q % 256 = omega arith in
    (
      rw (l, whole, pow-suc 256 n) (grind (arith, ih, ap (λ k. k * 256 ^ n) split)),
      ap suc l,
      (omega arith, b),
    )

pub from_be_bytes-to_be_bytes : (n v : ℕ) → v < 256 ^ n → from_be_bytes (to_be_bytes n v) ≡ v
from_be_bytes-to_be_bytes n v h =
    let none_above : v / 256 ^ n ≡ 0 = div-eq_of_lt h in
    omega (arith, (to_be_bytes_lem n v).0, ap (λ k. k * 256 ^ n) none_above)

-- The bytes of limbs stand for the number that the limbs stand for.
pub work_to_be_bytes_lem :
    (a : Limbs)
    → IsLimbs a
    → (from_be_bytes (work_to_be_bytes a) ≡ value a)
      × (length (work_to_be_bytes a) ≡ 8 * length a)
      × All IsByte (work_to_be_bytes a)
unfolding work_to_be_bytes value from_be_bytes
work_to_be_bytes_lem [] h = (refl, refl, tt)
work_to_be_bytes_lem (a ∷ xs) h =
    let (v, l, b) = work_to_be_bytes_lem xs h.1 in
    let (_, width, low) = to_be_bytes_lem 8 a in
    (
      from_be_bytes-append (work_to_be_bytes xs) (to_be_bytes 8 a)
          ∙ omega (arith, v, from_be_bytes-to_be_bytes 8 a h.0),
      length-append (work_to_be_bytes xs) (to_be_bytes 8 a) ∙ omega (arith, l, width),
      All-append IsByte (work_to_be_bytes xs) (to_be_bytes 8 a) b low,
    )
