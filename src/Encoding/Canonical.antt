-- ===== src/Encoding/Canonical.antt =====
-- What a successful read says of the bytes it has taken: only the canonical form of a compact size
-- is accepted.
use hns_rs.Base.{
  ℕ, ◌+◌, ◌-◌, ◌≤◌, ◌<◌, ◌^◌, ◌≡◌, refl, zero, suc, sym, ap, ◌∙◌, subst, List, [], ◌∷◌, ◌++◌, arith,
  length, length-drop, length-take, append_assoc, leb, ◌==◌, if◌then◌else◌, ok, inl, inr,
  Bool-cases, get_or, slice, drop, All, All-take, All-drop, take-append-drop,
}
use hns_rs.Base.Bytes.{
  IsByte, to_le_bytes, from_le_bytes, from_le_bytes_lt, to_le_bytes-from_le_bytes,
}
use native.Mathlib.Nat.{add-sub_cancel_left, suc-add}
use hns_rs.Encoding.Decoder.{
  Decoder, DecodeError, Parser, ◌>>=◌, pure, read_slice, read_array, read_u8, read_u16_le,
  read_u32_le, read_u64_le, compact_u16, compact_u32, compact_u64, read_compact_size,
}
use hns_rs.Encoding.Reads.{>>=-eq-ok}
use hns_rs.Encoding.Encoder.{new, put_compact_size}
use hns_rs.Encoding.RoundTrip.{compact_bytes, put_compact_size-bytes}

-- The decoder has moved over `xs` of the same input.
pub record Took (d d' : Decoder) (xs : List ℕ) : Type 0 where
  pub same : d'.input ≡ d.input
  pub split : drop d.position d.input ≡ xs ++ drop d'.position d.input

drop-drop {ℓ} : {A : Type ℓ} (m n : ℕ) (xs : List A) → drop n (drop m xs) ≡ drop (m + n) xs
drop-drop zero n xs = ap (λ k. drop k xs) (omega arith)
drop-drop (suc m) zero [] = rw (suc-add m 0)
drop-drop (suc m) (suc n) [] = rw (suc-add m (suc n))
drop-drop (suc m) n (x ∷ xs) = rw (suc-add m n) (drop-drop m n xs)

-- The bytes of a slice inside the input, with what follows.
slice-Took :
    (d : Decoder) (n : ℕ)
    → d.position + n ≤ length d.input
    → Took d (record d { position = d.position + n }) (slice d.position (d.position + n) d.input)
slice-Took d n h = record {
  same = refl;
  split =
      rw (add-sub_cancel_left d.position n, ← drop-drop d.position n d.input)
        (sym (take-append-drop n (drop d.position d.input)));
}

pub read_slice-Took :
    (n : ℕ) (d d' : Decoder) (xs : List ℕ)
    → read_slice n d ≡ ok (xs, d')
    → (d.position + n ≤ length d.input)
      × (xs ≡ slice d.position (d.position + n) d.input)
      × (d' ≡ record d { position = d.position + n })
unfolding read_slice
read_slice-Took n d d' xs h = ground arith

IsByte-slice : (from to : ℕ) (xs : List ℕ) → All IsByte xs → All IsByte (slice from to xs)
IsByte-slice from to xs h = All-take IsByte (to - from) (drop from xs) (All-drop IsByte from xs h)

length-slice :
    (from n : ℕ) (xs : List ℕ) → from + n ≤ length xs → length (slice from (from + n) xs) ≡ n
length-slice from n xs h =
    omega (arith, length-take (from + n - from) (drop from xs), length-drop from xs)

pub read_array-Took :
    (n : ℕ) (d d' : Decoder) (xs : List ℕ)
    → All IsByte d.input
    → read_array n d ≡ ok (xs, d')
    → Took d d' xs × (length xs ≡ n) × All IsByte xs
unfolding read_array
read_array-Took n d d' xs b h =
    let (le, ex, ed) = read_slice-Took n d d' xs h in
    rw (ex, ed)
      (slice-Took d n le, length-slice d.position n d.input le, IsByte-slice _ _ d.input b)

-- A little-endian integer stands in the input as `to_le_bytes` writes it.
read_le-Took :
    (n : ℕ) (d d' : Decoder) (v : ℕ)
    → All IsByte d.input
    → (read_array n >>= λ bytes. pure (from_le_bytes bytes)) d ≡ ok (v, d')
    → Took d d' (to_le_bytes n v) × (v < 256 ^ n)
read_le-Took n d d' v b h =
    let (xs, d1, e, e') = >>=-eq-ok (read_array n) _ d h in
    let (took, len, bs) = read_array-Took n d d1 xs b e in
    let ev : from_le_bytes xs ≡ v = cc in
    let ed : d1 ≡ d' = cc in
    rw (← ev, ← ed, ← len) (rw (to_le_bytes-from_le_bytes xs bs) took, from_le_bytes_lt xs bs)

singleton_lem : (xs : List ℕ) → length xs ≡ 1 → xs ≡ get_or xs 0 0 ∷ []
singleton_lem [] h = absurd (omega arith)
singleton_lem (x ∷ []) h = refl
singleton_lem (x ∷ y ∷ ys) h = absurd (omega arith)

read_u8-Took :
    (d d' : Decoder) (v : ℕ)
    → All IsByte d.input
    → read_u8 d ≡ ok (v, d')
    → Took d d' (v ∷ []) × (v < 256)
unfolding read_u8
read_u8-Took d d' v b h =
    let (xs, d1, e, e') = >>=-eq-ok (read_array 1) _ d h in
    let (took, len, bs) = read_array-Took 1 d d1 xs b e in
    let ev : get_or xs 0 0 ≡ v = cc in
    let ed : d1 ≡ d' = cc in
    let one : xs ≡ v ∷ [] = singleton_lem xs len ∙ ap (λ x. x ∷ []) ev in
    (
      subst (λ l. Took d d' l) one (subst (λ k. Took d k xs) ed took),
      (subst (λ l. All IsByte l) one bs).0,
    )

Took-trans :
    {d d1 d2 : Decoder} {xs ys : List ℕ} → Took d d1 xs → Took d1 d2 ys → Took d d2 (xs ++ ys)
Took-trans {d} {d1} {d2} {xs} {ys} s t = record {
  same = t.same ∙ s.same;
  split =
      s.split
      ∙ ap (λ l. xs ++ l) (rw (s.same) at t.split)
      ∙ sym (append_assoc xs ys (drop d2.position d.input));
}

-- Behind each tag only a value that needs the width of the tag is accepted.
compact_u16-Took :
    (d d' : Decoder) (v : ℕ)
    → All IsByte d.input
    → compact_u16 d ≡ ok (v, d')
    → Took d d' (to_le_bytes 2 v) × (0xfd ≤ v) × (v ≤ 0xffff)
unfolding compact_u16 read_u16_le
compact_u16-Took d d' v b h =
    let (u, d1, e, e') = >>=-eq-ok read_u16_le _ d h in
    let (took, bound) = read_le-Took 2 d d1 u b e in ground (arith, took)

compact_u32-Took :
    (d d' : Decoder) (v : ℕ)
    → All IsByte d.input
    → compact_u32 d ≡ ok (v, d')
    → Took d d' (to_le_bytes 4 v) × (0xffff < v) × (v ≤ 0xffff_ffff)
unfolding compact_u32 read_u32_le
compact_u32-Took d d' v b h =
    let (u, d1, e, e') = >>=-eq-ok read_u32_le _ d h in
    let (took, bound) = read_le-Took 4 d d1 u b e in ground (arith, took)

compact_u64-Took :
    (d d' : Decoder) (v : ℕ)
    → All IsByte d.input
    → compact_u64 d ≡ ok (v, d')
    → Took d d' (to_le_bytes 8 v) × (0xffff_ffff < v) × (v < 2 ^ 64)
unfolding compact_u64 read_u64_le
compact_u64-Took d d' v b h =
    let (u, d1, e, e') = >>=-eq-ok read_u64_le _ d h in
    let (took, bound) = read_le-Took 8 d d1 u b e in ground (arith, took)

-- A tagged form: the tag and the bytes behind it are the canonical form.
tagged-Took :
    (d d1 d' : Decoder) (t n v : ℕ)
    → Took d d1 (t ∷ [])
    → Took d1 d' (to_le_bytes n v)
    → compact_bytes v ≡ t ∷ to_le_bytes n v
    → Took d d' (compact_bytes v)
tagged-Took d d1 d' t n v s r e = rw e (Took-trans s r)

compact_bytes_two : (v : ℕ) → 0xfd ≤ v → v ≤ 0xffff → compact_bytes v ≡ 0xfd ∷ to_le_bytes 2 v
unfolding compact_bytes
compact_bytes_two v h k = ground arith

compact_bytes_four :
    (v : ℕ) → 0xffff < v → v ≤ 0xffff_ffff → compact_bytes v ≡ 0xfe ∷ to_le_bytes 4 v
unfolding compact_bytes
compact_bytes_four v h k = ground arith

compact_bytes_eight : (v : ℕ) → 0xffff_ffff < v → compact_bytes v ≡ 0xff ∷ to_le_bytes 8 v
unfolding compact_bytes
compact_bytes_eight v h = ground arith

-- The branch of `read_compact_size` behind the first byte.
abbrev compact_branch : ℕ → Parser DecodeError ℕ
compact_branch t =
    if leb t 0xfc
    then pure t
    else if t == 0xfd
    then compact_u16
    else if t == 0xfe
    then compact_u32
    else compact_u64

compact_branch-Took :
    (d d1 d' : Decoder) (t v : ℕ)
    → Took d d1 (t ∷ [])
    → t < 256
    → All IsByte d1.input
    → compact_branch t d1 ≡ ok (v, d')
    → Took d d' (compact_bytes v) × (v < 2 ^ 64)
unfolding compact_bytes
compact_branch-Took d d1 d' t v took tb b h = elim (Bool-cases (leb t 0xfc)) [
  | inl small ↦
      let k : (pure {E = DecodeError} t d1) ≡ ok (v, d') = rw small at h in
      let et : t ≡ v = cc in let ed : d1 ≡ d' = cc in rw (← et, ← ed, small) (took, omega arith)
  | inr wide ↦ elim (Bool-cases (t == 0xfd)) [
    | inl two ↦
        let (r, lo, hi) = compact_u16-Took d1 d' v b (rw (wide, two) at h) in
        let et : t ≡ 0xfd = ground arith in
        (tagged-Took d d1 d' 0xfd 2 v (rw et at took) r (compact_bytes_two v lo hi), omega arith)
    | inr more ↦ elim (Bool-cases (t == 0xfe)) [
      | inl four ↦
          let (r, lo, hi) = compact_u32-Took d1 d' v b (rw (wide, more, four) at h) in
          let et : t ≡ 0xfe = ground arith in
          (tagged-Took d d1 d' 0xfe 4 v (rw et at took) r (compact_bytes_four v lo hi), omega arith)
      | inr eight ↦
          let (r, lo, hi) = compact_u64-Took d1 d' v b (rw (wide, more, eight) at h) in
          let et : t ≡ 0xff = ground arith in
          (tagged-Took d d1 d' 0xff 8 v (rw et at took) r (compact_bytes_eight v lo), hi)
    ]
  ]
]

-- `read_compact_size` accepts only the bytes that `put_compact_size` writes for the value that it
-- returns: on an input of bytes, what it has taken is that encoding, the input is unchanged, and
-- the value is a `u64`.
pub read_compact_size_canonical :
    (d d' : Decoder) (v : ℕ)
    → All IsByte d.input
    → read_compact_size d ≡ ok (v, d')
    → (drop d.position d.input ≡ (put_compact_size v new).bytes ++ drop d'.position d'.input)
      × (d'.input ≡ d.input)
      × (v < 2 ^ 64)
unfolding read_compact_size new
read_compact_size_canonical d d' v b h =
    let (t, d1, e, e') = >>=-eq-ok read_u8 _ d h in
    let (first, tb) = read_u8-Took d d1 t b e in
    let (took, bound) = compact_branch-Took d d1 d' t v first tb (rw (first.same) b) e' in
    (rw (put_compact_size-bytes v new, took.same) took.split, took.same, bound)
