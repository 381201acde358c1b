-- ===== src/Encoding/RoundTrip.antt =====
-- Each method of `Decoder` reads back what the `Encoder` method of its name writes.
use hns_rs.Base.{
  ℕ, ◌+◌, ◌%◌, ◌≤◌, ◌<◌, ◌^◌, ◌≡◌, refl, ap, subst, List, [], ◌∷◌, ◌++◌, String, true, false, arith,
  length, length-append, append_assoc, take-append_self, drop-append_self, leb, le→ltb, lt→leb,
  ◌==◌, if◌then◌else◌, ok, inl, inr, Bool-cases, get_or, slice,
}
use hns_rs.Base.Bytes.{to_le_bytes, from_le_bytes, length-to_le_bytes, from_le_bytes-to_le_bytes}
use hns_rs.Encoding.Decoder.{
  DecodeError, Parser, ◌>>=◌, pure, read_slice, read_array, read_u8, read_u16_le, read_u32_le,
  read_u64_le, compact_u16, compact_u32, compact_u64, read_compact_size, read_compact_usize,
  read_bounded_vec, read_varbytes, usize_max,
}
use hns_rs.Encoding.Encoder.{
  Encoder, new, put_bytes, put_u8, put_u16_le, put_u32_le, put_u64_le, put_compact_size,
  put_varbytes,
}
use native.Mathlib.Nat.{add-sub_cancel_left, mod-eq_of_lt}
use hns_rs.Encoding.Reads.{at, Reads, Reads-bind, Reads-last}

pub slice_middle :
    (front xs rest : List ℕ)
    → slice (length front) (length front + length xs) (front ++ (xs ++ rest)) ≡ xs
slice_middle front xs rest =
    rw (drop-append_self front (xs ++ rest), add-sub_cancel_left (length front) (length xs))
      (take-append_self xs rest)

pub read_slice-Reads : (xs : List ℕ) → Reads (read_slice (length xs)) xs xs
unfolding read_slice
read_slice-Reads xs = record {
  run = λ front rest h. ground (
    arith,
    slice_middle front xs rest,
    length-append front (xs ++ rest),
    length-append xs rest,
    length-append front xs,
    append_assoc front xs rest,
  );
}

pub read_array-Reads : (n : ℕ) (xs : List ℕ) → length xs ≡ n → Reads (read_array n) xs xs
unfolding read_array
read_array-Reads n xs h = subst (λ k. Reads (read_slice k) xs xs) h (read_slice-Reads xs)

pub read_u8-Reads : (v : ℕ) → Reads read_u8 (v ∷ []) v
unfolding read_u8
read_u8-Reads v =
    Reads-last (λ bytes. pure (get_or bytes 0 0)) (read_array-Reads 1 (v ∷ []) refl) refl

-- An integer of `n` bytes.
read_le-Reads :
    (n v : ℕ)
    → v < 256 ^ n
    → Reads (read_array n >>= λ bytes. pure (from_le_bytes bytes)) (to_le_bytes n v) v
read_le-Reads n v h =
    Reads-last _ (read_array-Reads n (to_le_bytes n v) (length-to_le_bytes n v))
      (ap pure (from_le_bytes-to_le_bytes n v h))

pub read_u16_le-Reads : (v : ℕ) → v < 2 ^ 16 → Reads read_u16_le (to_le_bytes 2 v) v
unfolding read_u16_le
read_u16_le-Reads v h = read_le-Reads 2 v h

pub read_u32_le-Reads : (v : ℕ) → v < 2 ^ 32 → Reads read_u32_le (to_le_bytes 4 v) v
unfolding read_u32_le
read_u32_le-Reads v h = read_le-Reads 4 v h

pub read_u64_le-Reads : (v : ℕ) → v < 2 ^ 64 → Reads read_u64_le (to_le_bytes 8 v) v
unfolding read_u64_le
read_u64_le-Reads v h = read_le-Reads 8 v h

-- What `put_compact_size` appends.
unfoldable pub compact_bytes : ℕ → List ℕ
compact_bytes v =
    if leb v 0xfc
    then v ∷ []
    else if leb v 0xffff
    then 0xfd ∷ to_le_bytes 2 v
    else if leb v 0xffff_ffff
    then 0xfe ∷ to_le_bytes 4 v
    else 0xff ∷ to_le_bytes 8 v

pub length-compact_bytes : (v : ℕ) → length (compact_bytes v) ≤ 9
unfolding compact_bytes
length-compact_bytes v = ground arith

pub put_compact_size-bytes :
    (v : ℕ) (e : Encoder) → (put_compact_size v e).bytes ≡ e.bytes ++ compact_bytes v
unfolding put_compact_size compact_bytes put_u8 put_u16_le put_u32_le put_u64_le
put_compact_size-bytes v e = ground (
  arith,
  append_assoc e.bytes (0xfd ∷ []) (to_le_bytes 2 v),
  append_assoc e.bytes (0xfe ∷ []) (to_le_bytes 4 v),
  append_assoc e.bytes (0xff ∷ []) (to_le_bytes 8 v),
)

compact_tail :
    (tag : ℕ) (xs : List ℕ) (v : ℕ) (p : Parser DecodeError ℕ)
    → Reads p xs v
    → leb tag 0xfc ≡ false
    → (if tag == 0xfd then compact_u16 else if tag == 0xfe then compact_u32 else compact_u64) ≡ p
    → Reads read_compact_size (tag ∷ xs) v
unfolding read_compact_size
compact_tail tag xs v p r h e = Reads-bind _ (read_u8-Reads tag) (rw (h, e) r)

compact_u16-Reads : (v : ℕ) → 0xfd ≤ v → v < 2 ^ 16 → Reads compact_u16 (to_le_bytes 2 v) v
unfolding compact_u16
compact_u16-Reads v lo hi = Reads-last _ (read_u16_le-Reads v hi) (rw (le→ltb v 0xfd lo))

compact_u32-Reads : (v : ℕ) → 0xffff < v → v < 2 ^ 32 → Reads compact_u32 (to_le_bytes 4 v) v
unfolding compact_u32
compact_u32-Reads v lo hi = Reads-last _ (read_u32_le-Reads v hi) (rw (lt→leb v 0xffff lo))

compact_u64-Reads : (v : ℕ) → 0xffff_ffff < v → v < 2 ^ 64 → Reads compact_u64 (to_le_bytes 8 v) v
unfolding compact_u64
compact_u64-Reads v lo hi = Reads-last _ (read_u64_le-Reads v hi) (rw (lt→leb v 0xffff_ffff lo))

compact_u8-Reads : (v : ℕ) → leb v 0xfc ≡ true → Reads read_compact_size (v ∷ []) v
unfolding read_compact_size
compact_u8-Reads v h = Reads-last _ (read_u8-Reads v) (rw h)

pub read_compact_size-Reads : (v : ℕ) → v < 2 ^ 64 → Reads read_compact_size (compact_bytes v) v
unfolding compact_bytes
read_compact_size-Reads v h = elim (Bool-cases (leb v 0xfc)) [
  | inl small ↦ rw small (compact_u8-Reads v small)
  | inr more ↦ rw more (elim (Bool-cases (leb v 0xffff)) [
    | inl two ↦
        rw two
          (compact_tail 0xfd _ v _ (compact_u16-Reads v (ground arith) (ground arith)) refl refl)
    | inr more ↦ rw more (elim (Bool-cases (leb v 0xffff_ffff)) [
      | inl four ↦
          rw four
            (compact_tail 0xfe _ v _ (compact_u32-Reads v (ground arith) (ground arith)) refl refl)
      | inr eight ↦
          rw eight (compact_tail 0xff _ v _ (compact_u64-Reads v (ground arith) h) refl refl)
    ])
  ])
]

pub read_compact_usize-Reads :
    (v maximum : ℕ) (field : String)
    → v < 2 ^ 64
    → v ≤ maximum
    → Reads (read_compact_usize maximum field) (compact_bytes v) v
unfolding read_compact_usize
read_compact_usize-Reads v maximum field h k =
    Reads-last _ (read_compact_size-Reads v h)
      (rw (le→ltb usize_max v (omega arith), le→ltb maximum v k))

pub read_bounded_vec-Reads :
    (xs : List ℕ) (maximum : ℕ)
    → length xs ≤ maximum
    → Reads (read_bounded_vec (length xs) maximum) xs xs
unfolding read_bounded_vec
read_bounded_vec-Reads xs maximum h = rw (le→ltb maximum (length xs) h) (read_slice-Reads xs)

pub read_varbytes-Reads :
    (xs : List ℕ) (maximum : ℕ) (field : String)
    → length xs < 2 ^ 64
    → length xs ≤ maximum
    → Reads (read_varbytes maximum field) (compact_bytes (length xs) ++ xs) xs
unfolding read_varbytes
read_varbytes-Reads xs maximum field h k =
    Reads-bind _ (read_compact_usize-Reads (length xs) maximum field h k)
      (read_bounded_vec-Reads xs maximum k)

pub put_varbytes-bytes :
    (xs : List ℕ) (e : Encoder)
    → length xs < 2 ^ 64
    → (put_varbytes xs e).bytes ≡ e.bytes ++ (compact_bytes (length xs) ++ xs)
unfolding put_varbytes put_bytes
put_varbytes-bytes xs e h =
    rw (mod-eq_of_lt h, put_compact_size-bytes (length xs) e)
      (append_assoc e.bytes (compact_bytes (length xs)) xs)

put_varbytes-length : (xs : List ℕ) (e : Encoder) → length xs ≤ length (put_varbytes xs e).bytes
unfolding put_varbytes put_bytes
put_varbytes-length xs e =
    omega (arith, length-append (put_compact_size (length xs % 2 ^ 64) e).bytes xs)

-- `read_varbytes` returns the payload that `put_varbytes` wrote into an encoder that holds `front`,
-- and stops behind it, whatever bytes `rest` follow, if the payload is within the reader's maximum
-- and the whole input is shorter than 2^64 bytes.
pub read_varbytes-put_varbytes :
    (front payload rest : List ℕ) (maximum : ℕ) (field : String)
    → length payload ≤ maximum
    → length (put_varbytes payload (record { bytes = front })).bytes + length rest < 2 ^ 64
    → read_varbytes maximum field (at front ((put_varbytes payload new).bytes ++ rest))
      ≡ ok (payload, at (put_varbytes payload (record { bytes = front })).bytes rest)
unfolding new
read_varbytes-put_varbytes front payload rest maximum field h k =
    let small : length payload < 2 ^ 64 =
      omega (arith, put_varbytes-length payload (record { bytes = front })) in
    let written = compact_bytes (length payload) ++ payload in
    let bound : length front + (length written + length rest) < 2 ^ 64 = omega (
      arith,
      length-append front written,
      ap length (put_varbytes-bytes payload (record { bytes = front }) small),
    ) in
    rw
      (
        put_varbytes-bytes payload (record { bytes = front }) small,
        put_varbytes-bytes payload new small,
      )
      ((read_varbytes-Reads payload maximum field small h).run front rest bound)
