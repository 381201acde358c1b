-- ===== src/Encoding/Writes.antt =====
-- When a writer appends exactly the given bytes, whatever stands in the encoder.
use hns_rs.Base.{
  ℕ, ◌≡◌, refl, sym, Bool, true, false, [], ◌∷◌, ◌++◌, if◌then◌else◌, append-nil, append_assoc,
}
use hns_rs.Base.Bytes.{Bytes, to_le_bytes}
use hns_rs.Encoding.Encoder.{
  Encoder, put_bytes, put_u8, put_u16_le, put_u32_le, put_u64_le, put_compact_size,
}
use hns_rs.Encoding.RoundTrip.{compact_bytes, put_compact_size-bytes}

pub record Writes (put : Encoder → Encoder) (xs : Bytes) : Type 0 where
  pub run : (e : Encoder) → (put e).bytes ≡ e.bytes ++ xs

pub Writes-bind :
    {put next : Encoder → Encoder} {xs ys : Bytes}
    → Writes put xs
    → Writes next ys
    → Writes (λ e. next (put e)) (xs ++ ys)
Writes-bind {put} {next} {xs} {ys} w v = record {
  run = λ e. rw (v.run (put e), w.run e) (append_assoc e.bytes xs ys);
}

-- `if test { put }`
abbrev pub put_if : Bool → (Encoder → Encoder) → Encoder → Encoder
put_if true put e = put e
put_if false put e = e

abbrev pub bytes_if : Bool → Bytes → Bytes
bytes_if test xs = if test then xs else []

pub put_if-Writes :
    (test : Bool) {put : Encoder → Encoder} {xs : Bytes}
    → Writes put xs
    → Writes (put_if test put) (bytes_if test xs)
put_if-Writes true w = w
put_if-Writes false w = record { run = λ e. sym (append-nil e.bytes) }

pub put_bytes-Writes : (xs : Bytes) → Writes (put_bytes xs) xs
unfolding put_bytes
put_bytes-Writes xs = record { run = λ e. refl }

pub put_u8-Writes : (v : ℕ) → Writes (put_u8 v) (v ∷ [])
unfolding put_u8
put_u8-Writes v = record { run = λ e. refl }

pub put_u16_le-Writes : (v : ℕ) → Writes (put_u16_le v) (to_le_bytes 2 v)
unfolding put_u16_le
put_u16_le-Writes v = record { run = λ e. refl }

pub put_u32_le-Writes : (v : ℕ) → Writes (put_u32_le v) (to_le_bytes 4 v)
unfolding put_u32_le
put_u32_le-Writes v = record { run = λ e. refl }

pub put_compact_size-Writes : (v : ℕ) → Writes (put_compact_size v) (compact_bytes v)
put_compact_size-Writes v = record { run = λ e. put_compact_size-bytes v e }

pub put_u64_le-Writes : (v : ℕ) → Writes (put_u64_le v) (to_le_bytes 8 v)
unfolding put_u64_le
put_u64_le-Writes v = record { run = λ e. refl }
