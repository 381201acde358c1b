-- ===== src/Covenants/NameState/RoundTrip.antt =====
-- The bytes of a name state, and that the decoder reads them back.

use hns_rs.Base.{
  ℕ, ◌/◌, ◌≤◌, ◌<◌, ◌%◌, ◌^◌, ◌≡◌, refl, ap, arith, Bool, true, false, not, [], ◌∷◌, ◌++◌, String,
  ◌==◌, le→ltb, length, ◌|>◌,
}
use hns_rs.Base.Bytes.{Bytes, to_le_bytes}
use hns_rs.Primitives.{Outpoint, is_null_outpoint, u32_max, eq_of_is_null_outpoint}
use hns_rs.Encoding.Encoder.{put_bytes, put_u8, put_u16_le, put_compact_size}
use hns_rs.Encoding.Decoder.{Parser, read_u32_le}
use hns_rs.Encoding.Reads.{Reads, Reads-pure, Reads-bind, Reads-last, Reads-ensure, Reads-convert}
use hns_rs.Encoding.Writes.{
  bytes_if, Writes, Writes-bind, put_if-Writes, put_bytes-Writes, put_u8-Writes, put_u16_le-Writes,
  put_u32_le-Writes, put_compact_size-Writes,
}
use hns_rs.Encoding.RoundTrip.{
  compact_bytes, read_array-Reads, read_u8-Reads, read_u16_le-Reads, read_u32_le-Reads,
  read_compact_size-Reads, read_bounded_vec-Reads,
}
use hns_rs.Covenants.Name.{CovenantError, decode_error, max_name_size, max_resource_size}
use hns_rs.Covenants.NameState.{
  NameState, field_bits, put_name_state, hsd_max_safe_integer, validate_safe_integer,
}
use hns_rs.Covenants.NameState.Decode.{
  read_if, step, read_safe_integer, read_u32_compact, read_owner, decode_optional, decode_heights,
  decode_fields,
}
use hns_rs.Covenants.NameState.Field.{field_bits-IsField, field_bits_lt}

-- What the types of the fields guarantee, and the bounds that `encode` tests.
pub record IsNameState (s : NameState) : Type 0 where
  pub name_bound : length s.name ≤ max_name_size
  pub resource_bound : length s.resource_data ≤ max_resource_size
  pub height_range : s.height < 2 ^ 32
  pub renewal_range : s.renewal < 2 ^ 32
  pub hash_length : length s.owner.transaction_hash ≡ 32
  pub index_range : s.owner.index < 2 ^ 32
  pub value_range : s.value ≤ hsd_max_safe_integer
  pub highest_range : s.highest ≤ hsd_max_safe_integer
  pub transfer_range : s.transfer < 2 ^ 32
  pub revoked_range : s.revoked < 2 ^ 32
  pub claimed_range : s.claimed < 2 ^ 32
  pub renewals_range : s.renewals < 2 ^ 32

abbrev pub owner_bytes : Outpoint → Bytes
owner_bytes o = o.transaction_hash ++ compact_bytes o.index

unfoldable pub optional_bytes : NameState → Bytes
optional_bytes s =
    bytes_if (not (is_null_outpoint s.owner)) (owner_bytes s.owner)
    ++ (bytes_if (not (s.value == 0)) (compact_bytes s.value)
        ++ (bytes_if (not (s.highest == 0)) (compact_bytes s.highest)
            ++ (bytes_if (not (s.transfer == 0)) (to_le_bytes 4 s.transfer)
                ++ (bytes_if (not (s.revoked == 0)) (to_le_bytes 4 s.revoked)
                    ++ (bytes_if (not (s.claimed == 0)) (to_le_bytes 4 s.claimed)
                        ++ bytes_if (not (s.renewals == 0)) (compact_bytes s.renewals))))))

unfoldable pub heights_bytes : NameState → Bytes
heights_bytes s =
    to_le_bytes 4 s.height
    ++ (to_le_bytes 4 s.renewal ++ (to_le_bytes 2 (field_bits s) ++ optional_bytes s))

unfoldable pub name_state_bytes : NameState → Bytes
name_state_bytes s =
    (length s.name ∷ [])
    ++ (s.name ++ (to_le_bytes 2 (length s.resource_data) ++ (s.resource_data ++ heights_bytes s)))

put_owner-Writes :
    (o : Outpoint)
    → Writes (λ e. e |> put_bytes o.transaction_hash |> put_compact_size o.index) (owner_bytes o)
put_owner-Writes o =
    Writes-bind (put_bytes-Writes o.transaction_hash) (put_compact_size-Writes o.index)

-- The two casts of a length.
put_low_u8-Writes : (v : ℕ) → v < 2 ^ 8 → Writes (put_u8 (v % 2 ^ 8)) (v ∷ [])
put_low_u8-Writes v h = let low : v % 2 ^ 8 ≡ v = omega arith in rw low (put_u8-Writes v)

put_low_u16-Writes : (v : ℕ) → v < 2 ^ 16 → Writes (put_u16_le (v % 2 ^ 16)) (to_le_bytes 2 v)
put_low_u16-Writes v h = let low : v % 2 ^ 16 ≡ v = omega arith in rw low (put_u16_le-Writes v)

pub put_name_state-Writes :
    (s : NameState) → IsNameState s → Writes (put_name_state s) (name_state_bytes s)
unfolding put_name_state name_state_bytes heights_bytes optional_bytes
put_name_state-Writes s h =
    Writes-bind (put_low_u8-Writes (length s.name) (omega (arith, h.name_bound))) (
      Writes-bind (put_bytes-Writes s.name) (
        Writes-bind (put_low_u16-Writes (length s.resource_data) (omega (arith, h.resource_bound)))
          (Writes-bind (put_bytes-Writes s.resource_data) (
            Writes-bind (put_u32_le-Writes s.height) (
              Writes-bind (put_u32_le-Writes s.renewal) (
                Writes-bind (put_u16_le-Writes (field_bits s)) (
                  Writes-bind
                    (put_if-Writes (not (is_null_outpoint s.owner)) (put_owner-Writes s.owner))
                    (Writes-bind
                      (put_if-Writes (not (s.value == 0)) (put_compact_size-Writes s.value))
                      (Writes-bind
                        (put_if-Writes (not (s.highest == 0)) (put_compact_size-Writes s.highest))
                        (Writes-bind
                          (put_if-Writes (not (s.transfer == 0)) (put_u32_le-Writes s.transfer))
                          (Writes-bind
                            (put_if-Writes (not (s.revoked == 0)) (put_u32_le-Writes s.revoked))
                            (Writes-bind
                              (put_if-Writes (not (s.claimed == 0)) (put_u32_le-Writes s.claimed))
                              (put_if-Writes (not (s.renewals == 0))
                                (put_compact_size-Writes s.renewals))))))))))))))

read_if-Reads :
    {A : Type 0} (test : Bool) {p : Parser CovenantError A} {xs : Bytes} {v default : A}
    → (test ≡ true → Reads p xs v)
    → (test ≡ false → v ≡ default)
    → Reads (read_if test p default) (bytes_if test xs) v
read_if-Reads true h k = h refl
read_if-Reads false h k = rw (k refl) (Reads-pure _)

read_step_u32-Reads : (v : ℕ) → v < 2 ^ 32 → Reads (step read_u32_le) (to_le_bytes 4 v) v
read_step_u32-Reads v h = Reads-convert decode_error (read_u32_le-Reads v h)

read_safe_integer-Reads :
    (v : ℕ) → v ≤ hsd_max_safe_integer → Reads read_safe_integer (compact_bytes v) v
unfolding read_safe_integer validate_safe_integer
read_safe_integer-Reads v h =
    Reads-last _ (Reads-convert decode_error (read_compact_size-Reads v (omega arith)))
      (rw (le→ltb hsd_max_safe_integer v h) refl)

read_u32_compact-Reads :
    (v : ℕ) (reason : String) → v < 2 ^ 32 → Reads (read_u32_compact reason) (compact_bytes v) v
unfolding read_u32_compact
read_u32_compact-Reads v reason h =
    Reads-last _ (Reads-convert decode_error (read_compact_size-Reads v (omega arith)))
      (rw (le→ltb u32_max v (omega arith)) refl)

read_owner-Reads :
    (o : Outpoint)
    → length o.transaction_hash ≡ 32
    → o.index < 2 ^ 32
    → Reads read_owner (owner_bytes o) o
unfolding read_owner
read_owner-Reads o h k =
    Reads-bind _ (Reads-convert decode_error (read_array-Reads 32 o.transaction_hash h))
      (Reads-last _ (read_u32_compact-Reads o.index _ k) refl)

eq_test : (m n : ℕ) → m ≡ n → (m == n) ≡ true
eq_test m n h = ground arith

eq-zero : (n : ℕ) → not (n == 0) ≡ false → n ≡ 0
eq-zero n h = ground arith

decode_optional-Reads :
    (s : NameState)
    → IsNameState s
    → Reads
        (decode_optional s.name_hash s.name s.resource_data s.height s.renewal (field_bits s))
        (optional_bytes s)
        s
unfolding decode_optional optional_bytes
decode_optional-Reads s h =
    let f = field_bits-IsField s in
    rw (f.bit0, f.bit1, f.bit2, f.bit3, f.bit4, f.bit5, f.bit6, f.bit7, f.bit8, f.bit9)
      (Reads-bind _
        (read_if-Reads (not (is_null_outpoint s.owner))
          (λ _. read_owner-Reads s.owner h.hash_length h.index_range)
          (λ k. eq_of_is_null_outpoint s.owner (ground arith)))
        (Reads-bind _
          (read_if-Reads (not (s.value == 0)) (λ _. read_safe_integer-Reads s.value h.value_range)
            (eq-zero s.value))
          (Reads-bind _
            (read_if-Reads (not (s.highest == 0))
              (λ _. read_safe_integer-Reads s.highest h.highest_range) (eq-zero s.highest))
            (Reads-bind _
              (read_if-Reads (not (s.transfer == 0))
                (λ _. read_step_u32-Reads s.transfer h.transfer_range) (eq-zero s.transfer))
              (Reads-bind _
                (read_if-Reads (not (s.revoked == 0))
                  (λ _. read_step_u32-Reads s.revoked h.revoked_range) (eq-zero s.revoked))
                (Reads-bind _
                  (read_if-Reads (not (s.claimed == 0))
                    (λ _. read_step_u32-Reads s.claimed h.claimed_range) (eq-zero s.claimed))
                  (Reads-last _
                    (read_if-Reads (not (s.renewals == 0))
                      (λ _. read_u32_compact-Reads s.renewals _ h.renewals_range)
                      (eq-zero s.renewals))
                    refl)))))))

decode_heights-Reads :
    (s : NameState)
    → IsNameState s
    → Reads (decode_heights s.name_hash s.name s.resource_data) (heights_bytes s) s
unfolding decode_heights heights_bytes
decode_heights-Reads s h = Reads-bind _ (read_step_u32-Reads s.height h.height_range) (
    Reads-bind _ (read_step_u32-Reads s.renewal h.renewal_range) (
      Reads-bind _ (Reads-convert decode_error (read_u16_le-Reads (field_bits s) (field_bits_lt s)))
        (Reads-ensure _ _ (eq_test (field_bits s / 2 ^ 10) 0 (field_bits-IsField s).high)
          (decode_optional-Reads s h))))

pub decode_fields-Reads :
    (s : NameState) → IsNameState s → Reads (decode_fields s.name_hash) (name_state_bytes s) s
unfolding decode_fields name_state_bytes
decode_fields-Reads s h =
    Reads-bind _ (Reads-convert decode_error (read_u8-Reads (length s.name))) (
      Reads-ensure _ _ (ap not (le→ltb max_name_size (length s.name) h.name_bound)) (
        Reads-bind _
          (Reads-convert decode_error (read_bounded_vec-Reads s.name max_name_size h.name_bound))
          (Reads-bind _
            (Reads-convert decode_error
              (read_u16_le-Reads (length s.resource_data) (omega (arith, h.resource_bound))))
            (Reads-ensure _ _
              (ap not (le→ltb max_resource_size (length s.resource_data) h.resource_bound))
              (Reads-bind _
                (Reads-convert decode_error
                  (read_bounded_vec-Reads s.resource_data max_resource_size h.resource_bound))
                (decode_heights-Reads s h))))))
