-- ===== src/Covenants/NameState/Field.antt =====
-- The bitmap of optional fields: each bit that `encode` sets is the bit that `decode` tests.

use hns_rs.Base.{ℕ, ◌+◌, ◌*◌, ◌/◌, ◌<◌, ◌%◌, ◌^◌, ◌≡◌, refl, arith, Bool, true, false, not, ◌==◌}
use hns_rs.Primitives.{is_null_outpoint}
use hns_rs.Covenants.NameState.{NameState, flag, field_bits}
use hns_rs.Covenants.NameState.Decode.{is_set}

-- A flag at bit `k` is 2^k times a bit.
abbrev bit : Bool → ℕ
bit true = 1
bit false = 0

flag-bit : (b : Bool) (k : ℕ) → flag b k ≡ bit b * 2 ^ k
flag-bit true k = omega arith
flag-bit false k = omega arith

bit_bound : (b : Bool) → bit b < 2
bit_bound true = omega arith
bit_bound false = omega arith

bit_test : (b : Bool) → (bit b == 1) ≡ b
bit_test true = refl
bit_test false = refl

is_set_test : (field k : ℕ) (b : Bool) → field / 2 ^ k % 2 ≡ bit b → is_set field k ≡ b
is_set_test field k b h = rw h (bit_test b)

-- The digits of the bitmap.
pub record IsField (field : ℕ) (s : NameState) : Type 0 where
  pub bit0 : is_set field 0 ≡ not (is_null_outpoint s.owner)
  pub bit1 : is_set field 1 ≡ not (s.value == 0)
  pub bit2 : is_set field 2 ≡ not (s.highest == 0)
  pub bit3 : is_set field 3 ≡ not (s.transfer == 0)
  pub bit4 : is_set field 4 ≡ not (s.revoked == 0)
  pub bit5 : is_set field 5 ≡ not (s.claimed == 0)
  pub bit6 : is_set field 6 ≡ not (s.renewals == 0)
  pub bit7 : is_set field 7 ≡ s.registered
  pub bit8 : is_set field 8 ≡ s.expired
  pub bit9 : is_set field 9 ≡ s.weak
  pub high : field / 2 ^ 10 ≡ 0

digits :
    (b0 b1 b2 b3 b4 b5 b6 b7 b8 b9 n : ℕ)
    → b0 < 2
    → b1 < 2
    → b2 < 2
    → b3 < 2
    → b4 < 2
    → b5 < 2
    → b6 < 2
    → b7 < 2
    → b8 < 2
    → b9 < 2
    → n
      ≡ b0 * 1
        + b1 * 2
        + b2 * 4
        + b3 * 8
        + b4 * 16
        + b5 * 32
        + b6 * 64
        + b7 * 128
        + b8 * 256
        + b9 * 512
    → (n / 1 % 2 ≡ b0)
      × (n / 2 % 2 ≡ b1)
      × (n / 4 % 2 ≡ b2)
      × (n / 8 % 2 ≡ b3)
      × (n / 16 % 2 ≡ b4)
      × (n / 32 % 2 ≡ b5)
      × (n / 64 % 2 ≡ b6)
      × (n / 128 % 2 ≡ b7)
      × (n / 256 % 2 ≡ b8)
      × (n / 512 % 2 ≡ b9)
      × (n / 1024 ≡ 0)
digits b0 b1 b2 b3 b4 b5 b6 b7 b8 b9 n h0 h1 h2 h3 h4 h5 h6 h7 h8 h9 e = (
  omega arith,
  omega arith,
  omega arith,
  omega arith,
  omega arith,
  omega arith,
  omega arith,
  omega arith,
  omega arith,
  omega arith,
  omega arith,
)

pub field_bits-IsField : (s : NameState) → IsField (field_bits s) s
unfolding field_bits
field_bits-IsField s =
    let b0 = not (is_null_outpoint s.owner) in
    let b1 = not (s.value == 0) in
    let b2 = not (s.highest == 0) in
    let b3 = not (s.transfer == 0) in
    let b4 = not (s.revoked == 0) in
    let b5 = not (s.claimed == 0) in
    let b6 = not (s.renewals == 0) in
    let sum : field_bits s
        ≡ bit b0 * 1
          + bit b1 * 2
          + bit b2 * 4
          + bit b3 * 8
          + bit b4 * 16
          + bit b5 * 32
          + bit b6 * 64
          + bit s.registered * 128
          + bit s.expired * 256
          + bit s.weak * 512 =
      omega (
        arith,
        flag-bit b0 0,
        flag-bit b1 1,
        flag-bit b2 2,
        flag-bit b3 3,
        flag-bit b4 4,
        flag-bit b5 5,
        flag-bit b6 6,
        flag-bit s.registered 7,
        flag-bit s.expired 8,
        flag-bit s.weak 9,
      ) in
    let (d0, d1, d2, d3, d4, d5, d6, d7, d8, d9, over) =
      digits (bit b0) (bit b1) (bit b2) (bit b3) (bit b4) (bit b5) (bit b6) (bit s.registered)
        (bit s.expired) (bit s.weak) (field_bits s) (bit_bound b0) (bit_bound b1) (bit_bound b2)
        (bit_bound b3) (bit_bound b4) (bit_bound b5) (bit_bound b6) (bit_bound s.registered)
        (bit_bound s.expired) (bit_bound s.weak) sum in
    record {
      bit0 = is_set_test (field_bits s) 0 b0 d0;
      bit1 = is_set_test (field_bits s) 1 b1 d1;
      bit2 = is_set_test (field_bits s) 2 b2 d2;
      bit3 = is_set_test (field_bits s) 3 b3 d3;
      bit4 = is_set_test (field_bits s) 4 b4 d4;
      bit5 = is_set_test (field_bits s) 5 b5 d5;
      bit6 = is_set_test (field_bits s) 6 b6 d6;
      bit7 = is_set_test (field_bits s) 7 s.registered d7;
      bit8 = is_set_test (field_bits s) 8 s.expired d8;
      bit9 = is_set_test (field_bits s) 9 s.weak d9;
      high = over;
    }

pub field_bits_lt : (s : NameState) → field_bits s < 2 ^ 16
field_bits_lt s = omega (arith, (field_bits-IsField s).high)
