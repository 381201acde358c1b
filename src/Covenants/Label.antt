-- ===== src/Covenants/Label.antt =====
-- crates/hns-covenants/src/lib.rs: which byte strings `validate_name` accepts.
use hns_rs.Base.{
  ℕ, suc, ◌+◌, ◌≤◌, ◌<◌, ◌≡◌, ◌≢◌, ◌⊎◌, ◌↔◌, true, [], ◌∷◌, All, length, get_or, arith,
}
use hns_rs.Base.Bytes.{Bytes, codes, bytes_eq_iff}
use hns_rs.Covenants.Name.{
  is_alnum, is_joiner, is_name_byte, are_name_bytes, is_reserved, validate_name,
}

abbrev pub IsAlnum : ℕ → Type 0
IsAlnum b = (b'0' ≤ b) × (b ≤ b'9') ⊎ (b'a' ≤ b) × (b ≤ b'z')

abbrev pub IsJoiner : ℕ → Type 0
IsJoiner b = (b ≡ b'-') ⊎ (b ≡ b'_')

is_alnum_iff : (b : ℕ) → (is_alnum b ≡ true) ↔ IsAlnum b
unfolding is_alnum
is_alnum_iff b = ground arith

is_joiner_iff : (b : ℕ) → (is_joiner b ≡ true) ↔ IsJoiner b
unfolding is_joiner
is_joiner_iff b = ground arith

abbrev pub last_or : Bytes → ℕ → ℕ
last_or [] d = d
last_or (x ∷ xs) d = last_or xs x

-- The names outside the reserved ones that can be registered.
abbrev pub IsLabel : Bytes → Type 0
IsLabel name =
    (0 < length name)
    × (length name ≤ 63)
    × All (λ b. IsAlnum b ⊎ IsJoiner b) name
    × IsAlnum (get_or name 0 0)
    × IsAlnum (last_or name 0)

abbrev pub IsReserved : Bytes → Type 0
IsReserved name =
    (name ≡ codes "example")
    ⊎ (name ≡ codes "invalid")
    ⊎ (name ≡ codes "local")
    ⊎ (name ≡ codes "localhost")
    ⊎ (name ≡ codes "test")

is_name_byte_iff :
    (total index b : ℕ)
    → (is_name_byte total index b ≡ true)
      ↔ (IsAlnum b ⊎ (IsJoiner b × (index ≢ 0) × (index + 1 ≢ total)))
unfolding is_name_byte
is_name_byte_iff total index b = ground (arith, is_alnum_iff b, is_joiner_iff b)

-- Behind the first byte.
inner_bytes_iff :
    (total index x : ℕ) (xs : Bytes)
    → index ≢ 0
    → index + suc (length xs) ≡ total
    → (are_name_bytes total index (x ∷ xs) ≡ true)
      ↔ (All (λ b. IsAlnum b ⊎ IsJoiner b) (x ∷ xs) × IsAlnum (last_or xs x))
unfolding are_name_bytes
inner_bytes_iff total index x [] h k = ground (arith, is_name_byte_iff total index x)
inner_bytes_iff total index x (y ∷ ys) h k = ground (
  arith,
  is_name_byte_iff total index x,
  inner_bytes_iff total (index + 1) y ys (omega arith) (omega arith),
)

outer_bytes_iff :
    (x : ℕ) (xs : Bytes)
    → (are_name_bytes (suc (length xs)) 0 (x ∷ xs) ≡ true)
      ↔ (All (λ b. IsAlnum b ⊎ IsJoiner b) (x ∷ xs) × IsAlnum x × IsAlnum (last_or xs x))
unfolding are_name_bytes
outer_bytes_iff x [] = ground (arith, is_name_byte_iff 1 0 x)
outer_bytes_iff x (y ∷ ys) = ground (
  arith,
  is_name_byte_iff (suc (length (y ∷ ys))) 0 x,
  inner_bytes_iff (suc (length (y ∷ ys))) 1 y ys (omega arith) (omega arith),
)

is_reserved_iff : (name : Bytes) → (is_reserved name ≡ true) ↔ IsReserved name
unfolding is_reserved
is_reserved_iff name = ground (
  arith,
  bytes_eq_iff name (codes "example"),
  bytes_eq_iff name (codes "invalid"),
  bytes_eq_iff name (codes "local"),
  bytes_eq_iff name (codes "localhost"),
  bytes_eq_iff name (codes "test"),
)

-- `validate_name` accepts exactly the byte strings of 1 to 63 bytes that are not one of the five reserved
-- names, have only digits, lowercase letters, `-` and `_`, and begin and end with a digit or a letter.
pub validate_name_iff :
    (name : Bytes) → (validate_name name ≡ true) ↔ (IsLabel name × ¬ IsReserved name)
unfolding validate_name
validate_name_iff [] = ground arith
validate_name_iff (x ∷ xs) = ground (arith, is_reserved_iff (x ∷ xs), outer_bytes_iff x xs)
