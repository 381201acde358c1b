-- ===== src/Covenants/Fields.antt =====
-- The conversions of covenant items to fixed arrays and integers.
use hns_rs.Base.{ℕ, ◌≡◌, refl, arith, true, [], ◌∷◌, All, ◌==◌, length, get_or, ok, ok_or, some}
use hns_rs.Base.Bytes.{Bytes, IsByte, to_le_bytes, from_le_bytes, to_le_bytes-from_le_bytes}
use hns_rs.Covenants.Covenant.{to_array}

pub to_array_self : (n : ℕ) (xs : Bytes) → length xs ≡ n → to_array n xs ≡ some xs
to_array_self n xs h = ground (arith, h)

pub to_array_lem :
    {E : Type 0} (n : ℕ) (xs ys : Bytes) (e : E)
    → ok_or (to_array n xs) e ≡ ok ys
    → (length xs ≡ n) × (ys ≡ xs)
to_array_lem n xs ys e h = ground (arith, h)

pub u32-canonical :
    (xs : Bytes) → All IsByte xs → length xs ≡ 4 → to_le_bytes 4 (from_le_bytes xs) ≡ xs
u32-canonical xs b h = rw h at (to_le_bytes-from_le_bytes xs b)

pub one_byte : (xs : Bytes) → length xs ≡ 1 → get_or xs 0 0 ∷ [] ≡ xs
one_byte [] h = ground (arith, h)
one_byte (x ∷ []) h = refl
one_byte (x ∷ y ∷ xs) h = ground (arith, h)

pub test_length : (m n : ℕ) → (m == n) ≡ true → m ≡ n
test_length m n h = ground (arith, h)

pub array_u32 :
    {E : Type 0} (xs array : Bytes) (e : E)
    → All IsByte xs
    → ok_or (to_array 4 xs) e ≡ ok array
    → to_le_bytes 4 (from_le_bytes array) ≡ xs
array_u32 xs array e b h =
    let (four, same) = to_array_lem 4 xs array e h in rw same (u32-canonical xs b four)
