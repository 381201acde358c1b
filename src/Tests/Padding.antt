-- ===== src/Tests/Padding.antt =====
-- A concrete function in the place of a hash function.
use hns_rs.Base.{ℕ, zero, suc, ◌≡◌, refl, ap, [], ◌∷◌, length}
use hns_rs.Base.Bytes.{Bytes}

-- A function with outputs of 32 bytes in the place of a hash function: the message is padded or cut.
unfoldable pub pad : ℕ → Bytes → Bytes
pad zero bytes = []
pad (suc n) [] = 0 ∷ pad n []
pad (suc n) (b ∷ bytes) = b ∷ pad n bytes

pub length-pad : (n : ℕ) (bytes : Bytes) → length (pad n bytes) ≡ n
unfolding pad
length-pad zero bytes = refl
length-pad (suc n) [] = ap suc (length-pad n [])
length-pad (suc n) (b ∷ bytes) = ap suc (length-pad n bytes)
