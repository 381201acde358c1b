-- ===== src/Covenants/Size.antt =====
-- crates/hns-covenants/src/lib.rs: the bytes that a covenant is written as, and their number.
use hns_rs.Base
use hns_rs.Base.{
  ℕ, zero, suc, inl, inr, ◌≤◌, ◌+◌, ◌-◌, ◌<◌, ◌%◌, ◌^◌, ◌≡◌, refl, sym, ap, ◌∙◌, arith, Bool, true,
  false, List, [], ◌∷◌, ◌++◌, ltb, leb, ◌==◌, le→ltb, if◌then◌else◌, ◌|>◌, length, length-append,
  append_assoc, append-nil, Result, ok, err, All,
}
use hns_rs.Base.Bytes.{Bytes}
use hns_rs.Encoding.Encoder.{
  Encoder, with_capacity, put_u8, put_compact_size, put_varbytes, into_bytes,
}
use hns_rs.Encoding.RoundTrip.{compact_bytes, put_compact_size-bytes, put_varbytes-bytes}
use hns_rs.Covenants.Covenant.{
  Covenant, as_u8, compact_size_len, add_item_size, add_sizes, encoded_size, put_items,
  put_covenant, encode, max_covenant_item_size, max_covenant_items, max_covenant_encoded_size,
}

length-compact_bytes_lem : (v : ℕ) → length (compact_bytes v) ≡ compact_size_len v
unfolding compact_bytes compact_size_len
length-compact_bytes_lem v = ground arith

unfoldable pub items_bytes : List Bytes → Bytes
items_bytes [] = []
items_bytes (x ∷ xs) = (compact_bytes (length x) ++ x) ++ items_bytes xs

add_item_size_lem :
    (x : Bytes) (size total : ℕ)
    → add_item_size x size ≡ ok total
    → (length x ≤ max_covenant_item_size)
      × (total ≡ size + length (compact_bytes (length x) ++ x))
      × (total ≤ max_covenant_encoded_size)
unfolding add_item_size
add_item_size_lem x size total h =
    ground (arith, length-compact_bytes_lem (length x), length-append (compact_bytes (length x)) x)

-- The sizes add up to the bytes that are written, and each item is within its bound.
add_sizes_lem :
    (xs : List Bytes) (size total : ℕ)
    → add_sizes xs size ≡ ok total
    → size ≤ max_covenant_encoded_size
    → All (λ x. length x ≤ max_covenant_item_size) xs
      × (total ≡ size + length (items_bytes xs))
      × (total ≤ max_covenant_encoded_size)
unfolding add_sizes items_bytes
add_sizes_lem [] size total h k = (tt, ground arith, ground arith)
add_sizes_lem (x ∷ xs) size total h k =
    let (next, e, e') = Base.>>=-eq-ok (add_item_size x size) _ h in
    let (bound, sum, le) = add_item_size_lem x size next e in
    let (rest, sum', le') = add_sizes_lem xs next total e' le in
    (
      (bound, rest),
      rw (length-append (compact_bytes (length x) ++ x) (items_bytes xs)) (omega arith),
      le',
    )

put_items-bytes :
    (xs : List Bytes) (e : Encoder)
    → All (λ x. length x ≤ max_covenant_item_size) xs
    → (put_items xs e).bytes ≡ e.bytes ++ items_bytes xs
unfolding put_items items_bytes
put_items-bytes [] e h = sym (append-nil e.bytes)
put_items-bytes (x ∷ xs) e h =
    rw (put_items-bytes xs (put_varbytes x e) h.1, put_varbytes-bytes x e (omega (arith, h.0)))
      (append_assoc e.bytes _ _)

unfoldable pub covenant_bytes : Covenant → Bytes
covenant_bytes c = as_u8 c.kind ∷ (compact_bytes (length c.items) ++ items_bytes c.items)

put_covenant-bytes :
    (c : Covenant) (e : Encoder)
    → All (λ x. length x ≤ max_covenant_item_size) c.items
    → length c.items ≤ max_covenant_items
    → (put_covenant c e).bytes ≡ e.bytes ++ covenant_bytes c
unfolding put_covenant covenant_bytes put_u8
put_covenant-bytes c e h k =
    let count : length c.items % 2 ^ 64 ≡ length c.items = omega arith in
    let tagged : Encoder = put_u8 (as_u8 c.kind) e in
    rw
      (
        count,
        put_items-bytes c.items (put_compact_size (length c.items) tagged) h,
        put_compact_size-bytes (length c.items) tagged,
      )
      (simp append_assoc)

encoded_size_lem :
    (c : Covenant) (total : ℕ)
    → encoded_size c ≡ ok total
    → (length c.items ≤ max_covenant_items)
      × (add_sizes c.items (1 + compact_size_len (length c.items)) ≡ ok total)
      × (compact_size_len (length c.items) ≤ 9)
unfolding encoded_size compact_size_len
encoded_size_lem c total h = ground arith

-- What an accepted `encode` says of the covenant and of the bytes.
pub encode_lem :
    (c : Covenant) (bytes : Bytes)
    → encode c ≡ ok bytes
    → All (λ x. length x ≤ max_covenant_item_size) c.items
      × (length c.items ≤ max_covenant_items)
      × (bytes ≡ covenant_bytes c)
      × (encoded_size c ≡ ok (length bytes))
      × (length bytes ≤ max_covenant_encoded_size)
unfolding encode into_bytes with_capacity
encode_lem c bytes h =
    let (total, e, e') = Base.>>=-eq-ok (encoded_size c) _ h in
    let (few, sums, short) = encoded_size_lem c total e in
    let (bounded, sum, le) =
      add_sizes_lem c.items (1 + compact_size_len (length c.items)) total sums (omega arith) in
    let body : (put_covenant c (with_capacity total)).bytes ≡ covenant_bytes c =
      put_covenant-bytes c (with_capacity total) bounded few in
    let written : bytes ≡ covenant_bytes c = cc in
    let size : length bytes ≡ total =
      unfold covenant_bytes in
      rw written (
        omega (
          arith,
          sum,
          length-append (compact_bytes (length c.items)) (items_bytes c.items),
          length-compact_bytes_lem (length c.items),
        )) in
    (bounded, few, written, rw size e, omega (arith, size, le))

-- `encode` gives as many bytes as `encoded_size` says, and fails just where that does, with its error.
pub encode-encoded_size :
    (c : Covenant) → Base.◌>>=◌ (encode c) (λ bytes. ok (length bytes)) ≡ encoded_size c
encode-encoded_size c = elim (Base.Result-cases (encoded_size c)) [
  | inl (total, e) ↦
      let coded : encode c ≡ ok (into_bytes (put_covenant c (with_capacity total))) =
        unfold encode in rw e refl in
      let (_, _, _, size, _) = encode_lem c _ coded in rw coded (sym size)
  | inr (failure, e) ↦ unfold encode in rw e refl
]
