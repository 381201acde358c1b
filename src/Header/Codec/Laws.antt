-- ===== src/Header/Codec/Laws.antt =====
-- Headers and byte strings of 236 bytes correspond to each other.
use hns_rs.Base
use hns_rs.Base.{
  ℕ, ◌+◌, ◌-◌, ◌<◌, ◌≤◌, ◌^◌, ◌≡◌, refl, sym, ap, ap₂, ◌∙◌, subst, arith, [], ◌++◌, All, All-take,
  All-drop, length, true, length-append, length-take, length-drop, take, drop, take-append-drop,
  Result, ok, err, ◌==◌, not, if◌then◌else◌, append-nil,
}
use hns_rs.Base.Bytes.{
  Bytes, IsByte, to_le_bytes, from_le_bytes, to_le_bytes-from_le_bytes, from_le_bytes_lt,
}
use hns_rs.Encoding.Encoder.{with_capacity, into_bytes}
use hns_rs.Encoding.Reads.{finish-at_end, Reads, Reads-new, Reads-bind, Reads-last}
use hns_rs.Encoding.Writes.{
  Writes, Writes-bind, put_u32_le-Writes, put_u64_le-Writes, put_bytes-Writes,
}
use hns_rs.Encoding.RoundTrip.{read_array-Reads, read_u32_le-Reads, read_u64_le-Reads}
use hns_rs.Header.Codec.{Header, put_header, encode, read_header, decode, header_size}

-- What the types of the fields guarantee.
pub record IsHeader (h : Header) : Type 0 where
  pub nonce_range : h.nonce < 2 ^ 32
  pub time_range : h.time < 2 ^ 64
  pub previous_length : length h.previous_block ≡ 32
  pub tree_length : length h.tree_root ≡ 32
  pub extra_length : length h.extra_nonce ≡ 24
  pub reserved_length : length h.reserved_root ≡ 32
  pub witness_length : length h.witness_root ≡ 32
  pub merkle_length : length h.merkle_root ≡ 32
  pub version_range : h.version < 2 ^ 32
  pub bits_range : h.bits < 2 ^ 32
  pub mask_length : length h.mask ≡ 32

unfoldable pub header_bytes : Header → Bytes
header_bytes h =
    to_le_bytes 4 h.nonce
    ++ (to_le_bytes 8 h.time
        ++ (h.previous_block
            ++ (h.tree_root
                ++ (h.extra_nonce
                    ++ (h.reserved_root
                        ++ (h.witness_root
                            ++ (h.merkle_root
                                ++ (to_le_bytes 4 h.version
                                    ++ (to_le_bytes 4 h.bits ++ h.mask)))))))))

put_header-Writes : (h : Header) → Writes (put_header h) (header_bytes h)
unfolding put_header header_bytes
put_header-Writes h = Writes-bind (put_u32_le-Writes h.nonce) (
    Writes-bind (put_u64_le-Writes h.time) (
      Writes-bind (put_bytes-Writes h.previous_block) (
        Writes-bind (put_bytes-Writes h.tree_root) (
          Writes-bind (put_bytes-Writes h.extra_nonce) (
            Writes-bind (put_bytes-Writes h.reserved_root) (
              Writes-bind (put_bytes-Writes h.witness_root) (
                Writes-bind (put_bytes-Writes h.merkle_root) (
                  Writes-bind (put_u32_le-Writes h.version)
                    (Writes-bind (put_u32_le-Writes h.bits) (put_bytes-Writes h.mask))))))))))

read_header-Reads : (h : Header) → IsHeader h → Reads read_header (header_bytes h) h
unfolding read_header header_bytes
read_header-Reads h r = Reads-bind _ (read_u32_le-Reads h.nonce r.nonce_range) (
    Reads-bind _ (read_u64_le-Reads h.time r.time_range) (
      Reads-bind _ (read_array-Reads 32 h.previous_block r.previous_length) (
        Reads-bind _ (read_array-Reads 32 h.tree_root r.tree_length) (
          Reads-bind _ (read_array-Reads 24 h.extra_nonce r.extra_length) (
            Reads-bind _ (read_array-Reads 32 h.reserved_root r.reserved_length) (
              Reads-bind _ (read_array-Reads 32 h.witness_root r.witness_length) (
                Reads-bind _ (read_array-Reads 32 h.merkle_root r.merkle_length) (
                  Reads-bind _ (read_u32_le-Reads h.version r.version_range) (
                    Reads-bind _ (read_u32_le-Reads h.bits r.bits_range)
                      (Reads-last _ (read_array-Reads 32 h.mask r.mask_length) refl))))))))))

encode-header_bytes : (h : Header) → encode h ≡ header_bytes h
unfolding encode into_bytes with_capacity
encode-header_bytes h = (put_header-Writes h).run (with_capacity header_size)

length-header_bytes : (h : Header) → IsHeader h → length (header_bytes h) ≡ header_size
unfolding header_bytes
length-header_bytes h r =
    let m9 = to_le_bytes 4 h.bits ++ h.mask in
    let m8 = to_le_bytes 4 h.version ++ m9 in
    let m7 = h.merkle_root ++ m8 in
    let m6 = h.witness_root ++ m7 in
    let m5 = h.reserved_root ++ m6 in
    let m4 = h.extra_nonce ++ m5 in
    let m3 = h.tree_root ++ m4 in
    omega (
      arith,
      length-append h.previous_block m3,
      length-append h.tree_root m4,
      length-append h.extra_nonce m5,
      length-append h.reserved_root m6,
      length-append h.witness_root m7,
      length-append h.merkle_root m8,
      r.previous_length,
      r.tree_length,
      r.extra_length,
      r.reserved_length,
      r.witness_length,
      r.merkle_length,
      r.mask_length,
    )

-- A header whose fields fit their types is written in 236 bytes and read back from them.
pub decode-encode_header :
    (h : Header) → IsHeader h → (length (encode h) ≡ header_size) × (decode (encode h) ≡ ok h)
unfolding decode
decode-encode_header h r =
    let size = length-header_bytes h r in
    let test : (length (header_bytes h) == header_size) ≡ true = rw size refl in
    rw (encode-header_bytes h) (
      size,
      rw
          (
            test,
            Reads-new (read_header-Reads h r) (omega (arith, size)),
            Base.◌>>=◌,
            finish-at_end (header_bytes h),
            Base.◌>>=◌,
          )
          refl,
    )

-- A string that is split into the fields of a header.
cut :
    (n m : ℕ) (xs : Bytes)
    → length xs ≡ n + m
    → All IsByte xs
    → (take n xs ++ drop n xs ≡ xs)
      × (length (take n xs) ≡ n)
      × (length (drop n xs) ≡ m)
      × All IsByte (take n xs)
      × All IsByte (drop n xs)
cut n m xs h b = (
  take-append-drop n xs,
  omega (arith, length-take n xs),
  omega (arith, length-drop n xs),
  All-take IsByte n xs b,
  All-drop IsByte n xs b,
)

little :
    (n : ℕ) (xs : Bytes)
    → length xs ≡ n
    → All IsByte xs
    → (to_le_bytes n (from_le_bytes xs) ≡ xs) × (from_le_bytes xs < 256 ^ n)
little n xs h b = (rw h at (to_le_bytes-from_le_bytes xs b), rw h at (from_le_bytes_lt xs b))

join : (xs ys ys' zs : Bytes) → xs ++ ys ≡ zs → ys' ≡ ys → xs ++ ys' ≡ zs
join xs ys ys' zs h e = ap (λ l. xs ++ l) e ∙ h

-- Every string of 236 bytes is the encoding of a header whose fields fit their types, to which it decodes.
pub decode_every_header :
    (input : Bytes)
    → length input ≡ header_size
    → All IsByte input
    → (h : Header) × IsHeader h × (encode h ≡ input) × (decode input ≡ ok h)
unfolding header_bytes
decode_every_header input size bytes =
    let (e1, a1, l1, b1, c1) = cut 4 232 input size bytes in
    let r1 = drop 4 input in
    let (e2, a2, l2, b2, c2) = cut 8 224 r1 l1 c1 in
    let r2 = drop 8 r1 in
    let (e3, a3, l3, b3, c3) = cut 32 192 r2 l2 c2 in
    let r3 = drop 32 r2 in
    let (e4, a4, l4, b4, c4) = cut 32 160 r3 l3 c3 in
    let r4 = drop 32 r3 in
    let (e5, a5, l5, b5, c5) = cut 24 136 r4 l4 c4 in
    let r5 = drop 24 r4 in
    let (e6, a6, l6, b6, c6) = cut 32 104 r5 l5 c5 in
    let r6 = drop 32 r5 in
    let (e7, a7, l7, b7, c7) = cut 32 72 r6 l6 c6 in
    let r7 = drop 32 r6 in
    let (e8, a8, l8, b8, c8) = cut 32 40 r7 l7 c7 in
    let r8 = drop 32 r7 in
    let (e9, a9, l9, b9, c9) = cut 4 36 r8 l8 c8 in
    let r9 = drop 4 r8 in
    let (e10, a10, l10, b10, c10) = cut 4 32 r9 l9 c9 in
    let (w1, n1) = little 4 (take 4 input) a1 b1 in
    let (w2, n2) = little 8 (take 8 r1) a2 b2 in
    let (w9, n9) = little 4 (take 4 r8) a9 b9 in
    let (w10, n10) = little 4 (take 4 r9) a10 b10 in
    let h : Header = record {
      nonce = from_le_bytes (take 4 input);
      time = from_le_bytes (take 8 r1);
      previous_block = take 32 r2;
      tree_root = take 32 r3;
      extra_nonce = take 24 r4;
      reserved_root = take 32 r5;
      witness_root = take 32 r6;
      merkle_root = take 32 r7;
      version = from_le_bytes (take 4 r8);
      bits = from_le_bytes (take 4 r9);
      mask = drop 4 r9;
    } in
    let fits : IsHeader h = record {
      nonce_range = n1;
      time_range = n2;
      previous_length = a3;
      tree_length = a4;
      extra_length = a5;
      reserved_length = a6;
      witness_length = a7;
      merkle_length = a8;
      version_range = n9;
      bits_range = n10;
      mask_length = l10;
    } in
    let s10 : to_le_bytes 4 h.bits ++ h.mask ≡ r9 = ap (λ l. l ++ h.mask) w10 ∙ e10 in
    let s9 : to_le_bytes 4 h.version ++ (to_le_bytes 4 h.bits ++ h.mask) ≡ r8 =
      ap₂ (λ l m. l ++ m) w9 s10 ∙ e9 in
    let s8 = join (take 32 r7) r8 _ r7 e8 s9 in
    let s7 = join (take 32 r6) r7 _ r6 e7 s8 in
    let s6 = join (take 32 r5) r6 _ r5 e6 s7 in
    let s5 = join (take 24 r4) r5 _ r4 e5 s6 in
    let s4 = join (take 32 r3) r4 _ r3 e4 s5 in
    let s3 = join (take 32 r2) r3 _ r2 e3 s4 in
    let s2 = ap₂ (λ l m. l ++ m) w2 s3 ∙ e2 in
    let s1 : header_bytes h ≡ input = ap₂ (λ l m. l ++ m) w1 s2 ∙ e1 in
    let written : encode h ≡ input = encode-header_bytes h ∙ s1 in
    (h, fits, written, rw written at ((decode-encode_header h fits).1))
