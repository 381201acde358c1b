-- ===== src/Header/Codec.antt =====
-- crates/hns-header-consensus/src/lib.rs: the errors, `Header` and its wire form of 236 bytes.
pub mod Laws
use hns_rs.Base
use hns_rs.Base.{ℕ, Bool, not, ◌==◌, if◌then◌else◌, ◌|>◌, length, Result, ok, err}
use hns_rs.Base.Bytes.{Bytes, zeros}
use hns_rs.Encoding.Encoder.{Encoder, with_capacity, put_u32_le, put_u64_le, put_bytes, into_bytes}
use hns_rs.Encoding.Decoder.{
  DecodeError, Parser, ◌>>=◌, pure, new, read_u32_le, read_u64_le, read_array, finish,
}

abbrev pub header_size : ℕ
header_size = 236

abbrev pub extra_nonce_size : ℕ
extra_nonce_size = 24

pub data HeaderError : Type 0 where
  decode_error : DecodeError → HeaderError
  invalid_length : (actual : ℕ) → HeaderError
  wrong_genesis wrong_previous_block invalid_time invalid_difficulty missing_difficulty_point
        invalid_proof_of_work :
      HeaderError

pub record Header : Type 0 where
  pub nonce : ℕ
  pub time : ℕ
  pub previous_block : Bytes
  pub tree_root : Bytes
  pub extra_nonce : Bytes
  pub reserved_root : Bytes
  pub witness_root : Bytes
  pub merkle_root : Bytes
  pub version : ℕ
  pub bits : ℕ
  pub mask : Bytes

abbrev pub default_header : Header
default_header = record {
  nonce = 0;
  time = 0;
  previous_block = zeros 32;
  tree_root = zeros 32;
  extra_nonce = zeros 24;
  reserved_root = zeros 32;
  witness_root = zeros 32;
  merkle_root = zeros 32;
  version = 0;
  bits = 0;
  mask = zeros 32;
}

unfoldable pub put_header : Header → Encoder → Encoder
put_header h e =
    e
    |> put_u32_le h.nonce
    |> put_u64_le h.time
    |> put_bytes h.previous_block
    |> put_bytes h.tree_root
    |> put_bytes h.extra_nonce
    |> put_bytes h.reserved_root
    |> put_bytes h.witness_root
    |> put_bytes h.merkle_root
    |> put_u32_le h.version
    |> put_u32_le h.bits
    |> put_bytes h.mask

-- The conversion to an array of 236 bytes keeps the bytes.
unfoldable pub encode : Header → Bytes
encode h = into_bytes (put_header h (with_capacity header_size))

unfoldable pub read_header : Parser DecodeError Header
read_header = do
  nonce ← read_u32_le
  time ← read_u64_le
  previous_block ← read_array 32
  tree_root ← read_array 32
  extra_nonce ← read_array extra_nonce_size
  reserved_root ← read_array 32
  witness_root ← read_array 32
  merkle_root ← read_array 32
  version ← read_u32_le
  bits ← read_u32_le
  mask ← read_array 32
  pure (record {
    nonce = nonce;
    time = time;
    previous_block = previous_block;
    tree_root = tree_root;
    extra_nonce = extra_nonce;
    reserved_root = reserved_root;
    witness_root = witness_root;
    merkle_root = merkle_root;
    version = version;
    bits = bits;
    mask = mask;
  })

unfoldable pub decode : Bytes → Result HeaderError Header
decode input =
    if not (length input == header_size)
    then err (invalid_length (length input))
    else Base.map_err decode_error
        (Base.◌>>=◌ (read_header (new input)) (λ r. Base.◌>>◌ (finish r.1) (ok r.0)))
