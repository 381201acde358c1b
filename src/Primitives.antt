-- ===== src/Primitives.antt =====
-- crates/hns-primitives/src/lib.rs: the outpoint. Heights, amounts and hashes are newtypes, and stand for
-- the number or the byte string that they wrap.
pub mod Chainwork
use hns_rs.Base.{ℕ, ◌-◌, ◌^◌, ◌≡◌, arith, Bool, ◌&&◌, ◌++◌, true, ◌==◌}
use hns_rs.Base.Bytes.{Bytes, zeros, bytes_eq, to_le_bytes, eq_of_bytes_eq}

abbrev pub u32_max : ℕ
u32_max = 2 ^ 32 - 1

pub record Outpoint : Type 0 where
  pub transaction_hash : Bytes
  pub index : ℕ

abbrev pub null_outpoint : Outpoint
null_outpoint = record { transaction_hash = zeros 32; index = u32_max }

unfoldable pub is_null_outpoint : Outpoint → Bool
is_null_outpoint o = o.index == u32_max && bytes_eq o.transaction_hash (zeros 32)

unfoldable pub encode_outpoint : Outpoint → Bytes
encode_outpoint o = o.transaction_hash ++ to_le_bytes 4 o.index

pub eq_of_is_null_outpoint : (o : Outpoint) → is_null_outpoint o ≡ true → o ≡ null_outpoint
unfolding is_null_outpoint
eq_of_is_null_outpoint o h = ground (arith, eq_of_bytes_eq o.transaction_hash (zeros 32))
