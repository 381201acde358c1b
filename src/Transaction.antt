-- ===== src/Transaction.antt =====
-- crates/hns-transaction/src/lib.rs: the errors, which the layers above pass on.
use hns_rs.Base.{ℕ, String}
use hns_rs.Encoding.Decoder.{DecodeError}
use hns_rs.Covenants.Name.{CovenantError}

pub data TransactionError : Type 0 where
  decode_error : DecodeError → TransactionError
  covenant_error : CovenantError → TransactionError
  too_large : (actual maximum : ℕ) → TransactionError
  invalid_address : String → TransactionError
  arithmetic_overflow : TransactionError
