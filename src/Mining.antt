-- ===== src/Mining.antt =====
-- crates/hns-mining/src/lib.rs: the errors, the snapshot, the subsidy and the commitment to the transactions.
pub mod Merkle
use hns_rs.Base.Bytes.{Bytes}
use hns_rs.Encoding.Decoder.{DecodeError}
use hns_rs.Primitives.Chainwork.{ArithmeticError}
use hns_rs.Header.Codec.{HeaderError}
use hns_rs.Transaction.{TransactionError}
use hns_rs.Base.{
  String, ◌+◌, ◌||◌, ltb, ℕ, ◌*◌, ◌/◌, ◌^◌, leb, ◌==◌, if◌then◌else◌, Result, ok, err,
}
use hns_rs.Header.Network.{Network, mainnet, testnet, regtest, simnet}

pub data MiningError : Type 0 where
  decode_error : DecodeError → MiningError
  header_error : HeaderError → MiningError
  transaction_error : TransactionError → MiningError
  arithmetic_error : ArithmeticError → MiningError
  invalid_snapshot invalid_template invalid_job invalid_coinbase_height stale_job : MiningError
  invalid_reconstruction insufficient_proof_of_work job_conflict job_capacity unknown_job :
      MiningError
  invalid_halving_interval : MiningError
  generation_out_of_range : (generation : ℕ) → MiningError
  arithmetic_overflow output_value : MiningError
  invalid_transaction : (reason : String) → MiningError
  invalid_block_body : (reason : String) → MiningError

pub record MiningSnapshot : Type 0 where
  pub network : Network
  pub generation : ℕ
  pub tip_hash : Bytes
  pub tip_height : ℕ
  pub tip_time : ℕ
  pub parent_median_time : ℕ
  pub next_tree_root : Bytes
  pub expected_bits : ℕ

-- `checked_add` of a `u32`.
unfoldable pub next_height : MiningSnapshot → Result MiningError ℕ
next_height s =
    if ltb (s.tip_height + 1) (2 ^ 32) then ok (s.tip_height + 1) else err arithmetic_overflow

unfoldable pub validate_snapshot : MiningSnapshot → Result MiningError (Unit {0})
validate_snapshot s =
    if s.generation == 0 || s.expected_bits == 0 then err invalid_snapshot else ok tt

abbrev pub coin : ℕ
coin = 1_000_000

abbrev pub base_reward : ℕ
base_reward = 2_000 * coin

unfoldable pub block_subsidy : ℕ → ℕ → Result MiningError ℕ
block_subsidy height interval =
    if interval == 0
    then err invalid_halving_interval
    else ok (if leb 52 (height / interval) then 0 else base_reward / 2 ^ (height / interval))

unfoldable pub halving_interval : Network → ℕ
halving_interval regtest = 2_500
halving_interval mainnet = 170_000
halving_interval testnet = 170_000
halving_interval simnet = 170_000
