-- ===== src/Header/Retarget.antt =====
-- crates/hns-header-consensus/src/lib.rs: the difficulty that the next header must have.
pub mod Laws
pub mod Limit
use Prim.Native.Nat.{min, max}
use hns_rs.Base.{
  ℕ, ◌+◌, ◌-◌, ◌*◌, ◌^◌, Bool, true, false, not, ◌&&◌, ltb, leb, ◌==◌, if◌then◌else◌, Option, some,
  none, Result, ok, err, Failure, returned, panic, ◌>>=◌, ◌>>◌, ensure, ok_or, map_err,
}
use hns_rs.Base.Bytes.{bytes_eq}
use hns_rs.Primitives.Chainwork.{
  Limbs, zero_limbs, checked_sub_work, checked_mul_u64, checked_div_u64, work_to_be_bytes,
}
use hns_rs.Header.Codec.{HeaderError, invalid_difficulty, missing_difficulty_point}
use hns_rs.Header.Network.{PowParameters}
use hns_rs.Header.U256.{is_less, target_for_work}
use hns_rs.Header.Target.{DecodedTarget, to_compact}

pub record DifficultyPoint : Type 0 where
  pub height : ℕ
  pub time : ℕ
  pub bits : ℕ
  pub chainwork : Limbs

abbrev pub u64_max : ℕ
u64_max = 2 ^ 64 - 1

-- `saturating_add` of `u64` and of `u32`.
abbrev pub saturating_add_u64 : ℕ → ℕ → ℕ
saturating_add_u64 a b = min (a + b) u64_max

abbrev pub saturating_add_u32 : ℕ → ℕ → ℕ
saturating_add_u32 a b = min (a + b) (2 ^ 32 - 1)

-- `clamp` of `u64`, which panics when its bounds are not in order.
unfoldable pub clamp : {E : Type 0} → ℕ → ℕ → ℕ → Result (Failure E) ℕ
clamp value low high = if ltb high low then err panic else ok (max low (min value high))

unfoldable pub actual_timespan :
    PowParameters → DifficultyPoint → DifficultyPoint → Result (Failure HeaderError) ℕ
actual_timespan parameters first last =
    clamp (last.time - first.time) parameters.minimum_actual_timespan
      parameters.maximum_actual_timespan

-- What follows the computation of the target.
unfoldable pub limit_target : PowParameters → Limbs → Result (Failure HeaderError) ℕ
limit_target parameters work = if bytes_eq work zero_limbs then ok parameters.bits else do
  target ← ok_or (target_for_work (work_to_be_bytes work)) (returned invalid_difficulty)
  if is_less parameters.limit target
      then ok parameters.bits
      else ok (to_compact (record { bytes = target; negative = false; overflow = false }))

unfoldable pub retarget_bits :
    PowParameters → DifficultyPoint → DifficultyPoint → Result (Failure HeaderError) ℕ
retarget_bits parameters first last = do
  ensure (ltb first.height last.height) (returned invalid_difficulty)
  work_delta ←
      map_err (λ _. returned invalid_difficulty) (checked_sub_work last.chainwork first.chainwork)
  scaled_work ←
      map_err (λ _. returned invalid_difficulty)
        (checked_mul_u64 work_delta parameters.target_spacing)
  timespan ← actual_timespan parameters first last
  work ← map_err (λ _. returned invalid_difficulty) (checked_div_u64 scaled_work timespan)
  limit_target parameters work

unfoldable pub expected_next_bits :
    PowParameters
    → ℕ
    → DifficultyPoint
    → Option DifficultyPoint
    → Option DifficultyPoint
    → Result (Failure HeaderError) ℕ
expected_next_bits parameters next_time previous first_suitable last_suitable =
    if parameters.no_retargeting
    then ok parameters.bits
    else if parameters.target_reset
        && ltb (saturating_add_u64 previous.time (parameters.target_spacing * 2)) next_time
    then ok parameters.bits
    else if ltb previous.height (saturating_add_u32 parameters.target_window 2)
    then if not (previous.bits == parameters.bits)
      then err (returned invalid_difficulty)
      else ok parameters.bits
    else do
      first ← ok_or first_suitable (returned missing_difficulty_point)
      last ← ok_or last_suitable (returned missing_difficulty_point)
      retarget_bits parameters first last
