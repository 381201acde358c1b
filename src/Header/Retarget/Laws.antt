-- ===== src/Header/Retarget/Laws.antt =====
-- The retargeting of the difficulty against natural numbers.
use Prim.Native.Nat.{min, max}
use hns_rs.Base.{
  ℕ, ◌-◌, ◌/◌, ◌*◌, ◌^◌, ◌<◌, ◌≤◌, ◌≡◌, inl, inr, refl, sym, ap, ◌∙◌, arith, Bool, true, false,
  Bool-cases, [], ◌∷◌, ltb, leb, ◌==◌, if◌then◌else◌, Result, ok, err, Failure, returned, panic,
  map_err, ◌>>=◌,
}
use hns_rs.Base.Bytes.{Bytes, bytes_eq}
use hns_rs.Base.BigEndian.{from_be_bytes, to_be_bytes, from_be_bytes_injective}
use hns_rs.Primitives.Chainwork.{
  Limbs, ArithmeticError, zero_limbs, checked_mul_u64, checked_div_u64, work_to_be_bytes,
}
use hns_rs.Primitives.Chainwork.Laws.{IsWork, value}
use hns_rs.Primitives.Chainwork.Codec.{
  work_to_be_bytes_lem, to_be_bytes_lem, from_be_bytes-to_be_bytes,
}
use hns_rs.Primitives.Chainwork.Cases.{sub_cases, mul_cases, div_cases}
use hns_rs.Header.Codec.{HeaderError, invalid_difficulty}
use hns_rs.Header.Network.{PowParameters}
use hns_rs.Header.U256.{is_less}
use hns_rs.Header.U256.Value.{IsNumber, is_less_lem, number_lt}
use hns_rs.Header.U256.Work.{target_for_work_exact}
use hns_rs.Header.Target.{to_compact}
use hns_rs.Header.Retarget.{DifficultyPoint, clamp, actual_timespan, limit_target, retarget_bits}

-- The compact target of a number of at most 32 bytes.
abbrev pub compact_of : ℕ → ℕ
compact_of n = to_compact (record { bytes = to_be_bytes 32 n; negative = false; overflow = false })

-- The target that `work` hashes are expected to meet, no easier than the limit, in compact form.
unfoldable pub spec_limit : PowParameters → ℕ → ℕ
spec_limit parameters work =
    if work == 0
    then parameters.bits
    else if ltb (from_be_bytes parameters.limit) (2 ^ 256 / work - 1)
    then parameters.bits
    else compact_of (2 ^ 256 / work - 1)

-- The seconds between two times, brought into the bounds.
unfoldable pub spec_timespan : PowParameters → ℕ → ℕ
spec_timespan parameters elapsed =
    if ltb elapsed parameters.minimum_actual_timespan
    then parameters.minimum_actual_timespan
    else if ltb parameters.maximum_actual_timespan elapsed
    then parameters.maximum_actual_timespan
    else elapsed

-- The work between two blocks, scaled from the time that it took to the time that it should take.
unfoldable pub spec_retarget :
    PowParameters → DifficultyPoint → DifficultyPoint → Result (Failure HeaderError) ℕ
spec_retarget parameters first last =
    let delta = value last.chainwork - value first.chainwork in
    let timespan = spec_timespan parameters (last.time - first.time) in
    if leb last.height first.height
    then err (returned invalid_difficulty)
    else if ltb (value last.chainwork) (value first.chainwork)
    then err (returned invalid_difficulty)
    else if leb (2 ^ 256) (delta * parameters.target_spacing)
    then err (returned invalid_difficulty)
    else if ltb parameters.maximum_actual_timespan parameters.minimum_actual_timespan
    then err panic
    else if timespan == 0
    then err (returned invalid_difficulty)
    else ok (spec_limit parameters (delta * parameters.target_spacing / timespan))

bounded :
    (parameters : PowParameters) (n : ℕ)
    → parameters.minimum_actual_timespan ≤ parameters.maximum_actual_timespan
    → max parameters.minimum_actual_timespan (min n parameters.maximum_actual_timespan)
      ≡ spec_timespan parameters n
unfolding spec_timespan
bounded parameters n h = ground (arith, h)

actual_timespan_lem :
    (parameters : PowParameters) (first last : DifficultyPoint)
    → actual_timespan parameters first last ≡ (
        if ltb parameters.maximum_actual_timespan parameters.minimum_actual_timespan
        then err panic
        else ok (spec_timespan parameters (last.time - first.time)))
unfolding actual_timespan clamp
actual_timespan_lem parameters first last =
    elim (Bool-cases (ltb parameters.maximum_actual_timespan parameters.minimum_actual_timespan)) [
      | inl crossed ↦ rw crossed refl
      | inr ordered ↦
          rw ordered (ap ok (bounded parameters (last.time - first.time) (ground (arith, ordered))))
    ]

number_bytes : (t : Bytes) → IsNumber 32 t → t ≡ to_be_bytes 32 (from_be_bytes t)
number_bytes t h =
    let (_, width, bytes) = to_be_bytes_lem 32 (from_be_bytes t) in
    let back = from_be_bytes-to_be_bytes 32 (from_be_bytes t) (number_lt t h) in
    from_be_bytes_injective t (to_be_bytes 32 (from_be_bytes t)) (h.width ∙ sym width) h.bytes bytes
      (sym back)

zero_limbs_iff : (a : Limbs) → IsWork a → bytes_eq a zero_limbs ≡ (value a == 0)
unfolding value bytes_eq
zero_limbs_iff [] h = ground (arith, h.four)
zero_limbs_iff (a ∷ []) h = ground (arith, h.four)
zero_limbs_iff (a ∷ b ∷ []) h = ground (arith, h.four)
zero_limbs_iff (a ∷ b ∷ c ∷ []) h = ground (arith, h.four)
zero_limbs_iff (a ∷ b ∷ c ∷ d ∷ []) h = ground arith
zero_limbs_iff (a ∷ b ∷ c ∷ d ∷ e ∷ l) h = ground (arith, h.four)

limit_target_lem :
    (parameters : PowParameters) (work : Limbs)
    → IsNumber 32 parameters.limit
    → IsWork work
    → limit_target parameters work ≡ ok (spec_limit parameters (value work))
unfolding limit_target spec_limit
limit_target_lem parameters work limit h =
    let (exact, width, bytes) = work_to_be_bytes_lem work h.limbs in
    let number : IsNumber 32 (work_to_be_bytes work) = record {
      width = omega (arith, width, h.four);
      bytes = bytes;
    } in
    elim (Bool-cases (value work == 0)) [
      | inl nothing ↦ rw (zero_limbs_iff work h, nothing) refl
      | inr positive ↦
          let order : 0 < value work = ground (arith, positive) in
          elim (target_for_work_exact (work_to_be_bytes work) number) [
            | inl (zero_work, _) ↦ absurd (omega (arith, zero_work, exact, order))
            | inr (_, (t, run, wide, target)) ↦
                let amount : from_be_bytes t ≡ 2 ^ 256 / value work - 1 =
                  omega (arith, target, ap (λ (n : ℕ). 2 ^ 256 / n) exact) in
                let same : t ≡ to_be_bytes 32 (2 ^ 256 / value work - 1) =
                  number_bytes t wide ∙ ap (to_be_bytes 32) amount in
                let bound : is_less parameters.limit t
                    ≡ ltb (from_be_bytes parameters.limit) (2 ^ 256 / value work - 1) =
                  is_less_lem 32 parameters.limit t limit wide
                  ∙ ap (ltb (from_be_bytes parameters.limit)) amount in
                rw (zero_limbs_iff work h, positive, run, bound, same)
                  (elim (Bool-cases
                    (ltb (from_be_bytes parameters.limit) (2 ^ 256 / value work - 1))) [
                      | inl easy ↦ rw easy refl
                      | inr hard ↦ rw hard refl
                    ])
          ]
    ]

divided :
    (parameters : PowParameters) (work : Limbs) (timespan amount : ℕ) (crossed : Bool)
    → IsNumber 32 parameters.limit
    → IsWork work
    → value work ≡ amount
    → ((if crossed then err panic else ok timespan) >>= λ divisor.
        map_err
          (λ (_ : ArithmeticError). returned invalid_difficulty)
          (checked_div_u64 work divisor)
        >>= λ quotient. limit_target parameters quotient)
      ≡ (if crossed
          then err panic
          else if timespan == 0
          then err (returned invalid_difficulty)
          else ok (spec_limit parameters (amount / timespan)))
divided parameters work timespan amount true limit h e = refl
divided parameters work timespan amount false limit h e = elim (div_cases work timespan h) [
  | inl (nothing, failed) ↦
      let clamped : (timespan == 0) ≡ true = ground (arith, nothing) in rw (failed, clamped) refl
  | inr (positive, (quotient, done, small, exact)) ↦
      let clamped : (timespan == 0) ≡ false = ground (arith, positive) in
      rw (done, clamped)
        (limit_target_lem parameters quotient limit small
          ∙ ap (λ n. ok (spec_limit parameters n)) (exact ∙ ap (λ (n : ℕ). n / timespan) e))
]

scaled :
    (parameters : PowParameters) (first last : DifficultyPoint) (work : Limbs) (delta : ℕ)
    → IsNumber 32 parameters.limit
    → IsWork work
    → value work ≡ delta
    → (map_err
          (λ (_ : ArithmeticError). returned invalid_difficulty)
          (checked_mul_u64 work parameters.target_spacing)
        >>= λ product. actual_timespan parameters first last >>= λ timespan.
            map_err (λ _. returned invalid_difficulty) (checked_div_u64 product timespan)
            >>= λ quotient. limit_target parameters quotient)
      ≡ (if leb (2 ^ 256) (delta * parameters.target_spacing)
          then err (returned invalid_difficulty)
          else if ltb parameters.maximum_actual_timespan parameters.minimum_actual_timespan
          then err panic
          else if spec_timespan parameters (last.time - first.time) == 0
          then err (returned invalid_difficulty)
          else ok (
              spec_limit parameters (
                delta
                * parameters.target_spacing
                / spec_timespan parameters (last.time - first.time))))
scaled parameters first last work delta limit h e =
    elim (mul_cases work parameters.target_spacing h) [
      | inl (over, run) ↦
          let test : leb (2 ^ 256) (delta * parameters.target_spacing) ≡ true =
            ground (arith, over, ap (λ n. n * parameters.target_spacing) e) in
          rw (run, test) refl
      | inr (fits, (product, run, wide, exact)) ↦
          let test : leb (2 ^ 256) (delta * parameters.target_spacing) ≡ false =
            ground (arith, fits, ap (λ n. n * parameters.target_spacing) e) in
          let amount = exact ∙ ap (λ n. n * parameters.target_spacing) e in
          rw (run, test, actual_timespan_lem parameters first last)
            (divided parameters product (spec_timespan parameters (last.time - first.time)) _
              (ltb parameters.maximum_actual_timespan parameters.minimum_actual_timespan) limit wide
              amount)
    ]

-- The next bits after a retarget are, with the proofs of work of the two blocks read as natural numbers: an error if the
-- last block is no higher than the first, has less work, or the work between them times the spacing is 2^256 or more; then a
-- panic if the bounds of the time span are not in order; then an error if the time span is zero; and otherwise the compact
-- target for that scaled work divided by the time span, or the bits of the limit where there is no such work or its target is
-- above the limit. The time span is the minimum where the seconds from the first block to the last, none if the last is
-- earlier, are fewer, the maximum where they are more, and those seconds otherwise.
pub retarget_refines :
    (parameters : PowParameters) (first last : DifficultyPoint)
    → IsNumber 32 parameters.limit
    → IsWork first.chainwork
    → IsWork last.chainwork
    → retarget_bits parameters first last ≡ spec_retarget parameters first last
unfolding retarget_bits spec_retarget
retarget_refines parameters first last limit h k =
    elim (Bool-cases (ltb first.height last.height)) [
      | inr flat ↦
          let order : leb last.height first.height ≡ true = ground (arith, flat) in
          rw (flat, order) refl
      | inl up ↦
          let order : leb last.height first.height ≡ false = ground (arith, up) in
          elim (sub_cases last.chainwork first.chainwork k h) [
            | inl (less, run) ↦
                let test : ltb (value last.chainwork) (value first.chainwork) ≡ true =
                  ground (arith, less) in
                rw (up, order, run, test) refl
            | inr (more, (delta, run, wide, difference)) ↦
                let test : ltb (value last.chainwork) (value first.chainwork) ≡ false =
                  ground (arith, more) in
                let step =
                  scaled parameters first last delta (value last.chainwork - value first.chainwork)
                    limit wide difference in
                rw (up, order, run, test) step
          ]
    ]
