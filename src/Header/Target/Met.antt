-- ===== src/Header/Target/Met.antt =====
-- When a hash meets a compact target, and the work that a compact target proves.
use hns_rs.Base.{
  ℕ, ◌+◌, ◌/◌, ◌*◌, ◌^◌, ◌≤◌, ◌<◌, ◌≡◌, ◌⊎◌, inl, inr, refl, ap, ◌∙◌, arith, Bool, true, false, not,
  ◌&&◌, Bool-cases, [], ◌∷◌, length, ltb, leb, some, none,
}
use hns_rs.Base.Bytes.{Bytes}
use hns_rs.Base.BigEndian.{from_be_bytes, pow_pos}
use hns_rs.Primitives.Chainwork.{Limbs, work_from_be_bytes}
use hns_rs.Primitives.Chainwork.Laws.{IsWork, value}
use hns_rs.Primitives.Chainwork.Codec.{value-work_from_be_bytes}
use hns_rs.Header.U256.Value.{IsNumber, is_less_lem, number_lt}
use hns_rs.Header.U256.Work.{work_for_target_exact}
use hns_rs.Header.Target.{from_compact, any_nonzero, is_valid, is_met_by, proof}
use hns_rs.Header.Target.Compact.{compact_value, compact_sign, from_compact_exact}

times_pos : (a b : ℕ) → 0 < a → 0 < b → 0 < a * b
times_pos a b h k = grind arith

-- Some byte is not zero exactly when the number is not zero.
any_nonzero_lem : (xs : Bytes) → any_nonzero xs ≡ ltb 0 (from_be_bytes xs)
unfolding any_nonzero from_be_bytes
any_nonzero_lem [] = refl
any_nonzero_lem (x ∷ xs) = elim (zero_or x) [
  | inl none_here ↦
      rw none_here (any_nonzero_lem xs ∙ ap (ltb 0) (no_high (256 ^ length xs) (from_be_bytes xs)))
  | inr some_here ↦
      let high = times_pos x (256 ^ length xs) some_here (pow_pos 256 (length xs) (omega arith)) in
      ground (arith, some_here, high)
]
  where
    zero_or : (x : ℕ) → (x ≡ 0) ⊎ (0 < x)
    zero_or x = ground arith

    no_high : (w v : ℕ) → v ≡ 0 * w + v
    no_high w v = omega arith

-- A compact target that can be met: it is positive, its sign is clear, and it fits in 256 bits.
abbrev pub sound : ℕ → Bool
sound bits =
    not (compact_sign bits) && ltb 0 (compact_value bits) && ltb (compact_value bits) (2 ^ 256)

-- The bytes of a decoded target that is not too large, and nothing of one that is.
pub decoded_cases :
    (bits : ℕ)
    → IsNumber 32 (from_compact bits).bytes
      × ((from_compact bits).negative ≡ compact_sign bits)
      × (((from_compact bits).overflow ≡ false)
            × (from_be_bytes (from_compact bits).bytes ≡ compact_value bits)
            × (compact_value bits < 2 ^ 256)
          ⊎ ((from_compact bits).overflow ≡ true) × (2 ^ 256 ≤ compact_value bits))
decoded_cases bits =
    let ((number, cases), sign) = from_compact_exact bits in
    elim cases [
      | inl (clear, exact) ↦
          (number, sign, inl (clear, exact, omega (arith, exact, number_lt _ number)))
      | inr (over, big) ↦ (number, sign, inr (over, big))
    ]

pub is_valid-from_compact : (bits : ℕ) → is_valid (from_compact bits) ≡ sound bits
unfolding is_valid
is_valid-from_compact bits =
    let (number, sign, cases) = decoded_cases bits in
    elim cases [
      | inl (clear, exact, small) ↦
          rw (sign, clear, any_nonzero_lem (from_compact bits).bytes, exact) (ground (arith, small))
      | inr (over, big) ↦ rw (sign, over) (ground (arith, big))
    ]

-- A hash meets a compact target exactly when the target has a clear sign, is positive and below 2^256, and the hash, as a
-- big-endian number, is at most the target.
pub is_met_by-from_compact :
    (bits : ℕ) (hash : Bytes)
    → IsNumber 32 hash
    → is_met_by (from_compact bits) hash
      ≡ (sound bits && leb (from_be_bytes hash) (compact_value bits))
unfolding is_met_by
is_met_by-from_compact bits hash h =
    let (number, sign, cases) = decoded_cases bits in
    elim cases [
      | inl (clear, exact, small) ↦
          rw
            (
              is_valid-from_compact bits,
              is_less_lem 32 (from_compact bits).bytes hash number h,
              exact,
            )
            (ap (λ b. sound bits && b) (not_less (compact_value bits) (from_be_bytes hash)))
      | inr (over, big) ↦ rw (is_valid-from_compact bits) (ground (arith, big))
    ]
  where
    not_less : (a b : ℕ) → not (ltb a b) ≡ leb b a
    not_less a b = ground arith

-- The work that a compact target proves is 2^256 divided by the target plus one, rounded down, as four limbs of 64 bits.
-- There is none for a target that is negative, zero, or 2^256 or more.
pub proof_exact :
    (bits : ℕ)
    → ((sound bits ≡ false) × (proof (from_compact bits) ≡ none))
      ⊎ ((sound bits ≡ true)
          × ((w : Limbs) × (proof (from_compact bits) ≡ some w)
              × IsWork w
              × (value w ≡ 2 ^ 256 / (compact_value bits + 1))))
unfolding proof
proof_exact bits = elim (Bool-cases (sound bits)) [
  | inr bad ↦ inl (bad, rw (is_valid-from_compact bits, bad) refl)
  | inl good ↦
      let (number, sign, cases) = decoded_cases bits in
      elim cases [
        | inr (over, big) ↦ absurd (ground (arith, good, big))
        | inl (clear, exact, small) ↦ elim (work_for_target_exact _ number) [
          | inl (nothing, _) ↦ absurd (ground (arith, good, nothing, exact))
          | inr (positive, (w, run, wide, quotient)) ↦
              let (same, work) = value-work_from_be_bytes w wide.width wide.bytes in
              inr (
                good,
                (
                  work_from_be_bytes w,
                  rw (is_valid-from_compact bits, good, run) refl,
                  work,
                  same ∙ quotient ∙ ap (λ n. 2 ^ 256 / (n + 1)) exact,
                ),
              )
        ]
      ]
]
