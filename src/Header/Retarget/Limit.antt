-- ===== src/Header/Retarget/Limit.antt =====
-- The difficulty never falls below the limit of the network.
use hns_rs.Base.{
  ℕ, ◌-◌, ◌/◌, ◌*◌, ◌^◌, ◌≤◌, ◌<◌, ◌≡◌, ◌⊎◌, inl, inr, refl, sym, ap, subst, ◌∙◌, arith, Bool, true,
  false, not, ◌&&◌, Bool-cases, ltb, leb, ◌==◌, if◌then◌else◌, Option, some, none, Result, ok, err,
  Failure, returned, panic, ok_or, ◌>>=◌, ok-injective,
}
use hns_rs.Base.BigEndian.{from_be_bytes, to_be_bytes}
use hns_rs.Primitives.Chainwork.Laws.{IsWork, value}
use hns_rs.Primitives.Chainwork.Codec.{to_be_bytes_lem, from_be_bytes-to_be_bytes}
use hns_rs.Header.Codec.{HeaderError, invalid_difficulty, missing_difficulty_point}
use hns_rs.Header.Network.{
  PowParameters, parameters, Network, mainnet, testnet, regtest, simnet, hex32, hex_pairs,
  hex_nibble,
}
use hns_rs.Header.U256.Value.{IsNumber, number_lt}
use hns_rs.Header.Target.{to_compact, from_compact, place_mantissa, place_byte, put_at, from_first}
use hns_rs.Header.Target.Compact.{compact_value, compact_sign}
use hns_rs.Header.Target.Rounding.{to_compact-Rounds}
use hns_rs.Header.Retarget.{
  DifficultyPoint, retarget_bits, expected_next_bits, saturating_add_u64, saturating_add_u32,
}
use hns_rs.Header.Retarget.Laws.{
  compact_of, spec_limit, spec_timespan, spec_retarget, retarget_refines,
}

-- What the parameters of a network promise: the bits of the limit are its compact form, with a clear sign, and the bounds of
-- the time span are in order and positive.
pub record IsPow (p : PowParameters) : Type 0 where
  pub limit_number : IsNumber 32 p.limit
  pub limit_bits : compact_value p.bits ≡ from_be_bytes p.limit
  pub clear : compact_sign p.bits ≡ false
  pub ordered : p.minimum_actual_timespan ≤ p.maximum_actual_timespan
  pub positive : 0 < p.minimum_actual_timespan

-- The bits of every network decode to the bytes of its limit, and its parameters keep their promises.
pub network_limits :
    (n : Network)
    → IsPow (parameters n).pow
      × ((from_compact (parameters n).pow.bits).bytes ≡ (parameters n).pow.limit)
unfolding parameters from_compact place_mantissa place_byte put_at hex32 hex_pairs hex_nibble
    compact_value compact_sign from_be_bytes
network_limits mainnet = (
  record {
    limit_number = record { width = refl; bytes = omega arith };
    limit_bits = refl;
    clear = refl;
    ordered = omega arith;
    positive = omega arith;
  },
  refl,
)
network_limits testnet = (
  record {
    limit_number = record { width = refl; bytes = omega arith };
    limit_bits = refl;
    clear = refl;
    ordered = omega arith;
    positive = omega arith;
  },
  refl,
)
network_limits regtest = (
  record {
    limit_number = record { width = refl; bytes = omega arith };
    limit_bits = refl;
    clear = refl;
    ordered = omega arith;
    positive = omega arith;
  },
  refl,
)
network_limits simnet = (
  record {
    limit_number = record { width = refl; bytes = omega arith };
    limit_bits = refl;
    clear = refl;
    ordered = omega arith;
    positive = omega arith;
  },
  refl,
)

-- Bits that are no easier than the limit.
abbrev pub IsLimited : PowParameters → ℕ → Type 0
IsLimited p bits = (compact_sign bits ≡ false) × (compact_value bits ≤ from_be_bytes p.limit)

own_bits-IsLimited : (p : PowParameters) → IsPow p → IsLimited p p.bits
own_bits-IsLimited p h = (h.clear, omega (arith, h.limit_bits))

compact_zero : compact_of 0 ≡ 0
unfolding to_compact from_first
compact_zero = refl

compact_of-IsLimited :
    (p : PowParameters) (n : ℕ) → IsPow p → n ≤ from_be_bytes p.limit → IsLimited p (compact_of n)
unfolding compact_value compact_sign
compact_of-IsLimited p n h k = elim (zero_or n) [
  | inl nothing ↦
      subst (λ bits. IsLimited p bits) (sym (ap compact_of nothing ∙ compact_zero))
        (refl, omega arith)
  | inr positive ↦
      let small : n < 256 ^ 32 = omega (arith, k, number_lt p.limit h.limit_number) in
      let (_, width, bytes) = to_be_bytes_lem 32 n in
      let exact = from_be_bytes-to_be_bytes 32 n small in
      let (clear, below, _) =
        to_compact-Rounds (record { bytes = to_be_bytes 32 n; negative = false; overflow = false })
          (record { width = width; bytes = bytes }) (omega (arith, exact, positive)) in
      (clear, omega (arith, below, exact, k))
]
  where
    zero_or : (n : ℕ) → (n ≡ 0) ⊎ (0 < n)
    zero_or n = ground arith

spec_limit-IsLimited : (p : PowParameters) (work : ℕ) → IsPow p → IsLimited p (spec_limit p work)
unfolding spec_limit
spec_limit-IsLimited p work h = elim (Bool-cases (work == 0)) [
  | inl nothing ↦ rw nothing (own_bits-IsLimited p h)
  | inr some_work ↦ elim (Bool-cases (ltb (from_be_bytes p.limit) (2 ^ 256 / work - 1))) [
    | inl easy ↦ rw (some_work, easy) (own_bits-IsLimited p h)
    | inr hard ↦
        rw (some_work, hard) (compact_of-IsLimited p (2 ^ 256 / work - 1) h (ground (arith, hard)))
  ]
]

guarded_ok :
    (a b c d z : Bool) (e p : Failure HeaderError) (r : Result (Failure HeaderError) ℕ) {bits : ℕ}
    → (if a
        then err e
        else if b
        then err e
        else if c
        then err e
        else if d
        then err p
        else if z
        then err e
        else r)
      ≡ ok bits
    → r ≡ ok bits
guarded_ok a b c d z e p r h = ground (arith, h)

spec_retarget-IsLimited :
    (p : PowParameters) (first last : DifficultyPoint) (bits : ℕ)
    → IsPow p
    → spec_retarget p first last ≡ ok bits
    → IsLimited p bits
unfolding spec_retarget
spec_retarget-IsLimited p first last bits h e =
    let limited =
      spec_limit-IsLimited p
        ((value last.chainwork - value first.chainwork)
          * p.target_spacing
          / spec_timespan p (last.time - first.time))
        h in
    let final =
      guarded_ok (leb last.height first.height) (ltb (value last.chainwork) (value first.chainwork))
        (leb (2 ^ 256) ((value last.chainwork - value first.chainwork) * p.target_spacing))
        (ltb p.maximum_actual_timespan p.minimum_actual_timespan)
        (spec_timespan p (last.time - first.time) == 0) (returned invalid_difficulty) panic _ e in
    subst (λ n. IsLimited p n) (ok-injective final) limited

-- The work of the points that the caller gives.
abbrev pub HasWork : Option DifficultyPoint → Type 0
HasWork none = Unit
HasWork (some point) = IsWork point.chainwork

suitable_points :
    (p : PowParameters) (first last : Option DifficultyPoint) (bits : ℕ)
    → IsPow p
    → HasWork first
    → HasWork last
    → (ok_or first (returned missing_difficulty_point) >>= λ (a : DifficultyPoint).
        ok_or last (returned missing_difficulty_point) >>= λ (b : DifficultyPoint).
        retarget_bits p a b)
      ≡ ok bits
    → IsLimited p bits
suitable_points p none last bits h f l e = cc
suitable_points p (some a) none bits h f l e = cc
suitable_points p (some a) (some b) bits h f l e =
    spec_retarget-IsLimited p a b bits h (sym (retarget_refines p a b h.limit_number f l) ∙ e)

chosen :
    (test : Bool) (a : ℕ) (r : Result (Failure HeaderError) ℕ) (bits : ℕ)
    → (if test then ok a else r) ≡ ok bits
    → (a ≡ bits) ⊎ (r ≡ ok bits)
chosen true a r bits h = inl (ok-injective h)
chosen false a r bits h = inr h

refused_or :
    (test : Bool) (e : Failure HeaderError) (a bits : ℕ)
    → (if test then err e else ok a) ≡ ok bits
    → a ≡ bits
refused_or true e a bits h = cc
refused_or false e a bits h = ok-injective h

early :
    (test differs : Bool) (e : Failure HeaderError) (a : ℕ) (r : Result (Failure HeaderError) ℕ)
    (bits : ℕ)
    → (if test then (if differs then err e else ok a) else r) ≡ ok bits
    → (a ≡ bits) ⊎ (r ≡ ok bits)
early true differs e a r bits h = inl (refused_or differs e a bits h)
early false differs e a r bits h = inr h

-- With the parameters of a network, or any that keep the same promises, whatever bits are expected of the next header
-- stand for a target with a clear sign that is at most the limit of the network.
pub expected_next_bits-IsLimited :
    (p : PowParameters) (time : ℕ) (previous : DifficultyPoint)
    (first last : Option DifficultyPoint) (bits : ℕ)
    → IsPow p
    → HasWork first
    → HasWork last
    → expected_next_bits p time previous first last ≡ ok bits
    → IsLimited p bits
unfolding expected_next_bits
expected_next_bits-IsLimited p time previous first last bits h f l e =
    let own = λ (same : p.bits ≡ bits). subst (λ n. IsLimited p n) same (own_bits-IsLimited p h) in
    elim (chosen p.no_retargeting p.bits _ bits e) [
      | inl same ↦ own same
      | inr past ↦
          elim (chosen
            (p.target_reset && ltb (saturating_add_u64 previous.time (p.target_spacing * 2)) time)
            p.bits _ bits past) [
              | inl same ↦ own same
              | inr later ↦
                  elim (early (ltb previous.height (saturating_add_u32 p.target_window 2))
                    (not (previous.bits == p.bits)) (returned invalid_difficulty) p.bits _ bits
                    later) [
                      | inl same ↦ own same
                      | inr points ↦ suitable_points p first last bits h f l points
                    ]
            ]
    ]
