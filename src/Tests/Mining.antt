-- ===== src/Tests/Mining.antt =====
-- The theorems on Merkle roots at lists of hashes, and the subsidy around a halving.
use hns_rs.Base.{ℕ, ◌≡◌, ◌<◌, ◌⊎◌, refl, arith, [], ◌∷◌, ◌++◌, List, ok}
use hns_rs.Base.Bytes.{Bytes, zeros}
use hns_rs.Hash.{Blake2b, Collision}
use hns_rs.Header.Network.{regtest}
use hns_rs.Tests.Padding.{pad, length-pad}
use hns_rs.Mining.{block_subsidy, halving_interval}
use hns_rs.Mining.Merkle.{blake2b_256_many, leaves, levels, next_level, merkle_root}
use hns_rs.Mining.Merkle.Laws.{after, levels_end, merkle_root_binding}

instance abbrev padded : Blake2b
padded = record { digest = pad 32; length-digest = length-pad 32 }

subsidy_test : block_subsidy 5_000 (halving_interval regtest) ≡ ok 500_000_000
unfolding block_subsidy halving_interval
subsidy_test = refl

abbrev three_hashes : List Bytes
three_hashes = zeros 32 ∷ (1 ∷ zeros 31) ∷ (2 ∷ zeros 31) ∷ []

levels_end_example :
    (rounds : ℕ) × (node : Bytes) × (rounds < 3)
    × (after rounds three_hashes ≡ node ∷ [])
    × (levels 3 three_hashes ≡ node)
levels_end_example = levels_end 3 three_hashes (omega arith) (omega arith)

-- Two hashes that differ only in the byte that the padded function cuts off.
abbrev one_hash : List Bytes
one_hash = (zeros 31 ++ (1 ∷ [])) ∷ []

abbrev other_hash : List Bytes
other_hash = (zeros 31 ++ (2 ∷ [])) ∷ []

same_root : merkle_root one_hash ≡ merkle_root other_hash
unfolding merkle_root leaves levels next_level blake2b_256_many pad
same_root = refl

merkle_root_binding_example : (one_hash ≡ other_hash) ⊎ Collision
merkle_root_binding_example = merkle_root_binding one_hash other_hash refl same_root
