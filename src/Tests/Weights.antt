-- ===== src/Tests/Weights.antt =====
-- The bandit at concrete inputs (ml-intelligence-03/ml/models/bandit.py).
use nimbus_net.Prelude.{ℕ, ◌+◌, ◌*◌, ◌≤◌, ◌≡◌, refl, arith, [], ◌∷◌, length, Dict, lookup, some}
use nimbus_net.Prelude.Int.{◌+ℤ◌}
use nimbus_net.Ml.Bandit.{new_arm, apply_minimum_weight, RegionArm, total}
use nimbus_net.Ml.Bandit.Rewards.{IsCounted}
use nimbus_net.Ml.Bandit.Weights.{floor_bound}

abbrev arm : RegionArm
arm = new_arm "eu-west-1" 5

arm-IsCounted : IsCounted arm
unfolding new_arm ◌+ℤ◌
arm-IsCounted = record { positive = omega arith; sum = refl }

-- Raw weights over 100: one region is below the floor of 5.
abbrev raw_weights : Dict ℕ
raw_weights = ("us-east-1", 90) ∷ ("eu-west-1", 8) ∷ ("ap-south-1", 2) ∷ []

abbrev even_weights : Dict ℕ
even_weights = ("us-east-1", 60) ∷ ("eu-west-1", 40) ∷ []

total-raw_weights : total raw_weights ≡ 100
unfolding total
total-raw_weights = refl

lookup-raw_weights : lookup "ap-south-1" raw_weights ≡ some 2
unfolding lookup
lookup-raw_weights = refl

total-even_weights : total even_weights ≡ 100
unfolding total
total-even_weights = refl

lookup-even_weights : lookup "eu-west-1" even_weights ≡ some 40
unfolding lookup
lookup-even_weights = refl

floor_bound_example :
    (c : ℕ) × (lookup "ap-south-1" (apply_minimum_weight 100 raw_weights).0 ≡ some c)
    × ((apply_minimum_weight 100 raw_weights).1 ≤ c * (20 + length raw_weights))
floor_bound_example =
    floor_bound 100 raw_weights "ap-south-1" 2 total-raw_weights lookup-raw_weights
