-- ===== src/Tests/Halts.antt =====
-- Scoring that comes to a halt, at concrete inputs (ml-intelligence-03/ml).
use nimbus_net.Prelude.{
  ℕ, zero, suc, ◌≡◌, refl, arith, String, none, some, List, [], ◌∷◌, length, All, Dict, false,
  lookup,
}
use nimbus_net.Prelude.Int.{pos, ◌≤ℤ◌}
use nimbus_net.Ml.Bandit.{new_bandit, RegionArm, new_arm}
use nimbus_net.Ml.Bandit.Gains.{Observation, IsSmallGain, IsSampler}
use nimbus_net.Ml.Pipeline.{Pipeline, score}
use nimbus_net.Ml.Pipeline.Windows.{handle_all}
use nimbus_net.Ml.Pipeline.Stops.{updates_of, small_gains_stop_scoring}
use nimbus_net.Tests.Models.{metric, log1p, np, backend, bad, sk}
use nimbus_net.Tests.Scoring.{positive, raw, pipeline}

unsampled :
    (arms : Dict RegionArm) (r : String) (a : RegionArm)
    → lookup r arms ≡ some a
    → a.beta ≤ℤ pos 0
    → positive arms ≡ false
unfolding lookup
unsampled [] r a at h = cc
unsampled ((k, v) ∷ arms) r a at h = ground (arith, unsampled arms r a)

raw-IsSampler : IsSampler raw
raw-IsSampler = record { raises = λ arms r a at h. rw (unsampled arms r a at h) refl }

abbrev times : ℕ → Observation → List Observation
times zero o = []
times (suc n) o = o ∷ times n o

-- From 100 to 96 milliseconds.
abbrev better : Observation
better = record { old_rtt_us = 100000; new_rtt_us = 96000; now = 7 }

better-IsSmallGain : IsSmallGain 25 better
better-IsSmallGain = record { small = omega arith; gain = omega arith; better = omega arith }

times-IsSmallGain : (n : ℕ) → All (IsSmallGain 25) (times n better)
times-IsSmallGain zero = tt
times-IsSmallGain (suc n) = (better-IsSmallGain, times-IsSmallGain n)

length-times : length (times 25 better) ≡ 25
length-times = refl

abbrev watched : Pipeline (List ℕ) ℕ ℕ ℕ ℕ
watched = record pipeline {
  bandit = record (new_bandit 999) { arms = ("eu-west-1", new_arm "eu-west-1" 5) ∷ [] };
}

watched_arm : lookup "eu-west-1" watched.bandit.arms ≡ some (new_arm "eu-west-1" 5)
unfolding lookup
watched_arm = refl

small_gains_stop_scoring_example :
    (score log1p np sk (backend bad) raw 9 metric (
      handle_all log1p np sk
        (backend bad)
        raw
        (updates_of "eu-west-1" (times 25 better))
        watched)).0
    ≡ none
small_gains_stop_scoring_example =
    small_gains_stop_scoring log1p np sk (backend bad) raw "eu-west-1" 5 25 (times 25 better) 9
      metric watched raw-IsSampler watched_arm (omega arith) (times-IsSmallGain 25) (omega arith)
