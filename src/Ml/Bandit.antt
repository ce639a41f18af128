-- ===== src/Ml/Bandit.antt =====
-- ml-intelligence-03/ml/models/bandit.py: the bandit that shares traffic between regions.
-- Rewards and the parameters of an arm are exact fractions: `alpha`, `beta` and `total_rewards` are
-- numerators over the arm's `den`. Round-trip times are whole microseconds, as the probes give
-- them. The sampling and the softmax are numpy's: an argument gives the raw weights as numerators
-- over a common denominator, or `none` where the sampler raises.
pub mod Rewards
pub mod Gains
pub mod Stats
pub mod Weights
use nimbus_net.Prelude.{
  ℕ, ◌+◌, ◌-◌, ◌*◌, max, String, Option, some, none, List, [], ◌∷◌, leb, ltb, ◌==◌, if◌then◌else◌,
  Dict, lookup, insert, remove,
}
use nimbus_net.Prelude.Fractions.{Ratio}
use nimbus_net.Prelude.Int.{ℤ, pos, ◌+ℤ◌, ◌-ℤ◌, ◌*ℤ◌}

pub record RegionArm : Type 0 where
  pub region_id : String
  pub alpha : ℤ
  pub beta : ℤ
  pub den : ℕ
  pub total_decisions : ℕ
  pub total_rewards : ℤ
  pub last_rtt_us : ℕ
  pub last_updated_at : ℕ

-- `exploration_decay` is in thousandths. The state of the random generator is the sampler's.
pub record Bandit : Type 0 where
  pub exploration_decay : ℕ
  pub arms : Dict RegionArm
  pub step : ℕ

abbrev pub new_bandit : ℕ → Bandit
new_bandit exploration_decay = record { exploration_decay = exploration_decay; arms = []; step = 0 }

unfoldable pub new_arm : String → ℕ → RegionArm
new_arm region_id now = record {
  region_id = region_id;
  alpha = pos 1;
  beta = pos 1;
  den = 1;
  total_decisions = 0;
  total_rewards = pos 0;
  last_rtt_us = 0;
  last_updated_at = now;
}

-- alpha += reward, beta += 1.0 - reward
unfoldable pub update : Ratio → ℕ → RegionArm → RegionArm
update r now a = record a {
  alpha = a.alpha *ℤ r.den +ℤ pos (r.num * a.den);
  beta = a.beta *ℤ r.den +ℤ (pos r.den -ℤ pos r.num) *ℤ a.den;
  den = a.den * r.den;
  total_decisions = a.total_decisions + 1;
  total_rewards = a.total_rewards *ℤ r.den +ℤ pos (r.num * a.den);
  last_updated_at = now;
}

unfoldable pub add_region : String → ℕ → Bandit → Bandit
add_region region_id now b = elim (lookup region_id b.arms) [
  | none ↦ record b { arms = insert region_id (new_arm region_id now) b.arms }
  | some _ ↦ b
]

unfoldable pub remove_region : String → Bandit → Bandit
remove_region region_id b = record b { arms = remove region_id b.arms }

-- The branches of `observe` that choose the reward. In the last one `max(0.0, …)` is the truncated
-- difference, and `max(old_rtt_us, 1)` is `old_rtt_us`, which is not 0 there.
unfoldable pub reward : ℕ → ℕ → Ratio
reward old_rtt_us new_rtt_us =
    if old_rtt_us == 0
    then record { num = 1; den = 2 }
    else if leb (100 * new_rtt_us) (95 * old_rtt_us)
    then record { num = 1; den = 1 }
    else if ltb (11 * old_rtt_us) (10 * new_rtt_us)
    then record { num = 0; den = 1 }
    else record { num = old_rtt_us + old_rtt_us - new_rtt_us; den = max old_rtt_us 1 }

unfoldable pub observe : String → ℕ → ℕ → ℕ → Bandit → Bandit
observe region_id old_rtt_us new_rtt_us now b = elim (lookup region_id b.arms) [
  | none ↦ b
  | some arm ↦ record b {
    arms =
        insert region_id
          (record (update (reward old_rtt_us new_rtt_us) now arm) { last_rtt_us = new_rtt_us })
          b.arms;
  }
]

-- A weight w/s against the floor of 1/20: max(w/s, 1/20) is `clip s w` over 20 * s.
unfoldable pub clip : ℕ → ℕ → ℕ
clip s w = max (20 * w) s

unfoldable pub clip_all : ℕ → Dict ℕ → Dict ℕ
clip_all s [] = []
clip_all s ((r, w) ∷ ws) = (r, clip s w) ∷ clip_all s ws

unfoldable pub total : Dict ℕ → ℕ
total [] = 0
total ((r, w) ∷ ws) = w + total ws

-- The weights after the floor: numerators, and the total that they are divided by.
unfoldable pub apply_minimum_weight : ℕ → Dict ℕ → Dict ℕ × ℕ
apply_minimum_weight s ws = (clip_all s ws, total (clip_all s ws))

-- `if not self._arms: return {}`; `raw` stands for the samples and their softmax: the numerators
-- of the arms over a denominator, or `none` where the sampler raises.
unfoldable pub weigh :
    (Dict RegionArm → Option (Dict ℕ × ℕ))
    → Dict RegionArm
    → Bandit
    → Option ((Dict ℕ × ℕ) × Bandit)
weigh raw [] b = some (([], 1), b)
weigh raw (arm ∷ arms) b = elim (raw (arm ∷ arms)) [
  | none ↦ none
  | some (ws, s) ↦ some (apply_minimum_weight s ws, record b { step = b.step + 1 })
]

unfoldable pub recommend_weights :
    (Dict RegionArm → Option (Dict ℕ × ℕ)) → Bandit → Option ((Dict ℕ × ℕ) × Bandit)
unfolding weigh
recommend_weights raw b = weigh raw b.arms b
