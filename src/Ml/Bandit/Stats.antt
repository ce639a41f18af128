-- ===== src/Ml/Bandit/Stats.antt =====
-- The statistics and the file of the bandit (ml-intelligence-03/ml/models/bandit.py). The rounding of
-- the statistics to four places is left out, and so is the variance of an arm.
use nimbus_net.Prelude.{
  ℕ, ◌+◌, ◌*◌, ◌≡◌, refl, arith, ap, String, Option, some, none, List, [], ◌∷◌, map, Dict,
}
use nimbus_net.Prelude.Int.{ℤ, pos, ◌+ℤ◌, ◌*ℤ◌, pos_part, neg_part, +ℤ_parts, int_laws}
use nimbus_net.Ml.Bandit.{RegionArm, Bandit, new_bandit, update, reward, recommend_weights, weigh}
use nimbus_net.Ml.Bandit.Rewards.{IsCounted, update-IsCounted}
use nimbus_net.Ml.Bandit.Gains.{Observation}

-- alpha / (alpha + beta), whose common denominator drops out
abbrev pub mean_reward : RegionArm → ℤ × ℤ
mean_reward a = (a.alpha, a.alpha +ℤ a.beta)

pub record ArmStats : Type 0 where
  pub alpha : ℤ × ℕ
  pub beta : ℤ × ℕ
  pub mean_reward : ℤ × ℤ
  pub total_decisions : ℕ
  pub last_rtt_us : ℕ

unfoldable pub stats_of : RegionArm → ArmStats
unfolding ◌+ℤ◌
stats_of a = record {
  alpha = (a.alpha, a.den);
  beta = (a.beta, a.den);
  mean_reward = mean_reward a;
  total_decisions = a.total_decisions;
  last_rtt_us = a.last_rtt_us;
}

unfoldable pub arm_stats : Bandit → Dict ArmStats
unfolding stats_of
arm_stats b = map (λ (e : String × RegionArm). (e.0, stats_of e.1)) b.arms

abbrev pub regions : Bandit → List String
regions b = map (λ (e : String × RegionArm). e.0) b.arms

-- The pickled dict; its `version` is never read. `none` is a missing key.
pub record Payload : Type 0 where
  pub arms : Dict RegionArm
  pub step : Option ℕ
  pub exploration_decay : Option ℕ

unfoldable pub save : Bandit → Payload
save b = record { arms = b.arms; step = some b.step; exploration_decay = some b.exploration_decay }

abbrev pub or_default : ℕ → Option ℕ → ℕ
or_default d none = d
or_default d (some n) = n

unfoldable pub load : Payload → Bandit
load p = record (new_bandit (or_default 999 p.exploration_decay)) {
  arms = p.arms;
  step = or_default 0 p.step;
}

abbrev pub weights_of : Option ((Dict ℕ × ℕ) × Bandit) → Option (Dict ℕ × ℕ)
weights_of none = none
weights_of (some (weights, b)) = some weights

weigh_undecayed :
    (raw : Dict RegionArm → Option (Dict ℕ × ℕ)) (arms : Dict RegionArm) (b c : Bandit)
    → weights_of (weigh raw arms b) ≡ weights_of (weigh raw arms c)
unfolding weigh
weigh_undecayed raw [] b c = refl
weigh_undecayed raw (arm ∷ arms) b c = ground arith

-- A saved bandit that is loaded again is the same; and how fast exploration is meant to decay makes
-- no difference to the weights.
pub load-save_bandit :
    (b : Bandit) (raw : Dict RegionArm → Option (Dict ℕ × ℕ)) (d : ℕ)
    → (load (save b) ≡ b)
      × (weights_of (recommend_weights raw (record b { exploration_decay = d }))
          ≡ weights_of (recommend_weights raw b))
unfolding load save recommend_weights
load-save_bandit b raw d = (refl, weigh_undecayed raw b.arms (record b { exploration_decay = d }) b)

-- What an arm has counted: the rewards are what `alpha` has beyond the 1 of a new arm.
pub record IsTallied (a : RegionArm) : Type 0 where
  pub counted : IsCounted a
  pub tally : a.alpha ≡ a.total_rewards +ℤ pos a.den

parts_of_tally :
    (a t : ℤ) (d : ℕ) → a ≡ t +ℤ pos d → pos_part a + neg_part t ≡ neg_part a + pos_part t + d
parts_of_tally a t d h = ground (arith, +ℤ_parts t (pos d))

tally_further :
    (a t : ℤ) (d r x : ℕ)
    → a ≡ t +ℤ pos d
    → a *ℤ r +ℤ pos (x * d) ≡ (t *ℤ r +ℤ pos (x * d)) +ℤ pos (d * r)
tally_further a t d r x h = omega (int_laws, ap (λ (u : ℕ). u * r) (parts_of_tally a t d h))

unfoldable pub update_all : List Observation → RegionArm → RegionArm
update_all [] a = a
update_all (o ∷ os) a = update_all os (update (reward o.old_rtt_us o.new_rtt_us) o.now a)

update-IsTallied :
    (a : RegionArm) (o : Observation)
    → IsTallied a
    → IsTallied (update (reward o.old_rtt_us o.new_rtt_us) o.now a)
unfolding update
update-IsTallied a o h =
    let w = reward o.old_rtt_us o.new_rtt_us in
    let next = update-IsCounted a o.old_rtt_us o.new_rtt_us o.now h.counted in
    record {
      counted = record { positive = next.positive; sum = next.sum };
      tally = tally_further a.alpha a.total_rewards a.den w.den w.num h.tally;
    }

pub update_all-IsTallied :
    (os : List Observation) (a : RegionArm) → IsTallied a → IsTallied (update_all os a)
unfolding update_all
update_all-IsTallied [] a h = h
update_all-IsTallied (o ∷ os) a h =
    update_all-IsTallied os (update (reward o.old_rtt_us o.new_rtt_us) o.now a)
      (update-IsTallied a o h)

-- The mean reward in the statistics of an arm is, after any observations, one more than the sum of
-- the rewards over two more than their number.
pub stats_tally :
    (a : RegionArm)
    → IsTallied a
    → (stats_of a).mean_reward
      ≡ (a.total_rewards +ℤ pos a.den, pos ((2 + a.total_decisions) * a.den))
unfolding stats_of
stats_tally a h = cc (h.tally, h.counted.sum)
