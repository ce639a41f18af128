-- ===== src/Ml/Pipeline/Stops.antt =====
-- When scoring comes to a halt (ml-intelligence-03/ml/pipeline/scoring_pipeline.py, over the sampler
-- of ml-intelligence-03/ml/models/bandit.py).
use nimbus_net.Prelude.{
  ℕ, ◌≤◌, ◌<◌, ◌≡◌, refl, ap, ◌∙◌, String, Option, none, some, List, [], ◌∷◌, length, map, All,
  Dict, lookup,
}
use nimbus_net.Prelude.Fractions.{Ratio}
use nimbus_net.Ml.Bandit.{RegionArm, new_arm, recommend_weights}
use nimbus_net.Ml.Bandit.Gains.{
  Observation, IsSmallGain, IsSampler, observe_all, small_gains_stop_sampling,
}
use nimbus_net.Ml.Features.{AggregatedMetric}
use nimbus_net.Ml.Lstm.{Numpy}
use nimbus_net.Ml.Classifier.{Backend}
use nimbus_net.Ml.Forest.{Sklearn}
use nimbus_net.Ml.Pipeline.{Pipeline, score, update_bandit}
use nimbus_net.Ml.Pipeline.Windows.{Event, updates, handle_all}
use nimbus_net.Ml.Pipeline.Scores.{score_needs_samples}

-- The observations of one region, as what is asked of the pipeline.
abbrev pub updates_of : String → List Observation → List Event
updates_of r os = map (λ (o : Observation). updates r o.old_rtt_us o.new_rtt_us o.now) os

module _ {Vec Mat Model Calibrator Trees : Type 0} (log1p : Ratio → Ratio) (np : Numpy Vec Mat)
    (sk : Sklearn Model Calibrator) (b : Backend Trees)
    (raw : Dict RegionArm → Option (Dict ℕ × ℕ)) where
  handle_all-updates_of :
      (r : String) (os : List Observation) (p : Pipeline Vec Mat Model Calibrator Trees)
      → (handle_all log1p np sk b raw (updates_of r os) p).bandit ≡ observe_all r os p.bandit
  unfolding handle_all observe_all update_bandit
  handle_all-updates_of r [] p = refl
  handle_all-updates_of r (o ∷ os) p =
      handle_all-updates_of r os
        (update_bandit log1p np sk b raw r o.old_rtt_us o.new_rtt_us o.now p)

  -- A new region whose round trips keep getting better, each time by less than 5% and by at least a
  -- k-th: after k observations its `beta` is not positive any more, and with a sampler that raises
  -- for such an arm the pipeline scores no metric of any flow.
  pub small_gains_stop_scoring :
      (r : String) (created k : ℕ) (os : List Observation) (now : ℕ) (m : AggregatedMetric)
      (p : Pipeline Vec Mat Model Calibrator Trees)
      → IsSampler raw
      → lookup r p.bandit.arms ≡ some (new_arm r created)
      → 0 < k
      → All (IsSmallGain k) os
      → k ≤ length os
      → (score log1p np sk b raw now m (handle_all log1p np sk b raw (updates_of r os) p)).0 ≡ none
  small_gains_stop_scoring r created k os now m p sampler at some_k gains enough =
      let stopped =
        small_gains_stop_sampling raw r created k os p.bandit sampler at some_k gains enough in
      let same = handle_all-updates_of r os p in
      (score_needs_samples log1p np sk b raw now m
        (handle_all log1p np sk b raw (updates_of r os) p)
        (ap (recommend_weights raw) same ∙ stopped)).0
