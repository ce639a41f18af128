-- ===== src/Ml/Pipeline.antt =====
-- ml-intelligence-03/ml/pipeline/scoring_pipeline.py: one metric through all four models, as they
-- are modelled. The forest's score and the network's confidence are millionths, the classifier's
-- confidence and the region's weight exact fractions. The time that scoring takes is not kept; `now`
-- is the clock of the feature vector and of the bandit.
pub mod Ensemble
pub mod Evict
pub mod Flows
pub mod Room
pub mod Windows
pub mod Scores
pub mod Stops
use nimbus_net.Prelude.{
  ℕ, ◌+◌, ◌-◌, ◌*◌, String, Bool, true, false, ◌&&◌, Option, none, some, List, [], ◌∷◌, ◌++◌, ltb,
  leb, length, if◌then◌else◌, Dict, lookup, insert, remove,
}
use nimbus_net.Prelude.Text.{◌++ₛ◌}
use nimbus_net.Prelude.Fractions.{Ratio, micro, below_pct, add, Weighted, weighted_mean}
use nimbus_net.Ml.Bandit.{Bandit, RegionArm, recommend_weights, observe}
use nimbus_net.Ml.Flywheel.{FaultType, FaultSeverity, is_at_least_degraded}
use nimbus_net.Ml.Features.{AggregatedMetric, FeatureVector, extract}
use nimbus_net.Ml.Lstm.{Numpy, Lstm, new_lstm, push, predict, reset}
use nimbus_net.Ml.Classifier.{Backend, Classifier, Probs, classify}
use nimbus_net.Ml.Forest.{Sklearn, Forest}
use nimbus_net.Ml.Forest

-- `source`, the scores, the decision and `model_versions`.
pub record MlScoredMetric : Type 0 where
  pub features : FeatureVector
  pub isolation_forest_score : ℕ
  pub lstm_fault_type : FaultType
  pub lstm_confidence : ℕ
  pub xgboost_severity : FaultSeverity
  pub xgboost_confidence : Ratio
  pub bandit_routing_weight : Ratio
  pub should_trigger_failover : Bool
  pub failover_confidence : Ratio
  pub forest_version : String
  pub lstm_version : String
  pub xgboost_version : String

abbrev pub if_failover_threshold : ℕ
if_failover_threshold = 700000

abbrev pub lstm_confidence_min : ℕ
lstm_confidence_min = 600000

abbrev pub bandit_low_weight_pct : ℕ
bandit_low_weight_pct = 20

abbrev pub if_corroborate_threshold : ℕ
if_corroborate_threshold = 500000

abbrev pub max_flow_lstms : ℕ
max_flow_lstms = 10000

abbrev pub signal_if : Bool → Ratio → ℕ → Weighted
signal_if b r weight = if b then (r, weight) ∷ [] else []

-- (xgb_conf + lstm_conf) / 2.0
abbrev pub score_b : Ratio → ℕ → Ratio
score_b xgb_conf lstm_conf =
    let both = add xgb_conf (micro lstm_conf) in record { num = both.num; den = 2 * both.den }

-- (1.0 - region_weight / 0.20) * if_score, for a weight below 0.20
abbrev pub score_c : Ratio → ℕ → Ratio
score_c weight if_score = record {
  num = (weight.den - 5 * weight.num) * if_score;
  den = weight.den * 1000000;
}

-- The tests of the three paths.
abbrev pub path_a : ℕ → Bool
path_a if_score = leb if_failover_threshold if_score

abbrev pub path_b : FaultSeverity → ℕ → Bool
path_b severity lstm_conf = is_at_least_degraded severity && leb lstm_confidence_min lstm_conf

abbrev pub path_c : Ratio → ℕ → Bool
path_c weight if_score =
    below_pct bandit_low_weight_pct weight && leb if_corroborate_threshold if_score

unfoldable pub triggered_signals : ℕ → FaultSeverity → Ratio → ℕ → Ratio → Weighted
triggered_signals if_score severity xgb_conf lstm_conf weight =
    signal_if (path_a if_score) (micro if_score) 40
    ++ (signal_if (path_b severity lstm_conf) (score_b xgb_conf lstm_conf) 40
        ++ signal_if (path_c weight if_score) (score_c weight if_score) 20)

unfoldable pub ensemble_decision : ℕ → FaultSeverity → Ratio → ℕ → Ratio → Bool × Ratio
unfolding triggered_signals
ensemble_decision if_score severity xgb_conf lstm_conf weight =
    elim (triggered_signals if_score severity xgb_conf lstm_conf weight) [
      | [] ↦ (false, record { num = 0; den = 1 })
      | s ∷ ss ↦ (true, weighted_mean (s ∷ ss))
    ]

pub record Pipeline (Vec Mat Model Calibrator Trees : Type 0) : Type 0 where
  pub isolation_forest : Forest Model Calibrator
  pub lstm_template : Lstm Vec Mat
  pub xgboost : Classifier Trees
  pub bandit : Bandit
  pub flow_lstms : Dict (Lstm Vec Mat)
  pub prev_rtt_by_region : Dict ℕ

abbrev pub flow_key : AggregatedMetric → String
flow_key m = m.src_ip ++ₛ "→" ++ₛ m.dst_ip

abbrev pub rtt_changed : AggregatedMetric → Dict ℕ → Dict ℕ
rtt_changed m d = if ltb 0 m.rtt_ewma_us then insert m.region m.rtt_ewma_us d else d

-- `observe` only with a round trip and a previous one of the region.
abbrev pub observed : ℕ → AggregatedMetric → Option ℕ → Bandit → Bandit
observed now m none b = b
observed now m (some old) b =
    if ltb 0 m.rtt_ewma_us then observe m.region old m.rtt_ewma_us now b else b

-- weights.get(region, 1.0)
abbrev pub weight_of : String → Dict ℕ × ℕ → Ratio
weight_of region (ws, total) = elim (lookup region ws) [
  | none ↦ record { num = 1; den = 1 }
  | some w ↦ record { num = w; den = total }
]

module _ {Vec Mat : Type 0} where
  -- The template's weights with a window and a version of their own.
  unfoldable pub clone : Lstm Vec Mat → Lstm Vec Mat
  clone t = record (new_lstm t.seq_len t.hidden_size t.n_classes) {
    lstm1 = t.lstm1;
    lstm2 = t.lstm2;
    w_out = t.w_out;
    b_out = t.b_out;
  }

  -- `del` of the oldest key
  unfoldable pub evict : Dict (Lstm Vec Mat) → Dict (Lstm Vec Mat)
  evict [] = []
  evict ((k, l) ∷ d) =
      if leb max_flow_lstms (length ((k, l) ∷ d)) then remove k ((k, l) ∷ d) else (k, l) ∷ d

  unfoldable pub get_flow_lstm :
      Lstm Vec Mat → String → Dict (Lstm Vec Mat) → Lstm Vec Mat × Dict (Lstm Vec Mat)
  unfolding clone evict
  get_flow_lstm t key d = elim (lookup key d) [
    | some l ↦ (l, d)
    | none ↦ (clone t, insert key (clone t) (evict d))
  ]

  -- The flow's network with the vector in its window, and the table that holds it.
  unfoldable pub pushed :
      Lstm Vec Mat
      → String
      → FeatureVector
      → Dict (Lstm Vec Mat)
      → Lstm Vec Mat × Dict (Lstm Vec Mat)
  unfolding get_flow_lstm push
  pushed t key fv d =
      let (l, d1) = get_flow_lstm t key d in let l1 = push fv.values l in (l1, insert key l1 d1)

module _ {Vec Mat Model Calibrator Trees : Type 0} (log1p : Ratio → Ratio) (np : Numpy Vec Mat)
    (sk : Sklearn Model Calibrator) (b : Backend Trees)
    (raw : Dict RegionArm → Option (Dict ℕ × ℕ)) where
  abbrev Scoring : Type 0
  Scoring = Pipeline Vec Mat Model Calibrator Trees

  -- The bandit's part and the decision, behind the three models; `none` where the sampler raises.
  unfoldable pub finish_score :
      ℕ
      → FeatureVector
      → ℕ
      → String
      → FaultType × ℕ
      → FaultSeverity × Ratio × Probs
      → Scoring
      → Option MlScoredMetric × Scoring
  unfolding ensemble_decision
  finish_score now fv if_score lstm_version (fault_type, lstm_conf) (severity, xgb_conf, _) p =
      elim (recommend_weights raw p.bandit) [
        | none ↦ (none, p)
        | some (weights, b1) ↦
            let m = fv.source in
            let weight = weight_of m.region weights in
            let b2 = observed now m (lookup m.region p.prev_rtt_by_region) b1 in
            let (should_failover, failover_conf) =
              ensemble_decision if_score severity xgb_conf lstm_conf weight in
            (
              some (record {
                features = fv;
                isolation_forest_score = if_score;
                lstm_fault_type = fault_type;
                lstm_confidence = lstm_conf;
                xgboost_severity = severity;
                xgboost_confidence = xgb_conf;
                bandit_routing_weight = weight;
                should_trigger_failover = should_failover;
                failover_confidence = failover_conf;
                forest_version = p.isolation_forest.version_hash;
                lstm_version = lstm_version;
                xgboost_version = p.xgboost.version_hash;
              }),
              record p { bandit = b2; prev_rtt_by_region = rtt_changed m p.prev_rtt_by_region },
            )
      ]

  -- `none` where a model raises; a flow's window has the vector by then, unless the forest raised.
  unfoldable pub score : ℕ → AggregatedMetric → Scoring → Option MlScoredMetric × Scoring
  unfolding pushed finish_score
  score now m p =
      let fv = extract log1p now m in
      elim (Forest.score sk fv.values p.isolation_forest) [
        | none ↦ (none, p)
        | some if_score ↦
            let (l, flows) = pushed p.lstm_template (flow_key m) fv p.flow_lstms in
            let p1 = record p { flow_lstms = flows } in
            elim (predict np l) [
              | none ↦ (none, p1)
              | some fault ↦ elim (classify b fv.values (some fault.0) p1.xgboost) [
                | none ↦ (none, p1)
                | some severity ↦ finish_score now fv if_score l.version_hash fault severity p1
              ]
            ]
      ]

  unfoldable pub update_bandit : String → ℕ → ℕ → ℕ → Scoring → Scoring
  update_bandit region_id old_rtt_us new_rtt_us now p = record p {
    bandit = observe region_id old_rtt_us new_rtt_us now p.bandit;
  }

  unfoldable pub reset_flow : String → Scoring → Scoring
  unfolding reset
  reset_flow key p = elim (lookup key p.flow_lstms) [
    | none ↦ p
    | some l ↦ record p { flow_lstms = insert key (reset l) p.flow_lstms }
  ]
