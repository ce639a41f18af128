-- ===== src/Ml/Pipeline/Scores.antt =====
-- A whole score of ml-intelligence-03/ml/pipeline/scoring_pipeline.py, through the models.
use nimbus_net.Prelude.{
  Option, String, ◌∙◌, ℕ, ◌<◌, ◌≡◌, inl, inr, refl, ap, arith, true, none, some, [], ◌∷◌, ◌++◌,
  length, Dict, lookup,
}
use nimbus_net.Prelude.Fractions.{Ratio}
use nimbus_net.Ml.Bandit.{Bandit, RegionArm, recommend_weights}
use nimbus_net.Ml.Features.{AggregatedMetric, FeatureVector, extract}
use nimbus_net.Ml.Flywheel.{FaultType, unknown, FaultSeverity, is_at_least_degraded}
use nimbus_net.Ml.Lstm.{Numpy, Lstm, LstmCell, keep_last, predict}
use nimbus_net.Ml.Lstm.Window.{length-keep_last_le}
use nimbus_net.Ml.Classifier.{Backend, Probs, classify}
use nimbus_net.Ml.Forest.{Sklearn}
use nimbus_net.Ml.Forest
use nimbus_net.Ml.Pipeline.{
  Pipeline, MlScoredMetric, flow_key, clone, pushed, finish_score, score, weight_of,
}
use nimbus_net.Ml.Pipeline.Ensemble.{ensemble_decision_paths}
use nimbus_net.Ml.Pipeline.Flows.{IsTable, window_at, pushed_lem}
use nimbus_net.Ml.Pipeline.Room.{window_at-none}

module _ {Vec Mat Model Calibrator Trees : Type 0} (log1p : Ratio → Ratio) (np : Numpy Vec Mat)
    (sk : Sklearn Model Calibrator) (b : Backend Trees)
    (raw : Dict RegionArm → Option (Dict ℕ × ℕ)) where
  -- A score that is returned comes from all four models.
  score_inv :
      (now : ℕ) (m : AggregatedMetric) (p : Pipeline Vec Mat Model Calibrator Trees) (f : ℕ)
      (fault : FaultType × ℕ) (severity : FaultSeverity × Ratio × Probs)
      → let fv = extract log1p now m in
        let (l, flows) = pushed p.lstm_template (flow_key m) fv p.flow_lstms in
        let p1 = record p { flow_lstms = flows } in
        Forest.score sk fv.values p.isolation_forest ≡ some f
        → predict np l ≡ some fault
        → classify b fv.values (some fault.0) p.xgboost ≡ some severity
        → (score log1p np sk b raw now m p).0
          ≡ (finish_score log1p np sk b raw now fv f l.version_hash fault severity p1).0
  unfolding score
  score_inv now m p f fault severity a c d = ground arith

  predict_short :
      (l : Lstm Vec Mat) (cell : LstmCell Vec Mat)
      → l.lstm1 ≡ some cell
      → length l.window < 2
      → predict np l ≡ some (unknown, 1000000)
  unfolding predict
  predict_short l cell e h = ground arith

  -- The first vector of a flow that has no network yet.
  first_prediction :
      (m : AggregatedMetric) (fv : FeatureVector) (cell : LstmCell Vec Mat)
      (p : Pipeline Vec Mat Model Calibrator Trees)
      → IsTable p.lstm_template p.flow_lstms
      → lookup (flow_key m) p.flow_lstms ≡ none
      → p.lstm_template.lstm1 ≡ some cell
      → predict np (pushed p.lstm_template (flow_key m) fv p.flow_lstms).0 ≡ some (unknown, 1000000)
  unfolding clone
  first_prediction m fv cell p table fresh loaded =
      let (_, same) = pushed_lem p.lstm_template (flow_key m) fv p.flow_lstms table in
      let empty = window_at-none (flow_key m) p.flow_lstms fresh in
      let n = p.lstm_template.seq_len in
      let short : length (keep_last n (window_at (flow_key m) p.flow_lstms ++ fv.values ∷ [])) < 2 =
        rw empty (omega (arith, length-keep_last_le n (fv.values ∷ []))) in
      rw same (predict_short _ cell loaded short)

  -- The end of a score in which the network is sure and the classifier finds the metric bad.
  finish_sure :
      (now : ℕ) (fv : FeatureVector) (f : ℕ) (version : String) (s : FaultSeverity) (conf : Ratio)
      (probs : Probs) (p : Pipeline Vec Mat Model Calibrator Trees) (ws : Dict ℕ × ℕ) (b1 : Bandit)
      → recommend_weights raw p.bandit ≡ some (ws, b1)
      → is_at_least_degraded s ≡ true
      → (r : MlScoredMetric) × ((finish_score log1p np sk b raw now fv f version
            (unknown, 1000000)
            (s, conf, probs)
            p).0
          ≡ some r)
        × (r.should_trigger_failover ≡ true)
        × (r.lstm_fault_type ≡ unknown)
        × (r.lstm_confidence ≡ 1000000)
  unfolding finish_score
  finish_sure now fv f version s conf probs p ws b1 sampled bad =
      let weight = weight_of fv.source.region ws in
      let decided =
        (ensemble_decision_paths f s conf 1000000 weight).0.1 (inr (inl (bad, omega arith))) in
      rw (sampled, finish_score) (_, refl, decided, refl, refl)

  -- The first metric of a flow: the network has nothing to go by, and says so with full confidence,
  -- as a fault of unknown type. So whenever the classifier alone finds the metric degraded or worse,
  -- and the bandit's sampler does not raise, a failover is triggered, although the second path is
  -- meant to want the network's confirmation.
  pub first_metric_fails_over :
      (now : ℕ) (m : AggregatedMetric) (p : Pipeline Vec Mat Model Calibrator Trees) (f : ℕ)
      (cell : LstmCell Vec Mat) (s : FaultSeverity) (conf : Ratio) (probs : Probs) (ws : Dict ℕ × ℕ)
      (b1 : Bandit)
      → IsTable p.lstm_template p.flow_lstms
      → lookup (flow_key m) p.flow_lstms ≡ none
      → Forest.score sk (extract log1p now m).values p.isolation_forest ≡ some f
      → p.lstm_template.lstm1 ≡ some cell
      → classify b (extract log1p now m).values (some unknown) p.xgboost ≡ some (s, conf, probs)
      → is_at_least_degraded s ≡ true
      → recommend_weights raw p.bandit ≡ some (ws, b1)
      → (r : MlScoredMetric) × ((score log1p np sk b raw now m p).0 ≡ some r)
        × (r.should_trigger_failover ≡ true)
        × (r.lstm_fault_type ≡ unknown)
        × (r.lstm_confidence ≡ 1000000)
  first_metric_fails_over now m p f cell s conf probs ws b1 table fresh forest loaded classified bad
        sampled =
      let fv = extract log1p now m in
      let (l, flows) = pushed p.lstm_template (flow_key m) fv p.flow_lstms in
      let p1 = record p { flow_lstms = flows } in
      let (r, scored, decided, kind, conf_of) =
        finish_sure now fv f l.version_hash s conf probs p1 ws b1 sampled bad in
      let through =
        score_inv now m p f (unknown, 1000000) (s, conf, probs) forest
          (first_prediction m fv cell p table fresh loaded) classified in
      (r, through ∙ scored, decided, kind, conf_of)

  -- Where the sampler raises, no metric is scored, and the bandit stays as it is.
  pub score_needs_samples :
      (now : ℕ) (m : AggregatedMetric) (p : Pipeline Vec Mat Model Calibrator Trees)
      → recommend_weights raw p.bandit ≡ none
      → ((score log1p np sk b raw now m p).0 ≡ none)
        × ((score log1p np sk b raw now m p).1.bandit ≡ p.bandit)
  unfolding score finish_score
  score_needs_samples now m p h = ground arith

  -- A score never names the version of the network: the flows' networks do not take it over from the
  -- template.
  pub score_names_no_version :
      (now : ℕ) (m : AggregatedMetric) (p : Pipeline Vec Mat Model Calibrator Trees)
      (r : MlScoredMetric)
      → IsTable p.lstm_template p.flow_lstms
      → (score log1p np sk b raw now m p).0 ≡ some r
      → r.lstm_version ≡ ""
  unfolding score finish_score clone
  score_names_no_version now m p r table h =
      let fv = extract log1p now m in
      let (_, same) = pushed_lem p.lstm_template (flow_key m) fv p.flow_lstms table in
      let none_named = ap (λ (l : Lstm Vec Mat). l.version_hash) same in ground (arith, none_named)
