-- ===== src/Ml/Forest.antt =====
-- ml-intelligence-03/ml/models/isolation_forest.py: the anomaly probability of a feature vector. The
-- trees and the calibration are scikit-learn's: a `Sklearn` says what they give, `none` where it
-- raises. Scores and probabilities are whole numbers of millionths. A pickled file is read back as
-- it was written.
pub mod Order
pub mod Files
use nimbus_net.Prelude.{
  ℕ, ◌+◌, String, Bool, true, false, Option, none, some, List, [], ◌∷◌, ◌++◌, length, leb, min, map,
  ◌==◌, if◌then◌else◌,
}
use nimbus_net.Prelude.Int.{ℤ, pos, negsuc, pos_part, ◌*ℤ◌}
use nimbus_net.Prelude.Fractions.{Ratio}
use nimbus_net.Ml.Features.{n_features}

-- `fit` takes the number of trees, that of the samples of a tree, the contamination, the seed and
-- the rows. `percentile`, `lowest` and `highest` are numpy's, `logistic x` is 1.0 / (1.0 + exp(x)).
-- `fit_isotonic` is `IsotonicRegression(out_of_bounds="clip")` fitted to points.
pub record Sklearn (Model Calibrator : Type 0) : Type 0 where
  pub fit : ℕ → ℕ → Ratio → ℕ → List (List Ratio) → Option Model
  pub score_samples : Model → List Ratio → ℤ
  pub fit_isotonic : List ℤ → List ℕ → Calibrator
  pub predict : Calibrator → ℤ → ℤ
  pub percentile : ℕ → List ℤ → ℤ
  pub lowest : List ℤ → ℤ
  pub highest : List ℤ → ℤ
  pub logistic : ℤ → ℤ
  pub digest : ℕ → ℕ → ℕ → String

pub record Forest (Model Calibrator : Type 0) : Type 0 where
  pub n_estimators : ℕ
  pub max_samples : ℕ
  pub contamination : Ratio
  pub random_state : ℕ
  pub model : Option Model
  pub calibrator : Option Calibrator
  pub trained_at : Option ℕ
  pub training_samples : ℕ
  pub version_hash : String

-- A two-dimensional array: how many columns it has, and its rows.
pub record Table : Type 0 where
  pub columns : ℕ
  pub rows : List (List Ratio)

abbrev pub anomaly_threshold : ℕ
anomaly_threshold = 700000

-- np.clip(x, 0.0, 1.0)
abbrev pub clip : ℤ → ℕ
clip x = min (pos_part x) 1000000

abbrev pub replicate {ℓ} : {A B : Type ℓ} → B → List A → List B
replicate x [] = []
replicate x (a ∷ as') = x ∷ replicate x as'

module _ {Model Calibrator : Type 0} (sk : Sklearn Model Calibrator) where
  unfoldable pub fit_calibrator_unsupervised : List ℤ → Calibrator
  fit_calibrator_unsupervised raw =
      sk.fit_isotonic
        (sk.lowest raw
          ∷ sk.percentile 5 raw
          ∷ sk.percentile 50 raw
          ∷ sk.percentile 95 raw
          ∷ sk.highest raw
          ∷ [])
        (1000000 ∷ 900000 ∷ 300000 ∷ 50000 ∷ 0 ∷ [])

  -- `now` is the clock behind the training; `none` where it raises.
  unfoldable pub bootstrap : ℕ → Table → Forest Model Calibrator → Option (Forest Model Calibrator)
  unfolding fit_calibrator_unsupervised
  bootstrap now normal f =
      let n = length normal.rows in
      let fitted : Option (Forest Model Calibrator) =
        elim (sk.fit f.n_estimators (min f.max_samples n) f.contamination f.random_state
          normal.rows) [
            | none ↦ none
            | some m ↦ some (record f {
              model = some m;
              calibrator =
                  some (fit_calibrator_unsupervised (map (sk.score_samples m) normal.rows));
              trained_at = some now;
              training_samples = n;
              version_hash = sk.digest f.n_estimators n now;
            })
          ] in
      if normal.columns == n_features then fitted else none

  -- The labels are 0 for a normal and 1 for an anomalous row.
  unfoldable pub retrain :
      ℕ
      → List (List Ratio)
      → List (List Ratio)
      → Forest Model Calibrator
      → Option (Forest Model Calibrator)
  retrain now normal anomalies f =
      let all = normal ++ anomalies in
      let share : Ratio = record { num = length anomalies; den = length all } in
      let labels = replicate 0 normal ++ replicate 1000000 anomalies in
      elim (sk.fit f.n_estimators (min f.max_samples (length all)) share f.random_state all) [
        | none ↦ none
        | some m ↦ some (record f {
          model = some m;
          calibrator = some (sk.fit_isotonic (map (sk.score_samples m) all) labels);
          trained_at = some now;
          training_samples = length all;
          version_hash = sk.digest f.n_estimators (length all) now;
        })
      ]

  unfoldable pub calibrated : Option Calibrator → ℤ → ℕ
  calibrated none raw = clip (sk.logistic (raw *ℤ 10))
  calibrated (some c) raw = clip (sk.predict c raw)

  -- `none` is the RuntimeError of a forest that is not trained.
  unfoldable pub score : List Ratio → Forest Model Calibrator → Option ℕ
  unfolding calibrated
  score v f = elim f.model [
    | none ↦ none
    | some m ↦ some (calibrated f.calibrator (sk.score_samples m v))
  ]

  unfoldable pub score_batch : List (List Ratio) → Forest Model Calibrator → Option (List ℕ)
  unfolding calibrated
  score_batch vs f = elim f.model [
    | none ↦ none
    | some m ↦ some (map (λ v. calibrated f.calibrator (sk.score_samples m v)) vs)
  ]

  unfoldable pub is_anomaly : List Ratio → Forest Model Calibrator → Option (Bool × ℕ)
  unfolding score
  is_anomaly v f = elim (score v f) [
    | none ↦ none
    | some prob ↦ some (leb anomaly_threshold prob, prob)
  ]
