-- ===== src/Ml/Forest/Order.antt =====
-- The order of the anomaly probabilities of ml-intelligence-03/ml/models/isolation_forest.py.
use nimbus_net.Prelude.{
  ℕ, ◌*◌, ◌≤◌, ◌<◌, ◌≡◌, inl, inr, refl, arith, true, none, some, List, [], ◌∷◌, ◌++◌, length,
  length-append, Option-cases, min, map,
}
use nimbus_net.Prelude.Int.{ℤ, ◌≤ℤ◌}
use nimbus_net.Prelude.Fractions.{Ratio}
use nimbus_net.Ml.Forest.{
  Sklearn, Forest, Table, bootstrap, retrain, score, is_anomaly, calibrated, clip, replicate,
  fit_calibrator_unsupervised,
}

-- What scikit-learn documents: an isotonic regression does not decrease in its argument, unless it
-- is told to; and the contamination of an isolation forest is at most 0.5, or fitting raises.
pub record IsSklearn {Model Calibrator : Type 0} (sk : Sklearn Model Calibrator) : Type 0 where
  pub isotonic :
      (xs : List ℤ) (ys : List ℕ) (x y : ℤ)
      → x ≤ℤ y
      → sk.predict (sk.fit_isotonic xs ys) x ≤ℤ sk.predict (sk.fit_isotonic xs ys) y
  pub contaminated :
      (n k : ℕ) (c : Ratio) (seed : ℕ) (rows : List (List Ratio))
      → c.den < 2 * c.num
      → sk.fit n k c seed rows ≡ none

module _ {Model Calibrator : Type 0} (sk : Sklearn Model Calibrator) where
  -- A forest that comes out of a training.
  pub data IsTrained (f : Forest Model Calibrator) : Type 0 where
    bootstrapped :
        (g : Forest Model Calibrator) (now : ℕ) (t : Table)
        → bootstrap sk now t g ≡ some f
        → IsTrained f
    retrained :
        (g : Forest Model Calibrator) (now : ℕ) (normal anomalies : List (List Ratio))
        → retrain sk now normal anomalies g ≡ some f
        → IsTrained f

  trained_model :
      (f : Forest Model Calibrator)
      → IsTrained f
      → (m : Model) × (xs : List ℤ) × (ys : List ℕ) × (f.model ≡ some m)
        × (f.calibrator ≡ some (sk.fit_isotonic xs ys))
  unfolding bootstrap retrain fit_calibrator_unsupervised
  trained_model f (bootstrapped g now t h) =
      elim (Option-cases (
        sk.fit g.n_estimators (min g.max_samples (length t.rows)) g.contamination g.random_state
          t.rows)) [
            | inl e ↦ absurd (ground arith)
            | inr (m, e) ↦ (
              m,
              sk.lowest (map (sk.score_samples m) t.rows)
                  ∷ sk.percentile 5 (map (sk.score_samples m) t.rows)
                  ∷ sk.percentile 50 (map (sk.score_samples m) t.rows)
                  ∷ sk.percentile 95 (map (sk.score_samples m) t.rows)
                  ∷ sk.highest (map (sk.score_samples m) t.rows)
                  ∷ [],
              1000000 ∷ 900000 ∷ 300000 ∷ 50000 ∷ 0 ∷ [],
              ground arith,
              ground arith,
            )
          ]
  trained_model f (retrained g now normal anomalies h) =
      let all = normal ++ anomalies in
      let share : Ratio = record { num = length anomalies; den = length all } in
      elim (Option-cases
        (sk.fit g.n_estimators (min g.max_samples (length all)) share g.random_state all)) [
          | inl e ↦ absurd (ground arith)
          | inr (m, e) ↦ (
            m,
            map (sk.score_samples m) all,
            replicate 0 normal ++ replicate 1000000 anomalies,
            ground arith,
            ground arith,
          )
        ]

  module _ (documented : IsSklearn sk) where
    -- After any training the probabilities are turned around: scikit-learn's raw scores are lower for
    -- more anomalous vectors, and a vector with a lower raw score never gets a higher probability. So
    -- whenever a vector counts as an anomaly, every vector that is less anomalous counts as one too.
    pub less_anomalous_scores_higher :
        (f : Forest Model Calibrator) (v w : List Ratio)
        → IsTrained f
        → (m : Model) × (p : ℕ) × (q : ℕ) × (f.model ≡ some m)
          × (score sk v f ≡ some p)
          × (score sk w f ≡ some q)
          × (sk.score_samples m v ≤ℤ sk.score_samples m w
              → (p ≤ q) × (is_anomaly sk v f ≡ some (true, p) → is_anomaly sk w f ≡ some (true, q)))
    unfolding score is_anomaly calibrated
    less_anomalous_scores_higher f v w t =
        let (m, xs, ys, model, calibrator) = trained_model f t in
        let c = sk.fit_isotonic xs ys in
        let x = sk.score_samples m v in
        let y = sk.score_samples m w in
        (
          m,
          clip (sk.predict c x),
          clip (sk.predict c y),
          model,
          ground arith,
          ground arith,
          λ le. (
            ground (arith, documented.isotonic xs ys x y),
            ground (arith, documented.isotonic xs ys x y),
          ),
        )

    -- With more anomalous than normal rows a retraining raises.
    pub retrain_contaminated :
        (now : ℕ) (normal anomalies : List (List Ratio)) (f : Forest Model Calibrator)
        → length normal < length anomalies
        → retrain sk now normal anomalies f ≡ none
    unfolding retrain
    retrain_contaminated now normal anomalies f more =
        let all = normal ++ anomalies in
        let share : Ratio = record { num = length anomalies; den = length all } in
        rw
          (
            documented.contaminated f.n_estimators (min f.max_samples (length all)) share
                f.random_state all (omega (arith, length-append normal anomalies)),
            retrain,
          )
          refl
