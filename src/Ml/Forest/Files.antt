-- ===== src/Ml/Forest/Files.antt =====
-- The file of a forest (ml-intelligence-03/ml/models/isolation_forest.py).
use nimbus_net.Prelude.{ℕ, ◌≡◌, refl, String, Option, none, List}
use nimbus_net.Prelude.Fractions.{Ratio}
use nimbus_net.Ml.Forest.{Sklearn, Forest, score}

-- The pickled dict; its `version` is never read.
pub record Payload (Model Calibrator : Type 0) : Type 0 where
  pub model : Option Model
  pub calibrator : Option Calibrator
  pub trained_at : Option ℕ
  pub training_samples : ℕ
  pub version_hash : String
  pub n_estimators : ℕ
  pub max_samples : ℕ
  pub contamination : Ratio

module _ {Model Calibrator : Type 0} where
  abbrev pub new_forest : ℕ → ℕ → Ratio → Forest Model Calibrator
  new_forest n_estimators max_samples contamination = record {
    n_estimators = n_estimators;
    max_samples = max_samples;
    contamination = contamination;
    random_state = 42;
    model = none;
    calibrator = none;
    trained_at = none;
    training_samples = 0;
    version_hash = "";
  }

  unfoldable pub save : Forest Model Calibrator → Payload Model Calibrator
  save f = record {
    model = f.model;
    calibrator = f.calibrator;
    trained_at = f.trained_at;
    training_samples = f.training_samples;
    version_hash = f.version_hash;
    n_estimators = f.n_estimators;
    max_samples = f.max_samples;
    contamination = f.contamination;
  }

  unfoldable pub load : Payload Model Calibrator → Forest Model Calibrator
  load p = record (new_forest p.n_estimators p.max_samples p.contamination) {
    model = p.model;
    calibrator = p.calibrator;
    trained_at = p.trained_at;
    training_samples = p.training_samples;
    version_hash = p.version_hash;
  }

  -- A forest that is saved and loaded again is the same but for its random state, which is that of a
  -- new one; it scores every vector as before.
  pub load-save :
      (sk : Sklearn Model Calibrator) (f : Forest Model Calibrator)
      → (load (save f) ≡ record f { random_state = 42 })
        × ((v : List Ratio) → score sk v (load (save f)) ≡ score sk v f)
  unfolding load save score
  load-save sk f = (refl, λ v. refl)
