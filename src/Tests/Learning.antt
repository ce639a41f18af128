-- ===== src/Tests/Learning.antt =====
-- The flywheel and the retrainer at concrete inputs (ml-intelligence-03/ml/flywheel).
use nimbus_net.Prelude.{ℕ, ◌≡◌, refl, arith, true, false, none, some, [], ◌∷◌, lookup}
use nimbus_net.Prelude.Int.{pos}
use nimbus_net.Ml.Flywheel.{
  TrainingSample, FaultType, FaultSeverity, LabelSource, Flywheel, new_stats, load_training_arrays,
  flush_buffer, read_store, should_retrain,
}
use nimbus_net.Ml.Flywheel.Sound.{
  IsSound, Counts, sum_values, appends, loads, restarts, use_all, use_all-IsSound,
}
use nimbus_net.Ml.Retrainer.{
  Disk, written, broken, Learning, Retrainer, RetrainResult, retrain, maybe_retrain, run_retrain,
}
use nimbus_net.Ml.Retrainer.Swaps.{Judged, training_of, retrain-Judged, kept_models_retrain_again}

abbrev sample : TrainingSample
sample = record {
  features = pos 1000 ∷ [];
  fault_type = FaultType.packet_loss;
  severity = FaultSeverity.degraded;
  is_anomaly = true;
  label_source = LabelSource.production;
  confidence = 800;
  timestamp_ns = 5;
  session_id = "INC-1";
  region = "eu-west-1";
}

abbrev empty : Flywheel
empty = record {
  store = [];
  saved = none;
  stats = new_stats;
  buffer = [];
  samples_since_last_retrain = 0;
}

empty-Counts : Counts [] new_stats
unfolding sum_values lookup
empty-Counts = record {
  total = refl;
  source_sum = refl;
  fault_sum = refl;
  by_source = λ k. refl;
  by_fault = λ k. refl;
}

empty-IsSound : IsSound empty
empty-IsSound = record { counted = empty-Counts; small = omega arith; saved_counted = empty-Counts }

use_all-IsSound_example :
    IsSound (use_all (appends sample ∷ loads none 600 ∷ appends sample ∷ restarts ∷ []) empty)
use_all-IsSound_example =
    use_all-IsSound (appends sample ∷ loads none 600 ∷ appends sample ∷ restarts ∷ []) empty
      empty-IsSound

-- Models are numbers that are their own scores, and training gives a model that scores 2%.
abbrev learning : Learning ℕ ℕ
learning = record {
  new_forest = 0;
  new_xgb = 0;
  split = λ t. some (t, t);
  retrain_forest = λ normal anomalies. some 20000;
  bootstrap_forest = λ normal. some 20000;
  bootstrap_xgb = λ t. some 20000;
  forest_is_trained = λ m. true;
  xgb_is_trained = λ m. true;
  balanced_accuracy = λ m t. some m;
  average_precision = λ m t. some m;
}

-- A flywheel that asks for a retraining; its samples were lost.
abbrev due : Flywheel
due = record empty {
  stats = record new_stats { total_samples = 500 };
  samples_since_last_retrain = 500;
}

-- A disk that is full when the second file is written.
abbrev disk : Disk
disk = record { makes_dir = true; forest_write = written; xgb_write = broken }

abbrev retrainer : Retrainer ℕ ℕ
retrainer = record {
  forest = 50000;
  xgb = 50000;
  flywheel = due;
  forest_on_disk = none;
  xgb_on_disk = none;
  history = [];
  notices = [];
}

retrain-Judged_example :
    Judged learning disk
      (training_of learning retrainer)
      retrainer
      (retrain learning disk true true "manual" 1 2 3 retrainer).0
      (retrain learning disk true true "manual" 1 2 3 retrainer).1
retrain-Judged_example = retrain-Judged learning disk true true "manual" 1 2 3 retrainer

abbrev skipped : RetrainResult
skipped = (retrain learning disk true true "scheduled" 1 2 3 retrainer).0

maybe_retrain-skipped :
    (maybe_retrain learning disk true true "scheduled" 1 2 3 retrainer).0 ≡ some skipped
unfolding maybe_retrain should_retrain
maybe_retrain-skipped = refl

skipped_kept : skipped.models_swapped ≡ false
unfolding retrain run_retrain load_training_arrays read_store flush_buffer
skipped_kept = refl

kept_models_retrain_again_example :
    should_retrain (maybe_retrain learning disk true true "scheduled" 1 2 3 retrainer).1.flywheel
    ≡ true
kept_models_retrain_again_example =
    kept_models_retrain_again learning disk true true "scheduled" 1 2 3 retrainer skipped
      maybe_retrain-skipped skipped_kept
