-- ===== src/Ml/Retrainer.antt =====
-- ml-intelligence-03/ml/flywheel/retrainer.py: training new models and swapping them in.
-- The learning itself is numpy's, scikit-learn's and xgboost's: a `Learning` says what comes of it,
-- `none` where it raises. Scores are whole numbers of millionths.
pub mod Swaps
use nimbus_net.Prelude.{
  ℕ, zero, suc, ◌+◌, ◌*◌, ◌≤◌, String, Bool, true, false, ◌&&◌, not, Option, none, some, List, [],
  ◌∷◌, ◌++◌, leb, ltb, length, if◌then◌else◌,
}
use nimbus_net.Prelude.Int.{ℤ}
use nimbus_net.Ml.Flywheel.{
  FaultType, FaultSeverity, Flywheel, load_training_arrays, load_anomaly_split, should_retrain,
  min_samples_for_retrain,
}

-- A table of features with the severities of its rows.
pub record Table : Type 0 where
  pub rows : List (List ℤ)
  pub labels : List FaultSeverity

-- `fit_forest` is the new forest after `retrain` or `bootstrap`; the scores are those of
-- `balanced_accuracy_score` and `average_precision_score`.
pub record Learning (Forest Xgb : Type 0) : Type 0 where
  pub new_forest : Forest
  pub new_xgb : Xgb
  pub split : Table → Option (Table × Table)
  pub retrain_forest : List (List ℤ) → List (List ℤ) → Option Forest
  pub bootstrap_forest : List (List ℤ) → Option Forest
  pub bootstrap_xgb : Table → Option Xgb
  pub forest_is_trained : Forest → Bool
  pub xgb_is_trained : Xgb → Bool
  pub balanced_accuracy : Xgb → Table → Option ℕ
  pub average_precision : Forest → Table → Option ℕ

-- The texts of `error`; that of an exception is not kept.
pub data RetrainError : Type 0 where
  no_error retrain_already_running raised : RetrainError
  insufficient_data : ℕ → RetrainError

pub record RetrainResult : Type 0 where
  pub triggered_by : String
  pub started_at : ℕ
  pub completed_at : ℕ
  pub success : Bool
  pub models_swapped : Bool
  pub error : RetrainError
  pub if_score_before : ℕ
  pub if_score_after : ℕ
  pub xgb_acc_before : ℕ
  pub xgb_acc_after : ℕ

-- What becomes of a file that is written: the new content, the old one (it could not be opened), or
-- one that cannot be read (the writing broke off).
pub data Write : Type 0 where
  written refused broken : Write

abbrev pub is_written : Write → Bool
is_written written = true
is_written refused = false
is_written broken = false

-- The file afterwards; `none` is one that is not there or cannot be read.
abbrev pub file_after {ℓ} : {A : Type ℓ} → Write → A → Option A → Option A
file_after written new old = some new
file_after refused new old = old
file_after broken new old = none

-- How the writing of the models goes: the directory, and the two files. All but `written` raise.
pub record Disk : Type 0 where
  pub makes_dir : Bool
  pub forest_write : Write
  pub xgb_write : Write

-- The pipeline's two models, those on disk, and the notices that were sent.
pub record Retrainer (Forest Xgb : Type 0) : Type 0 where
  pub forest : Forest
  pub xgb : Xgb
  pub flywheel : Flywheel
  pub forest_on_disk : Option Forest
  pub xgb_on_disk : Option Xgb
  pub history : List RetrainResult
  pub notices : List RetrainResult

abbrev pub min_improvement : ℕ
min_improvement = 10000

abbrev pub or_nil : Option ℕ → ℕ
or_nil none = 0
or_nil (some n) = n

abbrev pub unscored : String → ℕ → ℕ → Bool → RetrainError → RetrainResult
unscored trigger started completed success error = record {
  triggered_by = trigger;
  started_at = started;
  completed_at = completed;
  success = success;
  models_swapped = false;
  error = error;
  if_score_before = 0;
  if_score_after = 0;
  xgb_acc_before = 0;
  xgb_acc_after = 0;
}

abbrev pub is_anomalous : FaultSeverity → Bool
is_anomalous FaultSeverity.degraded = true
is_anomalous FaultSeverity.critical = true
is_anomalous _ = false

abbrev pub any_anomalous : List FaultSeverity → Bool
any_anomalous [] = false
any_anomalous (s ∷ ss) = if is_anomalous s then true else any_anomalous ss

module _ {Forest Xgb : Type 0} (l : Learning Forest Xgb) where
  unfoldable pub xgb_accuracy : Xgb → Table → ℕ
  xgb_accuracy m t =
      if not (l.xgb_is_trained m)
      then 0
      else if leb (length t.rows) 0
      then 0
      else or_nil (l.balanced_accuracy m t)

  -- Without an anomaly in the test set the score is the neutral one.
  unfoldable pub if_auprc : Forest → Table → ℕ
  if_auprc m t =
      if not (l.forest_is_trained m)
      then 0
      else if leb (length t.rows) 0
      then 0
      else if any_anomalous t.labels
      then or_nil (l.average_precision m t)
      else 500000

  -- The new isolation forest; it stays untrained without normal samples.
  unfoldable pub fit_forest : List (List ℤ) → List (List ℤ) → Option Forest
  fit_forest normal anomalies =
      if ltb 0 (length normal) && ltb 0 (length anomalies)
      then l.retrain_forest normal anomalies
      else if ltb 0 (length normal)
      then l.bootstrap_forest normal
      else some l.new_forest

  -- What the training gives: the test set and the two new models.
  unfoldable pub train : Table → List (List ℤ) → List (List ℤ) → Option (Table × Forest × Xgb)
  train t normal anomalies = elim (l.split t) [
    | none ↦ none
    | some s ↦ elim (fit_forest normal anomalies) [
      | none ↦ none
      | some f ↦ elim (l.bootstrap_xgb s.0) [ none ↦ none | some x ↦ some (s.1, f, x) ]
    ]
  ]

  unfoldable pub improves : Table → Forest → Xgb → Retrainer Forest Xgb → Bool
  improves test f x r =
      leb (xgb_accuracy r.xgb test) (xgb_accuracy x test + min_improvement)
      && leb (if_auprc r.forest test) (if_auprc f test + min_improvement)

  -- The new models in the pipeline, and then on disk; whether the writing went through.
  unfoldable pub swap : Disk → Forest → Xgb → Retrainer Forest Xgb → Bool × Retrainer Forest Xgb
  swap d f x r =
      let r1 = record r { forest = f; xgb = x } in
      let r2 = record r1 { forest_on_disk = file_after d.forest_write f r1.forest_on_disk } in
      let r3 = record r2 { xgb_on_disk = file_after d.xgb_write x r2.xgb_on_disk } in
      if not d.makes_dir
      then (false, r1)
      else if not (is_written d.forest_write)
      then (false, r2)
      else (is_written d.xgb_write, r3)

  -- The statistics of the flywheel after a swap.
  abbrev pub counted_anew : String → ℕ → Flywheel → Flywheel
  counted_anew trigger now w = record w {
    stats = record w.stats {
      last_retrain_at = some now;
      last_retrain_trigger = some trigger;
      retrains_completed = w.stats.retrains_completed + 1;
    };
    samples_since_last_retrain = 0;
  }

  -- Steps 4 and 5 of `_run_retrain`: the validation and the swap. If the writing raises, the models
  -- stay swapped, the flywheel is not told, and the result is that of an exception.
  unfoldable pub validate :
      Disk
      → String
      → ℕ
      → ℕ
      → ℕ
      → Table
      → Forest
      → Xgb
      → Retrainer Forest Xgb
      → RetrainResult × Retrainer Forest Xgb
  unfolding swap
  validate d trigger started swapped_at completed test f x r =
      let better = improves test f x r in
      let result : RetrainResult = record {
        triggered_by = trigger;
        started_at = started;
        completed_at = completed;
        success = true;
        models_swapped = better;
        error = no_error;
        if_score_before = if_auprc r.forest test;
        if_score_after = if_auprc f test;
        xgb_acc_before = xgb_accuracy r.xgb test;
        xgb_acc_after = xgb_accuracy x test;
      } in
      let (saved, r1) = swap d f x r in
      if not better
      then (result, r)
      else if saved
      then (result, record r1 { flywheel = counted_anew trigger swapped_at r1.flywheel })
      else (unscored trigger started completed false raised, r1)

  unfoldable pub run_retrain :
      Disk → String → ℕ → ℕ → ℕ → Retrainer Forest Xgb → RetrainResult × Retrainer Forest Xgb
  run_retrain d trigger started swapped_at completed r =
      let ((features, _, severities), w1) = load_training_arrays none 600 r.flywheel in
      let ((normal, anomalies), w2) = load_anomaly_split 700 w1 in
      let r1 = record r { flywheel = w2 } in
      if ltb (length features) min_samples_for_retrain
      then (unscored trigger started completed false (insufficient_data (length features)), r1)
      else elim (train (record { rows = features; labels = severities }) normal anomalies) [
        | none ↦ (unscored trigger started completed false raised, r1)
        | some t ↦ validate d trigger started swapped_at completed t.0 t.1 t.2 r1
      ]

  -- `retrain`; `free` is whether the lock is. With a `notify_fn`, each result is told.
  unfoldable pub retrain :
      Disk
      → Bool
      → Bool
      → String
      → ℕ
      → ℕ
      → ℕ
      → Retrainer Forest Xgb
      → RetrainResult × Retrainer Forest Xgb
  retrain d free notifies trigger started swapped_at completed r =
      let (result, r1) = run_retrain d trigger started swapped_at completed r in
      if free
      then (
        result,
        record r1 {
          history = r1.history ++ result ∷ [];
          notices = if notifies then r1.notices ++ result ∷ [] else r1.notices;
        },
      )
      else (unscored trigger started completed false retrain_already_running, r)

  unfoldable pub maybe_retrain :
      Disk
      → Bool
      → Bool
      → String
      → ℕ
      → ℕ
      → ℕ
      → Retrainer Forest Xgb
      → Option RetrainResult × Retrainer Forest Xgb
  maybe_retrain d free notifies trigger started swapped_at completed r =
      let (result, r1) = retrain d free notifies trigger started swapped_at completed r in
      if should_retrain r.flywheel then (some result, r1) else (none, r)
