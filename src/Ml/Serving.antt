-- ===== src/Ml/Serving.antt =====
-- ml-intelligence-03/ml/serving/serving.py: the handlers of the scoring service, each one step. A
-- request has the fields of a metric, so it is one here. The rounding of an answer to four places is
-- left out, and so are the listings of the statistics. A confidence is in thousandths. `to_float` is
-- the number in millionths that a feature is stored as.
pub mod Answers
use nimbus_net.Prelude.{
  ℕ, zero, suc, ◌+◌, String, Bool, true, false, ◌&&◌, not, Option, none, some, List, [], ◌∷◌, ◌++◌,
  length, ltb, str_eq, if◌then◌else◌, Dict, map,
}
use nimbus_net.Prelude.Int.{ℤ}
use nimbus_net.Prelude.Fractions.{Ratio}
use nimbus_net.Ml.Bandit.{RegionArm}
use nimbus_net.Ml.Features.{AggregatedMetric, extract}
use nimbus_net.Ml.Flywheel.{
  FaultType, FaultSeverity, nominal, warning, degraded, critical, Flywheel, ingest_synthetic,
  ingest_production_outcome, should_retrain,
}
use nimbus_net.Ml.Lstm.{Numpy, is_loaded, fault_type_of}
use nimbus_net.Ml.Classifier.{Backend}
use nimbus_net.Ml.Forest.{Sklearn}
use nimbus_net.Ml.Pipeline.{Pipeline, MlScoredMetric, score}

-- An answer with the status 200, or the status of an error.
pub data Answer {ℓ} (A : Type ℓ) : Type ℓ where
  ok : A → Answer A
  status : ℕ → Answer A

pub record FlywheelIngestRequest : Type 0 where
  pub metric : AggregatedMetric
  pub fault_type : ℕ
  pub severity : ℕ
  pub session_id : String
  pub label_source : String
  pub confidence : ℕ

pub record RetrainRequest : Type 0 where
  pub trigger : String
  pub token : String

-- What the answer to an ingested sample says.
pub record Ingested : Type 0 where
  pub total_samples : ℕ
  pub retrain_recommended : Bool

pub record Health : Type 0 where
  pub status : String
  pub issues : List String

-- `queued` are the triggers of the background tasks.
pub record Service (Vec Mat Model Calibrator Trees : Type 0) : Type 0 where
  pub pipeline : Pipeline Vec Mat Model Calibrator Trees
  pub flywheel : Flywheel
  pub queued : List String

abbrev pub max_batch : ℕ
max_batch = 1000

-- `FaultSeverity(i)`; `none` is the ValueError.
unfoldable pub severity_of : ℕ → Option FaultSeverity
severity_of zero = some nominal
severity_of (suc zero) = some warning
severity_of (suc (suc zero)) = some degraded
severity_of (suc (suc (suc zero))) = some critical
severity_of _ = none

abbrev pub is_some {ℓ} : {A : Type ℓ} → Option A → Bool
is_some none = false
is_some (some a) = true

abbrev pub issue_if : Bool → String → List String
issue_if b s = if b then s ∷ [] else []

module _ {Vec Mat Model Calibrator Trees : Type 0} (log1p : Ratio → Ratio) (np : Numpy Vec Mat)
    (sk : Sklearn Model Calibrator) (b : Backend Trees) (raw : Dict RegionArm → Option (Dict ℕ × ℕ))
    (to_float : Ratio → ℤ) (admin_token : String) where
  abbrev Serving : Type 0
  Serving = Service Vec Mat Model Calibrator Trees

  unfoldable pub score_metric : ℕ → AggregatedMetric → Serving → Answer MlScoredMetric × Serving
  score_metric now m s =
      let (result, p) = score log1p np sk b raw now m s.pipeline in
      (elim result [ none ↦ status 500 | some r ↦ ok r ], record s { pipeline = p })

  -- The loop over a batch, to the first metric whose scoring raises. Each metric has its instant.
  unfoldable pub score_all :
      List (ℕ × AggregatedMetric)
      → Pipeline Vec Mat Model Calibrator Trees
      → Option (List MlScoredMetric) × Pipeline Vec Mat Model Calibrator Trees
  score_all [] p = (some [], p)
  score_all ((now, m) ∷ ms) p =
      let (result, p1) = score log1p np sk b raw now m p in
      let (rest, p2) = score_all ms p1 in
      elim result [
        | none ↦ (none, p1)
        | some r ↦ elim rest [ none ↦ (none, p2) | some rs ↦ (some (r ∷ rs), p2) ]
      ]

  unfoldable pub score_batch :
      List (ℕ × AggregatedMetric) → Serving → Answer (List MlScoredMetric) × Serving
  unfolding score_all
  score_batch ms s =
      let (results, p) = score_all ms s.pipeline in
      if ltb max_batch (length ms)
      then (status 400, s)
      else (elim results [ none ↦ status 500 | some rs ↦ ok rs ], record s { pipeline = p })

  unfoldable pub health_of : Serving → Health
  health_of s =
      let p = s.pipeline in
      let issues =
        issue_if (not (is_some p.isolation_forest.model)) "isolation_forest: not trained"
        ++ (issue_if (not (is_some p.xgboost.model)) "xgboost: not trained"
            ++ issue_if (not (is_loaded p.lstm_template)) "lstm: weights not loaded") in
      record { status = elim issues [ [] ↦ "ok" | i ∷ is ↦ "degraded" ]; issues = issues }

  -- The `code` that it computes is not used.
  unfoldable pub models_health : Serving → Answer Health
  unfolding health_of
  models_health s = ok (health_of s)

  unfoldable pub ingest :
      ℕ → FlywheelIngestRequest → FaultType → FaultSeverity → Flywheel → Flywheel
  ingest now q fault_type severity w =
      let features = map to_float (extract log1p now q.metric).values in
      if str_eq q.label_source "synthetic_qdisc"
      then ingest_synthetic features q.metric.region fault_type severity q.session_id q.confidence
          now w
      else ingest_production_outcome features q.metric.region fault_type severity q.session_id
          q.confidence now w

  -- A number that is no fault type or no severity is an exception.
  unfoldable pub ingest_sample : ℕ → FlywheelIngestRequest → Serving → Answer Ingested × Serving
  unfolding ingest severity_of
  ingest_sample now q s = elim (fault_type_of q.fault_type) [
    | none ↦ (status 500, s)
    | some fault_type ↦ elim (severity_of q.severity) [
      | none ↦ (status 500, s)
      | some severity ↦
          let w = ingest now q fault_type severity s.flywheel in
          (
            ok (record {
              total_samples = w.stats.total_samples;
              retrain_recommended = should_retrain w;
            }),
            record s { flywheel = w },
          )
    ]
  ]

  unfoldable pub trigger_retrain : RetrainRequest → Serving → Answer String × Serving
  trigger_retrain q s =
      if not (str_eq admin_token "") && not (str_eq q.token admin_token)
      then (status 403, s)
      else (ok q.trigger, record s { queued = s.queued ++ q.trigger ∷ [] })
