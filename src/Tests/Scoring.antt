-- ===== src/Tests/Scoring.antt =====
-- The scoring pipeline and its service at concrete inputs (ml-intelligence-03/ml).
use nimbus_net.Prelude.{
  Bool, Option, ltb, ◌&&◌, if◌then◌else◌, ℕ, ◌+◌, ◌*◌, ◌≤◌, ◌<◌, ◌≡◌, ◌↔◌, ◌⊎◌, refl, arith, true,
  false, none, some, List, [], ◌∷◌, length, map, Dict, lookup,
}
use nimbus_net.Prelude.Int.{ℤ, pos, pos_part, neg_part}
use nimbus_net.Prelude.Fractions.{Ratio, IsUnit}
use nimbus_net.Ml.Bandit.{new_bandit, RegionArm, recommend_weights}
use nimbus_net.Ml.Features.{AggregatedMetric, extract}
use nimbus_net.Ml.Flywheel.{unknown, degraded, is_at_least_degraded, new_stats}
use nimbus_net.Ml.Lstm.{Lstm, keep_last}
use nimbus_net.Ml.Classifier.{Probs, classify}
use nimbus_net.Ml.Forest
use nimbus_net.Ml.Pipeline.{Pipeline, MlScoredMetric, score, ensemble_decision}
use nimbus_net.Ml.Pipeline.Flows.{window_at}
use nimbus_net.Ml.Pipeline.Ensemble.{ensemble_decision_paths}
use nimbus_net.Ml.Pipeline.Windows.{
  Event, scores, resets, handle_all, remember_all, HasTable, Remembers, History,
  handle_all-Remembers,
}
use nimbus_net.Ml.Pipeline.Scores.{first_metric_fails_over}
use nimbus_net.Ml.Serving.{
  ok, status, FlywheelIngestRequest, Ingested, Service, max_batch, score_batch, ingest_sample,
}
use nimbus_net.Ml.Serving.Answers.{one_by_one, score_batch-one_by_one, ingest_sample_counts}
use nimbus_net.Tests.Models.{metric, log1p, np, cell, net, backend, bad, trained, sk, forest}

ensemble_decision_paths_example :
    (((ensemble_decision 550000 degraded
          (record { num = 8; den = 10 })
          400000
          (record { num = 1; den = 10 })).0
        ≡ true)
      ↔ ((700000 ≤ 550000)
          ⊎ ((is_at_least_degraded degraded ≡ true) × (600000 ≤ 400000))
          ⊎ ((100 * 1 < 20 * 10) × (500000 ≤ 550000))))
    × (550000 ≤ 1000000
        → IsUnit (record { num = 8; den = 10 })
        → 400000 ≤ 1000000
        → IsUnit (record { num = 1; den = 10 })
        → IsUnit
            (ensemble_decision 550000 degraded
              (record { num = 8; den = 10 })
              400000
              (record { num = 1; den = 10 })).1)
    × ((ensemble_decision 550000 degraded
            (record { num = 8; den = 10 })
            400000
            (record { num = 1; den = 10 })).0
          ≡ false
        → (ensemble_decision 550000 degraded
            (record { num = 8; den = 10 })
            400000
            (record { num = 1; den = 10 })).1.num
          ≡ 0)
ensemble_decision_paths_example =
    ensemble_decision_paths 550000 degraded (record { num = 8; den = 10 }) 400000
      (record { num = 1; den = 10 })

-- A sampler that raises for an arm whose `beta` is not positive.
abbrev pub positive : Dict RegionArm → Bool
positive [] = true
positive ((r, a) ∷ arms) = ltb (neg_part a.beta) (pos_part a.beta) && positive arms

abbrev pub raw : Dict RegionArm → Option (Dict ℕ × ℕ)
raw arms = if positive arms then some (("us-east", 3) ∷ [], 3) else none

abbrev pub pipeline : Pipeline (List ℕ) ℕ ℕ ℕ ℕ
pipeline = record {
  isolation_forest = forest;
  lstm_template = net;
  xgboost = trained bad;
  bandit = new_bandit 999;
  flow_lstms = [];
  prev_rtt_by_region = [];
}

pipeline-HasTable : HasTable log1p np sk (backend bad) raw pipeline
unfolding lookup
pipeline-HasTable = record { bounded = omega arith; cloned = λ k l e. cc }

abbrev events : List Event
events = scores 1 metric ∷ scores 2 metric ∷ resets "10.0.0.1→10.0.1.1" ∷ scores 3 metric ∷ []

abbrev nothing_yet : History log1p np sk (backend bad) raw
nothing_yet k = []

pipeline-Remembers : Remembers log1p np sk (backend bad) raw nothing_yet pipeline
unfolding lookup keep_last
pipeline-Remembers k = refl

handle_all-Remembers_example :
    window_at "10.0.0.1→10.0.1.1"
      (handle_all log1p np sk (backend bad) raw events pipeline).flow_lstms
    ≡ keep_last
        (handle_all log1p np sk (backend bad) raw events pipeline).lstm_template.seq_len
        (remember_all log1p np sk (backend bad) raw events nothing_yet "10.0.0.1→10.0.1.1")
handle_all-Remembers_example =
    handle_all-Remembers log1p np sk (backend bad) raw events nothing_yet pipeline pipeline-HasTable
      (λ e. cc) (omega arith) pipeline-Remembers "10.0.0.1→10.0.1.1"

abbrev bad_probs : Probs
bad_probs = record {
  on_nominal = 10;
  on_warning = 5;
  on_degraded = 35;
  on_critical = 50;
  den = 100;
}

-- The most likely class is the critical one, with 50%.
metric_is_degraded :
    classify (backend bad) (extract log1p 1 metric).values (some unknown) (trained bad)
    ≡ some (degraded, record { num = 35; den = 100 }, bad_probs)
unfolding classify
metric_is_degraded = refl

metric_has_score :
    Forest.score sk (extract log1p 1 metric).values pipeline.isolation_forest ≡ some 180000
unfolding Forest.score extract
metric_has_score = refl

no_flow : lookup {V = Lstm (List ℕ) ℕ} "10.0.0.1→10.0.1.1" [] ≡ none
unfolding lookup
no_flow = refl

pipeline_samples : recommend_weights raw pipeline.bandit ≡ some (([], 1), pipeline.bandit)
unfolding recommend_weights
pipeline_samples = refl

first_metric_fails_over_example :
    (r : MlScoredMetric) × ((score log1p np sk (backend bad) raw 1 metric pipeline).0 ≡ some r)
    × (r.should_trigger_failover ≡ true)
    × (r.lstm_fault_type ≡ unknown)
    × (r.lstm_confidence ≡ 1000000)
first_metric_fails_over_example =
    first_metric_fails_over log1p np sk (backend bad) raw 1 metric pipeline 180000 cell degraded
      (record { num = 35; den = 100 }) bad_probs ([], 1) pipeline.bandit pipeline-HasTable no_flow
      metric_has_score refl metric_is_degraded refl pipeline_samples

abbrev to_float : Ratio → ℤ
to_float r = pos r.num

abbrev service : Service (List ℕ) ℕ ℕ ℕ ℕ
service = record {
  pipeline = pipeline;
  flywheel = record {
    store = [];
    saved = none;
    stats = new_stats;
    buffer = [];
    samples_since_last_retrain = 0;
  };
  queued = [];
}

abbrev batch : List (ℕ × AggregatedMetric)
batch = (1, metric) ∷ (2, metric) ∷ []

score_batch-one_by_one_example :
    (max_batch < length batch
      → score_batch log1p np sk (backend bad) raw to_float "secret" batch service
        ≡ (status 400, service))
    × ((rs : List MlScoredMetric)
        → (score_batch log1p np sk (backend bad) raw to_float "secret" batch service).0 ≡ ok rs
        → (length batch ≤ max_batch)
          × (one_by_one log1p np sk (backend bad) raw to_float "secret" batch pipeline ≡ (
            map some rs,
            (score_batch log1p np sk (backend bad) raw to_float "secret" batch service).1.pipeline,
          )))
score_batch-one_by_one_example =
    score_batch-one_by_one log1p np sk (backend bad) raw to_float "secret" batch service

abbrev request : FlywheelIngestRequest
request = record {
  metric = metric;
  fault_type = 5;
  severity = 2;
  session_id = "s-1";
  label_source = "synthetic_qdisc";
  confidence = 950;
}

ingest_sample_counts_example :
    ((5 < 7) × (2 < 4)
      → (a : Ingested) × ((ingest_sample log1p np sk
            (backend bad)
            raw
            to_float
            ""
            9
            request
            service).0
          ≡ ok a)
        × (a.total_samples ≡ 0 + 1)
        × ((ingest_sample log1p np sk
              (backend bad)
              raw
              to_float
              ""
              9
              request
              service).1.flywheel.stats.total_samples
            ≡ a.total_samples))
    × (7 ≤ 5
        → ingest_sample log1p np sk (backend bad) raw to_float "" 9 request service
          ≡ (status 500, service))
    × (4 ≤ 2
        → ingest_sample log1p np sk (backend bad) raw to_float "" 9 request service
          ≡ (status 500, service))
ingest_sample_counts_example =
    ingest_sample_counts log1p np sk (backend bad) raw to_float "" 9 request service
