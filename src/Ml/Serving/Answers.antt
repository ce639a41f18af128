-- ===== src/Ml/Serving/Answers.antt =====
-- What the handlers of ml-intelligence-03/ml/serving/serving.py answer.
use nimbus_net.Prelude.{
  ℕ, zero, suc, ◌+◌, ◌≤◌, ◌<◌, ◌≡◌, ◌≢◌, refl, arith, eq_iff, String, Option, none, some, List, [],
  ◌∷◌, ◌++◌, length, map, Dict, Option-cases, inl, inr,
}
use nimbus_net.Prelude.Int.{ℤ}
use nimbus_net.Prelude.Fractions.{Ratio}
use nimbus_net.Ml.Bandit.{RegionArm}
use nimbus_net.Ml.Features.{AggregatedMetric, extract}
use nimbus_net.Ml.Flywheel.{
  FaultType, unknown, network_latency, packet_loss, region_partition, congestion, syn_flood,
  cascading, FaultSeverity, nominal, warning, degraded, critical, Flywheel, ingest_synthetic,
  ingest_production_outcome, append, buffered, flush_buffer, should_retrain,
}
use nimbus_net.Ml.Lstm.{Numpy, fault_type_of}
use nimbus_net.Ml.Classifier.{Backend}
use nimbus_net.Ml.Forest.{Sklearn}
use nimbus_net.Ml.Forest
use nimbus_net.Ml.Pipeline.{Pipeline, MlScoredMetric, score}
use nimbus_net.Ml.Serving.{
  ok, status, FlywheelIngestRequest, Ingested, Health, Service, max_batch, severity_of,
  score_metric, score_all, score_batch, health_of, models_health, ingest, ingest_sample,
  trigger_retrain,
}

fault_type_of_iff :
    (n : ℕ)
    → (n < 7 → (t : FaultType) × (fault_type_of n ≡ some t)) × (7 ≤ n → fault_type_of n ≡ none)
unfolding fault_type_of
fault_type_of_iff zero = (λ h. (unknown, refl), λ h. absurd (omega arith))
fault_type_of_iff (suc zero) = (λ h. (network_latency, refl), λ h. absurd (omega arith))
fault_type_of_iff (suc (suc zero)) = (λ h. (packet_loss, refl), λ h. absurd (omega arith))
fault_type_of_iff (suc (suc (suc zero))) =
    (λ h. (region_partition, refl), λ h. absurd (omega arith))
fault_type_of_iff (suc (suc (suc (suc zero)))) =
    (λ h. (congestion, refl), λ h. absurd (omega arith))
fault_type_of_iff (suc (suc (suc (suc (suc zero))))) =
    (λ h. (syn_flood, refl), λ h. absurd (omega arith))
fault_type_of_iff (suc (suc (suc (suc (suc (suc zero)))))) =
    (λ h. (cascading, refl), λ h. absurd (omega arith))
fault_type_of_iff (suc (suc (suc (suc (suc (suc (suc n))))))) =
    (λ h. absurd (omega arith), λ h. refl)

severity_of_iff :
    (n : ℕ)
    → (n < 4 → (s : FaultSeverity) × (severity_of n ≡ some s)) × (4 ≤ n → severity_of n ≡ none)
unfolding severity_of
severity_of_iff zero = (λ h. (nominal, refl), λ h. absurd (omega arith))
severity_of_iff (suc zero) = (λ h. (warning, refl), λ h. absurd (omega arith))
severity_of_iff (suc (suc zero)) = (λ h. (degraded, refl), λ h. absurd (omega arith))
severity_of_iff (suc (suc (suc zero))) = (λ h. (critical, refl), λ h. absurd (omega arith))
severity_of_iff (suc (suc (suc (suc n)))) = (λ h. absurd (omega arith), λ h. refl)

append_total :
    (w : Flywheel) (features : List ℤ) (region : String) (t : FaultType) (s : FaultSeverity)
    (id : String) (conf now : ℕ)
    → ((ingest_synthetic features region t s id conf now w).stats.total_samples
        ≡ w.stats.total_samples + 1)
      × ((ingest_production_outcome features region t s id conf now w).stats.total_samples
          ≡ w.stats.total_samples + 1)
unfolding ingest_synthetic ingest_production_outcome append buffered flush_buffer
append_total w features region t s id conf now = (ground arith, ground arith)

module _ {Vec Mat Model Calibrator Trees : Type 0} (log1p : Ratio → Ratio) (np : Numpy Vec Mat)
    (sk : Sklearn Model Calibrator) (b : Backend Trees) (raw : Dict RegionArm → Option (Dict ℕ × ℕ))
    (to_float : Ratio → ℤ) (admin_token : String) where
  abbrev Serving : Type 0
  Serving = Service Vec Mat Model Calibrator Trees

  -- The metrics scored one by one, each whatever became of those before it.
  pub one_by_one :
      List (ℕ × AggregatedMetric)
      → Pipeline Vec Mat Model Calibrator Trees
      → List (Option MlScoredMetric) × Pipeline Vec Mat Model Calibrator Trees
  one_by_one [] p = ([], p)
  one_by_one ((now, m) ∷ ms) p =
      let (result, p1) = score log1p np sk b raw now m p in
      let (rest, p2) = one_by_one ms p1 in (result ∷ rest, p2)

  score_all-one_by_one :
      (ms : List (ℕ × AggregatedMetric)) (p : Pipeline Vec Mat Model Calibrator Trees)
      (rs : List MlScoredMetric)
      → (score_all log1p np sk b raw to_float admin_token ms p).0 ≡ some rs
      → one_by_one ms p ≡ (map some rs, (score_all log1p np sk b raw to_float admin_token ms p).1)
  unfolding score_all one_by_one
  score_all-one_by_one [] p rs h = ground arith
  score_all-one_by_one ((now, m) ∷ ms) p rs h =
      let p1 = (score log1p np sk b raw now m p).1 in
      elim (Option-cases (score_all log1p np sk b raw to_float admin_token ms p1).0) [
        | inl e ↦ absurd (ground arith)
        | inr (rs', e) ↦ ground (arith, score_all-one_by_one ms p1 rs' e)
      ]

  -- A batch of more than 1,000 metrics is refused and changes nothing. Any other batch that is
  -- answered has what scoring its metrics one by one gives, in order, and leaves the pipeline as that
  -- does.
  pub score_batch-one_by_one :
      (ms : List (ℕ × AggregatedMetric)) (s : Serving)
      → let r = score_batch log1p np sk b raw to_float admin_token ms s in
        (max_batch < length ms → r ≡ (status 400, s))
        × ((rs : List MlScoredMetric)
            → r.0 ≡ ok rs
            → (length ms ≤ max_batch) × (one_by_one ms s.pipeline ≡ (map some rs, r.1.pipeline)))
  unfolding score_batch
  score_batch-one_by_one ms s = (
    λ h. ground arith,
    λ rs h. (ground arith, ground (arith, score_all-one_by_one ms s.pipeline rs)),
  )

  -- Without a trained forest the health check still answers with the status 200, as degraded, while
  -- every metric to be scored is answered with an error.
  pub untrained_health :
      (s : Serving) (now : ℕ) (m : AggregatedMetric)
      → s.pipeline.isolation_forest.model ≡ none
      → ((h : Health) × (models_health log1p np sk b raw to_float admin_token s ≡ ok h)
          × (h.status ≡ "degraded"))
        × (score_metric log1p np sk b raw to_float admin_token now m s ≡ (status 500, s))
  unfolding models_health score_metric score Forest.score
  untrained_health s now m h =
      ((health_of log1p np sk b raw to_float admin_token s, refl, ground arith), ground arith)

  ingest_total :
      (now : ℕ) (q : FlywheelIngestRequest) (t : FaultType) (v : FaultSeverity) (w : Flywheel)
      → (ingest log1p np sk b raw to_float admin_token now q t v w).stats.total_samples
        ≡ w.stats.total_samples + 1
  unfolding ingest
  ingest_total now q t v w =
      let fs = map to_float (extract log1p now q.metric).values in
      ground (arith, append_total w fs q.metric.region t v q.session_id q.confidence now)

  -- A labelled sample is taken exactly if its numbers are those of a fault type and of a severity;
  -- the flywheel then counts one sample more, and the answer has the new count. Otherwise the answer
  -- is an error, and nothing changes.
  pub ingest_sample_counts :
      (now : ℕ) (q : FlywheelIngestRequest) (s : Serving)
      → let r = ingest_sample log1p np sk b raw to_float admin_token now q s in
        ((q.fault_type < 7) × (q.severity < 4)
          → (a : Ingested) × (r.0 ≡ ok a)
            × (a.total_samples ≡ s.flywheel.stats.total_samples + 1)
            × (r.1.flywheel.stats.total_samples ≡ a.total_samples))
        × (7 ≤ q.fault_type → r ≡ (status 500, s))
        × (4 ≤ q.severity → r ≡ (status 500, s))
  unfolding ingest_sample
  ingest_sample_counts now q s =
      let (t_known, t_unknown) = fault_type_of_iff q.fault_type in
      let (s_known, s_unknown) = severity_of_iff q.severity in
      (
        λ (a, c).
            let (t, et) = t_known a in
            let (v, ev) = s_known c in
            let w = ingest log1p np sk b raw to_float admin_token now q t v s.flywheel in
            let one_more = ingest_total now q t v s.flywheel in
            (
              record {
                total_samples = w.stats.total_samples;
                retrain_recommended = should_retrain w;
              },
              ground arith,
              one_more,
              ground arith,
            ),
        λ a. ground arith,
        λ c. ground arith,
      )

  -- A retraining that is asked for without a token, as the SRE service asks for it, is refused
  -- exactly if the service has an admin token; then nothing is queued.
  pub tokenless_retrain :
      (trigger : String) (s : Serving)
      → let r =
          trigger_retrain log1p np sk b raw to_float admin_token
            (record { trigger = trigger; token = "" })
            s in
        (admin_token ≢ "" → r ≡ (status 403, s))
        × (admin_token ≡ "" → r ≡ (ok trigger, record s { queued = s.queued ++ trigger ∷ [] }))
  unfolding trigger_retrain
  tokenless_retrain trigger s = (
    λ h. ground (arith, eq_iff admin_token "", eq_iff "" admin_token),
    λ h. ground (arith, eq_iff admin_token ""),
  )
