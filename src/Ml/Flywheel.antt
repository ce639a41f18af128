-- ===== src/Ml/Flywheel.antt =====
-- ml-intelligence-03/ml/flywheel/flywheel.py: the store of labelled samples. The features of a
-- sample are what the feature extractor makes of a metric, so an operation takes them in place of
-- the metric; they are whole numbers of millionths, a confidence is one of thousandths. A file that
-- the flywheel writes is read back as it was written, and writing succeeds.
mod Samples
pub mod Sound
pub mod Reads
use nimbus_net.Prelude.{
  ℕ, ◌+◌, String, Bool, true, false, ◌&&◌, ◌||◌, not, Option, none, some, List, [], ◌∷◌, ◌++◌, leb,
  ltb, length, map, if◌then◌else◌, Dict, lookup, insert,
}
use nimbus_net.Prelude.Int.{ℤ}
pub use Samples.*

-- d[k] = d.get(k, 0) + 1
unfoldable pub count_up : String → Dict ℕ → Dict ℕ
count_up k d = insert k (or_zero (lookup k d) + 1) d

abbrev pub stats_or_new : Option FlywheelStats → FlywheelStats
stats_or_new none = new_stats
stats_or_new (some s) = s

-- `__init__` on a directory: what the files hold.
unfoldable pub reopen : Flywheel → Flywheel
reopen w = record {
  store = w.store;
  saved = w.saved;
  stats = stats_or_new w.saved;
  buffer = [];
  samples_since_last_retrain = 0;
}

unfoldable pub flush_buffer : Flywheel → Flywheel
flush_buffer w = elim w.buffer [
  | [] ↦ w
  | s ∷ ss ↦ record w { store = w.store ++ s ∷ ss; buffer = []; saved = some w.stats }
]

-- The sample in the buffer and the counts, before the test of the buffer's length.
unfoldable pub buffered : TrainingSample → Flywheel → Flywheel
unfolding count_up
buffered s w = record w {
  buffer = w.buffer ++ s ∷ [];
  stats = record w.stats {
    total_samples = w.stats.total_samples + 1;
    samples_by_source = count_up (source_value s.label_source) w.stats.samples_by_source;
    samples_by_fault = count_up (fault_name s.fault_type) w.stats.samples_by_fault;
  };
  samples_since_last_retrain = w.samples_since_last_retrain + 1;
}

unfoldable pub append : TrainingSample → Flywheel → Flywheel
append s w = let w1 = buffered s w in if leb 100 (length w1.buffer) then flush_buffer w1 else w1

unfoldable pub ingest_synthetic :
    List ℤ → String → FaultType → FaultSeverity → String → ℕ → ℕ → Flywheel → Flywheel
ingest_synthetic features region fault_type severity session_id confidence now w =
    append
      (record {
        features = features;
        fault_type = fault_type;
        severity = severity;
        is_anomaly = not (is_nominal severity);
        label_source = synthetic_qdisc;
        confidence = confidence;
        timestamp_ns = now;
        session_id = session_id;
        region = region;
      })
      w

unfoldable pub ingest_production_outcome :
    List ℤ → String → FaultType → FaultSeverity → String → ℕ → ℕ → Flywheel → Flywheel
ingest_production_outcome features region fault_type severity incident_id confidence now w =
    append
      (record {
        features = features;
        fault_type = fault_type;
        severity = severity;
        is_anomaly = true;
        label_source = production;
        confidence = confidence;
        timestamp_ns = now;
        session_id = incident_id;
        region = region;
      })
      w

-- Each metric as its features, its region and the instant of its turn.
unfoldable pub ingest_normal_baseline : List (List ℤ × String × ℕ) → String → Flywheel → Flywheel
ingest_normal_baseline [] session_id w = w
ingest_normal_baseline ((features, region, now) ∷ metrics) session_id w =
    ingest_normal_baseline metrics session_id (
      append
        (record {
          features = features;
          fault_type = unknown;
          severity = nominal;
          is_anomaly = false;
          label_source = bootstrap;
          confidence = 990;
          timestamp_ns = now;
          session_id = session_id;
          region = region;
        })
        w)

abbrev pub same_source : LabelSource → LabelSource → Bool
same_source synthetic_qdisc synthetic_qdisc = true
same_source production production = true
same_source gameday gameday = true
same_source bootstrap bootstrap = true
same_source _ _ = false

unfoldable pub is_among : LabelSource → List LabelSource → Bool
is_among s [] = false
is_among s (t ∷ ts) = same_source s t || is_among s ts

-- `if source_filter` and `if allowed_sources`: an empty filter allows every source.
unfoldable pub is_allowed : Option (List LabelSource) → LabelSource → Bool
unfolding is_among
is_allowed none s = true
is_allowed (some []) s = true
is_allowed (some (t ∷ ts)) s = is_among s (t ∷ ts)

unfoldable pub read_store :
    Option (List LabelSource) → ℕ → List TrainingSample → List TrainingSample
read_store source_filter min_confidence [] = []
read_store source_filter min_confidence (s ∷ ss) =
    let rest = read_store source_filter min_confidence ss in
    if ltb s.confidence min_confidence
    then rest
    else if not (is_allowed source_filter s.label_source)
    then rest
    else s ∷ rest

-- The samples that `load_training_arrays` makes its three arrays of, row by row.
unfoldable pub load_training_samples :
    Option (List LabelSource) → ℕ → Flywheel → List TrainingSample × Flywheel
load_training_samples source_filter min_confidence w =
    let w1 = flush_buffer w in (read_store source_filter min_confidence w1.store, w1)

unfoldable pub load_training_arrays :
    Option (List LabelSource)
    → ℕ
    → Flywheel
    → (List (List ℤ) × List FaultType × List FaultSeverity) × Flywheel
unfolding load_training_samples
load_training_arrays source_filter min_confidence w =
    let (samples, w1) = load_training_samples source_filter min_confidence w in
    (
      (
        map (λ s. s.features) samples,
        map (λ s. s.fault_type) samples,
        map (λ s. s.severity) samples,
      ),
      w1,
    )

unfoldable pub rows_where : (FaultSeverity → Bool) → List TrainingSample → List (List ℤ)
rows_where p [] = []
rows_where p (s ∷ ss) = if p s.severity then s.features ∷ rows_where p ss else rows_where p ss

unfoldable pub load_anomaly_split : ℕ → Flywheel → (List (List ℤ) × List (List ℤ)) × Flywheel
unfolding load_training_samples
load_anomaly_split min_confidence w =
    let (samples, w1) = load_training_samples none min_confidence w in
    ((rows_where is_nominal samples, rows_where is_at_least_degraded samples), w1)

unfoldable pub should_retrain : Flywheel → Bool
should_retrain w =
    leb min_samples_for_retrain w.stats.total_samples
    && leb retrain_volume_threshold w.samples_since_last_retrain
