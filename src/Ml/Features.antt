-- ===== src/Ml/Features.antt =====
-- ml-intelligence-03/ml/models/feature_extractor.py: the features of a metric, with the types of
-- ml-intelligence-03/ml/models/types.py. The counts of a metric are not negative. Its window is in
-- thousandths of a millisecond, the retransmit rate in millionths, the average anomaly score in
-- thousandths. A feature is an exact fraction: the rounding to 32-bit floats is left out.
-- `math.log1p` is a parameter, a fraction for each fraction.
pub mod Bounds
use nimbus_net.Prelude.{
  ℕ, ◌+◌, ◌*◌, min, max, String, Bool, ◌&&◌, List, [], ◌∷◌, ltb, ◌==◌, if◌then◌else◌, map,
}
use nimbus_net.Prelude.Fractions.{Ratio, micro}

pub record AggregatedMetric : Type 0 where
  pub window_start_ns : ℕ
  pub window_end_ns : ℕ
  pub window_size_ms : ℕ
  pub src_ip : String
  pub dst_ip : String
  pub region : String
  pub total_bytes : ℕ
  pub total_packets : ℕ
  pub retransmit_rate : ℕ
  pub rtt_ewma_us : ℕ
  pub rtt_jitter_us : ℕ
  pub max_anomaly_score : ℕ
  pub avg_anomaly_score : ℕ
  pub connects_observed : ℕ
  pub closes_observed : ℕ
  pub retrans_observed : ℕ
  pub owner_node_id : String
  pub is_local : Bool

pub record FeatureVector : Type 0 where
  pub values : List Ratio
  pub source : AggregatedMetric
  pub timestamp_ns : ℕ

abbrev pub n_features : ℕ
n_features = 18

abbrev pub baseline_bytes_per_ms : ℕ
baseline_bytes_per_ms = 125000

abbrev pub rtt_spike_threshold_us : ℕ
rtt_spike_threshold_us = 100000

abbrev pub rtt_jitter_threshold_us : ℕ
rtt_jitter_threshold_us = 20000

abbrev pub packet_loss_threshold : ℕ
packet_loss_threshold = 50000

-- 1.0 if … else 0.0
abbrev pub flag : Bool → Ratio
flag b = if b then record { num = 1; den = 1 } else record { num = 0; den = 1 }

-- min(n / d, cap) / scale
abbrev pub capped : ℕ → ℕ → ℕ → ℕ → Ratio
capped cap scale n d = record { num = min n (cap * d); den = scale * d }

abbrev pub window_of : AggregatedMetric → ℕ
window_of m = max m.window_size_ms 1000

abbrev pub packets_of : AggregatedMetric → ℕ
packets_of m = max m.total_packets 1

unfoldable pub rtt_jitter_ratio : AggregatedMetric → Ratio
rtt_jitter_ratio m =
    if ltb 0 m.rtt_ewma_us
    then capped 5 1 m.rtt_jitter_us m.rtt_ewma_us
    else record { num = 0; den = 1 }

unfoldable pub has_syn_flood : AggregatedMetric → Bool
has_syn_flood m = ltb 0 m.closes_observed && ltb (10 * max m.closes_observed 1) m.connects_observed

unfoldable pub is_trending : AggregatedMetric → Bool
is_trending m =
    ltb 0 m.avg_anomaly_score && ltb (3 * m.avg_anomaly_score) (2000 * m.max_anomaly_score)

module _ (log1p : Ratio → Ratio) where
  -- log1p(rate * 100) / log1p(100)
  unfoldable pub retransmit_rate_log1p : ℕ → Ratio
  retransmit_rate_log1p rate =
      let x = log1p (record { num = 100 * rate; den = 1000000 }) in
      let y = log1p (record { num = 100; den = 1 }) in
      record { num = x.num * y.den; den = x.den * y.num }

  unfoldable pub features : AggregatedMetric → List Ratio
  unfolding rtt_jitter_ratio has_syn_flood is_trending retransmit_rate_log1p
  features m =
      capped 2000 1 m.rtt_ewma_us 1000
      ∷ capped 500 1 m.rtt_jitter_us 1000
      ∷ rtt_jitter_ratio m
      ∷ micro (min m.retransmit_rate 1000000)
      ∷ retransmit_rate_log1p (min m.retransmit_rate 1000000)
      ∷ record { num = m.avg_anomaly_score; den = 100000 }
      ∷ record { num = m.max_anomaly_score; den = 100 }
      ∷ capped 65535 65535 m.total_bytes (packets_of m)
      ∷ capped 100000 100000 (1000 * m.total_packets) (window_of m)
      ∷ capped 1000 1000 (1000 * m.connects_observed) (window_of m)
      ∷ capped 1000 1000 (1000 * m.closes_observed) (window_of m)
      ∷ capped 1 1 m.retrans_observed (packets_of m)
      ∷ flag (ltb rtt_spike_threshold_us m.rtt_ewma_us)
      ∷ flag (ltb rtt_jitter_threshold_us m.rtt_jitter_us)
      ∷ flag (ltb packet_loss_threshold m.retransmit_rate)
      ∷ flag (has_syn_flood m)
      ∷ capped 2 2 (1000 * m.total_bytes) (baseline_bytes_per_ms * window_of m)
      ∷ flag (is_trending m)
      ∷ []

  -- `now` is the clock of the vector's `timestamp_ns`.
  unfoldable pub extract : ℕ → AggregatedMetric → FeatureVector
  unfolding features
  extract now m = record { values = features m; source = m; timestamp_ns = now }

  unfoldable pub batch_extract : List AggregatedMetric → List (List Ratio)
  batch_extract ms = map features ms
