-- ===== src/Ml/Features/Bounds.antt =====
-- The ranges of the features (ml-intelligence-03/ml/models/feature_extractor.py).
use nimbus_net.Prelude.{
  ℕ, ◌*◌, ◌≤◌, ◌<◌, ◌≡◌, refl, arith, Bool, true, false, List, [], ◌∷◌, min, length,
}
use native.Mathlib.Nat.{one-le-mul}
use nimbus_net.Prelude.Fractions.{Ratio}
use nimbus_net.Ml.Features.{
  AggregatedMetric, features, extract, rtt_jitter_ratio, retransmit_rate_log1p, capped, flag,
  n_features, window_of, packets_of,
}

-- Not above `cap`, and a proper fraction.
abbrev pub Within : ℕ → Ratio → Type 0
Within cap r = (0 < r.den) × (r.num ≤ cap * r.den)

infixr 6 ◌⨾◌
pub data AllWithin : List ℕ → List Ratio → Type 0 where
  end : AllWithin [] []
  ◌⨾◌ :
      {c : ℕ} {cs : List ℕ} {r : Ratio} {rs : List Ratio}
      → Within c r
      → AllWithin cs rs
      → AllWithin (c ∷ cs) (r ∷ rs)

-- The caps of the features: two are in milliseconds, one is a ratio, the others are shares of 1.
abbrev pub caps : List ℕ
caps = 2000 ∷ 500 ∷ 5 ∷ 1 ∷ 1 ∷ 1 ∷ 1 ∷ 1 ∷ 1 ∷ 1 ∷ 1 ∷ 1 ∷ 1 ∷ 1 ∷ 1 ∷ 1 ∷ 1 ∷ 1 ∷ []

-- What is documented of `math.log1p`: it does not decrease, and log1p(100) is positive.
pub record IsLog1p (log1p : Ratio → Ratio) : Type 0 where
  pub proper : (r : Ratio) → 0 < r.den → 0 < (log1p r).den
  pub positive : 0 < (log1p (record { num = 100; den = 1 })).num
  pub grows :
      (r s : Ratio)
      → 0 < r.den
      → 0 < s.den
      → r.num * s.den ≤ s.num * r.den
      → (log1p r).num * (log1p s).den ≤ (log1p s).num * (log1p r).den

-- What the agent documents of a metric's anomaly scores: they are at most 100.
pub record IsScored (m : AggregatedMetric) : Type 0 where
  pub average : m.avg_anomaly_score ≤ 100000
  pub maximum : m.max_anomaly_score ≤ 100

capped-Within : (cap n d : ℕ) → 0 < d → Within cap (capped cap 1 n d)
capped-Within cap n d h = (omega arith, grind arith)

capped_unit : (cap n d : ℕ) → 0 < cap → 0 < d → Within 1 (capped cap cap n d)
capped_unit cap n d hc h = (one-le-mul hc h, grind arith)

flag-Within : (b : Bool) → Within 1 (flag b)
flag-Within true = omega arith
flag-Within false = omega arith

rtt_jitter_ratio-Within : (m : AggregatedMetric) → Within 5 (rtt_jitter_ratio m)
unfolding rtt_jitter_ratio
rtt_jitter_ratio-Within m = ground (arith, capped-Within 5 m.rtt_jitter_us m.rtt_ewma_us)

module _ (log1p : Ratio → Ratio) (l : IsLog1p log1p) where
  log1p-Within : (rate : ℕ) → rate ≤ 1000000 → Within 1 (retransmit_rate_log1p log1p rate)
  unfolding retransmit_rate_log1p
  log1p-Within rate h =
      let r : Ratio = record { num = 100 * rate; den = 1000000 } in
      let s : Ratio = record { num = 100; den = 1 } in
      (
        one-le-mul (l.proper r (omega arith)) l.positive,
        grind (arith, l.grows r s (omega arith) (omega arith) (omega arith)),
      )

  -- A metric has 18 features, each a proper fraction. With anomaly scores up to 100 none is above its
  -- cap: 2000 and 500 milliseconds for the round trip and its jitter, 5 for their ratio, and 1 for
  -- every other, whatever the counts of the metric are.
  pub extract_bounded :
      (now : ℕ) (m : AggregatedMetric)
      → IsScored m
      → (length (extract log1p now m).values ≡ n_features)
        × AllWithin caps (extract log1p now m).values
  unfolding extract features
  extract_bounded now m s =
      let w : 0 < window_of m = omega arith in
      let q : 0 < packets_of m = omega arith in
      (
        refl,
        omega arith
            ⨾ omega arith
            ⨾ rtt_jitter_ratio-Within m
            ⨾ omega arith
            ⨾ log1p-Within (min m.retransmit_rate 1000000) (omega arith)
            ⨾ omega arith
            ⨾ omega arith
            ⨾ capped_unit 65535 m.total_bytes (packets_of m) (omega arith) q
            ⨾ capped_unit 100000 (1000 * m.total_packets) (window_of m) (omega arith) w
            ⨾ capped_unit 1000 (1000 * m.connects_observed) (window_of m) (omega arith) w
            ⨾ capped_unit 1000 (1000 * m.closes_observed) (window_of m) (omega arith) w
            ⨾ capped_unit 1 m.retrans_observed (packets_of m) (omega arith) q
            ⨾ flag-Within _
            ⨾ flag-Within _
            ⨾ flag-Within _
            ⨾ flag-Within _
            ⨾ omega arith
            ⨾ flag-Within _
            ⨾ end,
      )
