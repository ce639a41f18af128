-- ===== src/Tests/Models.antt =====
-- The models of ml-intelligence-03/ml/models at concrete inputs.
use nimbus_net.Prelude.{
  ℕ, zero, suc, ◌+◌, ◌*◌, ◌%◌, ◌≤◌, ◌≡◌, ◌≢◌, ◌↔◌, refl, arith, true, false, none, some, List, [],
  ◌∷◌, length, map, if◌then◌else◌, ltb,
}
use nimbus_net.Prelude.Int.{pos, ◌≤ℤ◌}
use nimbus_net.Prelude.Fractions.{Ratio}
use nimbus_net.Ml.Features.{AggregatedMetric, extract, n_features}
use nimbus_net.Ml.Features.Bounds.{IsLog1p, IsScored, AllWithin, caps, extract_bounded}
use nimbus_net.Ml.Flywheel.{syn_flood, FaultSeverity, nominal, degraded, critical}
use nimbus_net.Ml.Lstm.{Numpy, LstmCell, Lstm, new_lstm, drop}
use nimbus_net.Ml.Classifier.{
  Backend, Classifier, Probs, new_classifier, classify, hinted, raw_probs, most_likely, prob_of,
}
use nimbus_net.Ml.Classifier.Severity.{classify_confident, syn_flood_stays_nominal}
use nimbus_net.Ml.Forest.{Sklearn, Forest, bootstrap, score, is_anomaly}
use nimbus_net.Ml.Forest.Files.{new_forest}
use nimbus_net.Ml.Forest.Order.{IsSklearn, IsTrained, bootstrapped, less_anomalous_scores_higher}

abbrev pub metric : AggregatedMetric
metric = record {
  window_start_ns = 0;
  window_end_ns = 50000000;
  window_size_ms = 50000;
  src_ip = "10.0.0.1";
  dst_ip = "10.0.1.1";
  region = "us-east";
  total_bytes = 640000;
  total_packets = 800;
  retransmit_rate = 120000;
  rtt_ewma_us = 180000;
  rtt_jitter_us = 30000;
  max_anomaly_score = 90;
  avg_anomaly_score = 41000;
  connects_observed = 4;
  closes_observed = 1;
  retrans_observed = 96;
  owner_node_id = "n-1";
  is_local = false;
}

-- A stand-in that grows as the logarithm does.
abbrev pub log1p : Ratio → Ratio
log1p r = r

log1p-IsLog1p : IsLog1p log1p
log1p-IsLog1p = record { proper = λ r h. h; positive = omega arith; grows = λ r s hr hs h. h }

metric-IsScored : IsScored metric
metric-IsScored = omega arith

extract_bounded_example :
    (length (extract log1p 7 metric).values ≡ n_features)
    × AllWithin caps (extract log1p 7 metric).values
extract_bounded_example = extract_bounded log1p log1p-IsLog1p 7 metric metric-IsScored

abbrev zip_with : (ℕ → ℕ → ℕ) → List ℕ → List ℕ → List ℕ
zip_with f (x ∷ xs) (y ∷ ys) = f x y ∷ zip_with f xs ys
zip_with f _ _ = []

abbrev zeros : ℕ → List ℕ
zeros zero = []
zeros (suc n) = 0 ∷ zeros n

abbrev take : ℕ → List ℕ → List ℕ
take zero xs = []
take (suc n) [] = []
take (suc n) (x ∷ xs) = x ∷ take n xs

abbrev total : List ℕ → ℕ
total [] = 0
total (x ∷ xs) = x + total xs

abbrev nums : List Ratio → List ℕ
nums rs = map (λ (r : Ratio). r.num) rs

abbrev item_of : List ℕ → ℕ → ℕ
item_of [] i = 0
item_of (x ∷ xs) zero = x
item_of (x ∷ xs) (suc i) = item_of xs i

-- Arrays of numbers; a matrix scales.
abbrev pub np : Numpy (List ℕ) ℕ
np = record {
  array = nums;
  zeros = zeros;
  dot = λ k xs. map (λ (x : ℕ). k * x) xs;
  add = zip_with ◌+◌;
  mul = zip_with ◌*◌;
  slice = λ a b xs. take b (drop a xs);
  tanh = λ xs. xs;
  exp = λ xs. xs;
  negate = λ xs. xs;
  clip = λ xs. xs;
  add_one = λ xs. map (λ (x : ℕ). x + 1) xs;
  invert = λ xs. xs;
  shift = λ xs. xs;
  share = λ xs. xs;
  size = length;
  argmax = λ xs. total xs % 7;
  item = item_of;
}

abbrev pub cell : LstmCell (List ℕ) ℕ
cell = record { w = 2; u = 3; b = 1 ∷ 2 ∷ 3 ∷ 4 ∷ [] }

abbrev pub net : Lstm (List ℕ) ℕ
net = record (new_lstm 3 1 7) {
  lstm1 = some cell;
  lstm2 = some cell;
  w_out = some 2;
  b_out = some (1 ∷ 0 ∷ 5 ∷ []);
  version_hash = "v-9";
}

abbrev vector : ℕ → List Ratio
vector n = record { num = n; den = 1 } ∷ []

abbrev vectors : List (List Ratio)
vectors = vector 1 ∷ vector 2 ∷ vector 3 ∷ vector 4 ∷ []

abbrev used : Lstm (List ℕ) ℕ
used = record net { window = vector 8 ∷ vector 9 ∷ [] }

-- Trees that give the same shares for every vector, as per cent.
abbrev pub backend : List ℕ → Backend ℕ
backend shares = record {
  xgb_available = true;
  fit_xgboost = λ n depth rate seed rows labels. some (length rows);
  fit_tree = λ depth seed rows labels. none;
  feature_importances = λ m. m ∷ [];
  classes = λ m. 0 ∷ 1 ∷ 2 ∷ 3 ∷ [];
  predict_proba = λ m v. (shares, 100);
  digest = λ a b c. "h";
}

abbrev pub calm : List ℕ
calm = 90 ∷ 5 ∷ 3 ∷ 2 ∷ []

abbrev pub bad : List ℕ
bad = 10 ∷ 5 ∷ 35 ∷ 50 ∷ []

abbrev pub trained : List ℕ → Classifier ℕ
trained shares = record (new_classifier (backend shares) 300 6 50) { model = some 12 }

classify_confident_example :
    (s : FaultSeverity) × (r : Ratio) × (classify (backend bad) (vector 1) none (trained bad)
      ≡ some (s, r, hinted none (raw_probs (backend bad) 12 (vector 1))))
    × (r ≡ prob_of s (hinted none (raw_probs (backend bad) 12 (vector 1))))
    × (s ≡ critical → 55 * r.den ≤ 100 * r.num)
    × (s ≢ most_likely (hinted none (raw_probs (backend bad) 12 (vector 1)))
        → (s ≡ degraded)
          × (most_likely (hinted none (raw_probs (backend bad) 12 (vector 1))) ≡ critical))
classify_confident_example = classify_confident (backend bad) (trained bad) 12 (vector 1) none refl

calm_is_nominal : most_likely (raw_probs (backend calm) 12 (vector 1)) ≡ nominal
unfolding most_likely raw_probs
calm_is_nominal = refl

syn_flood_stays_nominal_example :
    ((r : Ratio) × (p : Probs) × (classify (backend calm) (vector 1) (some syn_flood) (trained calm)
        ≡ some (nominal, r, p)))
    ↔ ((100 * (raw_probs (backend calm) 12 (vector 1)).on_warning
          ≤ 9 * (raw_probs (backend calm) 12 (vector 1)).on_nominal)
        × (10 * (raw_probs (backend calm) 12 (vector 1)).on_degraded
            ≤ 3 * (raw_probs (backend calm) 12 (vector 1)).on_nominal)
        × (10 * (raw_probs (backend calm) 12 (vector 1)).on_critical
            ≤ 3 * (raw_probs (backend calm) 12 (vector 1)).on_nominal))
syn_flood_stays_nominal_example =
    syn_flood_stays_nominal (backend calm) (trained calm) 12 (vector 1) refl calm_is_nominal

-- The calibration is the identity; the raw score of a vector is its first number.
abbrev first_num : List Ratio → ℕ
first_num [] = 0
first_num (r ∷ rs) = r.num

abbrev pub sk : Sklearn ℕ ℕ
sk = record {
  fit = λ n k c seed rows. if ltb c.den (2 * c.num) then none else some (length rows);
  score_samples = λ m v. pos (first_num v);
  fit_isotonic = λ xs ys. length ys;
  predict = λ c x. x;
  percentile = λ n xs. pos n;
  lowest = λ xs. pos 0;
  highest = λ xs. pos 1;
  logistic = λ x. x;
  digest = λ a b c. "f";
}

sk-IsSklearn : IsSklearn sk
sk-IsSklearn = record {
  isotonic = λ xs ys x y h. h;
  contaminated = λ n k c seed rows h. ground arith;
}

abbrev pub forest : Forest ℕ ℕ
forest = record (new_forest 200 512 (record { num = 1; den = 20 })) {
  model = some 1;
  calibrator = some 5;
  trained_at = some 77;
  training_samples = 1;
  version_hash = "f";
}

forest-IsTrained : IsTrained sk forest
unfolding bootstrap
forest-IsTrained =
    bootstrapped (new_forest 200 512 (record { num = 1; den = 20 })) 77
      (record { columns = 18; rows = vector 4 ∷ [] }) refl

less_anomalous_scores_higher_example :
    (m : ℕ) × (p : ℕ) × (q : ℕ) × (forest.model ≡ some m)
    × (score sk (vector 750000) forest ≡ some p)
    × (score sk (vector 900000) forest ≡ some q)
    × (sk.score_samples m (vector 750000) ≤ℤ sk.score_samples m (vector 900000)
        → (p ≤ q)
          × (is_anomaly sk (vector 750000) forest ≡ some (true, p)
              → is_anomaly sk (vector 900000) forest ≡ some (true, q)))
less_anomalous_scores_higher_example =
    less_anomalous_scores_higher sk sk-IsSklearn forest (vector 750000) (vector 900000)
      forest-IsTrained
