-- ===== src/Ml/Classifier/Severity.antt =====
-- Which severity `classify` of ml-intelligence-03/ml/models/xgboost_classifier.py gives.
use nimbus_net.Prelude.{◌*◌, ◌≤◌, ◌≡◌, ◌≢◌, ◌↔◌, ◌∙◌, refl, ap, arith, Option, some, List}
use nimbus_net.Prelude.Fractions.{Ratio}
use nimbus_net.Ml.Flywheel.{FaultType, syn_flood, FaultSeverity, nominal, degraded, critical}
use nimbus_net.Ml.Classifier.{
  Backend, Classifier, Probs, most_likely, prob_of, hinted, decide_severity, raw_probs, classify,
}

decide_severity_lem :
    (p : Probs)
    → ((decide_severity p).1 ≡ prob_of (decide_severity p).0 p)
      × ((decide_severity p).0 ≡ critical
          → 55 * (decide_severity p).1.den ≤ 100 * (decide_severity p).1.num)
      × ((decide_severity p).0 ≢ most_likely p
          → ((decide_severity p).0 ≡ degraded) × (most_likely p ≡ critical))
unfolding decide_severity most_likely
decide_severity_lem p = (ground arith, ground arith, ground arith)

-- What the scaled shares of a nominal vector decide.
hinted_nominal :
    (p : Probs)
    → most_likely p ≡ nominal
    → ((decide_severity (hinted (some syn_flood) p)).0 ≡ nominal) ↔ (
        (100 * p.on_warning ≤ 9 * p.on_nominal)
        × (10 * p.on_degraded ≤ 3 * p.on_nominal)
        × (10 * p.on_critical ≤ 3 * p.on_nominal))
unfolding decide_severity most_likely hinted
hinted_nominal p calm = (λ h. ground arith, λ h. ground arith)

module _ {Model : Type 0} (b : Backend Model) where
  -- A critical severity has a confidence of at least 55%: a critical class that is most likely with
  -- less is reported as degraded, with the confidence of that class. Any other severity is the most
  -- likely one, whatever its confidence.
  pub classify_confident :
      (c : Classifier Model) (m : Model) (v : List Ratio) (hint : Option FaultType)
      → c.model ≡ some m
      → (s : FaultSeverity) × (r : Ratio) × (classify b v hint c
          ≡ some (s, r, hinted hint (raw_probs b m v)))
        × (r ≡ prob_of s (hinted hint (raw_probs b m v)))
        × (s ≡ critical → 55 * r.den ≤ 100 * r.num)
        × (s ≢ most_likely (hinted hint (raw_probs b m v))
            → (s ≡ degraded) × (most_likely (hinted hint (raw_probs b m v)) ≡ critical))
  unfolding classify
  classify_confident c m v hint trained =
      let p = hinted hint (raw_probs b m v) in
      let d = decide_severity p in
      let (share, sure, lowered) = decide_severity_lem p in
      (d.0, d.1, rw (trained, classify) refl, share, sure, lowered)

  -- With the hint of a SYN flood, a vector whose most likely class is nominal is reported as nominal
  -- exactly if the warning has at most 9% of the nominal share, and each of the two worse classes at
  -- most 30% of it: the hint does not always raise the severity.
  pub syn_flood_stays_nominal :
      (c : Classifier Model) (m : Model) (v : List Ratio)
      → c.model ≡ some m
      → most_likely (raw_probs b m v) ≡ nominal
      → ((r : Ratio) × (p : Probs) × (classify b v (some syn_flood) c ≡ some (nominal, r, p))) ↔ (
          (100 * (raw_probs b m v).on_warning ≤ 9 * (raw_probs b m v).on_nominal)
          × (10 * (raw_probs b m v).on_degraded ≤ 3 * (raw_probs b m v).on_nominal)
          × (10 * (raw_probs b m v).on_critical ≤ 3 * (raw_probs b m v).on_nominal))
  unfolding classify
  syn_flood_stays_nominal c m v trained calm =
      let p = hinted (some syn_flood) (raw_probs b m v) in
      let d = decide_severity p in
      let e : classify b v (some syn_flood) c ≡ some (d.0, d.1, p) = rw (trained, classify) refl in
      let at_nominal = hinted_nominal (raw_probs b m v) calm in
      (
        λ (r, q, h). at_nominal.0 (cc),
        λ h. (d.1, p, e ∙ ap (λ s. some (s, d.1, p)) (at_nominal.1 h)),
      )
