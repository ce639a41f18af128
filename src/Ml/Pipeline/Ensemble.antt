-- ===== src/Ml/Pipeline/Ensemble.antt =====
-- The failover decision of ml-intelligence-03/ml/pipeline/scoring_pipeline.py.
use native.Mathlib.Nat.{one-le-mul, mul-le-mul}
use mathlib.Core.Path.{subst}
use nimbus_net.Prelude.{
  ℕ, ◌-◌, ◌*◌, ◌≤◌, ◌<◌, ◌≡◌, ◌↔◌, ◌⊎◌, inl, inr, refl, arith, Bool, true, false, [], ◌∷◌, ◌++◌,
  All, List-cases,
}
use nimbus_net.Prelude.Fractions.{
  Ratio, micro, add, IsUnit, Weighted, total_weight, weighted_mean, weighted_sum-le,
}
use nimbus_net.Ml.Flywheel.{FaultSeverity, is_at_least_degraded}
use nimbus_net.Ml.Pipeline.{
  signal_if, path_a, path_b, path_c, score_b, score_c, triggered_signals, ensemble_decision,
}

abbrev AllUnit : Weighted → Type 0
AllUnit ss = All (λ (e : Ratio × ℕ). IsUnit e.0 × (0 < e.1)) ss

AllUnit-append : (xs ys : Weighted) → AllUnit xs → AllUnit ys → AllUnit (xs ++ ys)
AllUnit-append [] ys h k = k
AllUnit-append (x ∷ xs) ys h k = (h.0, AllUnit-append xs ys h.1 k)

signal_if-AllUnit :
    (b : Bool) (r : Ratio) (w : ℕ) → (b ≡ true → IsUnit r) → 0 < w → AllUnit (signal_if b r w)
signal_if-AllUnit true r w h pos = ((h refl, pos), tt)
signal_if-AllUnit false r w h pos = tt

score_b-IsUnit : (x : Ratio) (l : ℕ) → IsUnit x → l ≤ 1000000 → IsUnit (score_b x l)
unfolding add
score_b-IsUnit x l h le = (omega (arith, h.0), grind (arith, h.0, h.1))

score_c-IsUnit : (w : Ratio) (f : ℕ) → 0 < w.den → f ≤ 1000000 → IsUnit (score_c w f)
score_c-IsUnit w f h le =
    let fewer : w.den - 5 * w.num ≤ w.den = omega arith in (omega arith, mul-le-mul fewer le)

-- A mean of fractions up to 1 is one, with positive weights.
total_weight_pos : (e : Ratio × ℕ) (es : Weighted) → 0 < e.1 → 0 < total_weight (e ∷ es)
unfolding total_weight
total_weight_pos (r, w) es h = omega arith

AllUnit-units : (ss : Weighted) → AllUnit ss → All (λ (e : Ratio × ℕ). IsUnit e.0) ss
AllUnit-units [] h = tt
AllUnit-units (s ∷ ss) h = (h.0.0, AllUnit-units ss h.1)

weighted_mean-IsUnit :
    (s : Ratio × ℕ) (ss : Weighted) → AllUnit (s ∷ ss) → IsUnit (weighted_mean (s ∷ ss))
unfolding weighted_mean
weighted_mean-IsUnit s ss h =
    let (pos, le) = weighted_sum-le (s ∷ ss) (AllUnit-units (s ∷ ss) h) in
    (one-le-mul pos (total_weight_pos s ss h.0.1), le)

module _ (if_score : ℕ) (severity : FaultSeverity) (xgb_conf : Ratio) (lstm_conf : ℕ)
    (weight : Ratio) where
  abbrev decision : Bool × Ratio
  decision = ensemble_decision if_score severity xgb_conf lstm_conf weight

  triggered_signals-AllUnit :
      if_score ≤ 1000000
      → IsUnit xgb_conf
      → lstm_conf ≤ 1000000
      → IsUnit weight
      → AllUnit (triggered_signals if_score severity xgb_conf lstm_conf weight)
  unfolding triggered_signals
  triggered_signals-AllUnit f x l w =
      let by_forest = signal_if (path_a if_score) (micro if_score) 40 in
      let by_network = signal_if (path_b severity lstm_conf) (score_b xgb_conf lstm_conf) 40 in
      let by_bandit = signal_if (path_c weight if_score) (score_c weight if_score) 20 in
      AllUnit-append by_forest (by_network ++ by_bandit)
        (signal_if-AllUnit (path_a if_score) (micro if_score) 40 (λ e. omega arith) (omega arith))
        (AllUnit-append by_network by_bandit
          (signal_if-AllUnit (path_b severity lstm_conf) (score_b xgb_conf lstm_conf) 40
            (λ e. score_b-IsUnit xgb_conf lstm_conf x l) (omega arith))
          (signal_if-AllUnit (path_c weight if_score) (score_c weight if_score) 20
            (λ e. score_c-IsUnit weight if_score (w.0) f) (omega arith)))

  abbrev Triggers : Type 0
  Triggers =
      (700000 ≤ if_score)
      ⊎ ((is_at_least_degraded severity ≡ true) × (600000 ≤ lstm_conf))
      ⊎ ((100 * weight.num < 20 * weight.den) × (500000 ≤ if_score))

  triggered : decision.0 ≡ true → Triggers
  unfolding ensemble_decision triggered_signals
  triggered h = ground arith

  triggers : Triggers → decision.0 ≡ true
  unfolding ensemble_decision triggered_signals
  triggers h = ground arith

  -- A failover is asked for exactly in three cases: the forest's score is at least 0.70; or the
  -- severity is at least degraded and the network's confidence at least 0.60; or the region's weight
  -- is below 0.20 and the forest's score at least 0.50. If all inputs are between 0 and 1, so is the
  -- confidence of the decision, and without a failover it is 0.
  pub ensemble_decision_paths :
      ((decision.0 ≡ true) ↔ (
        (700000 ≤ if_score)
        ⊎ ((is_at_least_degraded severity ≡ true) × (600000 ≤ lstm_conf))
        ⊎ ((100 * weight.num < 20 * weight.den) × (500000 ≤ if_score))))
      × (if_score ≤ 1000000
          → IsUnit xgb_conf
          → lstm_conf ≤ 1000000
          → IsUnit weight
          → IsUnit decision.1)
      × (decision.0 ≡ false → decision.1.num ≡ 0)
  unfolding ensemble_decision
  ensemble_decision_paths =
      let signals = triggered_signals if_score severity xgb_conf lstm_conf weight in
      (
        (triggered, triggers),
        λ f x l w. elim (List-cases signals) [
          | inl e ↦ rw (e, ensemble_decision) (omega arith)
          | inr (s, ss, e) ↦
              rw (e, ensemble_decision)
                (weighted_mean-IsUnit s ss (subst AllUnit e (triggered_signals-AllUnit f x l w)))
        ],
        λ h. elim (List-cases signals) [
          | inl e ↦ rw (e, ensemble_decision) refl
          | inr (s, ss, e) ↦ absurd (ground arith)
        ],
      )
