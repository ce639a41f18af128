-- ===== src/Chaos/Runner/Gate.antt =====
-- The gate of chaos-ci-gate-06/runner/chaos_runner.py.
use nimbus_net.Prelude.{
  ℕ, ◌+◌, ◌*◌, ◌≤◌, ◌<◌, ◌≡◌, ◌↔◌, refl, true, arith, Option, List, [], ◌∷◌, String, count_if, not,
  Bool, append-eq-nil, ◌&&◌,
}
use nimbus_net.Chaos.Budget.{StateFile}
use nimbus_net.Chaos.Runner.{
  SuiteResult, GateFailure, RunResult, ChaosScenario, suite_failures, evaluate_gate, is_empty,
  healing_latency_p99_threshold_ms, max_error_budget_consumed, judge, scenario_failures, figures,
  with_gate, summarise,
}

suite_failures-eq-nil :
    (r : SuiteResult)
    → (suite_failures r ≡ [])
      ↔ (r.p99_latency_ms ≤ healing_latency_p99_threshold_ms)
        × (95 * r.expected_count ≤ 100 * r.healed_count)
        × (r.error_budget_consumed < max_error_budget_consumed)
unfolding suite_failures
suite_failures-eq-nil r = (λ h. ground arith, λ h. ground arith)

-- `_evaluate_gate` passes a suite exactly if no scenario failed, the 99th percentile of the healing
-- latency is at most 30 seconds, at least 95% of the scenarios that should heal did, and less than
-- 80% of the error budget is consumed.
pub evaluate_gate_iff :
    (r : SuiteResult)
    → (evaluate_gate r ≡ [])
      ↔ (r.gate_failures ≡ [])
        × (r.p99_latency_ms ≤ healing_latency_p99_threshold_ms)
        × (95 * r.expected_count ≤ 100 * r.healed_count)
        × (r.error_budget_consumed < max_error_budget_consumed)
unfolding evaluate_gate
evaluate_gate_iff r =
    ground (arith, append-eq-nil r.gate_failures (suite_failures r), suite_failures-eq-nil r)

-- A scenario that was waited for passes exactly if it healed where it should, and its latency is at
-- most 400 ms above the baseline: the allowance of 200 ms is given twice, once in the regression
-- and once more in the test of it.
pub judge_passed :
    (s : ChaosScenario) (p latency baseline : ℕ) (healed : Bool)
    → ((judge s p healed latency baseline).passed ≡ true)
      ↔ (s.expected_heal ≡ true → healed ≡ true) × (latency ≤ baseline + 400)
unfolding judge
judge_passed s p latency baseline healed = ground arith

scenario_failures-eq-nil :
    (rrs : List RunResult) → (scenario_failures rrs ≡ []) ↔ (count_if (λ rr. not rr.passed) rrs ≡ 0)
unfolding scenario_failures
scenario_failures-eq-nil [] = (λ _. omega arith, λ _. refl)
scenario_failures-eq-nil (rr ∷ rrs) = ground (arith, scenario_failures-eq-nil rrs)

is_empty-eq-nil : (fs : List GateFailure) → (is_empty fs ≡ true) ↔ (fs ≡ [])
is_empty-eq-nil [] = (λ _. refl, λ _. refl)
is_empty-eq-nil (f ∷ fs) = (λ h. cc, λ h. cc)

-- A suite's gate passes exactly if each of its scenarios passed and the three limits hold of the
-- figures of the suite; and exactly then the list of its failures is empty.
pub summarise_gate :
    (name : String) (ss : List ChaosScenario) (rrs : List RunResult)
    (budget : Option (Option StateFile))
    → (((summarise name ss rrs budget).gate_passed ≡ true)
        ↔ (count_if (λ rr. not rr.passed) rrs ≡ 0)
          × ((summarise name ss rrs budget).p99_latency_ms ≤ healing_latency_p99_threshold_ms)
          × (95 * count_if (λ s. s.expected_heal) ss
              ≤ 100 * count_if (λ rr. rr.healed && rr.scenario.expected_heal) rrs)
          × ((summarise name ss rrs budget).error_budget_consumed < max_error_budget_consumed))
      × (((summarise name ss rrs budget).gate_passed ≡ true)
          ↔ ((summarise name ss rrs budget).gate_failures ≡ []))
unfolding with_gate figures
summarise_gate name ss rrs budget = (
  ground (
    arith,
    is_empty-eq-nil (evaluate_gate (figures name ss rrs budget)),
    evaluate_gate_iff (figures name ss rrs budget),
    scenario_failures-eq-nil rrs,
  ),
  is_empty-eq-nil (evaluate_gate (figures name ss rrs budget)),
)
