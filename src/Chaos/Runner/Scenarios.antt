-- ===== src/Chaos/Runner/Scenarios.antt =====
-- The scenarios and the results of chaos-ci-gate-06/runner/chaos_runner.py, and the limits of its
-- gate.
use nimbus_net.Prelude.{ℕ, String, Bool, true, false, Option, List, [], ◌∷◌, ◌++◌}
use nimbus_net.Chaos.Injector.{InjectError}

abbrev pub healing_latency_p99_threshold_ms : ℕ
healing_latency_p99_threshold_ms = 30000

abbrev pub healing_latency_regression_ms : ℕ
healing_latency_regression_ms = 200

abbrev pub max_error_budget_consumed : ℕ
max_error_budget_consumed = 80000

-- The weight, in thousandths, is never looked at.
pub record ChaosScenario : Type 0 where
  pub name : String
  pub profile_name : String
  pub healing_timeout_s : ℕ
  pub expected_heal : Bool
  pub weight : ℕ

-- The texts of `fail_reason`.
pub data FailReason : Type 0 where
  no_reason : FailReason
  timed_out regressed : ℕ → FailReason
  crashed : InjectError → FailReason

-- `session` is the session's place, if one was returned.
pub record RunResult : Type 0 where
  pub scenario : ChaosScenario
  pub session : Option ℕ
  pub healed : Bool
  pub healing_latency_ms : ℕ
  pub baseline_latency_ms : ℕ
  pub regression_ms : ℕ
  pub passed : Bool
  pub fail_reason : FailReason

pub data GateFailure : Type 0 where
  scenario_failed : String → FailReason → GateFailure
  p99_too_high : ℕ → GateFailure
  heal_rate_too_low : ℕ → ℕ → GateFailure
  budget_consumed : ℕ → GateFailure

-- The heal rate is `healed_count / expected_count`, and 1 if nothing is expected to heal.
pub record SuiteResult : Type 0 where
  pub suite_name : String
  pub scenarios_run : ℕ
  pub scenarios_passed : ℕ
  pub scenarios_failed : ℕ
  pub healed_count : ℕ
  pub expected_count : ℕ
  pub p50_latency_ms : ℕ
  pub p99_latency_ms : ℕ
  pub max_regression_ms : ℕ
  pub error_budget_consumed : ℕ
  pub gate_passed : Bool
  pub gate_failures : List GateFailure
  pub run_results : List RunResult
  pub flywheel_records : ℕ

abbrev pub scenario : String → String → ℕ → Bool → ChaosScenario
scenario name profile_name healing_timeout_s expected_heal = record {
  name = name;
  profile_name = profile_name;
  healing_timeout_s = healing_timeout_s;
  expected_heal = expected_heal;
  weight = 1000;
}

abbrev pub ci_scenarios : List ChaosScenario
ci_scenarios =
    scenario "high_latency_heal" "high_latency" 90 true
    ∷ scenario "packet_loss_5pct_heal" "packet_loss_5pct" 60 true
    ∷ scenario "jitter_burst_heal" "jitter_burst" 75 true
    ∷ scenario "bandwidth_cap_heal" "bandwidth_constrained" 90 true
    ∷ scenario "combined_worst_case" "combined_worst_case" 120 true
    ∷ []

abbrev pub gameday_scenarios : List ChaosScenario
gameday_scenarios =
    ci_scenarios
    ++ scenario "severe_loss_escalation" "packet_loss_severe" 60 false
      ∷ scenario "reorder_chaos" "packet_reorder" 75 true
      ∷ []
