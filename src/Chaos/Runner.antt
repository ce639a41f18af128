-- ===== src/Chaos/Runner.antt =====
-- chaos-ci-gate-06/runner/chaos_runner.py: the suites of fault scenarios and the gate.
-- Latencies are whole milliseconds; `max(0.0, …)` of a difference is the truncated one. The heal
-- rate is a fraction. `int(n * 0.99)` is computed exactly.
mod Scenarios
pub mod Gate
pub mod Suites
pub mod Command
use nimbus_net.Prelude.{
  ℕ, zero, suc, ◌+◌, ◌-◌, ◌*◌, ◌/◌, String, Bool, true, false, ◌&&◌, not, ◌⊎◌, inl, inr, Option,
  none, some, List, [], ◌∷◌, ◌++◌, ltb, leb, if◌then◌else◌, Dict, lookup, insert, length, count_if,
  map, max,
}
use nimbus_net.Prelude.Text.{◌++ₛ◌}
use nimbus_net.Chaos.Injector.{
  Env, Rig, InjectionSession, Resolution, unresolved, InjectError, inject, clear, wait_for_healing,
  sleep,
}
use nimbus_net.Chaos.Budget.{StateFile, entry_of}
use nimbus_net.Chaos.Injector.Profiles.{fault_profiles}
pub use Scenarios.*

abbrev or_zero : Option ℕ → ℕ
or_zero none = 0
or_zero (some n) = n

-- The result of a scenario that was waited for, with its own gate check.
unfoldable pub judge : ChaosScenario → ℕ → Bool → ℕ → ℕ → RunResult
judge s p healed latency baseline =
    let regression = latency - (baseline + healing_latency_regression_ms) in
    let missed = s.expected_heal && not healed in
    let slow = ltb healing_latency_regression_ms regression in
    record {
      scenario = s;
      session = some p;
      healed = healed;
      healing_latency_ms = latency;
      baseline_latency_ms = baseline;
      regression_ms = regression;
      passed = if missed then false else if slow then false else true;
      fail_reason =
          if missed
          then timed_out s.healing_timeout_s
          else if slow
          then regressed regression
          else no_reason;
    }

abbrev crash : ChaosScenario → InjectError → RunResult
crash s x = record {
  scenario = s;
  session = none;
  healed = false;
  healing_latency_ms = 0;
  baseline_latency_ms = 0;
  regression_ms = 0;
  passed = false;
  fail_reason = crashed x;
}

abbrev said : Option Bool → Bool
said none = false
said (some b) = b

module _ (e : Env) where
  -- The `try` block of `_run_scenario`.
  unfoldable pub attempt_scenario : Dict ℕ → ChaosScenario → Rig → RunResult × Rig
  attempt_scenario baseline s r =
      let (started, r1) = inject e s.profile_name none r in
      elim started [
        | inl x ↦ (crash s x, r1)
        | inr p ↦
            let (healed, r2) = wait_for_healing e p s.healing_timeout_s r1 in
            (
              judge s p (said healed) (r2.heap p).healing_latency_ms
                  (or_zero (lookup s.profile_name baseline)),
              r2,
            )
      ]

  -- The `finally` clause clears the injector, whatever came before.
  unfoldable pub run_scenario : Dict ℕ → ChaosScenario → Rig → RunResult × Rig
  run_scenario baseline s r =
      let (result, r1) = attempt_scenario baseline s r in (result, (clear e r1).1)

  -- `time.sleep(10)`; the monitor of the last session may still be asleep then.
  unfoldable pub cool_down : Option ℕ → Rig → Rig
  cool_down none r = record r { time = r.time + 10000 + e.delay r.sleeps; sleeps = r.sleeps + 1 }
  cool_down (some p) r = sleep e 10 p r

  -- The loop of `_run_suite`.
  unfoldable pub run_scenarios : Dict ℕ → List ChaosScenario → Rig → List RunResult × Rig
  run_scenarios baseline [] r = ([], r)
  run_scenarios baseline (s ∷ ss) r =
      let (result, r1) = run_scenario baseline s r in
      let (results, r2) = run_scenarios baseline ss (cool_down result.session r1) in
      (result ∷ results, r2)

unfoldable pub insert_sorted : ℕ → List ℕ → List ℕ
insert_sorted x [] = x ∷ []
insert_sorted x (y ∷ ys) = if leb x y then x ∷ y ∷ ys else y ∷ insert_sorted x ys

unfoldable pub sorted : List ℕ → List ℕ
unfolding insert_sorted
sorted [] = []
sorted (x ∷ xs) = insert_sorted x (sorted xs)

-- The element at an index, which is in range for a list that is not empty; 0 for the empty list is
-- the default of the result's fields.
unfoldable pub at_index : ℕ → List ℕ → ℕ
at_index i [] = 0
at_index zero (x ∷ xs) = x
at_index (suc i) (x ∷ xs) = at_index i xs

unfoldable pub latencies : List RunResult → List ℕ
latencies [] = []
latencies (rr ∷ rrs) = if rr.healed then rr.healing_latency_ms ∷ latencies rrs else latencies rrs

unfoldable pub max_regression : List RunResult → ℕ
max_regression [] = 0
max_regression (rr ∷ rrs) = max rr.regression_ms (max_regression rrs)

unfoldable pub scenario_failures : List RunResult → List GateFailure
scenario_failures [] = []
scenario_failures (rr ∷ rrs) =
    if rr.passed
    then scenario_failures rrs
    else scenario_failed rr.scenario.name rr.fail_reason ∷ scenario_failures rrs

abbrev failure_if : Bool → GateFailure → List GateFailure
failure_if b f = if b then f ∷ [] else []

-- What `_evaluate_gate` finds beside the failures of scenarios.
unfoldable pub suite_failures : SuiteResult → List GateFailure
suite_failures r =
    failure_if (ltb healing_latency_p99_threshold_ms r.p99_latency_ms)
      (p99_too_high r.p99_latency_ms)
    ++ (failure_if (ltb (100 * r.healed_count) (95 * r.expected_count))
          (heal_rate_too_low r.healed_count r.expected_count)
        ++ failure_if (leb max_error_budget_consumed r.error_budget_consumed)
            (budget_consumed r.error_budget_consumed))

-- `_evaluate_gate`: the gate passes if there are no failures.
unfoldable pub evaluate_gate : SuiteResult → List GateFailure
evaluate_gate r = r.gate_failures ++ suite_failures r

abbrev pub is_empty : List GateFailure → Bool
is_empty [] = true
is_empty (f ∷ fs) = false

-- The `SuiteResult` that `_run_suite` builds behind the loop; `budget` is what the state file holds.
unfoldable pub figures :
    String → List ChaosScenario → List RunResult → Option (Option StateFile) → SuiteResult
figures suite_name scenarios rrs budget =
    let sorted_latencies = sorted (latencies rrs) in
    let n = length sorted_latencies in
    record {
      suite_name = suite_name;
      scenarios_run = length scenarios;
      scenarios_passed = count_if (λ rr. rr.passed) rrs;
      scenarios_failed = count_if (λ rr. not rr.passed) rrs;
      healed_count = count_if (λ rr. rr.healed && rr.scenario.expected_heal) rrs;
      expected_count = count_if (λ s. s.expected_heal) scenarios;
      p50_latency_ms = at_index (n / 2) sorted_latencies;
      p99_latency_ms = at_index (n * 99 / 100) sorted_latencies;
      max_regression_ms = max_regression rrs;
      error_budget_consumed = or_zero (entry_of (λ f. f.consumed_pct) budget);
      gate_passed = false;
      gate_failures = scenario_failures rrs;
      run_results = rrs;
      flywheel_records = length rrs;
    }

-- The result of `_run_suite` with its gate.
unfoldable pub with_gate : SuiteResult → SuiteResult
with_gate r = record r { gate_passed = is_empty (evaluate_gate r); gate_failures = evaluate_gate r }

abbrev pub summarise :
    String → List ChaosScenario → List RunResult → Option (Option StateFile) → SuiteResult
summarise suite_name scenarios rrs budget = with_gate (figures suite_name scenarios rrs budget)

unfoldable pub run_suite :
    Env → Option (Option StateFile) → Dict ℕ → String → List ChaosScenario → Rig → SuiteResult × Rig
run_suite e budget baseline suite_name scenarios r =
    let (rrs, r1) = run_scenarios e baseline scenarios r in
    (summarise suite_name scenarios rrs budget, r1)

abbrev pub run_ci_suite : Env → Option (Option StateFile) → Dict ℕ → Rig → SuiteResult × Rig
run_ci_suite e budget baseline r = run_suite e budget baseline "ci" ci_scenarios r

abbrev pub run_gameday_suite : Env → Option (Option StateFile) → Dict ℕ → Rig → SuiteResult × Rig
run_gameday_suite e budget baseline r = run_suite e budget baseline "gameday" gameday_scenarios r

-- `run_single`: `none` is the ValueError of an unknown profile.
unfoldable pub run_single : Env → Dict ℕ → String → ℕ → Rig → Option RunResult × Rig
run_single e baseline scenario_name timeout_s r = elim (lookup scenario_name fault_profiles) [
  | none ↦ (none, r)
  | some _ ↦
      let (result, r1) =
        run_scenario e baseline (scenario ("adhoc_" ++ₛ scenario_name) scenario_name timeout_s true)
          r in
      (some result, r1)
]

-- `update_baseline`: the new baseline has the healed results alone, the last of a profile.
unfoldable pub new_baseline : List RunResult → Dict ℕ → Dict ℕ
new_baseline [] b = b
new_baseline (rr ∷ rrs) b = new_baseline rrs (
    if rr.healed && ltb 0 rr.healing_latency_ms
    then insert rr.scenario.profile_name rr.healing_latency_ms b
    else b)
