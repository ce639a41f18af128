-- ===== src/Chaos/Orchestrator.antt =====
-- chaos-ci-gate-06/chaos/gameday.py: a game day's scenarios, phase by phase, over the injector.
-- Instants are milliseconds. `time.sleep` passes its time and some more, and the monitor of the
-- phase's session wakes meanwhile. The notices to the SREs are log lines, and the report is
-- returned as it is written.
mod Scenarios
pub mod Budgets
mod Idle
pub mod Cleared
pub mod Strays
pub mod Reports
use nimbus_net.Prelude.{
  ℕ, ◌+◌, ◌-◌, ◌*◌, ◌/◌, String, Bool, true, false, ◌&&◌, not, inl, inr, Option, none, some, List,
  [], ◌∷◌, ◌++◌, ltb, if◌then◌else◌, Dict, insert, length, count_if, sum_of, map,
}
use nimbus_net.Prelude.Text.{◌++ₛ◌, contains}
use nimbus_net.Chaos.Injector.{Env, Rig, clock, inject, clear, sleep}
pub use Scenarios.*

module _ (e : Env) where
  -- `time.sleep` behind a phase, whose monitor may still be asleep, or without a phase.
  unfoldable pub pause : ℕ → Option ℕ → Rig → Rig
  pause seconds none r = record r {
    time = r.time + seconds * 1000 + e.delay r.sleeps;
    sleeps = r.sleeps + 1;
  }
  pause seconds (some p) r = sleep e seconds p r

  -- A round of the loop of `_run_multiphase`; `none` if the phase raised.
  unfoldable pub run_phase : String → Phase → Rig → Option PhaseResult × Rig
  unfolding pause
  run_phase scenario phase r =
      let name = "gameday_" ++ₛ scenario ++ₛ "_" ++ₛ phase.label in
      let (started, r1) = inject e name (some phase.profile) r in
      elim started [
        | inl x ↦ (none, pause 5 none (clear e r1).1)
        | inr p ↦
            let (done, r2) = clear e (sleep e phase.profile.duration_seconds p r1) in
            let result : PhaseResult = record {
              phase = phase.label;
              duration_s = phase.profile.duration_seconds;
              session_id = p;
              resolution = (r2.heap p).resolution;
            } in
            elim done [
              | none ↦ (none, pause 5 (some p) (clear e r2).1)
              | some _ ↦ (some result, pause 5 (some p) r2)
            ]
      ]

  -- The results of the phases that did not raise, and `healed_all`.
  unfoldable pub run_phases : String → List Phase → Rig → (List PhaseResult × Bool) × Rig
  run_phases scenario [] r = (([], true), r)
  run_phases scenario (phase ∷ phases) r =
      let (done, r1) = run_phase scenario phase r in
      let ((results, healed_all), r2) = run_phases scenario phases r1 in
      elim done [ none ↦ ((results, false), r2) | some x ↦ ((x ∷ results, healed_all), r2) ]

  unfoldable pub run_multiphase : GameDayScenario → Rig → ScenarioResult × Rig
  unfolding clock
  run_multiphase s r =
      let (start, r1) = clock e r in
      let ((results, healed_all), r2) = run_phases s.name s.phases r1 in
      let (now, r3) = clock e r2 in
      (
        record {
          scenario = s.name;
          phases = results;
          healing_latency_ms = now - start;
          passed = healed_all && ltb (now - start) s.expected_max_healing_ms;
        },
        r3,
      )

  -- The loop of `run_session`, with the observation window behind each scenario.
  unfoldable pub run_all : List GameDayScenario → Rig → List ScenarioResult × Rig
  unfolding pause
  run_all [] r = ([], r)
  run_all (s ∷ ss) r =
      let (result, r1) = run_multiphase s r in
      let (results, r2) = run_all ss (pause 30 none r1) in (result ∷ results, r2)

-- `[… for s, r in zip(scenarios, results) if not r["passed"]]`
unfoldable pub failed_names : List GameDayScenario → List ScenarioResult → List String
failed_names (s ∷ ss) (r ∷ rs) =
    let rest = failed_names ss rs in if r.passed then rest else s.name ∷ rest
failed_names _ _ = []

unfoldable pub healing_performance : List ScenarioResult → Dict Healing → Dict Healing
healing_performance [] d = d
healing_performance (r ∷ rs) d = healing_performance rs (
    insert r.scenario
      (record { healing_latency_ms = r.healing_latency_ms; all_phases_healed = r.passed }) d)

unfoldable pub investigations : List ScenarioResult → List String
investigations [] = []
investigations (r ∷ rs) =
    let rest = investigations rs in
    if r.passed
    then rest
    else ("Investigate " ++ₛ r.scenario ++ₛ " — exceeded healing budget or phase failure") ∷ rest

unfoldable pub generate_action_items : List ScenarioResult → List String
unfolding investigations
generate_action_items rs = elim (investigations rs) [
  | [] ↦ "No action items — all scenarios within SLO" ∷ []
  | x ∷ xs ↦ x ∷ xs
]

abbrev pub any_named : String → List ScenarioResult → Bool
any_named word rs = ltb 0 (count_if (λ r. contains word r.scenario) rs)

abbrev pub suggestion_if : Bool → String → List String
suggestion_if b s = if b then s ∷ [] else []

unfoldable pub suggest_next_scenarios : List ScenarioResult → List String
suggest_next_scenarios rs =
    suggestion_if (any_named "flapping" rs)
      "bgp_route_oscillation — test control plane under flapping conditions"
    ++ (suggestion_if (any_named "dual_region" rs)
          "cold_standby_partial_failure — terraform provisioning with one AZ unavailable"
        ++ "ml_model_staleness — inject fault after disabling flywheel to test degradation detection"
          ∷ [])

abbrev pub fault_seconds : GameDayScenario → ℕ
fault_seconds s = sum_of (λ (p : Phase). p.profile.duration_seconds) s.phases

abbrev pub phase_count : List GameDayScenario → ℕ
phase_count ss = sum_of (λ (s : GameDayScenario). length s.phases) ss

abbrev pub passed_count : List ScenarioResult → ℕ
passed_count rs = count_if (λ (r : ScenarioResult). r.passed) rs

-- The report that `run_session` makes up at `now`.
unfoldable pub report_of :
    String → String → List String → List GameDayScenario → List ScenarioResult → ℕ → GameDayReport
unfolding failed_names healing_performance generate_action_items suggest_next_scenarios
report_of date facilitator observers scenarios results now = record {
  session_name = now / 1000;
  date = date;
  facilitator = facilitator;
  observers = observers;
  scenarios_run = map (λ (s : GameDayScenario). s.name) scenarios;
  scenarios_passed = passed_count results;
  scenarios_failed = length results - passed_count results;
  total_fault_seconds = sum_of fault_seconds scenarios;
  unique_fault_combinations = phase_count scenarios;
  flywheel_records_generated = phase_count scenarios;
  healing_performance = healing_performance results [];
  runbook_observations =
      "See phase-specific logs for detailed step timing"
      ∷ "Cold standby scenario requires manual review of Terraform output" ∷ [];
  postmortem_triggers = failed_names scenarios results;
  action_items = generate_action_items results;
  next_gameday_scenarios = suggest_next_scenarios results;
}

-- `scenarios or GAMEDAY_SCENARIOS`: an empty list stands for the standard scenarios too.
abbrev pub scenarios_or_standard : List GameDayScenario → List GameDayScenario
scenarios_or_standard [] = gameday_scenarios
scenarios_or_standard (s ∷ ss) = s ∷ ss

unfoldable pub run_session :
    Env → List GameDayScenario → String → String → List String → Rig → GameDayReport × Rig
unfolding run_all report_of clock
run_session e given date facilitator observers r =
    let scenarios = scenarios_or_standard given in
    let (results, r1) = run_all e scenarios r in
    let (now, r2) = clock e r1 in (report_of date facilitator observers scenarios results now, r2)
