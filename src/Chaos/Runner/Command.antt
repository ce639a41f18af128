-- ===== src/Chaos/Runner/Command.antt =====
-- The command line of chaos-ci-gate-06/runner/chaos_runner.py, the files that it writes and its exit
-- code. What is printed is left out, and so are the times in the names of files. `main` is the part
-- behind the parsing: argparse itself ends the program for `--help` (0) and for bad arguments (2).
use nimbus_net.Prelude.{
  ℕ, ◌<◌, ◌≡◌, refl, ap, arith, String, Bool, true, false, ◌&&◌, Option, none, some, List, [], ◌∷◌,
  ◌++◌, map, Dict, if◌then◌else◌, Option-cases, inl, inr, count_if, lookup,
}
use nimbus_net.Prelude.Text.{◌++ₛ◌}
use nimbus_net.Chaos.Budget.{StateFile}
use nimbus_net.Chaos.Injector.{Env, Rig, InjectionSession, Resolution, error}
use nimbus_net.Chaos.Injector.Profiles.{fault_profiles}
use nimbus_net.Chaos.Runner.{
  RunResult, FailReason, SuiteResult, ChaosScenario, scenario, run_scenario, run_single, run_suite,
  run_ci_suite, run_gameday_suite, ci_scenarios, gameday_scenarios, new_baseline,
}
use nimbus_net.Chaos.Runner.Suites.{run_suite_never_heals, attempt_scenario_unhealed}

-- An entry of `run_results` in a file.
pub record RunEntry : Type 0 where
  pub scenario : String
  pub profile : String
  pub healed : Bool
  pub healing_latency_ms : ℕ
  pub baseline_latency_ms : ℕ
  pub regression_ms : ℕ
  pub passed : Bool
  pub fail_reason : FailReason
  pub resolution : Resolution

-- A scenario that crashed has a session of its own, whose resolution is "ERROR".
abbrev pub resolution_of : (ℕ → InjectionSession) → Option ℕ → Resolution
resolution_of heap none = error
resolution_of heap (some p) = (heap p).resolution

unfoldable pub serialize_run : (ℕ → InjectionSession) → RunResult → RunEntry
serialize_run heap rr = record {
  scenario = rr.scenario.name;
  profile = rr.scenario.profile_name;
  healed = rr.healed;
  healing_latency_ms = rr.healing_latency_ms;
  baseline_latency_ms = rr.baseline_latency_ms;
  regression_ms = rr.regression_ms;
  passed = rr.passed;
  fail_reason = rr.fail_reason;
  resolution = resolution_of heap rr.session;
}

-- The file of a suite: its figures as they are, and its runs.
pub record SuiteFile : Type 0 where
  pub figures : SuiteResult
  pub runs : List RunEntry

unfoldable pub serialize_suite : (ℕ → InjectionSession) → SuiteResult → SuiteFile
unfolding serialize_run
serialize_suite heap r = record { figures = r; runs = map (serialize_run heap) r.run_results }

-- The baseline file, `none` if it is not there or cannot be read, and the files of suites in the
-- order in which they are written.
pub record Store : Type 0 where
  pub baseline : Option (Dict ℕ)
  pub results : List SuiteFile

-- `_load_baseline`, when the runner is made.
abbrev pub load_baseline : Option (Dict ℕ) → Dict ℕ
load_baseline none = []
load_baseline (some b) = b

pub data SuiteName : Type 0 where
  ci gameday single : SuiteName

pub record Arguments : Type 0 where
  pub suite : SuiteName
  pub scenario : Option String
  pub update_baseline : Bool

abbrev pub exit_code : Bool → ℕ
exit_code passed = if passed then 0 else 1

abbrev pub passed_of : Option RunResult → Bool
passed_of none = false
passed_of (some rr) = rr.passed

-- The part of `main` behind a suite, with the suite's file. A baseline is kept only with the flag
-- and a gate that passed.
unfoldable pub finish_suite : Arguments → SuiteResult × Rig → Store → ℕ × Store × Rig
unfolding serialize_suite
finish_suite args (result, r) store = (
  exit_code result.gate_passed,
  record {
    baseline =
        if args.update_baseline && result.gate_passed
        then some (new_baseline result.run_results [])
        else store.baseline;
    results = store.results ++ serialize_suite r.heap result ∷ [];
  },
  r,
)

-- An exception ends the program with the exit code 1: so does the one of an unknown profile.
unfoldable pub main : Env → Option (Option StateFile) → Arguments → Store → Rig → ℕ × Store × Rig
unfolding finish_suite
main e budget args store r = elim args.suite [
  | ci ↦ finish_suite args (run_ci_suite e budget (load_baseline store.baseline) r) store
  | gameday ↦ finish_suite args (run_gameday_suite e budget (load_baseline store.baseline) r) store
  | single ↦ elim args.scenario [
    | none ↦ (1, store, r)
    | some name ↦
        let (result, r1) = run_single e (load_baseline store.baseline) name 120 r in
        (exit_code (passed_of result), store, r1)
  ]
]

finish_suite_failed :
    (args : Arguments) (result : SuiteResult) (r : Rig) (store : Store)
    → result.gate_passed ≡ false
    → ((finish_suite args (result, r) store).0 ≡ 1)
      × ((finish_suite args (result, r) store).1.baseline ≡ store.baseline)
unfolding finish_suite
finish_suite_failed args result r store failed = ground arith

single_fails :
    (e : Env) (baseline : Dict ℕ) (name : String) (timeout_s : ℕ) (r : Rig)
    → passed_of (run_single e baseline name timeout_s r).0 ≡ false
unfolding run_single run_scenario
single_fails e baseline name timeout_s r = elim (Option-cases (lookup name fault_profiles)) [
  | inl h ↦ rw (h, run_single) refl
  | inr (_, h) ↦
      rw (h, run_single)
        ((attempt_scenario_unhealed e baseline (scenario ("adhoc_" ++ₛ name) name timeout_s true)
            r).2
          refl)
]

suite_fails :
    (e : Env) (budget : Option (Option StateFile)) (args : Arguments) (store : Store) (r : Rig)
    (name : String) (ss : List ChaosScenario)
    → 0 < count_if (λ (s : ChaosScenario). s.expected_heal) ss
    → let f =
        finish_suite args (run_suite e budget (load_baseline store.baseline) name ss r) store in
      (f.0 ≡ 1) × (f.1.baseline ≡ store.baseline)
suite_fails e budget args store r name ss some_expected =
    let (result, r1) = run_suite e budget (load_baseline store.baseline) name ss r in
    let (_, _, _, _, fails) =
      run_suite_never_heals e budget (load_baseline store.baseline) name ss r in
    finish_suite_failed args result r1 store (fails some_expected)

main_fails :
    (e : Env) (budget : Option (Option StateFile)) (suite : SuiteName) (name : Option String)
    (u : Bool) (store : Store) (r : Rig)
    → let args : Arguments = record { suite = suite; scenario = name; update_baseline = u } in
      ((main e budget args store r).0 ≡ 1)
      × ((main e budget args store r).1.baseline ≡ store.baseline)
unfolding main
main_fails e budget ci name u store r =
    suite_fails e budget (record { suite = ci; scenario = name; update_baseline = u }) store r "ci"
      ci_scenarios (omega arith)
main_fails e budget gameday name u store r =
    suite_fails e budget (record { suite = gameday; scenario = name; update_baseline = u }) store r
      "gameday" gameday_scenarios (omega arith)
main_fails e budget single none u store r = (refl, refl)
main_fails e budget single (some name) u store r =
    (ap exit_code (single_fails e (load_baseline store.baseline) name 120 r), refl)

-- Whatever the parsed arguments ask for, and whatever the network, the clock, the baseline and the
-- error budget: the program exits with 1 and keeps the baseline, so no change passes the gate.
pub main_never_passes :
    (e : Env) (budget : Option (Option StateFile)) (args : Arguments) (store : Store) (r : Rig)
    → ((main e budget args store r).0 ≡ 1)
      × ((main e budget args store r).1.baseline ≡ store.baseline)
main_never_passes e budget args store r =
    main_fails e budget args.suite args.scenario args.update_baseline store r
