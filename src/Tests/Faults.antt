-- ===== src/Tests/Faults.antt =====
-- The chaos gate at concrete inputs (chaos-ci-gate-06).
use nimbus_net.Prelude.{
  ◌*◌, ◌≤◌, ◌<◌, ◌≡◌, refl, ◌↔◌, arith, true, false, ◌&&◌, not, none, some, List, [], ◌∷◌, count_if,
}
use nimbus_net.Chaos.Budget.{Sources, StateFile, Entry, unreachable, value}
use nimbus_net.Chaos.Bridge.{Raw, Bridge, File, poll, is_member}
use nimbus_net.Chaos.Bridge.Once.{IsOnce, poll-IsOnce}
use nimbus_net.Chaos.Injector.{Env, Rig, unresolved, timeout, inject, wait_for_healing}
use nimbus_net.Chaos.Injector.Waiting.{wait_for_healing_fails}
use nimbus_net.Chaos.Runner.{
  ChaosScenario, RunResult, SuiteResult, ci_scenarios, judge, summarise, run_ci_suite,
  healing_latency_p99_threshold_ms, max_error_budget_consumed,
}
use nimbus_net.Chaos.Runner.Gate.{summarise_gate}
use nimbus_net.Chaos.Runner.Suites.{run_suite_never_heals}

abbrev state_file : StateFile
state_file = record {
  consumed_pct = Entry.number 96000;
  incidents_30d = Entry.number 4;
  last_incident_ts = Entry.missing;
}

abbrev sources : Sources
sources = record {
  first_read = some (some state_file);
  second_read = some (some state_file);
  third_read = none;
  prometheus = value 10000;
}

abbrev dark : Sources
dark = record sources { first_read = some none; prometheus = unreachable }

abbrev raw : Raw
raw = record {
  session_id = some "s-1";
  resolution = some "TIMEOUT";
  fault_type = some "packet_loss";
  fault_class_label = some 0;
  severity_label = some "WARNING";
  timestamp = none;
  latency_ms = 200;
  jitter_ms = 10;
  loss_pct = 15000;
  bandwidth_kbps = 0;
  healing_latency_ms = 0;
  healing_triggered = false;
  profile_name = some "packet_loss_severe";
  duration_seconds = some 60;
  sample_count = 12;
}

abbrev file : File
file = record { hash = "f00d"; raw = some raw; takes = true }

abbrev bridge : Bridge
bridge = record { processed = []; accepted = []; posts = 0 }

bridge-IsOnce : IsOnce bridge
unfolding is_member
bridge-IsOnce = record { covered = λ k h. cc; distinct = tt }

poll-IsOnce_example : IsOnce (poll 9 (file ∷ file ∷ []) bridge)
poll-IsOnce_example = poll-IsOnce 9 (file ∷ file ∷ []) bridge bridge-IsOnce

abbrev pub env : Env
env = record {
  drift = λ n. 1;
  delay = λ n. 2;
  wakes = λ n. 1;
  has_tc = true;
  tc = λ n there c. true;
  writes_label = λ p. true;
  interface = "eth0";
  dry_run = false;
}

-- Nothing was injected yet; the places of the heap hold an unused session.
abbrev pub rig : Rig
rig = record {
  time = 1000;
  reads = 0;
  sleeps = 0;
  commands = [];
  qdiscs = λ i. false;
  heap = λ p. record {
    profile_name = "";
    profile = none;
    start_time = 0;
    end_time = 0;
    active = false;
    samples = 0;
    healing_triggered = false;
    healing_latency_ms = 0;
    resolution = unresolved;
  };
  next = 0;
  current = none;
  labels = [];
}

-- A session that was injected at 1000.
abbrev busy : Rig
busy = (inject env "high_latency" none rig).1

wait_for_healing_fails_example :
    ((wait_for_healing env 0 3 rig).0 ≡ some false)
    × (((wait_for_healing env 0 3 rig).1.heap 0).resolution ≡ timeout)
    × (((wait_for_healing env 0 3 rig).1.heap 0).healing_triggered ≡ false)
    × (3000 ≤ (wait_for_healing env 0 3 rig).1.time)
wait_for_healing_fails_example = wait_for_healing_fails env 0 3 rig refl (omega arith)

abbrev scenario : ChaosScenario
scenario = record {
  name = "high_latency_heal";
  profile_name = "high_latency";
  healing_timeout_s = 90;
  expected_heal = true;
  weight = 1000;
}

abbrev results : List RunResult
results =
    judge scenario 0 true 12000 11700
    ∷ judge scenario 1 true 9000 8000
    ∷ judge scenario 2 false 0 9000
    ∷ []

abbrev suite : SuiteResult
suite = summarise "ci_gate" (scenario ∷ scenario ∷ scenario ∷ []) results (some (some state_file))

summarise_gate_example :
    ((suite.gate_passed ≡ true)
      ↔ (count_if (λ rr. not rr.passed) results ≡ 0)
        × (suite.p99_latency_ms ≤ healing_latency_p99_threshold_ms)
        × (95 * 3 ≤ 100 * count_if (λ rr. rr.healed && rr.scenario.expected_heal) results)
        × (suite.error_budget_consumed < max_error_budget_consumed))
    × ((suite.gate_passed ≡ true) ↔ (suite.gate_failures ≡ []))
summarise_gate_example =
    summarise_gate "ci_gate" (scenario ∷ scenario ∷ scenario ∷ []) results (some (some state_file))

abbrev ci_run : SuiteResult
ci_run = (run_ci_suite env none [] rig).0

run_suite_never_heals_example :
    (ci_run.healed_count ≡ 0)
    × (ci_run.p50_latency_ms ≡ 0)
    × (ci_run.p99_latency_ms ≡ 0)
    × (5 ≤ ci_run.scenarios_failed)
    × (0 < 5 → ci_run.gate_passed ≡ false)
run_suite_never_heals_example = run_suite_never_heals env none [] "ci" ci_scenarios rig
