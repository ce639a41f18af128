-- ===== src/Tests/Days.antt =====
-- The game day's scenarios and the contracts at concrete inputs (chaos-ci-gate-06/chaos/gameday.py,
-- integration-07/hardening/contract_validator.py).
use nimbus_net.Prelude.{
  ◌≤◌, ◌≡◌, ◌↔◌, refl, not, ◌||◌, String, true, some, false, none, List, [], ◌∷◌, ◌++◌, ◌==◌,
}
use nimbus_net.Chaos.Injector.{
  Env, Rig, healed, unresolved, active_session, inject, start_session, apply_qdisc, clear, sleep,
  monitor_wakes, monitor_wake,
}
use nimbus_net.Chaos.Orchestrator.{
  Phase, PhaseResult, run_session, run_phase, loss_phase, flapping_interface,
}
use nimbus_net.Chaos.Orchestrator.Budgets.{standard_session_fails}
use nimbus_net.Chaos.Orchestrator.Cleared.{run_session_clears}
use nimbus_net.Chaos.Orchestrator.Strays.{run_phase_leaves_stray}
use nimbus_net.Contracts.{SchemaFile, Site, required_fields, validate_all, exit_code}
use nimbus_net.Contracts.Startup.{HasFields, validate_all_iff}

-- tc fails at the fourth command; the monitor wakes three times in each sleep.
abbrev env : Env
env = record {
  drift = λ n. 1;
  delay = λ n. 2;
  wakes = λ n. 3;
  has_tc = true;
  tc = λ n there c. there || not (n == 3);
  writes_label = λ p. true;
  interface = "eth0";
  dry_run = false;
}

abbrev rig : Rig
rig = record {
  time = 5000;
  reads = 0;
  sleeps = 0;
  commands = [];
  qdiscs = λ i. false;
  heap = λ p. record {
    profile_name = "";
    profile = none;
    start_time = 0;
    end_time = 0;
    active = false;
    samples = 0;
    healing_triggered = false;
    healing_latency_ms = 0;
    resolution = unresolved;
  };
  next = 0;
  current = none;
  labels = [];
}

standard_session_fails_example :
    (some2 some5 : List String) × ((run_session env [] "2026-01-01" "ops"
        ("sre" ∷ [])
        rig).0.postmortem_triggers
      ≡ "cascading_degradation"
        ∷ "bandwidth_starvation_recovery"
        ∷ (some2 ++ "silent_corruption" ∷ some5))
    × ((run_session env [] "2026-01-01" "ops" ("sre" ∷ []) rig).0.scenarios_passed ≤ 2)
    × (3 ≤ (run_session env [] "2026-01-01" "ops" ("sre" ∷ []) rig).0.scenarios_failed)
standard_session_fails_example = standard_session_fails env "2026-01-01" "ops" ("sre" ∷ []) rig

run_session_clears_example :
    (active_session (run_session env (flapping_interface ∷ []) "2026-01-01" "ops" [] rig).1 ≡ none)
    × ((run_session env (flapping_interface ∷ []) "2026-01-01" "ops" [] rig).1.qdiscs "eth0"
        ≡ false)
unfolding active_session
run_session_clears_example =
    run_session_clears env refl refl (λ n. refl) (flapping_interface ∷ []) "2026-01-01" "ops" [] rig
      ((refl, (refl, (refl, (refl, (refl, tt))))), tt) refl (λ j. refl) "eth0"

-- A phase on an interface that is not the injector's own.
abbrev stray : Phase
stray =
    let p = loss_phase 20000 "stray" in
    record p { profile = record p.profile { interface = "eth1"; duration_seconds = 60 } }

abbrev stray_result : PhaseResult
stray_result = record { phase = "stray"; duration_s = 60; session_id = 0; resolution = healed }

stray_ends : (run_phase env "s" stray rig).0 ≡ some stray_result
unfolding run_phase active_session inject start_session apply_qdisc clear sleep monitor_wakes
    monitor_wake
stray_ends = refl

run_phase_leaves_stray_example :
    ((run_phase env "s" stray rig).1.qdiscs "eth1" ≡ true)
    × (active_session (run_phase env "s" stray rig).1 ≡ none)
run_phase_leaves_stray_example =
    run_phase_leaves_stray env "s" stray rig stray_result refl refl stray_ends

abbrev site : Site
site = record {
  schema = SchemaFile.fields required_fields;
  variable = λ name. none;
  state_file_exists = λ path. false;
  reachable = λ url. false;
  grafana = λ url. none;
}

validate_all_iff_example :
    ((validate_all false site ≡ true) ↔ HasFields site.schema)
    × ((exit_code site ≡ 0) ↔ HasFields site.schema)
validate_all_iff_example = validate_all_iff false site
