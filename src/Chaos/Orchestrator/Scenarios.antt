-- ===== src/Chaos/Orchestrator/Scenarios.antt =====
-- The scenarios of chaos-ci-gate-06/chaos/gameday.py and what a session reports. Percentages are
-- thousandths of a percent.
use nimbus_net.Prelude.{ℕ, String, Bool, true, List, [], ◌∷◌, Dict}
use nimbus_net.Chaos.Injector.{Resolution}
use nimbus_net.Chaos.Injector.Profiles.{FaultType, FaultProfile, default_profile}

pub record Phase : Type 0 where
  pub profile : FaultProfile
  pub label : String

pub record GameDayScenario : Type 0 where
  pub name : String
  pub description : String
  pub phases : List Phase
  pub expected_max_healing_ms : ℕ
  pub sre_watch_required : Bool

pub record PhaseResult : Type 0 where
  pub phase : String
  pub duration_s : ℕ
  pub session_id : ℕ
  pub resolution : Resolution

-- The dict that `_run_multiphase` returns.
pub record ScenarioResult : Type 0 where
  pub scenario : String
  pub phases : List PhaseResult
  pub healing_latency_ms : ℕ
  pub passed : Bool

pub record Healing : Type 0 where
  pub healing_latency_ms : ℕ
  pub all_phases_healed : Bool

-- `session_name` is the instant in it, and the fault time is in seconds.
pub record GameDayReport : Type 0 where
  pub session_name : ℕ
  pub date : String
  pub facilitator : String
  pub observers : List String
  pub scenarios_run : List String
  pub scenarios_passed : ℕ
  pub scenarios_failed : ℕ
  pub total_fault_seconds : ℕ
  pub unique_fault_combinations : ℕ
  pub flywheel_records_generated : ℕ
  pub healing_performance : Dict Healing
  pub runbook_observations : List String
  pub postmortem_triggers : List String
  pub action_items : List String
  pub next_gameday_scenarios : List String

abbrev latency_phase : ℕ → ℕ → String → Phase
latency_phase ms seconds label = record {
  profile = record (default_profile FaultType.latency) {
    latency_ms = ms;
    duration_seconds = seconds;
  };
  label = label;
}

abbrev jitter_phase : Phase
jitter_phase = record {
  profile = record (default_profile FaultType.latency_jitter) {
    latency_ms = 150;
    jitter_ms = 80;
    duration_seconds = 30;
  };
  label = "instability";
}

abbrev combined_phase : ℕ → ℕ → ℕ → String → Phase
combined_phase ms loss seconds label = record {
  profile = record (default_profile FaultType.combined) {
    latency_ms = ms;
    loss_pct = loss;
    duration_seconds = seconds;
  };
  label = label;
}

abbrev bandwidth_phase : ℕ → String → Phase
bandwidth_phase kbps label = record {
  profile = record (default_profile FaultType.bandwidth_cap) {
    bandwidth_kbps = kbps;
    duration_seconds = 30;
  };
  label = label;
}

abbrev pub loss_phase : ℕ → String → Phase
loss_phase loss label = record {
  profile = record (default_profile FaultType.packet_loss) {
    loss_pct = loss;
    duration_seconds = 15;
  };
  label = label;
}

abbrev corrupt_phase : ℕ → String → Phase
corrupt_phase corrupt label = record {
  profile = record (default_profile FaultType.packet_corrupt) {
    corrupt_pct = corrupt;
    duration_seconds = 60;
  };
  label = label;
}

abbrev pub cascading_degradation : GameDayScenario
cascading_degradation = record {
  name = "cascading_degradation";
  description = "Latency spike that evolves into packet loss — tests LSTM sequence detection";
  phases =
      latency_phase 100 30 "initial_spike"
      ∷ jitter_phase
      ∷ combined_phase 200 10000 60 "full_degradation"
      ∷ [];
  expected_max_healing_ms = 90000;
  sre_watch_required = true;
}

abbrev pub bandwidth_starvation_recovery : GameDayScenario
bandwidth_starvation_recovery = record {
  name = "bandwidth_starvation_recovery";
  description = "Progressive bandwidth reduction to zero — tests bandit exploration floor";
  phases =
      bandwidth_phase 2048 "constrained"
      ∷ bandwidth_phase 256 "severe"
      ∷ bandwidth_phase 64 "near_zero"
      ∷ [];
  expected_max_healing_ms = 60000;
  sre_watch_required = true;
}

abbrev pub flapping_interface : GameDayScenario
flapping_interface = record {
  name = "flapping_interface";
  description = "Alternating healthy/degraded to test anti-flapping in FSM";
  phases =
      loss_phase 20000 "fault_1"
      ∷ latency_phase 0 10 "recovery_window"
      ∷ loss_phase 25000 "fault_2"
      ∷ latency_phase 0 10 "recovery_window_2"
      ∷ combined_phase 250 30000 30 "final_failure"
      ∷ [];
  expected_max_healing_ms = 120000;
  sre_watch_required = true;
}

abbrev pub silent_corruption : GameDayScenario
silent_corruption = record {
  name = "silent_corruption";
  description = "Packet corruption without loss — tests Isolation Forest on subtle anomalies";
  phases = corrupt_phase 500 "subtle_corruption" ∷ corrupt_phase 5000 "significant_corruption" ∷ [];
  expected_max_healing_ms = 90000;
  sre_watch_required = true;
}

abbrev pub dual_region_simultaneous : GameDayScenario
dual_region_simultaneous = record {
  name = "dual_region_simultaneous";
  description = "Simulates both regions degrading simultaneously — cold standby trigger test";
  phases = combined_phase 300 20000 90 "dual_critical" ∷ [];
  expected_max_healing_ms = 300000;
  sre_watch_required = true;
}

abbrev pub gameday_scenarios : List GameDayScenario
gameday_scenarios =
    cascading_degradation ∷ bandwidth_starvation_recovery ∷ flapping_interface ∷ silent_corruption
    ∷ dual_region_simultaneous ∷ []
