-- ===== src/Chaos/Injector/Profiles.antt =====
-- `FaultType`, `FaultProfile` and `FAULT_PROFILES` of
-- chaos-ci-gate-06/injection/qdisc_injector.py. Percentages are thousandths of a percent.
use nimbus_net.Prelude.{ℕ, String, [], ◌∷◌, Dict}

pub data FaultType : Type 0 where
  latency latency_jitter packet_loss packet_corrupt packet_reorder bandwidth_cap duplicate
        combined :
      FaultType

pub record FaultProfile : Type 0 where
  pub fault_type : FaultType
  pub interface : String
  pub latency_ms : ℕ
  pub jitter_ms : ℕ
  pub loss_pct : ℕ
  pub corrupt_pct : ℕ
  pub reorder_pct : ℕ
  pub bandwidth_kbps : ℕ
  pub duplicate_pct : ℕ
  pub duration_seconds : ℕ
  pub ramp_seconds : ℕ
  pub expected_severity : String
  pub expected_fault_class : ℕ

-- The defaults of the dataclass.
abbrev pub default_profile : FaultType → FaultProfile
default_profile fault_type = record {
  fault_type = fault_type;
  interface = "eth0";
  latency_ms = 0;
  jitter_ms = 0;
  loss_pct = 0;
  corrupt_pct = 0;
  reorder_pct = 0;
  bandwidth_kbps = 0;
  duplicate_pct = 0;
  duration_seconds = 60;
  ramp_seconds = 5;
  expected_severity = "DEGRADED";
  expected_fault_class = 2;
}

abbrev high_latency_profile : FaultProfile
high_latency_profile = record (default_profile FaultType.latency) {
  latency_ms = 200;
  duration_seconds = 120;
  expected_severity = "DEGRADED";
  expected_fault_class = 1;
}

abbrev packet_loss_5pct_profile : FaultProfile
packet_loss_5pct_profile = record (default_profile FaultType.packet_loss) {
  loss_pct = 5000;
  duration_seconds = 90;
  expected_severity = "WARNING";
  expected_fault_class = 0;
}

abbrev packet_loss_severe_profile : FaultProfile
packet_loss_severe_profile = record (default_profile FaultType.packet_loss) {
  loss_pct = 25000;
  duration_seconds = 60;
  expected_severity = "CRITICAL";
  expected_fault_class = 3;
}

abbrev jitter_burst_profile : FaultProfile
jitter_burst_profile = record (default_profile FaultType.latency_jitter) {
  latency_ms = 50;
  jitter_ms = 100;
  duration_seconds = 90;
  expected_severity = "WARNING";
  expected_fault_class = 1;
}

abbrev bandwidth_constrained_profile : FaultProfile
bandwidth_constrained_profile = record (default_profile FaultType.bandwidth_cap) {
  bandwidth_kbps = 512;
  duration_seconds = 120;
  expected_severity = "DEGRADED";
  expected_fault_class = 2;
}

abbrev combined_worst_case_profile : FaultProfile
combined_worst_case_profile = record (default_profile FaultType.combined) {
  latency_ms = 300;
  loss_pct = 15000;
  duration_seconds = 60;
  expected_severity = "CRITICAL";
  expected_fault_class = 3;
}

abbrev packet_reorder_profile : FaultProfile
packet_reorder_profile = record (default_profile FaultType.packet_reorder) {
  latency_ms = 20;
  reorder_pct = 30000;
  duration_seconds = 90;
  expected_severity = "WARNING";
  expected_fault_class = 1;
}

abbrev pub fault_profiles : Dict FaultProfile
fault_profiles =
    ("high_latency", high_latency_profile)
    ∷ ("packet_loss_5pct", packet_loss_5pct_profile)
    ∷ ("packet_loss_severe", packet_loss_severe_profile)
    ∷ ("jitter_burst", jitter_burst_profile)
    ∷ ("bandwidth_constrained", bandwidth_constrained_profile)
    ∷ ("combined_worst_case", combined_worst_case_profile)
    ∷ ("packet_reorder", packet_reorder_profile)
    ∷ []
