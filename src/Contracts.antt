-- ===== src/Contracts.antt =====
-- integration-07/hardening/contract_validator.py: the contracts between the services, checked when
-- the system starts. The log is left out.
mod Checks
pub mod Startup
use nimbus_net.Prelude.{ℕ, ◌+◌, Bool, true, false, List, [], ◌∷◌, ltb, ◌==◌, if◌then◌else◌}
unfoldable pub use Checks.*

unfoldable pub contracts : List Contract
contracts =
    record {
      name = "eBPF telemetry schema → ML feature vector";
      severity = fatal;
      check = check_ebpf_telemetry_bus;
      phase_from = "phase2";
      phase_to = "phase3";
    }
    ∷ record {
      name = "ML severity enum → FSM event types";
      severity = fatal;
      check = check_ml_fsm_severity_enum;
      phase_from = "phase3";
      phase_to = "phase4";
    }
    ∷ record {
      name = "FSM terminal states → runbook coverage";
      severity = fatal;
      check = check_fsm_states_cover_runbooks;
      phase_from = "phase4";
      phase_to = "phase5";
    }
    ∷ record {
      name = "Postmortem writer → ML flywheel ingest";
      severity = error;
      check = check_postmortem_feeds_flywheel;
      phase_from = "phase5";
      phase_to = "phase3";
    }
    ∷ record {
      name = "Chaos JSONL labels → ML fault class schema";
      severity = fatal;
      check = check_chaos_label_schema_matches_ml;
      phase_from = "phase6";
      phase_to = "phase3";
    }
    ∷ record {
      name = "Budget enforcer → Phase 5 state file";
      severity = warn;
      check = check_budget_enforcer_reads_phase5;
      phase_from = "phase6";
      phase_to = "phase5";
    }
    ∷ record {
      name = "Prometheus scrape targets reachable";
      severity = error;
      check = check_prometheus_scrape_targets;
      phase_from = "observability";
      phase_to = "all";
    }
    ∷ record {
      name = "Grafana Prometheus datasource configured";
      severity = warn;
      check = check_grafana_datasource;
      phase_from = "observability";
      phase_to = "grafana";
    }
    ∷ []

-- An exception counts as a failure.
abbrev pub is_ok : Outcome → Bool
is_ok (answered ok detail) = ok
is_ok raised = false

pub record Tally : Type 0 where
  pub fatal_count : ℕ
  pub error_count : ℕ
  pub warn_count : ℕ

abbrev pub count_failure : Severity → Tally → Tally
count_failure fatal t = record t { fatal_count = t.fatal_count + 1 }
count_failure error t = record t { error_count = t.error_count + 1 }
count_failure warn t = record t { warn_count = t.warn_count + 1 }

-- The loop over the contracts.
unfoldable pub run_contracts : List Contract → Site → Tally → Tally
run_contracts [] s t = t
run_contracts (c ∷ cs) s t =
    run_contracts cs s (if is_ok (c.check s) then t else count_failure c.severity t)

unfoldable pub tally_of : Site → Tally
unfolding run_contracts contracts
tally_of s = run_contracts contracts s (record { fatal_count = 0; error_count = 0; warn_count = 0 })

unfoldable pub validate_all : Bool → Site → Bool
unfolding tally_of
validate_all fail_on_fatal s =
    let failures = (tally_of s).fatal_count in
    if ltb 0 failures then (if fail_on_fatal then false else failures == 0) else failures == 0

-- The exit code of `main`.
unfoldable pub exit_code : Site → ℕ
unfolding validate_all
exit_code s = if validate_all true s then 0 else 1
