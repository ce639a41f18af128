-- ===== src/Tests/Service.antt =====
-- The notifier, the library of runbooks and the executor at concrete inputs
-- (sre-operations-05/sre).
use nimbus_net.Prelude.{
  ◌+◌, ◌*◌, ◌≡◌, ◌≢◌, refl, String, true, false, none, some, [], ◌∷◌, ◌++◌, arith, length, map,
}
use nimbus_net.Sre.Types.{
  Incident, new_incident, opened, p2, Postmortem, Runbook, RunbookStep, RunbookStatus, nothing,
}
use nimbus_net.Sre.Notifier.{NotificationConfig}
use nimbus_net.Sre.Postmortem.{compose}
use nimbus_net.Sre.Library.{rb_001_region_failover}
use nimbus_net.Sre.Executor.{
  Env, World, exited, runbook_started, runbook_succeeded, runbook_failed, execute_step, run,
}
use nimbus_net.Sre.Executor.Steps.{IsQuiet, IsSettled, execute_step_bounded}
use nimbus_net.Sre.Executor.Runs.{run_finishes}
use nimbus_net.Sre.Executor.Timeouts.{timeout_counts_as_success}
use nimbus_net.Tests.Incidents.{wiring, degraded}

abbrev pub config : NotificationConfig
config = record {
  slack_webhook_url = "https://hooks.slack.com/services/T/B/x";
  slack_alerts_channel = "#nimbus-alerts";
  slack_fyi_channel = "#nimbus-fyi";
  pagerduty_routing_key = "key";
  pagerduty_api_url = "https://events.pagerduty.com/v2/enqueue";
  dry_run = false;
}

abbrev pub incident : Incident
incident = new_incident "INC-1" "us-east-1" p2 opened 100 150

abbrev pm : Postmortem
pm = compose "20260101" 1 500 incident none

abbrev ttl_reason : String
ttl_reason = "TTL of the runbook exceeded"

abbrev syn_flood : String
syn_flood = "SYN_FLOOD"

-- The clock gains a second with each reading; the commands succeed.
abbrev pub env : Env
env = record {
  now = λ n. n * 1000000000;
  shell = λ n c t. exited "ok" true;
  started_raises = none;
  dry_run = false;
  has_hook = true;
  wiring = wiring;
}

-- The same with a control plane that cannot be told of the start.
abbrev env_deaf : Env
env_deaf = record env { started_raises = some "connection refused" }

abbrev pub world : World
world = record { manager = degraded; reads = 0; runs = 0; fsm = []; hooks = []; active_runs = [] }

abbrev step : RunbookStep
step = record {
  number = 1;
  title = "Restart the probe";
  description = "";
  command = some "systemctl restart probe";
  verify = none;
  timeout_s = 30;
  retries = 1;
  rollback = some "systemctl stop probe";
  status = RunbookStatus.pending;
  started_at = none;
  completed_at = none;
  output = "";
  error = nothing;
}

abbrev pub short : Runbook
short = record rb_001_region_failover { steps = step ∷ []; ttl_s = 600 }

-- A runbook whose time is up after two readings of the clock.
abbrev hasty : Runbook
hasty = record rb_001_region_failover { ttl_s = 2 }

execute_step_bounded_example :
    IsSettled (execute_step env step incident 5000000000 world).0.status
    × IsQuiet (step.retries + 2) world (execute_step env step incident 5000000000 world).1
execute_step_bounded_example = execute_step_bounded env incident 5000000000 step world

run_finishes_example :
    ((run env incident short world).0.status ≡ RunbookStatus.success
      → ((run env incident short world).0.steps_completed ≡ 1)
        × (length (run env incident short world).1.hooks ≡ length world.hooks + 1)
        × ((run env incident short world).1.fsm
            ≡ (world.fsm ++ runbook_started "us-east-1" ∷ [])
              ++ runbook_succeeded "us-east-1" ∷ []))
    × ((run env incident short world).0.status ≢ RunbookStatus.success
        → (length (run env incident short world).1.hooks ≡ length world.hooks + 2)
          × ((run env incident short world).1.fsm
              ≡ ((world.fsm ++ runbook_started "us-east-1" ∷ []) ++ runbook_failed "us-east-1" ∷ [])
                ++ runbook_failed "us-east-1" ∷ []))
run_finishes_example = run_finishes env incident short world refl refl

timeout_counts_as_success_example :
    ((run env incident (record hasty { steps = step ∷ [] }) world).0.status ≡ RunbookStatus.success)
    × (map
          (λ s. s.status)
          (run env incident (record hasty { steps = step ∷ [] }) world).0.step_results
        ≡ RunbookStatus.timeout ∷ [])
timeout_counts_as_success_example =
    timeout_counts_as_success env incident hasty step world refl (omega arith) (omega arith)
