-- ===== src/Sre/Library/RegionFailover.antt =====
-- RB-001 of sre-operations-05/sre/runbooks/library.py.
use nimbus_net.Prelude.{some, none, [], ◌∷◌}
use nimbus_net.Sre.Types.{Runbook, RunbookStep, nothing, pending, p1}

abbrev step_1 : RunbookStep
step_1 = record {
  number = 1;
  title = "Verify data plane failover";
  description =
      "Confirm the VPC route table has already been updated by Phase 4. The control plane updates the route table immediately on DEGRADED entry — this step verifies it took effect.";
  command = some "aws ec2 describe-route-tables --filters Name=route.state,Values=active";
  verify = some "grep -q 'tgw-attach' <<< $OUTPUT && echo 'PASS'";
  timeout_s = 30;
  retries = 2;
  rollback = some "Alert SRE — data plane failover did not complete. Manual intervention required.";
  status = pending;
  started_at = none;
  completed_at = none;
  output = "";
  error = nothing;
}

abbrev step_2 : RunbookStep
step_2 = record {
  number = 2;
  title = "Confirm healthy region is absorbing traffic";
  description =
      "Check that the surviving regions are serving requests successfully. RTT should be elevated slightly (more traffic) but retransmit rate should be nominal.";
  command = some "curl -s http://nimbusnet-ml-scoring:8001/models/stats";
  verify = some "healthy_region_rtt < 200ms AND retransmit_rate < 0.03";
  timeout_s = 60;
  retries = 3;
  rollback = none;
  status = pending;
  started_at = none;
  completed_at = none;
  output = "";
  error = nothing;
}

abbrev step_3 : RunbookStep
step_3 = record {
  number = 3;
  title = "Verify Route 53 health check is failing for failed region";
  description =
      "The Phase 2 Go agent's /healthz is returning 503 on the failed region. Route 53 should have marked the region unhealthy within 20 seconds. This step confirms DNS plane convergence.";
  command = some "aws route53 get-health-check-status --health-check-id {health_check_id}";
  verify = some "StatusReport shows 'Failure'";
  timeout_s = 45;
  retries = 3;
  rollback = none;
  status = pending;
  started_at = none;
  completed_at = none;
  output = "";
  error = nothing;
}

abbrev step_4 : RunbookStep
step_4 = record {
  number = 4;
  title = "Check cold standby threshold";
  description =
      "If only one active region remains healthy, evaluate whether to provision the cold standby (RB-003 would be triggered separately). Two healthy regions is the minimum safe configuration.";
  command =
      some
        "curl -s http://nimbusnet-controlplane:9091/status | jq '.regions[] | select(.fsm_state == \"HEALTHY\")'";
  verify = some "healthy_count >= 2";
  timeout_s = 30;
  retries = 1;
  rollback = some "Trigger RB-003 (Cold Standby Provisioning) if healthy_count == 1";
  status = pending;
  started_at = none;
  completed_at = none;
  output = "";
  error = nothing;
}

abbrev step_5 : RunbookStep
step_5 = record {
  number = 5;
  title = "Monitor failed region for recovery signal";
  description =
      "Wait for the failed region's ML anomaly score to drop below threshold. The bandit will detect RTT improvement automatically. Do not manually restore until this step passes.";
  command = some "watch -n10 'curl -s http://nimbusnet-ml-scoring:8001/score/batch'";
  verify = some "if_score < 0.30 for 3 consecutive windows (150ms)";
  timeout_s = 300;
  retries = 1;
  rollback = none;
  status = pending;
  started_at = none;
  completed_at = none;
  output = "";
  error = nothing;
}

abbrev step_6 : RunbookStep
step_6 = record {
  number = 6;
  title = "Verify healing and notify FSM";
  description =
      "Healing verified — signal Phase 4 control plane that the runbook succeeded. The FSM will transition HEALING → RECOVERED and begin traffic ramp-back.";
  command = some "POST /api/fsm/runbook-succeeded region={region}";
  verify = some "FSM state == RECOVERED";
  timeout_s = 30;
  retries = 2;
  rollback = none;
  status = pending;
  started_at = none;
  completed_at = none;
  output = "";
  error = nothing;
}

abbrev pub rb_001_region_failover : Runbook
rb_001_region_failover = record {
  id = "RB-001";
  name = "Region Failover";
  fault_type = "REGION_PARTITION";
  min_severity = p1;
  description =
      "Autonomous region failover procedure. Verifies the data plane has rerouted traffic, confirms the healthy region is absorbing load, ensures Route 53 has drained the failed region, and validates the cold standby is not needed.";
  steps = step_1 ∷ step_2 ∷ step_3 ∷ step_4 ∷ step_5 ∷ step_6 ∷ [];
  ttl_s = 600;
  max_retries = 2;
  preconditions =
      "At least one other region must be in HEALTHY state"
      ∷ "Phase 4 control plane must be reachable" ∷ "Route 53 hosted zone must be accessible" ∷ [];
  verification_query = some "rtt_ewma_us < 150000 AND retransmit_rate < 0.05";
  verification_threshold = 0;
}
