-- ===== src/Sre/Library/ColdStandby.antt =====
-- RB-003 of sre-operations-05/sre/runbooks/library.py.
use nimbus_net.Prelude.{some, none, [], ◌∷◌}
use nimbus_net.Sre.Types.{Runbook, RunbookStep, nothing, pending, p0}

abbrev step_1 : RunbookStep
step_1 = record {
  number = 1;
  title = "Acquire DynamoDB cold standby lock";
  description =
      "Prevent duplicate provisioning if both active regions fire RB-003 simultaneously. The DynamoDB conditional write ensures only one Terraform run executes.";
  command =
      some
        "aws dynamodb put-item --table-name nimbusnet-control-plane-locks --item '{\"lock_key\":{\"S\":\"cold-standby-provision\"}}' --condition-expression 'attribute_not_exists(lock_key)'";
  verify = some "Exit code 0 = lock acquired; ConditionalCheckFailed = another agent running";
  timeout_s = 10;
  retries = 1;
  rollback = some "Log 'Another agent is provisioning cold standby — backing off'";
  status = pending;
  started_at = none;
  completed_at = none;
  output = "";
  error = nothing;
}

abbrev step_2 : RunbookStep
step_2 = record {
  number = 2;
  title = "Verify cold standby is not already active";
  description = "Check Terraform state to confirm cold standby is not already running.";
  command = some "terraform -chdir=/opt/nimbusnet/terraform/cold-standby output -json | jq .status";
  verify = some "status != 'active'";
  timeout_s = 30;
  retries = 2;
  rollback = none;
  status = pending;
  started_at = none;
  completed_at = none;
  output = "";
  error = nothing;
}

abbrev step_3 : RunbookStep
step_3 = record {
  number = 3;
  title = "Terraform apply cold standby environment";
  description =
      "Provision the pre-configured cold standby environment. This creates VPC, ALB, ECS/EC2 instances, and registers with the TGW. The Terraform plan is pre-validated — this is apply-only.";
  command =
      some
        "terraform -chdir=/opt/nimbusnet/terraform/cold-standby apply -auto-approve -var='environment=cold-standby' -var='incident_id={incident_id}'";
  verify = some "terraform output alb_dns_name";
  timeout_s = 480;
  retries = 0;
  rollback =
      some
        "terraform -chdir=/opt/nimbusnet/terraform/cold-standby destroy -auto-approve — ALERT SRE IMMEDIATELY if this fires";
  status = pending;
  started_at = none;
  completed_at = none;
  output = "";
  error = nothing;
}

abbrev step_4 : RunbookStep
step_4 = record {
  number = 4;
  title = "Wait for cold standby health check to pass";
  description =
      "Poll the cold standby's /healthz until it returns 200. Timeout of 5 minutes for application initialisation.";
  command = some "until curl -sf http://{cold_standby_alb}/healthz; do sleep 10; done";
  verify = some "HTTP 200 from /healthz";
  timeout_s = 300;
  retries = 1;
  rollback = none;
  status = pending;
  started_at = none;
  completed_at = none;
  output = "";
  error = nothing;
}

abbrev step_5 : RunbookStep
step_5 = record {
  number = 5;
  title = "Register cold standby in Route 53";
  description =
      "Add the cold standby region to the latency routing policy. Route 53 will begin routing traffic to it immediately.";
  command =
      some
        "aws route53 change-resource-record-sets --hosted-zone-id {hosted_zone_id} --change-batch file:///opt/nimbusnet/r53/cold-standby-record.json";
  verify = some "Route 53 change status == INSYNC";
  timeout_s = 60;
  retries = 2;
  rollback = none;
  status = pending;
  started_at = none;
  completed_at = none;
  output = "";
  error = nothing;
}

abbrev step_6 : RunbookStep
step_6 = record {
  number = 6;
  title = "Update bandit with cold standby region";
  description =
      "Register the cold standby region as a new arm in the multi-armed bandit. The bandit will begin routing traffic proportionally.";
  command =
      some
        "curl -X POST http://nimbusnet-ml-scoring:8001/bandit/add-region -d '{\"region\": \"{cold_standby_region}\"}'";
  verify = some "bandit_arm_added == true";
  timeout_s = 10;
  retries = 3;
  rollback = none;
  status = pending;
  started_at = none;
  completed_at = none;
  output = "";
  error = nothing;
}

abbrev step_7 : RunbookStep
step_7 = record {
  number = 7;
  title = "Page SRE — cold standby active";
  description =
      "Cold standby is now serving traffic. SRE MUST be paged regardless of automation success. Cold standby capacity is limited and the SRE must plan for returning to normal topology.";
  command = some "POST /api/escalate force=true reason='Cold standby activated'";
  verify = some "PagerDuty alert fired";
  timeout_s = 30;
  retries = 3;
  rollback = none;
  status = pending;
  started_at = none;
  completed_at = none;
  output = "";
  error = nothing;
}

abbrev pub rb_003_cold_standby : Runbook
rb_003_cold_standby = record {
  id = "RB-003";
  name = "Cold Standby Provisioning";
  fault_type = "DUAL_REGION_FAILURE";
  min_severity = p0;
  description =
      "Emergency cold standby provisioning for dual-region failure scenarios. Triggers Terraform to provision the pre-configured cold standby environment, waits for it to become healthy, routes traffic to it, and notifies SRE. This runbook is the last line of defence before total service unavailability.";
  steps = step_1 ∷ step_2 ∷ step_3 ∷ step_4 ∷ step_5 ∷ step_6 ∷ step_7 ∷ [];
  ttl_s = 900;
  max_retries = 1;
  preconditions =
      "Terraform state must be accessible (S3 backend)"
      ∷ "Cold standby region must NOT already be provisioned (idempotency check)"
      ∷ "DynamoDB lock must be acquirable"
      ∷ "AWS credentials must have cold standby IAM permissions" ∷ [];
  verification_query = some "cold_standby_region health check passes";
  verification_threshold = 0;
}
