-- ===== src/Sre/Library/MlDegradation.antt =====
-- RB-002 of sre-operations-05/sre/runbooks/library.py.
use nimbus_net.Prelude.{some, none, [], ◌∷◌}
use nimbus_net.Sre.Types.{Runbook, RunbookStep, nothing, pending, p2}

abbrev step_1 : RunbookStep
step_1 = record {
  number = 1;
  title = "Assess ML service health";
  description = "Check which models are failing and why.";
  command = some "curl -s http://nimbusnet-ml-scoring:8001/models/health | jq .";
  verify = some "Identify failing models";
  timeout_s = 15;
  retries = 2;
  rollback = none;
  status = pending;
  started_at = none;
  completed_at = none;
  output = "";
  error = nothing;
}

abbrev step_2 : RunbookStep
step_2 = record {
  number = 2;
  title = "Restart ML scoring service";
  description =
      "Restart the FastAPI serving process. This reloads model weights from disk and re-initialises the per-flow LSTM windows.";
  command = some "systemctl restart nimbusnet-ml-scoring || docker restart nimbusnet-ml";
  verify = some "curl -f http://nimbusnet-ml-scoring:8001/models/health";
  timeout_s = 60;
  retries = 2;
  rollback = some "Escalate to SRE — ML service will not start.";
  status = pending;
  started_at = none;
  completed_at = none;
  output = "";
  error = nothing;
}

abbrev step_3 : RunbookStep
step_3 = record {
  number = 3;
  title = "Validate model predictions";
  description =
      "Send a known-anomalous synthetic metric and verify the scoring pipeline returns a reasonable result. This is the model smoke test.";
  command =
      some
        "curl -X POST http://nimbusnet-ml-scoring:8001/score -d '{\"rtt_ewma_us\": 850000, \"retransmit_rate\": 0.35, \"max_anomaly_score\": 88, \"region\": \"test\", \"window_start_ns\": 0, \"window_end_ns\": 50000000}'";
  verify = some "isolation_forest_score > 0.60 AND xgboost_severity in ['DEGRADED', 'CRITICAL']";
  timeout_s = 10;
  retries = 3;
  rollback = none;
  status = pending;
  started_at = none;
  completed_at = none;
  output = "";
  error = nothing;
}

abbrev step_4 : RunbookStep
step_4 = record {
  number = 4;
  title = "Check if retrain is needed";
  description =
      "If model health shows staleness (version hash unchanged for > 48h and > 500 new samples in flywheel), trigger a retrain.";
  command = some "curl -s http://nimbusnet-ml-scoring:8001/models/stats";
  verify = some "retrain_recommended == false OR trigger_retrain()";
  timeout_s = 30;
  retries = 1;
  rollback = none;
  status = pending;
  started_at = none;
  completed_at = none;
  output = "";
  error = nothing;
}

abbrev step_5 : RunbookStep
step_5 = record {
  number = 5;
  title = "Trigger flywheel retrain if needed";
  description =
      "Force a retrain if staleness was detected. The retrain runs in the background — this step queues it and continues.";
  command =
      some
        "curl -X POST http://nimbusnet-ml-scoring:8001/models/retrain -d '{\"trigger\": \"runbook_rb002\", \"token\": \"$ML_ADMIN_TOKEN\"}'";
  verify = some "retrain_queued == true";
  timeout_s = 10;
  retries = 2;
  rollback = none;
  status = pending;
  started_at = none;
  completed_at = none;
  output = "";
  error = nothing;
}

abbrev pub rb_002_ml_degradation : Runbook
rb_002_ml_degradation = record {
  id = "RB-002";
  name = "ML Model Degradation";
  fault_type = "ML_MODEL_DEGRADED";
  min_severity = p2;
  description =
      "Remediation for ML scoring service failures or model staleness. Restarts the scoring service, triggers flywheel retrain if data quality is the issue, and validates model health before restoring autonomous operation.";
  steps = step_1 ∷ step_2 ∷ step_3 ∷ step_4 ∷ step_5 ∷ [];
  ttl_s = 300;
  max_retries = 2;
  preconditions =
      "ML scoring service endpoint must be reachable (even if returning errors)"
      ∷ "Flywheel data store must be accessible" ∷ [];
  verification_query = some "models/health returns status == 'ok'";
  verification_threshold = 0;
}
