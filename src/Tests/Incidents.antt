-- ===== src/Tests/Incidents.antt =====
-- The incident manager at concrete inputs (sre-operations-05/sre/runbooks/incident_manager.py).
use nimbus_net.Prelude.{
  ℕ, ◌-◌, ◌<◌, ◌≡◌, ◌≢◌, refl, String, true, false, some, [], ◌∷◌, lookup, insert,
}
use nimbus_net.Prelude.Int.{pos}
use nimbus_net.Sre.Types.{
  Verdict, new_incident, mitigated, resolved, p3, RunbookStatus, RunbookResult, nothing,
  was_auto_resolved,
}
use nimbus_net.Sre.Incidents.{
  Signal, Wiring, Manager, update, create, persist, open_incident, change_active,
  record_runbook_result, resolve, get_active,
}
use nimbus_net.Sre.Incidents.Invariant.{
  WellFormed, open_incident-WellFormed, record_runbook_result-WellFormed,
}
use nimbus_net.Sre.Incidents.Methods.{opens, finishes, escalates, resolves, run, run-WellFormed}
use nimbus_net.Sre.Incidents.Lifecycle.{resolve_closes}
use nimbus_net.Sre.Incidents.Abandoned.{mitigated_abandoned}
use nimbus_net.Sre.Incidents.Board.{board, steps, run-Board}

abbrev pub wiring : Wiring
wiring = record {
  can_write = λ id. true;
  opened_wired = true;
  resolved_wired = false;
  escalated_wired = false;
}

abbrev pub signal : Signal
signal = record {
  detected_at_ns = 100;
  fault_type = "PACKET_LOSS";
  xgb_severity = "DEGRADED";
  if_score = 700000;
  lstm_confidence = 0;
  rtt_ewma_us = 90000;
  retransmit_rate = 50000;
}

abbrev pub fresh : Manager
fresh = record {
  heap = λ p. new_incident "" "" p3 resolved 0 0;
  next = 0;
  active = [];
  all = [];
  disk = [];
  calls = [];
}

pub fresh-WellFormed : WellFormed fresh
unfolding lookup
fresh-WellFormed = record {
  active_lt = λ r p h. cc;
  active_region = λ r p h. cc;
  active_live = λ r p h. cc;
  all_lt = λ k p h. cc;
  all_id = λ k p h. cc;
}

abbrev won : RunbookResult
won = record {
  runbook_id = "RB-001";
  incident_id = "INC-1";
  region = "us-east-1";
  status = RunbookStatus.success;
  started_at = 200;
  completed_at = 300;
  steps_completed = 7;
  steps_total = 7;
  step_results = [];
  error = nothing;
  verified = true;
}

-- One region with an open incident.
abbrev pub degraded : Manager
degraded = (open_incident wiring "us-east-1" "20260101-000000" 150 signal fresh).0

-- The same after a runbook that succeeded.
abbrev pub healed_once : Manager
healed_once = record_runbook_result wiring "us-east-1" won degraded

degraded-WellFormed : WellFormed degraded
degraded-WellFormed =
    open_incident-WellFormed wiring fresh fresh-WellFormed "us-east-1" "20260101-000000" 150 signal

healed_once-WellFormed : WellFormed healed_once
healed_once-WellFormed =
    record_runbook_result-WellFormed wiring degraded degraded-WellFormed "us-east-1" won

pub degraded_active : get_active "us-east-1" degraded ≡ some 0
unfolding get_active lookup insert open_incident create persist
degraded_active = refl

pub healed_once_active : get_active "us-east-1" healed_once ≡ some 0
unfolding get_active lookup insert open_incident create persist record_runbook_result change_active
healed_once_active = refl

pub healed_once_mitigated : (healed_once.heap 0).status ≡ mitigated
unfolding get_active lookup insert open_incident create persist record_runbook_result change_active
    update
healed_once_mitigated = refl

run-WellFormed_example : WellFormed (
    run wiring
      (opens "us-east-1" "20260101-000000" 150 signal
        ∷ escalates "us-east-1" 160
        ∷ finishes "us-east-1" won
        ∷ resolves "us-east-1" 400
        ∷ [])
      fresh)
run-WellFormed_example =
    run-WellFormed wiring
      (opens "us-east-1" "20260101-000000" 150 signal
        ∷ escalates "us-east-1" 160
        ∷ finishes "us-east-1" won
        ∷ resolves "us-east-1" 400
        ∷ [])
      fresh fresh-WellFormed

run-Board_example :
    board
      (run wiring
        (opens "us-east-1" "20260101-000000" 150 signal
          ∷ escalates "us-east-1" 160
          ∷ finishes "us-east-1" won
          ∷ [])
        fresh)
      "us-east-1"
    ≡ some (record {
      status = mitigated;
      verdict = some Verdict.success;
      escalated = true;
      acknowledged = false;
    })
unfolding steps board lookup
run-Board_example =
    run-Board wiring
      (opens "us-east-1" "20260101-000000" 150 signal
        ∷ escalates "us-east-1" 160
        ∷ finishes "us-east-1" won
        ∷ [])
      fresh "us-east-1" fresh-WellFormed

abbrev other : ℕ
other = 1

resolve_closes_example :
    (((resolve wiring "us-east-1" 400 degraded).0.heap 0).status ≡ resolved)
    × (((resolve wiring "us-east-1" 400 degraded).0.heap 0).resolved_at_ns ≡ some 400)
    × ((degraded.heap 0).degraded_at_ns < 400
        → ((resolve wiring "us-east-1" 400 degraded).0.heap 0).error_budget_consumed_ns
          ≡ pos (400 - (degraded.heap 0).degraded_at_ns))
    × (was_auto_resolved ((resolve wiring "us-east-1" 400 degraded).0.heap 0)
        ≡ was_auto_resolved (degraded.heap 0))
    × (other ≢ 0 → (resolve wiring "us-east-1" 400 degraded).0.heap other ≡ degraded.heap other)
resolve_closes_example = resolve_closes wiring degraded "us-east-1" 400 0 other degraded_active

abbrev warning : String
warning = "WARNING"

abbrev cascading : String
cascading = "CASCADING"

mitigated_abandoned_example :
    (((run wiring
          (resolves "us-east-1" 900 ∷ [])
          (open_incident wiring "us-east-1" "20260101-000005" 500 signal healed_once).0).heap
        0).status
      ≡ mitigated)
    × (get_active "us-east-1" (
          run wiring
            (resolves "us-east-1" 900 ∷ [])
            (open_incident wiring "us-east-1" "20260101-000005" 500 signal healed_once).0)
        ≢ some 0)
mitigated_abandoned_example =
    mitigated_abandoned wiring healed_once "us-east-1" "20260101-000005" 500 0 signal
      (resolves "us-east-1" 900 ∷ []) "us-east-1" healed_once-WellFormed healed_once_active
      healed_once_mitigated
