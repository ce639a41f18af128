-- ===== src/Sre/Types.antt =====
-- sre-operations-05/sre/types.py: the data that the parts of the service exchange.
-- Instants are numbers of nanoseconds. A float that the service only stores is a number of
-- millionths (`Micros`); durations are exact integers of nanoseconds (`ℤ`, a clock may step back).
use nimbus_net.Prelude.{
  ℕ, zero, suc, String, Bool, true, false, ◌&&◌, not, Option, none, some, List,
}
use nimbus_net.Prelude.Int.{ℤ, pos, ◌-ℤ◌}

abbrev pub Micros : Type 0
Micros = ℕ

pub data IncidentSeverity : Type 0 where
  p0 p1 p2 p3 : IncidentSeverity

-- `OPEN` is `opened` here: the other spelling is a reserved word.
pub data IncidentStatus : Type 0 where
  opened mitigated resolved closed : IncidentStatus

-- The strings that `runbook_result` takes.
pub data Verdict : Type 0 where
  success failure timeout : Verdict

pub record Incident : Type 0 where
  pub id : String
  pub region : String
  pub severity : IncidentSeverity
  pub status : IncidentStatus
  pub detected_at_ns : ℕ
  pub degraded_at_ns : ℕ
  pub healing_at_ns : Option ℕ
  pub resolved_at_ns : Option ℕ
  pub closed_at_ns : Option ℕ
  pub fault_type : String
  pub if_score : Micros
  pub xgb_severity : String
  pub lstm_confidence : Micros
  pub rtt_ewma_us : ℕ
  pub retransmit_rate : Micros
  pub runbook_id : Option String
  pub runbook_result : Option Verdict
  pub runbook_steps_completed : ℕ
  pub runbook_steps_total : ℕ
  pub escalated_to_sre : Bool
  pub escalated_at_ns : Option ℕ
  pub sre_acknowledged : Bool
  pub sre_ack_at_ns : Option ℕ
  pub error_budget_consumed_ns : ℤ

-- The constructor call with the defaults of the dataclass.
abbrev pub new_incident : String → String → IncidentSeverity → IncidentStatus → ℕ → ℕ → Incident
new_incident id region severity status detected_at_ns degraded_at_ns = record {
  id = id;
  region = region;
  severity = severity;
  status = status;
  detected_at_ns = detected_at_ns;
  degraded_at_ns = degraded_at_ns;
  healing_at_ns = none;
  resolved_at_ns = none;
  closed_at_ns = none;
  fault_type = "UNKNOWN";
  if_score = 0;
  xgb_severity = "NOMINAL";
  lstm_confidence = 0;
  rtt_ewma_us = 0;
  retransmit_rate = 0;
  runbook_id = none;
  runbook_result = none;
  runbook_steps_completed = 0;
  runbook_steps_total = 0;
  escalated_to_sre = false;
  escalated_at_ns = none;
  sre_acknowledged = false;
  sre_ack_at_ns = none;
  error_budget_consumed_ns = pos 0;
}

-- `end = self.resolved_at_ns or time.time_ns()`: an end at instant 0 counts as missing.
unfoldable pub end_or_now : Option ℕ → ℕ → ℕ
end_or_now none now = now
end_or_now (some zero) now = now
end_or_now (some (suc n)) now = suc n

unfoldable pub duration_ns : Incident → ℕ → ℤ
unfolding end_or_now
duration_ns i now = pos (end_or_now i.resolved_at_ns now) -ℤ pos i.detected_at_ns

unfoldable pub ttd_ns : Incident → ℤ
ttd_ns i = pos i.degraded_at_ns -ℤ pos i.detected_at_ns

unfoldable pub ttr_ns : Incident → Option ℤ
ttr_ns i = elim i.resolved_at_ns [ none ↦ none | some t ↦ some (pos t -ℤ pos i.degraded_at_ns) ]

abbrev pub is_success : Option Verdict → Bool
is_success none = false
is_success (some success) = true
is_success (some failure) = false
is_success (some timeout) = false

unfoldable pub was_auto_resolved : Incident → Bool
was_auto_resolved i = is_success i.runbook_result && not i.escalated_to_sre

pub data RunbookStatus : Type 0 where
  pending running success failed timeout skipped : RunbookStatus

-- The texts of `error`, by the place that writes them: those of a step, then those of a run.
pub data Failure : Type 0 where
  nothing deadline_exceeded verification_failed : Failure
  command_failed : ℕ → Failure
  preconditions_not_met not_confirmed : Failure
  ttl_exceeded : ℕ → ℕ → Failure
  step_failed : ℕ → String → Failure → Failure
  raised : String → Failure

-- `timeout_s` and `ttl_s` are seconds; the runtime fields are instants in nanoseconds.
pub record RunbookStep : Type 0 where
  pub number : ℕ
  pub title : String
  pub description : String
  pub command : Option String
  pub verify : Option String
  pub timeout_s : ℕ
  pub retries : ℕ
  pub rollback : Option String
  pub status : RunbookStatus
  pub started_at : Option ℕ
  pub completed_at : Option ℕ
  pub output : String
  pub error : Failure

pub record Runbook : Type 0 where
  pub id : String
  pub name : String
  pub fault_type : String
  pub min_severity : IncidentSeverity
  pub description : String
  pub steps : List RunbookStep
  pub ttl_s : ℕ
  pub max_retries : ℕ
  pub preconditions : List String
  pub verification_query : Option String
  pub verification_threshold : Micros

pub record RunbookResult : Type 0 where
  pub runbook_id : String
  pub incident_id : String
  pub region : String
  pub status : RunbookStatus
  pub started_at : ℕ
  pub completed_at : ℕ
  pub steps_completed : ℕ
  pub steps_total : ℕ
  pub step_results : List RunbookStep
  pub error : Failure
  pub verified : Bool

-- `PM-{date}-{number:04d}`.
pub record PostmortemId : Type 0 where
  pub date : String
  pub number : ℕ

-- `draft` is never seen from outside: `generate` goes on to one of the others.
pub data PostmortemStatus : Type 0 where
  draft under_review published : PostmortemStatus

-- An entry of the timeline; the time is the second of the day, since its text is `HH:MM:SS UTC`.
pub data TimelineEvent : Type 0 where
  ml_detection healthy_to_degraded incident_resolved escalated_to_sre : TimelineEvent
  runbook_began : Option String → TimelineEvent

pub record TimelineEntry : Type 0 where
  pub time : ℕ
  pub event : TimelineEvent

pub data ActionItem : Type 0 where
  investigate_runbook : Option String → ActionItem
  review_tgw_monitoring : ActionItem
  add_scenario : String → ActionItem

-- `about` is the incident that `summary`, `root_cause`, `impact`, `detection` and `resolution` are
-- texts about, as it was then.
pub record Postmortem : Type 0 where
  pub id : PostmortemId
  pub incident_id : String
  pub region : String
  pub severity : IncidentSeverity
  pub status : PostmortemStatus
  pub about : Incident
  pub timeline : List TimelineEntry
  pub contributing_factors : String
  pub action_items : List ActionItem
  pub generated_at : ℕ
  pub requires_human_review : Bool
  pub sre_author : Option String
  pub ml_retrain_triggered : Bool
  pub runbook_updated : Bool
  pub slo_recalibrated : Bool
  pub chaos_experiment_added : Bool
