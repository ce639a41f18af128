-- ===== src/Sre/Incidents.antt =====
-- sre-operations-05/sre/runbooks/incident_manager.py: the incident manager as it stands in memory
-- and on disk. `_active` and `_all` hold references to the same mutable objects, so the model has a
-- heap of incidents and both dicts hold references into it. The lock makes each method one step.
--
-- `can_write` says of which incident ids the file can be opened for writing: `_persist` catches the
-- failure. The callbacks are wired or not, and a call is noted with the incident that it was
-- given; what a callback raises is caught, so it changes nothing.
pub mod Ids
pub mod Invariant
pub mod Methods
pub mod Regions
pub mod Lifecycle
pub mod Reload
pub mod Recent
pub mod Abandoned
pub mod Board
use nimbus_net.Prelude.{
  ℕ, zero, suc, ◌+◌, String, Bool, true, false, ◌||◌, Option, none, some, List, [], ◌∷◌, ◌++◌, ◌==◌,
  str_eq, if◌then◌else◌, Dict, lookup, insert, remove, map,
}
use nimbus_net.Prelude.Int.{ℤ, pos, negsuc}
use nimbus_net.Sre.Types.{
  Micros, IncidentSeverity, p0, p1, p2, p3, IncidentStatus, opened, mitigated, resolved, closed,
  Verdict, Incident, new_incident, ttr_ns, RunbookStatus, RunbookResult,
}
use Ids.{new_incident_id}

-- The arguments of `open` beside the region: what the FSM and the scorer said at detection.
pub record Signal : Type 0 where
  pub detected_at_ns : ℕ
  pub fault_type : String
  pub xgb_severity : String
  pub if_score : Micros
  pub lstm_confidence : Micros
  pub rtt_ewma_us : ℕ
  pub retransmit_rate : Micros

-- A callback that was made, with the incident as it then was.
pub data Callback : Type 0 where
  on_opened on_resolved on_escalated : Incident → Callback

pub record Wiring : Type 0 where
  pub can_write : String → Bool
  pub opened_wired : Bool
  pub resolved_wired : Bool
  pub escalated_wired : Bool

pub record Manager : Type 0 where
  pub heap : ℕ → Incident
  pub next : ℕ
  pub active : Dict ℕ
  pub all : Dict ℕ
  pub disk : Dict Incident
  pub calls : List Callback

unfoldable pub severity_from_xgb : String → String → IncidentSeverity
severity_from_xgb xgb_severity fault_type =
    if str_eq xgb_severity "CRITICAL"
      || (str_eq fault_type "REGION_PARTITION" || str_eq fault_type "CASCADING")
    then p0
    else if str_eq xgb_severity "DEGRADED"
    then p1
    else if str_eq xgb_severity "WARNING"
    then p2
    else p3

unfoldable pub update : ℕ → Incident → (ℕ → Incident) → ℕ → Incident
update p i h q = if p == q then i else h q

-- The JSON object has every field of the incident but `sre_ack_at_ns`.
abbrev pub saved : Incident → Incident
saved i = record i { sre_ack_at_ns = none }

abbrev pub call_if : Bool → Callback → Manager → Manager
call_if wired c m = record m { calls = if wired then m.calls ++ c ∷ [] else m.calls }

abbrev pub is_opened : IncidentStatus → Bool
is_opened opened = true
is_opened mitigated = false
is_opened resolved = false
is_opened closed = false

abbrev pub is_live : IncidentStatus → Bool
is_live opened = true
is_live mitigated = true
is_live resolved = false
is_live closed = false

-- `if inc.ttr_s:`, and then the minutes that were consumed, here in nanoseconds.
abbrev pub budget_after : Option ℤ → ℤ → ℤ
budget_after none old = old
budget_after (some (pos zero)) old = old
budget_after (some (pos (suc n))) old = pos (suc n)
budget_after (some (negsuc n)) old = negsuc n

-- The branches of `record_runbook_result` on `result.status`.
abbrev pub with_result : RunbookStatus → Incident → Incident
with_result RunbookStatus.success i = record i {
  runbook_result = some Verdict.success;
  status = mitigated;
}
with_result RunbookStatus.timeout i = record i { runbook_result = some Verdict.timeout }
with_result _ i = record i { runbook_result = some Verdict.failure }

module _ (w : Wiring) where
  unfoldable pub persist : Incident → Manager → Manager
  persist i m = record m {
    disk = if w.can_write i.id then insert i.id (saved i) m.disk else m.disk;
  }

  -- The part of `open` past the early return.
  unfoldable pub create : String → String → ℕ → Signal → Manager → Manager × ℕ
  unfolding persist
  create region stamp now s m =
      let i =
        record (new_incident (new_incident_id stamp region) region
          (severity_from_xgb s.xgb_severity s.fault_type) opened s.detected_at_ns now) {
            fault_type = s.fault_type;
            if_score = s.if_score;
            xgb_severity = s.xgb_severity;
            lstm_confidence = s.lstm_confidence;
            rtt_ewma_us = s.rtt_ewma_us;
            retransmit_rate = s.retransmit_rate;
          } in
      let m1 = record m {
        heap = update m.next i m.heap;
        next = m.next + 1;
        active = insert region m.next m.active;
        all = insert i.id m.next m.all;
      } in
      (call_if w.opened_wired (on_opened i) (persist i m1), m.next)

  -- `stamp` is the text of the second at which `strftime` is called, `now` the later `time_ns()`.
  unfoldable pub open_incident : String → String → ℕ → Signal → Manager → Manager × ℕ
  unfolding create
  open_incident region stamp now s m =
      let new = create region stamp now s m in
      elim (lookup region m.active) [
        | none ↦ new
        | some p ↦ if is_opened (m.heap p).status then (m, p) else new
      ]

  -- `inc = self._active.get(region)`, a change of its fields, and `_persist`.
  unfoldable pub change_active : (Incident → Incident) → String → Manager → Manager
  unfolding persist update
  change_active f region m = elim (lookup region m.active) [
    | none ↦ m
    | some p ↦ let i = f (m.heap p) in persist i (record m { heap = update p i m.heap })
  ]

  unfoldable pub record_runbook_started : String → String → ℕ → Manager → Manager
  record_runbook_started region runbook_id steps_total =
      change_active
        (λ i. record i { runbook_id = some runbook_id; runbook_steps_total = steps_total }) region

  unfoldable pub record_runbook_progress : String → ℕ → Manager → Manager
  record_runbook_progress region steps_completed =
      change_active (λ i. record i { runbook_steps_completed = steps_completed }) region

  unfoldable pub record_runbook_result : String → RunbookResult → Manager → Manager
  record_runbook_result region r =
      change_active
        (λ i. record (with_result r.status i) { runbook_steps_completed = r.steps_completed })
        region

  unfoldable pub record_escalation : String → ℕ → Manager → Manager
  unfolding persist update
  record_escalation region now m = elim (lookup region m.active) [
    | none ↦ m
    | some p ↦
        let i = record (m.heap p) { escalated_to_sre = true; escalated_at_ns = some now } in
        call_if w.escalated_wired (on_escalated i)
          (persist i (record m { heap = update p i m.heap }))
  ]

  unfoldable pub record_sre_ack : String → ℕ → Manager → Manager
  record_sre_ack region now =
      change_active (λ i. record i { sre_acknowledged = true; sre_ack_at_ns = some now }) region

  unfoldable pub resolve : String → ℕ → Manager → Manager × Option ℕ
  unfolding persist update ttr_ns
  resolve region now m = elim (lookup region m.active) [
    | none ↦ (m, none)
    | some p ↦
        let i1 = record (m.heap p) { resolved_at_ns = some now; status = resolved } in
        let i = record i1 {
          error_budget_consumed_ns = budget_after (ttr_ns i1) i1.error_budget_consumed_ns;
        } in
        let m1 = record m { heap = update p i m.heap; active = remove region m.active } in
        (call_if w.resolved_wired (on_resolved i) (persist i m1), some p)
  ]

unfoldable pub get_active : String → Manager → Option ℕ
get_active region m = lookup region m.active

unfoldable pub get_by_id : String → Manager → Option ℕ
get_by_id id m = lookup id m.all

unfoldable pub all_active : Manager → List ℕ
all_active m = map (λ e. e.1) m.active
