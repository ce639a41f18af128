-- ===== src/Sre/Incidents/Methods.antt =====
-- Any sequence of calls of the methods of sre-operations-05/sre/runbooks/incident_manager.py.
use nimbus_net.Prelude.{ℕ, String, List, [], ◌∷◌}
use nimbus_net.Sre.Types.{RunbookResult}
use nimbus_net.Sre.Incidents.{
  Signal, Wiring, Manager, open_incident, record_runbook_started, record_runbook_progress,
  record_runbook_result, record_escalation, record_sre_ack, resolve,
}
use nimbus_net.Sre.Incidents.Invariant.{
  WellFormed, open_incident-WellFormed, record_runbook_started-WellFormed,
  record_runbook_progress-WellFormed, record_runbook_result-WellFormed,
  record_escalation-WellFormed, record_sre_ack-WellFormed, resolve-WellFormed,
}

-- A call of a method, with the clock readings that it makes.
pub data Call : Type 0 where
  opens : String → String → ℕ → Signal → Call
  starts : String → String → ℕ → Call
  progresses : String → ℕ → Call
  finishes : String → RunbookResult → Call
  escalates acknowledges resolves : String → ℕ → Call

module _ (w : Wiring) where
  unfoldable pub call : Call → Manager → Manager
  call (opens region stamp now s) m = (open_incident w region stamp now s m).0
  call (starts region id total) m = record_runbook_started w region id total m
  call (progresses region n) m = record_runbook_progress w region n m
  call (finishes region r) m = record_runbook_result w region r m
  call (escalates region now) m = record_escalation w region now m
  call (acknowledges region now) m = record_sre_ack w region now m
  call (resolves region now) m = (resolve w region now m).0

  unfoldable pub run : List Call → Manager → Manager
  unfolding call
  run [] m = m
  run (c ∷ cs) m = run cs (call c m)

  pub call-WellFormed : (c : Call) (m : Manager) → WellFormed m → WellFormed (call c m)
  unfolding call
  call-WellFormed (opens region stamp now s) m h = open_incident-WellFormed w m h region stamp now s
  call-WellFormed (starts region id total) m h =
      record_runbook_started-WellFormed w m h region id total
  call-WellFormed (progresses region n) m h = record_runbook_progress-WellFormed w m h region n
  call-WellFormed (finishes region r) m h = record_runbook_result-WellFormed w m h region r
  call-WellFormed (escalates region now) m h = record_escalation-WellFormed w m h region now
  call-WellFormed (acknowledges region now) m h = record_sre_ack-WellFormed w m h region now
  call-WellFormed (resolves region now) m h = resolve-WellFormed w m h region now

  -- From a manager whose dicts are in order, any sequence of method calls leaves them in order:
  -- each active entry is an open or mitigated incident of its own region, each entry of `_all` an
  -- incident of its own id.
  pub run-WellFormed : (cs : List Call) (m : Manager) → WellFormed m → WellFormed (run cs m)
  unfolding run
  run-WellFormed [] m h = h
  run-WellFormed (c ∷ cs) m h = run-WellFormed cs (call c m) (call-WellFormed c m h)
