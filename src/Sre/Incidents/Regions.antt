-- ===== src/Sre/Incidents/Regions.antt =====
-- The regions in `_active` of sre-operations-05/sre/runbooks/incident_manager.py: no region stands
-- there twice, whatever is called.
use nimbus_net.Prelude.{
  ℕ, ◌≡◌, arith, String, List, [], ◌∷◌, Dict, IsDict, insert-IsDict, remove-IsDict,
}
use mathlib.Core.Path.{subst}
use nimbus_net.Prelude.{sym}
use nimbus_net.Sre.Types.{Incident}
use nimbus_net.Sre.Incidents.{
  Wiring, Manager, Signal, create, open_incident, persist, change_active, record_runbook_started,
  record_runbook_progress, record_runbook_result, record_escalation, record_sre_ack, resolve,
}
use nimbus_net.Sre.Incidents.Methods.{
  Call, opens, starts, progresses, finishes, escalates, acknowledges, resolves, call, run,
}

module _ (w : Wiring) where
  change_active-active :
      (f : Incident → Incident) (region : String) (m : Manager)
      → (change_active w f region m).active ≡ m.active
  unfolding change_active persist
  change_active-active f region m = ground arith

  escalation-active :
      (region : String) (now : ℕ) (m : Manager)
      → (record_escalation w region now m).active ≡ m.active
  unfolding record_escalation persist
  escalation-active region now m = ground arith

  open_incident-IsDict :
      (region stamp : String) (now : ℕ) (s : Signal) (m : Manager)
      → IsDict m.active
      → IsDict (open_incident w region stamp now s m).0.active
  unfolding open_incident create persist
  open_incident-IsDict region stamp now s m h =
      ground (arith, insert-IsDict region m.next m.active h)

  resolve-IsDict :
      (region : String) (now : ℕ) (m : Manager)
      → IsDict m.active
      → IsDict (resolve w region now m).0.active
  unfolding resolve persist
  resolve-IsDict region now m h = ground (arith, remove-IsDict region m.active h)

  unchanged : (d e : Dict ℕ) → e ≡ d → IsDict d → IsDict e
  unchanged d e same h = subst (λ (x : Dict ℕ). IsDict x) (sym same) h

  call-IsDict : (c : Call) (m : Manager) → IsDict m.active → IsDict (call w c m).active
  unfolding call record_runbook_started record_runbook_progress record_runbook_result record_sre_ack
  call-IsDict (opens region stamp now s) m h = open_incident-IsDict region stamp now s m h
  call-IsDict (starts region id total) m h = unchanged _ _ (change_active-active _ region m) h
  call-IsDict (progresses region n) m h = unchanged _ _ (change_active-active _ region m) h
  call-IsDict (finishes region r) m h = unchanged _ _ (change_active-active _ region m) h
  call-IsDict (escalates region now) m h = unchanged _ _ (escalation-active region now m) h
  call-IsDict (acknowledges region now) m h = unchanged _ _ (change_active-active _ region m) h
  call-IsDict (resolves region now) m h = resolve-IsDict region now m h

  pub run-IsDict : (cs : List Call) (m : Manager) → IsDict m.active → IsDict (run w cs m).active
  unfolding run
  run-IsDict [] m h = h
  run-IsDict (c ∷ cs) m h = run-IsDict cs (call w c m) (call-IsDict c m h)
