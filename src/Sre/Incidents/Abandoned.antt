-- ===== src/Sre/Incidents/Abandoned.antt =====
-- What becomes of a mitigated incident when its region degrades again before the FSM has reported
-- it healthy (sre-operations-05/sre/runbooks/incident_manager.py, `open`).
use nimbus_net.Prelude.{
  ℕ, ◌<◌, ◌≡◌, ◌≢◌, ap, ◌∙◌, String, some, arith, eq_iff, lookup, dict_laws, Option-cases,
  Bool-cases, inl, inr, List, [], ◌∷◌,
}
use nimbus_net.Sre.Types.{Incident, mitigated}
use nimbus_net.Sre.Incidents.{
  Signal, Wiring, Manager, update, is_opened, create, open_incident, change_active,
  record_escalation, resolve, get_active, record_runbook_started, record_runbook_progress,
  record_runbook_result, record_sre_ack,
}
use nimbus_net.Sre.Incidents.Invariant.{WellFormed}
use nimbus_net.Sre.Incidents.Methods.{
  Call, opens, starts, progresses, finishes, escalates, acknowledges, resolves, call, run,
}

-- No region's active entry is the incident, and it reads as given.
pub record IsAbandoned (p : ℕ) (i : Incident) (m : Manager) : Type 0 where
  pub allocated : p < m.next
  pub inactive : (r : String) → lookup r m.active ≢ some p
  pub reads : m.heap p ≡ i

module _ (w : Wiring) (p : ℕ) (i : Incident) (m : Manager) (h : IsAbandoned p i m) where
  create-IsAbandoned :
      (region stamp : String) (now : ℕ) (s : Signal)
      → IsAbandoned p i (create w region stamp now s m).0
  unfolding create update
  create-IsAbandoned region stamp now s = record {
    allocated = ground (arith, h.allocated);
    inactive = λ r. simp dict_laws (ground (arith, h.inactive r, h.allocated));
    reads = ground (arith, h.reads, h.allocated);
  }

  open_incident-IsAbandoned :
      (region stamp : String) (now : ℕ) (s : Signal)
      → IsAbandoned p i (open_incident w region stamp now s m).0
  unfolding open_incident
  open_incident-IsAbandoned region stamp now s = elim (Option-cases (lookup region m.active)) [
    | inl e ↦ rw (e, open_incident) (create-IsAbandoned region stamp now s)
    | inr (q, e) ↦ elim (Bool-cases (is_opened (m.heap q).status)) [
      | inl o ↦ rw (e, open_incident, o) h
      | inr o ↦ rw (e, open_incident, o) (create-IsAbandoned region stamp now s)
    ]
  ]

  change_active-IsAbandoned :
      (f : Incident → Incident) (region : String) → IsAbandoned p i (change_active w f region m)
  unfolding change_active
  change_active-IsAbandoned f region = elim (Option-cases (lookup region m.active)) [
    | inl e ↦ rw (e, change_active) h
    | inr (q, e) ↦
        rw (e, change_active)
          (record {
            allocated = h.allocated;
            inactive = h.inactive;
            reads = ground (arith, h.inactive region, h.reads);
          })
  ]

  record_escalation-IsAbandoned :
      (region : String) (now : ℕ) → IsAbandoned p i (record_escalation w region now m)
  unfolding record_escalation
  record_escalation-IsAbandoned region now = elim (Option-cases (lookup region m.active)) [
    | inl e ↦ rw (e, record_escalation) h
    | inr (q, e) ↦
        rw (e, record_escalation)
          (record {
            allocated = h.allocated;
            inactive = h.inactive;
            reads = ground (arith, h.inactive region, h.reads);
          })
  ]

  resolve-IsAbandoned : (region : String) (now : ℕ) → IsAbandoned p i (resolve w region now m).0
  unfolding resolve
  resolve-IsAbandoned region now = elim (Option-cases (lookup region m.active)) [
    | inl e ↦ rw (e, resolve) h
    | inr (q, e) ↦
        rw (e, resolve)
          (record {
            allocated = h.allocated;
            inactive = λ r. simp dict_laws (ground (arith, h.inactive r));
            reads = ground (arith, h.inactive region, h.reads);
          })
  ]

module _ (w : Wiring) (p : ℕ) (i : Incident) where
  call-IsAbandoned : (c : Call) (m : Manager) → IsAbandoned p i m → IsAbandoned p i (call w c m)
  unfolding call record_runbook_started record_runbook_progress record_runbook_result record_sre_ack
  call-IsAbandoned (opens region stamp now s) m h =
      open_incident-IsAbandoned w p i m h region stamp now s
  call-IsAbandoned (starts region id total) m h = change_active-IsAbandoned w p i m h _ region
  call-IsAbandoned (progresses region n) m h = change_active-IsAbandoned w p i m h _ region
  call-IsAbandoned (finishes region r) m h = change_active-IsAbandoned w p i m h _ region
  call-IsAbandoned (escalates region now) m h = record_escalation-IsAbandoned w p i m h region now
  call-IsAbandoned (acknowledges region now) m h = change_active-IsAbandoned w p i m h _ region
  call-IsAbandoned (resolves region now) m h = resolve-IsAbandoned w p i m h region now

  run-IsAbandoned :
      (cs : List Call) (m : Manager) → IsAbandoned p i m → IsAbandoned p i (run w cs m)
  unfolding run
  run-IsAbandoned [] m h = h
  run-IsAbandoned (c ∷ cs) m h = run-IsAbandoned cs (call w c m) (call-IsAbandoned c m h)

module _ (w : Wiring) where
  reopen-IsAbandoned :
      (m : Manager) (region stamp : String) (now p : ℕ) (s : Signal)
      → WellFormed m
      → get_active region m ≡ some p
      → (m.heap p).status ≡ mitigated
      → IsAbandoned p (m.heap p) (open_incident w region stamp now s m).0
  unfolding open_incident create update get_active
  reopen-IsAbandoned m region stamp now p s h e o =
      rw (e, open_incident, o)
        (record {
          allocated = ground (arith, h.active_lt region p);
          inactive = λ r. simp dict_laws (
              ground (
                arith,
                eq_iff region r,
                h.active_lt region p,
                h.active_region region p,
                h.active_region r p,
              ));
          reads = ground (arith, h.active_lt region p);
        })

  -- If a region degrades again while its incident is mitigated, the new incident takes its place:
  -- whatever methods are called afterwards, the old incident keeps the status `mitigated` and is no
  -- region's active incident, so nothing ever resolves it.
  pub mitigated_abandoned :
      (m : Manager) (region stamp : String) (now p : ℕ) (s : Signal) (cs : List Call) (r : String)
      → WellFormed m
      → get_active region m ≡ some p
      → (m.heap p).status ≡ mitigated
      → (((run w cs (open_incident w region stamp now s m).0).heap p).status ≡ mitigated)
        × (get_active r (run w cs (open_incident w region stamp now s m).0) ≢ some p)
  unfolding get_active
  mitigated_abandoned m region stamp now p s cs r h e o =
      let a =
        run-IsAbandoned w p (m.heap p) cs (open_incident w region stamp now s m).0
          (reopen-IsAbandoned m region stamp now p s h e o) in
      (ap (λ i. i.status) a.reads ∙ o, a.inactive r)
