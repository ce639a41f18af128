-- ===== src/Sre/Incidents/Invariant.antt =====
-- The invariant of incident_manager.py's two dicts, and that each method keeps it.
use nimbus_net.Prelude.{
  ℕ, ◌<◌, ◌≡◌, refl, String, true, some, arith, eq_iff, lookup, dict_laws, Option-cases, Bool-cases,
  inl, inr,
}
use nimbus_net.Sre.Types.{Incident, RunbookStatus, RunbookResult}
use nimbus_net.Sre.Incidents.{
  Signal, Wiring, Manager, update, is_live, is_opened, with_result, create, open_incident,
  change_active, record_runbook_started, record_runbook_progress, record_runbook_result,
  record_escalation, record_sre_ack, resolve,
}
use nimbus_net.Sre.Incidents.Ids.{new_incident_id}

-- Every entry of `_active` is an incident of its own region that is open or mitigated, and every
-- entry of `_all` an incident of its own id.
pub record WellFormed (m : Manager) : Type 0 where
  pub active_lt : (r : String) (p : ℕ) → lookup r m.active ≡ some p → p < m.next
  pub active_region : (r : String) (p : ℕ) → lookup r m.active ≡ some p → (m.heap p).region ≡ r
  pub active_live :
      (r : String) (p : ℕ) → lookup r m.active ≡ some p → is_live (m.heap p).status ≡ true
  pub all_lt : (k : String) (p : ℕ) → lookup k m.all ≡ some p → p < m.next
  pub all_id : (k : String) (p : ℕ) → lookup k m.all ≡ some p → (m.heap p).id ≡ k

-- What a change of an active incident must leave alone.
record KeepsPlace (f : Incident → Incident) : Type 0 where
  region : (i : Incident) → (f i).region ≡ i.region
  id : (i : Incident) → (f i).id ≡ i.id
  live : (i : Incident) → is_live i.status ≡ true → is_live (f i).status ≡ true

with_result-KeepsPlace :
    (s : RunbookStatus) (n : ℕ)
    → KeepsPlace (λ i. record (with_result s i) { runbook_steps_completed = n })
with_result-KeepsPlace s n = record {
  region = λ i. ground arith;
  id = λ i. ground arith;
  live = λ i. ground arith;
}

module _ (w : Wiring) (m : Manager) (h : WellFormed m) where
  create-WellFormed :
      (region stamp : String) (now : ℕ) (s : Signal) → WellFormed (create w region stamp now s m).0
  unfolding create update
  create-WellFormed region stamp now s = record {
    active_lt = λ r p. simp dict_laws (ground (arith, h.active_lt r p));
    active_region = λ r p.
        simp dict_laws (ground (arith, eq_iff region r, h.active_region r p, h.active_lt r p));
    active_live = λ r p. simp dict_laws (ground (arith, h.active_live r p, h.active_lt r p));
    all_lt = λ k p. simp dict_laws (ground (arith, h.all_lt k p));
    all_id = λ k p.
        simp dict_laws
          (ground (arith, eq_iff (new_incident_id stamp region) k, h.all_id k p, h.all_lt k p));
  }

  pub open_incident-WellFormed :
      (region stamp : String) (now : ℕ) (s : Signal)
      → WellFormed (open_incident w region stamp now s m).0
  unfolding open_incident
  open_incident-WellFormed region stamp now s = elim (Option-cases (lookup region m.active)) [
    | inl e ↦ rw (e, open_incident) (create-WellFormed region stamp now s)
    | inr (p, e) ↦ elim (Bool-cases (is_opened (m.heap p).status)) [
      | inl o ↦ rw (e, open_incident, o) h
      | inr o ↦ rw (e, open_incident, o) (create-WellFormed region stamp now s)
    ]
  ]

  change_active-WellFormed :
      (f : Incident → Incident) (region : String)
      → KeepsPlace f
      → WellFormed (change_active w f region m)
  unfolding change_active
  change_active-WellFormed f region k = elim (Option-cases (lookup region m.active)) [
    | inl e ↦ rw (e, change_active) h
    | inr (q, e) ↦
        rw (e, change_active)
          (record {
            active_lt = h.active_lt;
            active_region = λ r p. ground (arith, h.active_region r p, k.region (m.heap q));
            active_live = λ r p. ground (arith, h.active_live r p, k.live (m.heap q));
            all_lt = h.all_lt;
            all_id = λ j p. ground (arith, h.all_id j p, k.id (m.heap q));
          })
  ]

  pub record_escalation-WellFormed :
      (region : String) (now : ℕ) → WellFormed (record_escalation w region now m)
  unfolding record_escalation
  record_escalation-WellFormed region now = elim (Option-cases (lookup region m.active)) [
    | inl e ↦ rw (e, record_escalation) h
    | inr (q, e) ↦
        rw (e, record_escalation)
          (record {
            active_lt = h.active_lt;
            active_region = λ r p. ground (arith, h.active_region r p);
            active_live = λ r p. ground (arith, h.active_live r p);
            all_lt = h.all_lt;
            all_id = λ j p. ground (arith, h.all_id j p);
          })
  ]

  pub resolve-WellFormed : (region : String) (now : ℕ) → WellFormed (resolve w region now m).0
  unfolding resolve
  resolve-WellFormed region now = elim (Option-cases (lookup region m.active)) [
    | inl e ↦ rw (e, resolve) h
    | inr (q, e) ↦
        rw (e, resolve)
          (record {
            active_lt = λ r p. simp dict_laws (ground (arith, h.active_lt r p));
            active_region = λ r p. simp dict_laws (ground (arith, h.active_region r p));
            active_live = λ r p. simp dict_laws (
                ground (
                  arith,
                  eq_iff region r,
                  h.active_live r p,
                  h.active_region r p,
                  h.active_region region q,
                ));
            all_lt = h.all_lt;
            all_id = λ j p. ground (arith, h.all_id j p);
          })
  ]

  pub record_runbook_started-WellFormed :
      (region id : String) (total : ℕ) → WellFormed (record_runbook_started w region id total m)
  unfolding record_runbook_started
  record_runbook_started-WellFormed region id total =
      change_active-WellFormed _ region
        (record { region = λ i. refl; id = λ i. refl; live = λ i l. l })

  pub record_runbook_progress-WellFormed :
      (region : String) (n : ℕ) → WellFormed (record_runbook_progress w region n m)
  unfolding record_runbook_progress
  record_runbook_progress-WellFormed region n =
      change_active-WellFormed _ region
        (record { region = λ i. refl; id = λ i. refl; live = λ i l. l })

  pub record_runbook_result-WellFormed :
      (region : String) (r : RunbookResult) → WellFormed (record_runbook_result w region r m)
  unfolding record_runbook_result
  record_runbook_result-WellFormed region r =
      change_active-WellFormed _ region (with_result-KeepsPlace r.status r.steps_completed)

  pub record_sre_ack-WellFormed :
      (region : String) (now : ℕ) → WellFormed (record_sre_ack w region now m)
  unfolding record_sre_ack
  record_sre_ack-WellFormed region now =
      change_active-WellFormed _ region
        (record { region = λ i. refl; id = λ i. refl; live = λ i l. l })
