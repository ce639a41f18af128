-- ===== src/Sre/Incidents/Lifecycle.antt =====
-- What the methods of sre-operations-05/sre/runbooks/incident_manager.py do to one region and to
-- the others.
use nimbus_net.Prelude.{
  ℕ, ◌<◌, ◌-◌, ◌≡◌, ◌≢◌, refl, String, true, false, Bool, some, none, arith, eq_iff, lookup,
  dict_laws, Option-cases, Bool-cases, inl, inr, str_eq, if◌then◌else◌, ◌&&◌, not, ◌↔◌, ◌⊎◌,
}
use nimbus_net.Prelude.Int.{pos, ◌-ℤ◌}
use nimbus_net.Sre.Types.{
  mitigated, resolved, RunbookStatus, RunbookResult, p0, p3, was_auto_resolved,
}
use nimbus_net.Sre.Incidents.{
  Signal, Wiring, Manager, update, is_opened, severity_from_xgb, create, open_incident,
  change_active, record_runbook_result, resolve, get_active,
}

abbrev pub is_succeeded : RunbookStatus → Bool
is_succeeded RunbookStatus.success = true
is_succeeded _ = false

module _ (w : Wiring) (m : Manager) (region : String) where
  create_gets :
      (stamp : String) (now : ℕ) (s : Signal) (r : String)
      → (get_active r (create w region stamp now s m).0
          ≡ (if str_eq region r then some (create w region stamp now s m).1 else get_active r m))
        × (is_opened
              ((create w region stamp now s m).0.heap (create w region stamp now s m).1).status
            ≡ true)
  unfolding create get_active update
  create_gets stamp now s r = (simp dict_laws, ground arith)

  -- After `open`, on both of its branches, the region's active incident is the one that was
  -- returned, that incident is open, and every other region has the active incident it had.
  pub get_active-open_incident :
      (stamp : String) (now : ℕ) (s : Signal) (r : String)
      → (get_active r (open_incident w region stamp now s m).0 ≡ (
          if str_eq region r
          then some (open_incident w region stamp now s m).1
          else get_active r m))
        × (is_opened
              ((open_incident w region stamp now s m).0.heap
                (open_incident w region stamp now s m).1).status
            ≡ true)
  unfolding open_incident get_active update
  get_active-open_incident stamp now s r = elim (Option-cases (lookup region m.active)) [
    | inl e ↦ rw (e, open_incident) (create_gets stamp now s r)
    | inr (p, e) ↦ elim (Bool-cases (is_opened (m.heap p).status)) [
      | inl o ↦ rw (e, open_incident, o) (ground (arith, eq_iff region r), o)
      | inr o ↦ rw (e, open_incident, o) (create_gets stamp now s r)
    ]
  ]

  -- `resolve` returns the region's active incident, if there is one, and the region has none
  -- afterwards; every other region keeps its own.
  pub get_active-resolve :
      (now : ℕ) (r : String)
      → ((resolve w region now m).1 ≡ get_active region m)
        × (get_active r (resolve w region now m).0
            ≡ (if str_eq region r then none else get_active r m))
  unfolding resolve get_active
  get_active-resolve now r = elim (Option-cases (lookup region m.active)) [
    | inl e ↦ rw (e, resolve) (refl, ground (arith, eq_iff region r))
    | inr (p, e) ↦ rw (e, resolve) (refl, simp dict_laws)
  ]

  -- What `resolve` leaves in the incident: it is resolved at the instant read, its budget is the
  -- whole time since it was degraded (if the clock has moved on since), whether it counts as
  -- resolved automatically has not changed, and no other incident is touched.
  pub resolve_closes :
      (now p q : ℕ)
      → get_active region m ≡ some p
      → (((resolve w region now m).0.heap p).status ≡ resolved)
        × (((resolve w region now m).0.heap p).resolved_at_ns ≡ some now)
        × ((m.heap p).degraded_at_ns < now
            → ((resolve w region now m).0.heap p).error_budget_consumed_ns
              ≡ pos (now - (m.heap p).degraded_at_ns))
        × (was_auto_resolved ((resolve w region now m).0.heap p) ≡ was_auto_resolved (m.heap p))
        × (q ≢ p → (resolve w region now m).0.heap q ≡ m.heap q)
  unfolding resolve get_active update was_auto_resolved ◌-ℤ◌
  resolve_closes now p q e =
      rw (e, resolve) (ground arith, ground arith, ground arith, ground arith, ground arith)

  -- The verdict of a runbook on the region's active incident: it counts as resolved automatically
  -- exactly if the runbook succeeded and nobody was called in, and it is mitigated exactly if the
  -- runbook succeeded or it was mitigated before.
  pub record_runbook_result_verdict :
      (r : RunbookResult) (p : ℕ)
      → get_active region m ≡ some p
      → (was_auto_resolved ((record_runbook_result w region r m).heap p)
          ≡ (is_succeeded r.status && not (m.heap p).escalated_to_sre))
        × (((record_runbook_result w region r m).heap p).status
            ≡ (if is_succeeded r.status then mitigated else (m.heap p).status))
  unfolding record_runbook_result change_active get_active update was_auto_resolved
  record_runbook_result_verdict r p e = rw (e, change_active) (ground arith, ground arith)

-- The severity of an incident: P0 for a critical score or a partitioning or cascading fault,
-- whatever the other of the two says, and otherwise the score's own.
pub severity_from_xgb_iff :
    (xgb fault : String)
    → ((severity_from_xgb xgb fault ≡ p0)
        ↔ ((xgb ≡ "CRITICAL") ⊎ ((fault ≡ "REGION_PARTITION") ⊎ (fault ≡ "CASCADING"))))
      × ((severity_from_xgb xgb fault ≡ p3)
          → (xgb ≢ "CRITICAL") × (xgb ≢ "DEGRADED") × (xgb ≢ "WARNING"))
unfolding severity_from_xgb
severity_from_xgb_iff xgb fault = ground (
  arith,
  eq_iff xgb "CRITICAL",
  eq_iff fault "REGION_PARTITION",
  eq_iff fault "CASCADING",
  eq_iff xgb "DEGRADED",
  eq_iff xgb "WARNING",
)
