-- ===== src/Sre/Incidents/Reload.antt =====
-- `_load_active` of sre-operations-05/sre/runbooks/incident_manager.py: crash recovery. The files
-- come in the order that `glob` gives; `none` is a file that does not parse, which is skipped.
use nimbus_net.Prelude.{
  ◌+◌, some, none, Option, arith, eq_iff, insert, dict_laws, List, [], ◌∷◌, if◌then◌else◌,
  Bool-cases, inl, inr,
}
use nimbus_net.Sre.Types.{Incident, new_incident}
use nimbus_net.Sre.Incidents.{Manager, update, is_live}
use nimbus_net.Sre.Incidents.Invariant.{WellFormed}

-- The incident that is built from a file: most fields take their defaults.
unfoldable pub minimal : Incident → Incident
minimal d =
    record (new_incident d.id d.region d.severity d.status d.detected_at_ns d.degraded_at_ns) {
      fault_type = d.fault_type;
      if_score = d.if_score;
      xgb_severity = d.xgb_severity;
      rtt_ewma_us = d.rtt_ewma_us;
    }

abbrev pub restore : Incident → Manager → Manager
restore d m = record m {
  heap = update m.next (minimal d) m.heap;
  next = m.next + 1;
  active = insert d.region m.next m.active;
  all = insert d.id m.next m.all;
}

unfoldable pub reload_file : Option Incident → Manager → Manager
unfolding minimal
reload_file none m = m
reload_file (some d) m = if is_live d.status then restore d m else m

unfoldable pub load_active : List (Option Incident) → Manager → Manager
unfolding reload_file
load_active [] m = m
load_active (f ∷ fs) m = load_active fs (reload_file f m)

reload_file-WellFormed :
    (f : Option Incident) (m : Manager) → WellFormed m → WellFormed (reload_file f m)
unfolding reload_file update
reload_file-WellFormed none m h = h
reload_file-WellFormed (some d) m h = elim (Bool-cases (is_live d.status)) [
  | inr e ↦ rw (e, reload_file) h
  | inl e ↦
      rw (e, reload_file)
        (record {
          active_lt = λ r p. simp dict_laws (ground (arith, h.active_lt r p));
          active_region = λ r p.
              simp dict_laws
                (ground (arith, eq_iff d.region r, h.active_region r p, h.active_lt r p));
          active_live = λ r p. simp dict_laws (ground (arith, h.active_live r p, h.active_lt r p));
          all_lt = λ k p. simp dict_laws (ground (arith, h.all_lt k p));
          all_id =
              λ k p. simp dict_laws (ground (arith, eq_iff d.id k, h.all_id k p, h.all_lt k p));
        })
]

-- Whatever the files hold and in whatever order they come, the reloaded dicts are in order.
pub load_active-WellFormed :
    (fs : List (Option Incident)) (m : Manager) → WellFormed m → WellFormed (load_active fs m)
unfolding load_active
load_active-WellFormed [] m h = h
load_active-WellFormed (f ∷ fs) m h =
    load_active-WellFormed fs (reload_file f m) (reload_file-WellFormed f m h)
