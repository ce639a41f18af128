-- ===== src/Sre/Server/Listings.antt =====
-- What sre-operations-05/sre/server/server.py lists: incidents, runbooks and the health of the
-- service. `now` is the clock that the duration of an open incident is read from. The rounding of
-- durations is left out.
use mathlib.Core.Path.{subst}
use nimbus_net.Prelude.{
  ℕ, suc, ◌≡◌, refl, sym, ap, ◌∙◌, arith, eq_iff, str_eq, String, Bool, Option, none, some, List,
  [], ◌∷◌, length, map, count_if, Dict, lookup, IsDict,
}
use nimbus_net.Prelude.Int.{ℤ}
use nimbus_net.Sre.Types.{
  IncidentSeverity, IncidentStatus, Verdict, Incident, Runbook, duration_ns, was_auto_resolved,
}
use nimbus_net.Sre.Incidents.{Wiring, Manager, all_active, get_active, get_by_id}
use nimbus_net.Sre.Incidents.Recent.{recent}
use nimbus_net.Sre.Incidents.Invariant.{WellFormed}
use nimbus_net.Sre.Incidents.Methods.{Call, run, run-WellFormed}
use nimbus_net.Sre.Incidents.Regions.{run-IsDict}
use nimbus_net.Sre.Library.{runbook_registry}
use nimbus_net.Sre.Server.{Service}

-- The JSON object of an incident.
pub record IncidentDict : Type 0 where
  pub id : String
  pub region : String
  pub severity : IncidentSeverity
  pub status : IncidentStatus
  pub fault_type : String
  pub duration : ℤ
  pub auto_resolved : Bool
  pub escalated : Bool
  pub runbook_id : Option String
  pub runbook_result : Option Verdict
  pub budget_consumed : ℤ

unfoldable pub incident_to_dict : ℕ → Incident → IncidentDict
incident_to_dict now i = record {
  id = i.id;
  region = i.region;
  severity = i.severity;
  status = i.status;
  fault_type = i.fault_type;
  duration = duration_ns i now;
  auto_resolved = was_auto_resolved i;
  escalated = i.escalated_to_sre;
  runbook_id = i.runbook_id;
  runbook_result = i.runbook_result;
  budget_consumed = i.error_budget_consumed_ns;
}

unfoldable pub list_incidents : ℕ → ℕ → Service → List IncidentDict
unfolding incident_to_dict
list_incidents limit now s = map (incident_to_dict now) (recent limit s.world.manager)

unfoldable pub list_active : ℕ → Service → List IncidentDict
unfolding incident_to_dict all_active
list_active now s =
    map (λ (p : ℕ). incident_to_dict now (s.world.manager.heap p)) (all_active s.world.manager)

-- `none` is the 404.
unfoldable pub get_incident : String → ℕ → Service → Option IncidentDict
unfolding incident_to_dict get_by_id
get_incident incident_id now s = elim (get_by_id incident_id s.world.manager) [
  | none ↦ none
  | some p ↦ some (incident_to_dict now (s.world.manager.heap p))
]

pub record RunbookEntry : Type 0 where
  pub id : String
  pub name : String
  pub fault_type : String
  pub min_severity : IncidentSeverity
  pub steps : ℕ
  pub ttl_s : ℕ

unfoldable pub list_runbooks : List RunbookEntry
list_runbooks =
    map
      (λ (e : String × Runbook). record {
        id = e.1.id;
        name = e.1.name;
        fault_type = e.1.fault_type;
        min_severity = e.1.min_severity;
        steps = length e.1.steps;
        ttl_s = e.1.ttl_s;
      })
      runbook_registry

pub record Health : Type 0 where
  pub active_incidents : ℕ
  pub regions_degraded : List String

unfoldable pub health : Service → Health
unfolding all_active
health s =
    let active = all_active s.world.manager in
    record {
      active_incidents = length active;
      regions_degraded = map (λ (p : ℕ). (s.world.manager.heap p).region) active;
    }

-- 1 if there is something, and 0 otherwise.
abbrev pub presence {ℓ} : {A : Type ℓ} → Option A → ℕ
presence none = 0
presence (some x) = 1

lookup_first : (k : String) (p : ℕ) (d : Dict ℕ) → lookup k ((k, p) ∷ d) ≡ some p
unfolding lookup
lookup_first k p d = ground (arith, eq_iff k k)

lookup_later :
    (k j : String) (p q : ℕ) (d : Dict ℕ)
    → lookup k d ≡ none
    → lookup j d ≡ some q
    → lookup j ((k, p) ∷ d) ≡ some q
unfolding lookup
lookup_later k j p q d new at = grind (arith, eq_iff k j)

-- How often a key stands in a dict whose entries are named after their keys.
count_names :
    (name : ℕ → String) (r : String) (d : Dict ℕ)
    → IsDict d
    → ((k : String) (p : ℕ) → lookup k d ≡ some p → name p ≡ k)
    → count_if (str_eq r) (map name (map (λ e. e.1) d)) ≡ presence (lookup r d)
unfolding lookup
count_names name r [] h named = refl
count_names name r ((k, p) ∷ d) (new, h) named =
    let first = named k p (lookup_first k p d) in
    let rest = count_names name r d h (λ j q at. named j q (lookup_later k j p q d new at)) in
    rw first (grind (arith, rest, new, eq_iff k r, eq_iff r k))

length-names : (name : ℕ → String) (ps : List ℕ) → length (map name ps) ≡ length ps
length-names name [] = refl
length-names name (p ∷ ps) = ap (λ (n : ℕ). suc n) (length-names name ps)

-- After any calls of the manager's methods, `/health` names each region that has an active incident
-- exactly once and no other, and counts as many incidents as it names regions.
pub health_names_active :
    (w : Wiring) (cs : List Call) (m : Manager) (s : Service) (r : String)
    → WellFormed m
    → IsDict m.active
    → s.world.manager ≡ run w cs m
    → (length (health s).regions_degraded ≡ (health s).active_incidents)
      × (count_if (str_eq r) (health s).regions_degraded ≡ presence (get_active r (run w cs m)))
unfolding health all_active get_active
health_names_active w cs m s r formed distinct same =
    let now = s.world.manager in
    let formed_now =
      subst (λ (x : Manager). WellFormed x) (sym same) (run-WellFormed w cs m formed) in
    let distinct_now =
      subst (λ (x : Manager). IsDict x.active) (sym same) (run-IsDict w cs m distinct) in
    (
      length-names (λ p. (now.heap p).region) (map (λ e. e.1) now.active),
      count_names (λ p. (now.heap p).region) r now.active distinct_now formed_now.active_region
          ∙ ap (λ (x : Manager). presence (lookup r x.active)) same,
    )
