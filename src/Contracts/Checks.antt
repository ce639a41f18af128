-- ===== src/Contracts/Checks.antt =====
-- The checks of integration-07/hardening/contract_validator.py. Environment variables, files and
-- HTTP come from a `Site`. Of a detail's text only
-- what it lists is kept.
use nimbus_net.Prelude.{
  ℕ, ◌+◌, String, Bool, true, false, ◌&&◌, ◌||◌, Option, none, some, List, [], ◌∷◌, str_eq, ◌==◌,
  if◌then◌else◌, map, ltb,
}
use nimbus_net.Prelude.Text.{◌++ₛ◌}

pub data Severity : Type 0 where
  fatal error warn : Severity

-- A check's answer with what its detail lists, or the exception that it raises.
pub data Outcome : Type 0 where
  answered : Bool → List String → Outcome
  raised : Outcome

-- The schema file: not there, one that cannot be read as JSON, or its `flow_event_fields`.
pub data SchemaFile : Type 0 where
  absent unreadable : SchemaFile
  fields : List String → SchemaFile

-- A data source of Grafana: its type and its name, if it has them.
pub record DataSource : Type 0 where
  pub kind : Option String
  pub name : Option String

-- `grafana` is `none` if the request or its answer raises.
pub record Site : Type 0 where
  pub schema : SchemaFile
  pub variable : String → Option String
  pub state_file_exists : String → Bool
  pub reachable : String → Bool
  pub grafana : String → Option (List DataSource)

pub record Contract : Type 0 where
  pub name : String
  pub severity : Severity
  pub check : Site → Outcome
  pub phase_from : String
  pub phase_to : String

abbrev pub or_default : String → Option String → String
or_default d none = d
or_default d (some v) = v

unfoldable pub mem : String → List String → Bool
mem x [] = false
mem x (y ∷ ys) = str_eq x y || mem x ys

-- set(xs) - set(ys)
unfoldable pub minus : List String → List String → List String
unfolding mem
minus [] ys = []
minus (x ∷ xs) ys = let rest = minus xs ys in if mem x ys then rest else x ∷ rest

abbrev pub is_empty {ℓ} : {A : Type ℓ} → List A → Bool
is_empty [] = true
is_empty (x ∷ xs) = false

abbrev pub required_fields : List String
required_fields =
    "rtt_mean_ms" ∷ "rtt_jitter_ms" ∷ "packet_loss_rate" ∷ "retransmit_rate"
    ∷ "bandwidth_utilization" ∷ "connection_error_rate" ∷ "anomaly_score" ∷ []

unfoldable pub check_ebpf_telemetry_bus : Site → Outcome
unfolding minus
check_ebpf_telemetry_bus s = elim s.schema [
  | absent ↦ answered true []
  | unreadable ↦ raised
  | fields exported ↦
      let missing = minus required_fields exported in
      if is_empty missing then answered true [] else answered false missing
]

unfoldable pub check_ml_fsm_severity_enum : Site → Outcome
unfolding minus
check_ml_fsm_severity_enum s =
    let ml_severities = "NOMINAL" ∷ "WARNING" ∷ "DEGRADED" ∷ "CRITICAL" ∷ [] in
    let fsm_event_types =
      "NOMINAL_SIGNAL" ∷ "WARNING_SIGNAL" ∷ "DEGRADED_SIGNAL" ∷ "CRITICAL_SIGNAL" ∷ [] in
    let mapped = map (λ (x : String). x ++ₛ "_SIGNAL") ml_severities in
    if is_empty (minus mapped fsm_event_types) && is_empty (minus fsm_event_types mapped)
    then answered true []
    else answered false ml_severities

unfoldable pub check_fsm_states_cover_runbooks : Site → Outcome
unfolding minus
check_fsm_states_cover_runbooks s =
    let fsm_terminal_states = "DEGRADED" ∷ "HEALING" ∷ "FAILED" ∷ [] in
    let runbook_triggers = "DEGRADED" ∷ "FAILED" ∷ [] in
    let uncovered = minus (minus fsm_terminal_states runbook_triggers) ("HEALING" ∷ []) in
    if is_empty uncovered then answered true [] else answered false uncovered

-- Both answers are `True`.
unfoldable pub check_postmortem_feeds_flywheel : Site → Outcome
check_postmortem_feeds_flywheel s =
    let ml_url = or_default "" (s.variable "ML_SERVING_URL") in
    if str_eq ml_url "" then answered true [] else answered true (ml_url ∷ [])

-- Class numbers are told apart as numbers; a class that is unknown is counted.
abbrev pub mem_number : ℕ → List ℕ → Bool
mem_number x [] = false
mem_number x (y ∷ ys) = x == y || mem_number x ys

abbrev pub unknown_count : List ℕ → List ℕ → ℕ
unknown_count [] ys = 0
unknown_count (x ∷ xs) ys = (if mem_number x ys then 0 else 1) + unknown_count xs ys

unfoldable pub check_chaos_label_schema_matches_ml : Site → Outcome
check_chaos_label_schema_matches_ml s =
    let ml_classes : List ℕ = 0 ∷ 1 ∷ 2 ∷ 3 ∷ [] in
    let chaos_classes : List ℕ = 1 ∷ 1 ∷ 0 ∷ 2 ∷ 1 ∷ 2 ∷ 0 ∷ 3 ∷ [] in
    if ltb 0 (unknown_count chaos_classes ml_classes) then answered false [] else answered true []

-- Both answers are `True`.
unfoldable pub check_budget_enforcer_reads_phase5 : Site → Outcome
check_budget_enforcer_reads_phase5 s =
    let state_file =
      or_default "/tmp/nimbusnet/sre/error_budget.json" (s.variable "ERROR_BUDGET_STATE_FILE") in
    if s.state_file_exists state_file then answered true (state_file ∷ []) else answered true []

abbrev pub targets : Site → List (String × String)
targets s =
    ("eBPF agent", or_default "http://localhost:9100" (s.variable "EBPF_AGENT_URL") ++ₛ "/metrics")
    ∷ (
      "ML serving",
      or_default "http://localhost:8080" (s.variable "ML_SERVING_URL") ++ₛ "/metrics",
    )
    ∷ (
      "Control plane",
      or_default "http://localhost:8070" (s.variable "CONTROL_PLANE_URL") ++ₛ "/metrics",
    )
    ∷ ("SRE ops", or_default "http://localhost:8090" (s.variable "SRE_OPS_URL") ++ₛ "/metrics")
    ∷ []

unfoldable pub unreachable : (String → Bool) → List (String × String) → List String
unreachable up [] = []
unreachable up ((name, url) ∷ ts) =
    let rest = unreachable up ts in if up url then rest else name ∷ rest

unfoldable pub check_prometheus_scrape_targets : Site → Outcome
unfolding unreachable
check_prometheus_scrape_targets s =
    let down = unreachable s.reachable (targets s) in
    if is_empty down then answered true [] else answered false down

abbrev pub is_prometheus : Option String → Bool
is_prometheus none = false
is_prometheus (some kind) = str_eq kind "prometheus"

unfoldable pub has_prometheus : List DataSource → Bool
has_prometheus [] = false
has_prometheus (d ∷ ds) = is_prometheus d.kind || has_prometheus ds

unfoldable pub check_grafana_datasource : Site → Outcome
unfolding has_prometheus
check_grafana_datasource s =
    elim (s.grafana (or_default "http://localhost:3000" (s.variable "GRAFANA_URL"))) [
      | none ↦ answered true []
      | some sources ↦ if has_prometheus sources then answered true [] else answered false []
    ]
