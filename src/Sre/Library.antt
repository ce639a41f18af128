-- ===== src/Sre/Library.antt =====
-- sre-operations-05/sre/runbooks/library.py: the registry of runbooks and the choice of one. The
-- registry's dict is keyed by each runbook's id, in the order of the list.
mod RegionFailover
mod MlDegradation
mod ColdStandby
pub mod Selection
use nimbus_net.Prelude.{String, Option, some, none, List, [], ◌∷◌, Dict, lookup}
use nimbus_net.Sre.Types.{Runbook}
pub use RegionFailover.{rb_001_region_failover}
pub use MlDegradation.{rb_002_ml_degradation}
pub use ColdStandby.{rb_003_cold_standby}

-- The three ids differ, so each entry is a new one.
abbrev by_id : List Runbook → Dict Runbook
by_id [] = []
by_id (rb ∷ rbs) = (rb.id, rb) ∷ by_id rbs

abbrev pub runbook_registry : Dict Runbook
runbook_registry = by_id (rb_001_region_failover ∷ rb_002_ml_degradation ∷ rb_003_cold_standby ∷ [])

abbrev pub fault_type_to_runbook : Dict String
fault_type_to_runbook =
    ("REGION_PARTITION", "RB-001")
    ∷ ("NETWORK_LATENCY", "RB-001")
    ∷ ("PACKET_LOSS", "RB-001")
    ∷ ("CASCADING", "RB-001")
    ∷ ("CONGESTION", "RB-001")
    ∷ ("SYN_FLOOD", "RB-001")
    ∷ ("ML_MODEL_DEGRADED", "RB-002")
    ∷ ("DUAL_REGION_FAILURE", "RB-003")
    ∷ ("UNKNOWN", "RB-001")
    ∷ []

abbrev or_default : Option String → String → String
or_default none d = d
or_default (some s) d = s

pub runbook_id : String → String
runbook_id fault_type = or_default (lookup fault_type fault_type_to_runbook) "RB-001"

-- `none` is the KeyError of `RUNBOOK_REGISTRY[runbook_id]`.
unfoldable pub select_runbook : String → Option Runbook
select_runbook fault_type = lookup (runbook_id fault_type) runbook_registry
