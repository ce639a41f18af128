-- ===== src/Ml/Flywheel/Samples.antt =====
-- The samples and the statistics of ml-intelligence-03/ml/flywheel/flywheel.py, with the enumerations
-- of ml-intelligence-03/ml/models/types.py.
use nimbus_net.Prelude.{ℕ, String, Bool, true, false, Option, none, some, List, [], Dict}
use nimbus_net.Prelude.Int.{ℤ}

pub data FaultType : Type 0 where
  unknown network_latency packet_loss region_partition congestion syn_flood cascading : FaultType

pub data FaultSeverity : Type 0 where
  nominal warning degraded critical : FaultSeverity

pub data LabelSource : Type 0 where
  synthetic_qdisc production gameday bootstrap : LabelSource

pub record TrainingSample : Type 0 where
  pub features : List ℤ
  pub fault_type : FaultType
  pub severity : FaultSeverity
  pub is_anomaly : Bool
  pub label_source : LabelSource
  pub confidence : ℕ
  pub timestamp_ns : ℕ
  pub session_id : String
  pub region : String

pub record FlywheelStats : Type 0 where
  pub total_samples : ℕ
  pub samples_by_source : Dict ℕ
  pub samples_by_fault : Dict ℕ
  pub last_retrain_at : Option ℕ
  pub last_retrain_trigger : Option String
  pub retrains_completed : ℕ

-- `store` is the file of samples, one for each line, and `saved` the file of statistics.
pub record Flywheel : Type 0 where
  pub store : List TrainingSample
  pub saved : Option FlywheelStats
  pub stats : FlywheelStats
  pub buffer : List TrainingSample
  pub samples_since_last_retrain : ℕ

abbrev pub retrain_volume_threshold : ℕ
retrain_volume_threshold = 500

abbrev pub min_samples_for_retrain : ℕ
min_samples_for_retrain = 100

abbrev pub new_stats : FlywheelStats
new_stats = record {
  total_samples = 0;
  samples_by_source = [];
  samples_by_fault = [];
  last_retrain_at = none;
  last_retrain_trigger = none;
  retrains_completed = 0;
}

abbrev pub fault_name : FaultType → String
fault_name unknown = "UNKNOWN"
fault_name network_latency = "NETWORK_LATENCY"
fault_name packet_loss = "PACKET_LOSS"
fault_name region_partition = "REGION_PARTITION"
fault_name congestion = "CONGESTION"
fault_name syn_flood = "SYN_FLOOD"
fault_name cascading = "CASCADING"

abbrev pub source_value : LabelSource → String
source_value synthetic_qdisc = "synthetic_qdisc"
source_value production = "production"
source_value gameday = "gameday"
source_value bootstrap = "bootstrap"

abbrev pub is_nominal : FaultSeverity → Bool
is_nominal nominal = true
is_nominal warning = false
is_nominal degraded = false
is_nominal critical = false

abbrev pub is_at_least_degraded : FaultSeverity → Bool
is_at_least_degraded nominal = false
is_at_least_degraded warning = false
is_at_least_degraded degraded = true
is_at_least_degraded critical = true

abbrev pub or_zero : Option ℕ → ℕ
or_zero none = 0
or_zero (some n) = n
