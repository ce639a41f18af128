-- ===== src/Chaos/Bridge.antt =====
-- chaos-ci-gate-06/flywheel/bridge.py: chaos session records become labelled training records.
-- Percentages are numbers of thousandths of a percent, and the features of a payload are numbers of
-- millionths; a missing number of the record is its default, 0.
pub mod Records
pub mod Once
use nimbus_net.Prelude.{
  ℕ, zero, suc, ◌+◌, ◌*◌, ◌/◌, min, String, Bool, true, false, ◌||◌, Option, none, some, List, [],
  ◌∷◌, ltb, str_eq, if◌then◌else◌, Dict, lookup,
}

-- The JSON object of a file: `none` is a missing key.
pub record Raw : Type 0 where
  pub session_id : Option String
  pub resolution : Option String
  pub fault_type : Option String
  pub fault_class_label : Option ℕ
  pub severity_label : Option String
  pub timestamp : Option ℕ
  pub latency_ms : ℕ
  pub jitter_ms : ℕ
  pub loss_pct : ℕ
  pub bandwidth_kbps : ℕ
  pub healing_latency_ms : ℕ
  pub healing_triggered : Bool
  pub profile_name : Option String
  pub duration_seconds : Option ℕ
  pub sample_count : ℕ

pub record Features : Type 0 where
  pub rtt_mean_ms : ℕ
  pub rtt_jitter_ms : ℕ
  pub packet_loss_rate : ℕ
  pub retransmit_rate : ℕ
  pub bandwidth_utilization : ℕ
  pub connection_error_rate : ℕ
  pub anomaly_score : ℕ
  pub healing_latency_ms : ℕ
  pub auto_healed : ℕ

pub record Payload : Type 0 where
  pub session_id : Option String
  pub timestamp : ℕ
  pub features : Features
  pub fault_class : ℕ
  pub severity : ℕ
  pub fault_type : String
  pub healed : Bool
  pub profile_name : Option String
  pub duration_seconds : Option ℕ
  pub sample_count : ℕ

abbrev pub or_else {ℓ} : {A : Type ℓ} → Option A → A → A
or_else none d = d
or_else (some a) d = a

unfoldable pub is_final : Option String → Bool
is_final none = false
is_final (some r) = str_eq r "HEALED" || (str_eq r "MANUAL_CLEAR" || str_eq r "TIMEOUT")

abbrev pub fault_class_map : Raw → Dict ℕ
fault_class_map r =
    ("latency", 1)
    ∷ ("latency_jitter", 1)
    ∷ ("packet_loss", if ltb r.loss_pct 10000 then 0 else 3)
    ∷ ("packet_corrupt", 2)
    ∷ ("packet_reorder", 1)
    ∷ ("bandwidth_cap", 2)
    ∷ ("duplicate", 0)
    ∷ ("combined", 3)
    ∷ []

unfoldable pub class_from_map : Raw → ℕ
class_from_map r = or_else (lookup (or_else r.fault_type "latency") (fault_class_map r)) 0

-- `raw.get("fault_class_label") or fault_class_map.get(…)`: a label 0 is false.
unfoldable pub fault_class : Raw → ℕ
fault_class r = elim r.fault_class_label [
  | none ↦ class_from_map r
  | some n ↦ elim n [ zero ↦ class_from_map r | suc k ↦ suc k ]
]

unfoldable pub severity_of : Raw → ℕ
severity_of r =
    let s = or_else r.severity_label "DEGRADED" in
    if str_eq s "NOMINAL"
    then 0
    else if str_eq s "WARNING"
    then 1
    else if str_eq s "DEGRADED"
    then 2
    else if str_eq s "CRITICAL"
    then 3
    else 2

-- `none` for a session whose resolution is not final. `now` is `time.time()`.
unfoldable pub transform : ℕ → Raw → Option Payload
transform now r =
    if is_final r.resolution
    then some (record {
      session_id = r.session_id;
      timestamp = or_else r.timestamp now;
      features = record {
        rtt_mean_ms = r.latency_ms;
        rtt_jitter_ms = r.jitter_ms;
        packet_loss_rate = r.loss_pct * 10;
        retransmit_rate = r.loss_pct * 8;
        bandwidth_utilization = if ltb 0 r.bandwidth_kbps then 1000000 else 300000;
        connection_error_rate = r.loss_pct * 5;
        anomaly_score = min 100 (r.latency_ms / 5 + r.loss_pct * 3 / 1000);
        healing_latency_ms = r.healing_latency_ms;
        auto_healed = if str_eq (or_else r.resolution "") "HEALED" then 1 else 0;
      };
      fault_class = fault_class r;
      severity = severity_of r;
      fault_type = or_else r.fault_type "latency";
      healed = r.healing_triggered;
      profile_name = r.profile_name;
      duration_seconds = r.duration_seconds;
      sample_count = r.sample_count;
    })
    else none

unfoldable pub is_member : String → List String → Bool
is_member k [] = false
is_member k (j ∷ js) = str_eq j k || is_member k js

-- `processed` is `_processed_ids`, latest first; `accepted` are the record ids that the ML service
-- took, and `posts` counts the requests.
pub record Bridge : Type 0 where
  pub processed : List String
  pub accepted : List String
  pub posts : ℕ

-- A file as it is found: its name's hash, and the object unless it cannot be read. `takes` is
-- whether a request would be answered with status 200.
pub record File : Type 0 where
  pub hash : String
  pub raw : Option Raw
  pub takes : Bool

unfoldable pub record_id : File → Raw → String
record_id f r = or_else r.session_id f.hash

unfoldable pub post_record : String → Bool → Bridge → Bool × Bridge
post_record id takes b = (
  takes,
  record b {
    processed = if takes then id ∷ b.processed else b.processed;
    accepted = if takes then id ∷ b.accepted else b.accepted;
    posts = b.posts + 1;
  },
)

-- The answer of `ingest_file`. The append to the log of processed ids is taken to succeed.
unfoldable pub ingest_file : ℕ → File → Bridge → Bool × Bridge
ingest_file now f b = elim f.raw [
  | none ↦ (false, b)
  | some r ↦ if is_member (record_id f r) b.processed then (true, b) else elim (transform now r) [
    | none ↦ (false, b)
    | some p ↦ post_record (record_id f r) f.takes b
  ]
]

-- One round of `_poll_loop` over the files that are there, in the order of their names.
unfoldable pub poll : ℕ → List File → Bridge → Bridge
poll now [] b = b
poll now (f ∷ fs) b = poll now fs (ingest_file now f b).1
