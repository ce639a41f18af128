-- ===== src/Chaos/Bridge/Records.antt =====
-- What `_transform` of chaos-ci-gate-06/flywheel/bridge.py makes of a session.
use nimbus_net.Prelude.{ℕ, ◌≤◌, ◌<◌, ◌≡◌, ◌↔◌, ◌⊎◌, false, arith, none, some, lookup}
use nimbus_net.Chaos.Bridge.{
  Raw, Payload, or_else, is_final, class_from_map, fault_class, severity_of, transform,
}

class_from_map-le : (r : Raw) → class_from_map r ≤ 3
unfolding class_from_map lookup
class_from_map-le r = ground arith

-- A record is made exactly for a session with a final resolution, and what it holds is in range:
-- an anomaly score of at most 100, a severity of at most 3, a fault class of at most 3 where the
-- label of the session is none above 3.
pub transform_range :
    (now : ℕ) (r : Raw)
    → ((transform now r ≡ none) ↔ (is_final r.resolution ≡ false))
      × ((p : Payload)
          → transform now r ≡ some p
          → (p.features.anomaly_score ≤ 100)
            × (p.severity ≤ 3)
            × (or_else r.fault_class_label 0 ≤ 3 → p.fault_class ≤ 3))
unfolding transform severity_of fault_class
transform_range now r = (ground arith, λ p made. ground (arith, class_from_map-le r))

-- The class is the session's own label, unless that is missing or 0: a session labelled 0 gets the
-- class of its fault type, as one without a label does.
pub fault_class_label_zero :
    (r : Raw) (n : ℕ)
    → ((r.fault_class_label ≡ none) ⊎ (r.fault_class_label ≡ some 0)
        → fault_class r ≡ class_from_map r)
      × (r.fault_class_label ≡ some n → 0 < n → fault_class r ≡ n)
unfolding fault_class
fault_class_label_zero r n = (ground arith, ground arith)
