-- ===== src/Sre/Library/Selection.antt =====
-- What `select_runbook` of sre-operations-05/sre/runbooks/library.py chooses.
use nimbus_net.Prelude.{◌≡◌, ◌≢◌, refl, String, some, arith, eq_iff, lookup}
use nimbus_net.Sre.Library.{
  rb_001_region_failover, rb_002_ml_degradation, rb_003_cold_standby, runbook_id, select_runbook,
}

id_ml : runbook_id "ML_MODEL_DEGRADED" ≡ "RB-002"
unfolding runbook_id lookup
id_ml = refl

id_dual : runbook_id "DUAL_REGION_FAILURE" ≡ "RB-003"
unfolding runbook_id lookup
id_dual = refl

id_other :
    (f : String) → f ≢ "ML_MODEL_DEGRADED" → f ≢ "DUAL_REGION_FAILURE" → runbook_id f ≡ "RB-001"
unfolding runbook_id lookup
id_other f a b = ground (arith, eq_iff "ML_MODEL_DEGRADED" f, eq_iff "DUAL_REGION_FAILURE" f)

-- The selection never fails. A degraded model gets RB-002, a failure of two regions RB-003, and
-- every other fault type, known or not, the region failover RB-001.
pub select_runbook_total :
    (fault_type : String)
    → (fault_type ≡ "ML_MODEL_DEGRADED" → select_runbook fault_type ≡ some rb_002_ml_degradation)
      × (fault_type ≡ "DUAL_REGION_FAILURE" → select_runbook fault_type ≡ some rb_003_cold_standby)
      × (fault_type ≢ "ML_MODEL_DEGRADED"
          → fault_type ≢ "DUAL_REGION_FAILURE"
          → select_runbook fault_type ≡ some rb_001_region_failover)
unfolding select_runbook lookup
select_runbook_total f = (λ e. rw (e, id_ml), λ e. rw (e, id_dual), λ a b. rw (id_other f a b))
