-- ===== src/Chaos/Budget/Gate.antt =====
-- The thresholds of chaos-ci-gate-06/ci/budget_enforcer.py.
use nimbus_net.Prelude.{◌≤◌, ◌<◌, ◌≡◌, ◌↔◌, true, arith, [], ◌∷◌, none}
use nimbus_net.Chaos.Budget.{
  Sources, unreachable, allow, warn_only, freeze, read_consumed_pct, check, gate, freeze_threshold,
  warn_threshold, critical_threshold, entry_of,
}

-- The decision by the consumed budget: below 60% allow, from 60% and below 80% allow with a
-- warning, from 80% on freeze. The gate lets a deployment through exactly below 80%, and pages the
-- SRE, once and with the status, exactly from 95% on.
pub gate_thresholds :
    (s : Sources)
    → (((check s).decision ≡ allow) ↔ (read_consumed_pct s < warn_threshold))
      × (((check s).decision ≡ warn_only)
          ↔ (warn_threshold ≤ read_consumed_pct s) × (read_consumed_pct s < freeze_threshold))
      × (((check s).decision ≡ freeze) ↔ (freeze_threshold ≤ read_consumed_pct s))
      × (((gate s).0 ≡ true) ↔ (read_consumed_pct s < freeze_threshold))
      × (((gate s).1 ≡ check s ∷ []) ↔ (critical_threshold ≤ read_consumed_pct s))
      × (((gate s).1 ≡ []) ↔ (read_consumed_pct s < critical_threshold))
unfolding gate check
gate_thresholds s =
    (ground arith, ground arith, ground arith, ground arith, ground arith, ground arith)

-- The gate fails open: if the first reading of the state file gives no number and Prometheus cannot
-- be reached, nothing counts as consumed and the deployment is allowed, with nobody paged.
pub gate_fails_open :
    (s : Sources)
    → entry_of (λ f. f.consumed_pct) s.first_read ≡ none
    → s.prometheus ≡ unreachable
    → (read_consumed_pct s ≡ 0) × ((check s).decision ≡ allow) × (gate s ≡ (true, []))
unfolding gate check read_consumed_pct
gate_fails_open s unread down = (ground arith, ground arith, ground arith)
