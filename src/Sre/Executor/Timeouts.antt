-- ===== src/Sre/Executor/Timeouts.antt =====
-- A step that runs out of time in the loop of sre-operations-05/sre/runbooks/executor.py.
use nimbus_net.Prelude.{
  ℕ, zero, suc, ◌+◌, ◌*◌, ◌≤◌, ◌<◌, ◌≡◌, false, arith, none, ◌∷◌, [], some, map, ◌++◌,
}
use nimbus_net.Sre.Types.{
  Incident, Runbook, RunbookStep, RunbookResult, success, timeout, running, deadline_exceeded,
}
use nimbus_net.Sre.Executor.Runs.{begun, prepared, run_through}
use nimbus_net.Sre.Executor.{
  Env, World, second_ns, clock, attempt, attempts, roll_back, execute_step, finish, run_steps, run,
  verify_run, run_final_verification,
}

module _ (e : Env) (i : Incident) where
  -- However many retries a step has, it times out at the first attempt that starts too late.
  attempts_late :
      (left deadline : ℕ) (step : RunbookStep) (w : World)
      → deadline < e.now w.reads
      → attempts e left i deadline step w ≡ (
        record step { status = timeout; error = deadline_exceeded },
        record w { reads = w.reads + 1 },
      )
  unfolding attempts attempt clock
  attempts_late zero deadline step w late = ground arith
  attempts_late (suc left) deadline step w late = ground arith

  execute_step_late :
      (deadline : ℕ) (step : RunbookStep) (w : World)
      → deadline < e.now (w.reads + 1)
      → (execute_step e step i deadline w).0.status ≡ timeout
  unfolding execute_step clock roll_back
  execute_step_late deadline step w late = ground (
    arith,
    attempts_late step.retries deadline
        (record step { started_at = some (e.now w.reads); status = running })
        (record w { reads = w.reads + 1 }),
  )

  steps_late :
      (rb : Runbook) (deadline : ℕ) (step : RunbookStep) (r0 : RunbookResult) (w : World)
      → e.now w.reads ≤ deadline
      → deadline < e.now (w.reads + 2)
      → (s : RunbookStep) × ((run_steps e (step ∷ []) i rb deadline r0 w).0 ≡ false)
        × ((run_steps e (step ∷ []) i rb deadline r0 w).1.step_results ≡ r0.step_results ++ s ∷ [])
        × (s.status ≡ timeout)
  unfolding run_steps clock
  steps_late rb deadline step r0 w soon late =
      let w1 = record w { reads = w.reads + 1 } in
      (
        (execute_step e step i deadline w1).0,
        ground (arith, execute_step_late deadline step w1),
        ground (arith, execute_step_late deadline step w1),
        ground (arith, execute_step_late deadline step w1),
      )

  -- A runbook of one step that starts in time and then finds its deadline passed before the first
  -- attempt is a success: only a failed step ends a run, and a step that timed out is none.
  pub timeout_counts_as_success :
      (rb : Runbook) (step : RunbookStep) (w : World)
      → e.started_raises ≡ none
      → e.now (w.reads + 1) ≤ e.now w.reads + rb.ttl_s * second_ns
      → e.now w.reads + rb.ttl_s * second_ns < e.now (w.reads + 3)
      → ((run e i (record rb { steps = step ∷ [] }) w).0.status ≡ success)
        × (map (λ s. s.status) (run e i (record rb { steps = step ∷ [] }) w).0.step_results
            ≡ timeout ∷ [])
  unfolding finish verify_run run_final_verification
  timeout_counts_as_success rb step w calm soon late =
      let rb1 = record rb { steps = step ∷ [] } in
      let (s, through, results, expired) =
        steps_late rb1 (e.now w.reads + rb.ttl_s * second_ns) step (begun e i rb1 w)
          (prepared e i rb1 w) soon (ground arith) in
      rw (run_through e i rb1 w calm through) (ground arith, ground arith)
