-- ===== src/Sre/Executor/Runs.antt =====
-- A whole run of a runbook (sre-operations-05/sre/runbooks/executor.py, `_run`): how often it is
-- finished, and what its result says.
use nimbus_net.Prelude.{
  ℕ, ◌+◌, ◌*◌, ◌≡◌, ◌≢◌, refl, ◌⊎◌, String, Bool, true, false, arith, some, none, List, ◌∷◌, [],
  ◌++◌, Bool-cases, inl, inr, length, length-append, if◌then◌else◌, ltb,
}
use nimbus_net.Sre.Types.{
  Incident, Runbook, RunbookStep, RunbookResult, success, failed, timeout, running, nothing, raised,
  ttl_exceeded, step_failed,
}
use nimbus_net.Sre.Executor.{
  Env, World, runbook_started, runbook_succeeded, runbook_failed, clock, execute_step, finish,
  is_failed, is_success, second_ns, run_steps, run_body, run, verify_run,
}
use nimbus_net.Sre.Incidents.{record_runbook_progress, record_runbook_started}
use nimbus_net.Sre.Executor.Steps.{execute_step_bounded}

-- What the loop over the steps has done: either it went through, told nobody and finished nothing,
-- and no step that it ran failed; or it returned early, and then it finished the run once, with a
-- failure or a timeout.
record Looped (i : Incident) (hooked : Bool) (r0 : RunbookResult) (n : ℕ) (v : World) (early : Bool)
    (r : RunbookResult) (w : World) : Type 0 where
  hooks : length w.hooks ≡ length v.hooks + (if early then (if hooked then 1 else 0) else 0)
  fsm : w.fsm ≡ (if early then v.fsm ++ runbook_failed i.region ∷ [] else v.fsm)
  early_status : early ≡ true → (r.status ≡ failed) ⊎ (r.status ≡ timeout)
  through : early ≡ false → r.steps_completed ≡ r0.steps_completed + n
  total : r.steps_total ≡ r0.steps_total

module _ (e : Env) (i : Incident) (rb : Runbook) (deadline : ℕ) where
  -- An early return after a world in which nothing was finished.
  finished :
      (n : ℕ) (r0 r : RunbookResult) (v w : World)
      → w.hooks ≡ v.hooks
      → w.fsm ≡ v.fsm
      → r.steps_total ≡ r0.steps_total
      → (r.status ≡ failed) ⊎ (r.status ≡ timeout)
      → Looped i e.has_hook r0 n v true (finish e i r w).0 (finish e i r w).1
  unfolding finish clock
  finished n r0 r v w hooks fsm total bad = record {
    hooks = ground (arith, length-append v.hooks ((finish e i r w).0 ∷ []));
    fsm = ground arith;
    early_status = λ _. ground arith;
    through = λ x. cc;
    total = ground arith;
  }

  run_steps-Looped :
      (steps : List RunbookStep) (r0 : RunbookResult) (w : World)
      → Looped i e.has_hook r0
          (length steps)
          w
          (run_steps e steps i rb deadline r0 w).0
          (run_steps e steps i rb deadline r0 w).1
          (run_steps e steps i rb deadline r0 w).2
  unfolding run_steps clock
  run_steps-Looped [] r0 w = ground arith
  run_steps-Looped (step ∷ steps) r0 w =
      let w1 = record w { reads = w.reads + 1 } in
      let s = (execute_step e step i deadline w1).0 in
      let w2 = (execute_step e step i deadline w1).1 in
      let quiet = execute_step_bounded e i deadline step w1 in
      let r = record r0 {
        step_results = r0.step_results ++ s ∷ [];
        steps_completed = r0.steps_completed + 1;
      } in
      let w3 = record w2 {
        manager = record_runbook_progress e.wiring i.region r.steps_completed w2.manager;
      } in
      elim (Bool-cases (ltb deadline (e.now w.reads))) [
        | inl late ↦
            rw (late, run_steps)
              (finished _ r0
                (record r0 { status = timeout; error = ttl_exceeded rb.ttl_s step.number }) w w1
                refl refl refl (inr refl))
        | inr soon ↦ elim (Bool-cases (is_failed s.status)) [
          | inl bad ↦
              rw (soon, bad, run_steps)
                (finished _ r0
                  (record r { status = failed; error = step_failed step.number step.title s.error })
                  w w3 quiet.1.hooks quiet.1.fsm refl (inl refl))
          | inr good ↦
              rw (soon, good, run_steps)
                (ground (arith, quiet.1.hooks, quiet.1.fsm, run_steps-Looped steps r w3))
        ]
      ]

module _ (e : Env) (i : Incident) (rb : Runbook) (w : World) where
  -- the result and the deadline that the loop over the steps starts with
  abbrev pub begun : RunbookResult
  begun = record {
    runbook_id = rb.id;
    incident_id = i.id;
    region = i.region;
    status = running;
    started_at = e.now w.reads;
    completed_at = e.now w.reads;
    steps_completed = 0;
    steps_total = length rb.steps;
    step_results = [];
    error = nothing;
    verified = false;
  }

  abbrev pub prepared : World
  prepared = record w {
    reads = w.reads + 1;
    fsm = w.fsm ++ runbook_started i.region ∷ [];
    manager = record_runbook_started e.wiring i.region rb.id (length rb.steps) w.manager;
  }

  abbrev pub looped : Bool × RunbookResult × World
  looped = run_steps e rb.steps i rb (e.now w.reads + rb.ttl_s * second_ns) begun prepared

  run_early :
      e.started_raises ≡ none → looped.0 ≡ true → run e i rb w ≡ finish e i looped.1 looped.2
  unfolding run run_body clock
  run_early calm early = ground arith

  pub run_through :
      e.started_raises ≡ none
      → looped.0 ≡ false
      → run e i rb w ≡ finish e i (verify_run e rb looped.1) looped.2
  unfolding run run_body clock
  run_through calm early = ground arith

  pub finish_counts :
      (r : RunbookResult) (v : World)
      → ((finish e i r v).0.status ≡ r.status)
        × ((finish e i r v).0.steps_completed ≡ r.steps_completed)
        × (length (finish e i r v).1.hooks ≡ length v.hooks + (if e.has_hook then 1 else 0))
        × ((finish e i r v).1.fsm
            ≡ v.fsm
              ++ (if is_success r.status
                  then runbook_succeeded i.region
                  else runbook_failed i.region)
                ∷ [])
  unfolding finish clock
  finish_counts r v =
      (refl, refl, ground (arith, length-append v.hooks ((finish e i r v).0 ∷ [])), refl)

  -- How often a run is finished, if the FSM could be told of its start and a hook is set. A run
  -- that succeeds has run every step of the runbook, calls the postmortem hook once and tells the
  -- FSM once, of the success. Any other run calls the hook twice and tells the FSM of the failure
  -- twice: once before the early return and once more in the `finally` clause.
  pub run_finishes :
      e.started_raises ≡ none
      → e.has_hook ≡ true
      → ((run e i rb w).0.status ≡ success
          → ((run e i rb w).0.steps_completed ≡ length rb.steps)
            × (length (run e i rb w).1.hooks ≡ length w.hooks + 1)
            × ((run e i rb w).1.fsm
                ≡ (w.fsm ++ runbook_started i.region ∷ []) ++ runbook_succeeded i.region ∷ []))
        × ((run e i rb w).0.status ≢ success
            → (length (run e i rb w).1.hooks ≡ length w.hooks + 2)
              × ((run e i rb w).1.fsm
                  ≡ ((w.fsm ++ runbook_started i.region ∷ []) ++ runbook_failed i.region ∷ [])
                    ++ runbook_failed i.region ∷ []))
  unfolding verify_run
  run_finishes calm hooked = elim (Bool-cases looped.0) [
    | inl early ↦ rw (run_early calm early) (
        ground (
          arith,
          finish_counts looped.1 looped.2,
          run_steps-Looped e i rb (e.now w.reads + rb.ttl_s * second_ns) rb.steps begun prepared,
        ))
    | inr through ↦ rw (run_through calm through) (
        ground (
          arith,
          finish_counts (verify_run e rb looped.1) looped.2,
          run_steps-Looped e i rb (e.now w.reads + rb.ttl_s * second_ns) rb.steps begun prepared,
        ))
  ]

  -- If the FSM cannot be told of the start, no step runs: the run fails, and is finished once.
  pub run_not_started :
      (message : String)
      → e.started_raises ≡ some message
      → ((run e i rb w).0.status ≡ failed)
        × ((run e i rb w).0.error ≡ raised message)
        × ((run e i rb w).1.runs ≡ w.runs)
        × (length (run e i rb w).1.hooks ≡ length w.hooks + (if e.has_hook then 1 else 0))
        × ((run e i rb w).1.fsm ≡ w.fsm ++ runbook_failed i.region ∷ [])
  unfolding run run_body finish clock
  run_not_started message broken =
      rw (broken, run_body)
        (refl, refl, refl, ground (arith, length-append w.hooks ((run e i rb w).0 ∷ [])), refl)
