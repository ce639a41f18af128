-- ===== src/Sre/Executor.antt =====
-- sre-operations-05/sre/runbooks/executor.py: one run of a runbook, in the thread of its own that
-- `execute_for_incident` starts.
--
-- What the run asks of the world comes from an `Env`: the n-th reading of the clock (nanoseconds),
-- what the n-th shell command does, and whether the first notification raises. The other callbacks
-- are called inside `try` blocks that swallow what they raise. Nothing else that `_execute_step`
-- calls can raise, so its `except` branches are never taken. Waits (`time.sleep`) show in the
-- clock alone.
mod State
pub mod Steps
pub mod Runs
pub mod Timeouts
use nimbus_net.Prelude.{
  ℕ, zero, suc, ◌+◌, ◌-◌, ◌*◌, ◌/◌, min, String, Bool, true, false, ◌&&◌, ◌||◌, not, Option, none,
  some, List, [], ◌∷◌, ◌++◌, ltb, str_eq, if◌then◌else◌, length, Dict, lookup, insert, remove,
}
use nimbus_net.Prelude.Text.{codes, starts_with, contains_lower, replace, ◌++ₛ◌}
use nimbus_net.Sre.Types.{
  Incident, Runbook, RunbookStep, RunbookResult, RunbookStatus, running, success, failed, timeout,
  skipped, Failure, nothing, deadline_exceeded, verification_failed, command_failed,
  preconditions_not_met, ttl_exceeded, step_failed, not_confirmed, raised,
}
use nimbus_net.Sre.Library.{select_runbook}
use nimbus_net.Sre.Incidents.{
  Wiring, Manager, record_runbook_started, record_runbook_progress, record_runbook_result,
}
pub use State.*

module _ (e : Env) where
  unfoldable pub clock : World → ℕ × World
  clock w = (e.now w.reads, record w { reads = w.reads + 1 })

  -- `context` after the substitution of `{key}` by each value in turn
  substitute : List (String × String) → String → String
  unfolding replace
  substitute [] command = command
  substitute ((key, value) ∷ context) command =
      substitute context (replace ("{" ++ₛ key ++ₛ "}") value command)

  -- A command for the internal API is not sent anywhere and counts as done.
  unfoldable pub run_command : String → ℕ → List (String × String) → World → String × Bool × World
  unfolding substitute starts_with
  run_command command timeout_s context w =
      let c = substitute context command in
      if starts_with (codes "POST /api/") (codes c)
      then ("ok", true, w)
      else ran (e.shell w.runs c timeout_s) (record w { runs = w.runs + 1 })

  -- The expression is not evaluated: any output without "error" in it passes.
  unfoldable pub run_verify : String → Bool
  run_verify output =
      if e.dry_run then true else not (str_eq output "") && not (contains_lower "error" output)

  -- One round of the loop over the attempts, `last` if `attempt == step.retries`; `again` is where
  -- the loop goes on. The timeout is in whole seconds, and one that has passed is 0 here:
  -- `subprocess.run` ends at once for it as for a negative one.
  unfoldable pub attempt : Bool → Incident → ℕ → RunbookStep → World → Tried × World
  unfolding clock
  attempt last i deadline step w =
      let (t, w1) = clock w in
      let (t2, w2) = clock w1 in
      let (output, ok, w3) =
        run_command (or_text step.command "true") (min step.timeout_s ((deadline - t2) / second_ns))
          (context_of i) w2 in
      let step1 = record step { output = output } in
      if ltb deadline t
      then (done (record step { status = timeout; error = deadline_exceeded }), w1)
      else if e.dry_run
      then (done (record step { output = "[dry-run]"; status = success }), w1)
      else if not ok
      then (if last
          then (done (record step1 { status = failed; error = command_failed step.retries }), w3)
          else (again step1, w3))
      else if is_given step.verify && not (run_verify output)
      then (if last
          then (done (record step1 { status = failed; error = verification_failed }), w3)
          else (again step1, w3))
      else (done (record step1 { status = success }), w3)

  -- The loop with `left` retries to go.
  unfoldable pub attempts : ℕ → Incident → ℕ → RunbookStep → World → RunbookStep × World
  unfolding attempt
  attempts zero i deadline step w = let (r, w1) = attempt true i deadline step w in (settled r, w1)
  attempts (suc left) i deadline step w =
      let (r, w1) = attempt false i deadline step w in proceed (attempts left i deadline) r w1

  -- The rollback of a failed step; what it does is not looked at.
  unfoldable pub roll_back : Incident → RunbookStep → World → World
  roll_back i step w =
      if is_failed step.status && (is_given step.rollback && not e.dry_run)
      then (run_command (or_text step.rollback "") 60 (("region", i.region) ∷ []) w).2
      else w

  unfoldable pub execute_step : RunbookStep → Incident → ℕ → World → RunbookStep × World
  unfolding clock attempts roll_back
  execute_step step i deadline w =
      let (t, w1) = clock w in
      let (s, w2) =
        attempts step.retries i deadline (record step { started_at = some t; status = running })
          w1 in
      let (t2, w3) = clock w2 in
      let s1 = record s { completed_at = some t2 } in (s1, roll_back i s1 w3)

  -- Logged, and taken for granted.
  unfoldable pub check_preconditions : Runbook → Bool
  check_preconditions rb = true

  unfoldable pub run_final_verification : Runbook → Bool
  run_final_verification rb =
      if e.dry_run || not (is_given rb.verification_query) then true else true

  -- The result as the hook gets it, and the world afterwards.
  unfoldable pub finish : Incident → RunbookResult → World → RunbookResult × World
  unfolding clock
  finish i result w =
      let (t, w1) = clock w in
      let r = record result { completed_at = t } in
      (
        r,
        record w1 {
          manager = record_runbook_result e.wiring i.region r w1.manager;
          fsm =
              w1.fsm
              ++ (if is_success r.status
                  then runbook_succeeded i.region
                  else runbook_failed i.region)
                ∷ [];
          hooks = if e.has_hook then w1.hooks ++ r ∷ [] else w1.hooks;
          active_runs = remove i.region w1.active_runs;
        },
      )

  -- The loop over the steps; `true` if it returned from inside the `try` block, after a `_finish`.
  unfoldable pub run_steps :
      List RunbookStep
      → Incident
      → Runbook
      → ℕ
      → RunbookResult
      → World
      → Bool × RunbookResult × World
  unfolding clock
  run_steps [] i rb deadline result w = (false, result, w)
  run_steps (step ∷ steps) i rb deadline result w =
      let (t, w1) = clock w in
      let late =
        finish i (record result { status = timeout; error = ttl_exceeded rb.ttl_s step.number })
          w1 in
      let (s, w2) = execute_step step i deadline w1 in
      let r = record result {
        step_results = result.step_results ++ s ∷ [];
        steps_completed = result.steps_completed + 1;
      } in
      let w3 = record w2 {
        manager = record_runbook_progress e.wiring i.region r.steps_completed w2.manager;
      } in
      let broken =
        finish i (record r { status = failed; error = step_failed step.number step.title s.error })
          w3 in
      let rest = run_steps steps i rb deadline r w3 in
      if ltb deadline t
      then (true, late.0, late.1)
      else if is_failed s.status
      then (true, broken.0, broken.1)
      else rest

  -- `status` and `error` of a run whose loop went through.
  unfoldable pub verify_run : Runbook → RunbookResult → RunbookResult
  unfolding run_final_verification
  verify_run rb result =
      if run_final_verification rb
      then record result { verified = true; status = success }
      else record result { verified = false; status = failed; error = not_confirmed }

  -- The `try` block up to its end, an early return or an exception.
  unfoldable pub run_body : Incident → Runbook → ℕ → RunbookResult → World → RunbookResult × World
  unfolding check_preconditions
  run_body i rb started_at result w =
      let w1 = record w { fsm = w.fsm ++ runbook_started i.region ∷ [] } in
      let w2 = record w1 {
        manager = record_runbook_started e.wiring i.region rb.id (length rb.steps) w1.manager;
      } in
      let (early, r, w3) = run_steps rb.steps i rb (started_at + rb.ttl_s * second_ns) result w2 in
      elim e.started_raises [
        | some message ↦ (record result { status = failed; error = raised message }, w)
        | none ↦
            if not (check_preconditions rb)
            then finish i (record result { status = skipped; error = preconditions_not_met }) w2
            else if early
            then (r, w3)
            else (verify_run rb r, w3)
      ]

  -- `_run`: the `finally` clause finishes whatever the `try` block did.
  unfoldable pub run : Incident → Runbook → World → RunbookResult × World
  unfolding clock
  run i rb w =
      let (started_at, w1) = clock w in
      let (r, w2) =
        run_body i rb started_at
          (record {
            runbook_id = rb.id;
            incident_id = i.id;
            region = i.region;
            status = running;
            started_at = started_at;
            completed_at = started_at;
            steps_completed = 0;
            steps_total = length rb.steps;
            step_results = [];
            error = nothing;
            verified = false;
          })
          w1 in
      finish i r w2

-- `execute_for_incident`: the runbook that a new thread is given, if one is started. `alive` is
-- whether the thread that the region's entry names still runs.
unfoldable pub execute_for_incident : Bool → Incident → World → Option Runbook × World
execute_for_incident alive i w =
    let started : Option Runbook × World = (
      select_runbook i.fault_type,
      record w { active_runs = insert i.region (length w.active_runs) w.active_runs },
    ) in
    elim (lookup i.region w.active_runs) [
      | none ↦ started
      | some thread ↦ if alive then (none, w) else started
    ]
