-- ===== src/Sre/Executor/Steps.antt =====
-- One step of a runbook (sre-operations-05/sre/runbooks/executor.py, `_execute_step`).
use nimbus_net.Prelude.{
  ℕ, zero, suc, ◌+◌, ◌≤◌, ◌≡◌, ◌⊎◌, String, Bool, true, false, arith, some, List,
}
use nimbus_net.Sre.Types.{Incident, RunbookStep, running, success, failed, timeout, RunbookStatus}
use nimbus_net.Sre.Executor.{
  Env, World, Outcome, exited, expired, broke, ran, Tried, done, again, clock, run_command, attempt,
  settled, proceed, attempts, roll_back, execute_step,
}

-- What a step can change in the world: the counts of clock readings and of commands.
pub record IsQuiet (n : ℕ) (v w : World) : Type 0 where
  pub manager : w.manager ≡ v.manager
  pub fsm : w.fsm ≡ v.fsm
  pub hooks : w.hooks ≡ v.hooks
  pub active_runs : w.active_runs ≡ v.active_runs
  pub runs : w.runs ≤ v.runs + n

abbrev pub IsSettled : RunbookStatus → Type 0
IsSettled s = (s ≡ success) ⊎ ((s ≡ failed) ⊎ (s ≡ timeout))

module _ (e : Env) where
  ran-IsQuiet : (o : Outcome) (w : World) → IsQuiet 0 w (ran o w).2
  ran-IsQuiet (exited s b) w = ground arith
  ran-IsQuiet expired w = ground arith
  ran-IsQuiet (broke s) w = ground arith

  run_command-IsQuiet :
      (c : String) (t : ℕ) (context : List (String × String)) (w : World)
      → IsQuiet 1 w (run_command e c t context w).2
  unfolding run_command
  run_command-IsQuiet c t context w = ground arith

-- A round ends with a final status, or it goes on, and then it was not the last.
abbrev Settles : Bool → Tried → Type 0
Settles last (done s) = IsSettled s.status
Settles last (again s) = last ≡ false

module _ (e : Env) (i : Incident) (deadline : ℕ) where
  attempt-IsQuiet :
      (last : Bool) (step : RunbookStep) (w : World)
      → IsQuiet 1 w (attempt e last i deadline step w).1
  unfolding attempt
  attempt-IsQuiet last step w = grind (arith, run_command-IsQuiet e)

  attempt-Settles :
      (last : Bool) (step : RunbookStep) (w : World)
      → Settles last (attempt e last i deadline step w).0
  unfolding attempt
  attempt-Settles last step w = ground arith

  settled-IsSettled : (r : Tried) → Settles true r → IsSettled (settled r).status
  settled-IsSettled (done s) h = h
  settled-IsSettled (again s) h = cc

  proceed-IsQuiet :
      (left : ℕ) (rest : RunbookStep → World → RunbookStep × World) (t : Tried) (v w : World)
      → IsQuiet 1 v w
      → ((s : RunbookStep) (w' : World) → IsQuiet left w' (rest s w').1)
      → IsQuiet (suc left) v (proceed rest t w).1
  proceed-IsQuiet left rest (done s) v w h k = ground arith
  proceed-IsQuiet left rest (again s) v w h k = ground (arith, k s w)

  proceed-IsSettled :
      (rest : RunbookStep → World → RunbookStep × World) (t : Tried) (w : World)
      → Settles false t
      → ((s : RunbookStep) (w' : World) → IsSettled (rest s w').0.status)
      → IsSettled (proceed rest t w).0.status
  proceed-IsSettled rest (done s) w h k = h
  proceed-IsSettled rest (again s) w h k = k s w

  attempts-IsQuiet :
      (left : ℕ) (step : RunbookStep) (w : World)
      → IsQuiet (suc left) w (attempts e left i deadline step w).1
  unfolding attempts
  attempts-IsQuiet zero step w = attempt-IsQuiet true step w
  attempts-IsQuiet (suc left) step w =
      proceed-IsQuiet (suc left) (attempts e left i deadline) (attempt e false i deadline step w).0
        w (attempt e false i deadline step w).1 (attempt-IsQuiet false step w)
        (attempts-IsQuiet left)

  attempts-IsSettled :
      (left : ℕ) (step : RunbookStep) (w : World)
      → IsSettled (attempts e left i deadline step w).0.status
  unfolding attempts
  attempts-IsSettled zero step w = settled-IsSettled _ (attempt-Settles true step w)
  attempts-IsSettled (suc left) step w =
      proceed-IsSettled (attempts e left i deadline) (attempt e false i deadline step w).0
        (attempt e false i deadline step w).1 (attempt-Settles false step w)
        (attempts-IsSettled left)

  roll_back-IsQuiet : (s : RunbookStep) (w : World) → IsQuiet 1 w (roll_back e i s w)
  unfolding roll_back
  roll_back-IsQuiet s w = grind (arith, run_command-IsQuiet e)

  -- A step runs its command at most once for each attempt, of which there are one more than its
  -- retries, and its rollback at most once; it ends with success, failure or a timeout, and changes
  -- nothing of the incidents, the notices and the hooks.
  pub execute_step_bounded :
      (step : RunbookStep) (w : World)
      → IsSettled (execute_step e step i deadline w).0.status
        × IsQuiet (step.retries + 2) w (execute_step e step i deadline w).1
  unfolding execute_step clock
  execute_step_bounded step w =
      let begun = record step { started_at = some (e.now w.reads); status = running } in
      let w1 = record w { reads = w.reads + 1 } in
      let (s, w2) = attempts e step.retries i deadline begun w1 in
      (
        attempts-IsSettled step.retries begun w1,
        ground (
          arith,
          attempts-IsQuiet step.retries begun w1,
          roll_back-IsQuiet (record s { completed_at = some (e.now w2.reads) })
              (record w2 { reads = w2.reads + 1 }),
        ),
      )
