-- ===== src/Sre/Executor/State.antt =====
-- What a run of sre-operations-05/sre/runbooks/executor.py reads and changes, and the tests that it
-- makes on statuses and texts.
use nimbus_net.Prelude.{
  ℕ, String, Bool, true, false, not, Option, none, some, List, [], ◌∷◌, str_eq, if◌then◌else◌, Dict,
}
use nimbus_net.Sre.Types.{Incident, RunbookStep, RunbookResult, RunbookStatus, success, failed}
use nimbus_net.Sre.Incidents.{Wiring, Manager}

-- What `subprocess.run` does.
pub data Outcome : Type 0 where
  exited : String → Bool → Outcome
  expired : Outcome
  broke : String → Outcome

pub record Env : Type 0 where
  pub now : ℕ → ℕ
  pub shell : ℕ → String → ℕ → Outcome
  pub started_raises : Option String
  pub dry_run : Bool
  pub has_hook : Bool
  pub wiring : Wiring

pub data FsmNotice : Type 0 where
  runbook_started runbook_succeeded runbook_failed : String → FsmNotice

-- `reads` and `runs` count the clock readings and the shell commands so far; `hooks` are the calls
-- of `on_complete`, `active_runs` the regions that have an entry.
pub record World : Type 0 where
  pub manager : Manager
  pub reads : ℕ
  pub runs : ℕ
  pub fsm : List FsmNotice
  pub hooks : List RunbookResult
  pub active_runs : Dict ℕ

-- A round of the attempts is over, or the loop goes on.
pub data Tried : Type 0 where
  done again : RunbookStep → Tried

abbrev pub second_ns : ℕ
second_ns = 1000000000

abbrev pub or_text : Option String → String → String
or_text none d = d
or_text (some s) d = if str_eq s "" then d else s

-- `if step.verify:` and the like: a missing text and an empty one are false.
abbrev pub is_given : Option String → Bool
is_given none = false
is_given (some s) = not (str_eq s "")

abbrev pub ran : Outcome → World → String × Bool × World
ran (exited output ok) w = (output, ok, w)
ran expired w = ("TIMEOUT", false, w)
ran (broke message) w = (message, false, w)

abbrev pub context_of : Incident → List (String × String)
context_of i = ("region", i.region) ∷ ("incident_id", i.id) ∷ []

abbrev pub settled : Tried → RunbookStep
settled (done s) = s
settled (again s) = s

-- The next rounds are asked for only if this one did not end the loop.
abbrev pub proceed :
    (RunbookStep → World → RunbookStep × World) → Tried → World → RunbookStep × World
proceed rest (done s) w = (s, w)
proceed rest (again s) w = rest s w

abbrev pub is_failed : RunbookStatus → Bool
is_failed failed = true
is_failed _ = false

abbrev pub is_success : RunbookStatus → Bool
is_success success = true
is_success _ = false
