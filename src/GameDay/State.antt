-- ===== src/GameDay/State.antt =====
-- integration-07/gameday-control/controller.py: the session, the commands and the two files. Times
-- are milliseconds. `last_update` is written and never read.
use nimbus_net.Prelude.{ℕ, String, Bool, true, false, Option, List}

pub data SessionState : Type 0 where
  idle running paused aborted complete : SessionState

pub record SessionControl : Type 0 where
  pub session_id : String
  pub state : SessionState
  pub current_scenario : String
  pub current_phase : ℕ
  pub total_phases : ℕ
  pub scenarios_completed : List String
  pub abort_reason : String
  pub pause_reason : String
  pub start_time : ℕ

pub data Command : Type 0 where
  abort_command pause_command resume_command skip_command : Command

pub record Signal : Type 0 where
  pub command : Command
  pub reason : String
  pub ts : ℕ

-- `none` is a file that is not there; a signal that cannot be parsed is `some none`. `notices` are
-- the messages to the SREs.
pub record Files : Type 0 where
  pub control : Option SessionControl
  pub signal : Option (Option Signal)
  pub notices : List String

-- `SessionHandle`: the session that the orchestrator holds, with the files as they are.
pub record Handle : Type 0 where
  pub ctrl : SessionControl
  pub files : Files

abbrev pub is_running : SessionState → Bool
is_running running = true
is_running _ = false

abbrev pub is_paused : SessionState → Bool
is_paused paused = true
is_paused _ = false
