-- ===== src/Tests/Control.antt =====
-- The control of a game day at concrete inputs (integration-07/gameday-control/controller.py).
use nimbus_net.Prelude.{◌≤◌, ◌≡◌, ◌⊎◌, refl, arith, true, false, none, [], ◌∷◌}
use nimbus_net.GameDay.{
  running, paused, SessionControl, Handle, Files, Env, Waiting, is_paused, hold, write_control,
  resume, register_session, wait_if_paused,
}
use nimbus_net.GameDay.Signals.{
  IsInStep, pauses, resumes, polls, updates, finishes, moves, moves-IsInStep,
}
use nimbus_net.GameDay.Pauses.{wait_if_paused_ends}

abbrev no_files : Files
no_files = record { control = none; signal = none; notices = [] }

abbrev session : Handle
session = register_session "gd-1" 4 1000 no_files

session-IsInStep : IsInStep session
unfolding IsInStep register_session write_control
session-IsInStep = refl

abbrev session_control : SessionControl
session_control = record session.ctrl { pause_reason = "" }

session_running : session.ctrl.state ≡ running
unfolding register_session
session_running = refl

moves-IsInStep_example : IsInStep (
    moves
      (updates "high_latency" 1 3 ∷ pauses "alert" 5 ∷ polls ∷ resumes 9 ∷ polls ∷ finishes ∷ [])
      session)
moves-IsInStep_example =
    moves-IsInStep
      (updates "high_latency" 1 3 ∷ pauses "alert" 5 ∷ polls ∷ resumes 9 ∷ polls ∷ finishes ∷ [])
      session session-IsInStep

-- The operators resume the session during the second sleep.
abbrev env : Env
env = record { drift = λ n. 1; delay = λ n. 3; operators = λ n f. (resume n f).1 }

abbrev waiting : Waiting
waiting = record {
  time = 1000;
  reads = 0;
  sleeps = 0;
  handle = hold (record session.ctrl { state = paused }) no_files;
}

wait_if_paused_ends_example :
    ((wait_if_paused env 1000 5000 waiting).0 ≡ true)
    × ((is_paused (wait_if_paused env 1000 5000 waiting).1.handle.ctrl.state ≡ false)
        ⊎ (6000 ≤ (wait_if_paused env 1000 5000 waiting).1.time))
wait_if_paused_ends_example = wait_if_paused_ends env 1000 5000 waiting (omega arith)
