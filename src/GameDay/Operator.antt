-- ===== src/GameDay/Operator.antt =====
-- The command line of integration-07/gameday-control/controller.py. Of what `status` prints the
-- answer alone is kept.
use nimbus_net.Prelude.{ℕ, ◌≡◌, ◌⊎◌, arith, String, Bool, Option, none, some, if◌then◌else◌}
use nimbus_net.GameDay.{
  Files, Signal, SessionState, idle, abort_command, pause_command, resume_command, skip_command,
  abort, pause, resume, skip, read_control,
}

-- The state and the scenario of the session, if one can be read.
unfoldable pub status : Files → SessionState × Option String
unfolding read_control
status f = elim (read_control f) [
  | none ↦ (idle, none)
  | some c ↦ (c.state, some c.current_scenario)
]

-- A subcommand, with its reason if one was given.
pub data Subcommand : Type 0 where
  aborts pauses : Option String → Subcommand
  resumes skips shows_status shows_help : Subcommand

abbrev pub reason_or : String → Option String → String
reason_or d none = d
reason_or d (some reason) = reason

-- The exit code of a command that answers whether it was taken.
abbrev pub exits : Bool × Files → ℕ × Files
exits (success, f) = (if success then 0 else 1, f)

unfoldable pub run_command : Subcommand → ℕ → Files → ℕ × Files
run_command (aborts reason) now f = exits (abort (reason_or "Manual abort" reason) now f)
run_command (pauses reason) now f = exits (pause (reason_or "Manual pause" reason) now f)
run_command resumes now f = exits (resume now f)
run_command skips now f = exits (skip now f)
run_command shows_status now f = (0, f)
run_command shows_help now f = (0, f)

-- The signal file that a subcommand is meant to leave.
abbrev meant : Subcommand → ℕ → Files → Option (Option Signal)
meant (aborts reason) now f =
    some (
      some (record { command = abort_command; reason = reason_or "Manual abort" reason; ts = now }))
meant (pauses reason) now f =
    some (
      some (record { command = pause_command; reason = reason_or "Manual pause" reason; ts = now }))
meant resumes now f = some (some (record { command = resume_command; reason = ""; ts = now }))
meant skips now f = some (some (record { command = skip_command; reason = ""; ts = now }))
meant shows_status now f = f.signal
meant shows_help now f = f.signal

-- The exit code tells whether the command was taken: with 1 no file has changed, and with 0 the
-- signal is the one that was meant, whichever was pending before; the session itself is as it was.
pub run_command_answers :
    (c : Subcommand) (now : ℕ) (f : Files)
    → let (code, g) = run_command c now f in
      (((code ≡ 1) × (g ≡ f)) ⊎ ((code ≡ 0) × (g.signal ≡ meant c now f))) × (g.control ≡ f.control)
unfolding run_command abort pause resume skip
run_command_answers (aborts reason) now f = ground arith
run_command_answers (pauses reason) now f = ground arith
run_command_answers resumes now f = ground arith
run_command_answers skips now f = ground arith
run_command_answers shows_status now f = ground arith
run_command_answers shows_help now f = ground arith
