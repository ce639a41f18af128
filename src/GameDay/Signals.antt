-- ===== src/GameDay/Signals.antt =====
-- What becomes of a command (integration-07/gameday-control/controller.py).
use nimbus_net.Prelude.{
  ℕ, ◌≡◌, refl, ◌↔◌, ◌⊎◌, String, true, false, none, some, arith, List, [], ◌∷◌,
}
use nimbus_net.GameDay.{
  running, paused, aborted, SessionControl, Handle, Files, saved, read_control, write_control,
  read_signal, state_is, abort, pause, resume, skip, register_session, update, complete_scenario,
  obey, check_signal, finish,
}

-- Each command is accepted exactly in the states that allow it, and then it is the pending one, in
-- place of any that was pending; a command that is refused changes nothing. No command touches the
-- session's file.
pub commands_accepted :
    (reason : String) (now : ℕ) (f : Files) (c : SessionControl)
    → f.control ≡ some c
    → (((abort reason now f).0 ≡ true) ↔ (c.state ≡ running) ⊎ (c.state ≡ paused))
      × (((pause reason now f).0 ≡ true) ↔ (c.state ≡ running))
      × (((resume now f).0 ≡ true) ↔ (c.state ≡ paused))
      × (((skip now f).0 ≡ true) ↔ (c.state ≡ running))
      × ((abort reason now f).0 ≡ false → (abort reason now f).1 ≡ f)
      × ((pause reason now f).0 ≡ false → (pause reason now f).1 ≡ f)
      × ((resume now f).0 ≡ false → (resume now f).1 ≡ f)
      × ((skip now f).0 ≡ false → (skip now f).1 ≡ f)
unfolding abort pause resume skip state_is read_control
commands_accepted reason now f c at = (
  ground arith,
  ground arith,
  ground arith,
  ground arith,
  ground arith,
  ground arith,
  ground arith,
  ground arith,
)

-- The handle and the file agree: the file is what the handle holds, less the reason of a pause.
unfoldable pub IsInStep : Handle → Type 0
IsInStep h = h.files.control ≡ some (saved h.ctrl)

-- One move of a game day: a command of an operator, or a call of the handle.
pub data Move : Type 0 where
  aborts pauses : String → ℕ → Move
  resumes skips : ℕ → Move
  updates : String → ℕ → ℕ → Move
  completes : String → Move
  polls finishes : Move

unfoldable pub move : Move → Handle → Handle
move (aborts reason now) h = record h { files = (abort reason now h.files).1 }
move (pauses reason now) h = record h { files = (pause reason now h.files).1 }
move (resumes now) h = record h { files = (resume now h.files).1 }
move (skips now) h = record h { files = (skip now h.files).1 }
move (updates scenario phase total) h = update scenario phase total h
move (completes scenario) h = complete_scenario scenario h
move polls h = (check_signal h).1
move finishes h = finish h

unfoldable pub moves : List Move → Handle → Handle
unfolding move
moves [] h = h
moves (m ∷ ms) h = moves ms (move m h)

move-IsInStep : (m : Move) (h : Handle) → IsInStep h → IsInStep (move m h)
unfolding IsInStep move abort pause resume skip update complete_scenario check_signal read_signal
    obey finish write_control
move-IsInStep (aborts reason now) h k = ground arith
move-IsInStep (pauses reason now) h k = ground arith
move-IsInStep (resumes now) h k = ground arith
move-IsInStep (skips now) h k = ground arith
move-IsInStep (updates scenario phase total) h k = refl
move-IsInStep (completes scenario) h k = refl
move-IsInStep polls h k = ground arith
move-IsInStep finishes h k = refl

-- However the operators' commands and the session's own calls interleave, the file keeps in step
-- with the session, so that each command is judged by the session's true state.
pub moves-IsInStep : (ms : List Move) (h : Handle) → IsInStep h → IsInStep (moves ms h)
unfolding moves
moves-IsInStep [] h k = k
moves-IsInStep (m ∷ ms) h k = moves-IsInStep ms (move m h) (move-IsInStep m h k)

-- A command that is accepted before the session has polled replaces the one that was pending: an
-- abort that is followed by a pause is reported as sent, and the session is paused, not aborted.
pub abort_overwritten :
    (reason other : String) (now later : ℕ) (h : Handle)
    → IsInStep h
    → h.ctrl.state ≡ running
    → ((abort reason now h.files).0 ≡ true)
      × ((pause other later (abort reason now h.files).1).0 ≡ true)
      × ((check_signal
            (record h { files = (pause other later (abort reason now h.files).1).1 })).1.ctrl.state
          ≡ paused)
      × ((check_signal (record h {
        files = (pause other later (abort reason now h.files).1).1;
      })).1.files.signal
          ≡ none)
unfolding IsInStep abort pause state_is read_control check_signal read_signal obey write_control
abort_overwritten reason other now later h k on =
    (ground arith, ground arith, ground arith, ground arith)

-- Without a session an abort is accepted, and its signal waits: it aborts the next session that is
-- registered, at its first poll.
pub stale_abort :
    (reason id : String) (now later total : ℕ) (f : Files)
    → f.control ≡ none
    → ((abort reason now f).0 ≡ true)
      × ((check_signal (register_session id total later (abort reason now f).1)).1.ctrl.state
          ≡ aborted)
unfolding abort read_control register_session check_signal read_signal obey write_control
stale_abort reason id now later total f nothing = (ground arith, ground arith)
