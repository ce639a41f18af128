-- ===== src/GameDay.antt =====
-- integration-07/gameday-control/controller.py: the commands that an operator gives a game day and
-- the handle that the session polls. The two meet in files only: `control` is the session as the
-- handle last wrote it, `signal` the one command that is pending.
mod State
pub mod Signals
pub mod Pauses
pub mod Operator
use nimbus_net.Prelude.{
  ℕ, zero, suc, ◌+◌, ◌*◌, String, Bool, true, false, ◌&&◌, ◌||◌, Option, none, some, List, [], ◌∷◌,
  ◌++◌, ltb, if◌then◌else◌,
}
pub use State.*

-- The JSON object has every field but `pause_reason`, and reading it leaves out `abort_reason` too.
abbrev pub saved : SessionControl → SessionControl
saved c = record c { pause_reason = "" }

abbrev pub reloaded : SessionControl → SessionControl
reloaded c = record c { abort_reason = ""; pause_reason = "" }

unfoldable pub read_control : Files → Option SessionControl
read_control f = elim f.control [ none ↦ none | some c ↦ some (reloaded c) ]

unfoldable pub write_control : SessionControl → Files → Files
write_control c f = record f { control = some (saved c) }

abbrev pub write_signal : Command → String → ℕ → Files → Files
write_signal command reason now f = record f {
  signal = some (some (record { command = command; reason = reason; ts = now }));
}

-- Reads the pending signal and removes its file; one that cannot be parsed stays.
unfoldable pub read_signal : Files → Option Signal × Files
read_signal f = elim f.signal [
  | none ↦ (none, f)
  | some s ↦ elim s [ none ↦ (none, f) | some x ↦ (some x, record f { signal = none }) ]
]

-- The state that the commands test, if a session can be read.
unfoldable pub state_is : (SessionState → Bool) → Files → Bool
unfolding read_control
state_is p f = elim (read_control f) [ none ↦ false | some c ↦ p c.state ]

-- `ctrl and ctrl.state not in (RUNNING, PAUSED)`: without a session the signal is sent.
unfoldable pub abort : String → ℕ → Files → Bool × Files
unfolding read_control
abort reason now f =
    let sent = record (write_signal abort_command reason now f) {
      notices = f.notices ++ reason ∷ [];
    } in
    elim (read_control f) [
      | none ↦ (true, sent)
      | some c ↦ if is_running c.state || is_paused c.state then (true, sent) else (false, f)
    ]

unfoldable pub pause : String → ℕ → Files → Bool × Files
unfolding state_is
pause reason now f =
    if state_is is_running f then (true, write_signal pause_command reason now f) else (false, f)

unfoldable pub resume : ℕ → Files → Bool × Files
unfolding state_is
resume now f =
    if state_is is_paused f then (true, write_signal resume_command "" now f) else (false, f)

unfoldable pub skip : ℕ → Files → Bool × Files
unfolding state_is
skip now f =
    if state_is is_running f then (true, write_signal skip_command "" now f) else (false, f)

-- Writes the session that is held.
abbrev pub hold : SessionControl → Files → Handle
hold c f = record { ctrl = c; files = write_control c f }

-- `total_scenarios` is not used.
unfoldable pub register_session : String → ℕ → ℕ → Files → Handle
unfolding write_control
register_session session_id total_scenarios now f =
    let c : SessionControl = record {
      session_id = session_id;
      state = running;
      current_scenario = "";
      current_phase = 0;
      total_phases = 0;
      scenarios_completed = [];
      abort_reason = "";
      pause_reason = "";
      start_time = now;
    } in
    hold c f

-- The handle's methods.
unfoldable pub update : String → ℕ → ℕ → Handle → Handle
unfolding write_control
update scenario phase total_phases h =
    hold
      (record h.ctrl {
        current_scenario = scenario;
        current_phase = phase;
        total_phases = total_phases;
      })
      h.files

unfoldable pub complete_scenario : String → Handle → Handle
unfolding write_control
complete_scenario scenario h =
    hold
      (record h.ctrl {
        scenarios_completed = h.ctrl.scenarios_completed ++ scenario ∷ [];
        current_scenario = "";
      })
      h.files

-- What a signal makes of the session; `skip` changes nothing.
unfoldable pub obey : Signal → SessionControl → SessionControl
obey s c = elim s.command [
  | abort_command ↦ record c { state = aborted; abort_reason = s.reason }
  | pause_command ↦ record c { state = paused; pause_reason = s.reason }
  | resume_command ↦ record c { state = running }
  | skip_command ↦ c
]

abbrev pub is_skip : Command → Bool
is_skip skip_command = true
is_skip _ = false

unfoldable pub check_signal : Handle → Option Command × Handle
unfolding obey read_signal write_control
check_signal h =
    let (pending, f) = read_signal h.files in
    elim pending [
      | none ↦ (none, record h { files = f })
      | some s ↦ (
        some s.command,
        if is_skip s.command then record h { files = f } else hold (obey s h.ctrl) f,
      )
    ]

unfoldable pub finish : Handle → Handle
unfolding write_control
finish h = hold (record h.ctrl { state = complete }) h.files

-- The commands that `wait_if_paused` stops at.
abbrev pub is_break : Option Command → Bool
is_break none = false
is_break (some abort_command) = true
is_break (some pause_command) = false
is_break (some resume_command) = true
is_break (some skip_command) = false

-- The clock and the operators while a session waits: the n-th reading of the clock takes some time,
-- and the n-th sleep takes its time and some more, and operators may do something to the files.
pub record Env : Type 0 where
  pub drift : ℕ → ℕ
  pub delay : ℕ → ℕ
  pub operators : ℕ → Files → Files

pub record Waiting : Type 0 where
  pub time : ℕ
  pub reads : ℕ
  pub sleeps : ℕ
  pub handle : Handle

module _ (e : Env) where
  unfoldable pub clock : Waiting → ℕ × Waiting
  clock w = (w.time, record w { time = w.time + e.drift w.reads; reads = w.reads + 1 })

  unfoldable pub sleep : ℕ → Waiting → Waiting
  sleep poll_ms w = record w {
    time = w.time + poll_ms + e.delay w.sleeps;
    sleeps = w.sleeps + 1;
    handle = record w.handle { files = e.operators w.sleeps w.handle.files };
  }

  -- The loop of `wait_if_paused` on fuel, one for each turn; `true` if it came to its end. The clock
  -- is read only while the session is paused.
  unfoldable pub wait_until : ℕ → ℕ → ℕ → Waiting → Bool × Waiting
  unfolding clock sleep
  wait_until zero poll_ms deadline w = (false, w)
  wait_until (suc fuel) poll_ms deadline w =
      let (now, w1) = clock w in
      let (sig, h) = check_signal w1.handle in
      let w2 = record w1 { handle = h } in
      let rest = wait_until fuel poll_ms deadline (sleep poll_ms w2) in
      if is_paused w.handle.ctrl.state
      then (if ltb now deadline then (if is_break sig then (true, w2) else rest) else (true, w1))
      else (true, w)

  unfoldable pub wait_if_paused : ℕ → ℕ → Waiting → Bool × Waiting
  unfolding clock
  wait_if_paused poll_ms max_wait_ms w =
      let (now, w1) = clock w in wait_until (max_wait_ms + 1) poll_ms (now + max_wait_ms) w1
