-- ===== src/GameDay/Pauses.antt =====
-- `wait_if_paused` of integration-07/gameday-control/controller.py.
use nimbus_net.Prelude.{ℕ, zero, suc, ◌+◌, ◌≤◌, ◌<◌, ◌≡◌, ◌⊎◌, true, false, arith}
use nimbus_net.GameDay.{
  Handle, Env, Waiting, is_paused, is_break, check_signal, read_signal, obey, clock, sleep,
  wait_until, wait_if_paused,
}

-- A signal that ends the wait has ended the pause.
check_signal-break :
    (h : Handle)
    → is_break (check_signal h).0 ≡ true
    → is_paused (check_signal h).1.ctrl.state ≡ false
unfolding check_signal read_signal obey
check_signal-break h k = ground arith

module _ (e : Env) where
  wait_until_ends :
      (fuel poll_ms deadline : ℕ) (w : Waiting)
      → 0 < poll_ms
      → 0 < fuel
      → deadline < w.time + fuel
      → ((wait_until e fuel poll_ms deadline w).0 ≡ true)
        × ((is_paused (wait_until e fuel poll_ms deadline w).1.handle.ctrl.state ≡ false)
            ⊎ (deadline ≤ (wait_until e fuel poll_ms deadline w).1.time))
  unfolding wait_until clock sleep
  wait_until_ends zero poll_ms deadline w pos some_fuel enough = absurd (omega arith)
  wait_until_ends (suc fuel) poll_ms deadline w pos some_fuel enough =
      let w1 = (clock e w).1 in
      let h = (check_signal w1.handle).1 in
      ground (
        arith,
        check_signal-break w1.handle,
        wait_until_ends fuel poll_ms deadline (sleep e poll_ms (record w1 { handle = h })),
      )

  -- `wait_if_paused` comes to an end, whatever the operators do, if it sleeps at all between two
  -- polls; then the session is no longer paused or the longest wait is over.
  pub wait_if_paused_ends :
      (poll_ms max_wait_ms : ℕ) (w : Waiting)
      → 0 < poll_ms
      → ((wait_if_paused e poll_ms max_wait_ms w).0 ≡ true)
        × ((is_paused (wait_if_paused e poll_ms max_wait_ms w).1.handle.ctrl.state ≡ false)
            ⊎ (w.time + max_wait_ms ≤ (wait_if_paused e poll_ms max_wait_ms w).1.time))
  unfolding wait_if_paused clock
  wait_if_paused_ends poll_ms max_wait_ms w pos =
      wait_until_ends (max_wait_ms + 1) poll_ms (w.time + max_wait_ms) (clock e w).1 pos
        (omega arith) (omega arith)
