-- ===== src/Chaos/Injector/Waiting.antt =====
-- `wait_for_healing` of chaos-ci-gate-06/injection/qdisc_injector.py, against the monitor.
use nimbus_net.Prelude.{
  ℕ, zero, suc, ◌+◌, ◌*◌, ◌≤◌, ◌<◌, ◌-◌, ◌≡◌, inl, inr, false, arith, some, Option-cases,
}
use nimbus_net.Chaos.Injector.{
  Env, Rig, timeout, healed, update, clock, run_tc, active_session, clear, set_session, duration_of,
  monitor_wake, monitor_wakes, sleep, wait_until, wait_for_healing,
}
use nimbus_net.Chaos.Injector.Sessions.{clear_idle}

-- Time does not run backwards, and no session is marked as one whose healing was triggered.
pub record IsUntriggered (q : ℕ) (r r' : Rig) : Type 0 where
  pub later : r.time ≤ r'.time
  pub untriggered : (r.heap q).healing_triggered ≡ false → (r'.heap q).healing_triggered ≡ false
  pub start : (r'.heap q).start_time ≡ (r.heap q).start_time

module _ (e : Env) (q : ℕ) where
  pub clear-IsUntriggered : (r : Rig) → IsUntriggered q r (clear e r).1
  unfolding clear run_tc clock update
  clear-IsUntriggered r = elim (Option-cases (active_session r)) [
    | inl idle ↦ rw (clear_idle e r idle) (ground arith)
    | inr (p, busy) ↦ ground arith
  ]

  monitor_wake-IsUntriggered :
      (p duration_s : ℕ) (r : Rig) → IsUntriggered q r (monitor_wake e p duration_s r)
  unfolding monitor_wake clock update
  monitor_wake-IsUntriggered p duration_s r =
      let s = r.heap p in
      let r2 = (clock e (clock e r).1).1 in
      ground (
        arith,
        clear-IsUntriggered (
            set_session p
              (record s {
                resolution = healed;
                healing_latency_ms = (clock e (clock e r).1).0 - s.start_time;
              })
              r2),
      )

  monitor_wakes-IsUntriggered :
      (n p duration_s : ℕ) (r : Rig) → IsUntriggered q r (monitor_wakes e n p duration_s r)
  unfolding monitor_wakes
  monitor_wakes-IsUntriggered zero p duration_s r = ground arith
  monitor_wakes-IsUntriggered (suc n) p duration_s r = ground (
    arith,
    monitor_wake-IsUntriggered p duration_s r,
    monitor_wakes-IsUntriggered n p duration_s (monitor_wake e p duration_s r),
  )

  pub sleep-IsUntriggered :
      (seconds p : ℕ) (r : Rig)
      → (r.time + seconds * 1000 ≤ (sleep e seconds p r).time)
        × IsUntriggered q r (sleep e seconds p r)
  unfolding sleep
  sleep-IsUntriggered seconds p r =
      let r1 = record r {
        time = r.time + seconds * 1000 + e.delay r.sleeps;
        sleeps = r.sleeps + 1;
      } in
      ground (
        arith,
        monitor_wakes-IsUntriggered (e.wakes r.sleeps) p (duration_of (r1.heap p).profile) r1,
      )

module _ (e : Env) (p : ℕ) where
  wait_until_fails :
      (fuel deadline : ℕ) (r : Rig)
      → (r.heap p).healing_triggered ≡ false
      → deadline + 1000 ≤ r.time + fuel * 1000
      → 0 < fuel
      → ((wait_until e fuel p deadline r).0 ≡ some false)
        × (((wait_until e fuel p deadline r).1.heap p).resolution ≡ timeout)
        × (((wait_until e fuel p deadline r).1.heap p).healing_triggered ≡ false)
        × (deadline ≤ (wait_until e fuel p deadline r).1.time)
  unfolding wait_until clock update
  wait_until_fails zero deadline r h enough some_fuel = absurd (omega arith)
  wait_until_fails (suc fuel) deadline r h enough some_fuel =
      let r1 = (clock e r).1 in
      ground
        (arith, sleep-IsUntriggered e p 1 p r1, wait_until_fails fuel deadline (sleep e 1 p r1))

  -- Nothing in the injector or its monitor ever marks a session as triggered, and then
  -- `wait_for_healing` comes to an end, whatever the clock, the monitor and tc do: it answers that
  -- the session was not healed, not before the timeout, and marks the session as timed out, even if
  -- the monitor had called it healed.
  pub wait_for_healing_fails :
      (timeout_s : ℕ) (r : Rig)
      → (r.heap p).healing_triggered ≡ false
      → (r.heap p).start_time ≤ r.time
      → ((wait_for_healing e p timeout_s r).0 ≡ some false)
        × (((wait_for_healing e p timeout_s r).1.heap p).resolution ≡ timeout)
        × (((wait_for_healing e p timeout_s r).1.heap p).healing_triggered ≡ false)
        × ((r.heap p).start_time + timeout_s * 1000 ≤ (wait_for_healing e p timeout_s r).1.time)
  unfolding wait_for_healing
  wait_for_healing_fails timeout_s r h started =
      wait_until_fails (timeout_s + 2) ((r.heap p).start_time + timeout_s * 1000) r h (omega arith)
        (omega arith)
