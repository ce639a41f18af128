-- ===== src/Chaos/Orchestrator/Idle.antt =====
-- The active session over a game day (chaos-ci-gate-06/chaos/gameday.py).
use nimbus_net.Prelude.{
  ℕ, zero, suc, ◌+◌, ◌*◌, ◌-◌, ◌≡◌, inl, inr, String, arith, Option, none, some, List, [], ◌∷◌,
  Option-cases, Sum-cases,
}
use nimbus_net.Prelude.Text.{◌++ₛ◌}
use nimbus_net.Chaos.Injector.{
  Env, Rig, healed, active_session, inject, clear, clock, sleep, update, set_session, duration_of,
  monitor_wake, monitor_wakes,
}
use nimbus_net.Chaos.Injector.Sessions.{clear_once}
use nimbus_net.Chaos.Orchestrator.{
  Phase, GameDayScenario, pause, run_phase, run_phases, run_multiphase, run_all,
}

module _ (e : Env) where
  cleared : (r : Rig) → active_session (clear e r).1 ≡ none
  cleared r = (clear_once e r).0

  monitor_wake_idle :
      (p duration_s : ℕ) (r : Rig)
      → active_session r ≡ none
      → active_session (monitor_wake e p duration_s r) ≡ none
  unfolding monitor_wake clock update active_session
  monitor_wake_idle p duration_s r idle =
      let s = r.heap p in
      let r2 = (clock e (clock e r).1).1 in
      ground (
        arith,
        cleared (
            set_session p
              (record s {
                resolution = healed;
                healing_latency_ms = (clock e (clock e r).1).0 - s.start_time;
              })
              r2),
      )

  monitor_wakes_idle :
      (n p duration_s : ℕ) (r : Rig)
      → active_session r ≡ none
      → active_session (monitor_wakes e n p duration_s r) ≡ none
  unfolding monitor_wakes
  monitor_wakes_idle zero p duration_s r idle = idle
  monitor_wakes_idle (suc n) p duration_s r idle =
      monitor_wakes_idle n p duration_s (monitor_wake e p duration_s r)
        (monitor_wake_idle p duration_s r idle)

  pause_idle :
      (seconds : ℕ) (p : Option ℕ) (r : Rig)
      → active_session r ≡ none
      → active_session (pause e seconds p r) ≡ none
  unfolding pause sleep active_session
  pause_idle seconds none r idle = ground arith
  pause_idle seconds (some p) r idle =
      let r1 = record r {
        time = r.time + seconds * 1000 + e.delay r.sleeps;
        sleeps = r.sleeps + 1;
      } in
      monitor_wakes_idle (e.wakes r.sleeps) p (duration_of (r1.heap p).profile) r1 (ground arith)

  -- Also a phase that raised leaves no session active.
  pub run_phase_idle :
      (scenario : String) (phase : Phase) (r : Rig)
      → active_session (run_phase e scenario phase r).1 ≡ none
  unfolding run_phase
  run_phase_idle scenario phase r =
      let r1 =
        (inject e ("gameday_" ++ₛ scenario ++ₛ "_" ++ₛ phase.label) (some phase.profile) r).1 in
      elim (Sum-cases
        (inject e ("gameday_" ++ₛ scenario ++ₛ "_" ++ₛ phase.label) (some phase.profile) r).0) [
          | inl (x, raised) ↦ rw (raised, run_phase) (pause_idle 5 none (clear e r1).1 (cleared r1))
          | inr (p, started) ↦
              let r2 = sleep e phase.profile.duration_seconds p r1 in
              let r3 = (clear e r2).1 in
              elim (Option-cases (clear e r2).0) [
                | inl refused ↦
                    rw (started, refused, run_phase)
                      (pause_idle 5 (some p) (clear e r3).1 (cleared r3))
                | inr (q, done) ↦
                    rw (started, done, run_phase) (pause_idle 5 (some p) r3 (cleared r2))
              ]
        ]

  run_phases_idle :
      (scenario : String) (phases : List Phase) (r : Rig)
      → active_session r ≡ none
      → active_session (run_phases e scenario phases r).1 ≡ none
  unfolding run_phases
  run_phases_idle scenario [] r idle = idle
  run_phases_idle scenario (phase ∷ phases) r idle =
      let r1 = (run_phase e scenario phase r).1 in
      ground (arith, run_phases_idle scenario phases r1, run_phase_idle scenario phase r)

  run_multiphase_idle :
      (s : GameDayScenario) (r : Rig)
      → active_session r ≡ none
      → active_session (run_multiphase e s r).1 ≡ none
  unfolding run_multiphase clock active_session
  run_multiphase_idle s r idle = ground (arith, run_phases_idle s.name s.phases (clock e r).1)

  pub run_all_idle :
      (ss : List GameDayScenario) (r : Rig)
      → active_session r ≡ none
      → active_session (run_all e ss r).1 ≡ none
  unfolding run_all
  run_all_idle [] r idle = idle
  run_all_idle (s ∷ ss) r idle =
      let r1 = (run_multiphase e s r).1 in
      run_all_idle ss (pause e 30 none r1) (pause_idle 30 none r1 (run_multiphase_idle s r idle))
