-- ===== src/Chaos/Orchestrator/Budgets.antt =====
-- The time budgets of a game day's scenarios, and the network behind them
-- (chaos-ci-gate-06/chaos/gameday.py).
use nimbus_net.Prelude.{
  ℕ, ◌+◌, ◌*◌, ◌≤◌, ◌≡◌, inl, inr, String, true, false, arith, Option, none, some, List, [], ◌∷◌,
  ◌++◌, Option-cases, Sum-cases, if◌then◌else◌,
}
use nimbus_net.Prelude.Text.{◌++ₛ◌}
use nimbus_net.Chaos.Injector.{
  Env, Rig, inject, start_session, apply_qdisc, run_tc, clear, clock, sleep,
}
use nimbus_net.Chaos.Injector.Profiles.{FaultProfile}
use nimbus_net.Chaos.Injector.Waiting.{clear-IsUntriggered, sleep-IsUntriggered}
use nimbus_net.Chaos.Orchestrator.{
  Phase, GameDayScenario, PhaseResult, ScenarioResult, pause, run_phase, run_phases, run_multiphase,
  run_all, run_session, report_of, failed_names, passed_count, gameday_scenarios,
  cascading_degradation, bandwidth_starvation_recovery, flapping_interface, silent_corruption,
  dual_region_simultaneous,
}

-- The time that the phases are planned to take, with the gap behind each.
abbrev pub planned_ms : List Phase → ℕ
planned_ms [] = 0
planned_ms (p ∷ ps) = p.profile.duration_seconds * 1000 + 5000 + planned_ms ps

module _ (e : Env) where
  clear_time : (r : Rig) → r.time ≤ (clear e r).1.time
  clear_time r = (clear-IsUntriggered e 0 r).later

  start_session_time :
      (name : String) (p : FaultProfile) (r : Rig) → r.time ≤ (start_session e name p r).1.time
  unfolding start_session apply_qdisc run_tc clock
  start_session_time name p r = ground arith

  inject_time :
      (name : String) (p : FaultProfile) (r : Rig) → r.time ≤ (inject e name (some p) r).1.time
  unfolding inject
  inject_time name p r = ground (arith, start_session_time name p r)

  pause_time :
      (seconds : ℕ) (p : Option ℕ) (r : Rig) → r.time + seconds * 1000 ≤ (pause e seconds p r).time
  unfolding pause
  pause_time seconds none r = omega arith
  pause_time seconds (some p) r = (sleep-IsUntriggered e 0 seconds p r).0

  -- A phase that does not raise takes its duration and the gap.
  run_phase_time :
      (scenario : String) (phase : Phase) (r : Rig)
      → (r.time ≤ (run_phase e scenario phase r).1.time)
        × ((x : PhaseResult)
            → (run_phase e scenario phase r).0 ≡ some x
            → r.time + phase.profile.duration_seconds * 1000 + 5000
              ≤ (run_phase e scenario phase r).1.time)
  unfolding run_phase
  run_phase_time scenario phase r =
      let name = "gameday_" ++ₛ scenario ++ₛ "_" ++ₛ phase.label in
      let r1 = (inject e name (some phase.profile) r).1 in
      elim (Sum-cases (inject e name (some phase.profile) r).0) [
        | inl (x, raised) ↦
            rw (raised, run_phase)
              (
                omega (
                  arith,
                  inject_time name phase.profile r,
                  clear_time r1,
                  pause_time 5 none (clear e r1).1,
                ),
                λ y h. cc,
              )
        | inr (p, started) ↦
            let r2 = sleep e phase.profile.duration_seconds p r1 in
            let r3 = (clear e r2).1 in
            let slept = (sleep-IsUntriggered e 0 phase.profile.duration_seconds p r1).0 in
            elim (Option-cases (clear e r2).0) [
              | inl raised ↦
                  rw (started, raised, run_phase)
                    (
                      omega (
                        arith,
                        inject_time name phase.profile r,
                        slept,
                        clear_time r2,
                        clear_time r3,
                        pause_time 5 (some p) (clear e r3).1,
                      ),
                      λ y h. cc,
                    )
              | inr (q, done) ↦
                  let gap = pause_time 5 (some p) r3 in
                  rw (started, done, run_phase)
                    (
                      omega (arith, inject_time name phase.profile r, slept, clear_time r2, gap),
                      λ y h.
                          omega
                            (arith, inject_time name phase.profile r, slept, clear_time r2, gap),
                    )
            ]
      ]

  -- Phases none of which raised take the time that is planned.
  run_phases_time :
      (scenario : String) (phases : List Phase) (r : Rig)
      → (r.time ≤ (run_phases e scenario phases r).1.time)
        × ((run_phases e scenario phases r).0.1 ≡ true
            → r.time + planned_ms phases ≤ (run_phases e scenario phases r).1.time)
  unfolding run_phases
  run_phases_time scenario [] r = (omega arith, λ h. omega arith)
  run_phases_time scenario (phase ∷ phases) r =
      let r1 = (run_phase e scenario phase r).1 in
      let (later, planned) = run_phase_time scenario phase r in
      let (later2, planned2) = run_phases_time scenario phases r1 in
      elim (Option-cases (run_phase e scenario phase r).0) [
        | inl raised ↦ rw (raised, run_phases) (omega (arith, later, later2), λ h. cc)
        | inr (x, done) ↦
            rw (done, run_phases)
              (omega (arith, later, later2), λ h. omega (arith, planned x done, planned2 h))
      ]

  -- A scenario whose phases are planned to take as long as its budget, or longer, does not pass,
  -- whatever the network, the clock, the monitor and tc do: the time of the phases themselves counts
  -- as the time to heal.
  pub slow_scenario_fails :
      (s : GameDayScenario) (r : Rig)
      → s.expected_max_healing_ms ≤ planned_ms s.phases
      → (run_multiphase e s r).0.passed ≡ false
  unfolding run_multiphase clock
  slow_scenario_fails s r slow = ground (arith, run_phases_time s.name s.phases (clock e r).1)

abbrev name_if : ScenarioResult → GameDayScenario → List String
name_if r s = if r.passed then [] else s.name ∷ []

-- What three failures among the standard scenarios come to.
standard_failures :
    (r1 r2 r3 r4 r5 : ScenarioResult)
    → r1.passed ≡ false
    → r2.passed ≡ false
    → r4.passed ≡ false
    → (failed_names gameday_scenarios (r1 ∷ r2 ∷ r3 ∷ r4 ∷ r5 ∷ [])
        ≡ "cascading_degradation"
          ∷ "bandwidth_starvation_recovery"
          ∷ (name_if r3 flapping_interface
              ++ "silent_corruption" ∷ name_if r5 dual_region_simultaneous))
      × (passed_count (r1 ∷ r2 ∷ r3 ∷ r4 ∷ r5 ∷ []) ≤ 2)
unfolding failed_names
standard_failures r1 r2 r3 r4 r5 f1 f2 f4 = (ground arith, ground arith)

module _ (e : Env) where
  -- A session of the standard scenarios, whatever happens in it: three of the five fail, those of
  -- the degradation, the bandwidth and the corruption, since each is planned to take longer than its
  -- budget; at most two pass, and the three are among those that a postmortem is asked for.
  pub standard_session_fails :
      (date facilitator : String) (observers : List String) (r : Rig)
      → (some2 some5 : List String) × ((run_session e [] date facilitator observers
            r).0.postmortem_triggers
          ≡ "cascading_degradation"
            ∷ "bandwidth_starvation_recovery"
            ∷ (some2 ++ "silent_corruption" ∷ some5))
        × ((run_session e [] date facilitator observers r).0.scenarios_passed ≤ 2)
        × (3 ≤ (run_session e [] date facilitator observers r).0.scenarios_failed)
  unfolding run_session run_all report_of
  standard_session_fails date facilitator observers r =
      let step = λ (s : GameDayScenario) (q : Rig). run_multiphase e s q in
      let next = λ (s : GameDayScenario) (q : Rig). pause e 30 none (step s q).1 in
      let q2 = next cascading_degradation r in
      let q3 = next bandwidth_starvation_recovery q2 in
      let q4 = next flapping_interface q3 in
      let q5 = next silent_corruption q4 in
      let r3 = (step flapping_interface q3).0 in
      let r5 = (step dual_region_simultaneous q5).0 in
      let (triggers, passed) =
        standard_failures (step cascading_degradation r).0 (step bandwidth_starvation_recovery q2).0
          r3 (step silent_corruption q4).0 r5
          (slow_scenario_fails e cascading_degradation r (omega arith))
          (slow_scenario_fails e bandwidth_starvation_recovery q2 (omega arith))
          (slow_scenario_fails e silent_corruption q4 (omega arith)) in
      (
        name_if r3 flapping_interface,
        name_if r5 dual_region_simultaneous,
        triggers,
        passed,
        omega (arith, passed),
      )
