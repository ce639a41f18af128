-- ===== src/Chaos/Orchestrator/Cleared.antt =====
-- What a game day leaves of its faults (chaos-ci-gate-06/chaos/gameday.py, and `inject` and `clear`
-- of chaos-ci-gate-06/injection/qdisc_injector.py).
use nimbus_net.Prelude.{
  ℕ, zero, suc, ◌+◌, ◌*◌, ◌-◌, ◌≡◌, inl, inr, String, Bool, true, false, arith, Option, none, some,
  List, [], ◌∷◌, Option-cases, Sum-cases, Bool-cases, All, str_eq, eq_iff, sym, refl, ◌∙◌, ltb,
}
use nimbus_net.Prelude.Text.{◌++ₛ◌}
use nimbus_net.Chaos.Injector.Profiles.{FaultProfile}
use nimbus_net.Chaos.Injector.{
  Env, Rig, InjectionSession, Tc, del, tbf, netem, netem_parts, healed, active_session, inject,
  clear, clock, sleep, update, set_session, started, command_count, duration_of, monitor_wake,
  monitor_wakes, iface_for, iface_of, run_tc, apply_qdisc, start_session,
}
use nimbus_net.Chaos.Injector.Sessions.{clear_idle, start_session-active}
use nimbus_net.Chaos.Orchestrator.Idle.{run_all_idle}
use nimbus_net.Chaos.Orchestrator.{
  Phase, GameDayScenario, pause, run_phase, run_phases, run_multiphase, run_all, run_session,
  scenarios_or_standard,
}

-- A fault that is put on the injector's own interface, the only one that `clear` clears.
abbrev pub IsLocal : Env → Phase → Type 0
IsLocal e phase = iface_for e phase.profile ≡ e.interface

-- While no session is active, no fault is on the injector's interface; none is ever on another one.
pub record IsContained (e : Env) (r : Rig) : Type 0 where
  pub here : active_session r ≡ none → r.qdiscs e.interface ≡ false
  pub elsewhere : (j : String) → str_eq e.interface j ≡ false → r.qdiscs j ≡ false

module _ (e : Env) where
  pub run_tc-elsewhere :
      (c : Tc) (ignore : Bool) (r : Rig) (j : String)
      → iface_of c ≡ e.interface
      → str_eq e.interface j ≡ false
      → (run_tc e c ignore r).1.qdiscs j ≡ r.qdiscs j
  unfolding run_tc
  run_tc-elsewhere c ignore r j same other = ground arith

  run_tc-active :
      (c : Tc) (ignore : Bool) (r : Rig) → active_session (run_tc e c ignore r).1 ≡ active_session r
  unfolding run_tc active_session
  run_tc-active c ignore r = ground arith

  apply_qdisc-elsewhere :
      (p : FaultProfile) (r : Rig) (j : String)
      → iface_for e p ≡ e.interface
      → str_eq e.interface j ≡ false
      → (apply_qdisc e p r).1.qdiscs j ≡ r.qdiscs j
  unfolding apply_qdisc
  apply_qdisc-elsewhere p r j local other =
      let first = (run_tc e (del (iface_for e p)) true r).1 in
      ground (
        arith,
        run_tc-elsewhere (del (iface_for e p)) true r j local other,
        run_tc-elsewhere (tbf (iface_for e p) p.bandwidth_kbps) false first j local other,
        run_tc-elsewhere (netem (iface_for e p) (netem_parts p)) false first j local other,
      )

  start_session-elsewhere :
      (name : String) (p : FaultProfile) (r : Rig) (j : String)
      → iface_for e p ≡ e.interface
      → str_eq e.interface j ≡ false
      → (start_session e name p r).1.qdiscs j ≡ r.qdiscs j
  unfolding start_session clock
  start_session-elsewhere name p r j local other =
      let (now, r1) = clock e r in
      apply_qdisc-elsewhere p
        (record r1 {
          heap = update r1.next (started name p now) r1.heap;
          next = r1.next + 1;
          current = some r1.next;
        })
        j local other

  inject-IsContained :
      (name : String) (p : FaultProfile) (r : Rig)
      → iface_for e p ≡ e.interface
      → IsContained e r
      → IsContained e (inject e name (some p) r).1
  unfolding inject
  inject-IsContained name p r local h = elim (Option-cases (active_session r)) [
    | inr (q, busy) ↦ rw (busy, inject) h
    | inl idle ↦
        rw (idle, inject)
          (record {
            here = λ idle2. ground (arith, start_session-active e name p r);
            elsewhere =
                λ j other. start_session-elsewhere name p r j local other ∙ h.elsewhere j other;
          })
  ]

  set_session-active :
      (p : ℕ) (s : InjectionSession) (r : Rig)
      → s.active ≡ (r.heap p).active
      → active_session (set_session p s r) ≡ active_session r
  unfolding active_session update
  set_session-active p s r same = ground arith

  set_session-IsContained :
      (p : ℕ) (s : InjectionSession) (r : Rig)
      → s.active ≡ (r.heap p).active
      → IsContained e r
      → IsContained e (set_session p s r)
  set_session-IsContained p s r same h = record {
    here = λ idle. h.here (sym (set_session-active p s r same) ∙ idle);
    elsewhere = h.elsewhere;
  }

  clock-IsContained : (r : Rig) → IsContained e r → IsContained e (clock e r).1
  unfolding clock active_session
  clock-IsContained r h = record { here = h.here; elsewhere = h.elsewhere }

  nowhere : (r : Rig) (j : String) → IsContained e r → active_session r ≡ none → r.qdiscs j ≡ false
  nowhere r j h idle = elim (Bool-cases (str_eq e.interface j)) [
    | inl same ↦ ground (arith, eq_iff e.interface j, h.here idle)
    | inr other ↦ h.elsewhere j other
  ]

  module _ (wet : e.dry_run ≡ false) (found : e.has_tc ≡ true)
      (deletes : (n : ℕ) → e.tc n true (del e.interface) ≡ true) where
    run_del : (r : Rig) → (run_tc e (del e.interface) true r).1.qdiscs e.interface ≡ false
    unfolding run_tc
    run_del r = ground (arith, eq_iff e.interface e.interface, deletes (command_count r.commands))

    clear-IsContained : (r : Rig) → IsContained e r → IsContained e (clear e r).1
    unfolding clear clock
    clear-IsContained r h = elim (Option-cases (active_session r)) [
      | inl idle ↦ rw (clear_idle e r idle) h
      | inr (p, busy) ↦
          let r1 = (clock e r).1 in
          let r2 =
            set_session p (record (r.heap p) { active = false; end_time = (clock e r).0 }) r1 in
          record {
            here = λ idle. ground (arith, run_del r2);
            elsewhere = λ j other. ground (
              arith,
              run_tc-elsewhere (del e.interface) true r2 j refl other,
              h.elsewhere j other,
            );
          }
    ]

    monitor_wake-IsContained :
        (p duration_s : ℕ) (r : Rig)
        → IsContained e r
        → IsContained e (monitor_wake e p duration_s r)
    unfolding monitor_wake clock
    monitor_wake-IsContained p duration_s r h =
        let (now, r1) = clock e r in
        let s = r.heap p in
        let h1 = clock-IsContained r h in
        elim (Bool-cases s.active) [
          | inl on ↦ elim (Bool-cases (ltb now (s.start_time + duration_s * 1000))) [
            | inl early ↦
                rw (on, early, monitor_wake)
                  (set_session-IsContained p (record s { samples = s.samples + 1; active = true })
                    r1 (sym on) h1)
            | inr late ↦
                rw (on, late, monitor_wake)
                  (clear-IsContained
                    (set_session p
                      (record s {
                        resolution = healed;
                        healing_latency_ms = (clock e r1).0 - s.start_time;
                        active = true;
                      })
                      (clock e r1).1)
                    (set_session-IsContained p
                      (record s {
                        resolution = healed;
                        healing_latency_ms = (clock e r1).0 - s.start_time;
                        active = true;
                      })
                      (clock e r1).1 (sym on) (clock-IsContained r1 h1)))
          ]
          | inr off ↦ rw (off, monitor_wake) h1
        ]

    monitor_wakes-IsContained :
        (n p duration_s : ℕ) (r : Rig)
        → IsContained e r
        → IsContained e (monitor_wakes e n p duration_s r)
    unfolding monitor_wakes
    monitor_wakes-IsContained zero p duration_s r h = h
    monitor_wakes-IsContained (suc n) p duration_s r h =
        monitor_wakes-IsContained n p duration_s (monitor_wake e p duration_s r)
          (monitor_wake-IsContained p duration_s r h)

    pause-IsContained :
        (seconds : ℕ) (p : Option ℕ) (r : Rig)
        → IsContained e r
        → IsContained e (pause e seconds p r)
    unfolding pause sleep active_session
    pause-IsContained seconds none r h = record { here = h.here; elsewhere = h.elsewhere }
    pause-IsContained seconds (some p) r h =
        let r1 = record r {
          time = r.time + seconds * 1000 + e.delay r.sleeps;
          sleeps = r.sleeps + 1;
        } in
        monitor_wakes-IsContained (e.wakes r.sleeps) p (duration_of (r1.heap p).profile) r1
          (record { here = h.here; elsewhere = h.elsewhere })

    sleep-IsContained :
        (seconds p : ℕ) (r : Rig) → IsContained e r → IsContained e (sleep e seconds p r)
    unfolding pause
    sleep-IsContained seconds p r h = pause-IsContained seconds (some p) r h

    run_phase-IsContained :
        (scenario : String) (phase : Phase) (r : Rig)
        → IsLocal e phase
        → IsContained e r
        → IsContained e (run_phase e scenario phase r).1
    unfolding run_phase
    run_phase-IsContained scenario phase r local h =
        let name = "gameday_" ++ₛ scenario ++ₛ "_" ++ₛ phase.label in
        let r1 = (inject e name (some phase.profile) r).1 in
        let h1 = inject-IsContained name phase.profile r local h in
        elim (Sum-cases (inject e name (some phase.profile) r).0) [
          | inl (x, raised) ↦
              rw (raised, run_phase)
                (pause-IsContained 5 none (clear e r1).1 (clear-IsContained r1 h1))
          | inr (p, started) ↦
              let r2 = sleep e phase.profile.duration_seconds p r1 in
              let r3 = (clear e r2).1 in
              let h3 =
                clear-IsContained r2 (sleep-IsContained phase.profile.duration_seconds p r1 h1) in
              elim (Option-cases (clear e r2).0) [
                | inl refused ↦
                    rw (started, refused, run_phase)
                      (pause-IsContained 5 (some p) (clear e r3).1 (clear-IsContained r3 h3))
                | inr (q, done) ↦ rw (started, done, run_phase) (pause-IsContained 5 (some p) r3 h3)
              ]
        ]

    run_phases-IsContained :
        (scenario : String) (phases : List Phase) (r : Rig)
        → All (IsLocal e) phases
        → IsContained e r
        → IsContained e (run_phases e scenario phases r).1
    unfolding run_phases
    run_phases-IsContained scenario [] r local h = h
    run_phases-IsContained scenario (phase ∷ phases) r (local, locals) h =
        let r1 = (run_phase e scenario phase r).1 in
        let h2 =
          run_phases-IsContained scenario phases r1 locals
            (run_phase-IsContained scenario phase r local h) in
        elim (Option-cases (run_phase e scenario phase r).0) [
          | inl raised ↦ rw (raised, run_phases) h2
          | inr (x, done) ↦ rw (done, run_phases) h2
        ]

    run_multiphase-IsContained :
        (s : GameDayScenario) (r : Rig)
        → All (IsLocal e) s.phases
        → IsContained e r
        → IsContained e (run_multiphase e s r).1
    unfolding run_multiphase
    run_multiphase-IsContained s r local h =
        clock-IsContained (run_phases e s.name s.phases (clock e r).1).1
          (run_phases-IsContained s.name s.phases (clock e r).1 local (clock-IsContained r h))

    run_all-IsContained :
        (ss : List GameDayScenario) (r : Rig)
        → All (λ s. All (IsLocal e) s.phases) ss
        → IsContained e r
        → IsContained e (run_all e ss r).1
    unfolding run_all
    run_all-IsContained [] r local h = h
    run_all-IsContained (s ∷ ss) r (local, locals) h =
        let r1 = (run_multiphase e s r).1 in
        run_all-IsContained ss (pause e 30 none r1) locals
          (pause-IsContained 30 none r1 (run_multiphase-IsContained s r local h))

    -- A game day on the injector's own interface, not a dry run, that starts with no session active
    -- and no fault on any interface, ends so, whichever phases raised and whatever the monitor did
    -- meanwhile, while tc is there and a delete succeeds where there is something to delete.
    pub run_session_clears :
        (given : List GameDayScenario) (date facilitator : String) (observers : List String)
        (r : Rig)
        → All (λ s. All (IsLocal e) s.phases) (scenarios_or_standard given)
        → active_session r ≡ none
        → ((j : String) → r.qdiscs j ≡ false)
        → (j : String)
        → (active_session (run_session e given date facilitator observers r).1 ≡ none)
          × ((run_session e given date facilitator observers r).1.qdiscs j ≡ false)
    unfolding run_session clock active_session
    run_session_clears given date facilitator observers r local idle free j =
        let ss = scenarios_or_standard given in
        let h : IsContained e r = record {
          here = λ _. free e.interface;
          elsewhere = λ k _. free k;
        } in
        let after = run_all-IsContained ss r local h in
        let ended = run_all_idle e ss r idle in (ended, nowhere (run_all e ss r).1 j after ended)
