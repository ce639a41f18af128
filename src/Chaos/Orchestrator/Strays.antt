-- ===== src/Chaos/Orchestrator/Strays.antt =====
-- Faults on another interface than the injector's own (chaos-ci-gate-06/chaos/gameday.py, and `inject`
-- and `clear` of chaos-ci-gate-06/injection/qdisc_injector.py).
use nimbus_net.Prelude.{
  ℕ, zero, suc, ◌+◌, ◌*◌, ◌-◌, ◌≡◌, inl, inr, String, true, false, arith, none, some, Option-cases,
  Sum-cases, str_eq, eq_iff, refl, ◌∙◌,
}
use nimbus_net.Prelude.Text.{◌++ₛ◌}
use nimbus_net.Chaos.Injector.Profiles.{FaultProfile}
use nimbus_net.Chaos.Injector.{
  Env, Rig, Tc, del, tbf, netem, netem_parts, healed, active_session, inject, clear, clock, sleep,
  update, set_session, started, duration_of, monitor_wake, monitor_wakes, iface_for, iface_of, adds,
  run_tc, apply_qdisc, start_session,
}
use nimbus_net.Chaos.Injector.Sessions.{clear_idle}
use nimbus_net.Chaos.Orchestrator.Cleared.{run_tc-elsewhere}
use nimbus_net.Chaos.Orchestrator.Idle.{run_phase_idle}
use nimbus_net.Chaos.Orchestrator.{Phase, PhaseResult, pause, run_phase}

module _ (e : Env) (j : String) (other : str_eq e.interface j ≡ false) where
  clear-elsewhere : (r : Rig) → (clear e r).1.qdiscs j ≡ r.qdiscs j
  unfolding clear clock
  clear-elsewhere r = elim (Option-cases (active_session r)) [
    | inl idle ↦ rw (clear_idle e r idle) refl
    | inr (p, busy) ↦
        let r2 =
          set_session p (record (r.heap p) { active = false; end_time = (clock e r).0 })
            (clock e r).1 in
        ground (arith, run_tc-elsewhere e (del e.interface) true r2 j refl other)
  ]

  monitor_wake-elsewhere :
      (p duration_s : ℕ) (r : Rig) → (monitor_wake e p duration_s r).qdiscs j ≡ r.qdiscs j
  unfolding monitor_wake clock
  monitor_wake-elsewhere p duration_s r =
      let s = r.heap p in
      let (now, r1) = clock e r in
      ground (
        arith,
        clear-elsewhere (
            set_session p
              (record s { resolution = healed; healing_latency_ms = (clock e r1).0 - s.start_time })
              (clock e r1).1),
      )

  monitor_wakes-elsewhere :
      (n p duration_s : ℕ) (r : Rig) → (monitor_wakes e n p duration_s r).qdiscs j ≡ r.qdiscs j
  unfolding monitor_wakes
  monitor_wakes-elsewhere zero p duration_s r = refl
  monitor_wakes-elsewhere (suc n) p duration_s r =
      monitor_wakes-elsewhere n p duration_s (monitor_wake e p duration_s r)
      ∙ monitor_wake-elsewhere p duration_s r

  sleep-elsewhere : (seconds p : ℕ) (r : Rig) → (sleep e seconds p r).qdiscs j ≡ r.qdiscs j
  unfolding sleep
  sleep-elsewhere seconds p r =
      let r1 = record r {
        time = r.time + seconds * 1000 + e.delay r.sleeps;
        sleeps = r.sleeps + 1;
      } in
      monitor_wakes-elsewhere (e.wakes r.sleeps) p (duration_of (r1.heap p).profile) r1

module _ (e : Env) where
  run_tc-adds :
      (c : Tc) (r : Rig)
      → e.dry_run ≡ false
      → adds c ≡ true
      → (run_tc e c false r).0 ≡ true
      → (run_tc e c false r).1.qdiscs (iface_of c) ≡ true
  unfolding run_tc
  run_tc-adds c r wet add fine = ground (arith, eq_iff (iface_of c) (iface_of c))

  apply_qdisc-adds :
      (p : FaultProfile) (r : Rig)
      → e.dry_run ≡ false
      → (apply_qdisc e p r).0 ≡ true
      → (apply_qdisc e p r).1.qdiscs (iface_for e p) ≡ true
  unfolding apply_qdisc
  apply_qdisc-adds p r wet fine =
      let r1 = (run_tc e (del (iface_for e p)) true r).1 in
      ground (
        arith,
        run_tc-adds (tbf (iface_for e p) p.bandwidth_kbps) r1 wet refl,
        run_tc-adds (netem (iface_for e p) (netem_parts p)) r1 wet refl,
      )

  inject-adds :
      (name : String) (p : FaultProfile) (r : Rig) (q : ℕ)
      → e.dry_run ≡ false
      → (inject e name (some p) r).0 ≡ inr q
      → (inject e name (some p) r).1.qdiscs (iface_for e p) ≡ true
  unfolding inject start_session clock
  inject-adds name p r q wet done =
      let (now, r1) = clock e r in
      ground (
        arith,
        apply_qdisc-adds p
            (record r1 {
              heap = update r1.next (started name p now) r1.heap;
              next = r1.next + 1;
              current = some r1.next;
            })
            wet,
      )

  run_phase_stray :
      (scenario : String) (phase : Phase) (r : Rig) (x : PhaseResult)
      → e.dry_run ≡ false
      → str_eq e.interface (iface_for e phase.profile) ≡ false
      → (run_phase e scenario phase r).0 ≡ some x
      → (run_phase e scenario phase r).1.qdiscs (iface_for e phase.profile) ≡ true
  unfolding run_phase pause
  run_phase_stray scenario phase r x wet other through =
      let name = "gameday_" ++ₛ scenario ++ₛ "_" ++ₛ phase.label in
      let j = iface_for e phase.profile in
      let r1 = (inject e name (some phase.profile) r).1 in
      elim (Sum-cases (inject e name (some phase.profile) r).0) [
        | inl (y, raised) ↦ ground arith
        | inr (p, begun) ↦
            let r2 = sleep e phase.profile.duration_seconds p r1 in
            elim (Option-cases (clear e r2).0) [
              | inl refused ↦ ground arith
              | inr (q, done) ↦
                  rw (begun, done, run_phase)
                    (sleep-elsewhere e j other 5 p (clear e r2).1
                      ∙ clear-elsewhere e j other r2
                      ∙ sleep-elsewhere e j other phase.profile.duration_seconds p r1
                      ∙ inject-adds name phase.profile r p wet begun)
            ]
      ]

  -- Outside a dry run, a phase whose profile names another interface than the injector's own, and
  -- that goes through, leaves its fault on that interface, although no session is active any more.
  pub run_phase_leaves_stray :
      (scenario : String) (phase : Phase) (r : Rig) (x : PhaseResult)
      → e.dry_run ≡ false
      → str_eq e.interface (iface_for e phase.profile) ≡ false
      → (run_phase e scenario phase r).0 ≡ some x
      → ((run_phase e scenario phase r).1.qdiscs (iface_for e phase.profile) ≡ true)
        × (active_session (run_phase e scenario phase r).1 ≡ none)
  run_phase_leaves_stray scenario phase r x wet other through =
      (run_phase_stray scenario phase r x wet other through, run_phase_idle e scenario phase r)
