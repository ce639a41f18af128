-- ===== src/Chaos/Runner/Suites.antt =====
-- What a suite of chaos-ci-gate-06/runner/chaos_runner.py can find, with the injector as it is.
use nimbus_net.Prelude.{
  ℕ, ◌≤◌, ◌<◌, ◌≡◌, refl, Dict, true, false, arith, Option, none, List, [], ◌∷◌, String, inl, inr,
  Sum-cases, Option-cases, count_if, not, ◌&&◌,
}
use nimbus_net.Chaos.Budget.{StateFile}
use nimbus_net.Chaos.Injector.Profiles.{FaultProfile}
use nimbus_net.Chaos.Injector.{
  Env, Rig, update, clock, active_session, chosen, start_session, inject, clear, apply_qdisc,
  run_tc,
}
use nimbus_net.Chaos.Injector.Waiting.{wait_for_healing_fails}
use nimbus_net.Chaos.Runner.{
  ChaosScenario, judge, attempt_scenario, run_scenario, run_scenarios, cool_down, run_suite,
  figures, with_gate, latencies, sorted, at_index,
}
use nimbus_net.Chaos.Runner.Gate.{summarise_gate}

module _ (e : Env) where
  start_session-fresh :
      (name : String) (fp : FaultProfile) (r : Rig) (p : ℕ)
      → (start_session e name fp r).0 ≡ inr p
      → (((start_session e name fp r).1.heap p).healing_triggered ≡ false)
        × (((start_session e name fp r).1.heap p).start_time ≤ (start_session e name fp r).1.time)
  unfolding start_session update clock apply_qdisc run_tc
  start_session-fresh name fp r p h = ground arith

  inject-fresh :
      (name : String) (r : Rig) (p : ℕ)
      → (inject e name none r).0 ≡ inr p
      → (((inject e name none r).1.heap p).healing_triggered ≡ false)
        × (((inject e name none r).1.heap p).start_time ≤ (inject e name none r).1.time)
  unfolding inject
  inject-fresh name r p = elim (Option-cases (active_session r)) [
    | inr (q, busy) ↦ ground arith
    | inl idle ↦ elim (Option-cases (chosen name none)) [
      | inl e1 ↦ ground arith
      | inr (fp, e1) ↦ ground (arith, start_session-fresh name fp r p)
    ]
  ]

  pub attempt_scenario_unhealed :
      (baseline : Dict ℕ) (s : ChaosScenario) (r : Rig)
      → ((attempt_scenario e baseline s r).0.healed ≡ false)
        × ((attempt_scenario e baseline s r).0.scenario ≡ s)
        × (s.expected_heal ≡ true → (attempt_scenario e baseline s r).0.passed ≡ false)
  unfolding attempt_scenario judge
  attempt_scenario_unhealed baseline s r = elim (Sum-cases (inject e s.profile_name none r).0) [
    | inl (x, e1) ↦ ground arith
    | inr (p, e1) ↦ ground (
      arith,
      inject-fresh s.profile_name r p e1,
      wait_for_healing_fails e p s.healing_timeout_s (inject e s.profile_name none r).1,
    )
  ]

  run_scenarios_unhealed :
      (baseline : Dict ℕ) (ss : List ChaosScenario) (r : Rig)
      → (latencies (run_scenarios e baseline ss r).0 ≡ [])
        × (count_if (λ rr. rr.healed && rr.scenario.expected_heal) (run_scenarios e baseline ss r).0
            ≡ 0)
        × (count_if (λ s. s.expected_heal) ss
            ≤ count_if (λ rr. not rr.passed) (run_scenarios e baseline ss r).0)
  unfolding run_scenarios run_scenario latencies
  run_scenarios_unhealed baseline [] r = (refl, refl, omega arith)
  run_scenarios_unhealed baseline (s ∷ ss) r =
      let (result, r1) = attempt_scenario e baseline s r in
      ground (
        arith,
        attempt_scenario_unhealed baseline s r,
        run_scenarios_unhealed baseline ss (cool_down e result.session (clear e r1).1),
      )

  -- Since nothing marks a session as triggered, no scenario of a suite is ever healed, whatever the
  -- network, the clock and the baseline: the healed scenarios are counted 0, both percentiles of the
  -- latency are 0, and the gate of a suite with a scenario that should heal always fails, as that of
  -- `run_ci_suite` does.
  pub run_suite_never_heals :
      (budget : Option (Option StateFile)) (baseline : Dict ℕ) (name : String)
      (ss : List ChaosScenario) (r : Rig)
      → ((run_suite e budget baseline name ss r).0.healed_count ≡ 0)
        × ((run_suite e budget baseline name ss r).0.p50_latency_ms ≡ 0)
        × ((run_suite e budget baseline name ss r).0.p99_latency_ms ≡ 0)
        × (count_if (λ s. s.expected_heal) ss
            ≤ (run_suite e budget baseline name ss r).0.scenarios_failed)
        × (0 < count_if (λ s. s.expected_heal) ss
            → (run_suite e budget baseline name ss r).0.gate_passed ≡ false)
  unfolding run_suite with_gate figures sorted at_index
  run_suite_never_heals budget baseline name ss r =
      let rrs = (run_scenarios e baseline ss r).0 in
      let (no_latencies, no_healed, failed) = run_scenarios_unhealed baseline ss r in
      (
        ground arith,
        rw (no_latencies, sorted, at_index) refl,
        rw (no_latencies, sorted, at_index) refl,
        ground arith,
        λ some_expected. ground (arith, summarise_gate name ss rrs budget),
      )
