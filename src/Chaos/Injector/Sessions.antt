-- ===== src/Chaos/Injector/Sessions.antt =====
-- The one active session (chaos-ci-gate-06/injection/qdisc_injector.py, `inject` and `clear`).
use nimbus_net.Prelude.{
  ℕ, ◌+◌, ◌≡◌, ◌≢◌, ◌⊎◌, inl, inr, String, true, false, arith, Option, none, some, [], ◌∷◌, ◌++◌,
  Option-cases,
}
use nimbus_net.Chaos.Injector.Profiles.{FaultProfile}
use nimbus_net.Chaos.Injector.{
  Env, Rig, unresolved, already_active, unknown_profile, tc_failed, update, clock, run_tc,
  apply_qdisc, active_session, chosen, start_session, started, inject, clear,
}

module _ (e : Env) where
  apply_qdisc-heap :
      (p : FaultProfile) (r : Rig)
      → ((apply_qdisc e p r).1.heap ≡ r.heap)
        × ((apply_qdisc e p r).1.current ≡ r.current)
        × ((apply_qdisc e p r).1.next ≡ r.next)
        × ((apply_qdisc e p r).1.labels ≡ r.labels)
  unfolding apply_qdisc run_tc
  apply_qdisc-heap p r = (ground arith, ground arith, ground arith, ground arith)

  pub start_session-active :
      (name : String) (p : FaultProfile) (r : Rig)
      → (active_session (start_session e name p r).1 ≡ some r.next)
        × (((start_session e name p r).0 ≡ inr r.next)
            ⊎ ((start_session e name p r).0 ≡ inl tc_failed))
  unfolding start_session active_session update clock
  start_session-active name p r =
      let (now, r1) = clock e r in
      let r2 = record r1 {
        heap = update r1.next (started name p now) r1.heap;
        next = r1.next + 1;
        current = some r1.next;
      } in
      (ground (arith, apply_qdisc-heap p r2), ground arith)

  -- `inject` refuses a second session and an unknown profile, and changes nothing then. Otherwise
  -- the new session is the active one afterwards, whether `inject` returned it or a tc command
  -- failed: a session whose fault was not injected blocks the next one until it is cleared.
  pub inject_active :
      (name : String) (profile : Option FaultProfile) (r : Rig)
      → (active_session r ≢ none → inject e name profile r ≡ (inl already_active, r))
        × (active_session r ≡ none
            → chosen name profile ≡ none
            → inject e name profile r ≡ (inl unknown_profile, r))
        × (active_session r ≡ none
            → chosen name profile ≢ none
            → (active_session (inject e name profile r).1 ≡ some r.next)
              × (((inject e name profile r).0 ≡ inr r.next)
                  ⊎ ((inject e name profile r).0 ≡ inl tc_failed)))
  unfolding inject
  inject_active name profile r = (
    ground arith,
    ground arith,
    λ idle known. elim (Option-cases (chosen name profile)) [
      | inl e1 ↦ absurd (known e1)
      | inr (p, e1) ↦ (
        ground (arith, start_session-active name p r),
        ground (arith, start_session-active name p r),
      )
    ],
  )

  active_session-eq-some :
      (r : Rig) (p : ℕ)
      → active_session r ≡ some p
      → (r.current ≡ some p) × ((r.heap p).active ≡ true)
  unfolding active_session
  active_session-eq-some r p h = ground arith

  pub clear_idle : (r : Rig) → active_session r ≡ none → clear e r ≡ (some none, r)
  unfolding clear
  clear_idle r idle = rw (idle, clear)

  clear_busy :
      (r : Rig) (p : ℕ)
      → active_session r ≡ some p
      → (active_session (clear e r).1 ≡ none)
        × (((clear e r).1.heap p).active ≡ false)
        × (((clear e r).0 ≡ none) ⊎ ((clear e r).0 ≡ some (some p)))
        × ((clear e r).0 ≢ none
            → (((clear e r).1.heap p).resolution ≢ unresolved)
              × ((clear e r).1.labels ≡ r.labels ++ (p, (clear e r).1.heap p) ∷ []))
  unfolding clear active_session update run_tc clock
  clear_busy r p busy = (
    ground (arith, active_session-eq-some r p busy),
    ground arith,
    ground arith,
    λ done. (ground arith, ground arith),
  )

  -- `clear` ends the active session; without one it does nothing. Either way, raising or not, no
  -- session is active afterwards, and a second `clear` does nothing. Where it does not raise, the
  -- session has a resolution and its label is written.
  pub clear_once :
      (r : Rig)
      → (active_session (clear e r).1 ≡ none)
        × (clear e (clear e r).1 ≡ (some none, (clear e r).1))
        × ((p : ℕ)
            → active_session r ≡ some p
            → (((clear e r).1.heap p).active ≡ false)
              × (((clear e r).0 ≡ none) ⊎ ((clear e r).0 ≡ some (some p)))
              × ((clear e r).0 ≢ none
                  → (((clear e r).1.heap p).resolution ≢ unresolved)
                    × ((clear e r).1.labels ≡ r.labels ++ (p, (clear e r).1.heap p) ∷ [])))
  clear_once r = elim (Option-cases (active_session r)) [
    | inl idle ↦ rw (clear_idle r idle) (idle, clear_idle r idle, λ p busy. cc)
    | inr (p, busy) ↦
        let ended = (clear_busy r p busy).0 in
        (
          ended,
          clear_idle (clear e r).1 ended,
          λ q same.
              let (_, inactive, whether, done) = clear_busy r q same in (inactive, whether, done),
        )
  ]
