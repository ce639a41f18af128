-- ===== src/Sre/Server/Postmortems.antt =====
-- What the end of an incident brings about (sre-operations-05/sre/server/server.py and main.py).
use nimbus_net.Prelude.{
  Option, Bool-cases, inl, inr, ℕ, zero, suc, ◌+◌, ◌-◌, ◌≡◌, ◌≢◌, refl, arith, String, true, false,
  none, some, List, [], ◌∷◌, ◌++◌, length, ap, sym, ◌∙◌, dict_laws, count_if, str_eq, eq_iff,
}
use mathlib.Core.List.{append-nil}
use nimbus_net.Sre.Types.{
  Incident, Postmortem, Runbook, RunbookResult, RunbookStatus, was_auto_resolved,
}
use nimbus_net.Sre.Incidents.{Wiring, Manager, update, persist, resolve, get_active}
use nimbus_net.Sre.Executor.{run}
use nimbus_net.Sre.Executor.Runs.{run_finishes}
use nimbus_net.Sre.Postmortem.{Generator, generate, compose, is_severe}
use nimbus_net.Sre.Postmortem.Numbers.{IsUnique, generate-IsUnique}
use nimbus_net.Sre.Server.{
  Service, Setup, drop, with_manager, resolution_notices, after_resolve, fsm_healthy, generate_all,
  complete_run,
}

length-drop : (n : ℕ) (rs : List RunbookResult) → length (drop n rs) ≡ length rs - n
length-drop zero rs = omega arith
length-drop (suc n) [] = omega arith
length-drop (suc n) (r ∷ rs) = omega (arith, length-drop n rs)

module _ (w : Wiring) (m : Manager) (region : String) where
  resolve_idle :
      (now : ℕ)
      → get_active region m ≡ none
      → ((resolve w region now m).1 ≡ none) × ((resolve w region now m).0 ≡ m)
  unfolding resolve get_active
  resolve_idle now idle = rw (idle, resolve) (refl, refl)

  resolve_active :
      (now p : ℕ)
      → get_active region m ≡ some p
      → ((resolve w region now m).1 ≡ some p)
        × (get_active region (resolve w region now m).0 ≡ none)
        × (((resolve w region now m).0.heap p).escalated_to_sre ≡ (m.heap p).escalated_to_sre)
        × (((resolve w region now m).0.heap p).severity ≡ (m.heap p).severity)
        × (was_auto_resolved ((resolve w region now m).0.heap p) ≡ was_auto_resolved (m.heap p))
        × (((resolve w region now m).0.heap p).id ≡ (m.heap p).id)
  unfolding resolve get_active persist update was_auto_resolved
  resolve_active now p at =
      rw (at, resolve)
        (refl, simp dict_laws, ground arith, ground arith, ground arith, ground arith)

-- How many files are of the incident with this id.
abbrev pub files_of : String → Generator → ℕ
files_of id g = count_if (λ (pm : Postmortem). str_eq pm.incident_id id) g.files

first_of :
    (date : String) (n now : ℕ) (i : Incident) (result : Option RunbookResult)
    (pms : List Postmortem)
    → count_if (λ (pm : Postmortem). str_eq pm.incident_id i.id) (compose date n now i result ∷ pms)
      ≡ count_if (λ (pm : Postmortem). str_eq pm.incident_id i.id) pms + 1
unfolding compose
first_of date n now i result pms = ground (arith, eq_iff i.id i.id)

generate-files_of :
    (date : String) (now : ℕ) (i : Incident) (result : Option RunbookResult) (g : Generator)
    → IsUnique g
    → (files_of i.id (generate true date now i result g).1 ≡ files_of i.id g + 1)
      × IsUnique (generate true date now i result g).1
generate-files_of date now i result g h =
    let (_, made, unique) = generate-IsUnique date now i result g h in
    (ap (λ m. files_of i.id m.1) made ∙ first_of date (g.counter + 1) now i result g.files, unique)

module _ (u : Setup) (writing : (n : ℕ) → u.writes n ≡ true) where
  generate_all-files_of :
      (date : String) (now : ℕ) (i : Incident) (rs : List RunbookResult) (g : Generator)
      → IsUnique g
      → (files_of i.id (generate_all u date now i rs g) ≡ files_of i.id g + length rs)
        × IsUnique (generate_all u date now i rs g)
  unfolding generate_all
  generate_all-files_of date now i [] g h = (omega arith, h)
  generate_all-files_of date now i (r ∷ rs) g h =
      let (one, unique) = generate-files_of date now i (some r) g h in
      let (more, unique2) =
        generate_all-files_of date now i rs (generate true date now i (some r) g).1 unique in
      rw (writing (g.counter + 1), generate_all) (omega (arith, one, more), unique2)

  complete_run-files_of :
      (date : String) (now p : ℕ) (rb : Runbook) (s : Service)
      → u.env.started_raises ≡ none
      → u.env.has_hook ≡ true
      → IsUnique s.generator
      → ((complete_run u date now p rb s).0.status ≡ RunbookStatus.success
          → files_of
              ((complete_run u date now p rb s).1.world.manager.heap p).id
              (complete_run u date now p rb s).1.generator
            ≡ files_of ((complete_run u date now p rb s).1.world.manager.heap p).id s.generator + 1)
        × ((complete_run u date now p rb s).0.status ≢ RunbookStatus.success
            → files_of
                ((complete_run u date now p rb s).1.world.manager.heap p).id
                (complete_run u date now p rb s).1.generator
              ≡ files_of ((complete_run u date now p rb s).1.world.manager.heap p).id s.generator
                + 2)
        × IsUnique (complete_run u date now p rb s).1.generator
  unfolding complete_run
  complete_run-files_of date now p rb s calm hooked h =
      let i = s.world.manager.heap p in
      let w = (run u.env i rb s.world).1 in
      let new = drop (length s.world.hooks) w.hooks in
      let (count, unique) = generate_all-files_of date now (w.manager.heap p) new s.generator h in
      let (once, twice) = run_finishes u.env i rb s.world calm hooked in
      let lengths = length-drop (length s.world.hooks) w.hooks in
      (
        λ good. omega (arith, count, lengths, (once good).1),
        λ bad. omega (arith, count, lengths, (twice bad).0),
        unique,
      )

  after_resolve-generator :
      (date : String) (now p : ℕ) (s : Service)
      → (after_resolve u date now p s).generator
        ≡ (generate true date now (s.world.manager.heap p) none s.generator).1
  unfolding after_resolve generate
  after_resolve-generator date now p s = ground (arith, writing (s.generator.counter + 1))

  fsm_healthy-files_of :
      (region date : String) (resolved_at now p : ℕ) (s : Service)
      → get_active region s.world.manager ≡ some p
      → IsUnique s.generator
      → files_of (s.world.manager.heap p).id (fsm_healthy u region date resolved_at now s).generator
        ≡ files_of (s.world.manager.heap p).id s.generator + 1
  unfolding fsm_healthy
  fsm_healthy-files_of region date resolved_at now p s at h =
      let (found, _, _, _, _, same) =
        resolve_active u.env.wiring s.world.manager region resolved_at p at in
      let i = (resolve u.env.wiring region resolved_at s.world.manager).0.heap p in
      let (one, _) = generate-files_of date now i none s.generator h in
      let s1 = with_manager (resolve u.env.wiring region resolved_at s.world.manager).0 s in
      rw (found, fsm_healthy)
        (ap (λ g. files_of (s.world.manager.heap p).id g) (after_resolve-generator date now p s1)
          ∙ ap (λ id. files_of id (generate true date now i none s.generator).1) (sym same)
          ∙ one
          ∙ ap (λ id. files_of id s.generator + 1) same)

  -- When every file is written, the FSM could be told of the start, the hook is set and the ids in
  -- the store are distinct with none above the counter: an incident whose run is complete, that is
  -- still its region's active one and whose region is then healthy again has two more files in the
  -- store if the runbook succeeded, and three more if it did not.
  pub postmortems_of_incident :
      (region date day : String) (now later resolved_at p : ℕ) (rb : Runbook) (s : Service)
      → u.env.started_raises ≡ none
      → u.env.has_hook ≡ true
      → IsUnique s.generator
      → get_active region (complete_run u date now p rb s).1.world.manager ≡ some p
      → ((complete_run u date now p rb s).0.status ≡ RunbookStatus.success
          → files_of
              ((complete_run u date now p rb s).1.world.manager.heap p).id
              (fsm_healthy u region day resolved_at later
                (complete_run u date now p rb s).1).generator
            ≡ files_of ((complete_run u date now p rb s).1.world.manager.heap p).id s.generator + 2)
        × ((complete_run u date now p rb s).0.status ≢ RunbookStatus.success
            → files_of
                ((complete_run u date now p rb s).1.world.manager.heap p).id
                (fsm_healthy u region day resolved_at later
                  (complete_run u date now p rb s).1).generator
              ≡ files_of ((complete_run u date now p rb s).1.world.manager.heap p).id s.generator
                + 3)
  postmortems_of_incident region date day now later resolved_at p rb s calm hooked h at =
      let (once, twice, unique) = complete_run-files_of date now p rb s calm hooked h in
      let last =
        fsm_healthy-files_of region day resolved_at later p (complete_run u date now p rb s).1 at
          unique in
      (λ good. omega (arith, last, once good), λ bad. omega (arith, last, twice bad))

module _ (u : Setup) where
  no_notices :
      (i : Incident) (pm : Postmortem)
      → was_auto_resolved i ≡ false
      → i.escalated_to_sre ≡ false
      → pm.requires_human_review ≡ false
      → resolution_notices u i pm ≡ []
  unfolding resolution_notices
  no_notices i pm by_hand calm minor = ground arith

  -- A region that is healthy again without an active incident changes nothing. An incident that is
  -- neither P0 nor P1, was not resolved automatically and was not escalated is resolved in silence.
  pub resolved_in_silence :
      (region date : String) (resolved_at now p : ℕ) (s : Service)
      → (get_active region s.world.manager ≡ none → fsm_healthy u region date resolved_at now s ≡ s)
        × (get_active region s.world.manager ≡ some p
            → was_auto_resolved (s.world.manager.heap p) ≡ false
            → (s.world.manager.heap p).escalated_to_sre ≡ false
            → is_severe (s.world.manager.heap p).severity ≡ false
            → ((fsm_healthy u region date resolved_at now s).sent ≡ s.sent)
              × (get_active region (fsm_healthy u region date resolved_at now s).world.manager
                  ≡ none))
  unfolding fsm_healthy after_resolve generate compose
  resolved_in_silence region date resolved_at now p s =
      let m = s.world.manager in
      (
        λ idle.
            let (missing, same) = resolve_idle u.env.wiring m region resolved_at idle in
            rw (missing, fsm_healthy) (ap (λ m1. with_manager m1 s) same),
        λ at by_hand calm minor.
            let (found, ended, escalated, severity, automatic, _) =
              resolve_active u.env.wiring m region resolved_at p at in
            let i = (resolve u.env.wiring region resolved_at m).0.heap p in
            elim (Bool-cases (u.writes (s.generator.counter + 1))) [
              | inl written ↦
                  rw (found, written, fsm_healthy, after_resolve)
                    (
                      ap (λ told. s.sent ++ told)
                            (no_notices i (compose date (s.generator.counter + 1) now i none)
                              (automatic ∙ by_hand) (escalated ∙ calm)
                              (ap is_severe severity ∙ minor))
                          ∙ append-nil s.sent,
                      ended,
                    )
              | inr refused ↦ rw (found, refused, fsm_healthy, after_resolve) (refl, ended)
            ],
      )
