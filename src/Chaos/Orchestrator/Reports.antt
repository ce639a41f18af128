-- ===== src/Chaos/Orchestrator/Reports.antt =====
-- The figures of a game day's report (chaos-ci-gate-06/chaos/gameday.py).
use nimbus_net.Prelude.{
  ◌+◌, ◌≡◌, ◌∙◌, none, refl, String, arith, List, [], ◌∷◌, length, map, List-cases, inl, inr, max,
}
use nimbus_net.Chaos.Injector.{Env, Rig}
use nimbus_net.Chaos.Orchestrator.{
  GameDayScenario, ScenarioResult, pause, run_multiphase, run_all, run_session, report_of,
  failed_names, passed_count, investigations, generate_action_items, scenarios_or_standard,
}

length-run_all :
    (e : Env) (ss : List GameDayScenario) (r : Rig) → length (run_all e ss r).0 ≡ length ss
unfolding run_all
length-run_all e [] r = refl
length-run_all e (s ∷ ss) r =
    ground (arith, length-run_all e ss (pause e 30 none (run_multiphase e s r).1))

length-failed_names :
    (ss : List GameDayScenario) (rs : List ScenarioResult)
    → length rs ≡ length ss
    → length (failed_names ss rs) + passed_count rs ≡ length rs
unfolding failed_names
length-failed_names [] [] h = refl
length-failed_names [] (r ∷ rs) h = absurd (omega arith)
length-failed_names (s ∷ ss) [] h = absurd (omega arith)
length-failed_names (s ∷ ss) (r ∷ rs) h = ground (arith, length-failed_names ss rs)

length-investigations :
    (rs : List ScenarioResult) → length (investigations rs) + passed_count rs ≡ length rs
unfolding investigations
length-investigations [] = refl
length-investigations (r ∷ rs) = ground (arith, length-investigations rs)

length-generate_action_items :
    (rs : List ScenarioResult)
    → length (generate_action_items rs) ≡ max 1 (length (investigations rs))
unfolding generate_action_items
length-generate_action_items rs = elim (List-cases (investigations rs)) [
  | inl e ↦ rw (e, generate_action_items) refl
  | inr (x, xs, e) ↦ rw (e, generate_action_items) (omega arith)
]

length-map_names :
    (ss : List GameDayScenario) → length (map (λ (s : GameDayScenario). s.name) ss) ≡ length ss
length-map_names [] = refl
length-map_names (s ∷ ss) = omega (arith, length-map_names ss)

-- The figures of a report fit together: the passed and the failed scenarios are those that were
-- run, one postmortem is asked for each failed one, and there is one action item for each failed
-- one, or a single one if none failed.
pub run_session_adds_up :
    (e : Env) (given : List GameDayScenario) (date facilitator : String) (observers : List String)
    (r : Rig)
    → let rep = (run_session e given date facilitator observers r).0 in
      (rep.scenarios_passed + rep.scenarios_failed ≡ length rep.scenarios_run)
      × (length rep.postmortem_triggers ≡ rep.scenarios_failed)
      × (length rep.action_items ≡ max 1 rep.scenarios_failed)
unfolding run_session report_of
run_session_adds_up e given date facilitator observers r =
    let ss = scenarios_or_standard given in
    let rs = (run_all e ss r).0 in
    let ran = length-run_all e ss r in
    let names = length-map_names ss in
    let failed = length-failed_names ss rs ran in
    (
      omega (arith, ran, names, failed),
      omega (arith, failed),
      length-generate_action_items rs ∙ omega (arith, length-investigations rs),
    )
