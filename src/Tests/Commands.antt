-- ===== src/Tests/Commands.antt =====
-- The command line of the chaos gate at concrete inputs (chaos-ci-gate-06/runner).
use nimbus_net.Prelude.{◌≡◌, none, some, [], ◌∷◌, true}
use nimbus_net.Chaos.Runner.Command.{Arguments, Store, ci, main, main_never_passes}
use nimbus_net.Tests.Faults.{env, rig}

abbrev update_on_ci : Arguments
update_on_ci = record { suite = ci; scenario = none; update_baseline = true }

abbrev store : Store
store = record { baseline = some (("high_latency", 4000) ∷ []); results = [] }

main_never_passes_example :
    ((main env none update_on_ci store rig).0 ≡ 1)
    × ((main env none update_on_ci store rig).1.baseline ≡ store.baseline)
main_never_passes_example = main_never_passes env none update_on_ci store rig
