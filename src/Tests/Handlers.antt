-- ===== src/Tests/Handlers.antt =====
-- The handlers and the postmortems at concrete inputs (sre-operations-05/sre).
use nimbus_net.Prelude.{
  ℕ, List, false, ◌+◌, ◌≡◌, ◌≢◌, refl, String, true, none, some, [], ◌∷◌, ◌++◌, lookup, insert,
}
use nimbus_net.Sre.Types.{RunbookStatus}
use nimbus_net.Sre.Incidents.{
  open_incident, create, persist, update, get_active, get_by_id, Manager, record_runbook_result,
  change_active, record_runbook_progress, record_runbook_started,
}
use nimbus_net.Sre.Incidents.Ids.{new_incident_id, short_region}
use nimbus_net.Sre.Notifier.{on_escalation}
use nimbus_net.Sre.Executor.{run, finish, run_body, run_steps, execute_step, run_command}
use nimbus_net.Sre.Postmortem.{Generator, compose, generate, get}
use nimbus_net.Sre.Postmortem.Ids.{IsDistinct}
use nimbus_net.Sre.Postmortem.Numbers.{IsNumbered}
use nimbus_net.Sre.Postmortem.Histories.{
  Deed, generates, restarts, deeds, generate_new_file, refused_write_overwrites,
}
use nimbus_net.Sre.Server.{
  Service, Setup, IsWired, incident_of, fsm_failed, fsm_healthy, complete_run,
}
use nimbus_net.Sre.Server.Notices.{failed_escalates}
use nimbus_net.Sre.Server.Postmortems.{files_of, postmortems_of_incident}
use nimbus_net.Tests.Incidents.{wiring, signal, fresh, healed_once}
use nimbus_net.Tests.Service.{config, env, world, short, incident}

abbrev generator : Generator
generator = record { counter = 0; files = [] }

generator-IsNumbered : IsNumbered generator
unfolding IsDistinct
generator-IsNumbered = record { unique = record { distinct = tt; bounded = tt }; counted = refl }

-- The second postmortem's file is refused.
abbrev before : List Deed
before = generates true "20260101" 5 incident none ∷ restarts ∷ []

abbrev after : List Deed
after = generates false "20260101" 7 incident none ∷ []

generate_new_file_example :
    (get
        (record { date = "20260102"; number = (deeds (before ++ after) generator).counter + 1 })
        (deeds (before ++ after) generator)
      ≡ none)
    × (generate true "20260102" 9 incident none (deeds (before ++ after) generator) ≡ (
      some (compose "20260102" ((deeds (before ++ after) generator).counter + 1) 9 incident none),
      record {
        counter = (deeds (before ++ after) generator).counter + 1;
        files =
            compose "20260102" ((deeds (before ++ after) generator).counter + 1) 9 incident none
            ∷ (deeds (before ++ after) generator).files;
      },
    ))
generate_new_file_example =
    generate_new_file before after generator "20260102" 9 incident none (refl, (refl, tt))
      (refl, tt) generator-IsNumbered

refused_write_overwrites_example :
    (deeds
      (generates false "20260101" 5 incident none
        ∷ generates true "20260101" 6 incident none
        ∷ restarts
        ∷ generates true "20260101" 7 incident none
        ∷ [])
      generator).files
    ≡ compose "20260101" 2 7 incident none ∷ []
refused_write_overwrites_example =
    refused_write_overwrites "20260101" 5 6 7 incident incident incident none none none generator
      generator-IsNumbered

abbrev setup : Setup
setup = record {
  env = env;
  config = config;
  reaches_ml = true;
  reaches_phase4 = true;
  writes = λ n. true;
}

setup-IsWired : IsWired setup
setup-IsWired = record { opened = refl; resolved = refl; escalated = refl; hook = refl }

abbrev pub service : Service
service = record {
  world = record world { manager = fresh };
  generator = generator;
  sent = [];
  overrides = [];
  retrains = [];
  threads = [];
}

-- A service with an active incident.
abbrev busy : Service
busy = record service { world = world }

fresh_idle : get_active "us-east-1" fresh ≡ none
unfolding get_active lookup
fresh_idle = refl

abbrev reason : String
reason = "Healing TTL exhausted"

failed_escalates_example :
    (get_active "us-east-1"
        (fsm_failed setup "us-east-1" reason "20260101-000000" 1 2 3 service).1.world.manager
      ≡ some (fsm_failed setup "us-east-1" reason "20260101-000000" 1 2 3 service).0)
    × (((fsm_failed setup "us-east-1" reason "20260101-000000" 1 2 3 service).1.world.manager.heap
          (fsm_failed setup "us-east-1" reason "20260101-000000" 1 2 3 service).0).escalated_to_sre
        ≡ true)
    × ((fsm_failed setup "us-east-1" reason "20260101-000000" 1 2 3 service).1.sent
        ≡ (incident_of setup "us-east-1" "20260101-000000" 1 2 service).1.sent
          ++ on_escalation config
              ((fsm_failed setup "us-east-1" reason "20260101-000000" 1 2 3
                  service).1.world.manager.heap
                (fsm_failed setup "us-east-1" reason "20260101-000000" 1 2 3 service).0)
              reason)
failed_escalates_example =
    failed_escalates setup setup-IsWired "us-east-1" reason "20260101-000000" 1 2 3 service

-- The first incident of a region was mitigated, and the region degraded again.
abbrev again : Manager
again = (open_incident wiring "us-east-1" "20260101-000500" 500 signal healed_once).0

abbrev twice : Service
twice = record service { world = record world { manager = again } }

abbrev first_id : String
first_id = new_incident_id "20260101-000000" "us-east-1"

abbrev first : ℕ
first = 0

first_by_id : get_by_id first_id again ≡ some first
unfolding get_by_id lookup insert open_incident create persist update record_runbook_result
    change_active new_incident_id short_region
first_by_id = refl

second_active : get_active (again.heap first).region again ≡ some 1
unfolding get_active lookup insert open_incident create persist update record_runbook_result
    change_active
second_active = refl

busy_active :
    get_active "us-east-1" (complete_run setup "20260101" 700 0 short busy).1.world.manager ≡ some 0
unfolding complete_run run get_active lookup finish record_runbook_result change_active run_body
    run_steps execute_step run_command record_runbook_progress record_runbook_started open_incident
    insert
busy_active = refl

-- The service, and the incident's id, when the runbook is through.
abbrev over : Service
over = (complete_run setup "20260101" 700 0 short busy).1

postmortems_of_incident_example :
    ((complete_run setup "20260101" 700 0 short busy).0.status ≡ RunbookStatus.success
      → files_of
          (over.world.manager.heap 0).id
          (fsm_healthy setup "us-east-1" "20260101" 900 901 over).generator
        ≡ 2)
    × ((complete_run setup "20260101" 700 0 short busy).0.status ≢ RunbookStatus.success
        → files_of
            (over.world.manager.heap 0).id
            (fsm_healthy setup "us-east-1" "20260101" 900 901 over).generator
          ≡ 3)
postmortems_of_incident_example =
    postmortems_of_incident setup (λ n. refl) "us-east-1" "20260101" "20260101" 700 901 900 0 short
      busy refl refl generator-IsNumbered.unique busy_active
