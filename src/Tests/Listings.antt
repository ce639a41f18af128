-- ===== src/Tests/Listings.antt =====
-- The listings of the SRE service at concrete inputs (sre-operations-05/sre/server).
use nimbus_net.Prelude.{◌≡◌, refl, List, [], ◌∷◌, length, count_if, str_eq, IsDict}
use nimbus_net.Sre.Incidents.{get_active}
use nimbus_net.Sre.Incidents.Methods.{Call, opens, escalates, resolves, run}
use nimbus_net.Sre.Server.{Service}
use nimbus_net.Sre.Server.Listings.{health, presence, health_names_active}
use nimbus_net.Tests.Incidents.{wiring, signal, fresh, fresh-WellFormed}
use nimbus_net.Tests.Handlers.{service}

abbrev calls : List Call
calls =
    opens "us-east-1" "20260101-000000" 150 signal
    ∷ opens "eu-west-1" "20260101-000001" 160 signal
    ∷ escalates "eu-west-1" 170
    ∷ opens "us-east-1" "20260101-000002" 180 signal
    ∷ resolves "us-east-1" 190
    ∷ []

abbrev later : Service
later = record service { world = record service.world { manager = run wiring calls fresh } }

fresh-IsDict : IsDict fresh.active
fresh-IsDict = tt

health_names_active_example :
    (length (health later).regions_degraded ≡ (health later).active_incidents)
    × (count_if (str_eq "eu-west-1") (health later).regions_degraded
        ≡ presence (get_active "eu-west-1" (run wiring calls fresh)))
health_names_active_example =
    health_names_active wiring calls fresh later "eu-west-1" fresh-WellFormed fresh-IsDict refl
