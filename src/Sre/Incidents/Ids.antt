-- ===== src/Sre/Incidents/Ids.antt =====
-- `_new_incident_id` of sre-operations-05/sre/runbooks/incident_manager.py.
use Prim.Native.Char.{code}
use nimbus_net.Prelude.{ℕ, zero, suc, ◌≡◌, refl, String, ◌==◌, if◌then◌else◌}
use nimbus_net.Prelude.Text.{◌++ₛ◌}

-- region.replace("-", "")
unfoldable pub without_dashes : String → String
without_dashes String.[] = String.[]
without_dashes (String.◌∷◌ c s) =
    let rest = without_dashes s in if code c == b'-' then rest else String.◌∷◌ c rest

-- s[:n]
unfoldable pub prefix : ℕ → String → String
prefix zero s = String.[]
prefix (suc n) String.[] = String.[]
prefix (suc n) (String.◌∷◌ c s) = String.◌∷◌ c (prefix n s)

unfoldable pub short_region : String → String
unfolding without_dashes prefix
short_region region = prefix 6 (without_dashes region)

-- `stamp` is the text that `time.strftime("%Y%m%d-%H%M%S", time.gmtime())` gives.
unfoldable pub new_incident_id : String → String → String
unfolding short_region
new_incident_id stamp region = "INC-" ++ₛ stamp ++ₛ "-" ++ₛ short_region region

two_regions_one_id :
    new_incident_id "20260101-000000" "us-east-1" ≡ new_incident_id "20260101-000000" "us-east-2"
unfolding new_incident_id
two_regions_one_id = refl
