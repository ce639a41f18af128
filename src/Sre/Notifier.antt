-- ===== src/Sre/Notifier.antt =====
-- sre-operations-05/sre/notifications/notifier.py: who is told of what. A method is the list of
-- the deliveries that it makes, in order. A request that fails is caught and logged, so a delivery
-- is the attempt. The texts are kept as what they are formatted from (`Text`).
pub mod Routing
use nimbus_net.Prelude.{
  ℕ, zero, suc, ◌%◌, String, Bool, true, false, ◌||◌, List, [], ◌∷◌, ◌++◌, ◌==◌, str_eq,
  if◌then◌else◌, Option, some, none,
}
use nimbus_net.Prelude.Text.{contains, contains_lower}
use nimbus_net.Sre.Types.{Incident, IncidentSeverity, p0, p1, p2, p3, Postmortem}

pub record NotificationConfig : Type 0 where
  pub slack_webhook_url : String
  pub slack_alerts_channel : String
  pub slack_fyi_channel : String
  pub pagerduty_routing_key : String
  pub pagerduty_api_url : String
  pub dry_run : Bool

-- What a message says.
pub data Text : Type 0 where
  incident_opened : Incident → Text
  auto_resolved : Incident → Postmortem → Text
  escalation : Incident → String → Text
  postmortem_review : Postmortem → Text
  progress : String → String → ℕ → ℕ → Text

-- An event of the PagerDuty Events API.
pub record PageEvent : Type 0 where
  pub routing_key : String
  pub dedup_key : String
  pub severity : String
  pub incident : Incident
  pub reason : String

-- `log_` deliveries are dry runs: the channel goes to the log. A request carries the url and the
-- text.
pub data Delivery : Type 0 where
  log_slack : String → Delivery
  post_slack : String → Text → Delivery
  log_page : String → IncidentSeverity → Delivery
  post_page : String → PageEvent → Delivery

abbrev pub is_severe : IncidentSeverity → Bool
is_severe p0 = true
is_severe p1 = true
is_severe p2 = false
is_severe p3 = false

abbrev pub pd_severity : IncidentSeverity → String
pd_severity p0 = "critical"
pd_severity p1 = "error"
pd_severity p2 = "warning"
pd_severity p3 = "info"

module _ (c : NotificationConfig) where
  unfoldable pub slack : String → Text → List Delivery
  slack channel text =
      if c.dry_run || str_eq c.slack_webhook_url ""
      then log_slack channel ∷ []
      else post_slack c.slack_webhook_url text ∷ []

  unfoldable pub pagerduty : Incident → String → List Delivery
  pagerduty i reason =
      if c.dry_run || str_eq c.pagerduty_routing_key ""
      then log_page i.id i.severity ∷ []
      else post_page c.pagerduty_api_url (record {
        routing_key = c.pagerduty_routing_key;
        dedup_key = i.id;
        severity = pd_severity i.severity;
        incident = i;
        reason = reason;
      })
        ∷ []

  unfoldable pub on_incident_opened : Incident → List Delivery
  unfolding slack
  on_incident_opened i =
      slack (if is_severe i.severity then c.slack_alerts_channel else c.slack_fyi_channel)
        (incident_opened i)

  unfoldable pub on_incident_auto_resolved : Incident → Postmortem → List Delivery
  unfolding slack
  on_incident_auto_resolved i pm = slack c.slack_fyi_channel (auto_resolved i pm)

  unfoldable pub should_page : Incident → String → Bool
  should_page i reason =
      is_severe i.severity || (contains "TTL" reason || contains_lower "cold standby" reason)

  unfoldable pub on_escalation : Incident → String → List Delivery
  unfolding slack pagerduty
  on_escalation i reason =
      slack c.slack_alerts_channel (escalation i reason)
      ++ (if should_page i reason then pagerduty i reason else [])

  unfoldable pub on_postmortem_ready : Postmortem → List Delivery
  unfolding slack
  on_postmortem_ready pm =
      if pm.requires_human_review then slack c.slack_alerts_channel (postmortem_review pm) else []

  unfoldable pub on_runbook_step_update : String → String → ℕ → ℕ → List Delivery
  unfolding slack
  on_runbook_step_update incident_id region step total =
      if step % 3 == 0
      then slack c.slack_fyi_channel (progress incident_id region step total)
      else []
