-- ===== src/Sre/Notifier/Routing.antt =====
-- The notification matrix of sre-operations-05/sre/notifications/notifier.py.
use nimbus_net.Prelude.{ℕ, ◌≡◌, ◌≢◌, ◌⊎◌, String, Bool, true, false, arith, eq_iff, List, count_if}
use nimbus_net.Prelude.Text.{contains, contains_lower}
use nimbus_net.Sre.Types.{Incident, p0, p1, Postmortem}
use nimbus_net.Sre.Notifier.{
  NotificationConfig, Delivery, log_slack, post_slack, log_page, post_page, on_incident_opened,
  on_incident_auto_resolved, should_page, on_escalation, on_postmortem_ready,
  on_runbook_step_update,
}

-- A page, sent or only logged.
abbrev pub is_page : Delivery → Bool
is_page (log_slack _) = false
is_page (post_slack _ _) = false
is_page (log_page _ _) = true
is_page (post_page _ _) = true

abbrev pub pages : List Delivery → ℕ
pages = count_if is_page

-- A page that leaves the service.
abbrev pub is_sent_page : Delivery → Bool
is_sent_page (log_slack _) = false
is_sent_page (post_slack _ _) = false
is_sent_page (log_page _ _) = false
is_sent_page (post_page _ _) = true

module _ (c : NotificationConfig) where
  -- Under any configuration, an opened incident, an automatically resolved one, a postmortem that
  -- is ready and the progress of a runbook page nobody, not even in a dry run.
  pub only_escalation_pages :
      (i : Incident) (pm : Postmortem) (id region : String) (step total : ℕ)
      → (pages (on_incident_opened c i) ≡ 0)
        × (pages (on_incident_auto_resolved c i pm) ≡ 0)
        × (pages (on_postmortem_ready c pm) ≡ 0)
        × (pages (on_runbook_step_update c id region step total) ≡ 0)
  unfolding on_incident_opened on_incident_auto_resolved on_postmortem_ready on_runbook_step_update
  only_escalation_pages i pm id region step total =
      (ground arith, ground arith, ground arith, ground arith)

  -- With a routing key and outside a dry run, an escalation sends exactly one page if the incident
  -- is P0 or P1 or the reason has "TTL" in it or, in any case of letters, "cold standby"; otherwise
  -- it sends none.
  pub on_escalation_pages :
      (i : Incident) (reason : String)
      → c.dry_run ≡ false
      → c.pagerduty_routing_key ≢ ""
      → ((i.severity ≡ p0)
            ⊎ ((i.severity ≡ p1)
                ⊎ ((contains "TTL" reason ≡ true) ⊎ (contains_lower "cold standby" reason ≡ true)))
          → count_if is_sent_page (on_escalation c i reason) ≡ 1)
        × ((i.severity ≢ p0)
            → (i.severity ≢ p1)
            → contains "TTL" reason ≡ false
            → contains_lower "cold standby" reason ≡ false
            → count_if is_sent_page (on_escalation c i reason) ≡ 0)
  unfolding on_escalation should_page
  on_escalation_pages i reason live key = (
    ground (arith, eq_iff c.pagerduty_routing_key ""),
    ground (arith, eq_iff c.pagerduty_routing_key ""),
  )

  -- Once a webhook is configured, the channel that a message is meant for reaches nobody: whatever
  -- the two channel names are, the same requests are made for every event.
  pub channel_is_lost :
      (alerts fyi : String) (i : Incident) (pm : Postmortem) (reason : String)
      → c.dry_run ≡ false
      → c.slack_webhook_url ≢ ""
      → (on_incident_opened (record c { slack_alerts_channel = alerts; slack_fyi_channel = fyi }) i
          ≡ on_incident_opened c i)
        × (on_incident_auto_resolved
              (record c { slack_alerts_channel = alerts; slack_fyi_channel = fyi })
              i
              pm
            ≡ on_incident_auto_resolved c i pm)
        × (on_escalation
              (record c { slack_alerts_channel = alerts; slack_fyi_channel = fyi })
              i
              reason
            ≡ on_escalation c i reason)
        × (on_postmortem_ready
              (record c { slack_alerts_channel = alerts; slack_fyi_channel = fyi })
              pm
            ≡ on_postmortem_ready c pm)
  unfolding on_incident_opened on_incident_auto_resolved on_escalation on_postmortem_ready
      should_page
  channel_is_lost alerts fyi i pm reason live url = (
    ground (arith, eq_iff c.slack_webhook_url ""),
    ground (arith, eq_iff c.slack_webhook_url ""),
    ground (arith, eq_iff c.slack_webhook_url ""),
    ground (arith, eq_iff c.slack_webhook_url ""),
  )
