-- ===== src/Sre/Server.antt =====
-- sre-operations-05/sre/server/server.py: the handlers of the SRE service, as main.py puts it
-- together: the incident manager tells the notifier of each opened incident and nobody of the rest,
-- and the executor's hook generates a postmortem. A handler is one step. A run of a runbook is one
-- step too, although its thread may overlap with handlers; a thread that is started waits in
-- `threads`. What HTTP adds to an answer is left out.
pub mod Notices
pub mod Listings
pub mod Postmortems
use nimbus_net.Prelude.{
  ℕ, zero, suc, ◌+◌, String, Bool, true, false, ◌&&◌, ◌||◌, not, Option, none, some, List, [], ◌∷◌,
  ◌++◌, length, Dict, lookup, ◌≡◌, if◌then◌else◌,
}
use nimbus_net.Sre.Types.{Incident, Runbook, RunbookResult, Postmortem, was_auto_resolved}
use nimbus_net.Sre.Incidents.{
  Signal, Wiring, Manager, Callback, on_opened, on_resolved, on_escalated, open_incident,
  record_escalation, record_sre_ack, resolve, get_active, get_by_id,
}
use nimbus_net.Sre.Notifier.{
  NotificationConfig, Delivery, on_incident_opened, on_incident_auto_resolved, on_escalation,
  on_postmortem_ready,
}
use nimbus_net.Sre.Executor.{Env, World, run, execute_for_incident}
use nimbus_net.Sre.Postmortem.{Generator, generate}

-- `sent` are the deliveries of the notifier, `overrides` the regions that the control plane was told
-- to set to HEALTHY, `retrains` the fault types that a retraining was asked for, `threads` the runs
-- that were started.
pub record Service : Type 0 where
  pub world : World
  pub generator : Generator
  pub sent : List Delivery
  pub overrides : List String
  pub retrains : List String
  pub threads : List (ℕ × Runbook)

-- `reaches_ml` and `reaches_phase4` are whether a request gets through, `writes n` is whether the file
-- of the n-th postmortem is written.
pub record Setup : Type 0 where
  pub env : Env
  pub config : NotificationConfig
  pub reaches_ml : Bool
  pub reaches_phase4 : Bool
  pub writes : ℕ → Bool

-- The wiring of main.py: the manager's callback on opening, and the executor's hook.
pub record IsWired (u : Setup) : Type 0 where
  pub opened : u.env.wiring.opened_wired ≡ true
  pub resolved : u.env.wiring.resolved_wired ≡ false
  pub escalated : u.env.wiring.escalated_wired ≡ false
  pub hook : u.env.has_hook ≡ true

abbrev pub drop {ℓ} : {A : Type ℓ} → ℕ → List A → List A
drop zero xs = xs
drop (suc n) [] = []
drop (suc n) (x ∷ xs) = drop n xs

-- What the notifier delivers for the manager's callbacks.
unfoldable pub delivered : NotificationConfig → List Callback → List Delivery
delivered c [] = []
delivered c (on_opened i ∷ calls) = on_incident_opened c i ++ delivered c calls
delivered c (on_resolved i ∷ calls) = delivered c calls
delivered c (on_escalated i ∷ calls) = delivered c calls

abbrev pub with_manager : Manager → Service → Service
with_manager m s = record s { world = record s.world { manager = m } }

module _ (u : Setup) where
  -- `incident_manager.open` with its callback.
  unfoldable pub opening : String → String → ℕ → Signal → Service → ℕ × Service
  opening region stamp now signal s =
      let m = s.world.manager in
      let (m1, p) = open_incident u.env.wiring region stamp now signal m in
      (
        p,
        record (with_manager m1 s) {
          sent = s.sent ++ delivered u.config (drop (length m.calls) m1.calls);
        },
      )

  -- `alive` is whether the thread of the region's entry, if there is one, still runs.
  unfoldable pub fsm_degraded : Bool → String → String → ℕ → Signal → Service → ℕ × Service
  fsm_degraded alive region stamp now signal s =
      let (p, s1) = opening region stamp now signal s in
      let i = s1.world.manager.heap p in
      let (started, w) = execute_for_incident alive i s1.world in
      (
        p,
        record s1 {
          world = w;
          sent = s1.sent ++ on_incident_opened u.config i;
          threads = elim started [ none ↦ s1.threads | some rb ↦ s1.threads ++ (p, rb) ∷ [] ];
        },
      )

  -- The incident that `fsm_failed` makes up if there is none; `detected` is `time.time_ns()`.
  abbrev pub made_up : ℕ → Signal
  made_up detected = record {
    detected_at_ns = detected;
    fault_type = "UNKNOWN";
    xgb_severity = "CRITICAL";
    if_score = 900000;
    lstm_confidence = 0;
    rtt_ewma_us = 0;
    retransmit_rate = 0;
  }

  unfoldable pub incident_of : String → String → ℕ → ℕ → Service → ℕ × Service
  incident_of region stamp detected now s = elim (get_active region s.world.manager) [
    | some p ↦ (p, s)
    | none ↦ opening region stamp now (made_up detected) s
  ]

  -- `escalated_at` is the clock in `record_escalation`.
  unfoldable pub fsm_failed : String → String → String → ℕ → ℕ → ℕ → Service → ℕ × Service
  fsm_failed region reason stamp detected now escalated_at s =
      let (p, s1) = incident_of region stamp detected now s in
      let m = record_escalation u.env.wiring region escalated_at s1.world.manager in
      (p, record (with_manager m s1) { sent = s1.sent ++ on_escalation u.config (m.heap p) reason })

  -- Who is told that an incident was resolved.
  unfoldable pub resolution_notices : Incident → Postmortem → List Delivery
  resolution_notices i pm =
      (if was_auto_resolved i
        then on_incident_auto_resolved u.config i pm
        else if i.escalated_to_sre
        then on_incident_auto_resolved u.config i pm
        else [])
      ++ (if pm.requires_human_review then on_postmortem_ready u.config pm else [])

  -- The part of `fsm_healthy` behind `resolve`, for the incident that it returned. Where the file of
  -- the postmortem is refused, the handler ends with an exception.
  unfoldable pub after_resolve : String → ℕ → ℕ → Service → Service
  after_resolve date now p s =
      let i = s.world.manager.heap p in
      let (made, g) = generate (u.writes (s.generator.counter + 1)) date now i none s.generator in
      elim made [
        | none ↦ record s { generator = g }
        | some pm ↦ record s {
          generator = g;
          sent = s.sent ++ resolution_notices i pm;
          retrains =
              if pm.ml_retrain_triggered && u.reaches_ml
              then s.retrains ++ i.fault_type ∷ []
              else s.retrains;
        }
      ]

  unfoldable pub fsm_healthy : String → String → ℕ → ℕ → Service → Service
  fsm_healthy region date resolved_at now s =
      let (m, found) = resolve u.env.wiring region resolved_at s.world.manager in
      elim found [ none ↦ with_manager m s | some p ↦ after_resolve date now p (with_manager m s) ]

  -- The control plane is told; whether that works makes no difference here.
  unfoldable pub runbook_failed : String → Service → Service
  runbook_failed region s = elim (get_active region s.world.manager) [
    | none ↦ s
    | some p ↦ record s {
      sent =
          s.sent ++ on_escalation u.config (s.world.manager.heap p) "Runbook exhausted all retries";
    }
  ]

  -- `none` is the 404.
  unfoldable pub ack_incident : String → ℕ → Service → Option Service
  ack_incident incident_id now s = elim (get_by_id incident_id s.world.manager) [
    | none ↦ none
    | some p ↦ some (
        with_manager
          (record_sre_ack u.env.wiring (s.world.manager.heap p).region now s.world.manager) s)
  ]

  -- `none` is the 404, or the exception of a control plane that is not reached.
  unfoldable pub resolve_incident : String → Service → Option Service
  resolve_incident incident_id s = elim (get_by_id incident_id s.world.manager) [
    | none ↦ none
    | some p ↦
        if u.reaches_phase4
        then some (record s { overrides = s.overrides ++ (s.world.manager.heap p).region ∷ [] })
        else none
  ]

  -- The hook of main.py, for each call that a run has made. The executor catches its exception.
  unfoldable pub generate_all : String → ℕ → Incident → List RunbookResult → Generator → Generator
  generate_all date now i [] g = g
  generate_all date now i (r ∷ rs) g =
      generate_all date now i rs (generate (u.writes (g.counter + 1)) date now i (some r) g).1

  -- The thread of a run, from its start to its end. The hook's incident is the shared object.
  unfoldable pub complete_run : String → ℕ → ℕ → Runbook → Service → RunbookResult × Service
  complete_run date now p rb s =
      let (r, w) = run u.env (s.world.manager.heap p) rb s.world in
      (
        r,
        record s {
          world = w;
          generator =
              generate_all date now (w.manager.heap p) (drop (length s.world.hooks) w.hooks)
                s.generator;
        },
      )
