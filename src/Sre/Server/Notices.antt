-- ===== src/Sre/Server/Notices.antt =====
-- Who is told of an incident (sre-operations-05/sre/server/server.py and main.py).
use nimbus_net.Prelude.{
  ℕ, ◌≡◌, ◌≢◌, refl, arith, String, Bool, true, none, some, List, [], ◌∷◌, ◌++◌, length,
  Option-cases, inl, inr, dict_laws,
}
use mathlib.Core.List.{append-nil}
use nimbus_net.Sre.Types.{Incident}
use nimbus_net.Sre.Incidents.{
  Signal, Wiring, Manager, Callback, on_opened, create, persist, open_incident, update,
  record_escalation, record_sre_ack, change_active, get_active, get_by_id,
}
use nimbus_net.Sre.Notifier.{NotificationConfig, on_incident_opened, on_escalation}
use nimbus_net.Sre.Executor.{execute_for_incident}
use nimbus_net.Sre.Server.{
  Service, Setup, IsWired, drop, delivered, with_manager, opening, fsm_degraded, incident_of,
  fsm_failed, ack_incident, made_up,
}

drop-append : (cs ds : List Callback) → drop (length cs) (cs ++ ds) ≡ ds
drop-append [] ds = refl
drop-append (c ∷ cs) ds = drop-append cs ds

delivered-opened :
    (c : NotificationConfig) (i : Incident)
    → delivered c (on_opened i ∷ []) ≡ on_incident_opened c i
unfolding delivered
delivered-opened c i = append-nil (on_incident_opened c i)

module _ (w : Wiring) (m : Manager) (region : String) where
  record_escalation-active :
      (now p : ℕ)
      → get_active region m ≡ some p
      → (get_active region (record_escalation w region now m) ≡ some p)
        × (((record_escalation w region now m).heap p).escalated_to_sre ≡ true)
  unfolding record_escalation get_active persist update
  record_escalation-active now p at = rw (at, record_escalation) (at, ground arith)

  record_sre_ack-active :
      (now p q : ℕ)
      → get_active region m ≡ some p
      → q ≢ p
      → ((record_sre_ack w region now m).heap q ≡ m.heap q)
        × (((record_sre_ack w region now m).heap p).sre_acknowledged ≡ true)
  unfolding record_sre_ack change_active get_active persist update
  record_sre_ack-active now p q at other = rw (at, change_active) (ground arith, ground arith)

module _ (u : Setup) (wired : IsWired u) where
  opening_new :
      (region stamp : String) (now : ℕ) (signal : Signal) (s : Service)
      → get_active region s.world.manager ≡ none
      → ((opening u region stamp now signal s).1.sent
          ≡ s.sent
            ++ on_incident_opened u.config (
                (opening u region stamp now signal s).1.world.manager.heap
                  (opening u region stamp now signal s).0))
        × (get_active region (opening u region stamp now signal s).1.world.manager
            ≡ some (opening u region stamp now signal s).0)
  unfolding opening get_active open_incident create persist update
  opening_new region stamp now signal s new =
      rw (new, open_incident, wired.opened, drop-append, delivered-opened)
        (ground arith, simp dict_laws)

  -- An incident that the control plane reports for a region without one is announced twice: once by
  -- the manager's callback and once by the handler, with the same message.
  pub opened_twice :
      (alive : Bool) (region stamp : String) (now : ℕ) (signal : Signal) (s : Service)
      → get_active region s.world.manager ≡ none
      → ((fsm_degraded u alive region stamp now signal s).1.sent
          ≡ s.sent
            ++ on_incident_opened u.config (
                (opening u region stamp now signal s).1.world.manager.heap
                  (opening u region stamp now signal s).0)
            ++ on_incident_opened u.config (
                (opening u region stamp now signal s).1.world.manager.heap
                  (opening u region stamp now signal s).0))
        × (get_active region (fsm_degraded u alive region stamp now signal s).1.world.manager
            ≡ some (fsm_degraded u alive region stamp now signal s).0)
  unfolding fsm_degraded execute_for_incident
  opened_twice alive region stamp now signal s new =
      let (told, active) = opening_new region stamp now signal s new in
      (rw told refl, ground (arith, active))

  incident_of-active :
      (region stamp : String) (detected now : ℕ) (s : Service)
      → get_active region (incident_of u region stamp detected now s).1.world.manager
        ≡ some (incident_of u region stamp detected now s).0
  unfolding incident_of
  incident_of-active region stamp detected now s =
      elim (Option-cases (get_active region s.world.manager)) [
        | inl new ↦
            rw (new, incident_of) (opening_new region stamp now (made_up u detected) s new).1
        | inr (p, at) ↦ rw (at, incident_of) at
      ]

  -- After the FSM reports a region as failed, the region has an active incident that is escalated,
  -- whether it had one before or not, and the last deliveries are those of its escalation.
  pub failed_escalates :
      (region reason stamp : String) (detected now escalated_at : ℕ) (s : Service)
      → (get_active region
            (fsm_failed u region reason stamp detected now escalated_at s).1.world.manager
          ≡ some (fsm_failed u region reason stamp detected now escalated_at s).0)
        × (((fsm_failed u region reason stamp detected now escalated_at s).1.world.manager.heap
              (fsm_failed u region reason stamp detected now escalated_at s).0).escalated_to_sre
            ≡ true)
        × ((fsm_failed u region reason stamp detected now escalated_at s).1.sent
            ≡ (incident_of u region stamp detected now s).1.sent
              ++ on_escalation u.config
                  ((fsm_failed u region reason stamp detected now escalated_at
                      s).1.world.manager.heap
                    (fsm_failed u region reason stamp detected now escalated_at s).0)
                  reason)
  unfolding fsm_failed
  failed_escalates region reason stamp detected now escalated_at s =
      let (p, s1) = incident_of u region stamp detected now s in
      let at = incident_of-active region stamp detected now s in
      let (kept, escalated) =
        record_escalation-active u.env.wiring s1.world.manager region escalated_at p at in
      (kept, escalated, refl)

module _ (u : Setup) where
  -- An incident is acknowledged by its id, but the acknowledgement goes to the active incident of
  -- its region: if that is another one by now, the incident of the id is left as it was and the
  -- other one is acknowledged.
  pub ack_hits_active :
      (id : String) (now p q : ℕ) (s : Service)
      → get_by_id id s.world.manager ≡ some q
      → get_active (s.world.manager.heap q).region s.world.manager ≡ some p
      → q ≢ p
      → (s' : Service) × (ack_incident u id now s ≡ some s')
        × (s'.world.manager.heap q ≡ s.world.manager.heap q)
        × ((s'.world.manager.heap p).sre_acknowledged ≡ true)
  unfolding ack_incident
  ack_hits_active id now p q s by_id active other =
      let m = s.world.manager in
      let (untouched, acknowledged) =
        record_sre_ack-active u.env.wiring m (m.heap q).region now p q active other in
      (
        with_manager (record_sre_ack u.env.wiring (m.heap q).region now m) s,
        rw (by_id, ack_incident) refl,
        untouched,
        acknowledged,
      )
