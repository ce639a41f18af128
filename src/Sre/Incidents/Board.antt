-- ===== src/Sre/Incidents/Board.antt =====
-- What the manager of sre-operations-05/sre/runbooks/incident_manager.py promises, without ids,
-- objects, files and callbacks: a board with at most one entry for each region.
use nimbus_net.Prelude.{
  ℕ, ◌≡◌, refl, ap, ◌∙◌, String, Bool, true, false, none, some, Option, arith, eq_iff, str_eq,
  lookup, dict_laws, Option-cases, Bool-cases, inl, inr, List, [], ◌∷◌, if◌then◌else◌,
}
use nimbus_net.Sre.Types.{
  Incident, IncidentStatus, opened, mitigated, Verdict, RunbookStatus, RunbookResult,
}
use nimbus_net.Sre.Incidents.{
  Signal, Wiring, Manager, update, is_opened, with_result, create, persist, open_incident,
  change_active, record_escalation, resolve, record_runbook_started, record_runbook_progress,
  record_runbook_result, record_sre_ack,
}
use nimbus_net.Sre.Incidents.Invariant.{WellFormed}
use nimbus_net.Sre.Incidents.Methods.{
  Call, opens, starts, progresses, finishes, escalates, acknowledges, resolves, call, run,
  call-WellFormed,
}

pub record Entry : Type 0 where
  pub status : IncidentStatus
  pub verdict : Option Verdict
  pub escalated : Bool
  pub acknowledged : Bool

abbrev pub Board : Type 0
Board = String → Option Entry

abbrev pub entry : Incident → Entry
entry i = record {
  status = i.status;
  verdict = i.runbook_result;
  escalated = i.escalated_to_sre;
  acknowledged = i.sre_acknowledged;
}

abbrev pub at_place : (ℕ → Incident) → Option ℕ → Option Entry
at_place heap none = none
at_place heap (some p) = some (entry (heap p))

unfoldable pub board : Manager → Board
board m r = at_place m.heap (lookup r m.active)

abbrev pub new_entry : Entry
new_entry = record { status = opened; verdict = none; escalated = false; acknowledged = false }

abbrev pub change_entry : (Entry → Entry) → Option Entry → Option Entry
change_entry f none = none
change_entry f (some x) = some (f x)

-- An open entry stays, a mitigated one gives way to a new one.
abbrev pub reopened : Option Entry → Option Entry
reopened none = some new_entry
reopened (some x) = if is_opened x.status then some x else some new_entry

abbrev pub finished : RunbookStatus → Entry → Entry
finished RunbookStatus.success x = record x { verdict = some Verdict.success; status = mitigated }
finished RunbookStatus.timeout x = record x { verdict = some Verdict.timeout }
finished _ x = record x { verdict = some Verdict.failure }

-- What a call does to the entry of its region.
unfoldable pub promised : Call → Option Entry → Option Entry
promised (opens region stamp now s) x = reopened x
promised (starts region id total) x = x
promised (progresses region n) x = x
promised (finishes region r) x = change_entry (finished r.status) x
promised (escalates region now) x = change_entry (λ y. record y { escalated = true }) x
promised (acknowledges region now) x = change_entry (λ y. record y { acknowledged = true }) x
promised (resolves region now) x = none

abbrev pub region_of : Call → String
region_of (opens region stamp now s) = region
region_of (starts region id total) = region
region_of (progresses region n) = region
region_of (finishes region r) = region
region_of (escalates region now) = region
region_of (acknowledges region now) = region
region_of (resolves region now) = region

unfoldable pub step : Call → Board → Board
unfolding promised
step c b r = if str_eq (region_of c) r then promised c (b r) else b r

unfoldable pub steps : List Call → Board → Board
unfolding step
steps [] b = b
steps (c ∷ cs) b = steps cs (step c b)

-- A change of the active incident of a region is seen in the entry of that region alone.
at_place-update :
    (m : Manager) (h : WellFormed m) (region r : String) (p : ℕ) (i : Incident)
    → lookup region m.active ≡ some p
    → at_place (update p i m.heap) (lookup r m.active)
      ≡ (if str_eq region r then some (entry i) else at_place m.heap (lookup r m.active))
unfolding update
at_place-update m h region r p i at = elim (Option-cases (lookup r m.active)) [
  | inl e ↦ rw e (ground (arith, eq_iff region r))
  | inr (q, e) ↦
      rw e (ground (arith, eq_iff region r, h.active_region region p at, h.active_region r q e))
]

module _ (w : Wiring) (m : Manager) (h : WellFormed m) where
  board-change_active :
      (f : Incident → Incident) (g : Entry → Entry) (region r : String)
      → ((i : Incident) → entry (f i) ≡ g (entry i))
      → board (change_active w f region m) r
        ≡ (if str_eq region r then change_entry g (board m r) else board m r)
  unfolding board change_active persist
  board-change_active f g region r same = elim (Option-cases (lookup region m.active)) [
    | inl e ↦ rw (e, change_active) (ground (arith, eq_iff region r))
    | inr (p, e) ↦
        rw (e, change_active, at_place-update m h region r p (f (m.heap p)) e, same (m.heap p))
          (ground (arith, eq_iff region r))
  ]

  board-record_escalation :
      (region r : String) (now : ℕ)
      → board (record_escalation w region now m) r ≡ (
          if str_eq region r
          then change_entry (λ y. record y { escalated = true }) (board m r)
          else board m r)
  unfolding board record_escalation persist
  board-record_escalation region r now = elim (Option-cases (lookup region m.active)) [
    | inl e ↦ rw (e, record_escalation) (ground (arith, eq_iff region r))
    | inr (p, e) ↦
        let i = record (m.heap p) { escalated_to_sre = true; escalated_at_ns = some now } in
        rw (e, record_escalation, at_place-update m h region r p i e)
          (ground (arith, eq_iff region r))
  ]

  board-resolve :
      (region r : String) (now : ℕ)
      → board (resolve w region now m).0 r ≡ (if str_eq region r then none else board m r)
  unfolding board resolve persist update
  board-resolve region r now = elim (Option-cases (lookup region m.active)) [
    | inl e ↦ rw (e, resolve) (ground (arith, eq_iff region r))
    | inr (p, e) ↦
        rw (e, resolve)
          (simp dict_laws
            (ground (arith, eq_iff region r, h.active_region region p e, h.active_region r p)))
  ]

  board-create :
      (region stamp r : String) (now : ℕ) (s : Signal)
      → board (create w region stamp now s m).0 r
        ≡ (if str_eq region r then some new_entry else board m r)
  unfolding board create persist update
  board-create region stamp r now s = simp dict_laws (elim (Option-cases (lookup r m.active)) [
    | inl e ↦ rw e (ground arith)
    | inr (q, e) ↦ rw e (ground (arith, h.active_lt r q e))
  ])

  board-open_incident :
      (region stamp r : String) (now : ℕ) (s : Signal)
      → board (open_incident w region stamp now s m).0 r
        ≡ (if str_eq region r then reopened (board m r) else board m r)
  unfolding board open_incident
  board-open_incident region stamp r now s = elim (Option-cases (lookup region m.active)) [
    | inl e ↦
        rw (e, open_incident, board-create region stamp r now s) (ground (arith, eq_iff region r))
    | inr (p, e) ↦ elim (Bool-cases (is_opened (m.heap p).status)) [
      | inl o ↦ rw (e, open_incident, o) (ground (arith, eq_iff region r))
      | inr o ↦
          rw (e, open_incident, o, board-create region stamp r now s)
            (ground (arith, eq_iff region r))
    ]
  ]

  entry-with_result :
      (r : RunbookResult) (i : Incident)
      → entry (record (with_result r.status i) { runbook_steps_completed = r.steps_completed })
        ≡ finished r.status (entry i)
  entry-with_result r i = ground arith

  board-call : (c : Call) (r : String) → board (call w c m) r ≡ step c (board m) r
  unfolding call step promised record_runbook_started record_runbook_progress record_runbook_result
      record_sre_ack
  board-call (opens region stamp now s) r = board-open_incident region stamp r now s
  board-call (starts region id total) r =
      board-change_active _ (λ x. x) region r (λ i. refl) ∙ ground arith
  board-call (progresses region n) r =
      board-change_active _ (λ x. x) region r (λ i. refl) ∙ ground arith
  board-call (finishes region res) r =
      board-change_active _ (finished res.status) region r (entry-with_result res)
  board-call (escalates region now) r = board-record_escalation region r now
  board-call (acknowledges region now) r =
      board-change_active _ (λ y. record y { acknowledged = true }) region r (λ i. refl)
  board-call (resolves region now) r = board-resolve region r now

-- The manager implements the board: after any sequence of calls, from a manager whose dicts are in
-- order, the entry of each region is what the calls promise, each call changing the entry of its own
-- region alone; ids, files and callbacks make no difference to it.
pub run-Board :
    (w : Wiring) (cs : List Call) (m : Manager) (r : String)
    → WellFormed m
    → board (run w cs m) r ≡ steps cs (board m) r
unfolding run steps
run-Board w [] m r h = refl
run-Board w (c ∷ cs) m r h =
    run-Board w cs (call w c m) r (call-WellFormed w c m h)
    ∙ ap (λ b. steps cs b r) (λ i q. board-call w m h c q i)
