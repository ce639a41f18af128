-- ===== src/Sre/Postmortem.antt =====
-- sre-operations-05/sre/postmortem/generator.py: the postmortem of an incident, and the files. No
-- caller passes FSM transitions, weights or feature importances, so `generate` has no arguments for
-- them.
--
-- A file is written whole or not at all: `writes` is whether it is, and the exception of a refused
-- write comes out of `generate` behind the count of the new number. A write that stops halfway is left
-- out. No lock keeps two threads apart in `generate`: its two steps are
-- `count_number` and `write_numbered`.
pub mod Ids
pub mod Numbers
pub mod Histories
pub mod Contents
use nimbus_net.Prelude.{
  ℕ, zero, suc, ◌+◌, ◌/◌, ◌%◌, String, Bool, true, false, ◌&&◌, ◌||◌, not, Option, none, some, List,
  [], ◌∷◌, ◌++◌, leb, ltb, ◌==◌, str_eq, length, if◌then◌else◌,
}
use nimbus_net.Prelude.Int.{ℤ, pos, negsuc}
use nimbus_net.Sre.Types.{
  Incident, IncidentSeverity, p0, p1, p2, p3, RunbookResult, RunbookStep, RunbookStatus,
  PostmortemId, PostmortemStatus, draft, under_review, published, TimelineEntry, TimelineEvent,
  ml_detection, healthy_to_degraded, incident_resolved, escalated_to_sre, runbook_began, ActionItem,
  investigate_runbook, review_tgw_monitoring, add_scenario, Postmortem,
}

-- `files` are the files of the store, the one that was written last first.
pub record Generator : Type 0 where
  pub counter : ℕ
  pub files : List Postmortem

abbrev pub is_severe : IncidentSeverity → Bool
is_severe p0 = true
is_severe p1 = true
is_severe p2 = false
is_severe p3 = false

abbrev pub is_failed : RunbookStatus → Bool
is_failed RunbookStatus.failed = true
is_failed _ = false

abbrev pub is_success : RunbookStatus → Bool
is_success RunbookStatus.success = true
is_success _ = false

-- A result that is there and is no success.
abbrev pub has_failed : Option RunbookResult → Bool
has_failed none = false
has_failed (some r) = not (is_success r.status)

abbrev pub second_of_day : ℕ → ℕ
second_of_day ns = ns / 1000000000 % 86400

abbrev entry : ℕ → TimelineEvent → TimelineEntry
entry ns event = record { time = second_of_day ns; event = event }

-- `if incident.healing_at_ns:` and the like: the instant 0 is false.
unfoldable pub entry_if_set : Option ℕ → TimelineEvent → List TimelineEntry
entry_if_set none event = []
entry_if_set (some zero) event = []
entry_if_set (some (suc n)) event = entry (suc n) event ∷ []

unfoldable pub insert_by_time : TimelineEntry → List TimelineEntry → List TimelineEntry
insert_by_time x [] = x ∷ []
insert_by_time x (y ∷ ys) = if leb x.time y.time then x ∷ y ∷ ys else y ∷ insert_by_time x ys

unfoldable pub sort_by_time : List TimelineEntry → List TimelineEntry
unfolding insert_by_time
sort_by_time [] = []
sort_by_time (x ∷ xs) = insert_by_time x (sort_by_time xs)

-- The entries before they are sorted.
unfoldable pub timeline_entries : Incident → List TimelineEntry
unfolding entry_if_set
timeline_entries i =
    entry i.detected_at_ns ml_detection
    ∷ entry i.degraded_at_ns healthy_to_degraded
    ∷ (entry_if_set i.healing_at_ns (runbook_began i.runbook_id)
        ++ (entry_if_set i.resolved_at_ns incident_resolved
            ++ (if i.escalated_to_sre
                then entry_if_set i.escalated_at_ns escalated_to_sre
                else [])))

unfoldable pub generate_timeline : Incident → List TimelineEntry
unfolding timeline_entries sort_by_time
generate_timeline i = sort_by_time (timeline_entries i)

unfoldable pub generate_draft_action_items : Incident → Option RunbookResult → List ActionItem
generate_draft_action_items i result =
    (if has_failed result then investigate_runbook i.runbook_id ∷ [] else [])
    ++ ((if str_eq i.fault_type "REGION_PARTITION" then review_tgw_monitoring ∷ [] else [])
        ++ add_scenario i.fault_type ∷ [])

unfoldable pub should_trigger_ml_retrain : Incident → Option RunbookResult → Bool
should_trigger_ml_retrain i result = is_severe i.severity || has_failed result

unfoldable pub any_failed : List RunbookStep → Bool
any_failed [] = false
any_failed (s ∷ ss) = is_failed s.status || any_failed ss

unfoldable pub should_update_runbook : Option RunbookResult → Bool
unfolding any_failed
should_update_runbook none = false
should_update_runbook (some r) = any_failed r.step_results

unfoldable pub should_add_chaos_experiment : Incident → Bool
should_add_chaos_experiment i =
    str_eq i.fault_type "CASCADING"
    || (str_eq i.fault_type "DUAL_REGION_FAILURE" || str_eq i.fault_type "UNKNOWN")

-- More than five minutes, in nanoseconds.
abbrev pub exceeds_slo : ℤ → Bool
exceeds_slo (pos n) = ltb 300000000000 n
exceeds_slo (negsuc n) = false

abbrev pub same_id : PostmortemId → PostmortemId → Bool
same_id a b = str_eq a.date b.date && a.number == b.number

unfoldable pub without : PostmortemId → List Postmortem → List Postmortem
without id [] = []
without id (pm ∷ pms) = let rest = without id pms in if same_id pm.id id then rest else pm ∷ rest

-- Writing a file.
unfoldable pub save : Postmortem → Generator → Generator
save pm g = record g { files = pm ∷ without pm.id g.files }

unfoldable pub compose : String → ℕ → ℕ → Incident → Option RunbookResult → Postmortem
compose date number now i result = record {
  id = record { date = date; number = number };
  incident_id = i.id;
  region = i.region;
  severity = i.severity;
  status = if is_severe i.severity then under_review else published;
  about = i;
  timeline = generate_timeline i;
  contributing_factors = "";
  action_items = if is_severe i.severity then generate_draft_action_items i result else [];
  generated_at = now;
  requires_human_review = is_severe i.severity;
  sre_author = none;
  ml_retrain_triggered = should_trigger_ml_retrain i result;
  runbook_updated = should_update_runbook result;
  slo_recalibrated = exceeds_slo i.error_budget_consumed_ns;
  chaos_experiment_added = should_add_chaos_experiment i;
}

-- The two steps of `generate`: the counter goes up, and a postmortem with its number is written.
abbrev pub count_number : Generator → Generator
count_number g = record g { counter = g.counter + 1 }

-- `date` is the text of the day, `now` the clock; `none` is the exception.
abbrev pub write_numbered :
    Bool → String → ℕ → Incident → Option RunbookResult → Generator → Option Postmortem × Generator
write_numbered writes date now i result g =
    let pm = compose date g.counter now i result in
    if writes then (some pm, save pm g) else (none, g)

-- `generate` of a thread that no other one gets in between.
unfoldable pub generate :
    Bool → String → ℕ → Incident → Option RunbookResult → Generator → Option Postmortem × Generator
generate writes date now i result g = write_numbered writes date now i result (count_number g)

unfoldable pub find : PostmortemId → List Postmortem → Option Postmortem
find id [] = none
find id (pm ∷ pms) = if same_id pm.id id then some pm else find id pms

unfoldable pub get : PostmortemId → Generator → Option Postmortem
unfolding find
get id g = find id g.files

-- `_load_counter` when the service starts.
unfoldable pub reopen : Generator → Generator
reopen g = record { counter = length g.files; files = g.files }

-- The server's `update_postmortem` and `publish_postmortem`; `none` is the 404, or the exception of a
-- refused write.
unfoldable pub change :
    Bool → PostmortemId → (Postmortem → Postmortem) → Generator → Option Generator
unfolding get
change writes id f g = elim (get id g) [
  | none ↦ none
  | some pm ↦ if writes then some (save (f pm) g) else none
]

unfoldable pub update_postmortem :
    Bool → PostmortemId → String → List ActionItem → String → Generator → Option Generator
update_postmortem writes id factors items author = change writes id (λ pm. record pm {
  contributing_factors = factors;
  action_items = items;
  sre_author = some author;
})

abbrev pub or_same : Option Generator → Generator → Generator
or_same none g = g
or_same (some g') g = g'

abbrev if_some_items : List ActionItem → List ActionItem → List ActionItem
if_some_items [] old = old
if_some_items (x ∷ xs) old = x ∷ xs

unfoldable pub publish_postmortem :
    Bool → PostmortemId → String → List ActionItem → String → Generator → Option Generator
publish_postmortem writes id factors items author = change writes id (λ pm. record pm {
  status = published;
  sre_author = some author;
  contributing_factors = if str_eq factors "" then pm.contributing_factors else factors;
  action_items = if_some_items items pm.action_items;
})
