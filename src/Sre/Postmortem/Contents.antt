-- ===== src/Sre/Postmortem/Contents.antt =====
-- What a postmortem says (sre-operations-05/sre/postmortem/generator.py).
use nimbus_net.Prelude.{
  ℕ, ◌≤◌, ◌≡◌, ◌≢◌, ◌⊎◌, refl, arith, String, Bool, true, false, Option, some, List, [], ◌∷◌,
  count_if,
}
use nimbus_net.Sre.Types.{
  Incident, Postmortem, RunbookResult, p0, p1, under_review, published, TimelineEntry,
}
use nimbus_net.Sre.Postmortem.{
  Generator, has_failed, insert_by_time, sort_by_time, timeline_entries, generate_timeline,
  should_trigger_ml_retrain, compose, generate, generate_draft_action_items,
}

-- Times that do not go down.
pub IsByTime : ℕ → List TimelineEntry → Type 0
IsByTime t [] = Unit
IsByTime t (x ∷ xs) = (t ≤ x.time) × IsByTime x.time xs

insert_by_time-IsByTime :
    (t : ℕ) (x : TimelineEntry) (xs : List TimelineEntry)
    → t ≤ x.time
    → IsByTime t xs
    → IsByTime t (insert_by_time x xs)
unfolding IsByTime insert_by_time
insert_by_time-IsByTime t x [] le h = (le, tt)
insert_by_time-IsByTime t x (y ∷ ys) le h = ground (arith, insert_by_time-IsByTime y.time x ys)

sort_by_time-IsByTime : (xs : List TimelineEntry) → IsByTime 0 (sort_by_time xs)
unfolding sort_by_time IsByTime
sort_by_time-IsByTime [] = tt
sort_by_time-IsByTime (x ∷ xs) =
    insert_by_time-IsByTime 0 x (sort_by_time xs) (omega arith) (sort_by_time-IsByTime xs)

count_if-insert_by_time :
    (f : TimelineEntry → Bool) (x : TimelineEntry) (xs : List TimelineEntry)
    → count_if f (insert_by_time x xs) ≡ count_if f (x ∷ xs)
unfolding insert_by_time
count_if-insert_by_time f x [] = refl
count_if-insert_by_time f x (y ∷ ys) = ground (arith, count_if-insert_by_time f x ys)

count_if-sort_by_time :
    (f : TimelineEntry → Bool) (xs : List TimelineEntry)
    → count_if f (sort_by_time xs) ≡ count_if f xs
unfolding sort_by_time
count_if-sort_by_time f [] = refl
count_if-sort_by_time f (x ∷ xs) =
    ground (arith, count_if-insert_by_time f x (sort_by_time xs), count_if-sort_by_time f xs)

-- The timeline has the entries that belong to the incident, each as often as it should, by the time
-- of the day: an incident that passes midnight is told out of order.
pub generate_timeline-IsByTime :
    (i : Incident) (f : TimelineEntry → Bool)
    → IsByTime 0 (generate_timeline i)
      × (count_if f (generate_timeline i) ≡ count_if f (timeline_entries i))
unfolding generate_timeline
generate_timeline-IsByTime i f =
    (sort_by_time-IsByTime (timeline_entries i), count_if-sort_by_time f (timeline_entries i))

generate_draft_action_items-some :
    (i : Incident) (result : Option RunbookResult) → generate_draft_action_items i result ≢ []
unfolding generate_draft_action_items
generate_draft_action_items-some i result none_left = ground arith

-- A postmortem of a P0 or P1 incident waits for a review, asks for a retraining and has action
-- items; any other is published at once, without action items, and asks for a retraining exactly
-- if there is a result of a runbook that did not succeed.
pub generate_review :
    (writes : Bool) (date : String) (now : ℕ) (i : Incident) (result : Option RunbookResult)
    (g : Generator) (pm : Postmortem)
    → (generate writes date now i result g).0 ≡ some pm
    → ((i.severity ≡ p0) ⊎ (i.severity ≡ p1)
        → (pm.requires_human_review ≡ true)
          × (pm.status ≡ under_review)
          × (pm.ml_retrain_triggered ≡ true)
          × (pm.action_items ≢ []))
      × (i.severity ≢ p0
          → i.severity ≢ p1
          → (pm.requires_human_review ≡ false)
            × (pm.status ≡ published)
            × (pm.ml_retrain_triggered ≡ has_failed result)
            × (pm.action_items ≡ []))
unfolding generate compose should_trigger_ml_retrain
generate_review writes date now i result g pm made =
    (λ severe. ground (arith, generate_draft_action_items-some i result), λ a b. ground arith)
