-- ===== src/Ml/Flywheel/Sound.antt =====
-- The invariant of the flywheel (ml-intelligence-03/ml/flywheel/flywheel.py): its counts and its
-- files agree, across restarts.
use mathlib.Core.Path.{subst}
use mathlib.Core.List.{append-nil, append_assoc}
use nimbus_net.Prelude.{
  ℕ, ◌+◌, ◌<◌, ◌≡◌, ap, sym, ◌∙◌, arith, eq_iff, str_eq, String, Bool, Option, List, [], ◌∷◌, ◌++◌,
  length, length-append, count_if, count_if-append, leb, if◌then◌else◌, Dict, lookup, insert,
  lookup-insert, Bool-cases, List-cases, inl, inr,
}
use nimbus_net.Ml.Flywheel.{
  TrainingSample, FlywheelStats, Flywheel, count_up, stats_or_new, reopen, flush_buffer, buffered,
  append, load_training_samples, LabelSource, source_value, fault_name, or_zero,
}

unfoldable pub sum_values : Dict ℕ → ℕ
sum_values [] = 0
sum_values ((k, n) ∷ d) = n + sum_values d

sum_values-count_up : (k : String) (d : Dict ℕ) → sum_values (count_up k d) ≡ sum_values d + 1
unfolding sum_values count_up lookup insert
sum_values-count_up k [] = omega arith
sum_values-count_up k ((j, n) ∷ d) = ground (arith, sum_values-count_up k d)

lookup-count_up :
    (k j : String) (d : Dict ℕ)
    → or_zero (lookup j (count_up k d)) ≡ or_zero (lookup j d) + (if str_eq k j then 1 else 0)
unfolding count_up
lookup-count_up k j d = ground (arith, eq_iff k j, lookup-insert k j (or_zero (lookup k d) + 1) d)

-- How many samples have the source, and the fault, that a key of the statistics names.
abbrev pub from_source : String → List TrainingSample → ℕ
from_source k ss = count_if (λ (s : TrainingSample). str_eq (source_value s.label_source) k) ss

abbrev pub of_fault : String → List TrainingSample → ℕ
of_fault k ss = count_if (λ (s : TrainingSample). str_eq (fault_name s.fault_type) k) ss

-- The statistics of some samples: each key counts its own, and no other key has a count.
pub record Counts (ss : List TrainingSample) (st : FlywheelStats) : Type 0 where
  pub total : st.total_samples ≡ length ss
  pub source_sum : sum_values st.samples_by_source ≡ length ss
  pub fault_sum : sum_values st.samples_by_fault ≡ length ss
  pub by_source : (k : String) → or_zero (lookup k st.samples_by_source) ≡ from_source k ss
  pub by_fault : (k : String) → or_zero (lookup k st.samples_by_fault) ≡ of_fault k ss

-- The statistics count the stored and the buffered samples, of which fewer than 100 are buffered;
-- the saved statistics count the stored ones.
pub record IsSound (w : Flywheel) : Type 0 where
  pub counted : Counts (w.store ++ w.buffer) w.stats
  pub small : length w.buffer < 100
  pub saved_counted : Counts w.store (stats_or_new w.saved)

same_samples :
    (ss ts : List TrainingSample) (st : FlywheelStats) → ss ≡ ts → Counts ss st → Counts ts st
same_samples ss ts st same c = subst (λ (xs : List TrainingSample). Counts xs st) same c

flush_buffer-IsSound :
    (w : Flywheel)
    → Counts (w.store ++ w.buffer) w.stats
    → Counts w.store (stats_or_new w.saved)
    → IsSound (flush_buffer w)
unfolding flush_buffer
flush_buffer-IsSound w c s = elim (List-cases w.buffer) [
  | inl e ↦ rw (e, flush_buffer) (record { counted = c; small = ground arith; saved_counted = s })
  | inr (x, xs, e) ↦
      let stored = same_samples _ _ w.stats (ap (λ b. w.store ++ b) e) c in
      rw (e, flush_buffer)
        (record {
          counted = same_samples _ _ w.stats (sym (append-nil (w.store ++ x ∷ xs))) stored;
          small = omega arith;
          saved_counted = stored;
        })
]

-- One sample more.
count_one :
    (p : TrainingSample → Bool) (s : TrainingSample) (ss : List TrainingSample)
    → count_if p (ss ++ s ∷ []) ≡ count_if p ss + (if p s then 1 else 0)
count_one p s ss = omega (arith, count_if-append p ss (s ∷ []))

buffered-Counts :
    (s : TrainingSample) (w : Flywheel)
    → Counts (w.store ++ w.buffer) w.stats
    → Counts ((buffered s w).store ++ (buffered s w).buffer) (buffered s w).stats
unfolding buffered
buffered-Counts s w c =
    let ss = w.store ++ w.buffer in
    let st = w.stats in
    let source = source_value s.label_source in
    let fault = fault_name s.fault_type in
    let longer = length-append ss (s ∷ []) in
    same_samples (ss ++ s ∷ []) _ (buffered s w).stats (append_assoc w.store w.buffer (s ∷ []))
      (record {
        total = omega (arith, c.total, longer);
        source_sum =
            omega (arith, c.source_sum, longer, sum_values-count_up source st.samples_by_source);
        fault_sum =
            omega (arith, c.fault_sum, longer, sum_values-count_up fault st.samples_by_fault);
        by_source = λ k.
            lookup-count_up source k st.samples_by_source
            ∙ ap (λ n. n + (if str_eq source k then 1 else 0)) (c.by_source k)
            ∙ sym (count_one (λ (x : TrainingSample). str_eq (source_value x.label_source) k) s ss);
        by_fault = λ k.
            lookup-count_up fault k st.samples_by_fault
            ∙ ap (λ n. n + (if str_eq fault k then 1 else 0)) (c.by_fault k)
            ∙ sym (count_one (λ (x : TrainingSample). str_eq (fault_name x.fault_type) k) s ss);
      })

append-IsSound : (s : TrainingSample) (w : Flywheel) → IsSound w → IsSound (append s w)
unfolding append buffered
append-IsSound s w h =
    let w1 = buffered s w in
    elim (Bool-cases (leb 100 (length w1.buffer))) [
      | inl full ↦
          rw (full, append)
            (flush_buffer-IsSound w1 (buffered-Counts s w h.counted) h.saved_counted)
      | inr room ↦
          rw (room, append)
            (record {
              counted = buffered-Counts s w h.counted;
              small = ground arith;
              saved_counted = h.saved_counted;
            })
    ]

reopen-IsSound : (w : Flywheel) → IsSound w → IsSound (reopen w)
unfolding reopen
reopen-IsSound w h = record {
  counted = same_samples w.store _ _ (sym (append-nil w.store)) h.saved_counted;
  small = omega arith;
  saved_counted = h.saved_counted;
}

-- What is done with a flywheel: a sample is ingested, the samples are loaded, the process starts
-- again.
pub data Use : Type 0 where
  appends : TrainingSample → Use
  loads : Option (List LabelSource) → ℕ → Use
  restarts : Use

unfoldable pub use_once : Use → Flywheel → Flywheel
unfolding load_training_samples
use_once (appends s) w = append s w
use_once (loads source_filter min_confidence) w =
    (load_training_samples source_filter min_confidence w).1
use_once restarts w = reopen w

unfoldable pub use_all : List Use → Flywheel → Flywheel
unfolding use_once
use_all [] w = w
use_all (u ∷ us) w = use_all us (use_once u w)

use_once-IsSound : (u : Use) (w : Flywheel) → IsSound w → IsSound (use_once u w)
unfolding use_once
use_once-IsSound (appends s) w h = append-IsSound s w h
use_once-IsSound (loads source_filter min_confidence) w h =
    flush_buffer-IsSound w h.counted h.saved_counted
use_once-IsSound restarts w h = reopen-IsSound w h

-- Through any use, restarts included, the flywheel stays sound: its statistics count the stored and
-- the buffered samples, in total and under each key those of that source or that fault alone; fewer
-- than 100 are buffered (so that a restart loses fewer than 100), and the saved statistics count the
-- stored ones in the same way.
pub use_all-IsSound : (us : List Use) (w : Flywheel) → IsSound w → IsSound (use_all us w)
unfolding use_all
use_all-IsSound [] w h = h
use_all-IsSound (u ∷ us) w h = use_all-IsSound us (use_once u w) (use_once-IsSound u w h)
