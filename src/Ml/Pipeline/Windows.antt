-- ===== src/Ml/Pipeline/Windows.antt =====
-- What a flow's network remembers (ml-intelligence-03/ml/pipeline/scoring_pipeline.py).
use mathlib.Core.Path.{subst}
use nimbus_net.Prelude.{
  Option, ℕ, ◌+◌, ◌≤◌, ◌≡◌, ◌≢◌, ◌⊎◌, inl, inr, refl, ap, ◌∙◌, sym, arith, eq_iff, str_eq, String,
  none, some, List, [], ◌∷◌, ◌++◌, length, Dict, lookup, insert, Option-cases, Bool-cases,
  if◌then◌else◌,
}
use nimbus_net.Prelude.Fractions.{Ratio}
use nimbus_net.Ml.Bandit.{RegionArm}
use nimbus_net.Ml.Features.{AggregatedMetric, extract}
use nimbus_net.Ml.Lstm.{Numpy, Lstm, keep_last, reset}
use nimbus_net.Ml.Lstm.Window.{keep_last-append, keep_last_nil}
use nimbus_net.Ml.Classifier.{Backend}
use nimbus_net.Ml.Forest.{Sklearn, calibrated}
use nimbus_net.Ml.Forest
use nimbus_net.Ml.Pipeline.{
  Pipeline, flow_key, pushed, finish_score, score, update_bandit, reset_flow, max_flow_lstms,
}
use nimbus_net.Ml.Pipeline.Flows.{IsTable, window_at, pushed-IsTable, reset-IsTable}
use nimbus_net.Ml.Pipeline.Room.{
  length-pushed, window_at-pushed, window_at-reset, window_at-none, length-reset,
}

-- What is asked of a pipeline, with the clock.
pub data Event : Type 0 where
  scores : ℕ → AggregatedMetric → Event
  updates : String → ℕ → ℕ → ℕ → Event
  resets : String → Event

abbrev pub score_count : List Event → ℕ
score_count [] = 0
score_count (scores now m ∷ es) = 1 + score_count es
score_count (updates r old new now ∷ es) = score_count es
score_count (resets k ∷ es) = score_count es

score_count-cons :
    (e : Event) (es : List Event) → score_count (e ∷ es) ≡ score_count (e ∷ []) + score_count es
score_count-cons (scores now m) es = omega arith
score_count-cons (updates r old new now) es = omega arith
score_count-cons (resets k) es = omega arith

module _ {Vec Mat Model Calibrator Trees : Type 0} (log1p : Ratio → Ratio) (np : Numpy Vec Mat)
    (sk : Sklearn Model Calibrator) (b : Backend Trees)
    (raw : Dict RegionArm → Option (Dict ℕ × ℕ)) where
  abbrev Scoring : Type 0
  Scoring = Pipeline Vec Mat Model Calibrator Trees

  unfoldable pub handle : Event → Scoring → Scoring
  handle (scores now m) p = (score log1p np sk b raw now m p).1
  handle (updates r old new now) p = update_bandit log1p np sk b raw r old new now p
  handle (resets k) p = reset_flow log1p np sk b raw k p

  unfoldable pub handle_all : List Event → Scoring → Scoring
  unfolding handle
  handle_all [] p = p
  handle_all (e ∷ es) p = handle_all es (handle e p)

  -- Scoring puts the vector into the flow's window, unless the forest is not trained; it leaves the
  -- models as they are.
  pub score_effect :
      (now : ℕ) (m : AggregatedMetric) (p : Scoring)
      → let q = (score log1p np sk b raw now m p).1 in
        let fv = extract log1p now m in
        (q.lstm_template ≡ p.lstm_template)
        × (q.isolation_forest ≡ p.isolation_forest)
        × (q.xgboost ≡ p.xgboost)
        × (((p.isolation_forest.model ≡ none) × (q ≡ p))
            ⊎ ((p.isolation_forest.model ≢ none)
                × (q.flow_lstms ≡ (pushed p.lstm_template (flow_key m) fv p.flow_lstms).1)))
  unfolding score finish_score Forest.score
  score_effect now m p = (ground arith, ground arith, ground arith, ground arith)

  -- The table of a pipeline is one of its template's.
  abbrev pub HasTable : Scoring → Type 0
  HasTable p = IsTable p.lstm_template p.flow_lstms

  reset_flow_effect :
      (k : String) (p : Scoring)
      → ((lookup k p.flow_lstms ≡ none) × (reset_flow log1p np sk b raw k p ≡ p))
        ⊎ ((l : Lstm Vec Mat) × (lookup k p.flow_lstms ≡ some l)
            × (reset_flow log1p np sk b raw k p
                ≡ record p { flow_lstms = insert k (reset l) p.flow_lstms }))
  unfolding reset_flow
  reset_flow_effect k p = elim (Option-cases (lookup k p.flow_lstms)) [
    | inl e ↦ inl (e, rw (e, reset_flow) refl)
    | inr (l, e) ↦ inr (l, e, rw (e, reset_flow) refl)
  ]

  handle-template : (e : Event) (p : Scoring) → (handle e p).lstm_template ≡ p.lstm_template
  unfolding handle update_bandit
  handle-template (scores now m) p = (score_effect now m p).0
  handle-template (updates r old new now) p = refl
  handle-template (resets k) p = elim (reset_flow_effect k p) [
    | inl (_, e) ↦ ap (λ (q : Scoring). q.lstm_template) e
    | inr (_, _, e) ↦ ap (λ (q : Scoring). q.lstm_template) e
  ]

  handle-IsTable :
      (e : Event) (p : Scoring) → HasTable p → IsTable p.lstm_template (handle e p).flow_lstms
  unfolding handle update_bandit
  handle-IsTable (scores now m) p h = elim ((score_effect now m p).3) [
    | inl (_, e) ↦ subst (λ (q : Scoring). IsTable p.lstm_template q.flow_lstms) (sym e) h
    | inr (_, e) ↦
        subst (IsTable p.lstm_template) (sym e)
          (pushed-IsTable p.lstm_template (flow_key m) (extract log1p now m) p.flow_lstms h)
  ]
  handle-IsTable (updates r old new now) p h = h
  handle-IsTable (resets k) p h = elim (reset_flow_effect k p) [
    | inl (_, e) ↦ subst (λ (q : Scoring). IsTable p.lstm_template q.flow_lstms) (sym e) h
    | inr (l, at, e) ↦
        subst (λ (q : Scoring). IsTable p.lstm_template q.flow_lstms) (sym e)
          (reset-IsTable p.lstm_template l k p.flow_lstms at h)
  ]

  -- What a flow has been through since its last reset, as vectors.
  abbrev pub History : Type 0
  History = String → List (List Ratio)

  unfoldable pub remember : Event → History → History
  remember (scores now m) h k =
      if str_eq (flow_key m) k then h k ++ (extract log1p now m).values ∷ [] else h k
  remember (updates r old new now) h k = h k
  remember (resets j) h k = if str_eq j k then [] else h k

  unfoldable pub remember_all : List Event → History → History
  unfolding remember
  remember_all [] h = h
  remember_all (e ∷ es) h = remember_all es (remember e h)

  -- The windows are the last parts of the histories.
  abbrev pub Remembers : History → Scoring → Type 0
  Remembers h p = (k : String) → window_at k p.flow_lstms ≡ keep_last p.lstm_template.seq_len (h k)

  handle-Remembers :
      (e : Event) (h : History) (p : Scoring)
      → HasTable p
      → p.isolation_forest.model ≢ none
      → length p.flow_lstms + score_count (e ∷ []) ≤ max_flow_lstms
      → Remembers h p
      → (k : String)
      → window_at k (handle e p).flow_lstms ≡ keep_last p.lstm_template.seq_len (remember e h k)
  unfolding handle remember update_bandit
  handle-Remembers (scores now m) h p table trained room same k =
      let n = p.lstm_template.seq_len in
      let key = flow_key m in
      let fv = extract log1p now m in
      elim ((score_effect now m p).3) [
        | inl (untrained, _) ↦ absurd (trained untrained)
        | inr (_, e) ↦
            ap (window_at k) e
            ∙ window_at-pushed p.lstm_template key fv p.flow_lstms k table (omega arith)
            ∙ elim (Bool-cases (str_eq key k)) [
              | inl here ↦ rw here (
                  ap (λ (w : List (List Ratio)). keep_last n (w ++ fv.values ∷ [])) (same key)
                  ∙ keep_last-append n (h key) (fv.values ∷ [])
                  ∙ ap (λ (j : String). keep_last n (h j ++ fv.values ∷ []))
                      ((eq_iff key k).0 here))
              | inr there ↦ rw there (same k)
            ]
      ]
  handle-Remembers (updates r old new now) h p table trained room same k = same k
  handle-Remembers (resets j) h p table trained room same k = elim (reset_flow_effect j p) [
    | inl (bare, e) ↦
        ap (λ (q : Scoring). window_at k q.flow_lstms) e ∙ elim (Bool-cases (str_eq j k)) [
          | inl here ↦ rw here (
              ap (λ (i : String). window_at i p.flow_lstms) (sym ((eq_iff j k).0 here))
              ∙ window_at-none j p.flow_lstms bare
              ∙ sym (keep_last_nil p.lstm_template.seq_len))
          | inr there ↦ rw there (same k)
        ]
    | inr (l, at, e) ↦
        ap (λ (q : Scoring). window_at k q.flow_lstms) e
        ∙ window_at-reset l j k p.flow_lstms
        ∙ elim (Bool-cases (str_eq j k)) [
          | inl here ↦ rw here (sym (keep_last_nil p.lstm_template.seq_len))
          | inr there ↦ rw there (same k)
        ]
  ]

  handle-forest : (e : Event) (p : Scoring) → (handle e p).isolation_forest ≡ p.isolation_forest
  unfolding handle update_bandit
  handle-forest (scores now m) p = (score_effect now m p).1
  handle-forest (updates r old new now) p = refl
  handle-forest (resets k) p = elim (reset_flow_effect k p) [
    | inl (_, e) ↦ ap (λ (q : Scoring). q.isolation_forest) e
    | inr (_, _, e) ↦ ap (λ (q : Scoring). q.isolation_forest) e
  ]

  length-handle :
      (e : Event) (p : Scoring)
      → length (handle e p).flow_lstms ≤ length p.flow_lstms + score_count (e ∷ [])
  unfolding handle update_bandit
  length-handle (scores now m) p =
      let fv = extract log1p now m in
      ground
        (arith, score_effect now m p, length-pushed p.lstm_template (flow_key m) fv p.flow_lstms)
  length-handle (updates r old new now) p = omega arith
  length-handle (resets k) p = elim (reset_flow_effect k p) [
    | inl (_, e) ↦ omega (arith, ap (λ (q : Scoring). length q.flow_lstms) e)
    | inr (l, at, e) ↦
        omega (arith, ap (λ (q : Scoring). length q.flow_lstms) e, length-reset k l p.flow_lstms at)
  ]

  -- With a trained forest, and while no more flows can have come than the table has room for, each
  -- flow's network has seen exactly the last vectors of that flow since its last reset, in order and
  -- as many as a sequence is long: flows never see each other's vectors, whether scoring raised or
  -- not.
  pub handle_all-Remembers :
      (es : List Event) (h : History) (p : Scoring)
      → HasTable p
      → p.isolation_forest.model ≢ none
      → length p.flow_lstms + score_count es ≤ max_flow_lstms
      → Remembers h p
      → Remembers (remember_all es h) (handle_all es p)
  unfolding handle_all remember_all
  handle_all-Remembers [] h p table trained room same = same
  handle_all-Remembers (e ∷ es) h p table trained room same =
      let q = handle e p in
      let t = sym (handle-template e p) in
      let first : length p.flow_lstms + score_count (e ∷ []) ≤ max_flow_lstms =
        omega (arith, score_count-cons e es) in
      handle_all-Remembers es (remember e h) q
        (subst (λ (l : Lstm Vec Mat). IsTable l q.flow_lstms) t (handle-IsTable e p table))
        (λ none_left. trained (
          ap (λ (f : Forest.Forest Model Calibrator). f.model) (sym (handle-forest e p))
          ∙ none_left))
        (omega (arith, length-handle e p, score_count-cons e es))
        (subst
          (λ (l : Lstm Vec Mat).
            (k : String) → window_at k q.flow_lstms ≡ keep_last l.seq_len (remember e h k))
          t (handle-Remembers e h p table trained first same))
