-- ===== src/Ml/Pipeline/Room.antt =====
-- The table of the flows' networks while it has room, and a flow's window
-- (ml-intelligence-03/ml/pipeline/scoring_pipeline.py).
use nimbus_net.Prelude.{
  length-insert, length-insert_known, ◌+◌, ◌≤◌, ◌<◌, ◌≡◌, ◌≢◌, inl, inr, refl, ap, ◌∙◌, sym, arith,
  eq_iff, str_eq, String, Option, none, some, List, [], ◌∷◌, ◌++◌, length, Dict, lookup, insert,
  lookup-insert, Option-cases, Bool-cases, if◌then◌else◌,
}
use nimbus_net.Prelude.Fractions.{Ratio}
use nimbus_net.Ml.Features.{FeatureVector}
use nimbus_net.Ml.Lstm.{Lstm, push, keep_last, reset}
use nimbus_net.Ml.Pipeline.{clone, evict, get_flow_lstm, pushed, max_flow_lstms}
use nimbus_net.Ml.Pipeline.Evict.{length-evict_le, evict_room}
use nimbus_net.Ml.Pipeline.Flows.{
  window_at, IsTable, lookup-insert_other, get_flow_lstm-lookup, pushed_lem,
}

module _ {Vec Mat : Type 0} where
  get_flow_lstm_room :
      (t : Lstm Vec Mat) (key : String) (d : Dict (Lstm Vec Mat)) (j : String)
      → length d < max_flow_lstms
      → j ≢ key
      → lookup j (get_flow_lstm t key d).1 ≡ lookup j d
  unfolding get_flow_lstm
  get_flow_lstm_room t key d j room ne = elim (Option-cases (lookup key d)) [
    | inr (x, e) ↦ rw (e, get_flow_lstm) refl
    | inl e ↦ rw (e, get_flow_lstm, evict_room d room) (lookup-insert_other key j (clone t) d ne)
  ]

  length-get_flow_lstm :
      (t : Lstm Vec Mat) (key : String) (d : Dict (Lstm Vec Mat))
      → length (get_flow_lstm t key d).1 ≤ length d + 1
  unfolding get_flow_lstm
  length-get_flow_lstm t key d = elim (Option-cases (lookup key d)) [
    | inr (x, e) ↦ rw (e, get_flow_lstm) (omega arith)
    | inl e ↦
        rw (e, get_flow_lstm)
          (omega (arith, length-insert key (clone t) (evict d), length-evict_le d))
  ]

  pub length-pushed :
      (t : Lstm Vec Mat) (key : String) (fv : FeatureVector) (d : Dict (Lstm Vec Mat))
      → length (pushed t key fv d).1 ≤ length d + 1
  unfolding pushed
  length-pushed t key fv d =
      let (x, d1) = get_flow_lstm t key d in
      let (found, _) = get_flow_lstm-lookup t key d in
      omega
        (arith, length-insert_known key (push fv.values x) x d1 found, length-get_flow_lstm t key d)

  -- With room in the table every other flow keeps its window.
  pub pushed_room :
      (t : Lstm Vec Mat) (key : String) (fv : FeatureVector) (d : Dict (Lstm Vec Mat)) (j : String)
      → length d < max_flow_lstms
      → j ≢ key
      → lookup j (pushed t key fv d).1 ≡ lookup j d
  unfolding pushed
  pushed_room t key fv d j room ne =
      let (x, d1) = get_flow_lstm t key d in
      lookup-insert_other key j (push fv.values x) d1 ne ∙ get_flow_lstm_room t key d j room ne

  abbrev window_of : Option (Lstm Vec Mat) → List (List Ratio)
  window_of none = []
  window_of (some l) = l.window

  window_at-eq : (k : String) (d : Dict (Lstm Vec Mat)) → window_at k d ≡ window_of (lookup k d)
  window_at-eq k d = ground arith

  pub window_at-none :
      (k : String) (d : Dict (Lstm Vec Mat)) → lookup k d ≡ none → window_at k d ≡ []
  window_at-none k d e = window_at-eq k d ∙ ap window_of e

  pub length-reset :
      (k : String) (l : Lstm Vec Mat) (d : Dict (Lstm Vec Mat))
      → lookup k d ≡ some l
      → length (insert k (reset l) d) ≡ length d
  length-reset k l d at = length-insert_known k (reset l) l d at

  pub window_at-pushed :
      (t : Lstm Vec Mat) (key : String) (fv : FeatureVector) (d : Dict (Lstm Vec Mat)) (j : String)
      → IsTable t d
      → length d < max_flow_lstms
      → window_at j (pushed t key fv d).1 ≡ (
          if str_eq key j
          then keep_last t.seq_len (window_at key d ++ fv.values ∷ [])
          else window_at j d)
  window_at-pushed t key fv d j h room =
      let (at, same) = pushed_lem t key fv d h in
      let r = pushed t key fv d in
      elim (Bool-cases (str_eq key j)) [
        | inl e ↦
            rw (e, ← (eq_iff key j).0 e)
              (window_at-eq key r.1 ∙ ap window_of at ∙ ap (λ (l : Lstm Vec Mat). l.window) same)
        | inr e ↦ rw e (
            window_at-eq j r.1
            ∙ ap window_of (pushed_room t key fv d j room (ground (arith, eq_iff key j)))
            ∙ sym (window_at-eq j d))
      ]

  pub window_at-reset :
      (l : Lstm Vec Mat) (key j : String) (d : Dict (Lstm Vec Mat))
      → window_at j (insert key (reset l) d) ≡ (if str_eq key j then [] else window_at j d)
  unfolding reset
  window_at-reset l key j d = ground (arith, lookup-insert key j (reset l) d)
