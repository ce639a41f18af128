-- ===== src/Ml/Pipeline/Flows.antt =====
-- The table of the flows' networks (ml-intelligence-03/ml/pipeline/scoring_pipeline.py).
use mathlib.Core.Path.{subst}
use nimbus_net.Prelude.{
  length-insert, length-insert_known, ◌≤◌, ◌≡◌, ◌≢◌, ◌⊎◌, inl, inr, refl, ap, ◌∙◌, sym, arith,
  eq_iff, str_eq, String, none, some, List, [], ◌∷◌, ◌++◌, length, Dict, lookup, insert,
  lookup-insert, lookup-insert_self, Option-cases, Bool-cases,
}
use nimbus_net.Prelude.Fractions.{Ratio}
use nimbus_net.Ml.Features.{FeatureVector}
use nimbus_net.Ml.Lstm.{Lstm, push, keep_last, reset}
use nimbus_net.Ml.Lstm.Window.{length-keep_last}
use nimbus_net.Ml.Pipeline.{clone, evict, get_flow_lstm, pushed, max_flow_lstms}
use nimbus_net.Ml.Pipeline.Evict.{oldest, length-evict, lookup-evict, evict-lookup}

-- A flow's window; a flow that has no network yet has an empty one.
abbrev pub window_at : {Vec Mat : Type 0} → String → Dict (Lstm Vec Mat) → List (List Ratio)
window_at k d = elim (lookup k d) [ none ↦ [] | some l ↦ l.window ]

module _ {Vec Mat : Type 0} where
  -- At most 10,000 networks, all with the weights and the length of the template, a version of their
  -- own and a window that is not over-full.
  pub record IsTable (t : Lstm Vec Mat) (d : Dict (Lstm Vec Mat)) : Type 0 where
    pub bounded : length d ≤ max_flow_lstms
    pub cloned :
        (k : String) (l : Lstm Vec Mat)
        → lookup k d ≡ some l
        → (l ≡ record (clone t) { window = l.window }) × (length l.window ≤ t.seq_len)

  -- The table with a new network in it.
  pub insert-IsTable :
      (t l : Lstm Vec Mat) (key : String) (d : Dict (Lstm Vec Mat))
      → l ≡ record (clone t) { window = l.window }
      → length l.window ≤ t.seq_len
      → length (insert key l d) ≤ max_flow_lstms
      → IsTable t d
      → IsTable t (insert key l d)
  insert-IsTable t l key d same short fits h = record {
    bounded = fits;
    cloned = λ k x e. elim (Bool-cases (str_eq key k)) [
      | inl here ↦
          let eq : l ≡ x = ground (arith, lookup-insert key k l d) in
          subst (λ y. (y ≡ record (clone t) { window = y.window }) × (length y.window ≤ t.seq_len))
            eq (same, short)
      | inr there ↦ h.cloned k x (ground (arith, lookup-insert key k l d))
    ];
  }

  evict-IsTable : (t : Lstm Vec Mat) (d : Dict (Lstm Vec Mat)) → IsTable t d → IsTable t (evict d)
  evict-IsTable t d h = record {
    bounded = omega (arith, length-evict d h.bounded);
    cloned = λ k l e. h.cloned k l (lookup-evict d k l e);
  }

  get_flow_lstm-IsTable :
      (t : Lstm Vec Mat) (key : String) (d : Dict (Lstm Vec Mat))
      → IsTable t d
      → IsTable t (get_flow_lstm t key d).1
  unfolding get_flow_lstm
  get_flow_lstm-IsTable t key d h = elim (Option-cases (lookup key d)) [
    | inr (l, e) ↦ rw (e, get_flow_lstm) h
    | inl e ↦
        rw (e, get_flow_lstm)
          (insert-IsTable t (clone t) key (evict d) refl (omega arith)
            (omega (arith, length-insert key (clone t) (evict d), length-evict d h.bounded))
            (evict-IsTable t d h))
  ]

  -- What is returned is in the table, with the window that the flow had.
  pub get_flow_lstm-lookup :
      (t : Lstm Vec Mat) (key : String) (d : Dict (Lstm Vec Mat))
      → (lookup key (get_flow_lstm t key d).1 ≡ some (get_flow_lstm t key d).0)
        × ((get_flow_lstm t key d).0.window ≡ window_at key d)
  unfolding get_flow_lstm
  get_flow_lstm-lookup t key d = elim (Option-cases (lookup key d)) [
    | inr (l, e) ↦ (rw (e, get_flow_lstm) e, rw (e, get_flow_lstm, window_at) refl)
    | inl e ↦ (
      rw (e, get_flow_lstm) (lookup-insert_self key (clone t) (evict d)),
      rw (e, get_flow_lstm, window_at) refl,
    )
  ]

  push-clone :
      (t l : Lstm Vec Mat) (v : List Ratio)
      → l ≡ record (clone t) { window = l.window }
      → push v l ≡ record (clone t) { window = keep_last t.seq_len (l.window ++ v ∷ []) }
  unfolding push clone
  push-clone t l v same = ap (push v) same

  pub pushed-IsTable :
      (t : Lstm Vec Mat) (key : String) (fv : FeatureVector) (d : Dict (Lstm Vec Mat))
      → IsTable t d
      → IsTable t (pushed t key fv d).1
  unfolding pushed
  pushed-IsTable t key fv d h =
      let (l, d1) = get_flow_lstm t key d in
      let table = get_flow_lstm-IsTable t key d h in
      let (found, _) = get_flow_lstm-lookup t key d in
      let (same, _) = table.cloned key l found in
      let grown = push-clone t l fv.values same in
      let w = keep_last t.seq_len (l.window ++ fv.values ∷ []) in
      let short : length w ≤ t.seq_len = length-keep_last t.seq_len (l.window ++ fv.values ∷ []) in
      insert-IsTable t (push fv.values l) key d1
        (subst (λ (y : Lstm Vec Mat). y ≡ record (clone t) { window = y.window }) (sym grown) refl)
        (subst (λ (y : Lstm Vec Mat). length y.window ≤ t.seq_len) (sym grown) short)
        (omega (arith, length-insert_known key (push fv.values l) l d1 found, table.bounded)) table

  -- The flow's network after a vector: the template's weights, and a window with the vector at its
  -- end.
  pub pushed_lem :
      (t : Lstm Vec Mat) (key : String) (fv : FeatureVector) (d : Dict (Lstm Vec Mat))
      → IsTable t d
      → (lookup key (pushed t key fv d).1 ≡ some (pushed t key fv d).0)
        × ((pushed t key fv d).0
            ≡ record (clone t) { window = keep_last t.seq_len (window_at key d ++ fv.values ∷ []) })
  unfolding pushed
  pushed_lem t key fv d h =
      let (l, d1) = get_flow_lstm t key d in
      let (found, window) = get_flow_lstm-lookup t key d in
      let (same, _) = (get_flow_lstm-IsTable t key d h).cloned key l found in
      (
        lookup-insert_self key (push fv.values l) d1,
        push-clone t l fv.values same
            ∙ ap
                (λ (w : List (List Ratio)). record (clone t) {
                  window = keep_last t.seq_len (w ++ fv.values ∷ []);
                })
                window,
      )

  pub lookup-insert_other :
      (k j : String) (l : Lstm Vec Mat) (d : Dict (Lstm Vec Mat))
      → j ≢ k
      → lookup j (insert k l d) ≡ lookup j d
  lookup-insert_other k j l d ne = ground (arith, lookup-insert k j l d, eq_iff k j)

  get_flow_lstm_others :
      (t : Lstm Vec Mat) (key : String) (d : Dict (Lstm Vec Mat)) (j : String) (l : Lstm Vec Mat)
      → j ≢ key
      → lookup j d ≡ some l
      → (lookup j (get_flow_lstm t key d).1 ≡ some l)
        ⊎ ((max_flow_lstms ≤ length d) × (oldest d ≡ some j) × (lookup key d ≡ none))
  unfolding get_flow_lstm
  get_flow_lstm_others t key d j l ne at = elim (Option-cases (lookup key d)) [
    | inr (x, e) ↦ inl (rw (e, get_flow_lstm) at)
    | inl e ↦ elim (evict-lookup d j l at) [
      | inl kept ↦
          inl (rw (e, get_flow_lstm) (lookup-insert_other key j (clone t) (evict d) ne ∙ kept))
      | inr (full, old) ↦ inr (full, old, e)
    ]
  ]

  -- The networks of the other flows stay as they are, but for that of the oldest one, which goes if
  -- the table is full and the flow is new.
  pub pushed_others :
      (t : Lstm Vec Mat) (key : String) (fv : FeatureVector) (d : Dict (Lstm Vec Mat)) (j : String)
      (l : Lstm Vec Mat)
      → j ≢ key
      → lookup j d ≡ some l
      → (lookup j (pushed t key fv d).1 ≡ some l)
        ⊎ ((max_flow_lstms ≤ length d) × (oldest d ≡ some j) × (lookup key d ≡ none))
  unfolding pushed
  pushed_others t key fv d j l ne at =
      let (x, d1) = get_flow_lstm t key d in
      elim (get_flow_lstm_others t key d j l ne at) [
        | inl kept ↦ inl (lookup-insert_other key j (push fv.values x) d1 ne ∙ kept)
        | inr gone ↦ inr gone
      ]

  pub reset-IsTable :
      (t l : Lstm Vec Mat) (key : String) (d : Dict (Lstm Vec Mat))
      → lookup key d ≡ some l
      → IsTable t d
      → IsTable t (insert key (reset l) d)
  unfolding reset
  reset-IsTable t l key d at h =
      insert-IsTable t (record l { window = [] }) key d
        (ap (λ (y : Lstm Vec Mat). record y { window = [] }) (h.cloned key l at).0) (omega arith)
        (omega (arith, length-insert_known key (record l { window = [] }) l d at, h.bounded)) h
