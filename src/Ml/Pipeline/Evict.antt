-- ===== src/Ml/Pipeline/Evict.antt =====
-- What `_get_flow_lstm` evicts (ml-intelligence-03/ml/pipeline/scoring_pipeline.py).
use nimbus_net.Prelude.{
  length-remove_head, ◌≤◌, ◌<◌, ◌≡◌, ◌⊎◌, inl, inr, refl, ap, arith, eq_iff, str_eq, String, Option,
  none, some, [], ◌∷◌, length, Dict, lookup, lookup-remove, Bool-cases, leb,
}
use nimbus_net.Ml.Lstm.{Lstm}
use nimbus_net.Ml.Pipeline.{evict, max_flow_lstms}

-- The key that goes when the table is full.
abbrev pub oldest {ℓ} : {V : Type ℓ} → Dict V → Option String
oldest [] = none
oldest ((k, v) ∷ d) = some k

module _ {Vec Mat : Type 0} where
  pub length-evict :
      (d : Dict (Lstm Vec Mat)) → length d ≤ max_flow_lstms → length (evict d) < max_flow_lstms
  unfolding evict
  length-evict [] h = omega arith
  length-evict ((k, l) ∷ d) h = ground (arith, length-remove_head k l d)

  pub lookup-evict :
      (d : Dict (Lstm Vec Mat)) (j : String) (l : Lstm Vec Mat)
      → lookup j (evict d) ≡ some l
      → lookup j d ≡ some l
  unfolding evict
  lookup-evict [] j l h = h
  lookup-evict ((k, m) ∷ d) j l h = ground (arith, lookup-remove k j ((k, m) ∷ d), eq_iff k j)

  -- A network survives an eviction if it is not that of the oldest key, or if there is room.
  pub evict-lookup :
      (d : Dict (Lstm Vec Mat)) (j : String) (l : Lstm Vec Mat)
      → lookup j d ≡ some l
      → (lookup j (evict d) ≡ some l) ⊎ ((max_flow_lstms ≤ length d) × (oldest d ≡ some j))
  unfolding evict lookup
  evict-lookup [] j l h = cc
  evict-lookup ((k, m) ∷ d) j l h = elim (Bool-cases (leb max_flow_lstms (length ((k, m) ∷ d)))) [
    | inr room ↦ inl (rw (room, evict) h)
    | inl full ↦ elim (Bool-cases (str_eq k j)) [
      | inl same ↦ inr (ground arith, ap some ((eq_iff k j).0 same))
      | inr other ↦ inl (ground (arith, lookup-remove k j ((k, m) ∷ d)))
    ]
  ]

  pub length-evict_le : (d : Dict (Lstm Vec Mat)) → length (evict d) ≤ length d
  unfolding evict
  length-evict_le [] = omega arith
  length-evict_le ((k, l) ∷ d) = ground (arith, length-remove_head k l d)

  pub evict_room : (d : Dict (Lstm Vec Mat)) → length d < max_flow_lstms → evict d ≡ d
  unfolding evict
  evict_room [] h = refl
  evict_room ((k, l) ∷ d) h = ground arith
