-- ===== src/Ml/Classifier/Files.antt =====
-- The file and the explanations of ml-intelligence-03/ml/models/xgboost_classifier.py.
use mathlib.Core.List.{Perm}
use mathlib.Core.List.Perm
use nimbus_net.Prelude.{
  ℕ, ◌≤◌, ◌≡◌, refl, arith, String, Option, none, some, List, [], ◌∷◌, leb, if◌then◌else◌, All,
  Bool-cases, inl, inr,
}
use nimbus_net.Prelude.Fractions.{Ratio}
use nimbus_net.Ml.Flywheel.{FaultType}
use nimbus_net.Ml.Classifier.{Backend, Classifier, new_classifier, classify}

-- The pickled dict; its `version` is never read.
pub record Payload (Model : Type 0) : Type 0 where
  pub model : Option Model
  pub trained_at : Option ℕ
  pub training_samples : ℕ
  pub version_hash : String
  pub feature_importances : Option (List ℕ)
  pub n_estimators : ℕ
  pub max_depth : ℕ
  pub learning_rate : ℕ

module _ {Model : Type 0} where
  unfoldable pub save : Classifier Model → Payload Model
  save c = record {
    model = c.model;
    trained_at = c.trained_at;
    training_samples = c.training_samples;
    version_hash = c.version_hash;
    feature_importances = c.importances;
    n_estimators = c.n_estimators;
    max_depth = c.max_depth;
    learning_rate = c.learning_rate;
  }

module _ {Model : Type 0} (b : Backend Model) where
  unfoldable pub load : Payload Model → Classifier Model
  load p = record (new_classifier b p.n_estimators p.max_depth p.learning_rate) {
    model = p.model;
    trained_at = p.trained_at;
    training_samples = p.training_samples;
    version_hash = p.version_hash;
    importances = p.feature_importances;
  }

  -- A classifier that is saved and loaded again is the same but for its random state, which is that
  -- of a new one; it classifies every vector as before.
  pub load-save :
      (c : Classifier Model)
      → (load (save c) ≡ record c { random_state = 42 })
        × ((v : List Ratio) (hint : Option FaultType)
            → classify b v hint (load (save c)) ≡ classify b v hint c)
  unfolding load save classify
  load-save c = (refl, λ v hint. refl)

abbrev pub feature_names : List String
feature_names =
    "rtt_ewma_ms" ∷ "rtt_jitter_ms" ∷ "rtt_jitter_ratio" ∷ "retransmit_rate"
    ∷ "retransmit_rate_log1p" ∷ "avg_anomaly_score_norm" ∷ "max_anomaly_score_norm"
    ∷ "bytes_per_packet" ∷ "packets_per_ms" ∷ "connect_rate" ∷ "close_rate" ∷ "retrans_per_packet"
    ∷ "rtt_spike" ∷ "high_jitter" ∷ "packet_loss_signal" ∷ "syn_flood_signal" ∷ "window_utilisation"
    ∷ "anomaly_trending" ∷ []

abbrev pub zip : List String → List ℕ → List (String × ℕ)
zip (a ∷ as') (x ∷ xs) = (a, x) ∷ zip as' xs
zip _ _ = []

-- `sorted(…, key=…, reverse=True)` keeps the order of equal entries.
unfoldable pub insert_greatest : String × ℕ → List (String × ℕ) → List (String × ℕ)
insert_greatest e [] = e ∷ []
insert_greatest e (d ∷ ds) = if leb d.1 e.1 then e ∷ d ∷ ds else d ∷ insert_greatest e ds

unfoldable pub sort_greatest : List (String × ℕ) → List (String × ℕ)
unfolding insert_greatest
sort_greatest [] = []
sort_greatest (e ∷ es) = insert_greatest e (sort_greatest es)

abbrev pub all_zero : List String → List (String × ℕ)
all_zero [] = []
all_zero (a ∷ as') = (a, 0) ∷ all_zero as'

unfoldable pub explain : {Model : Type 0} → Classifier Model → List (String × ℕ)
unfolding sort_greatest
explain c = elim c.importances [
  | none ↦ all_zero feature_names
  | some xs ↦ sort_greatest (zip feature_names xs)
]

abbrev pub IsGreatestFirst : List (String × ℕ) → Type 0
IsGreatestFirst [] = Unit
IsGreatestFirst (e ∷ es) = All (λ (d : String × ℕ). d.1 ≤ e.1) es × IsGreatestFirst es

All-mono :
    (m n : ℕ) (es : List (String × ℕ))
    → m ≤ n
    → All (λ (d : String × ℕ). d.1 ≤ m) es
    → All (λ (d : String × ℕ). d.1 ≤ n) es
All-mono m n [] le h = tt
All-mono m n (e ∷ es) le h = (omega arith, All-mono m n es le h.1)

All-insert_greatest :
    (n : ℕ) (e : String × ℕ) (es : List (String × ℕ))
    → e.1 ≤ n
    → All (λ (d : String × ℕ). d.1 ≤ n) es
    → All (λ (d : String × ℕ). d.1 ≤ n) (insert_greatest e es)
unfolding insert_greatest
All-insert_greatest n e [] le h = (le, tt)
All-insert_greatest n e (d ∷ ds) le h = ground (arith, All-insert_greatest n e ds)

insert_greatest-sorted :
    (e : String × ℕ) (es : List (String × ℕ))
    → IsGreatestFirst es
    → IsGreatestFirst (insert_greatest e es)
unfolding insert_greatest
insert_greatest-sorted e [] h = (tt, tt)
insert_greatest-sorted e (d ∷ ds) h =
    ground (arith, All-insert_greatest d.1 e ds, insert_greatest-sorted e ds, All-mono d.1 e.1 ds)

insert_greatest-perm :
    (e : String × ℕ) (es : List (String × ℕ)) → Perm (insert_greatest e es) (e ∷ es)
unfolding insert_greatest
insert_greatest-perm e [] = Perm.refl (e ∷ [])
insert_greatest-perm e (d ∷ ds) = elim (Bool-cases (leb d.1 e.1)) [
  | inl le ↦ rw le (Perm.refl (e ∷ d ∷ ds))
  | inr gt ↦ rw gt (Perm.trans (Perm.cons d (insert_greatest-perm e ds)) (Perm.swap e d ds))
]

sort_greatest_lem :
    (es : List (String × ℕ)) → IsGreatestFirst (sort_greatest es) × Perm (sort_greatest es) es
unfolding sort_greatest
sort_greatest_lem [] = (tt, Perm.refl [])
sort_greatest_lem (e ∷ es) =
    let (sorted, same) = sort_greatest_lem es in
    (
      insert_greatest-sorted e (sort_greatest es) sorted,
      Perm.trans (insert_greatest-perm e (sort_greatest es)) (Perm.cons e same),
    )

-- The explanation of a trained classifier has the features with their importances, each once, those
-- with the greatest first.
pub explain_sorted :
    {Model : Type 0} (c : Classifier Model) (xs : List ℕ)
    → c.importances ≡ some xs
    → IsGreatestFirst (explain c) × Perm (explain c) (zip feature_names xs)
unfolding explain
explain_sorted c xs h = rw (h, explain) (sort_greatest_lem (zip feature_names xs))
