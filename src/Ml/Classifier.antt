-- ===== src/Ml/Classifier.antt =====
-- ml-intelligence-03/ml/models/xgboost_classifier.py: the severity of a feature vector. The trees are
-- xgboost's, or scikit-learn's where that is not installed: a `Backend` says what they give, `none`
-- where it raises. Probabilities are numerators over a common denominator, so that the scaling of a
-- hint is exact. The learning rate is in thousandths. A pickled file is read back as it was written.
pub mod Severity
pub mod Files
use nimbus_net.Prelude.{
  ℕ, ◌+◌, ◌*◌, String, Bool, true, false, ◌&&◌, Option, none, some, List, [], ◌∷◌, ltb, leb, ◌==◌,
  length, if◌then◌else◌,
}
use nimbus_net.Prelude.Fractions.{Ratio, below_pct}
use nimbus_net.Ml.Flywheel.{
  FaultType, syn_flood, FaultSeverity, nominal, warning, degraded, critical,
}

-- `predict_proba` gives numerators and their denominator, a number for each of `classes`; xgboost
-- has all four classes. `digest` is the short hash of a text that is made of these numbers.
pub record Backend (Model : Type 0) : Type 0 where
  pub xgb_available : Bool
  pub fit_xgboost : ℕ → ℕ → ℕ → ℕ → List (List Ratio) → List FaultSeverity → Option Model
  pub fit_tree : ℕ → ℕ → List (List Ratio) → List FaultSeverity → Option Model
  pub feature_importances : Model → List ℕ
  pub classes : Model → List ℕ
  pub predict_proba : Model → List Ratio → List ℕ × ℕ
  pub digest : ℕ → ℕ → ℕ → String

pub record Probs : Type 0 where
  pub on_nominal : ℕ
  pub on_warning : ℕ
  pub on_degraded : ℕ
  pub on_critical : ℕ
  pub den : ℕ

pub record Classifier (Model : Type 0) : Type 0 where
  pub n_estimators : ℕ
  pub max_depth : ℕ
  pub learning_rate : ℕ
  pub random_state : ℕ
  pub model : Option Model
  pub trained_at : Option ℕ
  pub training_samples : ℕ
  pub version_hash : String
  pub importances : Option (List ℕ)

abbrev pub min_confidence_pct : ℕ
min_confidence_pct = 55

-- The entry of a class; `classes_` has no class twice, and one that is not there has 0.
unfoldable pub class_prob : ℕ → List ℕ → List ℕ → ℕ
class_prob k (c ∷ cs) (p ∷ ps) = if c == k then p else class_prob k cs ps
class_prob k _ _ = 0

unfoldable pub pad : List ℕ → List ℕ → ℕ → Probs
unfolding class_prob
pad classes ps den = record {
  on_nominal = class_prob 0 classes ps;
  on_warning = class_prob 1 classes ps;
  on_degraded = class_prob 2 classes ps;
  on_critical = class_prob 3 classes ps;
  den = den;
}

-- np.argmax: the first of the greatest
unfoldable pub most_likely : Probs → FaultSeverity
most_likely p =
    if leb p.on_warning p.on_nominal
      && (leb p.on_degraded p.on_nominal && leb p.on_critical p.on_nominal)
    then nominal
    else if leb p.on_degraded p.on_warning && leb p.on_critical p.on_warning
    then warning
    else if leb p.on_critical p.on_degraded
    then degraded
    else critical

abbrev pub prob_of : FaultSeverity → Probs → Ratio
prob_of nominal p = record { num = p.on_nominal; den = p.den }
prob_of warning p = record { num = p.on_warning; den = p.den }
prob_of degraded p = record { num = p.on_degraded; den = p.den }
prob_of critical p = record { num = p.on_critical; den = p.den }

abbrev pub is_syn_flood : Option FaultType → Bool
is_syn_flood (some syn_flood) = true
is_syn_flood _ = false

abbrev pub is_nominal : FaultSeverity → Bool
is_nominal nominal = true
is_nominal _ = false

abbrev pub is_critical : FaultSeverity → Bool
is_critical critical = true
is_critical _ = false

-- The hint in hundredths: 0.3 of the nominal share stays, and 0.7 of what stays goes to the warning.
-- The sum is the new denominator.
unfoldable pub hinted : Option FaultType → Probs → Probs
unfolding most_likely
hinted hint p =
    let kept = 30 * p.on_nominal in
    let raised = 100 * p.on_warning + 21 * p.on_nominal in
    if is_syn_flood hint && is_nominal (most_likely p)
    then record {
      on_nominal = kept;
      on_warning = raised;
      on_degraded = 100 * p.on_degraded;
      on_critical = 100 * p.on_critical;
      den = kept + raised + 100 * p.on_degraded + 100 * p.on_critical;
    }
    else p

-- The severity, with its confidence: an uncertain critical one is lowered.
unfoldable pub decide_severity : Probs → FaultSeverity × Ratio
unfolding most_likely
decide_severity p =
    let s = most_likely p in
    if below_pct min_confidence_pct (prob_of s p) && is_critical s
    then (degraded, prob_of degraded p)
    else (s, prob_of s p)

module _ {Model : Type 0} (b : Backend Model) where
  abbrev pub new_classifier : ℕ → ℕ → ℕ → Classifier Model
  new_classifier n_estimators max_depth learning_rate = record {
    n_estimators = n_estimators;
    max_depth = max_depth;
    learning_rate = learning_rate;
    random_state = 42;
    model = none;
    trained_at = none;
    training_samples = 0;
    version_hash = "";
    importances = none;
  }

  unfoldable pub fit : List (List Ratio) → List FaultSeverity → Classifier Model → Option Model
  fit rows labels c =
      if b.xgb_available
      then b.fit_xgboost c.n_estimators c.max_depth c.learning_rate c.random_state rows labels
      else b.fit_tree 8 c.random_state rows labels

  -- `retrain` is the same; `now` is the clock behind the training.
  unfoldable pub bootstrap :
      ℕ → List (List Ratio) → List FaultSeverity → Classifier Model → Option (Classifier Model)
  unfolding fit
  bootstrap now rows labels c = elim (fit rows labels c) [
    | none ↦ none
    | some m ↦ some (record c {
      model = some m;
      importances = some (b.feature_importances m);
      trained_at = some now;
      training_samples = length rows;
      version_hash = b.digest c.n_estimators (length rows) now;
    })
  ]

  abbrev pub all_classes : List ℕ
  all_classes = 0 ∷ 1 ∷ 2 ∷ 3 ∷ []

  unfoldable pub raw_probs : Model → List Ratio → Probs
  unfolding pad
  raw_probs m v =
      let (ps, den) = b.predict_proba m v in
      pad (if b.xgb_available then all_classes else b.classes m) ps den

  -- `none` is the RuntimeError of a classifier that is not trained.
  unfoldable pub classify :
      List Ratio → Option FaultType → Classifier Model → Option (FaultSeverity × Ratio × Probs)
  unfolding raw_probs hinted decide_severity
  classify v hint c = elim c.model [
    | none ↦ none
    | some m ↦
        let p = hinted hint (raw_probs m v) in
        let (s, confidence) = decide_severity p in some (s, confidence, p)
  ]
