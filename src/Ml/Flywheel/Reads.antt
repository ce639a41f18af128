-- ===== src/Ml/Flywheel/Reads.antt =====
-- What the flywheel gives back (ml-intelligence-03/ml/flywheel/flywheel.py).
use nimbus_net.Prelude.{
  ℕ, ◌≡◌, refl, arith, Option, List, [], ◌∷◌, ◌++◌, length, leb, List-cases, inl, inr, count_if,
  ◌&&◌, ap,
}
use mathlib.Core.List.{append-nil}
use nimbus_net.Ml.Flywheel.{
  TrainingSample, Flywheel, LabelSource, flush_buffer, append, is_allowed, read_store,
}

-- Every sample that the flywheel has, in the order in which it came.
abbrev pub held : Flywheel → List TrainingSample
held w = w.store ++ w.buffer

unfoldable pub append_all : List TrainingSample → Flywheel → Flywheel
append_all [] w = w
append_all (s ∷ ss) w = append_all ss (append s w)

pub flush_buffer-held :
    (w : Flywheel)
    → (held (flush_buffer w) ≡ held w)
      × ((flush_buffer w).buffer ≡ [])
      × ((flush_buffer w).samples_since_last_retrain ≡ w.samples_since_last_retrain)
      × ((flush_buffer w).stats ≡ w.stats)
unfolding flush_buffer
flush_buffer-held w = elim (List-cases w.buffer) [
  | inl e ↦ rw (e, flush_buffer) (ap (λ b. w.store ++ b) e, e, refl, refl)
  | inr (x, xs, e) ↦ rw (e, flush_buffer) (append-nil (w.store ++ x ∷ xs), refl, refl, refl)
]

-- What a filter keeps: the samples that are confident enough and of an allowed source.
pub read_store-count :
    (source_filter : Option (List LabelSource)) (min_confidence : ℕ) (ss : List TrainingSample)
    → length (read_store source_filter min_confidence ss)
      ≡ count_if
          (λ s. leb min_confidence s.confidence && is_allowed source_filter s.label_source)
          ss
unfolding read_store
read_store-count source_filter min_confidence [] = refl
read_store-count source_filter min_confidence (s ∷ ss) =
    ground (arith, read_store-count source_filter min_confidence ss)
