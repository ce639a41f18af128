-- ===== src/Ml/Retrainer/Swaps.antt =====
-- When models are swapped (ml-intelligence-03/ml/flywheel/retrainer.py).
use nimbus_net.Prelude.{
  ℕ, ◌+◌, ◌≤◌, ◌≡◌, ◌⊎◌, ◌&&◌, refl, ap, sym, ◌∙◌, List, Option, some, arith, String, Bool, true,
  false, none, some, Option-cases, Bool-cases, inl, inr, ltb, length,
}
use nimbus_net.Ml.Flywheel.{
  Flywheel, FlywheelStats, load_training_samples, load_training_arrays, load_anomaly_split,
  should_retrain, min_samples_for_retrain,
}
use nimbus_net.Ml.Flywheel.Reads.{flush_buffer-held}
use nimbus_net.Ml.Retrainer.{
  Table, Disk, is_written, raised, swap, xgb_accuracy, if_auprc, Learning, Retrainer, RetrainResult,
  train, improves, validate, run_retrain, retrain, maybe_retrain, min_improvement,
}

-- Loading leaves the counts that a retraining is decided on.
load-counts :
    (w : Flywheel)
    → ((load_training_arrays none 600 w).1.samples_since_last_retrain
        ≡ w.samples_since_last_retrain)
      × ((load_anomaly_split 700 w).1.samples_since_last_retrain ≡ w.samples_since_last_retrain)
      × ((load_training_arrays none 600 w).1.stats ≡ w.stats)
      × ((load_anomaly_split 700 w).1.stats ≡ w.stats)
unfolding load_training_arrays load_anomaly_split load_training_samples
load-counts w = let (_, _, since, stats) = flush_buffer-held w in (since, since, stats, stats)

module _ {Forest Xgb : Type 0} (l : Learning Forest Xgb) where
  -- The test set and the two models that a retraining of r trains.
  unfoldable pub training_of : Retrainer Forest Xgb → Option (Table × Forest × Xgb)
  training_of r =
      let ((features, _, severities), w1) = load_training_arrays none 600 r.flywheel in
      let ((normal, anomalies), _) = load_anomaly_split 700 w1 in
      train l (record { rows = features; labels = severities }) normal anomalies

  -- Nothing was swapped.
  pub record Kept (r0 : Retrainer Forest Xgb) (result : RetrainResult) (r : Retrainer Forest Xgb)
      : Type 0 where
    pub reported : result.models_swapped ≡ false
    pub forest : r.forest ≡ r0.forest
    pub xgb : r.xgb ≡ r0.xgb
    pub forest_on_disk : r.forest_on_disk ≡ r0.forest_on_disk
    pub xgb_on_disk : r.xgb_on_disk ≡ r0.xgb_on_disk
    pub since : r.flywheel.samples_since_last_retrain ≡ r0.flywheel.samples_since_last_retrain
    pub total : r.flywheel.stats.total_samples ≡ r0.flywheel.stats.total_samples

  -- The pipeline has both models f and x, each at most 1% below the old one on the samples held out.
  pub record InPlace (test : Table) (f : Forest) (x : Xgb) (r0 r : Retrainer Forest Xgb)
      : Type 0 where
    pub forest : r.forest ≡ f
    pub xgb : r.xgb ≡ x
    pub score : if_auprc l r0.forest test ≤ if_auprc l f test + min_improvement
    pub accuracy : xgb_accuracy l r0.xgb test ≤ xgb_accuracy l x test + min_improvement

  -- They were swapped, and all that goes with it was done.
  pub record Swapped (f : Forest) (x : Xgb) (r0 : Retrainer Forest Xgb) (result : RetrainResult)
      (r : Retrainer Forest Xgb) : Type 0 where
    pub reported : result.models_swapped ≡ true
    pub forest_on_disk : r.forest_on_disk ≡ some f
    pub xgb_on_disk : r.xgb_on_disk ≡ some x
    pub since : r.flywheel.samples_since_last_retrain ≡ 0
    pub total : r.flywheel.stats.total_samples ≡ r0.flywheel.stats.total_samples
    pub completed : r.flywheel.stats.retrains_completed ≡ r0.flywheel.stats.retrains_completed + 1

  -- They were swapped, but a file could not be written: the result says that nothing was swapped.
  pub record Unreported (d : Disk) (r0 : Retrainer Forest Xgb) (result : RetrainResult)
      (r : Retrainer Forest Xgb) : Type 0 where
    pub failed : (d.makes_dir && is_written d.forest_write && is_written d.xgb_write) ≡ false
    pub reported : (result.models_swapped ≡ false) × (result.error ≡ raised)
    pub since : r.flywheel.samples_since_last_retrain ≡ r0.flywheel.samples_since_last_retrain
    pub total : r.flywheel.stats.total_samples ≡ r0.flywheel.stats.total_samples

  abbrev pub Judged :
      Disk
      → Option (Table × Forest × Xgb)
      → Retrainer Forest Xgb
      → RetrainResult
      → Retrainer Forest Xgb
      → Type 0
  Judged d trained r0 result r =
      Kept r0 result r
      ⊎ ((test : Table) × (f : Forest) × (x : Xgb) × (trained ≡ some (test, f, x))
          × InPlace test f x r0 r
          × (Swapped f x r0 result r ⊎ Unreported d r0 result r))

  swap-InPlace :
      (d : Disk) (test : Table) (f : Forest) (x : Xgb) (r : Retrainer Forest Xgb)
      → improves l test f x r ≡ true
      → InPlace test f x r (swap l d f x r).1
  unfolding swap improves
  swap-InPlace d test f x r better = record {
    forest = ground arith;
    xgb = ground arith;
    score = ground arith;
    accuracy = ground arith;
  }

  swap_saved :
      (d : Disk) (f : Forest) (x : Xgb) (r : Retrainer Forest Xgb)
      → (swap l d f x r).0 ≡ true
      → ((swap l d f x r).1.forest_on_disk ≡ some f) × ((swap l d f x r).1.xgb_on_disk ≡ some x)
  unfolding swap
  swap_saved d f x r saved = (ground arith, ground arith)

  swap_flywheel :
      (d : Disk) (f : Forest) (x : Xgb) (r : Retrainer Forest Xgb)
      → ((swap l d f x r).1.flywheel ≡ r.flywheel)
        × ((swap l d f x r).0
            ≡ (d.makes_dir && is_written d.forest_write && is_written d.xgb_write))
  unfolding swap
  swap_flywheel d f x r = (ground arith, ground arith)

  validate-Judged :
      (d : Disk) (trigger : String) (started swapped_at completed : ℕ) (test : Table) (f : Forest)
      (x : Xgb) (r : Retrainer Forest Xgb)
      → Judged d
          (some (test, f, x))
          r
          (validate l d trigger started swapped_at completed test f x r).0
          (validate l d trigger started swapped_at completed test f x r).1
  unfolding validate
  validate-Judged d trigger started swapped_at completed test f x r =
      let (same_flywheel, outcome) = swap_flywheel d f x r in
      elim (Bool-cases (improves l test f x r)) [
        | inr worse ↦
            rw (worse, validate)
              (inl (record {
                reported = refl;
                forest = refl;
                xgb = refl;
                forest_on_disk = refl;
                xgb_on_disk = refl;
                since = refl;
                total = refl;
              }))
        | inl better ↦
            let h = swap-InPlace d test f x r better in
            elim (Bool-cases (swap l d f x r).0) [
              | inl saved ↦
                  let (on_disk, xgb_on_disk) = swap_saved d f x r saved in
                  rw (better, saved, validate)
                    (inr (
                      test,
                      f,
                      x,
                      refl,
                      record {
                        forest = h.forest;
                        xgb = h.xgb;
                        score = h.score;
                        accuracy = h.accuracy;
                      },
                      inl (record {
                        reported = refl;
                        forest_on_disk = on_disk;
                        xgb_on_disk = xgb_on_disk;
                        since = refl;
                        total = ap (λ (w : Flywheel). w.stats.total_samples) same_flywheel;
                        completed =
                            ap (λ (w : Flywheel). w.stats.retrains_completed + 1) same_flywheel;
                      }),
                    ))
              | inr failed ↦
                  rw (better, failed, validate)
                    (inr (
                      test,
                      f,
                      x,
                      refl,
                      h,
                      inr (record {
                        failed = sym outcome ∙ failed;
                        reported = (refl, refl);
                        since = ap (λ (w : Flywheel). w.samples_since_last_retrain) same_flywheel;
                        total = ap (λ (w : Flywheel). w.stats.total_samples) same_flywheel;
                      }),
                    ))
            ]
      ]

  -- The retrainer with the flywheel as the two loads leave it.
  abbrev loaded : Retrainer Forest Xgb → Retrainer Forest Xgb
  loaded r = record r {
    flywheel = (load_anomaly_split 700 (load_training_arrays none 600 r.flywheel).1).1;
  }

  loaded-counts :
      (r : Retrainer Forest Xgb)
      → ((loaded r).flywheel.samples_since_last_retrain ≡ r.flywheel.samples_since_last_retrain)
        × ((loaded r).flywheel.stats ≡ r.flywheel.stats)
  loaded-counts r =
      let w1 = (load_training_arrays none 600 r.flywheel).1 in
      let (since, _, stats, _) = load-counts r.flywheel in
      let (_, since1, _, stats1) = load-counts w1 in (since1 ∙ since, stats1 ∙ stats)

  -- The loads and the notices change nothing that is judged.
  told-Judged :
      (d : Disk) (trained : Option (Table × Forest × Xgb)) (r0 r : Retrainer Forest Xgb)
      (result : RetrainResult) (history notices : List RetrainResult)
      → Judged d trained (loaded r0) result r
      → Judged d trained r0 result (record r { history = history; notices = notices })
  told-Judged d trained r0 r result history notices (inl k) = inl (record {
    reported = k.reported;
    forest = k.forest;
    xgb = k.xgb;
    forest_on_disk = k.forest_on_disk;
    xgb_on_disk = k.xgb_on_disk;
    since = k.since ∙ (loaded-counts r0).0;
    total = k.total ∙ ap (λ (t : FlywheelStats). t.total_samples) (loaded-counts r0).1;
  })
  told-Judged d trained r0 r result history notices (inr (test, f, x, e, h, inl s)) = inr (
    test,
    f,
    x,
    e,
    record { forest = h.forest; xgb = h.xgb; score = h.score; accuracy = h.accuracy },
    inl (record {
      reported = s.reported;
      forest_on_disk = s.forest_on_disk;
      xgb_on_disk = s.xgb_on_disk;
      since = s.since;
      total = s.total ∙ ap (λ (t : FlywheelStats). t.total_samples) (loaded-counts r0).1;
      completed =
          s.completed ∙ ap (λ (t : FlywheelStats). t.retrains_completed + 1) (loaded-counts r0).1;
    }),
  )
  told-Judged d trained r0 r result history notices (inr (test, f, x, e, h, inr u)) = inr (
    test,
    f,
    x,
    e,
    record { forest = h.forest; xgb = h.xgb; score = h.score; accuracy = h.accuracy },
    inr (record {
      failed = u.failed;
      reported = u.reported;
      since = u.since ∙ (loaded-counts r0).0;
      total = u.total ∙ ap (λ (t : FlywheelStats). t.total_samples) (loaded-counts r0).1;
    }),
  )

  no_swap_keeps :
      (r : Retrainer Forest Xgb) (result : RetrainResult)
      → result.models_swapped ≡ false
      → Kept r result r
  no_swap_keeps r result e = record {
    reported = e;
    forest = refl;
    xgb = refl;
    forest_on_disk = refl;
    xgb_on_disk = refl;
    since = refl;
    total = refl;
  }

  run_retrain-Judged :
      (d : Disk) (trigger : String) (started swapped_at completed : ℕ) (r : Retrainer Forest Xgb)
      → Judged d
          (training_of r)
          (loaded r)
          (run_retrain l d trigger started swapped_at completed r).0
          (run_retrain l d trigger started swapped_at completed r).1
  unfolding run_retrain training_of
  run_retrain-Judged d trigger started swapped_at completed r =
      let ((features, _, severities), w1) = load_training_arrays none 600 r.flywheel in
      let ((normal, anomalies), _) = load_anomaly_split 700 w1 in
      let t : Table = record { rows = features; labels = severities } in
      elim (Bool-cases (ltb (length features) min_samples_for_retrain)) [
        | inl few ↦ rw (few, run_retrain) (inl (no_swap_keeps (loaded r) _ refl))
        | inr many ↦ elim (Option-cases (train l t normal anomalies)) [
          | inl e ↦ rw (many, e, run_retrain) (inl (no_swap_keeps (loaded r) _ refl))
          | inr (m, e) ↦
              rw (many, e, run_retrain)
                (validate-Judged d trigger started swapped_at completed m.0 m.1 m.2 (loaded r))
        ]
      ]

  -- A retraining swaps both models or neither. Either the models, those on disk and the count of new
  -- samples are as they were, and nothing is reported as swapped. Or the pipeline has both models
  -- that were trained on the loaded samples, each at most 1% below the old one on the samples held
  -- out (they need not improve anything); then, if both files could be written, they hold these
  -- models, the swap is reported and counted, and the samples are counted anew; and if not, the
  -- result is an error that reports no swap, and the count goes on.
  pub retrain-Judged :
      (d : Disk) (free notifies : Bool) (trigger : String) (started swapped_at completed : ℕ)
      (r : Retrainer Forest Xgb)
      → Judged d
          (training_of r)
          r
          (retrain l d free notifies trigger started swapped_at completed r).0
          (retrain l d free notifies trigger started swapped_at completed r).1
  unfolding retrain
  retrain-Judged d false notifies trigger started swapped_at completed r =
      inl (no_swap_keeps r _ refl)
  retrain-Judged d true notifies trigger started swapped_at completed r =
      told-Judged d (training_of r) r _ _ _ _
        (run_retrain-Judged d trigger started swapped_at completed r)

  -- What is reported as not swapped goes on counting.
  unswapped-counts :
      (d : Disk) (trained : Option (Table × Forest × Xgb)) (r0 r : Retrainer Forest Xgb)
      (result : RetrainResult)
      → Judged d trained r0 result r
      → result.models_swapped ≡ false
      → (r.flywheel.samples_since_last_retrain ≡ r0.flywheel.samples_since_last_retrain)
        × (r.flywheel.stats.total_samples ≡ r0.flywheel.stats.total_samples)
  unswapped-counts d trained r0 r result (inl k) kept = (k.since, k.total)
  unswapped-counts d trained r0 r result (inr (test, f, x, e, h, inl s)) kept =
      ground (arith, s.reported)
  unswapped-counts d trained r0 r result (inr (test, f, x, e, h, inr u)) kept = (u.since, u.total)

  -- After a check that led to a retraining which reports no swap, the flywheel still asks for a
  -- retraining, since only a reported swap starts the count anew.
  pub kept_models_retrain_again :
      (d : Disk) (free notifies : Bool) (trigger : String) (started swapped_at completed : ℕ)
      (r : Retrainer Forest Xgb) (result : RetrainResult)
      → (maybe_retrain l d free notifies trigger started swapped_at completed r).0 ≡ some result
      → result.models_swapped ≡ false
      → should_retrain
          (maybe_retrain l d free notifies trigger started swapped_at completed r).1.flywheel
        ≡ true
  unfolding maybe_retrain should_retrain
  kept_models_retrain_again d free notifies trigger started swapped_at completed r result done
        kept =
      let out = retrain l d free notifies trigger started swapped_at completed r in
      ground (
        arith,
        unswapped-counts d (training_of r) r out.1 out.0
            (retrain-Judged d free notifies trigger started swapped_at completed r),
      )
