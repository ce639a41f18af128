-- ===== src/Chaos/Bridge/Once.antt =====
-- Each session is delivered once (chaos-ci-gate-06/flywheel/bridge.py, `ingest_file`).
use nimbus_net.Prelude.{
  ℕ, ◌≡◌, String, Bool, true, false, arith, eq_iff, none, some, List, [], ◌∷◌, Bool-cases, inl, inr,
  Option-cases, sym,
}
use mathlib.Core.Path.{subst}
use nimbus_net.Chaos.Bridge.{
  Raw, Payload, Bridge, File, is_member, record_id, transform, post_record, ingest_file, poll,
}

-- No id twice.
abbrev pub IsDistinct : List String → Type 0
IsDistinct [] = Unit
IsDistinct (k ∷ ks) = (is_member k ks ≡ false) × IsDistinct ks

-- What the ML service accepted in this process is on the list of what was processed, and no id was
-- accepted twice.
pub record IsOnce (b : Bridge) : Type 0 where
  pub covered : (k : String) → is_member k b.accepted ≡ true → is_member k b.processed ≡ true
  pub distinct : IsDistinct b.accepted

post_record-IsOnce :
    (id : String) (takes : Bool) (b : Bridge)
    → is_member id b.processed ≡ false
    → IsOnce b
    → IsOnce (post_record id takes b).1
unfolding post_record is_member
post_record-IsOnce id true b new h = record {
  covered = λ k. ground (arith, eq_iff id k, h.covered k);
  distinct = (ground (arith, h.covered id), h.distinct);
}
post_record-IsOnce id false b new h = record { covered = h.covered; distinct = h.distinct }

ingest_file-IsOnce : (now : ℕ) (f : File) (b : Bridge) → IsOnce b → IsOnce (ingest_file now f b).1
unfolding ingest_file
ingest_file-IsOnce now f b h = elim (Option-cases f.raw) [
  | inl e ↦ rw (e, ingest_file) h
  | inr (r, e) ↦ elim (Bool-cases (is_member (record_id f r) b.processed)) [
    | inl old ↦ subst (λ x. IsOnce x.1) (sym (ingest_old r e old)) h
    | inr new ↦ elim (Option-cases (transform now r)) [
      | inl skip ↦ subst (λ x. IsOnce x.1) (sym (ingest_skip r e new skip)) h
      | inr (p, made) ↦
          subst (λ x. IsOnce x.1) (sym (ingest_new r p e new made))
            (post_record-IsOnce (record_id f r) f.takes b new h)
    ]
  ]
]
  where
    ingest_old :
        (r : Raw)
        → f.raw ≡ some r
        → is_member (record_id f r) b.processed ≡ true
        → ingest_file now f b ≡ (true, b)
    ingest_old r e old = ground arith

    ingest_skip :
        (r : Raw)
        → f.raw ≡ some r
        → is_member (record_id f r) b.processed ≡ false
        → transform now r ≡ none
        → ingest_file now f b ≡ (false, b)
    ingest_skip r e new skip = ground arith

    ingest_new :
        (r : Raw) (p : Payload)
        → f.raw ≡ some r
        → is_member (record_id f r) b.processed ≡ false
        → transform now r ≡ some p
        → ingest_file now f b ≡ post_record (record_id f r) f.takes b
    ingest_new r p e new made = ground arith

-- A round of polling, over any files and whichever requests the ML service takes, keeps it so that
-- no session was accepted twice and every one accepted is remembered, if it was so before.
pub poll-IsOnce : (now : ℕ) (fs : List File) (b : Bridge) → IsOnce b → IsOnce (poll now fs b)
unfolding poll
poll-IsOnce now [] b h = h
poll-IsOnce now (f ∷ fs) b h =
    poll-IsOnce now fs (ingest_file now f b).1 (ingest_file-IsOnce now f b h)

-- After a call of `ingest_file` that answered `true`, another call for the same file answers `true`
-- and sends and changes nothing. A call that answered `false` leaves the lists of what was processed
-- and accepted as they were, so that the session is tried again.
pub ingest_file_again :
    (now later : ℕ) (f : File) (b : Bridge)
    → ((ingest_file now f b).0 ≡ true
        → ingest_file later f (ingest_file now f b).1 ≡ (true, (ingest_file now f b).1))
      × ((ingest_file now f b).0 ≡ false
          → ((ingest_file now f b).1.processed ≡ b.processed)
            × ((ingest_file now f b).1.accepted ≡ b.accepted))
unfolding ingest_file post_record is_member
ingest_file_again now later f b = elim (Option-cases f.raw) [
  | inl e ↦ (ground arith, ground arith)
  | inr (r, e) ↦ (
    ground (arith, eq_iff (record_id f r) (record_id f r)),
    ground (arith, eq_iff (record_id f r) (record_id f r)),
  )
]
