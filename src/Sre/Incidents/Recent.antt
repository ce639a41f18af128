-- ===== src/Sre/Incidents/Recent.antt =====
-- `recent` of sre-operations-05/sre/runbooks/incident_manager.py: Python's `sorted` with
-- `reverse=True` is stable, so equal instants keep the order of the dict.
use mathlib.Core.List.{Perm}
use mathlib.Core.List.Perm
use nimbus_net.Prelude.{
  ℕ, zero, suc, ◌≤◌, ◌≡◌, refl, arith, List, [], ◌∷◌, ◌++◌, leb, if◌then◌else◌, length, All, map,
  Bool-cases, inl, inr,
}
use nimbus_net.Sre.Types.{Incident}
use nimbus_net.Sre.Incidents.{Manager}

unfoldable pub insert_newest : Incident → List Incident → List Incident
insert_newest i [] = i ∷ []
insert_newest i (j ∷ js) =
    if leb j.detected_at_ns i.detected_at_ns then i ∷ j ∷ js else j ∷ insert_newest i js

unfoldable pub sort_newest : List Incident → List Incident
unfolding insert_newest
sort_newest [] = []
sort_newest (i ∷ is) = insert_newest i (sort_newest is)

abbrev pub take {ℓ} : {A : Type ℓ} → ℕ → List A → List A
take zero xs = []
take (suc n) [] = []
take (suc n) (x ∷ xs) = x ∷ take n xs

unfoldable pub recent : ℕ → Manager → List Incident
unfolding sort_newest
recent limit m = take limit (sort_newest (map (λ e. m.heap e.1) m.all))

abbrev pub IsNewestFirst : List Incident → Type 0
IsNewestFirst [] = Unit
IsNewestFirst (i ∷ is) = All (λ j. j.detected_at_ns ≤ i.detected_at_ns) is × IsNewestFirst is

insert_newest-perm : (i : Incident) (is : List Incident) → Perm (insert_newest i is) (i ∷ is)
unfolding insert_newest
insert_newest-perm i [] = Perm.refl (i ∷ [])
insert_newest-perm i (j ∷ js) = elim (Bool-cases (leb j.detected_at_ns i.detected_at_ns)) [
  | inl e ↦ rw e (Perm.refl (i ∷ j ∷ js))
  | inr e ↦ rw e (Perm.trans (Perm.cons j (insert_newest-perm i js)) (Perm.swap i j js))
]

sort_newest-perm : (is : List Incident) → Perm (sort_newest is) is
unfolding sort_newest
sort_newest-perm [] = Perm.refl []
sort_newest-perm (i ∷ is) =
    Perm.trans (insert_newest-perm i (sort_newest is)) (Perm.cons i (sort_newest-perm is))

All-trans :
    (a b : ℕ) (is : List Incident)
    → a ≤ b
    → All (λ j. j.detected_at_ns ≤ a) is
    → All (λ j. j.detected_at_ns ≤ b) is
All-trans a b [] l h = tt
All-trans a b (i ∷ is) l h = (omega arith, All-trans a b is l h.1)

All-insert_newest :
    (n : ℕ) (i : Incident) (is : List Incident)
    → i.detected_at_ns ≤ n
    → All (λ j. j.detected_at_ns ≤ n) is
    → All (λ j. j.detected_at_ns ≤ n) (insert_newest i is)
unfolding insert_newest
All-insert_newest n i [] l h = (l, tt)
All-insert_newest n i (j ∷ js) l h = elim (Bool-cases (leb j.detected_at_ns i.detected_at_ns)) [
  | inl e ↦ rw e (l, h)
  | inr e ↦ rw e (h.0, All-insert_newest n i js l h.1)
]

insert_newest-IsNewestFirst :
    (i : Incident) (is : List Incident) → IsNewestFirst is → IsNewestFirst (insert_newest i is)
unfolding insert_newest
insert_newest-IsNewestFirst i [] h = (tt, tt)
insert_newest-IsNewestFirst i (j ∷ js) h =
    elim (Bool-cases (leb j.detected_at_ns i.detected_at_ns)) [
      | inl e ↦
          let l : j.detected_at_ns ≤ i.detected_at_ns = ground arith in
          rw e ((l, All-trans _ _ js l h.0), h)
      | inr e ↦ rw e (
        All-insert_newest j.detected_at_ns i js (ground arith) h.0,
        insert_newest-IsNewestFirst i js h.1,
      )
    ]

sort_newest-IsNewestFirst : (is : List Incident) → IsNewestFirst (sort_newest is)
unfolding sort_newest
sort_newest-IsNewestFirst [] = tt
sort_newest-IsNewestFirst (i ∷ is) =
    insert_newest-IsNewestFirst i (sort_newest is) (sort_newest-IsNewestFirst is)

abbrev drop {ℓ} : {A : Type ℓ} → ℕ → List A → List A
drop zero xs = xs
drop (suc n) [] = []
drop (suc n) (x ∷ xs) = drop n xs

All-drop :
    (a n : ℕ) (is : List Incident)
    → All (λ j. j.detected_at_ns ≤ a) is
    → All (λ j. j.detected_at_ns ≤ a) (drop n is)
All-drop a zero is h = h
All-drop a (suc n) [] h = tt
All-drop a (suc n) (i ∷ is) h = All-drop a n is h.1

All-take :
    (a n : ℕ) (is : List Incident)
    → All (λ j. j.detected_at_ns ≤ a) is
    → All (λ j. j.detected_at_ns ≤ a) (take n is)
All-take a zero is h = tt
All-take a (suc n) [] h = tt
All-take a (suc n) (i ∷ is) h = (h.0, All-take a n is h.1)

take_newest :
    (n : ℕ) (is : List Incident)
    → IsNewestFirst is
    → (length (take n is) ≤ n)
      × IsNewestFirst (take n is)
      × All (λ i. All (λ j. j.detected_at_ns ≤ i.detected_at_ns) (drop n is)) (take n is)
      × (take n is ++ drop n is ≡ is)
take_newest zero is h = (omega arith, tt, tt, refl)
take_newest (suc n) [] h = (omega arith, tt, tt, refl)
take_newest (suc n) (i ∷ is) h =
    let (short, sorted, newer, whole) = take_newest n is h.1 in
    (
      omega arith,
      (All-take i.detected_at_ns n is h.0, sorted),
      (All-drop i.detected_at_ns n is h.0, newer),
      rw whole,
    )

-- `recent(limit)` has at most `limit` incidents, newest first; with some others it makes up all the
-- incidents of `_all`, and none of those others was detected later than one that is listed.
pub recent_newest :
    (limit : ℕ) (m : Manager)
    → (rest : List Incident) × (length (recent limit m) ≤ limit)
      × IsNewestFirst (recent limit m)
      × All (λ i. All (λ j. j.detected_at_ns ≤ i.detected_at_ns) rest) (recent limit m)
      × Perm (recent limit m ++ rest) (map (λ e. m.heap e.1) m.all)
unfolding recent
recent_newest limit m =
    let is = map (λ e. m.heap e.1) m.all in
    let (short, sorted, newer, whole) =
      take_newest limit (sort_newest is) (sort_newest-IsNewestFirst is) in
    (drop limit (sort_newest is), short, sorted, newer, rw whole (sort_newest-perm is))
