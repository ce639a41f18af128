-- ===== src/Sre/Postmortem/Histories.antt =====
-- What happens to the postmortems over time (sre-operations-05/sre/postmortem/generator.py, and the
-- handlers of sre-operations-05/sre/server/server.py that change them).
use nimbus_net.Prelude.{
  ℕ, ◌+◌, ◌≤◌, ◌≡◌, refl, arith, String, Bool, true, false, not, ◌++◌, Option, none, some, List, [],
  ◌∷◌, length, suc, eq_iff, All, sym, ap, ◌∙◌,
}
use mathlib.Core.Path.{subst}
use nimbus_net.Sre.Types.{Incident, RunbookResult, PostmortemId, Postmortem, ActionItem}
use nimbus_net.Sre.Postmortem.{
  Generator, count_number, write_numbered, find, save, without, same_id, compose, generate, get,
  reopen, or_same, update_postmortem, publish_postmortem,
}
use nimbus_net.Sre.Postmortem.Ids.{find-none, without-none}
use nimbus_net.Sre.Postmortem.Numbers.{
  IsUnique, IsNumbered, generate-IsUnique, generate-IsNumbered, refused-IsUnique, change-Keeps,
}

-- What happens to the postmortems: one is generated, a reviewer updates or publishes one (which
-- fails for an id that is not there), the service starts again. Each of the first three starts with
-- whether its file is written.
pub data Deed : Type 0 where
  generates : Bool → String → ℕ → Incident → Option RunbookResult → Deed
  updates publishes : Bool → PostmortemId → String → List ActionItem → String → Deed
  restarts : Deed

abbrev pub is_restart : Deed → Bool
is_restart restarts = true
is_restart (generates writes date now i result) = false
is_restart (updates writes id factors items author) = false
is_restart (publishes writes id factors items author) = false

-- A postmortem whose file was refused: its number is counted, but there is no file.
abbrev pub leaves_gap : Deed → Bool
leaves_gap restarts = false
leaves_gap (generates writes date now i result) = not writes
leaves_gap (updates writes id factors items author) = false
leaves_gap (publishes writes id factors items author) = false

unfoldable pub deed : Deed → Generator → Generator
deed (generates writes date now i result) g = (generate writes date now i result g).1
deed (updates writes id factors items author) g =
    or_same (update_postmortem writes id factors items author g) g
deed (publishes writes id factors items author) g =
    or_same (publish_postmortem writes id factors items author g) g
deed restarts g = reopen g

unfoldable pub deeds : List Deed → Generator → Generator
deeds [] g = g
deeds (d ∷ ds) g = deeds ds (deed d g)

deed-IsUnique : (d : Deed) (g : Generator) → is_restart d ≡ false → IsUnique g → IsUnique (deed d g)
unfolding deed update_postmortem publish_postmortem
deed-IsUnique (generates true date now i result) g calm h =
    (generate-IsUnique date now i result g h).2
deed-IsUnique (generates false date now i result) g calm h = refused-IsUnique date now i result g h
deed-IsUnique (updates writes id factors items author) g calm h =
    (change-Keeps writes id _ g (λ pm. refl) h).0
deed-IsUnique (publishes writes id factors items author) g calm h =
    (change-Keeps writes id _ g (λ pm. refl) h).0
deed-IsUnique restarts g calm h = cc

deed-IsNumbered :
    (d : Deed) (g : Generator) → leaves_gap d ≡ false → IsNumbered g → IsNumbered (deed d g)
unfolding deed update_postmortem publish_postmortem reopen
deed-IsNumbered (generates true date now i result) g calm h =
    generate-IsNumbered date now i result g h
deed-IsNumbered (generates false date now i result) g calm h = cc
deed-IsNumbered (updates writes id factors items author) g calm h =
    let (unique, lengths, counters) = change-Keeps writes id _ g (λ pm. refl) h.unique in
    record { unique = unique; counted = lengths ∙ h.counted ∙ sym counters }
deed-IsNumbered (publishes writes id factors items author) g calm h =
    let (unique, lengths, counters) = change-Keeps writes id _ g (λ pm. refl) h.unique in
    record { unique = unique; counted = lengths ∙ h.counted ∙ sym counters }
deed-IsNumbered restarts g calm h = record {
  unique = record {
    distinct = h.unique.distinct;
    bounded = subst (λ n. All (λ pm. pm.id.number ≤ n) g.files) (sym h.counted) h.unique.bounded;
  };
  counted = refl;
}

calm-IsUnique :
    (ds : List Deed) (g : Generator)
    → All (λ d. is_restart d ≡ false) ds
    → IsUnique g
    → IsUnique (deeds ds g)
unfolding deeds
calm-IsUnique [] g calm h = h
calm-IsUnique (d ∷ ds) g (c, cs) h = calm-IsUnique ds (deed d g) cs (deed-IsUnique d g c h)

deeds-IsUnique :
    (before after : List Deed) (g : Generator)
    → All (λ d. leaves_gap d ≡ false) before
    → All (λ d. is_restart d ≡ false) after
    → IsNumbered g
    → IsUnique (deeds (before ++ after) g)
unfolding deeds
deeds-IsUnique [] after g whole calm h = calm-IsUnique after g calm h.unique
deeds-IsUnique (d ∷ ds) after g (w, ws) calm h =
    deeds-IsUnique ds after (deed d g) ws calm (deed-IsNumbered d g w h)

-- From a numbered store (distinct ids, no number above the counter, as many files as the counter
-- says), however postmortems are generated, updated and published, one at a time, and however often
-- the service starts again: if every postmortem generated before the last start got its file, a new
-- postmortem gets an id that none has, and its file is added to the others, which stay as they are.
pub generate_new_file :
    (before after : List Deed) (g : Generator) (date : String) (now : ℕ) (i : Incident)
    (result : Option RunbookResult)
    → All (λ d. leaves_gap d ≡ false) before
    → All (λ d. is_restart d ≡ false) after
    → IsNumbered g
    → (get
          (record { date = date; number = (deeds (before ++ after) g).counter + 1 })
          (deeds (before ++ after) g)
        ≡ none)
      × (generate true date now i result (deeds (before ++ after) g) ≡ (
        some (compose date ((deeds (before ++ after) g).counter + 1) now i result),
        record {
          counter = (deeds (before ++ after) g).counter + 1;
          files =
              compose date ((deeds (before ++ after) g).counter + 1) now i result
              ∷ (deeds (before ++ after) g).files;
        },
      ))
generate_new_file before after g date now i result whole calm h =
    let (new, made, _) =
      generate-IsUnique date now i result (deeds (before ++ after) g)
        (deeds-IsUnique before after g whole calm h) in
    (new, made)

same_id_refl : (id : PostmortemId) → same_id id id ≡ true
same_id_refl id = ground (arith, eq_iff id.date id.date)

without-same :
    (id : PostmortemId) (pm : Postmortem) (pms : List Postmortem)
    → same_id pm.id id ≡ true
    → find id pms ≡ none
    → without id (pm ∷ pms) ≡ pms
unfolding without
without-same id pm pms same new = rw (same, without) (without-none id pms new)

-- A number that is counted a second time on the same day: its file is overwritten.
overwrite :
    (date : String) (t : ℕ) (k : Incident) (c : Option RunbookResult) (pm : Postmortem) (n : ℕ)
    (files : List Postmortem)
    → pm.id ≡ record { date = date; number = suc (length files) + 1 }
    → find (record { date = date; number = suc (length files) + 1 }) files ≡ none
    → (generate true date t k c (reopen (record { counter = n; files = pm ∷ files }))).1.files
      ≡ compose date (suc (length files) + 1) t k c ∷ files
unfolding generate reopen save compose
overwrite date t k c pm n files here new =
    let id : PostmortemId = record { date = date; number = suc (length files) + 1 } in
    let same : same_id pm.id id ≡ true = ap (λ x. same_id x id) here ∙ same_id_refl id in
    ap (λ xs. compose date (suc (length files) + 1) t k c ∷ xs) (without-same id pm files same new)

-- From a numbered store, if a postmortem's file is refused, the next postmortem gets its file, the
-- service starts again and a third postmortem is generated on the same day, then the third takes the
-- id of the second, whose file is overwritten.
pub refused_write_overwrites :
    (date : String) (t1 t2 t3 : ℕ) (i j k : Incident) (a b c : Option RunbookResult) (g : Generator)
    → IsNumbered g
    → (deeds
        (generates false date t1 i a
          ∷ generates true date t2 j b
          ∷ restarts
          ∷ generates true date t3 k c
          ∷ [])
        g).files
      ≡ compose date (g.counter + 2) t3 k c ∷ g.files
unfolding deeds deed generate compose
refused_write_overwrites date t1 t2 t3 i j k a b c g h =
    let g1 = (generate false date t1 i a g).1 in
    let (_, made, _) = generate-IsUnique date t2 j b g1 (refused-IsUnique date t1 i a g h.unique) in
    let count : g.counter + 1 + 1 ≡ suc (length g.files) + 1 = omega (arith, h.counted) in
    let new =
      find-none (record { date = date; number = suc (length g.files) + 1 }) g.counter g.files
        h.unique.bounded (omega (arith, h.counted)) in
    ap (λ m. (generate true date t3 k c (reopen m.1)).1.files) made
    ∙ overwrite date t3 k c (compose date (g.counter + 1 + 1) t2 j b) (g.counter + 1 + 1) g.files
        (λ i. record { date = date; number = count i }) new
    ∙ ap (λ n. compose date n t3 k c ∷ g.files) (omega (arith, h.counted))

-- Two threads that both count before either writes give their postmortems of the same day one id, and
-- the first file is overwritten.
pub interleaved_overwrites :
    (date : String) (t1 t2 : ℕ) (i j : Incident) (a b : Option RunbookResult) (g : Generator)
    → IsNumbered g
    → (write_numbered true date t2 j b
        (write_numbered true date t1 i a (count_number (count_number g))).1).1.files
      ≡ compose date (g.counter + 1 + 1) t2 j b ∷ g.files
unfolding save compose
interleaved_overwrites date t1 t2 i j a b g h =
    let id : PostmortemId = record { date = date; number = g.counter + 1 + 1 } in
    let new = find-none id g.counter g.files h.unique.bounded (omega arith) in
    let first = compose date (g.counter + 1 + 1) t1 i a in
    ap (λ xs. compose date (g.counter + 1 + 1) t2 j b ∷ without id (first ∷ xs))
      (without-none id g.files new)
    ∙ ap (λ xs. compose date (g.counter + 1 + 1) t2 j b ∷ xs)
        (without-same id first g.files (same_id_refl id) new)
