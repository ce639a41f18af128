-- ===== src/Sre/Postmortem/Numbers.antt =====
-- The numbers of postmortems (sre-operations-05/sre/postmortem/generator.py).
use nimbus_net.Prelude.{
  ℕ, ◌+◌, ◌≤◌, ◌≡◌, refl, arith, eq_iff, String, Bool, true, false, Option, none, some, List, [],
  ◌∷◌, length, All, Option-cases, Bool-cases, inl, inr, sym, ap, ◌∙◌,
}
use nimbus_net.Sre.Types.{Incident, RunbookResult, PostmortemId, Postmortem}
use nimbus_net.Sre.Postmortem.{
  Generator, same_id, save, compose, generate, find, get, change, or_same,
}
use nimbus_net.Sre.Postmortem.Ids.{
  IsDistinct, find-none, without-none, find-without_self, without-IsDistinct, length-without,
  All-without, find-id, same_id-number, All-weaken,
}

-- Ids are distinct, and no number is above the counter.
pub record IsUnique (g : Generator) : Type 0 where
  pub distinct : IsDistinct g.files
  pub bounded : All (λ pm. pm.id.number ≤ g.counter) g.files

-- There are as many files as were counted, too.
pub record IsNumbered (g : Generator) : Type 0 where
  pub unique : IsUnique g
  pub counted : length g.files ≡ g.counter

-- A new postmortem has an id that no other has, and its file is one more.
pub generate-IsUnique :
    (date : String) (now : ℕ) (i : Incident) (result : Option RunbookResult) (g : Generator)
    → IsUnique g
    → (get (record { date = date; number = g.counter + 1 }) g ≡ none)
      × (generate true date now i result g ≡ (
        some (compose date (g.counter + 1) now i result),
        record {
          counter = g.counter + 1;
          files = compose date (g.counter + 1) now i result ∷ g.files;
        },
      ))
      × IsUnique (generate true date now i result g).1
unfolding generate save compose get IsDistinct
generate-IsUnique date now i result g h =
    let id : PostmortemId = record { date = date; number = g.counter + 1 } in
    let new = find-none id g.counter g.files h.bounded (omega arith) in
    let same = without-none id g.files new in
    (
      new,
      rw same refl,
      rw same (record {
        distinct = (new, h.distinct);
        bounded =
            (omega arith, All-weaken g.counter (g.counter + 1) g.files (omega arith) h.bounded);
      }),
    )

pub refused-IsUnique :
    (date : String) (now : ℕ) (i : Incident) (result : Option RunbookResult) (g : Generator)
    → IsUnique g
    → IsUnique (generate false date now i result g).1
unfolding generate
refused-IsUnique date now i result g h = record {
  distinct = h.distinct;
  bounded = All-weaken g.counter (g.counter + 1) g.files (omega arith) h.bounded;
}

pub generate-IsNumbered :
    (date : String) (now : ℕ) (i : Incident) (result : Option RunbookResult) (g : Generator)
    → IsNumbered g
    → IsNumbered (generate true date now i result g).1
generate-IsNumbered date now i result g h =
    let (_, made, unique) = generate-IsUnique date now i result g h.unique in
    record {
      unique = unique;
      counted =
          ap (λ m. length m.1.files) made
          ∙ omega (arith, h.counted)
          ∙ ap (λ m. m.1.counter) (sym made);
    }

same_id-eq : (a b : PostmortemId) → same_id a b ≡ true → a ≡ b
same_id-eq a b e =
    let dates : a.date ≡ b.date = ground (arith, eq_iff a.date b.date) in
    let numbers : a.number ≡ b.number = same_id-number a b e in
    λ i. record { date = dates i; number = numbers i }

find-bounded :
    (id : PostmortemId) (n : ℕ) (pm : Postmortem) (pms : List Postmortem)
    → find id pms ≡ some pm
    → All (λ x. x.id.number ≤ n) pms
    → id.number ≤ n
unfolding find
find-bounded id n pm [] e h = cc
find-bounded id n pm (x ∷ xs) e h = ground (arith, find-bounded id n pm xs)

-- Writing a file again, with its id.
save-IsUnique :
    (pm old : Postmortem) (g : Generator)
    → find pm.id g.files ≡ some old
    → IsUnique g
    → IsUnique (save pm g) × (length (save pm g).files ≡ length g.files)
unfolding save IsDistinct
save-IsUnique pm old g there h = (
  record {
    distinct = (find-without_self pm.id g.files, without-IsDistinct pm.id g.files h.distinct);
    bounded = (
      find-bounded pm.id g.counter old g.files there h.bounded,
      All-without pm.id g.counter g.files h.bounded,
    );
  },
  omega (arith, length-without pm.id old g.files h.distinct there),
)

-- What a change of a file keeps.
abbrev pub Keeps : Generator → Generator → Type 0
Keeps g g' = IsUnique g' × (length g'.files ≡ length g.files) × (g'.counter ≡ g.counter)

pub change-Keeps :
    (writes : Bool) (id : PostmortemId) (f : Postmortem → Postmortem) (g : Generator)
    → ((pm : Postmortem) → (f pm).id ≡ pm.id)
    → IsUnique g
    → Keeps g (or_same (change writes id f g) g)
unfolding change get save
change-Keeps writes id f g keeps h = elim (Option-cases (find id g.files)) [
  | inl missing ↦ rw (missing, change) (h, refl, refl)
  | inr (pm, there) ↦
      let same : id ≡ (f pm).id =
        sym (same_id-eq pm.id id (find-id id pm g.files there)) ∙ sym (keeps pm) in
      let (unique, lengths) =
        save-IsUnique (f pm) pm g (ap (λ k. find k g.files) (sym same) ∙ there) h in
      elim (Bool-cases writes) [
        | inl e ↦ rw (there, e, change) (unique, lengths, refl)
        | inr e ↦ rw (there, e, change) (h, refl, refl)
      ]
]
