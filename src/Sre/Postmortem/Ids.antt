-- ===== src/Sre/Postmortem/Ids.antt =====
-- Ids in a list of postmortems: the files of sre-operations-05/sre/postmortem/generator.py.
use nimbus_net.Prelude.{
  ℕ, ◌+◌, ◌≤◌, ◌<◌, ◌≡◌, refl, arith, eq_iff, true, none, some, List, [], ◌∷◌, length, All,
}
use nimbus_net.Sre.Types.{PostmortemId, Postmortem}
use nimbus_net.Sre.Postmortem.{same_id, without, find}

-- No postmortem has the id of a later one in the list.
unfoldable pub IsDistinct : List Postmortem → Type 0
IsDistinct [] = Unit
IsDistinct (pm ∷ pms) = (find pm.id pms ≡ none) × IsDistinct pms

pub find-none :
    (id : PostmortemId) (n : ℕ) (pms : List Postmortem)
    → All (λ pm. pm.id.number ≤ n) pms
    → n < id.number
    → find id pms ≡ none
unfolding find
find-none id n [] h lt = refl
find-none id n (pm ∷ pms) h lt = ground (arith, find-none id n pms h.1 lt)

pub without-none :
    (id : PostmortemId) (pms : List Postmortem) → find id pms ≡ none → without id pms ≡ pms
unfolding find without
without-none id [] h = refl
without-none id (pm ∷ pms) h = ground (arith, without-none id pms)

find-without :
    (id other : PostmortemId) (pms : List Postmortem)
    → find other pms ≡ none
    → find other (without id pms) ≡ none
unfolding find without
find-without id other [] h = refl
find-without id other (pm ∷ pms) h = ground (arith, find-without id other pms)

pub find-without_self :
    (id : PostmortemId) (pms : List Postmortem) → find id (without id pms) ≡ none
unfolding find without
find-without_self id [] = refl
find-without_self id (pm ∷ pms) = ground (arith, find-without_self id pms)

pub without-IsDistinct :
    (id : PostmortemId) (pms : List Postmortem) → IsDistinct pms → IsDistinct (without id pms)
unfolding IsDistinct without
without-IsDistinct id [] h = tt
without-IsDistinct id (pm ∷ pms) h =
    ground (arith, without-IsDistinct id pms, find-without id pm.id pms)

-- An id that is the same finds the same.
same_find :
    (id : PostmortemId) (x : Postmortem) (pms : List Postmortem)
    → same_id x.id id ≡ true
    → find x.id pms ≡ none
    → find id pms ≡ none
unfolding find
same_find id x [] e h = refl
same_find id x (pm ∷ pms) e h = ground (arith, eq_iff x.id.date id.date, same_find id x pms e)

pub length-without :
    (id : PostmortemId) (pm : Postmortem) (pms : List Postmortem)
    → IsDistinct pms
    → find id pms ≡ some pm
    → length (without id pms) + 1 ≡ length pms
unfolding IsDistinct find without
length-without id pm [] h e = cc
length-without id pm (x ∷ xs) h e =
    ground (arith, length-without id pm xs, same_find id x xs, without-none id xs)

pub All-without :
    (id : PostmortemId) (n : ℕ) (pms : List Postmortem)
    → All (λ pm. pm.id.number ≤ n) pms
    → All (λ pm. pm.id.number ≤ n) (without id pms)
unfolding without
All-without id n [] h = tt
All-without id n (pm ∷ pms) h = ground (arith, All-without id n pms)

pub find-id :
    (id : PostmortemId) (pm : Postmortem) (pms : List Postmortem)
    → find id pms ≡ some pm
    → same_id pm.id id ≡ true
unfolding find
find-id id pm [] e = cc
find-id id pm (x ∷ xs) e = ground (arith, find-id id pm xs)

pub same_id-number : (a b : PostmortemId) → same_id a b ≡ true → a.number ≡ b.number
same_id-number a b e = ground arith

pub All-weaken :
    (m n : ℕ) (pms : List Postmortem)
    → m ≤ n
    → All (λ pm. pm.id.number ≤ m) pms
    → All (λ pm. pm.id.number ≤ n) pms
All-weaken m n [] le h = tt
All-weaken m n (pm ∷ pms) le h = (omega arith, All-weaken m n pms le h.1)
