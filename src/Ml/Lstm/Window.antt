-- ===== src/Ml/Lstm/Window.antt =====
-- The sliding window of ml-intelligence-03/ml/models/lstm.py.
use nimbus_net.Prelude.{
  ℕ, zero, suc, ◌+◌, ◌-◌, ◌≤◌, ◌≡◌, refl, ap, ◌∙◌, sym, arith, List, [], ◌∷◌, ◌++◌, length,
  length-append,
}
use mathlib.Core.List.{append_assoc, append-nil}
use nimbus_net.Prelude.Fractions.{Ratio}
use nimbus_net.Ml.Lstm.{Lstm, push, keep_last, drop}

module _ {ℓ} {A : Type ℓ} where
  length-drop : (n : ℕ) (xs : List A) → length (drop n xs) ≡ length xs - n
  length-drop zero xs = omega arith
  length-drop (suc n) [] = omega arith
  length-drop (suc n) (x ∷ xs) = omega (arith, length-drop n xs)

  drop-append : (n : ℕ) (xs ys : List A) → n ≤ length xs → drop n (xs ++ ys) ≡ drop n xs ++ ys
  drop-append zero xs ys h = refl
  drop-append (suc n) [] ys h = absurd (omega arith)
  drop-append (suc n) (x ∷ xs) ys h = drop-append n xs ys (omega arith)

  drop_nil : (n : ℕ) → drop {A = A} n [] ≡ []
  drop_nil zero = refl
  drop_nil (suc n) = refl

  drop_all : (xs ys : List A) → drop (length xs) (xs ++ ys) ≡ ys
  drop_all [] ys = refl
  drop_all (x ∷ xs) ys = drop_all xs ys

  drop-drop : (a b : ℕ) (xs : List A) → drop a (drop b xs) ≡ drop (b + a) xs
  drop-drop a zero xs = ap (λ k. drop k xs) (omega arith)
  drop-drop a (suc b) [] = drop_nil a ∙ sym (drop_nil (suc b + a))
  drop-drop a (suc b) (x ∷ xs) =
      let e : suc (b + a) ≡ suc b + a = omega arith in
      drop-drop a b xs ∙ ap (λ k. drop k (x ∷ xs)) e

  -- a window that is not over-full stays as it is
  pub keep_last_all : (n : ℕ) (xs : List A) → length xs ≤ n → keep_last n xs ≡ xs
  unfolding keep_last
  keep_last_all n xs h = let e : length xs - n ≡ 0 = omega arith in rw e refl

  pub length-keep_last_le : (n : ℕ) (xs : List A) → length (keep_last n xs) ≤ length xs
  unfolding keep_last
  length-keep_last_le n xs = omega (arith, length-drop (length xs - n) xs)

  pub keep_last_nil : (n : ℕ) → keep_last {A = A} n [] ≡ []
  unfolding keep_last
  keep_last_nil n = drop_nil (0 - n)

  pub length-keep_last : (n : ℕ) (xs : List A) → length (keep_last n xs) ≤ n
  unfolding keep_last
  length-keep_last n xs = omega (arith, length-drop (length xs - n) xs)

  -- What was dropped once makes no difference later.
  pub keep_last-append :
      (n : ℕ) (xs ys : List A) → keep_last n (keep_last n xs ++ ys) ≡ keep_last n (xs ++ ys)
  unfolding keep_last
  keep_last-append n xs ys =
      let j = length xs - n in
      let k = length (drop j xs ++ ys) - n in
      let same : j + k ≡ length (xs ++ ys) - n =
        omega (arith, length-append (drop j xs) ys, length-append xs ys, length-drop j xs) in
      ap (drop k) (sym (drop-append j xs ys (omega arith)))
      ∙ drop-drop k j (xs ++ ys)
      ∙ ap (λ i. drop i (xs ++ ys)) same

  -- Of a long list nothing is kept but the end, whatever came before it.
  pub keep_last_long :
      (n : ℕ) (xs ys : List A) → n ≤ length ys → keep_last n (xs ++ ys) ≡ keep_last n ys
  unfolding keep_last
  keep_last_long n xs ys h =
      let k = length ys - n in
      let all : drop (length xs) (xs ++ ys) ≡ ys = drop_all xs ys in
      let same : length (xs ++ ys) - n ≡ length xs + k = omega (arith, length-append xs ys) in
      ap (λ i. drop i (xs ++ ys)) same ∙ sym (drop-drop k (length xs) (xs ++ ys)) ∙ ap (drop k) all

module _ {Vec Mat : Type 0} where
  -- `push` for each vector of a list
  pub push_all : List (List Ratio) → Lstm Vec Mat → Lstm Vec Mat
  push_all [] m = m
  push_all (v ∷ vs) m = push_all vs (push v m)

  push_all_keeps :
      (vs : List (List Ratio)) (m : Lstm Vec Mat)
      → length m.window ≤ m.seq_len
      → push_all vs m ≡ record m { window = keep_last m.seq_len (m.window ++ vs) }
  unfolding push_all push
  push_all_keeps [] m h =
      let e : keep_last m.seq_len (m.window ++ []) ≡ m.window =
        rw append-nil (keep_last_all m.seq_len m.window h) in
      ap (λ (v : List (List Ratio)). record m { window = v }) (sym e)
  push_all_keeps (v ∷ vs) m h =
      let n = m.seq_len in
      push_all_keeps vs (push v m) (length-keep_last n (m.window ++ v ∷ []))
      ∙ ap (λ (u : List (List Ratio)). record m { window = u })
          (keep_last-append n (m.window ++ v ∷ []) vs
            ∙ ap (keep_last n) (append_assoc m.window (v ∷ []) vs))

  -- After any vectors were pushed the window holds the last ones of its old content and of the new
  -- ones, in order, at most as many as a sequence is long; once that many were pushed, nothing of
  -- the old content is left. The rest of the network stays as it is.
  pub push_all_window :
      (vs : List (List Ratio)) (m : Lstm Vec Mat)
      → length m.window ≤ m.seq_len
      → (push_all vs m ≡ record m { window = keep_last m.seq_len (m.window ++ vs) })
        × (length (push_all vs m).window ≤ m.seq_len)
        × (m.seq_len ≤ length vs → (push_all vs m).window ≡ keep_last m.seq_len vs)
  unfolding push_all push
  push_all_window vs m h =
      let e = push_all_keeps vs m h in
      (
        e,
        rw e (length-keep_last m.seq_len (m.window ++ vs)),
        λ long. rw e (keep_last_long m.seq_len m.window vs long),
      )
