-- ===== src/Examples/Insertion.antt =====
-- A `qsort` that meets the contract which server/src/score_manager.c relies on: insertion sort.
use mathlib.Core.List.{Perm}
use mathlib.Core.List.Perm
use rain_typing_game.Prelude.{
  ◌≡◌, ◌≢◌, inl, inr, refl, Bool, true, false, List, [], ◌∷◌, if◌then◌else◌, All, All-weaken,
  Ordering, Bool-cases,
}
use rain_typing_game.Server.Scores.{IsComparison, IsSorted, Qsort}

is_greater : Ordering → Bool
is_greater Ordering.gt = true
is_greater _ = false

is_greater-gt : (o : Ordering) → is_greater o ≡ true → o ≡ Ordering.gt
unfolding is_greater
is_greater-gt Ordering.gt e = refl
is_greater-gt Ordering.lt e = cc
is_greater-gt Ordering.eq e = cc

not_greater : (o : Ordering) → is_greater o ≡ false → o ≢ Ordering.gt
unfolding is_greater
not_greater Ordering.gt e f = cc
not_greater Ordering.lt e f = cc
not_greater Ordering.eq e f = cc

lt-not_greater : (o : Ordering) → o ≡ Ordering.lt → o ≢ Ordering.gt
lt-not_greater o e f = cc

module _ {A : Type 0} (cmp : A → A → Ordering) where
  insert : A → List A → List A
  insert x [] = x ∷ []
  insert x (y ∷ ys) =
      let rest = y ∷ insert x ys in if is_greater (cmp x y) then rest else x ∷ y ∷ ys

  pub sort : List A → List A
  sort [] = []
  sort (x ∷ xs) = insert x (sort xs)

  insert-Perm : (x : A) (xs : List A) → Perm (insert x xs) (x ∷ xs)
  unfolding insert
  insert-Perm x [] = Perm.refl _
  insert-Perm x (y ∷ ys) = elim (Bool-cases (is_greater (cmp x y))) [
    | inl e ↦ rw e (Perm.trans (Perm.cons y (insert-Perm x ys)) (Perm.swap x y ys))
    | inr e ↦ rw e (Perm.refl _)
  ]

  pub sort-Perm : (xs : List A) → Perm (sort xs) xs
  unfolding sort
  sort-Perm [] = Perm.nil
  sort-Perm (x ∷ xs) = Perm.trans (insert-Perm x (sort xs)) (Perm.cons x (sort-Perm xs))

  insert-All : (P : A → Type 0) (x : A) (xs : List A) → P x → All P xs → All P (insert x xs)
  unfolding insert
  insert-All P x [] p h = (p, tt)
  insert-All P x (y ∷ ys) p (q, h) = elim (Bool-cases (is_greater (cmp x y))) [
    | inl e ↦ rw e (q, insert-All P x ys p h)
    | inr e ↦ rw e (p, (q, h))
  ]

  insert-IsSorted :
      (x : A) (xs : List A) → IsComparison cmp → IsSorted cmp xs → IsSorted cmp (insert x xs)
  unfolding insert
  insert-IsSorted x [] c s = (tt, tt)
  insert-IsSorted x (y ∷ ys) c (h, s) = elim (Bool-cases (is_greater (cmp x y))) [
    | inl e ↦ rw e (
      insert-All (λ z. cmp y z ≢ Ordering.gt) x ys
          (lt-not_greater _ (c.swaps x y (is_greater-gt _ e))) h,
      insert-IsSorted x ys c s,
    )
    | inr e ↦
        let before = not_greater (cmp x y) e in
        rw e ((before, All-weaken (λ z k. c.chains x y z before k) ys h), (h, s))
  ]

  pub sort-IsSorted : (xs : List A) → IsComparison cmp → IsSorted cmp (sort xs)
  unfolding sort
  sort-IsSorted [] c = tt
  sort-IsSorted (x ∷ xs) c = insert-IsSorted x (sort xs) c (sort-IsSorted xs c)

abbrev pub insertion_sort : Qsort
insertion_sort = record {
  qsort = λ A cmp xs. sort cmp xs;
  permutes = λ A cmp xs. sort-Perm cmp xs;
  sorts = λ A cmp xs c. sort-IsSorted cmp xs c;
}
