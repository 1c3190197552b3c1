-- ===== src/Server/Scores/Sorting.antt =====
-- The contract of `qsort`, and what an order by comparison gives.
use mathlib.Core.List.{Perm}
use rain_typing_game.Prelude.{List, [], ◌∷◌, ◌≡◌, ◌≢◌, All, Ordering}

-- What the C standard asks of a comparison function.
pub record IsComparison {A : Type 0} (cmp : A → A → Ordering) : Type 0 where
  pub swaps : (a b : A) → cmp a b ≡ Ordering.gt → cmp b a ≡ Ordering.lt
  pub chains : (a b c : A) → cmp a b ≢ Ordering.gt → cmp b c ≢ Ordering.gt → cmp a c ≢ Ordering.gt

abbrev pub IsSorted : {A : Type 0} → (A → A → Ordering) → List A → Type 0
IsSorted cmp [] = Unit
IsSorted cmp (x ∷ xs) = All (λ y. cmp x y ≢ Ordering.gt) xs × IsSorted cmp xs

-- The C library's `qsort`: the elements in an order that the comparison accepts.
pub record Qsort : Type 1 where
  pub qsort : (A : Type 0) → (A → A → Ordering) → List A → List A
  pub permutes : (A : Type 0) (cmp : A → A → Ordering) (xs : List A) → Perm (qsort A cmp xs) xs
  pub sorts :
      (A : Type 0) (cmp : A → A → Ordering) (xs : List A)
      → IsComparison cmp
      → IsSorted cmp (qsort A cmp xs)
