-- ===== src/Server/Scores/Perms.antt =====
-- What a rearrangement keeps: the length, and what holds of all elements.
use mathlib.Core.List.{Perm, Permᴰ}
use mathlib.Core.Logic.{∥∥₁_elim}
use native.Mathlib.Nat.{ℕ_set}
use rain_typing_game.Prelude.{suc, List, [], ◌∷◌, ◌≡◌, refl, ap, ◌∙◌, subst, All, length}

module _ {A : Type 0} where
  length-permᴰ : {l r : List A} → Permᴰ l r → length l ≡ length r
  length-permᴰ Permᴰ.nil = refl
  length-permᴰ (Permᴰ.cons e p) = ap suc (length-permᴰ p)
  length-permᴰ (Permᴰ.swap e f) = refl
  length-permᴰ (Permᴰ.trans p q) = length-permᴰ p ∙ length-permᴰ q

  pub length-perm : {l r : List A} → Perm l r → length l ≡ length r
  length-perm p = ∥∥₁_elim p (ℕ_set _ _) length-permᴰ

module _ {A : Type 0} (P : A → Type 0) where
  All-permᴰ : {l r : List A} → Permᴰ l r → All P l → All P r
  All-permᴰ Permᴰ.nil h = tt
  All-permᴰ (Permᴰ.cons e p) (x, h) = (subst P e x, All-permᴰ p h)
  All-permᴰ (Permᴰ.swap e f) (x, (y, h)) = (subst P f y, (subst P e x, h))
  All-permᴰ (Permᴰ.trans p q) h = All-permᴰ q (All-permᴰ p h)

  pub All-prop : ((a : A) → IsProp (P a)) → (l : List A) → IsProp (All P l)
  All-prop prop [] = hlevel
  All-prop prop (x ∷ l) = hlevel (prop, All-prop prop l)

  pub All-perm : ((a : A) → IsProp (P a)) → {l r : List A} → Perm l r → All P l → All P r
  All-perm prop {r = r} p h = ∥∥₁_elim p (All-prop prop r) (λ d. All-permᴰ d h)
