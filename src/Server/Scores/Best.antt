-- ===== src/Server/Scores/Best.antt =====
-- The best score of each user, as the leaderboard is to show it.
use mathlib.Core.Logic.{∥∥₁_elim}
use mathlib.Core.List.{Perm, Permᴰ}
use rain_typing_game.Prelude.{
  ◌≡◌, refl, ap₂, ◌∙◌, Option, none, some, List, [], ◌∷◌, Bytes, if◌then◌else◌, arith, str_eq, ℤ,
  ltb_ℤ,
}
use rain_typing_game.Server.Db.Scores.{ScoreRecord}

-- The best score of a user among some records, whatever their order.
abbrev pub better : ℤ → Option ℤ → Option ℤ
better s none = some s
better s (some t) = if ltb_ℤ s t then some t else some s

unfoldable pub best_of : Bytes → List ScoreRecord → Option ℤ
best_of user [] = none
best_of user (r ∷ rs) =
    let rest = best_of user rs in if str_eq r.username user then better r.score rest else rest

pub score_set : IsSet (Option ℤ)
score_set = hlevel

better_comm : (s t : ℤ) (o : Option ℤ) → better s (better t o) ≡ better t (better s o)
better_comm s t o = ground arith

best_of-swap :
    (u : Bytes) (a b : ScoreRecord) (l : List ScoreRecord)
    → best_of u (a ∷ b ∷ l) ≡ best_of u (b ∷ a ∷ l)
unfolding best_of
best_of-swap u a b l = ground (arith, better_comm a.score b.score (best_of u l))

best_of_congr :
    (u : Bytes) (a b : ScoreRecord) (l r : List ScoreRecord)
    → a ≡ b
    → best_of u l ≡ best_of u r
    → best_of u (a ∷ l) ≡ best_of u (b ∷ r)
unfolding best_of
best_of_congr u a b l r p e = rw (p, e)

best_of-permᴰ : (u : Bytes) {l r : List ScoreRecord} → Permᴰ l r → best_of u l ≡ best_of u r
best_of-permᴰ u Permᴰ.nil = refl
best_of-permᴰ u (Permᴰ.cons {a} {b} {l₁ = l} {l₂ = r} e p) =
    best_of_congr u a b l r e (best_of-permᴰ u p)
best_of-permᴰ u (Permᴰ.swap {a} {b} {a'} {b'} {l} e f) =
    best_of-swap u a b l ∙ ap₂ (λ x y. best_of u (x ∷ y ∷ l)) f e
best_of-permᴰ u (Permᴰ.trans p q) = best_of-permᴰ u p ∙ best_of-permᴰ u q

pub best_of-perm : (u : Bytes) {l r : List ScoreRecord} → Perm l r → best_of u l ≡ best_of u r
best_of-perm u p = ∥∥₁_elim p (score_set _ _) (best_of-permᴰ u)
