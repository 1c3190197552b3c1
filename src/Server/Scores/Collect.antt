-- ===== src/Server/Scores/Collect.antt =====
-- The loop of get_leaderboard_impl over sorted scores: one entry for each user, with the best score.
use rain_typing_game.Prelude.{
  ℕ, zero, suc, ◌<◌, ◌≡◌, ◌≢◌, inl, inr, refl, sym, ◌∙◌, subst, false, some, List, [], ◌∷◌, Bytes,
  All, All-weaken, length, arith, Bool-cases, str_copy_all, str_eq, str_eq_sound, str_eq_refl,
  strcmp, strcmp-eq, strcmp_refl, strcmp_lt_trans, Ordering,
}
use rain_typing_game.Common.Protocol.{max_id_len, LeaderboardEntry}
use rain_typing_game.Server.Db.Scores.{ScoreRecord}
use rain_typing_game.Server.Scores.Best.{better, best_of}
use rain_typing_game.Server.Scores.Sorting.{IsSorted}
use rain_typing_game.Server.Scores.{higher_first, compare_score_records_for_user_best, collect}

abbrev pub Fits : ScoreRecord → Type 0
Fits r = length r.username < max_id_len

abbrev pub Goes : Bytes → List ScoreRecord → Type 0
Goes last rs = All (λ r. strcmp last r.username ≢ Ordering.gt) rs

abbrev pub cmp : ScoreRecord → ScoreRecord → Ordering
cmp = compare_score_records_for_user_best

pub Goes-of_sorted :
    (r : ScoreRecord) (rs : List ScoreRecord)
    → All (λ y. cmp r y ≢ Ordering.gt) rs
    → Goes r.username rs
unfolding compare_score_records_for_user_best
Goes-of_sorted r [] h = tt
Goes-of_sorted r (y ∷ ys) (n, h) =
    ((λ e. n (rw (e, cmp, compare_score_records_for_user_best))), Goes-of_sorted r ys h)

-- Behind a record of a user no better score of the user comes.
best_of-head :
    (r : ScoreRecord) (rs : List ScoreRecord)
    → All (λ y. cmp r y ≢ Ordering.gt) rs
    → better r.score (best_of r.username rs) ≡ some r.score
unfolding best_of compare_score_records_for_user_best higher_first
best_of-head r [] h = refl
best_of-head r (y ∷ ys) (n, h) =
    ground (arith, best_of-head r ys h, strcmp-eq y.username r.username, strcmp_refl r.username)

best_of-cons :
    (r : ScoreRecord) (rs : List ScoreRecord)
    → All (λ y. cmp r y ≢ Ordering.gt) rs
    → best_of r.username (r ∷ rs) ≡ some r.score
unfolding best_of
best_of-cons r rs h = rw (str_eq_refl r.username) (best_of-head r rs h)

-- What the loop guarantees of each entry that it makes.
abbrev Made : Bytes → List ScoreRecord → LeaderboardEntry → Type 0
Made last rs e = (strcmp last e.username ≡ Ordering.lt) × (best_of e.username rs ≡ some e.score)

Made-skip :
    (r : ScoreRecord) (rs : List ScoreRecord) (e : LeaderboardEntry)
    → strcmp r.username e.username ≡ Ordering.lt
    → best_of e.username (r ∷ rs) ≡ best_of e.username rs
unfolding best_of
Made-skip r rs e h = ground (arith, strcmp-eq r.username e.username, strcmp_refl e.username)

pub collect-full : (last : Bytes) (rs : List ScoreRecord) → collect zero last rs ≡ []
unfolding collect
collect-full last [] = refl
collect-full last (r ∷ rs) = collect-full last rs

strcmp_next :
    (a b : Bytes) → strcmp a b ≢ Ordering.gt → str_eq b a ≡ false → strcmp a b ≡ Ordering.lt
strcmp_next a b n e = ground (arith, strcmp-eq a b, strcmp_refl b)

pub collect-Made :
    (room : ℕ) (last : Bytes) (rs : List ScoreRecord)
    → IsSorted cmp rs
    → Goes last rs
    → All Fits rs
    → All (Made last rs) (collect room last rs)
unfolding collect
collect-Made room last [] s g f = tt
collect-Made zero last (r ∷ rs) s g f = rw (collect-full last rs) tt
collect-Made (suc room) last (r ∷ rs) (h, s) (g, gs) (f, fs) =
    elim (Bool-cases (str_eq r.username last)) [
      | inl same ↦
          rw (same, collect)
            (All-weaken
              (λ e (below, best). (
                below,
                Made-skip r rs e (
                      subst (λ u. strcmp u e.username ≡ Ordering.lt)
                        (sym (str_eq_sound r.username last same)) below)
                    ∙ best,
              ))
              _ (collect-Made (suc room) last rs s gs fs))
      | inr new ↦
          rw (new, collect)
            (rw (str_copy_all r.username f) (
              (strcmp_next last r.username g new, best_of-cons r rs h),
              All-weaken
                  (λ e (below, best). (
                    strcmp_lt_trans last r.username e.username (strcmp_next last r.username g new)
                        below,
                    Made-skip r rs e below ∙ best,
                  ))
                  _ (collect-Made room r.username rs s (Goes-of_sorted r rs h) fs),
            ))
    ]
