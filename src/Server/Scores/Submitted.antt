-- ===== src/Server/Scores/Submitted.antt =====
-- A score that a player submits, and the leaderboard behind it.
use mathlib.Core.Logic.Or
use mathlib.Core.HLevel.{⊥_prop}
use mathlib.Core.List.{Mem, mem-cons, not-mem-nil}
use rain_typing_game.Prelude.{
  ℕ, suc, ◌<◌, ◌≡◌, ◌≢◌, ◌⊎◌, inl, inr, refl, sym, ap, subst, ◌∙◌, true, false, some, List, [], ◌∷◌,
  ◌++◌, All, All-append, Bytes, length, length-append, take, take_all, arith, Bool-cases, strcmp,
  Ordering, str_eq, str_eq_sound, str_eq_refl, ltb_ℤ, ℤ, ◌≤ℤ◌, ◌==◌, Some,
}
use rain_typing_game.Common.Protocol.{LeaderboardEntry}
use rain_typing_game.Server.Db.Files.{good_read, good_write}
use rain_typing_game.Server.Db.Scores.{ScoreRecord, max_total_scores}
use rain_typing_game.Server.Db.Scores.Laws.{IsStorable, score_file, add_score_to_file-append}
use rain_typing_game.Server.Scores.Best.{best_of}
use rain_typing_game.Server.Scores.Covers.{names, Dropped}
use rain_typing_game.Server.Scores.Sorting.{Qsort}
use rain_typing_game.Server.Scores.Leaderboard.{IsRanking, get_leaderboard-IsRanking}
use rain_typing_game.Server.Scores.{submit_score_impl, submit_reply, get_leaderboard_impl}

-- The best score of a user is no lower than one that comes last.
best_of-last :
    (name : Bytes) (score : ℤ) (rs : List ScoreRecord)
    → (best : ℤ) × (best_of name (rs ++ record { username = name; score = score } ∷ []) ≡ some best)
      × (score ≤ℤ best)
unfolding best_of
best_of-last name score [] = (score, rw (str_eq_refl name) refl, omega arith)
best_of-last name score (r ∷ rs) =
    let (best, e, below) = best_of-last name score rs in
    elim (Bool-cases (str_eq r.username name)) [
      | inl same ↦ elim (Bool-cases (ltb_ℤ r.score best)) [
        | inl lower ↦ (best, rw (e, same) (rw lower refl), below)
        | inr higher ↦ (r.score, rw (e, same) (rw higher refl), ground (arith, higher, below))
      ]
      | inr other ↦ (best, rw (e, other) refl, below)
    ]

-- The user has an entry, with this score or a better one.
abbrev pub Shows : Bytes → ℤ → List LeaderboardEntry → Type 0
Shows name score = Some (λ e. (e.username ≡ name) × (score ≤ℤ e.score))

-- The list is full of users whose names come first.
abbrev pub IsFull : ℕ → Bytes → List LeaderboardEntry → Type 0
IsFull limit name out = (length out ≡ limit) × All (λ e. strcmp e.username name ≡ Ordering.lt) out

shown_or_absent :
    (name : Bytes) (score best : ℤ) (rs : List ScoreRecord) (out : List LeaderboardEntry)
    → best_of name rs ≡ some best
    → score ≤ℤ best
    → All (λ e. best_of e.username rs ≡ some e.score) out
    → Shows name score out ⊎ (¬ Mem name (names out))
shown_or_absent name score best rs [] b below h = inr not-mem-nil
shown_or_absent name score best rs (e ∷ out) b below (scored, h) =
    elim (Bool-cases (str_eq e.username name)) [
      | inl same ↦
          let named : e.username ≡ name = str_eq_sound e.username name same in
          let same_score : some best ≡ some e.score =
            sym b ∙ ap (λ n. best_of n rs) (sym named) ∙ scored in
          inl (inl (named, ground (arith, same_score, below)))
      | inr other ↦ elim (shown_or_absent name score best rs out b below h) [
        | inl shown ↦ inl (inr shown)
        | inr absent ↦ inr (λ m.
            Or.elim ⊥_prop (mem-cons.0 m)
              (λ s. ground (arith, other, str_eq_refl name, ap (λ n. str_eq n name) s)) absent)
      ]
    ]

submit_score_impl-append :
    (rs : List ScoreRecord) (name : Bytes) (score : ℤ)
    → name ≢ []
    → submit_score_impl good_write (some (score_file rs)) (some name) score
      ≡ submit_reply name score
          (some (score_file (rs ++ record { username = name; score = score } ∷ [])), true)
unfolding submit_score_impl
submit_score_impl-append rs [] score named = absurd (named refl)
submit_score_impl-append rs (c ∷ name) score named =
    let some_name : (suc (length name) == 0) ≡ false = ground arith in
    rw some_name (ap (submit_reply (c ∷ name) score) (add_score_to_file-append rs (c ∷ name) score))

All-last :
    (P : ScoreRecord → Type 0) (rs : List ScoreRecord) (r : ScoreRecord)
    → All P (rs ++ r ∷ [])
    → P r
All-last P [] r (p, h) = p
All-last P (s ∷ rs) r (p, h) = All-last P rs r h

-- On a file of fewer than 500 storable scores, with system calls that succeed and any `qsort`
-- that meets its contract: submitting a storable score of a nonempty name succeeds, and the
-- leaderboard that is then computed has an entry of that name with that score or a better one,
-- unless it is full of names that come before it in strcmp order.
pub submit_then_leaderboard :
    (c_library : Qsort) (rs : List ScoreRecord) (name : Bytes) (score : ℤ) (limit : ℕ)
    → All IsStorable rs
    → IsStorable (record { username = name; score = score })
    → name ≢ []
    → length rs < max_total_scores
    → let (file, resp) = submit_score_impl good_write (some (score_file rs)) (some name) score in
      (resp.success ≡ true)
      × (out : List LeaderboardEntry) × (get_leaderboard_impl c_library good_read file limit
          ≡ some out)
      × (Shows name score out ⊎ IsFull limit name out)
unfolding submit_reply
submit_then_leaderboard c_library rs name score limit h s named few =
    let new : ScoreRecord = record { username = name; score = score } in
    let stored = submit_score_impl-append rs name score named in
    let (out, got, ranking) =
      get_leaderboard-IsRanking c_library (rs ++ new ∷ []) limit
        (All-append _ rs (new ∷ []) h (s, tt)) in
    let all : take max_total_scores (rs ++ new ∷ []) ≡ rs ++ new ∷ [] =
      take_all max_total_scores (rs ++ new ∷ [])
        (omega (arith, length-append rs (new ∷ []), few)) in
    let ranked : IsRanking limit (rs ++ new ∷ []) out =
      subst (λ l. IsRanking limit l out) all ranking in
    let (best, is_best, below) = best_of-last name score rs in
    let dropped : Dropped limit out new = All-last _ rs new ranked.dropped named in
    let shown = shown_or_absent name score best (rs ++ new ∷ []) out is_best below ranked.best in
    subst
      (λ r.
        (r.1.success ≡ true)
        × (out : List LeaderboardEntry) × (get_leaderboard_impl c_library good_read r.0 limit
            ≡ some out)
        × (Shows name score out ⊎ IsFull limit name out))
      (sym stored)
      (refl, out, got, elim shown [ inl y ↦ inl y | inr absent ↦ inr (dropped absent) ])
