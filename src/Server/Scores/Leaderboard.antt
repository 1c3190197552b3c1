-- ===== src/Server/Scores/Leaderboard.antt =====
-- The whole of get_leaderboard_impl, for every `qsort` that meets its contract.
use mathlib.Core.HLevel.{Π_prop, ×_prop}
use native.Mathlib.Nat.{ℕ_set}
use native.Mathlib.Bridge.{le_prop}
use mathlib.Core.List.{Nodup, Perm}
use mathlib.Core.List.Perm
use rain_typing_game.Prelude.{
  ℕ, ◌≤◌, ◌≡◌, ◌≢◌, refl, sym, ap, ◌∙◌, some, List, [], ◌∷◌, Bytes, All, All-take, All-weaken,
  length, take, arith, strcmp, strcmp-eq, strcmp_refl, strcmp_antisym, strcmp_lt_trans, Ordering,
  ◌≤ℤ◌,
}
use rain_typing_game.Common.Protocol.{LeaderboardEntry}
use rain_typing_game.Server.Db.Files.{good_read}
use rain_typing_game.Server.Db.Scores.{ScoreRecord, max_total_scores}
use rain_typing_game.Server.Db.Scores.Laws.{IsStorable, score_file, load-score_file}
use rain_typing_game.Server.Scores.Best.{best_of, best_of-perm, score_set}
use rain_typing_game.Server.Scores.Perms.{length-perm, All-perm, All-prop}
use rain_typing_game.Server.Scores.Sorting.{IsSorted, IsComparison, Qsort}
use rain_typing_game.Server.Scores.Collect.{Fits, Goes, cmp, collect-Made}
use rain_typing_game.Server.Scores.Covers.{
  names, Dropped, length-collect-le, collect-Nodup, collect-Covers,
}
use rain_typing_game.Server.Scores.{
  higher_first, compare_score_records_for_user_best, compare_leaderboard_entries_final, collect,
  sort_entries, rank, rank_loaded, get_leaderboard_impl,
}

strcmp_swap : (a b : Bytes) → strcmp a b ≡ Ordering.gt → strcmp b a ≡ Ordering.lt
unfolding strcmp
strcmp_swap [] [] h = cc
strcmp_swap [] (y ∷ ys) h = cc
strcmp_swap (x ∷ xs) [] h = refl
strcmp_swap (x ∷ xs) (y ∷ ys) h = ground (arith, strcmp_swap xs ys)

records-IsComparison : IsComparison compare_score_records_for_user_best
unfolding compare_score_records_for_user_best higher_first
records-IsComparison = record {
  swaps = λ a b h. ground (
    arith,
    strcmp_swap a.username b.username,
    strcmp_antisym b.username a.username,
    strcmp-eq a.username b.username,
    strcmp_refl a.username,
  );
  chains = λ a b c h k. ground (
    arith,
    strcmp_lt_trans a.username b.username c.username,
    strcmp-eq a.username b.username,
    strcmp-eq b.username c.username,
    strcmp_refl a.username,
  );
}

entries-IsComparison : IsComparison compare_leaderboard_entries_final
unfolding compare_leaderboard_entries_final
entries-IsComparison = record { swaps = λ a b h. ground arith; chains = λ a b c h k. ground arith }

abbrev IsDescending : List LeaderboardEntry → Type 0
IsDescending [] = Unit
IsDescending (e ∷ es) = All (λ f. f.score ≤ℤ e.score) es × IsDescending es

-- What a leaderboard of at most `limit` entries is to be, for the scores `rs`.
pub record IsRanking (limit : ℕ) (rs : List ScoreRecord) (out : List LeaderboardEntry)
    : Type 0 where
  pub short : length out ≤ limit
  pub once : Nodup (names out)
  pub descending : IsDescending out
  pub named : All (λ e. e.username ≢ []) out
  pub best : All (λ e. best_of e.username rs ≡ some e.score) out
  pub dropped : All (λ r. r.username ≢ [] → Dropped limit out r) rs

below-IsDescending :
    (e : LeaderboardEntry) (es : List LeaderboardEntry)
    → All (λ f. compare_leaderboard_entries_final e f ≢ Ordering.gt) es
    → All (λ f. f.score ≤ℤ e.score) es
unfolding compare_leaderboard_entries_final
below-IsDescending e [] h = tt
below-IsDescending e (f ∷ es) (n, h) = (ground arith, below-IsDescending e es h)

IsSorted-IsDescending :
    (es : List LeaderboardEntry) → IsSorted compare_leaderboard_entries_final es → IsDescending es
IsSorted-IsDescending [] h = tt
IsSorted-IsDescending (e ∷ es) (h, s) = (below-IsDescending e es h, IsSorted-IsDescending es s)

ordering_prop : (a b : Ordering) → IsProp (a ≡ b)
ordering_prop a b = hlevel

Names-prop : (e : LeaderboardEntry) → IsProp (e.username ≢ [])
Names-prop e = hlevel

Dropped-prop :
    (limit : ℕ) (out : List LeaderboardEntry) (r : ScoreRecord)
    → IsProp (r.username ≢ [] → Dropped limit out r)
Dropped-prop limit out r = Π_prop λ named. Π_prop λ absent.
    ×_prop (ℕ_set _ _)
      (All-prop _ (λ e. ordering_prop (strcmp e.username r.username) Ordering.lt) out)

Dropped-perm :
    (limit : ℕ) {es out : List LeaderboardEntry} (r : ScoreRecord)
    → Perm es out
    → Dropped limit es r
    → Dropped limit out r
Dropped-perm limit r p d absent =
    let (full, below) = d (λ m. absent ((Perm.mem_iff (Perm.map _ p)).0 m)) in
    (
      sym (length-perm p) ∙ full,
      All-perm _ (λ e. ordering_prop (strcmp e.username r.username) Ordering.lt) p below,
    )

Goes-nil : (rs : List ScoreRecord) → Goes [] rs
unfolding strcmp
Goes-nil [] = tt
Goes-nil (r ∷ rs) = (at_start r.username, Goes-nil rs)
  where
    at_start : (s : Bytes) → strcmp [] s ≢ Ordering.gt
    at_start [] e = cc
    at_start (c ∷ cs) e = cc

named_of_lt : (s : Bytes) → strcmp [] s ≡ Ordering.lt → s ≢ []
named_of_lt s h e = ground (arith, strcmp_refl s)

module _ (limit : ℕ) (rs sorted : List ScoreRecord) (p : Perm sorted rs) where
  -- The loop before its entries are sorted by score, as `out` holds them.
  IsRanking-of_collect :
      (out : List LeaderboardEntry)
      → IsSorted cmp sorted
      → All Fits sorted
      → Perm (collect limit [] sorted) out
      → IsSorted compare_leaderboard_entries_final out
      → IsRanking limit rs out
  IsRanking-of_collect out s f q descending =
      let made = collect-Made limit [] sorted s (Goes-nil sorted) f in
      record {
        short = rw (← length-perm q) (length-collect-le limit [] sorted);
        once = Perm.nodup (Perm.map _ q) (collect-Nodup limit [] sorted s (Goes-nil sorted) f);
        descending = IsSorted-IsDescending out descending;
        named = All-perm _ Names-prop q (All-weaken (λ e m. named_of_lt e.username m.0) _ made);
        best =
            All-perm _ (λ e. score_set _ _) q
              (All-weaken (λ e m. sym (best_of-perm e.username p) ∙ m.1) _ made);
        dropped = All-perm _ (Dropped-prop limit out) p (
            All-weaken (λ r d named. Dropped-perm limit r q (d named)) _
              (collect-Covers limit [] sorted s f));
      }

module _ (c_library : Qsort) where
  open c_library use {qsort, permutes, sorts}

  sort_entries_lem :
      (es : List LeaderboardEntry)
      → Perm es (sort_entries c_library es)
        × IsSorted compare_leaderboard_entries_final (sort_entries c_library es)
  unfolding sort_entries
  sort_entries_lem [] = (Perm.nil, tt)
  sort_entries_lem (e ∷ es) =
      (Perm.symm (permutes _ _ (e ∷ es)), sorts _ _ (e ∷ es) entries-IsComparison)

  -- Whatever `qsort` the C library has, the entries are a leaderboard of the scores.
  pub rank-IsRanking :
      (limit : ℕ) (rs : List ScoreRecord)
      → All Fits rs
      → IsRanking limit rs (rank c_library limit rs)
  unfolding rank collect
  rank-IsRanking limit [] f = IsRanking-of_collect limit [] [] Perm.nil [] tt tt Perm.nil tt
  rank-IsRanking limit (r ∷ rs) f =
      let p = permutes _ compare_score_records_for_user_best (r ∷ rs) in
      let (q, s) =
        sort_entries_lem
          (collect limit [] (qsort _ compare_score_records_for_user_best (r ∷ rs))) in
      IsRanking-of_collect limit (r ∷ rs) _ p _ (sorts _ _ (r ∷ rs) records-IsComparison)
        (All-perm Fits (λ x. le_prop) (Perm.symm p) f) q s

  loaded-Fits : (n : ℕ) (rs : List ScoreRecord) → All IsStorable rs → All Fits (take n rs)
  loaded-Fits n rs h = All-take Fits n rs (All-weaken (λ r s. s.name_fits) rs h)

  -- On a file of storable scores that can be read, with any `qsort` that meets its contract,
  -- get_leaderboard_impl returns a list that is a leaderboard of the first 500 records: it is no
  -- longer than the limit, no name occurs twice or is empty, the scores descend, each score is
  -- the best one of its name, and a name that is left out of a full list comes after every name
  -- in it in strcmp order.
  pub get_leaderboard-IsRanking :
      (rs : List ScoreRecord) (limit : ℕ)
      → All IsStorable rs
      → (out : List LeaderboardEntry) × (get_leaderboard_impl c_library good_read
            (some (score_file rs))
            limit
          ≡ some out)
        × IsRanking limit (take max_total_scores rs) out
  unfolding get_leaderboard_impl
  get_leaderboard-IsRanking rs limit h = (
    rank c_library limit (take max_total_scores rs),
    ap (rank_loaded c_library limit)
        (load-score_file good_read rs max_total_scores h refl refl refl),
    rank-IsRanking limit _ (loaded-Fits max_total_scores rs h),
  )
