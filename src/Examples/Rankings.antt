-- ===== src/Examples/Rankings.antt =====
-- The leaderboard of a small scores file.
use rain_typing_game.Prelude.{true, ◌⊎◌, ◌≡◌, some, List, [], ◌∷◌, utf8, take, pos, negsuc, arith}
use rain_typing_game.Common.Protocol.{LeaderboardEntry}
use rain_typing_game.Server.Db.Files.{good_read, good_write}
use rain_typing_game.Server.Db.Scores.{ScoreRecord, max_total_scores}
use rain_typing_game.Server.Db.Scores.Laws.{IsStorable, score_file}
use rain_typing_game.Server.Scores.{get_leaderboard_impl, submit_score_impl}
use rain_typing_game.Server.Scores.Leaderboard.{IsRanking, get_leaderboard-IsRanking}
use rain_typing_game.Server.Scores.Submitted.{Shows, IsFull, submit_then_leaderboard}
use rain_typing_game.Examples.Insertion.{insertion_sort}

abbrev high : ScoreRecord
high = record { username = utf8 "kim"; score = pos 70 }

abbrev low : ScoreRecord
low = record { username = utf8 "kim"; score = negsuc 3 }

high-IsStorable : IsStorable high
high-IsStorable = record {
  name_plain = ground arith;
  name_line = ground arith;
  name_string = ground arith;
  name_fits = omega arith;
  score_fits = omega arith;
}

low-IsStorable : IsStorable low
low-IsStorable = record {
  name_plain = ground arith;
  name_line = ground arith;
  name_string = ground arith;
  name_fits = omega arith;
  score_fits = omega arith;
}

get_leaderboard-IsRanking_example :
    (out : List LeaderboardEntry) × (get_leaderboard_impl insertion_sort good_read
        (some (score_file (low ∷ high ∷ [])))
        10
      ≡ some out)
    × IsRanking 10 (take max_total_scores (low ∷ high ∷ [])) out
get_leaderboard-IsRanking_example =
    get_leaderboard-IsRanking insertion_sort (low ∷ high ∷ []) 10
      (low-IsStorable, (high-IsStorable, tt))

submit_then_leaderboard_example :
    let (file, resp) =
      submit_score_impl good_write (some (score_file (low ∷ []))) (some (utf8 "kim")) (pos 70) in
    (resp.success ≡ true)
    × (out : List LeaderboardEntry) × (get_leaderboard_impl insertion_sort good_read file 10
        ≡ some out)
    × (Shows (utf8 "kim") (pos 70) out ⊎ IsFull 10 (utf8 "kim") out)
submit_then_leaderboard_example =
    submit_then_leaderboard insertion_sort (low ∷ []) (utf8 "kim") (pos 70) 10 (low-IsStorable, tt)
      high-IsStorable (λ e. cc) (omega arith)
