-- ===== src/Server/Scores.antt =====
-- server/src/score_manager.c. `qsort` is the C library's: any function that meets the contract
-- `Qsort` may stand for it.
mod Sorting
pub mod Best
pub mod Perms
pub mod Collect
pub mod Covers
pub mod Leaderboard
pub mod Submitted
pub use Sorting.*
use rain_typing_game.Prelude.{
  ℕ, zero, suc, Bool, true, false, Option, none, some, List, [], ◌∷◌, ◌++◌, Bytes, ◌==◌,
  if◌then◌else◌, length, take, str_copy, str_eq, utf8, strcmp, Ordering, ℤ, ltb_ℤ,
}
use rain_typing_game.Common.Protocol.{max_id_len, max_msg_len, Response, LeaderboardEntry}
use rain_typing_game.Common.Decimal.{print_int}
use rain_typing_game.Server.Db.Files.{File, ReadIo, WriteIo}
use rain_typing_game.Server.Db.Scores.{
  ScoreRecord, max_total_scores, load_all_scores_from_file, add_score_to_file,
}

-- `snprintf(response_msg, MAX_MSG_LEN, …)` and the return value.
abbrev reply : Bool → Bytes → Response
reply success text = record { success = success; message = str_copy max_msg_len text }

submit_reply : Bytes → ℤ → File × Bool → File × Response
submit_reply username score (file, saved) = (
  file,
  if saved
      then reply true (
          utf8 "Score "
          ++ (print_int score ++ (utf8 " submitted successfully for '" ++ (username ++ utf8 "'."))))
      else reply false (utf8 "Failed to save score for '" ++ (username ++ utf8 "'.")),
)

pub submit_score_impl : WriteIo → File → Option Bytes → ℤ → File × Response
unfolding submit_reply
submit_score_impl io file none score =
    (file, reply false (utf8 "Cannot submit score for an anonymous user."))
submit_score_impl io file (some username) score =
    if length username == 0
    then (file, reply false (utf8 "Cannot submit score for an anonymous user."))
    else submit_reply username score (add_score_to_file io file username score)

-- The sign of the comparison, by which `qsort` sorts.
higher_first : ℤ → ℤ → Ordering
higher_first a b = if ltb_ℤ a b then Ordering.gt else if ltb_ℤ b a then Ordering.lt else Ordering.eq

pub compare_score_records_for_user_best : ScoreRecord → ScoreRecord → Ordering
compare_score_records_for_user_best a b = elim (strcmp a.username b.username) [
  | Ordering.lt ↦ Ordering.lt
  | Ordering.gt ↦ Ordering.gt
  | Ordering.eq ↦ higher_first a.score b.score
]

pub compare_leaderboard_entries_final : LeaderboardEntry → LeaderboardEntry → Ordering
unfolding higher_first
compare_leaderboard_entries_final a b = higher_first a.score b.score

-- `memcpy` of at most MAX_ID_LEN - 1 bytes.
abbrev pub entry_of : ScoreRecord → LeaderboardEntry
entry_of r = record { username = str_copy max_id_len r.username; score = r.score }

-- The loop over the sorted scores: `room` entries are free, `last` is `last_processed_user`.
pub collect : ℕ → Bytes → List ScoreRecord → List LeaderboardEntry
collect room last [] = []
collect zero last (r ∷ rs) = collect zero last rs
collect (suc room) last (r ∷ rs) = elim (str_eq r.username last) [
  | true ↦ collect (suc room) last rs
  | false ↦ entry_of r ∷ collect room (str_copy max_id_len r.username) rs
]

module _ (c_library : Qsort) where
  open c_library use {qsort}

  -- The last `qsort` is called if there are entries.
  pub sort_entries : List LeaderboardEntry → List LeaderboardEntry
  sort_entries [] = []
  sort_entries (e ∷ es) = qsort LeaderboardEntry compare_leaderboard_entries_final (e ∷ es)

  -- The entries for the scores that were loaded.
  unfoldable pub rank : ℕ → List ScoreRecord → List LeaderboardEntry
  unfolding sort_entries
  rank max_final_entries [] = []
  rank max_final_entries (r ∷ rs) = sort_entries (
      collect max_final_entries [] (qsort ScoreRecord compare_score_records_for_user_best (r ∷ rs)))

  -- `none` is `*final_count = -1`.
  pub rank_loaded : ℕ → Option (List ScoreRecord) → Option (List LeaderboardEntry)
  unfolding rank
  rank_loaded max_final_entries none = none
  rank_loaded max_final_entries (some all_scores) = some (rank max_final_entries all_scores)

  unfoldable pub get_leaderboard_impl : ReadIo → File → ℕ → Option (List LeaderboardEntry)
  unfolding rank_loaded
  get_leaderboard_impl io file max_final_entries =
      rank_loaded max_final_entries (load_all_scores_from_file io file max_total_scores)
