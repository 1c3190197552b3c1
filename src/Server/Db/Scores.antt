-- ===== src/Server/Db/Scores.antt =====
-- ScoreRecord, add_score_to_file and load_all_scores_from_file of db_handler.c.
pub mod Laws
use rain_typing_game.Prelude.{
  ℕ, zero, suc, ◌+◌, Bool, true, false, not, ◌||◌, Option, none, some, List, [], ◌∷◌, ◌++◌, Bytes,
  ltb, if◌then◌else◌, length, c_str, strchr, str_copy, ℤ,
}
use rain_typing_game.Common.Protocol.{max_id_len}
use rain_typing_game.Common.Decimal.{print_int, strtol, to_int}
use rain_typing_game.Server.Db.Lines.{all_lines}
use rain_typing_game.Server.Db.Files.{File, ReadIo, WriteIo, readable, breaks, append_text}

pub record ScoreRecord : Type 0 where
  pub username : Bytes
  pub score : ℤ

abbrev pub max_total_scores : ℕ
max_total_scores = 500

-- `char line_buffer[MAX_ID_LEN + 16]`
abbrev pub score_buffer_size : ℕ
score_buffer_size = max_id_len + 16

-- `endptr != score_part && *endptr == '\0'`
whole_number : Bytes → Option (ℤ × Bytes) → Option ScoreRecord
whole_number name (some (value, [])) =
    some (record { username = str_copy max_id_len name; score = to_int value })
whole_number name _ = none

split_score : Option (Bytes × Bytes) → Option ScoreRecord
unfolding whole_number
split_score none = none
split_score (some (name, score_part)) =
    if ltb (length name) max_id_len then whole_number name (strtol score_part) else none

parse_score : Bytes → Option ScoreRecord
unfolding split_score
parse_score line_buffer = split_score (strchr b':' (c_str line_buffer))

-- The loop, while fewer than `max_records` are loaded: `room` more fit the array.
load_lines : ℕ → List Bytes → List ScoreRecord
load_lines zero ls = []
load_lines (suc room) [] = []
load_lines (suc room) (l ∷ ls) = elim (parse_score l) [
  | none ↦ load_lines (suc room) ls
  | some r ↦ r ∷ load_lines room ls
]

-- The records, or `none` for the return value -1.
load_from_bytes : ReadIo → Bytes → ℕ → Option (List ScoreRecord)
unfolding load_lines
load_from_bytes io bytes max_records =
    if not io.opens || not io.locks
    then none
    else some (
        load_lines max_records
          (all_lines (breaks io.read_fails) score_buffer_size (readable io.read_fails bytes)))

-- A missing file (ENOENT) has no scores.
pub load_all_scores_from_file : ReadIo → File → ℕ → Option (List ScoreRecord)
unfolding load_from_bytes parse_score
load_all_scores_from_file io none max_records = some []
load_all_scores_from_file io (some bytes) max_records = load_from_bytes io bytes max_records

-- "%s:%d\n"
abbrev pub score_line : ScoreRecord → Bytes
score_line r = r.username ++ b':' ∷ print_int r.score

pub add_score_to_file : WriteIo → File → Bytes → ℤ → File × Bool
add_score_to_file io file username score =
    append_text io file (score_line (record { username = username; score = score }) ++ b'\n' ∷ [])
