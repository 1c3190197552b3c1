-- ===== src/Server/Words/Cases.antt =====
-- How a round ends: it fails, or it closes the file after the loop over the lines.
use rain_typing_game.Prelude.{Bool, true, false, none, some, List, Bytes, if◌then◌else◌}
use rain_typing_game.Common.Protocol.{max_wordlist_words}
use rain_typing_game.Server.Db.Files.{File}
use rain_typing_game.Server.Words.{
  write_default_words_to_file, is_file_empty, load_words, RoundIo, Round, failed, finish_round,
  read_round, open_round, reopen_round, filled_round, load_round,
}

module _ (P : File × Round → Type 0) (io : RoundIo) where
  module _ (fails : (file : File) → P (file, failed))
      (finishes : (file : File) (ls : List Bytes)
        → P (finish_round io file (load_words max_wordlist_words ls))) where
    if_cases : (b : Bool) (x y : File × Round) → P x → P y → P (if b then x else y)
    if_cases true x y h k = h
    if_cases false x y h k = k

    read_round_cases : (file : File) (bytes : Bytes) → P (read_round io file bytes)
    unfolding read_round
    read_round_cases file bytes = finishes file _

    reopen_round_cases : (r : File × Bool) → P (reopen_round io r)
    unfolding reopen_round
    reopen_round_cases (some bytes, true) =
        if_cases io.reopens _ _ (read_round_cases (some bytes) bytes) (fails (some bytes))
    reopen_round_cases (some bytes, false) = fails (some bytes)
    reopen_round_cases (none, saved) = fails none

    open_round_cases : (file : File) → P (open_round io file)
    unfolding open_round
    open_round_cases none = reopen_round_cases (write_default_words_to_file io.fills none)
    open_round_cases (some bytes) =
        if_cases io.opens _ _ (read_round_cases (some bytes) bytes) (fails (some bytes))

    filled_round_cases : (r : File × Bool) → P (filled_round io r)
    unfolding filled_round
    filled_round_cases (file, true) = open_round_cases file
    filled_round_cases (file, false) = fails file

    pub load_round_cases : (file : File) → P (load_round io file)
    unfolding load_round
    load_round_cases file =
        if_cases (is_file_empty io.stats file) _ _
          (filled_round_cases (write_default_words_to_file io.fills file)) (open_round_cases file)
