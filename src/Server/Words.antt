-- ===== src/Server/Words.antt =====
-- server/src/word_manager.c: data/words.txt, which the server fills with a default list where it
-- has no word. The outcomes of the system calls of each round (`goto reload`) are an argument.
pub mod Cases
pub mod Laws
pub mod Shown
use rain_typing_game.Prelude.{
  ℕ, zero, suc, ◌+◌, Bool, true, false, not, ◌&&◌, ◌||◌, Option, none, some, List, [], ◌∷◌, ◌++◌,
  Bytes, ltb, ◌==◌, if◌then◌else◌, length, take, c_str, str_copy, utf8,
}
use rain_typing_game.Common.Protocol.{max_wordlist_words, max_word_str_len}
use rain_typing_game.Server.Db.Files.{File, readable, breaks}
use rain_typing_game.Server.Db.Lines.{all_lines, print_lines}

abbrev pub default_words : List Bytes
default_words =
    utf8 "hello"
    ∷ utf8 "world"
    ∷ utf8 "rain"
    ∷ utf8 "typing"
    ∷ utf8 "keyboard"
    ∷ utf8 "program"
    ∷ utf8 "linux"
    ∷ utf8 "thread"
    ∷ utf8 "mutex"
    ∷ utf8 "socket"
    ∷ utf8 "network"
    ∷ utf8 "coding"
    ∷ utf8 "algorithm"
    ∷ utf8 "pointer"
    ∷ utf8 "system"
    ∷ []

-- One call of write_default_words_to_file: `written` is the number of bytes before a `dprintf`
-- fails, or `none`.
pub record DefaultsIo : Type 0 where
  pub opens : Bool
  pub written : Option ℕ
  pub closes : Bool

defaults_written : DefaultsIo → Option ℕ → File × Bool
defaults_written io none = (some (print_lines default_words), io.closes)
defaults_written io (some n) = (some (take n (print_lines default_words)), false)

-- The file, and whether 0 is returned. O_TRUNC drops what the file held.
pub write_default_words_to_file : DefaultsIo → File → File × Bool
unfolding defaults_written
write_default_words_to_file io file =
    if io.opens then defaults_written io io.written else (file, false)

-- `is_file_empty(path) == 1`
abbrev pub is_file_empty : Bool → File → Bool
is_file_empty stats none = false
is_file_empty stats (some bytes) = stats && (length bytes == 0)

-- The text before the first CR or LF, as `strpbrk` cuts it.
cut_line : Bytes → Bytes
cut_line [] = []
cut_line (c ∷ s) = if c == b'\r' || c == b'\n' then [] else c ∷ cut_line s

parse_word : Bytes → Option Bytes
unfolding cut_line
parse_word line_buffer =
    let word = cut_line (c_str line_buffer) in
    if not (length word == 0) && ltb (length word) max_word_str_len
    then some (str_copy max_word_str_len word)
    else none

-- The loop, while fewer than MAX_WORDLIST_WORDS words are loaded: `room` more fit.
pub load_words : ℕ → List Bytes → List Bytes
load_words zero ls = []
load_words (suc room) [] = []
load_words (suc room) (l ∷ ls) = elim (parse_word l) [
  | none ↦ load_words (suc room) ls
  | some w ↦ w ∷ load_words room ls
]

-- `char line_buffer[MAX_WORD_STR_LEN + 2]`
abbrev pub word_buffer_size : ℕ
word_buffer_size = max_word_str_len + 2

-- One round: `stat`, the first call that writes defaults, `open` on a file that exists, `open`
-- after the file was made, the `read` calls, and the call that writes defaults at the end.
pub record RoundIo : Type 0 where
  pub stats : Bool
  pub fills : DefaultsIo
  pub opens : Bool
  pub reopens : Bool
  pub read_fails : Option ℕ
  pub refills : DefaultsIo

-- What a round does next: return -1, return the words, or reload.
pub data Round : Type 0 where
  failed : Round
  loaded : List Bytes → Round
  reload : Round

pub finish_round : RoundIo → File → List Bytes → File × Round
finish_round io file (w ∷ ws) = (file, loaded (w ∷ ws))
finish_round io file [] =
    let (file', saved) = write_default_words_to_file io.refills file in
    (file', if saved then reload else failed)

read_round : RoundIo → File → Bytes → File × Round
unfolding finish_round
read_round io file bytes = finish_round io file (
    load_words max_wordlist_words
      (all_lines (breaks io.read_fails) word_buffer_size (readable io.read_fails bytes)))

-- The file was just made; `open` may still fail.
reopen_round : RoundIo → File × Bool → File × Round
reopen_round io (some bytes, true) =
    if io.reopens then read_round io (some bytes) bytes else (some bytes, failed)
reopen_round io (file, _) = (file, failed)

open_round : RoundIo → File → File × Round
unfolding reopen_round read_round
open_round io none = reopen_round io (write_default_words_to_file io.fills none)
open_round io (some bytes) =
    if io.opens then read_round io (some bytes) bytes else (some bytes, failed)

-- What follows the test on the size.
filled_round : RoundIo → File × Bool → File × Round
filled_round io (file, true) = open_round io file
filled_round io (file, false) = (file, failed)

pub load_round : RoundIo → File → File × Round
unfolding filled_round open_round
load_round io file =
    if is_file_empty io.stats file
    then filled_round io (write_default_words_to_file io.fills file)
    else open_round io file

-- The rounds. `none` says that the outcomes given end before the function returns; the words are
-- `g_wordlist`, and an empty list stands for the return value -1.
abbrev pub next_round :
    (File → File × Option (List Bytes)) → File × Round → File × Option (List Bytes)
next_round more (file, failed) = (file, some [])
next_round more (file, loaded ws) = (file, some ws)
next_round more (file, reload) = more file

pub load_wordlist_from_file : List RoundIo → File → File × Option (List Bytes)
load_wordlist_from_file [] file = (file, none)
load_wordlist_from_file (io ∷ ios) file =
    next_round (load_wordlist_from_file ios) (load_round io file)
