-- ===== src/Server/Words/Laws.antt =====
-- Which words a file gives, and that the server never starts without one.
use rain_typing_game.Prelude.{
  ℕ, zero, suc, ◌<◌, ◌≡◌, ◌≢◌, refl, sym, ap, ◌∙◌, true, false, Option, none, some, List, [], ◌∷◌,
  Bytes, All, All-weaken, length, length-ne_zero, lt→ltb, drop, take, arith, Lacks, utf8, c_str_all,
  str_copy_all,
}
use rain_typing_game.Common.Protocol.{max_wordlist_words, max_word_str_len}
use rain_typing_game.Server.Db.Files.{File}
use rain_typing_game.Server.Db.Lines.{IsLine, all_lines-print, print_lines}
use rain_typing_game.Server.Words.Cases.{load_round_cases}
use rain_typing_game.Server.Words.{
  default_words, write_default_words_to_file, is_file_empty, cut_line, parse_word, load_words,
  word_buffer_size, RoundIo, Round, failed, loaded, reload, finish_round, open_round, load_round,
  next_round, load_wordlist_from_file,
}

-- A word that a line of the file can hold.
pub record IsWord (w : Bytes) : Type 0 where
  pub nonempty : w ≢ []
  pub fits : length w < max_word_str_len
  pub one_line : Lacks b'\n' w
  pub no_return : Lacks b'\r' w
  pub text : Lacks 0 w

cut_line_all : (w : Bytes) → Lacks b'\r' w → Lacks b'\n' w → cut_line w ≡ w
unfolding cut_line
cut_line_all [] h k = refl
cut_line_all (c ∷ s) (m, h) (n, k) = ground (arith, cut_line_all s h k)

parse_word_all : (w : Bytes) → IsWord w → parse_word w ≡ some w
unfolding parse_word
parse_word_all w h = rw (c_str_all w h.text) (
    rw (cut_line_all w h.no_return h.one_line) (
      rw (length-ne_zero w h.nonempty, lt→ltb _ max_word_str_len h.fits)
        (ap some (str_copy_all w h.fits))))

load_words-take : (room : ℕ) (ws : List Bytes) → All IsWord ws → load_words room ws ≡ take room ws
unfolding load_words
load_words-take zero ws h = refl
load_words-take (suc room) [] h = refl
load_words-take (suc room) (w ∷ ws) (i, h) =
    rw (parse_word_all w i, load_words) (ap (◌∷◌ w) (load_words-take room ws h))

word-IsLine : {w : Bytes} → IsWord w → IsLine word_buffer_size w
word-IsLine h = (h.nonempty, h.one_line, omega (arith, h.fits))

words-IsLine : (ws : List Bytes) → All IsWord ws → All (IsLine word_buffer_size) ws
words-IsLine ws h = All-weaken (λ w i. word-IsLine i) ws h

default_words-IsWord : All IsWord default_words
default_words-IsWord = ground arith

-- A call of `read` or of `open` on a file that exists succeeds.
abbrev Reads : RoundIo → Type 0
Reads io = (io.opens ≡ true) × (io.read_fails ≡ none)

open_round-words :
    (io : RoundIo) (ws : List Bytes)
    → Reads io
    → All IsWord ws
    → open_round io (some (print_lines ws))
      ≡ finish_round io (some (print_lines ws)) (take max_wordlist_words ws)
unfolding open_round
open_round-words io ws (o, r) h =
    rw (o, r, all_lines-print false word_buffer_size ws (words-IsLine ws h))
      (ap (finish_round io (some (print_lines ws))) (load_words-take max_wordlist_words ws h))

load_round_nonempty :
    (io : RoundIo) (c : ℕ) (bytes : Bytes)
    → load_round io (some (c ∷ bytes)) ≡ open_round io (some (c ∷ bytes))
unfolding load_round
load_round_nonempty io c bytes =
    let e : is_file_empty io.stats (some (c ∷ bytes)) ≡ false = ground arith in rw e

load_round-words :
    (io : RoundIo) (w : Bytes) (ws : List Bytes)
    → Reads io
    → All IsWord (w ∷ ws)
    → load_round io (some (print_lines (w ∷ ws)))
      ≡ (some (print_lines (w ∷ ws)), loaded (take max_wordlist_words (w ∷ ws)))
unfolding finish_round
load_round-words io [] ws good (i, h) = absurd (i.nonempty refl)
load_round-words io (c ∷ cs) ws good h =
    load_round_nonempty io c _ ∙ open_round-words io ((c ∷ cs) ∷ ws) good h

-- A file of proper words, at least one, that can be opened and read is loaded as its first 256
-- words and is not written.
pub load_wordlist-words :
    (io : RoundIo) (ios : List RoundIo) (w : Bytes) (ws : List Bytes)
    → Reads io
    → All IsWord (w ∷ ws)
    → load_wordlist_from_file (io ∷ ios) (some (print_lines (w ∷ ws)))
      ≡ (some (print_lines (w ∷ ws)), some (take max_wordlist_words (w ∷ ws)))
unfolding load_wordlist_from_file
load_wordlist-words io ios w ws good h =
    ap (next_round (load_wordlist_from_file ios)) (load_round-words io w ws good h)

-- A round that asks for another one has written the default words.
Refilled : File × Round → Type 0
Refilled (file, reload) = file ≡ some (print_lines default_words)
Refilled (file, _) = Unit

finish_round-Refilled :
    (io : RoundIo) (file : File) (ws : List Bytes) → Refilled (finish_round io file ws)
unfolding finish_round write_default_words_to_file Refilled
finish_round-Refilled io file (w ∷ ws) = tt
finish_round-Refilled io file [] = ground arith

load_round-Refilled : (io : RoundIo) (file : File) → Refilled (load_round io file)
unfolding Refilled
load_round-Refilled io =
    load_round_cases Refilled io (λ file. tt) (λ file ls. finish_round-Refilled io file _)

none-ne-some : (ws : List Bytes) → ¬ (none ≡ some ws)
none-ne-some ws e = cc

-- Two rounds are enough if the second can read.
next_round-ends :
    (io : RoundIo) (ios : List RoundIo) (r : File × Round)
    → Reads io
    → Refilled r
    → (next_round (load_wordlist_from_file (io ∷ ios)) r).1 ≢ none
unfolding Refilled
next_round-ends io ios (file, failed) good h e = cc
next_round-ends io ios (file, loaded ws) good h e = cc
next_round-ends io ios (file, reload) good h e = none-ne-some _ (
    sym e
    ∙ ap (λ f. (load_wordlist_from_file (io ∷ ios) f).1) h
    ∙ ap (λ (r : File × Option (List Bytes)). r.1)
        (load_wordlist-words io ios (utf8 "hello") (drop 1 default_words) good
          default_words-IsWord))

-- load_wordlist_from_file returns within two rounds for any file and any outcome of the first
-- one, if open and read succeed in the second.
pub load_wordlist-ends :
    (first second : RoundIo) (ios : List RoundIo) (file : File)
    → Reads second
    → (load_wordlist_from_file (first ∷ second ∷ ios) file).1 ≢ none
unfolding load_wordlist_from_file
load_wordlist-ends first second ios file good =
    next_round-ends second ios (load_round first file) good (load_round-Refilled first file)
