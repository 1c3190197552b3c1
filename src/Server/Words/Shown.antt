-- ===== src/Server/Words/Shown.antt =====
-- What the client can count on in a word list, whatever the file holds.
use rain_typing_game.Prelude.{
  ℕ, zero, suc, ◌≤◌, ◌<◌, ◌≡◌, ◌≢◌, inl, inr, subst, not, ◌&&◌, Option, none, some, List, [], ◌∷◌,
  Bytes, ltb, ◌==◌, if◌then◌else◌, All, length, ltb→lt, arith, Bool-cases, Option-cases, Lacks,
  c_str, str_copy, str_copy_all,
}
use rain_typing_game.Common.Protocol.{max_wordlist_words, max_word_str_len}
use rain_typing_game.Server.Db.Files.{File}
use rain_typing_game.Server.Words.Cases.{load_round_cases}
use rain_typing_game.Server.Words.{
  cut_line, parse_word, load_words, RoundIo, Round, failed, loaded, reload, finish_round,
  load_round, next_round, load_wordlist_from_file,
}

-- A word that the protocol can carry and the game can show.
abbrev IsShown : Bytes → Type 0
IsShown w = (w ≢ []) × (length w < max_word_str_len) × Lacks b'\n' w × Lacks b'\r' w

cut_line-Lacks : (s : Bytes) → Lacks b'\n' (cut_line s) × Lacks b'\r' (cut_line s)
unfolding cut_line
cut_line-Lacks [] = (tt, tt)
cut_line-Lacks (c ∷ s) = ground (arith, cut_line-Lacks s)

kept-IsShown :
    (w : Bytes)
    → Lacks b'\n' w
    → Lacks b'\r' w
    → (v : Bytes)
    → (if not (length w == 0) && ltb (length w) max_word_str_len
        then some (str_copy max_word_str_len w)
        else none)
      ≡ some v
    → IsShown v
kept-IsShown [] n r v e = cc
kept-IsShown (c ∷ w) n r v e = elim (Bool-cases (ltb (length (c ∷ w)) max_word_str_len)) [
  | inl fits ↦
      let same : v ≡ c ∷ w = ground (arith, e, fits, str_copy_all {n = max_word_str_len} (c ∷ w)) in
      rw same ((λ x. cc), ltb→lt _ _ fits, n, r)
  | inr long ↦ ground (arith, e, long)
]

parse_word-IsShown : (l w : Bytes) → parse_word l ≡ some w → IsShown w
unfolding parse_word
parse_word-IsShown l w e =
    let (n, r) = cut_line-Lacks (c_str l) in kept-IsShown (cut_line (c_str l)) n r w e

load_words-IsShown :
    (room : ℕ) (ls : List Bytes)
    → All IsShown (load_words room ls) × (length (load_words room ls) ≤ room)
unfolding load_words
load_words-IsShown zero ls = (tt, omega arith)
load_words-IsShown (suc room) [] = (tt, omega arith)
load_words-IsShown (suc room) (l ∷ ls) = elim (Option-cases (parse_word l)) [
  | inl e ↦ rw (e, load_words) (load_words-IsShown (suc room) ls)
  | inr (w, e) ↦
      let (shown, short) = load_words-IsShown room ls in
      rw (e, load_words) ((parse_word-IsShown l w e, shown), omega arith)
]

-- A word list that a round may return.
abbrev pub IsWordList : List Bytes → Type 0
IsWordList ws = (1 ≤ length ws) × (length ws ≤ max_wordlist_words) × All IsShown ws

Returned : File × Round → Type 0
Returned (file, loaded ws) = IsWordList ws
Returned (file, _) = Unit

finish_round-Returned :
    (io : RoundIo) (file : File) (ws : List Bytes)
    → length ws ≤ max_wordlist_words
    → All IsShown ws
    → Returned (finish_round io file ws)
unfolding Returned finish_round
finish_round-Returned io file (w ∷ ws) n h = (omega arith, n, h)
finish_round-Returned io file [] n h = ground arith

load_round-Returned : (io : RoundIo) (file : File) → Returned (load_round io file)
load_round-Returned io =
    load_round_cases Returned io (λ file. unfold Returned in tt)
      λ file ls.
        let (shown, short) = load_words-IsShown max_wordlist_words ls in
        finish_round-Returned io file _ short shown

next_round-IsWordList :
    (more : File → File × Option (List Bytes)) (r : File × Round) (w : Bytes) (ws : List Bytes)
    → ((file : File) → (more file).1 ≡ some (w ∷ ws) → IsWordList (w ∷ ws))
    → Returned r
    → (next_round more r).1 ≡ some (w ∷ ws)
    → IsWordList (w ∷ ws)
unfolding Returned
next_round-IsWordList more (file, failed) w ws ih h e = cc
next_round-IsWordList more (file, loaded vs) w ws ih h e =
    let same : vs ≡ w ∷ ws = cc in subst IsWordList same h
next_round-IsWordList more (file, reload) w ws ih h e = ih file e

-- Whatever the word file holds and whatever fails: a word list that load_wordlist_from_file
-- returns with success has 1 to 256 words, each of 1 to 31 bytes without a line break.
pub load_wordlist-IsWordList :
    (ios : List RoundIo) (file : File) (w : Bytes) (ws : List Bytes)
    → (load_wordlist_from_file ios file).1 ≡ some (w ∷ ws)
    → IsWordList (w ∷ ws)
unfolding load_wordlist_from_file
load_wordlist-IsWordList [] file w ws e = cc
load_wordlist-IsWordList (io ∷ ios) file w ws e =
    next_round-IsWordList (load_wordlist_from_file ios) (load_round io file) w ws
      (λ file'. load_wordlist-IsWordList ios file' w ws) (load_round-Returned io file) e
