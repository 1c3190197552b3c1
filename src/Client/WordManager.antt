-- ===== src/Client/WordManager.antt =====
-- The word manager of client/src/game_logic.c: the client's copy of the word list. Whether malloc,
-- realloc and strdup return NULL is an argument.
pub mod Laws
use rain_typing_game.Prelude.{
  ℕ, zero, suc, ◌+◌, ◌≤◌, ◌<◌, ◌≡◌, refl, Bool, true, false, not, ◌&&◌, Option, none, some, List,
  [], ◌∷◌, Bytes, ltb, leb, if◌then◌else◌, length, arith, Bool-cases, inl, inr,
}

-- `count` is the length of `words`; the strings behind it are never read.
pub record WordManager : Type 0 where
  pub words : List Bytes
  pub capacity : ℕ
  pub is_initialized : Bool

-- `g_word_manager = {0}`
abbrev pub no_words : WordManager
no_words = record { words = []; capacity = 0; is_initialized = false }

abbrev pub fresh_words : WordManager
fresh_words = record { words = []; capacity = 100; is_initialized = true }

-- The outcome of malloc, the manager, and the result. The capacity is set before malloc is called.
unfoldable pub init_word_manager : Bool → WordManager → WordManager × Bool
init_word_manager mallocs m =
    if m.is_initialized
    then (m, true)
    else if mallocs
    then (fresh_words, true)
    else (record m { capacity = 100 }, false)

pub cleanup_word_manager : WordManager → WordManager
cleanup_word_manager m = if m.is_initialized then no_words else m

-- The outcomes of one load: the malloc of each call of init_word_manager, the realloc, and how many
-- calls of strdup succeed (`none`: all).
pub record LoadIo : Type 0 where
  pub first_malloc : Bool
  pub second_malloc : Bool
  pub reallocs : Bool
  pub strdups : Option ℕ

-- The copies: a strdup that fails frees those before it and leaves no word.
copies : Option ℕ → List Bytes → Option (List Bytes)
copies none words = some words
copies (some n) words = if leb (length words) n then some words else none

copy_words : WordManager → Option (List Bytes) → WordManager × Bool
copy_words m none = (record m { words = [] }, false)
copy_words m (some words) = (record m { words = words }, true)

-- What follows the second init_word_manager.
fill_manager : LoadIo → List Bytes → WordManager × Bool → WordManager × Bool
unfolding copies copy_words
fill_manager io words (m, false) = (m, false)
fill_manager io words (m, true) =
    if ltb m.capacity (length words)
    then (if io.reallocs
        then copy_words (record m { capacity = length words + 10 }) (copies io.strdups words)
        else (m, false))
    else copy_words m (copies io.strdups words)

-- What follows the first.
refill_manager : LoadIo → List Bytes → WordManager × Bool → WordManager × Bool
unfolding fill_manager
refill_manager io words (m, false) = (m, false)
refill_manager io words (m, true) =
    fill_manager io words (init_word_manager io.second_malloc (cleanup_word_manager m))

-- `words` are the first `count` strings of the array.
pub load_words_from_response : LoadIo → List Bytes → WordManager → WordManager × Bool
unfolding refill_manager
load_words_from_response io words m =
    if m.is_initialized
    then refill_manager io words (m, true)
    else refill_manager io words (init_word_manager io.first_malloc m)
