-- ===== src/Client/Game.antt =====
-- The game of client/src/game_logic.c: the state that the main thread and the thread of each word
-- share, and what each critical section does to it.
pub mod Speed
pub mod Input
pub mod Spawn
pub mod Steps
pub mod Loop
pub mod Screen
use rain_typing_game.Prelude.{
  ℕ, zero, suc, ◌+◌, ◌-◌, Bool, true, false, not, ◌&&◌, ◌||◌, Option, none, some, List, [], ◌∷◌,
  Bytes, ltb, leb, ◌==◌, if◌then◌else◌, get_elem?, replicate, map,
}
use rain_typing_game.Client.ActiveWords.{ActiveWordHashTable, empty_table, remove_active_word}
use rain_typing_game.Client.WordManager.{WordManager}

abbrev pub max_words : ℕ
max_words = 20

abbrev initial_lives : ℕ
initial_lives = 5

pub data WordType : Type 0 where
  word_normal word_kill word_bonus : WordType

-- `thread_id` is 0 where the slot has no thread.
pub record Word : Type 0 where
  pub text : Bytes
  pub x : ℕ
  pub y : ℕ
  pub active : Bool
  pub to_remove : Bool
  pub wtype : WordType
  pub thread_id : ℕ

-- The game area and the global variables; `input_pos` is the length of the input. The score only
-- grows, by at most 79 for a word, and the lives only fall, so both are natural numbers.
pub record Game : Type 0 where
  pub area_height : ℕ
  pub area_width : ℕ
  pub words : List Word
  pub current_input_buffer : Bytes
  pub current_game_score : ℕ
  pub current_game_lives : ℕ
  pub game_is_over : Bool
  pub active_words : ActiveWordHashTable

-- `memset(words, 0, sizeof(words))`
abbrev pub no_word : Word
no_word = record {
  text = [];
  x = 0;
  y = 0;
  active = false;
  to_remove = false;
  wtype = word_normal;
  thread_id = 0;
}

-- The start of run_rain_typing_game on a screen of these sizes, where its mutexes can be made; the
-- result is -1 for a screen that is too small, where the area has fewer than 5 rows or 20 columns.
-- The frame takes the rows 1 and
-- `height - 3` and the first and last column.
abbrev pub new_game : ℕ → ℕ → Game
new_game area_height area_width = record {
  area_height = area_height;
  area_width = area_width;
  words = replicate max_words no_word;
  current_input_buffer = [];
  current_game_score = 0;
  current_game_lives = initial_lives;
  game_is_over = false;
  active_words = empty_table;
}

unfoldable pub start_game : ℕ → ℕ → Option Game
start_game screen_height screen_width =
    let area_height = screen_height - 5 in
    let area_width = screen_width - 2 in
    if ltb area_height 5 || ltb area_width 20 then none else some (new_game area_height area_width)

abbrev pub modify : (Word → Word) → ℕ → List Word → List Word
modify f i [] = []
modify f zero (w ∷ ws) = f w ∷ ws
modify f (suc i) (w ∷ ws) = w ∷ modify f i ws

abbrev is_kill : WordType → Bool
is_kill word_kill = true
is_kill _ = false

-- A signal was seen.
abbrev pub end_game : Game → Game
end_game g = record g { game_is_over = true }

abbrev pub moved : Word → Word
moved w = record w { y = w.y + 1 }

abbrev pub landed : Word → Word
landed w = record w { y = w.y + 1; active = false }

-- `if (!game_is_over) …` of a word that has reached the bottom
pub lose_life : WordType → Game → Game
lose_life wtype g =
    let lives = if is_kill wtype then g.current_game_lives else g.current_game_lives - 1 in
    if g.game_is_over
    then g
    else record g { current_game_lives = lives; game_is_over = g.game_is_over || lives == 0 }

pub drop_at : ℕ → Word → Game → Game
drop_at i w g =
    if w.active
    then (if leb g.area_height (w.y + 1)
        then lose_life w.wtype (record g {
          words = modify landed i g.words;
          active_words = (remove_active_word g.active_words (some w.text)).0;
        })
        else record g { words = modify moved i g.words })
    else g

-- The section of word_thread_func for the word of slot `i` when its interval has passed.
pub drop_word : ℕ → Game → Game
unfolding drop_at lose_life
drop_word i g = elim (get_elem? g.words i) [ none ↦ g | some w ↦ drop_at i w g ]

abbrev pub finished : Word → Word
finished w = record w { active = false; to_remove = true }

-- The last section of word_thread_func.
pub finish_thread : ℕ → Game → Game
finish_thread i g = elim (get_elem? g.words i) [
  | none ↦ g
  | some w ↦ record g {
    words = modify finished i g.words;
    active_words = (remove_active_word g.active_words (some w.text)).0;
  }
]

-- One slot after its thread was joined, if that has finished.
abbrev pub reap : Word → Word
reap w =
    if not (w.thread_id == 0) && w.to_remove
    then record w { thread_id = 0; active = false; to_remove = false; text = [] }
    else w

pub cleanup_finished_threads : Game → Game
cleanup_finished_threads g = record g { words = map reap g.words }
