-- ===== src/Client/Game/Input.antt =====
-- process_game_input of client/src/game_logic.c: the keys, and the word that a line hits.
pub mod Target
use rain_typing_game.Prelude.{
  ℕ, zero, suc, ◌+◌, ◌-◌, Bool, true, false, not, ◌&&◌, ◌||◌, Option, none, some, List, [], ◌∷◌,
  ◌++◌, Bytes, ltb, leb, ◌==◌, if◌then◌else◌, length, take, get_elem?, str_eq,
}
use rain_typing_game.Client.ActiveWords.{max_word_len, remove_active_word}
use rain_typing_game.Client.Game.{
  Game, Word, WordType, word_normal, word_kill, word_bonus, modify, end_game,
}

abbrev pub input_buffer_len : ℕ
input_buffer_len = max_word_len + 10

abbrev pub priority : WordType → ℕ
priority word_kill = 0
priority word_bonus = 1
priority word_normal = 2

-- `best_prio`, `best_y` and `target_idx` where there is a target; without one, they are 3 and -1,
-- which any word beats.
pub record Best : Type 0 where
  pub prio : ℕ
  pub y : ℕ
  pub target_idx : ℕ

abbrev pub is_match : Bytes → Word → Bool
is_match input w = w.active && str_eq input w.text

abbrev beats : Word → Option Best → Bool
beats w none = true
beats w (some b) = ltb (priority w.wtype) b.prio || (priority w.wtype == b.prio && ltb b.y w.y)

abbrev as_best : ℕ → Word → Option Best
as_best i w = some (record { prio = priority w.wtype; y = w.y; target_idx = i })

-- The loop from slot `i` on.
find_target : Bytes → ℕ → Option Best → List Word → Option Best
find_target input i best [] = best
find_target input i best (w ∷ ws) =
    find_target input (suc i) (if is_match input w && beats w best then as_best i w else best) ws

abbrev target_of : Option Best → Option ℕ
target_of none = none
target_of (some b) = some b.target_idx

-- The index, or `none` for -1.
pub select_target : Bytes → List Word → Option ℕ
unfolding find_target
select_target input ws = target_of (find_target input 0 none ws)

-- What was hit, kept between the two critical sections.
pub record Hit : Type 0 where
  pub wtype : WordType
  pub text : Bytes

abbrev pub inactive : Word → Word
inactive w = record w { active = false }

unfoldable pub take_word : Game → ℕ → Option Word → Game × Option Hit
take_word g i none = (g, none)
take_word g i (some w) = (
  record g {
    words = modify inactive i g.words;
    active_words = (remove_active_word g.active_words (some w.text)).0;
  },
  some (record { wtype = w.wtype; text = w.text }),
)

unfoldable pub take_index : Game → Option ℕ → Game × Option Hit
take_index g none = (g, none)
take_index g (some i) = take_word g i (get_elem? g.words i)

-- The section under words_mutex.
unfoldable pub take_target : Game → Game × Option Hit
unfolding take_index take_word
take_target g = take_index g (select_target g.current_input_buffer g.words)

-- The section under game_state_mutex.
unfoldable pub score_hit : Game → Option Hit → Game
score_hit g none = g
score_hit g (some hit) = elim hit.wtype [
  | word_kill ↦ end_game g
  | word_bonus ↦ record g { current_game_score = g.current_game_score + 50 + length hit.text }
  | word_normal ↦ record g { current_game_score = g.current_game_score + length hit.text }
]

abbrev pub clear_input : Game → Game
clear_input g = record g { current_input_buffer = [] }

-- Both sections and the cleared line, where no other thread comes between.
unfoldable pub enter_line : Game → Game
unfolding take_target score_hit
enter_line g = let (g', hit) = take_target g in clear_input (score_hit g' hit)

-- Every other key. `key_backspace` is KEY_BACKSPACE of ncurses.
unfoldable pub edit_input : ℕ → ℕ → Game → Game
edit_input key_backspace ch g =
    let input = g.current_input_buffer in
    if ch == key_backspace || ch == 127 || ch == 8
    then record g { current_input_buffer = take (length input - 1) input }
    else if leb 32 ch && leb ch 126 && ltb (length input) (input_buffer_len - 1)
    then record g { current_input_buffer = input ++ ch ∷ [] }
    else g

-- `none` is ERR.
unfoldable pub process_game_input : ℕ → Option ℕ → Game → Game
unfolding enter_line edit_input
process_game_input key_backspace none g = g
process_game_input key_backspace (some ch) g =
    if g.game_is_over
    then g
    else if ch == 10 || ch == 32
    then (if ltb 0 (length g.current_input_buffer) then enter_line g else g)
    else edit_input key_backspace ch g
