-- ===== src/Client/Game/Screen.antt =====
-- draw_game_screen of client/src/game_logic.c: the texts it prints, and where. The frame lies on the
-- rows 1 and `area_height + 2` and the columns 0 and `area_width + 1`; row 0 and the two rows below
-- the frame are for the status lines.
pub mod Framed
use rain_typing_game.Prelude.{
  ℕ, ◌+◌, ◌-◌, ◌/◌, ◌%◌, ◌^◌, Bool, true, false, Option, none, some, List, [], ◌∷◌, ◌++◌, Bytes,
  utf8, if◌then◌else◌, length, ℤ, pos,
}
use rain_typing_game.Common.Decimal.{print_int, of_word}
use rain_typing_game.Client.Game.{Game, Word, WordType, word_normal, word_kill, word_bonus}
use rain_typing_game.Client.Game.Speed.{get_current_level}

-- A text, its first column, and the colour pair that is on.
pub record Drawn : Type 0 where
  pub row : ℕ
  pub column : ℤ
  pub text : Bytes
  pub color : Option ℕ

-- The flags that the screen reads, and `has_colors`.
pub record Flags : Type 0 where
  pub sigint_received : Bool
  pub sigint_game_exit_requested : Bool
  pub has_colors : Bool

abbrev color_of : WordType → Option ℕ
color_of word_kill = some 2
color_of word_bonus = some 3
color_of word_normal = none

pub draw_word : Bool → Word → Drawn
draw_word has_colors w = record {
  row = 2 + w.y;
  column = pos (1 + w.x);
  text = w.text;
  color = if has_colors then color_of w.wtype else none;
}

-- The loop over the slots.
pub draw_words : Bool → List Word → List Drawn
draw_words has_colors [] = []
draw_words has_colors (w ∷ ws) =
    let rest = draw_words has_colors ws in if w.active then draw_word has_colors w ∷ rest else rest

-- `GAME_AREA_START_X + (GAME_AREA_WIDTH - strlen(msg)) / 2`: `size_t` makes it unsigned with 64
-- bits, and it is passed as an `int`.
pub centred : ℕ → Bytes → ℤ
centred area_width msg = of_word ((1 + (area_width + 2 ^ 64 - length msg) % 2 ^ 64 / 2) % 2 ^ 32)

abbrev pub over_text : Flags → Bytes
over_text f =
    if f.sigint_received
    then utf8 "EXITING APPLICATION (Ctrl+C)"
    else if f.sigint_game_exit_requested
    then utf8 "GAME EXITED (Ctrl+C)"
    else utf8 "GAME OVER!"

abbrev pub any_key_text : Bytes
any_key_text = utf8 "Press any key to continue..."

abbrev plain : ℕ → ℤ → Bytes → Drawn
plain row column text = record { row = row; column = column; text = text; color = none }

-- What is printed over the words once the game is over.
pub draw_over : Flags → Game → List Drawn
draw_over f g =
    if g.game_is_over
    then plain (2 + g.area_height / 2) (centred g.area_width (over_text f)) (over_text f)
      ∷ plain (2 + g.area_height / 2 + 1) (centred g.area_width any_key_text) any_key_text
      ∷ []
    else []

pub status_lines : Game → List Drawn
status_lines g =
    plain 0 (pos 1) (
      utf8 "Score: "
      ++ (print_int (pos g.current_game_score)
          ++ (utf8 "   Lives: "
              ++ (print_int (pos g.current_game_lives)
                  ++ (utf8 "   Level: " ++ print_int (pos (get_current_level g)))))))
    ∷ plain 0 (pos ((g.area_width + 2) / 2 - 8)) (utf8 "Rain Typing Game")
    ∷ plain (g.area_height + 3) (pos 1) (utf8 "Quit Game: Ctrl+C")
    ∷ []

pub input_line : Game → Drawn
input_line g = plain (g.area_height + 4) (pos 1) (utf8 "Input: " ++ g.current_input_buffer)

pub draw_game_screen : Flags → Game → List Drawn
draw_game_screen f g =
    status_lines g ++ (draw_words f.has_colors g.words ++ (input_line g ∷ draw_over f g))
