-- ===== src/Client/HowToPlayUi.antt =====
-- client/src/how_to_play_ui.c: the two pages of the rules.
pub mod Covered
use rain_typing_game.Prelude.{
  ℕ, suc, ◌+◌, Bool, true, false, List, [], ◌∷◌, ◌++◌, Bytes, utf8, if◌then◌else◌,
}
use rain_typing_game.Client.Printed.{
  Printed, print_at, prompt_at, y_title, y_options_start, y_status_msg, y_msg_offset2,
  x_default_pos,
}

-- A line of a page: a heading, an item, which stands two columns further right, or nothing.
pub data Line : Type 0 where
  heading item : Bytes → Line
  blank : Line

-- `current_line++` from line to line.
pub lay_out : ℕ → List Line → List Printed
lay_out current_line [] = []
lay_out current_line (heading text ∷ lines) =
    print_at current_line x_default_pos text ∷ lay_out (suc current_line) lines
lay_out current_line (item text ∷ lines) =
    print_at current_line (x_default_pos + 2) text ∷ lay_out (suc current_line) lines
lay_out current_line (blank ∷ lines) = lay_out (suc current_line) lines

word_types : Bool → List Line
word_types has_colors =
    if has_colors
    then item (utf8 "- RED WORDS: DANGER! End game immediately")
      ∷ item (utf8 "- BLUE WORDS: BONUS! +50 points + word length")
      ∷ item (utf8 "- WHITE WORDS: Normal, score = word length")
      ∷ []
    else item (utf8 "- KILL WORDS: End game immediately")
      ∷ item (utf8 "- BONUS WORDS: +50 points + word length")
      ∷ item (utf8 "- NORMAL WORDS: Score = word length")
      ∷ []

pub page_1_lines : Bool → List Line
unfolding word_types
page_1_lines has_colors =
    heading (utf8 "GAME OBJECTIVE:")
    ∷ item (utf8 "- Type falling words to destroy them before they hit the bottom")
    ∷ item (utf8 "- Survive as long as possible and achieve the highest score")
    ∷ blank
    ∷ heading (utf8 "GAMEPLAY:")
    ∷ item (utf8 "- Words fall from top to bottom of the screen")
    ∷ item (utf8 "- Type the complete word and press ENTER or SPACE")
    ∷ item (utf8 "- Use BACKSPACE to correct typing mistakes")
    ∷ item (utf8 "- You start with 5 lives")
    ∷ item (utf8 "- Lose a life when a word reaches the bottom")
    ∷ blank
    ∷ heading (utf8 "WORD TYPES:")
    ∷ word_types has_colors

page_2_lines : List Line
page_2_lines =
    heading (utf8 "LEVEL SYSTEM:")
    ∷ item (utf8 "- Level 1: 0-49 pts (Slow)    Level 2: 50-99 pts (Medium)")
    ∷ item (utf8 "- Level 3: 100-149 pts (Fast) Level 4: 150-199 pts (V.Fast)")
    ∷ item (utf8 "- Level 5: 200+ pts (Maximum speed)")
    ∷ blank
    ∷ heading (utf8 "CONTROLS:")
    ∷ item (utf8 "- Type letters to spell words")
    ∷ item (utf8 "- ENTER or SPACE: Submit typed word")
    ∷ item (utf8 "- BACKSPACE: Delete last character")
    ∷ item (utf8 "- Ctrl+C: Exit game (return to menu)")
    ∷ blank
    ∷ heading (utf8 "STRATEGY TIPS:")
    ∷ item (utf8 "- Focus on words closest to the bottom first")
    ∷ item (utf8 "- Avoid RED words at all costs!")
    ∷ item (utf8 "- Prioritize BLUE bonus words when safe")
    ∷ item (utf8 "- Speed increases with score - stay alert!")
    ∷ item (utf8 "- Practice typing accuracy over speed")
    ∷ []

-- A page with its title and the prompt that wait_for_key_or_signal prints behind it.
pub show_page : Bytes → List Line → Bytes → List Printed
show_page title lines prompt =
    print_at y_title x_default_pos title
    ∷ (lay_out y_options_start lines
        ++ (prompt_at (y_status_msg + y_msg_offset2) x_default_pos prompt ∷ []))

pub show_page_1 : Bool → List Printed
show_page_1 has_colors =
    show_page (utf8 "=== Rain Typing Game - How to Play (1/2) ===") (page_1_lines has_colors)
      (utf8 "Press any key for next page (2/2)...")

show_page_2 : List Printed
show_page_2 =
    show_page (utf8 "=== Rain Typing Game - How to Play (2/2) ===") page_2_lines
      (utf8 "Press any key to return to the main menu...")

-- The pages that are shown: the second one only if no signal was seen behind the first.
show_how_to_play_ui : Bool → Bool → List (List Printed)
show_how_to_play_ui has_colors sigint_received =
    show_page_1 has_colors ∷ (if sigint_received then [] else show_page_2 ∷ [])
