-- ===== src/Client/Printed.antt =====
-- What the screens of the client print, and the layout of client/include/client_globals.h.
use rain_typing_game.Prelude.{
  ℕ, ◌-◌, Bool, true, false, List, [], ◌∷◌, ◌++◌, Bytes, ◌==◌, if◌then◌else◌, length, replicate,
}

abbrev pub y_title : ℕ
y_title = 2

abbrev pub y_options_start : ℕ
y_options_start = 4

abbrev pub y_status_msg : ℕ
y_status_msg = 13

abbrev pub y_msg_offset1 : ℕ
y_msg_offset1 = 1

abbrev pub y_msg_offset2 : ℕ
y_msg_offset2 = 2

abbrev pub x_default_pos : ℕ
x_default_pos = 10

-- A text at a row and a column; `clears` where the rest of the row is cleared behind it.
pub record Printed : Type 0 where
  pub row : ℕ
  pub column : ℕ
  pub text : Bytes
  pub clears : Bool

abbrev pub print_at : ℕ → ℕ → Bytes → Printed
print_at row column text = record { row = row; column = column; text = text; clears = false }

-- The prompt of wait_for_key_or_signal.
abbrev pub prompt_at : ℕ → ℕ → Bytes → Printed
prompt_at row column text = record { row = row; column = column; text = text; clears = true }

-- `%-15s` and its like, and `%5d` and its like.
unfoldable pub pad_right : ℕ → Bytes → Bytes
pad_right n s = s ++ replicate (n - length s) 32

unfoldable pub pad_left : ℕ → Bytes → Bytes
pad_left n s = replicate (n - length s) 32 ++ s

-- The texts that a row shows: one that clears the row from its column on covers the earlier ones,
-- none of which stands further left.
unfoldable pub row_shows : ℕ → List Printed → List Bytes → List Bytes
row_shows row [] shown = shown
row_shows row (p ∷ ps) shown =
    row_shows row ps
      (if p.row == row then (if p.clears then p.text ∷ [] else shown ++ (p.text ∷ [])) else shown)
