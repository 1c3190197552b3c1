-- ===== src/Client/LeaderboardUi.antt =====
-- show_leaderboard_ui of client/src/leaderboard_ui.c: what it prints for an answer of the server.
pub mod Shown
use rain_typing_game.Prelude.{
  ℕ, zero, suc, ◌+◌, ◌-◌, Bool, true, false, List, [], ◌∷◌, ◌++◌, Bytes, utf8, ltb, leb, ◌==◌,
  if◌then◌else◌, length, take, ℤ, pos, negsuc,
}
use rain_typing_game.Common.Protocol.{max_leaderboard_entries, LeaderboardEntry}
use rain_typing_game.Common.Decimal.{print_int}
use rain_typing_game.Client.Printed.{
  Printed, print_at, prompt_at, pad_left, pad_right, y_title, y_options_start, y_status_msg,
  y_msg_offset1, y_msg_offset2, x_default_pos,
}

-- The text for a negated return value.
error_msg : ℕ → Bytes
error_msg code =
    if code == 1
    then utf8 "Not connected to server"
    else if code == 2
    then utf8 "Failed to send request"
    else if code == 3
    then utf8 "Failed to receive response"
    else if code == 4
    then utf8 "Server returned error"
    else if code == 5
    then utf8 "Unexpected response type from server"
    else if code == 6
    then utf8 "Response data too large"
    else if code == 10
    then utf8 "Interrupted by user"
    else utf8 "Unknown network error"

abbrev return_prompt : Printed
return_prompt =
    prompt_at (y_status_msg + y_msg_offset2) x_default_pos (utf8 "Press any key to return...")

error_lines : ℕ → List Printed
error_lines code =
    print_at y_status_msg x_default_pos (
      utf8 "Failed to get leaderboard: "
      ++ (error_msg code ++ (utf8 " (code: -" ++ (print_int (pos code) ++ utf8 ")"))))
    ∷ print_at (y_status_msg + y_msg_offset1) x_default_pos
        (utf8 "Please check your connection and try again.")
    ∷ return_prompt
    ∷ []

abbrev title : Printed
title = print_at y_title x_default_pos (utf8 "=== LEADERBOARD ===")

empty_lines : List Printed
empty_lines =
    title
    ∷ print_at y_options_start x_default_pos (utf8 "No scores available yet.")
    ∷ print_at (y_options_start + 1) x_default_pos (utf8 "Be the first to play and set a record!")
    ∷ return_prompt
    ∷ []

-- `username_display`: a name of more than 15 bytes is cut.
pub username_display : Bytes → Bytes
username_display name = if ltb 15 (length name) then take 12 name ++ utf8 "..." else name

-- `%2d    %-15s  %5d`
pub entry_text : ℕ → LeaderboardEntry → Bytes
entry_text i e =
    pad_left 2 (print_int (pos (i + 1)))
    ++ (utf8 "    "
        ++ (pad_right 15 (username_display e.username)
            ++ (utf8 "  " ++ pad_left 5 (print_int e.score))))

-- The loop from entry `i` on, with the test on the row.
pub entry_lines : ℕ → ℕ → List LeaderboardEntry → List Printed
unfolding entry_text
entry_lines count i [] = []
entry_lines count i (e ∷ entries) =
    let rest = entry_lines count (suc i) entries in
    let display_line = y_options_start + 2 + i in
    if leb (y_status_msg - 1) display_line
    then print_at display_line x_default_pos
        (utf8 "... and " ++ (print_int (pos (count - i)) ++ utf8 " more entries"))
      ∷ []
    else print_at display_line x_default_pos (entry_text i e) ∷ rest

pub display_count : ℕ → ℕ
display_count count =
    let n = if ltb count max_leaderboard_entries then count else max_leaderboard_entries in
    let max_display_lines = y_status_msg - y_options_start - 3 in
    if ltb max_display_lines n then max_display_lines else n

-- The header, the entries and the number of players; a negative count shows the header only.
pub heading : List Printed
heading =
    title
    ∷ print_at y_options_start x_default_pos (utf8 "Rank  Username         Score")
    ∷ print_at (y_options_start + 1) x_default_pos (utf8 "----  --------         -----")
    ∷ []

abbrev total_line : ℕ → Printed
total_line count =
    print_at (y_status_msg - 1) x_default_pos (utf8 "Total players: " ++ print_int (pos count))

board_lines : ℤ → List LeaderboardEntry → List Printed
unfolding heading
board_lines (negsuc n) entries = heading ++ (return_prompt ∷ [])
board_lines (pos count) entries =
    heading
    ++ (entry_lines count 0 (take (display_count count) entries)
        ++ (total_line count ∷ return_prompt ∷ []))

is_zero : ℤ → Bool
is_zero (pos n) = n == 0
is_zero (negsuc n) = false

-- The negated return value of the request, and `count` and `entries` of the response.
pub show_leaderboard_ui : ℕ → ℤ → List LeaderboardEntry → List Printed
unfolding error_lines empty_lines board_lines is_zero
show_leaderboard_ui ret count entries =
    if ltb 0 ret
    then error_lines ret
    else if is_zero count
    then empty_lines
    else board_lines count entries
