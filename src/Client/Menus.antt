-- ===== src/Client/Menus.antt =====
-- What client/src/auth_ui.c and client/src/client_main.c print: the two menus, and the messages
-- behind a request or a game.
pub mod Whole
use rain_typing_game.Prelude.{
  ℕ, zero, suc, ◌+◌, ◌-◌, ◌*◌, Bool, true, false, ◌&&◌, List, [], ◌∷◌, ◌++◌, Bytes, utf8, ◌==◌,
  if◌then◌else◌, str_copy, ℤ, pos, negsuc,
}
use rain_typing_game.Common.Protocol.{max_msg_len, Response}
use rain_typing_game.Common.Decimal.{print_int}
use rain_typing_game.Client.Game.Loop.{Played, returned, refused, plays, blocks}
use rain_typing_game.Client.Printed.{
  Printed, print_at, prompt_at, y_title, y_options_start, y_status_msg, y_msg_offset1,
  y_msg_offset2, x_default_pos,
}

draw_auth_menu : List Printed
draw_auth_menu =
    print_at y_title x_default_pos (utf8 "=== Welcome to Rain Typing Game ===")
    ∷ print_at y_options_start x_default_pos (utf8 "1. Login")
    ∷ print_at (y_options_start + 1) x_default_pos (utf8 "2. Register")
    ∷ print_at (y_options_start + 2) x_default_pos (utf8 "3. Exit")
    ∷ print_at (y_options_start + 4) x_default_pos (utf8 "Select an option: ")
    ∷ []

-- The menu of a user.
draw_main_menu : Bytes → List Printed
draw_main_menu user_id =
    print_at y_title x_default_pos (utf8 "Logged in as: " ++ user_id)
    ∷ print_at y_options_start x_default_pos (utf8 "1. Start Game")
    ∷ print_at (y_options_start + 1) x_default_pos (utf8 "2. View Leaderboard")
    ∷ print_at (y_options_start + 2) x_default_pos (utf8 "3. How to Play")
    ∷ print_at (y_options_start + 3) x_default_pos (utf8 "4. Logout")
    ∷ print_at (y_options_start + 4) x_default_pos (utf8 "5. Exit Game")
    ∷ print_at (y_options_start + 6) x_default_pos (utf8 "Select an option: ")
    ∷ []

-- The return value of a request, which is given negated.
pub return_value : ℕ → ℤ
return_value zero = pos 0
return_value (suc n) = negsuc n

-- `"… %s (ret: %d)"`, where `prefix` is what comes first.
pub failure_text : Bytes → ℕ → Response → Bytes
failure_text prefix ret res =
    prefix
    ++ ((if ret == 0 then res.message else utf8 "Network/Comm error")
        ++ (utf8 " (ret: " ++ (print_int (return_value ret) ++ utf8 ")")))

-- `response_message_buffer` behind a login, and behind a registration.
abbrev pub login_result : ℕ → Response → Bytes
login_result ret res =
    if ret == 0 && res.success
    then utf8 "Login Success! " ++ res.message
    else failure_text (utf8 "Login Failed: ") ret res

abbrev pub register_result : ℕ → Response → Bytes
register_result ret res =
    if ret == 0 && res.success
    then utf8 "Register Success! " ++ (res.message ++ utf8 " Try logging in.")
    else failure_text (utf8 "Register Failed: ") ret res

-- `snprintf` into the buffer.
pub response_message : Bool → ℕ → Response → Bytes
response_message logs_in ret res =
    str_copy (max_msg_len * 2) (if logs_in then login_result ret res else register_result ret res)

-- What follows a game that came back, with the answer to its score, unless a signal is seen.
show_result : Played → ℕ → Response → List Printed
show_result (returned final_score g manager) ret res =
    print_at (y_status_msg - 4) x_default_pos
      (utf8 "Game Over! Your final score: " ++ print_int (pos final_score))
    ∷ print_at (y_status_msg - 2) x_default_pos (
        if ret == 0 && res.success
        then utf8 "Score submitted successfully! Server: " ++ res.message
        else failure_text (utf8 "Failed to submit score. Server: ") ret res)
    ∷ prompt_at y_status_msg x_default_pos (utf8 "Press any key to return to the menu...")
    ∷ []
show_result (refused code) ret res =
    print_at (y_status_msg - 2) x_default_pos
      (utf8 "Game could not start or was aborted. (Error: " ++ (print_int code ++ utf8 ")"))
    ∷ prompt_at y_status_msg x_default_pos (utf8 "Press any key to return to the menu...")
    ∷ []
show_result plays ret res = []
show_result blocks ret res = []

show_logout : ℕ → Response → List Printed
show_logout ret res =
    print_at y_status_msg x_default_pos (
      if ret == 0 && res.success
      then utf8 "Logout successful. " ++ res.message
      else failure_text (utf8 "Logout failed. Server: ") ret res)
    ∷ prompt_at (y_status_msg + y_msg_offset2) x_default_pos (utf8 "Press any key to continue...")
    ∷ []
