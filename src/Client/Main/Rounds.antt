-- ===== src/Client/Main/Rounds.antt =====
-- main of client/src/client_main.c: the loop around connection, login and menu.
pub mod Exits
use rain_typing_game.Prelude.{
  ℕ, Bool, true, false, not, ◌||◌, List, [], ◌∷◌, Bytes, ltb, ◌==◌, if◌then◌else◌, length, ℤ, pos,
  negsuc,
}
use rain_typing_game.Common.Run.{Run, ok, ◌>>=◌}
use rain_typing_game.Client.WordManager.{WordManager, init_word_manager, no_words}
use rain_typing_game.Client.AuthUi
use rain_typing_game.Client.AuthUi.{
  Keys, Left, returns, stays, hangs, auth_ui_main, auth_ui_exit_normal, auth_ui_exit_signal,
}
use rain_typing_game.Client.Main.{
  Client, MenuIo, again, logged_out, quits, stuck, Menu, Terminal, menu_round,
}

-- What the loop of main does: another connection, the exit status, or a menu that is open after the
-- rounds given.
pub data Main : Type 0 where
  reconnects : WordManager → Main
  exits : ℕ → Main
  goes_on : Main

abbrev pub after_menu : (Client → Run Main) → Bool → Menu → Run Main
after_menu loop received m = elim m.next [
  | again ↦ loop m.client
  | logged_out ↦ ok (if received then exits 0 else reconnects m.client.manager)
  | quits ↦ ok (exits 0)
  | stuck ↦ ok goes_on
]

-- The menu of a user; `received` is the flag behind it.
pub menu_loop : Terminal → Bool → List MenuIo → Client → Run Main
menu_loop t received [] c = ok goes_on
menu_loop t received (io ∷ ios) c =
    menu_round t io c >>= after_menu (menu_loop t received ios) received

-- One round of the loop of main.
pub record MainIo : Type 0 where
  pub at_start : Bool
  pub connects : Bool
  pub connected : Bool
  pub auth : List AuthUi.Round
  pub after_auth : Bool
  pub menu : List MenuIo
  pub after_menu : Bool

abbrev pub is_login : ℤ → Bool
is_login (pos n) = n == 1
is_login (negsuc n) = false

-- What follows the menu for login and registration. A login has a name that is not empty, or the
-- loop starts again.
pub after_auth : Terminal → MainIo → WordManager → Left → Run Main
after_auth t io manager (returns code user) =
    if io.after_auth || not (is_login code)
    then ok (exits 0)
    else if ltb 0 (length user)
    then menu_loop t io.after_menu io.menu (record { user_id = user; manager = manager })
    else ok (reconnects manager)
after_auth t io manager stays = ok goes_on
after_auth t io manager hangs = ok goes_on

pub main_round : Terminal → (Bytes → Bytes) → MainIo → WordManager → Run Main
main_round t sha256 io manager =
    if io.at_start
    then ok (exits 0)
    else if not io.connects
    then ok (exits 1)
    else if io.connected
    then ok (exits 0)
    else (auth_ui_main sha256 t.keys io.auth >>= after_auth t io manager)

abbrev pub after_main : (WordManager → Run Main) → Main → Run Main
after_main loop (reconnects manager) = loop manager
after_main loop (exits status) = ok (exits status)
after_main loop goes_on = ok goes_on

pub main_loop : Terminal → (Bytes → Bytes) → List MainIo → WordManager → Run Main
main_loop t sha256 [] manager = ok goes_on
main_loop t sha256 (io ∷ ios) manager =
    main_round t sha256 io manager >>= after_main (main_loop t sha256 ios)

pub start_main : Terminal → (Bytes → Bytes) → List MainIo → WordManager × Bool → Run Main
start_main t sha256 ios (manager, true) = main_loop t sha256 ios manager
start_main t sha256 ios (manager, false) = ok (exits 1)

-- main: crypto_init succeeds, and init_word_manager if its malloc does.
pub main : Terminal → (Bytes → Bytes) → Bool → List MainIo → Run Main
unfolding start_main
main t sha256 mallocs ios = start_main t sha256 ios (init_word_manager mallocs no_words)
