-- ===== src/Client/Main.antt =====
-- client/src/client_main.c: the signal flags, the main menu, and a game from it.
pub mod Asked
pub mod Rounds
use rain_typing_game.Prelude.{
  ℕ, Bool, true, false, not, ◌&&◌, ◌||◌, Option, none, some, List, [], ◌∷◌, ◌++◌, Bytes, ltb, leb,
  ◌==◌, if◌then◌else◌, length, take, ℤ, pos, negsuc,
}
use rain_typing_game.Common.Protocol.{max_wordlist_words, Response}
use rain_typing_game.Common.Run.{Run, ok, crash, ◌>>=◌}
use rain_typing_game.Client.Network.{Request}
use rain_typing_game.Client.Network.Requests.{
  score_submit_request, leaderboard_request, logout_request, wordlist_request,
}
use rain_typing_game.Client.WordManager.{
  WordManager, LoadIo, load_words_from_response, init_word_manager, no_words,
}
use rain_typing_game.Client.Game.Loop
use rain_typing_game.Client.Game.Loop.{
  Played, returned, refused, plays, blocks, run_rain_typing_game,
}
use rain_typing_game.Client.AuthUi
use rain_typing_game.Client.AuthUi.{
  Keys, Left, returns, stays, hangs, auth_ui_main, auth_ui_exit_normal, auth_ui_exit_signal,
}

-- The flags of a signal; a signal in a game ends the game only.
pub record Flags : Type 0 where
  pub sigint_received : Bool
  pub sigint_game_exit_requested : Bool
  pub is_game_running : Bool

handle_sigint : Flags → Flags
handle_sigint f =
    if f.is_game_running
    then record f { sigint_game_exit_requested = true }
    else record f { sigint_received = true }

-- The loop of wait_for_key_or_signal, with a flag and a key (`none` for ERR) for each round; the
-- result is the rounds that are left.
wait_for_key_or_signal : List (Bool × Option ℕ) → Option (List (Bool × Option ℕ))
wait_for_key_or_signal [] = none
wait_for_key_or_signal ((true, key) ∷ rounds) = some rounds
wait_for_key_or_signal ((false, some key) ∷ rounds) = some rounds
wait_for_key_or_signal ((false, none) ∷ rounds) = wait_for_key_or_signal rounds

-- What the server answers to the request for the words: the negated return value, `count` and the
-- array.
pub record WordsAnswer : Type 0 where
  pub ret : ℕ
  pub count : ℤ
  pub words : List Bytes

-- A count above the size of the array reads behind it.
load_counted : Bool → LoadIo → List Bytes → WordManager → ℤ → Run (WordManager × Bool)
load_counted mallocs io words m (negsuc n) = ok (m, false)
load_counted mallocs io words m (pos n) =
    if n == 0 || not mallocs
    then ok (m, false)
    else if leb n max_wordlist_words
    then ok (load_words_from_response io (take n words) m)
    else crash

pub load_words_from_server : Bool → LoadIo → WordsAnswer → WordManager → Run (WordManager × Bool)
unfolding load_counted
load_words_from_server mallocs io a m =
    if a.ret == 0 then load_counted mallocs io a.words m a.count else ok (m, false)

-- The variables of main that outlive a round.
pub record Client : Type 0 where
  pub user_id : Bytes
  pub manager : WordManager

-- What sigint_received is at the tests of one round of the menu, the key, the outcomes of a load and
-- of a game, the answers to requests, and the key that confirms.
pub record MenuIo : Type 0 where
  pub at_start : Bool
  pub choice : ℕ
  pub mallocs : Bool
  pub load : LoadIo
  pub words : WordsAnswer
  pub frame : Loop.Frame
  pub rounds : List Loop.Round
  pub after_game : Bool
  pub ask : Request → ℕ × Response
  pub after_request : Bool
  pub confirm : ℕ
  pub at_end : Bool

-- Another round, the end of the menu, the end of the program with status 0, or a game that does not
-- come back.
pub data Next : Type 0 where
  again logged_out quits stuck : Next

-- What follows a round, with the requests that it made.
pub record Menu : Type 0 where
  pub next : Next
  pub client : Client
  pub asked : List Request

abbrev menu : Next → Client → List Request → Menu
menu next c asked = record { next = next; client = c; asked = asked }

-- `if (sigint_received) stay_in_menu = false;`
abbrev unless_signal : Bool → Next
unless_signal received = if received then logged_out else again

submit_score : MenuIo → Client → ℤ → List Request → Menu
submit_score io c final_score asked =
    menu (if io.after_request then logged_out else unless_signal io.at_end) c
      (asked ++ (score_submit_request final_score ∷ []))

-- What follows a game.
pub after_game : MenuIo → Client → List Request → Played → Menu
unfolding submit_score
after_game io c asked (returned score g manager) =
    let c' = record c { manager = manager } in
    if io.after_game then menu logged_out c' asked else submit_score io c' (pos score) asked
after_game io c asked (refused code) =
    if io.after_game then menu logged_out c asked else menu (unless_signal io.at_end) c asked
after_game io c asked plays = menu stuck c asked
after_game io c asked blocks = menu stuck c asked

-- KEY_BACKSPACE and the size of the screen.
pub record Terminal : Type 0 where
  pub keys : Keys
  pub screen_height : ℕ
  pub screen_width : ℕ

pub play : Terminal → MenuIo → Client → List Request → Menu
play t io c asked = after_game io c asked (
    run_rain_typing_game io.frame c.manager t.keys.key_backspace t.screen_height t.screen_width
      io.rounds)

-- A load that fails leads back to the menu.
play_loaded : Terminal → MenuIo → Client → WordManager × Bool → Menu
play_loaded t io c (m, loaded) =
    let c' = record c { manager = m } in
    if loaded then play t io c' (wordlist_request ∷ []) else menu again c' (wordlist_request ∷ [])

abbrev pub has_words : WordManager → Bool
has_words m = m.is_initialized && not (length m.words == 0)

-- case '1'
pub start_game_choice : Terminal → MenuIo → Client → Run Menu
unfolding play_loaded
start_game_choice t io c =
    if has_words c.manager
    then ok (play t io c [])
    else (load_words_from_server io.mallocs io.load io.words c.manager >>= λ r.
        ok (play_loaded t io c r))

-- case '4'
pub logout_choice : MenuIo → Client → ℕ × Response → Menu
logout_choice io c (ret, res) =
    if io.after_request
    then menu logged_out c (logout_request ∷ [])
    else if ret == 0 && res.success
    then menu logged_out (record c { user_id = [] }) (logout_request ∷ [])
    else menu (unless_signal io.at_end) c (logout_request ∷ [])

pub menu_round : Terminal → MenuIo → Client → Run Menu
menu_round t io c =
    if io.at_start
    then ok (menu logged_out c [])
    else if io.choice == b'1'
    then start_game_choice t io c
    else if io.choice == b'2'
    then ok (menu (unless_signal io.at_end) c (leaderboard_request ∷ []))
    else if io.choice == b'4'
    then ok (logout_choice io c (io.ask logout_request))
    else if io.choice == b'5' && (io.confirm == b'y' || io.confirm == b'Y')
    then ok (menu quits c [])
    else ok (menu (unless_signal io.at_end) c [])
