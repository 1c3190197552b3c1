-- ===== src/Client/Connection.antt =====
-- connect_to_server and disconnect_from_server of client/src/client_network.c, and
-- perform_cleanup_and_exit of client/src/client_main.c.
pub mod Closed
use rain_typing_game.Prelude.{
  ℕ, Bool, true, false, Option, none, some, List, [], ◌∷◌, if◌then◌else◌,
}
use rain_typing_game.Common.Hash.{crypto_cleanup}
use rain_typing_game.Client.ActiveWords.{ActiveWordHashTable, cleanup_active_word_table}
use rain_typing_game.Client.WordManager.{WordManager, cleanup_word_manager}

-- `client_sock`, with the descriptors that `socket` returned and those that were closed.
pub record Sockets : Type 0 where
  pub client_sock : Option ℕ
  pub opened_fds : List ℕ
  pub closed_fds : List ℕ

pub disconnect_from : Sockets → Option ℕ → Sockets
disconnect_from s none = s
disconnect_from s (some fd) = record s { client_sock = none; closed_fds = fd ∷ s.closed_fds }

pub disconnect_from_server : Sockets → Sockets
unfolding disconnect_from
disconnect_from_server s = disconnect_from s s.client_sock

-- What `socket` returns (`none` for -1), and whether `connect` succeeds; the result is whether the
-- return value is 0.
pub connect_new : Option ℕ → Bool → Sockets → Sockets × Bool
connect_new none connects s = (s, false)
connect_new (some fd) connects s =
    let opened = record s { client_sock = some fd; opened_fds = fd ∷ s.opened_fds } in
    if connects
    then (opened, true)
    else (record opened { client_sock = none; closed_fds = fd ∷ s.closed_fds }, false)

pub connect_if_none : Option ℕ → Option ℕ → Bool → Sockets → Sockets × Bool
unfolding connect_new
connect_if_none none new connects s = connect_new new connects s
connect_if_none (some fd) new connects s = (s, true)

pub connect_to_server : Option ℕ → Bool → Sockets → Sockets × Bool
unfolding connect_if_none
connect_to_server new connects s = connect_if_none s.client_sock new connects s

-- What the program holds when it exits.
pub record Held : Type 0 where
  pub is_game_running : Bool
  pub manager : WordManager
  pub active_words : ActiveWordHashTable
  pub sockets : Sockets
  pub crypto_initialized : Bool

-- Up to `exit(code)`.
pub perform_cleanup_and_exit : Held → Held
perform_cleanup_and_exit h = record {
  is_game_running = false;
  manager = cleanup_word_manager h.manager;
  active_words = cleanup_active_word_table h.active_words;
  sockets = disconnect_from_server h.sockets;
  crypto_initialized = crypto_cleanup h.crypto_initialized;
}
