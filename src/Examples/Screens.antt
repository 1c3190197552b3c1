-- ===== src/Examples/Screens.antt =====
-- The screens of the client, and the start of the server.
use rain_typing_game.Prelude.{
  count, Some, ◌+◌, ◌≡◌, ◌&&◌, ◌⊎◌, refl, true, false, none, some, List, [], ◌∷◌, ◌++◌, Bytes, utf8,
  leb, ltb, replicate, take, All, All-replicate, if◌then◌else◌, pos, arith,
}
use rain_typing_game.Common.Protocol.{max_id_len, LeaderboardEntry}
use rain_typing_game.Common.Run.{ok, Ensures}
use rain_typing_game.Common.Hash.{bytes_to_hex, hash_password_sha256}
use rain_typing_game.Common.Hash.Hex.{IsByte, IsStoredHash}
use rain_typing_game.Common.Message.{decode_credentials}
use rain_typing_game.Client.Network.Requests.{login_request}
use rain_typing_game.Client.AuthUi
use rain_typing_game.Client.AuthUi.{Keys, got, entered, custom_get_string, auth_ui_main}
use rain_typing_game.Client.AuthUi.Typed.{IsTerminal, IsTyped, typed, custom_get_string-typed}
use rain_typing_game.Client.Connection.{Held, perform_cleanup_and_exit}
use rain_typing_game.Client.Connection.Closed.{
  Call, connects, run_calls, no_sockets, perform_cleanup_and_exit-closed,
}
use rain_typing_game.Client.WordManager.{no_words}
use rain_typing_game.Client.ActiveWords.{empty_table}
use rain_typing_game.Client.AuthUi.Asked.{LogsIn-request}
use rain_typing_game.Client.AuthUi.Login.{LogsIn, Says, auth_ui_main-Says}
use rain_typing_game.Client.LeaderboardUi.{show_leaderboard_ui}
use rain_typing_game.Client.Printed.{Printed, print_at, prompt_at}
use rain_typing_game.Common.Decimal.{print_int}
use rain_typing_game.Client.LeaderboardUi.Shown.{ShowsEntries, show_leaderboard_ui_lem}
use rain_typing_game.Client.Main.{Client, MenuIo, Terminal, menu_round}
use rain_typing_game.Client.Main.Rounds.{MainIo, main}
use rain_typing_game.Client.Main.Asked.{Justified, menu_round-Justified}
use rain_typing_game.Client.Main.Rounds.Exits.{Exits, Unconnected, main-Exits}
use rain_typing_game.Server.Words.{DefaultsIo}
use rain_typing_game.Server.Startup.{a_directory, StartIo, start_server}
use rain_typing_game.Server.Startup.Laws.{IfRuns, IsFresh, start_server-IsFresh}
use rain_typing_game.Server.Startup.Accept.{Accept, accept_loop, accepted}
use rain_typing_game.Server.Startup.Accept.Sockets.{accept_loop-accepted}
use rain_typing_game.Examples.Play.{frame, rounds}
use rain_typing_game.Examples.Rain.{manager}

abbrev keys : Keys
keys = record { key_enter = 343; key_backspace = 263; is_print = λ c. leb 32 c && leb c 126 }

keys-IsTerminal : IsTerminal keys
keys-IsTerminal = record {
  enter_is_key = omega arith;
  backspace_is_key = omega arith;
  printing = λ c h. ground (arith, h);
}

custom_get_string-typed_example :
    custom_get_string keys 32 (typed (utf8 "kim") ++ (got (some 10) ∷ []))
    ≡ ok (entered (utf8 "kim"))
custom_get_string-typed_example =
    custom_get_string-typed keys 32 (utf8 "kim") [] keys-IsTerminal (ground arith)

-- A digest of 32 bytes for every password.
abbrev digest : Bytes → Bytes
digest password = replicate 32 7

-- The user chooses to log in, and the server agrees.
abbrev logs_in : AuthUi.Round
logs_in = record {
  at_start = false;
  choice = some b'1';
  no_choice = false;
  wrong_choice = false;
  id_keys = typed (utf8 "kim") ++ (got (some 10) ∷ []);
  after_id = false;
  pw_keys = typed (utf8 "one") ++ (got (some 10) ∷ []);
  after_pw = false;
  digest = record { ctx_new = true; init = true; update = true; final = true };
  no_hash = false;
  ask = λ req. (0, record { success = true; message = [] });
  after_request = false;
  after_message = false;
}

auth_ui_main-Says_example :
    Ensures
      (Says (λ user. Some (LogsIn digest keys user) (logs_in ∷ [])))
      (auth_ui_main digest keys (logs_in ∷ []))
auth_ui_main-Says_example = auth_ui_main-Says digest keys (logs_in ∷ [])

one_hashed :
    hash_password_sha256 digest true logs_in.digest (some (utf8 "one"))
    ≡ some (bytes_to_hex (replicate 32 7))
unfolding hash_password_sha256
one_hashed = refl

kim_typed : IsTyped keys max_id_len (utf8 "kim")
kim_typed = ground arith

one_typed : IsTyped keys 64 (utf8 "one")
one_typed = ground arith

abbrev kim : LogsIn digest keys (utf8 "kim") logs_in
kim = record {
  chosen = refl;
  name = kim_typed;
  password = utf8 "one";
  pw_hashed = bytes_to_hex (replicate 32 7);
  typed = one_typed;
  hashed = one_hashed;
  answered = refl;
  accepted = refl;
}

LogsIn-request_example :
    IsStoredHash (bytes_to_hex (replicate 32 7))
    × (decode_credentials
          (λ username rest. true)
          (login_request (utf8 "kim") (bytes_to_hex (replicate 32 7))).body
        ≡ ok (some (utf8 "kim"), some (bytes_to_hex (replicate 32 7))))
LogsIn-request_example =
    LogsIn-request digest keys logs_in (utf8 "kim") (λ username rest. true) keys-IsTerminal
      (λ password. All-replicate IsByte {a = 7} 32 (omega arith)) kim

abbrev entries : List LeaderboardEntry
entries =
    record { username = utf8 "kim"; score = pos 9 }
    ∷ record { username = utf8 "lee"; score = pos 7 }
    ∷ []

show_leaderboard_ui_lem_example :
    (lines : List Printed) × (show_leaderboard_ui 0 (pos 2) entries
      ≡ print_at 2 10 (utf8 "=== LEADERBOARD ===")
        ∷ print_at 4 10 (utf8 "Rank  Username         Score")
        ∷ print_at 5 10 (utf8 "----  --------         -----")
        ∷ (lines
            ++ (print_at 12 10 (utf8 "Total players: " ++ print_int (pos 2))
                ∷ prompt_at 15 10 (utf8 "Press any key to return...")
                ∷ [])))
    × ShowsEntries 1 (take (if ltb 6 2 then 6 else 2) entries) lines
show_leaderboard_ui_lem_example =
    show_leaderboard_ui_lem 2 entries (omega arith)
      ((omega arith, omega arith), ((omega arith, omega arith), tt))

abbrev terminal : Terminal
terminal = record { keys = keys; screen_height = 24; screen_width = 80 }

-- The user plays a game.
abbrev plays_game : MenuIo
plays_game = record {
  at_start = false;
  choice = b'1';
  mallocs = true;
  load = record { first_malloc = true; second_malloc = true; reallocs = true; strdups = none };
  words = record { ret = 0; count = pos 1; words = utf8 "rain" ∷ [] };
  frame = frame;
  rounds = rounds;
  after_game = false;
  ask = λ req. (0, record { success = true; message = [] });
  after_request = false;
  confirm = b'n';
  at_end = false;
}

abbrev client : Client
client = record { user_id = utf8 "kim"; manager = manager }

menu_round-Justified_example :
    Ensures
      (λ m. All (Justified terminal plays_game client m.client) m.asked)
      (menu_round terminal plays_game client)
menu_round-Justified_example = menu_round-Justified terminal plays_game client

abbrev one_round : MainIo
one_round = record {
  at_start = false;
  connects = true;
  connected = false;
  auth = logs_in ∷ [];
  after_auth = false;
  menu = plays_game ∷ [];
  after_menu = false;
}

abbrev defaults : DefaultsIo
defaults = record { opens = true; written = none; closes = true }

abbrev starts : StartIo
starts = record {
  sockets = true;
  binds = true;
  listens = true;
  db = record {
    dir = record { stat = a_directory; mkdirs = false; exists = false; again = a_directory };
    users_opens = true;
    scores_opens = true;
  };
  words =
      record {
        stats = true;
        fills = defaults;
        opens = true;
        reopens = true;
        read_fails = none;
        refills = defaults;
      }
      ∷ [];
}

start_server-IsFresh_example :
    IfRuns
      (IsFresh (some (utf8 "kim:one")) none)
      (start_server starts (some (utf8 "kim:one")) none (some (utf8 "rain")) [])
start_server-IsFresh_example =
    start_server-IsFresh starts (some (utf8 "kim:one")) none (some (utf8 "rain")) []

abbrev arrivals : List Accept
arrivals =
    record {
      shutdown = false;
      client_sock = some 5;
      shutdown_after = false;
      mallocs = true;
      creates = true;
    }
    ∷ record {
      shutdown = false;
      client_sock = some 6;
      shutdown_after = false;
      mallocs = true;
      creates = false;
    }
    ∷ []

accept_loop-accepted_example :
    let l = accept_loop arrivals in
    count 6 l.served + count 6 l.closed ≡ count 6 (accepted arrivals)
accept_loop-accepted_example = accept_loop-accepted arrivals 6

-- A connection that fails, and one that is made.
abbrev calls : List Call
calls = connects (some 5) false ∷ connects (some 6) true ∷ []

abbrev held : Held
held = record {
  is_game_running = false;
  manager = no_words;
  active_words = empty_table;
  sockets = run_calls calls no_sockets;
  crypto_initialized = true;
}

perform_cleanup_and_exit-closed_example :
    let k = perform_cleanup_and_exit held in
    (k.sockets.client_sock ≡ none) × (count 6 k.sockets.opened_fds ≡ count 6 k.sockets.closed_fds)
perform_cleanup_and_exit-closed_example = perform_cleanup_and_exit-closed calls held 6 refl

main-Exits_example :
    Ensures
      (Exits ((true ≡ false) ⊎ Unconnected (one_round ∷ [])))
      (main terminal digest true (one_round ∷ []))
main-Exits_example = main-Exits terminal digest true (one_round ∷ [])
