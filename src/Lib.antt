-- ===== src/Lib.antt =====
-- Rain Typing Game: a model of the server, the protocol and the client, with the theorems that
-- make them correct.
--
-- The program is a server that keeps accounts, scores and a word list in text files, and a
-- terminal client that plays the game and talks to the server over a socket. Each connection has
-- a thread that reads a message, handles it and answers.
--
-- Prelude is shared vocabulary: Boolean tests, lists over the native numbers, byte strings with
-- strcmp, strchr and strncpy, and `int` as a sum of two ranges of naturals.
--
-- Common is common/include/protocol.h. Common.Protocol has the limits, Common.MessageType the
-- message types, Common.Message the bytes of headers and requests, Common.Decimal `%d`, `strtol`
-- and the cast from `long` to `int`, Common.Run the outcome of code that may read outside an
-- object, which is a crash here, and Common.Socket the outcomes of send and recv. Common.Hash is
-- common/src/hash_util.c, with SHA-256 as a parameter.
--
-- Server.Db is server/src/db_handler.c. Server.Db.Lines is read_line and the loop around it, on
-- fuel of one more than the bytes of the file. Server.Db.Files is open, flock, dprintf and close:
-- their outcomes are arguments, and a mutex with flock makes each function one step.
-- Server.Db.Users and Server.Db.Scores are the functions on users.txt and scores.txt; their Laws
-- modules show the files as lists.
--
-- Server.Auth is server/src/auth_manager.c, Server.Scores is server/src/score_manager.c over any
-- `qsort` that meets the contract in Server.Scores.Sorting, and Server.Words is
-- server/src/word_manager.c, where the outcomes of each round of `goto reload` are an argument.
--
-- server/src/server_network.c is five modules. Server.Online is the table logged_in_users.
-- Server.Handler has one function for each case of the switch of handle_client, `handle_message`
-- for the switch and `close_session` for the end of the connection. Server.Receive is recv_all
-- and the receiving half of the loop, Server.Reply is send_all, send_response and the bytes of
-- the structs that are sent, and Server.Connection is the loop that joins them. Server.System
-- lets the threads of all connections take steps over the state they share: a message is one
-- step, and a login may also be two, the look into the table and the entry, with steps of other
-- threads between. Server.Startup is server/src/server_main.c with init_db_files and the creation
-- of the data directory, and Server.Startup.Accept its accept loop, signal handler and shutdown.
--
-- Client.Network is client/src/client_network.c, with connect_to_server and
-- disconnect_from_server in Client.Connection. Exchange joins it to the server: a request of the
-- client, the round of handle_client that serves it, and the answer that the client gets.
--
-- client/src/game_logic.c is Client.ActiveWords, the hash table of active words,
-- Client.WordManager, the client's copy of the word list, and Client.Game: what each critical
-- section of the main thread and of the word threads does (Client.Game for a word that falls or
-- ends, Client.Game.Spawn for spawn_word, Client.Game.Input for process_game_input,
-- Client.Game.Speed for levels and intervals). Client.Game.Steps lets these sections take turns
-- in any order: a section that holds words_mutex and takes game_state_mutex within is one step,
-- and a line is two, with any steps of other threads between. Client.Game.Loop is
-- run_rain_typing_game with its loop and safe_game_cleanup, where the turns of the word threads
-- are an argument of each round; its steps are steps of Client.Game.Steps.
-- Client.Game.Loop.Deadlock is the second section of safe_game_cleanup with words_mutex: who holds
-- it, where each thread is, and one move for each lock, unlock and join. Client.Game.Screen is the
-- texts of draw_game_screen. The word threads have no clock, so a word may fall whenever its
-- thread runs. The score is a natural number: it would take 27 million words to reach the end of
-- `int`. The values of rand and the outcomes of malloc and pthread_create are arguments.
--
-- Client.AuthUi is client/src/auth_ui.c, with the keys and the values of sigint_received as
-- arguments; Client.LeaderboardUi and Client.HowToPlayUi are what the screens of
-- client/src/leaderboard_ui.c and client/src/how_to_play_ui.c print, and Client.Menus what the
-- menus and their messages are, all by the layout in Client.Printed; and Client.Main is
-- client/src/client_main.c: the menu and the requests it makes, with the loop of main in
-- Client.Main.Rounds and perform_cleanup_and_exit in Client.Connection.
--
-- A loop that waits for a socket, a key or a connection runs on a list of what each of its rounds
-- meets. A list that ends too early gives a result of its own (`waiting`, `waits`, `goes_on`,
-- `playing` and the like); the theorems about results ask for enough rounds or hold for every
-- list.
--
-- Examples applies the theorems at concrete inputs, with insertion sort for `qsort`.
--
-- Not modelled: the set-up of ncurses, colours outside a game, the cursor, the echo of the line
-- editor and the lines of the frame; the addresses of sockets; log messages; and OpenSSL, which
-- the program only calls. An exit of main in Client.Main.Rounds is its status. Client.Game.Loop
-- has no turn of a word thread between the two sections of a line, and Server.System none within
-- a message other than a login: the functions on the files and on the table are one step each,
-- and Server.Auth.Race has what two registrations do that take turns between the search and the
-- append.
pub mod Prelude
pub mod Common
pub mod Server
pub mod Client
pub mod Exchange
pub mod Examples
