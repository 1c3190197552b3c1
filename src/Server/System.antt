-- ===== src/Server/System.antt =====
-- The threads of server/src/server_network.c that serve the connections, over the state they share:
-- one step is a connection, one message, the end of a connection, or a half of a login.
pub mod Covered
use rain_typing_game.Prelude.{ℕ, ◌+◌, ◌≡◌, Option, none, some, List, [], ◌∷◌, ◌++◌, Bytes}
use rain_typing_game.Common.Run.{ok}
use rain_typing_game.Server.Db.Files.{ReadIo}
use rain_typing_game.Server.Online.{is_user_already_logged_in}
use rain_typing_game.Server.Scores.{Qsort}
use rain_typing_game.Server.Handler.{
  Server, Session, Handled, Io, check_login, handle_message, close_session,
}

-- A thread waits for a message, or has looked a user up in the table, found no slot, and has still
-- to check the password and to enter the user.
pub data Phase : Type 0 where
  receiving : Phase
  looked_up : Bytes → Option Bytes → Phase

pub record Connection : Type 0 where
  pub session : Session
  pub phase : Phase

pub record System : Type 0 where
  pub server : Server
  pub connections : List Connection

-- The variables of a thread that starts.
abbrev opened : ℕ → Connection
opened client_sock = record {
  session = record { client_sock = client_sock; current_user = [] };
  phase = receiving;
}

abbrev pub at_rest : Session → Connection
at_rest session = record { session = session; phase = receiving }

abbrev pub looking : Session → Bytes → Option Bytes → Connection
looking session username password = record {
  session = session;
  phase = looked_up username password;
}

-- The connection between two lists of others.
abbrev pub among : Server → List Connection → List Connection → List Connection → System
among server before here after = record { server = server; connections = before ++ (here ++ after) }

module _ (c_library : Qsort) where
  pub data Step (s t : System) : Type 0 where
    connect :
        (client_sock : ℕ)
        → t ≡ record s { connections = opened client_sock ∷ s.connections }
        → Step s t
    handle :
        (server : Server) (before after : List Connection) (c : Session) (io : Io) (type : ℕ)
        (body : Bytes) (h : Handled)
        → s ≡ among server before (at_rest c ∷ []) after
        → handle_message c_library io server c type body ≡ ok h
        → t ≡ among h.server before (at_rest h.session ∷ []) after
        → Step s t
    look_up :
        (server : Server) (before after : List Connection) (c : Session) (username : Bytes)
        (password : Option Bytes)
        → s ≡ among server before (at_rest c ∷ []) after
        → is_user_already_logged_in server.logged_in username ≡ none
        → t ≡ among server before (looking c username password ∷ []) after
        → Step s t
    enter :
        (server : Server) (before after : List Connection) (c : Session) (username : Bytes)
        (password : Option Bytes) (io : ReadIo) (h : Handled)
        → s ≡ among server before (looking c username password ∷ []) after
        → check_login io server c (some username) password none ≡ h
        → t ≡ among h.server before (at_rest h.session ∷ []) after
        → Step s t
    close :
        (server : Server) (before after : List Connection) (c : Session)
        → s ≡ among server before (at_rest c ∷ []) after
        → t ≡ among (close_session server c) before [] after
        → Step s t

  pub data Reaches (s : System) : System → Type 0 where
    start : Reaches s s
    next : {t u : System} → Reaches s t → Step t u → Reaches s u
