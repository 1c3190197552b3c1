-- ===== src/Server/Connection.antt =====
-- handle_client of server/src/server_network.c: the loop over the messages of one connection, and
-- its end.
pub mod Laws
use rain_typing_game.Prelude.{ℕ, Bool, true, false, List, [], ◌∷◌, ◌++◌, Bytes}
use rain_typing_game.Common.Run.{Run, ok, crash, ◌>>=◌}
use rain_typing_game.Common.Socket.{Outcome}
use rain_typing_game.Server.Receive.{Incoming, message, disconnect, pending, receive_message}
use rain_typing_game.Server.Scores.{Qsort}
use rain_typing_game.Server.Handler.{Server, Session, Handled, Io, handle_message, close_session}
use rain_typing_game.Server.Reply.{
  Sent, sent, send_broken, send_waiting, reply_type, encode_reply, send_response,
}

-- What one round of the loop meets: whether malloc succeeds, the calls of recv, the system calls of
-- the handler, the bytes of the response that nothing writes, and the calls of send.
pub record Round : Type 0 where
  pub mallocs : Bool
  pub receive : List Outcome
  pub io : Io
  pub memory : ℕ → ℕ
  pub send : List Outcome

-- The server and all that was sent when the thread returns, or a thread that still waits after the
-- rounds given, with its session.
pub data Served : Type 0 where
  returned : Server → Bytes → Served
  waits : Server → Session → Bytes → Served

-- `should_disconnect`, or the rest of the loop.
abbrev pub after_send : Server → Session → Bytes → (Bytes → Run Served) → Sent → Run Served
after_send s c out loop (sent bytes outcomes) = loop (out ++ bytes)
after_send s c out loop (send_broken bytes) = ok (returned (close_session s c) (out ++ bytes))
after_send s c out loop send_waiting = ok (waits s c out)

module _ (c_library : Qsort) where
  -- A message, where `loop` is the rest of the loop.
  unfoldable pub serve_message :
      Round
      → Server
      → Session
      → Bytes
      → (Server → Session → Bytes → Bytes → Run Served)
      → Incoming
      → Run Served
  serve_message r s c out loop (message type body stream outcomes) = do
    h ← handle_message c_library r.io s c type body
    after_send h.server h.session out (loop h.server h.session stream)
        (send_response r.send (reply_type h.reply) (encode_reply r.memory h.reply))
  serve_message r s c out loop disconnect = ok (returned (close_session s c) out)
  serve_message r s c out loop pending = ok (waits s c out)

  unfoldable pub handle_client : List Round → Server → Session → Bytes → Bytes → Run Served
  handle_client [] s c stream out = ok (waits s c out)
  handle_client (r ∷ rounds) s c stream out =
      serve_message r s c out (handle_client rounds) (receive_message r.mallocs r.receive stream)
