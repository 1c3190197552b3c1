-- ===== src/Server/Connection/Laws.antt =====
-- A connection that is served from its first message to its end.
use rain_typing_game.Prelude.{ℕ, ◌≡◌, refl, List, [], ◌∷◌, ◌++◌, Bytes}
use rain_typing_game.Common.Run.{Run, ok, crash, ◌>>=◌, Ensures}
use rain_typing_game.Server.Receive.{Incoming, message, disconnect, pending}
use rain_typing_game.Server.Scores.{Qsort}
use rain_typing_game.Server.Online.Laws.{IsUnique}
use rain_typing_game.Server.Handler.{Server, Session, Handled, handle_message, close_session}
use rain_typing_game.Server.Handler.Laws.{handle_message-IsUnique, close_session-IsUnique}
use rain_typing_game.Server.Reply.{
  Sent, sent, send_broken, send_waiting, reply_type, encode_reply, send_response,
}
use rain_typing_game.Server.Connection.{
  Round, Served, returned, waits, after_send, serve_message, handle_client,
}
use rain_typing_game.Server.System.{
  Connection, System, at_rest, among, handle, close, Reaches, start, next,
}

module _ (P : Server → Session → Type 0) where
  -- What holds of the server and the session, or of the server that the end of the session leaves.
  abbrev pub Holds : (Server → Type 0) → Served → Type 0
  Holds Q (returned s bytes) = Q s
  Holds Q (waits s c bytes) = P s c

module _ (c_library : Qsort) (P : Server → Session → Type 0) (Q : Server → Type 0)
    (handled : (r : Round) (s : Server) (c : Session) (type : ℕ) (body : Bytes)
      → P s c
      → Ensures (λ h. P h.server h.session) (handle_message c_library r.io s c type body))
    (closed : (s : Server) (c : Session) → P s c → Q (close_session s c)) where
  after_send-Holds :
      (s : Server) (c : Session) (out : Bytes) (loop : Bytes → Run Served) (r : Sent)
      → P s c
      → ((bytes : Bytes) → Ensures (Holds P Q) (loop bytes))
      → Ensures (Holds P Q) (after_send s c out loop r)
  after_send-Holds s c out loop (sent bytes outcomes) p k = k (out ++ bytes)
  after_send-Holds s c out loop (send_broken bytes) p k = closed s c p
  after_send-Holds s c out loop send_waiting p k = p

  serve_message-Holds :
      (r : Round) (s : Server) (c : Session) (out : Bytes)
      (loop : Server → Session → Bytes → Bytes → Run Served) (i : Incoming)
      → P s c
      → ((s' : Server) (c' : Session) (stream out' : Bytes)
          → P s' c'
          → Ensures (Holds P Q) (loop s' c' stream out'))
      → Ensures (Holds P Q) (serve_message c_library r s c out loop i)
  unfolding serve_message
  serve_message-Holds r s c out loop (message type body stream outcomes) p k =
      then_sent (handle_message c_library r.io s c type body) (handled r s c type body p)
    where
      then_sent :
          (m : Run Handled)
          → Ensures (λ h. P h.server h.session) m
          → Ensures (Holds P Q) (
              m >>= λ h.
              after_send h.server h.session out
                (loop h.server h.session stream)
                (send_response r.send (reply_type h.reply) (encode_reply r.memory h.reply)))
      then_sent (ok h) q =
          after_send-Holds h.server h.session out (loop h.server h.session stream) _ q
            (λ bytes. k h.server h.session stream bytes q)
      then_sent crash q = tt
  serve_message-Holds r s c out loop disconnect p k = closed s c p
  serve_message-Holds r s c out loop pending p k = p

  -- The rule of the loop: what every message keeps and the end of a session turns into `Q`.
  pub handle_client-Holds :
      (rounds : List Round) (s : Server) (c : Session) (stream out : Bytes)
      → P s c
      → Ensures (Holds P Q) (handle_client c_library rounds s c stream out)
  unfolding handle_client
  handle_client-Holds [] s c stream out p = p
  handle_client-Holds (r ∷ rounds) s c stream out p =
      serve_message-Holds r s c out (handle_client c_library rounds) _ p
        (λ s' c' stream' out' q. handle_client-Holds rounds s' c' stream' out' q)

-- If no user has two sessions, then no user has two after any number of rounds of handle_client,
-- whatever bytes arrive and whatever the system calls do, and none behind the end of the
-- connection, unless a handler reads outside a message body.
pub handle_client-IsUnique :
    (c_library : Qsort) (rounds : List Round) (s : Server) (c : Session) (stream : Bytes)
    → IsUnique s.logged_in
    → Ensures
        (Holds (λ s' c'. IsUnique s'.logged_in) (λ s'. IsUnique s'.logged_in))
        (handle_client c_library rounds s c stream [])
handle_client-IsUnique c_library rounds s c stream unique =
    handle_client-Holds c_library (λ s' c'. IsUnique s'.logged_in) (λ s'. IsUnique s'.logged_in)
      (λ r s' c' type body u. handle_message-IsUnique c_library r.io s' c' type body u)
      (λ s' c' u. close_session-IsUnique s' c' u) rounds s c stream [] unique

module _ (c_library : Qsort) (before after : List Connection) (from : System) where
  handled-Reaches :
      (r : Round) (s : Server) (c : Session) (type : ℕ) (body : Bytes)
      → Reaches c_library from (among s before (at_rest c ∷ []) after)
      → Ensures
          (λ h. Reaches c_library from (among h.server before (at_rest h.session ∷ []) after))
          (handle_message c_library r.io s c type body)
  handled-Reaches r s c type body reached =
      then_reached (handle_message c_library r.io s c type body) refl
    where
      then_reached :
          (m : Run Handled)
          → handle_message c_library r.io s c type body ≡ m
          → Ensures
              (λ h. Reaches c_library from (among h.server before (at_rest h.session ∷ []) after))
              m
      then_reached (ok h) e = next reached (handle s before after c r.io type body h refl e refl)
      then_reached crash e = tt

-- What handle_client does with the bytes of a connection, whatever they are and whatever the
-- system calls do, is a sequence of steps of the system: its messages, and the end of the
-- connection if it returns; unless a handler reads outside a message body.
pub handle_client-Reaches :
    (c_library : Qsort) (rounds : List Round) (s : Server) (c : Session) (stream : Bytes)
    (before after : List Connection)
    → let from = among s before (at_rest c ∷ []) after in
      Ensures
        (Holds
          (λ s' c'. Reaches c_library from (among s' before (at_rest c' ∷ []) after))
          (λ s'. Reaches c_library from (among s' before [] after)))
        (handle_client c_library rounds s c stream [])
handle_client-Reaches c_library rounds s c stream before after =
    let from = among s before (at_rest c ∷ []) after in
    handle_client-Holds c_library
      (λ s' c'. Reaches c_library from (among s' before (at_rest c' ∷ []) after))
      (λ s'. Reaches c_library from (among s' before [] after))
      (handled-Reaches c_library before after from)
      (λ s' c' reached. next reached (close s' before after c' refl refl)) rounds s c stream []
      start
