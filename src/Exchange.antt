-- ===== src/Exchange.antt =====
-- A request of client/src/client_network.c, the round of handle_client in
-- server/src/server_network.c that serves it, and the answer that the client gets.
pub mod Accounts
use rain_typing_game.Prelude.{
  ℕ, ◌+◌, ◌-◌, ◌%◌, ◌^◌, ◌≤◌, ◌<◌, ◌≡◌, ◌≢◌, refl, sym, ap, subst, ◌∙◌, Bool, true, false, not,
  some, none, Option, List, [], ◌∷◌, ◌++◌, append_assoc, map, Bytes, ◌==◌, leb, if◌then◌else◌,
  length, take, drop, arith, All,
}
use rain_typing_game.Common.Run.{Run, ok, crash}
use rain_typing_game.Common.Message.{encode_header}
use rain_typing_game.Common.MessageType
use rain_typing_game.Common.Socket.{Outcome, part, interrupted, failed, IsSteady, parts, Enough}
use rain_typing_game.Server.Receive.{max_body, message, receive_message}
use rain_typing_game.Server.Receive.Laws.{receive_message_lem}
use rain_typing_game.Server.Scores.{Qsort}
use rain_typing_game.Server.Handler.{Server, Session, Handled, handle_message}
use rain_typing_game.Server.Reply.{sent, reply_type, encode_reply, send_response}
use rain_typing_game.Server.Reply.Laws.{HasRoom, reply_size, length-encode_reply, send_response_lem}
use rain_typing_game.Server.Connection.{
  Round, Served, returned, waits, after_send, serve_message, handle_client,
}
use rain_typing_game.Client.Network.{call, Request, send_request_and_receive_response}
use rain_typing_game.Client.Network.Laws.{quiet, send_request_lem}

-- The bytes of a message.
abbrev pub wire : ℕ → Bytes → Bytes
wire type body = encode_header type (length body % 2 ^ 16) ++ body

-- What the thread of a connection has sent.
abbrev pub sent_by : Run Served → Bytes
sent_by (ok (returned s bytes)) = bytes
sent_by (ok (waits s c bytes)) = bytes
sent_by crash = []

-- The round has malloc succeed, no call of recv or send fail, and enough of them.
pub record IsGood (r : Round) (req : Request) : Type 0 where
  pub mallocs : r.mallocs ≡ true
  pub receives : Enough (6 + length req.body) r.receive
  pub sends : Enough 8202 r.send

reply_size-lt : (h : Handled) → reply_size h.reply ≤ 8196
reply_size-lt h = ground arith

module _ (c_library : Qsort) (r : Round) (s : Server) (c : Session) (req : Request) (h : Handled)
    (good : IsGood r req) (type_fits : req.type < 2 ^ 32) (body_fits : length req.body ≤ max_body)
    (handled : handle_message c_library r.io s c req.type req.body ≡ ok h)
    (room : HasRoom h.reply) where
  -- The bytes of a request with a 32-bit type and a body within the limit, in a round whose
  -- system calls on the socket and malloc succeed, are one round of handle_client: the request is
  -- handled, its answer is sent with the header that describes it, and the rest of the stream is
  -- left, if the handler returns with a leaderboard and a word list within their arrays.
  pub handle_client-request :
      (rounds : List Round) (stream out : Bytes)
      → handle_client c_library (r ∷ rounds) s c (wire req.type req.body ++ stream) out
        ≡ handle_client c_library rounds h.server h.session stream
            (out ++ wire (reply_type h.reply) (encode_reply r.memory h.reply))
  unfolding handle_client serve_message
  handle_client-request rounds stream out =
      let head = encode_header req.type (length req.body % 2 ^ 16) in
      let (outcomes, received) =
        receive_message_lem req.type req.body stream r.receive type_fits body_fits good.receives in
      let whole : length req.body % 2 ^ 16 ≡ length req.body = omega (arith, body_fits) in
      let bytes : (head ++ req.body) ++ stream
          ≡ encode_header req.type (length req.body) ++ (req.body ++ stream) =
        append_assoc head req.body stream
        ∙ ap (λ n. encode_header req.type n ++ (req.body ++ stream)) whole in
      let came : receive_message r.mallocs r.receive ((head ++ req.body) ++ stream)
          ≡ message req.type req.body stream outcomes =
        ap (λ b. receive_message b r.receive ((head ++ req.body) ++ stream)) good.mallocs
        ∙ ap (receive_message true r.receive) bytes
        ∙ received in
      let (left, went) =
        send_response_lem r.send (reply_type h.reply) (encode_reply r.memory h.reply) good.sends
          (omega (arith, length-encode_reply r.memory h.reply room, reply_size-lt h)) in
      ap (serve_message c_library r s c out (handle_client c_library rounds)) came
      ∙ (rw handled (
          ap
            (after_send h.server h.session out
              (handle_client c_library rounds h.server h.session stream))
            went))

  -- The same, as what the client reads.
  answer_read :
      (os : List Outcome) (rest : Bytes)
      → Enough (12 + length req.body + reply_size h.reply) os
      → reply_type h.reply ≡ req.expected_resp_type
      → req.expected_resp_type < 2 ^ 32
      → req.expected_resp_type ≢ MessageType.error
      → reply_size h.reply ≤ req.response_body_max_len
      → send_request_and_receive_response true quiet req
          (map call os)
          (wire (reply_type h.reply) (encode_reply r.memory h.reply) ++ rest)
        ≡ some (record {
          code = 0;
          connected = true;
          body = encode_reply r.memory h.reply;
          stream = rest;
        })
  answer_read os rest (steady, enough) expected t e fits =
      let body = encode_reply r.memory h.reply in
      let size = length-encode_reply r.memory h.reply room in
      let whole : length body % 2 ^ 16 ≡ length body = omega (arith, size, reply_size-lt h) in
      let small : leb (length body) req.response_body_max_len ≡ true = ground (arith, size, fits) in
      ap (send_request_and_receive_response true quiet req (map call os)) (
        append_assoc (encode_header (reply_type h.reply) (length body % 2 ^ 16)) body rest
        ∙ ap (λ n. encode_header (reply_type h.reply) n ++ (body ++ rest)) whole
        ∙ ap (λ n. encode_header n (length body) ++ (body ++ rest)) expected)
      ∙ send_request_lem req os body rest (steady, omega (arith, enough, size)) t e
          (omega (arith, size, reply_size-lt h))
      ∙ (rw small)

  -- For a request with a 32-bit type and a body within the limit, in a round of handle_client
  -- whose system calls on the socket and malloc succeed, where the handler returns an answer
  -- within its arrays: from the bytes that handle_client sends, with any bytes behind them,
  -- send_request_and_receive_response returns the answer as the body, with code 0 and the
  -- connection open, and leaves the bytes behind them, if the client sees no signal, its calls of
  -- send and recv do not fail and are enough, the answer has the type that the request expects,
  -- which is not the error type, and fits its buffer.
  pub exchange :
      (os : List Outcome) (stream rest : Bytes)
      → Enough (12 + length req.body + reply_size h.reply) os
      → reply_type h.reply ≡ req.expected_resp_type
      → req.expected_resp_type < 2 ^ 32
      → req.expected_resp_type ≢ MessageType.error
      → reply_size h.reply ≤ req.response_body_max_len
      → send_request_and_receive_response true quiet req (map call os) (
          sent_by (handle_client c_library (r ∷ []) s c (wire req.type req.body ++ stream) [])
          ++ rest)
        ≡ some (record {
          code = 0;
          connected = true;
          body = encode_reply r.memory h.reply;
          stream = rest;
        })
  unfolding handle_client
  exchange os stream rest enough expected t e fits =
      ap
        (λ served.
          send_request_and_receive_response true quiet req (map call os) (sent_by served ++ rest))
        (handle_client-request [] stream [])
      ∙ answer_read os rest enough expected t e fits
