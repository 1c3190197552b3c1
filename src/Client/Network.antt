-- ===== src/Client/Network.antt =====
-- client/src/client_network.c: send_all, recv_all and send_request_and_receive_response.
pub mod Laws
pub mod Requests
use rain_typing_game.Prelude.{
  ℕ, zero, suc, ◌+◌, ◌-◌, ◌/◌, ◌%◌, ◌^◌, Bool, true, false, not, ◌&&◌, Option, none, some, List, [],
  ◌∷◌, ◌++◌, Bytes, ltb, leb, ◌==◌, if◌then◌else◌, length, take, drop,
}
use rain_typing_game.Common.MessageType
use rain_typing_game.Common.Protocol.{max_msg_len}
use rain_typing_game.Common.Message.{encode_header, decode_header}
use rain_typing_game.Common.Socket.{Outcome, part, interrupted, failed}

-- One round of a loop: `sigint_received` is set, or a call is made.
pub data Event : Type 0 where
  signalled : Event
  call : Outcome → Event

-- The result 0, with the events that are left, the results -1 and -10, or no result within the
-- events given.
pub data Sent : Type 0 where
  sent : List Event → Sent
  send_broken send_stopped send_waiting : Sent

pub send_all : List Event → Bytes → Sent
send_all events [] = sent events
send_all [] (b ∷ buf) = send_waiting
send_all (signalled ∷ events) (b ∷ buf) = send_stopped
send_all (call interrupted ∷ events) (b ∷ buf) = send_all events (b ∷ buf)
send_all (call failed ∷ events) (b ∷ buf) = send_broken
send_all (call (part k) ∷ events) (b ∷ buf) =
    let rest = send_all events (drop k (b ∷ buf)) in if k == 0 then send_broken else rest

-- The same of recv_all, with the bytes and what is left of the stream.
pub data Received : Type 0 where
  received : Bytes → Bytes → List Event → Received
  broken stopped : Bytes → Received
  waiting : Received

unfoldable pub recv_all : List Event → ℕ → Bytes → Bytes → Received
recv_all events zero buf stream = received buf stream events
recv_all [] (suc need) buf stream = waiting
recv_all (signalled ∷ events) (suc need) buf stream = stopped stream
recv_all (call interrupted ∷ events) (suc need) buf stream = recv_all events (suc need) buf stream
recv_all (call failed ∷ events) (suc need) buf stream = broken stream
recv_all (call (part k) ∷ events) (suc need) buf stream =
    let chunk = take k (take (suc need) stream) in
    let rest =
      recv_all events (suc need - length chunk) (buf ++ chunk) (drop (length chunk) stream) in
    if length chunk == 0 then broken stream else rest

-- What `sigint_received` is at the tests between the calls.
pub record Signals : Type 0 where
  pub at_start : Bool
  pub after_header : Bool
  pub after_body : Bool
  pub after_response : Bool

-- A request that is to be made: its type and body, and what is expected.
pub record Request : Type 0 where
  pub type : ℕ
  pub body : Bytes
  pub expected_resp_type : ℕ
  pub response_body_max_len : ℕ

-- The negated return value, whether the client is still connected, the body that was received, and
-- what is left of the stream.
pub record Answer : Type 0 where
  pub code : ℕ
  pub connected : Bool
  pub body : Bytes
  pub stream : Bytes

abbrev answer : ℕ → Bool → Bytes → Bytes → Option Answer
answer code connected body stream =
    some (record { code = code; connected = connected; body = body; stream = stream })

-- The body of a response; `none` is no result within the events given.
body_answer : Received → Option Answer
body_answer (received body stream events) = answer 0 true body stream
body_answer (broken stream) = answer 3 false [] stream
body_answer (stopped stream) = answer 3 false [] stream
body_answer waiting = none

-- MSG_TYPE_ERROR: the text, if it was received; a failure is not looked at.
error_answer : Received → Option Answer
error_answer (received text stream events) = answer 4 true text stream
error_answer (broken stream) = answer 4 true [] stream
error_answer (stopped stream) = answer 4 true [] stream
error_answer waiting = none

-- A response of another type is read in pieces of 1024 bytes: the full ones, then the rest.
discard : ℕ → ℕ → List Event → Bytes → Received
discard zero remaining events stream = recv_all events remaining [] stream
discard (suc pieces) remaining events stream = elim (recv_all events 1024 [] stream) [
  | received piece stream' events' ↦ discard pieces remaining events' stream'
  | r ↦ r
]

discard_answer : Received → Option Answer
discard_answer (received piece stream events) = answer 5 true [] stream
discard_answer (broken stream) = answer 5 false [] stream
discard_answer (stopped stream) = answer 5 false [] stream
discard_answer waiting = none

-- The response behind its header.
pub receive_response : Request → List Event → Bytes → Option (ℕ × ℕ) → Option Answer
unfolding body_answer error_answer discard discard_answer
receive_response req events stream none = none
receive_response req events stream (some (type, size)) =
    if type == MessageType.error
    then (if ltb 0 size && leb size max_msg_len
        then error_answer (recv_all events size [] stream)
        else answer 4 true [] stream)
    else if not (type == req.expected_resp_type)
    then discard_answer (discard (size / 1024) (size % 1024) events stream)
    else if ltb req.response_body_max_len size
    then answer 6 true [] stream
    else body_answer (recv_all events size [] stream)

header_answer : Signals → Request → Received → Option Answer
header_answer s req (received header stream events) =
    if s.after_response
    then answer 10 true [] stream
    else receive_response req events stream (decode_header header)
header_answer s req (broken stream) = answer 3 false [] stream
header_answer s req (stopped stream) = answer 3 false [] stream
header_answer s req waiting = none

after_body : Signals → Request → Bytes → Sent → Option Answer
unfolding header_answer
after_body s req stream (sent events) =
    if s.after_body
    then answer 10 true [] stream
    else header_answer s req (recv_all events 6 [] stream)
after_body s req stream send_waiting = none
after_body s req stream _ = answer 2 false [] stream

after_header : Signals → Request → Bytes → Sent → Option Answer
unfolding after_body
after_header s req stream (sent events) =
    if s.after_header
    then answer 10 true [] stream
    else after_body s req stream (send_all events req.body)
after_header s req stream send_waiting = none
after_header s req stream _ = answer 2 false [] stream

pub send_request_and_receive_response :
    Bool → Signals → Request → List Event → Bytes → Option Answer
unfolding after_header
send_request_and_receive_response connected s req events stream =
    if not connected
    then answer 1 false [] stream
    else if s.at_start
    then answer 10 true [] stream
    else after_header s req stream
        (send_all events (encode_header req.type (length req.body % 2 ^ 16)))
