-- ===== src/Server/Receive.antt =====
-- recv_all of server/src/server_network.c, and the part of handle_client that receives one message.
pub mod Laws
use rain_typing_game.Prelude.{
  ℕ, zero, suc, ◌+◌, ◌-◌, Bool, true, false, Option, none, some, List, [], ◌∷◌, ◌++◌, Bytes, ltb,
  ◌==◌, if◌then◌else◌, length, take, drop,
}
use rain_typing_game.Common.Message.{decode_header}
use rain_typing_game.Common.Socket.{Outcome, part, interrupted, failed}

-- The bytes with what is left of the stream and of the outcomes, the return value -1, or no result
-- within the outcomes given.
pub data Received : Type 0 where
  received : Bytes → Bytes → List Outcome → Received
  broken waiting : Received

-- The loop: `need` bytes are missing, `buf` has those so far. A call that returns no byte is the end
-- of the connection.
unfoldable pub recv_all : List Outcome → ℕ → Bytes → Bytes → Received
recv_all outcomes zero buf stream = received buf stream outcomes
recv_all [] (suc need) buf stream = waiting
recv_all (interrupted ∷ outcomes) (suc need) buf stream = recv_all outcomes (suc need) buf stream
recv_all (failed ∷ outcomes) (suc need) buf stream = broken
recv_all (part k ∷ outcomes) (suc need) buf stream =
    let chunk = take k (take (suc need) stream) in
    let rest =
      recv_all outcomes (suc need - length chunk) (buf ++ chunk) (drop (length chunk) stream) in
    if length chunk == 0 then broken else rest

abbrev pub header_size : ℕ
header_size = 6

abbrev pub max_body : ℕ
max_body = 10240

-- A message with its type and body, or the end of the connection.
pub data Incoming : Type 0 where
  message : ℕ → Bytes → Bytes → List Outcome → Incoming
  disconnect pending : Incoming

with_body : ℕ → Received → Incoming
with_body type (received body stream outcomes) = message type body stream outcomes
with_body type broken = disconnect
with_body type waiting = pending

-- The body, where malloc may fail.
pub receive_body : Bool → List Outcome → Bytes → Option (ℕ × ℕ) → Incoming
unfolding with_body
receive_body mallocs outcomes stream none = disconnect
receive_body mallocs outcomes stream (some (type, size)) =
    if ltb 0 size
    then (if ltb max_body size
        then disconnect
        else if mallocs
        then with_body type (recv_all outcomes size [] stream)
        else disconnect)
    else message type [] stream outcomes

with_header : Bool → Received → Incoming
with_header mallocs (received header stream outcomes) =
    receive_body mallocs outcomes stream (decode_header header)
with_header mallocs broken = disconnect
with_header mallocs waiting = pending

pub receive_message : Bool → List Outcome → Bytes → Incoming
unfolding with_header receive_body
receive_message mallocs outcomes stream =
    with_header mallocs (recv_all outcomes header_size [] stream)
