-- ===== src/Examples/Wire.antt =====
-- A request and its answer.
use rain_typing_game.Prelude.{
  ◌+◌, ◌≡◌, true, some, List, [], ◌++◌, utf8, length, replicate, arith, map, leb, if◌then◌else◌,
}
use rain_typing_game.Common.Message.{encode_header}
use rain_typing_game.Client.Network.{call, send_request_and_receive_response}
use rain_typing_game.Client.Network.Laws.{quiet, send_request_lem}
use rain_typing_game.Client.Network.Requests.{logout_request}
use rain_typing_game.Common.MessageType
use rain_typing_game.Common.Socket.{Outcome, part, Enough, parts}

-- Calls that move 50 bytes each.
abbrev many : List Outcome
many = replicate 200 (part 50)

few-Enough : Enough (12 + 0 + 2) many
unfolding parts
few-Enough = ground arith

send_request_lem_example :
    send_request_and_receive_response true quiet logout_request
      (map call many)
      (encode_header MessageType.logout_resp (length (utf8 "ok")) ++ (utf8 "ok" ++ []))
    ≡ some (
        if leb (length (utf8 "ok")) logout_request.response_body_max_len
        then record { code = 0; connected = true; body = utf8 "ok"; stream = [] }
        else record { code = 6; connected = true; body = []; stream = utf8 "ok" ++ [] })
send_request_lem_example =
    send_request_lem logout_request many (utf8 "ok") [] few-Enough (omega arith)
      (λ e. omega (arith, e)) (omega arith)
