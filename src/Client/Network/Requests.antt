-- ===== src/Client/Network/Requests.antt =====
-- The requests of client/src/client_network.c, with the sizes of the structs that take the response.
use rain_typing_game.Prelude.{
  Bool, ℕ, ◌+◌, ◌*◌, ◌%◌, ◌^◌, ◌<◌, ◌≡◌, sym, subst, true, some, List, [], ◌++◌, Bytes, length,
  Lacks, ℤ, arith,
}
use rain_typing_game.Common.MessageType
use rain_typing_game.Common.Protocol.{
  max_id_len, max_pw_len, max_msg_len, max_leaderboard_entries, max_wordlist_words,
  max_word_str_len,
}
use rain_typing_game.Common.Run.{ok}
use rain_typing_game.Common.Message.{
  encode_header, encode_credentials, decode_credentials, decode-encode_credentials,
  length-encode_credentials, encode_int,
}
use rain_typing_game.Common.Socket.{Outcome, Enough}
use rain_typing_game.Server.Receive.{message, receive_message}
use rain_typing_game.Server.Receive.Laws.{receive_message_lem}
use rain_typing_game.Client.Network.{Request}

-- `int success` and the message
abbrev response_size : ℕ
response_size = 4 + max_msg_len

abbrev pub register_request : Bytes → Bytes → Request
register_request username password = record {
  type = MessageType.register_req;
  body = encode_credentials username password;
  expected_resp_type = MessageType.register_resp;
  response_body_max_len = response_size;
}

abbrev pub login_request : Bytes → Bytes → Request
login_request username password = record {
  type = MessageType.login_req;
  body = encode_credentials username password;
  expected_resp_type = MessageType.login_resp;
  response_body_max_len = response_size;
}

abbrev pub score_submit_request : ℤ → Request
score_submit_request score = record {
  type = MessageType.score_submit_req;
  body = encode_int score;
  expected_resp_type = MessageType.score_submit_resp;
  response_body_max_len = response_size;
}

abbrev pub leaderboard_request : Request
leaderboard_request = record {
  type = MessageType.leaderboard_req;
  body = [];
  expected_resp_type = MessageType.leaderboard_resp;
  response_body_max_len = 4 + max_leaderboard_entries * (max_id_len + 4) + max_msg_len;
}

abbrev pub logout_request : Request
logout_request = record {
  type = MessageType.logout_req;
  body = [];
  expected_resp_type = MessageType.logout_resp;
  response_body_max_len = response_size;
}

abbrev pub wordlist_request : Request
wordlist_request = record {
  type = MessageType.wordlist_req;
  body = [];
  expected_resp_type = MessageType.wordlist_resp;
  response_body_max_len = 4 + max_wordlist_words * max_word_str_len;
}

-- The login request of a client, for a name and a password without zero bytes that fit their
-- fields, is received by the server with its type and body if no call of recv fails and there are
-- enough, and the server reads the name and the password from it.
login_request_lem :
    (username password rest : Bytes) (os : List Outcome)
    → Lacks 0 username
    → Lacks 0 password
    → length username < max_id_len
    → length password < max_pw_len
    → Enough 110 os
    → let req = login_request username password in
      (os' : List Outcome) × (receive_message true os
          (encode_header req.type (length req.body % 2 ^ 16) ++ (req.body ++ rest))
        ≡ message MessageType.login_req req.body rest os')
      × ((reads_past : Bytes → Bytes → Bool)
          → decode_credentials reads_past req.body ≡ ok (some username, some password))
login_request_lem username password rest os l m h k (s, n) =
    let body = encode_credentials username password in
    let size = length-encode_credentials username password in
    let wrapped : length body % 2 ^ 16 ≡ length body = omega (arith, size) in
    let (os', r) =
      receive_message_lem MessageType.login_req body rest os (omega arith) (omega (arith, size))
        (s, omega (arith, n, size)) in
    (
      os',
      subst
          (λ k.
            receive_message true os (encode_header MessageType.login_req k ++ (body ++ rest))
            ≡ message MessageType.login_req body rest os')
          (sym wrapped) r,
      (λ reads_past. decode-encode_credentials reads_past username password l m h k),
    )
