-- ===== src/Server/Reply.antt =====
-- send_all and send_response of server/src/server_network.c, with the structs of
-- common/include/protocol.h that a response is.
pub mod Laws
use rain_typing_game.Prelude.{
  ℕ, zero, suc, ◌+◌, ◌-◌, ◌*◌, ◌%◌, ◌^◌, Bool, true, false, Option, none, some, List, [], ◌∷◌, ◌++◌,
  Bytes, ◌==◌, if◌then◌else◌, length, take, drop, str_copy, ℤ, pos, negsuc,
}
use rain_typing_game.Common.Protocol.{
  max_id_len, max_msg_len, max_leaderboard_entries, max_wordlist_words, max_word_str_len, Response,
  LeaderboardEntry,
}
use rain_typing_game.Common.MessageType
use rain_typing_game.Common.Message.{encode_header, encode_int}
use rain_typing_game.Common.Socket.{Outcome, part, interrupted, failed}
use rain_typing_game.Server.Handler.{Reply, response, leaderboard, wordlist_reply, error_reply}

-- The return value 0 with the bytes that went out and the outcomes that are left, -1 with the bytes
-- that went out, or no result within the outcomes given.
pub data Sent : Type 0 where
  sent : Bytes → List Outcome → Sent
  send_broken : Bytes → Sent
  send_waiting : Sent

-- The loop; `out` has what went out so far.
pub send_all : List Outcome → Bytes → Bytes → Sent
send_all outcomes out [] = sent out outcomes
send_all [] out (b ∷ buf) = send_waiting
send_all (interrupted ∷ outcomes) out (b ∷ buf) = send_all outcomes out (b ∷ buf)
send_all (failed ∷ outcomes) out (b ∷ buf) = send_broken out
send_all (part k ∷ outcomes) out (b ∷ buf) =
    let rest = send_all outcomes (out ++ take k (b ∷ buf)) (drop k (b ∷ buf)) in
    if k == 0 then send_broken out else rest

-- Bytes of a struct that nothing has written: `memory i` is what lies at the offset `i`.
pub unwritten : (ℕ → ℕ) → ℕ → ℕ → Bytes
unwritten memory i zero = []
unwritten memory i (suc n) = memory i ∷ unwritten memory (suc i) n

-- `char field[n]` at an offset: a string, its zero, and what `memory` has behind it, which is what
-- was there before, or zeros where strncpy wrote the string.
pub text_field : (ℕ → ℕ) → ℕ → ℕ → Bytes → Bytes
text_field memory i n s =
    let kept = str_copy n s in
    kept ++ (0 ∷ unwritten memory (i + length kept + 1) (n - 1 - length kept))

abbrev of_success : Bool → ℤ
of_success true = pos 1
of_success false = pos 0

-- RegisterResponse and the structs like it.
pub encode_response : (ℕ → ℕ) → Response → Bytes
encode_response memory resp =
    encode_int (of_success resp.success) ++ text_field memory 4 max_msg_len resp.message

abbrev entry_size : ℕ
entry_size = max_id_len + 4

encode_entries : (ℕ → ℕ) → ℕ → List LeaderboardEntry → Bytes
encode_entries memory i [] = []
encode_entries memory i (e ∷ entries) =
    text_field memory i max_id_len e.username
    ++ (encode_int e.score ++ encode_entries memory (i + entry_size) entries)

-- `count` entries, the others and the message as they were; the count is -1 for `none`.
pub encode_leaderboard : (ℕ → ℕ) → Option (List LeaderboardEntry) → Bytes
unfolding encode_entries
encode_leaderboard memory none =
    encode_int (negsuc 0) ++ unwritten memory 4 (max_leaderboard_entries * entry_size + max_msg_len)
encode_leaderboard memory (some entries) =
    encode_int (pos (length entries))
    ++ (encode_entries memory 4 entries
        ++ unwritten memory (4 + length entries * entry_size)
            ((max_leaderboard_entries - length entries) * entry_size + max_msg_len))

encode_words : (ℕ → ℕ) → ℕ → List Bytes → Bytes
encode_words memory i [] = []
encode_words memory i (w ∷ words) =
    text_field memory i max_word_str_len w ++ encode_words memory (i + max_word_str_len) words

-- WordListResponse
pub encode_wordlist : (ℕ → ℕ) → List Bytes → Bytes
unfolding encode_words
encode_wordlist memory words =
    encode_int (pos (length words))
    ++ (encode_words memory 4 words
        ++ unwritten memory (4 + length words * max_word_str_len)
            ((max_wordlist_words - length words) * max_word_str_len))

-- The type and the struct of a reply.
abbrev pub reply_type : Reply → ℕ
reply_type (response type resp) = type
reply_type (leaderboard entries) = MessageType.leaderboard_resp
reply_type (wordlist_reply words) = MessageType.wordlist_resp
reply_type (error_reply text) = MessageType.error

abbrev pub encode_reply : (ℕ → ℕ) → Reply → Bytes
encode_reply memory (response type resp) = encode_response memory resp
encode_reply memory (leaderboard entries) = encode_leaderboard memory entries
encode_reply memory (wordlist_reply words) = encode_wordlist memory words
encode_reply memory (error_reply text) = text_field memory 0 max_msg_len text

send_body : Bytes → Sent → Sent
send_body response_data (sent out outcomes) = send_all outcomes out response_data
send_body response_data r = r

pub send_response : List Outcome → ℕ → Bytes → Sent
unfolding send_body
send_response outcomes msg_type response_data =
    send_body response_data
      (send_all outcomes [] (encode_header msg_type (length response_data % 2 ^ 16)))
