-- ===== src/Common/MessageType.antt =====
-- The enumeration MessageType of common/include/protocol.h.
use rain_typing_game.Prelude.{ℕ}

abbrev pub error : ℕ
error = 0x00

abbrev pub register_req : ℕ
register_req = 0x01

abbrev pub register_resp : ℕ
register_resp = 0x02

abbrev pub login_req : ℕ
login_req = 0x03

abbrev pub login_resp : ℕ
login_resp = 0x04

abbrev pub score_submit_req : ℕ
score_submit_req = 0x05

abbrev pub score_submit_resp : ℕ
score_submit_resp = 0x06

abbrev pub leaderboard_req : ℕ
leaderboard_req = 0x07

abbrev pub leaderboard_resp : ℕ
leaderboard_resp = 0x08

abbrev pub logout_req : ℕ
logout_req = 0x09

abbrev pub logout_resp : ℕ
logout_resp = 0x0a

abbrev pub wordlist_req : ℕ
wordlist_req = 0x20

abbrev pub wordlist_resp : ℕ
wordlist_resp = 0x21
