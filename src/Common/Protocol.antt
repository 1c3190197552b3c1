-- ===== src/Common/Protocol.antt =====
-- common/include/protocol.h: the limits.
use rain_typing_game.Prelude.{ℕ, Bool, Bytes, ℤ}

abbrev pub max_id_len : ℕ
max_id_len = 32

abbrev pub max_pw_len : ℕ
max_pw_len = 72

abbrev pub max_msg_len : ℕ
max_msg_len = 128

abbrev pub max_leaderboard_entries : ℕ
max_leaderboard_entries = 10

-- RegisterResponse, LoginResponse, ScoreSubmitResponse and LogoutResponse; `success` is 1 or 0.
pub record Response : Type 0 where
  pub success : Bool
  pub message : Bytes

pub record LeaderboardEntry : Type 0 where
  pub username : Bytes
  pub score : ℤ

abbrev pub max_wordlist_words : ℕ
max_wordlist_words = 256

abbrev pub max_word_str_len : ℕ
max_word_str_len = 32
