-- ===== src/Server/Handler.antt =====
-- handle_client of server/src/server_network.c: what one message does to the server and to the
-- session of its connection, and what the end of the connection does.
pub mod Laws
pub mod Stranded
pub mod Frame
pub mod Slots
pub mod Requests
use rain_typing_game.Prelude.{
  ℕ, zero, suc, Bool, true, false, not, ◌&&◌, ◌||◌, Option, none, some, List, [], ◌∷◌, ◌++◌, Bytes,
  ltb, ◌==◌, if◌then◌else◌, length, str_copy, utf8, ℤ, pos,
}
use rain_typing_game.Common.Protocol.{
  max_msg_len, max_leaderboard_entries, Response, LeaderboardEntry,
}
use rain_typing_game.Common.Decimal.{print_int, of_word}
use rain_typing_game.Common.Run.{Run, ok, crash, ◌>>=◌}
use rain_typing_game.Common.Message.{decode_credentials, decode_int}
use rain_typing_game.Common.MessageType
use rain_typing_game.Server.Db.Files.{File, ReadIo, WriteIo}
use rain_typing_game.Server.Db.Users.{FindUser, found, not_found, db_error, find_user_in_file}
use rain_typing_game.Server.Auth.{AuthIo, register_user_impl, login_user_impl}
use rain_typing_game.Server.Scores.{Qsort, submit_score_impl, get_leaderboard_impl}
use rain_typing_game.Server.Online.{
  LoggedInUser, is_user_already_logged_in, add_logged_in_user, remove_logged_in_user,
}

-- The state that all connections share.
pub record Server : Type 0 where
  pub users : File
  pub scores : File
  pub logged_in : List LoggedInUser
  pub wordlist : List Bytes

-- The state of one connection: the variables `client_sock` and `current_user`.
pub record Session : Type 0 where
  pub client_sock : ℕ
  pub current_user : Bytes

-- A response: `none` among the leaderboards is the count -1.
pub data Reply : Type 0 where
  response : ℕ → Response → Reply
  leaderboard : Option (List LeaderboardEntry) → Reply
  wordlist_reply : List Bytes → Reply
  error_reply : Bytes → Reply

pub record Handled : Type 0 where
  pub server : Server
  pub session : Session
  pub reply : Reply

-- The system calls that handling one message makes.
pub record Io : Type 0 where
  pub auth : AuthIo
  pub scores_read : ReadIo
  pub scores_write : WriteIo

abbrev reply_text : Bool → Bytes → Response
reply_text success text = record { success = success; message = str_copy max_msg_len text }

-- case MSG_TYPE_REGISTER_REQ
registered : Server → Session → File × Response → Handled
registered s c (users, resp) = record {
  server = record s { users = users };
  session = c;
  reply = response MessageType.register_resp resp;
}

handle_register : Io → Server → Session → Option Bytes × Option Bytes → Handled
unfolding registered
handle_register io s c (username, password) =
    registered s c (register_user_impl io.auth s.users username password)

-- case MSG_TYPE_LOGIN_REQ, where the user has a session already
abbrev pub login_reply : Response → Reply
login_reply = response MessageType.login_resp

pub refuse_login : Server → Session → Handled
refuse_login s c = record {
  server = s;
  session = c;
  reply = login_reply (reply_text false (utf8 "이 ID는 이미 다른 세션에서 로그인 중입니다."));
}

-- … and where the table took the user, or had no slot
pub enter_login : Server → Session → Response → Bytes → List LoggedInUser × Bool → Handled
enter_login s c resp user (slots, true) = record {
  server = record s { logged_in = slots };
  session = record c { current_user = user };
  reply = login_reply resp;
}
enter_login s c resp user (slots, false) = record {
  server = record s { logged_in = slots };
  session = record c { current_user = [] };
  reply = login_reply (reply_text false (utf8 "서버 로그인 제한에 도달했습니다. 나중에 다시 시도하세요."));
}

-- The second half of a login, behind the look into the table: `login_user_impl` and what follows.
pub finish_login : Server → Session → Response × Bytes → Handled
finish_login s c (resp, user) =
    if resp.success
    then enter_login s c resp user (add_logged_in_user s.logged_in user c.client_sock)
    else record { server = s; session = record c { current_user = [] }; reply = login_reply resp }

pub check_login : ReadIo → Server → Session → Option Bytes → Option Bytes → Option ℕ → Handled
check_login io s c username password (some slot) = refuse_login s c
check_login io s c username password none =
    finish_login s c (login_user_impl io s.users username password)

any_active : List LoggedInUser → Bool
any_active [] = false
any_active (slot ∷ slots) = slot.is_active || any_active slots

-- `strcmp` with a NULL name is reached if a slot is active.
is_prefix : Bytes → Bytes → Bool
is_prefix [] ys = true
is_prefix (x ∷ xs) [] = false
is_prefix (x ∷ xs) (y ∷ ys) = x == y && is_prefix xs ys

-- register_user_impl takes the length of both strings, but of the name only where that is empty.
pub register_reads_past : Bytes → Bytes → Bool
register_reads_past username rest = not (length username == 0)

-- `strcmp(user_from_db.password, hashed_password)` goes on as long as the bytes are the same.
compares_past : Bytes → FindUser → Bool
unfolding is_prefix
compares_past rest (found user) = is_prefix rest user.password
compares_past rest not_found = false
compares_past rest db_error = false

password_past : ReadIo → Server → Bytes → Bytes → Option ℕ → Bool
unfolding compares_past
password_past io s username rest (some slot) = false
password_past io s username rest none = compares_past rest (find_user_in_file io s.users username)

-- A login compares the password where the name has no session and a record is found for it.
pub login_reads_past : ReadIo → Server → Bytes → Bytes → Bool
unfolding password_past
login_reads_past io s username rest =
    password_past io s username rest (is_user_already_logged_in s.logged_in username)

pub handle_login : ReadIo → Server → Session → Option Bytes × Option Bytes → Run Handled
unfolding any_active check_login
handle_login io s c (none, password) =
    if any_active s.logged_in then crash else ok (check_login io s c none password none)
handle_login io s c (some username, password) =
    ok
      (check_login io s c (some username) password (is_user_already_logged_in s.logged_in username))

-- case MSG_TYPE_SCORE_SUBMIT_REQ
submitted : Server → Session → File × Response → Handled
submitted s c (scores, resp) = record {
  server = record s { scores = scores };
  session = c;
  reply = response MessageType.score_submit_resp resp;
}

pub handle_score : WriteIo → Server → Session → Bytes → Run Handled
unfolding submitted
handle_score io s c body =
    if length c.current_user == 0
    then ok
        (submitted s c (s.scores, reply_text false (utf8 "Not logged in. Cannot submit score.")))
    else do
      score ← decode_int body
      ok (submitted s c (submit_score_impl io s.scores (some c.current_user) score))

-- case MSG_TYPE_LOGOUT_REQ
pub handle_logout : Server → Session → Handled
handle_logout s c =
    if ltb 0 (length c.current_user)
    then record {
      server = record s { logged_in = remove_logged_in_user s.logged_in c.current_user };
      session = record c { current_user = [] };
      reply = response MessageType.logout_resp (reply_text true (utf8 "Logged out successfully."));
    }
    else record {
      server = s;
      session = c;
      reply =
          response MessageType.logout_resp
            (reply_text false (utf8 "Not logged in, cannot log out."));
    }

-- `header.type` as an `int`
abbrev unchanged : Server → Session → Reply → Handled
unchanged s c r = record { server = s; session = c; reply = r }

module _ (c_library : Qsort) where
  -- The switch.
  unfoldable pub handle_message : Io → Server → Session → ℕ → Bytes → Run Handled
  unfolding handle_register
  handle_message io s c type body =
      if type == MessageType.register_req
      then (decode_credentials register_reads_past body >>= λ req. ok (handle_register io s c req))
      else if type == MessageType.login_req
      then (decode_credentials (login_reads_past io.auth.read s) body
          >>= handle_login io.auth.read s c)
      else if type == MessageType.score_submit_req
      then handle_score io.scores_write s c body
      else if type == MessageType.leaderboard_req
      then ok (
          unchanged s c (
            leaderboard
              (get_leaderboard_impl c_library io.scores_read s.scores max_leaderboard_entries)))
      else if type == MessageType.wordlist_req
      then ok (unchanged s c (wordlist_reply s.wordlist))
      else if type == MessageType.logout_req
      then ok (handle_logout s c)
      else ok (
          unchanged s c (
            error_reply (
              str_copy max_msg_len
                (utf8 "Unknown or unsupported message type: " ++ print_int (of_word type)))))

-- The end of handle_client.
pub close_session : Server → Session → Server
close_session s c =
    if ltb 0 (length c.current_user)
    then record s { logged_in = remove_logged_in_user s.logged_in c.current_user }
    else s
