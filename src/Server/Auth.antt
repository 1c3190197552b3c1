-- ===== src/Server/Auth.antt =====
-- server/src/auth_manager.c: registration and login against the users file. A `const char*` that may
-- be NULL is an `Option`.
pub mod Laws
pub mod Login
pub mod Accounts
pub mod Race
pub mod Colon
use rain_typing_game.Prelude.{
  ℕ, Bool, true, false, ◌||◌, Option, none, some, List, [], ◌∷◌, ◌++◌, Bytes, ltb, leb, ◌==◌,
  if◌then◌else◌, length, str_copy, str_eq, utf8,
}
use rain_typing_game.Common.Protocol.{max_id_len, max_pw_len, max_msg_len, Response}
use rain_typing_game.Server.Db.Files.{File, ReadIo, WriteIo}
use rain_typing_game.Server.Db.Users.{
  UserData, FindUser, found, not_found, db_error, find_user_in_file, add_user_to_file,
}

-- The return value, and `snprintf(response_msg, MAX_MSG_LEN, …)`.
abbrev reply : Bool → Bytes → Response
reply success text = record { success = success; message = str_copy max_msg_len text }

abbrev quoted : Bytes → Bytes → Bytes → Bytes
quoted before username after = before ++ username ++ after

-- The system calls of one registration: those of the search and those of the append.
pub record AuthIo : Type 0 where
  pub read : ReadIo
  pub write : WriteIo

abbrev empty_refused : Response
empty_refused = reply false (utf8 "Username and password cannot be empty.")

save_reply : Bytes → File × Bool → File × Response
save_reply username (file, saved) = (
  file,
  if saved
      then reply true (quoted (utf8 "User '") username (utf8 "' registered successfully."))
      else reply false (quoted (utf8 "Failed to save new user '") username (utf8 "' (DB).")),
)

-- What follows the search for the name.
pub register_found : WriteIo → File → Bytes → Bytes → FindUser → File × Response
unfolding save_reply
register_found io file username hashed (found _) =
    (file, reply false (quoted (utf8 "User '") username (utf8 "' already exists.")))
register_found io file username hashed db_error =
    (file, reply false (utf8 "Error checking user existence (DB)."))
register_found io file username hashed not_found = save_reply username (
    add_user_to_file io file
      (record { username = str_copy max_id_len username; password = str_copy max_pw_len hashed }))

pub register_text : AuthIo → File → Bytes → Bytes → File × Response
register_text io file username hashed =
    if length username == 0 || length hashed == 0
    then (file, empty_refused)
    else if leb max_id_len (length username) || leb max_pw_len (length hashed)
    then (file, reply false (utf8 "Username or password too long."))
    else register_found io.write file username hashed (find_user_in_file io.read file username)

pub register_user_impl : AuthIo → File → Option Bytes → Option Bytes → File × Response
unfolding register_text register_found
register_user_impl io file none _ = (file, empty_refused)
register_user_impl io file (some username) none = (file, empty_refused)
register_user_impl io file (some username) (some hashed) = register_text io file username hashed

-- What follows the search; the second part is `logged_in_user`.
login_found : Bytes → Bytes → FindUser → Response × Bytes
login_found username hashed not_found =
    (reply false (quoted (utf8 "User '") username (utf8 "' not found.")), [])
login_found username hashed db_error =
    (reply false (quoted (utf8 "Error finding user '") username (utf8 "' (DB).")), [])
login_found username hashed (found user) =
    if str_eq user.password hashed
    then (
      reply true (quoted (utf8 "Login successful for '") username (utf8 "'.")),
      str_copy max_id_len username,
    )
    else (reply false (quoted (utf8 "Invalid password for user '") username (utf8 "'.")), [])

abbrev null_refused : Response
null_refused = reply false (utf8 "Username or password cannot be null.")

unfoldable pub login_user_impl : ReadIo → File → Option Bytes → Option Bytes → Response × Bytes
unfolding login_found
login_user_impl io file none _ = (null_refused, [])
login_user_impl io file (some username) none = (null_refused, [])
login_user_impl io file (some username) (some hashed) =
    login_found username hashed (find_user_in_file io file username)
