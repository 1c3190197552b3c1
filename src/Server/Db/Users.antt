-- ===== src/Server/Db/Users.antt =====
-- UserData, find_user_in_file and add_user_to_file of db_handler.c.
pub mod Laws
pub mod Found
use rain_typing_game.Prelude.{
  ℕ, ◌+◌, Bool, true, false, not, ◌&&◌, ◌||◌, Option, none, some, List, [], ◌∷◌, ◌++◌, Bytes, ltb,
  if◌then◌else◌, length, c_str, strchr, str_copy, str_eq,
}
use rain_typing_game.Common.Protocol.{max_id_len, max_pw_len}
use rain_typing_game.Server.Db.Lines.{all_lines}
use rain_typing_game.Server.Db.Files.{File, ReadIo, WriteIo, readable, breaks, append_text}

pub record UserData : Type 0 where
  pub username : Bytes
  pub password : Bytes

-- `char line_buffer[MAX_ID_LEN + MAX_PW_LEN + 3]`
abbrev pub user_buffer_size : ℕ
user_buffer_size = max_id_len + max_pw_len + 3

-- One line split at its first colon, unless a part does not fit its array.
split_user : Option (Bytes × Bytes) → Option UserData
split_user none = none
split_user (some (name, password)) =
    if ltb (length name) max_id_len && ltb (length password) max_pw_len
    then some
        (record { username = str_copy max_id_len name; password = str_copy max_pw_len password })
    else none

unfoldable pub parse_user : Bytes → Option UserData
unfolding split_user
parse_user line_buffer = split_user (strchr b':' (c_str line_buffer))

-- The body of the loop on each line, until a name is the one sought.
check_user : Bytes → Option UserData → Option UserData → Option UserData
check_user username none rest = rest
check_user username (some user) rest = if str_eq user.username username then some user else rest

find_in_lines : Bytes → List Bytes → Option UserData
unfolding check_user
find_in_lines username [] = none
find_in_lines username (l ∷ ls) = check_user username (parse_user l) (find_in_lines username ls)

-- The return values 1, 0 and -1.
pub data FindUser : Type 0 where
  found : UserData → FindUser
  not_found db_error : FindUser

find_result : Option UserData → FindUser
find_result none = not_found
find_result (some user) = found user

find_in_bytes : ReadIo → Bytes → Bytes → FindUser
unfolding find_in_lines find_result
find_in_bytes io bytes username =
    if not io.opens || not io.locks
    then db_error
    else find_result (
        find_in_lines username
          (all_lines (breaks io.read_fails) user_buffer_size (readable io.read_fails bytes)))

-- A missing file (ENOENT) has no users.
unfoldable pub find_user_in_file : ReadIo → File → Bytes → FindUser
unfolding find_in_bytes
find_user_in_file io none username = not_found
find_user_in_file io (some bytes) username = find_in_bytes io bytes username

-- "%s:%s\n"
abbrev pub user_line : UserData → Bytes
user_line user = user.username ++ b':' ∷ user.password

unfoldable pub add_user_to_file : WriteIo → File → UserData → File × Bool
add_user_to_file io file user = append_text io file (user_line user ++ b'\n' ∷ [])
