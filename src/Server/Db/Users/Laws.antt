-- ===== src/Server/Db/Users/Laws.antt =====
-- data/users.txt implements a list of users that is searched from the front.
use rain_typing_game.Prelude.{
  ◌<◌, ◌≡◌, ◌≢◌, refl, sym, ap, ◌∙◌, true, false, none, some, List, [], ◌∷◌, ◌++◌, map, Bytes,
  if◌then◌else◌, All, All-append, Lacks, length, length-append, arith, c_str_all, strchr-append,
  lt→ltb, str_copy_all, str_eq,
}
use mathlib.Core.List.{map-append}
use rain_typing_game.Common.Protocol.{max_id_len, max_pw_len}
use rain_typing_game.Server.Db.Lines.{
  all_lines-print_tail, Stops-newline, IsLine, all_lines-print, print_lines, print_lines-append,
}
use rain_typing_game.Server.Db.Files.{ReadIo, good_write, append_text}
use rain_typing_game.Server.Db.Users.{
  UserData, user_buffer_size, split_user, parse_user, check_user, find_in_lines, FindUser, found,
  not_found, find_result, find_in_bytes, find_user_in_file, user_line, add_user_to_file,
}

-- A user that a line of the file can hold: no separator in the name, no newline in either part.
pub record IsStorable (user : UserData) : Type 0 where
  pub name_plain : Lacks b':' user.username
  pub name_line : Lacks b'\n' user.username
  pub name_string : Lacks 0 user.username
  pub name_fits : length user.username < max_id_len
  pub password_line : Lacks b'\n' user.password
  pub password_string : Lacks 0 user.password
  pub password_fits : length user.password < max_pw_len

-- The abstract view: the users in the order of their lines.
abbrev pub user_file : List UserData → Bytes
user_file users = print_lines (map user_line users)

unfoldable pub find : Bytes → List UserData → FindUser
find username [] = not_found
find username (u ∷ us) = if str_eq u.username username then found u else find username us

user_line-IsLine : {user : UserData} → IsStorable user → IsLine user_buffer_size (user_line user)
user_line-IsLine {user} s = (
  nonempty user.username,
  All-append _ user.username _ s.name_line (omega arith, s.password_line),
  omega (arith, length-append user.username (b':' ∷ user.password)),
)
  where
    nonempty : (name : Bytes) → name ++ b':' ∷ user.password ≢ []
    nonempty [] e = cc
    nonempty (c ∷ cs) e = cc

split_user_fits :
    (user : UserData)
    → length user.username < max_id_len
    → length user.password < max_pw_len
    → split_user (some (user.username, user.password)) ≡ some user
unfolding split_user
split_user_fits user h k =
    rw (lt→ltb _ max_id_len h, lt→ltb _ max_pw_len k) (simp (str_copy_all, h, k))

parse_user-user_line : (user : UserData) → IsStorable user → parse_user (user_line user) ≡ some user
unfolding parse_user
parse_user-user_line user s =
    rw
      (c_str_all (user_line user)
        (All-append _ user.username _ s.name_string (omega arith, s.password_string)))
      (rw (strchr-append b':' user.username user.password s.name_plain)
        (split_user_fits user s.name_fits s.password_fits))

find_in_lines-find :
    (username : Bytes) (users : List UserData)
    → All IsStorable users
    → find_result (find_in_lines username (map user_line users)) ≡ find username users
unfolding find_in_lines find_result find check_user
find_in_lines-find username [] h = refl
find_in_lines-find username (u ∷ us) (s, h) =
    rw (parse_user-user_line u s) (ground (arith, find_in_lines-find username us h))

lines-IsLine :
    (users : List UserData)
    → All IsStorable users
    → All (IsLine user_buffer_size) (map user_line users)
lines-IsLine [] h = tt
lines-IsLine (u ∷ us) (s, h) = (user_line-IsLine s, lines-IsLine us h)

-- On a file of storable users that can be opened, locked and read, find_user_in_file returns the
-- first user of that name in the list.
pub find_user_in_file-find :
    (io : ReadIo) (users : List UserData) (username : Bytes)
    → All IsStorable users
    → io.opens ≡ true
    → io.locks ≡ true
    → io.read_fails ≡ none
    → find_user_in_file io (some (user_file users)) username ≡ find username users
unfolding find_user_in_file find_in_bytes
find_user_in_file-find io users username h o l r =
    rw
      (o, l, r, all_lines-print false user_buffer_size (map user_line users) (lines-IsLine users h))
      (find_in_lines-find username users h)

-- In a file of storable users that can be opened, locked and read, an empty line ends the search:
-- behind it no user is found, whatever follows.
pub find_user_in_file-empty_line :
    (io : ReadIo) (users : List UserData) (rest username : Bytes)
    → All IsStorable users
    → io.opens ≡ true
    → io.locks ≡ true
    → io.read_fails ≡ none
    → find_user_in_file io (some (user_file users ++ b'\n' ∷ rest)) username ≡ find username users
unfolding find_user_in_file find_in_bytes
find_user_in_file-empty_line io users rest username h o l r =
    rw
      (
        o,
        l,
        r,
        all_lines-print_tail false user_buffer_size (b'\n' ∷ rest)
            (Stops-newline false user_buffer_size rest (omega arith)) (map user_line users)
            (lines-IsLine users h),
      )
      (find_in_lines-find username users h)

pub add_user_to_file-append :
    (users : List UserData) (user : UserData)
    → add_user_to_file good_write (some (user_file users)) user
      ≡ (some (user_file (users ++ user ∷ [])), true)
unfolding add_user_to_file append_text
add_user_to_file-append users user =
    ap (λ b. (some b, true))
      (sym (
        ap print_lines (map-append user_line users (user ∷ []))
        ∙ print_lines-append (map user_line users) (user_line user)))
