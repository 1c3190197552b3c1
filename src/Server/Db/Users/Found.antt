-- ===== src/Server/Db/Users/Found.antt =====
-- What find_user_in_file promises of any file, well formed or not.
use rain_typing_game.Prelude.{
  ◌<◌, ◌≡◌, inl, inr, refl, ◌||◌, Option, none, some, List, [], ◌∷◌, Bytes, length, arith,
  Bool-cases, c_str, strchr, length-str_copy-lt, subst, not, str_eq, str_eq_sound,
}
use rain_typing_game.Common.Protocol.{max_id_len, max_pw_len}
use rain_typing_game.Server.Db.Files.{File, ReadIo}
use rain_typing_game.Server.Db.Users.{
  UserData, split_user, parse_user, check_user, find_in_lines, found, find_result, find_in_bytes,
  find_user_in_file,
}

-- A record of the user that was asked for, as the arrays of UserData hold it.
abbrev IsFor : Bytes → UserData → Type 0
IsFor username user =
    (user.username ≡ username)
    × (length username < max_id_len)
    × (length user.password < max_pw_len)

split_user-fits :
    (parts : Option (Bytes × Bytes)) (user : UserData)
    → split_user parts ≡ some user
    → (length user.username < max_id_len) × (length user.password < max_pw_len)
unfolding split_user
split_user-fits none user e = cc
split_user-fits (some (name, password)) user e = ground (
  arith,
  length-str_copy-lt max_id_len name (omega arith),
  length-str_copy-lt max_pw_len password (omega arith),
)

check_user-IsFor :
    (username : Bytes) (r rest : Option UserData) (user : UserData)
    → ((u : UserData)
        → r ≡ some u
        → (length u.username < max_id_len) × (length u.password < max_pw_len))
    → (rest ≡ some user → IsFor username user)
    → check_user username r rest ≡ some user
    → IsFor username user
unfolding check_user
check_user-IsFor username none rest user fits ih e = ih e
check_user-IsFor username (some u) rest user fits ih e =
    elim (Bool-cases (str_eq u.username username)) [
      | inl same ↦
          let name : u.username ≡ username = str_eq_sound u.username username same in
          let this : u ≡ user = ground (arith, e, same) in
          subst (IsFor username) this (name, ground (arith, fits u refl), (fits u refl).1)
      | inr other ↦ ih (ground (arith, e, other))
    ]

find_in_lines-IsFor :
    (username : Bytes) (ls : List Bytes) (user : UserData)
    → find_in_lines username ls ≡ some user
    → IsFor username user
unfolding find_in_lines parse_user
find_in_lines-IsFor username [] user e = cc
find_in_lines-IsFor username (l ∷ ls) user e =
    check_user-IsFor username (parse_user l) (find_in_lines username ls) user
      (λ u. split_user-fits (strchr b':' (c_str l)) u) (find_in_lines-IsFor username ls user) e

find_result-IsFor :
    (username : Bytes) (r : Option UserData) (user : UserData)
    → ((u : UserData) → r ≡ some u → IsFor username u)
    → find_result r ≡ found user
    → IsFor username user
unfolding find_result
find_result-IsFor username none user h e = cc
find_result-IsFor username (some u) user h e =
    let this : u ≡ user = cc in subst (IsFor username) this (h u refl)

-- Whatever the file holds, a user that is found has the name that was asked for, and fits.
pub find_user_in_file-IsFor :
    (io : ReadIo) (file : File) (username : Bytes) (user : UserData)
    → find_user_in_file io file username ≡ found user
    → IsFor username user
unfolding find_user_in_file find_in_bytes
find_user_in_file-IsFor io none username user e = cc
find_user_in_file-IsFor io (some bytes) username user e =
    elim (Bool-cases (not io.opens || not io.locks)) [
      | inl bad ↦ ground (arith, e, bad)
      | inr good ↦ find_result-IsFor username _ user (find_in_lines-IsFor username _) (rw good at e)
    ]
