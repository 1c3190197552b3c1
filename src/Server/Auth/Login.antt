-- ===== src/Server/Auth/Login.antt =====
-- When a login succeeds, and what it leaves behind.
use rain_typing_game.Prelude.{
  ◌<◌, ◌≡◌, inl, inr, refl, ◌∙◌, true, some, Bytes, length, arith, Bool-cases, str_copy,
  str_copy_all, str_eq, str_eq_sound,
}
use rain_typing_game.Common.Protocol.{max_id_len}
use rain_typing_game.Server.Db.Files.{File, ReadIo}
use rain_typing_game.Server.Db.Users.{
  UserData, FindUser, found, not_found, db_error, find_user_in_file,
}
use rain_typing_game.Server.Db.Users.Found.{find_user_in_file-IsFor}
use rain_typing_game.Server.Auth.{login_found, login_user_impl}

-- A login that succeeds: the file has a record of the name with this password.
abbrev Matches : ReadIo → File → Bytes → Bytes → Type 0
Matches io file username hashed =
    (user : UserData) × (find_user_in_file io file username ≡ found user) × (user.password ≡ hashed)

login_found-success :
    (username hashed : Bytes) (r : FindUser)
    → (login_found username hashed r).0.success ≡ true
    → ((login_found username hashed r).1 ≡ str_copy max_id_len username)
      × (user : UserData) × (r ≡ found user)
      × (user.password ≡ hashed)
unfolding login_found
login_found-success username hashed not_found e = cc
login_found-success username hashed db_error e = cc
login_found-success username hashed (found user) e =
    elim (Bool-cases (str_eq user.password hashed)) [
      | inl same ↦ (rw same, user, refl, str_eq_sound user.password hashed same)
      | inr other ↦ ground (arith, e, other)
    ]

-- The name that the session gets is the name that was sent.
pub login_success :
    (io : ReadIo) (file : File) (username hashed : Bytes)
    → (login_user_impl io file (some username) (some hashed)).0.success ≡ true
    → ((login_user_impl io file (some username) (some hashed)).1 ≡ username)
      × (length username < max_id_len)
      × Matches io file username hashed
unfolding login_user_impl
login_success io file username hashed e =
    let (name, user, f, p) =
      login_found-success username hashed (find_user_in_file io file username) e in
    let (same, fits, _) = find_user_in_file-IsFor io file username user f in
    (name ∙ str_copy_all username fits, fits, (user, f, p))
