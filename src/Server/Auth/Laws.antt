-- ===== src/Server/Auth/Laws.antt =====
-- The users file behind registration and login is a list of users, searched from the front.
use rain_typing_game.Prelude.{
  ◌<◌, ◌≡◌, ◌≢◌, ◌↔◌, refl, not, Bool, true, false, some, List, [], ◌∷◌, ◌++◌, Bytes, if◌then◌else◌,
  All, length, length-ne_zero, lt→not_leb, arith, str_copy_all, str_eq, str_eq_sound, str_eq_refl,
}
use rain_typing_game.Common.Protocol.{max_id_len, max_pw_len}
use rain_typing_game.Server.Db.Files.{File, good_read, good_write}
use rain_typing_game.Server.Db.Users.{
  UserData, FindUser, found, not_found, db_error, find_user_in_file, add_user_to_file,
}
use rain_typing_game.Server.Db.Users.Laws.{
  IsStorable, user_file, find, find_user_in_file-find, add_user_to_file-append,
}
use rain_typing_game.Server.Auth.{
  AuthIo, register_found, register_text, register_user_impl, login_found, login_user_impl,
}

abbrev pub good_io : AuthIo
good_io = record { read = good_read; write = good_write }

abbrev pub is_found : FindUser → Bool
is_found (found _) = true
is_found _ = false

-- Past the tests on the lengths.
pub register_text-search :
    (io : AuthIo) (file : File) (user : UserData)
    → user.username ≢ []
    → user.password ≢ []
    → length user.username < max_id_len
    → length user.password < max_pw_len
    → register_text io file user.username user.password
      ≡ register_found io.write file user.username user.password
          (find_user_in_file io.read file user.username)
unfolding register_text
register_text-search io file user n p h k = rw (
  length-ne_zero user.username n,
  length-ne_zero user.password p,
  lt→not_leb _ max_id_len h,
  lt→not_leb _ max_pw_len k,
)

pub register_found-registered :
    (users : List UserData) (user : UserData) (r : FindUser)
    → r ≢ db_error
    → length user.username < max_id_len
    → length user.password < max_pw_len
    → let (file, response) =
        register_found good_write (some (user_file users)) user.username user.password r in
      (file ≡ some (user_file (if is_found r then users else users ++ user ∷ [])))
      × (response.success ≡ not (is_found r))
unfolding register_found add_user_to_file
register_found-registered users user (found u) n h k = (refl, refl)
register_found-registered users user db_error n h k = absurd (n refl)
register_found-registered users user not_found n h k =
    simp (str_copy_all, h, k, add_user_to_file-append users user) (refl, refl)

find-ne-db_error : (name : Bytes) (users : List UserData) → find name users ≢ db_error
unfolding find
find-ne-db_error name [] e = cc
find-ne-db_error name (u ∷ us) e = ground (arith, find-ne-db_error name us)

-- The users after a registration that the length tests let through.
abbrev pub registered : List UserData → UserData → List UserData
registered users user = if is_found (find user.username users) then users else users ++ user ∷ []

-- On a file of storable users whose system calls succeed, registering a storable user with a
-- nonempty name and password appends the user and succeeds if the name has no record, and changes
-- nothing and fails if it has one.
pub register-registered :
    (users : List UserData) (user : UserData)
    → All IsStorable users
    → IsStorable user
    → user.username ≢ []
    → user.password ≢ []
    → let (file, response) =
        register_user_impl good_io
          (some (user_file users))
          (some user.username)
          (some user.password) in
      (file ≡ some (user_file (registered users user)))
      × (response.success ≡ not (is_found (find user.username users)))
unfolding register_user_impl
register-registered users user h s n p =
    rw (register_text-search good_io (some (user_file users)) user n p s.name_fits s.password_fits)
      (rw (find_user_in_file-find good_read users user.username h refl refl refl) (
        register_found-registered users user (find user.username users)
          (find-ne-db_error user.username users) s.name_fits s.password_fits))

pub find-append :
    (name : Bytes) (users : List UserData) (user : UserData)
    → find name (users ++ user ∷ []) ≡ (elim (find name users) [
      | found u ↦ found u
      | _ ↦ (if str_eq user.username name then found user else not_found)
    ])
unfolding find
find-append name [] user = refl
find-append name (u ∷ us) user = ground (arith, find-append name us user)

login_found_iff :
    (username hashed : Bytes) (r : FindUser)
    → ((login_found username hashed r).0.success ≡ true)
      ↔ ((u : UserData) × (r ≡ found u) × (u.password ≡ hashed))
unfolding login_found
login_found_iff username hashed (found u) = (
  (λ e. (u, refl, str_eq_sound u.password hashed (ground arith))),
  (λ (v, e, p). ground (arith, str_eq_refl hashed)),
)
login_found_iff username hashed not_found = ((λ e. cc), (λ (v, e, p). cc))
login_found_iff username hashed db_error = ((λ e. cc), (λ (v, e, p). cc))

-- On a file of storable users that can be read, a login succeeds exactly if the first record of
-- the name has the password.
pub login_iff :
    (users : List UserData) (username hashed : Bytes)
    → All IsStorable users
    → ((login_user_impl good_read (some (user_file users)) (some username) (some hashed)).0.success
        ≡ true)
      ↔ ((u : UserData) × (find username users ≡ found u) × (u.password ≡ hashed))
unfolding login_user_impl
login_iff users username hashed h =
    rw (find_user_in_file-find good_read users username h refl refl refl)
      (login_found_iff username hashed (find username users))
