-- ===== src/Server/Auth/Accounts.antt =====
-- Registration and login together: an account that was made can be used, and stays.
use rain_typing_game.Prelude.{
  ◌≡◌, ◌≢◌, refl, sym, ap, subst, ◌∙◌, true, false, not, some, List, [], ◌∷◌, ◌++◌, Bytes,
  if◌then◌else◌, All, All-append, str_eq_refl,
}
use rain_typing_game.Server.Db.Files.{good_read}
use rain_typing_game.Server.Db.Users.{UserData, found, not_found}
use rain_typing_game.Server.Db.Users.Laws.{IsStorable, user_file, find}
use rain_typing_game.Server.Auth.{register_user_impl, login_user_impl}
use rain_typing_game.Server.Auth.Laws.{
  good_io, is_found, registered, register-registered, find-append, login_iff,
}

-- A login that succeeds against the file that a registration leaves.
abbrev LogsIn : List UserData → UserData → Bytes → Bytes → Type 0
LogsIn users user username hashed =
    let (file, _) =
      register_user_impl good_io (some (user_file users)) (some user.username)
        (some user.password) in
    (login_user_impl good_read file (some username) (some hashed)).0.success ≡ true

registered-IsStorable :
    (users : List UserData) (user : UserData)
    → All IsStorable users
    → IsStorable user
    → All IsStorable (registered users user)
registered-IsStorable users user h s =
    elim (is_found (find user.username users))
      as (λ b. All IsStorable (if b then users else users ++ user ∷ [])) [
        | true ↦ h
        | false ↦ All-append IsStorable users (user ∷ []) h (s, tt)
      ]

-- What is found in the registered users is what logs in.
logs_in :
    (users : List UserData) (user u : UserData) (username : Bytes)
    → All IsStorable users
    → IsStorable user
    → user.username ≢ []
    → user.password ≢ []
    → find username (registered users user) ≡ found u
    → LogsIn users user username u.password
logs_in users user u username h s n p f =
    subst
      (λ file. (login_user_impl good_read file (some username) (some u.password)).0.success ≡ true)
      (sym (register-registered users user h s n p).0)
      ((login_iff (registered users user) username u.password
          (registered-IsStorable users user h s)).1
        (u, f, refl))

-- On a file of storable users whose system calls succeed, registering a storable user with a
-- nonempty name that has no record, and a nonempty password, succeeds, and a login with that name
-- and password then succeeds.
pub register_then_login :
    (users : List UserData) (user : UserData)
    → All IsStorable users
    → IsStorable user
    → user.username ≢ []
    → user.password ≢ []
    → find user.username users ≡ not_found
    → let (file, response) =
        register_user_impl good_io
          (some (user_file users))
          (some user.username)
          (some user.password) in
      (response.success ≡ true)
      × ((login_user_impl good_read file (some user.username) (some user.password)).0.success
          ≡ true)
register_then_login users user h s n p new = (
  (register-registered users user h s n p).1 ∙ ap (λ r. not (is_found r)) new,
  logs_in users user user user.username h s n p
      (rw new (find-append user.username users user ∙ rw (new, str_eq_refl user.username) refl)),
)

-- On a file of storable users whose system calls succeed, an account can still log in with its
-- password after a storable user with a nonempty name and password was registered.
pub login_kept :
    (users : List UserData) (user u : UserData) (username : Bytes)
    → All IsStorable users
    → IsStorable user
    → user.username ≢ []
    → user.password ≢ []
    → find username users ≡ found u
    → let (file, _) =
        register_user_impl good_io
          (some (user_file users))
          (some user.username)
          (some user.password) in
      (login_user_impl good_read file (some username) (some u.password)).0.success ≡ true
login_kept users user u username h s n p f =
    logs_in users user u username h s n p
      (elim (is_found (find user.username users))
        as (λ b. find username (if b then users else users ++ user ∷ []) ≡ found u) [
          | true ↦ f
          | false ↦ find-append username users user ∙ rw f refl
        ])
