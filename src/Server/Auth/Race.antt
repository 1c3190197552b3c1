-- ===== src/Server/Auth/Race.antt =====
-- Two registrations of one name at once, with server/src/auth_manager.c: the search for the name and the append of the user take the
-- mutex and the lock of the file one after the other.
use rain_typing_game.Prelude.{
  false_of_ne, ◌≡◌, ◌≢◌, refl, sym, ap, ◌∙◌, true, false, some, List, [], ◌∷◌, ◌++◌, Bytes, All,
  All-append, str_eq_refl,
}
use rain_typing_game.Server.Db.Files.{good_read, good_write}
use rain_typing_game.Server.Db.Users.{UserData, FindUser, found, not_found, find_user_in_file}
use rain_typing_game.Server.Db.Users.Laws.{IsStorable, user_file, find, find_user_in_file-find}
use rain_typing_game.Server.Auth.{register_found, login_user_impl}
use rain_typing_game.Server.Auth.Laws.{register_found-registered, find-append, login_iff}

abbrev account : Bytes → Bytes → UserData
account username password = record { username = username; password = password }

-- An append behind a search that found no one.
appended :
    (users : List UserData) (user : UserData)
    → IsStorable user
    → let (file, response) =
        register_found good_write (some (user_file users)) user.username user.password not_found in
      (file ≡ some (user_file (users ++ user ∷ []))) × (response.success ≡ true)
appended users user s =
    register_found-registered users user not_found (λ e. cc) s.name_fits s.password_fits

-- The search finds the user that was appended first.
found_first :
    (users : List UserData) (name one two : Bytes)
    → find name users ≡ not_found
    → find name ((users ++ account name one ∷ []) ++ account name two ∷ [])
      ≡ found (account name one)
found_first users name one two new =
    let first : find name (users ++ account name one ∷ []) ≡ found (account name one) =
      find-append name users (account name one) ∙ rw (new, str_eq_refl name) refl in
    find-append name (users ++ account name one ∷ []) (account name two) ∙ rw first refl

abbrev password_of : FindUser → Bytes
password_of (found u) = u.password
password_of _ = []

-- On a file of storable users whose system calls succeed: if two registrations of one new name,
-- with different passwords, both search the file before either appends, then both succeed; a
-- login with the first password succeeds and a login with the second one fails.
pub register_race :
    (users : List UserData) (name one two : Bytes)
    → All IsStorable users
    → IsStorable (account name one)
    → IsStorable (account name two)
    → find name users ≡ not_found
    → one ≢ two
    → let looked = find_user_in_file good_read (some (user_file users)) name in
      let (file₁, response₁) = register_found good_write (some (user_file users)) name one looked in
      let (file₂, response₂) = register_found good_write file₁ name two looked in
      (response₁.success ≡ true)
      × (response₂.success ≡ true)
      × ((login_user_impl good_read file₂ (some name) (some one)).0.success ≡ true)
      × ((login_user_impl good_read file₂ (some name) (some two)).0.success ≡ false)
register_race users name one two h s₁ s₂ new differ =
    let looked : find_user_in_file good_read (some (user_file users)) name ≡ not_found =
      find_user_in_file-find good_read users name h refl refl refl ∙ new in
    let (file₁, success₁) = appended users (account name one) s₁ in
    let (file₂, success₂) = appended (users ++ account name one ∷ []) (account name two) s₂ in
    let both = (users ++ account name one ∷ []) ++ account name two ∷ [] in
    let storable : All IsStorable both =
      All-append IsStorable (users ++ account name one ∷ []) (account name two ∷ [])
        (All-append IsStorable users (account name one ∷ []) h (s₁, tt)) (s₂, tt) in
    let first = found_first users name one two new in
    rw (looked, file₁, file₂)
      (
        success₁,
        success₂,
        (login_iff both name one storable).1 (account name one, first, refl),
        false_of_ne _ (λ e.
            let (u, found_u, same) = (login_iff both name two storable).0 e in
            differ (ap password_of (sym first ∙ found_u) ∙ same)),
      )
