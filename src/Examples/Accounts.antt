-- ===== src/Examples/Accounts.antt =====
-- Registration and login on a small users file.
use rain_typing_game.Prelude.{
  false, ◌++◌, ◌≡◌, ◌↔◌, refl, true, not, some, [], ◌∷◌, utf8, arith, strcmp,
}
use rain_typing_game.Server.Db.Files.{good_read, good_write}
use rain_typing_game.Server.Db.Users.{UserData, found, find_user_in_file, not_found}
use rain_typing_game.Server.Db.Users.Laws.{
  IsStorable, user_file, find, find_user_in_file-empty_line,
}
use rain_typing_game.Server.Auth.{register_found, register_user_impl, login_user_impl}
use rain_typing_game.Server.Auth.Accounts.{login_kept}
use rain_typing_game.Server.Auth.Colon.{register_colon}
use rain_typing_game.Server.Auth.Race.{register_race}
use rain_typing_game.Server.Auth.Laws.{
  good_io, is_found, registered, register-registered, login_iff,
}

abbrev kim : UserData
kim = record { username = utf8 "kim"; password = utf8 "one" }

abbrev lee : UserData
lee = record { username = utf8 "lee"; password = utf8 "two" }

kim-IsStorable : IsStorable kim
kim-IsStorable = record {
  name_plain = ground arith;
  name_line = ground arith;
  name_string = ground arith;
  name_fits = omega arith;
  password_line = ground arith;
  password_string = ground arith;
  password_fits = omega arith;
}

lee-IsStorable : IsStorable lee
lee-IsStorable = record {
  name_plain = ground arith;
  name_line = ground arith;
  name_string = ground arith;
  name_fits = omega arith;
  password_line = ground arith;
  password_string = ground arith;
  password_fits = omega arith;
}

register-registered_example :
    let (file, response) =
      register_user_impl good_io
        (some (user_file (kim ∷ [])))
        (some (utf8 "lee"))
        (some (utf8 "two")) in
    (file ≡ some (user_file (registered (kim ∷ []) lee)))
    × (response.success ≡ not (is_found (find (utf8 "lee") (kim ∷ []))))
register-registered_example =
    register-registered (kim ∷ []) lee (kim-IsStorable, tt) lee-IsStorable (λ e. cc) (λ e. cc)

login_iff_example :
    ((login_user_impl good_read
        (some (user_file (kim ∷ lee ∷ [])))
        (some (utf8 "lee"))
        (some (utf8 "two"))).0.success
      ≡ true)
    ↔ ((u : UserData) × (find (utf8 "lee") (kim ∷ lee ∷ []) ≡ found u) × (u.password ≡ utf8 "two"))
login_iff_example =
    login_iff (kim ∷ lee ∷ []) (utf8 "lee") (utf8 "two") (kim-IsStorable, (lee-IsStorable, tt))

lee_new : find (utf8 "lee") (kim ∷ []) ≡ not_found
unfolding find strcmp
lee_new = refl

kim_found : find (utf8 "kim") (kim ∷ []) ≡ found kim
unfolding find strcmp
kim_found = refl

login_kept_example :
    let (file, _) =
      register_user_impl good_io
        (some (user_file (kim ∷ [])))
        (some (utf8 "lee"))
        (some (utf8 "two")) in
    (login_user_impl good_read file (some (utf8 "kim")) (some (utf8 "one"))).0.success ≡ true
login_kept_example =
    login_kept (kim ∷ []) lee kim (utf8 "kim") (kim-IsStorable, tt) lee-IsStorable (λ e. cc)
      (λ e. cc) kim_found

find_user_in_file-empty_line_example :
    find_user_in_file good_read
      (some (user_file (kim ∷ []) ++ b'\n' ∷ utf8 "lee:two\n"))
      (utf8 "lee")
    ≡ find (utf8 "lee") (kim ∷ [])
find_user_in_file-empty_line_example =
    find_user_in_file-empty_line good_read (kim ∷ []) (utf8 "lee:two\n") (utf8 "lee")
      (kim-IsStorable, tt) refl refl refl

-- A second account of the same name.
abbrev other_lee : UserData
other_lee = record { username = utf8 "lee"; password = utf8 "six" }

other_lee-IsStorable : IsStorable other_lee
other_lee-IsStorable = record {
  name_plain = ground arith;
  name_line = ground arith;
  name_string = ground arith;
  name_fits = omega arith;
  password_line = ground arith;
  password_string = ground arith;
  password_fits = omega arith;
}

register_race_example :
    let looked = find_user_in_file good_read (some (user_file (kim ∷ []))) (utf8 "lee") in
    let (file₁, response₁) =
      register_found good_write (some (user_file (kim ∷ []))) (utf8 "lee") (utf8 "two") looked in
    let (file₂, response₂) = register_found good_write file₁ (utf8 "lee") (utf8 "six") looked in
    (response₁.success ≡ true)
    × (response₂.success ≡ true)
    × ((login_user_impl good_read file₂ (some (utf8 "lee")) (some (utf8 "two"))).0.success ≡ true)
    × ((login_user_impl good_read file₂ (some (utf8 "lee")) (some (utf8 "six"))).0.success ≡ false)
register_race_example =
    register_race (kim ∷ []) (utf8 "lee") (utf8 "two") (utf8 "six") (kim-IsStorable, tt)
      lee-IsStorable other_lee-IsStorable lee_new (λ e. ground (arith, e))

-- The record that the line of a user "lee:x" with the password "one" is.
abbrev misread : UserData
misread = record { username = utf8 "lee"; password = utf8 "x:one" }

misread-IsStorable : IsStorable misread
misread-IsStorable = record {
  name_plain = ground arith;
  name_line = ground arith;
  name_string = ground arith;
  name_fits = omega arith;
  password_line = ground arith;
  password_string = ground arith;
  password_fits = omega arith;
}

register_colon_example :
    let (file, response) =
      register_user_impl good_io
        (some (user_file (kim ∷ [])))
        (some (utf8 "lee:x"))
        (some (utf8 "one")) in
    (response.success ≡ true)
    × ((login_user_impl good_read file (some (utf8 "lee:x")) (some (utf8 "one"))).0.success ≡ false)
    × ((register_user_impl good_io file (some (utf8 "lee")) (some (utf8 "two"))).1.success ≡ false)
register_colon_example =
    register_colon (kim ∷ []) (utf8 "lee") (utf8 "x") (utf8 "one") (utf8 "two") (kim-IsStorable, tt)
      misread-IsStorable lee-IsStorable (omega arith) (omega arith) (λ e. cc) (λ e. cc) (λ e. cc)
      lee_new
