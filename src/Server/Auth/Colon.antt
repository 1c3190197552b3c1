-- ===== src/Server/Auth/Colon.antt =====
-- A registration in server/src/auth_manager.c of a name with a colon, which the lines of users.txt
-- use behind the name.
use mathlib.Core.List.{map-append}
use rain_typing_game.Prelude.{
  false_of_ne, ◌<◌, ◌≡◌, ◌≢◌, refl, sym, ap, subst, ◌∙◌, inl, inr, not, true, false, some, List, [],
  ◌∷◌, ◌++◌, append_assoc, map, Bytes, All, All-append, Bool-cases, Lacks, length, str_eq,
  str_eq_sound, str_eq_refl,
}
use rain_typing_game.Common.Protocol.{max_id_len, max_pw_len}
use rain_typing_game.Server.Db.Lines.{print_lines}
use rain_typing_game.Server.Db.Files.{good_read}
use rain_typing_game.Server.Db.Users.{UserData, found, not_found, find_user_in_file, user_line}
use rain_typing_game.Server.Db.Users.Laws.{IsStorable, user_file, find, find_user_in_file-find}
use rain_typing_game.Server.Auth.{register_user_impl, login_user_impl}
use rain_typing_game.Server.Auth.Laws.{
  good_io, is_found, register_text-search, register_found-registered, register-registered,
  find-append, login_iff,
}

not-Lacks : (a b : Bytes) → ¬ Lacks b':' (a ++ b':' ∷ b)
not-Lacks [] b (n, h) = n refl
not-Lacks (c ∷ a) b (n, h) = not-Lacks a b h

other_name : (name a b : Bytes) → Lacks b':' name → str_eq name (a ++ b':' ∷ b) ≡ false
other_name name a b h = elim (Bool-cases (str_eq name (a ++ b':' ∷ b))) [
  | inl same ↦ absurd (not-Lacks a b (subst (Lacks b':') (str_eq_sound name _ same) h))
  | inr other ↦ other
]

-- No storable user has such a name.
find-colon :
    (users : List UserData) (a b : Bytes)
    → All IsStorable users
    → find (a ++ b':' ∷ b) users ≡ not_found
unfolding find
find-colon [] a b h = refl
find-colon (u ∷ users) a b (s, h) =
    rw (other_name u.username a b s.name_plain) (find-colon users a b h)

-- The line of such a user is the line of another one.
user_file-colon :
    (users : List UserData) (a b password : Bytes)
    → user_file (users ++ record { username = a ++ b':' ∷ b; password = password } ∷ [])
      ≡ user_file (users ++ record { username = a; password = b ++ b':' ∷ password } ∷ [])
user_file-colon users a b password =
    let x : UserData = record { username = a ++ b':' ∷ b; password = password } in
    let y : UserData = record { username = a; password = b ++ b':' ∷ password } in
    let same : user_line x ≡ user_line y = append_assoc a (b':' ∷ b) (b':' ∷ password) in
    ap print_lines (
      map-append user_line users (x ∷ [])
      ∙ ap (λ l. map user_line users ++ l ∷ []) same
      ∙ sym (map-append user_line users (y ∷ [])))

some_name : (a b : Bytes) → a ++ b':' ∷ b ≢ []
some_name [] b e = cc
some_name (c ∷ a) b e = cc

nobody : (u : UserData) → not_found ≢ found u
nobody u e = cc

-- On a file of storable users whose system calls succeed: registering a name with a colon and a
-- nonempty password, where the part before the first colon is nonempty and has no record, and
-- what is behind it fits the field of a password with the password itself, succeeds; but a login
-- with that name and password then fails, and a registration of the part before the colon, with
-- any storable nonempty password, fails as well.
pub register_colon :
    (users : List UserData) (a b password other : Bytes)
    → All IsStorable users
    → IsStorable (record { username = a; password = b ++ b':' ∷ password })
    → IsStorable (record { username = a; password = other })
    → length (a ++ b':' ∷ b) < max_id_len
    → length password < max_pw_len
    → a ≢ []
    → password ≢ []
    → other ≢ []
    → find a users ≡ not_found
    → let name = a ++ b':' ∷ b in
      let (file, response) =
        register_user_impl good_io (some (user_file users)) (some name) (some password) in
      (response.success ≡ true)
      × ((login_user_impl good_read file (some name) (some password)).0.success ≡ false)
      × ((register_user_impl good_io file (some a) (some other)).1.success ≡ false)
unfolding register_user_impl
register_colon users a b password other h s o fits short named given new_given new =
    let x : UserData = record { username = a ++ b':' ∷ b; password = password } in
    let y : UserData = record { username = a; password = b ++ b':' ∷ password } in
    let searched : find_user_in_file good_read (some (user_file users)) x.username ≡ not_found =
      find_user_in_file-find good_read users x.username h refl refl refl ∙ find-colon users a b h in
    let (file, success) = register_found-registered users x not_found (λ e. cc) fits short in
    let storable : All IsStorable (users ++ y ∷ []) =
      All-append IsStorable users (y ∷ []) h (s, tt) in
    let taken : find a (users ++ y ∷ []) ≡ found y =
      find-append a users y ∙ rw (new, str_eq_refl a) refl in
    let unknown = false_of_ne _ (λ e.
      let (u, found_u, same) = (login_iff (users ++ y ∷ []) x.username password storable).0 e in
      absurd (nobody u (sym (find-colon (users ++ y ∷ []) a b storable) ∙ found_u))) in
    let refused =
      (register-registered (users ++ y ∷ []) (record { username = a; password = other }) storable o
        named new_given).1 in
    rw (register_text-search good_io (some (user_file users)) x (some_name a b) given fits short) (
      rw (searched, file, user_file-colon users a b password)
        (success, unknown, refused ∙ ap (λ r. not (is_found r)) taken))
