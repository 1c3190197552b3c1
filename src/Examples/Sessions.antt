-- ===== src/Examples/Sessions.antt =====
-- Two connections of one server.
use rain_typing_game.Prelude.{
  ◌≡◌, ◌≤◌, ◌+◌, refl, true, false, none, some, List, [], ◌∷◌, utf8, length, arith, strcmp, strchr,
  c_str, str_copy,
}
use rain_typing_game.Common.Run.{Ends, Ensures}
use rain_typing_game.Common.MessageType
use rain_typing_game.Server.Db.Files.{good_read, good_write}
use rain_typing_game.Server.Db.Lines.{all_lines, read_lines}
use rain_typing_game.Server.Db.Users.{find_user_in_file, parse_user}
use rain_typing_game.Server.Db.Users.Laws.{user_file}
use rain_typing_game.Server.Auth.{login_user_impl}
use rain_typing_game.Server.Auth.Laws.{good_io}
use rain_typing_game.Server.Online.{LoggedInUser, is_user_already_logged_in}
use rain_typing_game.Server.Online.Laws.{sessions, active, IsUnique}
use rain_typing_game.Server.Handler.{
  Server, Session, Io, handle_login, handle_message, check_login, close_session,
}
use rain_typing_game.Server.Handler.Frame.{Frame, Short, handle_message-Frame}
use rain_typing_game.Server.Handler.Stranded.{login_strands_user, login_race}
use rain_typing_game.Examples.Insertion.{insertion_sort}

-- A table of three slots, one of which is taken.
abbrev pub table : List LoggedInUser
table =
    record { username = utf8 "kim"; client_sock = 4; is_active = true }
    ∷ record { username = []; client_sock = 0; is_active = false }
    ∷ record { username = []; client_sock = 0; is_active = false }
    ∷ []

pub table-IsUnique : IsUnique table
unfolding sessions
table-IsUnique v = ground arith

abbrev pub server : Server
server = record {
  users = some (
      user_file (
        record { username = utf8 "kim"; password = utf8 "one" }
        ∷ record { username = utf8 "lee"; password = utf8 "two" }
        ∷ []));
  scores = none;
  logged_in = table;
  wordlist = utf8 "rain" ∷ [];
}

abbrev kims : Session
kims = record { client_sock = 4; current_user = utf8 "kim" }

abbrev pub fresh : Session
fresh = record { client_sock = 5; current_user = [] }

abbrev other : Session
other = record { client_sock = 6; current_user = [] }

abbrev pub io : Io
io = record { auth = good_io; scores_read = good_read; scores_write = good_write }

kim_once : sessions (utf8 "kim") table ≡ 1
unfolding sessions strcmp
kim_once = refl

pub lee_free : sessions (utf8 "lee") table ≡ 0
unfolding sessions strcmp
lee_free = refl

pub two_free : active table + 2 ≤ length table
unfolding active
two_free = omega arith

pub lee_enters :
    (login_user_impl good_read server.users (some (utf8 "lee")) (some (utf8 "two"))).0.success
    ≡ true
unfolding login_user_impl find_user_in_file all_lines read_lines parse_user strcmp strchr c_str
    str_copy
lee_enters = refl

login_strands_user_example :
    Ensures
      (λ h. sessions (utf8 "kim") (close_session h.server h.session).logged_in ≡ 1)
      (handle_login good_read server kims (some (utf8 "lee"), some (utf8 "two")))
login_strands_user_example =
    login_strands_user good_read server kims (utf8 "lee") (utf8 "kim") (some (utf8 "two")) refl
      kim_once (λ e. cc) lee_free

login_race_example :
    let looked = is_user_already_logged_in table (utf8 "lee") in
    let first = check_login good_read server fresh (some (utf8 "lee")) (some (utf8 "two")) looked in
    let second =
      check_login good_read first.server other (some (utf8 "lee")) (some (utf8 "two")) looked in
    sessions (utf8 "lee") second.server.logged_in ≡ 2
login_race_example =
    login_race good_read good_read server fresh other (utf8 "lee") (utf8 "two") lee_free two_free
      lee_enters lee_enters

handle_message-Frame_example :
    Ends
      (Frame server kims MessageType.score_submit_req)
      (Short kims MessageType.score_submit_req (1 ∷ []))
      (handle_message insertion_sort io server kims MessageType.score_submit_req (1 ∷ []))
handle_message-Frame_example =
    handle_message-Frame insertion_sort io server kims MessageType.score_submit_req (1 ∷ [])
