-- ===== src/Server/Handler/Requests.antt =====
-- What a registration and a login do that succeed.
use rain_typing_game.Prelude.{
  ◌+◌, ◌<◌, ◌≡◌, refl, sym, ap, subst, ◌∙◌, Bool, true, false, none, some, List, [], Bytes, Lacks,
  length, arith, str_eq_refl, if◌then◌else◌,
}
use rain_typing_game.Common.Protocol.{max_id_len, max_pw_len, Response}
use rain_typing_game.Common.Run.{ok, ◌>>=◌}
use rain_typing_game.Common.Message.{encode_credentials, decode-encode_credentials}
use rain_typing_game.Common.MessageType
use rain_typing_game.Server.Db.Files.{ReadIo}
use rain_typing_game.Server.Auth.Login.{login_success}
use rain_typing_game.Server.Auth.{register_user_impl, login_user_impl}
use rain_typing_game.Server.Scores.{Qsort}
use rain_typing_game.Server.Online.{LoggedInUser, add_logged_in_user}
use rain_typing_game.Server.Online.Laws.{
  sessions, active, is_user_already_logged_in-sessions, sessions-add, active-add,
}
use rain_typing_game.Server.Handler.{
  register_reads_past, login_reads_past, Server, Session, Handled, response, Io, login_reply,
  enter_login, finish_login, check_login, handle_register, handle_login, handle_message,
}

-- The session is the user's, the reply is that of the login, the user has one session more, in one
-- slot more of a table of the same length, and the accounts are the same.
pub record Entered (s : Server) (user : Bytes) (resp : Response) (h : Handled) : Type 0 where
  pub current_user : h.session.current_user ≡ user
  pub reply : h.reply ≡ login_reply resp
  pub session : sessions user h.server.logged_in ≡ sessions user s.logged_in + 1
  pub slots_in_use : active h.server.logged_in ≡ active s.logged_in + 1
  pub slots : length h.server.logged_in ≡ length s.logged_in
  pub users : h.server.users ≡ s.users

enter_login-Entered :
    (s : Server) (c : Session) (resp : Response) (user : Bytes)
    → length user < max_id_len
    → active s.logged_in < length s.logged_in
    → (r : List LoggedInUser × Bool) → r ≡ add_logged_in_user s.logged_in user c.client_sock
    → Entered s user resp (enter_login s c resp user r)
unfolding enter_login
enter_login-Entered s c resp user fits room (slots, true) e = record {
  current_user = refl;
  reply = refl;
  session =
      ground (arith, sessions-add s.logged_in user user c.client_sock fits, str_eq_refl user, e);
  slots_in_use = ap (λ r. active r.0) e ∙ active-add s.logged_in user c.client_sock room;
  slots = ground (arith, sessions-add s.logged_in user user c.client_sock fits, e);
  users = refl;
}
enter_login-Entered s c resp user fits room (slots, false) e =
    absurd (ground (arith, room, sessions-add s.logged_in user user c.client_sock fits, e))

pub check_login-Entered :
    (io : ReadIo) (s : Server) (c : Session) (username hashed : Bytes)
    → let r = login_user_impl io s.users (some username) (some hashed) in
      r.0.success ≡ true
      → active s.logged_in < length s.logged_in
      → Entered s username r.0 (check_login io s c (some username) (some hashed) none)
unfolding check_login finish_login
check_login-Entered io s c username hashed good room =
    let r = login_user_impl io s.users (some username) (some hashed) in
    let (name, fits, _) = login_success io s.users username hashed good in
    subst
      (λ b. Entered s username r.0 (
        if b
        then enter_login s c r.0 r.1 (add_logged_in_user s.logged_in r.1 c.client_sock)
        else record {
          server = s;
          session = record c { current_user = [] };
          reply = login_reply r.0;
        }))
      (sym good)
      (subst
        (λ n.
          Entered s n r.0
            (enter_login s c r.0 r.1 (add_logged_in_user s.logged_in r.1 c.client_sock)))
        name
        (enter_login-Entered s c r.0 r.1 (subst (λ n. length n < max_id_len) (sym name) fits) room _
          refl))

module _ (c_library : Qsort) (io : Io) (s : Server) (c : Session) (username hashed : Bytes)
    (whole_name : Lacks 0 username) (whole_hash : Lacks 0 hashed)
    (name_fits : length username < max_id_len) (hash_fits : length hashed < max_pw_len) where
  pub handle_message-register :
      let r = register_user_impl io.auth s.users (some username) (some hashed) in
      handle_message c_library io s c MessageType.register_req (encode_credentials username hashed)
      ≡ ok (record {
        server = record s { users = r.0 };
        session = c;
        reply = response MessageType.register_resp r.1;
      })
  unfolding handle_message handle_register
  handle_message-register =
      ap (λ d. d >>= λ req. ok (handle_register io s c req))
        (decode-encode_credentials register_reads_past username hashed whole_name whole_hash
          name_fits hash_fits)

  pub handle_message-login :
      let r = login_user_impl io.auth.read s.users (some username) (some hashed) in
      sessions username s.logged_in ≡ 0
      → r.0.success ≡ true
      → active s.logged_in < length s.logged_in
      → (h : Handled) × (handle_message c_library io s c MessageType.login_req
            (encode_credentials username hashed)
          ≡ ok h)
        × Entered s username r.0 h
  unfolding handle_message handle_login
  handle_message-login free good room = (
    check_login io.auth.read s c (some username) (some hashed) none,
    ap (λ d. d >>= handle_login io.auth.read s c)
          (decode-encode_credentials (login_reads_past io.auth.read s) username hashed whole_name
            whole_hash name_fits hash_fits)
        ∙ ap (λ slot. ok (check_login io.auth.read s c (some username) (some hashed) slot))
            ((is_user_already_logged_in-sessions s.logged_in username).1 free),
    check_login-Entered io.auth.read s c username hashed good room,
  )
