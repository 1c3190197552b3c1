-- ===== src/Server/Handler/Stranded.antt =====
-- What a login leaves in the table when its connection ends, and what two logins at once may do.
use rain_typing_game.Prelude.{
  ◌+◌, ◌≤◌, ◌<◌, ◌≡◌, ◌≢◌, inl, inr, refl, sym, subst, ap, ◌∙◌, Bool, true, false, Option, none,
  some, List, [], ◌∷◌, Bytes, ltb, if◌then◌else◌, length, arith, Bool-cases, Option-cases, str_eq,
}
use rain_typing_game.Common.Protocol.{max_id_len, Response}
use rain_typing_game.Common.Run.{ok, Ensures}
use rain_typing_game.Server.Db.Files.{ReadIo}
use rain_typing_game.Server.Auth.Login.{login_success}
use rain_typing_game.Server.Auth.{login_user_impl}
use rain_typing_game.Server.Online.{
  LoggedInUser, is_user_already_logged_in, add_logged_in_user, remove_logged_in_user,
}
use rain_typing_game.Server.Online.Laws.{
  sessions, active, is_user_already_logged_in-sessions, sessions-add, sessions-remove,
}
use rain_typing_game.Server.Handler.Requests.{check_login-Entered}
use rain_typing_game.Server.Handler.{
  Server, Session, Handled, refuse_login, enter_login, finish_login, check_login, handle_login,
  close_session,
}

-- The sessions of each user after the connection ends are those before the login.
abbrev Neutral : Server → Bytes → Handled → Type 0
Neutral s v h = sessions v (close_session h.server h.session).logged_in ≡ sessions v s.logged_in

close_nobody : (s : Server) (c : Session) → c.current_user ≡ [] → close_session s c ≡ s
unfolding close_session
close_nobody s c e = rw e

close_somebody :
    (s : Server) (c : Session)
    → c.current_user ≢ []
    → close_session s c ≡ record s { logged_in = remove_logged_in_user s.logged_in c.current_user }
unfolding close_session
close_somebody s c n =
    let e : ltb 0 (length c.current_user) ≡ true = positive c.current_user n in rw e
  where
    positive : (xs : Bytes) → xs ≢ [] → ltb 0 (length xs) ≡ true
    positive [] m = absurd (m refl)
    positive (x ∷ xs) m = ground arith

enter_login-Neutral :
    (s : Server) (c : Session) (resp : Response) (user v : Bytes)
    → user ≢ []
    → length user < max_id_len
    → (r : List LoggedInUser × Bool) → r ≡ add_logged_in_user s.logged_in user c.client_sock
    → Neutral s v (enter_login s c resp user r)
unfolding enter_login
enter_login-Neutral s c resp user v named fits (slots, true) e =
    rw (close_somebody (record s { logged_in = slots }) (record c { current_user = user }) named)
      (omega (arith, (sessions-remove slots user v).0, entered))
  where
    entered : sessions v slots ≡ sessions v s.logged_in + (if str_eq user v then 1 else 0)
    entered = ground (arith, sessions-add s.logged_in user v c.client_sock fits, e)
enter_login-Neutral s c resp user v named fits (slots, false) e =
    rw (close_nobody (record s { logged_in = slots }) (record c { current_user = [] }) refl)
      (ground (arith, sessions-add s.logged_in user v c.client_sock fits, e))

finish_login-Neutral :
    (io : ReadIo) (s : Server) (c : Session) (username hashed v : Bytes)
    → username ≢ []
    → Neutral s v (finish_login s c (login_user_impl io s.users (some username) (some hashed)))
unfolding finish_login
finish_login-Neutral io s c username hashed v named =
    let r = login_user_impl io s.users (some username) (some hashed) in
    elim (Bool-cases r.0.success) [
      | inl good ↦
          let (name, fits, _) = login_success io s.users username hashed good in
          rw good (
            enter_login-Neutral s c r.0 r.1 v (λ e. named (sym name ∙ e))
              (subst (λ n. length n < max_id_len) (sym name) fits) _ refl)
      | inr bad ↦
          rw bad (
            ap (λ t. sessions v t.logged_in) (close_nobody s (record c { current_user = [] }) refl))
    ]

check_login-Neutral :
    (io : ReadIo) (s : Server) (c : Session) (username v : Bytes) (password : Option Bytes)
    → username ≢ []
    → Neutral s v (check_login io s c (some username) password none)
unfolding check_login
check_login-Neutral io s c username v none named =
    unfold login_user_impl finish_login in
    ap (λ t. sessions v t.logged_in) (close_nobody s (record c { current_user = [] }) refl)
check_login-Neutral io s c username v (some hashed) named =
    finish_login-Neutral io s c username hashed v named

-- A connection without a user sends one login for a nonempty name, with any outcome, and ends:
-- each user has as many sessions as before.
login_then_close :
    (io : ReadIo) (s : Server) (c : Session) (username v : Bytes) (password : Option Bytes)
    → c.current_user ≡ []
    → username ≢ []
    → Ensures
        (λ h. sessions v (close_session h.server h.session).logged_in ≡ sessions v s.logged_in)
        (handle_login io s c (some username, password))
unfolding handle_login
login_then_close io s c username v password nobody named =
    elim (Option-cases (is_user_already_logged_in s.logged_in username)) [
      | inl free ↦ rw free (check_login-Neutral io s c username v password named)
      | inr (i, taken) ↦ rw taken (
          unfold check_login refuse_login in
          ap (λ t. sessions v t.logged_in) (close_nobody s c nobody))
    ]

-- A connection whose user has one session sends a login for a user with a nonempty name and no
-- session: whether that succeeds or fails, the first user still has a session after the
-- connection ends.
pub login_strands_user :
    (io : ReadIo) (s : Server) (c : Session) (username a : Bytes) (password : Option Bytes)
    → c.current_user ≡ a
    → sessions a s.logged_in ≡ 1
    → username ≢ []
    → sessions username s.logged_in ≡ 0
    → Ensures
        (λ h. sessions a (close_session h.server h.session).logged_in ≡ 1)
        (handle_login io s c (some username, password))
unfolding handle_login
login_strands_user io s c username a password own one named free =
    rw ((is_user_already_logged_in-sessions s.logged_in username).1 free)
      (check_login-Neutral io s c username a password named ∙ one)

-- A login for a user with a session is refused, by any connection and with any password, and
-- changes neither the server nor the connection.
pub login_refused :
    (io : ReadIo) (s : Server) (c : Session) (username : Bytes) (password : Option Bytes)
    → sessions username s.logged_in ≢ 0
    → handle_login io s c (some username, password) ≡ ok (refuse_login s c)
unfolding handle_login check_login
login_refused io s c username password busy =
    elim (Option-cases (is_user_already_logged_in s.logged_in username)) [
      | inl e ↦ absurd (busy ((is_user_already_logged_in-sessions s.logged_in username).0 e))
      | inr (i, e) ↦ rw e
    ]

-- If a user has no session and two slots are free, and two connections look the user up before
-- either is entered, then both of their logins with the right password enter the table and the
-- user has two sessions.
pub login_race :
    (io₁ io₂ : ReadIo) (s : Server) (c₁ c₂ : Session) (username hashed : Bytes)
    → sessions username s.logged_in ≡ 0
    → active s.logged_in + 2 ≤ length s.logged_in
    → (login_user_impl io₁ s.users (some username) (some hashed)).0.success ≡ true
    → (login_user_impl io₂ s.users (some username) (some hashed)).0.success ≡ true
    → let looked = is_user_already_logged_in s.logged_in username in
      let first = check_login io₁ s c₁ (some username) (some hashed) looked in
      let second = check_login io₂ first.server c₂ (some username) (some hashed) looked in
      sessions username second.server.logged_in ≡ 2
login_race io₁ io₂ s c₁ c₂ username hashed free room good₁ good₂ =
    let first = check_login io₁ s c₁ (some username) (some hashed) none in
    let one = check_login-Entered io₁ s c₁ username hashed good₁ (omega (arith, room)) in
    let two =
      check_login-Entered io₂ first.server c₂ username hashed
        (subst (λ f. (login_user_impl io₂ f (some username) (some hashed)).0.success ≡ true)
          (sym one.users) good₂)
        (omega (arith, room, one.slots_in_use, one.slots)) in
    rw ((is_user_already_logged_in-sessions s.logged_in username).1 free)
      (omega (arith, one.session, two.session, free))
