-- ===== src/Exchange/Accounts.antt =====
-- A client that registers and then logs in.
use rain_typing_game.Prelude.{
  ℕ, ◌<◌, ◌≡◌, ◌≢◌, sym, ap, subst, ◌∙◌, true, some, List, [], ◌∷◌, ◌++◌, Bytes, All, length, arith,
}
use rain_typing_game.Common.Protocol.{Response}
use rain_typing_game.Common.MessageType
use rain_typing_game.Common.Message.{length-encode_credentials}
use rain_typing_game.Server.Db.Users.{UserData, not_found}
use rain_typing_game.Server.Db.Users.Laws.{IsStorable, user_file, find}
use rain_typing_game.Server.Auth.{register_user_impl, login_user_impl}
use rain_typing_game.Server.Auth.Laws.{good_io}
use rain_typing_game.Server.Auth.Accounts.{register_then_login}
use rain_typing_game.Server.Scores.{Qsort}
use rain_typing_game.Server.Online.Laws.{sessions, active}
use rain_typing_game.Server.Handler.{Server, Session, Handled, Reply, response}
use rain_typing_game.Server.Handler.Requests.{handle_message-register, handle_message-login}
use rain_typing_game.Server.Reply.{reply_type, encode_reply}
use rain_typing_game.Server.Reply.Laws.{HasRoom}
use rain_typing_game.Server.Connection.{Round, handle_client}
use rain_typing_game.Client.Network.Requests.{register_request, login_request}
use rain_typing_game.Exchange.{wire, IsGood, handle_client-request}

-- What the server sends in a round for a response.
abbrev pub answered : Round → ℕ → Response → Bytes
answered r type resp = wire type (encode_reply r.memory (response type resp))

-- On a file of storable users, with system calls that succeed: the bytes of a registration and
-- then of a login that a client sends, for a storable user with a nonempty name that has no
-- record and no session, and a nonempty password, while a slot is free, make handle_client send
-- two answers of success; the session then has the user, who is in the table once.
pub register_then_login-exchange :
    (c_library : Qsort) (first second : Round) (rounds : List Round) (s : Server) (c : Session)
    (users : List UserData) (user : UserData) (stream : Bytes)
    → let registers = register_request user.username user.password in
      let logs_in = login_request user.username user.password in
      IsGood first registers
      → IsGood second logs_in
      → first.io.auth ≡ good_io
      → second.io.auth ≡ good_io
      → s.users ≡ some (user_file users)
      → All IsStorable users
      → IsStorable user
      → user.username ≢ []
      → user.password ≢ []
      → find user.username users ≡ not_found
      → sessions user.username s.logged_in ≡ 0
      → active s.logged_in < length s.logged_in
      → (s' : Server) × (c' : Session) × (registered entered : Response) × (handle_client c_library
            (first ∷ second ∷ rounds)
            s
            c
            (wire registers.type registers.body ++ (wire logs_in.type logs_in.body ++ stream))
            []
          ≡ handle_client c_library rounds s' c' stream (
              answered first MessageType.register_resp registered
              ++ answered second MessageType.login_resp entered))
        × (registered.success ≡ true)
        × (entered.success ≡ true)
        × (c'.current_user ≡ user.username)
        × (sessions user.username s'.logged_in ≡ 1)
register_then_login-exchange c_library first second rounds s c users user stream good₁ good₂ io₁ io₂
      file storable fits name password new free room =
    let r = register_user_impl first.io.auth s.users (some user.username) (some user.password) in
    let stored : r
        ≡ register_user_impl good_io (some (user_file users)) (some user.username)
            (some user.password) =
      ap (λ io. register_user_impl io s.users (some user.username) (some user.password)) io₁
      ∙ ap (λ f. register_user_impl good_io f (some user.username) (some user.password)) file in
    let (registers, enters) = register_then_login users user storable fits name password new in
    let s₁ = record s { users = r.0 } in
    let h₁ : Handled = record {
      server = s₁;
      session = c;
      reply = response MessageType.register_resp r.1;
    } in
    let l = login_user_impl second.io.auth.read r.0 (some user.username) (some user.password) in
    let accepted : l.0.success ≡ true =
      ap (λ io. (login_user_impl io.read r.0 (some user.username) (some user.password)).0.success)
        io₂
      ∙ ap
          (λ q.
            (login_user_impl good_io.read q.0 (some user.username) (some user.password)).0.success)
          stored
      ∙ enters in
    let (h₂, logged, entered) =
      handle_message-login c_library second.io s₁ c user.username user.password fits.name_string
        fits.password_string fits.name_fits fits.password_fits free accepted room in
    let size = length-encode_credentials user.username user.password in
    let answer = λ (reply : Reply). handle_client c_library rounds h₂.server h₂.session stream (
      answered first MessageType.register_resp r.1
      ++ wire (reply_type reply) (encode_reply second.memory reply)) in
    (
      h₂.server,
      h₂.session,
      r.1,
      l.0,
      handle_client-request c_library first s c (register_request user.username user.password) h₁
            good₁ (omega arith) (omega (arith, size))
            (handle_message-register c_library first.io s c user.username user.password
              fits.name_string fits.password_string fits.name_fits fits.password_fits)
            tt (second ∷ rounds) _ []
          ∙ handle_client-request c_library second s₁ c (login_request user.username user.password)
              h₂ good₂ (omega arith) (omega (arith, size)) logged
              (subst HasRoom (sym entered.reply) tt) rounds stream _
          ∙ ap answer entered.reply,
      ap (λ q. q.1.success) stored ∙ registers,
      accepted,
      entered.current_user,
      omega (arith, entered.session, free),
    )
