-- ===== src/Server/Handler/Slots.antt =====
-- A message takes no slot from a user unless its connection stops to be logged in as that user.
use rain_typing_game.Prelude.{
  ℕ, ◌+◌, ◌≤◌, ◌<◌, ◌≡◌, ◌≢◌, inl, inr, refl, sym, subst, Bool, true, false, Option, none, some,
  List, [], Bytes, ltb, ◌==◌, if◌then◌else◌, length, arith, Bool-cases, str_eq, str_eq_sound,
}
use rain_typing_game.Common.Protocol.{max_id_len, Response}
use rain_typing_game.Common.Run.{crash, Ensures, Ensures->>=, Ensures-if}
use rain_typing_game.Common.Message.{decode_credentials, decode_int}
use rain_typing_game.Common.MessageType
use rain_typing_game.Server.Db.Files.{ReadIo, WriteIo}
use rain_typing_game.Server.Auth.Login.{login_success}
use rain_typing_game.Server.Auth.{login_user_impl}
use rain_typing_game.Server.Scores.{Qsort}
use rain_typing_game.Server.Online.{LoggedInUser, add_logged_in_user}
use rain_typing_game.Server.Online.Laws.{sessions, sessions-add, sessions-remove}
use rain_typing_game.Server.Handler.{
  register_reads_past, login_reads_past, Server, Session, Handled, Io, refuse_login, enter_login,
  finish_login, check_login, any_active, handle_login, handle_score, handle_logout, handle_message,
  close_session,
}

-- 1 if the connection is logged in as the user.
abbrev pub own : Bytes → Session → ℕ
own v c = if str_eq c.current_user v then 1 else 0

-- What a connection may do to the slots of every user.
abbrev pub Gains : Server → Session → Handled → Type 0
Gains s c h =
    (v : Bytes)
    → v ≢ []
    → own v h.session + sessions v s.logged_in ≤ own v c + sessions v h.server.logged_in

pub nobody : (v : Bytes) → v ≢ [] → str_eq [] v ≡ false
nobody v n = elim (Bool-cases (str_eq [] v)) [
  | inl e ↦ absurd (n (sym (str_eq_sound [] v e)))
  | inr e ↦ e
]

enter_login-Gains :
    (s : Server) (c : Session) (resp : Response) (user : Bytes)
    → length user < max_id_len
    → (r : List LoggedInUser × Bool) → r ≡ add_logged_in_user s.logged_in user c.client_sock
    → Gains s c (enter_login s c resp user r)
unfolding enter_login
enter_login-Gains s c resp user fits (slots, true) e v n =
    ground (arith, sessions-add s.logged_in user v c.client_sock fits, e)
enter_login-Gains s c resp user fits (slots, false) e v n =
    ground (arith, sessions-add s.logged_in user v c.client_sock fits, e, nobody v n)

finish_login-Gains :
    (io : ReadIo) (s : Server) (c : Session) (username hashed : Bytes)
    → Gains s c (finish_login s c (login_user_impl io s.users (some username) (some hashed)))
unfolding finish_login
finish_login-Gains io s c username hashed =
    let r = login_user_impl io s.users (some username) (some hashed) in
    elim (Bool-cases r.0.success) [
      | inl good ↦
          let (name, fits, _) = login_success io s.users username hashed good in
          rw good (
            enter_login-Gains s c r.0 r.1 (subst (λ n. length n < max_id_len) (sym name) fits) _
              refl)
      | inr bad ↦ rw bad (λ v n. rw (nobody v n) (omega arith))
    ]

pub check_login-Gains :
    (io : ReadIo) (s : Server) (c : Session) (username password : Option Bytes) (slot : Option ℕ)
    → Gains s c (check_login io s c username password slot)
unfolding check_login refuse_login
check_login-Gains io s c username password (some i) v n = omega arith
check_login-Gains io s c none password none v n =
    unfold login_user_impl finish_login in rw (nobody v n) (omega arith)
check_login-Gains io s c (some username) none none v n =
    unfold login_user_impl finish_login in rw (nobody v n) (omega arith)
check_login-Gains io s c (some username) (some hashed) none v n =
    finish_login-Gains io s c username hashed v n

handle_login-Gains :
    (io : ReadIo) (s : Server) (c : Session) (req : Option Bytes × Option Bytes)
    → Ensures (Gains s c) (handle_login io s c req)
unfolding handle_login
handle_login-Gains io s c (none, password) =
    Ensures-if (Gains s c) (any_active s.logged_in) crash _ tt
      (check_login-Gains io s c none password none)
handle_login-Gains io s c (some username, password) =
    check_login-Gains io s c (some username) password _

handle_score-Gains :
    (io : WriteIo) (s : Server) (c : Session) (body : Bytes)
    → Ensures (Gains s c) (handle_score io s c body)
unfolding handle_score
handle_score-Gains io s c body =
    Ensures-if (Gains s c) (length c.current_user == 0) _ _ (λ v n. omega arith)
      (Ensures->>= (Gains s c) (decode_int body) _ (λ score v n. omega arith))

handle_logout-Gains : (s : Server) (c : Session) → Gains s c (handle_logout s c)
unfolding handle_logout
handle_logout-Gains s c v n = elim (Bool-cases (ltb 0 (length c.current_user))) [
  | inl e ↦ rw e (ground (arith, sessions-remove s.logged_in c.current_user v, nobody v n))
  | inr e ↦ rw e (omega arith)
]

module _ (c_library : Qsort) where
  pub handle_message-Gains :
      (io : Io) (s : Server) (c : Session) (type : ℕ) (body : Bytes)
      → Ensures (Gains s c) (handle_message c_library io s c type body)
  unfolding handle_message
  handle_message-Gains io s c type body =
      let P = Gains s c in
      Ensures-if P (type == MessageType.register_req) _ _
        (Ensures->>= P (decode_credentials register_reads_past body) _ (λ req v n. omega arith))
        (Ensures-if P (type == MessageType.login_req) _ _
          (Ensures->>= P (decode_credentials (login_reads_past io.auth.read s) body) _
            (handle_login-Gains io.auth.read s c))
          (Ensures-if P (type == MessageType.score_submit_req) _ _
            (handle_score-Gains io.scores_write s c body)
            (Ensures-if P (type == MessageType.leaderboard_req) _ _ (λ v n. omega arith)
              (Ensures-if P (type == MessageType.wordlist_req) _ _ (λ v n. omega arith)
                (Ensures-if P (type == MessageType.logout_req) _ _ (handle_logout-Gains s c)
                  (λ v n. omega arith))))))

pub close_session-Gains :
    (s : Server) (c : Session) (v : Bytes)
    → v ≢ []
    → sessions v s.logged_in ≤ own v c + sessions v (close_session s c).logged_in
unfolding close_session
close_session-Gains s c v n = elim (Bool-cases (ltb 0 (length c.current_user))) [
  | inl e ↦ rw e (ground (arith, sessions-remove s.logged_in c.current_user v))
  | inr e ↦ rw e (omega arith)
]
