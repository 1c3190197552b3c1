-- ===== src/Server/Handler/Laws.antt =====
-- What messages may do to the shared state: who may submit, who may log in, and that one user has
-- one session as long as messages are handled one at a time.
use rain_typing_game.Prelude.{
  ℕ, ◌<◌, ◌≡◌, inl, inr, refl, sym, subst, Bool, true, false, Option, none, some, List, Bytes, ltb,
  ◌==◌, length, arith, Bool-cases, str_eq_sound,
}
use rain_typing_game.Common.Protocol.{max_id_len, Response}
use rain_typing_game.Common.Run.{crash, Ensures, Ensures->>=, Ensures-if}
use rain_typing_game.Common.Message.{decode_credentials, decode_int}
use rain_typing_game.Common.MessageType
use rain_typing_game.Server.Db.Files.{ReadIo, WriteIo}
use rain_typing_game.Server.Auth.Login.{login_success}
use rain_typing_game.Server.Auth.{login_user_impl}
use rain_typing_game.Server.Scores.{Qsort}
use rain_typing_game.Server.Online.{
  LoggedInUser, is_user_already_logged_in, add_logged_in_user, remove_logged_in_user,
}
use rain_typing_game.Server.Online.Laws.{
  sessions, IsUnique, is_user_already_logged_in-sessions, sessions-add, sessions-remove,
}
use rain_typing_game.Server.Handler.{
  register_reads_past, login_reads_past, Server, Session, Handled, Io, refuse_login, enter_login,
  finish_login, check_login, any_active, handle_login, handle_score, handle_logout, handle_message,
  close_session,
}

sessions-none :
    (slots : List LoggedInUser) (user : Bytes)
    → is_user_already_logged_in slots user ≡ none
    → sessions user slots ≡ 0
sessions-none slots user = (is_user_already_logged_in-sessions slots user).0

add-IsUnique :
    (slots : List LoggedInUser) (user : Bytes) (client_sock : ℕ)
    → length user < max_id_len
    → sessions user slots ≡ 0
    → IsUnique slots
    → IsUnique (add_logged_in_user slots user client_sock).0
add-IsUnique slots user client_sock fits free unique v =
    ground (arith, sessions-add slots user v client_sock fits, unique v, str_eq_sound user v)

remove-IsUnique :
    (slots : List LoggedInUser) (user : Bytes)
    → IsUnique slots
    → IsUnique (remove_logged_in_user slots user)
remove-IsUnique slots user unique v = omega (arith, (sessions-remove slots user v).0, unique v)

enter_login-IsUnique :
    (s : Server) (c : Session) (resp : Response) (user : Bytes) (r : List LoggedInUser × Bool)
    → IsUnique r.0
    → IsUnique (enter_login s c resp user r).server.logged_in
unfolding enter_login
enter_login-IsUnique s c resp user (slots, true) h = h
enter_login-IsUnique s c resp user (slots, false) h = h

finish_login-IsUnique :
    (io : ReadIo) (s : Server) (c : Session) (username hashed : Bytes)
    → sessions username s.logged_in ≡ 0
    → IsUnique s.logged_in
    → IsUnique
        (finish_login s c
          (login_user_impl io s.users (some username) (some hashed))).server.logged_in
unfolding finish_login
finish_login-IsUnique io s c username hashed free unique =
    let r = login_user_impl io s.users (some username) (some hashed) in
    elim (Bool-cases r.0.success) [
      | inl good ↦
          let (name, fits, _) = login_success io s.users username hashed good in
          rw good (
            enter_login-IsUnique s c r.0 r.1 _ (
              subst (λ n. IsUnique (add_logged_in_user s.logged_in n c.client_sock).0) (sym name)
                (add-IsUnique s.logged_in username c.client_sock fits free unique)))
      | inr bad ↦ rw bad unique
    ]

Keeps : Handled → Type 0
Keeps h = IsUnique h.server.logged_in

check_login-Keeps :
    (io : ReadIo) (s : Server) (c : Session) (username : Bytes) (password : Option Bytes)
    (slot : Option ℕ)
    → is_user_already_logged_in s.logged_in username ≡ slot
    → IsUnique s.logged_in
    → Keeps (check_login io s c (some username) password slot)
unfolding check_login refuse_login Keeps
check_login-Keeps io s c username password (some i) e unique = unique
check_login-Keeps io s c username none none e unique = unfold login_user_impl finish_login in unique
check_login-Keeps io s c username (some hashed) none e unique =
    finish_login-IsUnique io s c username hashed (sessions-none s.logged_in username e) unique

handle_login-Keeps :
    (io : ReadIo) (s : Server) (c : Session) (req : Option Bytes × Option Bytes)
    → IsUnique s.logged_in
    → Ensures Keeps (handle_login io s c req)
unfolding handle_login
handle_login-Keeps io s c (none, password) unique =
    Ensures-if Keeps (any_active s.logged_in) crash _ tt
      (unfold check_login login_user_impl finish_login Keeps in unique)
handle_login-Keeps io s c (some username, password) unique =
    check_login-Keeps io s c username password _ refl unique

handle_score-Keeps :
    (io : WriteIo) (s : Server) (c : Session) (body : Bytes)
    → IsUnique s.logged_in
    → Ensures Keeps (handle_score io s c body)
unfolding handle_score Keeps
handle_score-Keeps io s c body unique =
    Ensures-if Keeps (length c.current_user == 0) _ _ unique
      (Ensures->>= Keeps (decode_int body) _ (λ score. unique))

handle_logout-Keeps : (s : Server) (c : Session) → IsUnique s.logged_in → Keeps (handle_logout s c)
unfolding handle_logout Keeps
handle_logout-Keeps s c unique = elim (Bool-cases (ltb 0 (length c.current_user))) [
  | inl e ↦ rw e (remove-IsUnique s.logged_in c.current_user unique)
  | inr e ↦ rw e unique
]

-- If no user has two sessions, then no user has two after any message, whatever its type and body
-- are and whatever the system calls do.
pub handle_message-IsUnique :
    (c_library : Qsort) (io : Io) (s : Server) (c : Session) (type : ℕ) (body : Bytes)
    → IsUnique s.logged_in
    → Ensures (λ h. IsUnique h.server.logged_in) (handle_message c_library io s c type body)
unfolding handle_message Keeps
handle_message-IsUnique c_library io s c type body unique =
    Ensures-if Keeps (type == MessageType.register_req) _ _
      (Ensures->>= Keeps (decode_credentials register_reads_past body) _ (λ req. unique))
      (Ensures-if Keeps (type == MessageType.login_req) _ _
        (Ensures->>= Keeps (decode_credentials (login_reads_past io.auth.read s) body) _
          (λ req. handle_login-Keeps io.auth.read s c req unique))
        (Ensures-if Keeps (type == MessageType.score_submit_req) _ _
          (handle_score-Keeps io.scores_write s c body unique)
          (Ensures-if Keeps (type == MessageType.leaderboard_req) _ _ unique (
            Ensures-if Keeps (type == MessageType.wordlist_req) _ _ unique (
              Ensures-if Keeps (type == MessageType.logout_req) _ _ (handle_logout-Keeps s c unique)
                unique)))))

pub close_session-IsUnique :
    (s : Server) (c : Session) → IsUnique s.logged_in → IsUnique (close_session s c).logged_in
unfolding close_session
close_session-IsUnique s c unique = elim (Bool-cases (ltb 0 (length c.current_user))) [
  | inl e ↦ rw e (remove-IsUnique s.logged_in c.current_user unique)
  | inr e ↦ rw e unique
]
