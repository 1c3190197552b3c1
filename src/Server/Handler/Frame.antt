-- ===== src/Server/Handler/Frame.antt =====
-- What a message leaves alone.
use rain_typing_game.Prelude.{
  ◌<◌, ℕ, ◌≡◌, ◌≢◌, ◌⊎◌, refl, sym, ap, ◌∙◌, Bool, true, false, Option, none, some, List, Bytes, [],
  ◌==◌, ==_iff, ltb, length, if◌then◌else◌, arith, inl, inr,
}
use rain_typing_game.Common.Run.{crash, Ends, Ends->>=, Ends-weaken, Ends-if_cases}
use rain_typing_game.Common.Message.{
  decode_credentials, decode_int, Unended, decode_credentials-Ends, decode_int-Ends,
}
use rain_typing_game.Common.Protocol.{Response}
use rain_typing_game.Common.MessageType
use rain_typing_game.Server.Db.Files.{ReadIo, WriteIo}
use rain_typing_game.Server.Online.{LoggedInUser, add_logged_in_user}
use rain_typing_game.Server.Scores.{Qsort}
use rain_typing_game.Server.Handler.{
  Server, Session, Handled, Reply, Io, enter_login, finish_login, check_login, refuse_login,
  any_active, handle_login, handle_score, handle_logout, handle_message, register_reads_past,
  login_reads_past,
}

-- Accounts change by a registration only, scores by a score of a connection with a user only, and
-- the sessions by a login or logout only; the word list never changes.
pub record Frame (s : Server) (c : Session) (type : ℕ) (h : Handled) : Type 0 where
  pub users : type ≢ MessageType.register_req → h.server.users ≡ s.users
  pub scores :
      (type ≢ MessageType.score_submit_req) ⊎ (c.current_user ≡ []) → h.server.scores ≡ s.scores
  pub sessions :
      type ≢ MessageType.login_req
      → type ≢ MessageType.logout_req
      → (h.server.logged_in ≡ s.logged_in) × (h.session.current_user ≡ c.current_user)
  pub wordlist : h.server.wordlist ≡ s.wordlist
  pub client_sock : h.session.client_sock ≡ c.client_sock

-- Where a message leaves what C defines: a string of a registration or a login does not end within
-- the body, or the body of a score is too short and the connection has a user.
pub data Short (c : Session) (type : ℕ) (body : Bytes) : Type 0 where
  short_register : type ≡ MessageType.register_req → Unended body → Short c type body
  short_login : type ≡ MessageType.login_req → Unended body → Short c type body
  short_score :
      type ≡ MessageType.score_submit_req
      → length body < 4
      → c.current_user ≢ []
      → Short c type body

-- The same, where only the sessions may have changed.
abbrev Kept : Server → Session → Handled → Type 0
Kept s c h =
    (h.server.users ≡ s.users)
    × (h.server.scores ≡ s.scores)
    × (h.server.wordlist ≡ s.wordlist)
    × (h.session.client_sock ≡ c.client_sock)

enter_login-Kept :
    (s : Server) (c : Session) (resp : Response) (user : Bytes) (r : List LoggedInUser × Bool)
    → Kept s c (enter_login s c resp user r)
unfolding enter_login
enter_login-Kept s c resp user (slots, true) = (refl, refl, refl, refl)
enter_login-Kept s c resp user (slots, false) = (refl, refl, refl, refl)

Kept-if :
    (s : Server) (c : Session) (b : Bool) (h k : Handled)
    → Kept s c h
    → Kept s c k
    → Kept s c (if b then h else k)
Kept-if s c true h k p q = p
Kept-if s c false h k p q = q

finish_login-Kept :
    (s : Server) (c : Session) (r : Response × Bytes) → Kept s c (finish_login s c r)
unfolding finish_login
finish_login-Kept s c (resp, user) =
    Kept-if s c resp.success _ _
      (enter_login-Kept s c resp user (add_logged_in_user s.logged_in user c.client_sock))
      (refl, refl, refl, refl)

check_login-Kept :
    (io : ReadIo) (s : Server) (c : Session) (username password : Option Bytes) (slot : Option ℕ)
    → Kept s c (check_login io s c username password slot)
unfolding check_login refuse_login
check_login-Kept io s c username password (some i) = (refl, refl, refl, refl)
check_login-Kept io s c username password none = finish_login-Kept s c _

handle_login-Kept :
    (io : ReadIo) (s : Server) (c : Session) (req : Option Bytes × Option Bytes) (C : Type 0)
    → (req.0 ≡ none → C)
    → Ends (Kept s c) C (handle_login io s c req)
unfolding handle_login
handle_login-Kept io s c (none, password) C null =
    Ends-if_cases (Kept s c) C (any_active s.logged_in) crash _ (λ _. null refl)
      (λ _. check_login-Kept io s c none password none)
handle_login-Kept io s c (some username, password) C null =
    check_login-Kept io s c (some username) password _

handle_logout-Kept : (s : Server) (c : Session) → Kept s c (handle_logout s c)
unfolding handle_logout
handle_logout-Kept s c =
    Kept-if s c (ltb 0 (length c.current_user)) _ _ (refl, refl, refl, refl)
      (refl, refl, refl, refl)

-- A message for the sessions.
Kept-Frame :
    (s : Server) (c : Session) (type : ℕ)
    → (type ≡ MessageType.login_req) ⊎ (type ≡ MessageType.logout_req)
    → (h : Handled) → Kept s c h
    → Frame s c type h
Kept-Frame s c type e h (u, sc, w, sock) = record {
  users = λ n. u;
  scores = λ n. sc;
  sessions = λ n m. absurd (ground (arith, e, n, m));
  wordlist = w;
  client_sock = sock;
}

-- A score: a connection without a user changes nothing.
handle_score-Frame :
    (io : WriteIo) (s : Server) (c : Session) (type : ℕ) (body : Bytes)
    → type ≡ MessageType.score_submit_req
    → Ends (Frame s c type) (Short c type body) (handle_score io s c body)
unfolding handle_score
handle_score-Frame io s c type body e =
    Ends-if_cases (Frame s c type) _ (length c.current_user == 0) _ _
      (λ nobody. record {
        users = λ n. refl;
        scores = λ n. refl;
        sessions = λ n m. (refl, refl);
        wordlist = refl;
        client_sock = refl;
      })
      (λ somebody. Ends->>= (Frame s c type) _ (decode_int body) _ (
        Ends-weaken (λ _. Unit) _ (length body < 4) _ (decode_int body)
          (λ score _. record {
            users = λ n. refl;
            scores = λ n. absurd (no_change n somebody);
            sessions = λ n m. (refl, refl);
            wordlist = refl;
            client_sock = refl;
          })
          (λ short. short_score e short (λ k. no_change (inr k) somebody)) (decode_int-Ends body)))
  where
    no_change :
        (type ≢ MessageType.score_submit_req) ⊎ (c.current_user ≡ [])
        → (length c.current_user == 0) ≡ false
        → ⊥
    no_change (inl n) k = n e
    no_change (inr nobody) k = ground (arith, sym k ∙ ap (λ u. length u == 0) nobody)

same-Frame :
    (s : Server) (c : Session) (type : ℕ) (r : Reply)
    → Frame s c type (record { server = s; session = c; reply = r })
same-Frame s c type r = record {
  users = λ n. refl;
  scores = λ n. refl;
  sessions = λ n m. (refl, refl);
  wordlist = refl;
  client_sock = refl;
}

-- Whatever a message holds and whatever fails, one of two things happens. Either the message is
-- handled, and the accounts change by a registration only; the scores by a score only, and not on
-- a connection without a user; the sessions and the user of the connection by a login or a logout
-- only; the word list and the socket never change. Or the code reads outside the body, and this
-- only if the message is a registration or a login with a string that does not end within the
-- body, or a score of fewer than four bytes on a connection with a user.
pub handle_message-Frame :
    (c_library : Qsort) (io : Io) (s : Server) (c : Session) (type : ℕ) (body : Bytes)
    → Ends (Frame s c type) (Short c type body) (handle_message c_library io s c type body)
unfolding handle_message
handle_message-Frame c_library io s c type body =
    let F = Frame s c type in
    let S = Short c type body in
    Ends-if_cases F S (type == MessageType.register_req) _ _
      (λ e. Ends->>= F S (decode_credentials register_reads_past body) _ (
        Ends-weaken _ _ (Unended body) S (decode_credentials register_reads_past body)
          (λ req _. record {
            users = λ n. absurd (n ((==_iff _ _).0 e));
            scores = λ n. refl;
            sessions = λ n m. (refl, refl);
            wordlist = refl;
            client_sock = refl;
          })
          (short_register ((==_iff _ _).0 e)) (decode_credentials-Ends register_reads_past body)))
      (λ _.
        Ends-if_cases F S (type == MessageType.login_req) _ _
          (λ e. Ends->>= F S (decode_credentials (login_reads_past io.auth.read s) body) _ (
            Ends-weaken _ _ (Unended body) S
              (decode_credentials (login_reads_past io.auth.read s) body)
              (λ req null.
                Ends-weaken (Kept s c) F S S _ (Kept-Frame s c type (inl ((==_iff _ _).0 e)))
                  (λ u. u)
                  (handle_login-Kept io.auth.read s c req S
                    (λ n. short_login ((==_iff _ _).0 e) (null n))))
              (short_login ((==_iff _ _).0 e))
              (decode_credentials-Ends (login_reads_past io.auth.read s) body)))
          (λ _.
            Ends-if_cases F S (type == MessageType.score_submit_req) _ _
              (λ e. handle_score-Frame io.scores_write s c type body ((==_iff _ _).0 e))
              (λ _.
                Ends-if_cases F S (type == MessageType.leaderboard_req) _ _
                  (λ _. same-Frame s c type _)
                  (λ _.
                    Ends-if_cases F S (type == MessageType.wordlist_req) _ _
                      (λ _. same-Frame s c type _)
                      (λ _.
                        Ends-if_cases F S (type == MessageType.logout_req) _ _
                          (λ e.
                            Kept-Frame s c type (inr ((==_iff _ _).0 e)) _ (handle_logout-Kept s c))
                          (λ _. same-Frame s c type _))))))
