-- ===== src/Server/System/Covered.antt =====
-- Each connection that is logged in has a slot of its own, whatever the threads do and however
-- they take turns.
use rain_typing_game.Prelude.{
  ℕ, ◌+◌, ◌≤◌, ◌≡◌, ◌≢◌, sym, subst, Option, none, some, List, [], ◌∷◌, ◌++◌, Bytes, arith,
  str_eq_refl,
}
use rain_typing_game.Common.Run.{ok, Ensures}
use rain_typing_game.Server.Db.Files.{ReadIo}
use rain_typing_game.Server.Scores.{Qsort}
use rain_typing_game.Server.Online.Laws.{sessions}
use rain_typing_game.Server.Handler.{Server, Session, refuse_login, handle_login, close_session}
use rain_typing_game.Server.Handler.Slots.{
  own, Gains, nobody, handle_message-Gains, check_login-Gains, close_session-Gains,
}
use rain_typing_game.Server.Handler.Stranded.{login_refused}
use rain_typing_game.Server.System.{
  Connection, System, at_rest, looking, among, Step, connect, handle, look_up, enter, close,
  Reaches, start, next,
}

-- The connections that are logged in as a user.
pub connected : Bytes → List Connection → ℕ
connected v [] = 0
connected v (x ∷ xs) = own v x.session + connected v xs

-- There are as many slots of each user as connections that are logged in as the user, at least.
IsCovered : System → Type 0
IsCovered s = (v : Bytes) → v ≢ [] → connected v s.connections ≤ sessions v s.server.logged_in

connected-append :
    (v : Bytes) (xs ys : List Connection) → connected v (xs ++ ys) ≡ connected v xs + connected v ys
unfolding connected
connected-append v [] ys = omega arith
connected-append v (x ∷ xs) ys = omega (arith, connected-append v xs ys)

-- One connection has gained what another state of it and of the server has, and the others are the
-- same.
replaced-IsCovered :
    (s s' : Server) (before here here' after : List Connection)
    → ((v : Bytes)
        → v ≢ []
        → connected v here' + sessions v s.logged_in ≤ connected v here + sessions v s'.logged_in)
    → IsCovered (among s before here after)
    → IsCovered (among s' before here' after)
unfolding IsCovered
replaced-IsCovered s s' before here here' after gains k v n = omega (
  arith,
  gains v n,
  k v n,
  connected-append v before (here ++ after),
  connected-append v here after,
  connected-append v before (here' ++ after),
  connected-append v here' after,
)

module _ (c_library : Qsort) where
  Step-IsCovered : (s t : System) → Step c_library s t → IsCovered s → IsCovered t
  unfolding connected IsCovered
  Step-IsCovered s t (connect client_sock e) k =
      subst IsCovered (sym e) (λ v n. ground (arith, k v n, nobody v n))
  Step-IsCovered s t (handle server before after c io type body h at e to) k =
      let gains : Gains server c h =
        subst (Ensures (Gains server c)) e (handle_message-Gains c_library io server c type body) in
      subst IsCovered (sym to) (
        replaced-IsCovered server h.server before (at_rest c ∷ []) (at_rest h.session ∷ []) after
          (λ v n. omega (arith, gains v n)) (subst IsCovered at k))
  Step-IsCovered s t (look_up server before after c username password at e to) k =
      subst IsCovered (sym to) (
        replaced-IsCovered server server before (at_rest c ∷ []) (looking c username password ∷ [])
          after (λ v n. omega arith) (subst IsCovered at k))
  Step-IsCovered s t (enter server before after c username password io h at e to) k =
      let gains : Gains server c h =
        subst (Gains server c) e (check_login-Gains io server c (some username) password none) in
      subst IsCovered (sym to) (
        replaced-IsCovered server h.server before (looking c username password ∷ [])
          (at_rest h.session ∷ []) after (λ v n. omega (arith, gains v n)) (subst IsCovered at k))
  Step-IsCovered s t (close server before after c at to) k = subst IsCovered (sym to) (
      replaced-IsCovered server (close_session server c) before (at_rest c ∷ []) [] after
        (λ v n. omega (arith, close_session-Gains server c v n)) (subst IsCovered at k))

  steps-IsCovered : (s t : System) → Reaches c_library s t → IsCovered s → IsCovered t
  steps-IsCovered s t start k = k
  steps-IsCovered s t (next {t = u} r step) k = Step-IsCovered u t step (steps-IsCovered s u r k)

  abbrev pub unconnected : Server → System
  unconnected server = record { server = server; connections = [] }

  unconnected-IsCovered : (server : Server) → IsCovered (unconnected server)
  unfolding IsCovered connected
  unconnected-IsCovered server v n = omega arith

  connected-among :
      (server : Server) (before after : List Connection) (c : Connection)
      → IsCovered (among server before (c ∷ []) after)
      → c.session.current_user ≢ []
      → sessions c.session.current_user server.logged_in ≢ 0
  unfolding IsCovered connected
  connected-among server before after c k named none_left =
      let v = c.session.current_user in
      ground (
        arith,
        k v named,
        none_left,
        str_eq_refl v,
        connected-append v before ((c ∷ []) ++ after),
        connected-append v (c ∷ []) after,
      )

  -- In every state that the threads of the server reach from a state without connections, by
  -- connections, messages with any outcome, ends of connections, and logins whose two halves are
  -- taken apart: a login for the user of some connection is refused, by whatever connection and
  -- with whatever password, and changes nothing.
  pub Reaches-login_refused :
      (server server' : Server) (before after : List Connection) (c : Connection)
      → Reaches c_library (unconnected server) (among server' before (c ∷ []) after)
      → c.session.current_user ≢ []
      → (io : ReadIo) (other : Session) (password : Option Bytes)
      → handle_login io server' other (some c.session.current_user, password)
        ≡ ok (refuse_login server' other)
  Reaches-login_refused server server' before after c r named io other password =
      login_refused io server' other c.session.current_user password (
        connected-among server' before after c
          (steps-IsCovered _ _ r (unconnected-IsCovered server)) named)
