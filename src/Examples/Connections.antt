-- ===== src/Examples/Connections.antt =====
-- Connections of the server of `Sessions`, and a client that speaks to it.
use rain_typing_game.Prelude.{
  ℕ, suc, zero, ◌+◌, ◌≡◌, ◌≢◌, refl, ap, ◌∙◌, sym, true, none, some, List, [], ◌∷◌, ◌++◌, utf8,
  length, replicate, All-replicate, map, arith, strcmp, All,
}
use rain_typing_game.Common.Run.{ok, Ensures}
use rain_typing_game.Common.MessageType
use rain_typing_game.Common.Message.{encode_credentials, length-encode_credentials}
use rain_typing_game.Common.Protocol.{Response}
use rain_typing_game.Common.Socket.{Outcome, part, IsSteady, parts, Enough}
use rain_typing_game.Server.Db.Files.{good_read}
use rain_typing_game.Server.Db.Users.{UserData, not_found}
use rain_typing_game.Server.Db.Users.Laws.{find, IsStorable}
use rain_typing_game.Server.Online.Laws.{sessions, IsUnique, is_user_already_logged_in-sessions}
use rain_typing_game.Server.Handler.{
  Server, Session, Handled, check_login, refuse_login, handle_login, handle_message, wordlist_reply,
}
use rain_typing_game.Server.Handler.Requests.{check_login-Entered}
use rain_typing_game.Server.System.{among, at_rest, connect, look_up, enter, Reaches, start, next}
use rain_typing_game.Server.System.Covered.{unconnected, Reaches-login_refused}
use rain_typing_game.Server.Reply.{encode_reply}
use rain_typing_game.Server.Connection.{Round, handle_client}
use rain_typing_game.Server.Connection.Laws.{Holds, handle_client-IsUnique, handle_client-Reaches}
use rain_typing_game.Client.Network.{call, send_request_and_receive_response}
use rain_typing_game.Client.Network.Laws.{quiet}
use rain_typing_game.Client.Network.Requests.{wordlist_request, register_request, login_request}
use rain_typing_game.Exchange.{wire, sent_by, IsGood, handle_client-request, exchange}
use rain_typing_game.Exchange.Accounts.{answered, register_then_login-exchange}
use rain_typing_game.Examples.Insertion.{insertion_sort}
use rain_typing_game.Examples.Sessions.{
  server, fresh, io, table, table-IsUnique, lee_free, lee_enters, two_free,
}

abbrev lees : Handled
lees = check_login good_read server fresh (some (utf8 "lee")) (some (utf8 "two")) none

lees-Entered : lees.session.current_user ≡ utf8 "lee"
lees-Entered =
    let e =
      check_login-Entered good_read server fresh (utf8 "lee") (utf8 "two") lee_enters
        (omega (arith, two_free)) in
    e.current_user

lees_named : lees.session.current_user ≢ []
lees_named e = absurd (named (sym lees-Entered ∙ e))
  where
    named : utf8 "lee" ≢ []
    named e = cc

-- Lee connects, is looked up, and is entered.
lees_reached :
    Reaches insertion_sort
      (unconnected insertion_sort server)
      (among lees.server [] (at_rest lees.session ∷ []) [])
lees_reached =
    next
      (next (next start (connect 5 refl)) (
        look_up server [] [] fresh (utf8 "lee") (some (utf8 "two")) refl
          ((is_user_already_logged_in-sessions table (utf8 "lee")).1 lee_free) refl))
      (enter server [] [] fresh (utf8 "lee") (some (utf8 "two")) good_read lees refl refl refl)

Reaches-login_refused_example :
    handle_login good_read lees.server fresh (some lees.session.current_user, some (utf8 "two"))
    ≡ ok (refuse_login lees.server fresh)
Reaches-login_refused_example =
    Reaches-login_refused insertion_sort server lees.server [] [] (at_rest lees.session)
      lees_reached lees_named good_read fresh (some (utf8 "two"))

-- Calls that move 50 bytes each, as many as wanted.
abbrev calls : ℕ → List Outcome
calls n = replicate n (part 50)

parts-calls : (n : ℕ) → parts (calls n) ≡ n
unfolding parts
parts-calls zero = refl
parts-calls (suc n) = ap suc (parts-calls n)

calls-Enough : (n : ℕ) → Enough n (calls n)
calls-Enough n =
    (All-replicate IsSteady {a = part 50} n (omega arith), omega (arith, parts-calls n))

abbrev round : ℕ → Round
round n = record { mallocs = true; receive = calls n; io = io; memory = λ i. 7; send = calls 8202 }

handle_client-IsUnique_example :
    Ensures
      (Holds (λ s' c'. IsUnique s'.logged_in) (λ s'. IsUnique s'.logged_in))
      (handle_client insertion_sort (round 6 ∷ []) server fresh (wire MessageType.logout_req []) [])
handle_client-IsUnique_example =
    handle_client-IsUnique insertion_sort (round 6 ∷ []) server fresh
      (wire MessageType.logout_req []) table-IsUnique

handle_client-Reaches_example :
    Ensures
      (Holds
        (λ s' c'.
          Reaches insertion_sort
            (among server [] (at_rest fresh ∷ []) [])
            (among s' [] (at_rest c' ∷ []) []))
        (λ s'.
          Reaches insertion_sort (among server [] (at_rest fresh ∷ []) []) (among s' [] [] [])))
      (handle_client insertion_sort (round 6 ∷ []) server fresh (wire MessageType.logout_req []) [])
handle_client-Reaches_example =
    handle_client-Reaches insertion_sort (round 6 ∷ []) server fresh
      (wire MessageType.logout_req []) [] []

-- The request for the words.
abbrev words_sent : Handled
words_sent = record { server = server; session = fresh; reply = wordlist_reply (utf8 "rain" ∷ []) }

words_handled :
    handle_message insertion_sort io server fresh MessageType.wordlist_req [] ≡ ok words_sent
unfolding handle_message
words_handled = refl

words-IsGood : IsGood (round 6) wordlist_request
words-IsGood = record { mallocs = refl; receives = calls-Enough 6; sends = calls-Enough 8202 }

handle_client-request_example :
    handle_client insertion_sort
      (round 6 ∷ [])
      server
      fresh
      (wire MessageType.wordlist_req [] ++ [])
      []
    ≡ handle_client insertion_sort [] server fresh []
        ([] ++ wire MessageType.wordlist_resp (encode_reply (λ i. 7) words_sent.reply))
handle_client-request_example =
    handle_client-request insertion_sort (round 6) server fresh wordlist_request words_sent
      words-IsGood (omega arith) (omega arith) words_handled (omega arith) [] [] []

exchange_example :
    send_request_and_receive_response true quiet wordlist_request (map call (calls 8208)) (
      sent_by (
        handle_client insertion_sort
          (round 6 ∷ [])
          server
          fresh
          (wire MessageType.wordlist_req [] ++ [])
          [])
      ++ [])
    ≡ some (record {
      code = 0;
      connected = true;
      body = encode_reply (λ i. 7) words_sent.reply;
      stream = [];
    })
exchange_example =
    exchange insertion_sort (round 6) server fresh wordlist_request words_sent words-IsGood
      (omega arith) (omega arith) words_handled (omega arith) (calls 8208) [] [] (calls-Enough 8208)
      refl (omega arith) (λ e. omega (arith, e)) (omega arith)

-- Bob registers with the server, and logs in.
abbrev bob : UserData
bob = record { username = utf8 "bob"; password = utf8 "pw" }

abbrev users : List UserData
users =
    record { username = utf8 "kim"; password = utf8 "one" }
    ∷ record { username = utf8 "lee"; password = utf8 "two" }
    ∷ []

users-IsStorable : All IsStorable users
users-IsStorable = ground arith

bob-IsStorable : IsStorable bob
bob-IsStorable = ground arith

bob_new : find (utf8 "bob") users ≡ not_found
unfolding find strcmp
bob_new = refl

bob_free : sessions (utf8 "bob") table ≡ 0
unfolding sessions strcmp
bob_free = refl

credentials-Enough : Enough (6 + length (encode_credentials (utf8 "bob") (utf8 "pw"))) (calls 110)
credentials-Enough = (
  (calls-Enough 110).0,
  omega (arith, parts-calls 110, length-encode_credentials (utf8 "bob") (utf8 "pw")),
)

register-IsGood : IsGood (round 110) (register_request (utf8 "bob") (utf8 "pw"))
register-IsGood = record {
  mallocs = refl;
  receives = credentials-Enough;
  sends = calls-Enough 8202;
}

login-IsGood : IsGood (round 110) (login_request (utf8 "bob") (utf8 "pw"))
login-IsGood = record { mallocs = refl; receives = credentials-Enough; sends = calls-Enough 8202 }

register_then_login-exchange_example :
    let registers = register_request (utf8 "bob") (utf8 "pw") in
    let logs_in = login_request (utf8 "bob") (utf8 "pw") in
    (s' : Server) × (c' : Session) × (registered entered : Response) × (handle_client insertion_sort
        (round 110 ∷ round 110 ∷ [])
        server
        fresh
        (wire registers.type registers.body ++ (wire logs_in.type logs_in.body ++ []))
        []
      ≡ handle_client insertion_sort [] s' c' [] (
          answered (round 110) MessageType.register_resp registered
          ++ answered (round 110) MessageType.login_resp entered))
    × (registered.success ≡ true)
    × (entered.success ≡ true)
    × (c'.current_user ≡ utf8 "bob")
    × (sessions (utf8 "bob") s'.logged_in ≡ 1)
register_then_login-exchange_example =
    register_then_login-exchange insertion_sort (round 110) (round 110) [] server fresh users bob []
      register-IsGood login-IsGood refl refl refl users-IsStorable bob-IsStorable (λ e. cc)
      (λ e. cc) bob_new bob_free (omega (arith, two_free))
