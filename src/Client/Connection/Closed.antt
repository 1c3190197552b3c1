-- ===== src/Client/Connection/Closed.antt =====
-- What becomes of the sockets that the client opens.
use rain_typing_game.Prelude.{
  ℕ, ◌+◌, ◌≡◌, refl, ap, ◌∙◌, Bool, true, false, Option, none, some, List, [], ◌∷◌, ◌==◌,
  if◌then◌else◌, arith, count, Option-cases, inl, inr,
}
use rain_typing_game.Client.Connection.{
  Sockets, disconnect_from, disconnect_from_server, connect_new, connect_if_none, connect_to_server,
  Held, perform_cleanup_and_exit,
}

-- A call of one of the two functions.
pub data Call : Type 0 where
  connects : Option ℕ → Bool → Call
  disconnects : Call

run_call : Call → Sockets → Sockets
run_call (connects new succeeds) s = (connect_to_server new succeeds s).0
run_call disconnects s = disconnect_from_server s

pub run_calls : List Call → Sockets → Sockets
run_calls [] s = s
run_calls (c ∷ cs) s = run_calls cs (run_call c s)

abbrev pub no_sockets : Sockets
no_sockets = record { client_sock = none; opened_fds = []; closed_fds = [] }

abbrev here : ℕ → Option ℕ → ℕ
here fd none = 0
here fd (some held) = if held == fd then 1 else 0

-- Each descriptor that was opened was closed as often, but for the one that is held.
abbrev Accounted : ℕ → Sockets → Type 0
Accounted fd s = count fd s.opened_fds ≡ here fd s.client_sock + count fd s.closed_fds

disconnect-Accounted :
    (fd : ℕ) (s : Sockets) → Accounted fd s → Accounted fd (disconnect_from_server s)
unfolding disconnect_from_server disconnect_from
disconnect-Accounted fd s h = elim (Option-cases s.client_sock) [
  | inl e ↦ ground (arith, e, h)
  | inr (held, e) ↦ ground (arith, e, h)
]

connect_new-Accounted :
    (fd : ℕ) (new : Option ℕ) (succeeds : Bool) (s : Sockets)
    → s.client_sock ≡ none
    → Accounted fd s
    → Accounted fd (connect_new new succeeds s).0
unfolding connect_new
connect_new-Accounted fd none succeeds s e h = h
connect_new-Accounted fd (some new) true s e h = ground (arith, e, h)
connect_new-Accounted fd (some new) false s e h = ground (arith, e, h)

connect_if_none-Accounted :
    (fd : ℕ) (held new : Option ℕ) (succeeds : Bool) (s : Sockets)
    → s.client_sock ≡ held
    → Accounted fd s
    → Accounted fd (connect_if_none held new succeeds s).0
unfolding connect_if_none
connect_if_none-Accounted fd none new succeeds s e h = connect_new-Accounted fd new succeeds s e h
connect_if_none-Accounted fd (some held) new succeeds s e h = h

connect-Accounted :
    (fd : ℕ) (new : Option ℕ) (succeeds : Bool) (s : Sockets)
    → Accounted fd s
    → Accounted fd (connect_to_server new succeeds s).0
unfolding connect_to_server
connect-Accounted fd new succeeds s h = connect_if_none-Accounted fd _ new succeeds s refl h

disconnected_from :
    (s : Sockets) (held : Option ℕ)
    → s.client_sock ≡ held
    → (disconnect_from s held).client_sock ≡ none
unfolding disconnect_from
disconnected_from s none e = e
disconnected_from s (some fd) e = refl

disconnected : (s : Sockets) → (disconnect_from_server s).client_sock ≡ none
unfolding disconnect_from_server
disconnected s = disconnected_from s s.client_sock refl

run_calls-Accounted :
    (fd : ℕ) (cs : List Call) (s : Sockets) → Accounted fd s → Accounted fd (run_calls cs s)
unfolding run_calls run_call
run_calls-Accounted fd [] s h = h
run_calls-Accounted fd (connects new succeeds ∷ cs) s h =
    run_calls-Accounted fd cs _ (connect-Accounted fd new succeeds s h)
run_calls-Accounted fd (disconnects ∷ cs) s h =
    run_calls-Accounted fd cs _ (disconnect-Accounted fd s h)

-- Behind the exit, whatever calls of connect_to_server and disconnect_from_server came before and
-- whatever `socket` and `connect` did, no socket is held, and each descriptor was closed as often
-- as it was opened.
pub perform_cleanup_and_exit-closed :
    (cs : List Call) (h : Held) (fd : ℕ)
    → h.sockets ≡ run_calls cs no_sockets
    → let k = perform_cleanup_and_exit h in
      (k.sockets.client_sock ≡ none)
      × (count fd k.sockets.opened_fds ≡ count fd k.sockets.closed_fds)
unfolding perform_cleanup_and_exit
perform_cleanup_and_exit-closed cs h fd e =
    let s = run_calls cs no_sockets in
    let closed = disconnect-Accounted fd s (run_calls-Accounted fd cs no_sockets refl) in
    let gone = disconnected s in
    let there : disconnect_from_server h.sockets ≡ disconnect_from_server s =
      ap disconnect_from_server e in
    (ap (λ k. k.client_sock) there ∙ gone, rw there (ground (arith, closed, gone)))
