-- ===== src/Server/Startup/Accept/Sockets.antt =====
-- What becomes of the sockets that the server accepts, and of the one that it listens on.
use rain_typing_game.Prelude.{
  count, ℕ, zero, suc, ◌+◌, ◌≡◌, ◌⊎◌, inl, inr, refl, Bool, true, false, Option, none, some, List,
  [], ◌∷◌, ◌==◌, if◌then◌else◌, arith,
}
use rain_typing_game.Server.Startup.Accept.{
  Accept, Loop, accept_client, stop_client, next_client, accept_loop, came, accepted, Listener,
  close_listener, handle_server_sigint, shut_down,
}

accept_client-counts :
    (a : Accept) (l : Loop) (m sock : ℕ)
    → let k = accept_client a l m in
      count sock k.served + count sock k.closed
      ≡ (if m == sock then 1 else 0) + (count sock l.served + count sock l.closed)
unfolding accept_client
accept_client-counts a l m sock = ground arith

abbrev Balanced : ℕ → Loop → List ℕ → Type 0
Balanced sock l socks = count sock l.served + count sock l.closed ≡ count sock socks

Balanced-if :
    (sock : ℕ) (b : Bool) (k l : Loop) (xs ys : List ℕ)
    → Balanced sock k xs
    → Balanced sock l ys
    → Balanced sock (if b then k else l) (if b then xs else ys)
Balanced-if sock true k l xs ys h g = h
Balanced-if sock false k l xs ys h g = g

stop_client-Balanced : (sock : ℕ) (r : Option ℕ) → Balanced sock (stop_client r) (came r [])
unfolding stop_client
stop_client-Balanced sock none = refl
stop_client-Balanced sock (some m) = omega arith

next_client-Balanced :
    (a : Accept) (sock : ℕ) (l : Loop) (socks : List ℕ) (r : Option ℕ)
    → Balanced sock l socks
    → Balanced sock (next_client a l r) (came r socks)
unfolding next_client
next_client-Balanced a sock l socks none h = h
next_client-Balanced a sock l socks (some m) h = omega (arith, accept_client-counts a l m sock, h)

-- Whatever accept, malloc and pthread_create do and whenever the shutdown comes: each socket that
-- accept returned is given to a thread or closed as often as it was returned, and no other one
-- is.
pub accept_loop-accepted :
    (rounds : List Accept) (sock : ℕ)
    → let l = accept_loop rounds in
      count sock l.served + count sock l.closed ≡ count sock (accepted rounds)
unfolding accept_loop accepted
accept_loop-accepted [] sock = refl
accept_loop-accepted (a ∷ rounds) sock = Balanced-if sock a.shutdown _ _ [] _ refl (
    Balanced-if sock a.shutdown_after _ _ (came a.client_sock []) _
      (stop_client-Balanced sock a.client_sock)
      (next_client-Balanced a sock _ _ a.client_sock (accept_loop-accepted rounds sock)))

signals : ℕ → Listener → Listener
signals zero l = l
signals (suc n) l = handle_server_sigint (signals n l)

-- The descriptor is open, or it was closed once.
OpenOrClosed : ℕ → Listener → Listener → Type 0
OpenOrClosed fd l k =
    ((k.server_sock_fd ≡ some fd) × (k.closed_fds ≡ l.closed_fds))
    ⊎ ((k.server_sock_fd ≡ none) × (k.closed_fds ≡ fd ∷ l.closed_fds))

signals-OpenOrClosed :
    (n fd : ℕ) (l : Listener) → l.server_sock_fd ≡ some fd → OpenOrClosed fd l (signals n l)
unfolding OpenOrClosed signals handle_server_sigint close_listener
signals-OpenOrClosed zero fd l e = inl (e, refl)
signals-OpenOrClosed (suc n) fd l e = elim (signals-OpenOrClosed n fd l e) [
  | inl (o, c) ↦ inr (ground (arith, o, c))
  | inr (o, c) ↦ inr (ground (arith, o, c))
]

-- The descriptor of the listener is closed exactly once, however many signals came before the end
-- of main.
shut_down-closed :
    (n fd : ℕ) (l : Listener)
    → l.server_sock_fd ≡ some fd
    → let k = shut_down (signals n l) in
      (k.server_sock_fd ≡ none) × (k.closed_fds ≡ fd ∷ l.closed_fds)
unfolding shut_down close_listener OpenOrClosed
shut_down-closed n fd l e = elim (signals-OpenOrClosed n fd l e) [
  | inl (o, c) ↦ ground (arith, o, c)
  | inr (o, c) ↦ ground (arith, o, c)
]
