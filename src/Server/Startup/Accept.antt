-- ===== src/Server/Startup/Accept.antt =====
-- The accept loop of server/src/server_main.c, its signal handler and its end.
pub mod Sockets
use rain_typing_game.Prelude.{
  ℕ, zero, suc, ◌+◌, ◌≤◌, ◌≡◌, ◌≢◌, refl, Bool, true, false, not, Option, none, some, List, [], ◌∷◌,
  ◌++◌, ◌==◌, if◌then◌else◌, arith, Bool-cases, inl, inr,
}

-- One round: what server_shutdown_requested is at the test of the loop, what accept returns (`none`
-- for -1), the flag behind it, and whether malloc and pthread_create succeed.
pub record Accept : Type 0 where
  pub shutdown : Bool
  pub client_sock : Option ℕ
  pub shutdown_after : Bool
  pub mallocs : Bool
  pub creates : Bool

-- The sockets that a thread serves and those that were closed, the calls of pthread_detach, and
-- whether the loop has ended.
pub record Loop : Type 0 where
  pub served : List ℕ
  pub closed : List ℕ
  pub detached : ℕ
  pub ended : Bool

abbrev no_loop : Bool → Loop
no_loop ended = record { served = []; closed = []; detached = 0; ended = ended }

abbrev closes : ℕ → Loop → Loop
closes sock l = record l { closed = sock ∷ l.closed }

abbrev serves : ℕ → Loop → Loop
serves sock l = record l { served = sock ∷ l.served; detached = l.detached + 1 }

-- pthread_detach is called behind a pthread_create that failed, too.
abbrev drops : ℕ → Loop → Loop
drops sock l = record l { closed = sock ∷ l.closed; detached = l.detached + 1 }

-- What happens to a connection, where `rest` is what the later rounds do.
pub accept_client : Accept → Loop → ℕ → Loop
accept_client a rest sock =
    if not a.mallocs
    then closes sock rest
    else if a.creates
    then serves sock rest
    else drops sock rest

stop_client : Option ℕ → Loop
stop_client none = no_loop true
stop_client (some sock) = closes sock (no_loop true)

next_client : Accept → Loop → Option ℕ → Loop
next_client a rest none = rest
next_client a rest (some sock) = accept_client a rest sock

pub accept_loop : List Accept → Loop
unfolding stop_client next_client
accept_loop [] = no_loop false
accept_loop (a ∷ later) =
    let rest = accept_loop later in
    let body =
      if a.shutdown_after then stop_client a.client_sock else next_client a rest a.client_sock in
    if a.shutdown then no_loop true else body

-- The sockets that accept returned in the rounds that the loop made.
abbrev pub came : Option ℕ → List ℕ → List ℕ
came none later = later
came (some sock) later = sock ∷ later

pub accepted : List Accept → List ℕ
accepted [] = []
accepted (a ∷ rounds) =
    let rest = accepted rounds in
    if a.shutdown
    then []
    else if a.shutdown_after
    then came a.client_sock []
    else came a.client_sock rest

-- `server_sock_fd`, the flag, and the descriptors that were closed.
pub record Listener : Type 0 where
  pub server_sock_fd : Option ℕ
  pub server_shutdown_requested : Bool
  pub closed_fds : List ℕ

-- `if (server_sock_fd != -1) …`
pub close_listener : Listener → Option ℕ → Listener
close_listener l none = l
close_listener l (some fd) = record l { server_sock_fd = none; closed_fds = fd ∷ l.closed_fds }

pub handle_server_sigint : Listener → Listener
unfolding close_listener
handle_server_sigint l =
    let seen = record l { server_shutdown_requested = true } in
    close_listener seen seen.server_sock_fd

-- The end of main behind the loop.
pub shut_down : Listener → Listener
unfolding close_listener
shut_down l = close_listener l l.server_sock_fd
