-- ===== src/First/Main.antt =====
-- tun_init and main of the first version.
use over.Base.{
  match_option, ℕ, zero, suc, not, Bool, true, false, Option, none, some, List, [], ◌∷◌, ◌==◌,
  if◌then◌else◌,
}
use over.Kernel.{Fd, Kernel, shells}
use over.Run.{pure, get_vars, put_vars, ◌>>=◌, ◌>>◌}
use over.Io.{ask}
use over.Server.State.{Command}
use over.First.Shared.{server_init, epoll_add_fd, process_server, process_hartbeat}
use over.Server.Boot.{open_tun, name_tun, epoll_create, init_users, init_bufs}
use over.Server.Serve.{epoll_wait, close_fd, close_users}
use over.First.Handlers.{process_tun, process_client}

module _ (k : Kernel) where
  unfoldable pub tun_init : Command (Option Fd)
  tun_init = do
    t ← open_tun k
    match_option t (pure none) λ fd. do
      named ← name_tun k fd
      if named then (do ask shells tt; ask shells tt; pure (some fd)) else pure none

  unfoldable pub handle_event : ℕ → Fd → Fd → Fd → Command (Unit {0})
  handle_event fuel server_fd tun_fd fd =
      if fd == server_fd
      then process_server k
      else if fd == tun_fd
      then process_tun k fuel tun_fd
      else process_client k fuel fd tun_fd

  unfoldable pub handle_events : ℕ → Fd → Fd → List Fd → Command (Unit {0})
  unfolding handle_event
  handle_events fuel server_fd tun_fd [] = pure tt
  handle_events fuel server_fd tun_fd (fd ∷ fds) = do
    handle_event fuel server_fd tun_fd fd
    handle_events fuel server_fd tun_fd fds

  -- The loop ends only where epoll_wait fails: `false`.
  unfoldable pub event_loop : ℕ → ℕ → Fd → Fd → Command Bool
  unfolding handle_events
  event_loop zero fuel server_fd tun_fd = pure true
  event_loop (suc rounds) fuel server_fd tun_fd = do
    events ← epoll_wait k
    match_option events (pure false) λ fds. do
      handle_events fuel server_fd tun_fd fds
      process_hartbeat k
      event_loop rounds fuel server_fd tun_fd

  -- What stands behind the label `clean`: the tun device, the socket and the clients.
  unfoldable pub clean : Option Fd → Option Fd → Command (Unit {0})
  clean tun_fd server_fd = do
    close_fd k tun_fd
    close_fd k server_fd
    s ← get_vars
    close_users k s.users

  unfoldable pub set_up : Fd → Fd → Command Bool
  set_up server_fd tun_fd = do
    e ← epoll_create k
    match_option e (pure false) λ epoll_fd. do
      added ← epoll_add_fd k server_fd
      if not added then pure false else do
        tun_added ← epoll_add_fd k tun_fd
        if not tun_added then pure false else do
          v ← get_vars
          put_vars (record v { users = init_users; bufs = init_bufs })
          pure true

  -- `stale` is what the variable tun_fd holds before it is written, which `clean` reads where
  -- server_init has failed. The result says whether the server still runs.
  unfoldable pub main : Option Fd → ℕ → ℕ → Command Bool
  unfolding tun_init event_loop clean set_up
  main stale rounds fuel = do
    s ← server_init k
    match_option s (do clean stale none; pure false)
        λ server_fd. do
          t ← tun_init
          match_option t (do clean none (some server_fd); pure false)
              λ tun_fd. do
                started ← set_up server_fd tun_fd
                running ← (if started then event_loop rounds fuel server_fd tun_fd else pure false)
                if running then pure true else (do clean (some tun_fd) (some server_fd); pure false)
