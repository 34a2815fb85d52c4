-- ===== src/Server/Serve.antt =====
-- main: the event loop, on a number of rounds, and the closing of the descriptors when it ends.
use over.Base.{
  match_option, ℕ, zero, suc, Bool, true, false, Option, none, some, List, [], ◌∷◌, ◌==◌,
  if◌then◌else◌,
}
use over.Kernel.{Fd, Kernel, epoll_waits}
use over.Run.{pure, get_vars, ◌>>=◌, ◌>>◌}
use over.Io.{ask, close}
use over.Server.State.{Command, User}
use over.Server.Tun.{process_tun}
use over.Server.Client.{process_server, process_client}
use over.Server.Beat.{process_heartbeat}
use over.Server.Boot.{main_thread}

module _ (k : Kernel) where
  unfoldable pub epoll_wait : Command (Option (List Fd))
  epoll_wait m = let a = k.epoll_wait m.log in ask (epoll_waits a) a m

  -- `fuel` is for the loops of the handlers.
  unfoldable pub handle_event : ℕ → Fd → Fd → Fd → Command (Unit {0})
  handle_event fuel server_fd tun_fd fd =
      if fd == server_fd
      then process_server k
      else if fd == tun_fd
      then process_tun k fuel tun_fd
      else process_client k fuel fd tun_fd

  unfoldable pub handle_events : ℕ → Fd → Fd → List Fd → Command (Unit {0})
  unfolding handle_event
  handle_events fuel server_fd tun_fd [] = pure tt
  handle_events fuel server_fd tun_fd (fd ∷ fds) = do
    handle_event fuel server_fd tun_fd fd
    handle_events fuel server_fd tun_fd fds

  -- The result says whether the loop still runs after these rounds.
  unfoldable pub event_loop : ℕ → ℕ → Fd → Fd → Command Bool
  unfolding epoll_wait handle_events
  event_loop zero fuel server_fd tun_fd = pure true
  event_loop (suc rounds) fuel server_fd tun_fd = do
    events ← epoll_wait
    match_option events (pure false) λ fds. do
      handle_events fuel server_fd tun_fd fds
      process_heartbeat k
      event_loop rounds fuel server_fd tun_fd

  unfoldable pub close_fd : Option Fd → Command (Unit {0})
  close_fd none = pure tt
  close_fd (some fd) = close k fd

  unfoldable pub close_users : List User → Command (Unit {0})
  unfolding close_fd
  close_users [] = pure tt
  close_users (u ∷ us) = do close_fd u.fd; close_users us

  -- What stands behind the label `clean`.
  unfoldable pub clean : Command (Unit {0})
  unfolding close_fd close_users
  clean = do s ← get_vars; close_fd s.server_fd; close_fd s.tun_fd; close_users s.users

  -- The result says whether the server still runs.
  unfoldable pub main : ℕ → ℕ → Command Bool
  unfolding main_thread event_loop clean
  main rounds fuel = do
    started ← main_thread k
    s ← get_vars
    match_option s.server_fd (do clean; pure false)
        λ server_fd.
          match_option s.tun_fd (do clean; pure false)
            λ tun_fd. do
              running ← (if started then event_loop rounds fuel server_fd tun_fd else pure false)
              if running then pure true else (do clean; pure false)
