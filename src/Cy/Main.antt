-- ===== src/Cy/Main.antt =====
-- main of server/cy/main.cpp.
use over.Base.{
  match_option, ℕ, zero, suc, Bool, true, false, Option, none, some, List, [], ◌∷◌, ◌==◌,
  if◌then◌else◌,
}
use over.Kernel.{Fd, Kernel}
use over.Run.{pure, ◌>>=◌, ◌>>◌}
use over.Server.State.{Command}
use over.Server.Serve.{epoll_wait}
use over.Cy.Shared.{
  server_init, tun_init, process_server, process_tun, process_client, process_heartbeat, set_up,
  clean,
}

module _ (k : Kernel) where
  unfoldable pub handle_event : ℕ → Fd → Fd → Fd → Command (Unit {0})
  handle_event fuel server_fd tun_fd fd =
      if fd == server_fd
      then process_server k
      else if fd == tun_fd
      then process_tun k fuel tun_fd
      else process_client k fuel fd tun_fd

  unfoldable pub handle_events : ℕ → Fd → Fd → List Fd → Command (Unit {0})
  unfolding handle_event
  handle_events fuel server_fd tun_fd [] = pure tt
  handle_events fuel server_fd tun_fd (fd ∷ fds) = do
    handle_event fuel server_fd tun_fd fd
    handle_events fuel server_fd tun_fd fds

  -- The result says whether the loop still runs after these rounds.
  unfoldable pub event_loop : ℕ → ℕ → Fd → Fd → Command Bool
  unfolding handle_events
  event_loop zero fuel server_fd tun_fd = pure true
  event_loop (suc rounds) fuel server_fd tun_fd = do
    events ← epoll_wait k
    match_option events (pure false) λ fds. do
      handle_events fuel server_fd tun_fd fds
      process_heartbeat k
      event_loop rounds fuel server_fd tun_fd

  -- `stale` is what the variable tun_fd holds before it is written.
  unfoldable pub main : Option Fd → ℕ → ℕ → Command Bool
  unfolding event_loop
  main stale rounds fuel = do
    s ← server_init k
    match_option s (do clean k stale none; pure false)
        λ server_fd. do
          t ← tun_init k
          match_option t (do clean k none (some server_fd); pure false)
              λ tun_fd. do
                started ← set_up k server_fd tun_fd
                running ← (if started then event_loop rounds fuel server_fd tun_fd else pure false)
                if running
                    then pure true
                    else (do clean k (some tun_fd) (some server_fd); pure false)
