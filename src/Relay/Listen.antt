-- ===== src/Relay/Listen.antt =====
-- server.cpp: startServer, and the constructor of ClientConnection.
use over.Base.{
  ℕ, zero, suc, Bool, true, false, Option, List, [], ◌∷◌, ◌++◌, ◌==◌, if◌then◌else◌, match_option,
}
use over.Kernel.{
  Fd, Bytes, Kernel, sockets, reuses, binds, listens, epoll_creates, epoll_adds, epoll_waits,
  accepts, peers,
}
use over.Run.{spent, pure, get_vars, put_vars, ◌>>=◌, ◌>>◌}
use over.Io.{ask}
use over.Relay.State.{Command, ClientConnection}

-- The constructor, with the address that accept gave.
unfoldable pub new_connection : Bytes → Fd → ClientConnection
new_connection address fd = record {
  socket_fd = fd;
  heart_beat_count = 0;
  ipv6 = address;
  ipv4 = [];
  write_queue = [];
}

module _ (k : Kernel) where
  unfoldable pub open_socket : Command (Option Fd)
  open_socket m = let a = k.socket m.log in ask (sockets a) a m

  unfoldable pub reuse : Fd → Command Bool
  reuse fd m = let a = k.set_reuse m.log fd in ask (reuses fd a) a m

  unfoldable pub bind_socket : Fd → Command Bool
  bind_socket fd m = let a = k.bind m.log fd in ask (binds fd a) a m

  unfoldable pub listen_socket : Fd → Command Bool
  listen_socket fd m = let a = k.listen m.log fd in ask (listens fd a) a m

  unfoldable pub create_epoll : Command (Option Fd)
  create_epoll m = let a = k.epoll_create m.log in ask (epoll_creates a) a m

  unfoldable pub add_epoll : Fd → Command Bool
  add_epoll fd m = let a = k.epoll_add m.log fd in ask (epoll_adds fd a) a m

  unfoldable pub wait_epoll : Command (Option (List Fd))
  wait_epoll m = let a = k.epoll_wait m.log in ask (epoll_waits a) a m

  unfoldable pub accept_client : Command (Option Fd)
  accept_client m = let a = k.accept m.log in ask (accepts a) a m

  unfoldable pub peer_of : Fd → Command Bytes
  peer_of fd m = let a = k.getpeername m.log fd in ask (peers fd a) a m

  -- A new connection; its threads run from here on.
  unfoldable pub welcome : Command (Unit {0})
  unfolding accept_client peer_of new_connection
  welcome = do
    fd ← accept_client
    match_option fd (pure tt) λ fd. do
      address ← peer_of fd
      s ← get_vars
      put_vars (record s { clients = s.clients ++ new_connection address fd ∷ [] })

  -- One pass of the loop: only the first event is looked at.
  unfoldable pub server_round : Fd → Command (Unit {0})
  unfolding wait_epoll welcome
  server_round server_fd = do
    events ← wait_epoll
    match_option events (pure tt) λ fds. first_event fds
    where
      first_event : List Fd → Command (Unit {0})
      first_event [] = pure tt
      first_event (fd ∷ fds) = if fd == server_fd then welcome else pure tt

  unfoldable pub server_loop : ℕ → Fd → Command (Unit {0})
  unfolding server_round
  server_loop zero fd = λ m. spent
  server_loop (suc f) fd = do server_round fd; server_loop f fd

  -- Before the loop the program exits on an error: `false`.
  unfoldable pub start_server : ℕ → Command Bool
  unfolding open_socket reuse bind_socket listen_socket create_epoll add_epoll server_loop
  start_server rounds = do
    socket ← open_socket
    match_option socket (pure false) λ server_fd. do
      _ ← reuse server_fd
      bound ← bind_socket server_fd
      if bound
          then (do
            heard ← listen_socket server_fd
            if heard
                then (do
                  epoll ← create_epoll
                  match_option epoll (pure false) λ epoll_fd. do
                    _ ← add_epoll server_fd
                    server_loop rounds server_fd
                    pure true)
                else pure false)
          else pure false
