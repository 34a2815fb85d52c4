-- ===== src/Vpn/Main.antt =====
-- connectServer and vpn_main of jni/vpn.cpp.
use over.Base.{
  ℕ, zero, suc, Bool, true, false, Option, none, some, List, [], ◌∷◌, ◌==◌, if◌then◌else◌,
  match_option, match_int, length, not,
}
use over.Kernel.{Fd, Kernel, sockets, connects, polls}
use over.Run.{pure, get_vars, ◌>>=◌, ◌>>◌}
use over.Io.{ask, close}
use over.Vpn.State.{Vars, Command, get_tun_fd}
use over.Vpn.Socket.{handle_socket}
use over.Vpn.Handlers.{protocol_init, handle_tunnel, handle_command, handle_heartbeat}

abbrev pub mentions : List Fd → Fd → Bool
mentions [] fd = false
mentions (x ∷ xs) fd = if x == fd then true else mentions xs fd

-- `fd == get_tun_fd()`
abbrev pub is_tun : Fd → Vars → Bool
is_tun fd s = match_int (get_tun_fd s) (λ tun. fd == tun) (λ n. false)

-- The descriptors given to poll: the socket, the commands, and the tun device once it is set.
unfoldable pub poll_fds : Fd → Fd → Vars → List Fd
unfolding get_tun_fd
poll_fds socket command s = socket ∷ command ∷ match_int (get_tun_fd s) (λ tun. tun ∷ []) (λ n. [])

module _ (k : Kernel) where
  unfoldable pub new_socket : Command (Option Fd)
  new_socket m = let a = k.socket m.log in ask (sockets a) a m

  unfoldable pub connect_to : Fd → Command Bool
  connect_to fd m = let a = k.connect m.log fd in ask (connects fd a) a m

  -- The result `none` is -1. inet_pton of an IPv6 address never gives a negative value, so its check
  -- never fails.
  unfoldable pub connect_server : Command (Option Fd)
  unfolding new_socket connect_to
  connect_server = do
    s ← new_socket
    match_option s (pure none)
        λ fd. do good ← connect_to fd; if good then pure (some fd) else (close k fd >> pure none)

  unfoldable pub poll : List Fd → Command (Option (List Fd))
  poll fds m = let a = k.poll m.log fds in ask (polls a) a m

  module _ (fuel : ℕ) where
    -- The handlers for one descriptor that poll reports, which may hold several of the three roles.
    -- The result says whether the loop goes on.
    unfoldable pub serve_command : Fd → Fd → Command Bool
    unfolding handle_command
    serve_command command fd =
        if fd == command
        then (do r ← handle_command k fuel; pure (match_int r (λ n. not (n == 1)) (λ n. false)))
        else pure true

    unfoldable pub serve_socket : Fd → Fd → Command Bool
    unfolding handle_socket
    serve_socket socket fd = if fd == socket then handle_socket k fuel else pure true

    unfoldable pub serve_tun : Fd → Command Bool
    unfolding handle_tunnel get_tun_fd
    serve_tun fd = do s ← get_vars; if is_tun fd s then handle_tunnel k else pure true

    unfoldable pub serve_fd : Fd → Fd → Fd → Command Bool
    unfolding serve_command serve_socket serve_tun
    serve_fd socket command fd = do
      a ← serve_command command fd
      if a
          then (do b ← serve_socket socket fd; if b then serve_tun fd else pure false)
          else pure false

    -- `for (i = 0; i < fds.size(); i++)`
    unfoldable pub serve_fds : Fd → Fd → List Fd → List Fd → Command Bool
    unfolding serve_fd
    serve_fds socket command ready [] = pure true
    serve_fds socket command ready (fd ∷ fds) =
        if mentions ready fd
        then (do
          more ← serve_fd socket command fd
          if more then serve_fds socket command ready fds else pure false)
        else serve_fds socket command ready fds

    -- One pass of the loop. poll's result is the number of descriptors that it reports.
    unfoldable pub vpn_round : Fd → Fd → Command Bool
    unfolding poll poll_fds handle_heartbeat serve_fds
    vpn_round socket command = do
      s ← get_vars
      let fds = poll_fds socket command s
      ret ← poll fds
      match_option ret (pure false) λ ready. do
        alive ← handle_heartbeat k
        if alive
            then (if length ready == 0 then pure true else serve_fds socket command ready fds)
            else pure false

    -- The result says whether the loop still runs after these rounds.
    unfoldable pub vpn_loop : ℕ → Fd → Fd → Command Bool
    unfolding vpn_round
    vpn_loop zero socket command = pure true
    vpn_loop (suc n) socket command = do
      more ← vpn_round socket command
      if more then vpn_loop n socket command else pure false

    -- After the label `exit`; an `int` that is negative is not closed.
    unfoldable pub close_all : Option Fd → Fd → Fd → Command (Unit {0})
    unfolding get_tun_fd
    close_all socket command response = do
      match_option socket (pure tt) (λ fd. close k fd)
      close k command
      close k response
      s ← get_vars
      match_int (get_tun_fd s) (λ tun. close k tun) (λ n. pure tt)

    -- The result says whether the client still runs.
    unfoldable pub vpn_main : ℕ → Fd → Fd → Command Bool
    unfolding connect_server protocol_init vpn_loop close_all
    vpn_main rounds command response = do
      socket ← connect_server
      running ←
          match_option socket (pure false)
            λ fd. (protocol_init k fd command response >> vpn_loop rounds fd command)
      if running then pure true else (close_all socket command response >> pure false)
