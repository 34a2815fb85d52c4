-- ===== src/Server/Boot.antt =====
-- ServerInit, TunInit and MainThread: opening the socket and the tun device, and the initial tables.
use over.Base.{
  match_option, ℕ, not, zero, suc, Bool, true, false, Option, none, some, List, [], ◌∷◌, ◌++◌,
  if◌then◌else◌, replicate, modify,
}
use over.Kernel.{
  Fd, Bytes, Kernel, sockets, reuses, binds, listens, tun_opens, tun_names, shells, epoll_creates,
}
use over.Run.{pure, get_vars, put_vars, ◌>>=◌, ◌>>◌}
use over.Io.{ask}
use over.Text.{codes, decimal}
use over.Server.State.{Command, User, client_num, max_fds}
use over.Server.Client.{epoll_add_fd}

-- ADDRESS_PREFIX "." followed by the number of the entry
unfoldable pub slot_addr : ℕ → Bytes
unfolding decimal
slot_addr i = codes "13.8.0." ++ decimal i

-- The loop's writes to an entry; the rest is zero, as in any static variable.
unfoldable pub fresh_user : ℕ → User
unfolding slot_addr
fresh_user i = record {
  addr = slot_addr i;
  status = true;
  fd = none;
  last_sent = 0;
  last_recved = 0;
  v4addr = 0;
  v6addr = [];
}

-- `n` entries from number `i` on.
unfoldable pub fresh_users : ℕ → ℕ → List User
unfolding fresh_user
fresh_users zero i = []
fresh_users (suc n) i = fresh_user i ∷ fresh_users n (suc i)

-- `users[i].status = 0` with no descriptor
unfoldable pub reserve : User → User
reserve u = record u { status = false }

-- The initial table; the addresses 0, 1 and 255 are never given out.
unfoldable pub init_users : List User
unfolding fresh_users reserve
init_users = modify reserve 255 (modify reserve 1 (modify reserve 0 (fresh_users client_num 0)))

unfoldable pub init_bufs : List Bytes
init_bufs = replicate max_fds []

module _ (k : Kernel) where
  unfoldable pub socket : Command (Option Fd)
  socket m = let a = k.socket m.log in ask (sockets a) a m

  unfoldable pub set_reuse : Fd → Command Bool
  set_reuse fd m = let a = k.set_reuse m.log fd in ask (reuses fd a) a m

  unfoldable pub bind : Fd → Command Bool
  bind fd m = let a = k.bind m.log fd in ask (binds fd a) a m

  unfoldable pub listen : Fd → Command Bool
  listen fd m = let a = k.listen m.log fd in ask (listens fd a) a m

  unfoldable pub open_tun : Command (Option Fd)
  open_tun m = let a = k.open_tun m.log in ask (tun_opens a) a m

  unfoldable pub name_tun : Fd → Command Bool
  name_tun fd m = let a = k.name_tun m.log fd in ask (tun_names fd a) a m

  unfoldable pub epoll_create : Command (Option Fd)
  epoll_create m = let a = k.epoll_create m.log in ask (epoll_creates a) a m

  -- ServerInit; `none` is -1.
  unfoldable pub server_init : Command (Option Fd)
  unfolding socket set_reuse bind listen
  server_init = do
    s ← socket
    match_option s (pure none) λ fd. do
      reused ← set_reuse fd
      if not reused then pure none else do
        bound ← bind fd
        if not bound
            then pure none
            else do listening ← listen fd; pure (if listening then some fd else none)

  -- TunInit, with its three shell commands.
  unfoldable pub tun_init : Command (Option Fd)
  unfolding open_tun name_tun
  tun_init = do
    t ← open_tun
    match_option t (pure none) λ fd. do
      named ← name_tun fd
      if named then (do ask shells tt; ask shells tt; ask shells tt; pure (some fd)) else pure none

  -- MainThread; `false` is its -1. The global descriptors are assigned whether or not a call fails.
  unfoldable pub main_thread : Command Bool
  unfolding server_init tun_init epoll_create epoll_add_fd init_users init_bufs
  main_thread = do
    s ← server_init
    v ← get_vars
    put_vars (record v { server_fd = s })
    match_option s (pure false) λ server_fd. do
      t ← tun_init
      v ← get_vars
      put_vars (record v { tun_fd = t })
      match_option t (pure false) λ tun_fd. do
        e ← epoll_create
        v ← get_vars
        put_vars (record v { epoll_fd = e })
        match_option e (pure false) λ epoll_fd. do
          added ← epoll_add_fd k server_fd
          if not added then pure false else do
            tun_added ← epoll_add_fd k tun_fd
            if not tun_added then pure false else do
              v ← get_vars
              put_vars (record v { users = init_users; bufs = init_bufs })
              pure true
