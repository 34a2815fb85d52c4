-- ===== src/Droid/Main.antt =====
-- The event loop and main of DroidOver6Server.c.
use over.Base.{
  ℕ, zero, suc, ◌-◌, Bool, true, false, not, ◌&&◌, Option, none, some, List, [], ◌∷◌, ◌==◌, ltb,
  if◌then◌else◌, match_option, length,
}
use over.Kernel.{
  Fd, Kernel, Flags, Log, sockets, reuses, binds, listens, accepts, peers, tun_opens, tun_names,
  epoll_creates, epoll_adds, epoll_mods, epoll_waits, nonblocks,
}
use over.Run.{pure, get_vars, put_vars, ◌>>=◌, ◌>>◌}
use over.Io
use over.Io.{ask, close}
use over.Wire.{header_bytes, header_size}
use over.Droid.State.{Command, type_heart, set_packets, set_ip}
use over.Droid.Stream.{read_to_buf, raw_to_over6}
use over.Droid.Messages.{over6_handle}

-- Whether the loop goes on, or one of the labels is jumped to.
pub data Outcome : Type 0 where
  running finish failed : Outcome

abbrev pub and_next : Outcome → Command Outcome → Command Outcome
and_next running c = c
and_next finish c = pure finish
and_next failed c = pure failed

abbrev pub is_zero : Option ℕ → Bool
is_zero none = false
is_zero (some n) = n == 0

abbrev pub reports : Kernel → Log → List Fd → List (Fd × Flags)
reports k l [] = []
reports k l (fd ∷ fds) = (fd, k.flags l fd) ∷ reports k l fds

module _ (k : Kernel) where
  -- tunOpen; `none` is exit(1).
  unfoldable pub tun_open : Command (Option Fd)
  tun_open = (λ m. let a = k.open_tun m.log in ask (tun_opens a) a m) >>= λ t.
      match_option t (pure none) λ fd. do
        named ← (λ m. let a = k.name_tun m.log fd in ask (tun_names fd a) a m)
        if named then pure (some fd) else (close k fd >> pure none)

  unfoldable pub create_epoll_fd : Command (Option Fd)
  create_epoll_fd m = let a = k.epoll_create m.log in ask (epoll_creates a) a m

  unfoldable pub add_to_epoll_fd : List Fd → Command Bool
  add_to_epoll_fd [] = pure true
  add_to_epoll_fd (fd ∷ fds) =
      (λ m. let a = k.set_nonblock m.log fd in ask (nonblocks fd a) a m) >>= λ free.
      if not free
      then pure false
      else ((λ m. let a = k.epoll_add m.log fd in ask (epoll_adds fd a) a m) >>= λ added.
          if not added then pure false else add_to_epoll_fd fds)

  unfoldable pub handle_input : ℕ → Fd → Command Outcome
  unfolding read_to_buf set_ip set_packets
  handle_input fuel fd = do
    s ← get_vars
    if fd == s.tun_dev_fd
        then (do got ← read_to_buf k fuel fd s.ip_buffer 0; set_ip got.1 s.remain; pure running)
        else if fd == s.over6_fd
        then (do
          got ← read_to_buf k fuel fd s.over6_packet_buffer 0
          set_packets got.1
          pure (if is_zero got.0 then finish else running))
        else pure running

  unfoldable pub handle_output : ℕ → Fd → Command (Unit {0})
  unfolding over6_handle raw_to_over6
  handle_output fuel fd = do
    s ← get_vars
    if fd == s.tun_dev_fd
        then over6_handle k fuel fd
        else if fd == s.over6_fd
        then raw_to_over6 k fd
        else pure tt

  unfoldable pub handle_event : ℕ → Fd → Flags → Command Outcome
  unfolding handle_input handle_output
  handle_event fuel fd flags = if flags.failing then pure failed else (do
    next ← (if flags.input then handle_input fuel fd else pure running)
    and_next next (if flags.output then (handle_output fuel fd >> pure running) else pure running))

  unfoldable pub handle_events : ℕ → List (Fd × Flags) → Command Outcome
  unfolding handle_event
  handle_events fuel [] = pure running
  handle_events fuel ((fd, flags) ∷ events) = do
    next ← handle_event fuel fd flags
    and_next next (handle_events fuel events)

  unfoldable pub send_heartbeat : Command (Unit {0})
  send_heartbeat = do
    now ← Io.time k
    s ← get_vars
    if ltb 20 (now - s.last_heartbeat) && s.remain == 0
        then (do
          _ ← Io.write k s.over6_fd (header_bytes header_size type_heart)
          now ← Io.time k
          s ← get_vars
          put_vars (record s { last_heartbeat = now }))
        else pure tt

  -- Room for output is asked for where there is something to write.
  unfoldable pub set_events : Command (Unit {0})
  set_events = do
    s ← get_vars
    ask (epoll_mods s.tun_dev_fd (ltb 0 (length s.over6_packet_buffer))) tt
    ask (epoll_mods s.over6_fd (ltb 0 (length s.ip_buffer))) tt

  -- The events of a wait, each with what it reports; where it fails there are none.
  unfoldable pub wait_events : Command (List (Fd × Flags))
  wait_events m =
      let a = k.epoll_wait m.log in ask (epoll_waits a) (match_option a [] (reports k m.log)) m

  unfoldable pub event_loop : ℕ → ℕ → Command Outcome
  unfolding wait_events handle_events send_heartbeat set_events
  event_loop zero fuel = pure running
  event_loop (suc rounds) fuel = do
    events ← wait_events
    next ← handle_events fuel events
    and_next next (do send_heartbeat; set_events; event_loop rounds fuel)

  -- The socket up to the accepted client; the first component is server_fd.
  unfoldable pub listen_for_client : Command (Option Fd × Option Fd)
  listen_for_client = (λ m. let a = k.socket m.log in ask (sockets a) a m) >>= λ socket.
      match_option socket (pure (none, none)) λ server_fd. do
        reused ← (λ m. let a = k.set_reuse m.log server_fd in ask (reuses server_fd a) a m)
        if not reused then pure (some server_fd, none) else do
          bound ← (λ m. let a = k.bind m.log server_fd in ask (binds server_fd a) a m)
          if not bound then pure (some server_fd, none) else do
            listening ← (λ m. let a = k.listen m.log server_fd in ask (listens server_fd a) a m)
            if not listening then pure (some server_fd, none) else do
              client ← (λ m. let a = k.accept m.log in ask (accepts a) a m)
              match_option client (pure (some server_fd, none)) λ fd. do
                (λ m. let a = k.getpeername m.log fd in ask (peers fd a) tt m)
                pure (some server_fd, some fd)

  abbrev close_fd : Option Fd → Command (Unit {0})
  close_fd none = pure tt
  close_fd (some fd) = close k fd

  -- What stands behind `finish` and behind `failed`.
  unfoldable pub close_all : Option Fd → Option Fd → Fd → Command (Unit {0})
  close_all server_fd over6_fd tun_dev_fd =
      close_fd server_fd >> (close_fd over6_fd >> close k tun_dev_fd)

  -- Multiplexing of the two descriptors, and the loop.
  unfoldable pub serve : ℕ → ℕ → Command Outcome
  unfolding create_epoll_fd add_to_epoll_fd event_loop
  serve rounds fuel = do
    epoll_fd ← create_epoll_fd
    match_option epoll_fd (pure failed) λ fd. do
      s ← get_vars
      added ← add_to_epoll_fd (s.over6_fd ∷ s.tun_dev_fd ∷ [])
      if added then event_loop rounds fuel else pure failed

  -- `none` is the exit of tunOpen; `running` is a server that still runs after these rounds.
  unfoldable pub main : ℕ → ℕ → Command (Option Outcome)
  unfolding tun_open listen_for_client serve close_all
  main rounds fuel = do
    now ← Io.time k
    t ← tun_open
    match_option t (pure none) λ tun_dev_fd. do
      fds ← listen_for_client
      match_option (fds.1) (do close_all (fds.0) none tun_dev_fd; pure (some failed))
          λ over6_fd. do
            put_vars (record {
              over6_packet_buffer = [];
              ip_buffer = [];
              remain = 0;
              over6_fd = over6_fd;
              tun_dev_fd = tun_dev_fd;
              last_heartbeat = now;
            })
            end ← serve rounds fuel
            elim end [
              | running ↦ pure (some running)
              | finish ↦ (do close_all (fds.0) (some over6_fd) tun_dev_fd; pure (some finish))
              | failed ↦ (do close_all (fds.0) (some over6_fd) tun_dev_fd; pure (some failed))
            ]
