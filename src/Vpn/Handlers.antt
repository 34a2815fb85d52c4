-- ===== src/Vpn/Handlers.antt =====
-- protocol_init, handle_tunnel, handle_command and handle_heartbeat of jni/proto.cpp.
use over.Base.{
  ℕ, zero, suc, ◌+◌, ◌-◌, Bool, true, false, ℤ, pos, negsuc, [], ◌∷◌, ltb, ◌==◌, if◌then◌else◌,
  match_option, match_int, length,
}
use over.Kernel.{Fd, Bytes, Kernel}
use over.Run.{spent, pure, get_vars, put_vars, ◌>>=◌, ◌>>◌}
use over.Io
use over.Wire.{header_bytes, header_size, byte_at}
use over.Vpn.State.{
  Vars, Command, get_tun_fd, no_tun, add64, u64_bytes, overwrite, buffer_size, timeout_secs,
  interval_secs, ip_request_type, packet_send_type, heartbeat_type, exit_command, fetch_config,
  set_tun, fetch_state,
}
use over.Vpn.Socket.{write_each}

-- The results of handle_command: 0, IPC_COMMAND_EXIT and -1.
abbrev pub go_on : ℤ
go_on = pos 0

abbrev pub leave : ℤ
leave = pos 1

abbrev pub failed : ℤ
failed = negsuc 0

unfoldable pub count_out : ℕ → Vars → Vars
count_out size s = record s {
  out_packets = add64 s.out_packets 1;
  out_bytes = add64 s.out_bytes size;
}

module _ (k : Kernel) where
  unfoldable pub protocol_init : Fd → Fd → Fd → Command (Unit {0})
  protocol_init socket command response = do
    from_server ← Io.time k
    to_server ← Io.time k
    s ← get_vars
    put_vars (record s {
      socket_fd = socket;
      command_fd = command;
      response_fd = response;
      tun = no_tun;
      last_from_server = from_server;
      last_to_server = to_server;
      nreads = 0;
      in_bytes = 0;
      out_bytes = 0;
      in_packets = 0;
      out_packets = 0;
    })

  -- The packet as one message, in two writes.
  unfoldable pub send_packet : Bytes → Command Bool
  unfolding count_out write_each
  send_packet packet = do
    s ← get_vars
    good ←
        write_each k s.socket_fd
          (header_bytes (length packet + header_size) packet_send_type ∷ packet ∷ [])
    s ← get_vars
    if good then (put_vars (count_out (length packet) s) >> pure true) else pure false

  unfoldable pub handle_tunnel : Command Bool
  unfolding get_tun_fd send_packet
  handle_tunnel = do
    s ← get_vars
    match_int (get_tun_fd s)
        (λ tun. do
          got ← Io.read k tun buffer_size
          match_option got (pure false)
              λ packet. if length packet == 0 then pure true else send_packet packet)
        (λ n. pure false)

  unfoldable pub request_config : Command ℤ
  unfolding write_each
  request_config = do
    s ← get_vars
    good ← write_each k s.socket_fd (header_bytes header_size ip_request_type ∷ [])
    pure (if good then go_on else failed)

  -- `while (nreads < 4)`, each read into the rest of tunFd's bytes; at the end of the stream it
  -- reads nothing for ever.
  unfoldable pub set_tun_loop : ℕ → ℕ → Command ℤ
  unfolding get_tun_fd overwrite
  set_tun_loop zero n = λ m. spent
  set_tun_loop (suc f) n = do
    s ← get_vars
    if ltb n 4
        then (do
          got ← Io.read k s.command_fd (4 - n)
          match_option got (pure failed) λ bytes. do
            s ← get_vars
            put_vars (record s { tun = overwrite s.tun n bytes })
            set_tun_loop f (n + length bytes))
        else pure (match_int (get_tun_fd s) (λ tun. go_on) (λ tun. failed))

  unfoldable pub send_state : Command ℤ
  unfolding write_each u64_bytes
  send_state = do
    s ← get_vars
    good ← write_each k s.response_fd (
        u64_bytes s.in_bytes
        ∷ u64_bytes s.out_bytes
        ∷ u64_bytes s.in_packets
        ∷ u64_bytes s.out_packets
        ∷ [])
    pure (if good then go_on else failed)

  unfoldable pub run_command : ℕ → ℕ → Command ℤ
  unfolding request_config set_tun_loop send_state
  run_command fuel command =
      if command == exit_command
      then pure leave
      else if command == fetch_config
      then request_config
      else if command == set_tun
      then set_tun_loop fuel 0
      else if command == fetch_state
      then send_state
      else pure go_on

  unfoldable pub handle_command : ℕ → Command ℤ
  unfolding run_command
  handle_command fuel = do
    s ← get_vars
    got ← Io.read k s.command_fd 1
    match_option got (pure failed)
        λ bytes. if length bytes == 1 then run_command fuel (byte_at bytes 0) else pure failed

  unfoldable pub send_heartbeat : ℕ → Command Bool
  unfolding write_each
  send_heartbeat now = do
    s ← get_vars
    good ← write_each k s.socket_fd (header_bytes header_size heartbeat_type ∷ [])
    s ← get_vars
    if good then (put_vars (record s { last_to_server = now }) >> pure true) else pure false

  unfoldable pub handle_heartbeat : Command Bool
  unfolding send_heartbeat
  handle_heartbeat = do
    now ← Io.time k
    s ← get_vars
    if ltb (s.last_from_server + timeout_secs) now
        then pure false
        else if ltb (s.last_to_server + interval_secs) now
        then send_heartbeat now
        else pure true
