-- ===== src/Vpn/Bounds/Rounds.antt =====
-- The other handlers of the client, and the loop of vpn_main.
use over.Base.{ℕ, zero, suc, ◌+◌, ◌-◌, List, [], ◌∷◌, ◌==◌, ltb, length}
use over.Kernel.{Fd, Bytes, Kernel, ReadsWithin}
use over.Run.{keeps, spends, Keeps-bind, Keeps-if, Keeps-option, Keeps-int, Steady}
use over.Wire.{byte_at, header_bytes, header_size}
use over.Vpn.State.{
  get_tun_fd, buffer_size, packet_send_type, heartbeat_type, ip_request_type, u64_bytes,
  exit_command, fetch_config, set_tun, fetch_state, timeout_secs, interval_secs,
}
use over.Vpn.Handlers.{
  send_packet, handle_tunnel, request_config, set_tun_loop, send_state, run_command, handle_command,
  send_heartbeat, handle_heartbeat,
}
use over.Vpn.Main.{
  mentions, poll_fds, serve_command, serve_socket, serve_tun, serve_fd, serve_fds, vpn_round,
  vpn_loop, is_tun, poll,
}
use over.Vpn.Effects.{write_each-Steady}
use over.Vpn.Bounds.{IsBounded, handle_socket-Steady, count_out-IsBounded}

module _ (k : Kernel) where
  send_packet-Steady : (packet : Bytes) → Steady IsBounded (send_packet k packet)
  unfolding send_packet
  send_packet-Steady packet m s =
      Keeps-bind
        (write_each-Steady k IsBounded m.vars.socket_fd
          (header_bytes (length packet + header_size) packet_send_type ∷ packet ∷ []) m s)
        λ good n t.
          Keeps-if {m = n} good _ _ (λ _. keeps (count_out-IsBounded (length packet) n.vars t))
            (λ _. keeps t)

  handle_tunnel-Steady : Steady IsBounded (handle_tunnel k)
  unfolding handle_tunnel
  handle_tunnel-Steady m s =
      Keeps-int {m = m} (get_tun_fd m.vars) _ _
        (λ tun _.
          Keeps-option (k.read m.log tun buffer_size) _ _ (λ _. keeps s)
            λ packet _.
              Keeps-if (length packet == 0) _ _ (λ _. keeps s) (λ _. send_packet-Steady packet _ s))
        (λ _. keeps s)

  set_tun_loop-Steady : (f n : ℕ) → Steady IsBounded (set_tun_loop k f n)
  unfolding set_tun_loop
  set_tun_loop-Steady zero n m s = spends
  set_tun_loop-Steady (suc f) n m s =
      Keeps-if {m = m} (ltb n 4) _ _
        (λ _.
          Keeps-option (k.read m.log m.vars.command_fd (4 - n)) _ _ (λ _. keeps s)
            λ bytes _. set_tun_loop-Steady f (n + length bytes) _ (record {
              within = s.within;
              in_bytes = s.in_bytes;
              out_bytes = s.out_bytes;
              in_packets = s.in_packets;
              out_packets = s.out_packets;
            }))
        (λ _. keeps s)

  request_config-Steady : Steady IsBounded (request_config k)
  unfolding request_config
  request_config-Steady m s =
      Keeps-bind
        (write_each-Steady k IsBounded m.vars.socket_fd
          (header_bytes header_size ip_request_type ∷ []) m s)
        λ good n t. keeps t

  send_state-Steady : Steady IsBounded (send_state k)
  unfolding send_state
  send_state-Steady m s =
      Keeps-bind
        (write_each-Steady k IsBounded m.vars.response_fd
          (u64_bytes m.vars.in_bytes
            ∷ u64_bytes m.vars.out_bytes
            ∷ u64_bytes m.vars.in_packets
            ∷ u64_bytes m.vars.out_packets
            ∷ [])
          m s)
        λ good n t. keeps t

  run_command-Steady : (fuel command : ℕ) → Steady IsBounded (run_command k fuel command)
  unfolding run_command
  run_command-Steady fuel command m s =
      Keeps-if {m = m} (command == exit_command) _ _ (λ _. keeps s)
        λ _.
          Keeps-if {m = m} (command == fetch_config) _ _ (λ _. request_config-Steady m s)
            λ _.
              Keeps-if {m = m} (command == set_tun) _ _ (λ _. set_tun_loop-Steady fuel 0 m s)
                λ _.
                  Keeps-if {m = m} (command == fetch_state) _ _ (λ _. send_state-Steady m s)
                    (λ _. keeps s)

  handle_command-Steady : (fuel : ℕ) → Steady IsBounded (handle_command k fuel)
  unfolding handle_command
  handle_command-Steady fuel m s =
      Keeps-option (k.read m.log m.vars.command_fd 1) _ _ (λ _. keeps s)
        λ bytes _.
          Keeps-if (length bytes == 1) _ _ (λ _. run_command-Steady fuel (byte_at bytes 0) _ s)
            (λ _. keeps s)

  send_heartbeat-Steady : (now : ℕ) → Steady IsBounded (send_heartbeat k now)
  unfolding send_heartbeat
  send_heartbeat-Steady now m s =
      Keeps-bind
        (write_each-Steady k IsBounded m.vars.socket_fd
          (header_bytes header_size heartbeat_type ∷ []) m s)
        λ good n t.
          Keeps-if {m = n} good _ _
            (λ _. keeps (record {
              within = t.within;
              in_bytes = t.in_bytes;
              out_bytes = t.out_bytes;
              in_packets = t.in_packets;
              out_packets = t.out_packets;
            }))
            (λ _. keeps t)

  handle_heartbeat-Steady : Steady IsBounded (handle_heartbeat k)
  unfolding handle_heartbeat
  handle_heartbeat-Steady m s =
      Keeps-if (ltb (m.vars.last_from_server + timeout_secs) (k.time m.log)) _ _ (λ _. keeps s)
        λ _.
          Keeps-if (ltb (m.vars.last_to_server + interval_secs) (k.time m.log)) _ _
            (λ _. send_heartbeat-Steady _ _ s) (λ _. keeps s)

  module _ (within : ReadsWithin k) (fuel : ℕ) where
    serve_fd-Steady :
        (socket command fd : Fd) → Steady IsBounded (serve_fd k fuel socket command fd)
    unfolding serve_fd serve_command serve_socket serve_tun
    serve_fd-Steady socket command fd m s =
        Keeps-bind
          (Keeps-if {m = m} (fd == command) _ _
            (λ _. Keeps-bind (handle_command-Steady fuel m s) λ r n t. keeps t) (λ _. keeps s))
          λ a n t.
            Keeps-if {m = n} a _ _
              (λ _.
                Keeps-bind
                  (Keeps-if {m = n} (fd == socket) _ _ (λ _. handle_socket-Steady k within fuel n t)
                    (λ _. keeps t))
                  λ b o u.
                    Keeps-if {m = o} b _ _
                      (λ _.
                        Keeps-if {m = o} (is_tun fd o.vars) _ _ (λ _. handle_tunnel-Steady o u)
                          (λ _. keeps u))
                      (λ _. keeps u))
              (λ _. keeps t)

    serve_fds-Steady :
        (socket command : Fd) (ready fds : List Fd)
        → Steady IsBounded (serve_fds k fuel socket command ready fds)
    unfolding serve_fds
    serve_fds-Steady socket command ready [] m s = keeps s
    serve_fds-Steady socket command ready (fd ∷ fds) m s =
        Keeps-if {m = m} (mentions ready fd) _ _
          (λ _. Keeps-bind (serve_fd-Steady socket command fd m s) λ more n t.
            Keeps-if {m = n} more _ _ (λ _. serve_fds-Steady socket command ready fds n t)
              (λ _. keeps t))
          (λ _. serve_fds-Steady socket command ready fds m s)

    vpn_round-Steady : (socket command : Fd) → Steady IsBounded (vpn_round k fuel socket command)
    unfolding vpn_round poll
    vpn_round-Steady socket command m s =
        Keeps-option (k.poll m.log (poll_fds socket command m.vars)) _ _ (λ _. keeps s)
          λ ready _. Keeps-bind (handle_heartbeat-Steady _ s) λ alive n t.
            Keeps-if {m = n} alive _ _
              (λ _.
                Keeps-if {m = n} (length ready == 0) _ _ (λ _. keeps t)
                  (λ _. serve_fds-Steady socket command ready (poll_fds socket command m.vars) n t))
              (λ _. keeps t)

    -- If reads give no more than they were asked for, every run of the client's loop, for any
    -- number of rounds and any answers of the system, that starts with at most BUFFER_SIZE bytes
    -- in use in socket_buffer and counters below 2^64 ends so, or is so when its rounds are
    -- over, unless it faults or a handler does not return.
    pub vpn_loop-Steady :
        (rounds : ℕ) (socket command : Fd)
        → Steady IsBounded (vpn_loop k fuel rounds socket command)
    unfolding vpn_loop
    vpn_loop-Steady zero socket command m s = keeps s
    vpn_loop-Steady (suc n) socket command m s =
        Keeps-bind (vpn_round-Steady socket command m s) λ more o t.
          Keeps-if {m = o} more _ _ (λ _. vpn_loop-Steady n socket command o t) (λ _. keeps t)
