-- ===== src/Vpn/Bounds.antt =====
-- Every handler keeps the buffer within its size and the counters within 64 bits.
pub mod Rounds
use over.Base.{
  Bool-cases, inl, inr, ◌||◌, ℕ, zero, suc, ◌+◌, ◌-◌, ◌<◌, ◌≤◌, ◌^◌, ◌%◌, ◌≡◌, refl, Bool, true,
  false, ℤ, Option, none, some, List, [], ◌∷◌, ◌++◌, ◌==◌, arith, ltb, length, if◌then◌else◌,
  match_int, match_option,
}
use over.Kernel.{Fd, Bytes, Kernel, ReadsWithin}
use over.Run.{
  Machine, Cmd, Keeps, keeps, faults, spends, Keeps-bind, Keeps-if, Keeps-option, Keeps-int, Steady,
}
use over.Wire.{header_size, read_header, header_length}
use over.Vpn.State.{
  slice, ip_reply_type, heartbeat_type, packet_recv_type, Vars, get_tun_fd, wrote, buffer_size,
}
use over.Vpn.Effects.{handle_message-Steady}
use over.Vpn.Config.{c_string, read_ips}
use over.Vpn.Socket.{
  append, shift, count_in, write_each, ip_reply, heartbeat_message, packet_recv, note_packet,
  handle_message, negative_message, socket_loop, handle_socket,
}
use over.Vpn.Handlers.{
  count_out, protocol_init, send_packet, handle_tunnel, request_config, set_tun_loop, send_state,
  run_command, handle_command, send_heartbeat, handle_heartbeat,
}
use over.Vpn.Main.{
  connect_server, poll, poll_fds, serve_command, serve_socket, serve_tun, serve_fd, serve_fds,
  vpn_round, vpn_loop, close_all, vpn_main,
}

pub record IsBounded (s : Vars) : Type 0 where
  pub within : s.nreads ≤ buffer_size
  pub in_bytes : s.in_bytes < 2 ^ 64
  pub out_bytes : s.out_bytes < 2 ^ 64
  pub in_packets : s.in_packets < 2 ^ 64
  pub out_packets : s.out_packets < 2 ^ 64

mod_less : (n : ℕ) → n % 2 ^ 64 < 2 ^ 64
mod_less n = omega arith

shift-IsBounded : (len : ℕ) (s : Vars) → IsBounded s → IsBounded (shift len s)
unfolding shift
shift-IsBounded len s b = record {
  within = omega (arith, b.within);
  in_bytes = b.in_bytes;
  out_bytes = b.out_bytes;
  in_packets = b.in_packets;
  out_packets = b.out_packets;
}

append-IsBounded :
    (bytes : Bytes) (s : Vars)
    → length bytes ≤ buffer_size - s.nreads
    → IsBounded s
    → IsBounded (append bytes s)
unfolding append
append-IsBounded bytes s h b = record {
  within = omega (arith, b.within);
  in_bytes = b.in_bytes;
  out_bytes = b.out_bytes;
  in_packets = b.in_packets;
  out_packets = b.out_packets;
}

count_in-IsBounded : (len : ℕ) (s : Vars) → IsBounded s → IsBounded (count_in len s)
unfolding count_in
count_in-IsBounded len s b = record {
  within = b.within;
  in_bytes = mod_less _;
  out_bytes = b.out_bytes;
  in_packets = mod_less _;
  out_packets = b.out_packets;
}

hear-IsBounded :
    (now : ℕ) (s : Vars) → IsBounded s → IsBounded (record s { last_from_server = now })
hear-IsBounded now s b = record {
  within = b.within;
  in_bytes = b.in_bytes;
  out_bytes = b.out_bytes;
  in_packets = b.in_packets;
  out_packets = b.out_packets;
}

pub count_out-IsBounded : (len : ℕ) (s : Vars) → IsBounded s → IsBounded (count_out len s)
unfolding count_out
count_out-IsBounded len s b = record {
  within = b.within;
  in_bytes = b.in_bytes;
  out_bytes = mod_less _;
  in_packets = b.in_packets;
  out_packets = mod_less _;
}

module _ (k : Kernel) where
  negative_message-Steady : (type n : ℕ) → Steady IsBounded (negative_message k type n)
  unfolding negative_message
  negative_message-Steady type n m s =
      Keeps-if {m = m} ((type == ip_reply_type) || (type == heartbeat_type)) _ _ (λ _. faults)
        λ _.
          Keeps-if {m = m} (type == packet_recv_type) _ _
            (λ _.
              Keeps-int {m = m} (get_tun_fd m.vars) _ _
                (λ tun _. elim (Bool-cases (n == 0)) [
                  | inl e ↦ rw e faults
                  | inr e ↦ rw e (keeps s)
                ])
                (λ _. faults))
            (λ _. keeps s)

  socket_loop-Steady : (f : ℕ) → Steady IsBounded (socket_loop k f)
  unfolding socket_loop
  socket_loop-Steady zero m s = spends
  socket_loop-Steady (suc f) m s =
      Keeps-if {m = m} (ltb m.vars.nreads header_size) _ _ (λ _. keeps s)
        λ _.
          Keeps-int {m = m} (header_length (read_header m.vars.memory)) _ _
            (λ len _.
              Keeps-if {m = m} (ltb m.vars.nreads len) _ _ (λ _. keeps s)
                λ _.
                  Keeps-bind
                    (handle_message-Steady k IsBounded count_in-IsBounded hear-IsBounded
                      (read_header m.vars.memory).type len m s)
                    λ good n t.
                      Keeps-if {m = n} good _ _
                        (λ _. socket_loop-Steady f _ (shift-IsBounded len n.vars t)) (λ _. keeps t))
            (λ n. negative_message-Steady (read_header m.vars.memory).type n m s)

  pub handle_socket-Steady : ReadsWithin k → (fuel : ℕ) → Steady IsBounded (handle_socket k fuel)
  unfolding handle_socket
  handle_socket-Steady within fuel m s =
      Keeps-option (k.read m.log m.vars.socket_fd (buffer_size - m.vars.nreads)) _ _ (λ _. keeps s)
        λ bytes e.
          socket_loop-Steady fuel _ (append-IsBounded bytes m.vars (within m.log _ _ bytes e) s)
