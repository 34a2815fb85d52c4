-- ===== src/Vpn/Effects.antt =====
-- What a property of the variables needs so that handling one message keeps it.
use over.Base.{ℕ, ◌+◌, ◌-◌, Option, List, [], ◌∷◌, ◌++◌, ◌==◌, ltb, length}
use over.Kernel.{Fd, Bytes, Kernel}
use over.Run.{keeps, faults, Keeps-if, Keeps-option, Keeps-int, Steady}
use over.Wire.{header_size}
use over.Vpn.State.{
  slice, ip_reply_type, heartbeat_type, packet_recv_type, Vars, get_tun_fd, wrote, buffer_size,
}
use over.Vpn.Config.{c_string, read_ips}
use over.Vpn.Socket.{
  count_in, write_each, ip_reply, heartbeat_message, packet_recv, note_packet, handle_message,
}

module _ (k : Kernel) (I : Vars → Type 0) where
  pub write_each-Steady : (fd : Fd) (bs : List Bytes) → Steady I (write_each k fd bs)
  unfolding write_each
  write_each-Steady fd [] m s = keeps s
  write_each-Steady fd (b ∷ bs) m s =
      Keeps-if (wrote (k.write m.log fd b) (length b)) _ _ (λ _. write_each-Steady fd bs _ s)
        (λ _. keeps s)

  -- It holds on when a packet is counted, and when the server's last heartbeat is noted.
  module _ (counts : (len : ℕ) (s : Vars) → I s → I (count_in len s))
      (hears : (now : ℕ) (s : Vars) → I s → I (record s { last_from_server = now })) where
    ip_reply-Steady : (text : Bytes) → Steady I (ip_reply k text)
    unfolding ip_reply
    ip_reply-Steady text m s =
        Keeps-option (read_ips 5 (c_string (text ++ k.heap_tail m.log))) _ _ (λ _. faults)
          λ ips _. write_each-Steady _ _ m s

    note_packet-Steady : (len : ℕ) (r : Option ℕ) → Steady I (note_packet k len r)
    unfolding note_packet
    note_packet-Steady len r m s =
        Keeps-if (wrote r len) _ _ (λ _. keeps (counts len m.vars s)) (λ _. keeps s)

    packet_recv-Steady : (len : ℕ) → Steady I (packet_recv k len)
    unfolding packet_recv
    packet_recv-Steady len m s =
        Keeps-int (get_tun_fd m.vars) _ _
          (λ tun _.
            Keeps-if {m = m} (ltb buffer_size (header_size + len)) _ _ (λ _. faults)
              λ _. note_packet-Steady len _ _ s)
          λ _. keeps s

    pub handle_message-Steady : (type len : ℕ) → Steady I (handle_message k type len)
    unfolding handle_message heartbeat_message
    handle_message-Steady type len m s =
        Keeps-if {m = m} (type == ip_reply_type) _ _
          (λ _.
            Keeps-if {m = m} (ltb len header_size) _ _ (λ _. faults)
              (λ _. ip_reply-Steady (slice m.vars.memory header_size (len - header_size)) m s))
          λ _.
            Keeps-if {m = m} (type == heartbeat_type) _ _
              (λ _. keeps (hears (k.time m.log) m.vars s))
              λ _.
                Keeps-if {m = m} (type == packet_recv_type) _ _ (λ _. packet_recv-Steady len m s)
                  (λ _. keeps s)
