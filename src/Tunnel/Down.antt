-- ===== src/Tunnel/Down.antt =====
-- A packet from the server to the client.
use over.Base.{
  ℕ, suc, ◌+◌, ◌-◌, ◌<◌, ◌≤◌, ◌≡◌, sym, ap, ◌∙◌, inl, inr, false, pos, some, [], ◌∷◌, ◌++◌, arith,
  length, drop, get_elem?, append-nil, append-cancel,
}
use over.Kernel.{Fd, Bytes, Kernel, WritesWithin, sent}
use over.Run.{Machine, Returns, returned, ok}
use over.Wire.{frame, u32_at}
use over.Server.State as Server
use over.Server.Tun.{process_tun, ip_header_size, daddr_offset}
use over.Server.Tun.Delivery.{process_tun-Tunnels}
use over.Server.Table.{IsTable, is_reserved, slot_number}
use over.Server.Client.Framing.{IsPartial}
use over.Vpn.State as Vpn
use over.Vpn.State.{get_tun_fd, take_padded, buffer_size}
use over.Vpn.Socket.{handle_socket}
use over.Vpn.Receiving.{Writes, Takes, written, handle_socket-Writes}

-- A run of the server's process_tun that has emptied its buffer.
module _ (ks : Kernel) (fits : WritesWithin ks) (tun c i f : ℕ) (packet got : Bytes)
    (u : Server.User) (sm sn : Machine Server.Vars) (table : IsTable sm.vars.users)
    (at : get_elem? sm.vars.users i ≡ some u) (given_out : is_reserved i ≡ false)
    (used : u.status ≡ false) (held : u.fd ≡ some c) (empty : get_elem? sm.vars.bufs tun ≡ some [])
    (read : ks.read sm.log tun Server.buf_size ≡ some packet)
    (long : ip_header_size ≤ length packet) (dest : u32_at packet daddr_offset ≡ slot_number i)
    (run : process_tun ks (suc (suc f)) tun sm ≡ ok tt sn)
    (emptied : get_elem? sn.vars.bufs tun ≡ some [])
    (went : sent c sn.log ≡ sent c sm.log ++ got) where
  sent_whole : got ≡ frame Server.data_rsb packet
  sent_whole =
      let t = returned tt sn run (
        process_tun-Tunnels ks fits tun c i packet u f sm table at given_out used held empty read
          long dest) in
      elim t.outcome [
        | inl (s, _) ↦
            append-cancel (sent c sm.log) got (frame Server.data_rsb packet) (sym went ∙ s)
        | inr (_, _, _, _, stays) ↦
            let same : some packet ≡ some [] = sym stays ∙ emptied in
            let nothing : packet ≡ [] = cc in absurd (omega (arith, ap length nothing))
      ]

  -- With a well-formed address table and an empty tun buffer, a packet for the address of an
  -- entry that a client holds is read from the server's tun device, process_tun has returned and
  -- emptied the buffer; the client has its tun device set, every write to it is taken whole, and
  -- what socket_buffer has in use and the bytes that a read then gives are together the bytes
  -- that the server has sent to the client meanwhile, with an unfinished message behind them;
  -- write on the server fails or takes between one byte and the whole of a block that is not
  -- empty, and the packet has ten bytes less than the client's buffer at most. Then
  -- handle_socket returns success, given two rounds, the client's tun device has taken the
  -- packet and the five bytes that stand behind its message in socket_buffer, and the unfinished
  -- message is left.
  pub download :
      (kc : Kernel) (device : Fd) (g : ℕ) (cm : Machine Vpn.Vars) (old stale bytes rest : Bytes)
      → Takes kc device
      → get_tun_fd cm.vars ≡ pos device
      → cm.vars.memory ≡ old ++ stale
      → cm.vars.nreads ≡ length old
      → kc.read cm.log cm.vars.socket_fd (buffer_size - length old) ≡ some bytes
      → old ++ bytes ≡ got ++ rest
      → length packet + 10 ≤ buffer_size
      → IsPartial rest
      → 1 < g
      → Returns
          (Writes device (packet ++ take_padded 5 (rest ++ drop (length bytes) stale)) rest cm)
          (handle_socket kc g cm)
  unfolding written
  download kc device g cm old stale bytes rest takes set mem nreads arrives joins short partial
        fuel =
      let whole =
        joins
        ∙ ap (λ z. z ++ rest) (sent_whole ∙ sym (append-nil (frame Server.data_rsb packet))) in
      rw (← append-nil (packet ++ take_padded 5 (rest ++ drop (length bytes) stale))) (
        handle_socket-Writes kc device takes rest (packet ∷ []) g old stale bytes cm set mem nreads
          arrives whole (omega arith, tt) (short, tt) partial fuel)
