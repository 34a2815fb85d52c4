-- ===== src/Vpn/Incoming.antt =====
-- Where handle_socket does not do what it means to.
use over.Base.{
  ℕ, zero, suc, ◌+◌, ◌-◌, ◌≤◌, ◌≡◌, refl, true, false, pos, some, ◌++◌, ◌==◌, arith, ltb, length,
  take, length-append, take-length, ==-refl,
}
use over.Kernel.{Fd, Bytes, Kernel, sent}
use over.Run.{Machine, Returns, returns, spent}
use over.Wire.{u32_bytes, frame, header_bytes, header_size, read_header, header_length}
use over.Vpn.State.{
  Vars, get_tun_fd, take_padded, slice, overwrite, packet_recv_type, heartbeat_type, buffer_size,
}
use over.Vpn.Memory.{take_padded-drop, length-take_padded, take_padded-append}
use over.Vpn.Socket.{
  note_packet, shift, heartbeat_message, packet_recv, handle_message, socket_loop,
}

-- Taking nothing out of the buffer leaves it.
overwrite_same :
    (mem : Bytes) (n : ℕ) → n ≤ length mem → overwrite mem 0 (slice mem 0 (n - 0)) ≡ mem
unfolding overwrite slice take_padded
overwrite_same mem n h =
    let e : n - 0 ≡ n = omega arith in
    let l : 0 + length (take_padded n mem) ≡ n = omega (arith, length-take_padded n mem) in
    rw (e, l) (take_padded-drop n mem h)

behind_header :
    (body next : Bytes)
    → slice (frame packet_recv_type body ++ next) header_size (length body + header_size)
      ≡ body ++ take_padded 5 next
unfolding slice frame header_bytes u32_bytes
behind_header body next = take_padded-append body next 5

module _ (k : Kernel) where
  -- With at least a header in use in socket_buffer whose length is 0 and whose type is a
  -- heartbeat, no number of rounds is enough for the loop of handle_socket.
  pub socket_loop_zero_length :
      (mem : Bytes) (f : ℕ) (m : Machine Vars)
      → m.vars.memory ≡ mem
      → header_size ≤ m.vars.nreads
      → m.vars.nreads ≤ length mem
      → header_length (read_header mem) ≡ pos 0
      → (read_header mem).type ≡ heartbeat_type
      → socket_loop k f m ≡ spent
  unfolding socket_loop shift handle_message heartbeat_message
  socket_loop_zero_length mem zero m at some_header within zero_length beat = refl
  socket_loop_zero_length mem (suc f) m at some_header within zero_length beat =
      let a : ltb m.vars.nreads header_size ≡ false = ground arith in
      let b : ltb m.vars.nreads 0 ≡ false = ground arith in
      rw (a, at, zero_length, b, beat)
        (socket_loop_zero_length mem f _ (overwrite_same mem m.vars.nreads within) (omega arith)
          (omega arith) zero_length beat)

  -- When the tun device is set, every write to it is taken whole, and a packet message with any
  -- bytes behind it stands at the front of socket_buffer with ten bytes to spare, handling it
  -- succeeds and writes to the tun device the packet and the five bytes behind it in the buffer.
  pub packet_recv_overrun :
      (tun : Fd) (body next : Bytes) (m : Machine Vars)
      → get_tun_fd m.vars ≡ pos tun
      → m.vars.memory ≡ frame packet_recv_type body ++ next
      → length body + 10 ≤ buffer_size
      → ((bytes : Bytes) → k.write m.log tun bytes ≡ some (length bytes))
      → Returns
          (λ r n. (r ≡ true) × (sent tun n.log ≡ sent tun m.log ++ (body ++ take_padded 5 next)))
          (handle_message k packet_recv_type (length body + header_size) m)
  unfolding handle_message packet_recv note_packet sent
  packet_recv_overrun tun body next m set at fits taken =
      let a : ltb buffer_size (header_size + (length body + header_size)) ≡ false = ground arith in
      rw (at, behind_header body next, set, a, taken (body ++ take_padded 5 next), whole)
        (returns (refl, rw (==-refl tun, all) refl))
    where
      size : length (body ++ take_padded 5 next) ≡ length body + header_size
      size = omega (arith, length-append body (take_padded 5 next), length-take_padded 5 next)

      whole : (length (body ++ take_padded 5 next) == length body + header_size) ≡ true
      whole = rw size (==-refl _)

      all :
          take (length (body ++ take_padded 5 next)) (body ++ take_padded 5 next)
          ≡ body ++ take_padded 5 next
      all = take-length _
