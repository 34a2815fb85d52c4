-- ===== src/Vpn/Socket.antt =====
-- handle_socket of jni/proto.cpp: the messages of the server. The result `true` stands for 0, and
-- `false` for -1.
use over.Base.{
  none, Option, ℕ, zero, suc, ◌+◌, ◌-◌, Bool, true, false, ◌||◌, List, [], ◌∷◌, ◌++◌, ltb, ◌==◌,
  if◌then◌else◌, match_option, match_int, length,
}
use over.Kernel.{writes, Fd, Bytes, Kernel}
use over.Run.{ok, spent, fault, pure, get_vars, put_vars, ◌>>=◌, ◌>>◌}
use over.Io
use over.Io.{ask}
use over.Wire.{read_header, header_length, header_size, u32_bytes}
use over.Vpn.State.{
  Vars, Command, get_tun_fd, add64, slice, overwrite, wrote, buffer_size, ip_reply_type,
  packet_recv_type, heartbeat_type,
}
use over.Vpn.Config.{c_string, read_ips}

-- memmove(socket_buffer, socket_buffer + len, socket_nreads - len)
unfoldable pub shift : ℕ → Vars → Vars
unfolding slice overwrite
shift len s = record s {
  memory = overwrite s.memory 0 (slice s.memory len (s.nreads - len));
  nreads = s.nreads - len;
}

-- recv at the end of the bytes in use
unfoldable pub append : Bytes → Vars → Vars
unfolding overwrite
append bytes s = record s {
  memory = overwrite s.memory s.nreads bytes;
  nreads = s.nreads + length bytes;
}

unfoldable pub count_in : ℕ → Vars → Vars
count_in len s = record s { in_bytes = add64 s.in_bytes len; in_packets = add64 s.in_packets 1 }

module _ (k : Kernel) where
  -- Each block in one write, up to the first that is not taken whole.
  unfoldable pub write_each : Fd → List Bytes → Command Bool
  write_each fd [] = pure true
  write_each fd (b ∷ bs) = do
    r ← Io.write k fd b
    if wrote r (length b) then write_each fd bs else pure false

  -- What stands in memory behind the vector.
  abbrev after_heap : Command Bytes
  after_heap m = ok (k.heap_tail m.log) m

  -- The vector has no terminator of its own, so the text goes on into the memory behind it.
  unfoldable pub ip_reply : Bytes → Command Bool
  unfolding c_string read_ips write_each
  ip_reply text = do
    tail ← after_heap
    s ← get_vars
    match_option (read_ips 5 (c_string (text ++ tail))) (λ m. fault)
        λ ips. write_each s.response_fd (ips ++ u32_bytes s.socket_fd ∷ [])

  unfoldable pub heartbeat_message : Command Bool
  heartbeat_message = do
    now ← Io.time k
    s ← get_vars
    put_vars (record s { last_from_server = now })
    pure true

  -- The test of write's result, and the counters.
  unfoldable pub note_packet : ℕ → Option ℕ → Command Bool
  unfolding count_in
  note_packet len r = do
    s ← get_vars
    if wrote r len then (put_vars (count_in len s) >> pure true) else pure false

  -- The write starts at the body, but is as long as the whole message.
  unfoldable pub packet_recv : ℕ → Command Bool
  unfolding get_tun_fd slice note_packet
  packet_recv len = do
    s ← get_vars
    match_int (get_tun_fd s)
        (λ tun.
          if ltb buffer_size (header_size + len)
          then (λ m. fault)
          else do r ← Io.write k tun (slice s.memory header_size len); note_packet len r)
        (λ n. pure true)

  -- A vector of a size below zero throws.
  unfoldable pub handle_message : ℕ → ℕ → Command Bool
  unfolding ip_reply heartbeat_message packet_recv slice
  handle_message type len = do
    s ← get_vars
    if type == ip_reply_type
        then (if ltb len header_size
            then (λ m. fault)
            else ip_reply (slice s.memory header_size (len - header_size)))
        else if type == heartbeat_type
        then heartbeat_message
        else if type == packet_recv_type
        then packet_recv len
        else pure false

  -- The length is -1 - n. A vector of that size throws, and memmove would start in front of the
  -- buffer. As the size of a write it is above SSIZE_MAX, which write refuses with -1: what it should
  -- be when the length is -1.
  unfoldable pub negative_message : ℕ → ℕ → Command Bool
  unfolding get_tun_fd
  negative_message type n = do
    s ← get_vars
    if (type == ip_reply_type) || (type == heartbeat_type)
        then (λ m. fault)
        else if type == packet_recv_type
        then match_int (get_tun_fd s)
            (λ tun. do ask (writes tun [] none) tt; if n == 0 then (λ m. fault) else pure false)
            (λ no_tun. λ m. fault)
        else pure false

  unfoldable pub socket_loop : ℕ → Command Bool
  unfolding read_header header_length handle_message negative_message shift
  socket_loop zero = λ m. spent
  socket_loop (suc f) = do
    s ← get_vars
    if ltb s.nreads header_size
        then pure true
        else (let h = read_header s.memory in
            match_int (header_length h)
              (λ len. if ltb s.nreads len then pure true else do
                good ← handle_message h.type len
                if good
                    then (do s ← get_vars; put_vars (shift len s); socket_loop f)
                    else pure false)
              (λ n. negative_message h.type n))

  unfoldable pub handle_socket : ℕ → Command Bool
  unfolding socket_loop append
  handle_socket fuel = do
    s ← get_vars
    got ← Io.read k s.socket_fd (buffer_size - s.nreads)
    match_option got (pure false)
        λ bytes. do s ← get_vars; put_vars (append bytes s); socket_loop fuel
