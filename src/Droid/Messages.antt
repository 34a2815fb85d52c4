-- ===== src/Droid/Messages.antt =====
-- over6Handle: the messages of the client.
use over.Base.{ℕ, zero, suc, ◌+◌, ◌-◌, ◌++◌, ◌==◌, ltb, if◌then◌else◌, length, take, drop}
use over.Kernel.{Fd, Bytes, Kernel}
use over.Run.{ok, spent, fault, pure, get_vars, ◌>>=◌, ◌>>◌}
use over.Io
use over.Wire.{header_bytes, header_size, byte_at, u32_at}
use over.Droid.State.{
  Command, type_ip_request, type_ip_reply, type_request, type_heart, reply_bytes, set_packets,
}

module _ (k : Kernel) where
  -- `data->type`, which with four bytes in use is a byte of the memory behind them.
  unfoldable pub type_of : Bytes → Command ℕ
  type_of buffer m = ok (byte_at (buffer ++ k.heap_tail m.log) 4) m

  unfoldable pub ip_request : Command (Unit {0})
  unfolding reply_bytes
  ip_request = do
    s ← get_vars
    _ ← Io.write k s.over6_fd (header_bytes (length reply_bytes + header_size) type_ip_reply)
    _ ← Io.write k s.over6_fd reply_bytes
    pure tt

  -- With a length below the header's, actual_size wraps around to a size no block of memory has.
  unfoldable pub send_raw : Fd → ℕ → Bytes → Command (Unit {0})
  send_raw fd len buffer =
      if ltb len header_size
      then (λ m. fault)
      else (do _ ← Io.write k fd (take (len - header_size) (drop header_size buffer)); pure tt)

  unfoldable pub handle_packet : Fd → ℕ → ℕ → Bytes → Command (Unit {0})
  unfolding ip_request send_raw
  handle_packet fd type len buffer =
      if type == type_heart
      then pure tt
      else if type == type_request
      then send_raw fd len buffer
      else if type == type_ip_request
      then ip_request
      else pure tt

  unfoldable pub over6_handle : ℕ → Fd → Command (Unit {0})
  unfolding type_of handle_packet set_packets u32_at
  over6_handle zero fd = λ m. spent
  over6_handle (suc f) fd = do
    s ← get_vars
    let buffer = s.over6_packet_buffer
    if ltb (length buffer) 4
        then pure tt
        else (let len = u32_at buffer 0 in
            if ltb (length buffer) len then pure tt else do
              type ← type_of buffer
              handle_packet fd type len buffer
              set_packets (drop len buffer)
              over6_handle f fd)
