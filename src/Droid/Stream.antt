-- ===== src/Droid/Stream.antt =====
-- readToBuf, and rawToOver6: what is read from the tun device, on its way to the client.
use over.Base.{
  ℕ, zero, suc, ◌+◌, ◌-◌, Option, none, some, ◌++◌, ◌==◌, ltb, if◌then◌else◌, match_option, length,
  take, drop,
}
use over.Kernel.{Fd, Bytes, Kernel}
use over.Run.{spent, fault, pure, get_vars, ◌>>=◌}
use over.Io
use over.Wire.{header_bytes, header_size}
use over.Droid.State.{Command, packet_max_size, pipe_buf_len, type_reply, set_ip}

-- `total ? total : ret`
abbrev pub total_or : ℕ → Option ℕ → Option ℕ
total_or total ret = if total == 0 then ret else some total

module _ (k : Kernel) where
  -- The result is the returned number, `none` for -1, and the buffer.
  unfoldable pub read_to_buf : ℕ → Fd → Bytes → ℕ → Command (Option ℕ × Bytes)
  read_to_buf zero fd buffer total = λ m. spent
  read_to_buf (suc f) fd buffer total =
      if ltb (length buffer) (pipe_buf_len - packet_max_size)
      then (Io.read k fd packet_max_size >>= λ ret.
          match_option ret (pure (total_or total none, buffer)) λ bytes.
            if length bytes == 0
            then pure (total_or total (some 0), buffer)
            else read_to_buf f fd (buffer ++ bytes) (total + length bytes))
      else pure (total_or total (some 0), buffer)

  -- The end of rawToOver6, with the new `remain`. A failed write leaves temp at -1, and memmove then
  -- reads in front of the buffer.
  unfoldable pub move_up : Bytes → Option ℕ → ℕ → Command (Unit {0})
  unfolding set_ip
  move_up buffer temp remain =
      match_option temp (λ m. fault)
        λ n. if ltb (length buffer) n then (λ m. fault) else set_ip (drop n buffer) (remain - n)

  -- What follows the bytes in use is not looked at: `remain` is never more than their number.
  unfoldable pub raw_to_over6 : Fd → Command (Unit {0})
  unfolding move_up
  raw_to_over6 fd = do
    s ← get_vars
    if length s.ip_buffer == 0
        then pure tt
        else if s.remain == 0
        then (do
          _ ← Io.write k fd (header_bytes (length s.ip_buffer + header_size) type_reply)
          temp ← Io.write k fd s.ip_buffer
          move_up s.ip_buffer temp (length s.ip_buffer))
        else (do
          temp ← Io.write k fd (take s.remain s.ip_buffer)
          move_up s.ip_buffer temp s.remain)
