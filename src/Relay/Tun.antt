-- ===== src/Relay/Tun.antt =====
-- tun.cpp: mkAddr, and the threads between the tun device and the queues.
use over.Base.{
  Bool, true, false, Option, ℕ, ◌+◌, ◌∷◌, ◌++◌, ltb, if◌then◌else◌, match_option, length, drop,
}
use over.Kernel.{tun_opens, tun_names, Fd, Bytes, Kernel}
use over.Run.{fault, pure, get_vars, put_vars, ◌>>=◌, ◌>>◌}
use over.Io
use over.Io.{ask}
use over.Text.{decimal}
use over.Wire.{byte_at, header_size}
use over.Relay.State.{Command, pop}
use over.Relay.Address.{get_connection_by_ip}
use over.Relay.Connection.{push_to_write_queue}

-- sizeof(read_buf)
abbrev pub read_size : ℕ
read_size = 1600

unfoldable pub mk_addr : Bytes → Bytes
unfolding decimal
mk_addr str =
    decimal (byte_at str 0)
    ++ (46 ∷ decimal (byte_at str 1))
    ++ (46 ∷ decimal (byte_at str 2))
    ++ (46 ∷ decimal (byte_at str 3))

module _ (k : Kernel) where
  -- One pass of the loop in tunReader. A string of a negative size and a substring that starts
  -- behind the end throw; a shorter substring leaves mkAddr bytes that are not there.
  unfoldable pub tun_reader_round : Command (Unit {0})
  unfolding mk_addr get_connection_by_ip push_to_write_queue
  tun_reader_round = do
    s ← get_vars
    got ← Io.read k s.tun_fd read_size
    match_option got (λ m. fault)
        λ buf. if ltb (length buf) 19 then (λ m. fault) else (do
          conn ← get_connection_by_ip (mk_addr (drop 16 buf))
          match_option conn (pure tt)
              λ client. push_to_write_queue client (length buf + header_size) 103 buf)

  -- One pass of the loop in tunWriter, whose write is not looked at. With an empty queue it waits.
  unfoldable pub tun_writer_round : Command (Unit {0})
  unfolding pop
  tun_writer_round = do
    s ← get_vars
    match_option (pop s.waiting_queue) (pure tt)
        λ x. do put_vars (record s { waiting_queue = x.1 }); r ← Io.write k s.tun_fd (x.0); pure tt

  -- The constructor: `false` where it exits.
  unfoldable pub new_tun : Command Bool
  new_tun m =
      let a = k.open_tun m.log in
      (ask (tun_opens a) a >>= λ r. match_option r (pure false) name_device) m
    where
      name_device : Fd → Command Bool
      name_device fd m =
          let b = k.name_tun m.log fd in
          (ask (tun_names fd b) b >>= λ good.
          if good
          then (get_vars >>= λ s. put_vars (record s { tun_fd = fd }) >> pure true)
          else (Io.close k fd >> pure false))
            m

  -- tunWrite, which takes the two addresses out of the packet before it writes it; mkAddr reads
  -- behind the end of a shorter one.
  unfoldable pub tun_write : Bytes → Command (Option ℕ)
  tun_write buf = do
    s ← get_vars
    if ltb (length buf) 19 then (λ m. fault) else Io.write k s.tun_fd buf
