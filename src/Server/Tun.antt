-- ===== src/Server/Tun.antt =====
-- process_tun: packets from the tun device to the client that holds the destination address.
pub mod Delivery
pub mod Unknown
use over.Base.{
  match_option, ℕ, zero, suc, ◌+◌, ◌-◌, Option, none, some, ◌++◌, ltb, if◌then◌else◌, length, drop,
}
use over.Kernel.{Fd, Bytes, Kernel}
use over.Run.{spent, pure, get_vars, ◌>>=◌, ◌>>◌}
use over.Io
use over.Io.{write_all}
use over.Wire.{u32_at, header_bytes, header_size}
use over.Server.State.{Command, user_at, buf_at, set_buf, short, data_rsb, buf_size}
use over.Server.Pool.{search_by_addr}

-- sizeof(struct iphdr), and the place of `daddr` in it
abbrev pub ip_header_size : ℕ
ip_header_size = 20

abbrev pub daddr_offset : ℕ
daddr_offset = 16

module _ (k : Kernel) where
  -- A write to descriptor -1 is refused with EBADF.
  unfoldable pub write_all_to : Option Fd → Bytes → Command (Option ℕ)
  write_all_to none buf = pure none
  write_all_to (some fd) buf = write_all k fd buf

  -- The two writes of a packet of the tunnel: header, then packet. The result says whether the
  -- handler goes on.
  unfoldable pub forward : Option Fd → Bytes → Command (Option ℕ)
  unfolding write_all_to
  forward client_fd packet = do
    head ← write_all_to client_fd (header_bytes (length packet + header_size) data_rsb)
    if short head header_size then pure none else write_all_to client_fd packet

  unfoldable pub tun_loop : ℕ → Fd → Command (Unit {0})
  unfolding search_by_addr forward buf_at set_buf user_at
  tun_loop zero tun_fd = λ m. spent
  tun_loop (suc f) tun_fd = do
    buf ← buf_at tun_fd
    if ltb (length buf) ip_header_size then pure tt else do
      s ← get_vars
      match_option (search_by_addr (u32_at buf daddr_offset) s.users) (tun_loop f tun_fd) λ id. do
        u ← user_at id
        sent ← forward u.fd buf
        match_option sent (pure tt)
            λ n. do set_buf tun_fd (drop (length buf) buf); tun_loop f tun_fd

  unfoldable pub process_tun : ℕ → Fd → Command (Unit {0})
  unfolding tun_loop buf_at set_buf
  process_tun fuel tun_fd = do
    buf ← buf_at tun_fd
    got ← Io.read k tun_fd (buf_size - length buf)
    match_option got (pure tt) λ bytes. do set_buf tun_fd (buf ++ bytes); tun_loop fuel tun_fd
