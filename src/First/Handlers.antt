-- ===== src/First/Handlers.antt =====
-- process_tun and process_client of the first version. The text of its loop over the messages is that
-- of server/main.cpp.
pub mod Dropping
pub mod Fates
use over.Base.{
  match_option, ℕ, zero, suc, ◌+◌, ◌-◌, ◌++◌, Option, none, some, ltb, if◌then◌else◌, length, drop,
}
use over.Kernel.{Fd, Bytes, Kernel}
use over.Run.{spent, pure, get_vars, ◌>>=◌, ◌>>◌}
use over.Io
use over.Wire.{u32_at}
use over.Server.State.{Command, user_at, buf_at, set_buf, buf_size}
use over.First.Shared.{search_user_info_by_addr, free_client_fd}
use over.Server.Tun.{ip_header_size, daddr_offset, forward}
use over.Server.Client.{client_loop}

module _ (k : Kernel) where
  -- The block in do ... while(0): `continue` in it goes on behind it. `none` is one of the returns.
  unfoldable pub deliver : Bytes → Command (Option ℕ)
  unfolding user_at forward
  deliver buf = do
    s ← get_vars
    match_option (search_user_info_by_addr (u32_at buf daddr_offset) s.users) (pure (some 0))
        λ id. do u ← user_at id; forward k u.fd buf

  unfoldable pub tun_loop : ℕ → Fd → Command (Unit {0})
  unfolding deliver buf_at set_buf
  tun_loop zero tun_fd = λ m. spent
  tun_loop (suc f) tun_fd = do
    buf ← buf_at tun_fd
    if ltb (length buf) ip_header_size then pure tt else do
      sent ← deliver buf
      match_option sent (pure tt) λ n. do set_buf tun_fd (drop (length buf) buf); tun_loop f tun_fd

  unfoldable pub process_tun : ℕ → Fd → Command (Unit {0})
  unfolding tun_loop buf_at set_buf
  process_tun fuel tun_fd = do
    buf ← buf_at tun_fd
    got ← Io.read k tun_fd (buf_size - length buf)
    match_option got (pure tt) λ bytes. do set_buf tun_fd (buf ++ bytes); tun_loop fuel tun_fd

  -- Nothing is done about the end of the stream, where read gives no byte.
  unfoldable pub process_client : ℕ → Fd → Fd → Command (Unit {0})
  unfolding client_loop buf_at set_buf
  process_client fuel client_fd tun_fd = do
    buf ← buf_at client_fd
    got ← Io.read k client_fd (buf_size - length buf)
    match_option got (free_client_fd k client_fd)
        λ bytes. do set_buf client_fd (buf ++ bytes); client_loop k fuel client_fd tun_fd
