-- ===== src/Server/Client.antt =====
-- process_server and process_client: a new connection, and the messages of a client.
pub mod Framing
pub mod Faults
pub mod Serving
use over.Base.{
  ◌&&◌, ◌^◌, match_option, ℕ, zero, suc, ◌+◌, ◌-◌, Bool, true, false, not, Option, [], ◌++◌, ltb,
  ◌==◌, if◌then◌else◌, length, take, drop, match_int,
}
use over.Kernel.{Fd, Bytes, Kernel, accepts, epoll_adds}
use over.Run.{spent, fault, pure, get_vars, ◌>>=◌, ◌>>◌}
use over.Io
use over.Io.{ask, write_all}
use over.Text.{codes}
use over.Wire.{read_header, header_length, header_bytes, header_size}
use over.Server.State.{
  Command, User, user_at, change_user, buf_at, set_buf, short, buf_size, ip_req, ip_rsb, data_req,
  heartbeat,
}
use over.Server.Pool.{search_by_fd, allocate_ip_addr, free_client_fd, getpeername}

-- " 0.0.0.0 " DNS1 " " DNS2 " " DNS3, behind the client's address in the reply
abbrev pub reply_tail : Bytes
reply_tail = codes " 0.0.0.0 166.111.8.28 166.111.8.29 8.8.8.8"

unfoldable pub reply_text : User → Bytes
reply_text u = u.addr ++ reply_tail

-- `users[i].last_heartbeat_recved_secs = t`
unfoldable pub hear : ℕ → User → User
hear t u = record u { last_recved = t }

module _ (k : Kernel) where
  unfoldable pub accept : Command (Option Fd)
  accept m = let a = k.accept m.log in ask (accepts a) a m

  unfoldable pub epoll_add_fd : Fd → Command Bool
  epoll_add_fd fd m = let a = k.epoll_add m.log fd in ask (epoll_adds fd a) a m

  unfoldable pub process_server : Command (Unit {0})
  unfolding accept epoll_add_fd set_buf getpeername
  process_server = do
    client ← accept
    match_option client (pure tt) λ client_fd. do
      set_buf client_fd []
      _ ← getpeername k client_fd
      _ ← epoll_add_fd client_fd
      pure tt

  -- The branches of process_client by message type. The result says whether the loop goes on;
  -- `false` is one of the handler's early returns.
  unfoldable pub ip_request : Fd → Command Bool
  unfolding allocate_ip_addr user_at reply_text
  ip_request client_fd = do
    slot ← allocate_ip_addr k client_fd
    match_option slot (pure false) λ id. do
      u ← user_at id
      let text = reply_text u
      head ← write_all k client_fd (header_bytes (length text + header_size) ip_rsb)
      if short head header_size
          then pure false
          else do body ← write_all k client_fd text; pure (not (short body (length text)))

  unfoldable pub data_request : Fd → Bytes → Command Bool
  data_request tun_fd body = do r ← write_all k tun_fd body; pure (not (short r (length body)))

  -- With no entry for the client, search_user_info_by_fd gives -1, and users[-1] is written.
  unfoldable pub keep_alive : Fd → Command Bool
  unfolding search_by_fd change_user hear
  keep_alive client_fd = do
    s ← get_vars
    match_option (search_by_fd client_fd s.users) (λ m. fault)
        λ id. do now ← Io.time k; change_user id (hear now); pure true

  unfoldable pub dispatch : Fd → Fd → ℕ → Bytes → Command Bool
  unfolding ip_request data_request keep_alive
  dispatch client_fd tun_fd type body =
      if type == ip_req
      then ip_request client_fd
      else if type == data_req
      then data_request tun_fd body
      else if type == heartbeat
      then keep_alive client_fd
      else pure true

  -- A data request whose length is below -2^31 + 5: `datalen` wraps to a number above 2^31 - 6, and
  -- write is given that many bytes from behind the header on, of which these are in use. When write
  -- refuses, the handler returns; what it takes counts as an access behind the buffer.
  unfoldable pub wrapped_request : Fd → Bytes → Command Bool
  wrapped_request tun_fd body = do
    r ← Io.write k tun_fd body
    match_option r (pure false) (λ n m. fault)

  -- A message of the length -1 - n. Any other data request has nothing to write.
  unfoldable pub negative_message : Fd → Fd → ℕ → ℕ → Bytes → Command Bool
  unfolding wrapped_request dispatch
  negative_message client_fd tun_fd type n buf =
      if (type == data_req) && ltb (2 ^ 31) (n + 6)
      then wrapped_request tun_fd (drop header_size buf)
      else dispatch client_fd tun_fd type []

  -- The loop over the messages in the buffer. A negative length passes the test for a whole message,
  -- and memmove then leaves the buffer.
  unfoldable pub client_loop : ℕ → Fd → Fd → Command (Unit {0})
  unfolding dispatch negative_message buf_at set_buf read_header header_length
  client_loop zero client_fd tun_fd = λ m. spent
  client_loop (suc f) client_fd tun_fd = do
    buf ← buf_at client_fd
    if ltb (length buf) header_size
        then pure tt
        else (let h = read_header buf in
            match_int (header_length h)
              (λ len. if ltb (length buf) len then pure tt else do
                more ←
                    dispatch client_fd tun_fd h.type
                      (take (len - header_size) (drop header_size buf))
                if more
                    then (do set_buf client_fd (drop len buf); client_loop f client_fd tun_fd)
                    else pure tt)
              (λ n. do
                more ← negative_message client_fd tun_fd h.type n buf
                if more then (λ m. fault) else pure tt))

  unfoldable pub process_client : ℕ → Fd → Fd → Command (Unit {0})
  unfolding client_loop buf_at set_buf free_client_fd
  process_client fuel client_fd tun_fd = do
    buf ← buf_at client_fd
    got ← Io.read k client_fd (buf_size - length buf)
    match_option got (free_client_fd k client_fd) λ bytes.
        if length bytes == 0
        then free_client_fd k client_fd
        else do set_buf client_fd (buf ++ bytes); client_loop fuel client_fd tun_fd
