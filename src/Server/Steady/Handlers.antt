-- ===== src/Server/Steady/Handlers.antt =====
-- Each handler keeps the invariant, on every branch.
use over.Base.{
  ◌+◌, ◌&&◌, ◌^◌, take, ℕ, zero, suc, ◌-◌, ◌≤◌, Option, none, some, [], ◌++◌, arith, ◌==◌, ltb,
  length, length-append, length-drop, drop, get_elem?, Option-cases, inl, inr,
}
use over.Kernel.{Fd, Bytes, Kernel, ReadsWithin}
use over.Run.{
  Machine, Keeps, keeps, faults, spends, Keeps-bind, Keeps-if, Keeps-option, Keeps-int, Steady,
}
use over.Wire.{u32_at, read_header, header_length, header_size}
use over.Server.State.{
  Vars, User, user_at, buf_at, set_buf, buf_size, short, ip_req, data_req, heartbeat,
}
use over.Server.Pool.{search_by_addr, search_by_fd}
use over.Server.Tun.{write_all_to, forward, tun_loop, process_tun, ip_header_size, daddr_offset}
use over.Server.Client.{
  negative_message, wrapped_request, process_server, ip_request, data_request, keep_alive, dispatch,
  client_loop, process_client, reply_text,
}
use over.Server.Table.Changes.{hear-IsEntry}
use over.Server.Steady.{IsState}
use over.Server.Steady.Tables.{
  modify-IsState, user_at-Steady, set_buf-Steady, write_all-Steady, allocate_ip_addr-Steady,
  free_client_fd-Steady,
}

-- What buf_at reads is within the buffer's size.
buf_at-bind :
    {A : Type 0} (fd : Fd) (m : Machine Vars) (f : Bytes → over.Server.State.Command A)
    → IsState m.vars
    → ((b : Bytes) → length b ≤ buf_size → Keeps IsState (f b m))
    → Keeps IsState (over.Run.and_then (buf_at fd m) f)
unfolding buf_at
buf_at-bind fd m f s next = elim (Option-cases (get_elem? m.vars.bufs fd)) [
  | inl e ↦ rw e faults
  | inr (b, e) ↦ rw e (next b (s.within fd b e))
]

module _ (k : Kernel) where
  write_all_to-Steady : (fd : Option Fd) (b : Bytes) → Steady IsState (write_all_to k fd b)
  unfolding write_all_to
  write_all_to-Steady none b m s = keeps s
  write_all_to-Steady (some fd) b m s = write_all-Steady k fd b m s

  forward-Steady : (fd : Option Fd) (b : Bytes) → Steady IsState (forward k fd b)
  unfolding forward
  forward-Steady fd b m s =
      Keeps-bind (write_all_to-Steady fd _ m s) λ r n t.
        Keeps-if (short r header_size) _ _ (λ _. keeps t) (λ _. write_all_to-Steady fd b n t)

  tun_loop-Steady : (f : ℕ) (tun : Fd) → Steady IsState (tun_loop k f tun)
  unfolding tun_loop
  tun_loop-Steady zero tun m s = spends
  tun_loop-Steady (suc f) tun m s = buf_at-bind tun m _ s λ b le.
      Keeps-if (ltb (length b) ip_header_size) _ _ (λ _. keeps s)
        λ _.
          Keeps-option (search_by_addr (u32_at b daddr_offset) m.vars.users) _ _
            (λ _. tun_loop-Steady f tun m s)
            λ id _. Keeps-bind (user_at-Steady id m s) λ u n t.
              Keeps-bind (forward-Steady u.fd b n t) λ r o v.
                Keeps-option r _ _ (λ _. keeps v)
                  λ w _.
                    Keeps-bind
                      (set_buf-Steady tun (drop (length b) b)
                        (omega (arith, length-drop (length b) b)) o v)
                      λ _ p x. tun_loop-Steady f tun p x

  -- Packets from the tun device.
  pub process_tun-Steady :
      ReadsWithin k → (fuel : ℕ) (tun : Fd) → Steady IsState (process_tun k fuel tun)
  unfolding process_tun
  process_tun-Steady within fuel tun m s = buf_at-bind tun m _ s λ b le.
      Keeps-option (k.read m.log tun (buf_size - length b)) _ _ (λ _. keeps s)
        λ bytes e.
          Keeps-bind
            (set_buf-Steady tun (b ++ bytes)
              (omega (arith, length-append b bytes, within m.log tun (buf_size - length b) bytes e))
              _ s)
            λ _ n t. tun_loop-Steady fuel tun n t

  -- A new connection.
  pub process_server-Steady : Steady IsState (process_server k)
  unfolding process_server
  process_server-Steady m s =
      Keeps-option (k.accept m.log) _ _ (λ _. keeps s)
        λ fd _. Keeps-bind (set_buf-Steady fd [] (omega arith) _ s) λ _ n t. keeps t

  ip_request-Steady : (fd : Fd) → Steady IsState (ip_request k fd)
  unfolding ip_request
  ip_request-Steady fd m s = Keeps-bind (allocate_ip_addr-Steady k fd m s) λ r n t.
      Keeps-option r _ _ (λ _. keeps t)
        λ id _. Keeps-bind (user_at-Steady id n t) λ u o v.
          Keeps-bind (write_all-Steady k fd _ o v) λ q p x.
            Keeps-if (short q header_size) _ _ (λ _. keeps x)
              λ _. Keeps-bind (write_all-Steady k fd (reply_text u) p x) λ w z y. keeps y

  data_request-Steady : (fd : Fd) (b : Bytes) → Steady IsState (data_request k fd b)
  unfolding data_request
  data_request-Steady fd b m s = Keeps-bind (write_all-Steady k fd b m s) λ r n t. keeps t

  keep_alive-Steady : (fd : Fd) → Steady IsState (keep_alive k fd)
  unfolding keep_alive
  keep_alive-Steady fd m s =
      Keeps-option (search_by_fd fd m.vars.users) _ _ (λ _. faults)
        λ i _. keeps (modify-IsState _ i m.vars s λ u _ e. hear-IsEntry i _ u e)

  dispatch-Steady : (c t type : ℕ) (b : Bytes) → Steady IsState (dispatch k c t type b)
  unfolding dispatch
  dispatch-Steady c t type b m s =
      Keeps-if (type == ip_req) _ _ (λ _. ip_request-Steady c m s)
        λ _.
          Keeps-if (type == data_req) _ _ (λ _. data_request-Steady t b m s)
            λ _. Keeps-if (type == heartbeat) _ _ (λ _. keep_alive-Steady c m s) λ _. keeps s

  negative_message-Steady :
      (c t type n : ℕ) (buf : Bytes) → Steady IsState (negative_message k c t type n buf)
  unfolding negative_message wrapped_request
  negative_message-Steady c t type n buf m s =
      Keeps-if {m = m} ((type == data_req) && ltb (2 ^ 31) (n + 6)) _ _
        (λ _.
          Keeps-option (k.write m.log t (drop header_size buf)) _ _ (λ _. keeps s) λ r _. faults)
        (λ _. dispatch-Steady c t type [] m s)

  client_loop-Steady : (f c t : ℕ) → Steady IsState (client_loop k f c t)
  unfolding client_loop
  client_loop-Steady zero c t m s = spends
  client_loop-Steady (suc f) c t m s = buf_at-bind c m _ s λ b le.
      Keeps-if (ltb (length b) header_size) _ _ (λ _. keeps s)
        λ _.
          Keeps-int (header_length (read_header b)) _ _
            (λ len _.
              Keeps-if (ltb (length b) len) _ _ (λ _. keeps s)
                λ _.
                  Keeps-bind
                    (dispatch-Steady c t (read_header b).type
                      (take (len - header_size) (drop header_size b)) m s)
                    λ more n v.
                      Keeps-if more _ _
                        (λ _.
                          Keeps-bind
                            (set_buf-Steady c (drop len b) (omega (arith, length-drop len b)) n v)
                            λ _ o w. client_loop-Steady f c t o w)
                        (λ _. keeps v))
            (λ n'.
              Keeps-bind (negative_message-Steady c t (read_header b).type n' b m s)
                λ more n v. Keeps-if more _ _ (λ _. faults) (λ _. keeps v))

  -- The messages of a client.
  pub process_client-Steady :
      ReadsWithin k → (fuel c t : ℕ) → Steady IsState (process_client k fuel c t)
  unfolding process_client
  process_client-Steady within fuel c t m s = buf_at-bind c m _ s λ b le.
      Keeps-option (k.read m.log c (buf_size - length b)) _ _ (λ _. free_client_fd-Steady k c _ s)
        λ bytes e.
          Keeps-if (length bytes == 0) _ _ (λ _. free_client_fd-Steady k c _ s)
            λ _.
              Keeps-bind
                (set_buf-Steady c (b ++ bytes)
                  (omega
                    (arith, length-append b bytes, within m.log c (buf_size - length b) bytes e))
                  _ s)
                λ _ n v. client_loop-Steady fuel c t n v
