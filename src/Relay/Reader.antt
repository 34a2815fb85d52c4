-- ===== src/Relay/Reader.antt =====
-- The receiving side of clientConnection.cpp, readThread, and writeThread.
use over.Base.{
  ℕ, zero, suc, ◌+◌, ◌-◌, Bool, true, false, not, Option, none, some, [], ◌∷◌, ◌++◌, ◌==◌, ltb,
  if◌then◌else◌, match_option, match_int, length, drop,
}
use over.Kernel.{Fd, Bytes, Kernel}
use over.Run.{ok, spent, fault, pure, put_vars, ◌>>=◌, ◌>>◌}
use over.Io
use over.Text.{codes}
use over.Wire.{read_header, header_length, header_bytes, header_size}
use over.Relay.State.{Command, ClientConnection, client_at, change_client, push, pop}
use over.Relay.Address.{get_free_ip, set_ip_status, get_connection_by_ip, set_connection_with_ip}
use over.Relay.Connection.{data_size, set_count, send_message}

-- The text behind the address in the reply
abbrev pub info_tail : Bytes
info_tail = codes " 0.0.0.0 202.38.120.242 8.8.8.8 202.106.0.20"

unfoldable pub set_ipv4 : Bytes → ClientConnection → ClientConnection
set_ipv4 ip c = record c { ipv4 = ip }

-- Tun::pushQueue
unfoldable pub push_queue : Bytes → Command (Unit {0})
unfolding push
push_queue packet m =
    put_vars (record (m.vars) { waiting_queue = push packet m.vars.waiting_queue }) m

-- The first `n` bytes of the array that begins with these, zeros behind them.
unfoldable pub data_string : ℕ → Bytes → Bytes
data_string zero bs = []
data_string (suc n) [] = 0 ∷ data_string n []
data_string (suc n) (b ∷ bs) = b ∷ data_string n bs

-- The array after a write at its start.
abbrev pub replace : Bytes → Bytes → Bytes
replace new old = new ++ drop (length new) old

module _ (k : Kernel) where
  -- The two reading loops, into an object of `room` bytes: the bytes read, and whether they are all.
  -- At the end of the stream read gives nothing, and the loop goes on.
  unfoldable pub read_loop : ℕ → Fd → ℕ → ℕ → Bytes → Command (Bool × Bytes)
  read_loop zero fd room n got = λ m. spent
  read_loop (suc f) fd room n got =
      if ltb (length got) n
      then (do
        r ← Io.read k fd (n - length got)
        match_option r (pure (false, got)) λ bytes.
            if ltb room (length (got ++ bytes))
            then (λ m. fault)
            else read_loop f fd room n (got ++ bytes))
      else pure (true, got)

  -- The connection's address, a new one if it has none.
  unfoldable pub own_ip : ℕ → ClientConnection → Command Bytes
  unfolding get_free_ip change_client set_ipv4
  own_ip client c =
      if length c.ipv4 == 0
      then (do ip ← get_free_ip; change_client client (set_ipv4 ip); pure ip)
      else pure c.ipv4

  -- `!ipv4Address.length() || getConnectionByIp(ipv4Address) == NULL`
  unfoldable pub unconnected : ClientConnection → Command Bool
  unfolding get_connection_by_ip
  unconnected c =
      if length c.ipv4 == 0
      then pure true
      else (do old ← get_connection_by_ip c.ipv4; pure (match_option old true (λ x. false)))

  -- The message 100. The result is the text of the reply; `none` ends the thread.
  unfoldable pub ip_request : ℕ → Command (Option Bytes)
  unfolding client_at own_ip unconnected send_message set_ip_status set_connection_with_ip
  ip_request client = do
    c ← client_at client
    free ← unconnected c
    if free
        then (do
          ip ← own_ip client c
          let text = ip ++ info_tail
          sent ← send_message k client 101 (length text + header_size) text
          if sent
              then (do set_ip_status ip true; set_connection_with_ip ip client; pure (some text))
              else pure none)
        else (λ m. fault)

  -- The body of a message 102, into the array at `data`, and its way to the tun device: as many bytes
  -- as the message has with its header.
  unfoldable pub read_packet : ℕ → Fd → ℕ → Bytes → Command (Option Bytes)
  unfolding read_loop push_queue data_string
  read_packet fuel fd len bytes = do
    (whole, got) ← read_loop fuel fd data_size (len - header_size) []
    if not whole
        then pure none
        else if ltb data_size len
        then (λ m. fault)
        else (do push_queue (data_string len (replace got bytes)); pure (some (replace got bytes)))

  -- What memcpy copies behind the reply's text: its terminator and four bytes of memory.
  abbrev after_text : Command Bytes
  after_text m = ok (0 ∷ data_string 4 (k.heap_tail m.log)) m

  -- The switch over the type, with the header and the array as they stand afterwards: the reply to
  -- a request is made in the same variable.
  unfoldable pub switch_message : ℕ → ℕ → Bytes → Bytes → Command (Option (Bytes × Bytes))
  unfolding client_at change_client set_count ip_request read_packet read_header header_length
      data_string header_bytes
  switch_message fuel client header bytes = do
    c ← client_at client
    let h = read_header header
    if h.type == 100
        then (do
          reply ← ip_request client
          tail ← after_text
          pure (
              match_option reply none
                λ text. some (header_bytes (length text + header_size) 101, text ++ tail)))
        else if h.type == 102
        then match_int (header_length h)
            (λ len. do
              next ← read_packet fuel c.socket_fd len bytes
              pure (match_option next none λ b. some (header, b)))
            (λ n m. fault)
        else if h.type == 104
        then (do change_client client (set_count 0); pure (some (header, bytes)))
        else pure (some (header, bytes))

  -- One pass of the loop; a socket closed under it shows as a read that fails. The result is the
  -- variable `message` afterwards, or `none` at the loop's end. A failed read of the header leaves
  -- what the variable held before.
  unfoldable pub read_round : ℕ → ℕ → Bytes → Bytes → Command (Option (Bytes × Bytes))
  unfolding client_at read_loop switch_message
  read_round fuel client header bytes = do
    c ← client_at client
    if ltb c.heart_beat_count 60
        then (do
          (whole, head) ← read_loop fuel c.socket_fd header_size header_size []
          switch_message fuel client (replace head header) bytes)
        else pure none

  unfoldable pub read_thread : ℕ → ℕ → ℕ → Bytes → Bytes → Command (Unit {0})
  unfolding read_round client_at set_ip_status
  read_thread zero fuel client header bytes = λ m. spent
  read_thread (suc n) fuel client header bytes = do
    next ← read_round fuel client header bytes
    match_option next (do c ← client_at client; set_ip_status c.ipv4 false)
        λ x. read_thread n fuel client x.0 x.1

  -- One pass of the loop in writeThread: whether it goes on. With an empty queue it waits.
  unfoldable pub write_round : ℕ → Command Bool
  unfolding client_at change_client pop send_message
  write_round client = do
    c ← client_at client
    match_option (pop c.write_queue) (pure true) λ x. do
      change_client client (λ d. record d { write_queue = x.1 })
      match_int (x.0.length) (λ len. send_message k client (x.0.type) len (x.0.data_bytes))
          (λ n m. fault)
