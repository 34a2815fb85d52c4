-- ===== src/Relay/Connection.antt =====
-- The sending side of clientConnection.cpp: sendMessage, writeThread, push_to_write_queue and
-- keepLiveThread. The count of a failed or empty write with EAGAIN does not occur on the blocking
-- sockets of this server.

use over.Base.{
  ℕ, zero, suc, ◌+◌, ◌-◌, ◌%◌, Bool, true, false, ◌||◌, [], ◌==◌, ltb, if◌then◌else◌, match_option,
  take, pos,
}
use over.Kernel.{Fd, Bytes, Kernel}
use over.Run.{spent, fault, pure, ◌>>=◌, ◌>>◌}
use over.Io.{write_all, close}
use over.Wire.{header_bytes, header_size}
use over.Relay.State.{Command, Msg, ClientConnection, client_at, change_client, push}

-- sizeof(Msg::data)
abbrev pub data_size : ℕ
data_size = 4096

-- `message.type == 101 || message.type == 103`
abbrev pub has_body : ℕ → Bool
has_body type = (type == 101) || (type == 103)

unfoldable pub set_count : ℕ → ClientConnection → ClientConnection
set_count n c = record c { heart_beat_count = n }

unfoldable pub queue_message : Msg → ClientConnection → ClientConnection
unfolding push
queue_message msg c = record c { write_queue = push msg c.write_queue }

module _ (k : Kernel) where
  -- The body of a message with a length that is not negative. The result says whether it was sent.
  unfoldable pub send_body : Fd → ℕ → Bytes → Command Bool
  send_body fd len body = if ltb (data_size + header_size) len then (λ m. fault) else do
    r ← write_all k fd (take (len - header_size) body)
    pure (match_option r false (λ n. true))

  unfoldable pub send_message : ℕ → ℕ → ℕ → Bytes → Command Bool
  unfolding send_body
  send_message client type len body = do
    c ← client_at client
    head ← write_all k c.socket_fd (header_bytes len type)
    match_option head (pure false)
        λ n. if has_body type then send_body c.socket_fd len body else pure true

  -- One pass of the loop in keepLiveThread, after the second of sleep: whether the loop goes on.
  unfoldable pub keep_live_round : ℕ → Command Bool
  unfolding client_at change_client set_count send_message
  keep_live_round client = do
    c ← client_at client
    if ltb c.heart_beat_count 60
        then (do
          change_client client (set_count (c.heart_beat_count + 1))
          if (c.heart_beat_count + 1) % 20 == 0 then send_message client 104 0 [] else pure true)
        else pure false

  -- The thread, as long as no message of the client comes in between.
  unfoldable pub keep_live_thread : ℕ → ℕ → Command (Unit {0})
  unfolding keep_live_round client_at
  keep_live_thread zero client = λ m. spent
  keep_live_thread (suc f) client = do
    more ← keep_live_round client
    if more then keep_live_thread f client else (do c ← client_at client; close k c.socket_fd)

unfoldable pub push_to_write_queue : ℕ → ℕ → ℕ → Bytes → Command (Unit {0})
unfolding change_client queue_message
push_to_write_queue client len type bytes =
    if ltb (data_size + header_size) len
    then (λ m. fault)
    else change_client client (
        queue_message
          (record { length = pos len; type = type; data_bytes = take (len - header_size) bytes }))
